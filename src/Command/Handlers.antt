-- ===== src/Command/Handlers.antt =====
-- `push` and `pop` on a queue that exists.
use aoq.Prelude.{
  ℕ, ◌≤◌, ◌<◌, ◌∙◌, ◌≡◌, refl, ◌≢◌, inl, inr, false, some, none, List, [], ◌∷◌, ◌++◌, arith, length,
  get_elem?, Bool-cases, ◌==◌, if◌then◌else◌,
}
use aoq.Heap.{Ptr, null, ok, fault, ◌>>=◌, Returns, read, write, load-ok}
use aoq.Heap.Chain.{Node, Cells}
use aoq.CText.{c_string}
use aoq.MemPool.{Mem}
use aoq.Parser.{Arg}
use aoq.Queue.{int_max, Message, Queue, Qnodes, create_qnode, push_queue, pop_queue}
use aoq.Queue.Push.{IsQueue, message, id_behind, push_queue-Pushed, push_queue_refused}
use aoq.Queue.Pop.{pop_queue-Popped}
use aoq.HashTable.{hash_find}
use aoq.Queue.Fifo.{new_node-IsQueue}
use aoq.Registry.{Registry, get_queue}
use aoq.Registry.Get.{get_queue-found}
use aoq.Command.{
  Server, Outside, first_arg, is_bad_name, reply, one_byte, get_queue_name, finish, push, pop,
  answer_pop, message_reply,
}

-- The request `args` names a queue that the table knows: it stands at `p` and is `q`.
pub record Opens (o : Outside) (args : List Arg) (s : Server) (p : Ptr) (q : Queue) : Type 0 where
  pub arg : Arg
  pub qname : List ℕ
  pub text : List ℕ
  pub first : first_arg args ≡ ok arg
  pub good : is_bad_name arg ≡ false
  pub name : get_queue_name o.beyond s.mem.chunks arg ≡ ok qname
  pub shown : c_string qname ≡ ok text
  pub some_text : length text == 0 ≡ false
  pub known : hash_find o.fuel s.names.ht qname ≡ ok (some p)
  pub at : p ≢ null
  pub there : read s.names.queues p ≡ some q

abbrev pub with_queue : Registry → Ptr → Queue → Registry
with_queue names p q = record names { queues = write names.queues p (some q) }

answer_pop-one_arg :
    (fd fuel : ℕ) (s : Server) (n : Ptr) (v : Node (Message (List Arg))) (second : Arg)
    → fd ≢ 0
    → n ≢ null
    → read s.nodes n ≡ some v
    → get_elem? v.val.arg 1 ≡ some second
    → second.cursor ≡ none
    → answer_pop fuel fd (some n) s ≡ fault
unfolding answer_pop message_reply
answer_pop-one_arg fd fuel s n v second ne nn r g e =
    let not_log : fd == 0 ≡ false = ground arith in rw (load-ok s.nodes n nn r, not_log, g, e)

module _ {o : Outside} {args : List Arg} {s : Server} {p : Ptr} {q : Queue}
    (opens : Opens o args s p q) (fd : ℕ) where
  opened : get_queue o.malloc_queue o.realloc o.fuel o.rands opens.qname s.names ≡ ok (p, s.names)
  opened = get_queue-found o.malloc_queue o.realloc o.fuel o.rands opens.qname s.names p opens.known

  push-runs : push o fd args s ≡ (do
    let (n, nodes) = create_qnode o.malloc_node args s.nodes
    (_, q', nodes') ← push_queue o.max_size q n nodes
    ok (
        reply fd
          (one_byte b'2' b'1')
          (record s { nodes = nodes'; names = with_queue s.names p q' })))
  unfolding push
  push-runs = rw (
    opens.first,
    opens.good,
    opens.name,
    opens.shown,
    opens.some_text,
    opened,
    load-ok s.names.queues p opens.at opens.there,
  )

  pub pop-runs : pop o fd args s ≡ (do
    (r, q', nodes) ← pop_queue q s.nodes
    answered ← answer_pop o.fuel fd r (record s { nodes = nodes; names = with_queue s.names p q' })
    finish o.fuel args answered)
  unfolding pop
  pop-runs = rw (
    opens.first,
    opens.good,
    opens.name,
    opens.shown,
    opens.some_text,
    opened,
    load-ok s.names.queues p opens.at opens.there,
  )

  -- What a handler leaves when the queue at `p` ends up holding the messages `xs`, and the reply is `text`.
  pub record Leaves (text : List ℕ) (xs : Cells (Message (List Arg))) (s' : Server) : Type 0 where
    pub queue : Queue
    pub holds : IsQueue s'.nodes queue xs
    pub stored : read s'.names.queues p ≡ some queue
    pub table : s'.names.ht ≡ s.names.ht
    pub replies : s'.replies ≡ (if fd == 0 then s.replies else (fd, text) ∷ s.replies)

  reply-Leaves :
      (text : List ℕ) (xs : Cells (Message (List Arg))) (q' : Queue) (nodes : Qnodes (List Arg))
      (mem : Mem)
      → IsQueue nodes q' xs
      → Leaves text xs
          (reply fd text (record s { mem = mem; nodes = nodes; names = with_queue s.names p q' }))
  unfolding read
  reply-Leaves text xs q' nodes mem is = elim (Bool-cases (fd == 0)) [
    | inl e ↦ rw e (record {
      queue = q';
      holds = is;
      stored = ground arith;
      table = refl;
      replies = rw e refl;
    })
    | inr e ↦ rw e (record {
      queue = q';
      holds = is;
      stored = ground arith;
      table = refl;
      replies = rw e refl;
    })
  ]

  reply-mem : (text : List ℕ) (s' : Server) → (reply fd text s').mem ≡ s'.mem
  reply-mem text s' = elim (Bool-cases (fd == 0)) [ inl e ↦ rw e refl | inr e ↦ rw e refl ]

  -- `push` to a queue that the table knows, is well-formed and has at most `aoq_max_size` messages, and
  -- fewer than an `int` counts, puts the request's arguments behind them as a numbered message, and leaves
  -- the chunks alone; so a queue may have `aoq_max_size + 1` of them. The reply is
  -- "1", and there is none when `fd` is 0.
  pub push-Pushed :
      (xs : Cells (Message (List Arg)))
      → IsQueue s.nodes q xs
      → length xs ≤ o.max_size
      → length xs < int_max
      → Returns (push o fd args s) λ s'.
        Leaves
          (one_byte b'2' b'1')
          (xs ++ ((o.malloc_node.fresh s.nodes, message (id_behind o.max_size xs) args) ∷ []))
          s'
        × (s'.mem ≡ s.mem)
  unfolding create_qnode
  push-Pushed xs is le few =
      let (is', ne, r, out) = new_node-IsQueue o.malloc_node o.max_size s.nodes q xs args is in
      let ((b, q', nodes'), run, pushed) =
        push_queue-Pushed o.max_size xs (o.malloc_node.fresh s.nodes) _ is' ne r out le few in
      (_, push-runs ∙ rw run, (reply-Leaves _ _ q' nodes' s.mem pushed.queue, reply-mem _ _))

  -- `push` to a queue that the table knows, is well-formed and has more than `aoq_max_size` messages
  -- leaves the queue with the messages that it held and no other, and the chunks alone: those of the
  -- request are no message's. The reply is "1" all the same, and there is none when `fd` is 0.
  pub push-refused :
      (xs : Cells (Message (List Arg)))
      → IsQueue s.nodes q xs
      → o.max_size < length xs
      → Returns (push o fd args s) λ s'. Leaves (one_byte b'2' b'1') xs s' × (s'.mem ≡ s.mem)
  unfolding create_qnode
  push-refused xs is lt =
      let (is', ne, r, out) = new_node-IsQueue o.malloc_node o.max_size s.nodes q xs args is in
      let ((b, q', nodes'), run, (_, e, still)) =
        push_queue_refused o.max_size xs (o.malloc_node.fresh s.nodes) _ is' ne r out lt in
      (_, push-runs ∙ rw run, (reply-Leaves _ _ q' nodes' s.mem (rw e still), reply-mem _ _))

  -- `pop` from a connection (`fd` is not 0) faults when the first message of the queue, which the table
  -- knows and is well-formed, was pushed with one argument, so that the second one has no cursor.
  pub pop-one_arg :
      (n : Ptr) (v : Message (List Arg)) (xs : Cells (Message (List Arg))) (second : Arg)
      → fd ≢ 0
      → IsQueue s.nodes q ((n, v) ∷ xs)
      → get_elem? v.arg 1 ≡ some second
      → second.cursor ≡ none
      → pop o fd args s ≡ fault
  pop-one_arg n v xs second ne is g e =
      let ((r, q', nodes), run, popped) = pop_queue-Popped n v xs is in
      pop-runs
      ∙ rw (run, popped.got)
          (rw (
            answer_pop-one_arg fd o.fuel
              (record s { nodes = nodes; names = with_queue s.names p q' }) n _ second ne
              (is.chain.0) popped.detached g e))
