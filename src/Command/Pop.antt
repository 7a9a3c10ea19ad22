-- ===== src/Command/Pop.antt =====
-- `pop` on a queue that exists, when the message can be answered and freed.
use aoq.Prelude.{ℕ, ◌∙◌, ◌≡◌, refl, ◌≢◌, false, some, none, List, [], ◌∷◌, arith, ◌==◌}
use aoq.Heap.{Ptr, null, ok, Returns, read, write, load-ok, free-ok}
use aoq.Heap.Chain.{Node, Cells, Chain-write}
use aoq.MemPool.{Mem}
use aoq.Parser.{Arg, free_args}
use aoq.Queue.{Message, Queue}
use aoq.Queue.Push.{IsQueue}
use aoq.Queue.Pop.{pop_queue-Popped, pop_queue-nil}
use aoq.Command.{Server, Outside, no_byte, finish, pop, answer_pop, message_reply}
use aoq.Command.Answer.{Says, value_text, message_reply-Says}
use aoq.Command.Handlers.{Opens, Leaves, with_queue, pop-runs}

answer_pop-message :
    (fd fuel : ℕ) (s : Server) (n : Ptr) (nd : Node (Message (List Arg))) (text : List ℕ)
    (freed : Mem)
    → fd ≢ 0
    → n ≢ null
    → read s.nodes n ≡ some nd
    → message_reply fuel s.mem.chunks nd.val.arg ≡ ok text
    → free_args fuel nd.val.arg s.mem ≡ ok freed
    → answer_pop fuel fd (some n) s
      ≡ ok
          (record s { mem = freed; nodes = write s.nodes n none; replies = (fd, text) ∷ s.replies })
unfolding answer_pop finish
answer_pop-message fd fuel s n nd text freed ne nn r replied e =
    let not_log : fd == 0 ≡ false = ground arith in
    rw (load-ok s.nodes n nn r, not_log, replied, e, free-ok s.nodes n nn r)

finish-ok :
    (fuel : ℕ) (args : List Arg) (s : Server) (freed : Mem)
    → free_args fuel args s.mem ≡ ok freed
    → finish fuel args s ≡ ok (record s { mem = freed })
unfolding finish
finish-ok fuel args s freed e = rw e

module _ {o : Outside} {args : List Arg} {s : Server} {p : Ptr} {q : Queue}
    (opens : Opens o args s p q) (fd : ℕ) where
  -- `pop` from a connection (`fd` is not 0), on a queue that the table knows and is well-formed, replies
  -- with the first message, takes it off the queue and frees its node, its arguments and those of the
  -- request. The reply is "1103", the second argument's length in six digits, a blank, and its text,
  -- from its place in its chunk to the end of the last chunk behind that. This asks that they fit the buffer
  -- of the reply, and that the arguments of the message and then of the request can be freed.
  pub pop-answered :
      (n : Ptr) (v : Message (List Arg)) (xs : Cells (Message (List Arg))) (len : ℕ) (text : List ℕ)
      (freed rest : Mem)
      → fd ≢ 0
      → IsQueue s.nodes q ((n, v) ∷ xs)
      → Says o.fuel s.mem.chunks v.arg len text
      → free_args o.fuel v.arg s.mem ≡ ok freed
      → free_args o.fuel args freed ≡ ok rest
      → Returns (pop o fd args s) λ s'.
        Leaves opens fd (value_text len text) xs s' × (s'.mem ≡ rest) × (read s'.nodes n ≡ none)
  unfolding read
  pop-answered n v xs len text freed rest ne is says e e' =
      let replied = message_reply-Says o.fuel s.mem.chunks v.arg len text says in
      let not_log : fd == 0 ≡ false = ground arith in
      let ((r, q', nodes), run, popped) = pop_queue-Popped n v xs is in
      let s₁ : Server = record s { nodes = nodes; names = with_queue s.names p q' } in
      let s₂ : Server = record s₁ {
        mem = freed;
        nodes = write nodes n none;
        replies = (fd, value_text len text) ∷ s.replies;
      } in
      let (nn, rn, out, chain) = is.chain in
      (
        record s₂ { mem = rest },
        pop-runs opens fd
            ∙ rw (run, popped.got)
                (rw (
                  answer_pop-message fd o.fuel s₁ n _ (value_text len text) freed ne nn
                      popped.detached replied e,
                  finish-ok o.fuel args s₂ rest e',
                )),
        (
          record {
            queue = q';
            holds = record {
              chain = Chain-write nodes xs n none popped.queue.chain out;
              head = popped.queue.head;
              tail = popped.queue.tail;
              total = popped.queue.total;
            };
            stored = ground arith;
            table = refl;
            replies = rw not_log refl;
          },
          refl,
          ground arith,
        ),
      )

  -- `pop` from a connection (`fd` is not 0), on a queue that the table knows, is well-formed and has no
  -- message, replies with an empty text, leaves the queue empty and frees the request's arguments, if they
  -- can be freed.
  pub pop-empty :
      (freed : Mem)
      → fd ≢ 0
      → IsQueue s.nodes q []
      → free_args o.fuel args s.mem ≡ ok freed
      → Returns
          (pop o fd args s)
          λ s'. Leaves opens fd (no_byte b'3') [] s' × (s'.mem ≡ freed) × (s'.nodes ≡ s.nodes)
  unfolding read answer_pop
  pop-empty freed ne is e =
      let not_log : fd == 0 ≡ false = ground arith in
      let s₁ : Server = record s {
        names = with_queue s.names p q;
        replies = (fd, no_byte b'3') ∷ s.replies;
      } in
      (
        record s₁ { mem = freed },
        pop-runs opens fd ∙ rw (pop_queue-nil is, not_log) (finish-ok o.fuel args s₁ freed e),
        (
          record {
            queue = q;
            holds = is;
            stored = ground arith;
            table = refl;
            replies = rw not_log refl;
          },
          refl,
          refl,
        ),
      )
