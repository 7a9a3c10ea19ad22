-- ===== src/Command.antt =====
-- command.c: the handlers of the commands. `fd` is 0 for a request that is read back from the log.
pub mod Handlers
pub mod Answer
pub mod Pop
pub mod Crossing
pub mod Report
mod Tests
use aoq.Prelude.{
  ℕ, zero, suc, ◌+◌, ◌-◌, ◌||◌, Bool, true, false, Option, none, some, List, [], ◌∷◌, ◌++◌, ltb,
  leb, ◌==◌, if◌then◌else◌, drop, get_elem?, length, replicate,
}
use aoq.Heap.{Ptr, null, Run, ok, fault, stuck, ◌>>=◌, Heap, write, load, free, of_option, Malloc}
use aoq.Heap.Chain.{Node}
use aoq.CText.{c_string}
use aoq.CText.Digits.{six_digits}
use aoq.MemPool.{ChunkNode, Mem}
use aoq.Cursor.{Cursor, read_bytes}
use aoq.Parser.{Arg, free_args}
use aoq.Queue.{Message, Queue, Qnodes, create_qnode, push_queue, pop_queue, delete_queue}
use aoq.HashTable.{HashTable, Realloc, hash_find, hash_delete}
use aoq.Registry.{Registry, get_queue}
use aoq.Func.{trim}

-- What the handlers work on; `replies` holds what they give to `write_reply`, with the connection
-- that it is for, the latest first.
pub record Server : Type 0 where
  pub mem : Mem
  pub nodes : Qnodes (List Arg)
  pub names : Registry
  pub replies : List (ℕ × List ℕ)

-- What they get from outside: the allocators, `realloc` and `rand()`; what memory holds behind the
-- block of a queue's name; `Serv->aoq_max_size`; and the fuel of the loops over lists.
pub record Outside : Type 0 where
  pub malloc_node : Malloc (Node (Message (List Arg)))
  pub malloc_queue : Malloc Queue
  pub realloc : Realloc
  pub rands : List ℕ
  pub beyond : List ℕ
  pub max_size : ℕ
  pub fuel : ℕ

abbrev pub first_arg : List Arg → Run Arg
first_arg [] = fault
first_arg (a ∷ _) = ok a

-- `args->len == 0 || args->len >= 1024`
abbrev pub is_bad_name : Arg → Bool
is_bad_name a = a.len == 0 || leb 1024 a.len

-- `write_reply(fd, text, …)`
abbrev pub reply_to : ℕ → List ℕ → Server → Server
reply_to fd text s = record s { replies = (fd, text) ∷ s.replies }

-- `if(fd != 0) write_reply(fd, text, …)`
abbrev pub reply : ℕ → List ℕ → Server → Server
reply fd text s = if fd == 0 then s else reply_to fd text s

-- `"110" c "00000" n " " tail`, the fixed replies.
abbrev pub one_byte : ℕ → ℕ → List ℕ
one_byte command byte =
    b'1' ∷ b'1' ∷ b'0' ∷ command ∷ b'0' ∷ b'0' ∷ b'0' ∷ b'0' ∷ b'0' ∷ b'1' ∷ 32 ∷ byte ∷ b'\n' ∷ []

abbrev pub no_byte : ℕ → List ℕ
no_byte command =
    b'1' ∷ b'1' ∷ b'0' ∷ command ∷ b'0' ∷ b'0' ∷ b'0' ∷ b'0' ∷ b'0' ∷ b'0' ∷ 32 ∷ b'\n' ∷ []

-- The memory from the trimmed name on.
unfoldable pub get_queue_name : List ℕ → Heap ChunkNode → Arg → Run (List ℕ)
get_queue_name beyond h a = do
  c ← of_option a.cursor
  s ← read_bytes h c.ptr a.len
  qname ← trim (s ++ 0 ∷ []) a.len
  ok (qname ++ beyond)

-- The end of a handler: the arguments are freed, and the reply is written.
unfoldable pub finish : ℕ → List Arg → Server → Run Server
finish fuel args s = do m ← free_args fuel args s.mem; ok (record s { mem = m })

-- `nil`
unfoldable pub nil : ℕ → List Arg → Server → Run Server
nil fuel args s = finish fuel args s

unfoldable pub push : Outside → ℕ → List Arg → Server → Run Server
push o fd args s = do
  a ← first_arg args
  if is_bad_name a then finish o.fuel args (reply fd (one_byte b'2' b'0') s) else do
    qname ← get_queue_name o.beyond s.mem.chunks a
    text ← c_string qname
    if length text == 0 then finish o.fuel args (reply fd (one_byte b'2' b'0') s) else do
      (p, names) ← get_queue o.malloc_queue o.realloc o.fuel o.rands qname s.names
      aoq ← load names.queues p
      let (n, nodes) = create_qnode o.malloc_node args s.nodes
      (_, aoq', nodes') ← push_queue o.max_size aoq n nodes
      ok (
          reply fd (one_byte b'2' b'1') (record s {
            nodes = nodes';
            names = record names { queues = write names.queues p (some aoq') };
          }))

-- The text from `cursor->node` on, without its own chunk: what the loop of `pop` appends.
unfoldable pub chunks_behind : ℕ → Heap ChunkNode → Ptr → Run (List ℕ)
chunks_behind zero h p = stuck
chunks_behind (suc fuel) h p = do
  n ← load h p
  let more : Run (List ℕ) = do
    next ← load h n.next
    t ← c_string next.val
    rest ← chunks_behind fuel h n.next
    ok (t ++ rest)
  if n.next == null then ok [] else more

-- The size of `response`.
abbrev pub response_size : ℕ
response_size = 1000010

-- The reply of `pop` with a message's second argument. Its text runs to the end of the request. Neither
-- the bytes that `memset` clears nor the text with its `NUL` may be more than the buffer has.
unfoldable pub message_reply : ℕ → Heap ChunkNode → List Arg → Run (List ℕ)
message_reply fuel h args = do
  arg ← of_option (get_elem? args 1)
  cursor ← of_option arg.cursor
  n ← load h cursor.ptr.block
  t ← c_string (drop cursor.ptr.off n.val)
  rest ← chunks_behind fuel h cursor.node
  let text = b'1' ∷ b'1' ∷ b'0' ∷ b'3' ∷ six_digits arg.len ++ 32 ∷ t ++ rest
  if ltb response_size (arg.len + 12) || ltb response_size (length text + 1) then fault else ok text

-- The handler behind `popQueue`, with the node that it gave.
unfoldable pub answer_pop : ℕ → ℕ → Option Ptr → Server → Run Server
unfolding finish
answer_pop fuel fd none s = ok (reply fd (no_byte b'3') s)
answer_pop fuel fd (some p) s = do
  q ← load s.nodes p
  replied ←
      (if fd == 0
        then ok s
        else do text ← message_reply fuel s.mem.chunks q.val.arg; ok (reply fd text s))
  freed ← finish fuel q.val.arg replied
  nodes ← free freed.nodes p
  ok (record freed { nodes = nodes })

unfoldable pub pop : Outside → ℕ → List Arg → Server → Run Server
pop o fd args s = do
  a ← first_arg args
  if is_bad_name a then finish o.fuel args (reply fd (no_byte b'3') s) else do
    qname ← get_queue_name o.beyond s.mem.chunks a
    text ← c_string qname
    if length text == 0 then finish o.fuel args (reply fd (no_byte b'3') s) else do
      (p, names) ← get_queue o.malloc_queue o.realloc o.fuel o.rands qname s.names
      aoq ← load names.queues p
      (r, aoq', nodes) ← pop_queue aoq s.nodes
      answered ← answer_pop o.fuel fd r (record s {
        nodes = nodes;
        names = record names { queues = write names.queues p (some aoq') };
      })
      finish o.fuel args answered

-- This one writes to `fd` 0, too.
unfoldable pub delqueue : Outside → ℕ → List Arg → Server → Run Server
delqueue o fd args s = do
  a ← first_arg args
  if is_bad_name a then finish o.fuel args (reply_to fd (one_byte b'6' b'0') s) else do
    qname ← get_queue_name o.beyond s.mem.chunks a
    text ← c_string qname
    if length text == 0 then finish o.fuel args (reply_to fd (one_byte b'6' b'0') s) else do
      r ← hash_find o.fuel s.names.ht qname
      freed ← finish o.fuel args s
      elim r [
        | none ↦ ok (reply_to fd (one_byte b'6' b'0') freed)
        | some p ↦ do
          aoq ← load freed.names.queues p
          (nodes, mem) ← delete_queue (free_args o.fuel) o.fuel aoq freed.nodes freed.mem
          queues ← free freed.names.queues p
          (_, ht) ← hash_delete o.fuel freed.names.ht qname
          ok (
              reply_to fd (one_byte b'6' b'1') (record freed {
                mem = mem;
                nodes = nodes;
                names = record { queues = queues; ht = ht };
              }))
      ]
