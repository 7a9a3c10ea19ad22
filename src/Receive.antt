-- ===== src/Receive.antt =====
-- aoq-server.c: `socket_read_cb`, which reads a request, cuts it into chunks and runs it; and aoqlog.c:
-- `execute_command_line`, which does the same with a line of the log.
pub mod Line
pub mod Fill
pub mod Chunks
pub mod Rounds
pub mod Same
pub mod Parsed
pub mod Spread
mod Tests
use aoq.Prelude.{
  ℕ, zero, suc, ◌+◌, ◌-◌, Bool, Option, none, some, List, [], ◌∷◌, ltb, ◌==◌, if◌then◌else◌, drop,
  get_elem?, length,
}
use aoq.Prelude.Int.{ℤ, pos, negsuc, pos_part, ◌-ℤ◌, ◌==ℤ◌}
use aoq.Heap.{Ptr, null, Run, ok, fault, stuck, ◌>>=◌, of_option, write, load, Malloc}
use aoq.CText.{c_string}
use aoq.MemPool.{ChunkNode, MemSlab, Mem, mpalloc, mpfree, create_mem_slab, insert_mem_slab}
use aoq.Parser.{Arg, Outcome, parsed, empty, refused, Parse, create_args, parse_args, free_args}
use aoq.Func.{read_buffer, Read, read_cmd}
use aoq.AoqLog.{AoqLog, write_aoq_log}
use aoq.ServerStat.{ServerStat, get_process_mem}
use aoq.Command.{Server, Outside, nil, push, pop, delqueue, finish}
use aoq.Command.Report.{status, queues, queue}

abbrev pub ck_size : ℕ
ck_size = 1024

-- `mpalloc` and `read_buffer` into the new node: its address, and the number of bytes.
unfoldable pub fill_chunk : Malloc ChunkNode → List ℕ → Mem → Run (Ptr × ℕ × Mem)
fill_chunk malloc cmd m = do
  (p, m₁) ← mpalloc malloc m
  n ← load m₁.chunks p
  (len, c) ← read_buffer cmd n.val (ck_size - 1)
  ok (p, len, record m₁ { chunks = write m₁.chunks p (some (record n { val = c })) })

-- `*(node->chunk+len-1)`
unfoldable pub byte_before : Mem → Ptr → ℕ → Run ℕ
byte_before m p len = do
  n ← load m.chunks p
  if len == 0 then fault else of_option (get_elem? n.val (len - 1))

-- The first chunk and the `while` loop of `socket_read_cb`.
unfoldable pub receive_loop : Malloc ChunkNode → ℕ → Ptr → List ℕ → Mem → Run Mem
unfolding fill_chunk byte_before
receive_loop malloc zero memslab cmd m = stuck
receive_loop malloc (suc fuel) memslab cmd m = do
  (p, len, m₁) ← fill_chunk malloc cmd m
  m₂ ← insert_mem_slab memslab p m₁
  b ← byte_before m₂ p len
  let more : Run Mem = receive_loop malloc fuel memslab (drop len cmd) m₂
  if b == b'\n' then ok m₂ else more

unfoldable pub receive : Malloc ChunkNode → Malloc MemSlab → ℕ → List ℕ → Mem → Run (Ptr × Mem)
unfolding receive_loop
receive malloc malloc_slab fuel cmd m = do
  let (memslab, m₁) = create_mem_slab malloc_slab m
  m₂ ← receive_loop malloc fuel memslab cmd m₁
  ok (memslab, m₂)

-- What the event loop watches: whether the listening socket is open, the sockets that `accept` gave and
-- that are not closed, and those of them that have an event.
pub record Sockets : Type 0 where
  pub listening : Bool
  pub opened : List ℤ
  pub watched : List ℤ

-- The whole server: what the handlers work on, the log's buffer, the settings, and the sockets.
pub record Aoq : Type 0 where
  pub server : Server
  pub aoqlog : AoqLog
  pub serv : ServerStat
  pub sockets : Sockets

-- What it gets from outside besides: the allocators of chunks and slabs, `realloc` of the log's buffer,
-- and the lines of the process' status file.
pub record World : Type 0 where
  pub outside : Outside
  pub malloc_chunk : Malloc ChunkNode
  pub malloc_slab : Malloc MemSlab
  pub garbage : ℕ → List ℕ
  pub process : List (List ℕ)

-- The handlers with `Serv->aoq_max_size`, which `main` sets to a number above 0.
abbrev pub outside_of : World → ServerStat → Outside
outside_of w serv = record (w.outside) { max_size = pos_part serv.aoq_max_size }

-- `(*commandFunc[command_num])(fd, args)`
unfoldable pub command_func : World → ServerStat → ℤ → ℕ → List Arg → Server → Run Server
command_func w serv (negsuc _) fd args s = fault
command_func w serv (pos n) fd args s =
    let o = outside_of w serv in
    if n == 0
    then nil w.outside.fuel args s
    else if n == 1
    then get_process_mem w.process >>= (λ p. status serv p w.outside.fuel fd args s)
    else if n == 2
    then push o fd args s
    else if n == 3
    then pop o fd args s
    else if n == 4
    then queues w.outside.fuel fd args s
    else if n == 5
    then queue o fd args s
    else if n == 6
    then delqueue o fd args s
    else fault

abbrev pub with_mem : Aoq → Mem → Aoq
with_mem a m = record a { server = record (a.server) { mem = m } }

-- What follows `parse_args` in `socket_read_cb`.
unfoldable pub serve : World → ℕ → Ptr → Parse → Aoq → Run Aoq
serve w fd memslab p a =
    let run : AoqLog → Run Aoq = λ log.
      command_func w a.serv p.command_num fd p.args (record (a.server) { mem = p.mem }) >>= λ s.
      ok (record a { server = s; aoqlog = log }) in
    elim p.outcome [
      | refused ↦ free_args w.outside.fuel p.args p.mem >>= λ m. ok (with_mem a m)
      | empty ↦ run a.aoqlog
      | parsed ↦
          if a.serv.persistent
          then write_aoq_log w.garbage w.outside.fuel memslab p.mem a.aoqlog >>= run
          else run a.aoqlog
    ]

-- A list without the first of its entries that is `fd`.
abbrev pub without : ℤ → List ℤ → List ℤ
without fd [] = []
without fd (x ∷ xs) = if fd ==ℤ x then xs else x ∷ without fd xs

-- `Serv->client_connection--`, `close` and `event_free`.
unfoldable pub disconnect : ℤ → Aoq → Aoq
disconnect fd a = record a {
  serv = record (a.serv) { client_connection = a.serv.client_connection -ℤ pos 1 };
  sockets = record (a.sockets) {
    opened = without fd a.sockets.opened;
    watched = without fd a.sockets.watched;
  };
}

-- `socket_read_cb` with what `read` returns.
unfoldable pub socket_read_cb : World → ℤ → List Read → Aoq → Run Aoq
unfolding serve disconnect
socket_read_cb w fd reads a = do
  got ← read_cmd reads
  elim got [
    | none ↦ ok (disconnect fd a)
    | some cmd ↦ do
      (memslab, m) ← receive w.malloc_chunk w.malloc_slab w.outside.fuel cmd a.server.mem
      p ← parse_args w.outside.beyond w.outside.fuel memslab m (create_args 5)
      serve w (pos_part fd) memslab p a
  ]

-- `while(len == CK_SIZE-1)` of `execute_command_line`, with the rest of the line.
unfoldable pub line_loop : Malloc ChunkNode → ℕ → Ptr → ℕ → List ℕ → Mem → Run Mem
unfolding fill_chunk
line_loop malloc zero memslab len line m = stuck
line_loop malloc (suc fuel) memslab len line m =
    let more : Run Mem = (do
      (p, n, m₁) ← fill_chunk malloc line m
      m₂ ← insert_mem_slab memslab p m₁
      line_loop malloc fuel memslab n (drop n line) m₂) in
    if len == ck_size - 1 then more else ok m

-- The line as a text; `readLogLine` copies as `read_buffer` does. A line of fewer than twelve bytes is
-- passed over.
unfoldable pub execute_command_line : World → List ℕ → Aoq → Run Aoq
unfolding line_loop
execute_command_line w line a = do
  text ← c_string line
  (p, len, m₁) ← fill_chunk w.malloc_chunk text a.server.mem
  if ltb len 12 then mpfree p m₁ >>= (λ m. ok (with_mem a m)) else do
    let (memslab, m₂) = create_mem_slab w.malloc_slab m₁
    m₃ ← insert_mem_slab memslab p m₂
    m₄ ← line_loop w.malloc_chunk w.outside.fuel memslab len (drop len text) m₃
    r ← parse_args w.outside.beyond w.outside.fuel memslab m₄ (create_args 5)
    elim r.outcome [
      | parsed ↦ do
        s ← command_func w a.serv r.command_num 0 r.args (record (a.server) { mem = r.mem })
        ok (record a { server = s })
      | _ ↦ free_args w.outside.fuel r.args r.mem >>= λ m. ok (with_mem a m)
    ]

-- The loop of `recovery_from_aoflog`, with what `fgets` leaves in `line` each time.
unfoldable pub recovery_from_aoflog : List (World × List ℕ) → Aoq → Run Aoq
unfolding execute_command_line
recovery_from_aoflog [] a = ok a
recovery_from_aoflog ((w, line) ∷ lines) a =
    execute_command_line w line a >>= recovery_from_aoflog lines
