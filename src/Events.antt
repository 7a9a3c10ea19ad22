-- ===== src/Events.antt =====
-- aoq-server.c: the callbacks that the event loop runs, one at a time: `accept_cb`, the timers and the
-- signals' `kill_signal`; and `aoq_start`, which sets them up.
pub mod Window
pub mod Connections
mod Tests
use aoq.Prelude.{
  ℕ, zero, suc, ◌+◌, ◌≡◌, ◌<◌, Bool, true, false, Option, none, some, List, [], ◌∷◌, ◌++◌, ltb,
  ◌==◌, if◌then◌else◌, drop, replicate,
}
use aoq.Prelude.Int.{ℤ, pos, negsuc, ◌+ℤ◌, ltb_ℤ, ◌==ℤ◌}
use aoq.Heap.{Run, ok, fault, ◌>>=◌}
use aoq.Daemon.{checkpidfile}
use aoq.MemPool.{tune_mempool}
use aoq.AoqLog.{AoqLog, save_aoq_log}
use aoq.Func.{Read}
use aoq.ServerStat.{ServerStat, get_process_mem}
use aoq.Command.{Server}
use aoq.Receive.{Aoq, World, Sockets, socket_read_cb}

-- What `accept` gave: it is -1 when it failed.
abbrev pub opened_by : ℤ → List ℤ → List ℤ
opened_by (pos n) opened = pos n ∷ opened
opened_by (negsuc n) opened = opened

-- The branches of `accept_cb`: `close(fd)`, where `fd` is the listening socket; the counter and the new
-- event; and the return with the new socket left as it is.
abbrev pub close_listener : Aoq → Aoq
close_listener a = record a { sockets = record (a.sockets) { listening = false } }

abbrev pub admit : ℤ → Aoq → Aoq
admit sockfd a = record a {
  serv = record (a.serv) { client_connection = a.serv.client_connection +ℤ pos 1 };
  sockets = record (a.sockets) {
    opened = opened_by sockfd a.sockets.opened;
    watched = sockfd ∷ a.sockets.watched;
  };
}

abbrev pub turn_away : ℤ → Aoq → Aoq
turn_away sockfd a = record a {
  sockets = record (a.sockets) { opened = opened_by sockfd a.sockets.opened };
}

-- `accept_cb` with what `accept` returns, which is not called in the first branch.
unfoldable pub accept_cb : ℤ → Aoq → Aoq
accept_cb sockfd a =
    if a.serv.status ==ℤ negsuc 0
    then close_listener a
    else if ltb_ℤ a.serv.client_connection a.serv.max_client_connection
    then admit sockfd a
    else turn_away sockfd a

-- The file `parameter.dat`, as the pairs of numbers that `fscanf` reads from it before it fails.
abbrev pub DataFile : Type 0
DataFile = List (ℤ × ℤ)

-- `createParamDataFile`: the file's one byte is a `NUL`, and no number can be read from it.
abbrev pub create_param_data_file : Option DataFile
create_param_data_file = some []

-- The reading loop, with the bound on the rounds and the array `Y` from `i` on.
unfoldable pub read_params : ℕ → DataFile → List ℤ → List ℤ
read_params zero file ys = ys
read_params (suc n) [] ys = ys
read_params (suc n) (p ∷ file) [] = []
read_params (suc n) ((x, y) ∷ file) (_ ∷ ys) = y ∷ read_params n file ys

-- The writing loop.
unfoldable pub write_params : ℕ → List ℤ → DataFile
write_params i [] = []
write_params i (y ∷ ys) = (pos i, y) ∷ write_params (i + 1) ys

-- `saveParamtersData`, with `Serv->chunk_used_num`; where there is no file, nothing is done.
unfoldable pub save_paramters_data : ℤ → Option DataFile → Option DataFile
unfolding read_params write_params
save_paramters_data used none = none
save_paramters_data used (some file) =
    some (write_params 1 (drop 1 (read_params 20 file (replicate 21 used))))

-- `event_calculate_cb`: the file, and the server. The number is `(int)ForecastY(X)`; what the cast makes of a
-- `double` that is no `int` is not defined, and is any number here.
unfoldable pub event_calculate_cb : World → ℤ → Option DataFile → Aoq → Run (Option DataFile × Aoq)
event_calculate_cb w forecast file a = do
  let file' : Option DataFile = save_paramters_data a.server.mem.chunk_used_num file
  let num : ℤ = if forecast ==ℤ pos 0 then a.server.mem.chunk_used_num else forecast
  m ← tune_mempool w.malloc_chunk num a.server.mem
  ok (file', record a { server = record (a.server) { mem = m } })

abbrev pub out_of_memory : Aoq → Aoq
out_of_memory a = record a { serv = record (a.serv) { status = negsuc 0 } }

-- `event_memcheck_cb`. What `malloc_trim` gives back to the system is no part of the state.
unfoldable pub event_memcheck_cb : World → Aoq → Run Aoq
event_memcheck_cb w a = do
  p ← get_process_mem w.process
  ok (if ltb_ℤ p.vmrss a.serv.max_memory then a else out_of_memory a)

-- `event_savelog_cb`: what goes to the log file, and the server. The first argument is what `fprintf` has
-- written when it fails.
unfoldable pub event_savelog_cb : Option (List ℕ) → Aoq → Run (List ℕ × Aoq)
event_savelog_cb failed a = do
  (r, text, l) ← save_aoq_log false failed a.aoqlog
  ok (text, record a { aoqlog = l })

-- `kill_signal`, which ends the process: what goes to the log file, and the pid file. `Serv->pid_file` has a
-- value in a daemon alone.
unfoldable pub kill_signal :
    Option (List ℕ) → Bool → Option (List ℕ) → Aoq → Run (List ℕ × Option (List ℕ))
kill_signal failed daemon pid_file a = do
  text ←
      (if a.serv.persistent
        then save_aoq_log true failed a.aoqlog >>= (λ (r, text, l). ok text)
        else ok [])
  if daemon then ok (text, if checkpidfile pid_file ==ℤ pos 1 then none else pid_file) else fault

-- `aoq_start` up to the event loop, with the socket of `tcp_server_init`.
unfoldable pub aoq_start : ℤ → Aoq → Option Aoq
aoq_start listener a =
    if listener ==ℤ negsuc 0
    then none
    else some (record a {
      serv = record (a.serv) { status = pos 1 };
      sockets = record (a.sockets) { listening = true };
    })

-- One callback of the event loop that returns. What the world gives may differ each time.
pub data Step : Aoq → Aoq → Type 0 where
  accepts : (a : Aoq) (sockfd : ℤ) → a.sockets.listening ≡ true → Step a (accept_cb sockfd a)
  reads :
      {a b : Aoq} (w : World) (fd : ℤ) (pre post : List ℤ) (rs : List Read)
      → a.sockets.watched ≡ pre ++ fd ∷ post
      → socket_read_cb w fd rs a ≡ ok b
      → Step a b
  saves :
      {a b : Aoq} (failed : Option (List ℕ)) (text : List ℕ)
      → a.serv.persistent ≡ true
      → event_savelog_cb failed a ≡ ok (text, b)
      → Step a b
  calculates :
      {a b : Aoq} (w : World) (forecast : ℤ) (file file' : Option DataFile)
      → a.serv.aomp ≡ true
      → event_calculate_cb w forecast file a ≡ ok (file', b)
      → Step a b
  checks :
      {a b : Aoq} (w : World)
      → ltb_ℤ (pos 0) a.serv.max_memory ≡ true
      → event_memcheck_cb w a ≡ ok b
      → Step a b

pub data Reach (a : Aoq) : Aoq → Type 0 where
  here : Reach a a
  next : {b c : Aoq} → Reach a b → Step b c → Reach a c
