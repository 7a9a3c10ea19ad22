-- ===== src/Main.antt =====
-- aoq-server.c: `main`, which reads the options, sets the server up, and starts the event loop.
pub mod Settings
pub mod Start
pub mod Whole
mod Tests
use aoq.Prelude.{
  ℕ, ◌*◌, ◌^◌, Bool, true, false, not, Option, none, some, List, [], ◌∷◌, ◌++◌, ltb, ◌==◌,
  if◌then◌else◌, codes,
}
use aoq.Prelude.Int.{ℤ, pos, negsuc, pos_part, ltb_ℤ, ◌==ℤ◌}
use aoq.Heap.{Run, ok, fault, ◌>>=◌}
use aoq.CText.{atoi}
use aoq.MemPool.{Mem, init_mem_pool, create_mem_pool}
use aoq.HashTable.{hash_init}
use aoq.AoqLog.{init_aoq_log}
use aoq.ServerStat.{ServerStat}
use aoq.Daemon.{
  Process, exited, lives, Forks, init_daemon, checkpidfile, Written, mkpidfile, Net,
  tcp_server_init,
}
use aoq.Receive.{Aoq, World, recovery_from_aoflog}
use aoq.Events.{aoq_start, DataFile, create_param_data_file}

-- The variables of `main` that the options set.
pub record Options : Type 0 where
  pub port : ℤ
  pub aoq_max_size : ℤ
  pub max_memory : ℤ
  pub work_dir_path : Option (List ℕ)
  pub ht_size : ℤ
  pub mempool_size : ℤ
  pub chunk_size : ℤ
  pub daemon : Bool
  pub max_client_connection : ℤ
  pub persistent : Bool
  pub recover : Bool
  pub aomp : Bool

-- Their values before the options are read.
abbrev pub no_options : Options
no_options = record {
  port = pos 0;
  aoq_max_size = pos 0;
  max_memory = pos 0;
  work_dir_path = none;
  ht_size = pos 0;
  mempool_size = pos 0;
  chunk_size = pos 0;
  daemon = false;
  max_client_connection = pos 0;
  persistent = false;
  recover = false;
  aomp = false;
}

abbrev pub is_int : ℤ → Bool
is_int (pos n) = ltb n (2 ^ 31)
is_int (negsuc n) = ltb n (2 ^ 31)

-- `atoi` of an option's text: a number beyond an `int` is undefined.
unfoldable pub int_of : List ℕ → Run ℤ
int_of optarg = do n ← atoi optarg; if is_int n then ok n else fault

-- What `getopt` returns: a letter of "p:q:m:f:t:s:c:l:axrvdh", or '?'.
pub data Opt : Type 0 where
  opt_p opt_q opt_m opt_f opt_t opt_s opt_c opt_l opt_a opt_x opt_r opt_v opt_d opt_h unknown : Opt

-- The loop, with what `getopt` returns and the memory `optarg` points to. `none` is the return of 1, after
-- the version or the help is printed.
unfoldable pub read_options : List (Opt × List ℕ) → Options → Run (Option Options)
unfolding int_of
read_options [] o = ok (some o)
read_options ((opt_p, optarg) ∷ opts) o =
    int_of optarg >>= λ n. read_options opts (record o { port = n })
read_options ((opt_q, optarg) ∷ opts) o =
    int_of optarg >>= λ n. read_options opts (record o { aoq_max_size = n })
read_options ((opt_m, optarg) ∷ opts) o =
    int_of optarg >>= λ n. read_options opts (record o { max_memory = n })
read_options ((opt_f, optarg) ∷ opts) o =
    read_options opts (record o { work_dir_path = some optarg })
read_options ((opt_t, optarg) ∷ opts) o =
    int_of optarg >>= λ n. read_options opts (record o { ht_size = n })
read_options ((opt_s, optarg) ∷ opts) o =
    int_of optarg >>= λ n. read_options opts (record o { mempool_size = n })
read_options ((opt_c, optarg) ∷ opts) o =
    int_of optarg >>= λ n. read_options opts (record o { chunk_size = n })
read_options ((opt_l, optarg) ∷ opts) o =
    int_of optarg >>= λ n. read_options opts (record o { max_client_connection = n })
read_options ((opt_a, optarg) ∷ opts) o = read_options opts (record o { aomp = true })
read_options ((opt_x, optarg) ∷ opts) o = read_options opts (record o { persistent = true })
read_options ((opt_r, optarg) ∷ opts) o = read_options opts (record o { recover = true })
read_options ((opt_v, optarg) ∷ opts) o = ok none
read_options ((opt_d, optarg) ∷ opts) o = read_options opts (record o { daemon = true })
read_options ((opt_h, optarg) ∷ opts) o = ok none
read_options ((unknown, optarg) ∷ opts) o = ok none

-- `n > 0 ? n : other`
abbrev pub or_else : ℤ → ℤ → ℤ
or_else n other = if ltb_ℤ (pos 0) n then n else other

-- aoq-server.h
abbrev pub default_port : ℤ
default_port = pos 5211

abbrev pub default_ht_size : ℤ
default_ht_size = pos 1024

abbrev pub default_mp_size : ℤ
default_mp_size = pos 100000

abbrev pub default_ck_size : ℤ
default_ck_size = pos 1024

abbrev pub default_max_client : ℤ
default_max_client = pos 65535

abbrev pub default_aoq_max_size : ℤ
default_aoq_max_size = pos 2147483647

-- What `main` gets from outside: the process' number, the time, the address of the table's array, the
-- process and what its forks return, the pid file and what happens to it, the lines of the log, and what
-- the calls for the listening socket return.
pub record Launch : Type 0 where
  pub world : World
  pub pid : ℤ
  pub now : List ℕ
  pub base : ℕ
  pub forks : Forks
  pub process : Process
  pub pid_file : Option (List ℕ)
  pub writes : Written
  pub lines : List (World × List ℕ)
  pub net : Net

-- `Serv` as it is filled.
unfoldable pub settings : Launch → Options → ServerStat
settings l o = record {
  pid = l.pid;
  start_time = l.now;
  port = or_else o.port default_port;
  max_memory = or_else o.max_memory (pos 0);
  max_client_connection = or_else o.max_client_connection default_max_client;
  client_connection = pos 0;
  aoq_max_size = or_else o.aoq_max_size default_aoq_max_size;
  work_dir_path = elim o.work_dir_path [ none ↦ codes "/tmp" ++ 0 ∷ [] | some path ↦ path ];
  persistent = o.persistent;
  aomp = o.aomp;
  status = pos 0;
}

-- The server with its pool, `Serv` and the table. The log's buffer comes later.
abbrev pub built : Launch → Options → Mem → Aoq
built l o mem = record {
  server = record {
    mem = mem;
    nodes = [];
    names = record {
      queues = [];
      ht = hash_init l.base (pos_part (or_else o.ht_size default_ht_size));
    };
    replies = [];
  };
  aoqlog = init_aoq_log 0;
  serv = settings l o;
  sockets = record { listening = false; opened = []; watched = [] };
}

-- `initMemPool`, with no memory in use yet.
abbrev pub no_pool : Options → Mem
no_pool o = record {
  chunks = [];
  slabs = [];
  mp =
      init_mem_pool (pos_part (or_else o.mempool_size default_mp_size))
        (pos_part (or_else o.chunk_size default_ck_size));
  chunk_used_num = pos 0;
}

unfoldable pub set_up : Launch → Options → Run Aoq
set_up l o = create_mem_pool l.world.malloc_chunk (no_pool o) >>= λ mem. ok (built l o mem)

-- Whether `main` goes on behind the part on the daemon, with the process' pid file. When that cannot be
-- made, `Serv` is `NULL` as `serverlog` reads it.
unfoldable pub may_start : Launch → Options → Run Bool
may_start l o =
    if not o.daemon
    then ok true
    else if checkpidfile l.pid_file ==ℤ pos 1
    then ok false
    else elim (init_daemon l.forks (settings l o).work_dir_path l.process) [
      | exited _ ↦ ok false
      | lives _ ↦ if ltb_ℤ (mkpidfile l.pid l.writes l.pid_file).0 (pos 0) then fault else ok true
    ]

abbrev pub with_file : Option DataFile → Option Aoq → Option (Option DataFile × Aoq)
with_file file none = none
with_file file (some a) = some (file, a)

-- `initAoqLog` under `persistent`, without which nothing uses the buffer.
abbrev pub with_log : Options → Aoq → Aoq
with_log o a = record a {
  aoqlog = if o.persistent then init_aoq_log (1024 * 1024 * 50) else a.aoqlog;
}

-- The state as the event loop starts, with the data file; `none` when `main` returns before.
unfoldable pub launch : Launch → Options → Run (Option (Option DataFile × Aoq))
unfolding set_up
launch l o = do
  a ← set_up l o
  b ← (if o.recover then recovery_from_aoflog l.lines a else ok a)
  let file : Option DataFile = if o.aomp then create_param_data_file else none
  ok (with_file file (aoq_start (tcp_server_init l.net []).0 (with_log o b)))

unfoldable pub main : Launch → List (Opt × List ℕ) → Run (Option (Option DataFile × Aoq))
unfolding read_options may_start launch
main l opts = do
  o ← read_options opts no_options
  elim o [
    | none ↦ ok none
    | some o' ↦ do
      go ← may_start l o'
      let started : Run (Option (Option DataFile × Aoq)) = launch l o'
      if go then started else ok none
  ]
