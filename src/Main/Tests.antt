-- ===== src/Main/Tests.antt =====
-- A server that is started with a table of one bucket and a pool of one chunk.
use aoq.Prelude.{ℕ, ◌<◌, ◌^◌, ◌≡◌, refl, true, false, none, some, List, [], ◌∷◌, ◌++◌, codes}
use aoq.Prelude.Int.{pos}
use aoq.Heap.{null, ok}
use aoq.Heap.Bump.{bump, top}
use aoq.Heap.Chain.{node}
use aoq.CText.{atoi}
use aoq.MemPool.{Mem, zeros, create_mem_pool, init_mem_pool}
use aoq.Receive.{Aoq, World}
use aoq.Events.{here, next, accepts, accept_cb, aoq_start}
use aoq.Events.Connections.{Counted}
use aoq.Daemon.{whole, tcp_server_init}
use aoq.Main.{
  Opt, opt_s, opt_t, opt_l, Options, no_options, int_of, read_options, or_else, default_ck_size,
  default_ht_size, default_mp_size, Launch, settings, built, set_up, may_start, launch, main,
}
use aoq.Main.Settings.{Within, settings-Within}
use aoq.Main.Whole.{main-Counted}

abbrev world : World
world = record {
  outside = record {
    malloc_node = bump;
    malloc_queue = bump;
    realloc = record { base = 1; garbage = [] };
    rands = [];
    beyond = 0 ∷ [];
    max_size = 5;
    fuel = 9;
  };
  malloc_chunk = bump;
  malloc_slab = bump;
  garbage = λ n. [];
  process = [];
}

abbrev start : Launch
start = record {
  world = world;
  pid = pos 9;
  now = 0 ∷ [];
  base = 0;
  forks = record { first = pos 0; second = pos 0; nofile = 256; moves = true };
  process = record { opened = []; leads = false; dir = []; mask = 0 };
  pid_file = none;
  writes = whole;
  lines = [];
  net = record { socket = pos 3; bind = pos 0; listen = pos 0 };
}

-- `-s 1 -t 1 -l 2`
abbrev arguments : List (Opt × List ℕ)
arguments =
    (opt_s, codes "1" ++ 0 ∷ []) ∷ (opt_t, codes "1" ++ 0 ∷ []) ∷ (opt_l, codes "2" ++ 0 ∷ []) ∷ []

abbrev options : Options
options = record no_options { mempool_size = pos 1; ht_size = pos 1; max_client_connection = pos 2 }

read_all : read_options arguments no_options ≡ ok (some options)
unfolding read_options int_of atoi
read_all = refl

settings-Within_example :
    Within 1 (settings start options).port
    × Within 0 (settings start options).max_memory
    × Within 1 (settings start options).max_client_connection
    × Within 1 (settings start options).aoq_max_size
    × Within 1 (or_else options.ht_size default_ht_size)
    × Within 1 (or_else options.mempool_size default_mp_size)
    × Within 1 (or_else options.chunk_size default_ck_size)
settings-Within_example = settings-Within start arguments options read_all

-- The pool of one chunk.
abbrev pool : Mem
pool = record {
  chunks = (1, some (node (zeros 1024) null)) ∷ [];
  slabs = [];
  mp = record { head_next = 1; tail_next = 1; total = 1; size = 1; cksize = 1024 };
  chunk_used_num = pos 0;
}

abbrev server : Aoq
server = record (built start options pool) {
  serv = record (settings start options) { status = pos 1 };
  sockets = record { listening = true; opened = []; watched = [] };
}

main_run : main start arguments ≡ ok (some (none, server))
unfolding main read_options int_of atoi may_start launch tcp_server_init set_up create_mem_pool
    init_mem_pool aoq_start top
main_run = refl

-- A client connects.
main-Counted_example :
    (limit : ℕ) × (0 < limit) × (limit < 2 ^ 31) × Counted limit (accept_cb (pos 8) server)
main-Counted_example =
    main-Counted start arguments none server (accept_cb (pos 8) server) main_run
      (next here (accepts server (pos 8) refl))
