-- ===== src/Service/Tests.antt =====
-- A `push` of 1100 bytes, which take two chunks, to the queue "a" from one connection, and a `pop` from
-- another, which comes in two pieces.
use aoq.Prelude.{
  ℕ, ◌≡◌, refl, inl, inr, Bool, Bool-cases, true, false, if◌then◌else◌, Option, none, some, List,
  [], ◌∷◌, ◌++◌, arith, codes, replicate, take, drop, All, ◌==◌,
}
use aoq.Prelude.Int.{pos, negsuc, ◌==ℤ◌}
use aoq.Heap.{null, ok, read}
use aoq.Heap.Bump.{bump}
use aoq.CText.{c_string, atoi}
use aoq.MemPool.{Mem}
use aoq.HashTable.{
  blank, elf_step, elf_loop, elf_hash, hash_index, hash_find, bucket_at, has_key, strcmp_eq,
  find_bucket, found_value, follow,
}
use aoq.HashTable.Insert.{filled}
use aoq.AoqLog.{init_aoq_log}
use aoq.Queue.Fifo.{push, pop}
use aoq.Func.{received, last_byte}
use aoq.Command.{Server}
use aoq.Receive.{Aoq, World, outside_of}
use aoq.Receive.Line.{IsLine}
use aoq.Receive.Parsed.{IsRequest}
use aoq.Daemon.{whole, tcp_server_init}
use aoq.Events.{DataFile}
use aoq.Main.{opt_s, Options, no_options, Launch, int_of, read_options, may_start, main}
use aoq.Receive.Spread.{IsLong}
use aoq.Service.{value_reply, push_bytes, pop_bytes}
use aoq.Service.Serves.{IsName}
use aoq.Service.Opened.{Opened, Serves-Opened}
use aoq.Service.Sequence.{Ask, IsAsk, serve_all, serve_all-refines}
use aoq.Service.Start.{main-serves}

abbrev a_name : List ℕ
a_name = b'a' ∷ []

abbrev value : List ℕ
value = replicate 1100 b'b'

abbrev asks : List Ask
asks =
    record { fd = 7; hl = 17; op = push value; reads = received (push_bytes 17 a_name value) ∷ [] }
    ∷ record {
      fd = 8;
      hl = 10;
      op = pop;
      reads =
          received (take 3 (pop_bytes 10 a_name)) ∷ received (drop 3 (pop_bytes 10 a_name)) ∷ [];
    }
    ∷ []

is_line : List ℕ → Bool
is_line [] = false
is_line (c ∷ []) = c == b'\n'
is_line (c ∷ d ∷ s) =
    let more = is_line (d ∷ s) in if c == 0 then false else if c == b'\n' then false else more

is_line-IsLine : (s : List ℕ) → is_line s ≡ true → IsLine s
unfolding is_line
is_line-IsLine [] e = cc
is_line-IsLine (c ∷ []) e = ground arith
is_line-IsLine (c ∷ d ∷ s) e = elim (Bool-cases (c == 0)) [
  | inl z ↦ let e' = rw z at e in cc
  | inr z ↦ elim (Bool-cases (c == b'\n')) [
    | inl n ↦ let e' = rw (z, n) at e in cc
    | inr n ↦ (ground arith, ground arith, is_line-IsLine (d ∷ s) (rw (z, n) at e))
  ]
]

abbrev world : World
world = record {
  outside = record {
    malloc_node = bump;
    malloc_queue = bump;
    realloc = record { base = 1; garbage = [] };
    rands = [];
    beyond = 0 ∷ 0 ∷ 0 ∷ 0 ∷ 0 ∷ 0 ∷ [];
    max_size = 5;
    fuel = 3000;
  };
  malloc_chunk = bump;
  malloc_slab = bump;
  garbage = λ n. [];
  process = [];
}

push_b : IsLong 3000 17 2 a_name value
unfolding is_line
push_b = record {
  line = is_line-IsLine (push_bytes 17 a_name value) refl;
  size = omega arith;
  enough = omega arith;
  head = omega arith;
  head_lt = omega arith;
  some_command = omega arith;
  known_command = omega arith;
  name_text = (omega arith, omega arith, (omega arith, tt));
  some_value = omega arith;
  small = (omega arith, (omega arith, tt));
  first_chunk = omega arith;
}

pop_a : IsRequest 3000 10 3 (a_name ∷ []) (b'\n' ∷ [])
unfolding is_line
pop_a = record {
  line = is_line-IsLine (pop_bytes 10 a_name) refl;
  short = omega arith;
  head = omega arith;
  head_lt = omega arith;
  some_command = omega arith;
  known_command = omega arith;
  texts = ((omega arith, omega arith, (omega arith, tt)), tt);
  small = (omega arith, tt);
  some_arg = omega arith;
  few_args = omega arith;
}

asks-IsAsk : All (IsAsk world a_name) asks
unfolding last_byte
asks-IsAsk = (
  (omega arith, (push_b, inl (refl, refl))),
  ((omega arith, (pop_a, inr (b'0', refl, omega arith, inl (refl, refl)))), tt),
)

a_name-IsName : IsName a_name
a_name-IsName = record {
  plain = (refl, tt);
  no_nul = (omega arith, tt);
  some_text = omega arith;
  short = omega arith;
}

abbrev mem : Mem
mem = record {
  chunks = [];
  slabs = [];
  mp = record { head_next = null; tail_next = null; total = 0; size = 0; cksize = 1024 };
  chunk_used_num = pos 0;
}

-- A server with the empty queue "a".
abbrev aoq_server : Aoq
aoq_server = record {
  server = record {
    mem = mem;
    nodes = [];
    names = record {
      queues =
          (7, some (record { name = a_name; total = 0; head_next = null; tail_next = null })) ∷ [];
      ht = record {
        size = 4;
        total = 1;
        base = 0;
        buckets = blank ∷ filled (b'a' ∷ 0 ∷ 0 ∷ 0 ∷ 0 ∷ 0 ∷ 0 ∷ 0 ∷ []) 7 ∷ blank ∷ blank ∷ [];
      };
    };
    replies = [];
  };
  aoqlog = init_aoq_log 0;
  serv = record {
    pid = pos 9;
    start_time = [];
    port = pos 5211;
    max_memory = pos 0;
    max_client_connection = pos 2;
    client_connection = pos 2;
    aoq_max_size = pos 5;
    work_dir_path = 0 ∷ [];
    persistent = false;
    aomp = false;
    status = pos 1;
  };
  sockets = record { listening = true; opened = pos 8 ∷ pos 7 ∷ []; watched = pos 8 ∷ pos 7 ∷ [] };
}

known_a :
    hash_find 3000 aoq_server.server.names.ht (a_name ++ 0 ∷ 0 ∷ 0 ∷ 0 ∷ 0 ∷ 0 ∷ 0 ∷ [])
    ≡ ok (some 7)
unfolding hash_find bucket_at find_bucket found_value follow has_key strcmp_eq hash_index elf_hash
    elf_loop elf_step c_string
known_a = refl

aoq_server-Opened : Opened (outside_of world aoq_server.serv) a_name 7 [] aoq_server.server
unfolding read
aoq_server-Opened = Serves-Opened _ a_name 7 [] aoq_server.server (record {
  free = [];
  messages = [];
  queue = _;
  pool = record { chain = tt; head = refl; tail = λ ne. absurd (ne refl); total = refl };
  clear = tt;
  big = omega arith;
  lives = tt;
  known = known_a;
  at = omega arith;
  there = refl;
  well = record { chain = tt; head = refl; tail = λ ne. absurd (ne refl); total = refl };
  contents = refl;
})

serve_all-refines_example :
    (s : Server) × (serve_all world asks aoq_server ≡ ok (record aoq_server { server = s }))
    × (s.replies ≡ (8, value_reply value) ∷ (7, codes "1102000001 1\n") ∷ [])
    × Opened (outside_of world aoq_server.serv) a_name 7 [] s
serve_all-refines_example =
    serve_all-refines world a_name 7 aoq_server asks []
      (record { fuel = omega arith; stops = refl; no_log = refl }) (refl, tt) asks-IsAsk
      (omega arith) aoq_server-Opened

-- The server as it starts with a pool of one chunk.
abbrev start : Launch
start = record {
  world = world;
  pid = pos 9;
  now = 0 ∷ [];
  base = 0;
  forks = record { first = pos 0; second = pos 0; nofile = 256; moves = true };
  process = record { opened = []; leads = false; dir = []; mask = 0 };
  pid_file = none;
  writes = whole;
  lines = [];
  net = record { socket = pos 3; bind = pos 0; listen = pos 0 };
}

abbrev options : Options
options = record no_options { mempool_size = pos 1 }

read_all : read_options ((opt_s, codes "1" ++ 0 ∷ []) ∷ []) no_options ≡ ok (some options)
unfolding read_options int_of atoi
read_all = refl

starts : may_start start options ≡ ok true
unfolding may_start
starts = refl

listens : ((tcp_server_init start.net []).0 ==ℤ negsuc 0) ≡ false
unfolding tcp_server_init
listens = refl

main-serves_example :
    (file : Option DataFile) × (a : Aoq) × (s : Server) × (main start
        ((opt_s, codes "1" ++ 0 ∷ []) ∷ [])
      ≡ ok (some (file, a)))
    × (serve_all world asks a ≡ ok (record a { server = s }))
    × (s.replies ≡ (8, value_reply value) ∷ (7, codes "1102000001 1\n") ∷ [])
main-serves_example =
    main-serves start ((opt_s, codes "1" ++ 0 ∷ []) ∷ []) options world a_name asks read_all refl
      refl starts listens (omega arith) (omega arith) refl a_name-IsName (omega arith) (omega arith)
      asks-IsAsk (omega arith)
