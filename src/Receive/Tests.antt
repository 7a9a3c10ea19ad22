-- ===== src/Receive/Tests.antt =====
-- A line of three bytes and a `pop`, received by a server whose pool is empty.
use aoq.Prelude.{◌-◌, ◌≡◌, refl, inl, true, false, none, length, List, ℕ, [], ◌∷◌, arith}
use aoq.Prelude.Int.{pos}
use aoq.Heap.{Ptr, null, ok, ◌>>=◌, Returns, read}
use aoq.Heap.Bump.{bump}
use aoq.MemPool.{Mem}
use aoq.MemPool.Pool.{IsPool}
use aoq.HashTable.{hash_init}
use aoq.Parser.Request.{request}
use aoq.AoqLog.{init_aoq_log}
use aoq.Func.{received, last_byte}
use aoq.Receive.{Aoq, World, receive, command_func, socket_read_cb}
use aoq.Receive.Parsed.{Arrived, IsRequest, args_at, socket_read_cb-handles}
use aoq.Receive.Chunks.{Received, receive-Received}

abbrev line : List ℕ
line = b'a' ∷ b'b' ∷ b'\n' ∷ []

abbrev mem : Mem
mem = record {
  chunks = [];
  slabs = [];
  mp = record { head_next = null; tail_next = null; total = 0; size = 0; cksize = 1024 };
  chunk_used_num = pos 0;
}

mem-IsPool : IsPool mem []
mem-IsPool = record { chain = tt; head = refl; tail = λ ne. absurd (ne refl); total = refl }

receive-Received_example :
    Returns
      (receive bump bump 4 line mem)
      λ r. Received mem [] [] r.0 line r.1 × (read mem.slabs r.0 ≡ none)
receive-Received_example =
    receive-Received bump bump 4 mem [] line mem-IsPool tt
      (omega arith, omega arith, (omega arith, omega arith, refl)) (omega arith) (omega arith)

abbrev world : World
world = record {
  outside = record {
    malloc_node = bump;
    malloc_queue = bump;
    realloc = record { base = 1; garbage = [] };
    rands = [];
    beyond = 0 ∷ [];
    max_size = 5;
    fuel = 9;
  };
  malloc_chunk = bump;
  malloc_slab = bump;
  garbage = λ n. [];
  process = [];
}

abbrev aoq_server : Aoq
aoq_server = record {
  server = record {
    mem = mem;
    nodes = [];
    names = record { queues = []; ht = hash_init 0 4 };
    replies = [];
  };
  aoqlog = init_aoq_log 0;
  serv = record {
    pid = pos 9;
    start_time = [];
    port = pos 5211;
    max_memory = pos 0;
    max_client_connection = pos 2;
    client_connection = pos 1;
    aoq_max_size = pos 5;
    work_dir_path = 0 ∷ [];
    persistent = false;
    aomp = false;
    status = pos 1;
  };
  sockets = record { listening = true; opened = pos 7 ∷ []; watched = pos 7 ∷ [] };
}

-- A `pop` of the queue "a".
abbrev pop_a : List ℕ
pop_a = request 11 3 ((b'a' ∷ []) ∷ []) (b'\n' ∷ [])

pop_a-IsRequest : IsRequest 9 11 3 ((b'a' ∷ []) ∷ []) (b'\n' ∷ [])
pop_a-IsRequest = record {
  line = (
    omega arith,
    omega arith,
    (
      omega arith,
      omega arith,
      (
        omega arith,
        omega arith,
        (
          omega arith,
          omega arith,
          (
            omega arith,
            omega arith,
            (
              omega arith,
              omega arith,
              (
                omega arith,
                omega arith,
                (
                  omega arith,
                  omega arith,
                  (
                    omega arith,
                    omega arith,
                    (
                      omega arith,
                      omega arith,
                      (omega arith, omega arith, (omega arith, omega arith, refl)),
                    ),
                  ),
                ),
              ),
            ),
          ),
        ),
      ),
    ),
  );
  short = omega arith;
  head = omega arith;
  head_lt = omega arith;
  some_command = omega arith;
  known_command = omega arith;
  texts = ((omega arith, omega arith, (omega arith, tt)), tt);
  small = (omega arith, tt);
  some_arg = omega arith;
  few_args = omega arith;
}

socket_read_cb-handles_example :
    (memslab : Ptr) × (p : Ptr) × (m : Mem) × Arrived mem [] pop_a (1024 - length pop_a) memslab p m
    × (socket_read_cb world (pos 7) (received pop_a ∷ []) aoq_server ≡ (
        command_func world aoq_server.serv
          (pos 3)
          7
          (args_at memslab p ((b'a' ∷ []) ∷ []))
          (record (aoq_server.server) { mem = m })
        >>= λ s. ok (record aoq_server { server = s })))
unfolding last_byte
socket_read_cb-handles_example =
    socket_read_cb-handles world 7 (received pop_a ∷ []) aoq_server [] 11 3 ((b'a' ∷ []) ∷ [])
      (b'\n' ∷ []) (omega arith) refl mem-IsPool tt (omega arith) refl pop_a-IsRequest
      (inl (refl, refl))
