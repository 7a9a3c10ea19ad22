-- ===== src/Command/Tests.antt =====
-- `push` and `pop` on the queue "a" of a small server.
use aoq.Prelude.{ℕ, ◌≡◌, refl, some, none, List, [], ◌∷◌, ◌++◌, arith}
use aoq.Prelude.Int.{pos}
use aoq.Heap.{null, Run, ok, fault, stuck, Returns, read, load, store, free}
use aoq.Heap.Bump.{bump, top}
use aoq.Heap.Chain.{set_next, node, Cells}
use aoq.CText.{c_string}
use aoq.MemPool.{Mem, link_tail, mpfree, free_nodes, free_mem_slab}
use aoq.Cursor.{at, read_bytes, byte_at}
use aoq.Parser.{Arg, free_slab_of, free_args}
use aoq.Queue.{Message, Qnodes, Queue}
use aoq.Queue.Push.{IsQueue, message}
use aoq.HashTable.{
  blank, elf_step, elf_loop, elf_hash, hash_index, hash_find, bucket_at, has_key, strcmp_eq,
  find_bucket, found_value, follow,
}
use aoq.HashTable.Insert.{filled}
use aoq.Func.{leading, cut_end, trim}
use aoq.Command.{Server, Outside, one_byte, message_reply, chunks_behind, get_queue_name, push, pop}
use aoq.Command.Answer.{Says, value_text}
use aoq.Command.Pop.{pop-answered}
use aoq.Command.Crossing.{push-crosses}
use aoq.Command.Handlers.{Opens, Leaves, push-Pushed, push-refused, pop-one_arg}

abbrev name : ℕ → List ℕ
name c = c ∷ 0 ∷ 0 ∷ 0 ∷ 0 ∷ 0 ∷ 0 ∷ 0 ∷ []

-- The arguments of a request for "a" alone.
abbrev request : List Arg
request =
    record { len = 1; cursor = some (record { ptr = at 1 0; node = 1; slab = 1 }) }
    ∷ record { len = 0; cursor = none }
    ∷ []

-- The queue holds one message, with these arguments.
abbrev queue : Queue
queue = record { name = name b'a'; total = 1; head_next = 1; tail_next = 1 }

abbrev cells : Cells (Message (List Arg))
cells = (1, message 1 request) ∷ []

abbrev server : Server
server = record {
  mem = record {
    chunks = (1, some (node (b'a' ∷ 0 ∷ []) null)) ∷ [];
    slabs = (1, some (record { head_next = 1; tail_next = 1 })) ∷ [];
    mp = record { head_next = null; tail_next = null; total = 0; size = 0; cksize = 2 };
    chunk_used_num = pos 1;
  };
  nodes = (1, some (node (message 1 request) null)) ∷ [];
  names = record {
    queues = (7, some queue) ∷ [];
    ht = record {
      size = 4;
      total = 1;
      base = 0;
      buckets = blank ∷ filled (name b'a') 7 ∷ blank ∷ blank ∷ [];
    };
  };
  replies = [];
}

abbrev outside : ℕ → Outside
outside max_size = record {
  malloc_node = bump;
  malloc_queue = bump;
  realloc = record { base = 1; garbage = [] };
  rands = [];
  beyond = 0 ∷ 0 ∷ 0 ∷ 0 ∷ 0 ∷ 0 ∷ [];
  max_size = max_size;
  fuel = 5;
}

known_a : hash_find 5 server.names.ht (name b'a') ≡ ok (some 7)
unfolding hash_find bucket_at find_bucket found_value follow has_key strcmp_eq hash_index elf_hash
    elf_loop elf_step c_string
known_a = refl

opens : (max_size : ℕ) → Opens (outside max_size) request server 7 queue
unfolding get_queue_name read_bytes byte_at load read trim leading cut_end c_string
opens max_size = record {
  arg = _;
  qname = name b'a';
  text = b'a' ∷ [];
  first = refl;
  good = refl;
  name = refl;
  shown = refl;
  some_text = refl;
  known = known_a;
  at = omega arith;
  there = refl;
}

server-IsQueue : IsQueue server.nodes queue cells
unfolding read
server-IsQueue = record {
  chain = (omega arith, refl, refl, tt);
  head = refl;
  tail = λ ne. refl;
  total = refl;
}

push-Pushed_example : Returns (push (outside 9) 3 request server) λ s'.
    Leaves (opens 9) 3 (one_byte b'2' b'1') (cells ++ ((2, message 2 request) ∷ [])) s'
    × (s'.mem ≡ server.mem)
unfolding top
push-Pushed_example = push-Pushed (opens 9) 3 cells server-IsQueue (omega arith) (omega arith)

push-refused_example :
    Returns
      (push (outside 0) 3 request server)
      λ s'. Leaves (opens 0) 3 (one_byte b'2' b'1') cells s' × (s'.mem ≡ server.mem)
push-refused_example = push-refused (opens 0) 3 cells server-IsQueue (omega arith)

pop-one_arg_example : pop (outside 9) 3 request server ≡ fault
pop-one_arg_example =
    pop-one_arg (opens 9) 3 1 (message 1 request) [] _ (omega arith) server-IsQueue refl refl

-- A request for a name of four bytes, of which the chunk has two.
abbrev four : Arg
four = record { len = 4; cursor = some (record { ptr = at 1 0; node = 1; slab = 1 }) }

push-crosses_example :
    (push (outside 9) 3 (four ∷ []) server ≡ fault) × (pop (outside 9) 3 (four ∷ []) server ≡ fault)
unfolding read
push-crosses_example =
    push-crosses (outside 9) 3 four [] server _ (b'a' ∷ 0 ∷ []) (omega arith) (omega arith) refl
      (omega arith, _, refl, refl) (omega arith)

-- A message whose second argument is the text "b", and a request for it in another slab.
abbrev letter : List Arg
letter =
    record { len = 1; cursor = some (record { ptr = at 1 0; node = 1; slab = 1 }) }
    ∷ record { len = 1; cursor = some (record { ptr = at 1 1; node = 1; slab = 1 }) }
    ∷ []

abbrev asking : List Arg
asking = record { len = 1; cursor = some (record { ptr = at 2 0; node = 2; slab = 2 }) } ∷ []

abbrev server_of : Queue → Qnodes (List Arg) → Server
server_of q nodes = record server {
  mem = record {
    chunks =
        (1, some (node (b'a' ∷ b'b' ∷ 0 ∷ []) null))
        ∷ (2, some (node (b'a' ∷ 0 ∷ 0 ∷ []) null))
        ∷ [];
    slabs =
        (1, some (record { head_next = 1; tail_next = 1 }))
        ∷ (2, some (record { head_next = 2; tail_next = 2 }))
        ∷ [];
    mp = record { head_next = null; tail_next = null; total = 0; size = 0; cksize = 3 };
    chunk_used_num = pos 2;
  };
  nodes = nodes;
  names = record (server.names) { queues = (7, some q) ∷ [] };
}

abbrev one_letter : Qnodes (List Arg)
one_letter = (1, some (node (message 1 letter) null)) ∷ []

asking_opens :
    (q : Queue) (nodes : Qnodes (List Arg)) → Opens (outside 9) asking (server_of q nodes) 7 q
unfolding get_queue_name read_bytes byte_at load read trim leading cut_end c_string
asking_opens q nodes = record {
  arg = _;
  qname = name b'a';
  text = b'a' ∷ [];
  first = refl;
  good = refl;
  name = refl;
  shown = refl;
  some_text = refl;
  known = known_a;
  at = omega arith;
  there = refl;
}

letter-IsQueue : IsQueue one_letter queue ((1, message 1 letter) ∷ [])
unfolding read
letter-IsQueue = record {
  chain = (omega arith, refl, refl, tt);
  head = refl;
  tail = λ ne. refl;
  total = refl;
}

-- The memory after a run that ends normally.
abbrev after : Run Mem → Mem
after (ok m) = m
after fault = server.mem
after stuck = server.mem

-- Without the message, and without the request, too.
abbrev without_letter : Mem
without_letter = after (free_args 5 letter (server_of queue one_letter).mem)

abbrev without_both : Mem
without_both = after (free_args 5 asking without_letter)

letter-Says : Says 5 (server_of queue one_letter).mem.chunks letter 1 (b'b' ∷ [])
unfolding read
letter-Says = record {
  arg = _;
  cursor = _;
  front = b'b' ∷ [];
  behind = [];
  chunk = _;
  rest = [];
  r = [];
  second = refl;
  length_is = refl;
  located = refl;
  ahead = (omega arith, _, refl, refl);
  no_nul = (omega arith, tt);
  ne_null = omega arith;
  here = refl;
  chain = tt;
  texts = refl;
  few = omega arith;
  whole = refl;
  len_fits = omega arith;
  text_fits = omega arith;
}

pop-answered_example : Returns (pop (outside 9) 3 asking (server_of queue one_letter)) λ s'.
    Leaves (asking_opens queue one_letter) 3 (value_text 1 (b'b' ∷ [])) [] s'
    × (s'.mem ≡ without_both)
    × (read s'.nodes 1 ≡ none)
unfolding free_args free_slab_of free_mem_slab free_nodes mpfree link_tail set_next load store free
    read message_reply chunks_behind c_string
pop-answered_example =
    pop-answered (asking_opens queue one_letter) 3 1 (message 1 letter) [] 1 (b'b' ∷ [])
      without_letter without_both (omega arith) letter-IsQueue letter-Says refl refl
