-- ===== src/Parser/Tests.antt =====
-- Runs of the parser on `push` requests in one chunk.
use aoq.Prelude.{◌≡◌, refl, none, some, List, ℕ, [], ◌∷◌, ◌++◌, map, arith}
use aoq.Prelude.Int.{pos}
use aoq.Heap.{null, Heap, ok, read}
use aoq.Heap.Chain.{node}
use aoq.MemPool.{ChunkNode, Mem, MemSlab}
use aoq.Cursor.{at}
use aoq.Parser.{parsed, create_args, argn_loop, parse_args}
use aoq.Parser.Argn.{lengths_text, argn_loop-full}
use aoq.Parser.Spread.{parse_args-spread}
use aoq.Parser.Request.{request, headed, located, parse_args-request}

-- The arguments of `push a bc`.
abbrev texts : List (List ℕ)
texts = (b'a' ∷ []) ∷ (b'b' ∷ b'c' ∷ []) ∷ []

abbrev slab : MemSlab
slab = record { head_next = 1; tail_next = 1 }

abbrev chunks : Heap ChunkNode
chunks = (1, some (node (request 17 2 texts (b'\n' ∷ 0 ∷ [])) null)) ∷ []

abbrev mem : Mem
mem = record {
  chunks = chunks;
  slabs = (1, some slab) ∷ [];
  mp = record { head_next = null; tail_next = null; total = 0; size = 0; cksize = 22 };
  chunk_used_num = pos 1;
}

parse_args-request_example :
    parse_args (0 ∷ []) 9 1 mem (create_args 5)
    ≡ ok (record {
      outcome = parsed;
      command_num = pos 2;
      args = located (record { ptr = at 1 17; node = 1; slab = 1 }) texts (create_args 5);
      mem = mem;
    })
unfolding read create_args
parse_args-request_example =
    parse_args-request (0 ∷ []) 9 1 mem (create_args 5) slab 17 2 texts (b'\n' ∷ 0 ∷ []) refl
      (omega arith) (omega arith) refl (omega arith, _, refl, refl) (omega arith) (omega arith)
      (omega arith) (omega arith) (omega arith) (omega arith) (omega arith) (omega arith)
      (omega arith)

-- Five lengths of one byte, the blank, and five bytes.
abbrev five : List ℕ
five = 1 ∷ 1 ∷ 1 ∷ 1 ∷ 1 ∷ []

abbrev full : Heap ChunkNode
full = (1, some (node (lengths_text five ++ 32 ∷ b'a' ∷ 0 ∷ []) null)) ∷ []

argn_loop-full_example : argn_loop 5 full (at 1 0) ≡ ok (map pos five, at 1 30)
unfolding read
argn_loop-full_example =
    argn_loop-full 5 full (at 1 0) five (b'a' ∷ 0 ∷ []) (omega arith, _, refl, refl) (omega arith)
      refl

-- The same request in two chunks, the second of which has the end of the value.
abbrev two_chunks : Mem
two_chunks = record mem {
  chunks =
      (1, some (node (headed 17 2 texts (b'a' ∷ b'b' ∷ 0 ∷ [])) 2))
      ∷ (2, some (node (b'c' ∷ b'\n' ∷ 0 ∷ []) null))
      ∷ [];
}

parse_args-spread_example :
    parse_args (0 ∷ []) 9 1 two_chunks (create_args 5)
    ≡ ok (record {
      outcome = parsed;
      command_num = pos 2;
      args = located (record { ptr = at 1 17; node = 1; slab = 1 }) texts (create_args 5);
      mem = two_chunks;
    })
unfolding read create_args
parse_args-spread_example =
    parse_args-spread (0 ∷ []) 9 1 1 two_chunks (record { len = 0; cursor = none })
      (record { len = 0; cursor = none })
      (record { len = 0; cursor = none }
        ∷ record { len = 0; cursor = none }
        ∷ record { len = 0; cursor = none }
        ∷ [])
      slab 17 2 (b'a' ∷ []) (b'b' ∷ b'c' ∷ []) (b'b' ∷ []) [] (b'c' ∷ b'\n' ∷ [])
      (headed 17 2 texts (b'a' ∷ b'b' ∷ 0 ∷ [])) ((2, b'c' ∷ b'\n' ∷ 0 ∷ []) ∷ []) refl
      (omega arith) (omega arith) refl refl (omega arith, _, refl, refl) refl
      (omega arith, refl, refl, tt)
      (b'c' ∷ b'\n' ∷ [], [], [], refl, (omega arith, (omega arith, tt)), refl, refl)
      (omega arith, tt) (omega arith) (omega arith) (omega arith) (omega arith) (omega arith)
      (omega arith, omega arith, (omega arith, tt)) (omega arith) (omega arith)
      (omega arith, (omega arith, tt))
