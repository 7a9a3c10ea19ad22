-- ===== src/Receive/Rounds.antt =====
-- The rounds of the loop of `socket_read_cb`, and the slab it begins with.
use aoq.Prelude.{
  ℕ, suc, ◌+◌, ◌-◌, ◌<◌, ap, ◌≡◌, refl, ◌≢◌, some, List, [], ◌∷◌, arith, length, take, drop,
  get_elem?, ◌==◌, if◌then◌else◌,
}
use aoq.Heap.{Ptr, null, ok, read, load-ok, Malloc}
use aoq.Heap.Chain.{node, Cells}
use aoq.MemPool.{Chunk, ChunkNode, Mem, MemSlab, zeros, create_mem_slab, insert_mem_slab}
use aoq.MemPool.Pool.{IsPool}
use aoq.Receive.{ck_size, fill_chunk, byte_before, receive_loop}
use aoq.Receive.Line.{IsLine, get_elem?-take}
use aoq.Receive.Fill.{Clear, Receiving, cut, Stored}

-- A round that has filled a chunk and inserted it in the slab ends at a newline, and goes on at any
-- other byte.
pub receive_loop-round :
    (malloc : Malloc ChunkNode) (fuel : ℕ) (memslab p : Ptr) (cmd : List ℕ) (m m₁ m₂ : Mem)
    (len b : ℕ)
    → fill_chunk malloc cmd m ≡ ok (p, len, m₁)
    → insert_mem_slab memslab p m₁ ≡ ok m₂
    → byte_before m₂ p len ≡ ok b
    → receive_loop malloc (suc fuel) memslab cmd m
      ≡ (if b == b'\n' then ok m₂ else receive_loop malloc fuel memslab (drop len cmd) m₂)
unfolding receive_loop
receive_loop-round malloc fuel memslab p cmd m m₁ m₂ len b filled inserted e =
    rw (filled, inserted, e)

byte_before-ok :
    (m : Mem) (p q : Ptr) (c : Chunk) (i b : ℕ)
    → p ≢ null
    → read m.chunks p ≡ some (node c q)
    → get_elem? c i ≡ some b
    → byte_before m p (i + 1) ≡ ok b
unfolding byte_before
byte_before-ok m p q c i b ne r e =
    let eq : i + 1 - 1 ≡ i = omega arith in rw (load-ok m.chunks p ne r, eq, e) (ground arith)

-- A round reads the byte that its chunk's text ends with.
pub round-byte :
    (m m₂ : Mem) (memslab p : Ptr) (xs ys : Cells Chunk) (cmd : List ℕ) (k i b : ℕ)
    → Stored m memslab xs ys cmd k p m₂
    → get_elem? cmd i ≡ some b
    → i + 1 ≡ cut cmd
    → byte_before m₂ p (cut cmd) ≡ ok b
round-byte m m₂ memslab p xs ys cmd k i b st e eq = rw (← eq) (
    byte_before-ok m₂ p st.there.0 _ i b st.ne_null st.there.1
      (get_elem?-take cmd (zeros k) (cut cmd) i b e (omega arith)))

take_all : (s : List ℕ) → take (length s) s ≡ s
take_all [] = refl
take_all (c ∷ s) = ap (λ t. c ∷ t) (take_all s)

pub drop_all : (s : List ℕ) → drop (length s) s ≡ []
drop_all [] = refl
drop_all (c ∷ s) = drop_all s

pub IsLine-pos : (s : List ℕ) → IsLine s → 0 < length s
IsLine-pos [] h = absurd h
IsLine-pos (c ∷ s) h = omega arith

-- Whether the chunk ends the line.
pub cut_ends :
    (cmd : List ℕ) → length cmd < ck_size → (take (cut cmd) cmd ≡ cmd) × (cut cmd ≡ length cmd)
cut_ends cmd lt = let e : cut cmd ≡ length cmd = ground arith in (rw e (take_all cmd), e)

pub create_mem_slab-Receiving :
    (malloc_slab : Malloc MemSlab) (m : Mem) (xs : Cells Chunk)
    → IsPool m xs
    → Clear m.mp.cksize xs
    → Receiving (create_mem_slab malloc_slab m).1 (create_mem_slab malloc_slab m).0 xs []
unfolding create_mem_slab read
create_mem_slab-Receiving malloc_slab m xs is clear = record {
  pool = record { chain = is.chain; head = is.head; tail = is.tail; total = is.total };
  clear = clear;
  slab = record { ne_null = malloc_slab.fresh_ne_null m.slabs; holds = ground arith; chain = tt };
  apart = λ p i. absurd (ground arith);
}
