-- ===== src/MemPool/Fill.antt =====
-- Growing the pool: `createMemPool` and the second loop of `tuneMempool` append cleared chunks.
use aoq.Prelude.{
  ℕ, zero, suc, ◌+◌, ◌∙◌, sym, ap, ◌≡◌, refl, ◌≢◌, false, some, [], ◌∷◌, ◌++◌, arith, length,
  append-nil, append_assoc, replicate,
}
use mathlib.Core.Path.{ap₂}
use aoq.Heap.{Ptr, null, Heap, ok, Returns, read, Malloc}
use aoq.Heap.Chain.{
  node, Cells, first, last, has, Chain, Chain-write, not-has_of_none, set_next, set_next-last,
  last-append, values,
}
use aoq.MemPool.{
  Chunk, ChunkNode, Mem, MemPool, zeros, init_mem_pool, new_node, add_node, create_loop,
  create_mem_pool, grow_loop,
}
use aoq.MemPool.Pool.{IsPool, linked, link_tail-ok}

-- The chunks `xs` hang between the two pointers, which are both `NULL` when there is none.
pub record IsLinked (m : Mem) (xs : Cells Chunk) : Type 0 where
  pub chain : Chain m.chunks xs
  pub head : m.mp.head_next ≡ first xs
  pub tail : m.mp.tail_next ≡ last xs

-- What the loops leave alone while they add chunks.
pub record Grown (m : Mem) (m' : Mem) : Type 0 where
  pub size : m'.mp.size ≡ m.mp.size
  pub cksize : m'.mp.cksize ≡ m.mp.cksize
  pub used : m'.chunk_used_num ≡ m.chunk_used_num
  pub slabs : m'.slabs ≡ m.slabs

add_node-first :
    (m : Mem) (p : Ptr)
    → m.mp.tail_next ≡ null
    → add_node p m ≡ ok (record m { mp = record (m.mp) { head_next = p; tail_next = p } })
unfolding add_node
add_node-first m p e = ground arith

pub add_node-behind :
    (m : Mem) (p t : Ptr) (h : Heap ChunkNode)
    → t ≢ null
    → m.mp.tail_next ≡ t
    → set_next m.chunks t p ≡ ok h
    → add_node p m ≡ ok (linked m h p)
unfolding add_node
add_node-behind m p t h ne e run = ground (arith, link_tail-ok m p t h e run)

pub last-ne-null :
    (h : Heap ChunkNode) (x : Ptr × Chunk) (xs : Cells Chunk)
    → Chain h (x ∷ xs)
    → last (x ∷ xs) ≢ null
last-ne-null h (p, v) [] (ne, e, out, c) = ne
last-ne-null h (p, v) (y ∷ xs) (ne, e, out, c) = last-ne-null h y xs c

-- One round: the new chunk is the last.
add_node-IsLinked :
    (m : Mem) (p : Ptr) (c : Chunk) (xs : Cells Chunk)
    → IsLinked m xs
    → p ≢ null
    → read m.chunks p ≡ some (node c null)
    → has p xs ≡ false
    → Returns
        (add_node p m)
        λ m'. IsLinked m' (xs ++ ((p, c) ∷ [])) × Grown m m' × (m'.mp.total ≡ m.mp.total)
add_node-IsLinked m p c [] is ne r out = (
  _,
  add_node-first m p is.tail,
  (
    record { chain = (ne, r, refl, tt); head = refl; tail = refl },
    record { size = refl; cksize = refl; used = refl; slabs = refl },
    refl,
  ),
)
add_node-IsLinked m p c (x ∷ xs) is ne r out =
    let (h, run, (chain, same)) = set_next-last m.chunks x xs p c is.chain ne r out in
    (
      linked m h p,
      add_node-behind m p (last (x ∷ xs)) h (last-ne-null m.chunks x xs is.chain) is.tail run,
      (
        record { chain = chain; head = is.head; tail = sym (last-append (x ∷ xs) p c) },
        record { size = refl; cksize = refl; used = refl; slabs = refl },
        refl,
      ),
    )

module _ (malloc : Malloc ChunkNode) where
  new_node-IsLinked :
      (m : Mem) (xs : Cells Chunk)
      → IsLinked m xs
      → IsLinked (new_node malloc m).1 xs × (has (malloc.fresh m.chunks) xs ≡ false)
  unfolding new_node
  new_node-IsLinked m xs is =
      let out =
        not-has_of_none m.chunks xs (malloc.fresh m.chunks) is.chain
          (malloc.fresh_unused m.chunks) in
      (
        record { chain = Chain-write m.chunks xs _ _ is.chain out; head = is.head; tail = is.tail },
        out,
      )

  -- A round of either loop, from the allocation on.
  pub round-IsLinked :
      (m : Mem) (xs : Cells Chunk)
      → IsLinked m xs
      → Returns (let (p, grown) = new_node malloc m in add_node p grown) λ m'.
        IsLinked m' (xs ++ ((malloc.fresh m.chunks, zeros m.mp.cksize) ∷ []))
        × Grown m m'
        × (m'.mp.total ≡ m.mp.total)
  unfolding new_node read
  round-IsLinked m xs is =
      let (linked_still, out) = new_node-IsLinked m xs is in
      let (m', run, (is', grown, total)) =
        add_node-IsLinked _ _ (zeros m.mp.cksize) xs linked_still (malloc.fresh_ne_null m.chunks)
          (ground arith) out in
      (
        m',
        run,
        (
          is',
          record {
            size = grown.size;
            cksize = grown.cksize;
            used = grown.used;
            slabs = grown.slabs;
          },
          total,
        ),
      )

  -- `n` cleared chunks have joined the list `xs`.
  pub record Appended (n : ℕ) (m : Mem) (xs : Cells Chunk) (m' : Mem) : Type 0 where
    pub added : Cells Chunk
    pub linked : IsLinked m' (xs ++ added)
    pub cleared : values added ≡ replicate n (zeros m.mp.cksize)
    pub count : length added ≡ n
    pub grown : Grown m m'

  Appended-trans :
      (n : ℕ) (m m₁ m₂ : Mem) (xs : Cells Chunk) (p : Ptr)
      → Grown m m₁
      → Appended n m₁ (xs ++ ((p, zeros m.mp.cksize) ∷ [])) m₂
      → Appended (suc n) m xs m₂
  Appended-trans n m m₁ m₂ xs p g a = record {
    added = (p, zeros m.mp.cksize) ∷ a.added;
    linked = rw append_assoc at a.linked;
    cleared = ap (λ vs. zeros m.mp.cksize ∷ vs) (rw g.cksize at a.cleared);
    count = ap suc a.count;
    grown = record {
      size = a.grown.size ∙ g.size;
      cksize = a.grown.cksize ∙ g.cksize;
      used = a.grown.used ∙ g.used;
      slabs = a.grown.slabs ∙ g.slabs;
    };
  }

  Appended-zero : (m : Mem) (xs : Cells Chunk) → IsLinked m xs → Appended 0 m xs m
  Appended-zero m xs is = record {
    added = [];
    linked = rw append-nil is;
    cleared = refl;
    count = refl;
    grown = record { size = refl; cksize = refl; used = refl; slabs = refl };
  }

  pub create_loop-Appended :
      (n : ℕ) (m : Mem) (xs : Cells Chunk)
      → IsLinked m xs
      → Returns (create_loop malloc n m) (Appended n m xs)
  unfolding create_loop
  create_loop-Appended zero m xs is = (m, refl, Appended-zero m xs is)
  create_loop-Appended (suc n) m xs is =
      let (m₁, run₁, (is₁, grown, total)) = round-IsLinked m xs is in
      let (m₂, run₂, a) = create_loop-Appended n m₁ _ is₁ in
      (m₂, rw run₁ run₂, Appended-trans n m m₁ m₂ xs _ grown a)

  pub grow_loop-Appended :
      (n : ℕ) (m : Mem) (xs : Cells Chunk)
      → IsLinked m xs
      → Returns (grow_loop malloc n m) λ m'. Appended n m xs m' × (m'.mp.total ≡ m.mp.total + n)
  unfolding grow_loop
  grow_loop-Appended zero m xs is = (m, refl, (Appended-zero m xs is, omega arith))
  grow_loop-Appended (suc n) m xs is =
      let (m₁, run₁, (is₁, grown, total)) = round-IsLinked m xs is in
      let counted : Mem = record m₁ { mp = record (m₁.mp) { total = m₁.mp.total + 1 } } in
      let is' : IsLinked counted _ = record {
        chain = is₁.chain;
        head = is₁.head;
        tail = is₁.tail;
      } in
      let (m₂, run₂, (a, sum)) = grow_loop-Appended n counted _ is' in
      let grown' : Grown m counted = record {
        size = grown.size;
        cksize = grown.cksize;
        used = grown.used;
        slabs = grown.slabs;
      } in
      (m₂, rw run₁ run₂, (Appended-trans n m counted m₂ xs _ grown' a, omega (arith, sum, total)))

  -- After `initMemPool`, `createMemPool` returns a well-formed pool of `mpsize` free chunks, each of
  -- `cksize` zero bytes; the count of chunks in use stays, and the pool keeps the size of a chunk.
  pub create_mem_pool-IsPool :
      (m : Mem) (mpsize cksize : ℕ)
      → m.mp ≡ init_mem_pool mpsize cksize
      → Returns (create_mem_pool malloc m) λ m'.
        (xs : Cells Chunk) × IsPool m' xs
        × (values xs ≡ replicate mpsize (zeros cksize))
        × (m'.mp.total ≡ mpsize)
        × (m'.chunk_used_num ≡ m.chunk_used_num)
        × (m'.mp.cksize ≡ cksize)
  unfolding create_mem_pool init_mem_pool
  create_mem_pool-IsPool m mpsize cksize e =
      let start : IsLinked m [] = record {
        chain = tt;
        head = ap (λ (p : MemPool). p.head_next) e;
        tail = ap (λ (p : MemPool). p.tail_next) e;
      } in
      let size : m.mp.size ≡ mpsize = ap (λ (p : MemPool). p.size) e in
      let ck : m.mp.cksize ≡ cksize = ap (λ (p : MemPool). p.cksize) e in
      let (m', run, a) = create_loop-Appended m.mp.size m [] start in
      (
        record m' { mp = record (m'.mp) { total = m'.mp.size } },
        rw run,
        (
          a.added,
          record {
            chain = a.linked.chain;
            head = a.linked.head;
            tail = λ _. a.linked.tail;
            total = a.grown.size ∙ sym a.count;
          },
          a.cleared ∙ ap₂ (λ n c. replicate n (zeros c)) size ck,
          a.grown.size ∙ size,
          a.grown.used,
          a.grown.cksize ∙ ck,
        ),
      )
