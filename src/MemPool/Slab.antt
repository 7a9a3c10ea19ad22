-- ===== src/MemPool/Slab.antt =====
-- A slab is the list of chunks that hold one message: built chunk by chunk, and given back whole.
use aoq.Prelude.{
  ℕ, zero, suc, ◌<◌, ◌∙◌, ap, ◌≡◌, refl, ◌≢◌, true, false, some, none, [], ◌∷◌, ◌++◌, arith, length,
  append_assoc, append-nil,
}
use aoq.Prelude.Int.{ℤ, pos, ◌-ℤ◌}
use aoq.Heap.{Ptr, null, Heap, ok, Returns, read, write, load, free}
use aoq.Heap.Chain.{
  node, Cells, first, last, has, Chain, Chain-frame, Disjoint, set_next, set_next-last, last-append,
  has-append,
}
use aoq.MemPool.{
  Chunk, ChunkNode, MemSlab, Mem, zeros, mpfree, insert_mem_slab, free_nodes, free_mem_slab,
}
use aoq.MemPool.Fill.{last-ne-null}
use aoq.MemPool.Pool.{IsPool, mpfree-Freed}

-- The slab at `s` holds the chunks `ys`.
pub record IsSlab (m : Mem) (s : Ptr) (ys : Cells Chunk) : Type 0 where
  pub ne_null : s ≢ null
  pub holds : read m.slabs s ≡ some (record { head_next = first ys; tail_next = last ys })
  pub chain : Chain m.chunks ys

-- The chunks of `ys` as `mpfree` leaves them, with `n` bytes each.
abbrev pub emptied : ℕ → Cells Chunk → Cells Chunk
emptied n [] = []
emptied n ((p, c) ∷ ys) = (p, zeros n) ∷ emptied n ys

-- `n - length ys`
abbrev pub less : ℤ → Cells Chunk → ℤ
less n [] = n
less n (y ∷ ys) = less (n -ℤ pos 1) ys

-- What `freeMemSlab` leaves of the slab at `s` with the chunks `ys`.
pub record Released (m : Mem) (s : Ptr) (xs ys : Cells Chunk) (m' : Mem) : Type 0 where
  pub pool : IsPool m' (xs ++ emptied m.mp.cksize ys)
  pub counted : m'.chunk_used_num ≡ less m.chunk_used_num ys
  pub cksize : m'.mp.cksize ≡ m.mp.cksize
  pub others : (t : Ptr) → t ≢ s → read m'.slabs t ≡ read m.slabs t
  pub same : (q : Ptr) → has q ys ≡ false → has q xs ≡ false → read m'.chunks q ≡ read m.chunks q

abbrev unlinked : Mem → Ptr → MemSlab → Ptr → Mem
unlinked m s r q = record m { slabs = write m.slabs s (some (record r { head_next = q })) }

free_nodes-last :
    (fuel : ℕ) (s : Ptr) (m : Mem) (r : MemSlab)
    → s ≢ null
    → read m.slabs s ≡ some r
    → r.head_next ≡ null
    → free_nodes (suc fuel) s m ≡ ok m
unfolding free_nodes load
free_nodes-last fuel s m r ne e h = ground arith

free_nodes-step :
    (fuel : ℕ) (s : Ptr) (m m' : Mem) (r : MemSlab) (p : Ptr) (c : Chunk) (q : Ptr)
    → s ≢ null
    → read m.slabs s ≡ some r
    → r.head_next ≡ p
    → p ≢ null
    → read m.chunks p ≡ some (node c q)
    → mpfree p (unlinked m s r q) ≡ ok m'
    → free_nodes (suc fuel) s m ≡ free_nodes fuel s m'
unfolding free_nodes load
free_nodes-step fuel s m m' r p c q ne e h np rp run = ground arith

ne_of_has : (q p : Ptr) (ys : Cells Chunk) → has q ys ≡ true → has p ys ≡ false → q ≢ p
ne_of_has q p ys i o e = cc (i, o, e)

ne_of_not_has : (q p : Ptr) (v : Chunk) (ys : Cells Chunk) → has q ((p, v) ∷ ys) ≡ false → q ≢ p
ne_of_not_has q p v ys o = ground arith

not_has_end :
    (q : Ptr) (xs : Cells Chunk) (p : Ptr) (c : Chunk)
    → has q xs ≡ false
    → q ≢ p
    → has q (xs ++ ((p, c) ∷ [])) ≡ false
not_has_end q xs p c o ne = ground (arith, has-append q xs ((p, c) ∷ []))

free_nodes-Released :
    (fuel : ℕ) (m : Mem) (s : Ptr) (r : MemSlab) (xs ys : Cells Chunk)
    → IsPool m xs
    → s ≢ null
    → read m.slabs s ≡ some r
    → r.head_next ≡ first ys
    → Chain m.chunks ys
    → Disjoint ys xs
    → length ys < fuel
    → Returns
        (free_nodes fuel s m)
        λ m'. Released m s xs ys m' × (r' : MemSlab) × (read m'.slabs s ≡ some r')
free_nodes-Released zero m s r xs ys is ne e h c apart lt = absurd (omega arith)
free_nodes-Released (suc fuel) m s r xs [] is ne e h c apart lt = (
  m,
  free_nodes-last fuel s m r ne e h,
  (
    record {
      pool = rw append-nil is;
      counted = refl;
      cksize = refl;
      others = λ t d. refl;
      same = λ q o o'. refl;
    },
    r,
    e,
  ),
)
free_nodes-Released (suc fuel) m s r xs ((p, v) ∷ ys) is ne e h (np, rp, out, c) apart lt =
    let m₀ : Mem = unlinked m s r (first ys) in
    let is₀ : IsPool m₀ xs = record {
      chain = is.chain;
      head = is.head;
      tail = is.tail;
      total = is.total;
    } in
    let (m₁, run₁, f) = mpfree-Freed p _ xs is₀ np rp (apart p (ground arith)) in
    let r₀ : MemSlab = record r { head_next = first ys } in
    let zs = xs ++ ((p, zeros m.mp.cksize) ∷ []) in
    let kept =
      Chain-frame m.chunks m₁.chunks ys c
        (λ q i. f.same q (ne_of_has q p ys i out) (apart q (ground arith))) in
    let e₁ : read m₁.slabs s ≡ some r₀ = rw f.slabs (unfold read in ground arith) in
    let (m₂, run₂, (rel, r₂, e₂)) =
      free_nodes-Released fuel m₁ s r₀ zs ys f.pool ne e₁ refl kept
        (λ q i. not_has_end q xs p _ (apart q (ground arith)) (ne_of_has q p ys i out))
        (omega arith) in
    (
      m₂,
      free_nodes-step fuel s m m₁ r p v (first ys) ne e h np rp run₁ ∙ run₂,
      (
        record {
          pool = rw (append_assoc, f.cksize) at rel.pool;
          counted = rw f.counted at rel.counted;
          cksize = rel.cksize ∙ f.cksize;
          others =
              λ t d. rel.others t d ∙ ap (λ h. read h t) f.slabs ∙ (unfold read in ground arith);
          same = λ q o o'.
              rel.same q (ground arith) (not_has_end q xs p _ o' (ne_of_not_has q p v ys o))
              ∙ f.same q (ne_of_not_has q p v ys o) o';
        },
        r₂,
        e₂,
      ),
    )

free_mem_slab-ok :
    (fuel : ℕ) (m m' : Mem) (s : Ptr) (r : MemSlab)
    → s ≢ null
    → free_nodes fuel s m ≡ ok m'
    → read m'.slabs s ≡ some r
    → free_mem_slab fuel s m ≡ ok (record m' { slabs = write m'.slabs s none })
unfolding free_mem_slab load free
free_mem_slab-ok fuel m m' s r ne run e = ground arith

-- With fuel beyond the number of a slab's chunks, none of which is free, `freeMemSlab` gives them all
-- back, cleared and in order, behind the free ones of a well-formed pool. It lowers the count of chunks
-- in use by their number, frees the slab, and changes no other slab or chunk.
pub free_mem_slab-Released :
    (fuel : ℕ) {m : Mem} (s : Ptr) (xs ys : Cells Chunk)
    → IsPool m xs
    → IsSlab m s ys
    → Disjoint ys xs
    → length ys < fuel
    → Returns (free_mem_slab fuel s m) λ m'. Released m s xs ys m' × (read m'.slabs s ≡ none)
free_mem_slab-Released fuel {m} s xs ys is slab apart lt =
    let (m', run, (rel, r, e)) =
      free_nodes-Released fuel m s _ xs ys is slab.ne_null slab.holds refl slab.chain apart lt in
    (
      _,
      free_mem_slab-ok fuel m m' s r slab.ne_null run e,
      (
        record {
          pool = record {
            chain = rel.pool.chain;
            head = rel.pool.head;
            tail = rel.pool.tail;
            total = rel.pool.total;
          };
          counted = rel.counted;
          cksize = rel.cksize;
          others = λ t d. unfold read in ground (arith, rel.others t d);
          same = rel.same;
        },
        unfold read in ground arith,
      ),
    )

insert_mem_slab-first :
    (s p : Ptr) (m : Mem) (r : MemSlab)
    → s ≢ null
    → read m.slabs s ≡ some r
    → r.head_next ≡ null
    → insert_mem_slab s p m
      ≡ ok (record m { slabs = write m.slabs s (some (record { head_next = p; tail_next = p })) })
unfolding insert_mem_slab load
insert_mem_slab-first s p m r ne e h = ground arith

insert_mem_slab-behind :
    (s p t : Ptr) (m : Mem) (r : MemSlab) (h : Heap ChunkNode)
    → s ≢ null
    → read m.slabs s ≡ some r
    → r.head_next ≢ null
    → t ≢ null
    → r.tail_next ≡ t
    → set_next m.chunks t p ≡ ok h
    → insert_mem_slab s p m
      ≡ ok (record m { chunks = h; slabs = write m.slabs s (some (record r { tail_next = p })) })
unfolding insert_mem_slab load
insert_mem_slab-behind s p t m r h ne e hn tn et run = ground arith

-- `insertMemSlab` puts a chunk with `next` at `NULL`, which is not in the slab, behind the chunks of the
-- slab. The pool, the count of chunks in use, the chunks outside the slab and the other slabs stay as they
-- were.
pub insert_mem_slab-IsSlab :
    {m : Mem} (s p : Ptr) (c : Chunk) (ys : Cells Chunk)
    → IsSlab m s ys
    → p ≢ null
    → read m.chunks p ≡ some (node c null)
    → has p ys ≡ false
    → Returns (insert_mem_slab s p m) λ m'.
      IsSlab m' s (ys ++ ((p, c) ∷ []))
      × (m'.mp ≡ m.mp)
      × (m'.chunk_used_num ≡ m.chunk_used_num)
      × ((q : Ptr) → has q ys ≡ false → read m'.chunks q ≡ read m.chunks q)
      × ((t : Ptr) → t ≢ s → read m'.slabs t ≡ read m.slabs t)
unfolding read
insert_mem_slab-IsSlab {m} s p c [] slab ne r out = (
  _,
  insert_mem_slab-first s p m _ slab.ne_null slab.holds refl,
  (
    record { ne_null = slab.ne_null; holds = ground arith; chain = (ne, r, refl, tt) },
    refl,
    refl,
    λ q o. refl,
    λ t d. ground arith,
  ),
)
insert_mem_slab-IsSlab {m} s p c ((q, v) ∷ ys) slab ne r out =
    let (h, run, (chain, same)) = set_next-last m.chunks (q, v) ys p c slab.chain ne r out in
    let tail = last-append ((q, v) ∷ ys) p c in
    (
      _,
      insert_mem_slab-behind s p (last ((q, v) ∷ ys)) m _ h slab.ne_null slab.holds (slab.chain.0)
          (last-ne-null m.chunks (q, v) ys slab.chain) refl run,
      (
        record { ne_null = slab.ne_null; holds = ground (arith, tail); chain = chain },
        refl,
        refl,
        same,
        λ t d. ground arith,
      ),
    )
