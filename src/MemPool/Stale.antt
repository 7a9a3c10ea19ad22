-- ===== src/MemPool/Stale.antt =====
-- `tuneMempool` on a pool without free chunks whose `tail->next` was not set back by `mpalloc`.
use aoq.Prelude.{
  ℕ, zero, suc, ◌+◌, ◌-◌, ◌<◌, ◌^◌, ◌∙◌, sym, ap, ◌≡◌, refl, ◌≢◌, some, [], ◌∷◌, ◌++◌, arith,
  length, append_assoc, append-nil,
}
use aoq.Prelude.Int.{ℤ, pos, ◌+ℤ◌}
use aoq.Heap.{Ptr, null, Returns, read, Malloc}
use aoq.Heap.Chain.{
  node, Cells, last, Chain-write, Chain, not-has_of_none, set_next-last, last-append,
}
use aoq.MemPool.{Chunk, ChunkNode, Mem, zeros, mp_reserve_size, new_node, grow_loop, tune_mempool}
use aoq.MemPool.Pool.{IsPool, linked}
use aoq.MemPool.Fill.{add_node-behind, last-ne-null}
use aoq.MemPool.Tune.{tune_mempool-grows}

not_free : (m : Mem) (xs : Cells Chunk) → IsPool m xs → m.mp.head_next ≡ null → 0 < m.mp.total → ⊥
not_free m [] is e lt = omega (arith, is.total)
not_free m ((p, c) ∷ xs) is e lt = is.chain.0 (sym is.head ∙ e)

-- The rounds of the growing loop behind a chain that hangs at `tail->next` alone.
grow_loop-hanging :
    (malloc : Malloc ChunkNode) (n : ℕ) (m : Mem) (x : Ptr × Chunk) (xs : Cells Chunk)
    → Chain m.chunks (x ∷ xs)
    → m.mp.tail_next ≡ last (x ∷ xs)
    → Returns (grow_loop malloc n m) λ m'.
      (ys : Cells Chunk) × Chain m'.chunks ((x ∷ xs) ++ ys)
      × (length ys ≡ n)
      × (m'.mp.head_next ≡ m.mp.head_next)
      × (m'.mp.total ≡ m.mp.total + n)
unfolding grow_loop new_node read
grow_loop-hanging malloc zero m x xs c e = (m, refl, ([], rw append-nil c, refl, refl, omega arith))
grow_loop-hanging malloc (suc n) m x xs c e =
    let p = malloc.fresh m.chunks in
    let out = not-has_of_none m.chunks (x ∷ xs) p c (malloc.fresh_unused m.chunks) in
    let kept = Chain-write m.chunks (x ∷ xs) p (some (node (zeros m.mp.cksize) null)) c out in
    let (h, run, (chain, same)) =
      set_next-last _ x xs p (zeros m.mp.cksize) kept (malloc.fresh_ne_null m.chunks) (ground arith)
        out in
    let grown : Mem = (new_node malloc m).1 in
    let behind = add_node-behind grown p (last (x ∷ xs)) h (last-ne-null m.chunks x xs c) e run in
    let m₁ : Mem = linked grown h p in
    let counted : Mem = record m₁ { mp = record (m₁.mp) { total = m₁.mp.total + 1 } } in
    let (m₂, run₂, (ys, chain₂, count, head, total)) =
      grow_loop-hanging malloc n counted x (xs ++ ((p, zeros m.mp.cksize) ∷ [])) chain
        (sym (last-append (x ∷ xs) p (zeros m.mp.cksize))) in
    (
      m₂,
      rw behind run₂,
      (
        (p, zeros m.mp.cksize) ∷ ys,
        rw append_assoc at chain₂,
        ap suc count,
        head,
        omega (arith, total),
      ),
    )

-- On a pool without free chunks whose last pointer still leads to a chunk `t` that is in use, with
-- `next` at `NULL`, a tuning to a number of chunks above 0, which is an `int`, hangs all the new
-- chunks behind `t`. `head->next` is `NULL` though `total` counts them, and the pool is well-formed
-- for no list of chunks.
pub tune_mempool-stale :
    (malloc : Malloc ChunkNode) (num : ℤ) (target : ℕ) (m : Mem) (t : Ptr) (c : Chunk)
    → IsPool m []
    → m.mp.tail_next ≡ t
    → t ≢ null
    → read m.chunks t ≡ some (node c null)
    → num +ℤ pos mp_reserve_size ≡ pos target
    → 0 < target
    → target < 2 ^ 31
    → Returns (tune_mempool malloc num m) λ m'.
      (ys : Cells Chunk) × Chain m'.chunks ((t, c) ∷ ys)
      × (length ys ≡ target)
      × (m'.mp.head_next ≡ null)
      × (m'.mp.total ≡ target)
      × ((xs : Cells Chunk) → ¬ IsPool m' xs)
tune_mempool-stale malloc num target m t c is et ne r e lt fits =
    let (m', run, (ys, chain, count, head, total)) =
      grow_loop-hanging malloc (target - m.mp.total) m (t, c) [] (ne, r, refl, tt) et in
    let none_free : m.mp.total ≡ 0 = is.total in
    let empty : m'.mp.head_next ≡ null = head ∙ is.head in
    let counted : m'.mp.total ≡ target = omega (arith, total) in
    (
      m',
      tune_mempool-grows malloc num target m fits e (omega arith) ∙ run,
      (
        ys,
        chain,
        omega (arith, count),
        empty,
        counted,
        λ xs bad. not_free m' xs bad empty (omega arith),
      ),
    )
