-- ===== src/MemPool/Tune.antt =====
-- `tuneMempool`: the pool is brought to `num + MP_RESERVE_SIZE` free chunks. It tells an empty list by
-- `tail->next == NULL`, which `mpalloc` does not set when it hands out the last chunk.
use aoq.Prelude.{
  ℕ, zero, suc, ◌-◌, ◌≤◌, ◌<◌, ◌^◌, ◌∙◌, ◌≡◌, refl, ◌≢◌, ◌⊎◌, inl, inr, some, none, [], ◌∷◌, ◌++◌,
  arith, length, length-append, false, drop, ltb, Bool-cases, append-nil, ltb→lt,
}
use mathlib.Core.Path.{subst}
use aoq.Prelude.Int.{ℤ, pos, ◌+ℤ◌}
use aoq.Heap.{Ptr, null, Returns, read, write, load, free, Malloc}
use aoq.Heap.Chain.{node, Cells, first, last, Chain-write, last-cons}
use aoq.MemPool.{Chunk, ChunkNode, Mem, mp_reserve_size, shrink_loop, grow_loop, tune_mempool}
use aoq.MemPool.Pool.{IsPool}
use aoq.MemPool.Fill.{IsLinked, grow_loop-Appended}

abbrev dropped : Mem → Ptr → Ptr → Mem
dropped m p q = record m {
  chunks = write m.chunks p none;
  mp = record (m.mp) { head_next = q; total = m.mp.total - 1 };
}

shrink_loop-step :
    (n : ℕ) (m : Mem) (p : Ptr) (c : Chunk) (q : Ptr)
    → m.mp.head_next ≡ p
    → p ≢ null
    → read m.chunks p ≡ some (node c q)
    → shrink_loop (suc n) m ≡ shrink_loop n (dropped m p q)
unfolding shrink_loop load free
shrink_loop-step n m p c q e ne r = ground arith

dropped-IsPool :
    (m : Mem) (p : Ptr) (c : Chunk) (xs : Cells Chunk)
    → IsPool m ((p, c) ∷ xs)
    → IsPool (dropped m p (first xs)) xs
dropped-IsPool m p c xs is =
    let (ne, e, out, chain) = is.chain in
    record {
      chain = Chain-write m.chunks xs p none chain out;
      head = refl;
      tail = λ left. is.tail (λ eq. cc) ∙ last-cons (p, c) xs left;
      total = omega (arith, is.total);
    }

-- The tuning changes the free list and nothing else.
pub record Keeps (m m' : Mem) : Type 0 where
  pub used : m'.chunk_used_num ≡ m.chunk_used_num
  pub slabs : m'.slabs ≡ m.slabs
  pub cksize : m'.mp.cksize ≡ m.mp.cksize

shrink_loop-drop :
    (n : ℕ) (m : Mem) (xs : Cells Chunk)
    → IsPool m xs
    → n ≤ length xs
    → Returns (shrink_loop n m) λ m'. IsPool m' (drop n xs) × Keeps m m'
shrink_loop-drop zero m xs is le =
    (m, unfold shrink_loop in refl, (is, record { used = refl; slabs = refl; cksize = refl }))
shrink_loop-drop (suc n) m [] is le = absurd (omega arith)
shrink_loop-drop (suc n) m ((p, c) ∷ xs) is le =
    let (ne, e, out, chain) = is.chain in
    let (m', run, (is', keeps)) =
      shrink_loop-drop n (dropped m p (first xs)) xs (dropped-IsPool m p c xs is) (omega arith) in
    (
      m',
      shrink_loop-step n m p c (first xs) is.head ne e ∙ run,
      (is', record { used = keeps.used; slabs = keeps.slabs; cksize = keeps.cksize }),
    )

-- The list is one that `tail->next == NULL` tells right.
abbrev pub TailFits : Mem → Cells Chunk → Type 0
TailFits m xs = (xs ≢ []) ⊎ (m.mp.tail_next ≡ null)

tail-last : (m : Mem) (xs : Cells Chunk) → IsPool m xs → TailFits m xs → m.mp.tail_next ≡ last xs
tail-last m xs is (inl ne) = is.tail ne
tail-last m [] is (inr e) = e
tail-last m (x ∷ xs) is (inr e) = is.tail λ eq. cc

grow_loop-IsPool :
    (malloc : Malloc ChunkNode) (n : ℕ) (m : Mem) (xs : Cells Chunk)
    → IsPool m xs
    → TailFits m xs
    → Returns
        (grow_loop malloc n m)
        λ m'. (ys : Cells Chunk) × IsPool m' (xs ++ ys) × (length ys ≡ n) × Keeps m m'
grow_loop-IsPool malloc n m xs is fits =
    let start : IsLinked m xs = record {
      chain = is.chain;
      head = is.head;
      tail = tail-last m xs is fits;
    } in
    let (m', run, (a, sum)) = grow_loop-Appended malloc n m xs start in
    (
      m',
      run,
      (
        a.added,
        record {
          chain = a.linked.chain;
          head = a.linked.head;
          tail = λ _. a.linked.tail;
          total = omega (arith, sum, is.total, a.count, length-append xs a.added);
        },
        a.count,
        record { used = a.grown.used; slabs = a.grown.slabs; cksize = a.grown.cksize },
      ),
    )

length-drop_sub :
    (n t : ℕ) (xs : Cells Chunk) → t ≤ length xs → n ≡ length xs - t → length (drop n xs) ≡ t
length-drop_sub zero t xs le e = omega arith
length-drop_sub (suc n) t [] le e = absurd (omega arith)
length-drop_sub (suc n) t (x ∷ xs) le e = length-drop_sub n t xs (omega arith) (omega arith)

not_ltb : (a b : ℕ) → ltb a b ≡ false → b ≤ a
not_ltb a b h = ground arith

none_dropped : (t n l : ℕ) → ltb t n ≡ false → n ≡ l → 0 ≡ l - t
none_dropped t n l h e = omega (arith, not_ltb t n h)

module _ (malloc : Malloc ChunkNode) (num : ℤ) (target : ℕ) (m : Mem)
    (fits_int : target < 2 ^ 31) where
  tune_mempool-shrinks :
      num +ℤ pos mp_reserve_size ≡ pos target
      → target < m.mp.total
      → tune_mempool malloc num m ≡ shrink_loop (m.mp.total - target) m
  unfolding tune_mempool
  tune_mempool-shrinks e lt =
      let fits : ltb 2147483647 target ≡ false = ground arith in rw (e, fits) (ground arith)

  -- At the target nothing is done, as by no round of the loop.
  pub tune_mempool-grows :
      num +ℤ pos mp_reserve_size ≡ pos target
      → m.mp.total ≤ target
      → tune_mempool malloc num m ≡ grow_loop malloc (target - m.mp.total) m
  unfolding tune_mempool
  tune_mempool-grows e le =
      let zero_case : m.mp.total ≡ target → target - m.mp.total ≡ 0 = λ eq. omega arith in
      let fits : ltb 2147483647 target ≡ false = ground arith in
      rw (e, fits)
        (elim (Bool-cases (ltb m.mp.total target)) [
          | inl t ↦ rw t (ground arith)
          | inr f ↦ let eq : target - m.mp.total ≡ 0 = ground arith in rw (f, eq) (ground arith)
        ])

  -- On a well-formed pool that has a free chunk or whose last pointer is `NULL`, with `num +
  -- MP_RESERVE_SIZE` an `int` that is not negative, the tuning returns. The pool is then well-formed
  -- with just that number of free chunks: the last ones of the pool, or all of them and new ones
  -- behind. The count of chunks in use, the slabs and the chunk size stay.
  pub tune_mempool-IsPool :
      (xs : Cells Chunk)
      → IsPool m xs
      → TailFits m xs
      → num +ℤ pos mp_reserve_size ≡ pos target
      → Returns (tune_mempool malloc num m) λ m'.
        (ys : Cells Chunk) × IsPool m' (drop (length xs - target) xs ++ ys)
        × (m'.mp.total ≡ target)
        × (length ys ≡ target - length xs)
        × Keeps m m'
  tune_mempool-IsPool xs is fits e = elim (Bool-cases (ltb target m.mp.total)) [
    | inl t ↦
        let (m', run, (is', keeps)) =
          shrink_loop-drop (m.mp.total - target) m xs is (omega (arith, is.total)) in
        let eq : m.mp.total - target ≡ length xs - target = omega (arith, is.total) in
        (
          m',
          tune_mempool-shrinks e (ltb→lt _ _ t) ∙ run,
          (
            [],
            rw append-nil (subst (λ k. IsPool m' (drop k xs)) eq is'),
            is'.total ∙ length-drop_sub _ target xs (omega (arith, is.total, ltb→lt _ _ t)) eq,
            omega (arith, is.total, ltb→lt _ _ t),
            keeps,
          ),
        )
    | inr f ↦
        let (m', run, (ys, is', count, keeps)) =
          grow_loop-IsPool malloc (target - m.mp.total) m xs is fits in
        (
          m',
          tune_mempool-grows e (ground arith) ∙ run,
          (
            ys,
            subst (λ k. IsPool m' (drop k xs ++ ys))
                (none_dropped target m.mp.total (length xs) f is.total) is',
            omega (arith, is'.total, count, is.total, length-append xs ys, not_ltb _ _ f),
            omega (arith, count, is.total),
            keeps,
          ),
        )
  ]
