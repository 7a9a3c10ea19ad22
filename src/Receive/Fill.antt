-- ===== src/Receive/Fill.antt =====
-- One chunk of a request: taken from the pool, filled, and put behind the slab's chunks.
use aoq.Prelude.{
  ℕ, ◌+◌, ◌-◌, ◌≤◌, ◌<◌, ◌∙◌, sym, ap, ◌≡◌, refl, ◌≢◌, inl, inr, true, false, ◌⊎◌, some, none, List,
  [], ◌∷◌, ◌++◌, arith, length, take, All, Bool-cases, length-take, ltb, if◌then◌else◌,
}
use mathlib.Core.Path.{subst}
use aoq.Heap.{Ptr, null, ok, Returns, read, write, load-ok, Malloc}
use aoq.Heap.Chain.{
  node, Cells, has, has-append, Chain, Chain-frame, Chain-write, Disjoint, not-has_of_none,
}
use aoq.CText.{copy_to}
use aoq.CText.Copy.{copy_to-zeros}
use aoq.MemPool.{Chunk, ChunkNode, Mem, MemPool, zeros, mpalloc, insert_mem_slab}
use aoq.MemPool.Pool.{IsPool, Allocated, mpalloc-cons, mpalloc-nil}
use aoq.MemPool.Slab.{IsSlab, insert_mem_slab-IsSlab}
use aoq.Func.{read_buffer}
use aoq.Receive.{ck_size, fill_chunk}

-- The free chunks are cleared.
abbrev pub Clear : ℕ → Cells Chunk → Type 0
Clear n xs = All (λ x. x.1 ≡ zeros n) xs

-- While a request is received: the pool `xs` of cleared chunks and the slab `ys` share none.
pub record Receiving (m : Mem) (memslab : Ptr) (xs ys : Cells Chunk) : Type 0 where
  pub pool : IsPool m xs
  pub clear : Clear m.mp.cksize xs
  pub slab : IsSlab m memslab ys
  pub apart : Disjoint ys xs

-- The chunk `p` was free or not allocated, and no other chunk has become free.
pub record Taken (m : Mem) (xs : Cells Chunk) (p : Ptr) (xs' : Cells Chunk) : Type 0 where
  pub was_free : (has p xs ≡ true) ⊎ (read m.chunks p ≡ none)
  pub fewer : (q : Ptr) → has q xs ≡ false → has q xs' ≡ false

-- `mpalloc` then gives a cleared chunk that is not in the slab.
mpalloc-Clear :
    (malloc : Malloc ChunkNode) (m : Mem) (xs ys : Cells Chunk)
    → IsPool m xs
    → Clear m.mp.cksize xs
    → Chain m.chunks ys
    → Disjoint ys xs
    → Returns (mpalloc malloc m) λ r.
      (xs' : Cells Chunk) × Allocated m (zeros m.mp.cksize) xs' r
      × Clear m.mp.cksize xs'
      × Disjoint ys xs'
      × (has r.0 ys ≡ false)
      × Taken m xs r.0 xs'
mpalloc-Clear malloc m [] ys is clear chain apart =
    let (r, run, (unused, t, a)) = mpalloc-nil malloc is in
    (
      r,
      run,
      (
        [],
        a,
        tt,
        λ p i. refl,
        not-has_of_none m.chunks ys r.0 chain unused,
        record { was_free = inr unused; fewer = λ q o. refl },
      ),
    )
mpalloc-Clear malloc m ((p, c) ∷ xs) ys is (e, clear) chain apart =
    let (r, run, (same, a)) = mpalloc-cons malloc p c xs is in
    let a' : Allocated m (zeros m.mp.cksize) xs r = rw (← e) a in
    (
      r,
      run,
      (
        xs,
        a',
        clear,
        λ q i. let o = apart q i in ground arith,
        elim (Bool-cases (has r.0 ys)) [
          | inl i ↦ let o = apart r.0 i in absurd (ground arith)
          | inr o ↦ o
        ],
        record { was_free = inl (ground arith); fewer = λ q o. ground arith },
      ),
    )

-- How many bytes `read_buffer` takes of the command.
abbrev pub cut : List ℕ → ℕ
cut cmd = if ltb (ck_size - 1) (length cmd) then ck_size - 1 else length cmd

pub cut-le : (cmd : List ℕ) → (cut cmd ≤ length cmd) × (cut cmd < ck_size)
cut-le cmd = ground arith

read_buffer-zeros :
    (cmd : List ℕ) (k : ℕ)
    → read_buffer cmd (zeros (cut cmd + k)) (ck_size - 1)
      ≡ ok (cut cmd, take (cut cmd) cmd ++ zeros k)
unfolding read_buffer
read_buffer-zeros cmd k =
    let n : length (take (cut cmd) cmd) ≡ cut cmd =
      omega (arith, length-take (cut cmd) cmd, (cut-le cmd).0) in
    let copied : copy_to (zeros (cut cmd + k)) 0 (take (cut cmd) cmd)
        ≡ ok (take (cut cmd) cmd ++ zeros k) =
      subst
        (λ j. copy_to (zeros (j + k)) 0 (take (cut cmd) cmd) ≡ ok (take (cut cmd) cmd ++ zeros k)) n
        (copy_to-zeros [] (take (cut cmd) cmd) k) in
    rw copied

fill_chunk-ok :
    (malloc : Malloc ChunkNode) (cmd : List ℕ) (m m₁ : Mem) (p len : ℕ) (c c' : Chunk)
    → mpalloc malloc m ≡ ok (p, m₁)
    → p ≢ null
    → read m₁.chunks p ≡ some (node c null)
    → read_buffer cmd c (ck_size - 1) ≡ ok (len, c')
    → fill_chunk malloc cmd m
      ≡ ok (p, len, record m₁ { chunks = write m₁.chunks p (some (node c' null)) })
unfolding fill_chunk
fill_chunk-ok malloc cmd m m₁ p len c c' run ne r e = rw (run, load-ok m₁.chunks p ne r, e)

-- What a round of the loop leaves: a new chunk `p` with the next bytes is the slab's last.
pub record Stored (m : Mem) (memslab : Ptr) (xs ys : Cells Chunk) (cmd : List ℕ) (k : ℕ) (p : Ptr)
    (m' : Mem) : Type 0 where
  pub free : Cells Chunk
  pub receiving : Receiving m' memslab free (ys ++ ((p, take (cut cmd) cmd ++ zeros k) ∷ []))
  pub ne_null : p ≢ null
  pub there : (q : Ptr) × (read m'.chunks p ≡ some (node (take (cut cmd) cmd ++ zeros k) q))
  pub cksize : m'.mp.cksize ≡ m.mp.cksize
  pub taken : Taken m xs p free
  pub same : (q : Ptr) → q ≢ p → has q ys ≡ false → read m'.chunks q ≡ read m.chunks q
  pub slabs : (t : Ptr) → t ≢ memslab → read m'.slabs t ≡ read m.slabs t

-- The chunk `c` was allocated as `p`, and holds `t` now.
abbrev written : Mem → Ptr → Chunk → Mem
written m p t = record m { chunks = write m.chunks p (some (node t null)) }

-- The parts of the state that the insertion of a chunk leaves alone stay well-formed.
insert-Receiving :
    (m m₀ m₂ : Mem) (memslab p : Ptr) (xs' ys : Cells Chunk) (c t : Chunk)
    → Allocated m c xs' (p, m₀)
    → Clear m.mp.cksize xs'
    → Disjoint ys xs'
    → IsSlab m₂ memslab (ys ++ ((p, t) ∷ []))
    → m₂.mp ≡ m₀.mp
    → ((q : Ptr) → has q ys ≡ false → read m₂.chunks q ≡ read (written m₀ p t).chunks q)
    → Receiving m₂ memslab xs' (ys ++ ((p, t) ∷ []))
unfolding read
insert-Receiving m m₀ m₂ memslab p xs' ys c t a clear apart slab mp same =
    let other : (q : Ptr) → has q xs' ≡ true → has q ys ≡ false = λ q i.
      elim (Bool-cases (has q ys)) [
        | inl j ↦ let o = apart q j in absurd (ground arith)
        | inr o ↦ o
      ] in
    let ck : m₂.mp.cksize ≡ m.mp.cksize = ap (λ (q : MemPool). q.cksize) mp ∙ a.cksize in
    record {
      pool = record {
        chain =
            Chain-frame m₀.chunks m₂.chunks xs' a.pool.chain
              λ q i. same q (other q i) ∙ (let o = a.apart in ground arith);
        head = ap (λ (q : MemPool). q.head_next) mp ∙ a.pool.head;
        tail = λ ne. ap (λ (q : MemPool). q.tail_next) mp ∙ a.pool.tail ne;
        total = ap (λ (q : MemPool). q.total) mp ∙ a.pool.total;
      };
      clear = subst (λ n. Clear n xs') (sym ck) clear;
      slab = slab;
      apart = λ q i. elim (Bool-cases (has q ys)) [
        | inl j ↦ apart q j
        | inr o ↦
            let e : has q ((p, t) ∷ []) ≡ true = ground (arith, has-append q ys ((p, t) ∷ [])) in
            let z = a.apart in let eq : q ≡ p = ground arith in rw eq z
      ];
    }

slab_after :
    (m m₀ : Mem) (memslab p : Ptr) (xs' ys : Cells Chunk) (c t : Chunk)
    → Allocated m c xs' (p, m₀)
    → IsSlab m memslab ys
    → has p ys ≡ false
    → IsSlab (written m₀ p t) memslab ys
slab_after m m₀ memslab p xs' ys c t a slab out = record {
  ne_null = slab.ne_null;
  holds = ap (λ h. read h memslab) a.slabs ∙ slab.holds;
  chain =
      Chain-write m₀.chunks ys p (some (node t null))
        (Chain-frame m.chunks m₀.chunks ys slab.chain λ q i. a.same q (λ z. cc (i, out, z))) out;
}

read-write : (m : Mem) (p : Ptr) (t : Chunk) → read (written m p t).chunks p ≡ some (node t null)
unfolding read
read-write m p t = ground arith

written-other :
    (m : Mem) (p q : Ptr) (t : Chunk) → q ≢ p → read (written m p t).chunks q ≡ read m.chunks q
unfolding read
written-other m p q t d = ground arith

-- A round, with a chunk size of `cut cmd + k`.
pub round-Stored :
    (malloc : Malloc ChunkNode) (m : Mem) (memslab : Ptr) (xs ys : Cells Chunk) (cmd : List ℕ)
    (k : ℕ)
    → Receiving m memslab xs ys
    → m.mp.cksize ≡ cut cmd + k
    → (p : Ptr) × (m₁ : Mem) × (m₂ : Mem) × (fill_chunk malloc cmd m ≡ ok (p, cut cmd, m₁))
      × (insert_mem_slab memslab p m₁ ≡ ok m₂)
      × Stored m memslab xs ys cmd k p m₂
round-Stored malloc m memslab xs ys cmd k rc e =
    let ((p, m₀), run, (xs', a, clear, apart, out, taken)) =
      mpalloc-Clear malloc m xs ys rc.pool rc.clear rc.slab.chain rc.apart in
    let t = take (cut cmd) cmd ++ zeros k in
    let filled =
      fill_chunk-ok malloc cmd m m₀ p (cut cmd) (zeros m.mp.cksize) t run a.ne_null a.holds
        (rw e (read_buffer-zeros cmd k)) in
    let slab₁ = slab_after m m₀ memslab p xs' ys (zeros m.mp.cksize) t a rc.slab out in
    let there = read-write m₀ p t in
    let (m₂, inserted, (slab₂, mp, used, same, slabs)) =
      insert_mem_slab-IsSlab memslab p t ys slab₁ a.ne_null there out in
    (
      p,
      written m₀ p t,
      m₂,
      filled,
      inserted,
      record {
        free = xs';
        receiving =
            insert-Receiving m m₀ m₂ memslab p xs' ys (zeros m.mp.cksize) t a clear apart slab₂ mp
              same;
        ne_null = a.ne_null;
        there = (null, same p out ∙ there);
        cksize = ap (λ (q : MemPool). q.cksize) mp ∙ a.cksize;
        taken = taken;
        same = λ q d o. same q o ∙ written-other m₀ p q t d ∙ a.same q d;
        slabs = λ t d. slabs t d ∙ ap (λ h. read h t) a.slabs;
      },
    )
