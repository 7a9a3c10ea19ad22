-- ===== src/Service/Memory.antt =====
-- What a request takes of the memory, what is given back, and what both leave to the messages.
use aoq.Prelude.{
  ℕ, ◌<◌, ◌∙◌, ◌≡◌, refl, ◌≢◌, ◌⊎◌, inl, inr, true, false, none, Bool-cases, List, [], ◌∷◌, ◌++◌,
  arith, length,
}
use aoq.Heap.{Ptr, null, ok, Returns, read}
use aoq.Heap.Chain.{Cells, has, has-append, not-has_of_none, Chain-frame, Disjoint}
use aoq.MemPool.{Chunk, Mem, zeros, free_mem_slab}
use aoq.MemPool.Pool.{IsPool}
use aoq.MemPool.Slab.{IsSlab, emptied, free_mem_slab-Released}
use aoq.Parser.{create_args, free_args}
use aoq.Receive.Fill.{Clear}
use aoq.Receive.Parsed.{args_at, Arrived}
use aoq.Receive.Spread.{Spread, spread}
use aoq.Service.Messages.{Msg, owned, Owns, Framed}

-- A request has arrived in the chunks `new` of a new slab. They were free or not allocated, no other
-- chunk has become free, and none and no other slab has changed.
pub record Arrival (m : Mem) (xs new : Cells Chunk) (memslab : Ptr) (free : Cells Chunk) (m' : Mem)
    : Type 0 where
  pub unused : read m.slabs memslab ≡ none
  pub was_free : (q : Ptr) → has q new ≡ true → (has q xs ≡ true) ⊎ (read m.chunks q ≡ none)
  pub fewer : (q : Ptr) → has q xs ≡ false → has q free ≡ false
  pub same : (q : Ptr) → has q new ≡ false → read m'.chunks q ≡ read m.chunks q
  pub slabs : (t : Ptr) → t ≢ memslab → read m'.slabs t ≡ read m.slabs t

pub Arrived-Arrival :
    (m m' : Mem) (xs : Cells Chunk) (text : List ℕ) (k : ℕ) (memslab p : Ptr)
    → (a : Arrived m xs text k memslab p m')
    → Arrival m xs ((p, text ++ zeros k) ∷ []) memslab a.xs' m'
Arrived-Arrival m m' xs text k memslab p a = record {
  unused = a.unused;
  was_free = λ q i. let e : q ≡ p = ground arith in rw e (a.taken.was_free);
  fewer = a.taken.fewer;
  same = λ q o. a.same q (ground arith);
  slabs = a.slabs;
}

pub Spread-Arrival :
    (m m' : Mem) (xs : Cells Chunk) (hl : ℕ) (name value : List ℕ) (memslab : Ptr)
    → (s : Spread m xs hl 2 name value memslab m')
    → Arrival m xs (spread hl 2 name value s.p s.front s.behind s.rest) memslab s.free m'
Spread-Arrival m m' xs hl name value memslab s = record {
  unused = s.unused;
  was_free = s.was_free;
  fewer = s.fewer;
  same = s.same;
  slabs = s.slabs;
}

module _ (fuel : ℕ) (m m' : Mem) (xs : Cells Chunk) (name : List ℕ) (M : Msg)
    (o : Owns fuel m xs name M) where
  -- A request that arrives shares nothing with a message, and leaves it alone.
  pub Arrival-apart :
      (new free : Cells Chunk) (memslab : Ptr)
      → Arrival m xs new memslab free m'
      → Disjoint new (owned name M) × (memslab ≢ M.slab)
  Arrival-apart new free memslab a =
      let h = o.slab.holds in
      let u = a.unused in
      (
        λ q i. elim (a.was_free q i) [
          | inl was ↦ elim (Bool-cases (has q (owned name M))) [
            | inl mine ↦ let out = o.out q mine in absurd (ground arith)
            | inr other ↦ other
          ]
          | inr unused ↦ not-has_of_none m.chunks (owned name M) q o.slab.chain unused
        ],
        λ e. cc (h, u, e),
      )

  pub Arrival-Framed :
      (new free : Cells Chunk) (memslab : Ptr)
      → Arrival m xs new memslab free m'
      → Framed m m' free name M
  Arrival-Framed new free memslab a =
      let (dc, ds) = Arrival-apart new free memslab a in
      record {
        slab = a.slabs M.slab (λ e. ds (cc));
        chunk = λ q i. a.same q (elim (Bool-cases (has q new)) [
          | inl there ↦ let out = dc q there in absurd (ground arith)
          | inr out ↦ out
        ]);
        out = λ q i. a.fewer q (o.out q i);
      }

-- A slab with the chunks `ys` that is given back.
pub record GivenBack (m : Mem) (xs ys : Cells Chunk) (memslab : Ptr) (m' : Mem) : Type 0 where
  pub pool : IsPool m' (xs ++ emptied m.mp.cksize ys)
  pub clear : Clear m'.mp.cksize (xs ++ emptied m.mp.cksize ys)
  pub cksize : m'.mp.cksize ≡ m.mp.cksize
  pub slabs : (t : Ptr) → t ≢ memslab → read m'.slabs t ≡ read m.slabs t
  pub same : (q : Ptr) → has q ys ≡ false → has q xs ≡ false → read m'.chunks q ≡ read m.chunks q

Clear-emptied : (n : ℕ) (xs ys : Cells Chunk) → Clear n xs → Clear n (xs ++ emptied n ys)
Clear-emptied n [] [] h = tt
Clear-emptied n [] ((p, c) ∷ ys) h = (refl, Clear-emptied n [] ys tt)
Clear-emptied n (x ∷ xs) ys (e, h) = (e, Clear-emptied n xs ys h)

has-emptied : (n : ℕ) (q : Ptr) (ys : Cells Chunk) → has q (emptied n ys) ≡ has q ys
has-emptied n q [] = refl
has-emptied n q ((p, c) ∷ ys) = ground (arith, has-emptied n q ys)

-- A chunk that was free in neither is free in neither.
pub not_freed :
    (n : ℕ) (q : Ptr) (xs ys : Cells Chunk)
    → has q xs ≡ false
    → has q ys ≡ false
    → has q (xs ++ emptied n ys) ≡ false
not_freed n q xs ys o o' = ground (arith, has-append q xs (emptied n ys), has-emptied n q ys)

free_args-slab :
    (fuel : ℕ) (m m' : Mem) (memslab p : Ptr) (t : List ℕ) (ts : List (List ℕ))
    → memslab ≢ null
    → free_mem_slab fuel memslab m ≡ ok m'
    → free_args fuel (args_at memslab p (t ∷ ts)) m ≡ ok m'
unfolding free_args create_args
free_args-slab fuel m m' memslab p t ts ne run = rw run (ground arith)

-- The arguments of a request, whose chunks are not free and fewer than the fuel, give them back.
pub free_args-GivenBack :
    (fuel : ℕ) (m : Mem) (xs ys : Cells Chunk) (memslab p : Ptr) (t : List ℕ) (ts : List (List ℕ))
    → IsPool m xs
    → Clear m.mp.cksize xs
    → IsSlab m memslab ys
    → Disjoint ys xs
    → length ys < fuel
    → Returns (free_args fuel (args_at memslab p (t ∷ ts)) m) (GivenBack m xs ys memslab)
free_args-GivenBack fuel m xs ys memslab p t ts is clear slab out lt =
    let (m', run, (rel, gone)) = free_mem_slab-Released fuel memslab xs ys is slab out lt in
    let cleared = Clear-emptied m.mp.cksize xs ys clear in
    (
      m',
      free_args-slab fuel m m' memslab p t ts slab.ne_null run,
      record {
        pool = rel.pool;
        clear = rw rel.cksize cleared;
        cksize = rel.cksize;
        slabs = rel.others;
        same = rel.same;
      },
    )

-- What is given back leaves the slabs alone that share nothing with it.
pub IsSlab-GivenBack :
    (m m' : Mem) (xs ys zs : Cells Chunk) (t memslab : Ptr)
    → GivenBack m xs ys t m'
    → memslab ≢ t
    → Disjoint zs ys
    → Disjoint zs xs
    → IsSlab m memslab zs
    → IsSlab m' memslab zs
IsSlab-GivenBack m m' xs ys zs t memslab g ds dc out slab = record {
  ne_null = slab.ne_null;
  holds = g.slabs memslab ds ∙ slab.holds;
  chain = Chain-frame m.chunks m'.chunks zs slab.chain λ q i. g.same q (dc q i) (out q i);
}

pub GivenBack-Framed :
    (fuel : ℕ) (m m' : Mem) (xs ys : Cells Chunk) (name : List ℕ) (memslab : Ptr) (M : Msg)
    → GivenBack m xs ys memslab m'
    → Owns fuel m xs name M
    → Disjoint (owned name M) ys × (M.slab ≢ memslab)
    → Framed m m' (xs ++ emptied m.mp.cksize ys) name M
GivenBack-Framed fuel m m' xs ys name memslab M g o (dc, ds) = record {
  slab = g.slabs M.slab ds;
  chunk = λ q i. g.same q (dc q i) (o.out q i);
  out = λ q i. not_freed m.mp.cksize q xs ys (o.out q i) (dc q i);
}
