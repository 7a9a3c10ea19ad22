-- ===== src/HashTable/Find.antt =====
-- Searches of a chain as derivations, and what a new bucket does to them.
use aoq.Prelude.{
  ℕ, zero, suc, ◌∙◌, ap, ◌≡◌, ◌⊎◌, inl, inr, true, false, Option, some, none, List, arith, ◌==◌,
  if◌then◌else◌, get_elem?, Option-cases,
}
use aoq.Heap.{Ptr, null, Run, ok, ◌>>=◌, Run-cases}
use aoq.HashTable.{Bucket, BucketPtr, HashTable, follow, has_key, find_bucket, found_value}

abbrev pub pointer : ℕ → ℕ → BucketPtr
pointer base i = record { base = base; index = i }

-- A search for `key` from bucket `i` on, over `n` buckets at most, that returns `r`.
pub data Finds (ht : HashTable) (key : List ℕ) : ℕ → ℕ → Option Ptr → Type 0 where
  hit :
      {n i : ℕ} {r : Option Ptr} (b : Bucket) (v : Ptr)
      → get_elem? ht.buckets i ≡ some b
      → has_key key b ≡ ok true
      → b.value ≡ some v
      → r ≡ (if v == null then none else some v)
      → Finds ht key (suc n) i r
  miss :
      {n i : ℕ} {r : Option Ptr} (b : Bucket) (v : Ptr)
      → get_elem? ht.buckets i ≡ some b
      → has_key key b ≡ ok false
      → b.next ≡ none
      → b.value ≡ some v
      → r ≡ none
      → Finds ht key (suc n) i r
  next :
      {n i : ℕ} {r : Option Ptr} (b : Bucket) (j : ℕ)
      → get_elem? ht.buckets i ≡ some b
      → has_key key b ≡ ok false
      → b.next ≡ some (pointer ht.base j)
      → Finds ht key n j r
      → Finds ht key (suc n) i r

-- The two parts of `hash_find` behind the test of the first bucket.
abbrev pub search_from : ℕ → HashTable → List ℕ → ℕ → Run (Option Ptr)
search_from fuel ht key i = find_bucket fuel ht key i >>= found_value ht key

module _ (ht : HashTable) (key : List ℕ) where
  find_bucket-next :
      (n i j : ℕ) (b : Bucket)
      → get_elem? ht.buckets i ≡ some b
      → has_key key b ≡ ok false
      → b.next ≡ some (pointer ht.base j)
      → find_bucket (suc n) ht key i ≡ find_bucket n ht key j
  unfolding find_bucket
  find_bucket-next n i j b g k z = rw (g, k) (ground arith)

  pub search_from-Finds :
      (n i : ℕ) (r : Option Ptr) → Finds ht key n i r → search_from n ht key i ≡ ok r
  unfolding find_bucket found_value
  search_from-Finds zero i r f = elim f [ ]
  search_from-Finds (suc n) i r (hit b v g k e er) = rw (g, k, g, e, er) (ground arith)
  search_from-Finds (suc n) i r (miss b v g k z e er) = ground arith
  search_from-Finds (suc n) i r (next b j g k z f) =
      rw (find_bucket-next n i j b g k z) (search_from-Finds n j r f)

  follow-ok : (p : BucketPtr) (j : ℕ) → follow ht p ≡ ok j → p ≡ pointer ht.base j
  unfolding follow
  follow-ok p j e = ground arith

  found_value-hit :
      (i : ℕ) (b : Bucket) (r : Option Ptr)
      → get_elem? ht.buckets i ≡ some b
      → has_key key b ≡ ok true
      → found_value ht key i ≡ ok r
      → (v : Ptr) × (b.value ≡ some v) × (r ≡ (if v == null then none else some v))
  unfolding found_value
  found_value-hit i b r g k e = elim (Option-cases b.value) [
    | inl z ↦ absurd (ground arith)
    | inr (v, z) ↦ (v, z, ground arith)
  ]

  found_value-miss :
      (i : ℕ) (b : Bucket) (r : Option Ptr)
      → get_elem? ht.buckets i ≡ some b
      → has_key key b ≡ ok false
      → found_value ht key i ≡ ok r
      → (v : Ptr) × (b.value ≡ some v) × (r ≡ none)
  unfolding found_value
  found_value-miss i b r g k e = elim (Option-cases b.value) [
    | inl z ↦ absurd (ground arith)
    | inr (v, z) ↦ (v, z, ground arith)
  ]

  found-here :
      (n i : ℕ) (b : Bucket) (r : Option Ptr)
      → get_elem? ht.buckets i ≡ some b
      → (has_key key b ≡ ok true) ⊎ ((has_key key b ≡ ok false) × (b.next ≡ none))
      → search_from (suc n) ht key i ≡ ok r
      → found_value ht key i ≡ ok r
  unfolding find_bucket
  found-here n i b r g (inl k) e = ground arith
  found-here n i b r g (inr (k, z)) e = ground arith

  Finds-bucket :
      (n i : ℕ) (r : Option Ptr) (b : Bucket)
      → get_elem? ht.buckets i ≡ some b
      → search_from (suc n) ht key i ≡ ok r
      → ((j : ℕ) → search_from n ht key j ≡ ok r → Finds ht key n j r)
      → Finds ht key (suc n) i r
  Finds-bucket n i r b g e later = elim (Run-cases (has_key key b)) [
    | inl (true, k) ↦
        let (v, z, er) = found_value-hit i b r g k (found-here n i b r g (inl k) e) in
        hit b v g k z er
    | inl (false, k) ↦ elim (Option-cases b.next) [
      | inl last ↦
          let (v, z, er) = found_value-miss i b r g k (found-here n i b r g (inr (k, last)) e) in
          miss b v g k last z er
      | inr (p, z) ↦ elim (Run-cases (follow ht p)) [
        | inl (j, f) ↦
            let z' : b.next ≡ some (pointer ht.base j) = z ∙ ap some (follow-ok p j f) in
            next b j g k z' (later j (rw (find_bucket-next n i j b g k z') at e))
        | inr (inl f) ↦ absurd (unfold find_bucket in ground arith)
        | inr (inr f) ↦ absurd (unfold find_bucket in ground arith)
      ]
    ]
    | inr (inl f) ↦ absurd (unfold find_bucket in ground arith)
    | inr (inr f) ↦ absurd (unfold find_bucket in ground arith)
  ]

  pub Finds-search_from :
      (n i : ℕ) (r : Option Ptr) → search_from n ht key i ≡ ok r → Finds ht key n i r
  Finds-search_from zero i r e = absurd (unfold find_bucket in ground arith)
  Finds-search_from (suc n) i r e = elim (Option-cases (get_elem? ht.buckets i)) [
    | inl none_there ↦ absurd (unfold find_bucket in ground arith)
    | inr (b, g) ↦ Finds-bucket n i r b g e (λ j. Finds-search_from n j r)
  ]
