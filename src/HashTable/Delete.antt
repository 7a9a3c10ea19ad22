-- ===== src/HashTable/Delete.antt =====
-- What `hash_delete` does to a chain: it clears the whole bucket, and mends no `next`.
use aoq.Prelude.{
  ℕ, suc, ◌-◌, ◌∙◌, sym, ap, ◌≡◌, refl, ◌≢◌, true, false, some, none, List, arith, get_elem?, set,
  get_elem?-set_ne,
}
use aoq.Heap.{Ptr, ok, fault, ◌>>=◌, Returns}
use aoq.HashTable.{
  Bucket, HashTable, blank, has_key, hash_index, find_bucket, found_value, hash_find, hash_delete,
}
use aoq.HashTable.Find.{pointer}
use aoq.HashTable.Insert.{get_elem?-set, hash_index-size, hash_find-free, hash_find-used}

abbrev pub cleared : HashTable → ℕ → HashTable
cleared ht j = record ht { buckets = set ht.buckets j blank; total = ht.total - 1 }

pub find_bucket-here :
    (n : ℕ) (ht : HashTable) (key : List ℕ) (i : ℕ) (b : Bucket)
    → get_elem? ht.buckets i ≡ some b
    → has_key key b ≡ ok true
    → find_bucket (suc n) ht key i ≡ ok i
unfolding find_bucket
find_bucket-here n ht key i b g k = rw (g, k)

find_bucket-next :
    (n : ℕ) (ht : HashTable) (key : List ℕ) (i j : ℕ) (b : Bucket)
    → get_elem? ht.buckets i ≡ some b
    → has_key key b ≡ ok false
    → b.next ≡ some (pointer ht.base j)
    → find_bucket (suc n) ht key i ≡ find_bucket n ht key j
unfolding find_bucket
find_bucket-next n ht key i j b g k z = rw (g, k) (ground arith)

pub hash_delete-cleared :
    (n : ℕ) (ht : HashTable) (key : List ℕ) (i j : ℕ) (b c : Bucket) (w v : Ptr)
    → hash_index ht key ≡ ok i
    → get_elem? ht.buckets i ≡ some b
    → b.value ≡ some w
    → find_bucket n ht key i ≡ ok j
    → get_elem? ht.buckets j ≡ some c
    → c.value ≡ some v
    → has_key key c ≡ ok true
    → hash_delete n ht key ≡ ok (true, cleared ht j)
unfolding hash_delete
hash_delete-cleared n ht key i j b c w v home g used f gc uc k = rw (home, g, used, f, gc, uc, k)

-- `has_key` tells two buckets apart.
two_buckets :
    (ht : HashTable) (key : List ℕ) (b c : Bucket) (i j : ℕ)
    → j ≡ i
    → get_elem? ht.buckets i ≡ some b
    → get_elem? ht.buckets j ≡ some c
    → has_key key b ≡ ok false
    → has_key key c ≡ ok true
    → ⊥
two_buckets ht key b c i j q gb gc kb kc =
    let same : c ≡ b = cc in
    let both : ok true ≡ ok false = sym kc ∙ ap (has_key key) same ∙ kb in cc

find_bucket-blank :
    (n : ℕ) (ht : HashTable) (key : List ℕ) (j : ℕ)
    → get_elem? ht.buckets j ≡ some blank
    → find_bucket (suc n) ht key j >>= found_value ht key ≡ fault
unfolding find_bucket has_key
find_bucket-blank n ht key j g = rw g

module _ (n : ℕ) (ht : HashTable) (key : List ℕ) (i : ℕ) (b : Bucket) (w : Ptr)
    (home : hash_index ht key ≡ ok i) (g : get_elem? ht.buckets i ≡ some b)
    (used : b.value ≡ some w) where
  -- When a key stands in the bucket of its index, and another key with the same index is found, then
  -- after `hash_delete` of the first, which reports success, the other one is not found.
  pub hash_delete-loses :
      (other : List ℕ) (v : Ptr)
      → has_key key b ≡ ok true
      → hash_index ht other ≡ ok i
      → hash_find n ht other ≡ ok (some v)
      → Returns (hash_delete (suc n) ht key) λ r. (r.0 ≡ true) × (hash_find n r.1 other ≡ ok none)
  hash_delete-loses other v k home' found = (
    (true, cleared ht i),
    hash_delete-cleared (suc n) ht key i i b b w w home g used (find_bucket-here n ht key i b g k) g
        used k,
    (
      refl,
      hash_find-free n (cleared ht i) other i blank
          (hash_index-size ht (cleared ht i) other refl ∙ home')
          (get_elem?-set ht.buckets i i blank b g) refl,
    ),
  )

  -- When a key stands in the second bucket of its chain, then after `hash_delete` of it, which reports
  -- success, a search for the key faults: the first bucket still points to the cleared one, whose `key`
  -- is `NULL`.
  pub hash_delete-dangles :
      (j : ℕ) (c : Bucket) (v : Ptr)
      → has_key key b ≡ ok false
      → b.next ≡ some (pointer ht.base j)
      → get_elem? ht.buckets j ≡ some c
      → c.value ≡ some v
      → has_key key c ≡ ok true
      → Returns
          (hash_delete (suc (suc n)) ht key)
          λ r. (r.0 ≡ true) × (hash_find (suc (suc n)) r.1 key ≡ fault)
  hash_delete-dangles j c v kb z gc uc kc =
      let ht' = cleared ht j in
      let apart : j ≢ i = λ q. two_buckets ht key b c i j q g gc kb kc in
      let g' = get_elem?-set_ne ht.buckets j i blank apart ∙ g in
      (
        (true, ht'),
        hash_delete-cleared (suc (suc n)) ht key i j b c w v home g used
            (find_bucket-next (suc n) ht key i j b g kb z ∙ find_bucket-here n ht key j c gc kc) gc
            uc kc,
        (
          refl,
          hash_find-used (suc (suc n)) ht' key i b (hash_index-size ht ht' key refl ∙ home) g' w
                used
              ∙ rw (find_bucket-next (suc n) ht' key i j b g' kb z)
                  (find_bucket-blank n ht' key j (get_elem?-set ht.buckets j j blank c gc)),
        ),
      )
