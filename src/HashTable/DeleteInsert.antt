-- ===== src/HashTable/DeleteInsert.antt =====
-- `hash_delete` after `hash_insert`: a key that took its own bucket leaves no trace.
use aoq.Prelude.{
  ℕ, zero, suc, ◌+◌, ◌-◌, ◌≤◌, ◌<◌, ◌∙◌, ap, ◌≡◌, refl, true, some, List, [], ◌∷◌, length,
  get_elem?, set, arith,
}
use aoq.Heap.{Ptr, ok, Returns}
use aoq.HashTable.{Bucket, HashTable, Realloc, blank, has_key, hash_index, hash_insert, hash_delete}
use aoq.HashTable.Text.{Named, same_text_refl, copy_bytes-Named}
use aoq.HashTable.Insert.{filled, with_bucket, get_elem?-set, hash_index-size}
use aoq.HashTable.InsertFind.{has_key-Named, grow-same, insert_into-free}
use aoq.HashTable.Delete.{cleared, find_bucket-here, hash_delete-cleared}

-- A bucket that is written, and then gets back what it held.
set-set_back :
    (xs : List Bucket) (i : ℕ) (b c : Bucket) → get_elem? xs i ≡ some b → set (set xs i c) i b ≡ xs
set-set_back [] i b c g = refl
set-set_back (x ∷ xs) zero b c g = let e : b ≡ x = cc in ap (λ y. y ∷ xs) e
set-set_back (x ∷ xs) (suc i) b c g = ap (λ ys. x ∷ ys) (set-set_back xs i b c g)

cleared-with_bucket :
    (ht : HashTable) (i : ℕ) (b : Bucket)
    → get_elem? ht.buckets i ≡ some blank
    → cleared (with_bucket ht i b) i ≡ ht
cleared-with_bucket ht i b g =
    let back = set-set_back ht.buckets i blank b g in
    let count : ht.total + 1 - 1 ≡ ht.total = omega arith in rw (back, count) refl

-- In a table with room, a key of at most seven bytes whose own bucket is blank can be inserted and
-- deleted again, as long as eight bytes can be read from its start on, as many as `memcpy` copies:
-- `hash_insert` returns, and `hash_delete` of the key then reports success and leaves the table as it
-- was before both.
pub hash_delete-hash_insert :
    (realloc : Realloc) (n fuel : ℕ) (rands : List ℕ) (ht : HashTable) (name key : List ℕ) (v : Ptr)
    (i : ℕ)
    → ht.total < ht.size
    → Named name key
    → length name ≤ 7
    → 8 ≤ length key
    → hash_index ht key ≡ ok i
    → get_elem? ht.buckets i ≡ some blank
    → Returns
        (hash_insert realloc n rands ht key v)
        λ ht'. hash_delete (suc fuel) ht' key ≡ ok (true, ht)
unfolding hash_insert
hash_delete-hash_insert realloc n fuel rands ht name key v i room named short readable home g =
    let (k, copied, named_k) = copy_bytes-Named name key named short readable in
    let ht' = with_bucket ht i (filled k v) in
    let here = get_elem?-set ht.buckets i i (filled k v) blank g in
    let own : has_key key (filled k v) ≡ ok true =
      has_key-Named name name key k v named named_k ∙ ap ok (same_text_refl name) in
    (
      ht',
      rw (grow-same realloc ht room)
          (insert_into-free n rands ht key k v i blank home g refl copied),
      hash_delete-cleared (suc fuel) ht' key i i (filled k v) (filled k v) v v
            (hash_index-size ht ht' key refl ∙ home) here refl
            (find_bucket-here fuel ht' key i (filled k v) here own) here refl own
          ∙ ap (λ t. ok (true, t)) (cleared-with_bucket ht i (filled k v) g),
    )
