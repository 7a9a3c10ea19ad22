-- ===== src/HashTable/Fuel.antt =====
-- More fuel changes nothing in a search that returns.
use aoq.Prelude.{
  ℕ, zero, suc, ◌≡◌, refl, true, false, Option, some, none, Bool, List, if◌then◌else◌,
}
use aoq.Heap.{Ptr, Run, ok, fault, stuck, ◌>>=◌}
use aoq.HashTable.{
  HashTable, Realloc, Walk, bucket_at, follow, has_key, find_bucket, hash_find, hash_index,
  insert_walk, insert_into, hash_insert, grow,
}

bind-more :
    {A : Type 0} {B : Type 0} (x : Run A) (f g : A → Run B) (r : B)
    → ((a : A) → f a ≡ ok r → g a ≡ ok r)
    → x >>= f ≡ ok r
    → x >>= g ≡ ok r
bind-more (ok a) f g r h e = h a e
bind-more fault f g r h e = cc
bind-more stuck f g r h e = cc

if-more :
    {B : Type 0} (c : Bool) (x y z : Run B) (r : B)
    → (y ≡ ok r → z ≡ ok r)
    → (if c then x else y) ≡ ok r
    → (if c then x else z) ≡ ok r
if-more true x y z r h e = e
if-more false x y z r h e = h e

option-more :
    {A : Type 0} {B : Type 0} (o : Option A) (x : Run B) (f g : A → Run B) (r : B)
    → ((a : A) → f a ≡ ok r → g a ≡ ok r)
    → elim o [ none ↦ x | some a ↦ f a ] ≡ ok r
    → elim o [ none ↦ x | some a ↦ g a ] ≡ ok r
option-more none x f g r h e = e
option-more (some a) x f g r h e = h a e

insert_walk-more :
    (n : ℕ) (ht : HashTable) (key : List ℕ) (i : ℕ) (r : Walk)
    → insert_walk n ht key i ≡ ok r
    → insert_walk (suc n) ht key i ≡ ok r
unfolding insert_walk
insert_walk-more zero ht key i r e = absurd (cc)
insert_walk-more (suc n) ht key i r e =
    bind-more (bucket_at ht i) _ _ r
      (λ b. option-more b.next _ _ _ r λ p. bind-more (has_key key b) _ _ r λ same.
        if-more same _ _ _ r (bind-more (follow ht p) _ _ r λ j. insert_walk-more n ht key j r))
      e

find_bucket-more :
    (n : ℕ) (ht : HashTable) (key : List ℕ) (i j : ℕ)
    → find_bucket n ht key i ≡ ok j
    → find_bucket (suc n) ht key i ≡ ok j
unfolding find_bucket
find_bucket-more zero ht key i j e = absurd (cc)
find_bucket-more (suc n) ht key i j e =
    bind-more (bucket_at ht i) _ _ j
      (λ b. bind-more (has_key key b) _ _ j λ same. if-more same _ _ _ j (
        option-more b.next _ _ _ j
          λ p. bind-more (follow ht p) _ _ j λ k. find_bucket-more n ht key k j))
      e

bind-first :
    {A : Type 0} {B : Type 0} (x y : Run A) (f : A → Run B) (r : B)
    → ((a : A) → x ≡ ok a → y ≡ ok a)
    → x >>= f ≡ ok r
    → y >>= f ≡ ok r
bind-first (ok a) y f r h e = rw (h a refl) e
bind-first fault y f r h e = cc
bind-first stuck y f r h e = cc

pub hash_find-more :
    (n : ℕ) (ht : HashTable) (key : List ℕ) (r : Option Ptr)
    → hash_find n ht key ≡ ok r
    → hash_find (suc n) ht key ≡ ok r
unfolding hash_find
hash_find-more n ht key r e =
    bind-more (hash_index ht key) _ _ r
      (λ i. bind-more (bucket_at ht i) _ _ r λ b.
        option-more b.value _ _ _ r
          λ v. bind-first (find_bucket n ht key i) _ _ r (find_bucket-more n ht key i))
      e

pub hash_insert-more :
    (realloc : Realloc) (n : ℕ) (rands : List ℕ) (ht ht' : HashTable) (key : List ℕ) (v : Ptr)
    → hash_insert realloc n rands ht key v ≡ ok ht'
    → hash_insert realloc (suc n) rands ht key v ≡ ok ht'
unfolding hash_insert insert_into
hash_insert-more realloc n rands ht ht' key v e =
    bind-more (hash_index (grow realloc ht) key) _ _ ht'
      (λ i. bind-more (bucket_at (grow realloc ht) i) _ _ ht' λ b.
        option-more b.value _ _ _ ht' λ w.
          bind-first (insert_walk n (grow realloc ht) key i) _ _ ht'
            (insert_walk-more n (grow realloc ht) key i))
      e
