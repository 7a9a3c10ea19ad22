-- ===== src/HashTable/Extend.antt =====
-- A table with one more bucket in use: searches for other keys return what they did, and a search for the
-- new key that ended without success ends at the new bucket.
use aoq.Prelude.{
  ℕ, zero, suc, ◌∙◌, sym, ap, ◌≡◌, refl, ◌≢◌, ◌⊎◌, inl, inr, Bool, true, false, Option, some, none,
  List, arith, get_elem?,
}
use aoq.Heap.{Ptr, null, ok}
use aoq.HashTable.{Bucket, HashTable, has_key, at_end, insert_walk}
use aoq.HashTable.Find.{pointer, Finds, hit, miss, next}

-- `new` has taken the free bucket `j`; at most, last buckets of chains now lead to it.
pub record Extends (ht ht' : HashTable) (j : ℕ) (new : Bucket) : Type 0 where
  pub base : ht'.base ≡ ht.base
  pub size : ht'.size ≡ ht.size
  pub was_free : (b : Bucket) → get_elem? ht.buckets j ≡ some b → (b.value ≡ none) × (b.key ≡ none)
  pub taken : get_elem? ht'.buckets j ≡ some new
  pub ends : new.next ≡ none
  pub others :
      (i : ℕ) (b : Bucket)
      → i ≢ j
      → get_elem? ht.buckets i ≡ some b
      → (c : Bucket) × (get_elem? ht'.buckets i ≡ some c)
        × (c.key ≡ b.key)
        × (c.value ≡ b.value)
        × ((c.next ≡ b.next) ⊎ ((b.next ≡ none) × (c.next ≡ some (pointer ht.base j))))

has_key-congr : (key : List ℕ) (b c : Bucket) → c.key ≡ b.key → has_key key c ≡ has_key key b
unfolding has_key
has_key-congr key b c e = rw e

-- A bucket without a key is not on a chain that is searched.
pub not_blank : (key : List ℕ) (b : Bucket) (s : Bool) → b.key ≡ none → has_key key b ≡ ok s → ⊥
unfolding has_key
not_blank key b s e k = ground arith

module _ {ht ht' : HashTable} {j : ℕ} {new : Bucket} (ext : Extends ht ht' j new)
    (key : List ℕ) where
  ne_of_key :
      (i : ℕ) (b : Bucket) (s : Bool)
      → get_elem? ht.buckets i ≡ some b
      → has_key key b ≡ ok s
      → i ≢ j
  ne_of_key i b s g k e = not_blank key b s (ext.was_free b (rw (sym e) g)).1 k

  -- The new bucket, searched for another key.
  pub miss_new :
      (n : ℕ) (v : Ptr)
      → new.value ≡ some v
      → has_key key new ≡ ok false
      → Finds ht' key (suc n) j none
  miss_new n v e k = miss new v ext.taken k ext.ends e refl

  pub Finds-other :
      (v : Ptr)
      → new.value ≡ some v
      → has_key key new ≡ ok false
      → (n i : ℕ) (r : Option Ptr) → Finds ht key n i r
      → Finds ht' key (suc n) i r
  Finds-other v ev kn zero i r f = elim f [ ]
  Finds-other v ev kn (suc n) i r (hit b w g k e er) =
      let (c, g', ek, ew, en) = ext.others i b (ne_of_key i b true g k) g in
      hit c w g' (has_key-congr key b c ek ∙ k) (ew ∙ e) er
  Finds-other v ev kn (suc n) i r (miss b w g k z e er) =
      let (c, g', ek, ew, en) = ext.others i b (ne_of_key i b false g k) g in
      let k' = has_key-congr key b c ek ∙ k in
      elim en [
        | inl same ↦ miss c w g' k' (same ∙ z) (ew ∙ e) er
        | inr (was, linked) ↦
            next c j g' k' (linked ∙ ap (λ x. some (pointer x j)) (sym ext.base))
              (rw er (miss_new n v ev kn))
      ]
  Finds-other v ev kn (suc n) i r (next b m g k z f) =
      let (c, g', ek, ew, en) = ext.others i b (ne_of_key i b false g k) g in
      let k' = has_key-congr key b c ek ∙ k in
      let onward : (c.next ≡ b.next) → Finds ht' key (suc (suc n)) i r = λ same.
        next c m g' k' (same ∙ z ∙ ap (λ x. some (pointer x m)) (sym ext.base))
          (Finds-other v ev kn n m r f) in
      elim en [ inl same ↦ onward same | inr (was, linked) ↦ absurd (cc) ]

-- The chain from `i` on is searched to its end at `l`, over `n` buckets at most, and none has the key.
pub data Ends (ht : HashTable) (key : List ℕ) : ℕ → ℕ → ℕ → Type 0 where
  stop :
      {n i l : ℕ} (b : Bucket)
      → get_elem? ht.buckets i ≡ some b
      → has_key key b ≡ ok false
      → b.next ≡ none
      → l ≡ i
      → Ends ht key (suc n) i l
  onward :
      {n i l : ℕ} (b : Bucket) (m : ℕ)
      → get_elem? ht.buckets i ≡ some b
      → has_key key b ≡ ok false
      → b.next ≡ some (pointer ht.base m)
      → Ends ht key n m l
      → Ends ht key (suc n) i l

-- No bucket holds `NULL` for a queue.
abbrev pub NoNull : HashTable → Type 0
NoNull ht =
    (i : ℕ) (b : Bucket) (v : Ptr) → get_elem? ht.buckets i ≡ some b → b.value ≡ some v → v ≢ null

module _ (ht : HashTable) (key : List ℕ) (sound : NoNull ht) where
  pub Ends-Finds :
      (n i : ℕ) (r : Option Ptr) → Finds ht key n i r → r ≡ none → (l : ℕ) × Ends ht key n i l
  Ends-Finds zero i r f e = elim f [ ]
  Ends-Finds (suc n) i r (hit b v g k ev er) e = absurd (let ne = sound i b v g ev in ground arith)
  Ends-Finds (suc n) i r (miss b v g k z ev er) e = (i, stop b g k z refl)
  Ends-Finds (suc n) i r (next b m g k z f) e =
      let (l, ends) = Ends-Finds n m r f e in (l, onward b m g k z ends)

  insert_walk-next :
      (n i m : ℕ) (b : Bucket)
      → get_elem? ht.buckets i ≡ some b
      → has_key key b ≡ ok false
      → b.next ≡ some (pointer ht.base m)
      → insert_walk (suc n) ht key i ≡ insert_walk n ht key m
  unfolding insert_walk
  insert_walk-next n i m b g k z = ground arith

  insert_walk-stop :
      (n i : ℕ) (b : Bucket)
      → get_elem? ht.buckets i ≡ some b
      → b.next ≡ none
      → insert_walk (suc n) ht key i ≡ ok (at_end i)
  unfolding insert_walk
  insert_walk-stop n i b g z = ground arith

  pub insert_walk-Ends : (n i l : ℕ) → Ends ht key n i l → insert_walk n ht key i ≡ ok (at_end l)
  insert_walk-Ends zero i l f = elim f [ ]
  insert_walk-Ends (suc n) i l (stop b g k z e) =
      insert_walk-stop n i b g z ∙ ap (λ x. ok (at_end x)) (sym e)
  insert_walk-Ends (suc n) i l (onward b m g k z f) =
      insert_walk-next n i m b g k z ∙ insert_walk-Ends n m l f

  -- The last bucket of the chain.
  pub Ends-last :
      (n i l : ℕ)
      → Ends ht key n i l
      → (b : Bucket) × (get_elem? ht.buckets l ≡ some b)
        × (has_key key b ≡ ok false)
        × (b.next ≡ none)
  Ends-last zero i l f = elim f [ ]
  Ends-last (suc n) i l (stop b g k z e) = (b, rw e g, k, z)
  Ends-last (suc n) i l (onward b m g k z f) = Ends-last n m l f

pub hit_new :
    {ht ht' : HashTable} {j : ℕ} {new : Bucket} (ext : Extends ht ht' j new) (key : List ℕ)
    (v : Ptr)
    → new.value ≡ some v
    → v ≢ null
    → has_key key new ≡ ok true
    → (n : ℕ) → Finds ht' key (suc n) j (some v)
hit_new {new} ext key v ev ne kn n = hit new v ext.taken kn ev (ground arith)

-- Once its last bucket leads to the new one, the chain is searched on to there.
module _ {ht ht' : HashTable} {j : ℕ} {new : Bucket} (ext : Extends ht ht' j new) (key : List ℕ)
    (v : Ptr) (ev : new.value ≡ some v) (ne : v ≢ null) (kn : has_key key new ≡ ok true) (l : ℕ)
    (c : Bucket) (gl : get_elem? ht'.buckets l ≡ some c)
    (linked : c.next ≡ some (pointer ht.base j)) where
  pub Finds-new : (n i : ℕ) → Ends ht key n i l → Finds ht' key (suc n) i (some v)
  Finds-new zero i f = elim f [ ]
  Finds-new (suc n) i (stop b g k z e) =
      let (c', g', ek, ew, en) = ext.others i b (ne_of_key ext key i b false g k) g in
      let same : c' ≡ c = cc in
      next c' j g' (has_key-congr key b c' ek ∙ k)
        (rw same (linked ∙ ap (λ x. some (pointer x j)) (sym ext.base)))
        (hit_new ext key v ev ne kn n)
  Finds-new (suc n) i (onward b m g k z f) =
      let (c', g', ek, ew, en) = ext.others i b (ne_of_key ext key i b false g k) g in
      elim en [
        | inl same ↦
            next c' m g' (has_key-congr key b c' ek ∙ k)
              (same ∙ z ∙ ap (λ x. some (pointer x m)) (sym ext.base)) (Finds-new n m f)
        | inr (was, q) ↦ absurd (cc)
      ]
