-- ===== src/HashTable/Insert.antt =====
-- `hash_insert` of a short key that is not in the table, while no `realloc` is needed.
use aoq.Prelude.{
  ℕ, suc, ◌+◌, ◌∙◌, sym, ap, ◌≡◌, refl, ◌≢◌, ◌⊎◌, inl, inr, false, Option, some, none, List, arith,
  get_elem?, set, get_elem?-set_self, get_elem?-set_ne, get_elem?-set_cases, get_elem?-lt,
  Option-cases,
}
use mathlib.Core.Path.{subst}
use native.Mathlib.Decide.{ℕ_discrete}
use aoq.Heap.{Ptr, null, ok, Run-cases}
use aoq.HashTable.{Bucket, HashTable, has_key, hash_index, hash_find}
use aoq.HashTable.Find.{pointer, Finds, search_from, search_from-Finds, Finds-search_from}
use aoq.HashTable.Extend.{Extends, NoNull, Finds-other, miss_new}

-- The table without a resize or a deletion: free buckets are blank, and used ones hold a queue.
pub record IsTable (ht : HashTable) : Type 0 where
  pub free_blank :
      (i : ℕ) (b : Bucket) → get_elem? ht.buckets i ≡ some b → b.value ≡ none → b.key ≡ none
  pub no_null : NoNull ht

abbrev pub filled : List ℕ → Ptr → Bucket
filled k v = record { key = some k; value = some v; next = none }

-- The tables after the two branches that take the bucket `j`.
abbrev pub with_bucket : HashTable → ℕ → Bucket → HashTable
with_bucket ht j new = record ht { buckets = set ht.buckets j new; total = ht.total + 1 }

abbrev pub with_link : HashTable → ℕ → Bucket → ℕ → HashTable
with_link ht l b j = record ht {
  buckets = set ht.buckets l (record b { next = some (pointer ht.base j) });
}

pub get_elem?-set :
    (xs : List Bucket) (i j : ℕ) (v : Bucket) (b : Bucket)
    → get_elem? xs i ≡ some b
    → get_elem? (set xs i v) i ≡ some v
get_elem?-set xs i j v b g = get_elem?-set_self xs i v (get_elem?-lt xs i b g)

-- A bucket may be written when it meets what the table asks of each.
pub IsTable-set :
    (ht ht' : HashTable) (i : ℕ) (new : Bucket)
    → IsTable ht
    → ht'.buckets ≡ set ht.buckets i new
    → (new.value ≡ none → new.key ≡ none)
    → new.value ≢ some null
    → IsTable ht'
IsTable-set ht ht' i new is e blank_key not_null = record {
  free_blank = λ j b g z. elim (get_elem?-set_cases ht.buckets i j new b (rw (← e) g)) [
    | inl same ↦
        ap (λ (x : Bucket). x.key) same ∙ blank_key (sym (ap (λ (x : Bucket). x.value) same) ∙ z)
    | inr before ↦ is.free_blank j b before z
  ];
  no_null = λ j b v g z q. elim (get_elem?-set_cases ht.buckets i j new b (rw (← e) g)) [
    | inl same ↦ not_null (sym (ap (λ (x : Bucket). x.value) same) ∙ z ∙ ap some q)
    | inr before ↦ is.no_null j b v before z q
  ];
}

pub with_bucket-Extends :
    (ht : HashTable) (j : ℕ) (k : List ℕ) (v : Ptr) (b : Bucket)
    → IsTable ht
    → get_elem? ht.buckets j ≡ some b
    → b.value ≡ none
    → Extends ht (with_bucket ht j (filled k v)) j (filled k v)
with_bucket-Extends ht j k v b is g free = record {
  base = refl;
  size = refl;
  was_free = λ c gc. let same : b ≡ c = cc in rw (← same) (free, is.free_blank j b g free);
  taken = get_elem?-set ht.buckets j j (filled k v) b g;
  ends = refl;
  others = λ i c d gc.
      (c, get_elem?-set_ne ht.buckets j i (filled k v) (λ e. d (sym e)) ∙ gc, refl, refl, inl refl);
}

pub with_link-Extends :
    (ht : HashTable) (l j : ℕ) (k : List ℕ) (v : Ptr) (bl b : Bucket)
    → IsTable ht
    → get_elem? ht.buckets l ≡ some bl
    → bl.next ≡ none
    → l ≢ j
    → get_elem? ht.buckets j ≡ some b
    → b.value ≡ none
    → Extends ht (with_bucket (with_link ht l bl j) j (filled k v)) j (filled k v)
with_link-Extends ht l j k v bl b is gl zl d g free =
    let bl' : Bucket = record bl { next = some (pointer ht.base j) } in
    record {
      base = refl;
      size = refl;
      was_free = λ c gc. let same : b ≡ c = cc in rw (← same) (free, is.free_blank j b g free);
      taken =
          get_elem?-set (set ht.buckets l bl') j j (filled k v) b
            (get_elem?-set_ne ht.buckets l j bl' d ∙ g);
      ends = refl;
      others = λ i c e gc.
          let past = get_elem?-set_ne (set ht.buckets l bl') j i (filled k v) (λ q. e (sym q)) in
          elim (ℕ_discrete i l) [
            | yes q ↦
                let same : bl ≡ c = cc in
                let moved =
                  subst (λ x. get_elem? (set ht.buckets l bl') x ≡ some bl') (sym q)
                    (get_elem?-set ht.buckets l l bl' bl gl) in
                (
                  bl',
                  past ∙ moved,
                  ap (λ (x : Bucket). x.key) same,
                  ap (λ (x : Bucket). x.value) same,
                  inr (ap (λ (x : Bucket). x.next) (sym same) ∙ zl, refl),
                )
            | no q ↦ (
              c,
              past ∙ get_elem?-set_ne ht.buckets l i bl' (λ x. q (sym x)) ∙ gc,
              refl,
              refl,
              inl refl,
            )
          ];
    }

module _ (n : ℕ) (ht : HashTable) (key : List ℕ) (i : ℕ) (b : Bucket)
    (home : hash_index ht key ≡ ok i) (g : get_elem? ht.buckets i ≡ some b) where
  pub hash_find-free : b.value ≡ none → hash_find n ht key ≡ ok none
  unfolding hash_find
  hash_find-free e = rw (home, g, e)

  pub hash_find-used : (w : Ptr) → b.value ≡ some w → hash_find n ht key ≡ search_from n ht key i
  unfolding hash_find
  hash_find-used w e = rw (home, g, e)

-- What a search that returned went through.
pub record Found (n : ℕ) (ht : HashTable) (key : List ℕ) (r : Option Ptr) : Type 0 where
  pub place : ℕ
  pub bucket : Bucket
  pub home : hash_index ht key ≡ ok place
  pub there : get_elem? ht.buckets place ≡ some bucket
  pub way :
      ((bucket.value ≡ none) × (r ≡ none))
      ⊎ ((w : Ptr) × (bucket.value ≡ some w) × Finds ht key n place r)

ok_same : (r s : Option Ptr) → ok r ≡ ok s → s ≡ r
ok_same r s e = cc

pub hash_find-Found :
    (n : ℕ) (ht : HashTable) (key : List ℕ) (r : Option Ptr)
    → hash_find n ht key ≡ ok r
    → Found n ht key r
hash_find-Found n ht key r e = elim (Run-cases (hash_index ht key)) [
  | inl (i, home) ↦ elim (Option-cases (get_elem? ht.buckets i)) [
    | inl nowhere ↦ absurd (unfold hash_find in ground arith)
    | inr (b, g) ↦ elim (Option-cases b.value) [
      | inl free ↦ record {
        place = i;
        bucket = b;
        home = home;
        there = g;
        way = inl (free, ok_same none r (sym (hash_find-free n ht key i b home g free) ∙ e));
      }
      | inr (w, used) ↦ record {
        place = i;
        bucket = b;
        home = home;
        there = g;
        way = inr (
          w,
          used,
          Finds-search_from ht key n i r (sym (hash_find-used n ht key i b home g w used) ∙ e),
        );
      }
    ]
  ]
  | inr (inl f) ↦ absurd (unfold hash_find in ground arith)
  | inr (inr f) ↦ absurd (unfold hash_find in ground arith)
]

pub hash_index-size :
    (ht ht' : HashTable) (key : List ℕ)
    → ht'.size ≡ ht.size
    → hash_index ht' key ≡ hash_index ht key
unfolding hash_index
hash_index-size ht ht' key e = rw e

pub used_not_free : (b : Bucket) (w : Ptr) → b.value ≡ some w → b.value ≡ none → ⊥
used_not_free b w used free = cc

-- Other keys are found as before.
pub hash_find-other :
    (n : ℕ) (ht ht' : HashTable) (j : ℕ) (new : Bucket) (v : Ptr) (key : List ℕ) (r : Option Ptr)
    → Extends ht ht' j new
    → new.value ≡ some v
    → has_key key new ≡ ok false
    → hash_find n ht key ≡ ok r
    → hash_find (suc n) ht' key ≡ ok r
hash_find-other n ht ht' j new v key r ext ev kn e =
    let f = hash_find-Found n ht key r e in
    let home' = hash_index-size ht ht' key ext.size ∙ f.home in
    elim f.way [
      | inl (free, er) ↦ elim (ℕ_discrete f.place j) [
        | yes q ↦
            let g' = subst (λ x. get_elem? ht'.buckets x ≡ some new) (sym q) ext.taken in
            hash_find-used (suc n) ht' key f.place new home' g' v ev
            ∙ search_from-Finds ht' key (suc n) f.place r (rw (q, er) (miss_new ext key n v ev kn))
        | no q ↦
            let (c, g', ek, ew, en) = ext.others f.place f.bucket q f.there in
            hash_find-free (suc n) ht' key f.place c home' g' (ew ∙ free) ∙ ap ok (sym er)
      ]
      | inr (w, used, found) ↦
          let apart : f.place ≢ j = λ q.
            used_not_free f.bucket w used
              (ext.was_free f.bucket
                (subst (λ x. get_elem? ht.buckets x ≡ some f.bucket) q f.there)).0 in
          let (c, g', ek, ew, en) = ext.others f.place f.bucket apart f.there in
          hash_find-used (suc n) ht' key f.place c home' g' w (ew ∙ used)
          ∙ search_from-Finds ht' key (suc n) f.place r
              (Finds-other ext key v ev kn n f.place r found)
    ]
