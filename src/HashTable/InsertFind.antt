-- ===== src/HashTable/InsertFind.antt =====
-- `hash_find` after `hash_insert` of a short key that was not in the table.
use aoq.Prelude.{
  ℕ, suc, ◌+◌, ◌≤◌, ◌<◌, ◌∙◌, sym, ap, ◌≡◌, refl, ◌≢◌, inl, inr, true, false, Option, some, none,
  List, [], ◌∷◌, arith, ◌==◌, get_elem?, set, length, get_elem?-set_ne, Option-cases, Bool-cases,
  lt→ltb,
}
use mathlib.Core.Path.{subst}
use aoq.Heap.{Ptr, null, ok, Returns, Run-cases}
use aoq.HashTable.{
  Bucket, HashTable, Realloc, has_key, hash_index, hash_find, hash_insert, insert_into, grow, pick,
  insert_walk, at_end, copy_bytes, decimal, distance,
}
use aoq.HashTable.Text.{Named, same_text, same_text_refl, strcmp_eq-Named, copy_bytes-Named}
use aoq.HashTable.Find.{pointer, search_from-Finds}
use aoq.HashTable.Extend.{
  Extends, Ends, Ends-Finds, insert_walk-Ends, Ends-last, Finds-new, hit_new, not_blank,
}
use aoq.HashTable.Insert.{
  IsTable, IsTable-set, filled, with_bucket, with_link, with_bucket-Extends, with_link-Extends,
  hash_find-used, hash_find-Found, hash_find-other, hash_index-size, get_elem?-set, used_not_free,
}

pub has_key-Named :
    (a b m n : List ℕ) (v : Ptr)
    → Named a m
    → Named b n
    → has_key m (filled n v) ≡ ok (same_text a b)
unfolding has_key
has_key-Named a b m n v na nb = strcmp_eq-Named a b m n na nb

pub grow-same : (realloc : Realloc) (ht : HashTable) → ht.total < ht.size → grow realloc ht ≡ ht
unfolding grow
grow-same realloc ht lt = rw (lt→ltb ht.total ht.size lt)

pub insert_into-free :
    (n : ℕ) (rands : List ℕ) (ht : HashTable) (key k : List ℕ) (v : Ptr) (i : ℕ) (b : Bucket)
    → hash_index ht key ≡ ok i
    → get_elem? ht.buckets i ≡ some b
    → b.value ≡ none
    → copy_bytes 8 key ≡ ok k
    → insert_into n rands ht key v ≡ ok (with_bucket ht i (filled k v))
unfolding insert_into
insert_into-free n rands ht key k v i b home g free copied =
    rw (home, g, free) (ground (arith, g, copied))

insert_into-linked :
    (n : ℕ) (rands : List ℕ) (ht : HashTable) (key k : List ℕ) (v : Ptr) (i l j : ℕ)
    (b bl bj : Bucket) (w : Ptr)
    → hash_index ht key ≡ ok i
    → get_elem? ht.buckets i ≡ some b
    → b.value ≡ some w
    → insert_walk n ht key i ≡ ok (at_end l)
    → pick rands ht i ≡ ok j
    → get_elem? ht.buckets l ≡ some bl
    → get_elem? (with_link ht l bl j).buckets j ≡ some bj
    → copy_bytes 8 key ≡ ok k
    → insert_into n rands ht key v ≡ ok (with_bucket (with_link ht l bl j) j (filled k v))
unfolding insert_into
insert_into-linked n rands ht key k v i l j b bl bj w home g used walk draw gl gj copied =
    rw (home, g, used, walk, draw, gl, gj, copied)

-- What an insertion of `key` with the text `name` into `ht` leaves.
pub record Inserted (n : ℕ) (ht : HashTable) (name key : List ℕ) (v : Ptr) (ht' : HashTable)
    : Type 0 where
  pub table : IsTable ht'
  pub total : ht'.total ≡ ht.total + 1
  pub size : ht'.size ≡ ht.size
  pub found : hash_find (suc n) ht' key ≡ ok (some v)
  pub others :
      (other memory : List ℕ) (r : Option Ptr)
      → Named other memory
      → same_text other name ≡ false
      → hash_find n ht memory ≡ ok r
      → hash_find (suc n) ht' memory ≡ ok r

module _ (n : ℕ) (ht : HashTable) (name key k : List ℕ) (v : Ptr) (named : Named name key)
    (copied : Named name k) where
  others-Extends :
      (ht' : HashTable) (j : ℕ)
      → Extends ht ht' j (filled k v)
      → (other memory : List ℕ) (r : Option Ptr) → Named other memory
      → same_text other name ≡ false
      → hash_find n ht memory ≡ ok r
      → hash_find (suc n) ht' memory ≡ ok r
  others-Extends ht' j ext other memory r no_key ne e =
      hash_find-other n ht ht' j (filled k v) v memory r ext refl
        (has_key-Named other name memory k v no_key copied ∙ ap ok ne) e

  own_key : has_key key (filled k v) ≡ ok true
  own_key = has_key-Named name name key k v named copied ∙ ap ok (same_text_refl name)

  -- The branch that takes the key's own bucket.
  Inserted-free :
      (i : ℕ) (b : Bucket)
      → IsTable ht
      → v ≢ null
      → hash_index ht key ≡ ok i
      → get_elem? ht.buckets i ≡ some b
      → b.value ≡ none
      → Inserted n ht name key v (with_bucket ht i (filled k v))
  Inserted-free i b is ne home g free =
      let ht' = with_bucket ht i (filled k v) in
      let ext = with_bucket-Extends ht i k v b is g free in
      record {
        table = IsTable-set ht ht' i (filled k v) is refl (λ e. cc) (λ e. ne cc);
        total = refl;
        size = refl;
        found =
            hash_find-used (suc n) ht' key i (filled k v) (hash_index-size ht ht' key refl ∙ home)
              ext.taken v refl
            ∙ search_from-Finds ht' key (suc n) i (some v) (hit_new ext key v refl ne own_key n);
        others = others-Extends ht' i ext;
      }

  -- The branch that draws a bucket for the end of the chain.
  Inserted-linked :
      (i l j : ℕ) (b bl bj : Bucket) (w : Ptr)
      → IsTable ht
      → v ≢ null
      → hash_index ht key ≡ ok i
      → get_elem? ht.buckets i ≡ some b
      → b.value ≡ some w
      → Ends ht key n i l
      → get_elem? ht.buckets l ≡ some bl
      → bl.next ≡ none
      → l ≢ j
      → get_elem? ht.buckets j ≡ some bj
      → bj.value ≡ none
      → Inserted n ht name key v (with_bucket (with_link ht l bl j) j (filled k v))
  Inserted-linked i l j b bl bj w is ne home g used ends gl zl d gj free =
      let ht' = with_bucket (with_link ht l bl j) j (filled k v) in
      let ext = with_link-Extends ht l j k v bl bj is gl zl d gj free in
      let bl' : Bucket = record bl { next = some (pointer ht.base j) } in
      let gl' =
        get_elem?-set_ne (set ht.buckets l bl') j l (filled k v) (λ q. d (sym q))
        ∙ get_elem?-set ht.buckets l l bl' bl gl in
      let apart : i ≢ j = λ q.
        used_not_free b w used
          (ext.was_free b (subst (λ x. get_elem? ht.buckets x ≡ some b) q g)).0 in
      let (c, gc, ek, ew, en) = ext.others i b apart g in
      let linked_table : IsTable (with_link ht l bl j) =
        IsTable-set ht (with_link ht l bl j) l bl' is refl (is.free_blank l bl gl)
          (λ e. is.no_null l bl null gl e refl) in
      record {
        table =
            IsTable-set (with_link ht l bl j) ht' j (filled k v) linked_table refl (λ e. cc)
              (λ e. ne cc);
        total = refl;
        size = refl;
        found =
            hash_find-used (suc n) ht' key i c (hash_index-size ht ht' key refl ∙ home) gc w
              (ew ∙ used)
            ∙ search_from-Finds ht' key (suc n) i (some v)
                (Finds-new ext key v refl ne own_key l bl' gl' refl n i ends);
        others = others-Extends ht' j ext;
      }

same_bucket :
    (ht : HashTable) (l j : ℕ) (b c : Bucket)
    → l ≡ j
    → get_elem? ht.buckets l ≡ some b
    → get_elem? ht.buckets j ≡ some c
    → c ≡ b
same_bucket ht l j b c q gb gc = cc

pick-free :
    (rands : List ℕ) (ht : HashTable) (i j : ℕ)
    → pick rands ht i ≡ ok j
    → (b : Bucket) × (get_elem? ht.buckets j ≡ some b) × (b.value ≡ none)
unfolding pick
pick-free [] ht i j e = absurd (ground arith)
pick-free (r ∷ rands) ht i j e =
    elim (Run-cases (hash_index ht (decimal 20 (distance r i) (0 ∷ [])))) [
      | inl (x, h) ↦ elim (Option-cases (get_elem? ht.buckets x)) [
        | inl nowhere ↦ absurd (ground arith)
        | inr (b, g) ↦ elim (Option-cases b.value) [
          | inl free ↦ elim (Bool-cases (x == i)) [
            | inl same ↦ pick-free rands ht i j (rw (h, g, free, same) at e)
            | inr new ↦ let here : x ≡ j = ground arith in (b, rw (← here) g, free)
          ]
          | inr (w, used) ↦ pick-free rands ht i j (rw (h, g, used) at e)
        ]
      ]
      | inr (inl f) ↦ absurd (ground arith)
      | inr (inr f) ↦ absurd (ground arith)
    ]

-- Where the key's own bucket is taken, the numbers lead to a free one.
abbrev pub Draws : List ℕ → HashTable → List ℕ → Type 0
Draws rands ht key =
    (i : ℕ) (b : Bucket) (w : Ptr)
    → hash_index ht key ≡ ok i
    → get_elem? ht.buckets i ≡ some b
    → b.value ≡ some w
    → (j : ℕ) × (pick rands ht i ≡ ok j)

-- In a well-formed table with room, `hash_insert` of a key of at most seven bytes that `hash_find`
-- does not find returns, as long as the numbers that `rand()` gives lead to a free bucket when one is
-- needed, and as long as eight bytes can be read from the key's start on, as many as `memcpy` copies,
-- however short the key is. The table stays well-formed, with one more key and the same size. The key
-- is then found, with its value, and every other key is found, or not, as before.
pub hash_insert-Inserted :
    (realloc : Realloc) (n : ℕ) (rands : List ℕ) (ht : HashTable) (name key : List ℕ) (v : Ptr)
    → IsTable ht
    → ht.total < ht.size
    → Named name key
    → length name ≤ 7
    → 8 ≤ length key
    → v ≢ null
    → hash_find n ht key ≡ ok none
    → Draws rands ht key
    → Returns (hash_insert realloc n rands ht key v) (Inserted n ht name key v)
unfolding hash_insert
hash_insert-Inserted realloc n rands ht name key v is room named short readable ne absent draws =
    let f = hash_find-Found n ht key none absent in
    let (k, copied, named_k) = copy_bytes-Named name key named short readable in
    rw (grow-same realloc ht room) (elim f.way [
      | inl (free, e) ↦ (
        _,
        insert_into-free n rands ht key k v f.place f.bucket f.home f.there free copied,
        Inserted-free n ht name key k v named named_k f.place f.bucket is ne f.home f.there free,
      )
      | inr (w, used, found) ↦
          let (j, draw) = draws f.place f.bucket w f.home f.there used in
          let (bj, gj, free) = pick-free rands ht f.place j draw in
          let (l, ends) = Ends-Finds ht key is.no_null n f.place none found refl in
          let (bl, gl, kl, zl) = Ends-last ht key is.no_null n f.place l ends in
          let apart : l ≢ j = λ q.
            not_blank key bl false
              (sym (ap (λ (b : Bucket). b.key) (same_bucket ht l j bl bj q gl gj))
                ∙ is.free_blank j bj gj free)
              kl in
          (
            _,
            insert_into-linked n rands ht key k v f.place l j f.bucket bl bj w f.home f.there used
                (insert_walk-Ends ht key is.no_null n f.place l ends) draw gl
                (get_elem?-set_ne ht.buckets l j _ apart ∙ gj) copied,
            Inserted-linked n ht name key k v named named_k f.place l j f.bucket bl bj w is ne
                f.home f.there used ends gl zl apart gj free,
          )
    ])
