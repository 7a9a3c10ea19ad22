-- ===== src/HashTable/Text.antt =====
-- C strings as names: what `strcmp` and the eight copied bytes make of them.
use aoq.Prelude.{
  ℕ, zero, suc, ◌≤◌, ◌<◌, ◌∙◌, ap, ◌≡◌, refl, ◌≢◌, Bool, true, false, ◌&&◌, List, [], ◌∷◌, ◌++◌,
  arith, length, take, ◌==◌, All,
}
use aoq.Heap.{ok, Returns}
use aoq.HashTable.{strcmp_eq, copy_bytes}

-- The memory holds the text `name` and its `NUL`, and then anything.
abbrev pub Named : List ℕ → List ℕ → Type 0
Named name memory = All (λ c. c ≢ 0) name × (beyond : List ℕ) × (memory ≡ name ++ 0 ∷ beyond)

abbrev pub same_text : List ℕ → List ℕ → Bool
same_text [] [] = true
same_text [] (y ∷ b) = false
same_text (x ∷ a) [] = false
same_text (x ∷ a) (y ∷ b) = (x == y) && same_text a b

pub same_text_refl : (a : List ℕ) → same_text a a ≡ true
same_text_refl [] = refl
same_text_refl (x ∷ a) = ground (arith, same_text_refl a)

strcmp_eq-text :
    (a b s t : List ℕ)
    → All (λ c. c ≢ 0) a
    → All (λ c. c ≢ 0) b
    → strcmp_eq (a ++ 0 ∷ s) (b ++ 0 ∷ t) ≡ ok (same_text a b)
unfolding strcmp_eq
strcmp_eq-text [] [] s t ha hb = refl
strcmp_eq-text [] (y ∷ b) s t ha (ny, hb) = ground arith
strcmp_eq-text (x ∷ a) [] s t (nx, ha) hb = ground arith
strcmp_eq-text (x ∷ a) (y ∷ b) s t (nx, ha) (ny, hb) = ground (arith, strcmp_eq-text a b s t ha hb)

pub strcmp_eq-Named :
    (a b : List ℕ) (m n : List ℕ) → Named a m → Named b n → strcmp_eq m n ≡ ok (same_text a b)
strcmp_eq-Named a b m n (ha, s, em) (hb, t, en) = rw (em, en) (strcmp_eq-text a b s t ha hb)

take_behind :
    (n : ℕ) (name beyond : List ℕ)
    → length name < n
    → (rest : List ℕ) × (take n (name ++ 0 ∷ beyond) ≡ name ++ 0 ∷ rest)
take_behind zero name beyond lt = absurd (omega arith)
take_behind (suc n) [] beyond lt = (take n beyond, refl)
take_behind (suc n) (c ∷ name) beyond lt =
    let (rest, e) = take_behind n name beyond (omega arith) in (rest, ap (λ s. c ∷ s) e)

copy_bytes-ok : (n : ℕ) (s : List ℕ) → n ≤ length s → Returns (copy_bytes n s) λ k. k ≡ take n s
unfolding copy_bytes
copy_bytes-ok zero s le = ([], refl, refl)
copy_bytes-ok (suc n) [] le = absurd (omega arith)
copy_bytes-ok (suc n) (c ∷ s) le =
    let (k, run, e) = copy_bytes-ok n s (omega arith) in (c ∷ k, rw run, ap (λ t. c ∷ t) e)

-- Of a name of at most seven bytes, the copied block holds the `NUL` too.
pub copy_bytes-Named :
    (name memory : List ℕ)
    → Named name memory
    → length name ≤ 7
    → 8 ≤ length memory
    → Returns (copy_bytes 8 memory) (Named name)
copy_bytes-Named name memory (nz, beyond, e) short le =
    let (k, run, ek) = copy_bytes-ok 8 memory le in
    let (more, em) = take_behind 8 name beyond (omega arith) in (k, run, (nz, more, ek ∙ rw e em))
