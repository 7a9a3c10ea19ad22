-- ===== src/HashTable/Keys.antt =====
-- `hash_keys`: the line of the names in the table.
use aoq.Prelude.{
  ℕ, zero, suc, ◌<◌, ◌∙◌, sym, ap, ◌≡◌, refl, ◌⊎◌, inl, inr, some, none, List, [], ◌∷◌, ◌++◌, arith,
  ◌==◌, false,
}
use aoq.Heap.{ok}
use aoq.CText.Strings.{c_string-text}
use aoq.HashTable.{Bucket, HashTable, keys_loop, end_line, hash_keys}
use aoq.HashTable.Text.{Named}

-- The names of the first buckets, as many as the number says, that have a key, in the order of the array.
abbrev pub Keyed : ℕ → List Bucket → List (List ℕ) → Type 0
Keyed zero bs names = names ≡ []
Keyed (suc n) [] names = ⊥
Keyed (suc n) (b ∷ bs) names =
    ((b.key ≡ none) × Keyed n bs names)
    ⊎ ((k : List ℕ) × (name : List ℕ) × (rest : List (List ℕ)) × (b.key ≡ some k)
        × Named name k
        × (names ≡ name ∷ rest)
        × Keyed n bs rest)

-- The names in one line: a blank between two, and a newline at the end.
abbrev pub line : List ℕ → List (List ℕ) → List ℕ
line name [] = name ++ b'\n' ∷ []
line name (next ∷ names) = name ++ b' ' ∷ line next names

-- The names as the loop writes them.
abbrev blanked : List (List ℕ) → List ℕ
blanked [] = []
blanked (name ∷ names) = name ++ b' ' ∷ blanked names

keys_loop-zero : (bs : List Bucket) → keys_loop 0 bs ≡ ok []
unfolding keys_loop
keys_loop-zero bs = refl

keys_loop-none :
    (n : ℕ) (b : Bucket) (bs : List Bucket)
    → b.key ≡ none
    → keys_loop (suc n) (b ∷ bs) ≡ keys_loop n bs
unfolding keys_loop
keys_loop-none n b bs e = ground arith

keys_loop-some :
    (n : ℕ) (b : Bucket) (bs : List Bucket) (k name rest : List ℕ)
    → b.key ≡ some k
    → Named name k
    → keys_loop n bs ≡ ok rest
    → keys_loop (suc n) (b ∷ bs) ≡ ok (name ++ b' ' ∷ rest)
unfolding keys_loop
keys_loop-some n b bs k name rest e (nz, beyond, shape) run =
    rw (run, e, shape, c_string-text name beyond nz) refl

keys_loop-blanked :
    (n : ℕ) (bs : List Bucket) (names : List (List ℕ))
    → Keyed n bs names
    → keys_loop n bs ≡ ok (blanked names)
keys_loop-blanked zero bs names e = rw e (keys_loop-zero bs)
keys_loop-blanked (suc n) [] names is = absurd is
keys_loop-blanked (suc n) (b ∷ bs) names (inl (free, is)) =
    keys_loop-none n b bs free ∙ keys_loop-blanked n bs names is
keys_loop-blanked (suc n) (b ∷ bs) names (inr (k, name, rest, e, named, first, is)) =
    rw first (keys_loop-some n b bs k name (blanked rest) e named (keys_loop-blanked n bs rest is))

end_line-append : (s : List ℕ) (c : ℕ) (t : List ℕ) → end_line (s ++ c ∷ t) ≡ s ++ end_line (c ∷ t)
unfolding end_line
end_line-append [] c t = refl
end_line-append (x ∷ []) c t = refl
end_line-append (x ∷ y ∷ s) c t = ap (λ r. x ∷ r) (end_line-append (y ∷ s) c t)

end_line-blanked :
    (name : List ℕ) (names : List (List ℕ))
    → end_line (name ++ b' ' ∷ blanked names) ≡ line name names
unfolding end_line
end_line-blanked name [] = end_line-append name b' ' []
end_line-blanked name (next ∷ names) =
    end_line-append name b' ' (blanked (next ∷ names))
    ∙ ap (λ r. name ++ r)
        (end_line-append (b' ' ∷ next) b' ' (blanked names)
          ∙ ap (λ r. b' ' ∷ r)
              (sym (end_line-append next b' ' (blanked names)) ∙ end_line-blanked next names))

-- In a table whose buckets have the keys of `name` and then of `names`, in the order of the array, and
-- whose total is not 0, `hash_keys` writes the names in this order in one line, a blank between two of
-- them and a newline behind the last, and takes no bucket without a key for a name.
pub hash_keys-line :
    (ht : HashTable) (name : List ℕ) (names : List (List ℕ))
    → 0 < ht.total
    → Keyed ht.size ht.buckets (name ∷ names)
    → hash_keys ht ≡ ok (line name names)
unfolding hash_keys
hash_keys-line ht name names lt is =
    let some_key : ht.total == 0 ≡ false = ground arith in
    rw (some_key, keys_loop-blanked ht.size ht.buckets (name ∷ names) is)
      (ap ok (end_line-blanked name names))
