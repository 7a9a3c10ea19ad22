-- ===== src/CText/Copy.antt =====
-- `memcpy` into a block behind whose text stand zeros.
use aoq.Prelude.{
  ℕ, zero, suc, ◌+◌, sym, ap, ◌≡◌, refl, ◌≢◌, false, List, [], ◌∷◌, ◌++◌, arith, length, take, drop,
  replicate, All, append_assoc, length-append, length-replicate, ltb,
}
use aoq.Heap.{ok}
use aoq.CText.{copy_to}

abbrev pub nuls : ℕ → List ℕ
nuls n = replicate n 0

pub take-append : (xs ys : List ℕ) → take (length xs) (xs ++ ys) ≡ xs
take-append [] ys = refl
take-append (x ∷ xs) ys = ap (λ s. x ∷ s) (take-append xs ys)

pub drop-append : (xs ys : List ℕ) (n : ℕ) → drop (length xs + n) (xs ++ ys) ≡ drop n ys
drop-append [] ys n = let e : 0 + n ≡ n = omega arith in rw e refl
drop-append (x ∷ xs) ys n =
    let e : suc (length xs) + n ≡ suc (length xs + n) = omega arith in rw e (drop-append xs ys n)

pub drop-nuls : (n k : ℕ) → drop n (nuls (n + k)) ≡ nuls k
drop-nuls zero k = let e : 0 + k ≡ k = omega arith in rw e refl
drop-nuls (suc n) k = let e : suc n + k ≡ suc (n + k) = omega arith in rw e (drop-nuls n k)

pub All-append :
    (xs ys : List ℕ) → All (λ c. c ≢ 0) xs → All (λ c. c ≢ 0) ys → All (λ c. c ≢ 0) (xs ++ ys)
All-append [] ys h k = k
All-append (x ∷ xs) ys (e, h) k = (e, All-append xs ys h k)

pub copy_to-zeros :
    (text s : List ℕ) (k : ℕ)
    → copy_to (text ++ nuls (length s + k)) (length text) s ≡ ok ((text ++ s) ++ nuls k)
unfolding copy_to
copy_to-zeros text s k =
    let fits : ltb (length (text ++ nuls (length s + k))) (length text + length s) ≡ false =
      ground (
        arith,
        length-append text (nuls (length s + k)),
        length-replicate {A = ℕ} (length s + k) 0,
      ) in
    rw
      (
        fits,
        take-append text (nuls (length s + k)),
        drop-append text (nuls (length s + k)) (length s),
        drop-nuls (length s) k,
      )
      (ap ok (sym (append_assoc text s (nuls k))))
