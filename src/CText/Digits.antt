-- ===== src/CText/Digits.antt =====
-- `%06d` and `%02d` of numbers that fit, and `atoi` on them.
use aoq.Prelude.{ℕ, ◌+◌, ◌*◌, ◌/◌, ◌%◌, ◌<◌, ◌∙◌, ap, ◌≡◌, false, List, [], ◌∷◌, ◌++◌, arith, All}
use aoq.Prelude.Int.{pos}
use aoq.Heap.{ok, ◌>>=◌}
use aoq.CText.{is_digit, scan_digits, atoi}

abbrev pub digit : ℕ → ℕ
digit n = b'0' + n % 10

-- `sprintf(s, "%06d", n)` for `n` below a million.
abbrev pub six_digits : ℕ → List ℕ
six_digits n =
    digit (n / 100000)
    ∷ digit (n / 10000)
    ∷ digit (n / 1000)
    ∷ digit (n / 100)
    ∷ digit (n / 10)
    ∷ digit n
    ∷ []

scan_digits-digit :
    (acc d : ℕ) (s : List ℕ)
    → d < 10
    → scan_digits acc ((b'0' + d) ∷ s) ≡ scan_digits (acc * 10 + d) s
unfolding scan_digits
scan_digits-digit acc d s h = ground arith

scan_digits-stop : (acc c : ℕ) (s : List ℕ) → is_digit c ≡ false → scan_digits acc (c ∷ s) ≡ ok acc
unfolding scan_digits
scan_digits-stop acc c s h = rw h

atoi-digit :
    (d : ℕ) (s : List ℕ)
    → d < 10
    → atoi ((b'0' + d) ∷ s) ≡ (scan_digits 0 ((b'0' + d) ∷ s) >>= λ n. ok (pos n))
unfolding atoi
atoi-digit d s h = ground arith

-- The bytes behind a number, where they exist, stop it.
abbrev pub Stops : List ℕ → Type 0
Stops [] = ⊥
Stops (c ∷ s) = is_digit c ≡ false

scan_digits-Stops : (acc : ℕ) (s : List ℕ) → Stops s → scan_digits acc s ≡ ok acc
scan_digits-Stops acc [] h = absurd h
scan_digits-Stops acc (c ∷ s) h = scan_digits-stop acc c s h

-- The value of a run of decimal digits.
abbrev pub from_digits : ℕ → List ℕ → ℕ
from_digits acc [] = acc
from_digits acc (d ∷ ds) = from_digits (acc * 10 + d) ds

abbrev pub shown : List ℕ → List ℕ
shown [] = []
shown (d ∷ ds) = (b'0' + d) ∷ shown ds

scan_digits-shown :
    (acc : ℕ) (ds s : List ℕ)
    → All (λ d. d < 10) ds
    → Stops s
    → scan_digits acc (shown ds ++ s) ≡ ok (from_digits acc ds)
scan_digits-shown acc [] s h stop = scan_digits-Stops acc s stop
scan_digits-shown acc (d ∷ ds) s (lt, h) stop =
    scan_digits-digit acc d (shown ds ++ s) lt ∙ scan_digits-shown (acc * 10 + d) ds s h stop

-- `atoi` reads the decimal digits at the front of a text, whatever stops them.
pub atoi-shown :
    (d : ℕ) (ds s : List ℕ)
    → d < 10
    → All (λ d. d < 10) ds
    → Stops s
    → atoi (shown (d ∷ ds) ++ s) ≡ ok (pos (from_digits 0 (d ∷ ds)))
atoi-shown d ds s lt h stop =
    atoi-digit d (shown ds ++ s) lt
    ∙ ap (λ r. r >>= λ n. ok (pos n)) (scan_digits-shown 0 (d ∷ ds) s (lt, h) stop)

-- `atoi` gives back what `%06d` wrote.
pub atoi-six_digits :
    (n : ℕ) (s : List ℕ) → n < 1000000 → Stops s → atoi (six_digits n ++ s) ≡ ok (pos n)
atoi-six_digits n s h stop =
    atoi-shown (n / 100000 % 10)
      (n / 10000 % 10 ∷ n / 1000 % 10 ∷ n / 100 % 10 ∷ n / 10 % 10 ∷ n % 10 ∷ []) s (omega arith)
      (omega arith) stop
    ∙ ap (λ k. ok (pos k)) (omega arith)

-- `%02d`
abbrev pub two_digits : ℕ → List ℕ
two_digits n = digit (n / 10) ∷ digit n ∷ []

pub atoi-two_digits :
    (n : ℕ) (s : List ℕ) → n < 100 → Stops s → atoi (two_digits n ++ s) ≡ ok (pos n)
atoi-two_digits n s h stop =
    atoi-shown (n / 10 % 10) (n % 10 ∷ []) s (omega arith) (omega arith) stop
    ∙ ap (λ k. ok (pos k)) (omega arith)
