-- ===== src/Daemon/Pid.antt =====
-- The number in the pid file.
use aoq.Prelude.{
  ℕ, zero, suc, ◌+◌, ◌*◌, ◌/◌, ◌%◌, ◌^◌, ◌<◌, ◌∙◌, sym, ap, ◌≡◌, refl, inl, inr, true, Bool-cases,
  Option, some, List, [], ◌∷◌, ◌++◌, arith, All, ◌==◌, append_assoc,
}
use native.Mathlib.Nat.{pow-suc}
use aoq.Prelude.Int.{pos}
use aoq.Heap.{ok}
use aoq.CText.{atoi}
use aoq.CText.Digits.{shown, from_digits, atoi-shown}
use aoq.HashTable.{decimal}
use aoq.Command.Report.{percent_d}
use aoq.Daemon.{whole, mkpidfile}

from_digits-append :
    (acc : ℕ) (ds : List ℕ) (d : ℕ) → from_digits acc (ds ++ (d ∷ [])) ≡ from_digits acc ds * 10 + d
from_digits-append acc [] d = refl
from_digits-append acc (x ∷ ds) d = from_digits-append (acc * 10 + x) ds d

shown-append : (ds s : List ℕ) (d : ℕ) → shown (ds ++ (d ∷ [])) ++ s ≡ shown ds ++ (b'0' + d) ∷ s
shown-append [] s d = refl
shown-append (x ∷ ds) s d = ap (λ t. (b'0' + x) ∷ t) (shown-append ds s d)

All-snoc :
    (ds : List ℕ) (d : ℕ) → All (λ x. x < 10) ds → d < 10 → All (λ x. x < 10) (ds ++ (d ∷ []))
All-snoc [] d h lt = (lt, tt)
All-snoc (x ∷ ds) d (h, hs) lt = (h, All-snoc ds d hs lt)

-- `%d` writes the digits of the number.
decimal-shown :
    (fuel n : ℕ) (s : List ℕ)
    → n < 10 ^ suc fuel
    → (d : ℕ) × (ds : List ℕ) × (decimal (suc fuel) n s ≡ shown (d ∷ ds) ++ s)
      × (d < 10)
      × All (λ x. x < 10) ds
      × (from_digits 0 (d ∷ ds) ≡ n)
unfolding decimal
decimal-shown zero n s lt =
    let small : n < 10 = omega (arith, lt) in
    let none_left : n / 10 == 0 ≡ true = ground arith in
    (n % 10, [], rw none_left refl, omega arith, tt, omega arith)
decimal-shown (suc fuel) n s lt = elim (Bool-cases (n / 10 == 0)) [
  | inl none_left ↦
      let small : n / 10 ≡ 0 = ground arith in
      (n % 10, [], rw none_left refl, omega arith, tt, omega arith)
  | inr some_left ↦
      let (d, ds, e, dlt, h, v) =
        decimal-shown fuel (n / 10) ((b'0' + n % 10) ∷ s)
          (omega (arith, lt, pow-suc 10 (suc fuel))) in
      (
        d,
        ds ++ (n % 10 ∷ []),
        rw some_left (e ∙ ap (λ t. (b'0' + d) ∷ t) (sym (shown-append ds s (n % 10)))),
        dlt,
        All-snoc ds (n % 10) h (omega arith),
        from_digits-append 0 (d ∷ ds) (n % 10) ∙ omega (arith, v),
      )
]

-- The pid file that `mkpidfile` made says the process' number, as `atoi` reads it, when that is one of an
-- `int` and not negative.
pub mkpidfile-atoi :
    (n : ℕ) (file : Option (List ℕ)) (beyond : List ℕ)
    → n < 2 ^ 31
    → (text : List ℕ) × (mkpidfile (pos n) whole file ≡ (pos 1, some text))
      × (atoi (text ++ beyond) ≡ ok (pos n))
unfolding mkpidfile
mkpidfile-atoi n file beyond lt =
    let (d, ds, e, dlt, h, v) = decimal-shown 19 n [] omega (arith, lt) in
    (
      percent_d (pos n) ++ b'\n' ∷ [],
      refl,
      rw (e, append_assoc, append_assoc)
          (atoi-shown d ds (b'\n' ∷ beyond) dlt h refl ∙ ap (λ k. ok (pos k)) v),
    )
