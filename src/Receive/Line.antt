-- ===== src/Receive/Line.antt =====
-- A line of bytes: no `NUL`, and a newline at its end alone.
use aoq.Prelude.{
  ℕ, zero, suc, ◌+◌, ◌≤◌, ◌<◌, ap, ◌≡◌, refl, ◌≢◌, some, List, [], ◌∷◌, ◌++◌, arith, length, take,
  drop, get_elem?, All,
}

abbrev pub IsLine : List ℕ → Type 0
IsLine [] = ⊥
IsLine (c ∷ []) = c ≡ b'\n'
IsLine (c ∷ d ∷ s) = (c ≢ 0) × (c ≢ b'\n') × IsLine (d ∷ s)

pub IsLine-last : (s : List ℕ) (n : ℕ) → IsLine s → n + 1 ≡ length s → get_elem? s n ≡ some b'\n'
IsLine-last [] n h e = absurd h
IsLine-last (c ∷ []) zero h e = ap some h
IsLine-last (c ∷ []) (suc n) h e = absurd (omega arith)
IsLine-last (c ∷ d ∷ s) zero (nz, nl, h) e = absurd (omega arith)
IsLine-last (c ∷ d ∷ s) (suc n) (nz, nl, h) e = IsLine-last (d ∷ s) n h (omega arith)

pub IsLine-inner :
    (s : List ℕ) (n : ℕ)
    → IsLine s
    → n + 1 < length s
    → (b : ℕ) × (get_elem? s n ≡ some b) × (b ≢ b'\n')
IsLine-inner [] n h lt = absurd h
IsLine-inner (c ∷ []) n h lt = absurd (omega arith)
IsLine-inner (c ∷ d ∷ s) zero (nz, nl, h) lt = (c, refl, nl)
IsLine-inner (c ∷ d ∷ s) (suc n) (nz, nl, h) lt = IsLine-inner (d ∷ s) n h (omega arith)

pub IsLine-drop : (s : List ℕ) (n : ℕ) → IsLine s → n < length s → IsLine (drop n s)
IsLine-drop [] n h lt = absurd h
IsLine-drop (c ∷ []) zero h lt = h
IsLine-drop (c ∷ []) (suc n) h lt = absurd (omega arith)
IsLine-drop (c ∷ d ∷ s) zero h lt = h
IsLine-drop (c ∷ d ∷ s) (suc n) (nz, nl, h) lt = IsLine-drop (d ∷ s) n h (omega arith)

pub IsLine-no_nul : (s : List ℕ) (n : ℕ) → IsLine s → All (λ c. c ≢ 0) (take n s)
IsLine-no_nul [] n h = absurd h
IsLine-no_nul (c ∷ s) zero h = tt
IsLine-no_nul (c ∷ []) (suc zero) h = (omega arith, tt)
IsLine-no_nul (c ∷ []) (suc (suc n)) h = (omega arith, tt)
IsLine-no_nul (c ∷ d ∷ s) (suc n) (nz, nl, h) = (nz, IsLine-no_nul (d ∷ s) n h)

pub get_elem?-take :
    (s z : List ℕ) (n i : ℕ) (b : ℕ)
    → get_elem? s i ≡ some b
    → i < n
    → get_elem? (take n s ++ z) i ≡ some b
get_elem?-take [] z n i b e lt = cc
get_elem?-take (c ∷ s) z zero i b e lt = absurd (omega arith)
get_elem?-take (c ∷ s) z (suc n) zero b e lt = e
get_elem?-take (c ∷ s) z (suc n) (suc i) b e lt = get_elem?-take s z n i b e (omega arith)

pub take-drop : (n : ℕ) (s : List ℕ) → take n s ++ drop n s ≡ s
take-drop zero s = refl
take-drop (suc n) [] = refl
take-drop (suc n) (c ∷ s) = ap (λ t. c ∷ t) (take-drop n s)

pub length-drop : (n : ℕ) (s : List ℕ) → n ≤ length s → length (drop n s) + n ≡ length s
length-drop zero s le = omega arith
length-drop (suc n) [] le = absurd (omega arith)
length-drop (suc n) (c ∷ s) le = omega (arith, length-drop n s (omega arith))
