-- ===== src/CText/Strings.antt =====
-- Texts that end in a `NUL`.
use aoq.Prelude.{ℕ, ◌≡◌, refl, ◌≢◌, false, List, [], ◌∷◌, ◌++◌, arith, ◌==◌, All}
use aoq.Heap.{ok}
use aoq.CText.{c_string}

pub c_string-text :
    (name beyond : List ℕ) → All (λ c. c ≢ 0) name → c_string (name ++ 0 ∷ beyond) ≡ ok name
unfolding c_string
c_string-text [] beyond nz = refl
c_string-text (c ∷ name) beyond (ne, nz) =
    let e : c == 0 ≡ false = ground arith in rw (e, c_string-text name beyond nz)
