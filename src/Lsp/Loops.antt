-- ===== src/Lsp/Loops.antt =====
-- The loops of lsp.c keep what each of their rounds keeps.
use aoq.Prelude.{
  ℕ, zero, suc, ◌+◌, ◌≤◌, ◌<◌, ◌≡◌, refl, true, false, Bool, some, List, [], ◌∷◌, arith,
  if◌then◌else◌, get_elem?, set, length,
}
use aoq.Heap.{Run, Returns, ◌>>=◌, of_option}
use aoq.Lsp.{up, down}

pub then_Returns :
    {A B : Type 0} {P : A → Type 0} {Q : B → Type 0} {r : Run A} {f : A → Run B}
    → Returns r P
    → ((a : A) → P a → Returns (f a) Q)
    → Returns (r >>= f) Q
then_Returns (a, e, p) g = let (b, run, q) = g a p in (b, rw e run, q)

pub either :
    {B : Type 0} {P : B → Type 0} (c : Bool) {x y : Run B}
    → Returns x P
    → Returns y P
    → Returns (if c then x else y) P
either true p q = p
either false p q = q

-- Each round of a loop keeps `P`.
pub up-Returns :
    {B : Type 0} (P : B → Type 0) (k i₀ : ℕ) (f : ℕ → B → Run B)
    → ((i : ℕ) (b : B) → i₀ ≤ i → i < i₀ + k → P b → Returns (f i b) P)
    → (b : B) → P b
    → Returns (up k i₀ f b) P
unfolding up
up-Returns P zero i₀ f h b p = (b, refl, p)
up-Returns P (suc k) i₀ f h b p =
    then_Returns (h i₀ b (omega arith) (omega arith) p)
      (λ c q. up-Returns P k (i₀ + 1) f (λ i d lo hi. h i d (omega arith) (omega arith)) c q)

pub down-Returns :
    {B : Type 0} (P : B → Type 0) (k : ℕ) (f : ℕ → B → Run B)
    → ((i : ℕ) (b : B) → 0 < i → i ≤ k → P b → Returns (f i b) P)
    → (b : B) → P b
    → Returns (down k f b) P
unfolding down
down-Returns P zero f h b p = (b, refl, p)
down-Returns P (suc k) f h b p =
    then_Returns (h (suc k) b (omega arith) (omega arith) p)
      (λ c q. down-Returns P k f (λ i d lo hi. h i d lo (omega arith)) c q)

pub get_elem?-lt :
    {A : Type 0} (xs : List A) (i : ℕ) → i < length xs → (x : A) × (get_elem? xs i ≡ some x)
get_elem?-lt [] i lt = absurd (omega arith)
get_elem?-lt (x ∷ xs) zero lt = (x, refl)
get_elem?-lt (x ∷ xs) (suc i) lt = get_elem?-lt xs i (omega arith)

pub length-set : {A : Type 0} (xs : List A) (i : ℕ) (x : A) → length (set xs i x) ≡ length xs
length-set [] i x = refl
length-set (y ∷ xs) zero x = refl
length-set (y ∷ xs) (suc i) x = omega (arith, length-set xs i x)

pub entry-Returns :
    {A : Type 0} (xs : List A) (i : ℕ)
    → i < length xs
    → Returns (of_option (get_elem? xs i)) (λ _. Unit {0})
entry-Returns xs i lt = let (x, e) = get_elem?-lt xs i lt in (x, rw e refl, tt)
