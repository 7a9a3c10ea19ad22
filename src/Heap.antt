-- ===== src/Heap.antt =====
-- Typed heaps: what C reaches through pointers of one type. A heap is the journal of its writes, the
-- latest first, so it is a finite value that a run can print.
pub mod Chain
pub mod Bump
use aoq.Prelude.{
  ℕ, ◌≡◌, refl, ◌≢◌, ◌⊎◌, inl, inr, Option, none, some, List, [], ◌∷◌, ◌==◌, if◌then◌else◌, arith,
}

abbrev pub Ptr : Type 0
Ptr = ℕ

abbrev pub null : Ptr
null = 0

-- `fault` is undefined behaviour: a read or write through `NULL` or through an address that holds
-- no object, or a read outside an object. `stuck` is no C behaviour: a loop's fuel ran out.
pub data Run {ℓ} (A : Type ℓ) : Type ℓ where
  ok : A → Run A
  fault : Run A
  stuck : Run A

infixl 5 ◌>>=◌
abbrev pub ◌>>=◌ {ℓ κ} : {B : Type κ} {A : Type ℓ} → Run A → (A → Run B) → Run B
stuck >>= next = stuck
fault >>= next = fault
ok value >>= next = next value

-- Inversion of a run that ended normally.
pub bind-eq-ok {ℓ κ} :
    {A : Type ℓ} {B : Type κ} (r : Run A) (f : A → Run B) {b : B}
    → r >>= f ≡ ok b
    → (a : A) × (r ≡ ok a) × (f a ≡ ok b)
bind-eq-ok (ok a) f e = (a, refl, e)
bind-eq-ok fault f e = cc
bind-eq-ok stuck f e = cc

pub Run-cases {ℓ} : {A : Type ℓ} (r : Run A) → ((a : A) × (r ≡ ok a)) ⊎ ((r ≡ fault) ⊎ (r ≡ stuck))
Run-cases (ok a) = inl (a, refl)
Run-cases fault = inr (inl refl)
Run-cases stuck = inr (inr refl)

-- The run ends normally, in a value that satisfies `P`.
abbrev pub Returns {ℓ κ} : {A : Type ℓ} → Run A → (A → Type κ) → Type (ℓ ⊔ κ)
Returns {A} run P = (value : A) × (run ≡ ok value) × P value

module _ {ℓ} where
  abbrev pub Heap : Type ℓ → Type ℓ
  Heap A = List (Ptr × Option A)

  -- What the address holds; `none` for one that is not allocated.
  unfoldable pub read : {A : Type ℓ} → Heap A → Ptr → Option A
  read [] p = none
  read ((q, c) ∷ h) p = if p == q then c else read h p

  abbrev pub write : {A : Type ℓ} → Heap A → Ptr → Option A → Heap A
  write h p c = (p, c) ∷ h

  abbrev pub of_option : {A : Type ℓ} → Option A → Run A
  of_option none = fault
  of_option (some a) = ok a

  -- `*p`
  unfoldable pub load : {A : Type ℓ} → Heap A → Ptr → Run A
  load h p = if p == null then fault else of_option (read h p)

  -- `*p = a`
  unfoldable pub store : {A : Type ℓ} → Heap A → Ptr → A → Run (Heap A)
  unfolding load
  store h p a = do _ ← load h p; ok (write h p (some a))

  -- `free(p)`, at a pointer that is not `NULL`.
  unfoldable pub free : {A : Type ℓ} → Heap A → Ptr → Run (Heap A)
  unfolding load
  free h p = do _ ← load h p; ok (write h p none)

pub load-ok {ℓ} :
    {A : Type ℓ} (h : Heap A) (p : Ptr) {a : A} → p ≢ null → read h p ≡ some a → load h p ≡ ok a
unfolding load
load-ok h p ne e = ground (arith, e)

pub free-ok {ℓ} :
    {A : Type ℓ} (h : Heap A) (p : Ptr) {a : A}
    → p ≢ null
    → read h p ≡ some a
    → free h p ≡ ok (write h p none)
unfolding free
free-ok h p ne e = rw (load-ok h p ne e)

-- `malloc`, as the source uses it: memory does not run out, and the address is not in use.
pub record Malloc {ℓ} (A : Type ℓ) : Type ℓ where
  pub fresh : Heap A → Ptr
  pub fresh_ne_null : (h : Heap A) → fresh h ≢ null
  pub fresh_unused : (h : Heap A) → read h (fresh h) ≡ none
