-- ===== src/Heap/Bump.antt =====
-- An allocator that takes the address above all that were ever written. It meets the laws of
-- `Malloc`, and runs the tests.
use Prim.Native.Nat.{max}
use aoq.Prelude.{◌+◌, ◌<◌, ◌≡◌, refl, ◌≢◌, none, [], ◌∷◌, arith}
use aoq.Heap.{Ptr, null, Heap, read, Malloc}

module _ {ℓ} {A : Type ℓ} where
  unfoldable pub top : Heap A → Ptr
  top [] = 0
  top ((p, _) ∷ h) = max p (top h)

  abbrev pub above : Heap A → Ptr
  above h = top h + 1

  read_above : (h : Heap A) (p : Ptr) → top h < p → read h p ≡ none
  unfolding read top
  read_above [] p lt = refl
  read_above ((q, c) ∷ h) p lt = ground (arith, read_above h p)

  pub above-ne-null : (h : Heap A) → above h ≢ null
  unfolding top
  above-ne-null h = omega arith

  pub read-above : (h : Heap A) → read h (above h) ≡ none
  unfolding top
  read-above h = read_above h (above h) (omega arith)

abbrev pub bump {ℓ} : {A : Type ℓ} → Malloc A
bump = record { fresh = above; fresh_ne_null = above-ne-null; fresh_unused = read-above }
