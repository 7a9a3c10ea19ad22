-- ===== src/Lsp/Saved.antt =====
-- `ForecastY` on the file that `saveParamtersData` has just written.
use aoq.Prelude.{
  ℕ, zero, suc, ◌+◌, ◌≡◌, refl, some, List, [], ◌∷◌, arith, drop, length, map, replicate,
}
use aoq.Prelude.Int.{ℤ}
use aoq.Heap.{Returns}
use aoq.Events.{DataFile, read_params, write_params, save_paramters_data}
use aoq.Lsp.{Floats, value_at, forecast_y}
use aoq.Lsp.Bounds.{length-map, forecast_y-Returns}

length-read_params :
    (n : ℕ) (file : DataFile) (ys : List ℤ) → length (read_params n file ys) ≡ length ys
unfolding read_params
length-read_params zero file ys = refl
length-read_params (suc n) [] ys = refl
length-read_params (suc n) (p ∷ file) [] = refl
length-read_params (suc n) ((x, y) ∷ file) (z ∷ ys) = omega (arith, length-read_params n file ys)

length-write_params : (i : ℕ) (ys : List ℤ) → length (write_params i ys) ≡ length ys
unfolding write_params
length-write_params i [] = refl
length-write_params i (y ∷ ys) = omega (arith, length-write_params (i + 1) ys)

length-tail : (xs : List ℤ) (n : ℕ) → length xs ≡ suc n → length (drop 1 xs) ≡ n
length-tail [] n e = absurd (omega arith)
length-tail (x ∷ xs) n e = omega (arith, e)

-- The numbers of the file as `%lf` reads them.
abbrev pub as_doubles : (F : Floats) → (ℤ → F.Double) → DataFile → List (F.Double × F.Double)
as_doubles F of_int file = map (λ p. (of_int p.0, of_int p.1)) file

-- Whatever the data file holds, and whatever the arithmetic of `double` gives, on the file that
-- `saveParamtersData` then leaves `ForecastY` returns: no loop of the elimination reads or writes outside
-- its block or the two arrays, and the result is the value of a polynomial with eight coefficients.
pub forecast_y-saved :
    (F : Floats) (of_int : ℤ → F.Double) (garbage x : F.Double) (used : ℤ) (file : DataFile)
    → (saved : DataFile) × (save_paramters_data used (some file) ≡ some saved)
      × Returns
          (forecast_y F garbage (some (as_doubles F of_int saved)) x)
          (λ y. (ks : List F.Double) × (length ks ≡ 8) × (y ≡ value_at F x ks 0 F.nought))
unfolding save_paramters_data
forecast_y-saved F of_int garbage x used file =
    let ys = read_params 20 file (replicate 21 used) in
    let twenty = length-tail ys 20 (length-read_params 20 file (replicate 21 used)) in
    let saved = write_params 1 (drop 1 ys) in
    (
      saved,
      refl,
      forecast_y-Returns F garbage x (as_doubles F of_int saved) (
          omega (
            arith,
            length-map {B = F.Double × F.Double} (λ p. (of_int p.0, of_int p.1)) saved,
            length-write_params 1 (drop 1 ys),
            twenty,
          )),
    )
