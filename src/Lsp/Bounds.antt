-- ===== src/Lsp/Bounds.antt =====
-- Every access of lsp.c is inside the block of `n` rows and `n + 1` columns, or inside its two arrays.
use aoq.Prelude.{
  ℕ, zero, suc, ◌+◌, ◌-◌, ◌*◌, ◌≤◌, ◌<◌, ◌≡◌, refl, false, some, List, [], ◌∷◌, arith, map, ltb,
  length, length-replicate, replicate,
}
use aoq.Heap.{Run, Returns}
use aoq.Lsp.{
  Floats, Para, sum_into, power, get_para_buffer, last_column, cal, get_xy, value_at, forecast_y,
}
use aoq.Lsp.Loops.{then_Returns, up-Returns, entry-Returns}
use aoq.Lsp.Elimination.{Fits, cell-Returns, assign-Fits, para_deal-Fits}

module _ (F : Floats) (n : ℕ) where
  -- A sum over readings whose terms are all there.
  sum_into-Fits :
      (amount : ℕ) (term : ℕ → Run F.Double) (row col : ℕ) (b : Para F n)
      → ((j : ℕ) → j < amount → Returns (term j) (λ _. Unit {0}))
      → row < n
      → col ≤ n
      → Fits F n b
      → Returns (sum_into F n amount term row col b) (Fits F n)
  unfolding sum_into
  sum_into-Fits amount term row col b h r c fits =
      then_Returns (assign-Fits F n b row col F.nought fits r c) λ b₁ f₁.
        up-Returns (Fits F n) amount 0 _
          (λ j d lo hi fd.
            then_Returns (cell-Returns F n d row col fd r c)
              λ x _. then_Returns (h j (omega arith)) λ t _. assign-Fits F n d row col _ fd r c)
          b₁ f₁

  power-Returns :
      (xs : List F.Double) (e j : ℕ) → j < length xs → Returns (power F n xs e j) (λ _. Unit {0})
  power-Returns xs e j lt = then_Returns (entry-Returns xs j lt) λ x _. (_, refl, tt)

  get_para_buffer-Fits :
      (xs ys : List F.Double) (amount : ℕ) (b : Para F n)
      → length xs ≡ amount
      → length ys ≡ amount
      → Fits F n b
      → Returns (get_para_buffer F n xs ys amount b) (Fits F n)
  unfolding get_para_buffer
  get_para_buffer-Fits xs ys amount b ex ey fits =
      then_Returns
        (up-Returns (Fits F n) n 0 _
          (λ i c lo hi fc.
            sum_into-Fits amount _ 0 i c (λ j lt. power-Returns xs _ j (omega arith)) (omega arith)
              (omega arith) fc)
          b fits)
        λ b₁ f₁.
          then_Returns
            (up-Returns (Fits F n) (n - 1) 1 _
              (λ i c lo hi fc.
                sum_into-Fits amount _ i (n - 1) c (λ j lt. power-Returns xs _ j (omega arith))
                  (omega arith) (omega arith) fc)
              b₁ f₁)
            λ b₂ f₂.
              then_Returns
                (up-Returns (Fits F n) n 0 _
                  (λ i c lo hi fc.
                    sum_into-Fits amount _ i n c
                      (λ j lt. then_Returns (entry-Returns ys j (omega arith)) λ y _.
                        then_Returns (power-Returns xs _ j (omega arith)) λ p _. (_, refl, tt))
                      (omega arith) (omega arith) fc)
                  b₂ f₂)
                λ b₃ f₃.
                  up-Returns (Fits F n) (n - 1) 1 _
                    (λ i c lo hi fc.
                      up-Returns (Fits F n) (n - 1) 0 _
                        (λ j d lo' hi' fd.
                          then_Returns
                            (cell-Returns F n d (i - 1) (j + 1) fd (omega arith) (omega arith))
                            λ v _. assign-Fits F n d i j v fd (omega arith) (omega arith))
                        c fc)
                    b₃ f₃

  last_column-Returns :
      (k i : ℕ) (b : Para F n)
      → i + k ≤ n
      → Fits F n b
      → Returns (last_column F n k i b) (λ vs. length vs ≡ k)
  unfolding last_column
  last_column-Returns zero i b le fits = ([], refl, refl)
  last_column-Returns (suc k) i b le fits =
      then_Returns (cell-Returns F n b i n fits (omega arith) (omega arith)) λ v _.
        then_Returns (last_column-Returns k (i + 1) b (omega arith) fits)
          λ vs e. (_, refl, omega (arith, e))

  cal-Returns :
      (garbage : F.Double) (xs ys : List F.Double) (amount : ℕ)
      → length xs ≡ amount
      → length ys ≡ amount
      → Returns (cal F n garbage xs ys amount) (λ ks. length ks ≡ n)
  unfolding cal
  cal-Returns garbage xs ys amount ex ey =
      then_Returns
        (get_para_buffer-Fits xs ys amount (replicate (n * (n + 1)) garbage) ex ey
          (length-replicate (n * (n + 1)) garbage))
        λ b₁ f₁.
          then_Returns (para_deal-Fits F n b₁ f₁)
            λ b₂ f₂. last_column-Returns n 0 b₂ (omega arith) f₂

pub length-map : {A B : Type 0} (f : A → B) (xs : List A) → length (map f xs) ≡ length xs
length-map f [] = refl
length-map f (x ∷ xs) = omega (arith, length-map f xs)

-- Whatever the arithmetic of `double` gives, on a file of at most twenty pairs of numbers `ForecastY`
-- returns: no loop of the elimination reads or writes outside its block or the two arrays.
pub forecast_y-Returns :
    (F : Floats) (garbage x : F.Double) (pairs : List (F.Double × F.Double))
    → length pairs ≤ 20
    → Returns
        (forecast_y F garbage (some pairs) x)
        (λ y. (ks : List F.Double) × (length ks ≡ 8) × (y ≡ value_at F x ks 0 F.nought))
unfolding forecast_y get_xy
forecast_y-Returns F garbage x pairs le =
    let few : ltb 20 (length pairs) ≡ false = ground arith in
    let (ks, run, eight) =
      cal-Returns F 8 garbage (map (λ p. p.0) pairs) (map (λ p. p.1) pairs) (length pairs)
        (length-map (λ p. p.0) pairs) (length-map (λ p. p.1) pairs) in
    (value_at F x ks 0 F.nought, rw (few, run) refl, (ks, eight, refl))
