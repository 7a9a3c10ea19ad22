-- ===== src/Lsp/Elimination.antt =====
-- The elimination of lsp.c stays inside its block.
use native.Mathlib.Nat.{mul-le-mul_right}
use aoq.Prelude.{ℕ, ◌+◌, ◌-◌, ◌*◌, ◌≤◌, ◌<◌, ◌≡◌, refl, true, arith, ltb, set, length}
use aoq.Heap.{Returns}
use aoq.Lsp.{
  Floats, Para, index, cell, assign, limits, paralimit_row, paralimit, crossed, pre_deal_a_round,
  para_deal_a, scaled, pre_deal_b_round, divide_round, para_deal_b, para_deal,
}
use aoq.Lsp.Loops.{then_Returns, either, up-Returns, down-Returns, length-set, entry-Returns}

module _ (F : Floats) (n : ℕ) where
  abbrev pub Fits : Para F n → Type 0
  Fits b = length b ≡ n * (n + 1)

  index-lt : (row col : ℕ) → row < n → col ≤ n → index F n row col < n * (n + 1)
  index-lt row col r c =
      let room : (row + 1) * (n + 1) ≤ n * (n + 1) = mul-le-mul_right (n + 1) (omega arith) in
      omega (arith, room)

  pub cell-Returns :
      (b : Para F n) (row col : ℕ)
      → Fits b
      → row < n
      → col ≤ n
      → Returns (cell F n b row col) (λ _. Unit {0})
  unfolding cell
  cell-Returns b row col fits r c =
      entry-Returns b (index F n row col) (omega (arith, index-lt row col r c))

  pub assign-Fits :
      (b : Para F n) (row col : ℕ) (v : F.Double)
      → Fits b
      → row < n
      → col ≤ n
      → Returns (assign F n row col v b) Fits
  unfolding assign
  assign-Fits b row col v fits r c =
      let lt = index-lt row col r c in
      let inside : ltb (index F n row col) (length b) ≡ true = ground arith in
      (
        set b (index F n row col) v,
        rw inside refl,
        omega (arith, length-set b (index F n row col) v),
      )

  paralimit_row-Fits :
      (row : ℕ) (b : Para F n) → row < n → Fits b → Returns (paralimit_row F n row b) Fits
  unfolding paralimit_row limits
  paralimit_row-Fits row b r fits = then_Returns (cell-Returns b row 0 fits r (omega arith)) λ v _.
      then_Returns
        (down-Returns (λ _. Unit {0}) n (limits F n row b)
          (λ i q lo hi _. then_Returns (cell-Returns b row i fits r hi) λ w _. (_, refl, tt)) _ tt)
        λ q _.
          down-Returns Fits (n + 1) _
            (λ i c lo hi fc.
              then_Returns (cell-Returns c row (i - 1) fc r (omega arith))
                λ w _. assign-Fits c row (i - 1) _ fc r (omega arith))
            b fits

  paralimit-Fits : (b : Para F n) → Fits b → Returns (paralimit F n b) Fits
  unfolding paralimit
  paralimit-Fits b fits =
      up-Returns Fits n 0 (paralimit_row F n)
        (λ i c lo hi fc. paralimit_row-Fits i c (omega arith) fc) b fits

  crossed-Fits :
      (s i j : ℕ) (b : Para F n)
      → s < n
      → i < n
      → j ≤ n
      → Fits b
      → Returns (crossed F n s i j b) Fits
  unfolding crossed
  crossed-Fits s i j b ls li lj fits = then_Returns (cell-Returns b i j fits li lj) λ x _.
      then_Returns (cell-Returns b s s fits ls (omega arith)) λ pivot _.
        then_Returns (cell-Returns b s j fits ls lj) λ y _.
          then_Returns (cell-Returns b i s fits li (omega arith))
            λ z _. assign-Fits b i j _ fits li lj

  pre_deal_a_round-Fits :
      (s i : ℕ) (b : Para F n) → s < n → i < s → Fits b → Returns (pre_deal_a_round F n s i b) Fits
  unfolding pre_deal_a_round
  pre_deal_a_round-Fits s i b ls li fits =
      then_Returns
        (up-Returns Fits s 0 (crossed F n s i)
          (λ j c lo hi fc. crossed-Fits s i j c ls (omega arith) (omega arith) fc) b fits)
        λ b₁ f₁. then_Returns (crossed-Fits s i n b₁ ls (omega arith) (omega arith) f₁) λ b₂ f₂.
          then_Returns (assign-Fits b₂ i s F.nought f₂ (omega arith) (omega arith))
            λ b₃ f₃. paralimit_row-Fits i b₃ (omega arith) f₃

  para_deal_a-Fits : (b : Para F n) → Fits b → Returns (para_deal_a F n b) Fits
  unfolding para_deal_a
  para_deal_a-Fits b fits =
      down-Returns Fits n _
        (λ size c lo hi fc.
          up-Returns Fits (size - 1) 0 (pre_deal_a_round F n (size - 1))
            (λ i d lo' hi' fd. pre_deal_a_round-Fits (size - 1) i d (omega arith) (omega arith) fd)
            c fc)
        b fits

  scaled-Fits :
      (offset i j : ℕ) (b : Para F n)
      → offset < n
      → i < n
      → j ≤ n
      → Fits b
      → Returns (scaled F n offset i j b) Fits
  unfolding scaled
  scaled-Fits offset i j b lo li lj fits = then_Returns (cell-Returns b i j fits li lj) λ x _.
      then_Returns (cell-Returns b offset offset fits lo (omega arith))
        λ pivot _. assign-Fits b i j _ fits li lj

  pre_deal_b_round-Fits :
      (offset i : ℕ) (b : Para F n)
      → offset < i
      → i < n
      → Fits b
      → Returns (pre_deal_b_round F n offset i b) Fits
  unfolding pre_deal_b_round
  pre_deal_b_round-Fits offset i b lo li fits =
      then_Returns
        (up-Returns Fits (i - offset) (offset + 1) (scaled F n offset i)
          (λ j c l h fc. scaled-Fits offset i j c (omega arith) li (omega arith) fc) b fits)
        λ b₁ f₁. then_Returns (cell-Returns b₁ i n f₁ li (omega arith)) λ x _.
          then_Returns (cell-Returns b₁ offset offset f₁ (omega arith) (omega arith)) λ pivot _.
            then_Returns (cell-Returns b₁ i offset f₁ li (omega arith)) λ y _.
              then_Returns (cell-Returns b₁ offset n f₁ (omega arith) (omega arith)) λ z _.
                then_Returns (assign-Fits b₁ i n _ f₁ li (omega arith)) λ b₂ f₂.
                  then_Returns (assign-Fits b₂ i offset F.nought f₂ li (omega arith))
                    λ b₃ f₃. paralimit_row-Fits i b₃ li f₃

  divide_round-Fits : (i : ℕ) (b : Para F n) → i < n → Fits b → Returns (divide_round F n i b) Fits
  unfolding divide_round
  divide_round-Fits i b li fits = then_Returns (cell-Returns b i i fits li (omega arith)) λ pivot _.
      either (F.is_nought pivot) (b, refl, fits)
        (then_Returns (cell-Returns b i n fits li (omega arith)) λ x _.
          then_Returns (assign-Fits b i n _ fits li (omega arith))
            λ b₁ f₁. assign-Fits b₁ i i F.unit f₁ li (omega arith))

  para_deal_b-Fits : (b : Para F n) → Fits b → Returns (para_deal_b F n b) Fits
  unfolding para_deal_b
  para_deal_b-Fits b fits =
      then_Returns
        (up-Returns Fits n 0 _
          (λ offset c lo hi fc.
            up-Returns Fits (n - (offset + 1)) (offset + 1) (pre_deal_b_round F n offset)
              (λ i d lo' hi' fd. pre_deal_b_round-Fits offset i d (omega arith) (omega arith) fd) c
              fc)
          b fits)
        λ b₁ f₁.
          up-Returns Fits n 0 (divide_round F n)
            (λ i c lo hi fc. divide_round-Fits i c (omega arith) fc) b₁ f₁

  pub para_deal-Fits : (b : Para F n) → Fits b → Returns (para_deal F n b) Fits
  unfolding para_deal
  para_deal-Fits b fits =
      then_Returns (paralimit-Fits b fits)
        λ b₁ f₁. then_Returns (para_deal_a-Fits b₁ f₁) λ b₂ f₂. para_deal_b-Fits b₂ f₂
