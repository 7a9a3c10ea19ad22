-- ===== src/Lsp.antt =====
-- lsp.c: the curve through the last readings, from which `ForecastY` takes the next one. The arithmetic of
-- `double` is a parameter, and so is what `abs`, a function on `int`, makes of one.
pub mod Loops
pub mod Elimination
pub mod Bounds
pub mod Saved
mod Tests
use aoq.Prelude.{
  ℕ, zero, suc, ◌+◌, ◌-◌, ◌*◌, Bool, Option, none, some, List, [], ◌∷◌, map, ltb, if◌then◌else◌,
  get_elem?, set, length, replicate,
}
use aoq.Heap.{Run, ok, fault, ◌>>=◌, of_option}

pub record Floats : Type 1 where
  pub Double : Type 0
  pub nought : Double
  pub unit : Double
  pub small : Double
  pub add : Double → Double → Double
  pub sub : Double → Double → Double
  pub mul : Double → Double → Double
  pub div : Double → Double → Double
  pub less : Double → Double → Bool
  pub is_nought : Double → Bool
  pub abs : Double → Double
  pub pow : Double → ℕ → Double

-- `for (i = i₀; i < i₀ + k; i++)` and `for (i = k; i; i--)`.
unfoldable pub up : {B : Type 0} → ℕ → ℕ → (ℕ → B → Run B) → B → Run B
up zero i f b = ok b
up (suc k) i f b = f i b >>= up k (i + 1) f

unfoldable pub down : {B : Type 0} → ℕ → (ℕ → B → Run B) → B → Run B
down zero f b = ok b
down (suc k) f b = f (suc k) b >>= down k f

-- `n` is `SizeSrc`, and the list the block `Para`.
module _ (F : Floats) (n : ℕ) where
  abbrev pub Para : Type 0
  Para = List F.Double

  abbrev pub index : ℕ → ℕ → ℕ
  index row col = row * (n + 1) + col

  -- `ParaBuffer(Para, row, col)`, read and stored to.
  unfoldable pub cell : Para → ℕ → ℕ → Run F.Double
  cell b row col = of_option (get_elem? b (index row col))

  unfoldable pub assign : ℕ → ℕ → F.Double → Para → Run Para
  assign row col v b =
      if ltb (index row col) (length b) then ok (set b (index row col) v) else fault

  -- The loop that looks for `Max` and `Min`.
  unfoldable pub limits : ℕ → Para → ℕ → F.Double × F.Double → Run (F.Double × F.Double)
  unfolding cell
  limits row b i (most, least) = do
    v ← cell b row i
    let temp : F.Double = F.abs v
    ok (if F.less most temp then temp else most, if F.less temp least then temp else least)

  unfoldable pub paralimit_row : ℕ → Para → Run Para
  unfolding up down limits assign
  paralimit_row row b = do
    v ← cell b row 0
    (most, least) ← down n (limits row b) (F.abs v, F.abs v)
    let scale : F.Double = F.mul (F.add most least) F.small
    down (n + 1) (λ i c. cell c row (i - 1) >>= λ w. assign row (i - 1) (F.div w scale) c) b

  unfoldable pub paralimit : Para → Run Para
  unfolding paralimit_row
  paralimit b = up n 0 paralimit_row b

  -- `Para[i][j] * Para[s][s] - Para[s][j] * Para[i][s]`
  unfoldable pub crossed : ℕ → ℕ → ℕ → Para → Run Para
  crossed s i j b = do
    x ← cell b i j
    pivot ← cell b s s
    y ← cell b s j
    z ← cell b i s
    assign i j (F.sub (F.mul x pivot) (F.mul y z)) b

  -- A round of `ParaPreDealA`, where `s` is `Size - 1`.
  unfoldable pub pre_deal_a_round : ℕ → ℕ → Para → Run Para
  unfolding crossed paralimit_row
  pre_deal_a_round s i b = do
    b₁ ← up s 0 (crossed s i) b
    b₂ ← crossed s i n b₁
    b₃ ← assign i s F.nought b₂
    paralimit_row i b₃

  unfoldable pub para_deal_a : Para → Run Para
  unfolding pre_deal_a_round
  para_deal_a b = down n (λ size. up (size - 1) 0 (pre_deal_a_round (size - 1))) b

  unfoldable pub scaled : ℕ → ℕ → ℕ → Para → Run Para
  scaled offset i j b = do
    x ← cell b i j
    pivot ← cell b offset offset
    assign i j (F.mul x pivot) b

  -- A round of `ParaPreDealB`.
  unfoldable pub pre_deal_b_round : ℕ → ℕ → Para → Run Para
  unfolding scaled paralimit_row
  pre_deal_b_round offset i b = do
    b₁ ← up (i - offset) (offset + 1) (scaled offset i) b
    x ← cell b₁ i n
    pivot ← cell b₁ offset offset
    y ← cell b₁ i offset
    z ← cell b₁ offset n
    b₂ ← assign i n (F.sub (F.mul x pivot) (F.mul y z)) b₁
    b₃ ← assign i offset F.nought b₂
    paralimit_row i b₃

  -- A round of the second loop of `ParaDealB`.
  unfoldable pub divide_round : ℕ → Para → Run Para
  divide_round i b = do
    pivot ← cell b i i
    let divided : Run Para = (do
      x ← cell b i n
      b₁ ← assign i n (F.div x pivot) b
      assign i i F.unit b₁)
    if F.is_nought pivot then ok b else divided

  unfoldable pub para_deal_b : Para → Run Para
  unfolding pre_deal_b_round divide_round
  para_deal_b b = do
    b₁ ← up n 0 (λ offset. up (n - (offset + 1)) (offset + 1) (pre_deal_b_round offset)) b
    up n 0 divide_round b₁

  unfoldable pub para_deal : Para → Run Para
  unfolding paralimit para_deal_a para_deal_b
  para_deal b = do b₁ ← paralimit b; b₂ ← para_deal_a b₁; para_deal_b b₂

  -- `Para[row][col] = 0`, and then the sum over the `amount` readings.
  unfoldable pub sum_into : ℕ → (ℕ → Run F.Double) → ℕ → ℕ → Para → Run Para
  unfolding assign
  sum_into amount term row col b = do
    b₁ ← assign row col F.nought b
    up amount 0 (λ j c. do x ← cell c row col; t ← term j; assign row col (F.add x t) c) b₁

  abbrev pub power : List F.Double → ℕ → ℕ → Run F.Double
  power xs e j = of_option (get_elem? xs j) >>= λ x. ok (F.pow x e)

  unfoldable pub get_para_buffer : List F.Double → List F.Double → ℕ → Para → Run Para
  unfolding sum_into
  get_para_buffer xs ys amount b = do
    b₁ ← up n 0 (λ i. sum_into amount (power xs (2 * (n - 1) - i)) 0 i) b
    b₂ ← up (n - 1) 1 (λ i. sum_into amount (power xs (n - 1 - i)) i (n - 1)) b₁
    b₃ ←
        up n 0
          (λ i.
            sum_into amount
              (λ j. do y ← of_option (get_elem? ys j); p ← power xs (n - 1 - i) j; ok (F.mul y p)) i
              n)
          b₂
    up (n - 1) 1 (λ i. up (n - 1) 0 (λ j c. cell c (i - 1) (j + 1) >>= λ v. assign i j v c)) b₃

  -- The last loop of `Cal`, which copies the last column.
  unfoldable pub last_column : ℕ → ℕ → Para → Run (List F.Double)
  last_column zero i b = ok []
  last_column (suc k) i b = do v ← cell b i n; vs ← last_column k (i + 1) b; ok (v ∷ vs)

  -- `Cal`, with what `malloc` leaves in the block.
  unfoldable pub cal : F.Double → List F.Double → List F.Double → ℕ → Run (List F.Double)
  unfolding get_para_buffer para_deal last_column
  cal garbage xs ys amount = do
    b₁ ← get_para_buffer xs ys amount (replicate (n * (n + 1)) garbage)
    b₂ ← para_deal b₁
    last_column n 0 b₂

-- `GetXY`, with the pairs that `fscanf` reads before it fails: the two arrays have twenty entries.
unfoldable pub get_xy :
    (F : Floats) → List (F.Double × F.Double) → Run (List F.Double × List F.Double)
get_xy F pairs =
    if ltb 20 (length pairs) then fault else ok (map (λ p. p.0) pairs, map (λ p. p.1) pairs)

-- The last loop of `ForecastY`, from `Amount` on.
unfoldable pub value_at : (F : Floats) → F.Double → List F.Double → ℕ → F.Double → F.Double
value_at F x [] amount y = y
value_at F x (k ∷ ks) amount y =
    value_at F x ks (amount + 1) (F.add y (F.mul k (F.pow x (8 - amount - 1))))

-- Where the file cannot be opened, `GetXY` returns -1, which is not taken for a failure, and `Amount` is
-- read without a value.
unfoldable pub forecast_y :
    (F : Floats) → F.Double → Option (List (F.Double × F.Double)) → F.Double → Run F.Double
unfolding get_xy value_at cal
forecast_y F garbage none x = fault
forecast_y F garbage (some pairs) x = do
  (xs, ys) ← get_xy F pairs
  ks ← cal F 8 garbage xs ys (length pairs)
  ok (value_at F x ks 0 F.nought)
