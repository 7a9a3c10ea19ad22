-- ===== src/Lsp/Tests.antt =====
-- `ForecastY` over numbers that wrap at seven, on a file of one pair.
use aoq.Prelude.{ℕ, ◌+◌, ◌*◌, ◌%◌, ◌≡◌, some, List, [], ◌∷◌, ltb, ◌==◌, length}
use aoq.Prelude.Int.{pos, pos_part}
use aoq.Heap.{Returns}
use aoq.Events.{DataFile, save_paramters_data}
use aoq.Lsp.{Floats, value_at, forecast_y}
use aoq.Lsp.Saved.{as_doubles, forecast_y-saved}

abbrev sevens : Floats
sevens = record {
  Double = ℕ;
  nought = 0;
  unit = 1;
  small = 5;
  add = λ a b. (a + b) % 7;
  sub = λ a b. (a + 6 * b) % 7;
  mul = λ a b. a * b % 7;
  div = λ a b. a * b % 7;
  less = ltb;
  is_nought = λ a. a == 0;
  abs = λ a. a;
  pow = λ a n. (a + n) % 7;
}

forecast_y-saved_example :
    (saved : DataFile) × (save_paramters_data (pos 3) (some ((pos 1, pos 2) ∷ [])) ≡ some saved)
    × Returns
        (forecast_y sevens 0 (some (as_doubles sevens pos_part saved)) 4)
        (λ y. (ks : List ℕ) × (length ks ≡ 8) × (y ≡ value_at sevens 4 ks 0 0))
forecast_y-saved_example = forecast_y-saved sevens pos_part 0 4 (pos 3) ((pos 1, pos 2) ∷ [])
