-- ===== src/Events/Window.antt =====
-- `saveParamtersData` over time: the file is a window on the last twenty readings.
use aoq.Prelude.{
  ℕ, zero, suc, ◌+◌, ◌∙◌, ap, ◌≡◌, refl, Option, some, List, [], ◌∷◌, ◌++◌, arith, length, drop,
  replicate, append_assoc, append-nil, length-append,
}
use aoq.Prelude.Int.{ℤ}
use aoq.Events.{DataFile, create_param_data_file, read_params, write_params, save_paramters_data}

-- One call after the other, each with the number of chunks that are in use then.
abbrev pub save_each : List ℤ → Option DataFile → Option DataFile
save_each [] file = file
save_each (u ∷ us) file = save_each us (save_paramters_data u file)

read_params-write_params :
    (n i : ℕ) (ys : List ℤ) (u : ℤ)
    → length ys ≡ n
    → read_params n (write_params i ys) (replicate (suc n) u) ≡ ys ++ u ∷ []
unfolding read_params write_params
read_params-write_params zero i [] u e = refl
read_params-write_params zero i (y ∷ ys) u e = absurd (omega arith)
read_params-write_params (suc n) i [] u e = absurd (omega arith)
read_params-write_params (suc n) i (y ∷ ys) u e =
    ap (λ s. y ∷ s) (read_params-write_params n (i + 1) ys u (omega arith))

save_paramters_data-shifts :
    (y u : ℤ) (ys : List ℤ)
    → length ys ≡ 19
    → save_paramters_data u (some (write_params 1 (y ∷ ys))) ≡ some (write_params 1 (ys ++ u ∷ []))
unfolding save_paramters_data
save_paramters_data-shifts y u ys e =
    ap (λ zs. some (write_params 1 (drop 1 zs)))
      (read_params-write_params 20 1 (y ∷ ys) u (omega arith))

save_each-window :
    (us ys : List ℤ)
    → length ys ≡ 20
    → save_each us (some (write_params 1 ys)) ≡ some (write_params 1 (drop (length us) (ys ++ us)))
save_each-window [] ys e = rw append-nil refl
save_each-window (u ∷ us) [] e = absurd (omega arith)
save_each-window (u ∷ us) (y ∷ ys) e = rw (save_paramters_data-shifts y u ys (omega arith)) (
    save_each-window us (ys ++ u ∷ []) (omega (arith, length-append ys (u ∷ [])))
    ∙ ap (λ zs. some (write_params 1 (drop (length us) zs))) (append_assoc ys (u ∷ []) us))

save_paramters_data-first :
    (u : ℤ) → save_paramters_data u create_param_data_file ≡ some (write_params 1 (replicate 20 u))
unfolding save_paramters_data read_params
save_paramters_data-first u = refl

-- From the file that `createParamDataFile` makes, any number of calls leaves twenty lines, numbered from 1,
-- with the last twenty readings in order; before there are twenty, the first one stands in for those
-- that are missing.
pub save_each-last :
    (u : ℤ) (us : List ℤ)
    → save_each (u ∷ us) create_param_data_file
      ≡ some (write_params 1 (drop (length us) (replicate 20 u ++ us)))
save_each-last u us = rw (save_paramters_data-first u) (save_each-window us (replicate 20 u) refl)
