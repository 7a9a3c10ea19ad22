-- ===== src/Main/Settings.antt =====
-- The options and the settings that come of them.
use aoq.Prelude.{
  ℕ, ◌≤◌, ◌<◌, ◌^◌, ◌≡◌, refl, true, false, Bool, Bool-cases, inl, inr, Option, some, List, [], ◌∷◌,
  arith, ltb, if◌then◌else◌,
}
use mathlib.Core.Path.{subst}
use aoq.Prelude.Int.{ℤ, pos, negsuc}
use aoq.Heap.{Run, ok, fault, ◌>>=◌, bind-eq-ok}
use aoq.CText.{atoi}
use aoq.Main.{
  Opt, opt_p, opt_q, opt_m, opt_f, opt_t, opt_s, opt_c, opt_l, opt_a, opt_x, opt_r, opt_v, opt_d,
  opt_h, unknown, Options, no_options, is_int, int_of, read_options, or_else, Launch, settings,
  default_ht_size, default_mp_size, default_ck_size,
}

-- The numbers of the options are numbers of an `int`.
abbrev pub IsInts : Options → Type 0
IsInts o =
    (is_int o.port ≡ true)
    × (is_int o.aoq_max_size ≡ true)
    × (is_int o.max_memory ≡ true)
    × (is_int o.ht_size ≡ true)
    × (is_int o.mempool_size ≡ true)
    × (is_int o.chunk_size ≡ true)
    × (is_int o.max_client_connection ≡ true)

kept : (c : Bool) (n k : ℤ) → (if c then ok n else fault) ≡ ok k → (c ≡ true) × (n ≡ k)
kept true n k e = (refl, cc)
kept false n k e = cc

-- A case of the `switch` with a number: `next` goes on with one of an `int`.
int_of-next :
    (optarg : List ℕ) (next : ℤ → Run (Option Options)) (o : Options)
    → (int_of optarg >>= next) ≡ ok (some o)
    → (n : ℤ) × (is_int n ≡ true) × (next n ≡ ok (some o))
unfolding int_of
int_of-next optarg next o e =
    let (n, e₁, e₂) = bind-eq-ok (int_of optarg) next e in
    let (k, _, e₃) = bind-eq-ok (atoi optarg) _ e₁ in
    let (yes', same) = kept (is_int k) k n e₃ in (n, rw same at yes', e₂)

read_options-IsInts :
    (opts : List (Opt × List ℕ)) (o o' : Options)
    → IsInts o
    → read_options opts o ≡ ok (some o')
    → IsInts o'
unfolding read_options
read_options-IsInts [] o o' i e = let same : o ≡ o' = cc in subst IsInts same i
read_options-IsInts ((opt_p, text) ∷ opts) o o' (_, i1, i2, i3, i4, i5, i6) e =
    let (n, int, e') = int_of-next text _ o' e in
    read_options-IsInts opts (record o { port = n }) o' (int, i1, i2, i3, i4, i5, i6) e'
read_options-IsInts ((opt_q, text) ∷ opts) o o' (i0, _, i2, i3, i4, i5, i6) e =
    let (n, int, e') = int_of-next text _ o' e in
    read_options-IsInts opts (record o { aoq_max_size = n }) o' (i0, int, i2, i3, i4, i5, i6) e'
read_options-IsInts ((opt_m, text) ∷ opts) o o' (i0, i1, _, i3, i4, i5, i6) e =
    let (n, int, e') = int_of-next text _ o' e in
    read_options-IsInts opts (record o { max_memory = n }) o' (i0, i1, int, i3, i4, i5, i6) e'
read_options-IsInts ((opt_f, text) ∷ opts) o o' i e =
    read_options-IsInts opts (record o { work_dir_path = some text }) o' i e
read_options-IsInts ((opt_t, text) ∷ opts) o o' (i0, i1, i2, _, i4, i5, i6) e =
    let (n, int, e') = int_of-next text _ o' e in
    read_options-IsInts opts (record o { ht_size = n }) o' (i0, i1, i2, int, i4, i5, i6) e'
read_options-IsInts ((opt_s, text) ∷ opts) o o' (i0, i1, i2, i3, _, i5, i6) e =
    let (n, int, e') = int_of-next text _ o' e in
    read_options-IsInts opts (record o { mempool_size = n }) o' (i0, i1, i2, i3, int, i5, i6) e'
read_options-IsInts ((opt_c, text) ∷ opts) o o' (i0, i1, i2, i3, i4, _, i6) e =
    let (n, int, e') = int_of-next text _ o' e in
    read_options-IsInts opts (record o { chunk_size = n }) o' (i0, i1, i2, i3, i4, int, i6) e'
read_options-IsInts ((opt_l, text) ∷ opts) o o' (i0, i1, i2, i3, i4, i5, _) e =
    let (n, int, e') = int_of-next text _ o' e in
    read_options-IsInts opts (record o { max_client_connection = n }) o'
      (i0, i1, i2, i3, i4, i5, int) e'
read_options-IsInts ((opt_a, text) ∷ opts) o o' i e =
    read_options-IsInts opts (record o { aomp = true }) o' i e
read_options-IsInts ((opt_x, text) ∷ opts) o o' i e =
    read_options-IsInts opts (record o { persistent = true }) o' i e
read_options-IsInts ((opt_r, text) ∷ opts) o o' i e =
    read_options-IsInts opts (record o { recover = true }) o' i e
read_options-IsInts ((opt_v, text) ∷ opts) o o' i e = cc
read_options-IsInts ((opt_d, text) ∷ opts) o o' i e =
    read_options-IsInts opts (record o { daemon = true }) o' i e
read_options-IsInts ((opt_h, text) ∷ opts) o o' i e = cc
read_options-IsInts ((unknown, text) ∷ opts) o o' i e = cc

-- A number from `low` to the largest of an `int`.
abbrev pub Within : ℕ → ℤ → Type 0
Within low n = (k : ℕ) × (n ≡ pos k) × (low ≤ k) × (k < 2 ^ 31)

or_else-Within :
    (n : ℤ) (low k : ℕ)
    → is_int n ≡ true
    → low ≤ 1
    → low ≤ k
    → k < 2 ^ 31
    → Within low (or_else n (pos k))
or_else-Within (pos n) low k int le lk lt = elim (Bool-cases (ltb 0 n)) [
  | inl some' ↦ (n, ground (arith, some'), ground arith, ground arith)
  | inr none' ↦ (k, ground (arith, none'), lk, lt)
]
or_else-Within (negsuc n) low k int le lk lt = (k, ground arith, lk, lt)

-- Whatever the arguments are, the settings that `main` takes from them are numbers of an `int`, and
-- all but the limit of the memory are above 0; so are the sizes of the table, of the pool and of a
-- chunk. The limit of the memory is at least 0, which the code takes without `-m`, while the help
-- text promises 1048576.
pub settings-Within :
    (l : Launch) (opts : List (Opt × List ℕ)) (o : Options)
    → read_options opts no_options ≡ ok (some o)
    → Within 1 (settings l o).port
      × Within 0 (settings l o).max_memory
      × Within 1 (settings l o).max_client_connection
      × Within 1 (settings l o).aoq_max_size
      × Within 1 (or_else o.ht_size default_ht_size)
      × Within 1 (or_else o.mempool_size default_mp_size)
      × Within 1 (or_else o.chunk_size default_ck_size)
unfolding settings
settings-Within l opts o e =
    let (p, q, m, t, s, c, k) =
      read_options-IsInts opts no_options o (refl, refl, refl, refl, refl, refl, refl) e in
    (
      or_else-Within o.port 1 _ p (omega arith) (omega arith) (omega arith),
      or_else-Within o.max_memory 0 _ m (omega arith) (omega arith) (omega arith),
      or_else-Within o.max_client_connection 1 _ k (omega arith) (omega arith) (omega arith),
      or_else-Within o.aoq_max_size 1 _ q (omega arith) (omega arith) (omega arith),
      or_else-Within o.ht_size 1 _ t (omega arith) (omega arith) (omega arith),
      or_else-Within o.mempool_size 1 _ s (omega arith) (omega arith) (omega arith),
      or_else-Within o.chunk_size 1 _ c (omega arith) (omega arith) (omega arith),
    )
