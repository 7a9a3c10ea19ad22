-- ===== src/Parser/Argn.antt =====
-- The lengths in a request's head: six digits each, up to a blank.
use aoq.Prelude.{
  ℕ, zero, suc, ◌+◌, ◌*◌, ◌/◌, ◌<◌, ◌∙◌, ap, ◌≡◌, refl, ◌≢◌, List, [], ◌∷◌, ◌++◌, map, arith,
  length, All,
}
use aoq.Prelude.Int.{ℤ, pos}
use aoq.Heap.{ok, Heap}
use aoq.CText.{atoi}
use aoq.CText.Digits.{digit, six_digits, atoi-six_digits}
use aoq.MemPool.{ChunkNode}
use aoq.Cursor.{CharPtr, at, plus, byte_at, read_bytes}
use aoq.Cursor.Text.{Ahead, byte_at-Ahead, read_bytes-Ahead, Ahead-plus}
use aoq.Parser.{argn_loop}

-- The text of the lengths `ns`.
abbrev pub lengths_text : List ℕ → List ℕ
lengths_text [] = []
lengths_text (n ∷ ns) = six_digits n ++ lengths_text ns

argn_loop-number :
    (k : ℕ) (h : Heap ChunkNode) (p q : CharPtr) (b : ℕ) (s : List ℕ) (n : ℤ) (ns : List ℤ)
    → byte_at h p ≡ ok b
    → b ≢ 0
    → b ≢ 32
    → read_bytes h p 6 ≡ ok s
    → atoi (s ++ 0 ∷ []) ≡ ok n
    → argn_loop k h (plus p 6) ≡ ok (ns, q)
    → argn_loop (suc k) h p ≡ ok (n ∷ ns, q)
unfolding argn_loop
argn_loop-number k h p q b s n ns eb nz nb es en rest = rw eb (ground arith)

argn_loop-blank :
    (k : ℕ) (h : Heap ChunkNode) (p : CharPtr)
    → byte_at h p ≡ ok 32
    → argn_loop (suc k) h p ≡ ok ([], plus p 1)
unfolding argn_loop
argn_loop-blank k h p e = rw e

-- Fewer lengths than rounds: they are all read, and the pointer is left behind the blank.
pub argn_loop-lengths :
    (k : ℕ) (h : Heap ChunkNode) (p : CharPtr) (ns rest : List ℕ)
    → Ahead h p (lengths_text ns ++ 32 ∷ rest)
    → All (λ n. n < 1000000) ns
    → length ns < k
    → argn_loop k h p ≡ ok (map pos ns, plus p (6 * length ns + 1))
argn_loop-lengths zero h p ns rest a small lt = absurd (omega arith)
argn_loop-lengths (suc k) h p [] rest a small lt =
    argn_loop-blank k h p (byte_at-Ahead h p 32 rest a)
argn_loop-lengths (suc k) h p (n ∷ ns) rest a (sn, small) lt =
    let later : plus (plus p 6) (6 * length ns + 1) ≡ plus p (6 * suc (length ns) + 1) =
      ap (at p.block) (omega arith) in
    let behind : Ahead h (plus p 6) (lengths_text ns ++ 32 ∷ rest) =
      Ahead-plus h p (six_digits n) (lengths_text ns ++ 32 ∷ rest) a in
    argn_loop-number k h p _ (digit (n / 100000)) (six_digits n) (pos n) (map pos ns)
      (byte_at-Ahead h p _ _ a) (omega arith) (omega arith)
      (read_bytes-Ahead h p (six_digits n) (lengths_text ns ++ 32 ∷ rest) a)
      (atoi-six_digits n (0 ∷ []) sn refl)
      (argn_loop-lengths k h (plus p 6) ns rest behind small (omega arith))
    ∙ ap (λ q. ok (pos n ∷ map pos ns, q)) later

-- On as many lengths of six digits as it has rounds, with a blank behind them, the loop returns them all
-- and leaves the pointer at the blank, not behind it.
pub argn_loop-full :
    (k : ℕ) (h : Heap ChunkNode) (p : CharPtr) (ns rest : List ℕ)
    → Ahead h p (lengths_text ns ++ 32 ∷ rest)
    → All (λ n. n < 1000000) ns
    → length ns ≡ k
    → argn_loop k h p ≡ ok (map pos ns, plus p (6 * length ns))
argn_loop-full zero h p [] rest a small e =
    unfold argn_loop in ap (λ q. ok ([], q)) (ap (at p.block) (omega arith))
argn_loop-full zero h p (n ∷ ns) rest a small e = absurd (omega arith)
argn_loop-full (suc k) h p [] rest a small e = absurd (omega arith)
argn_loop-full (suc k) h p (n ∷ ns) rest a (sn, small) e =
    let later : plus (plus p 6) (6 * length ns) ≡ plus p (6 * suc (length ns)) =
      ap (at p.block) (omega arith) in
    let behind : Ahead h (plus p 6) (lengths_text ns ++ 32 ∷ rest) =
      Ahead-plus h p (six_digits n) (lengths_text ns ++ 32 ∷ rest) a in
    argn_loop-number k h p _ (digit (n / 100000)) (six_digits n) (pos n) (map pos ns)
      (byte_at-Ahead h p _ _ a) (omega arith) (omega arith)
      (read_bytes-Ahead h p (six_digits n) (lengths_text ns ++ 32 ∷ rest) a)
      (atoi-six_digits n (0 ∷ []) sn refl)
      (argn_loop-full k h (plus p 6) ns rest behind small (omega arith))
    ∙ ap (λ q. ok (pos n ∷ map pos ns, q)) later
