-- ===== src/Cursor/Text.antt =====
-- What stands in memory from a pointer on, and walking over it inside one chunk.
use aoq.Prelude.{
  ℕ, zero, suc, ◌+◌, ◌<◌, ◌∙◌, sym, ap, ◌≡◌, refl, ◌≢◌, some, List, [], ◌∷◌, ◌++◌, arith, length,
  get_elem?, drop, All, lt→ltb,
}
use mathlib.Core.Path.{subst}
use native.Mathlib.Numerals.{add-one}
use aoq.Heap.{null, ok, Heap, read, load}
use aoq.MemPool.{ChunkNode}
use aoq.Cursor.{CharPtr, at, plus, Cursor, byte_at, read_bytes, move_loop, move_cursor}

-- From `p` to the end of its chunk stand the bytes `rest`.
abbrev pub Ahead : Heap ChunkNode → CharPtr → List ℕ → Type 0
Ahead h p rest =
    (p.block ≢ null) × (n : ChunkNode) × (read h p.block ≡ some n) × (drop p.off n.val ≡ rest)

drop-cons {ℓ} :
    {A : Type ℓ} (i : ℕ) (xs : List A) (b : A) (rest : List A)
    → drop i xs ≡ b ∷ rest
    → (get_elem? xs i ≡ some b) × (drop (suc i) xs ≡ rest)
drop-cons zero [] b rest e = absurd (cc)
drop-cons zero (x ∷ xs) b rest e = (cc, cc)
drop-cons (suc i) [] b rest e = absurd (cc)
drop-cons (suc i) (x ∷ xs) b rest e = drop-cons i xs b rest e

pub byte_at-Ahead :
    (h : Heap ChunkNode) (p : CharPtr) (b : ℕ) (rest : List ℕ)
    → Ahead h p (b ∷ rest)
    → byte_at h p ≡ ok b
unfolding byte_at load
byte_at-Ahead h p b rest (ne, n, r, e) =
    let (got, next) = drop-cons p.off n.val b rest e in ground arith

pub Ahead-next :
    (h : Heap ChunkNode) (p : CharPtr) (b : ℕ) (rest : List ℕ)
    → Ahead h p (b ∷ rest)
    → Ahead h (plus p 1) rest
Ahead-next h p b rest (ne, n, r, e) = (ne, n, r, rw add-one (drop-cons p.off n.val b rest e).1)

plus-plus : (p : CharPtr) (i j : ℕ) → plus (plus p i) j ≡ plus p (i + j)
plus-plus p i j = ap (at p.block) (omega arith)

plus-zero : (p : CharPtr) → plus p 0 ≡ p
plus-zero p = ap (at p.block) (omega arith)

pub Ahead-plus :
    (h : Heap ChunkNode) (p : CharPtr) (xs rest : List ℕ)
    → Ahead h p (xs ++ rest)
    → Ahead h (plus p (length xs)) rest
Ahead-plus h p [] rest a = subst (λ q. Ahead h q rest) (sym (plus-zero p)) a
Ahead-plus h p (x ∷ xs) rest a =
    let later = Ahead-plus h (plus p 1) xs rest (Ahead-next h p x (xs ++ rest) a) in
    let e : plus (plus p 1) (length xs) ≡ plus p (suc (length xs)) =
      ap (at p.block) (omega arith) in
    subst (λ q. Ahead h q rest) e later

pub read_bytes-Ahead :
    (h : Heap ChunkNode) (p : CharPtr) (xs rest : List ℕ)
    → Ahead h p (xs ++ rest)
    → read_bytes h p (length xs) ≡ ok xs
unfolding read_bytes
read_bytes-Ahead h p [] rest a = refl
read_bytes-Ahead h p (x ∷ xs) rest a = rw (
  byte_at-Ahead h p x (xs ++ rest) a,
  read_bytes-Ahead h (plus p 1) xs rest (Ahead-next h p x (xs ++ rest) a),
)

pub move_loop-step :
    (fuel : ℕ) (h : Heap ChunkNode) (len offset b : ℕ) (p : CharPtr) (c : Cursor)
    → offset < len
    → byte_at h p ≡ ok b
    → b ≢ 0
    → move_loop (suc fuel) h len offset p c ≡ move_loop fuel h len (offset + 1) (plus p 1) c
unfolding move_loop
move_loop-step fuel h len offset b p c lt e ne = rw (lt→ltb _ _ lt, e) (ground arith)

pub move_loop-stop :
    (fuel : ℕ) (h : Heap ChunkNode) (len : ℕ) (p : CharPtr) (c : Cursor)
    → move_loop (suc fuel) h len len p c ≡ ok (len, record c { ptr = p })
unfolding move_loop
move_loop-stop fuel h len p c = ground arith

-- Over `xs`, which has no `NUL`, the loop walks byte by byte.
move_loop-Ahead :
    (fuel : ℕ) (h : Heap ChunkNode) (len offset : ℕ) (p : CharPtr) (c : Cursor) (xs rest : List ℕ)
    → Ahead h p (xs ++ rest)
    → All (λ b. b ≢ 0) xs
    → offset + length xs ≡ len
    → length xs < fuel
    → move_loop fuel h len offset p c ≡ ok (len, record c { ptr = plus p (length xs) })
move_loop-Ahead zero h len offset p c xs rest a nz e lt = absurd (omega arith)
move_loop-Ahead (suc fuel) h len offset p c [] rest a nz e lt =
    let here : offset ≡ len = omega arith in
    rw here
      (move_loop-stop fuel h len p c ∙ ap (λ q. ok (len, record c { ptr = q })) (sym (plus-zero p)))
move_loop-Ahead (suc fuel) h len offset p c (x ∷ xs) rest a (ne, nz) e lt =
    let later : plus (plus p 1) (length xs) ≡ plus p (suc (length xs)) =
      ap (at p.block) (omega arith) in
    move_loop-step fuel h len offset x p c (omega arith) (byte_at-Ahead h p x (xs ++ rest) a) ne
    ∙ move_loop-Ahead fuel h len (offset + 1) (plus p 1) c xs rest (Ahead-next h p x (xs ++ rest) a)
        nz (omega arith) (omega arith)
    ∙ ap (λ q. ok (len, record c { ptr = q })) later

-- When a text without a `NUL` stands at the cursor, inside the chunk, and the fuel is beyond its length,
-- `moveCursor` by that length returns it and moves the pointer by it, and the node stays.
pub move_cursor-Ahead :
    (fuel : ℕ) (h : Heap ChunkNode) (c : Cursor) (xs rest : List ℕ)
    → Ahead h c.ptr (xs ++ rest)
    → All (λ b. b ≢ 0) xs
    → length xs < fuel
    → move_cursor fuel h (length xs) c ≡ ok (length xs, record c { ptr = plus (c.ptr) (length xs) })
unfolding move_cursor
move_cursor-Ahead fuel h c [] rest a nz lt =
    ap (λ q. ok (0, record c { ptr = q })) (sym (plus-zero c.ptr))
move_cursor-Ahead fuel h c (x ∷ xs) rest a nz lt =
    rw (lt→ltb 0 (suc (length xs)) (omega arith))
      (move_loop-Ahead fuel h (suc (length xs)) 0 c.ptr c (x ∷ xs) rest a nz (omega arith) lt)
