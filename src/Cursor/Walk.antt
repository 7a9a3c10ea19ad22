-- ===== src/Cursor/Walk.antt =====
-- Walking over a text that runs over several chunks.
use aoq.Prelude.{
  ℕ, zero, suc, ◌+◌, ◌≤◌, ◌<◌, ◌∙◌, ap, ◌≡◌, refl, ◌≢◌, false, some, List, [], ◌∷◌, ◌++◌, arith,
  length, length-append, All, lt→ltb, ◌==◌,
}
use aoq.Heap.{Ptr, null, ok, Heap, read, load-ok}
use aoq.Heap.Chain.{node, Cells, Chain, first}
use aoq.MemPool.{Chunk, ChunkNode}
use aoq.AoqLog.Buffer.{Texts}
use aoq.Cursor.{CharPtr, at, plus, Cursor, byte_at, move_loop, move_cursor}
use aoq.Cursor.Text.{Ahead, Ahead-next, byte_at-Ahead, move_loop-step, move_loop-stop}

move_loop-hop :
    (fuel : ℕ) (h : Heap ChunkNode) (len offset : ℕ) (p : CharPtr) (c : Cursor) (q r : Ptr)
    (v w : Chunk) (s : Ptr)
    → offset < len
    → byte_at h p ≡ ok 0
    → c.node ≡ q
    → q ≢ null
    → read h q ≡ some (node v r)
    → r ≢ null
    → read h r ≡ some (node w s)
    → move_loop (suc fuel) h len offset p c
      ≡ move_loop fuel h len offset (at r 0) (record c { node = r })
unfolding move_loop
move_loop-hop fuel h len offset p c q r v w s lt e same ne here ne' there =
    let on : r == null ≡ false = ground arith in
    rw (lt→ltb _ _ lt, e, same, load-ok h q ne here, on, load-ok h r ne' there) refl

-- Over `k` bytes of what stands ahead in the chunk, `u`, and in the chunks behind it.
move_loop-Texts :
    (fuel : ℕ) (h : Heap ChunkNode) (len offset k : ℕ) (p : CharPtr) (c : Cursor) (v : Chunk)
    (u beyond : List ℕ) (rest : Cells Chunk) (r : List ℕ)
    → Ahead h p (u ++ 0 ∷ beyond)
    → All (λ b. b ≢ 0) u
    → c.node ≢ null
    → read h c.node ≡ some (node v (first rest))
    → Chain h rest
    → Texts rest r
    → offset + k ≡ len
    → k ≤ length u + length r
    → k + length rest < fuel
    → (moved : Cursor) × (move_loop fuel h len offset p c ≡ ok (len, moved))
move_loop-Texts zero h len offset k p c v u beyond rest r a nz ne here chain texts e le lt =
    absurd (omega arith)
move_loop-Texts (suc fuel) h len offset zero p c v u beyond rest r a nz ne here chain texts e le
      lt =
    let same : offset ≡ len = omega (arith, e) in
    (record c { ptr = p }, rw same (move_loop-stop fuel h len p c))
move_loop-Texts (suc fuel) h len offset (suc k) p c v [] beyond [] r a nz ne here chain texts e le
      lt =
    let z = ap length texts in absurd (omega (arith, le, z))
move_loop-Texts (suc fuel) h len offset (suc k) p c v [] beyond ((q, w) ∷ rest) r a nz ne here chain
      texts e le lt =
    let (u', beyond', r', ew, nz', er, texts') = texts in
    let (ne', there, out, chain') = chain in
    let n = ap length er in
    let (moved, run) =
      move_loop-Texts fuel h len offset (suc k) (at q 0) (record c { node = q }) w u' beyond' rest
        r' (ne', _, there, ew) nz' ne' there chain' texts' e
        (omega (arith, le, n, length-append u' r')) (omega (arith, lt)) in
    (
      moved,
      move_loop-hop fuel h len offset p c c.node q v w (first rest) (omega (arith, e))
            (byte_at-Ahead h p 0 beyond a) refl ne here ne' there
          ∙ run,
    )
move_loop-Texts (suc fuel) h len offset (suc k) p c v (x ∷ u) beyond rest r a (nx, nz) ne here chain
      texts e le lt =
    let (moved, run) =
      move_loop-Texts fuel h len (offset + 1) k (plus p 1) c v u beyond rest r
        (Ahead-next h p x (u ++ 0 ∷ beyond) a) nz ne here chain texts (omega (arith, e))
        (omega (arith, le)) (omega (arith, lt)) in
    (
      moved,
      move_loop-step fuel h len offset x p c (omega (arith, e))
            (byte_at-Ahead h p x (u ++ 0 ∷ beyond) a) nx
          ∙ run,
    )

-- A walk of `len` bytes returns `len`, when they stand ahead in the cursor's chunk and those behind it, and
-- the fuel is beyond the number of these bytes and chunks.
pub move_cursor-Texts :
    (fuel : ℕ) (h : Heap ChunkNode) (len : ℕ) (c : Cursor) (v : Chunk) (u beyond : List ℕ)
    (rest : Cells Chunk) (r : List ℕ)
    → Ahead h c.ptr (u ++ 0 ∷ beyond)
    → All (λ b. b ≢ 0) u
    → c.node ≢ null
    → read h c.node ≡ some (node v (first rest))
    → Chain h rest
    → Texts rest r
    → 0 < len
    → len ≤ length u + length r
    → len + length rest < fuel
    → (moved : Cursor) × (move_cursor fuel h len c ≡ ok (len, moved))
unfolding move_cursor
move_cursor-Texts fuel h len c v u beyond rest r a nz ne here chain texts some_len le lt =
    let (moved, run) =
      move_loop-Texts fuel h len 0 len c.ptr c v u beyond rest r a nz ne here chain texts
        (omega arith) le lt in
    (moved, rw (lt→ltb 0 len some_len) run)
