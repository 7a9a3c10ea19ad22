-- ===== src/Cursor.antt =====
-- mempool.c: cursors, which walk over the text of a message from chunk to chunk.
-- A `char *` into a chunk is the chunk's node and an offset. A cursor's cell `ptr` is its own, so it is
-- a field here; `createCursor` and `freeCursor` make and drop the value.
pub mod Text
pub mod Walk
use aoq.Prelude.{ℕ, zero, suc, ◌+◌, List, [], ◌∷◌, ltb, ◌==◌, if◌then◌else◌, get_elem?}
use aoq.Heap.{Ptr, null, Run, ok, fault, stuck, ◌>>=◌, Heap, load, of_option}
use aoq.MemPool.{ChunkNode}

pub record CharPtr : Type 0 where
  pub block : Ptr
  pub off : ℕ

abbrev pub at : Ptr → ℕ → CharPtr
at b i = record { block = b; off = i }

-- `p + n`
abbrev pub plus : CharPtr → ℕ → CharPtr
plus p n = at p.block (p.off + n)

-- `struct _chunk_cursor`
pub record Cursor : Type 0 where
  pub ptr : CharPtr
  pub node : Ptr
  pub slab : Ptr

abbrev pub create_cursor : Cursor
create_cursor = record { ptr = at null 0; node = null; slab = null }

-- `*p`
unfoldable pub byte_at : Heap ChunkNode → CharPtr → Run ℕ
byte_at h p = do n ← load h p.block; of_option (get_elem? n.val p.off)

-- What `memcpy` of `n` bytes from `p` reads.
unfoldable pub read_bytes : Heap ChunkNode → CharPtr → ℕ → Run (List ℕ)
unfolding byte_at
read_bytes h p zero = ok []
read_bytes h p (suc n) = do b ← byte_at h p; s ← read_bytes h (plus p 1) n; ok (b ∷ s)

-- The loop of `moveCursor`. `ptr` is the C function's local copy: it is stored in the cursor at the end
-- alone, and a walk that runs out of chunks returns without that, though `node` has moved.
unfoldable pub move_loop : ℕ → Heap ChunkNode → ℕ → ℕ → CharPtr → Cursor → Run (ℕ × Cursor)
unfolding byte_at
move_loop zero h len offset ptr cursor = stuck
move_loop (suc fuel) h len offset ptr cursor =
    let hop : Run (ℕ × Cursor) = (do
      n ← load h cursor.node
      let go : Run (ℕ × Cursor) = load h n.next >>= λ _.
          move_loop fuel h len offset (at n.next 0) (record cursor { node = n.next })
      if n.next == null then ok (offset, cursor) else go) in
    let step : Run (ℕ × Cursor) = move_loop fuel h len (offset + 1) (plus ptr 1) cursor in
    let walk : Run (ℕ × Cursor) = byte_at h ptr >>= (λ b. if b == 0 then hop else step) in
    if ltb offset len then walk else ok (offset, record cursor { ptr = ptr })

-- `moveCursor`, with the number of bytes that it moved over.
unfoldable pub move_cursor : ℕ → Heap ChunkNode → ℕ → Cursor → Run (ℕ × Cursor)
unfolding move_loop
move_cursor fuel h len cursor =
    if ltb 0 len then move_loop fuel h len 0 cursor.ptr cursor else ok (0, cursor)
