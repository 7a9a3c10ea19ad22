-- ===== src/AoqLog.antt =====
-- aoqlog.c: the buffer of requests that wait to be written to the log file.
pub mod Buffer
mod Tests
use aoq.Prelude.{
  ℕ, zero, suc, ◌+◌, ◌*◌, ◌&&◌, ◌||◌, Bool, not, Option, none, some, List, [], ◌∷◌, ◌++◌, ltb, ◌==◌,
  if◌then◌else◌, length, replicate,
}
use aoq.Prelude.Int.{ℤ, pos, negsuc}
use aoq.Heap.{Ptr, null, Run, ok, stuck, ◌>>=◌, Heap, load}
use aoq.CText.{c_string, copy_to}
use aoq.MemPool.{ChunkNode, MemSlab, Mem}

-- `AOQLOG`, with the bytes that `log` points to. The file is what `saveAoqLog` returns to append to it.
pub record AoqLog : Type 0 where
  pub log : List ℕ
  pub len : ℕ
  pub size : ℕ

-- `initAoqLog`, whose size is 50 MB, with the size as an argument.
unfoldable pub init_aoq_log : ℕ → AoqLog
init_aoq_log size = record { log = replicate size 0; len = 0; size = size }

-- `realloc` keeps the old bytes; what the new ones hold is its first argument.
unfoldable pub make_room : (ℕ → List ℕ) → ℕ → AoqLog → AoqLog
make_room garbage len l =
    if ltb l.size (l.len + len)
    then record l { log = l.log ++ garbage l.size; size = l.size * 2 }
    else l

-- The loop of `writeAoqLog` from `cnode` on.
unfoldable pub write_loop : (ℕ → List ℕ) → ℕ → Heap ChunkNode → Ptr → AoqLog → Run AoqLog
unfolding copy_to make_room
write_loop garbage zero h cnode l = stuck
write_loop garbage (suc fuel) h cnode l =
    let round : Run AoqLog = (do
      n ← load h cnode
      s ← c_string n.val
      let roomy : AoqLog = make_room garbage (length s) l
      bytes ← copy_to roomy.log roomy.len s
      write_loop garbage fuel h n.next
          (record roomy { log = bytes; len = roomy.len + length s })) in
    if cnode == null then ok l else round

unfoldable pub write_aoq_log : (ℕ → List ℕ) → ℕ → Ptr → Mem → AoqLog → Run AoqLog
write_aoq_log garbage fuel memslab m l = do
  s ← load m.slabs memslab
  write_loop garbage fuel m.chunks s.head_next l

-- What `saveAoqLog` returns, what it appends to the file, and the buffer. The second argument is
-- `none` when `fprintf` succeeds, and else what it has written before it failed.
unfoldable pub save_aoq_log : Bool → Option (List ℕ) → AoqLog → Run (ℤ × List ℕ × AoqLog)
save_aoq_log force failed l =
    let print : Run (ℤ × List ℕ × AoqLog) = (do
      s ← c_string l.log
      ok (elim failed [
        | none ↦ (pos 1, s, record l { log = replicate l.size 0; len = 0 })
        | some written ↦ (negsuc 1, written, l)
      ])) in
    if l.len == 0 || (not force && ltb l.len 100000) then ok (pos 0, [], l) else print
