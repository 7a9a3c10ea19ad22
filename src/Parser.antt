-- ===== src/Parser.antt =====
-- parser.c: a request is `HHCC`, then up to five lengths of six digits, a blank, and the arguments' text
-- (`HH` is the length of all that stands before the text, `CC` the command).
-- `Fuel` bounds the two loops over a message's chunks: `moveCursor`'s and `freeMemSlab`'s.
pub mod Argn
pub mod Head
pub mod Request
pub mod Spread
mod Tests
use aoq.Prelude.{
  ℕ, zero, suc, ◌||◌, Bool, Option, none, some, List, [], ◌∷◌, ◌++◌, ltb, ◌==◌, if◌then◌else◌, not,
  replicate, get_elem?, set, length,
}
use aoq.Prelude.Int.{ℤ, pos, negsuc, ltb_ℤ}
use aoq.Heap.{Ptr, null, Run, ok, fault, stuck, ◌>>=◌, Heap, load, of_option}
use aoq.CText.{atoi}
use aoq.MemPool.{ChunkNode, Mem, free_mem_slab}
use aoq.Cursor.{CharPtr, at, plus, Cursor, create_cursor, byte_at, read_bytes, move_cursor}

-- `struct _arg`
pub record Arg : Type 0 where
  pub len : ℕ
  pub cursor : Option Cursor

unfoldable pub create_args : ℕ → List Arg
create_args num = replicate num (record { len = 0; cursor = none })

-- `while(i < 5 && *p != '\0')` of `parse_argn`, with the rounds left for its argument.
unfoldable pub argn_loop : ℕ → Heap ChunkNode → CharPtr → Run (List ℤ × CharPtr)
argn_loop zero h p = ok ([], p)
argn_loop (suc k) h p =
    let number : Run (List ℤ × CharPtr) = (do
      s ← read_bytes h p 6
      n ← atoi (s ++ 0 ∷ [])
      (ns, q) ← argn_loop k h (plus p 6)
      ok (n ∷ ns, q)) in
    byte_at h p >>= λ b.
    if b == 0 then ok ([], p) else if b == 32 then ok ([], plus p 1) else number

-- The five entries of `argn` start at -1, and the loop writes the first ones.
unfoldable pub fill_argn : ℕ → List ℤ → List ℤ
fill_argn zero ns = []
fill_argn (suc k) [] = negsuc 0 ∷ fill_argn k []
fill_argn (suc k) (n ∷ ns) = n ∷ fill_argn k ns

unfoldable pub parse_argn : Heap ChunkNode → Cursor → Run (List ℤ × Cursor)
unfolding argn_loop fill_argn
parse_argn h cursor = do
  (ns, p) ← argn_loop 5 h cursor.ptr
  ok (fill_argn 5 ns, record cursor { ptr = p })

-- The two bytes are copied into a block of two, and `atoi` reads on behind it: `beyond` is what memory
-- holds there.
module _ (beyond : List ℕ) (fuel : ℕ) (h : Heap ChunkNode) where
  unfoldable pub parse_head_len : Cursor → Run (ℤ × Cursor)
  parse_head_len cursor = do
    s ← read_bytes h cursor.ptr 2
    (_, moved) ← move_cursor fuel h 2 cursor
    n ← atoi (s ++ beyond)
    ok (n, moved)

  unfoldable pub parse_comman_num : Cursor → Run (ℤ × Cursor)
  parse_comman_num cursor = do
    s ← read_bytes h cursor.ptr 2
    (_, moved) ← move_cursor fuel h 2 cursor
    n ← atoi (s ++ beyond)
    ok (n, moved)

-- The argument starts where the cursor stands, which moves on behind it.
unfoldable pub parse_argv : ℕ → Heap ChunkNode → ℕ → Cursor → Run (Arg × Cursor)
parse_argv fuel h len cursor = do
  (_, moved) ← move_cursor fuel h len cursor
  let start : Cursor = record create_cursor {
    ptr = cursor.ptr;
    node = cursor.node;
    slab = cursor.slab;
  }
  ok (record { len = len; cursor = some start }, moved)

-- `while(i < 5 && argn[i] > 0)`: `args` holds the entries from `args[i]` on. The number of arguments.
unfoldable pub argv_loop : ℕ → Heap ChunkNode → List ℤ → Cursor → List Arg → Run (ℕ × List Arg)
unfolding parse_argv
argv_loop fuel h [] cursor args = ok (0, args)
argv_loop fuel h (negsuc _ ∷ ns) cursor args = ok (0, args)
argv_loop fuel h (pos zero ∷ ns) cursor args = ok (0, args)
argv_loop fuel h (pos (suc n) ∷ ns) cursor [] = fault
argv_loop fuel h (pos (suc n) ∷ ns) cursor (a ∷ args) = do
  (a', moved) ← parse_argv fuel h (suc n) cursor
  (i, args') ← argv_loop fuel h ns moved args
  ok (suc i, a' ∷ args')

-- What `parse_args` returns and writes: -1, 0 or 1; `*command_num`; the arguments; and the memory, in
-- which the slab is freed unless there are arguments.
pub data Outcome : Type 0 where
  refused empty parsed : Outcome

pub record Parse : Type 0 where
  pub outcome : Outcome
  pub command_num : ℤ
  pub args : List Arg
  pub mem : Mem

abbrev pub is_bad_head : ℤ → ℤ → Bool
is_bad_head head_len command_num =
    not (ltb_ℤ (pos 0) head_len) || not (ltb_ℤ (pos 0) command_num) || ltb_ℤ (pos 6) command_num

unfoldable pub parse_args : List ℕ → ℕ → Ptr → Mem → List Arg → Run Parse
parse_args beyond fuel slab m args = do
  s ← load m.slabs slab
  _ ← load m.chunks s.head_next
  let start : Cursor = record create_cursor {
    ptr = at s.head_next 0;
    node = s.head_next;
    slab = slab;
  }
  (head_len, after_head) ← parse_head_len beyond fuel m.chunks start
  (command_num, after_command) ← parse_comman_num beyond fuel m.chunks after_head
  if is_bad_head head_len command_num
      then (do
        m' ← free_mem_slab fuel slab m
        ok (record { outcome = refused; command_num = command_num; args = args; mem = m' }))
      else do
        (argn, at_text) ← parse_argn m.chunks after_command
        (i, args') ← argv_loop fuel m.chunks argn at_text args
        if i == 0
            then (do
              m' ← free_mem_slab fuel slab m
              ok (record { outcome = empty; command_num = command_num; args = args'; mem = m' }))
            else ok (record { outcome = parsed; command_num = command_num; args = args'; mem = m })

unfoldable pub free_slab_of : ℕ → Option Cursor → Mem → Run Mem
free_slab_of fuel none m = ok m
free_slab_of fuel (some c) m = if c.slab == null then ok m else free_mem_slab fuel c.slab m

-- `freeArgs`, at an array: the slab is that of the first argument. The five cursors, and the array
-- itself, go with it.
unfoldable pub free_args : ℕ → List Arg → Mem → Run Mem
unfolding free_slab_of
free_args fuel [] m = fault
free_args fuel (a ∷ args) m = free_slab_of fuel a.cursor m
