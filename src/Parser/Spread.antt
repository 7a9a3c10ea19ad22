-- ===== src/Parser/Spread.antt =====
-- `parse_args` on a request whose second argument runs over several chunks.
use aoq.Prelude.{ℕ, ◌+◌, ◌≤◌, ◌<◌, ◌≡◌, refl, ◌≢◌, some, List, [], ◌∷◌, ◌++◌, arith, length, All}
use aoq.Prelude.Int.{pos}
use aoq.Heap.{Ptr, null, ok, read}
use aoq.Heap.Chain.{node, Cells, Chain, first}
use aoq.CText.Digits.{Stops}
use aoq.MemPool.{Chunk, MemSlab, Mem}
use aoq.AoqLog.Buffer.{Texts}
use aoq.Cursor.{at, plus, Cursor}
use aoq.Cursor.Text.{Ahead, Ahead-plus, move_cursor-Ahead}
use aoq.Cursor.Walk.{move_cursor-Texts}
use aoq.Parser.{Arg, parsed, fill_argn, argv_loop, parse_args}
use aoq.Parser.Request.{
  IsText, lengths, located, headed, body_at, argv_loop-argument, parse_args-headed,
}

-- On a request with a head length of 1 to 99, a command of 1 to 6 and two arguments, whose head, first
-- argument and the front of whose second one stand in the slab's first chunk, and the rest of that in the
-- chunks behind it, `parse_args` returns 1, the command, and for each argument its length and a cursor at its
-- text; no memory is freed or written. The arguments are not empty, have no `NUL`, and are shorter than a
-- million bytes; the fuel is beyond the first one's length, the second one's length and the number of chunks
-- together, and 2; and what memory holds behind the two-byte blocks starts with no digit.
pub parse_args-spread :
    (beyond : List ℕ) (fuel : ℕ) (slab p : Ptr) (m : Mem) (a₁ a₂ : Arg) (args : List Arg)
    (s : MemSlab) (head_len command : ℕ) (name value front behind r : List ℕ) (v : Chunk)
    (rest : Cells Chunk)
    → Stops beyond
    → 2 < fuel
    → slab ≢ null
    → read m.slabs slab ≡ some s
    → s.head_next ≡ p
    → Ahead m.chunks
        (at p 0)
        (headed head_len command (name ∷ value ∷ []) (name ++ (front ++ 0 ∷ behind)))
    → read m.chunks p ≡ some (node v (first rest))
    → Chain m.chunks rest
    → Texts rest r
    → All (λ b. b ≢ 0) front
    → length value ≤ length front + length r
    → 0 < head_len
    → head_len < 100
    → 0 < command
    → command ≤ 6
    → IsText fuel name
    → 0 < length value
    → length value + length rest < fuel
    → All (λ n. n < 1000000) (lengths (name ∷ value ∷ []))
    → parse_args beyond fuel slab m (a₁ ∷ a₂ ∷ args)
      ≡ ok (record {
        outcome = parsed;
        command_num = pos command;
        args =
            located
              (record { ptr = at p 17; node = p; slab = slab })
              (name ∷ value ∷ [])
              (a₁ ∷ a₂ ∷ args);
        mem = m;
      })
unfolding fill_argn argv_loop
parse_args-spread beyond fuel slab p m a₁ a₂ args s hl command name value front behind r v rest stop
      enough ne rs head text here chain texts nz le p₁ q₁ p₂ q₂ (some_text, short, no_nul)
      some_value fits small =
    let text' : Ahead m.chunks (at s.head_next 0)
        (headed hl command (name ∷ value ∷ []) (name ++ (front ++ 0 ∷ behind))) =
      rw head text in
    let c : Cursor = record { ptr = at p 17; node = p; slab = slab } in
    let body = body_at m.chunks p hl command (name ∷ value ∷ []) _ text in
    let c' : Cursor = record c { ptr = plus (c.ptr) (length name) } in
    let (moved, walked) =
      move_cursor-Texts fuel m.chunks (length value) c' v front behind rest r
        (Ahead-plus m.chunks c.ptr name _ body) nz text.0 here chain texts some_value le fits in
    parse_args-headed beyond fuel slab m (a₁ ∷ a₂ ∷ args) _ s hl command (name ∷ value ∷ []) _ stop
      enough ne rs text' p₁ q₁ p₂ q₂ small (omega arith) (omega arith)
      (rw head (
        argv_loop-argument fuel m.chunks (length name) 1 _ c c' a₁ (a₂ ∷ args) _ some_text
          (move_cursor-Ahead fuel m.chunks c name _ body no_nul short)
          (argv_loop-argument fuel m.chunks (length value) 0 _ c' moved a₂ args args some_value
            walked refl)))
