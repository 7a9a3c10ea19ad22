-- ===== src/Command/Crossing.antt =====
-- A queue name that runs over the end of the chunk in which it starts.
use aoq.Prelude.{
  ℕ, zero, suc, ◌<◌, ◌≡◌, refl, false, none, some, List, [], ◌∷◌, arith, length, get_elem?, drop,
}
use aoq.Heap.{fault, Heap, load-ok}
use aoq.MemPool.{ChunkNode}
use aoq.Cursor.{CharPtr, plus, Cursor, byte_at, read_bytes}
use aoq.Cursor.Text.{Ahead, Ahead-next, byte_at-Ahead}
use aoq.Parser.{Arg}
use aoq.Command.{Server, Outside, is_bad_name, get_queue_name, push, pop}

nothing_ahead : (i : ℕ) (xs : List ℕ) → drop i xs ≡ [] → get_elem? xs i ≡ none
nothing_ahead zero [] e = refl
nothing_ahead zero (x ∷ xs) e = cc
nothing_ahead (suc i) [] e = refl
nothing_ahead (suc i) (x ∷ xs) e = nothing_ahead i xs e

read_bytes-past :
    (h : Heap ChunkNode) (p : CharPtr) (rest : List ℕ) (n : ℕ)
    → Ahead h p rest
    → length rest < n
    → read_bytes h p n ≡ fault
unfolding read_bytes
read_bytes-past h p rest zero a lt = absurd (omega arith)
read_bytes-past h p [] (suc n) (ne, v, r, e) lt =
    let none_there = nothing_ahead p.off v.val e in
    unfold byte_at in rw (load-ok h p.block ne r, none_there) refl
read_bytes-past h p (x ∷ rest) (suc n) a lt =
    rw
      (
        byte_at-Ahead h p x rest a,
        read_bytes-past h (plus p 1) rest n (Ahead-next h p x rest a) (omega arith),
      )
      refl

-- `push` and `pop` read past the block when the queue's name, of less than 1024 bytes, has more bytes than
-- there are from its start to the end of its chunk.
pub push-crosses :
    (o : Outside) (fd : ℕ) (a : Arg) (args : List Arg) (s : Server) (c : Cursor) (rest : List ℕ)
    → 0 < a.len
    → a.len < 1024
    → a.cursor ≡ some c
    → Ahead s.mem.chunks c.ptr rest
    → length rest < a.len
    → (push o fd (a ∷ args) s ≡ fault) × (pop o fd (a ∷ args) s ≡ fault)
unfolding push pop get_queue_name
push-crosses o fd a args s c rest some_text short e ahead past =
    let good : is_bad_name a ≡ false = ground arith in
    let over = read_bytes-past s.mem.chunks c.ptr rest a.len ahead past in
    (rw (good, e, over) refl, rw (good, e, over) refl)
