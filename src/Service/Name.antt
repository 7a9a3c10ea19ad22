-- ===== src/Service/Name.antt =====
-- The name of the queue that a request is for.
use aoq.Prelude.{
  ℕ, zero, suc, ◌-◌, ◌<◌, ap, ◌≡◌, refl, false, some, List, [], ◌∷◌, ◌++◌, arith, length,
  append_assoc, get_elem?,
}
use aoq.Heap.{ok, Heap}
use aoq.CText.{is_space}
use aoq.MemPool.{ChunkNode}
use aoq.Cursor.{Cursor}
use aoq.Cursor.Text.{Ahead, read_bytes-Ahead}
use aoq.Parser.{Arg}
use aoq.Func.{leading, cut_end, trim}
use aoq.Command.{get_queue_name}
use aoq.Service.{IsPlain}

get_elem?-append :
    (xs ys : List ℕ) (i : ℕ) → i < length xs → get_elem? (xs ++ ys) i ≡ get_elem? xs i
get_elem?-append [] ys i lt = absurd (omega arith)
get_elem?-append (x ∷ xs) ys zero lt = refl
get_elem?-append (x ∷ xs) ys (suc i) lt = get_elem?-append xs ys i (omega arith)

get_elem?-plain :
    (xs : List ℕ) (i : ℕ)
    → IsPlain xs
    → i < length xs
    → (c : ℕ) × (get_elem? xs i ≡ some c) × (is_space c ≡ false)
get_elem?-plain [] i h lt = absurd (omega arith)
get_elem?-plain (x ∷ xs) zero (e, h) lt = (x, refl, e)
get_elem?-plain (x ∷ xs) (suc i) (e, h) lt = get_elem?-plain xs i h (omega arith)

leading-plain : (x : ℕ) (xs : List ℕ) → is_space x ≡ false → leading (x ∷ xs) ≡ ok 0
unfolding leading
leading-plain x xs e = rw e

cut_end-plain :
    (i : ℕ) (xs ys : List ℕ) → IsPlain xs → i < length xs → cut_end i (xs ++ ys) ≡ ok (xs ++ ys)
unfolding cut_end
cut_end-plain zero xs ys h lt = refl
cut_end-plain (suc i) xs ys h lt =
    let (c, e, plain) = get_elem?-plain xs (suc i) h lt in
    rw (get_elem?-append xs ys (suc i) lt, e, plain)

trim-plain :
    (x : ℕ) (xs ys : List ℕ)
    → IsPlain (x ∷ xs)
    → trim ((x ∷ xs) ++ ys) (length (x ∷ xs)) ≡ ok ((x ∷ xs) ++ ys)
unfolding trim
trim-plain x xs ys h =
    let e : suc (length xs) - 1 - 0 ≡ length xs = omega arith in
    rw (leading-plain x (xs ++ ys) h.0, e) (cut_end-plain (length xs) (x ∷ xs) ys h (omega arith))

-- Where a name without blanks stands at the argument, that is the queue's name.
pub get_queue_name-plain :
    (beyond : List ℕ) (h : Heap ChunkNode) (name rest : List ℕ) (a : Arg)
    → IsPlain name
    → 0 < length name
    → a.len ≡ length name
    → (c : Cursor) × (a.cursor ≡ some c) × Ahead h c.ptr (name ++ rest)
    → get_queue_name beyond h a ≡ ok (name ++ 0 ∷ beyond)
unfolding get_queue_name
get_queue_name-plain beyond h [] rest a plain lt el at' = absurd (omega arith)
get_queue_name-plain beyond h (x ∷ name) rest a plain lt el (c, ec, ahead) =
    rw (ec, el, read_bytes-Ahead h c.ptr (x ∷ name) rest ahead, trim-plain x name (0 ∷ []) plain)
      (ap (λ t. ok (x ∷ t)) (append_assoc name (0 ∷ []) beyond))
