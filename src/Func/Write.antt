-- ===== src/Func/Write.antt =====
-- The loop of `write_reply`.
use aoq.Prelude.{
  ℕ, zero, suc, ◌+◌, ◌-◌, ◌≤◌, ◌<◌, ◌∙◌, sym, ◌≡◌, refl, ap, true, false, List, [], ◌∷◌, ◌++◌,
  arith, take, drop, ltb, ◌==◌, append_assoc, append-nil,
}
use mathlib.Core.Path.{subst}
use aoq.Heap.{ok, fault}
use aoq.Func.{Written, taken, refused, write_loop, write_reply}

-- The calls of `write` take `n` bytes together, each of them at least one and no more than are left.
abbrev pub Takes : List ℕ → ℕ → Type 0
Takes [] n = n ≡ 0
Takes (w ∷ wlens) n = (1 ≤ w) × (w ≤ n) × Takes wlens (n - w)

-- Calls that take something, and then those of `ws`.
abbrev pub taking : List ℕ → List Written → List Written
taking [] ws = ws
taking (w ∷ wlens) ws = taken w ∷ taking wlens ws

take-nil : (n : ℕ) → take {A = ℕ} n [] ≡ []
take-nil zero = refl
take-nil (suc n) = refl

drop-nil : (n : ℕ) → drop {A = ℕ} n [] ≡ []
drop-nil zero = refl
drop-nil (suc n) = refl

take-drop : (w n : ℕ) (buf : List ℕ) → w ≤ n → take w buf ++ take (n - w) (drop w buf) ≡ take n buf
take-drop zero n buf le = let e : n - 0 ≡ n = omega arith in rw e refl
take-drop (suc w) zero buf le = absurd (omega arith)
take-drop (suc w) (suc n) [] le = take-nil (suc n - suc w)
take-drop (suc w) (suc n) (c ∷ buf) le =
    let e : suc n - suc w ≡ n - w = omega arith in
    rw e (ap (λ s. c ∷ s) (take-drop w n buf (omega arith)))

drop-drop : (i w : ℕ) (buf : List ℕ) → drop w (drop i buf) ≡ drop (i + w) buf
drop-drop zero w buf = let e : 0 + w ≡ w = omega arith in rw e refl
drop-drop (suc i) w [] = drop-nil w ∙ sym (drop-nil (suc i + w))
drop-drop (suc i) w (c ∷ buf) =
    let e : suc i + w ≡ suc (i + w) = omega arith in rw e (drop-drop i w buf)

write_loop-taken :
    (w i n : ℕ) (ws : List Written) (buf t : List ℕ)
    → i < n
    → write_loop ws buf (i + w) n ≡ ok t
    → write_loop (taken w ∷ ws) buf i n ≡ ok (take w (drop i buf) ++ t)
unfolding write_loop
write_loop-taken w i n ws buf t lt run =
    let more : ltb i n ≡ true = ground arith in rw (more, run) refl

write_loop-Takes :
    (wlens : List ℕ) (ws : List Written) (buf t : List ℕ) (i k n : ℕ)
    → Takes wlens k
    → i + k ≤ n
    → write_loop ws buf (i + k) n ≡ ok t
    → write_loop (taking wlens ws) buf i n ≡ ok (take k (drop i buf) ++ t)
write_loop-Takes [] ws buf t i k n e le run =
    let j : i + k ≡ i = omega arith in rw e (subst (λ x. write_loop ws buf x n ≡ ok t) j run)
write_loop-Takes (w ∷ wlens) ws buf t i k n (some_byte, wk, left) le run =
    let j : i + k ≡ i + w + (k - w) = omega arith in
    let later =
      write_loop-Takes wlens ws buf t (i + w) (k - w) n left (omega arith)
        (subst (λ x. write_loop ws buf x n ≡ ok t) j run) in
    write_loop-taken w i n (taking wlens ws) buf _ (omega arith) later
    ∙ ap ok (
        sym (append_assoc (take w (drop i buf)) (take (k - w) (drop (i + w) buf)) t)
        ∙ ap (λ s. s ++ t)
            (ap (λ s. take w (drop i buf) ++ take (k - w) s) (sym (drop-drop i w buf))
              ∙ take-drop w k (drop i buf) wk))

write_loop-end : (buf : List ℕ) (n : ℕ) → write_loop [] buf n n ≡ ok []
unfolding write_loop
write_loop-end buf n = let done : ltb n n ≡ false = ground arith in rw done refl

write_loop-all :
    (wlens : List ℕ) (buf : List ℕ) (i k n : ℕ)
    → Takes wlens k
    → i + k ≡ n
    → write_loop (taking wlens []) buf i n ≡ ok (take k (drop i buf))
write_loop-all wlens buf i k n t e =
    write_loop-Takes wlens [] buf [] i k n t (omega arith) (rw e (write_loop-end buf n))
    ∙ ap ok (append-nil (take k (drop i buf)))

write_loop-refused :
    (ws : List Written) (buf t : List ℕ) (i n : ℕ)
    → 0 < i
    → i < n
    → write_loop ws buf (i - 1) n ≡ ok t
    → write_loop (refused ∷ ws) buf i n ≡ ok t
unfolding write_loop
write_loop-refused ws buf t i n some_byte lt run =
    let more : ltb i n ≡ true = ground arith in
    let inside : i == 0 ≡ false = ground arith in rw (more, inside) run

write_loop-before :
    (ws : List Written) (buf : List ℕ) (n : ℕ) → 0 < n → write_loop (refused ∷ ws) buf 0 n ≡ fault
unfolding write_loop
write_loop-before ws buf n lt = let more : ltb 0 n ≡ true = ground arith in rw more refl

-- When every call of `write` takes at least one of the bytes that are left, and no more than those,
-- `write_reply` returns, and the first `n` bytes of the buffer have gone out in order. When a call returns -1
-- behind `k` of the bytes, and the others take what the loop then goes on with, it returns, too, but the
-- byte in front of the place has gone out a second time; and when the first call returns -1, the
-- loop reads in front of the buffer.
pub write_reply-Takes :
    (wlens before after : List ℕ) (ws : List Written) (buf : List ℕ) (n k : ℕ)
    → Takes wlens n
    → 0 < k
    → k < n
    → Takes before k
    → Takes after (n - (k - 1))
    → (write_reply (taking wlens []) buf n ≡ ok (take n buf))
      × (write_reply (taking before (refused ∷ taking after [])) buf n
          ≡ ok (take k buf ++ take (n - (k - 1)) (drop (k - 1) buf)))
      × (write_reply (refused ∷ ws) buf n ≡ fault)
unfolding write_reply
write_reply-Takes wlens before after ws buf n k whole some_byte lt first rest =
    let j : 0 + k ≡ k = omega arith in
    (
      write_loop-all wlens buf 0 n n whole (omega arith),
      write_loop-Takes before (refused ∷ taking after []) buf _ 0 k n first (omega arith) (
          rw j (
            write_loop-refused (taking after []) buf _ k n some_byte lt
              (write_loop-all after buf (k - 1) (n - (k - 1)) n rest (omega arith)))),
      write_loop-before ws buf n (omega arith),
    )
