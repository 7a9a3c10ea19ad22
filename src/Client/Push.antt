-- ===== src/Client/Push.antt =====
-- The line `push NAME DATA`, from the client to the parser.
use aoq.Prelude.{
  ℕ, zero, suc, ◌+◌, ◌-◌, ◌<◌, ◌∙◌, ap, ◌≡◌, refl, ◌≢◌, Bool, true, false, List, [], ◌∷◌, ◌++◌,
  arith, length, take, drop, All, ltb, ◌==◌, ◌||◌, append_assoc, append-nil, length-append, codes,
  lt→ltb,
}
use mathlib.Core.Path.{subst}
use aoq.Prelude.Int.{pos, ◌+ℤ◌, ◌*ℤ◌}
use aoq.Heap.{ok}
use aoq.CText.{c_string, copy_to}
use aoq.CText.Strings.{c_string-text}
use aoq.CText.Copy.{nuls, All-append, copy_to-zeros, drop-append, take-append}
use aoq.CText.Digits.{six_digits}
use aoq.Parser.Request.{request}
use aoq.Client.{
  sent, scan, convert_push, convert, command_name2num, name2num_loop, str2lower, protocol_convert,
}

scan-stop :
    (stops : ℕ → Bool) (s m : List ℕ) (c n : ℕ)
    → All (λ c. stops c ≡ false) s
    → stops c ≡ true
    → length s < n
    → scan stops (s ++ c ∷ m) n ≡ ok (length s)
unfolding scan
scan-stop stops s m c zero h e lt = absurd (omega arith)
scan-stop stops [] m c (suc n) h e lt = rw e
scan-stop stops (d ∷ s) m c (suc n) (hd, h) e lt =
    rw (hd, scan-stop stops s m c n h e (omega arith))

-- `copy_to` at the end of the text so far.
copy_at :
    (text s : List ℕ) (off n k : ℕ)
    → off ≡ length text
    → n ≡ length s + k
    → copy_to (text ++ nuls n) off s ≡ ok ((text ++ s) ++ nuls k)
copy_at text s off n k eo en = rw (eo, en) (copy_to-zeros text s k)

abbrev push_head : List ℕ → List ℕ → List ℕ
push_head name value =
    codes "1702" ++ (six_digits (length name) ++ (six_digits (length value) ++ 32 ∷ []))

-- `convert_push` is its parts in turn.
convert_push-parts :
    (m : List ℕ) (i len j v : ℕ) (b₁ b₂ b₃ b₄ : List ℕ)
    → scan (λ c. c == 32) m (len - i) ≡ ok j
    → len - (i + j) ≡ v + 2
    → 0 < v
    → copy_to
        (nuls (len + 18))
        0
        ((codes "1702" ++ (six_digits j ++ (six_digits v ++ 32 ∷ []))) ++ 0 ∷ [])
      ≡ ok b₁
    → copy_to b₁ 17 (take j m) ≡ ok b₂
    → copy_to b₂ (17 + j) (take (v + 1) (drop (j + 1) m)) ≡ ok b₃
    → copy_to b₃ (17 + j + (v + 1)) (b'\n' ∷ []) ≡ ok b₄
    → convert_push m i len ≡ ok (sent b₄)
unfolding convert_push
convert_push-parts m i len j v b₁ b₂ b₃ b₄ es el lt e₁ e₂ e₃ e₄ =
    let some_left : ltb 2 (len - (i + j)) ≡ true = lt→ltb 2 (len - (i + j)) (omega arith) in
    let lv : len - (i + j) - 2 ≡ v = omega arith in
    let ln : len - (i + j) - 1 ≡ v + 1 = omega arith in rw (es, some_left, lv, ln, e₁, e₂, e₃, e₄)

-- The line behind `push `.
abbrev words : List ℕ → List ℕ → List ℕ → List ℕ
words name value rest = name ++ 32 ∷ (value ++ b'\n' ∷ rest)

take-value :
    (name value rest : List ℕ)
    → take (length value + 1) (drop (length name + 1) (words name value rest)) ≡ value ++ b'\n' ∷ []
take-value name value rest =
    let n : length (value ++ b'\n' ∷ []) ≡ length value + 1 =
      omega (arith, length-append value (b'\n' ∷ [])) in
    rw (drop-append name (32 ∷ (value ++ b'\n' ∷ rest)) 1) (
      subst (λ k. take k (value ++ b'\n' ∷ rest) ≡ value ++ b'\n' ∷ []) n
        (subst (λ t. take (length (value ++ b'\n' ∷ [])) t ≡ value ++ b'\n' ∷ [])
          (append_assoc value (b'\n' ∷ []) rest) (take-append (value ++ b'\n' ∷ []) rest)))

regroup :
    (name value z : List ℕ)
    → ((name ++ (value ++ b'\n' ∷ [])) ++ b'\n' ∷ []) ++ z
      ≡ (name ++ (value ++ [])) ++ b'\n' ∷ b'\n' ∷ z
regroup name value z = simp (append_assoc, append-nil)

-- The bytes of a `push` request as the client sends them, and what memory holds behind them.
abbrev pub pushed : List ℕ → List ℕ → List ℕ → List ℕ
pushed name value beyond = request 17 2 (name ∷ value ∷ []) (b'\n' ∷ b'\n' ∷ (nuls 6 ++ beyond))

convert_push-request :
    (name value rest : List ℕ)
    → All (λ c. (c == 32) ≡ false) name
    → 0 < length value
    → convert_push (words name value rest) 5 (7 + length name + length value)
      ≡ ok (sent (pushed name value []))
convert_push-request name value rest no_blank some_value =
    let head = push_head name value in
    let text = value ++ b'\n' ∷ [] in
    let n : length text ≡ length value + 1 = omega (arith, length-append value (b'\n' ∷ [])) in
    convert_push-parts (words name value rest) 5 (7 + length name + length value) (length name)
      (length value) (head ++ nuls (length name + length value + 8))
      ((head ++ name) ++ nuls (length value + 8)) (((head ++ name) ++ text) ++ nuls 7)
      ((((head ++ name) ++ text) ++ b'\n' ∷ []) ++ nuls 6)
      (scan-stop (λ c. c == 32) name (value ++ b'\n' ∷ rest) 32 _ no_blank refl (omega arith))
      (omega arith) some_value
      (copy_at [] (head ++ 0 ∷ []) 0 (7 + length name + length value + 18)
          (length name + length value + 7) refl (omega arith)
        ∙ ap (λ (k : ℕ). ok (head ++ nuls k)) {x = suc (length name + length value + 7)}
            {y = length name + length value + 8} (omega arith))
      (rw (take-append name (32 ∷ (value ++ b'\n' ∷ rest)))
        (copy_at head name 17 _ (length value + 8) refl (omega arith)))
      (rw (take-value name value rest) (
        copy_at (head ++ name) text (17 + length name) _ 7 (omega (arith, length-append head name))
          (omega arith)))
      (copy_at ((head ++ name) ++ text) (b'\n' ∷ []) _ 7 6
        (omega (arith, length-append (head ++ name) text, length-append head name)) refl)
    ∙ ap (λ t. ok (sent (head ++ t))) (regroup name value (nuls 6))

name2num-push : command_name2num (str2lower (codes "push")) ≡ ok (pos 124954)
unfolding command_name2num name2num_loop str2lower ◌+ℤ◌ ◌*ℤ◌
name2num-push = refl

abbrev pub push_line : List ℕ → List ℕ → List ℕ
push_line name value = codes "push " ++ words name value []

protocol_convert-parts :
    (msg line text : List ℕ) (j n : ℕ)
    → c_string msg ≡ ok line
    → scan (λ c. (c == 32) || (c == b'\n')) msg (length line) ≡ ok j
    → c_string (take j msg ++ 0 ∷ []) ≡ ok text
    → command_name2num (str2lower text) ≡ ok (pos n)
    → protocol_convert 0 msg ≡ convert (pos n) (drop (j + 1) msg) (j + 1) (length line)
unfolding protocol_convert
protocol_convert-parts msg line text j n el es et en =
    let e₀ : length line - 0 ≡ length line = omega arith in
    let e₁ : 0 + j ≡ j = omega arith in rw (el, e₀, es, e₁, et, en)

to_push : (m : List ℕ) (len : ℕ) → convert (pos 124954) m 5 len ≡ convert_push m 5 len
unfolding convert
to_push m len = refl

-- A text without a `NUL`, and a name, which has no blank either.
abbrev pub IsName : List ℕ → Type 0
IsName name = All (λ c. c ≢ 0) name × All (λ c. (c == 32) ≡ false) name

push_line-text :
    (name value : List ℕ)
    → All (λ c. c ≢ 0) name
    → All (λ c. c ≢ 0) value
    → All (λ c. c ≢ 0) (push_line name value)
push_line-text name value nz vz =
    All-append (codes "push ") (words name value [])
      (omega arith, (omega arith, (omega arith, (omega arith, (omega arith, tt)))))
      (All-append name (32 ∷ (value ++ b'\n' ∷ [])) nz
        (omega arith, All-append value (b'\n' ∷ []) vz (omega arith, tt)))

length-push_line :
    (name value : List ℕ) → length (push_line name value) ≡ 7 + length name + length value
length-push_line name value =
    omega (arith, length-append name (32 ∷ (value ++ b'\n' ∷ [])), length-append value (b'\n' ∷ []))

-- On the line `push`, a name, a blank, a value and a newline, behind which stands a `NUL`, the client
-- sends the request of the command 2 with the name and the value as its arguments, a newline besides the
-- line's own, and six `NUL`s; the name has neither blank nor `NUL`, the value no `NUL`, and it is not empty.
pub protocol_convert-push :
    (name value beyond : List ℕ)
    → IsName name
    → All (λ c. c ≢ 0) value
    → 0 < length value
    → protocol_convert 0 (push_line name value ++ 0 ∷ beyond) ≡ ok (sent (pushed name value []))
protocol_convert-push name value beyond (nz, no_blank) vz some_value =
    let line = push_line name value in
    let n = length-push_line name value in
    let rest : words name value [] ++ 0 ∷ beyond ≡ words name value (0 ∷ beyond) =
      simp (append_assoc) in
    protocol_convert-parts (line ++ 0 ∷ beyond) line (codes "push") 4 124954
      (c_string-text line beyond (push_line-text name value nz vz))
      (scan-stop (λ c. (c == 32) || (c == b'\n')) (codes "push") _ 32 (length line)
        (refl, (refl, (refl, (refl, tt)))) refl (omega (arith, n)))
      (c_string-text (codes "push") []
        (omega arith, (omega arith, (omega arith, (omega arith, tt)))))
      name2num-push
    ∙ rw (rest, n) (to_push (words name value (0 ∷ beyond)) (7 + length name + length value))
    ∙ convert_push-request name value (0 ∷ beyond) no_blank some_value
