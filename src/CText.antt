-- ===== src/CText.antt =====
-- The C library's text functions that the server uses, over the bytes of memory from a pointer on.
-- A byte is a number below 256. A list ends where the object ends, and a read past that is a fault.
pub mod Digits
pub mod Strings
pub mod Copy
use aoq.Prelude.{
  ℕ, zero, suc, ◌+◌, ◌-◌, ◌*◌, ◌/◌, ◌%◌, Bool, ◌&&◌, ◌||◌, List, [], ◌∷◌, ltb, leb, ◌==◌,
  if◌then◌else◌, take, drop, length, ◌++◌,
}
use aoq.Prelude.Int.{ℤ, pos, negsuc, ◌-ℤ◌}
use aoq.Heap.{Run, ok, fault, ◌>>=◌}

abbrev pub is_digit : ℕ → Bool
is_digit c = leb b'0' c && leb c b'9'

-- Blank, tab, newline, vertical tab, form feed, carriage return.
abbrev pub is_space : ℕ → Bool
is_space c = c == 32 || leb 9 c && leb c 13

unfoldable pub skip_spaces : List ℕ → List ℕ
skip_spaces [] = []
skip_spaces (c ∷ s) = if is_space c then skip_spaces s else c ∷ s

-- The digits at the front of the text; the next byte stops it.
unfoldable pub scan_digits : ℕ → List ℕ → Run ℕ
scan_digits acc [] = fault
scan_digits acc (c ∷ s) =
    let more = scan_digits (acc * 10 + (c - b'0')) s in if is_digit c then more else ok acc

scan_signed : List ℕ → Run ℤ
unfolding scan_digits
scan_signed [] = fault
scan_signed (c ∷ s) =
    if c == b'-'
    then scan_digits 0 s >>= (λ n. ok (pos 0 -ℤ pos n))
    else if c == b'+'
    then scan_digits 0 s >>= (λ n. ok (pos n))
    else scan_digits 0 (c ∷ s) >>= (λ n. ok (pos n))

-- `atoi`. The source calls it on at most six digits, or on an option's text.
unfoldable pub atoi : List ℕ → Run ℤ
unfolding skip_spaces scan_signed
atoi s = scan_signed (skip_spaces s)

-- The text before the `NUL`: what `strlen` counts, and `strcpy` and `%s` copy.
unfoldable pub c_string : List ℕ → Run (List ℕ)
c_string [] = fault
c_string (c ∷ s) = let more = c_string s in if c == 0 then ok [] else more >>= (λ t. ok (c ∷ t))

-- `memcpy` of `s` into the object `buf` at an offset.
unfoldable pub copy_to : List ℕ → ℕ → List ℕ → Run (List ℕ)
copy_to buf off s =
    if ltb (length buf) (off + length s)
    then fault
    else ok (take off buf ++ (s ++ drop (off + length s) buf))
