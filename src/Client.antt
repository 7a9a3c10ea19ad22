-- ===== src/Client.antt =====
-- aoq-client.c: the line that the user types is turned into a request.
pub mod Push
pub mod Sent
pub mod Session
pub mod Host
mod Tests
use aoq.Prelude.{
  ℕ, zero, suc, ◌+◌, ◌-◌, ◌^◌, Bool, ◌||◌, ◌&&◌, List, [], ◌∷◌, ◌++◌, map, ltb, leb, ◌==◌,
  if◌then◌else◌, take, drop, length, replicate, codes,
}
use aoq.Prelude.Int.{ℤ, pos, negsuc, ◌+ℤ◌, ◌*ℤ◌, ltb_ℤ}
use aoq.Heap.{Run, ok, fault, stuck, ◌>>=◌}
use aoq.CText.{c_string, copy_to, atoi}
use aoq.CText.Digits.{six_digits}

-- A `char`, which is signed.
abbrev pub char_of : ℕ → ℤ
char_of c = if ltb c 128 then pos c else negsuc (255 - c)

abbrev pub is_long : ℤ → Bool
is_long (pos n) = ltb n (2 ^ 63)
is_long (negsuc n) = ltb n (2 ^ 63)

-- `num = num*10 + *name++`, where a `long` may overflow.
unfoldable pub name2num_loop : ℤ → List ℕ → Run ℤ
name2num_loop num [] = ok num
name2num_loop num (c ∷ name) =
    let n = num *ℤ pos 10 +ℤ char_of c in
    let more = name2num_loop n name in if is_long n then more else fault

unfoldable pub command_name2num : List ℕ → Run ℤ
unfolding name2num_loop
command_name2num name = name2num_loop (pos 0) name

-- `tolower` of each byte.
abbrev pub to_lower : ℕ → ℕ
to_lower c = if leb b'A' c && leb c b'Z' then c + 32 else c

unfoldable pub str2lower : List ℕ → List ℕ
str2lower s = map to_lower s

-- `while(i<len && !stops(*m))`: how far `m` and `i` move. The number is `len - i`.
unfoldable pub scan : (ℕ → Bool) → List ℕ → ℕ → Run ℕ
scan stops m zero = ok 0
scan stops [] (suc n) = fault
scan stops (c ∷ m) (suc n) =
    let more = scan stops m n >>= (λ j. ok (suc j)) in if stops c then ok 0 else more

-- What `protocol_convert` does: it returns 1 with the bytes to send; it returns -1, with a block for them or,
-- when it does not know the command, without; it prints the help and returns 1 without a block; or it
-- leaves the program.
pub data Converted : Type 0 where
  sent : List ℕ → Converted
  refused unknown helped quit : Converted

-- The case of `push`, behind its name: `m` is the memory, and `i` the place in the line.
unfoldable pub convert_push : List ℕ → ℕ → ℕ → Run Converted
unfolding scan
convert_push m i len = do
  j ← scan (λ c. c == 32) m (len - i)
  let left = len - (i + j)
  if ltb 2 left
      then (do
        let size = len + 18
        let head = codes "1702" ++ (six_digits j ++ (six_digits (left - 2) ++ 32 ∷ []))
        b₁ ← copy_to (replicate size 0) 0 (head ++ 0 ∷ [])
        b₂ ← copy_to b₁ 17 (take j m)
        b₃ ← copy_to b₂ (17 + j) (take (left - 1) (drop (j + 1) m))
        b₄ ← copy_to b₃ (17 + j + (left - 1)) (b'\n' ∷ [])
        ok (sent b₄))
      else ok refused

-- The cases of `pop`, `queue` and `delqueue`, which differ in the first four bytes.
unfoldable pub convert_name : List ℕ → List ℕ → ℕ → ℕ → Run Converted
unfolding scan
convert_name command m i len = do
  j ← scan (λ c. c == 0) m (len - i)
  if ltb 1 j
      then (do
        let size = len + 12
        b₁ ← copy_to (replicate size 0) 0 (command ++ (six_digits (j - 1) ++ 32 ∷ 0 ∷ []))
        b₂ ← copy_to b₁ 11 (take (j - 1) m)
        b₃ ← copy_to b₂ (11 + (j - 1)) (b'\n' ∷ [])
        ok (sent b₃))
      else ok refused

-- `sprintf` of a text into a block of six bytes.
unfoldable pub convert_fixed : List ℕ → Run Converted
convert_fixed text = copy_to (replicate 6 0) 0 (text ++ 0 ∷ []) >>= λ b. ok (sent b)

-- The `switch`, on the number of the name.
unfoldable pub convert : ℤ → List ℕ → ℕ → ℕ → Run Converted
unfolding convert_push convert_name convert_fixed
convert (negsuc _) m i len = ok unknown
convert (pos n) m i len =
    if n == 115292
    then ok helped
    else if n == 12769885
    then convert_fixed (codes "0501 \n")
    else if n == 124954
    then convert_push m i len
    else if n == 12422
    then convert_name (codes "1103") m i len
    else if n == 12583825
    then convert_fixed (codes "0504 ")
    else if n == 1258371
    then convert_name (codes "1105") m i len
    else if n == 1113058371
    then convert_name (codes "1006") m i len
    else if n == 125866
    then ok quit
    else ok unknown

-- The memory from `msg` on. `i` is read before anything is stored in it: the first argument is what it
-- happens to hold, when that is not negative.
unfoldable pub protocol_convert : ℕ → List ℕ → Run Converted
unfolding scan convert
protocol_convert start msg = do
  line ← c_string msg
  let len = length line
  j ← scan (λ c. c == 32 || c == b'\n') msg (len - start)
  let i = start + j
  command_str ← c_string (take i msg ++ 0 ∷ [])
  num ← command_name2num (str2lower command_str)
  convert num (drop (j + 1) msg) (i + 1) len

-- The client's `parse_head_len`, which reads on behind its block of two bytes.
unfoldable pub client_head_len : List ℕ → List ℕ → Run ℤ
client_head_len beyond msg = atoi (take 2 msg ++ beyond)

-- What `bufferevent_read` leaves in the buffer of 1024 bytes.
abbrev pub read_over : List ℕ → List ℕ → Run (List ℕ)
read_over piece msg = copy_to msg 0 piece

-- `while(len == 1024)` of `server_msg_cb`, with what the reads give: what is printed.
unfoldable pub print_loop : List (List ℕ) → ℕ → List ℕ → Run (List ℕ)
unfolding copy_to
print_loop [] len msg = if len == 1024 then stuck else ok []
print_loop (piece ∷ pieces) len msg =
    let more : Run (List ℕ) = (do
      msg' ← read_over piece msg
      text ← c_string msg'
      rest ← print_loop pieces (length piece) msg'
      ok (text ++ rest)) in
    if len == 1024 then more else ok []

unfoldable pub server_msg_cb : List ℕ → List ℕ → List (List ℕ) → Run (List ℕ)
unfolding print_loop copy_to
server_msg_cb beyond piece pieces = do
  msg ← read_over piece (replicate 1024 0)
  n ← client_head_len beyond msg
  text ← (elim n [ pos k ↦ c_string (drop k msg) | negsuc _ ↦ fault ])
  rest ← print_loop pieces (length piece) msg
  ok (text ++ rest)
