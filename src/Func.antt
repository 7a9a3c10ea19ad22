-- ===== src/Func.antt =====
-- func.c: `trim`, `read_buffer`, `read_cmd` and `write_reply`.
pub mod Write
pub mod ReadCmd
mod Tests
use aoq.Prelude.{
  ℕ, zero, suc, ◌+◌, ◌-◌, Option, none, some, List, [], ◌∷◌, ◌++◌, ltb, ◌==◌, if◌then◌else◌,
  get_elem?, set, take, drop, length,
}
use aoq.Heap.{Run, ok, fault, stuck, ◌>>=◌, of_option}
use aoq.CText.{is_space, copy_to}

-- How far `s` moves: `while(isspace(*s) && *s != '\0') s++`. No blank is a `NUL`.
unfoldable pub leading : List ℕ → Run ℕ
leading [] = fault
leading (c ∷ s) = let more = leading s >>= (λ k. ok (suc k)) in if is_space c then more else ok 0

-- The second loop from `i` on, which counts from the new `s`.
unfoldable pub cut_end : ℕ → List ℕ → Run (List ℕ)
cut_end zero b = ok b
cut_end (suc i) b = do
  c ← of_option (get_elem? b (suc i))
  let rest : Run (List ℕ) = cut_end i (set b (suc i) 0)
  if is_space c then rest else ok b

-- The memory from the returned pointer on; `s` is the memory from the argument on. The source calls it
-- with `len > 0`. On a text of blanks alone `i` lies before the new `s`, and nothing is cut.
unfoldable pub trim : List ℕ → ℕ → Run (List ℕ)
unfolding leading cut_end
trim s len = do k ← leading s; cut_end (len - 1 - k) (drop k s)

-- How many bytes of `buf` go into the chunk, and the chunk then.
unfoldable pub read_buffer : List ℕ → List ℕ → ℕ → Run (ℕ × List ℕ)
unfolding copy_to
read_buffer buf chunk len =
    let cplen = if ltb len (length buf) then len else length buf in
    copy_to chunk 0 (take cplen buf) >>= λ c. ok (cplen, c)

-- What a call of `read` returns: bytes, at most the 17520 that it is asked for, which nothing here relies
-- on, and none of them when the other side has gone; -1 with `errno` one of
-- `EAGAIN`, `EWOULDBLOCK` and `EINTR`; or -1 with another one.
pub data Read : Type 0 where
  received : List ℕ → Read
  again failed : Read

-- The size of `command`.
abbrev pub command_size : ℕ
command_size = 1000010

-- `*(cmd-1)`
unfoldable pub last_byte : List ℕ → Run ℕ
last_byte [] = fault
last_byte (c ∷ []) = ok c
last_byte (c ∷ d ∷ s) = last_byte (d ∷ s)

-- `*cmd = '\0'` behind the bytes.
unfoldable pub end_command : List ℕ → Run (Option (List ℕ))
end_command got = if ltb (length got) command_size then ok (some got) else fault

-- The bytes that `read` puts behind `got`.
unfoldable pub put_behind : List ℕ → List ℕ → Run (List ℕ)
put_behind got s = if ltb command_size (length got + length s) then fault else ok (got ++ s)

-- `while(*(cmd-1) != '\n')`, with the bytes so far. `none` is the return of -1; where the list of what
-- `read` returns ends, the loop goes on waiting.
unfoldable pub read_rest : List Read → List ℕ → Run (Option (List ℕ))
unfolding last_byte end_command put_behind
read_rest [] got = last_byte got >>= λ b. if b == b'\n' then end_command got else stuck
read_rest (received [] ∷ reads) got =
    last_byte got >>= λ b. if b == b'\n' then end_command got else ok none
read_rest (received (c ∷ s) ∷ reads) got =
    let more = put_behind got (c ∷ s) >>= read_rest reads in
    last_byte got >>= λ b. if b == b'\n' then end_command got else more
read_rest (again ∷ reads) got =
    let more = read_rest reads got in
    last_byte got >>= λ b. if b == b'\n' then end_command got else more
read_rest (failed ∷ reads) got =
    last_byte got >>= λ b. if b == b'\n' then end_command got else ok none

unfoldable pub read_cmd : List Read → Run (Option (List ℕ))
unfolding read_rest put_behind
read_cmd [] = stuck
read_cmd (received [] ∷ reads) = ok none
read_cmd (received (c ∷ s) ∷ reads) = put_behind [] (c ∷ s) >>= read_rest reads
read_cmd (again ∷ reads) = read_cmd reads
read_cmd (failed ∷ reads) = ok none

-- What a call of `write` returns: how many bytes it has taken, or -1, as when a socket that does not block
-- has no room.
pub data Written : Type 0 where
  taken : ℕ → Written
  refused : Written

-- The loop of `write_reply` at the byte `total` of the buffer, over what the calls of `write` return; the
-- result is what the socket has taken. The loop adds a -1 as it is: `buf` and `total` move back by one, and
-- from the start they come in front of the buffer, where the next call reads.
unfoldable pub write_loop : List Written → List ℕ → ℕ → ℕ → Run (List ℕ)
write_loop [] buf total buflen = if ltb total buflen then stuck else ok []
write_loop (taken w ∷ ws) buf total buflen =
    let rest = write_loop ws buf (total + w) buflen in
    if ltb total buflen then rest >>= (λ t. ok (take w (drop total buf) ++ t)) else ok []
write_loop (refused ∷ ws) buf total buflen =
    let rest = write_loop ws buf (total - 1) buflen in
    if ltb total buflen then (if total == 0 then fault else rest) else ok []

unfoldable pub write_reply : List Written → List ℕ → ℕ → Run (List ℕ)
unfolding write_loop
write_reply ws buf buflen = write_loop ws buf 0 buflen
