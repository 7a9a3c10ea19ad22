-- ===== src/Client/Sent.antt =====
-- What the client sends for `push`, at the server.
use aoq.Prelude.{
  ℕ, ◌+◌, ◌<◌, ◌≤◌, ◌≡◌, refl, ◌≢◌, some, List, [], ◌∷◌, ◌++◌, arith, length, replicate, All,
  length-append, append_assoc,
}
use aoq.Prelude.Int.{pos}
use aoq.Heap.{Ptr, null, ok, stuck, read}
use aoq.CText.Copy.{nuls}
use aoq.CText.Digits.{Stops, six_digits}
use aoq.MemPool.{Mem, MemSlab}
use aoq.Cursor.{at}
use aoq.Cursor.Text.{Ahead}
use aoq.Parser.{Arg, parsed, parse_args}
use aoq.Parser.Request.{IsText, located, parse_args-request}
use aoq.Func.{received, again, last_byte, read_cmd}
use aoq.Func.ReadCmd.{read_cmd-waits}
use aoq.Client.{sent, protocol_convert}
use aoq.Client.Push.{IsName, pushed, push_line, protocol_convert-push}

-- When the `i` that `protocol_convert` does not set happens to hold 0, the client sends the line
-- `push`, a name, a blank, a value and a newline as bytes with which the server's parser, when they
-- stand in the first chunk of a slab, returns 1, the command 2, and the name and the value as the
-- arguments; no memory is freed or written. The name has neither blank nor `NUL`, the value no `NUL`;
-- neither is empty, both are shorter than a million bytes and than the fuel, which is above 2; there
-- are at least two entries in the array; and what memory holds behind the two-byte blocks starts with
-- no digit.
pub parse_args-push :
    (beyond behind more : List ℕ) (fuel : ℕ) (slab : Ptr) (m : Mem) (args : List Arg) (s : MemSlab)
    (name value : List ℕ)
    → Stops beyond
    → 2 < fuel
    → slab ≢ null
    → read m.slabs slab ≡ some s
    → Ahead m.chunks (at s.head_next 0) (pushed name value more)
    → IsName name
    → IsText fuel name
    → IsText fuel value
    → length name < 1000000
    → length value < 1000000
    → 2 ≤ length args
    → (protocol_convert 0 (push_line name value ++ 0 ∷ behind) ≡ ok (sent (pushed name value [])))
      × (parse_args beyond fuel slab m args
          ≡ ok (record {
            outcome = parsed;
            command_num = pos 2;
            args =
                located
                  (record { ptr = at s.head_next 17; node = s.head_next; slab = slab })
                  (name ∷ value ∷ [])
                  args;
            mem = m;
          }))
parse_args-push beyond behind more fuel slab m args s name value stop enough ne rs text is nt vt n v
      room =
    (
      protocol_convert-push name value behind is vt.2 vt.0,
      parse_args-request beyond fuel slab m args s 17 2 (name ∷ value ∷ []) _ stop enough ne rs text
          (omega arith) (omega arith) (omega arith) (omega arith) (nt, (vt, tt)) (n, (v, tt))
          (omega arith) (omega arith) room,
    )

last_byte-append :
    (t s : List ℕ) (b c : ℕ) → last_byte (c ∷ s) ≡ ok b → last_byte (t ++ c ∷ s) ≡ ok b
unfolding last_byte
last_byte-append [] s b c e = e
last_byte-append (d ∷ []) s b c e = e
last_byte-append (d ∷ f ∷ t) s b c e = last_byte-append (f ∷ t) s b c e

-- What stands in front of the texts of a `push` request.
abbrev head_of : List ℕ → List ℕ → List ℕ
head_of name value =
    b'7'
    ∷ b'0'
    ∷ b'2'
    ∷ (six_digits (length name) ++ (six_digits (length value) ++ 32 ∷ (name ++ value)))

pushed-head :
    (name value : List ℕ)
    → pushed name value [] ≡ b'1' ∷ (head_of name value ++ b'\n' ∷ b'\n' ∷ nuls 6)
pushed-head name value = simp (append_assoc)

-- When the `i` that `protocol_convert` does not set happens to hold 0, and the bytes that the client
-- sends for a `push` come in one read, then `read_cmd` does not return while nothing more arrives,
-- however often `read` is called, since the last byte is no newline. The name has neither blank nor
-- `NUL`, the value no `NUL`, and it is not empty; the bytes are no more than the 17520 that a read
-- asks for.
pub read_cmd-push :
    (name value behind : List ℕ) (n : ℕ)
    → IsName name
    → All (λ c. c ≢ 0) value
    → 0 < length value
    → length name + length value + 25 ≤ 17520
    → (bytes : List ℕ) × (protocol_convert 0 (push_line name value ++ 0 ∷ behind) ≡ ok (sent bytes))
      × (read_cmd (received bytes ∷ replicate n again) ≡ stuck)
read_cmd-push name value behind n is vz some_value fits =
    let head = b'1' ∷ head_of name value in
    (
      pushed name value [],
      protocol_convert-push name value behind is vz some_value,
      rw (pushed-head name value) (
          read_cmd-waits b'1' (head_of name value ++ b'\n' ∷ b'\n' ∷ nuls 6) 0 n
            (last_byte-append head (b'\n' ∷ nuls 6) 0 b'\n' (unfold last_byte in refl))
            (omega arith)
            (omega (arith, length-append head (b'\n' ∷ b'\n' ∷ nuls 6), length-append name value))),
    )
