-- ===== src/Service.antt =====
-- One queue, served through the socket: requests for it, and what is promised of the replies.
pub mod Name
pub mod Messages
pub mod Memory
pub mod Serves
pub mod Push
pub mod Pop
pub mod Sequence
pub mod Opened
pub mod Start
mod Tests
use aoq.Prelude.{ℕ, ◌≡◌, ◌≢◌, false, none, some, List, [], ◌∷◌, ◌++◌, length, All}
use aoq.Heap.{Ptr, Run, ok, ◌>>=◌}
use aoq.CText.{is_space}
use aoq.Parser.Request.{request}
use aoq.Queue.Fifo.{Op, push, pop, Reply, pushed, popped}
use aoq.Func.{Read}
use aoq.Command.Answer.{value_text}
use aoq.Command.{one_byte, no_byte}
use aoq.Receive.{Aoq, World, socket_read_cb}

-- The bytes of `push` and `pop` for a queue, with any number for the length of the head.
abbrev pub push_bytes : ℕ → List ℕ → List ℕ → List ℕ
push_bytes hl name value = request hl 2 (name ∷ value ∷ []) (b'\n' ∷ [])

abbrev pub pop_bytes : ℕ → List ℕ → List ℕ
pop_bytes hl name = request hl 3 (name ∷ []) (b'\n' ∷ [])

-- The reply of `pop` with a value.
abbrev pub value_reply : List ℕ → List ℕ
value_reply value = value_text (length value) (value ++ b'\n' ∷ [])

-- What the connection is sent for a reply of the abstract queue. A `push` that is refused is told the same
-- as one that is not.
abbrev pub told : Reply (List ℕ) → List ℕ
told (pushed done) = one_byte b'2' b'1'
told (popped none) = no_byte b'3'
told (popped (some value)) = value_reply value

-- A name without blanks.
abbrev pub IsPlain : List ℕ → Type 0
IsPlain name = All (λ c. is_space c ≡ false) name
