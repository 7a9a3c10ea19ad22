-- ===== src/Command/Answer.antt =====
-- The text that `pop` answers with: the message's second argument in its chunks.
use aoq.Prelude.{
  ℕ, zero, suc, ◌+◌, ◌≤◌, ◌<◌, ◌≡◌, refl, ◌≢◌, ◌||◌, false, some, List, [], ◌∷◌, ◌++◌, arith,
  length, All, get_elem?, ltb, ◌==◌,
}
use aoq.Heap.{Ptr, null, ok, Heap, read, load-ok}
use aoq.Heap.Chain.{node, Cells, Chain, first}
use aoq.CText.Strings.{c_string-text}
use aoq.CText.Digits.{six_digits}
use aoq.AoqLog.Buffer.{Texts}
use aoq.MemPool.{Chunk, ChunkNode}
use aoq.Cursor.{Cursor}
use aoq.Cursor.Text.{Ahead}
use aoq.Parser.{Arg}
use aoq.Command.{response_size, message_reply, chunks_behind}

-- `"1103%06d "` with the length, and the text behind it.
abbrev pub value_text : ℕ → List ℕ → List ℕ
value_text len text = b'1' ∷ b'1' ∷ b'0' ∷ b'3' ∷ (six_digits len ++ 32 ∷ text)

-- The second of the arguments has the length `len` and its text at its cursor: `text`, the front of which
-- ends the chunk at the cursor's node, and the rest of which stands in the chunks behind that. These are
-- fewer than the fuel, and the reply fits its buffer.
pub record Says (fuel : ℕ) (h : Heap ChunkNode) (args : List Arg) (len : ℕ) (text : List ℕ)
    : Type 0 where
  pub arg : Arg
  pub cursor : Cursor
  pub front : List ℕ
  pub behind : List ℕ
  pub chunk : Chunk
  pub rest : Cells Chunk
  pub r : List ℕ
  pub second : get_elem? args 1 ≡ some arg
  pub length_is : arg.len ≡ len
  pub located : arg.cursor ≡ some cursor
  pub ahead : Ahead h cursor.ptr (front ++ 0 ∷ behind)
  pub no_nul : All (λ c. c ≢ 0) front
  pub ne_null : cursor.node ≢ null
  pub here : read h cursor.node ≡ some (node chunk (first rest))
  pub chain : Chain h rest
  pub texts : Texts rest r
  pub few : length rest < fuel
  pub whole : front ++ r ≡ text
  pub len_fits : len + 12 ≤ response_size
  pub text_fits : length text + 12 ≤ response_size

chunks_behind-Texts :
    (fuel : ℕ) (h : Heap ChunkNode) (p : Ptr) (v : Chunk) (rest : Cells Chunk) (r : List ℕ)
    → p ≢ null
    → read h p ≡ some (node v (first rest))
    → Chain h rest
    → Texts rest r
    → length rest < fuel
    → chunks_behind fuel h p ≡ ok r
unfolding chunks_behind
chunks_behind-Texts zero h p v rest r ne here chain texts lt = absurd (omega arith)
chunks_behind-Texts (suc fuel) h p v [] r ne here chain texts lt =
    rw (load-ok h p ne here, texts) refl
chunks_behind-Texts (suc fuel) h p v ((q, w) ∷ rest) r ne here (ne', there, out, chain)
      (u, beyond, r', ew, nz, er, texts) lt =
    let more : q == null ≡ false = ground arith in
    let later = chunks_behind-Texts fuel h q w rest r' ne' there chain texts (omega (arith, lt)) in
    rw (load-ok h p ne here, more, load-ok h q ne' there, ew, c_string-text u beyond nz, later, er)

pub message_reply-Says :
    (fuel : ℕ) (h : Heap ChunkNode) (args : List Arg) (len : ℕ) (text : List ℕ)
    → Says fuel h args len text
    → message_reply fuel h args ≡ ok (value_text len text)
unfolding message_reply
message_reply-Says fuel h args len text s =
    let (ne, n, there, e) = s.ahead in
    let rest =
      chunks_behind-Texts fuel h s.cursor.node s.chunk s.rest s.r s.ne_null s.here s.chain s.texts
        s.few in
    let fits : ltb response_size (len + 12) || ltb response_size (length (value_text len text) + 1)
        ≡ false =
      let a = s.len_fits in let b = s.text_fits in ground arith in
    rw (
      s.second,
      s.located,
      load-ok h s.cursor.ptr.block ne there,
      e,
      c_string-text s.front s.behind s.no_nul,
      rest,
      s.length_is,
      s.whole,
      fits,
    )
