-- ===== src/Func/ReadCmd.antt =====
-- `read_cmd` on what arrives at the socket.
use aoq.Prelude.{
  ℕ, zero, suc, ◌<◌, ◌≤◌, ap, ◌≡◌, ◌≢◌, ◌⊎◌, inl, inr, false, some, List, [], ◌∷◌, ◌++◌, arith,
  length, replicate, length-append, ◌==◌,
}
use aoq.Heap.{ok, stuck}
use aoq.Func.{
  Read, received, again, failed, command_size, last_byte, end_command, put_behind, read_rest,
  read_cmd,
}

-- The reads bring the command `text` behind `got`: no piece is empty, and the first one that ends with a
-- newline is the last that is looked at.
abbrev pub Brings : List Read → List ℕ → List ℕ → Type 0
Brings [] got text = ⊥
Brings (again ∷ reads) got text = Brings reads got text
Brings (failed ∷ reads) got text = ⊥
Brings (received [] ∷ reads) got text = ⊥
Brings (received (c ∷ s) ∷ reads) got text =
    ((last_byte (got ++ c ∷ s) ≡ ok b'\n') × (text ≡ got ++ c ∷ s))
    ⊎ ((b : ℕ) × (last_byte (got ++ c ∷ s) ≡ ok b) × (b ≢ b'\n') × Brings reads (got ++ c ∷ s) text)

Brings-le :
    (reads : List Read) (got text : List ℕ) → Brings reads got text → length got ≤ length text
Brings-le [] got text br = absurd br
Brings-le (again ∷ reads) got text br = Brings-le reads got text br
Brings-le (failed ∷ reads) got text br = absurd br
Brings-le (received [] ∷ reads) got text br = absurd br
Brings-le (received (c ∷ s) ∷ reads) got text (inl (last, whole)) =
    omega (arith, ap length whole, length-append got (c ∷ s))
Brings-le (received (c ∷ s) ∷ reads) got text (inr (d, last, nl, br)) =
    omega (arith, Brings-le reads (got ++ c ∷ s) text br, length-append got (c ∷ s))

end_of_line :
    (reads : List Read) (got : List ℕ)
    → last_byte got ≡ ok b'\n'
    → length got < command_size
    → read_rest reads got ≡ ok (some got)
unfolding read_rest end_command
end_of_line [] got e lt = rw e (ground arith)
end_of_line (received [] ∷ reads) got e lt = rw e (ground arith)
end_of_line (received (c ∷ s) ∷ reads) got e lt = rw e (ground arith)
end_of_line (again ∷ reads) got e lt = rw e (ground arith)
end_of_line (failed ∷ reads) got e lt = rw e (ground arith)

put_behind-fits :
    (got s : List ℕ) → length (got ++ s) < command_size → put_behind got s ≡ ok (got ++ s)
unfolding put_behind
put_behind-fits got s lt = ground (arith, length-append got s)

read_rest-Brings :
    (reads : List Read) (got : List ℕ) (b : ℕ) (text : List ℕ)
    → last_byte got ≡ ok b
    → b ≢ b'\n'
    → Brings reads got text
    → length text < command_size
    → read_rest reads got ≡ ok (some text)
unfolding read_rest
read_rest-Brings [] got b text e ne br lt = absurd br
read_rest-Brings (again ∷ reads) got b text e ne br lt =
    let on : b == b'\n' ≡ false = ground arith in
    rw (e, on) (read_rest-Brings reads got b text e ne br lt)
read_rest-Brings (failed ∷ reads) got b text e ne br lt = absurd br
read_rest-Brings (received [] ∷ reads) got b text e ne br lt = absurd br
read_rest-Brings (received (c ∷ s) ∷ reads) got b text e ne (inl (last, whole)) lt =
    let on : b == b'\n' ≡ false = ground arith in
    let fits : length (got ++ c ∷ s) < command_size = omega (arith, ap length whole) in
    rw (e, on, put_behind-fits got (c ∷ s) fits, end_of_line reads (got ++ c ∷ s) last fits, whole)
read_rest-Brings (received (c ∷ s) ∷ reads) got b text e ne (inr (d, last, nl, br)) lt =
    let on : b == b'\n' ≡ false = ground arith in
    rw (e, on, put_behind-fits got (c ∷ s) (omega (arith, Brings-le reads (got ++ c ∷ s) text br)))
      (read_rest-Brings reads (got ++ c ∷ s) d text last nl br lt)

-- When the pieces that `read` brings make up a command that ends with a newline, none of the pieces
-- before ending with one, and it fits the buffer, `read_cmd` returns it, however often `read` has nothing.
pub read_cmd-Brings :
    (reads : List Read) (text : List ℕ)
    → Brings reads [] text
    → length text < command_size
    → read_cmd reads ≡ ok (some text)
unfolding read_cmd
read_cmd-Brings [] text br lt = absurd br
read_cmd-Brings (again ∷ reads) text br lt = read_cmd-Brings reads text br lt
read_cmd-Brings (failed ∷ reads) text br lt = absurd br
read_cmd-Brings (received [] ∷ reads) text br lt = absurd br
read_cmd-Brings (received (c ∷ s) ∷ reads) text (inl (last, whole)) lt =
    let fits : length (c ∷ s) < command_size = omega (arith, ap length whole) in
    rw (put_behind-fits [] (c ∷ s) fits, end_of_line reads (c ∷ s) last fits, whole)
read_cmd-Brings (received (c ∷ s) ∷ reads) text (inr (d, last, nl, br)) lt =
    rw (put_behind-fits [] (c ∷ s) (omega (arith, Brings-le reads (c ∷ s) text br)))
      (read_rest-Brings reads (c ∷ s) d text last nl br lt)

read_rest-waits :
    (got : List ℕ) (b n : ℕ)
    → last_byte got ≡ ok b
    → b ≢ b'\n'
    → read_rest (replicate n again) got ≡ stuck
unfolding read_rest
read_rest-waits got b zero e ne = let on : b == b'\n' ≡ false = ground arith in rw (e, on)
read_rest-waits got b (suc n) e ne =
    let on : b == b'\n' ≡ false = ground arith in rw (e, on) (read_rest-waits got b n e ne)

-- When the bytes that have arrived do not end with a newline and fit the buffer, `read_cmd` does not
-- return while `read` has nothing more, however often it is called.
pub read_cmd-waits :
    (c : ℕ) (s : List ℕ) (b n : ℕ)
    → last_byte (c ∷ s) ≡ ok b
    → b ≢ b'\n'
    → length (c ∷ s) < command_size
    → read_cmd (received (c ∷ s) ∷ replicate n again) ≡ stuck
unfolding read_cmd
read_cmd-waits c s b n e ne lt =
    rw (put_behind-fits [] (c ∷ s) lt) (read_rest-waits (c ∷ s) b n e ne)
