-- ===== src/Parser/Request.antt =====
-- `parse_args` on a well-formed request whose text stands in the first chunk of its slab.
use aoq.Prelude.{
  ℕ, zero, suc, ◌+◌, ◌*◌, ◌<◌, ◌≤◌, ap, ◌≡◌, refl, ◌≢◌, false, some, List, [], ◌∷◌, ◌++◌, map,
  arith, length, All, append_assoc,
}
use mathlib.Core.Path.{subst}
use aoq.Prelude.Int.{ℤ, pos}
use aoq.Heap.{Ptr, null, ok, Heap, read, load, load-ok}
use aoq.CText.Digits.{Stops, two_digits}
use aoq.MemPool.{ChunkNode, MemSlab, Mem}
use aoq.Cursor.{at, plus, Cursor, move_cursor}
use aoq.Cursor.Text.{Ahead, Ahead-next, Ahead-plus, move_cursor-Ahead}
use aoq.Parser.{
  Arg, parsed, is_bad_head, parse_head_len, parse_comman_num, fill_argn, parse_argn, parse_argv,
  argv_loop, parse_args,
}
use aoq.Parser.Argn.{lengths_text, argn_loop-lengths}
use aoq.Parser.Head.{parse_head_len-two_digits, parse_comman_num-two_digits}

abbrev pub joined : List (List ℕ) → List ℕ
joined [] = []
joined (t ∷ ts) = t ++ joined ts

abbrev pub lengths : List (List ℕ) → List ℕ
lengths [] = []
lengths (t ∷ ts) = length t ∷ lengths ts

-- The arguments as parsed: the texts `ts` stand one behind the other from the cursor on, and the
-- entries behind them are left alone.
abbrev pub located : Cursor → List (List ℕ) → List Arg → List Arg
located c [] args = args
located c (t ∷ ts) [] = []
located c (t ∷ ts) (a ∷ args) =
    record { len = length t; cursor = some c }
    ∷ located (record c { ptr = plus (c.ptr) (length t) }) ts args

-- A text that an argument may be: not empty, without a `NUL`, and walked over within the fuel.
abbrev pub IsText : ℕ → List ℕ → Type 0
IsText fuel t = (0 < length t) × (length t < fuel) × All (λ b. b ≢ 0) t

pub argv_loop-argument :
    (fuel : ℕ) (h : Heap ChunkNode) (n i : ℕ) (ns : List ℤ) (c moved : Cursor) (a : Arg)
    (args args' : List Arg)
    → 0 < n
    → move_cursor fuel h n c ≡ ok (n, moved)
    → argv_loop fuel h ns moved args ≡ ok (i, args')
    → argv_loop fuel h (pos n ∷ ns) c (a ∷ args)
      ≡ ok (suc i, record { len = n; cursor = some c } ∷ args')
unfolding argv_loop parse_argv
argv_loop-argument fuel h zero i ns c moved a args args' lt e rest = absurd (omega arith)
argv_loop-argument fuel h (suc n) i ns c moved a args args' lt e rest = rw (e, rest)

argv_loop-located :
    (fuel : ℕ) (h : Heap ChunkNode) (k : ℕ) (ts : List (List ℕ)) (rest : List ℕ) (c : Cursor)
    (args : List Arg)
    → Ahead h c.ptr (joined ts ++ rest)
    → All (IsText fuel) ts
    → length ts < k
    → length ts ≤ length args
    → argv_loop fuel h (fill_argn k (map pos (lengths ts))) c args
      ≡ ok (length ts, located c ts args)
unfolding fill_argn
argv_loop-located fuel h zero ts rest c args a texts lt le = absurd (omega arith)
argv_loop-located fuel h (suc k) [] rest c args a texts lt le = unfold argv_loop in refl
argv_loop-located fuel h (suc k) (t ∷ ts) rest c [] a texts lt le = absurd (omega arith)
argv_loop-located fuel h (suc k) (t ∷ ts) rest c (x ∷ args) a ((nonempty, short, nz), texts) lt le =
    let here : Ahead h c.ptr (t ++ (joined ts ++ rest)) = rw append_assoc at a in
    let moved : Cursor = record c { ptr = plus (c.ptr) (length t) } in
    argv_loop-argument fuel h (length t) (length ts) _ c moved x args (located moved ts args)
      nonempty (move_cursor-Ahead fuel h c t (joined ts ++ rest) here nz short)
      (argv_loop-located fuel h k ts rest moved args (Ahead-plus h c.ptr t (joined ts ++ rest) here)
        texts (omega arith) (omega arith))

-- The bytes of a request.
abbrev pub request : ℕ → ℕ → List (List ℕ) → List ℕ → List ℕ
request head_len command ts rest =
    two_digits head_len
    ++ (two_digits command ++ (lengths_text (lengths ts) ++ 32 ∷ (joined ts ++ rest)))

good :
    (head_len command : ℕ)
    → 0 < head_len
    → 0 < command
    → command ≤ 6
    → is_bad_head (pos head_len) (pos command) ≡ false
good hl cmd p₁ p₂ p₃ = ground arith

-- `parse_args` is its parts in turn, when the head is good and there is an argument.
parse_args-parts :
    (beyond : List ℕ) (fuel : ℕ) (slab : Ptr) (m : Mem) (args : List Arg) (s : MemSlab)
    (n : ChunkNode) (head_len command i : ℕ) (c₁ c₂ c₃ : Cursor) (argn : List ℤ) (args' : List Arg)
    → load m.slabs slab ≡ ok s
    → load m.chunks s.head_next ≡ ok n
    → parse_head_len beyond fuel m.chunks
        (record { ptr = at s.head_next 0; node = s.head_next; slab = slab })
      ≡ ok (pos head_len, c₁)
    → parse_comman_num beyond fuel m.chunks c₁ ≡ ok (pos command, c₂)
    → parse_argn m.chunks c₂ ≡ ok (argn, c₃)
    → argv_loop fuel m.chunks argn c₃ args ≡ ok (i, args')
    → 0 < i
    → 0 < head_len
    → 0 < command
    → command ≤ 6
    → parse_args beyond fuel slab m args
      ≡ ok (record { outcome = parsed; command_num = pos command; args = args'; mem = m })
unfolding parse_args
parse_args-parts beyond fuel slab m args s n hl cmd i c₁ c₂ c₃ argn args' es en e₁ e₂ e₃ e₄ p p₁ p₂
      p₃ =
    rw (es, en, e₁, e₂, good hl cmd p₁ p₂ p₃, e₃, e₄) (ground arith)

length-lengths : (ts : List (List ℕ)) → length (lengths ts) ≡ length ts
length-lengths [] = refl
length-lengths (t ∷ ts) = ap suc (length-lengths ts)

parse_argn-lengths :
    (h : Heap ChunkNode) (c : Cursor) (ts : List (List ℕ)) (rest : List ℕ) (off : ℕ)
    → off ≡ c.ptr.off + (1 + 6 * length ts)
    → Ahead h c.ptr (lengths_text (lengths ts) ++ 32 ∷ rest)
    → All (λ n. n < 1000000) (lengths ts)
    → length ts < 5
    → parse_argn h c
      ≡ ok (fill_argn 5 (map pos (lengths ts)), record c { ptr = at c.ptr.block off })
unfolding parse_argn
parse_argn-lengths h c ts rest off e a small lt =
    rw (argn_loop-lengths 5 h c.ptr (lengths ts) rest a small (omega (arith, length-lengths ts))) (
      ap (λ (k : ℕ). ok (fill_argn 5 (map pos (lengths ts)), record c { ptr = at c.ptr.block k }))
        {x = c.ptr.off + (6 * length (lengths ts) + 1)} {y = off}
        (omega (arith, length-lengths ts)))

-- Behind the lengths and the blank stands the text.
length-lengths_text : (ns : List ℕ) → length (lengths_text ns) ≡ 6 * length ns
length-lengths_text [] = refl
length-lengths_text (n ∷ ns) = omega (arith, length-lengths_text ns)

pub text_at :
    (h : Heap ChunkNode) (p : Ptr) (ts : List (List ℕ)) (body : List ℕ)
    → Ahead h (at p 4) (lengths_text (lengths ts) ++ 32 ∷ body)
    → Ahead h (at p (5 + 6 * length ts)) body
text_at h p ts body a =
    let skipped = Ahead-plus h (at p 4) (lengths_text (lengths ts)) _ a in
    subst (λ k. Ahead h (at p k) body)
      (omega (arith, length-lengths_text (lengths ts), length-lengths ts))
      (Ahead-next h _ 32 _ skipped)

-- What stands in front of the arguments' text, and that.
abbrev pub headed : ℕ → ℕ → List (List ℕ) → List ℕ → List ℕ
headed head_len command ts body =
    two_digits head_len ++ (two_digits command ++ (lengths_text (lengths ts) ++ 32 ∷ body))

pub body_at :
    (h : Heap ChunkNode) (p : Ptr) (head_len command : ℕ) (ts : List (List ℕ)) (body : List ℕ)
    → Ahead h (at p 0) (headed head_len command ts body)
    → Ahead h (at p (5 + 6 * length ts)) body
body_at h p hl command ts body a =
    text_at h p ts body
      (Ahead-plus h (at p 2) (two_digits command) _ (Ahead-plus h (at p 0) (two_digits hl) _ a))

-- With a good head, `parse_args` finds the arguments that the loop over them finds.
pub parse_args-headed :
    (beyond : List ℕ) (fuel : ℕ) (slab : Ptr) (m : Mem) (args args' : List Arg) (s : MemSlab)
    (head_len command : ℕ) (ts : List (List ℕ)) (body : List ℕ)
    → Stops beyond
    → 2 < fuel
    → slab ≢ null
    → read m.slabs slab ≡ some s
    → Ahead m.chunks (at s.head_next 0) (headed head_len command ts body)
    → 0 < head_len
    → head_len < 100
    → 0 < command
    → command ≤ 6
    → All (λ n. n < 1000000) (lengths ts)
    → 0 < length ts
    → length ts < 5
    → argv_loop fuel m.chunks
        (fill_argn 5 (map pos (lengths ts)))
        (record { ptr = at s.head_next (5 + 6 * length ts); node = s.head_next; slab = slab })
        args
      ≡ ok (length ts, args')
    → parse_args beyond fuel slab m args
      ≡ ok (record { outcome = parsed; command_num = pos command; args = args'; mem = m })
parse_args-headed beyond fuel slab m args args' s head_len command ts body stop enough ne rs text p₁
      q₁ p₂ q₂ small some_arg few found =
    let p = s.head_next in
    let start : Cursor = record { ptr = at p 0; node = p; slab = slab } in
    let tail = lengths_text (lengths ts) ++ 32 ∷ body in
    let c₁ : Cursor = record start { ptr = at p 2 } in
    let c₂ : Cursor = record start { ptr = at p 4 } in
    let behind : Ahead m.chunks (at p 2) (two_digits command ++ tail) =
      Ahead-plus m.chunks (at p 0) (two_digits head_len) _ text in
    let at_argn : Ahead m.chunks (at p 4) tail =
      Ahead-plus m.chunks (at p 2) (two_digits command) tail behind in
    let c₃ : Cursor = record start { ptr = at p (5 + 6 * length ts) } in
    let n = text.1 in
    parse_args-parts beyond fuel slab m args s n head_len command (length ts) c₁ c₂ c₃ _ _
      (load-ok m.slabs slab ne rs) (load-ok m.chunks p text.0 text.2)
      (parse_head_len-two_digits beyond stop fuel enough m.chunks start head_len q₁ _ text)
      (parse_comman_num-two_digits beyond stop fuel enough m.chunks c₁ command (omega arith) tail
        behind)
      (parse_argn-lengths m.chunks c₂ ts body _ (omega arith) at_argn small few) found some_arg p₁
      p₂ q₂

-- On a request with a head length of 1 to 99, a command of 1 to 6 and one to four arguments, whose head
-- and text stand in the slab's first chunk, `parse_args` returns 1, the command, and for each argument its
-- length and a cursor at its text; no memory is freed or written. The arguments are not empty, have no
-- `NUL`, and are shorter than a million bytes and than the fuel, which is above 2; there are as many
-- entries in the array; and what memory holds behind the two-byte blocks starts with no digit.
pub parse_args-request :
    (beyond : List ℕ) (fuel : ℕ) (slab : Ptr) (m : Mem) (args : List Arg) (s : MemSlab)
    (head_len command : ℕ) (ts : List (List ℕ)) (rest : List ℕ)
    → Stops beyond
    → 2 < fuel
    → slab ≢ null
    → read m.slabs slab ≡ some s
    → Ahead m.chunks (at s.head_next 0) (request head_len command ts rest)
    → 0 < head_len
    → head_len < 100
    → 0 < command
    → command ≤ 6
    → All (IsText fuel) ts
    → All (λ n. n < 1000000) (lengths ts)
    → 0 < length ts
    → length ts < 5
    → length ts ≤ length args
    → parse_args beyond fuel slab m args
      ≡ ok (record {
        outcome = parsed;
        command_num = pos command;
        args =
            located
              (record { ptr = at s.head_next (5 + 6 * length ts); node = s.head_next; slab = slab })
              ts
              args;
        mem = m;
      })
parse_args-request beyond fuel slab m args s head_len command ts rest stop enough ne rs text p₁ q₁
      p₂ q₂ texts small some_arg few room =
    parse_args-headed beyond fuel slab m args _ s head_len command ts (joined ts ++ rest) stop
      enough ne rs text p₁ q₁ p₂ q₂ small some_arg few
      (argv_loop-located fuel m.chunks 5 ts rest _ args
        (body_at m.chunks s.head_next head_len command ts (joined ts ++ rest) text) texts few room)
