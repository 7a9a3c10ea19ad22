-- ===== src/Receive/Parsed.antt =====
-- A request that fits one chunk, from the socket to its arguments.
use aoq.Prelude.{
  ℕ, zero, suc, ◌+◌, ◌-◌, ◌*◌, ◌≤◌, ◌<◌, ◌∙◌, ◌≡◌, refl, ◌≢◌, Bool, false, some, none, List, [],
  ◌∷◌, ◌++◌, arith, length, All, append_assoc, if◌then◌else◌,
}
use mathlib.Core.Path.{subst}
use aoq.Prelude.Int.{pos}
use aoq.Heap.{Ptr, null, ok, Returns, ◌>>=◌, read, Malloc}
use aoq.Heap.Chain.{Cells}
use aoq.CText.Digits.{Stops}
use aoq.MemPool.{Chunk, ChunkNode, Mem, MemSlab, zeros, create_mem_slab}
use aoq.MemPool.Pool.{IsPool}
use aoq.MemPool.Slab.{IsSlab}
use aoq.Cursor.{at}
use aoq.Cursor.Text.{Ahead}
use aoq.Parser.{Arg, parsed, parse_args, create_args}
use aoq.Parser.Request.{IsText, request, located, lengths, parse_args-request}
use aoq.Func.{Read}
use aoq.Func.ReadCmd.{Brings, read_cmd-Brings}
use aoq.Receive.{Aoq, World, ck_size, receive, command_func, serve, socket_read_cb}
use aoq.Receive.Line.{IsLine, IsLine-last}
use aoq.Receive.Fill.{Clear, cut, Receiving, Taken, round-Stored}
use aoq.Receive.Rounds.{
  create_mem_slab-Receiving, receive_loop-round, round-byte, cut_ends, IsLine-pos,
}

-- The slab has the one chunk `p`, which holds the text and `k` zeros.
pub record Alone (memslab p : Ptr) (text : List ℕ) (k : ℕ) (m : Mem) : Type 0 where
  pub slab_ne_null : memslab ≢ null
  pub slab : read m.slabs memslab ≡ some (record { head_next = p; tail_next = p })
  pub holds : Ahead m.chunks (at p 0) (text ++ zeros k)

Alone-slab :
    (m : Mem) (memslab p : Ptr) (text : List ℕ) (k : ℕ)
    → IsSlab m memslab ((p, text ++ zeros k) ∷ [])
    → Alone memslab p text k m
Alone-slab m memslab p text k slab = record {
  slab_ne_null = slab.ne_null;
  slab = slab.holds;
  holds = (slab.chain.0, _, slab.chain.1, refl);
}

-- What has been received: the new slab has the one chunk `p`, with the text and `k` zeros; the pool `xs'`
-- is well-formed with cleared chunks, of which `p` is none. The slab and the chunk were not in use, and no
-- other slab or chunk has changed.
pub record Arrived (m : Mem) (xs : Cells Chunk) (text : List ℕ) (k : ℕ) (memslab p : Ptr) (m' : Mem)
    : Type 0 where
  pub xs' : Cells Chunk
  pub receiving : Receiving m' memslab xs' ((p, text ++ zeros k) ∷ [])
  pub cksize : m'.mp.cksize ≡ m.mp.cksize
  pub unused : read m.slabs memslab ≡ none
  pub taken : Taken m xs p xs'
  pub same : (q : Ptr) → q ≢ p → read m'.chunks q ≡ read m.chunks q
  pub slabs : (t : Ptr) → t ≢ memslab → read m'.slabs t ≡ read m.slabs t

receive-Arrived :
    (malloc : Malloc ChunkNode) (malloc_slab : Malloc MemSlab) (fuel : ℕ) (m : Mem)
    (xs : Cells Chunk) (cmd : List ℕ)
    → IsPool m xs
    → Clear m.mp.cksize xs
    → IsLine cmd
    → ck_size ≤ m.mp.cksize
    → length cmd < ck_size
    → 0 < fuel
    → Returns
        (receive malloc malloc_slab fuel cmd m)
        λ r. (p : Ptr) × Arrived m xs cmd (m.mp.cksize - length cmd) r.0 p r.1
unfolding receive create_mem_slab read
receive-Arrived malloc malloc_slab zero m xs cmd is clear line big short lt = absurd (omega arith)
receive-Arrived malloc malloc_slab (suc fuel) m xs cmd is clear line big short lt =
    let (memslab, m₁) = create_mem_slab malloc_slab m in
    let rc = create_mem_slab-Receiving malloc_slab m xs is clear in
    let k = m.mp.cksize - length cmd in
    let (whole, all) = cut_ends cmd short in
    let (p, m₂, m₃, filled, inserted, st) =
      round-Stored malloc m₁ memslab xs [] cmd k rc (omega (arith, all)) in
    let some_byte = IsLine-pos cmd line in
    let b =
      round-byte m₁ m₃ memslab p xs [] cmd k (length cmd - 1) 10 st
        (IsLine-last cmd (length cmd - 1) line (omega arith)) (omega (arith, all)) in
    (
      (memslab, m₃),
      rw (receive_loop-round malloc fuel memslab p cmd m₁ m₂ m₃ (cut cmd) 10 filled inserted b)
          refl,
      (
        p,
        record {
          xs' = st.free;
          receiving =
              subst (λ t. Receiving m₃ memslab st.free ((p, t ++ zeros k) ∷ [])) whole st.receiving;
          cksize = st.cksize;
          unused = malloc_slab.fresh_unused m.slabs;
          taken = record { was_free = st.taken.was_free; fewer = st.taken.fewer };
          same = λ q d. st.same q d refl;
          slabs = λ t d. st.slabs t d ∙ ground arith;
        },
      ),
    )

request-append :
    (hl command : ℕ) (ts : List (List ℕ)) (rest more : List ℕ)
    → request hl command ts rest ++ more ≡ request hl command ts (rest ++ more)
request-append hl command ts rest more = simp (append_assoc)

-- The arguments of a request in the chunk `p` of a slab, as `socket_read_cb` has them.
abbrev pub args_at : Ptr → Ptr → List (List ℕ) → List Arg
args_at memslab p ts =
    located (record { ptr = at p (5 + 6 * length ts); node = p; slab = memslab }) ts (create_args 5)

-- A request that the server takes: a head length of 1 to 99, a command of 1 to 6, one to four arguments,
-- which are not empty, without a `NUL`, and shorter than the fuel; no `NUL` in the whole and a newline at
-- its end alone; and less than 1024 bytes.
pub record IsRequest (fuel hl command : ℕ) (ts : List (List ℕ)) (rest : List ℕ) : Type 0 where
  pub line : IsLine (request hl command ts rest)
  pub short : length (request hl command ts rest) < ck_size
  pub head : 0 < hl
  pub head_lt : hl < 100
  pub some_command : 0 < command
  pub known_command : command ≤ 6
  pub texts : All (IsText fuel) ts
  pub small : All (λ n. n < 1000000) (lengths ts)
  pub some_arg : 0 < length ts
  pub few_args : length ts < 5

length-create_args : length (create_args 5) ≡ 5
unfolding create_args
length-create_args = refl

parse_args-Alone :
    (beyond : List ℕ) (fuel : ℕ) (memslab p : Ptr) (m : Mem) (k hl command : ℕ) (ts : List (List ℕ))
    (rest : List ℕ)
    → Stops beyond
    → 2 < fuel
    → IsRequest fuel hl command ts rest
    → Alone memslab p (request hl command ts rest) k m
    → parse_args beyond fuel memslab m (create_args 5)
      ≡ ok (record {
        outcome = parsed;
        command_num = pos command;
        args = args_at memslab p ts;
        mem = m;
      })
parse_args-Alone beyond fuel memslab p m k hl command ts rest stop enough r a =
    parse_args-request beyond fuel memslab m (create_args 5)
      (record { head_next = p; tail_next = p }) hl command ts (rest ++ zeros k) stop enough
      a.slab_ne_null a.slab
      (subst (Ahead m.chunks (at p 0)) (request-append hl command ts rest (zeros k)) a.holds) r.head
      r.head_lt r.some_command r.known_command r.texts r.small r.some_arg r.few_args
      (omega (arith, length-create_args))

if-false : {A : Type 0} (c : Bool) (x y : A) → c ≡ false → (if c then x else y) ≡ y
if-false c x y e = rw e refl

-- Without a log, `serve` runs the handler of a request that was parsed.
pub serve-parsed :
    (w : World) (fd : ℕ) (memslab : Ptr) (command : ℕ) (args : List Arg) (m : Mem) (a : Aoq)
    → a.serv.persistent ≡ false
    → serve w fd memslab
        (record { outcome = parsed; command_num = pos command; args = args; mem = m })
        a
      ≡ (command_func w a.serv (pos command) fd args (record (a.server) { mem = m }) >>= λ s.
          ok (record a { server = s }))
unfolding serve
serve-parsed w fd memslab command args m a off = if-false a.serv.persistent _ _ off

-- The request reaches its handler: when the pieces that `read` brings make up a request, in a server
-- that keeps no log and whose pool is well-formed with cleared chunks of at least 1024 bytes,
-- `socket_read_cb` does what the command's handler does on the request's arguments, which stand in
-- the one chunk of a new slab; the pool is then as before without that chunk, and no other slab or
-- chunk has changed. The request has a head length of 1 to 99, a command of 1 to 6 and one to four
-- arguments, which are not empty and shorter than the fuel; it has less than 1024 bytes, no `NUL`,
-- and a newline at its end alone. The fuel is above 2, and what memory holds behind the two-byte
-- blocks starts with no digit.
pub socket_read_cb-handles :
    (w : World) (fd : ℕ) (reads : List Read) (a : Aoq) (xs : Cells Chunk) (hl command : ℕ)
    (ts : List (List ℕ)) (rest : List ℕ)
    → 2 < w.outside.fuel
    → Stops w.outside.beyond
    → IsPool a.server.mem xs
    → Clear a.server.mem.mp.cksize xs
    → ck_size ≤ a.server.mem.mp.cksize
    → a.serv.persistent ≡ false
    → IsRequest w.outside.fuel hl command ts rest
    → Brings reads [] (request hl command ts rest)
    → (memslab : Ptr) × (p : Ptr) × (m : Mem) × Arrived a.server.mem xs
        (request hl command ts rest)
        (a.server.mem.mp.cksize - length (request hl command ts rest))
        memslab
        p
        m
      × (socket_read_cb w (pos fd) reads a ≡ (
          command_func w a.serv
            (pos command)
            fd
            (args_at memslab p ts)
            (record (a.server) { mem = m })
          >>= λ s. ok (record a { server = s })))
unfolding socket_read_cb
socket_read_cb-handles w fd reads a xs hl command ts rest enough stop is clear big off r brings =
    let cmd = request hl command ts rest in
    let got = read_cmd-Brings reads cmd brings (omega (arith, r.short)) in
    let ((memslab, m), run, (p, here)) =
      receive-Arrived w.malloc_chunk w.malloc_slab w.outside.fuel a.server.mem xs cmd is clear
        r.line big r.short (omega arith) in
    let parse =
      parse_args-Alone w.outside.beyond w.outside.fuel memslab p m _ hl command ts rest stop enough
        r (Alone-slab m memslab p cmd _ here.receiving.slab) in
    (memslab, p, m, here, rw (got, run, parse) (serve-parsed w fd memslab command _ m a off))
