-- ===== src/Receive/Spread.antt =====
-- A request of two arguments that may run over several chunks, from the socket to its arguments.
use aoq.Prelude.{
  ℕ, zero, suc, ◌+◌, ◌-◌, ◌*◌, ◌≤◌, ◌<◌, ◌∙◌, ap, ◌≡◌, refl, ◌≢◌, ◌⊎◌, true, false, none, List, [],
  ◌∷◌, ◌++◌, arith, length, take, drop, All, append_assoc, append-nil, length-append,
}
use aoq.Prelude.Int.{pos}
use aoq.Heap.{Ptr, ok, Returns, ◌>>=◌, read, Malloc}
use aoq.Heap.Chain.{Cells, has}
use aoq.CText.Digits.{Stops}
use aoq.MemPool.{Chunk, ChunkNode, Mem, MemSlab}
use aoq.MemPool.Pool.{IsPool}
use aoq.AoqLog.Buffer.{Texts}
use aoq.Parser.{Arg, create_args}
use aoq.Parser.Request.{IsText, request, headed, lengths}
use aoq.Parser.Spread.{parse_args-spread}
use aoq.Func.{Read, command_size}
use aoq.Func.ReadCmd.{Brings, read_cmd-Brings}
use aoq.Receive.{Aoq, World, ck_size, receive, command_func, socket_read_cb}
use aoq.Receive.Line.{IsLine, IsLine-no_nul, take-drop}
use aoq.Receive.Fill.{Clear, Receiving, cut}
use aoq.Receive.Chunks.{receive-Received}
use aoq.Receive.Parsed.{args_at, serve-parsed}

-- The chunks of such a request: the first one has its head, the first argument, and the front of the second.
abbrev pub spread : ℕ → ℕ → List ℕ → List ℕ → Ptr → List ℕ → List ℕ → Cells Chunk → Cells Chunk
spread hl command name value p front behind rest =
    (p, headed hl command (name ∷ value ∷ []) (name ++ front) ++ 0 ∷ behind) ∷ rest

-- A request that the server takes, whose first argument ends in the first chunk.
pub record IsLong (fuel hl command : ℕ) (name value : List ℕ) : Type 0 where
  pub line : IsLine (request hl command (name ∷ value ∷ []) (b'\n' ∷ []))
  pub size : length (request hl command (name ∷ value ∷ []) (b'\n' ∷ [])) < command_size
  pub enough : 2 * length (request hl command (name ∷ value ∷ []) (b'\n' ∷ [])) < fuel
  pub head : 0 < hl
  pub head_lt : hl < 100
  pub some_command : 0 < command
  pub known_command : command ≤ 6
  pub name_text : IsText fuel name
  pub some_value : 0 < length value
  pub small : All (λ n. n < 1000000) (lengths (name ∷ value ∷ []))
  pub first_chunk : 17 + length name < ck_size

-- What has arrived. The pieces `front` and `r` of the second argument and the newline stand in the first
-- chunk and in those behind it.
pub record Spread (m : Mem) (xs : Cells Chunk) (hl command : ℕ) (name value : List ℕ)
    (memslab : Ptr) (m' : Mem) : Type 0 where
  pub p : Ptr
  pub front : List ℕ
  pub behind : List ℕ
  pub rest : Cells Chunk
  pub r : List ℕ
  pub free : Cells Chunk
  pub texts : Texts rest r
  pub whole : front ++ r ≡ value ++ b'\n' ∷ []
  pub no_nul : All (λ c. c ≢ 0) front
  pub receiving : Receiving m' memslab free (spread hl command name value p front behind rest)
  pub few : length rest < length (request hl command (name ∷ value ∷ []) (b'\n' ∷ []))
  pub cksize : m'.mp.cksize ≡ m.mp.cksize
  pub unused : read m.slabs memslab ≡ none
  pub was_free :
      (q : Ptr)
      → has q (spread hl command name value p front behind rest) ≡ true
      → (has q xs ≡ true) ⊎ (read m.chunks q ≡ none)
  pub fewer : (q : Ptr) → has q xs ≡ false → has q free ≡ false
  pub same :
      (q : Ptr)
      → has q (spread hl command name value p front behind rest) ≡ false
      → read m'.chunks q ≡ read m.chunks q
  pub slabs : (t : Ptr) → t ≢ memslab → read m'.slabs t ≡ read m.slabs t

take-append :
    (n : ℕ) (xs ys : List ℕ) → length xs ≤ n → take n (xs ++ ys) ≡ xs ++ take (n - length xs) ys
take-append n [] ys le = let e : n ≡ n - 0 = omega arith in ap (λ k. take k ys) e
take-append zero (x ∷ xs) ys le = absurd (omega arith)
take-append (suc n) (x ∷ xs) ys le =
    let e : n - length xs ≡ suc n - length (x ∷ xs) = omega arith in
    ap (λ t. x ∷ t) (take-append n xs ys (omega arith) ∙ ap (λ k. xs ++ take k ys) e)

drop-append : (n : ℕ) (xs ys : List ℕ) → length xs ≤ n → drop n (xs ++ ys) ≡ drop (n - length xs) ys
drop-append n [] ys le = let e : n ≡ n - 0 = omega arith in ap (λ k. drop k ys) e
drop-append zero (x ∷ xs) ys le = absurd (omega arith)
drop-append (suc n) (x ∷ xs) ys le =
    let e : n - length xs ≡ suc n - length (x ∷ xs) = omega arith in
    drop-append n xs ys (omega arith) ∙ ap (λ k. drop k ys) e

All-prefix : (xs ys : List ℕ) → All (λ c. c ≢ 0) (xs ++ ys) → All (λ c. c ≢ 0) ys
All-prefix [] ys h = h
All-prefix (x ∷ xs) ys (e, h) = All-prefix xs ys h

cut-ge : (cmd : List ℕ) (k : ℕ) → k < ck_size → k ≤ length cmd → k ≤ cut cmd
cut-ge cmd k lt le = ground arith

pub request-headed :
    (hl command : ℕ) (name value : List ℕ)
    → request hl command (name ∷ value ∷ []) (b'\n' ∷ [])
      ≡ headed hl command (name ∷ value ∷ []) name ++ (value ++ b'\n' ∷ [])
request-headed hl command name value = simp (append_assoc, append-nil)

receive-Spread :
    (malloc : Malloc ChunkNode) (malloc_slab : Malloc MemSlab) (fuel : ℕ) (m : Mem)
    (xs : Cells Chunk) (hl command : ℕ) (name value : List ℕ)
    → IsPool m xs
    → Clear m.mp.cksize xs
    → ck_size ≤ m.mp.cksize
    → IsLong fuel hl command name value
    → Returns
        (receive malloc malloc_slab fuel (request hl command (name ∷ value ∷ []) (b'\n' ∷ [])) m)
        λ r. Spread m xs hl command name value r.0 r.1
receive-Spread malloc malloc_slab fuel m xs hl command name value is clear big long =
    let cmd = request hl command (name ∷ value ∷ []) (b'\n' ∷ []) in
    let start = headed hl command (name ∷ value ∷ []) name in
    let body = value ++ b'\n' ∷ [] in
    let ((memslab, m'), run, (r, unused)) =
      receive-Received malloc malloc_slab fuel m xs cmd is clear long.line big
        (omega (arith, long.enough)) in
    let n = cut cmd in
    let split = request-headed hl command name value in
    let le : length start ≤ n =
      cut-ge cmd (length start) (omega (arith, long.first_chunk))
        (omega (arith, ap length split, length-append start body)) in
    let taken : take n cmd
        ≡ headed hl command (name ∷ value ∷ []) (name ++ take (n - length start) body) =
      ap (take n) split ∙ take-append n start body le in
    let dropped : drop n cmd ≡ drop (n - length start) body =
      ap (drop n) split ∙ drop-append n start body le in
    let cells : r.new
        ≡ spread hl command name value r.p (take (n - length start) body) r.beyond r.rest =
      r.begins ∙ rw taken refl in
    (
      (memslab, m'),
      run,
      record {
        p = r.p;
        front = take (n - length start) body;
        behind = r.beyond;
        rest = r.rest;
        r = drop (n - length start) body;
        free = r.free;
        texts = rw (← dropped) r.texts;
        whole = take-drop (n - length start) body;
        no_nul = All-prefix start _ (rw taken at (IsLine-no_nul cmd n long.line));
        receiving = rw (← cells) r.receiving;
        few = omega (arith, r.few, ap length r.begins);
        cksize = r.cksize;
        unused = unused;
        was_free = λ q i. r.was_free q (rw cells i);
        fewer = r.fewer;
        same = λ q o. r.same q refl (rw cells o);
        slabs = r.slabs;
      },
    )

-- The request reaches its handler, whatever the number of its chunks.
pub socket_read_cb-Spread :
    (w : World) (fd : ℕ) (reads : List Read) (a : Aoq) (xs : Cells Chunk) (hl command : ℕ)
    (name value : List ℕ)
    → 2 < w.outside.fuel
    → Stops w.outside.beyond
    → IsPool a.server.mem xs
    → Clear a.server.mem.mp.cksize xs
    → ck_size ≤ a.server.mem.mp.cksize
    → a.serv.persistent ≡ false
    → IsLong w.outside.fuel hl command name value
    → Brings reads [] (request hl command (name ∷ value ∷ []) (b'\n' ∷ []))
    → (memslab : Ptr) × (m : Mem) × (s : Spread a.server.mem xs hl command name value memslab m)
      × (socket_read_cb w (pos fd) reads a ≡ (
          command_func w a.serv
            (pos command)
            fd
            (args_at memslab s.p (name ∷ value ∷ []))
            (record (a.server) { mem = m })
          >>= λ s'. ok (record a { server = s' })))
unfolding socket_read_cb create_args
socket_read_cb-Spread w fd reads a xs hl command name value enough stop is clear big off long
      brings =
    let cmd = request hl command (name ∷ value ∷ []) (b'\n' ∷ []) in
    let got = read_cmd-Brings reads cmd brings long.size in
    let ((memslab, m), run, s) =
      receive-Spread w.malloc_chunk w.malloc_slab w.outside.fuel a.server.mem xs hl command name
        value is clear big long in
    let slab = s.receiving.slab in
    let (ne, here, out, chain) = slab.chain in
    let text = headed hl command (name ∷ value ∷ []) (name ++ s.front) ++ 0 ∷ s.behind in
    let n = ap length s.whole in
    let e : Arg = record { len = 0; cursor = none } in
    let parse =
      parse_args-spread w.outside.beyond w.outside.fuel memslab s.p m e e (e ∷ e ∷ e ∷ [])
        (record { head_next = s.p; tail_next = _ }) hl command name value s.front s.behind s.r text
        s.rest stop enough slab.ne_null slab.holds refl (ne, _, here, simp (append_assoc)) here
        chain s.texts s.no_nul
        (omega (arith, n, length-append s.front s.r, length-append value (b'\n' ∷ []))) long.head
        long.head_lt long.some_command long.known_command long.name_text long.some_value
        (omega (
          arith,
          long.enough,
          s.few,
          ap length (request-headed hl command name value),
          length-append (headed hl command (name ∷ value ∷ []) name) (value ++ b'\n' ∷ []),
          length-append value (b'\n' ∷ []),
        ))
        long.small in
    (memslab, m, s, rw (got, run, parse) (serve-parsed w fd memslab command _ m a off))
