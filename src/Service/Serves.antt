-- ===== src/Service/Serves.antt =====
-- The server's state while it keeps one queue, and the requests for that queue.
use aoq.Prelude.{
  ℕ, ◌+◌, ◌*◌, ◌≤◌, ◌<◌, ap, [], ◌≡◌, refl, ◌≢◌, false, some, List, ◌∷◌, ◌++◌, arith, length, All,
  length-append,
}
use aoq.Prelude.Int.{pos}
use aoq.Heap.{Ptr, null, ok, read}
use aoq.Heap.Chain.{Cells}
use aoq.CText.Strings.{c_string-text}
use aoq.CText.Digits.{Stops}
use aoq.MemPool.{Chunk, Mem}
use aoq.MemPool.Pool.{IsPool}
use aoq.Cursor.{at}
use aoq.Cursor.Text.{Ahead}
use aoq.Parser.{Arg, create_args}
use aoq.Parser.Request.{lengths, joined, headed}
use aoq.Parser.Argn.{lengths_text}
use aoq.Queue.{Queue}
use aoq.Queue.Push.{IsQueue}
use aoq.HashTable.{hash_find}
use aoq.ServerStat.{ServerStat}
use aoq.Command.{Server, Outside, push, pop}
use aoq.Command.Handlers.{Opens, Leaves}
use aoq.Receive.{Aoq, World, ck_size, outside_of, command_func, socket_read_cb}
use aoq.Func.{Read}
use aoq.Receive.Fill.{Clear}
use aoq.Receive.Parsed.{args_at, IsRequest}
use aoq.Receive.Spread.{IsLong, request-headed}
use aoq.Service.{IsPlain}
use aoq.Service.Name.{get_queue_name-plain}
use aoq.Service.Messages.{Msg, values, cells, Lives}

-- The server keeps the queue `name` at `p`, with the values `vs` in this order: the pool is well-formed, its
-- chunks are cleared and of at least 1024 bytes, the table knows the queue, which is well-formed, and its
-- messages are those of the values, each in chunks of its own.
pub record Serves (o : Outside) (name : List ℕ) (p : Ptr) (vs : List (List ℕ)) (s : Server)
    : Type 0 where
  pub free : Cells Chunk
  pub messages : List Msg
  pub queue : Queue
  pub pool : IsPool s.mem free
  pub clear : Clear s.mem.mp.cksize free
  pub big : ck_size ≤ s.mem.mp.cksize
  pub lives : Lives o.fuel s.mem free name messages
  pub known : hash_find o.fuel s.names.ht (name ++ 0 ∷ o.beyond) ≡ ok (some p)
  pub at : p ≢ null
  pub there : read s.names.queues p ≡ some queue
  pub well : IsQueue s.nodes queue (cells name messages)
  pub contents : values messages ≡ vs

-- A name that a request can have.
pub record IsName (name : List ℕ) : Type 0 where
  pub plain : IsPlain name
  pub no_nul : All (λ c. c ≢ 0) name
  pub some_text : 0 < length name
  pub short : length name < 1024

-- The first argument of a request is one, if it has no blanks.
pub request-IsName :
    (fuel hl command : ℕ) (name : List ℕ) (ts : List (List ℕ)) (rest : List ℕ)
    → IsPlain name
    → IsRequest fuel hl command (name ∷ ts) rest
    → IsName name
request-IsName fuel hl command name ts rest plain r =
    let (some_text, short, no_nul) = r.texts.0 in
    let counts = lengths_text (lengths (name ∷ ts)) in
    let n = length-append counts (32 ∷ (joined (name ∷ ts) ++ rest)) in
    let n' = length-append (joined (name ∷ ts)) rest in
    let n'' = length-append name (joined ts) in
    record {
      plain = plain;
      no_nul = no_nul;
      some_text = some_text;
      short = omega (arith, r.short, n, n', n'');
    }

pub long-IsName :
    (fuel hl command : ℕ) (name value : List ℕ)
    → IsPlain name
    → IsLong fuel hl command name value
    → IsName name
long-IsName fuel hl command name value plain l = record {
  plain = plain;
  no_nul = l.name_text.2;
  some_text = l.name_text.0;
  short = omega (arith, l.first_chunk);
}

-- What fits the buffer of a request fits that of a reply.
pub long-short :
    (fuel hl command : ℕ) (name value : List ℕ)
    → IsLong fuel hl command name value
    → length value ≤ 999997
long-short fuel hl command name value l =
    let start = headed hl command (name ∷ value ∷ []) name in
    omega (
      arith,
      l.size,
      ap length (request-headed hl command name value),
      length-append start (value ++ b'\n' ∷ []),
      length-append value (b'\n' ∷ []),
    )

pub request-Opens :
    (o : Outside) (name : List ℕ) (p : Ptr) (vs : List (List ℕ)) (s : Server) (m : Mem)
    (slab chunk : Ptr) (ts : List (List ℕ)) (rest : List ℕ)
    → (S : Serves o name p vs s) → IsName name
    → length ts < 5
    → Ahead m.chunks (at chunk (5 + 6 * length (name ∷ ts))) (name ++ rest)
    → (opens : Opens o (args_at slab chunk (name ∷ ts)) (record s { mem = m }) p S.queue)
      × (opens.qname ≡ name ++ 0 ∷ o.beyond)
unfolding create_args
request-Opens o name p vs s m slab chunk ts rest S is lt ahead =
    let short = is.short in
    let some_text = is.some_text in
    (
      record {
        arg = _;
        qname = name ++ 0 ∷ o.beyond;
        text = name;
        first = refl;
        good = ground arith;
        name =
            get_queue_name-plain o.beyond m.chunks name rest _ is.plain is.some_text refl
              (_, refl, ahead);
        shown = c_string-text name o.beyond is.no_nul;
        some_text = ground arith;
        known = S.known;
        at = S.at;
        there = S.there;
      },
      refl,
    )

pub command_func-push :
    (w : World) (serv : ServerStat) (fd : ℕ) (args : List Arg) (s : Server)
    → command_func w serv (pos 2) fd args s ≡ push (outside_of w serv) fd args s
unfolding command_func
command_func-push w serv fd args s = refl

pub command_func-pop :
    (w : World) (serv : ServerStat) (fd : ℕ) (args : List Arg) (s : Server)
    → command_func w serv (pos 3) fd args s ≡ pop (outside_of w serv) fd args s
unfolding command_func
command_func-pop w serv fd args s = refl

-- What a request leaves: the memory, and the queue with its messages.
pub Serves-after :
    {o : Outside} {args : List Arg} {s : Server} {p : Ptr} {q : Queue} (opens : Opens o args s p q)
    (fd : ℕ) (name text : List ℕ) (s' : Server) (m : Mem) (xs : Cells Chunk) (ms : List Msg)
    → hash_find o.fuel s.names.ht (name ++ 0 ∷ o.beyond) ≡ ok (some p)
    → Leaves opens fd text (cells name ms) s'
    → s'.mem ≡ m
    → IsPool m xs
    → Clear m.mp.cksize xs
    → ck_size ≤ m.mp.cksize
    → Lives o.fuel m xs name ms
    → Serves o name p (values ms) s'
Serves-after {p} opens fd name text s' m xs ms known leaves e pool clear big lives = record {
  free = xs;
  messages = ms;
  queue = leaves.queue;
  pool = rw e pool;
  clear = rw e clear;
  big = rw e big;
  lives = rw e lives;
  known = rw (leaves.table) known;
  at = opens.at;
  there = leaves.stored;
  well = leaves.holds;
  contents = refl;
}

-- The callback returns, the reply is `text`, and the queue then has the values `vs`.
abbrev pub Answers : World → List ℕ → Ptr → Aoq → ℕ → List Read → List ℕ → List (List ℕ) → Type 0
Answers w name p a fd reads text vs =
    (s : Server) × (socket_read_cb w (pos fd) reads a ≡ ok (record a { server = s }))
    × Serves (outside_of w a.serv) name p vs s
    × (s.replies ≡ (fd, text) ∷ a.server.replies)

-- The fuel is above 2, the memory behind the two-byte blocks starts with no digit, and no log is kept.
pub record Ready (w : World) (a : Aoq) : Type 0 where
  pub fuel : 2 < w.outside.fuel
  pub stops : Stops w.outside.beyond
  pub no_log : a.serv.persistent ≡ false
