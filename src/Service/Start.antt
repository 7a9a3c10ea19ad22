-- ===== src/Service/Start.antt =====
-- The first request for a queue, and the server from its start on.
use aoq.Prelude.{
  ℕ, suc, ap, ◌+◌, ◌-◌, ◌≤◌, ◌<◌, ◌≡◌, refl, Option, if◌then◌else◌, true, false, some, none, List,
  [], ◌∷◌, ◌++◌, arith, length, All, length-append,
}
use aoq.Prelude.Int.{pos, negsuc, ◌==ℤ◌, pos_part}
use aoq.Daemon.{tcp_server_init}
use aoq.Events.{aoq_start, DataFile, create_param_data_file}
use aoq.Heap.{Ptr, ok}
use aoq.Heap.Chain.{Cells}
use aoq.CText.Digits.{Stops}
use aoq.MemPool.{Chunk}
use aoq.MemPool.Pool.{IsPool}
use aoq.HashTable.{hash_find}
use aoq.HashTable.Text.{Named}
use aoq.HashTable.Insert.{IsTable}
use aoq.HashTable.InsertFind.{Draws}
use aoq.Queue.Fifo.{spec_run, create_queue-IsQueue}
use aoq.Queue.{create_queue, int_max}
use aoq.Registry.Get.{get_queue-fresh}
use aoq.Command.{Server, Outside}
use aoq.Receive.{Aoq, World, ck_size, outside_of}
use aoq.Receive.Fill.{Clear}
use aoq.Main.{
  Opt, Options, Launch, or_else, default_ck_size, default_aoq_max_size, read_options, no_options,
  set_up, settings, may_start, launch, main, with_log,
}
use aoq.Main.Start.{set_up-Ready}
use aoq.Service.Serves.{IsName, Ready}
use aoq.Service.{IsPlain}
use aoq.ServerStat.{ServerStat}
use aoq.Service.Opened.{Opened}
use aoq.Service.Sequence.{Ask, IsAsk, ops, written, serve_all, serve_all-refines}

-- A queue that no request was for.
pub fresh-Opened :
    (o : Outside) (n : ℕ) (name : List ℕ) (s : Server) (xs : Cells Chunk)
    → o.fuel ≡ suc n
    → IsPool s.mem xs
    → Clear s.mem.mp.cksize xs
    → ck_size ≤ s.mem.mp.cksize
    → IsTable s.names.ht
    → s.names.ht.total < s.names.ht.size
    → Named name (name ++ 0 ∷ o.beyond)
    → length name ≤ 7
    → 7 ≤ length name + length o.beyond
    → hash_find n s.names.ht (name ++ 0 ∷ o.beyond) ≡ ok none
    → Draws o.rands s.names.ht (name ++ 0 ∷ o.beyond)
    → (p : Ptr) × Opened o name p [] s
fresh-Opened o n name s xs enough pool clear big table room named short readable absent draws =
    let ((p, names), run, (ne, there, known)) =
      get_queue-fresh o.malloc_queue o.realloc n o.rands name (name ++ 0 ∷ o.beyond) s.names table
        room named short (omega (arith, readable, length-append name (0 ∷ o.beyond))) absent
        draws in
    (
      p,
      record {
        names = names;
        got = rw enough run;
        serves = record {
          free = xs;
          messages = [];
          queue = create_queue (name ++ 0 ∷ o.beyond);
          pool = pool;
          clear = clear;
          big = big;
          lives = tt;
          known = rw enough known;
          at = ne;
          there = there;
          well = create_queue-IsQueue (name ++ 0 ∷ o.beyond) s.nodes;
          contents = refl;
        };
      },
    )

-- The server as the event loop starts.
abbrev looping : Options → Aoq → Aoq
looping o a = record (with_log o a) {
  serv = record (a.serv) { status = pos 1 };
  sockets = record (a.sockets) { listening = true };
}

main-looping :
    (l : Launch) (opts : List (Opt × List ℕ)) (o : Options) (a : Aoq)
    → read_options opts no_options ≡ ok (some o)
    → may_start l o ≡ ok true
    → o.recover ≡ false
    → ((tcp_server_init l.net []).0 ==ℤ negsuc 0) ≡ false
    → set_up l o ≡ ok a
    → (file : Option DataFile) × (main l opts ≡ ok (some (file, looping o a)))
unfolding main launch aoq_start
main-looping l opts o a read go off listens run =
    (if o.aomp then create_param_data_file else none, rw (read, go, run, off, listens) refl)

looping-serves :
    (o : Options) (w : World) (name : List ℕ) (p : Ptr) (a : Aoq) (rs : List Ask) (max_size : ℕ)
    → Ready w a
    → pos_part a.serv.aoq_max_size ≡ max_size
    → a.server.replies ≡ []
    → IsPlain name
    → All (IsAsk w name) rs
    → length rs ≤ int_max
    → Opened (outside_of w a.serv) name p [] a.server
    → (s : Server) × (serve_all w rs (looping o a) ≡ ok (record (looping o a) { server = s }))
      × (s.replies ≡ written rs (spec_run max_size (ops rs) []) [])
looping-serves o w name p a rs max_size ready size silent plain asks few opened =
    let (s, ran, replies, _) =
      serve_all-refines w name p (looping o a) rs []
        (record { fuel = ready.fuel; stops = ready.stops; no_log = ready.no_log }) plain asks
        (omega (arith, few)) opened in
    (s, ran, rw (size, silent) at replies)

-- From its arguments to its replies: when `main` reads the arguments to the end, and they ask for
-- neither the log nor its recovery, and for chunks of at least 1024 bytes or for no size, and when it
-- goes on behind the part on the daemon and the listening socket can be made, then `main` gets to the
-- event loop. The server then answers any sequence of `push` and `pop` requests for one queue, each
-- to the connection that asked, as a first-in, first-out queue does that starts empty and takes a
-- message as long as it has at most the asked number, or the default, of them; it may have one more.
-- The connections are not 0, and the requests no more than an `int` counts. The name has at most
-- seven bytes, no blank and no `NUL`, and there are eight bytes to read with those behind it; a
-- request has a head length of 1 to 99 and ends with its newline; a value has less than a million
-- bytes and a `push` less than 1000010; neither is empty, and they have no `NUL` or newline. The fuel
-- is above 2, above the length of the name, and above twice that of any `push`; and what memory holds
-- behind the two-byte blocks starts with no digit.
pub main-serves :
    (l : Launch) (opts : List (Opt × List ℕ)) (o : Options) (w : World) (name : List ℕ)
    (rs : List Ask)
    → read_options opts no_options ≡ ok (some o)
    → o.persistent ≡ false
    → o.recover ≡ false
    → may_start l o ≡ ok true
    → ((tcp_server_init l.net []).0 ==ℤ negsuc 0) ≡ false
    → ck_size ≤ pos_part (or_else o.chunk_size default_ck_size)
    → 2 < w.outside.fuel
    → Stops w.outside.beyond
    → IsName name
    → length name ≤ 7
    → 7 ≤ length name + length w.outside.beyond
    → All (IsAsk w name) rs
    → length rs ≤ int_max
    → (file : Option DataFile) × (a : Aoq) × (s : Server) × (main l opts ≡ ok (some (file, a)))
      × (serve_all w rs a ≡ ok (record a { server = s }))
      × (s.replies
          ≡ written rs
              (spec_run (pos_part (or_else o.aoq_max_size default_aoq_max_size)) (ops rs) [])
              [])
unfolding settings
main-serves l opts o w name rs read off no_log go listens big enough stops is short readable asks
      few =
    let (a, run, r) =
      set_up-Ready l opts o name (name ++ 0 ∷ w.outside.beyond) (w.outside.fuel - 1) read
        (is.no_nul, _, refl) in
    let (file, started) = main-looping l opts o a read go no_log listens run in
    let (p, opened) =
      fresh-Opened (outside_of w a.serv) (w.outside.fuel - 1) name a.server r.free
        (omega (arith, enough)) r.pool (rw r.chunk r.clear) (rw r.chunk big) r.table r.room
        (is.no_nul, _, refl) short readable r.no_queue
        (λ i b v h g e. let free = r.blank i b g in cc) in
    let kept = r.kept in
    let (s, ran, replies) =
      looping-serves o w name p a rs _
        (record { fuel = enough; stops = stops; no_log = rw kept off })
        (ap (λ (x : ServerStat). pos_part x.aoq_max_size) kept) r.silent is.plain asks few opened in
    (file, looping o a, s, started, ran, replies)
