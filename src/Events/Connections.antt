-- ===== src/Events/Connections.antt =====
-- The connections over any number of callbacks.
use aoq.Prelude.{
  ℕ, ◌+◌, ◌≤◌, ◌≡◌, refl, inl, inr, true, false, Bool, Option, List, [], ◌∷◌, ◌++◌, arith, length,
  if◌then◌else◌,
}
use aoq.Prelude.Int.{ℤ, pos, negsuc, ◌+ℤ◌, ◌-ℤ◌, ltb_ℤ, ◌==ℤ◌}
use aoq.Heap.{ok, bind-eq-ok}
use aoq.MemPool.{tune_mempool}
use aoq.AoqLog.{save_aoq_log}
use aoq.ServerStat.{get_process_mem}
use aoq.Receive.{Aoq, World, without, disconnect}
use aoq.Receive.Same.{Same, returned, socket_read_cb-cases}
use aoq.Events.{
  close_listener, admit, turn_away, accept_cb, out_of_memory, DataFile, event_calculate_cb,
  event_memcheck_cb, event_savelog_cb, Step, accepts, reads, saves, calculates, checks, Reach, here,
  next,
}

-- The counter is the number of the connections that have an event, which is at most the limit `n`.
pub record Counted (n : ℕ) (a : Aoq) : Type 0 where
  pub limit : a.serv.max_client_connection ≡ pos n
  pub count : a.serv.client_connection ≡ pos (length a.sockets.watched)
  pub few : length a.sockets.watched ≤ n

Same-Counted : (n : ℕ) (a b : Aoq) → Same a b → Counted n a → Counted n b
Same-Counted n a b s c = record {
  limit = rw s.serv c.limit;
  count = rw (s.serv, s.sockets) c.count;
  few = rw s.sockets c.few;
}

length-without :
    (fd : ℤ) (pre post : List ℤ)
    → length (without fd (pre ++ fd ∷ post)) + 1 ≡ length (pre ++ fd ∷ post)
length-without fd [] post = let e : fd ==ℤ fd ≡ true = ground arith in rw e (omega arith)
length-without fd (x ∷ pre) post = ground (arith, length-without fd pre post)

disconnect-Counted :
    (n : ℕ) (fd : ℤ) (pre post : List ℤ) (a : Aoq)
    → a.sockets.watched ≡ pre ++ fd ∷ post
    → Counted n a
    → Counted n (disconnect fd a)
unfolding disconnect ◌-ℤ◌
disconnect-Counted n fd pre post a e c =
    let one_less : length (without fd a.sockets.watched) + 1 ≡ length a.sockets.watched =
      rw e (length-without fd pre post) in
    record { limit = c.limit; count = rw c.count (ground arith); few = omega (arith, c.few) }

if-both :
    (P : Aoq → Type 0) (c : Bool) (x y : Aoq)
    → (c ≡ true → P x)
    → (c ≡ false → P y)
    → P (if c then x else y)
if-both P true x y f g = f refl
if-both P false x y f g = g refl

accept_cb-Counted : (n : ℕ) (sockfd : ℤ) (a : Aoq) → Counted n a → Counted n (accept_cb sockfd a)
unfolding accept_cb ◌+ℤ◌
accept_cb-Counted n sockfd a c =
    if-both (Counted n) (a.serv.status ==ℤ negsuc 0) (close_listener a) _
      (λ _. record { limit = c.limit; count = c.count; few = c.few })
      (λ _.
        if-both (Counted n) (ltb_ℤ a.serv.client_connection a.serv.max_client_connection)
          (admit sockfd a) (turn_away sockfd a)
          (λ room.
            let lt = rw (c.count, c.limit) at room in
            record { limit = c.limit; count = rw c.count (ground arith); few = ground arith })
          (λ _. record { limit = c.limit; count = c.count; few = c.few }))

-- What a timer's callback that returns may change of the settings and the sockets.
record Settled (a b : Aoq) : Type 0 where
  pub limit : b.serv.max_client_connection ≡ a.serv.max_client_connection
  pub count : b.serv.client_connection ≡ a.serv.client_connection
  pub sockets : b.sockets ≡ a.sockets
  pub closed : a.serv.status ≡ negsuc 0 → b.serv.status ≡ negsuc 0

event_savelog_cb-Settled :
    (failed : Option (List ℕ)) (text : List ℕ) (a b : Aoq)
    → event_savelog_cb failed a ≡ ok (text, b)
    → Settled a b
unfolding event_savelog_cb
event_savelog_cb-Settled failed text a b e =
    let ((r, t, l), _, e') = bind-eq-ok (save_aoq_log false failed a.aoqlog) _ e in
    returned (λ q. Settled a q.1) (t, record a { aoqlog = l }) (text, b) e'
      (record { limit = refl; count = refl; sockets = refl; closed = λ h. h })

event_calculate_cb-Settled :
    (w : World) (forecast : ℤ) (file file' : Option DataFile) (a b : Aoq)
    → event_calculate_cb w forecast file a ≡ ok (file', b)
    → Settled a b
unfolding event_calculate_cb
event_calculate_cb-Settled w forecast file file' a b e =
    let (m, _, e') =
      bind-eq-ok
        (tune_mempool w.malloc_chunk
          (if forecast ==ℤ pos 0 then a.server.mem.chunk_used_num else forecast) a.server.mem)
        _ e in
    returned (λ q. Settled a q.1) (_, record a { server = record (a.server) { mem = m } })
      (file', b) e' (record { limit = refl; count = refl; sockets = refl; closed = λ h. h })

event_memcheck_cb-Settled : (w : World) (a b : Aoq) → event_memcheck_cb w a ≡ ok b → Settled a b
unfolding event_memcheck_cb
event_memcheck_cb-Settled w a b e =
    let (p, _, e') = bind-eq-ok (get_process_mem w.process) _ e in
    returned (Settled a) _ b e' (
      if-both (Settled a) (ltb_ℤ p.vmrss a.serv.max_memory) a (out_of_memory a)
        (λ _. record { limit = refl; count = refl; sockets = refl; closed = λ h. h })
        (λ _. record { limit = refl; count = refl; sockets = refl; closed = λ h. refl }))

Settled-Counted : (n : ℕ) (a b : Aoq) → Settled a b → Counted n a → Counted n b
Settled-Counted n a b s c = record {
  limit = rw s.limit c.limit;
  count = rw (s.count, s.sockets) c.count;
  few = rw s.sockets c.few;
}

Step-Counted : (n : ℕ) (a b : Aoq) → Counted n a → Step a b → Counted n b
Step-Counted n a _ c (accepts _ sockfd up) = accept_cb-Counted n sockfd a c
Step-Counted n a b c (reads w fd pre post rs e run) = elim (socket_read_cb-cases w fd rs a b run) [
  | inl gone ↦ rw gone (disconnect-Counted n fd pre post a e c)
  | inr same ↦ Same-Counted n a b same c
]
Step-Counted n a b c (saves failed text on run) =
    Settled-Counted n a b (event_savelog_cb-Settled failed text a b run) c
Step-Counted n a b c (calculates w forecast file file' on run) =
    Settled-Counted n a b (event_calculate_cb-Settled w forecast file file' a b run) c
Step-Counted n a b c (checks w on run) =
    Settled-Counted n a b (event_memcheck_cb-Settled w a b run) c

-- When the counter is the number of connections, and that is within the limit, both stay so over any
-- number of callbacks that return, in any order and with any requests.
pub Reach-Counted : (n : ℕ) (a b : Aoq) → Counted n a → Reach a b → Counted n b
Reach-Counted n a _ c here = c
Reach-Counted n a b c (next r st) = Step-Counted n _ b (Reach-Counted n a _ c r) st

-- The server takes no connection any more, and has at most `n`.
pub record Closed (n : ℕ) (a : Aoq) : Type 0 where
  pub status : a.serv.status ≡ negsuc 0
  pub few : length a.sockets.watched ≤ n

length-without-le : (fd : ℤ) (xs : List ℤ) → length (without fd xs) ≤ length xs
length-without-le fd [] = omega arith
length-without-le fd (x ∷ xs) = ground (arith, length-without-le fd xs)

accept_cb-Closed : (n : ℕ) (sockfd : ℤ) (a : Aoq) → Closed n a → Closed n (accept_cb sockfd a)
unfolding accept_cb
accept_cb-Closed n sockfd a c =
    if-both (Closed n) (a.serv.status ==ℤ negsuc 0) (close_listener a) _
      (λ _. record { status = c.status; few = c.few })
      (λ open'. let f = rw c.status at open' in absurd (ground arith))

Settled-Closed : (n : ℕ) (a b : Aoq) → Settled a b → Closed n a → Closed n b
Settled-Closed n a b s c = record { status = s.closed c.status; few = rw s.sockets c.few }

Step-Closed : (n : ℕ) (a b : Aoq) → Closed n a → Step a b → Closed n b
Step-Closed n a _ c (accepts _ sockfd up) = accept_cb-Closed n sockfd a c
Step-Closed n a b c (reads w fd pre post rs e run) = elim (socket_read_cb-cases w fd rs a b run) [
  | inl gone ↦
      unfold disconnect in
      rw gone (record {
        status = c.status;
        few = omega (arith, c.few, length-without-le fd a.sockets.watched);
      })
  | inr same ↦ record { status = rw same.serv c.status; few = rw same.sockets c.few }
]
Step-Closed n a b c (saves failed text on run) =
    Settled-Closed n a b (event_savelog_cb-Settled failed text a b run) c
Step-Closed n a b c (calculates w forecast file file' on run) =
    Settled-Closed n a b (event_calculate_cb-Settled w forecast file file' a b run) c
Step-Closed n a b c (checks w on run) = Settled-Closed n a b (event_memcheck_cb-Settled w a b run) c

-- Once the check of the memory has set the status to -1, over any number of callbacks that return the
-- status stays -1, and there are never more connections than there were.
pub Reach-Closed : (n : ℕ) (a b : Aoq) → Closed n a → Reach a b → Closed n b
Reach-Closed n a _ c here = c
Reach-Closed n a b c (next r st) = Step-Closed n _ b (Reach-Closed n a _ c r) st
