-- ===== src/Service/Sequence.antt =====
-- Any sequence of requests for one queue, from any connections.
use aoq.Prelude.{ℕ, ◌+◌, ◌≤◌, ◌<◌, arith, length, ◌≡◌, refl, ◌≢◌, List, [], ◌∷◌, All}
use aoq.Prelude.Int.{pos, pos_part}
use aoq.Heap.{Ptr, Run, ok, ◌>>=◌}
use aoq.Parser.Request.{request}
use aoq.Queue.Fifo.{Op, Reply, push, pop, spec_step, spec_run, length-spec_step}
use aoq.Queue.{int_max}
use aoq.Func.{Read}
use aoq.Func.ReadCmd.{Brings}
use aoq.Command.{Server}
use aoq.Receive.{Aoq, World, outside_of, socket_read_cb}
use aoq.Receive.Parsed.{IsRequest}
use aoq.Receive.Spread.{IsLong}
use aoq.Service.{push_bytes, pop_bytes, told, IsPlain}
use aoq.Service.Opened.{Opened, Serves-Opened}
use aoq.Service.Serves.{Ready, Answers}
use aoq.Service.Push.{socket_read_cb-push}
use aoq.Service.Pop.{socket_read_cb-pop}

-- A connection, the head length that the client sends, what is asked, and the pieces in which its bytes come.
pub record Ask : Type 0 where
  pub fd : ℕ
  pub hl : ℕ
  pub op : Op (List ℕ)
  pub reads : List Read

-- The callback runs once for each.
unfoldable pub serve_all : World → List Ask → Aoq → Run Aoq
serve_all w [] a = ok a
serve_all w (r ∷ rs) a = socket_read_cb w (pos r.fd) r.reads a >>= serve_all w rs

abbrev pub ops : List Ask → List (Op (List ℕ))
ops [] = []
ops (r ∷ rs) = r.op ∷ ops rs

-- The pieces are those of a request that the server takes, for the queue `name`.
abbrev pub BringsOp : World → List ℕ → ℕ → List Read → Op (List ℕ) → Type 0
BringsOp w name hl reads (push value) =
    IsLong w.outside.fuel hl 2 name value × Brings reads [] (push_bytes hl name value)
BringsOp w name hl reads pop =
    IsRequest w.outside.fuel hl 3 (name ∷ []) (b'\n' ∷ []) × Brings reads [] (pop_bytes hl name)

abbrev pub IsAsk : World → List ℕ → Ask → Type 0
IsAsk w name r = (r.fd ≢ 0) × BringsOp w name r.hl r.reads r.op

-- What is written for the replies, each to the connection that asked, the latest first, before what had
-- been written.
abbrev pub written : List Ask → List (Reply (List ℕ)) → List (ℕ × List ℕ) → List (ℕ × List ℕ)
written [] rs before = before
written (q ∷ qs) [] before = before
written (q ∷ qs) (r ∷ rs) before = written qs rs ((q.fd, told r) ∷ before)

-- What the abstract queue holds at the end.
abbrev pub spec_end : ℕ → List (Op (List ℕ)) → List (List ℕ) → List (List ℕ)
spec_end max_size [] vs = vs
spec_end max_size (o ∷ os) vs = spec_end max_size os (spec_step max_size o vs).1

socket_read_cb-ask :
    (w : World) (name : List ℕ) (p : Ptr) (a : Aoq) (fd hl : ℕ) (reads : List Read)
    (op : Op (List ℕ)) (vs : List (List ℕ))
    → Ready w a
    → IsPlain name
    → fd ≢ 0
    → BringsOp w name hl reads op
    → length vs < int_max
    → Opened (outside_of w a.serv) name p vs a.server
    → let r = spec_step (pos_part a.serv.aoq_max_size) op vs in
      Answers w name p a fd reads (told r.0) r.1
socket_read_cb-ask w name p a fd hl reads (push value) vs ready plain ne (request, brings) few S =
    socket_read_cb-push w name p a fd hl reads value vs ready plain request brings ne few S
socket_read_cb-ask w name p a fd hl reads pop vs ready plain ne (request, brings) few S =
    socket_read_cb-pop w name p a fd hl reads vs ready plain request brings ne S

-- The server refines a first-in, first-out queue that takes a message as long as it has at most
-- `aoq_max_size` of them, and so may hold one more. When `getQueue` finds or makes the queue `name`,
-- which then holds the values `vs`, each of at most 999997 bytes, in a server that keeps no log and
-- whose pool is well-formed with cleared chunks of at least 1024 bytes, then after any sequence of
-- `push` and `pop` requests for that name, over any connections but 0, every callback has returned,
-- what was written is the replies of the abstract queue that starts with `vs`, each to the connection
-- that asked, and the server holds the values that the abstract queue holds at the end. The values
-- and the requests are together no more than an `int` counts. A request has any head length of 1 to
-- 99, and its one newline is its last byte, so that it has no `NUL` behind it as what the
-- command-line client sends. The name has no blanks and at most 1006 bytes; a value has less than a
-- million bytes and a `push` less than 1000010, and may run over any number of chunks; neither is
-- empty, and they have no `NUL` or newline. The fuel is above 2, above the length of the name, and
-- above twice that of any `push`; and what memory holds behind the two-byte blocks starts with no
-- digit.
pub serve_all-refines :
    (w : World) (name : List ℕ) (p : Ptr) (a : Aoq) (rs : List Ask) (vs : List (List ℕ))
    → Ready w a
    → IsPlain name
    → All (IsAsk w name) rs
    → length vs + length rs ≤ int_max
    → Opened (outside_of w a.serv) name p vs a.server
    → (s : Server) × (serve_all w rs a ≡ ok (record a { server = s }))
      × (s.replies
          ≡ written rs (spec_run (pos_part a.serv.aoq_max_size) (ops rs) vs) a.server.replies)
      × Opened (outside_of w a.serv) name p (spec_end (pos_part a.serv.aoq_max_size) (ops rs) vs) s
unfolding serve_all
serve_all-refines w name p a [] vs ready plain asks few S = (a.server, refl, refl, S)
serve_all-refines w name p a (r ∷ rs) vs ready plain ((ne, brings), asks) few S =
    let (s, run, S', replies) =
      socket_read_cb-ask w name p a r.fd r.hl r.reads r.op vs ready plain ne brings (omega arith)
        S in
    let (s', runs, replies', S'') =
      serve_all-refines w name p (record a { server = s }) rs _
        (record { fuel = ready.fuel; stops = ready.stops; no_log = ready.no_log }) plain asks
        (omega (arith, few, length-spec_step (pos_part a.serv.aoq_max_size) r.op vs))
        (Serves-Opened (outside_of w a.serv) name p _ s S') in
    (s', rw (run, runs), rw replies at replies', S'')
