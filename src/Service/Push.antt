-- ===== src/Service/Push.antt =====
-- A `push` through the socket.
use aoq.Prelude.{
  ℕ, ◌+◌, ◌≤◌, ◌<◌, ◌∙◌, sym, ap, ◌≡◌, refl, ◌≢◌, inl, inr, false, List, [], ◌∷◌, ◌++◌, arith,
  length, ltb, Bool-cases, ◌==◌,
}
use mathlib.Core.Path.{subst}
use aoq.Prelude.Int.{pos_part}
use aoq.Heap.{Ptr, ok, Returns, ◌>>=◌}
use aoq.Heap.Chain.{Cells}
use aoq.MemPool.{Chunk, Mem}
use aoq.Queue.Push.{id_behind}
use aoq.Queue.{int_max}
use aoq.Queue.Fifo.{spec_step}
use aoq.Queue.Fifo
use aoq.Command
use aoq.Func.{Read}
use aoq.Func.ReadCmd.{Brings}
use aoq.Command.{Server, Outside, one_byte}
use aoq.Command.Handlers.{Opens, Leaves, push-Pushed, push-refused}
use aoq.Receive.{Aoq, World, outside_of}
use aoq.Receive.Parsed.{args_at}
use aoq.Receive.Spread.{IsLong, Spread, spread, socket_read_cb-Spread}
use aoq.Service.{push_bytes, told, IsPlain}
use aoq.Service.Messages.{
  Msg, Apart, Lives, cells, values-append, cells-append, length-cells, Lives-frame, Lives-All,
  Lives-snoc, push_at,
}
use aoq.Service.Memory.{Arrival, Spread-Arrival, Arrival-apart, Arrival-Framed}
use aoq.Service.Opened.{Opened, push-opened}
use aoq.Service.Serves.{
  IsName, Serves, Ready, Answers, long-IsName, long-short, request-Opens, command_func-push,
  Serves-after,
}

-- The memory of the messages, when a request has arrived.
pub Lives-Arrival :
    (fuel : ℕ) (m m' : Mem) (xs : Cells Chunk) (name : List ℕ) (new free : Cells Chunk)
    (memslab : Ptr) (ms : List Msg)
    → Arrival m xs new memslab free m'
    → Lives fuel m xs name ms
    → Lives fuel m' free name ms
Lives-Arrival fuel m m' xs name new free memslab ms a l =
    Lives-frame fuel (λ M. Unit {0}) m m' xs free name ms
      (λ M o u. Arrival-Framed fuel m m' xs name M o new free memslab a)
      (Lives-All fuel (λ M. Unit {0}) m xs name ms (λ M o. tt) l) l

-- A `push` that has arrived is a message of its own.
Lives-pushed :
    (fuel : ℕ) (m m' : Mem) (xs : Cells Chunk) (hl : ℕ) (name value : List ℕ) (memslab node : Ptr)
    (id : ℕ) (ms : List Msg)
    → (a : Spread m xs hl 2 name value memslab m') → length a.rest + 1 < fuel
    → length value ≤ 999997
    → Lives fuel m xs name ms
    → Lives fuel m' a.free name (
        ms
        ++ (record {
          hl = hl;
          slab = memslab;
          chunk = a.p;
          front = a.front;
          behind = a.behind;
          rest = a.rest;
          node = node;
          id = id;
          value = value;
        }
            ∷ []))
Lives-pushed fuel m m' xs hl name value memslab node id ms a few short l =
    let N : Msg = record {
      hl = hl;
      slab = memslab;
      chunk = a.p;
      front = a.front;
      behind = a.behind;
      rest = a.rest;
      node = node;
      id = id;
      value = value;
    } in
    let new = spread hl 2 name value a.p a.front a.behind a.rest in
    let arrival = Spread-Arrival m m' xs hl name value memslab a in
    Lives-snoc fuel m' a.free name ms N
      (Lives-Arrival fuel m m' xs name new a.free memslab ms arrival l)
      (record {
        r = a.r;
        slab = a.receiving.slab;
        out = a.receiving.apart;
        texts = a.texts;
        whole = a.whole;
        no_nul = a.no_nul;
        few = few;
        short = short;
      })
      (Lives-All fuel (λ M. Apart name M N) m xs name ms
        (λ M o. Arrival-apart fuel m m' xs name M o new a.free memslab arrival) l)

module _ (o : Outside) (name : List ℕ) (p : Ptr) (s : Server) (fd hl : ℕ) (value : List ℕ)
    (vs : List (List ℕ)) (S : Serves o name p vs s) (is : IsName name) (ne : fd ≢ 0) (m : Mem)
    (memslab : Ptr) (here : Spread s.mem S.free hl 2 name value memslab m) where
  push-Opens :
      (opens : Opens o
        (args_at memslab here.p (name ∷ value ∷ []))
        (record s { mem = m })
        p
        S.queue)
      × (opens.qname ≡ name ++ 0 ∷ o.beyond)
  push-Opens =
      request-Opens o name p vs s m memslab here.p (value ∷ []) (here.front ++ 0 ∷ here.behind) S is
        (omega arith)
        (push_at m memslab here.p hl name value here.front here.behind here.rest
          here.receiving.slab)

  -- A `push` that has arrived and is refused.
  push-over :
      o.max_size < length vs
      → Returns
          (Command.push o fd (args_at memslab here.p (name ∷ value ∷ [])) (record s { mem = m }))
          λ s'. Serves o name p vs s' × (s'.replies ≡ (fd, one_byte b'2' b'1') ∷ s.replies)
  push-over over =
      let (opens, _) = push-Opens in
      let n = length-cells name S.messages ∙ ap length S.contents in
      let (s', run, (leaves, e)) =
        push-refused opens fd (cells name S.messages) S.well (omega (arith, over, n)) in
      let lives =
        Lives-Arrival o.fuel s.mem m S.free name _ here.free memslab S.messages
          (Spread-Arrival s.mem m S.free hl name value memslab here) S.lives in
      let serves =
        Serves-after opens fd name (one_byte b'2' b'1') s' m here.free S.messages S.known leaves e
          here.receiving.pool here.receiving.clear (omega (arith, S.big, here.cksize)) lives in
      let not_log : fd == 0 ≡ false = ground arith in
      (
        s',
        run,
        (subst (λ ws. Serves o name p ws s') S.contents serves, leaves.replies ∙ rw not_log refl),
      )

  -- A `push` that has arrived and is let in.
  push-fits :
      length here.rest + 1 < o.fuel
      → length vs ≤ o.max_size
      → length vs < int_max
      → length value ≤ 999997
      → Returns
          (Command.push o fd (args_at memslab here.p (name ∷ value ∷ [])) (record s { mem = m }))
          λ s'.
            Serves o name p (vs ++ (value ∷ [])) s'
            × (s'.replies ≡ (fd, one_byte b'2' b'1') ∷ s.replies)
  push-fits few fits counted short =
      let (opens, _) = push-Opens in
      let n = length-cells name S.messages ∙ ap length S.contents in
      let (s', run, (leaves, e)) =
        push-Pushed opens fd (cells name S.messages) S.well (omega (arith, fits, n))
          (omega (arith, counted, n)) in
      let N : Msg = record {
        hl = hl;
        slab = memslab;
        chunk = here.p;
        front = here.front;
        behind = here.behind;
        rest = here.rest;
        node = o.malloc_node.fresh s.nodes;
        id = id_behind o.max_size (cells name S.messages);
        value = value;
      } in
      let lives =
        Lives-pushed o.fuel s.mem m S.free hl name value memslab N.node N.id S.messages here few
          short S.lives in
      let serves =
        Serves-after opens fd name (one_byte b'2' b'1') s' m here.free (S.messages ++ (N ∷ []))
          S.known
          (subst (λ ys. Leaves opens fd (one_byte b'2' b'1') ys s')
            (sym (cells-append name S.messages (N ∷ []))) leaves)
          e here.receiving.pool here.receiving.clear (omega (arith, S.big, here.cksize)) lives in
      let not_log : fd == 0 ≡ false = ground arith in
      (
        s',
        run,
        (
          subst (λ ws. Serves o name p ws s')
              (values-append S.messages (N ∷ []) ∙ ap (λ ws. ws ++ (value ∷ [])) S.contents) serves,
          leaves.replies ∙ rw not_log refl,
        ),
      )

-- A `push` for the queue is answered as the abstract first-in, first-out queue says.
pub socket_read_cb-push :
    (w : World) (name : List ℕ) (p : Ptr) (a : Aoq) (fd hl : ℕ) (reads : List Read) (value : List ℕ)
    (vs : List (List ℕ))
    → Ready w a
    → IsPlain name
    → IsLong w.outside.fuel hl 2 name value
    → Brings reads [] (push_bytes hl name value)
    → fd ≢ 0
    → length vs < int_max
    → Opened (outside_of w a.serv) name p vs a.server
    → let r = spec_step (pos_part a.serv.aoq_max_size) (Fifo.push value) vs in
      Answers w name p a fd reads (told r.0) r.1
socket_read_cb-push w name p a fd hl reads value vs ready plain request brings ne counted opened =
    let o = outside_of w a.serv in
    let s₁ : Server = record (a.server) { names = opened.names } in
    let S : Serves o name p vs s₁ = opened.serves in
    let (memslab, m, here, run) =
      socket_read_cb-Spread w fd reads a S.free hl 2 name value ready.fuel ready.stops S.pool
        S.clear S.big ready.no_log request brings in
    let is = long-IsName w.outside.fuel hl 2 name value plain request in
    let (opens, same) = push-Opens o name p s₁ fd hl value vs S is ne m memslab here in
    let handled =
      run
      ∙ ap (λ r. r >>= λ s. ok (record a { server = s }))
          (command_func-push w a.serv fd _ _
            ∙ push-opened (record (a.server) { mem = m }) opened.names opens _ same opened.got
                fd) in
    elim (Bool-cases (ltb (pos_part a.serv.aoq_max_size) (length vs))) [
      | inl over ↦
          let (s, ran, (serves, replies)) =
            push-over o name p s₁ fd hl value vs S is ne m memslab here (ground arith) in
          rw over (s, handled ∙ rw ran, serves, replies)
      | inr fits ↦
          let (s, ran, (serves, replies)) =
            push-fits o name p s₁ fd hl value vs S is ne m memslab here
              (omega (arith, request.enough, here.few)) (ground arith) counted
              (long-short w.outside.fuel hl 2 name value request) in
          rw fits (s, handled ∙ rw ran, serves, replies)
    ]
