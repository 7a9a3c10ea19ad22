-- ===== src/Service/Pop.antt =====
-- A `pop` through the socket.
use aoq.Prelude.{
  ℕ, ◌-◌, ◌≤◌, ◌<◌, ◌∙◌, sym, ap, ◌≡◌, refl, ◌≢◌, inl, inr, some, false, List, [], ◌∷◌, ◌++◌, arith,
  length, All, Bool-cases, ◌==◌,
}
use mathlib.Core.Path.{subst}
use aoq.Prelude.Int.{pos_part}
use aoq.Heap.{Ptr, ok, Returns, ◌>>=◌}
use aoq.Heap.Chain.{Cells, has, Disjoint}
use aoq.MemPool.{Chunk, Mem, zeros}
use aoq.MemPool.Pool.{IsPool}
use aoq.MemPool.Slab.{IsSlab, emptied}
use aoq.Queue.Push.{IsQueue}
use aoq.Queue.{Queue}
use aoq.HashTable.{hash_find}
use aoq.Queue.Fifo.{spec_step}
use aoq.Queue.Fifo
use aoq.Func.{Read}
use aoq.Func.ReadCmd.{Brings}
use aoq.Command.{Server, Outside, no_byte, pop}
use aoq.Command.Handlers.{Opens}
use aoq.Command.Pop.{pop-answered, pop-empty}
use aoq.Receive.{Aoq, World, ck_size, outside_of}
use aoq.Receive.Fill.{Clear}
use aoq.Receive.Parsed.{args_at, IsRequest, socket_read_cb-handles}
use aoq.Service.{pop_bytes, value_reply, told, IsPlain}
use aoq.Service.Messages.{
  Msg, owned, Lives, values, cells, Lives-frame, Lives-All, pop_at, Owns-Says,
}
use aoq.Service.Memory.{
  Arrived-Arrival, Arrival-apart, GivenBack, free_args-GivenBack, GivenBack-Framed,
  IsSlab-GivenBack, not_freed,
}
use aoq.Service.Push.{Lives-Arrival}
use aoq.Service.Opened.{Opened, pop-opened}
use aoq.Service.Serves.{
  Serves, Ready, Answers, request-IsName, request-Opens, command_func-pop, Serves-after,
}

-- The message shares nothing with the chunks `ys` of the slab `t`.
abbrev pub Clears : List ℕ → Cells Chunk → Ptr → Msg → Type 0
Clears name ys t N = Disjoint (owned name N) ys × (N.slab ≢ t)

Disjoint-flip : (xs ys : Cells Chunk) → Disjoint xs ys → Disjoint ys xs
Disjoint-flip xs ys d q i = elim (Bool-cases (has q xs)) [
  | inl j ↦ let o = d q j in absurd (ground arith)
  | inr o ↦ o
]

-- The memory of the messages, when a slab that is none of theirs is given back.
Lives-GivenBack :
    (fuel : ℕ) (m m' : Mem) (xs ys : Cells Chunk) (name : List ℕ) (memslab : Ptr) (ms : List Msg)
    → GivenBack m xs ys memslab m'
    → All (Clears name ys memslab) ms
    → Lives fuel m xs name ms
    → Lives fuel m' (xs ++ emptied m.mp.cksize ys) name ms
Lives-GivenBack fuel m m' xs ys name memslab ms g apart l =
    Lives-frame fuel (Clears name ys memslab) m m' xs (xs ++ emptied m.mp.cksize ys) name ms
      (λ M o d. GivenBack-Framed fuel m m' xs ys name memslab M g o d) apart l

module _ {o : Outside} {s : Server} {p memslab c : Ptr} {q : Queue} (name : List ℕ)
    (opens : Opens o (args_at memslab c (name ∷ [])) s p q) (fd : ℕ) (ne : fd ≢ 0)
    (enough : 1 < o.fuel) (known : hash_find o.fuel s.names.ht (name ++ 0 ∷ o.beyond) ≡ ok (some p))
    (xs : Cells Chunk) (text : Chunk) (pool : IsPool s.mem xs) (clear : Clear s.mem.mp.cksize xs)
    (big : ck_size ≤ s.mem.mp.cksize) (slab : IsSlab s.mem memslab ((c, text) ∷ []))
    (out : Disjoint ((c, text) ∷ []) xs) where
  pop-message :
      (M : Msg) (ms : List Msg)
      → IsQueue s.nodes q (cells name (M ∷ ms))
      → Lives o.fuel s.mem xs name (M ∷ ms)
      → All (Clears name ((c, text) ∷ []) memslab) (M ∷ ms)
      → Returns (pop o fd (args_at memslab c (name ∷ [])) s) λ s'.
        Serves o name p (values ms) s' × (s'.replies ≡ (fd, value_reply M.value) ∷ s.replies)
  pop-message M ms well (owns, apart, lives) ((dc, ds), others) =
      let m = s.mem in
      let asked : Cells Chunk = (c, text) ∷ [] in
      let ys = owned name M in
      let says = Owns-Says o.fuel m xs name M owns in
      let (m₁, freed, g₁) =
        free_args-GivenBack o.fuel m xs ys M.slab M.chunk name (M.value ∷ []) pool clear owns.slab
          owns.out (omega (arith, owns.few)) in
      let xs₁ = xs ++ emptied m.mp.cksize ys in
      let dc' = Disjoint-flip ys asked dc in
      let out₁ : Disjoint asked xs₁ = λ t i. not_freed m.mp.cksize t xs ys (out t i) (dc' t i) in
      let (m₂, freed', g₂) =
        free_args-GivenBack o.fuel m₁ xs₁ asked memslab c name [] g₁.pool g₁.clear
          (IsSlab-GivenBack m m₁ xs ys asked M.slab memslab g₁ (λ e. ds (sym e)) dc' out slab) out₁
          (omega (arith, enough)) in
      let lives₁ = Lives-GivenBack o.fuel m m₁ xs ys name M.slab ms g₁ apart lives in
      let lives₂ = Lives-GivenBack o.fuel m₁ m₂ xs₁ asked name memslab ms g₂ others lives₁ in
      let (s', run, (leaves, e, _)) =
        pop-answered opens fd M.node _ (cells name ms) (length M.value) (M.value ++ b'\n' ∷ []) m₁
          m₂ ne well says freed freed' in
      let not_log : fd == 0 ≡ false = ground arith in
      (
        s',
        run,
        (
          Serves-after opens fd name (value_reply M.value) s' m₂ _ ms known leaves e g₂.pool
              g₂.clear (omega (arith, big, g₁.cksize, g₂.cksize)) lives₂,
          leaves.replies ∙ rw not_log refl,
        ),
      )

  pop-nothing :
      IsQueue s.nodes q []
      → Returns
          (pop o fd (args_at memslab c (name ∷ [])) s)
          λ s'. Serves o name p [] s' × (s'.replies ≡ (fd, no_byte b'3') ∷ s.replies)
  pop-nothing well =
      let (m₁, freed, g₁) =
        free_args-GivenBack o.fuel s.mem xs ((c, text) ∷ []) memslab c name [] pool clear slab out
          (omega (arith, enough)) in
      let (s', run, (leaves, e, _)) = pop-empty opens fd m₁ ne well freed in
      let not_log : fd == 0 ≡ false = ground arith in
      (
        s',
        run,
        (
          Serves-after opens fd name (no_byte b'3') s' m₁ _ [] known leaves e g₁.pool g₁.clear
              (omega (arith, big, g₁.cksize)) tt,
          leaves.replies ∙ rw not_log refl,
        ),
      )

  -- A `pop` that has arrived is answered with the first value, if there is one.
  pub pop-spec :
      (max_size : ℕ) (ms : List Msg)
      → IsQueue s.nodes q (cells name ms)
      → Lives o.fuel s.mem xs name ms
      → All (Clears name ((c, text) ∷ []) memslab) ms
      → let r = spec_step max_size Fifo.pop (values ms) in
        Returns
          (pop o fd (args_at memslab c (name ∷ [])) s)
          λ s'. Serves o name p r.1 s' × (s'.replies ≡ (fd, told r.0) ∷ s.replies)
  pop-spec max_size [] well lives others = pop-nothing well
  pop-spec max_size (M ∷ ms) well lives others = pop-message M ms well lives others

-- A `pop` for the queue is answered as the abstract first-in, first-out queue says.
pub socket_read_cb-pop :
    (w : World) (name : List ℕ) (p : Ptr) (a : Aoq) (fd hl : ℕ) (reads : List Read)
    (vs : List (List ℕ))
    → Ready w a
    → IsPlain name
    → IsRequest w.outside.fuel hl 3 (name ∷ []) (b'\n' ∷ [])
    → Brings reads [] (pop_bytes hl name)
    → fd ≢ 0
    → Opened (outside_of w a.serv) name p vs a.server
    → let r = spec_step (pos_part a.serv.aoq_max_size) Fifo.pop vs in
      Answers w name p a fd reads (told r.0) r.1
socket_read_cb-pop w name p a fd hl reads vs ready plain request brings ne opened =
    let o = outside_of w a.serv in
    let s₁ : Server = record (a.server) { names = opened.names } in
    let S : Serves o name p vs s₁ = opened.serves in
    let (memslab, c, m, here, run) =
      socket_read_cb-handles w fd reads a S.free hl 3 (name ∷ []) (b'\n' ∷ []) ready.fuel
        ready.stops S.pool S.clear S.big ready.no_log request brings in
    let k = a.server.mem.mp.cksize - length (pop_bytes hl name) in
    let is = request-IsName w.outside.fuel hl 3 name [] (b'\n' ∷ []) plain request in
    let (opens, same) =
      request-Opens o name p vs s₁ m memslab c [] (b'\n' ∷ zeros k) S is (omega arith)
        (pop_at m memslab c hl name k here.receiving.slab) in
    let handled =
      run
      ∙ ap (λ r. r >>= λ s. ok (record a { server = s }))
          (command_func-pop w a.serv fd _ _
            ∙ pop-opened (record (a.server) { mem = m }) opened.names opens _ same opened.got fd) in
    let new : Cells Chunk = (c, pop_bytes hl name ++ zeros k) ∷ [] in
    let arrival = Arrived-Arrival a.server.mem m S.free (pop_bytes hl name) k memslab c here in
    let (s, ran, (serves, replies)) =
      pop-spec name opens fd ne (omega (arith, ready.fuel)) S.known here.xs'
        (pop_bytes hl name ++ zeros k) here.receiving.pool here.receiving.clear
        (omega (arith, S.big, here.cksize)) here.receiving.slab here.receiving.apart
        (pos_part a.serv.aoq_max_size) S.messages S.well
        (Lives-Arrival o.fuel a.server.mem m S.free name new here.xs' memslab S.messages arrival
          S.lives)
        (Lives-All o.fuel (Clears name new memslab) a.server.mem S.free name S.messages
          (λ M owns.
            let (dc, ds) =
              Arrival-apart o.fuel a.server.mem m S.free name M owns new here.xs' memslab arrival in
            (Disjoint-flip new (owned name M) dc, λ e. ds (sym e)))
          S.lives) in
    subst
      (λ ws.
        let r = spec_step (pos_part a.serv.aoq_max_size) Fifo.pop ws in
        Answers w name p a fd reads (told r.0) r.1)
      S.contents (s, handled ∙ rw ran, serves, replies)
