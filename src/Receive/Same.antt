-- ===== src/Receive/Same.antt =====
-- What a request, or a line of the log, leaves alone.
use aoq.Prelude.{
  ℕ, ◌∙◌, ◌≡◌, refl, ◌⊎◌, inl, inr, true, false, Bool, Option-cases, List, [], ◌∷◌, ltb,
  if◌then◌else◌, drop,
}
use mathlib.Core.Path.{subst}
use aoq.Prelude.Int.{ℤ}
use aoq.Heap.{Ptr, Run, ok, ◌>>=◌, bind-eq-ok}
use aoq.CText.{c_string}
use aoq.MemPool.{mpfree, create_mem_slab, insert_mem_slab}
use aoq.Parser.{parse_args, create_args, free_args, Outcome, parsed, empty, refused, Parse}
use aoq.AoqLog.{AoqLog, write_aoq_log}
use aoq.Func.{Read, read_cmd}
use aoq.Receive.{
  Aoq, World, receive, serve, command_func, disconnect, socket_read_cb, with_mem, fill_chunk,
  line_loop, execute_command_line, recovery_from_aoflog,
}

-- A callback that leaves the settings, the counter and the sockets alone.
pub record Same (a b : Aoq) : Type 0 where
  pub serv : b.serv ≡ a.serv
  pub sockets : b.sockets ≡ a.sockets

pub returned : {A : Type 0} (P : A → Type 0) (x b : A) → ok x ≡ ok b → P x → P b
returned P x b e h = let eq : x ≡ b = cc in subst P eq h

run-Same :
    (w : World) (fd : ℕ) (p : Parse) (a b : Aoq) (log : AoqLog)
    → (command_func w a.serv p.command_num fd p.args (record (a.server) { mem = p.mem }) >>= λ s.
        ok (record a { server = s; aoqlog = log }))
      ≡ ok b
    → Same a b
run-Same w fd p a b log e =
    let (s, _, e') =
      bind-eq-ok (command_func w a.serv p.command_num fd p.args (record (a.server) { mem = p.mem }))
        _ e in
    returned (Same a) (record a { server = s; aoqlog = log }) b e'
      (record { serv = refl; sockets = refl })

pub if-returns :
    {A : Type 0} (c : Bool) (x y : Run A) (b : A)
    → (if c then x else y) ≡ ok b
    → (x ≡ ok b) ⊎ (y ≡ ok b)
if-returns true x y b e = inl e
if-returns false x y b e = inr e

Outcome-cases : (o : Outcome) → (o ≡ refused) ⊎ ((o ≡ empty) ⊎ (o ≡ parsed))
Outcome-cases refused = inl refl
Outcome-cases empty = inr (inl refl)
Outcome-cases parsed = inr (inr refl)

serve-Same :
    (w : World) (fd : ℕ) (memslab : Ptr) (p : Parse) (a b : Aoq)
    → serve w fd memslab p a ≡ ok b
    → Same a b
unfolding serve
serve-Same w fd memslab p a b e = elim (Outcome-cases p.outcome) [
  | inl o ↦
      let (m, _, e') =
        bind-eq-ok (free_args w.outside.fuel p.args p.mem) (λ m. ok (with_mem a m)) (rw o at e) in
      returned (Same a) (with_mem a m) b e' (record { serv = refl; sockets = refl })
  | inr (inl o) ↦ run-Same w fd p a b a.aoqlog (rw o at e)
  | inr (inr o) ↦ elim (if-returns a.serv.persistent _ _ b (rw o at e)) [
    | inl kept ↦
        let (log, _, e') =
          bind-eq-ok (write_aoq_log w.garbage w.outside.fuel memslab p.mem a.aoqlog) _ kept in
        run-Same w fd p a b log e'
    | inr lost ↦ run-Same w fd p a b a.aoqlog lost
  ]
]

-- A call of `socket_read_cb` that returns has closed the connection, or left the connections alone.
pub socket_read_cb-cases :
    (w : World) (fd : ℤ) (rs : List Read) (a b : Aoq)
    → socket_read_cb w fd rs a ≡ ok b
    → (b ≡ disconnect fd a) ⊎ Same a b
unfolding socket_read_cb
socket_read_cb-cases w fd rs a b e =
    let (got, _, e₁) = bind-eq-ok (read_cmd rs) _ e in
    elim (Option-cases got) [
      | inl o ↦ inl (let e₂ = rw o at e₁ in cc)
      | inr (cmd, o) ↦
          let (q, _, e₂) =
            bind-eq-ok (receive w.malloc_chunk w.malloc_slab w.outside.fuel cmd a.server.mem) _
              (rw o at e₁) in
          let (p, _, e₃) =
            bind-eq-ok (parse_args w.outside.beyond w.outside.fuel q.0 q.1 (create_args 5)) _ e₂ in
          inr (serve-Same w _ q.0 p a b e₃)
    ]

Same-trans : (a b c : Aoq) → Same a b → Same b c → Same a c
Same-trans a b c s t = record { serv = t.serv ∙ s.serv; sockets = t.sockets ∙ s.sockets }

-- The end of `execute_command_line`.
line_end-Same :
    (w : World) (r : Parse) (a b : Aoq)
    → (elim r.outcome [
      | parsed ↦ do
        s ← command_func w a.serv r.command_num 0 r.args (record (a.server) { mem = r.mem })
        ok (record a { server = s })
      | _ ↦ free_args w.outside.fuel r.args r.mem >>= λ m. ok (with_mem a m)
    ])
      ≡ ok b
    → Same a b
line_end-Same w r a b e =
    let freed : (free_args w.outside.fuel r.args r.mem >>= λ m. ok (with_mem a m)) ≡ ok b
        → Same a b =
      λ e₁.
        let (m, _, e₂) = bind-eq-ok (free_args w.outside.fuel r.args r.mem) _ e₁ in
        returned (Same a) (with_mem a m) b e₂ (record { serv = refl; sockets = refl }) in
    elim (Outcome-cases r.outcome) [
      | inl o ↦ freed (rw o at e)
      | inr (inl o) ↦ freed (rw o at e)
      | inr (inr o) ↦
          let (s, _, e₂) =
            bind-eq-ok
              (command_func w a.serv r.command_num 0 r.args (record (a.server) { mem = r.mem })) _
              (rw o at e) in
          returned (Same a) (record a { server = s }) b e₂ (record { serv = refl; sockets = refl })
    ]

execute_command_line-Same :
    (w : World) (line : List ℕ) (a b : Aoq) → execute_command_line w line a ≡ ok b → Same a b
unfolding execute_command_line
execute_command_line-Same w line a b e =
    let (text, _, e₁) = bind-eq-ok (c_string line) _ e in
    let (f, _, e₂) = bind-eq-ok (fill_chunk w.malloc_chunk text a.server.mem) _ e₁ in
    elim (if-returns (ltb f.1 12) _ _ b e₂) [
      | inl short ↦
          let (m, _, e₃) = bind-eq-ok (mpfree f.0 f.2) _ short in
          returned (Same a) (with_mem a m) b e₃ (record { serv = refl; sockets = refl })
      | inr long ↦
          let slab = create_mem_slab w.malloc_slab f.2 in
          let (m₃, _, e₃) = bind-eq-ok (insert_mem_slab slab.0 f.0 slab.1) _ long in
          let (m₄, _, e₄) =
            bind-eq-ok (line_loop w.malloc_chunk w.outside.fuel slab.0 f.1 (drop f.1 text) m₃) _
              e₃ in
          let (r, _, e₅) =
            bind-eq-ok (parse_args w.outside.beyond w.outside.fuel slab.0 m₄ (create_args 5)) _
              e₄ in
          line_end-Same w r a b e₅
    ]

pub recovery_from_aoflog-Same :
    (lines : List (World × List ℕ)) (a b : Aoq) → recovery_from_aoflog lines a ≡ ok b → Same a b
unfolding recovery_from_aoflog
recovery_from_aoflog-Same [] a b e =
    returned (Same a) a b e (record { serv = refl; sockets = refl })
recovery_from_aoflog-Same ((w, line) ∷ lines) a b e =
    let (c, e₁, e₂) = bind-eq-ok (execute_command_line w line a) _ e in
    Same-trans a c b (execute_command_line-Same w line a c e₁)
      (recovery_from_aoflog-Same lines c b e₂)
