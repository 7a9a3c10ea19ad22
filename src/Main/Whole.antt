-- ===== src/Main/Whole.antt =====
-- The whole server, from its arguments through any number of callbacks.
use aoq.Prelude.{
  ℕ, ◌<◌, ◌^◌, ◌≡◌, refl, inl, inr, true, false, Bool, Option, Option-cases, some, none, List, [],
  arith, if◌then◌else◌,
}
use mathlib.Core.Path.{subst}
use aoq.Prelude.Int.{ℤ, pos, negsuc, pos_part, ◌==ℤ◌}
use aoq.Heap.{ok, bind-eq-ok}
use aoq.MemPool.{create_mem_pool}
use aoq.Receive.{Aoq, recovery_from_aoflog}
use aoq.Receive.Same.{Same, returned, if-returns, recovery_from_aoflog-Same}
use aoq.Events.{aoq_start, DataFile, create_param_data_file, Reach}
use aoq.Events.Connections.{Counted, Reach-Counted}
use aoq.Daemon.{tcp_server_init}
use aoq.Main.{
  Opt, Options, Launch, settings, built, no_pool, set_up, with_file, with_log, may_start, launch,
  main, read_options, no_options,
}
use aoq.Main.Settings.{Within, settings-Within}
use aoq.Main.Start.{number, positive}

below : (n : ℤ) → Within 1 n → pos_part n < 2 ^ 31
below n (k, e, low, high) = rw e high

ok-inj : {A : Type 0} {x y : A} → ok x ≡ ok y → x ≡ y
ok-inj e = cc

-- `aoq_start` changes the status and the listening socket alone.
aoq_start-Counted :
    (n : ℕ) (listener : ℤ) (file file' : Option DataFile) (c d : Aoq)
    → Counted n c
    → with_file file (aoq_start listener c) ≡ some (file', d)
    → Counted n d
unfolding aoq_start
aoq_start-Counted n listener file file' c d k e = go (listener ==ℤ negsuc 0) e
  where
    looping : Aoq
    looping = record c {
      serv = record (c.serv) { status = pos 1 };
      sockets = record (c.sockets) { listening = true };
    }

    go :
        (b : Bool)
        → with_file file (if b then none else some looping) ≡ some (file', d)
        → Counted n d
    go true e = cc
    go false e =
        let same : looping ≡ d = cc in
        subst (Counted n) same (record { limit = k.limit; count = k.count; few = k.few })

Same-Counted : (n : ℕ) (o : Options) (a b : Aoq) → Same a b → Counted n a → Counted n (with_log o b)
Same-Counted n o a b s c = record {
  limit = rw s.serv c.limit;
  count = rw (s.serv, s.sockets) c.count;
  few = rw s.sockets c.few;
}

launch-Counted :
    (l : Launch) (o : Options) (file : Option DataFile) (d : Aoq)
    → Within 1 (settings l o).max_client_connection
    → launch l o ≡ ok (some (file, d))
    → Counted (pos_part (settings l o).max_client_connection) d
unfolding launch set_up settings
launch-Counted l o file d (n, limit, low, high) e =
    let (a, built', e₁) = bind-eq-ok (set_up l o) _ e in
    let (mem, _, e₂) = bind-eq-ok (create_mem_pool l.world.malloc_chunk (no_pool o)) _ built' in
    let lim = pos_part (settings l o).max_client_connection in
    let counted : Counted lim a =
      returned (Counted lim) (built l o mem) a e₂
        (record { limit = number _ (n, limit, low, high); count = refl; few = omega arith }) in
    let (b, recovered, e₃) =
      bind-eq-ok (if o.recover then recovery_from_aoflog l.lines a else ok a) _ e₁ in
    let same : Same a b = elim (if-returns o.recover _ _ b recovered) [
      | inl lines ↦ recovery_from_aoflog-Same l.lines a b lines
      | inr none' ↦ returned (Same a) a b none' (record { serv = refl; sockets = refl })
    ] in
    aoq_start-Counted lim (tcp_server_init l.net []).0
      (if o.aomp then create_param_data_file else none) file (with_log o b) d
      (Same-Counted lim o a b same counted) (ok-inj e₃)

-- When `main` gets to the event loop, whatever the arguments, the log and the world are, then over any
-- number of callbacks that return the counter of the connections is the number of those that have an
-- event, and that is at most the limit, a number above 0.
pub main-Counted :
    (l : Launch) (opts : List (Opt × List ℕ)) (file : Option DataFile) (a b : Aoq)
    → main l opts ≡ ok (some (file, a))
    → Reach a b
    → (limit : ℕ) × (0 < limit) × (limit < 2 ^ 31) × Counted limit b
unfolding main
main-Counted l opts file a b e r =
    let (got, parsed', e₁) = bind-eq-ok (read_options opts no_options) _ e in
    elim (Option-cases got) [
      | inl o ↦ let e₂ = rw o at e₁ in cc
      | inr (opts', o) ↦
          let (go, _, e₂) = bind-eq-ok (may_start l opts') _ (rw o at e₁) in
          let read_all = rw o at parsed' in
          let (_, _, clients, _, _, _, _) = settings-Within l opts opts' read_all in
          elim (if-returns go _ _ _ e₂) [
            | inl started ↦
                let counted = launch-Counted l opts' file a clients started in
                (
                  pos_part (settings l opts').max_client_connection,
                  positive _ clients,
                  below _ clients,
                  Reach-Counted _ a b counted r,
                )
            | inr stopped ↦ cc
          ]
    ]
