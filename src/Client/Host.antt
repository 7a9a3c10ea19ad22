-- ===== src/Client/Host.antt =====
-- Where the client connects, and what a line that is no command does.
use aoq.Prelude.{
  ℕ, ◌∙◌, sym, ap, codes, ◌≡◌, refl, ◌⊎◌, inl, inr, none, some, Option-cases, List, [], ◌∷◌, ◌++◌,
}
use aoq.Prelude.Int.{ℤ}
use aoq.Heap.{ok, of_option, bind-eq-ok}
use aoq.CText.{atoi}
use aoq.Client.Session.{
  ClientOpt, opt_h, opt_p, opt_other, Peer, default_peer, read_peer, client_main,
}

-- The loop leaves the host as it is, or at `NULL`.
read_peer-host :
    (opts : List ClientOpt) (peer peer' : Peer)
    → read_peer opts peer ≡ ok (some peer')
    → (peer'.host ≡ peer.host) ⊎ (peer'.host ≡ none)
unfolding read_peer
read_peer-host [] peer peer' e = inl (let e' : peer ≡ peer' = cc in rw e' refl)
read_peer-host (opt_h ∷ opts) peer peer' e =
    elim (read_peer-host opts (record peer { host = none }) peer' e) [
      | inl n ↦ inr n
      | inr n ↦ inr n
    ]
read_peer-host (opt_p optarg ∷ opts) peer peer' e =
    let (n, got, rest) = bind-eq-ok (atoi optarg) _ e in
    read_peer-host opts (record peer { port = n }) peer' rest
read_peer-host (opt_other ∷ opts) peer peer' e = cc

-- Whatever the options are, the client connects to "0.0.0.0" when it connects: `-h` takes no argument, and
-- with it `inet_aton` gets `NULL`.
pub client_main-host :
    (opts : List ClientOpt) (host : List ℕ) (port : ℤ)
    → client_main opts ≡ ok (some (host, port))
    → some host ≡ default_peer.host
unfolding client_main
client_main-host opts host port e =
    let (r, got, e₁) = bind-eq-ok (read_peer opts default_peer) _ e in
    elim (Option-cases r) [
      | inl n ↦ let e₂ = rw n at e₁ in cc
      | inr (peer, same) ↦
          let e₂ = rw same at e₁ in
          let (h, there, e₃) = bind-eq-ok (of_option peer.host) _ e₂ in
          let peer_read : read_peer opts default_peer ≡ ok (some peer) = rw same at got in
          let asked : h ≡ host = cc in
          elim (read_peer-host opts default_peer peer peer_read) [
            | inl n ↦
                let there' : ok (codes "0.0.0.0" ++ 0 ∷ []) ≡ ok h = rw n at there in
                let again : codes "0.0.0.0" ++ 0 ∷ [] ≡ h = cc in ap some (sym (again ∙ asked))
            | inr n ↦ let there' = rw n at there in cc
          ]
    ]
