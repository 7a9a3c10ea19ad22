-- ===== src/Daemon/Listen.antt =====
-- The listening socket.
use aoq.Prelude.{◌≡◌, refl, ◌≢◌, ◌⊎◌, inl, inr, true, Bool-cases, List, ◌∷◌, arith}
use aoq.Prelude.Int.{ℤ, pos, negsuc, ltb_ℤ, ◌==ℤ◌, ◌≤ℤ◌}
use aoq.Daemon.{Net, tcp_server_init}

==ℤ_refl : (n : ℤ) → n ==ℤ n ≡ true
==ℤ_refl n = ground arith

-- `tcp_server_init` returns the socket, and opens no other, when `socket`, `bind` and `listen` work. When one
-- of them fails it returns -1 and leaves no socket open that was not.
pub tcp_server_init-cases :
    (net : Net) (opened : List ℤ)
    → ((tcp_server_init net opened ≡ (net.socket, net.socket ∷ opened))
        × (net.socket ≢ negsuc 0)
        × (pos 0 ≤ℤ net.bind)
        × (pos 0 ≤ℤ net.listen))
      ⊎ (tcp_server_init net opened ≡ (negsuc 0, opened))
unfolding tcp_server_init
tcp_server_init-cases net opened =
    let same = ==ℤ_refl net.socket in
    elim (Bool-cases (net.socket ==ℤ negsuc 0)) [
      | inl e ↦ inr (rw e refl)
      | inr e ↦ elim (Bool-cases (ltb_ℤ net.bind (pos 0))) [
        | inl b ↦ inr (rw (e, b, same) refl)
        | inr b ↦ elim (Bool-cases (ltb_ℤ net.listen (pos 0))) [
          | inl l ↦ inr (rw (e, b, l, same) refl)
          | inr l ↦
              inl (rw (e, b, l) refl, λ z. let e' = rw z at e in cc, ground arith, ground arith)
        ]
      ]
    ]
