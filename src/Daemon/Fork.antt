-- ===== src/Daemon/Fork.antt =====
-- Which process `init_daemon` goes on in, and what it has open.
use aoq.Prelude.{
  ℕ, zero, suc, ◌+◌, ◌≤◌, ◌∙◌, ◌≡◌, refl, ◌≢◌, ◌⊎◌, inl, inr, false, Bool-cases, List, [], ◌∷◌,
  arith, All, ◌==◌, if◌then◌else◌,
}
use native.Mathlib.Nat.{zero-add}
use mathlib.Core.Path.{subst}
use aoq.Prelude.Int.{ℤ, pos, ◌==ℤ◌, eq_of_parts}
use aoq.Daemon.{Process, Life, exited, lives, after_fork, close_fd, close_loop, Forks, init_daemon}

-- No descriptor below `n` is open.
abbrev pub Shut : ℕ → List ℕ → Type 0
Shut n opened = All (λ x. n ≤ x) opened

close_fd-Shut : (n : ℕ) (xs : List ℕ) → Shut n xs → Shut (n + 1) (close_fd n xs)
close_fd-Shut n [] h = tt
close_fd-Shut n (x ∷ xs) (le, hs) =
    let rest = close_fd-Shut n xs hs in
    elim (Bool-cases (x == n)) [
      | inl e ↦ rw e rest
      | inr e ↦ let ne : x ≢ n = ground arith in rw e (omega (arith, le, ne), rest)
    ]

close_loop-Shut : (i n : ℕ) (xs : List ℕ) → Shut i xs → Shut (i + n) (close_loop i n xs)
unfolding close_loop
close_loop-Shut i zero xs h = let e : i ≡ i + 0 = omega arith in subst (λ k. Shut k xs) e h
close_loop-Shut i (suc n) xs h =
    let e : i + 1 + n ≡ i + suc n = omega arith in
    subst (λ k. Shut k (close_loop i (suc n) xs)) e
      (close_loop-Shut (i + 1) n (close_fd i xs) (close_fd-Shut i xs h))

none_below : (xs : List ℕ) → Shut 0 xs
none_below [] = tt
none_below (x ∷ xs) = (omega arith, none_below xs)

-- A process goes on behind a `fork` when that returned 0, and ends with 0 otherwise.
after_fork-cases :
    (pid : ℤ) (next : Life)
    → ((pid ≡ pos 0) × (after_fork pid next ≡ next))
      ⊎ ((pid ≢ pos 0) × (after_fork pid next ≡ exited 0))
unfolding after_fork
after_fork-cases pid next = elim (Bool-cases (pid ==ℤ pos 0)) [
  | inl e ↦
      let zero' : pid ≡ pos 0 = ground (arith, eq_of_parts pid (pos 0)) in
      inl (zero', rw zero' refl)
  | inr e ↦ inr (λ z. let e' = rw z at e in cc, rw e refl)
]

-- `init_daemon` goes on in the process where both forks returned 0 and in no other, and that has no
-- descriptor below `NOFILE` open. Any other process ends with 0, the one whose `fork` failed, too.
pub init_daemon-cases :
    (f : Forks) (path : List ℕ) (p : Process)
    → ((p' : Process) × (init_daemon f path p ≡ lives p')
        × (f.first ≡ pos 0)
        × (f.second ≡ pos 0)
        × Shut f.nofile p'.opened)
      ⊎ ((init_daemon f path p ≡ exited 0) × ((f.first ≢ pos 0) ⊎ (f.second ≢ pos 0)))
unfolding init_daemon
init_daemon-cases f path p =
    let next : Life = lives (record {
      opened = close_loop 0 f.nofile p.opened;
      leads = false;
      dir = if f.moves then path else p.dir;
      mask = 0;
    }) in
    elim (after_fork-cases f.first (after_fork f.second next)) [
      | inl (z, e) ↦ elim (after_fork-cases f.second next) [
        | inl (z', e') ↦ inl (
          _,
          e ∙ e',
          z,
          z',
          rw zero-add at (close_loop-Shut 0 f.nofile p.opened (none_below p.opened)),
        )
        | inr (ne, e') ↦ inr (e ∙ e', inr ne)
      ]
      | inr (ne, e) ↦ inr (e, inl ne)
    ]
