-- ===== src/Queue/Delete.antt =====
-- `deleteQueue`, and the arguments that it frees.
use aoq.Prelude.{
  Bool-cases, inl, inr, ◌==◌, ℕ, zero, suc, ◌<◌, ◌∙◌, ◌≡◌, refl, ◌≢◌, true, false, some, none, [],
  ◌∷◌, arith, length,
}
use aoq.Heap.{Ptr, null, Run, ok, ◌>>=◌, bind-eq-ok, Returns, read, write, load, free}
use aoq.Heap.Chain.{node, Cells, has, Chain, Chain-write}
use aoq.Queue.{Message, Queue, Qnodes, delete_nodes, delete_queue}
use aoq.Queue.Push.{IsQueue}

module _ {ℓ κ} {A : Type ℓ} {S : Type κ} (free_args : A → S → Run S) where
  -- The arguments of the messages freed one after the other.
  abbrev pub free_each : Cells (Message A) → S → Run S
  free_each [] s = ok s
  free_each ((p, v) ∷ xs) s = free_args v.arg s >>= free_each xs

  -- The nodes `xs` are freed, and no other address is written.
  abbrev pub AllFreed : Cells (Message A) → Qnodes A → Qnodes A → Type ℓ
  AllFreed xs h g =
      ((p : Ptr) → has p xs ≡ true → read g p ≡ none)
      × ((p : Ptr) → has p xs ≡ false → read g p ≡ read h p)

  delete_nodes-last :
      (fuel : ℕ) (p : Ptr) (v : Message A) (h : Qnodes A) (s s' : S)
      → p ≢ null
      → read h p ≡ some (node v null)
      → free_args v.arg s ≡ ok s'
      → delete_nodes free_args (suc fuel) p h s ≡ ok (write h p none, s')
  unfolding delete_nodes load free
  delete_nodes-last fuel p v h s s' ne r e = ground arith

  delete_nodes-step :
      (fuel : ℕ) (p q : Ptr) (v : Message A) (h : Qnodes A) (s s' : S)
      → p ≢ null
      → q ≢ null
      → read h p ≡ some (node v q)
      → free_args v.arg s ≡ ok s'
      → delete_nodes free_args (suc fuel) p h s ≡ delete_nodes free_args fuel q (write h p none) s'
  unfolding delete_nodes load free
  delete_nodes-step fuel p q v h s s' ne nq r e = ground arith

  delete_nodes-free_each :
      (fuel : ℕ) (h : Qnodes A) (p : Ptr) (v : Message A) (xs : Cells (Message A)) (s t : S)
      → Chain h ((p, v) ∷ xs)
      → free_each ((p, v) ∷ xs) s ≡ ok t
      → length xs < fuel
      → Returns (delete_nodes free_args fuel p h s) λ r. AllFreed ((p, v) ∷ xs) h r.0 × (r.1 ≡ t)
  unfolding read
  delete_nodes-free_each zero h p v xs s t c e lt = absurd (omega arith)
  delete_nodes-free_each (suc fuel) h p v [] s t (ne, r, out, c) e lt =
      let (s', e', done) = bind-eq-ok (free_args v.arg s) ok e in
      (
        (write h p none, s'),
        delete_nodes-last fuel p v h s s' ne r e',
        ((λ q i. ground arith, λ q o. ground arith), ground (arith, done)),
      )
  delete_nodes-free_each (suc fuel) h p v ((q, w) ∷ xs) s t (ne, r, out, c) e lt =
      let (s', e', later) = bind-eq-ok (free_args v.arg s) (free_each ((q, w) ∷ xs)) e in
      let kept = Chain-write h ((q, w) ∷ xs) p none c out in
      let ((g, u), run, ((gone, same), eq)) =
        delete_nodes-free_each fuel (write h p none) q w xs s' t kept later (omega arith) in
      (
        (g, u),
        delete_nodes-step fuel p q v h s s' ne (c.0) r e' ∙ run,
        (
          (
            λ a i. elim (Bool-cases (has a ((q, w) ∷ xs))) [
              | inl inside ↦ gone a inside
              | inr outside ↦ same a outside ∙ ground arith
            ],
            λ a o. same a (ground arith) ∙ ground arith,
          ),
          eq,
        ),
      )

  -- When the arguments of a well-formed queue's messages can be freed one after the other, then with
  -- fuel beyond their number `deleteQueue` does that, in the order of the queue, frees every node of the
  -- queue, and changes no other node.
  pub delete_queue-free_each :
      (fuel : ℕ) {h : Qnodes A} {q : Queue} (xs : Cells (Message A)) (s t : S)
      → IsQueue h q xs
      → free_each xs s ≡ ok t
      → length xs < fuel
      → Returns (delete_queue free_args fuel q h s) λ r. AllFreed xs h r.0 × (r.1 ≡ t)
  unfolding delete_queue
  delete_queue-free_each fuel {h} {q} [] s t is e lt =
      ((h, s), rw is.head, ((λ p i. cc, λ p o. refl), ground (arith, e)))
  delete_queue-free_each fuel {h} {q} ((p, v) ∷ xs) s t is e lt =
      let (r, run, freed) = delete_nodes-free_each fuel h p v xs s t is.chain e (omega arith) in
      let ne : (p == null) ≡ false = ground (arith, is.chain.0) in (r, rw (is.head, ne) run, freed)
