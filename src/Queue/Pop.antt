-- ===== src/Queue/Pop.antt =====
-- `popQueue` on both branches.
use aoq.Prelude.{◌-◌, ◌∙◌, ◌≡◌, refl, ◌≢◌, some, none, Option, [], ◌∷◌, arith}
use aoq.Heap.{Ptr, null, ok, Returns, read, write, load}
use aoq.Heap.Chain.{node, Cells, first, Chain-write, last-cons, set_next}
use aoq.Queue.{Message, Queue, Qnodes, pop_queue}
use aoq.Queue.Push.{IsQueue}

module _ {ℓ} {A : Type ℓ} where
  pop_queue-last :
      (q : Queue) (h : Qnodes A) (p : Ptr) (v : Message A)
      → q.total ≢ 0
      → q.head_next ≡ p
      → p ≢ null
      → read h p ≡ some (node v null)
      → pop_queue q h
        ≡ ok (
          some p,
          record q { total = q.total - 1; head_next = null; tail_next = null },
          write h p (some (node v null)),
        )
  unfolding pop_queue load set_next
  pop_queue-last q h p v e eh ne r = ground arith

  pop_queue-more :
      (q : Queue) (h : Qnodes A) (p : Ptr) (v : Message A) (s : Ptr)
      → q.total ≢ 0
      → q.head_next ≡ p
      → p ≢ null
      → s ≢ null
      → read h p ≡ some (node v s)
      → pop_queue q h
        ≡ ok (
          some p,
          record q { total = q.total - 1; head_next = s },
          write h p (some (node v null)),
        )
  unfolding pop_queue load set_next
  pop_queue-more q h p v s e eh ne ns r = ground arith

  -- What a successful pop leaves.
  pub record Popped (h : Qnodes A) (q : Queue) (p : Ptr) (v : Message A) (xs : Cells (Message A))
      (r : Option Ptr × Queue × Qnodes A) : Type ℓ where
    pub got : r.0 ≡ some p
    pub detached : read r.2 p ≡ some (node v null)
    pub queue : IsQueue r.2 r.1 xs
    pub name : r.1.name ≡ q.name
    pub same : (s : Ptr) → s ≢ p → read r.2 s ≡ read h s

  -- `popQueue` on a well-formed queue that is not empty gives the first node, with `next` at `NULL`, and
  -- leaves the rest in order and the queue well-formed. It changes no other node.
  pub pop_queue-Popped :
      {h : Qnodes A} {q : Queue} (p : Ptr) (v : Message A) (xs : Cells (Message A))
      → IsQueue h q ((p, v) ∷ xs)
      → Returns (pop_queue q h) (Popped h q p v xs)
  unfolding read
  pop_queue-Popped {h} {q} p v [] is = (
    _,
    pop_queue-last q h p v (omega (arith, is.total)) is.head (is.chain.0) (is.chain.1),
    record {
      got = refl;
      detached = ground arith;
      queue = record { chain = tt; head = refl; tail = λ _. refl; total = omega (arith, is.total) };
      name = refl;
      same = λ s d. ground arith;
    },
  )
  pop_queue-Popped {h} {q} p v (y ∷ xs) is = (
    _,
    pop_queue-more q h p v (first (y ∷ xs)) (omega (arith, is.total)) is.head (is.chain.0)
        (is.chain.3.0) (is.chain.1),
    record {
      got = refl;
      detached = ground arith;
      queue = record {
        chain = Chain-write h (y ∷ xs) p _ (is.chain.3) (is.chain.2);
        head = refl;
        tail = λ ne. is.tail (λ e. cc) ∙ last-cons (p, v) (y ∷ xs) ne;
        total = omega (arith, is.total);
      };
      name = refl;
      same = λ s d. ground arith;
    },
  )

  -- On an empty queue `popQueue` returns -1 and changes nothing.
  pub pop_queue-nil : {h : Qnodes A} {q : Queue} → IsQueue h q [] → pop_queue q h ≡ ok (none, q, h)
  unfolding pop_queue
  pop_queue-nil {h} {q} is = let e : q.total ≡ 0 = is.total in ground arith
