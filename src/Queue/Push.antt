-- ===== src/Queue/Push.antt =====
-- The queue's invariant, and `pushQueue` on each of its branches.
use aoq.Prelude.{
  ℕ, ◌+◌, ◌≤◌, ◌<◌, ◌∙◌, sym, ◌≡◌, refl, ◌≢◌, Bool, true, false, some, [], ◌∷◌, ◌++◌, arith, length,
  length-append,
}
use aoq.Heap.{Ptr, null, ok, Returns, read, write, load}
use aoq.Heap.Chain.{
  Node, node, Cells, first, last, has, Chain, Chain-write, set_next, set_next-last, last-append,
}
use aoq.Queue.{Message, Queue, Qnodes, int_max, next_id, push_queue}

module _ {ℓ} {A : Type ℓ} where
  ne_of_has : (q p : Ptr) (ys : Cells A) → has q ys ≡ true → has p ys ≡ false → q ≢ p
  ne_of_has q p ys i o e = cc (i, o, e)

module _ {ℓ} {A : Type ℓ} where
  -- The queue holds the nodes `xs`, in this order.
  pub record IsQueue (h : Qnodes A) (q : Queue) (xs : Cells (Message A)) : Type ℓ where
    pub chain : Chain h xs
    pub head : q.head_next ≡ first xs
    pub tail : xs ≢ [] → q.tail_next ≡ last xs
    pub total : q.total ≡ length xs

  -- The number that `pushQueue` gives a message behind `xs`.
  abbrev pub id_behind : ℕ → Cells (Message A) → ℕ
  id_behind max_size [] = 1
  id_behind max_size (x ∷ []) = next_id max_size x.1.uniqid
  id_behind max_size (x ∷ y ∷ xs) = id_behind max_size (y ∷ xs)

  abbrev pub message : ℕ → A → Message A
  message n a = record { uniqid = n; arg = a }

  -- The heap after `qnode->next = NULL`, and after `qnode->uniqid = k` on top.
  abbrev detached : Qnodes A → Ptr → Node (Message A) → Qnodes A
  detached h p n = write h p (some (record n { next = null }))

  abbrev numbered : Qnodes A → Ptr → Node (Message A) → ℕ → Qnodes A
  numbered h p n k = write (detached h p n) p (some (node (message k n.val.arg) null))

  push_queue-first :
      (max_size : ℕ) (q : Queue) (p : Ptr) (h : Qnodes A) (n : Node (Message A))
      → q.total ≡ 0
      → p ≢ null
      → read h p ≡ some n
      → push_queue max_size q p h
        ≡ ok
            (true, record q { total = q.total + 1; head_next = p; tail_next = p }, numbered h p n 1)
  unfolding push_queue set_next load read
  push_queue-first max_size q p h n e ne r = ground arith

  push_queue-full :
      (max_size : ℕ) (q : Queue) (p : Ptr) (h : Qnodes A) (n : Node (Message A))
      → q.total ≢ 0
      → max_size < q.total
      → p ≢ null
      → read h p ≡ some n
      → push_queue max_size q p h ≡ ok (false, q, detached h p n)
  unfolding push_queue set_next load
  push_queue-full max_size q p h n e lt ne r = ground arith

  push_queue-behind :
      (max_size : ℕ) (q : Queue) (p t : Ptr) (h g : Qnodes A) (n tn : Node (Message A))
      → q.total ≢ 0
      → q.total ≤ max_size
      → q.total < int_max
      → p ≢ null
      → read h p ≡ some n
      → q.tail_next ≡ t
      → t ≢ null
      → t ≢ p
      → read h t ≡ some tn
      → set_next (numbered h p n (next_id max_size tn.val.uniqid)) t p ≡ ok g
      → push_queue max_size q p h ≡ ok (true, record q { total = q.total + 1; tail_next = p }, g)
  unfolding push_queue set_next load read
  push_queue-behind max_size q p t h g n tn e le few ne r et nt d rt run = ground arith

  -- The last node of a chain, and the number behind it.
  last-read :
      (max_size : ℕ) (h : Qnodes A) (x : Ptr × Message A) (xs : Cells (Message A))
      → Chain h (x ∷ xs)
      → (v : Message A) × (read h (last (x ∷ xs)) ≡ some (node v null))
        × (next_id max_size v.uniqid ≡ id_behind max_size (x ∷ xs))
        × (last (x ∷ xs) ≢ null)
        × (has (last (x ∷ xs)) (x ∷ xs) ≡ true)
  last-read max_size h (p, v) [] (ne, e, out, c) = (v, e, refl, ne, ground arith)
  last-read max_size h (p, v) (y ∷ xs) (ne, e, out, c) =
      let (w, r, k, nn, i) = last-read max_size h y xs c in (w, r, k, nn, ground arith)

  -- What a successful push leaves.
  pub record Pushed (max_size : ℕ) (h : Qnodes A) (q : Queue) (xs : Cells (Message A)) (p : Ptr)
      (a : A) (r : Bool × Queue × Qnodes A) : Type ℓ where
    pub done : r.0 ≡ true
    pub queue : IsQueue r.2 r.1 (xs ++ ((p, message (id_behind max_size xs) a) ∷ []))
    pub name : r.1.name ≡ q.name
    pub same : (s : Ptr) → s ≢ p → has s xs ≡ false → read r.2 s ≡ read h s

  -- On a well-formed queue of at most `aoq_max_size` messages, and fewer than an `int` counts,
  -- `pushQueue` of a node that is not in it returns 1, numbers the message, puts it behind the others
  -- and keeps the queue's name. It changes no node outside the queue but the new one.
  pub push_queue-Pushed :
      (max_size : ℕ) {h : Qnodes A} {q : Queue} (xs : Cells (Message A)) (p : Ptr)
      (n : Node (Message A))
      → IsQueue h q xs
      → p ≢ null
      → read h p ≡ some n
      → has p xs ≡ false
      → length xs ≤ max_size
      → length xs < int_max
      → Returns (push_queue max_size q p h) (Pushed max_size h q xs p n.val.arg)
  unfolding read
  push_queue-Pushed max_size {h} {q} [] p n is ne r out le few = (
    _,
    push_queue-first max_size q p h n is.total ne r,
    record {
      done = refl;
      queue = record {
        chain = (ne, ground arith, refl, tt);
        head = refl;
        tail = λ _. refl;
        total = omega (arith, is.total);
      };
      name = refl;
      same = λ s d o. ground arith;
    },
  )
  push_queue-Pushed max_size {h} {q} (x ∷ xs) p n is ne r out le few =
      let (v, rv, id, nn, i) = last-read max_size h x xs is.chain in
      let k = next_id max_size v.uniqid in
      let m = message k n.val.arg in
      let kept =
        Chain-write (detached h p n) (x ∷ xs) p (some (node m null))
          (Chain-write h (x ∷ xs) p (some (record n { next = null })) is.chain out) out in
      let (g, run, (chain, same)) =
        set_next-last (numbered h p n k) x xs p m kept ne (ground arith) out in
      (
        (true, record q { total = q.total + 1; tail_next = p }, g),
        push_queue-behind max_size q p (last (x ∷ xs)) h g n (node v null) (omega (arith, is.total))
            (omega (arith, is.total)) (omega (arith, is.total)) ne r (is.tail λ e. cc) nn
            (ne_of_has (last (x ∷ xs)) p (x ∷ xs) i out) rv run,
        record {
          done = refl;
          queue = rw (← id) (record {
            chain = chain;
            head = is.head;
            tail = λ _. sym (last-append (x ∷ xs) p m);
            total = omega (arith, is.total, length-append (x ∷ xs) ((p, m) ∷ []));
          });
          name = refl;
          same = λ s d o. same s o ∙ ground arith;
        },
      )

  -- On a well-formed queue of more than `aoq_max_size` messages, `pushQueue` of a node that is not in it
  -- returns -1, and the queue holds what it held.
  pub push_queue_refused :
      (max_size : ℕ) {h : Qnodes A} {q : Queue} (xs : Cells (Message A)) (p : Ptr)
      (n : Node (Message A))
      → IsQueue h q xs
      → p ≢ null
      → read h p ≡ some n
      → has p xs ≡ false
      → max_size < length xs
      → Returns (push_queue max_size q p h) λ r. (r.0 ≡ false) × (r.1 ≡ q) × IsQueue r.2 q xs
  push_queue_refused max_size {h} {q} xs p n is ne r out lt = (
    (false, q, detached h p n),
    push_queue-full max_size q p h n (omega (arith, is.total)) (omega (arith, is.total)) ne r,
    (
      refl,
      refl,
      record {
        chain = Chain-write h xs p _ is.chain out;
        head = is.head;
        tail = is.tail;
        total = is.total;
      },
    ),
  )
