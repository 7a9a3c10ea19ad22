-- ===== src/Queue/Fifo.antt =====
-- What a queue promises: messages come out in the order in which they went in, and one that would go
-- in behind more than `aoq_max_size` others is lost; so it holds up to `aoq_max_size + 1`, as
-- `pushQueue` tests before it counts, though the help text calls the number the maximum. A client's
-- `push` makes the node first, and its `pop` frees the node, as the commands do.
use aoq.Prelude.{
  ℕ, suc, ◌+◌, ◌≤◌, ◌<◌, length-append, ◌∙◌, sym, ap, ◌≡◌, refl, ◌≢◌, Bool, true, false, some, none,
  Option, List, [], ◌∷◌, ◌++◌, arith, length, ltb, if◌then◌else◌, Bool-cases, inl, inr,
}
use mathlib.Core.Path.{subst}
use aoq.Heap.{Ptr, null, Run, ok, ◌>>=◌, Returns, read, write, load, free, Malloc}
use aoq.Heap.Chain.{Node, node, Cells, has, Chain-write, not-has_of_none}
use aoq.Queue.{int_max, Message, Queue, Qnodes, create_queue, create_qnode, push_queue, pop_queue}
use aoq.Queue.Push.{IsQueue, message, push_queue-Pushed, push_queue_refused}
use aoq.Queue.Pop.{pop_queue-Popped, pop_queue-nil}

pub data Op {ℓ} (A : Type ℓ) : Type ℓ where
  push : A → Op A
  pop : Op A

pub data Reply {ℓ} (A : Type ℓ) : Type ℓ where
  pushed : Bool → Reply A
  popped : Option A → Reply A

-- The abstract queue, which takes a message as long as it has at most `max_size`.
abbrev pub spec_step {ℓ} : {A : Type ℓ} → ℕ → Op A → List A → Reply A × List A
spec_step max_size (push a) xs =
    if ltb max_size (length xs) then (pushed false, xs) else (pushed true, xs ++ (a ∷ []))
spec_step max_size pop [] = (popped none, [])
spec_step max_size pop (x ∷ xs) = (popped (some x), xs)

abbrev pub spec_run {ℓ} : {A : Type ℓ} → ℕ → List (Op A) → List A → List (Reply A)
spec_run max_size [] xs = []
spec_run max_size (o ∷ os) xs =
    let (r, xs') = spec_step max_size o xs in r ∷ spec_run max_size os xs'

-- A step adds one message at most.
pub length-spec_step {ℓ} :
    {A : Type ℓ} (max_size : ℕ) (o : Op A) (xs : List A)
    → length (spec_step max_size o xs).1 ≤ length xs + 1
length-spec_step max_size (push a) xs = elim (Bool-cases (ltb max_size (length xs))) [
  | inl over ↦ rw over (omega arith)
  | inr fits ↦ rw fits (omega (arith, length-append xs (a ∷ [])))
]
length-spec_step max_size pop [] = omega arith
length-spec_step max_size pop (x ∷ xs) = omega arith

module _ {ℓ} {A : Type ℓ} (malloc : Malloc (Node (Message A))) (max_size : ℕ) where
  pub step : Op A → Queue → Qnodes A → Run (Reply A × Queue × Qnodes A)
  step (push a) q h = do
    (done, q', h') ← (let (p, grown) = create_qnode malloc a h in push_queue max_size q p grown)
    ok (pushed done, q', h')
  step pop q h = do
    (got, q', h') ← pop_queue q h
    elim got [
      | none ↦ ok (popped none, q', h')
      | some p ↦ do n ← load h' p; h'' ← free h' p; ok (popped (some n.val.arg), q', h'')
    ]

  pub run : List (Op A) → Queue → Qnodes A → Run (List (Reply A))
  unfolding step
  run [] q h = ok []
  run (o ∷ os) q h = do (r, q', h') ← step o q h; rs ← run os q' h'; ok (r ∷ rs)

-- The payloads, in order.
abbrev pub args {ℓ} : {A : Type ℓ} → Cells (Message A) → List A
args [] = []
args ((p, v) ∷ xs) = v.arg ∷ args xs

-- The queue of the memory stands for the abstract queue `xs`.
pub record Holds {ℓ} {A : Type ℓ} (h : Qnodes A) (q : Queue) (xs : List A) : Type ℓ where
  pub cells : Cells (Message A)
  pub queue : IsQueue h q cells
  pub contents : args cells ≡ xs

module _ {ℓ} {A : Type ℓ} where
  pub create_queue-IsQueue : (name : List ℕ) (h : Qnodes A) → IsQueue h (create_queue name) []
  unfolding create_queue
  create_queue-IsQueue name h = record {
    chain = tt;
    head = refl;
    tail = λ ne. absurd (ne refl);
    total = refl;
  }

  args-append : (xs ys : Cells (Message A)) → args (xs ++ ys) ≡ args xs ++ args ys
  args-append [] ys = refl
  args-append ((p, v) ∷ xs) ys = rw (args-append xs ys)

  length-args : (xs : Cells (Message A)) → length (args xs) ≡ length xs
  length-args [] = refl
  length-args ((p, v) ∷ xs) = ap suc (length-args xs)

module _ {ℓ} {A : Type ℓ} (malloc : Malloc (Node (Message A))) (max_size : ℕ) where
  -- One operation agrees with the abstract queue: the same reply, and the states match again.
  abbrev Agrees : Op A → Queue → Qnodes A → List A → Type ℓ
  Agrees o q h xs =
      Returns (step malloc max_size o q h)
        λ r. (r.0 ≡ (spec_step max_size o xs).0) × Holds r.2 r.1 (spec_step max_size o xs).1

  pub new_node-IsQueue :
      (h : Qnodes A) (q : Queue) (xs : Cells (Message A)) (a : A)
      → IsQueue h q xs
      → let (p, grown) = create_qnode malloc a h in
        IsQueue grown q xs
        × (p ≢ null)
        × (read grown p ≡ some (node (message 0 a) null))
        × (has p xs ≡ false)
  unfolding create_qnode read
  new_node-IsQueue h q xs a is =
      let out = not-has_of_none h xs (malloc.fresh h) is.chain (malloc.fresh_unused h) in
      (
        record {
          chain = Chain-write h xs (malloc.fresh h) _ is.chain out;
          head = is.head;
          tail = is.tail;
          total = is.total;
        },
        malloc.fresh_ne_null h,
        ground arith,
        out,
      )

  step-push :
      (a : A) (q : Queue) (h : Qnodes A) (xs : List A)
      → length xs < int_max
      → Holds h q xs
      → Agrees (push a) q h xs
  unfolding step
  step-push a q h xs few holds =
      let (is, ne, r, out) = new_node-IsQueue h q holds.cells a holds.queue in
      let p = (create_qnode malloc a h).0 in
      let n : length xs ≡ length holds.cells =
        ap length (sym holds.contents) ∙ length-args holds.cells in
      elim (Bool-cases (ltb max_size (length xs))) [
        | inl over ↦
            let (r', run, (e, eq, is')) =
              push_queue_refused max_size holds.cells p _ is ne r out (ground arith) in
            (
              (pushed (r'.0), r'.1, r'.2),
              rw run,
              rw over (
                ap pushed e,
                record { cells = holds.cells; queue = rw eq is'; contents = holds.contents },
              ),
            )
        | inr fits ↦
            let (r', run, f) =
              push_queue-Pushed max_size holds.cells p _ is ne r out (ground arith)
                (omega (arith, n)) in
            (
              (pushed (r'.0), r'.1, r'.2),
              rw run,
              rw fits (
                ap pushed f.done,
                record {
                  cells = _;
                  queue = f.queue;
                  contents = args-append holds.cells _ ∙ ap (λ ys. ys ++ (a ∷ [])) holds.contents;
                },
              ),
            )
      ]

  pop_frees :
      (q q' : Queue) (h g : Qnodes A) (p : Ptr) (v : Message A)
      → pop_queue q h ≡ ok (some p, q', g)
      → p ≢ null
      → read g p ≡ some (node v null)
      → step malloc max_size pop q h ≡ ok (popped (some v.arg), q', write g p none)
  unfolding step load free
  pop_frees q q' h g p v e ne r = rw e (ground arith)

  step-pop :
      (q : Queue) (h : Qnodes A) (cells : Cells (Message A))
      → IsQueue h q cells
      → Agrees pop q h (args cells)
  step-pop q h [] is = (
    (popped none, q, h),
    unfold step in rw (pop_queue-nil is),
    (refl, record { cells = []; queue = is; contents = refl }),
  )
  step-pop q h ((p, v) ∷ cells) is =
      let ((got, q', g), run, f) = pop_queue-Popped p v cells is in
      let popped_p : pop_queue q h ≡ ok (some p, q', g) = rw (← f.got) run in
      (
        (popped (some v.arg), q', write g p none),
        pop_frees q q' h g p v popped_p (is.chain.0) f.detached,
        (
          refl,
          record {
            cells = cells;
            queue = record {
              chain = Chain-write g cells p none f.queue.chain (is.chain.2);
              head = f.queue.head;
              tail = f.queue.tail;
              total = f.queue.total;
            };
            contents = refl;
          },
        ),
      )

  step-Agrees :
      (o : Op A) (q : Queue) (h : Qnodes A) (xs : List A)
      → length xs < int_max
      → Holds h q xs
      → Agrees o q h xs
  step-Agrees (push a) q h xs few holds = step-push a q h xs few holds
  step-Agrees pop q h xs few holds =
      subst (Agrees pop q h) holds.contents (step-pop q h holds.cells holds.queue)

  -- From a queue that stands for `xs`, the replies to any sequence of pushes and pops are those of
  -- the first-in, first-out queue that starts with `xs` and takes a message as long as it has at most
  -- `max_size` of them, so that a push leaves it with at most one more; no operation faults. The
  -- messages at the start and the operations are together no more than an `int` counts.
  pub run_refines :
      (os : List (Op A)) (q : Queue) (h : Qnodes A) (xs : List A)
      → length xs + length os ≤ int_max
      → Holds h q xs
      → run malloc max_size os q h ≡ ok (spec_run max_size os xs)
  unfolding run
  run_refines [] q h xs few holds = refl
  run_refines (o ∷ os) q h xs few holds =
      let ((r, q', h'), ran, (e, holds')) = step-Agrees o q h xs (omega arith) holds in
      rw (ran, run_refines os q' h' _ (omega (arith, length-spec_step max_size o xs)) holds')
        (ap (λ s. ok (s ∷ spec_run max_size os (spec_step max_size o xs).1)) e)

  -- A queue that was just created stands for the empty one, in any memory.
  pub create_queue-Holds : (name : List ℕ) (h : Qnodes A) → Holds h (create_queue name) []
  create_queue-Holds name h = record {
    cells = [];
    queue = create_queue-IsQueue name h;
    contents = refl;
  }
