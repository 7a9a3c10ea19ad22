-- ===== src/Queue.antt =====
-- aoq.c: a queue of messages, linked from `head->next` to `tail->next`. The sentinel nodes `head` and
-- `tail` are used for their `next` alone, and are that field here. A message is the array of arguments
-- that `push` was given, of any type here.
pub mod Push
pub mod Pop
pub mod Delete
pub mod Fifo
mod Tests
use aoq.Prelude.{
  ℕ, zero, suc, ◌+◌, ◌-◌, ◌%◌, ◌^◌, ◌||◌, Bool, true, false, some, Option, none, List, ltb, leb,
  ◌==◌, if◌then◌else◌,
}
use aoq.Heap.{Ptr, null, Run, ok, fault, stuck, ◌>>=◌, Heap, write, load, free, Malloc}
use aoq.Heap.Chain.{Node, node, set_next}

-- A `struct _qnode` is a node with these two.
pub record Message {ℓ} (A : Type ℓ) : Type ℓ where
  pub uniqid : ℕ
  pub arg : A

-- `struct _aoq`, with the bytes of its name. `total` falls only where a node is taken off.
pub record Queue : Type 0 where
  pub name : List ℕ
  pub total : ℕ
  pub head_next : Ptr
  pub tail_next : Ptr

unfoldable pub create_queue : List ℕ → Queue
create_queue qname = record { name = qname; total = 0; head_next = null; tail_next = null }

abbrev pub Qnodes {ℓ} : Type ℓ → Type ℓ
Qnodes A = Heap (Node (Message A))

-- `INT_MAX`
abbrev pub int_max : ℕ
int_max = 2147483647

-- `unsigned int`
abbrev pub u32 : ℕ → ℕ
u32 n = n % 2 ^ 32

-- `(uniqid + 1) % Serv->aoq_max_size`
abbrev pub next_id : ℕ → ℕ → ℕ
next_id max_size n = u32 (u32 (n + 1) % max_size)

module _ {ℓ} {A : Type ℓ} where
  unfoldable pub create_qnode : Malloc (Node (Message A)) → A → Qnodes A → Ptr × Qnodes A
  create_qnode malloc arg h =
      let p = malloc.fresh h in (p, write h p (some (node (record { uniqid = 0; arg = arg }) null)))

  -- `qnode->uniqid = n`
  unfoldable pub set_uniqid : Qnodes A → Ptr → ℕ → Run (Qnodes A)
  set_uniqid h p n = do
    q ← load h p
    ok (write h p (some (record q { val = record (q.val) { uniqid = n } })))

  -- True for the return of 1. `total` is an `int`, which must not overflow. The first number is
  -- `Serv->aoq_max_size`.
  unfoldable pub push_queue : ℕ → Queue → Ptr → Qnodes A → Run (Bool × Queue × Qnodes A)
  unfolding set_uniqid
  push_queue max_size q p h = do
    h₀ ← set_next h p null
    if q.total == 0
        then (do
          h₁ ← set_uniqid h₀ p 1
          ok (true, record q { total = q.total + 1; head_next = p; tail_next = p }, h₁))
        else if ltb max_size q.total
        then ok (false, q, h₀)
        else if leb int_max q.total
        then fault
        else do
          t ← load h₀ q.tail_next
          h₁ ← set_uniqid h₀ p (next_id max_size t.val.uniqid)
          h₂ ← set_next h₁ q.tail_next p
          ok (true, record q { total = q.total + 1; tail_next = p }, h₂)

  -- `none` for the return of -1. Two statements of that branch compare and do not assign.
  unfoldable pub pop_queue : Queue → Qnodes A → Run (Option Ptr × Queue × Qnodes A)
  pop_queue q h = if q.total == 0 || q.head_next == null then ok (none, q, h) else do
    n ← load h q.head_next
    h₁ ← set_next h q.head_next null
    ok (
      some q.head_next,
      (if n.next == null
          then record q { total = q.total - 1; head_next = null; tail_next = null }
          else record q { total = q.total - 1; head_next = n.next }),
      h₁,
    )

  module _ {κ} {S : Type κ} (free_args : A → S → Run S) where
    -- The loop of `deleteQueue` from the node `p` on, which is not `NULL`.
    unfoldable pub delete_nodes : ℕ → Ptr → Qnodes A → S → Run (Qnodes A × S)
    delete_nodes zero p h s = stuck
    delete_nodes (suc fuel) p h s = do
      n ← load h p
      s' ← free_args n.val.arg s
      h' ← free h p
      let rest : Run (Qnodes A × S) = delete_nodes fuel n.next h' s'
      if n.next == null then ok (h', s') else rest

    -- The nodes and their arguments; the caller's `AOQ` itself is gone then.
    unfoldable pub delete_queue : ℕ → Queue → Qnodes A → S → Run (Qnodes A × S)
    delete_queue fuel q h s =
        if q.head_next == null then ok (h, s) else delete_nodes fuel q.head_next h s
