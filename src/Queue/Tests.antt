-- ===== src/Queue/Tests.antt =====
-- Runs of the queue's functions, with numbers for the messages' arguments.
use aoq.Prelude.{ℕ, ◌+◌, ◌≡◌, refl, some, List, [], ◌∷◌, arith}
use aoq.Heap.{null, Run, ok, Returns, read}
use aoq.Heap.Bump.{bump}
use aoq.Heap.Chain.{node, Cells}
use aoq.Queue.{Message, Queue, Qnodes, create_queue, delete_queue}
use aoq.Queue.Push.{IsQueue, message}
use aoq.Queue.Delete.{AllFreed, delete_queue-free_each}
use aoq.Queue.Fifo.{Op, push, pop, spec_run, run, run_refines, create_queue-Holds}

-- Two messages, at 1 and 2, and a new node at 3.
abbrev nodes : Qnodes ℕ
nodes =
    (1, some (node (message 1 70) 2))
    ∷ (2, some (node (message 2 80) null))
    ∷ (3, some (node (message 0 90) null))
    ∷ []

abbrev two : Queue
two = record { name = b'a' ∷ []; total = 2; head_next = 1; tail_next = 2 }

abbrev two_messages : Cells (Message ℕ)
two_messages = (1, message 1 70) ∷ (2, message 2 80) ∷ []

two-IsQueue : IsQueue nodes two two_messages
unfolding read
two-IsQueue = record {
  chain = (omega arith, refl, refl, (omega arith, refl, refl, tt));
  head = refl;
  tail = λ ne. refl;
  total = refl;
}

-- Arguments that are freed by counting them.
abbrev count : ℕ → ℕ → Run ℕ
count a n = ok (n + 1)

delete_queue-free_each_example :
    Returns
      (delete_queue count 9 two nodes 0)
      λ r. AllFreed count two_messages nodes r.0 × (r.1 ≡ 2)
delete_queue-free_each_example =
    delete_queue-free_each count 9 two_messages 0 2 two-IsQueue refl (omega arith)

abbrev ops : List (Op ℕ)
ops = push 7 ∷ push 8 ∷ push 9 ∷ pop ∷ pop ∷ pop ∷ []

run_refines_example : run bump 1 ops (create_queue []) [] ≡ ok (spec_run 1 ops [])
run_refines_example =
    run_refines bump 1 ops (create_queue []) [] [] (omega arith) (create_queue-Holds bump 1 [] [])
