-- ===== src/Registry.antt =====
-- aoq.c: `getQueue`, which finds a queue by its name or makes it.
mod Tests
pub mod Get
use aoq.Prelude.{ℕ, Option, some, none, List}
use aoq.Heap.{Ptr, Run, ok, ◌>>=◌, Heap, write, Malloc}
use aoq.HashTable.{HashTable, Realloc, hash_find, hash_insert}
use aoq.Queue.{Queue, create_queue}

-- The queues in memory, and the table that leads to them.
pub record Registry : Type 0 where
  pub queues : Heap Queue
  pub ht : HashTable

-- The key is the memory from `qname` on. `createQueue` keeps that pointer as the queue's name, which the
-- program never reads; here it keeps the bytes.
unfoldable pub get_queue :
    Malloc Queue → Realloc → ℕ → List ℕ → List ℕ → Registry → Run (Ptr × Registry)
get_queue malloc realloc fuel rands qname s = do
  r ← hash_find fuel s.ht qname
  elim r [
    | some p ↦ ok (p, s)
    | none ↦ do
      let p : Ptr = malloc.fresh s.queues
      ht ← hash_insert realloc fuel rands s.ht qname p
      ok (p, record { queues = write s.queues p (some (create_queue qname)); ht = ht })
  ]
