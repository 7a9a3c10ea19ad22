-- ===== src/Registry/Get.antt =====
-- `getQueue` on both branches.
use aoq.Prelude.{ℕ, suc, ◌≤◌, ◌<◌, ◌≡◌, ◌≢◌, false, Option, some, none, List, arith, length}
use aoq.Heap.{Ptr, null, ok, Returns, Heap, read, write, Malloc}
use aoq.HashTable.{HashTable, Realloc, hash_find, hash_insert}
use aoq.HashTable.Fuel.{hash_find-more, hash_insert-more}
use aoq.HashTable.Text.{Named, same_text}
use aoq.HashTable.Insert.{IsTable}
use aoq.HashTable.InsertFind.{Draws, hash_insert-Inserted}
use aoq.Queue.{Queue, create_queue}
use aoq.Registry.{Registry, get_queue}

pub get_queue-found :
    (malloc : Malloc Queue) (realloc : Realloc) (n : ℕ) (rands : List ℕ) (qname : List ℕ)
    (s : Registry) (p : Ptr)
    → hash_find n s.ht qname ≡ ok (some p)
    → get_queue malloc realloc n rands qname s ≡ ok (p, s)
unfolding get_queue
get_queue-found malloc realloc n rands qname s p e = rw e

get_queue-made :
    (malloc : Malloc Queue) (realloc : Realloc) (n : ℕ) (rands : List ℕ) (qname : List ℕ)
    (s : Registry) (ht' : HashTable)
    → hash_find n s.ht qname ≡ ok none
    → hash_insert realloc n rands s.ht qname (malloc.fresh s.queues) ≡ ok ht'
    → get_queue malloc realloc n rands qname s
      ≡ ok (
        malloc.fresh s.queues,
        record {
          queues = write s.queues (malloc.fresh s.queues) (some (create_queue qname));
          ht = ht';
        },
      )
unfolding get_queue
get_queue-made malloc realloc n rands qname s ht' e run = rw (e, run)

read-write : (h : Heap Queue) (p : Ptr) (q : Option Queue) → read (write h p q) p ≡ q
unfolding read
read-write h p q = ground arith

-- In a well-formed table with room, and with numbers from `rand()` that lead to a free bucket when
-- one is needed, a name of at most seven bytes that is not in the table, and from whose start on
-- eight bytes can be read, as many as `memcpy` copies, gets a new, empty queue at an address that
-- held none. The table stays well-formed, a second `getQueue` of the name returns the same queue and
-- changes nothing, and other names are found, or not, as before.
pub get_queue_twice :
    (malloc : Malloc Queue) (realloc : Realloc) (n : ℕ) (rands : List ℕ) (name qname : List ℕ)
    (s : Registry)
    → IsTable s.ht
    → s.ht.total < s.ht.size
    → Named name qname
    → length name ≤ 7
    → 8 ≤ length qname
    → hash_find n s.ht qname ≡ ok none
    → Draws rands s.ht qname
    → Returns (get_queue malloc realloc n rands qname s) λ r.
      (read s.queues r.0 ≡ none)
      × (read r.1.queues r.0 ≡ some (create_queue qname))
      × IsTable r.1.ht
      × (get_queue malloc realloc (suc n) rands qname r.1 ≡ ok r)
      × ((other memory : List ℕ) (q : Option Ptr)
          → Named other memory
          → same_text other name ≡ false
          → hash_find n s.ht memory ≡ ok q
          → hash_find (suc n) r.1.ht memory ≡ ok q)
get_queue_twice malloc realloc n rands name qname s is room named short readable absent draws =
    let fresh = malloc.fresh s.queues in
    let (ht', run, ins) =
      hash_insert-Inserted realloc n rands s.ht name qname fresh is room named short readable
        (malloc.fresh_ne_null s.queues) absent draws in
    let s' : Registry = record {
      queues = write s.queues fresh (some (create_queue qname));
      ht = ht';
    } in
    (
      (fresh, s'),
      get_queue-made malloc realloc n rands qname s ht' absent run,
      (
        malloc.fresh_unused s.queues,
        read-write s.queues fresh (some (create_queue qname)),
        ins.table,
        get_queue-found malloc realloc (suc n) rands qname s' fresh ins.found,
        ins.others,
      ),
    )

-- The same with one fuel throughout.
pub get_queue-fresh :
    (malloc : Malloc Queue) (realloc : Realloc) (n : ℕ) (rands : List ℕ) (name qname : List ℕ)
    (s : Registry)
    → IsTable s.ht
    → s.ht.total < s.ht.size
    → Named name qname
    → length name ≤ 7
    → 8 ≤ length qname
    → hash_find n s.ht qname ≡ ok none
    → Draws rands s.ht qname
    → Returns (get_queue malloc realloc (suc n) rands qname s) λ r.
      (r.0 ≢ null)
      × (read r.1.queues r.0 ≡ some (create_queue qname))
      × (hash_find (suc n) r.1.ht qname ≡ ok (some (r.0)))
get_queue-fresh malloc realloc n rands name qname s is room named short readable absent draws =
    let fresh = malloc.fresh s.queues in
    let (ht', run, ins) =
      hash_insert-Inserted realloc n rands s.ht name qname fresh is room named short readable
        (malloc.fresh_ne_null s.queues) absent draws in
    (
      (fresh, record { queues = write s.queues fresh (some (create_queue qname)); ht = ht' }),
      get_queue-made malloc realloc (suc n) rands qname s ht'
          (hash_find-more n s.ht qname none absent)
          (hash_insert-more realloc n rands s.ht ht' qname fresh run),
      (
        malloc.fresh_ne_null s.queues,
        read-write s.queues fresh (some (create_queue qname)),
        ins.found,
      ),
    )
