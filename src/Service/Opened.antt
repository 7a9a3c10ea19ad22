-- ===== src/Service/Opened.antt =====
-- The queue that a request finds or makes: what follows is the same as if it had been there.
use aoq.Prelude.{ℕ, ◌≡◌, List, ◌∷◌, ◌++◌, some}
use aoq.Heap.{Ptr, ok}
use aoq.Parser.{Arg}
use aoq.Queue.{Queue}
use aoq.HashTable.{hash_find}
use aoq.Registry.{Registry, get_queue}
use aoq.Registry.Get.{get_queue-found}
use aoq.Command.{Server, Outside, push, pop}
use aoq.Command.Handlers.{Opens}
use aoq.Service.Serves.{Serves}

-- `getQueue` finds or makes the queue `name`, and the server then keeps it with the values `vs`.
pub record Opened (o : Outside) (name : List ℕ) (p : Ptr) (vs : List (List ℕ)) (s : Server)
    : Type 0 where
  pub names : Registry
  pub got :
      get_queue o.malloc_queue o.realloc o.fuel o.rands (name ++ 0 ∷ o.beyond) s.names
      ≡ ok (p, names)
  pub serves : Serves o name p vs (record s { names = names })

pub Serves-Opened :
    (o : Outside) (name : List ℕ) (p : Ptr) (vs : List (List ℕ)) (s : Server)
    → Serves o name p vs s
    → Opened o name p vs s
Serves-Opened o name p vs s S = record {
  names = s.names;
  got =
      get_queue-found o.malloc_queue o.realloc o.fuel o.rands (name ++ 0 ∷ o.beyond) s.names p
        S.known;
  serves = S;
}

module _ {o : Outside} {args : List Arg} (s : Server) (names : Registry) {p : Ptr} {q : Queue}
    (opens : Opens o args (record s { names = names }) p q) (qname : List ℕ)
    (e : opens.qname ≡ qname)
    (got : get_queue o.malloc_queue o.realloc o.fuel o.rands qname s.names ≡ ok (p, names)) where
  known : hash_find o.fuel names.ht qname ≡ ok (some p)
  known = rw (← e) opens.known

  pub push-opened : (fd : ℕ) → push o fd args s ≡ push o fd args (record s { names = names })
  unfolding push
  push-opened fd = rw (
    opens.first,
    opens.good,
    opens.name,
    e,
    rw e at opens.shown,
    opens.some_text,
    got,
    get_queue-found o.malloc_queue o.realloc o.fuel o.rands qname names p known,
  )

  pub pop-opened : (fd : ℕ) → pop o fd args s ≡ pop o fd args (record s { names = names })
  unfolding pop
  pop-opened fd = rw (
    opens.first,
    opens.good,
    opens.name,
    e,
    rw e at opens.shown,
    opens.some_text,
    got,
    get_queue-found o.malloc_queue o.realloc o.fuel o.rands qname names p known,
  )
