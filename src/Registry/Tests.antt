-- ===== src/Registry/Tests.antt =====
-- `getQueue` of the name "e" in a table that holds "a".
use aoq.Prelude.{ℕ, ◌≡◌, refl, false, Option, some, none, List, [], ◌∷◌, arith}
use aoq.Heap.{Ptr, ok, Returns, read}
use aoq.Heap.Bump.{bump}
use aoq.CText.{c_string}
use aoq.HashTable.{
  HashTable, Realloc, blank, elf_step, elf_loop, elf_hash, hash_init, hash_index, hash_find, pick,
  decimal, bucket_at, has_key, strcmp_eq, find_bucket, found_value, follow,
}
use aoq.HashTable.Text.{Named, same_text}
use aoq.HashTable.InsertFind.{Draws}
use aoq.HashTable.Insert.{IsTable, IsTable-set, filled}
use aoq.HashTable.Init.{hash_init-IsTable}
use aoq.Queue.{create_queue}
use aoq.Registry.{Registry, get_queue}
use aoq.Registry.Get.{get_queue_twice}

abbrev name : ℕ → List ℕ
name c = c ∷ 0 ∷ 0 ∷ 0 ∷ 0 ∷ 0 ∷ 0 ∷ 0 ∷ []

abbrev one : HashTable
one = record {
  size = 4;
  total = 1;
  base = 0;
  buckets = blank ∷ filled (name b'a') 7 ∷ blank ∷ blank ∷ [];
}

abbrev registry : Registry
registry = record { queues = (7, some (create_queue (name b'a'))) ∷ []; ht = one }

abbrev moved : Realloc
moved = record { base = 1; garbage = [] }

one-IsTable : IsTable one
unfolding hash_init
one-IsTable =
    IsTable-set (hash_init 0 4) one 1 (filled (name b'a') 7)
      (hash_init-IsTable 0 4 3 (b'a' ∷ []) (name b'a') (omega arith) (omega arith, _, refl)).0 refl
      (λ e. cc) (λ e. cc)

absent_e : hash_find 2 one (name b'e') ≡ ok none
unfolding hash_find bucket_at find_bucket found_value follow has_key strcmp_eq hash_index elf_hash
    elf_loop elf_step c_string
absent_e = refl

pick_two : pick (3 ∷ []) one 1 ≡ ok 2
unfolding pick decimal bucket_at hash_index elf_hash elf_loop elf_step c_string
pick_two = refl

draw_e : Draws (3 ∷ []) one (name b'e')
unfolding hash_index elf_hash elf_loop elf_step c_string
draw_e i b w h g u = let h' : ok 1 ≡ ok i = h in let e : 1 ≡ i = cc in (2, rw (← e) pick_two)

get_queue_twice_example : Returns (get_queue bump moved 2 (3 ∷ []) (name b'e') registry) λ r.
    (read registry.queues r.0 ≡ none)
    × (read r.1.queues r.0 ≡ some (create_queue (name b'e')))
    × IsTable r.1.ht
    × (get_queue bump moved 3 (3 ∷ []) (name b'e') r.1 ≡ ok r)
    × ((other memory : List ℕ) (q : Option Ptr)
        → Named other memory
        → same_text other (b'e' ∷ []) ≡ false
        → hash_find 2 registry.ht memory ≡ ok q
        → hash_find 3 r.1.ht memory ≡ ok q)
get_queue_twice_example =
    get_queue_twice bump moved 2 (3 ∷ []) (b'e' ∷ []) (name b'e') registry one-IsTable (omega arith)
      (omega arith, _, refl) (omega arith) (omega arith) absent_e draw_e
