-- ===== src/HashTable/Tests.antt =====
-- Runs on tables of four buckets. The names "a" and "e" have the same index, 1.
use aoq.Prelude.{ℕ, ◌≡◌, refl, inl, inr, true, false, some, none, List, [], ◌∷◌, arith}
use aoq.Heap.{ok, fault, Returns}
use aoq.CText.{c_string}
use aoq.HashTable.{
  HashTable, Realloc, blank, hash_init, elf_step, elf_loop, elf_hash, hash_index, hash_find,
  hash_insert, hash_delete, keys_loop, end_line, hash_keys, pick, decimal, bucket_at, has_key,
  strcmp_eq, find_bucket, found_value, follow,
}
use aoq.HashTable.Find.{pointer}
use aoq.HashTable.Insert.{IsTable, IsTable-set, filled}
use aoq.HashTable.InsertFind.{Draws, Inserted, hash_insert-Inserted}
use aoq.HashTable.Delete.{hash_delete-loses, hash_delete-dangles}
use aoq.HashTable.DeleteInsert.{hash_delete-hash_insert}
use aoq.HashTable.Keys.{line, hash_keys-line}
use aoq.HashTable.Init.{hash_init-IsTable}

-- A name of one letter, in a block of eight bytes.
abbrev name : ℕ → List ℕ
name c = c ∷ 0 ∷ 0 ∷ 0 ∷ 0 ∷ 0 ∷ 0 ∷ 0 ∷ []

abbrev blanks : HashTable
blanks = hash_init 0 4

abbrev moved : Realloc
moved = record { base = 1; garbage = [] }

-- "a" stands in its own bucket, and "e" behind it, in bucket 2.
abbrev chained : HashTable
chained = record {
  size = 4;
  total = 2;
  base = 0;
  buckets =
      blank
      ∷ record { key = some (name b'a'); value = some 7; next = some (pointer 0 2) }
      ∷ filled (name b'e') 8
      ∷ blank
      ∷ [];
}

home_a : hash_index chained (name b'a') ≡ ok 1
unfolding hash_index elf_hash elf_loop elf_step c_string
home_a = refl

home_e : hash_index chained (name b'e') ≡ ok 1
unfolding hash_index elf_hash elf_loop elf_step c_string
home_e = refl

has_a :
    has_key
      (name b'a')
      (record { key = some (name b'a'); value = some 7; next = some (pointer 0 2) })
    ≡ ok true
unfolding has_key strcmp_eq
has_a = refl

has_not_e :
    has_key
      (name b'e')
      (record { key = some (name b'a'); value = some 7; next = some (pointer 0 2) })
    ≡ ok false
unfolding has_key strcmp_eq
has_not_e = refl

has_e : has_key (name b'e') (filled (name b'e') 8) ≡ ok true
unfolding has_key strcmp_eq
has_e = refl

find_e : hash_find 2 chained (name b'e') ≡ ok (some 8)
unfolding hash_find bucket_at find_bucket found_value follow has_key strcmp_eq hash_index elf_hash
    elf_loop elf_step c_string
find_e = refl

hash_delete-loses_example :
    Returns
      (hash_delete 3 chained (name b'a'))
      λ r. (r.0 ≡ true) × (hash_find 2 r.1 (name b'e') ≡ ok none)
hash_delete-loses_example =
    hash_delete-loses 2 chained (name b'a') 1 _ 7 home_a refl refl (name b'e') 8 has_a home_e find_e

hash_delete-dangles_example :
    Returns
      (hash_delete 2 chained (name b'e'))
      λ r. (r.0 ≡ true) × (hash_find 2 r.1 (name b'e') ≡ fault)
hash_delete-dangles_example =
    hash_delete-dangles 0 chained (name b'e') 1 _ 7 home_e refl refl 2 (filled (name b'e') 8) 8
      has_not_e refl refl refl has_e

-- "a" alone, and the number that leads "e" to bucket 2.
abbrev one : HashTable
one = record {
  size = 4;
  total = 1;
  base = 0;
  buckets = blank ∷ filled (name b'a') 7 ∷ blank ∷ blank ∷ [];
}

one-IsTable : IsTable one
unfolding hash_init
one-IsTable =
    IsTable-set blanks one 1 (filled (name b'a') 7)
      (hash_init-IsTable 0 4 3 (b'a' ∷ []) (name b'a') (omega arith) (omega arith, _, refl)).0 refl
      (λ e. cc) (λ e. cc)

absent_e : hash_find 2 one (name b'e') ≡ ok none
unfolding hash_find bucket_at find_bucket found_value follow has_key strcmp_eq hash_index elf_hash
    elf_loop elf_step c_string
absent_e = refl

pick_two : pick (3 ∷ []) one 1 ≡ ok 2
unfolding pick decimal bucket_at hash_index elf_hash elf_loop elf_step c_string
pick_two = refl

draw_e : Draws (3 ∷ []) one (name b'e')
unfolding hash_index elf_hash elf_loop elf_step c_string
draw_e i b w h g u = let h' : ok 1 ≡ ok i = h in let e : 1 ≡ i = cc in (2, rw (← e) pick_two)

hash_insert-Inserted_example :
    Returns
      (hash_insert moved 2 (3 ∷ []) one (name b'e') 8)
      (Inserted 2 one (b'e' ∷ []) (name b'e') 8)
hash_insert-Inserted_example =
    hash_insert-Inserted moved 2 (3 ∷ []) one (b'e' ∷ []) (name b'e') 8 one-IsTable (omega arith)
      (omega arith, _, refl) (omega arith) (omega arith) (omega arith) absent_e draw_e

keys : hash_keys chained ≡ ok (b'a' ∷ 32 ∷ b'e' ∷ b'\n' ∷ [])
unfolding hash_keys keys_loop end_line c_string
keys = refl

home_b : hash_index one (name b'b') ≡ ok 2
unfolding hash_index elf_hash elf_loop elf_step c_string
home_b = refl

hash_delete-hash_insert_example :
    Returns
      (hash_insert moved 2 [] one (name b'b') 8)
      λ ht. hash_delete 1 ht (name b'b') ≡ ok (true, one)
hash_delete-hash_insert_example =
    hash_delete-hash_insert moved 2 0 [] one (b'b' ∷ []) (name b'b') 8 2 (omega arith)
      ((omega arith, tt), _, refl) (omega arith) (omega arith) home_b refl

hash_keys-line_example : hash_keys chained ≡ ok (line (b'a' ∷ []) ((b'e' ∷ []) ∷ []))
hash_keys-line_example = hash_keys-line chained (b'a' ∷ []) ((b'e' ∷ []) ∷ []) (omega arith) (
    inl (
      refl,
      inr (
        name b'a',
        b'a' ∷ [],
        (b'e' ∷ []) ∷ [],
        refl,
        ((omega arith, tt), _, refl),
        refl,
        inr (name b'e', b'e' ∷ [], [], refl, ((omega arith, tt), _, refl), refl, inl (refl, refl)),
      ),
    ))
