-- ===== src/HashTable/Init.antt =====
-- `hash_init`: a table of blank buckets.
use aoq.Prelude.{
  ℕ, zero, suc, ◌<◌, ◌≡◌, refl, ◌%◌, false, some, none, List, arith, replicate, get_elem?, ◌==◌,
}
use Prim.Native.Nat.{bit_and}
use aoq.Heap.{ok}
use aoq.CText.Strings.{c_string-text}
use aoq.HashTable.{Bucket, HashTable, blank, hash_init, hash_index, hash_find, elf_hash, elf_loop}
use aoq.HashTable.Text.{Named}
use aoq.HashTable.Insert.{IsTable, hash_find-free}

get_elem?-replicate : (n i : ℕ) (b : Bucket) → get_elem? (replicate n blank) i ≡ some b → b ≡ blank
get_elem?-replicate zero i b g = cc
get_elem?-replicate (suc n) zero b g = cc
get_elem?-replicate (suc n) (suc i) b g = get_elem?-replicate n i b g

replicate-get_elem? : (n i : ℕ) → i < n → get_elem? (replicate n blank) i ≡ some blank
replicate-get_elem? zero i lt = absurd (omega arith)
replicate-get_elem? (suc n) zero lt = refl
replicate-get_elem? (suc n) (suc i) lt = replicate-get_elem? n i (omega arith)

pub hash_init-blank :
    (base size : ℕ) (i : ℕ) (b : Bucket)
    → get_elem? (hash_init base size).buckets i ≡ some b
    → b.value ≡ none
unfolding hash_init
hash_init-blank base size i b g = let e = get_elem?-replicate size i b g in rw e refl

-- The index of a name is one of the table's.
pub hash_index-lt :
    (ht : HashTable) (name key : List ℕ)
    → 0 < ht.size
    → Named name key
    → (i : ℕ) × (hash_index ht key ≡ ok i) × (i < ht.size)
unfolding hash_index
hash_index-lt ht name key positive (nz, beyond, e) =
    let some_size : ht.size == 0 ≡ false = ground arith in
    (
      bit_and (elf_loop 0 name) 0x7fff_ffff % ht.size,
      unfold elf_hash in rw (e, c_string-text name beyond nz, some_size),
      omega arith,
    )

-- A table that was just set up, with at least one bucket, is well-formed and holds no key.
pub hash_init-IsTable :
    (base size n : ℕ) (name key : List ℕ)
    → 0 < size
    → Named name key
    → IsTable (hash_init base size) × (hash_find n (hash_init base size) key ≡ ok none)
unfolding hash_init
hash_init-IsTable base size n name key positive named =
    let (i, home, lt) = hash_index-lt (hash_init base size) name key positive named in
    (
      record {
        free_blank = λ i b g z. let e = get_elem?-replicate size i b g in rw e refl;
        no_null = λ i b v g z. let e = get_elem?-replicate size i b g in cc;
      },
      hash_find-free n (hash_init base size) key i blank home (replicate-get_elem? size i lt) refl,
    )
