-- ===== src/HashTable.antt =====
-- hashtable.c: the table of queues by name. Buckets stand in one array; a bucket that is taken by another
-- key is the start of a chain through `next`, whose further buckets are found by drawing random numbers.
-- A pointer to a bucket is its index and the array that it points into, which `realloc` may move.
pub mod Text
pub mod Find
pub mod Fuel
pub mod Extend
pub mod Insert
pub mod InsertFind
pub mod Delete
pub mod DeleteInsert
pub mod Keys
pub mod Init
mod Tests
use Prim.Native.Nat.{bit_and, bit_xor}
use aoq.Prelude.{
  ℕ, zero, suc, ◌+◌, ◌-◌, ◌*◌, ◌/◌, ◌%◌, ◌^◌, Bool, true, false, ◌||◌, ◌&&◌, not, Option, some,
  none, List, [], ◌∷◌, ◌++◌, ltb, ◌==◌, if◌then◌else◌, length, get_elem?, set, replicate,
}
use aoq.Heap.{Ptr, null, Run, ok, fault, stuck, ◌>>=◌, of_option}
use aoq.CText.{c_string}

-- The array of the pointer, and the bucket's place in it.
pub record BucketPtr : Type 0 where
  pub base : ℕ
  pub index : ℕ

-- `struct _Bucket`: `key` points to a block of eight bytes, `value` to a cell that holds a pointer to a
-- queue. `none` is `NULL`.
pub record Bucket : Type 0 where
  pub key : Option (List ℕ)
  pub value : Option Ptr
  pub next : Option BucketPtr

-- `struct _HashTable`, with the identity of the array.
pub record HashTable : Type 0 where
  pub size : ℕ
  pub total : ℕ
  pub base : ℕ
  pub buckets : List Bucket

abbrev pub blank : Bucket
blank = record { key = none; value = none; next = none }

unfoldable pub hash_init : ℕ → ℕ → HashTable
hash_init base ht_size = record {
  size = ht_size;
  total = 0;
  base = base;
  buckets = replicate ht_size blank;
}

-- `(*str++)` of a signed `char`, as an `unsigned int`.
abbrev pub widened : ℕ → ℕ
widened c = if ltb c 128 then c else c + 2 ^ 32 - 256

-- One round of `ELFHash`, on 32 bits.
unfoldable pub elf_step : ℕ → ℕ → ℕ
elf_step hash c =
    let h = (hash * 16 % 2 ^ 32 + widened c) % 2 ^ 32 in
    let x = bit_and h 0xf000_0000 in
    if x == 0 then h else bit_and (bit_xor h (x / 2 ^ 24)) (2 ^ 32 - 1 - x)

unfoldable pub elf_loop : ℕ → List ℕ → ℕ
unfolding elf_step
elf_loop hash [] = hash
elf_loop hash (c ∷ s) = elf_loop (elf_step hash c) s

-- The bytes from `str` on; a remainder by 0 is undefined.
unfoldable pub elf_hash : List ℕ → ℕ → Run ℕ
unfolding elf_loop
elf_hash str length = do
  s ← c_string str
  if length == 0 then fault else ok (bit_and (elf_loop 0 s) 0x7fff_ffff % length)

unfoldable pub hash_index : HashTable → List ℕ → Run ℕ
unfolding elf_hash
hash_index ht key = elf_hash key ht.size

-- `strcmp(a, b) == 0`
unfoldable pub strcmp_eq : List ℕ → List ℕ → Run Bool
strcmp_eq [] b = fault
strcmp_eq (x ∷ a) [] = fault
strcmp_eq (x ∷ a) (y ∷ b) =
    let more = strcmp_eq a b in if x == y then (if x == 0 then ok true else more) else ok false

unfoldable pub bucket_at : HashTable → ℕ → Run Bucket
bucket_at ht i = of_option (get_elem? ht.buckets i)

-- The bucket that a `next` points to. A pointer into an array that `realloc` has freed dangles.
unfoldable pub follow : HashTable → BucketPtr → Run ℕ
follow ht p = if p.base == ht.base then ok p.index else fault

-- `strcmp(key, bucket->key) == 0`
unfoldable pub has_key : List ℕ → Bucket → Run Bool
unfolding strcmp_eq
has_key key b = do k ← of_option b.key; strcmp_eq key k

-- `while (strcmp(key, bucket->key))`: the bucket where the search ends.
unfoldable pub find_bucket : ℕ → HashTable → List ℕ → ℕ → Run ℕ
unfolding bucket_at follow
find_bucket zero ht key i = stuck
find_bucket (suc fuel) ht key i = do
  b ← bucket_at ht i
  same ← has_key key b
  let walk : Run ℕ = elim b.next [ none ↦ ok i | some p ↦ follow ht p >>= find_bucket fuel ht key ]
  if same then ok i else walk

-- The test behind that loop.
unfoldable pub found_value : HashTable → List ℕ → ℕ → Run (Option Ptr)
unfolding bucket_at
found_value ht key j = do
  b ← bucket_at ht j
  v ← of_option b.value
  if v == null then ok none else do same ← has_key key b; ok (if same then some v else none)

-- The value, or `none` for `FAILED`.
unfoldable pub hash_find : ℕ → HashTable → List ℕ → Run (Option Ptr)
unfolding bucket_at
hash_find fuel ht key = do
  i ← hash_index ht key
  b ← bucket_at ht i
  elim b.value [ none ↦ ok none | some _ ↦ find_bucket fuel ht key i >>= found_value ht key ]

abbrev put : HashTable → ℕ → Bucket → HashTable
put ht i b = record ht { buckets = set ht.buckets i b }

-- True for `SUCCESS`. The bucket is cleared whole, its `next` included.
unfoldable pub hash_delete : ℕ → HashTable → List ℕ → Run (Bool × HashTable)
unfolding bucket_at
hash_delete fuel ht key = do
  i ← hash_index ht key
  b ← bucket_at ht i
  elim b.value [
    | none ↦ ok (false, ht)
    | some _ ↦ do
      j ← find_bucket fuel ht key i
      c ← bucket_at ht j
      elim c.value [
        | none ↦ ok (false, ht)
        | some _ ↦ do
          same ← has_key key c
          ok (
              if same
              then (true, record (put ht j blank) { total = ht.total - 1 })
              else (false, ht))
      ]
  ]

-- `sprintf("%d", n)`, with a terminating `NUL`, of a number that is not negative.
unfoldable pub decimal : ℕ → ℕ → List ℕ → List ℕ
decimal zero n s = s
decimal (suc fuel) n s =
    let more = decimal fuel (n / 10) ((b'0' + n % 10) ∷ s) in
    if n / 10 == 0 then (b'0' + n % 10) ∷ s else more

-- `abs(a - b)`
abbrev pub distance : ℕ → ℕ → ℕ
distance a b = if ltb a b then b - a else a - b

-- The `do` loop of `hash_insert`, over the numbers that `rand()` will return.
unfoldable pub pick : List ℕ → HashTable → ℕ → Run ℕ
unfolding bucket_at
pick [] ht index = stuck
pick (r ∷ rands) ht index =
    let again = pick rands ht index in
    hash_index ht (decimal 20 (distance r index) (0 ∷ [])) >>= λ i. bucket_at ht i >>= λ b.
    elim b.value [ none ↦ if i == index then again else ok i | some _ ↦ again ]

-- Where the inner `while` ends: at a bucket with the key and a successor, whose value is overwritten, or
-- at the last bucket, whose key is not compared.
pub data Walk : Type 0 where
  at_key at_end : ℕ → Walk

unfoldable pub insert_walk : ℕ → HashTable → List ℕ → ℕ → Run Walk
unfolding bucket_at follow
insert_walk zero ht key i = stuck
insert_walk (suc fuel) ht key i = bucket_at ht i >>= λ b. elim b.next [
  | none ↦ ok (at_end i)
  | some p ↦
      let go : Run Walk = follow ht p >>= insert_walk fuel ht key in
      has_key key b >>= λ same. if same then ok (at_key i) else go
]

-- `memcpy(bucket->key, key, sizeof(key))`, where `sizeof` is that of a pointer: eight bytes.
unfoldable pub copy_bytes : ℕ → List ℕ → Run (List ℕ)
copy_bytes zero s = ok []
copy_bytes (suc n) [] = fault
copy_bytes (suc n) (c ∷ s) = copy_bytes n s >>= λ t. ok (c ∷ t)

-- The end of `hash_insert`: the bucket `i` takes the key and the value.
unfoldable pub fill_bucket : HashTable → ℕ → List ℕ → Ptr → Run HashTable
unfolding bucket_at
fill_bucket ht i key value = do
  _ ← bucket_at ht i
  k ← copy_bytes 8 key
  ok (record (put ht i (record { key = some k; value = some value; next = none })) {
    total = ht.total + 1;
  })

-- `bucket->next = &ht->buckets[i]`
unfoldable pub link_bucket : HashTable → ℕ → ℕ → Run HashTable
unfolding bucket_at
link_bucket ht l i = do
  b ← bucket_at ht l
  ok (put ht l (record b { next = some (record { base = ht.base; index = i }) }))

unfoldable pub overwrite : HashTable → ℕ → Ptr → Run HashTable
unfolding bucket_at
overwrite ht i value = do
  b ← bucket_at ht i
  _ ← of_option b.value
  ok (put ht i (record b { value = some value }))

-- `realloc`: the array that it returns, and what its new half holds, which nothing has written.
pub record Realloc : Type 0 where
  pub base : ℕ
  pub garbage : List Bucket

unfoldable pub grow : Realloc → HashTable → HashTable
grow realloc ht = if ltb ht.total ht.size then ht else record ht {
  size = ht.size * 2;
  base = realloc.base;
  buckets = ht.buckets ++ realloc.garbage;
}

-- `hash_insert` behind its resize. A bucket that `pick` returned is free, so the outer `while` runs
-- once at most.
unfoldable pub insert_into : ℕ → List ℕ → HashTable → List ℕ → Ptr → Run HashTable
unfolding bucket_at link_bucket fill_bucket overwrite
insert_into fuel rands ht key value = do
  i ← hash_index ht key
  b ← bucket_at ht i
  elim b.value [
    | none ↦ fill_bucket ht i key value
    | some _ ↦ do
      w ← insert_walk fuel ht key i
      elim w [
        | at_key j ↦ overwrite ht j value
        | at_end l ↦ do
          j ← pick rands ht i
          linked ← link_bucket ht l j
          fill_bucket linked j key value
      ]
  ]

unfoldable pub hash_insert : Realloc → ℕ → List ℕ → HashTable → List ℕ → Ptr → Run HashTable
hash_insert realloc fuel rands ht key value = insert_into fuel rands (grow realloc ht) key value

-- The keys of the next buckets, as many as the number says, in the order of the array, each with a blank
-- behind it.
unfoldable pub keys_loop : ℕ → List Bucket → Run (List ℕ)
keys_loop zero bs = ok []
keys_loop (suc n) [] = fault
keys_loop (suc n) (b ∷ bs) = do
  rest ← keys_loop n bs
  elim b.key [ none ↦ ok rest | some k ↦ c_string k >>= λ s. ok (s ++ 32 ∷ rest) ]

-- The last byte becomes a newline.
unfoldable pub end_line : List ℕ → List ℕ
end_line [] = []
end_line (c ∷ []) = b'\n' ∷ []
end_line (c ∷ d ∷ s) = c ∷ end_line (d ∷ s)

-- What `hash_keys` writes behind the caller's header; its length is added to the caller's count.
unfoldable pub hash_keys : HashTable → Run (List ℕ)
unfolding keys_loop end_line
hash_keys ht =
    if ht.total == 0 then ok [] else keys_loop ht.size ht.buckets >>= λ s. ok (end_line s)
