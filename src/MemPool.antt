-- ===== src/MemPool.antt =====
-- mempool.c: the pool of free chunks, the slabs that hold a message, and the pool's tuning.
-- The global `mp` and the counter `Serv->chunk_used_num` are fields of one state. The sentinel nodes
-- `head` and `tail` of a pool or a slab are used for their `next` alone, and are that field here.
-- Functions that can only return 1 return the new state.
pub mod Pool
pub mod Slab
pub mod Tune
pub mod Stale
pub mod Fill
mod Tests
use aoq.Prelude.{ℕ, zero, suc, ◌+◌, ◌-◌, ◌||◌, some, List, ltb, ◌==◌, if◌then◌else◌, replicate}
use aoq.Prelude.Int.{ℤ, pos, negsuc, ◌+ℤ◌, ◌-ℤ◌}
use aoq.Heap.{Ptr, null, Run, ok, fault, stuck, ◌>>=◌, Heap, write, load, store, free, Malloc}
use aoq.Heap.Chain.{Node, node, set_next}

-- The `cksize` bytes that `chunk` points to.
abbrev pub Chunk : Type 0
Chunk = List ℕ

-- `struct _chunk_node`
abbrev pub ChunkNode : Type 0
ChunkNode = Node Chunk

-- `struct _mem_pool`. `total` falls only where a node is taken off the list.
pub record MemPool : Type 0 where
  pub head_next : Ptr
  pub tail_next : Ptr
  pub total : ℕ
  pub size : ℕ
  pub cksize : ℕ

-- `struct _mem_slab`
pub record MemSlab : Type 0 where
  pub head_next : Ptr
  pub tail_next : Ptr

pub record Mem : Type 0 where
  pub chunks : Heap ChunkNode
  pub slabs : Heap MemSlab
  pub mp : MemPool
  pub chunk_used_num : ℤ

abbrev pub mp_reserve_size : ℕ
mp_reserve_size = 10000

-- The bytes after `memset(chunk, '\0', cksize)`.
abbrev pub zeros : ℕ → Chunk
zeros n = replicate n 0

unfoldable pub init_mem_pool : ℕ → ℕ → MemPool
init_mem_pool mpsize cksize = record {
  head_next = null;
  tail_next = null;
  total = 0;
  size = mpsize;
  cksize = cksize;
}

-- `tail->next->next = node; tail->next = node` of a list that is not empty.
unfoldable pub link_tail : Ptr → Mem → Run Mem
link_tail p m = do
  h ← set_next m.chunks m.mp.tail_next p
  ok (record m { chunks = h; mp = record (m.mp) { tail_next = p } })

-- The lists of `createMemPool` and `tuneMempool` are taken for empty when `tail->next` is `NULL`.
unfoldable pub add_node : Ptr → Mem → Run Mem
unfolding link_tail
add_node p m =
    if m.mp.tail_next == null
    then ok (record m { mp = record (m.mp) { head_next = p; tail_next = p } })
    else link_tail p m

unfoldable pub mpfree : Ptr → Mem → Run Mem
unfolding link_tail
mpfree p m = do
  _ ← load m.chunks p
  h ← store m.chunks p (node (zeros m.mp.cksize) null)
  let cleared : Mem = record m { chunks = h }
  m' ←
      (if m.mp.total == 0
        then ok (record cleared { mp = record (m.mp) { head_next = p; tail_next = p } })
        else link_tail p cleared)
  ok (record m' {
    mp = record (m'.mp) { total = m'.mp.total + 1 };
    chunk_used_num = m'.chunk_used_num -ℤ pos 1;
  })

-- The first loop of `tuneMempool`.
unfoldable pub shrink_loop : ℕ → Mem → Run Mem
shrink_loop zero m = ok m
shrink_loop (suc n) m = do
  m' ←
      (if m.mp.head_next == null then ok m else do
        node ← load m.chunks m.mp.head_next
        h ← free m.chunks m.mp.head_next
        ok (record m {
          chunks = h;
          mp = record (m.mp) { head_next = node.next; total = m.mp.total - 1 };
        }))
  shrink_loop n m'

module _ (malloc : Malloc ChunkNode) where
  -- The new node of the allocating branches: cleared, with `next` set to `NULL`.
  unfoldable pub new_node : Mem → Ptr × Mem
  new_node m =
      let p = malloc.fresh m.chunks in
      (p, record m { chunks = write m.chunks p (some (node (zeros m.mp.cksize) null)) })

  unfoldable pub create_loop : ℕ → Mem → Run Mem
  unfolding new_node add_node
  create_loop zero m = ok m
  create_loop (suc n) m = do
    m' ← (let (p, grown) = new_node m in add_node p grown)
    create_loop n m'

  unfoldable pub create_mem_pool : Mem → Run Mem
  unfolding create_loop
  create_mem_pool m = do
    m' ← create_loop m.mp.size m
    ok (record m' { mp = record (m'.mp) { total = m'.mp.size } })

  unfoldable pub mpalloc : Mem → Run (Ptr × Mem)
  unfolding new_node
  mpalloc m =
      if m.mp.head_next == null
      then (let (p, grown) = new_node (record m { mp = record (m.mp) { tail_next = null } }) in
          ok (p, record grown { chunk_used_num = grown.chunk_used_num +ℤ pos 1 }))
      else do
        n ← load m.chunks m.mp.head_next
        h ← set_next m.chunks m.mp.head_next null
        ok (
          m.mp.head_next,
          record m {
            chunks = h;
            mp = record (m.mp) { head_next = n.next; total = m.mp.total - 1 };
            chunk_used_num = m.chunk_used_num +ℤ pos 1;
          },
        )

  -- Its second loop.
  unfoldable pub grow_loop : ℕ → Mem → Run Mem
  unfolding new_node add_node
  grow_loop zero m = ok m
  grow_loop (suc n) m = do
    m' ← (let (p, grown) = new_node m in add_node p grown)
    grow_loop n (record m' { mp = record (m'.mp) { total = m'.mp.total + 1 } })

  -- With `num + MP_RESERVE_SIZE` for its argument, an `int`, which must not overflow; nothing happens
  -- below 0.
  unfoldable pub tune_to : ℤ → Mem → Run Mem
  unfolding shrink_loop grow_loop
  tune_to (negsuc _) m = ok m
  tune_to (pos target) m =
      if ltb 2147483647 target
      then fault
      else if ltb target m.mp.total
      then shrink_loop (m.mp.total - target) m
      else if ltb m.mp.total target
      then grow_loop (target - m.mp.total) m
      else ok m

  unfoldable pub tune_mempool : ℤ → Mem → Run Mem
  unfolding tune_to
  tune_mempool num m = tune_to (num +ℤ pos mp_reserve_size) m

unfoldable pub create_mem_slab : Malloc MemSlab → Mem → Ptr × Mem
create_mem_slab malloc m =
    let p = malloc.fresh m.slabs in
    (p, record m { slabs = write m.slabs p (some (record { head_next = null; tail_next = null })) })

unfoldable pub insert_mem_slab : Ptr → Ptr → Mem → Run Mem
insert_mem_slab slab p m = do
  s ← load m.slabs slab
  if s.head_next == null || s.tail_next == null
      then ok
          (record m { slabs = write m.slabs slab (some (record { head_next = p; tail_next = p })) })
      else do
        h ← set_next m.chunks s.tail_next p
        ok (record m { chunks = h; slabs = write m.slabs slab (some (record s { tail_next = p })) })

-- The loop of `freeMemSlab`, which gives the nodes back one by one. Each round reads `head->next`.
unfoldable pub free_nodes : ℕ → Ptr → Mem → Run Mem
unfolding mpfree
free_nodes zero slab m = stuck
free_nodes (suc fuel) slab m = do
  s ← load m.slabs slab
  let more : Run Mem = do
    n ← load m.chunks s.head_next
    m' ←
        mpfree s.head_next
          (record m { slabs = write m.slabs slab (some (record s { head_next = n.next })) })
    free_nodes fuel slab m'
  if s.head_next == null then ok m else more

-- Nothing happens at `NULL`, the C function's return of 0.
unfoldable pub free_mem_slab : ℕ → Ptr → Mem → Run Mem
free_mem_slab fuel slab m = if slab == null then ok m else do
  m' ← free_nodes fuel slab m
  slabs ← free m'.slabs slab
  ok (record m' { slabs = slabs })
