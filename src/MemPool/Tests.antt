-- ===== src/MemPool/Tests.antt =====
-- Runs of mempool.c's functions on small memories, with two bytes to a chunk.
use aoq.Prelude.{◌-◌, ◌≡◌, refl, inl, some, none, [], ◌∷◌, ◌++◌, arith, length, drop}
use aoq.Prelude.Int.{pos, negsuc, ◌+ℤ◌}
use aoq.Heap.{null, read, Returns}
use aoq.Heap.Bump.{bump}
use aoq.Heap.Chain.{node, Cells, Chain}
use aoq.MemPool.{Chunk, Mem, zeros, mpalloc, mpfree, tune_mempool, free_mem_slab}
use aoq.MemPool.Pool.{IsPool, Allocated, mpalloc-cons, Freed, mpfree-Freed}
use aoq.MemPool.Slab.{IsSlab, Released, free_mem_slab-Released}
use aoq.MemPool.Tune.{Keeps, tune_mempool-IsPool}
use aoq.MemPool.Stale.{tune_mempool-stale}

-- Two chunks are free, at 1 and 2; a message owns the chunk at 3, in the slab at 1.
abbrev in_use : Mem
in_use = record {
  chunks =
      (1, some (node (zeros 2) 2))
      ∷ (2, some (node (zeros 2) null))
      ∷ (3, some (node (b'a' ∷ 0 ∷ []) null))
      ∷ (4, some (node (b'b' ∷ 0 ∷ []) null))
      ∷ [];
  slabs = (1, some (record { head_next = 3; tail_next = 3 })) ∷ [];
  mp = record { head_next = 1; tail_next = 2; total = 2; size = 2; cksize = 2 };
  chunk_used_num = pos 2;
}

abbrev free_two : Cells Chunk
free_two = (1, zeros 2) ∷ (2, zeros 2) ∷ []

abbrev message : Cells Chunk
message = (3, b'a' ∷ 0 ∷ []) ∷ []

in_use-IsPool : IsPool in_use free_two
unfolding read
in_use-IsPool = record {
  chain = (omega arith, refl, refl, (omega arith, refl, refl, tt));
  head = refl;
  tail = λ ne. refl;
  total = refl;
}

in_use-IsSlab : IsSlab in_use 1 message
unfolding read
in_use-IsSlab = record {
  ne_null = omega arith;
  holds = refl;
  chain = (omega arith, refl, refl, tt);
}

-- A pool that was drained: its last chunk, at 3, belongs to a message now.
abbrev drained : Mem
drained = record in_use {
  mp = record { head_next = null; tail_next = 3; total = 0; size = 2; cksize = 2 };
}

drained-IsPool : IsPool drained []
drained-IsPool = record { chain = tt; head = refl; tail = λ ne. absurd (ne refl); total = refl }

mpalloc-cons_example :
    Returns (mpalloc bump in_use) λ r. (r.0 ≡ 1) × Allocated in_use (zeros 2) ((2, zeros 2) ∷ []) r
mpalloc-cons_example = mpalloc-cons bump 1 (zeros 2) ((2, zeros 2) ∷ []) in_use-IsPool

mpfree-Freed_example : Returns (mpfree 3 in_use) (Freed in_use 3 free_two)
unfolding read
mpfree-Freed_example =
    mpfree-Freed 3 (node (b'a' ∷ 0 ∷ []) null) free_two in_use-IsPool (omega arith) refl refl

free_mem_slab-Released_example :
    Returns
      (free_mem_slab 5 1 in_use)
      λ m'. Released in_use 1 free_two message m' × (read m'.slabs 1 ≡ none)
free_mem_slab-Released_example =
    free_mem_slab-Released 5 1 free_two message in_use-IsPool in_use-IsSlab (λ p i. ground arith)
      (omega arith)

tune_mempool-IsPool_example : Returns (tune_mempool bump (negsuc 9998) in_use) λ m'.
    (ys : Cells Chunk) × IsPool m' (drop (length free_two - 1) free_two ++ ys)
    × (m'.mp.total ≡ 1)
    × (length ys ≡ 1 - length free_two)
    × Keeps in_use m'
tune_mempool-IsPool_example =
    tune_mempool-IsPool bump (negsuc 9998) 1 in_use (omega arith) free_two in_use-IsPool
      (inl λ e. cc) (unfold ◌+ℤ◌ in refl)

tune_mempool-stale_example : Returns (tune_mempool bump (negsuc 9996) drained) λ m'.
    (ys : Cells Chunk) × Chain m'.chunks ((3, b'a' ∷ 0 ∷ []) ∷ ys)
    × (length ys ≡ 3)
    × (m'.mp.head_next ≡ null)
    × (m'.mp.total ≡ 3)
    × ((xs : Cells Chunk) → ¬ IsPool m' xs)
unfolding read
tune_mempool-stale_example =
    tune_mempool-stale bump (negsuc 9996) 3 drained 3 (b'a' ∷ 0 ∷ []) drained-IsPool refl
      (omega arith) refl (unfold ◌+ℤ◌ in refl) (omega arith) (omega arith)
