-- ===== src/MemPool/Pool.antt =====
-- The pool's invariant, and what `mpalloc` and `mpfree` do to the list of free chunks.
use aoq.Prelude.{
  ◌+◌, ◌-◌, ◌∙◌, sym, ◌≡◌, refl, ◌≢◌, false, some, none, [], ◌∷◌, ◌++◌, arith, length,
  length-append,
}
use aoq.Prelude.Int.{pos, ◌+ℤ◌, ◌-ℤ◌}
use aoq.Heap.{Ptr, null, ok, Heap, Returns, read, write, load, store, Malloc}
use aoq.Heap.Chain.{
  node, Cells, first, last, has, Chain, Chain-write, set_next, set_next-last, last-append,
  last-cons,
}
use aoq.MemPool.{Chunk, ChunkNode, Mem, zeros, mpfree, link_tail, mpalloc, new_node}

-- The chunks `xs` are free, in this order. The pointer to the last one is stale when there is none.
pub record IsPool (m : Mem) (xs : Cells Chunk) : Type 0 where
  pub chain : Chain m.chunks xs
  pub head : m.mp.head_next ≡ first xs
  pub tail : xs ≢ [] → m.mp.tail_next ≡ last xs
  pub total : m.mp.total ≡ length xs

-- What an allocation returned: a cleared chunk of its own, with `next` at `NULL`.
pub record Allocated (m : Mem) (c : Chunk) (xs : Cells Chunk) (r : Ptr × Mem) : Type 0 where
  pub ne_null : r.0 ≢ null
  pub holds : read r.1.chunks r.0 ≡ some (node c null)
  pub apart : has r.0 xs ≡ false
  pub pool : IsPool r.1 xs
  pub counted : r.1.chunk_used_num ≡ m.chunk_used_num +ℤ pos 1
  pub slabs : r.1.slabs ≡ m.slabs
  pub cksize : r.1.mp.cksize ≡ m.mp.cksize
  pub same : (p : Ptr) → p ≢ r.0 → read r.1.chunks p ≡ read m.chunks p

-- The states after the two branches of `mpalloc`.
abbrev taken : Mem → Ptr → Chunk → Ptr → Mem
taken m p c q = record m {
  chunks = write m.chunks p (some (node c null));
  mp = record (m.mp) { head_next = q; total = m.mp.total - 1 };
  chunk_used_num = m.chunk_used_num +ℤ pos 1;
}

abbrev made : Mem → Ptr → Mem
made m p = record m {
  chunks = write m.chunks p (some (node (zeros m.mp.cksize) null));
  mp = record (m.mp) { tail_next = null };
  chunk_used_num = m.chunk_used_num +ℤ pos 1;
}

mpalloc-taken :
    (malloc : Malloc ChunkNode) (m : Mem) (p : Ptr) (c : Chunk) (q : Ptr)
    → m.mp.head_next ≡ p
    → p ≢ null
    → read m.chunks p ≡ some (node c q)
    → mpalloc malloc m ≡ ok (p, taken m p c q)
unfolding mpalloc load set_next
mpalloc-taken malloc m p c q e ne r = ground arith

mpalloc-made :
    (malloc : Malloc ChunkNode) (m : Mem)
    → m.mp.head_next ≡ null
    → mpalloc malloc m ≡ ok (malloc.fresh m.chunks, made m (malloc.fresh m.chunks))
unfolding mpalloc new_node
mpalloc-made malloc m e = ground arith

-- When the pool has a free chunk, `mpalloc` returns the first one with its `next` at `NULL`. The other
-- free chunks stay a well-formed pool, the count of chunks in use grows by one, and no other chunk, no
-- slab and not the chunk size changes.
pub mpalloc-cons :
    (malloc : Malloc ChunkNode) {m : Mem} (p : Ptr) (c : Chunk) (xs : Cells Chunk)
    → IsPool m ((p, c) ∷ xs)
    → Returns (mpalloc malloc m) λ r. (r.0 ≡ p) × Allocated m c xs r
unfolding read
mpalloc-cons malloc {m} p c xs is =
    let (ne, e, out, chain) = is.chain in
    (
      (p, taken m p c (first xs)),
      mpalloc-taken malloc m p c (first xs) is.head ne e,
      (
        refl,
        record {
          ne_null = ne;
          holds = ground arith;
          apart = out;
          pool = record {
            chain = Chain-write m.chunks xs p (some (node c null)) chain out;
            head = refl;
            tail = λ some_left. is.tail (λ eq. cc) ∙ last-cons (p, c) xs some_left;
            total = omega (arith, is.total);
          };
          counted = refl;
          slabs = refl;
          cksize = refl;
          same = λ q d. ground arith;
        },
      ),
    )

-- When the pool has no free chunk, `mpalloc` returns a new chunk of zeros at an address that held none,
-- with its `next` at `NULL`, and sets the pool's last pointer to `NULL`. The pool stays empty, the count
-- of chunks in use grows by one, and no other chunk, no slab and not the chunk size changes.
pub mpalloc-nil :
    (malloc : Malloc ChunkNode) {m : Mem}
    → IsPool m []
    → Returns (mpalloc malloc m) λ r.
      (read m.chunks r.0 ≡ none) × (r.1.mp.tail_next ≡ null) × Allocated m (zeros m.mp.cksize) [] r
unfolding read
mpalloc-nil malloc {m} is = (
  (malloc.fresh m.chunks, made m (malloc.fresh m.chunks)),
  mpalloc-made malloc m is.head,
  (
    malloc.fresh_unused m.chunks,
    refl,
    record {
      ne_null = malloc.fresh_ne_null m.chunks;
      holds = ground arith;
      apart = refl;
      pool = record { chain = tt; head = is.head; tail = λ ne. absurd (ne refl); total = is.total };
      counted = refl;
      slabs = refl;
      cksize = refl;
      same = λ q d. ground arith;
    },
  ),
)

abbrev cleared : Mem → Ptr → Mem
cleared m p = record m { chunks = write m.chunks p (some (node (zeros m.mp.cksize) null)) }

abbrev pub linked : Mem → Heap ChunkNode → Ptr → Mem
linked m h p = record m { chunks = h; mp = record (m.mp) { tail_next = p } }

pub link_tail-ok :
    (m : Mem) (p t : Ptr) (h : Heap ChunkNode)
    → m.mp.tail_next ≡ t
    → set_next m.chunks t p ≡ ok h
    → link_tail p m ≡ ok (linked m h p)
unfolding link_tail
link_tail-ok m p t h e run = ground arith

-- The state after `mpfree`, with `h` for its heap and `head` for its first node.
abbrev given_back : Mem → Heap ChunkNode → Ptr → Ptr → Mem
given_back m h head p = record m {
  chunks = h;
  mp = record (m.mp) { head_next = head; tail_next = p; total = m.mp.total + 1 };
  chunk_used_num = m.chunk_used_num -ℤ pos 1;
}

mpfree-first :
    (m : Mem) (p : Ptr) (n : ChunkNode)
    → m.mp.total ≡ 0
    → p ≢ null
    → read m.chunks p ≡ some n
    → mpfree p m ≡ ok (given_back m (cleared m p).chunks p p)
unfolding mpfree load store
mpfree-first m p n e ne r = ground arith

mpfree-behind :
    (m : Mem) (p t : Ptr) (n : ChunkNode) (h : Heap ChunkNode)
    → m.mp.total ≢ 0
    → m.mp.tail_next ≡ t
    → p ≢ null
    → read m.chunks p ≡ some n
    → set_next (cleared m p).chunks t p ≡ ok h
    → mpfree p m ≡ ok (given_back m h m.mp.head_next p)
unfolding mpfree load store
mpfree-behind m p t n h e et ne r run = ground (arith, link_tail-ok (cleared m p) p t h et run)

-- What `mpfree p` leaves: the chunk is cleared and joins the free chunks as the last.
pub record Freed (m : Mem) (p : Ptr) (xs : Cells Chunk) (m' : Mem) : Type 0 where
  pub pool : IsPool m' (xs ++ ((p, zeros m.mp.cksize) ∷ []))
  pub counted : m'.chunk_used_num ≡ m.chunk_used_num -ℤ pos 1
  pub cksize : m'.mp.cksize ≡ m.mp.cksize
  pub slabs : m'.slabs ≡ m.slabs
  pub same : (q : Ptr) → q ≢ p → has q xs ≡ false → read m'.chunks q ≡ read m.chunks q

-- `mpfree` of a chunk that exists and is not free clears it and puts it behind the free chunks of a
-- well-formed pool. The count of chunks in use falls by one, and no chunk outside the pool changes.
pub mpfree-Freed :
    {m : Mem} (p : Ptr) (n : ChunkNode) (xs : Cells Chunk)
    → IsPool m xs
    → p ≢ null
    → read m.chunks p ≡ some n
    → has p xs ≡ false
    → Returns (mpfree p m) (Freed m p xs)
unfolding read
mpfree-Freed {m} p n [] is ne r out = (
  given_back m (cleared m p).chunks p p,
  mpfree-first m p n is.total ne r,
  record {
    pool = record {
      chain = (ne, ground arith, refl, tt);
      head = refl;
      tail = λ _. refl;
      total = omega (arith, is.total);
    };
    counted = refl;
    cksize = refl;
    slabs = refl;
    same = λ q d o. ground arith;
  },
)
mpfree-Freed {m} p n (x ∷ xs) is ne r out =
    let c = zeros m.mp.cksize in
    let kept = Chain-write m.chunks (x ∷ xs) p (some (node c null)) is.chain out in
    let (h, run, (chain, same)) = set_next-last _ x xs p c kept ne (ground arith) out in
    (
      given_back m h m.mp.head_next p,
      mpfree-behind m p (last (x ∷ xs)) n h (omega (arith, is.total)) (is.tail λ e. cc) ne r run,
      record {
        pool = record {
          chain = chain;
          head = is.head;
          tail = λ _. sym (last-append (x ∷ xs) p c);
          total = omega (arith, is.total, length-append (x ∷ xs) ((p, c) ∷ []));
        };
        counted = refl;
        cksize = refl;
        slabs = refl;
        same = λ q d o. same q o ∙ ground arith;
      },
    )
