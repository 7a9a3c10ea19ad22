-- ===== src/AoqLog/Tests.antt =====
-- A buffer of eight bytes, and a request in one chunk.
use aoq.Prelude.{ℕ, ◌≡◌, refl, inl, true, some, none, List, [], ◌∷◌, ◌++◌, arith}
use aoq.Prelude.Int.{pos, negsuc}
use aoq.Heap.{null, ok, Returns, read}
use aoq.Heap.Chain.{node, Cells}
use aoq.MemPool.{Chunk, Mem}
use aoq.MemPool.Slab.{IsSlab}
use aoq.AoqLog.{AoqLog, write_aoq_log, save_aoq_log}
use aoq.AoqLog.Buffer.{IsLog, write_aoq_log-IsLog, save_aoq_log-IsLog}

abbrev text : List ℕ
text = b'a' ∷ b'\n' ∷ []

abbrev buffer : AoqLog
buffer = record { log = b'a' ∷ b'\n' ∷ 0 ∷ 0 ∷ 0 ∷ 0 ∷ 0 ∷ 0 ∷ []; len = 2; size = 8 }

buffer-IsLog : IsLog buffer text
buffer-IsLog = record { left = 5; bytes = refl; size = refl; len = refl; no_nul = omega arith }

abbrev mem : Mem
mem = record {
  chunks = (3, some (node (b'b' ∷ b'\n' ∷ 0 ∷ []) null)) ∷ [];
  slabs = (1, some (record { head_next = 3; tail_next = 3 })) ∷ [];
  mp = record { head_next = null; tail_next = null; total = 0; size = 0; cksize = 3 };
  chunk_used_num = pos 1;
}

abbrev chunks : Cells Chunk
chunks = (3, b'b' ∷ b'\n' ∷ 0 ∷ []) ∷ []

mem-IsSlab : IsSlab mem 1 chunks
unfolding read
mem-IsSlab = record { ne_null = omega arith; holds = refl; chain = (omega arith, refl, refl, tt) }

abbrev no_bytes : ℕ → List ℕ
no_bytes n = []

write_aoq_log-IsLog_example :
    Returns
      (write_aoq_log no_bytes 5 1 mem buffer)
      λ l'. IsLog l' (text ++ (b'b' ∷ b'\n' ∷ [])) × (l'.size ≡ 8)
write_aoq_log-IsLog_example =
    write_aoq_log-IsLog no_bytes 5 1 mem chunks buffer text (b'b' ∷ b'\n' ∷ []) buffer-IsLog
      mem-IsSlab (b'b' ∷ b'\n' ∷ [], [], [], refl, omega arith, refl, refl) (omega arith)
      (omega arith)

save_aoq_log-IsLog_example :
    (Returns (save_aoq_log true none buffer) λ r. (r.0 ≡ pos 1) × (r.1 ≡ text) × IsLog r.2 [])
    × ((written : List ℕ)
        → save_aoq_log true (some written) buffer ≡ ok (negsuc 1, written, buffer))
save_aoq_log-IsLog_example =
    save_aoq_log-IsLog true buffer text buffer-IsLog (omega arith) (inl refl)
