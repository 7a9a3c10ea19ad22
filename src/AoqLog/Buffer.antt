-- ===== src/AoqLog/Buffer.antt =====
-- The log buffer as a text, and `writeAoqLog` and `saveAoqLog` on it.
use aoq.Prelude.{
  ◌⊎◌, inl, inr, append-nil, ℕ, zero, suc, ◌+◌, ◌-◌, ◌≤◌, ◌<◌, ◌∙◌, ap, ◌≡◌, refl, ◌≢◌, Bool, true,
  false, List, [], ◌∷◌, ◌++◌, arith, length, All, append_assoc, length-append, ltb, ◌==◌, not, ◌||◌,
  ◌&&◌, some, none,
}
use aoq.Prelude.Int.{pos, negsuc}
use aoq.Heap.{Ptr, null, ok, Returns, Heap, read, load-ok}
use aoq.Heap.Chain.{node, Cells, first, Chain}
use aoq.CText.{c_string}
use aoq.CText.Copy.{All-append, copy_to-zeros}
use aoq.CText.Strings.{c_string-text}
use aoq.MemPool.{zeros, Chunk, ChunkNode, Mem}
use aoq.MemPool.Slab.{IsSlab}
use aoq.CText.{copy_to}
use aoq.AoqLog.{AoqLog, make_room, write_loop, write_aoq_log, save_aoq_log}

-- The buffer holds the text, which has no `NUL`, and zeros behind it, at least one.
pub record IsLog (l : AoqLog) (text : List ℕ) : Type 0 where
  pub left : ℕ
  pub bytes : l.log ≡ text ++ zeros (suc left)
  pub size : l.size ≡ length text + suc left
  pub len : l.len ≡ length text
  pub no_nul : All (λ c. c ≢ 0) text

-- The texts of the chunks, one behind the other.
abbrev pub Texts : Cells Chunk → List ℕ → Type 0
Texts [] text = text ≡ []
Texts ((p, c) ∷ ys) text =
    (t : List ℕ) × (beyond : List ℕ) × (rest : List ℕ) × (c ≡ t ++ 0 ∷ beyond)
    × All (λ c. c ≢ 0) t
    × (text ≡ t ++ rest)
    × Texts ys rest

-- A chunk's text with room behind it.
copied-IsLog :
    (garbage : ℕ → List ℕ) (l : AoqLog) (text t : List ℕ)
    → IsLog l text
    → All (λ c. c ≢ 0) t
    → length text + length t < l.size
    → (make_room garbage (length t) l ≡ l)
      × (Returns
          (copy_to l.log l.len t)
          λ bytes. IsLog (record l { log = bytes; len = l.len + length t }) (text ++ t))
unfolding make_room
copied-IsLog garbage l text t is nz fits =
    let k = is.left - length t in
    let split : suc (is.left) ≡ length t + suc k = omega (arith, is.size) in
    let bytes : l.log ≡ text ++ zeros (length t + suc k) = rw (← split) is.bytes in
    (
      ground (arith, is.len),
      (
        (text ++ t) ++ zeros (suc k),
        rw (bytes, is.len) (copy_to-zeros text t (suc k)),
        record {
          left = k;
          bytes = refl;
          size = omega (arith, is.size, length-append text t);
          len = omega (arith, is.len, length-append text t);
          no_nul = All-append text t is.no_nul nz;
        },
      ),
    )

write_loop-chunk :
    (garbage : ℕ → List ℕ) (fuel : ℕ) (h : Heap ChunkNode) (p q : Ptr) (c t bytes : List ℕ)
    (l : AoqLog)
    → p ≢ null
    → read h p ≡ some (node c q)
    → c_string c ≡ ok t
    → make_room garbage (length t) l ≡ l
    → copy_to l.log l.len t ≡ ok bytes
    → write_loop garbage (suc fuel) h p l
      ≡ write_loop garbage fuel h q (record l { log = bytes; len = l.len + length t })
unfolding write_loop
write_loop-chunk garbage fuel h p q c t bytes l ne r e roomy copied =
    let go : p == null ≡ false = ground arith in rw (load-ok h p ne r, e, roomy, copied, go)

write_loop-IsLog :
    (garbage : ℕ → List ℕ) (fuel : ℕ) (h : Heap ChunkNode) (ys : Cells Chunk) (l : AoqLog)
    (text more : List ℕ)
    → IsLog l text
    → Chain h ys
    → Texts ys more
    → length text + length more < l.size
    → length ys < fuel
    → Returns
        (write_loop garbage fuel h (first ys) l)
        λ l'. IsLog l' (text ++ more) × (l'.size ≡ l.size)
write_loop-IsLog garbage zero h ys l text more is chain texts fits lt = absurd (omega arith)
write_loop-IsLog garbage (suc fuel) h [] l text more is chain texts fits lt =
    (l, unfold write_loop in refl, rw (texts, append-nil) (is, refl))
write_loop-IsLog garbage (suc fuel) h ((p, c) ∷ ys) l text more is (ne, r, out, chain)
      (t, beyond, rest, ec, nz, em, texts) fits lt =
    let total : length more ≡ length t + length rest = ap length em ∙ length-append t rest in
    let (roomy, (bytes, copied, is')) =
      copied-IsLog garbage l text t is nz (omega (arith, total)) in
    let (l', run, (is'', size)) =
      write_loop-IsLog garbage fuel h ys (record l { log = bytes; len = l.len + length t })
        (text ++ t) rest is' chain texts (omega (arith, total, length-append text t))
        (omega arith) in
    (
      l',
      write_loop-chunk garbage fuel h p (first ys) c t bytes l ne r
            (rw ec (c_string-text t beyond nz)) roomy copied
          ∙ run,
      (rw (em, ← append_assoc) is'', size),
    )

-- When the buffer has room for it, and the fuel is beyond the number of the slab's chunks, `writeAoqLog`
-- appends the texts of a request's chunks, in order, to what the buffer holds, and its size stays.
pub write_aoq_log-IsLog :
    (garbage : ℕ → List ℕ) (fuel : ℕ) (slab : Ptr) (m : Mem) (ys : Cells Chunk) (l : AoqLog)
    (text more : List ℕ)
    → IsLog l text
    → IsSlab m slab ys
    → Texts ys more
    → length text + length more < l.size
    → length ys < fuel
    → Returns
        (write_aoq_log garbage fuel slab m l)
        λ l'. IsLog l' (text ++ more) × (l'.size ≡ l.size)
unfolding write_aoq_log
write_aoq_log-IsLog garbage fuel slab m ys l text more is holds texts fits lt =
    rw (load-ok m.slabs slab holds.ne_null holds.holds)
      (write_loop-IsLog garbage fuel m.chunks ys l text more is holds.chain texts fits lt)

save_is_due :
    (force : Bool) (l : AoqLog) (text : List ℕ)
    → IsLog l text
    → 0 < length text
    → (force ≡ true) ⊎ (100000 ≤ length text)
    → (l.len == 0 || (not force && ltb l.len 100000)) ≡ false
save_is_due force l text is some_text (inl forced) =
    let e : l.len == 0 ≡ false = ground (arith, is.len) in rw (forced, e) refl
save_is_due true l text is some_text (inr long) = ground (arith, is.len)
save_is_due false l text is some_text (inr long) = ground (arith, is.len)

-- When the buffer holds a text that is not empty, and it is forced or the text has 100000 bytes or more,
-- `saveAoqLog` returns 1 if the print succeeds: just the text goes to the file, and the buffer is empty
-- then. If the print fails, it returns -2, and the buffer stays.
pub save_aoq_log-IsLog :
    (force : Bool) (l : AoqLog) (text : List ℕ)
    → IsLog l text
    → 0 < length text
    → (force ≡ true) ⊎ (100000 ≤ length text)
    → (Returns (save_aoq_log force none l) λ r. (r.0 ≡ pos 1) × (r.1 ≡ text) × IsLog r.2 [])
      × ((written : List ℕ) → save_aoq_log force (some written) l ≡ ok (negsuc 1, written, l))
unfolding save_aoq_log
save_aoq_log-IsLog force l text is some_text due =
    let read_back : c_string l.log ≡ ok text =
      rw is.bytes (c_string-text text (zeros is.left) is.no_nul) in
    let go = save_is_due force l text is some_text due in
    (
      (
        (pos 1, text, record l { log = zeros l.size; len = 0 }),
        rw (go, read_back),
        (
          refl,
          refl,
          record {
            left = l.size - 1;
            bytes = let e : l.size ≡ suc (l.size - 1) = omega (arith, is.size) in ap zeros e;
            size = omega (arith, is.size);
            len = refl;
            no_nul = tt;
          },
        ),
      ),
      λ written. rw (go, read_back),
    )
