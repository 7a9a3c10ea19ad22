-- ===== src/Receive/Chunks.antt =====
-- The loop of `socket_read_cb`: what the chunks of a request hold.
use aoq.Prelude.{
  ℕ, zero, suc, ◌-◌, ◌≤◌, ◌<◌, ◌∙◌, sym, ◌≡◌, refl, ◌≢◌, ◌⊎◌, inl, inr, true, false, none, List, [],
  ◌∷◌, ◌++◌, arith, length, take, drop, Bool-cases, ltb, ◌==◌, append_assoc,
}
use mathlib.Core.Path.{subst}
use aoq.Heap.{Ptr, Returns, read, Malloc}
use aoq.Heap.Chain.{Cells, has, has-append, not-has_of_none}
use aoq.MemPool.{Chunk, ChunkNode, Mem, MemSlab, zeros, create_mem_slab}
use aoq.MemPool.Pool.{IsPool}
use aoq.AoqLog.Buffer.{Texts}
use aoq.Receive.{ck_size, receive_loop, receive}
use aoq.Receive.Line.{
  IsLine, IsLine-last, IsLine-inner, IsLine-drop, IsLine-no_nul, take-drop, length-drop,
}
use aoq.Receive.Fill.{Clear, Receiving, cut, cut-le, Stored, round-Stored}
use aoq.Receive.Rounds.{
  receive_loop-round, round-byte, drop_all, IsLine-pos, cut_ends, create_mem_slab-Receiving,
}

-- What has been received of a text `cmd` that is not empty: behind the chunks `ys` the slab has new
-- ones, whose texts, one behind the other, are `cmd`, and the first of which is as full as it can be.
-- They were in the pool `xs` or not allocated. The pool that is left is well-formed with cleared
-- chunks; no other chunk and no other slab has changed.
pub record Received (m : Mem) (xs ys : Cells Chunk) (memslab : Ptr) (cmd : List ℕ) (m' : Mem)
    : Type 0 where
  pub free : Cells Chunk
  pub p : Ptr
  pub beyond : List ℕ
  pub rest : Cells Chunk
  pub new : Cells Chunk
  pub begins : new ≡ (p, take (cut cmd) cmd ++ 0 ∷ beyond) ∷ rest
  pub texts : Texts rest (drop (cut cmd) cmd)
  pub receiving : Receiving m' memslab free (ys ++ new)
  pub few : length new ≤ length cmd
  pub cksize : m'.mp.cksize ≡ m.mp.cksize
  pub was_free : (q : Ptr) → has q new ≡ true → (has q xs ≡ true) ⊎ (read m.chunks q ≡ none)
  pub fewer : (q : Ptr) → has q xs ≡ false → has q free ≡ false
  pub same : (q : Ptr) → has q ys ≡ false → has q new ≡ false → read m'.chunks q ≡ read m.chunks q
  pub slabs : (t : Ptr) → t ≢ memslab → read m'.slabs t ≡ read m.slabs t

-- The last round.
receive_loop-last :
    (m m₂ : Mem) (memslab p : Ptr) (xs ys : Cells Chunk) (cmd : List ℕ) (k : ℕ)
    → Stored m memslab xs ys cmd (suc k) p m₂
    → 0 < length cmd
    → length cmd < ck_size
    → Received m xs ys memslab cmd m₂
receive_loop-last m m₂ memslab p xs ys cmd k st some_byte short =
    let (whole, all) = cut_ends cmd short in
    record {
      free = st.free;
      p = p;
      beyond = zeros k;
      rest = [];
      new = (p, take (cut cmd) cmd ++ zeros (suc k)) ∷ [];
      begins = refl;
      texts = rw all (drop_all cmd);
      receiving = st.receiving;
      few = some_byte;
      cksize = st.cksize;
      was_free = λ q i. let e : q ≡ p = ground arith in rw e (st.taken.was_free);
      fewer = st.taken.fewer;
      same = λ q o d. st.same q (ground arith) o;
      slabs = st.slabs;
    }

-- A round that is not the last.
receive_loop-more :
    (m m₂ m' : Mem) (memslab p : Ptr) (xs ys : Cells Chunk) (cmd : List ℕ) (k : ℕ)
    → (st : Stored m memslab xs ys cmd (suc k) p m₂) → IsLine (drop (cut cmd) cmd)
    → 0 < cut cmd
    → Received m₂ st.free
        (ys ++ ((p, take (cut cmd) cmd ++ zeros (suc k)) ∷ []))
        memslab
        (drop (cut cmd) cmd)
        m'
    → Received m xs ys memslab cmd m'
receive_loop-more m m₂ m' memslab p xs ys cmd k st line some_byte r =
    let here : Cells Chunk = (p, take (cut cmd) cmd ++ zeros (suc k)) ∷ [] in
    let now : Cells Chunk = ys ++ here in
    let left = drop (cut cmd) cmd in
    record {
      free = r.free;
      p = p;
      beyond = zeros k;
      rest = r.new;
      new = (p, take (cut cmd) cmd ++ zeros (suc k)) ∷ r.new;
      begins = refl;
      texts = rw r.begins (
        take (cut left) left,
        r.beyond,
        drop (cut left) left,
        refl,
        IsLine-no_nul left (cut left) line,
        sym (take-drop (cut left) left),
        r.texts,
      );
      receiving = subst (Receiving m' memslab r.free) (append_assoc ys here r.new) r.receiving;
      few =
          omega (arith, r.few, length-drop (cut cmd) cmd (cut-le cmd).0, some_byte, (cut-le cmd).0);
      cksize = r.cksize ∙ st.cksize;
      was_free = λ q i. elim (Bool-cases (q == p)) [
        | inl e ↦ let same : q ≡ p = ground arith in rw same (st.taken.was_free)
        | inr e ↦ elim (r.was_free q (ground arith)) [
          | inl free ↦ elim (Bool-cases (has q xs)) [
            | inl was ↦ inl was
            | inr out ↦ let o = st.taken.fewer q out in absurd (ground arith)
          ]
          | inr unused ↦
              let out = not-has_of_none m₂.chunks now q st.receiving.slab.chain unused in
              let o : has q ys ≡ false = ground (arith, has-append q ys here) in
              let d : q ≢ p = ground arith in inr (sym (st.same q d o) ∙ unused)
        ]
      ];
      fewer = λ q o. r.fewer q (st.taken.fewer q o);
      same = λ q o d.
          let ne : q ≢ p = ground arith in
          let out : has q now ≡ false = ground (arith, has-append q ys here) in
          r.same q out (ground arith) ∙ st.same q ne o;
      slabs = λ t d. r.slabs t d ∙ st.slabs t d;
    }

receive_loop-Received :
    (malloc : Malloc ChunkNode) (fuel : ℕ) (m : Mem) (memslab : Ptr) (xs ys : Cells Chunk)
    (cmd : List ℕ)
    → Receiving m memslab xs ys
    → IsLine cmd
    → ck_size ≤ m.mp.cksize
    → length cmd < fuel
    → Returns (receive_loop malloc fuel memslab cmd m) (Received m xs ys memslab cmd)
receive_loop-Received malloc zero m memslab xs ys cmd rc line big lt = absurd (omega arith)
receive_loop-Received malloc (suc fuel) m memslab xs ys cmd rc line big lt =
    let k = m.mp.cksize - cut cmd - 1 in
    let (p, m₁, m₂, filled, inserted, st) =
      round-Stored malloc m memslab xs ys cmd (suc k) rc (omega (arith, cut-le cmd)) in
    let some_byte = IsLine-pos cmd line in
    elim (Bool-cases (ltb (length cmd) ck_size)) [
      | inl short ↦
          let less : length cmd < ck_size = ground arith in
          let (whole, all) = cut_ends cmd less in
          let b =
            round-byte m m₂ memslab p xs ys cmd (suc k) (length cmd - 1) 10 st
              (IsLine-last cmd (length cmd - 1) line (omega arith)) (omega arith) in
          (
            m₂,
            receive_loop-round malloc fuel memslab p cmd m m₁ m₂ (cut cmd) 10 filled inserted b,
            receive_loop-last m m₂ memslab p xs ys cmd k st some_byte less,
          )
      | inr long ↦
          let le : ck_size ≤ length cmd = ground arith in
          let n : cut cmd ≡ ck_size - 1 = ground arith in
          let (b, eb, nl) = IsLine-inner cmd (ck_size - 2) line (omega arith) in
          let e = round-byte m m₂ memslab p xs ys cmd (suc k) (ck_size - 2) b st eb (omega arith) in
          let on : b == 10 ≡ false = ground arith in
          let left = IsLine-drop cmd (cut cmd) line (omega arith) in
          let (m', run, r) =
            receive_loop-Received malloc fuel m₂ memslab st.free _ (drop (cut cmd) cmd) st.receiving
              left (omega (arith, st.cksize))
              (omega (arith, length-drop (cut cmd) cmd (omega arith))) in
          (
            m',
            receive_loop-round malloc fuel memslab p cmd m m₁ m₂ (cut cmd) b filled inserted e
                ∙ rw on run,
            receive_loop-more m m₂ m' memslab p xs ys cmd k st left (omega arith) r,
          )
    ]

-- In a well-formed pool of cleared chunks, whose size is at least 1024, with fuel beyond the length of a
-- line without a `NUL` and with its only newline at the end, the server cuts the line into chunks of a new
-- slab: their texts, one behind the other, are the line, and the first is as full as it can be. They were in
-- the pool or not allocated, and there are no more of them than bytes. The pool that is left is well-formed,
-- its chunks are cleared, and none of them is the slab's; no other chunk and no other slab has changed, and
-- this slab was not in use.
pub receive-Received :
    (malloc : Malloc ChunkNode) (malloc_slab : Malloc MemSlab) (fuel : ℕ) (m : Mem)
    (xs : Cells Chunk) (cmd : List ℕ)
    → IsPool m xs
    → Clear m.mp.cksize xs
    → IsLine cmd
    → ck_size ≤ m.mp.cksize
    → length cmd < fuel
    → Returns
        (receive malloc malloc_slab fuel cmd m)
        λ r. Received m xs [] r.0 cmd r.1 × (read m.slabs r.0 ≡ none)
unfolding receive create_mem_slab read
receive-Received malloc malloc_slab fuel m xs cmd is clear line big lt =
    let (memslab, m₁) = create_mem_slab malloc_slab m in
    let rc = create_mem_slab-Receiving malloc_slab m xs is clear in
    let (m', run, r) = receive_loop-Received malloc fuel m₁ memslab xs [] cmd rc line big lt in
    (
      (memslab, m'),
      rw run,
      (
        record {
          free = r.free;
          p = r.p;
          beyond = r.beyond;
          rest = r.rest;
          new = r.new;
          begins = r.begins;
          texts = r.texts;
          receiving = r.receiving;
          few = r.few;
          cksize = r.cksize;
          was_free = r.was_free;
          fewer = r.fewer;
          same = r.same;
          slabs = λ t d. r.slabs t d ∙ ground arith;
        },
        malloc_slab.fresh_unused m.slabs,
      ),
    )
