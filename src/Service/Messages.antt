-- ===== src/Service/Messages.antt =====
-- The messages of a queue in memory: each owns the chunks of a slab.
use aoq.Prelude.{
  ℕ, suc, ◌+◌, ◌<◌, ◌≤◌, length-append, ◌∙◌, ap, ◌≡◌, refl, ◌≢◌, true, List, [], ◌∷◌, ◌++◌, arith,
  length, All, append_assoc, append-nil,
}
use aoq.Heap.{Ptr, read}
use aoq.Heap.Chain.{Cells, has, Chain-frame, Disjoint}
use aoq.AoqLog.Buffer.{Texts}
use aoq.MemPool.{Chunk, Mem, zeros}
use aoq.MemPool.Slab.{IsSlab}
use aoq.Cursor.{at}
use aoq.Cursor.Text.{Ahead, Ahead-plus}
use aoq.Parser.{Arg, create_args}
use aoq.Queue.{Message}
use aoq.Queue.Push.{message}
use aoq.Command.Answer.{Says}
use aoq.Receive.Parsed.{args_at}
use aoq.Receive.Spread.{spread}
use aoq.Service.{pop_bytes}

-- A message: where its request stands, the head length that it came with, its node, its number and its value.
pub record Msg : Type 0 where
  pub hl : ℕ
  pub slab : Ptr
  pub chunk : Ptr
  pub front : List ℕ
  pub behind : List ℕ
  pub rest : Cells Chunk
  pub node : Ptr
  pub id : ℕ
  pub value : List ℕ

-- The chunks of the message's request.
abbrev pub owned : List ℕ → Msg → Cells Chunk
owned name M = spread M.hl 2 name M.value M.chunk M.front M.behind M.rest

abbrev pub values : List Msg → List (List ℕ)
values [] = []
values (M ∷ ms) = M.value ∷ values ms

-- The nodes of the queue.
abbrev pub cells : List ℕ → List Msg → Cells (Message (List Arg))
cells name [] = []
cells name (M ∷ ms) =
    (M.node, message M.id (args_at M.slab M.chunk (name ∷ M.value ∷ []))) ∷ cells name ms

pub cells-append :
    (name : List ℕ) (xs ys : List Msg) → cells name (xs ++ ys) ≡ cells name xs ++ cells name ys
cells-append name [] ys = refl
cells-append name (M ∷ xs) ys = rw (cells-append name xs ys)

pub values-append : (xs ys : List Msg) → values (xs ++ ys) ≡ values xs ++ values ys
values-append [] ys = refl
values-append (M ∷ xs) ys = rw (values-append xs ys)

pub length-cells : (name : List ℕ) (xs : List Msg) → length (cells name xs) ≡ length (values xs)
length-cells name [] = refl
length-cells name (M ∷ xs) = ap suc (length-cells name xs)

-- The message's request stands in its slab's chunks, which are not free and fewer than the fuel; and its
-- value fits a reply.
pub record Owns (fuel : ℕ) (m : Mem) (xs : Cells Chunk) (name : List ℕ) (M : Msg) : Type 0 where
  pub r : List ℕ
  pub slab : IsSlab m M.slab (owned name M)
  pub out : Disjoint (owned name M) xs
  pub texts : Texts M.rest r
  pub whole : M.front ++ r ≡ M.value ++ b'\n' ∷ []
  pub no_nul : All (λ c. c ≢ 0) M.front
  pub few : length M.rest + 1 < fuel
  pub short : length M.value ≤ 999997

-- The message `N` shares neither slab nor chunk with `M`.
abbrev pub Apart : List ℕ → Msg → Msg → Type 0
Apart name M N = Disjoint (owned name N) (owned name M) × (N.slab ≢ M.slab)

-- No two messages share a slab or a chunk.
abbrev pub Lives : ℕ → Mem → Cells Chunk → List ℕ → List Msg → Type 0
Lives fuel m xs name [] = Unit {0}
Lives fuel m xs name (M ∷ ms) =
    Owns fuel m xs name M × All (Apart name M) ms × Lives fuel m xs name ms

-- What is left of a message's memory between `m` and `m'`.
pub record Framed (m m' : Mem) (xs' : Cells Chunk) (name : List ℕ) (M : Msg) : Type 0 where
  pub slab : read m'.slabs M.slab ≡ read m.slabs M.slab
  pub chunk : (q : Ptr) → has q (owned name M) ≡ true → read m'.chunks q ≡ read m.chunks q
  pub out : Disjoint (owned name M) xs'

module _ (fuel : ℕ) where
  Owns-frame :
      (m m' : Mem) (xs xs' : Cells Chunk) (name : List ℕ) (M : Msg)
      → Owns fuel m xs name M
      → Framed m m' xs' name M
      → Owns fuel m' xs' name M
  Owns-frame m m' xs xs' name M o f = record {
    r = o.r;
    slab = record {
      ne_null = o.slab.ne_null;
      holds = f.slab ∙ o.slab.holds;
      chain = Chain-frame m.chunks m'.chunks (owned name M) o.slab.chain f.chunk;
    };
    out = f.out;
    texts = o.texts;
    whole = o.whole;
    no_nul = o.no_nul;
    few = o.few;
    short = o.short;
  }

  pub Lives-frame :
      (P : Msg → Type 0) (m m' : Mem) (xs xs' : Cells Chunk) (name : List ℕ) (ms : List Msg)
      → ((M : Msg) → Owns fuel m xs name M → P M → Framed m m' xs' name M)
      → All P ms
      → Lives fuel m xs name ms
      → Lives fuel m' xs' name ms
  Lives-frame P m m' xs xs' name [] f ps l = tt
  Lives-frame P m m' xs xs' name (M ∷ ms) f (p, ps) (o, apart, l) =
      (Owns-frame m m' xs xs' name M o (f M o p), apart, Lives-frame P m m' xs xs' name ms f ps l)

  pub Lives-All :
      (P : Msg → Type 0) (m : Mem) (xs : Cells Chunk) (name : List ℕ) (ms : List Msg)
      → ((M : Msg) → Owns fuel m xs name M → P M)
      → Lives fuel m xs name ms
      → All P ms
  Lives-All P m xs name [] f l = tt
  Lives-All P m xs name (M ∷ ms) f (o, apart, l) = (f M o, Lives-All P m xs name ms f l)

  pub Lives-snoc :
      (m : Mem) (xs : Cells Chunk) (name : List ℕ) (ms : List Msg) (N : Msg)
      → Lives fuel m xs name ms
      → Owns fuel m xs name N
      → All (λ M. Apart name M N) ms
      → Lives fuel m xs name (ms ++ (N ∷ []))
  Lives-snoc m xs name [] N l o h = (o, tt, tt)
  Lives-snoc m xs name (M ∷ ms) N (om, apart, l) o (e, h) =
      (om, All-snoc ms apart e, Lives-snoc m xs name ms N l o h)
    where
      All-snoc :
          (ms : List Msg)
          → All (Apart name M) ms
          → Apart name M N
          → All (Apart name M) (ms ++ (N ∷ []))
      All-snoc [] h e = (e, tt)
      All-snoc (K ∷ ks) (h, hs) e = (h, All-snoc ks hs e)

-- The arguments of a `push` and of a `pop` in their chunk.
pub push_at :
    (m : Mem) (slab chunk : Ptr) (hl : ℕ) (name value front behind : List ℕ) (rest : Cells Chunk)
    → IsSlab m slab (spread hl 2 name value chunk front behind rest)
    → Ahead m.chunks (at chunk 17) (name ++ (front ++ 0 ∷ behind))
push_at m slab chunk hl name value front behind rest s =
    (s.chain.0, _, s.chain.1, simp (append_assoc))

pub pop_at :
    (m : Mem) (slab chunk : Ptr) (hl : ℕ) (name : List ℕ) (k : ℕ)
    → IsSlab m slab ((chunk, pop_bytes hl name ++ zeros k) ∷ [])
    → Ahead m.chunks (at chunk 11) (name ++ b'\n' ∷ zeros k)
pop_at m slab chunk hl name k s = (s.chain.0, _, s.chain.1, simp (append_assoc, append-nil))

-- A message says its value.
pub Owns-Says :
    (fuel : ℕ) (m : Mem) (xs : Cells Chunk) (name : List ℕ) (M : Msg)
    → Owns fuel m xs name M
    → Says fuel m.chunks
        (args_at M.slab M.chunk (name ∷ M.value ∷ []))
        (length M.value)
        (M.value ++ b'\n' ∷ [])
unfolding create_args
Owns-Says fuel m xs name M o =
    let (ne, here, out, chain) = o.slab.chain in
    record {
      arg = _;
      cursor = _;
      front = M.front;
      behind = M.behind;
      chunk = _;
      rest = M.rest;
      r = o.r;
      second = refl;
      length_is = refl;
      located = refl;
      ahead =
          Ahead-plus m.chunks (at M.chunk 17) name (M.front ++ 0 ∷ M.behind)
            (push_at m M.slab M.chunk M.hl name M.value M.front M.behind M.rest o.slab);
      no_nul = o.no_nul;
      ne_null = ne;
      here = here;
      chain = chain;
      texts = o.texts;
      few = omega (arith, o.few);
      whole = o.whole;
      len_fits = omega (arith, o.short);
      text_fits = omega (arith, o.short, length-append M.value (b'\n' ∷ []));
    }
