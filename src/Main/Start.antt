-- ===== src/Main/Start.antt =====
-- The server as it is set up, and what holds of it from then on.
use aoq.Prelude.{
  ℕ, zero, suc, ◌<◌, ap, ◌≡◌, refl, some, none, List, [], ◌∷◌, arith, length, replicate, get_elem?,
}
use aoq.Prelude.Int.{ℤ, pos, pos_part}
use aoq.Heap.{ok, Returns}
use aoq.Heap.Chain.{Cells, values}
use aoq.MemPool.{Chunk, zeros}
use aoq.MemPool.Pool.{IsPool}
use aoq.MemPool.Fill.{create_mem_pool-IsPool}
use aoq.HashTable.{Bucket, hash_init, hash_find}
use aoq.HashTable.Insert.{IsTable}
use aoq.HashTable.Init.{hash_init-IsTable, hash_init-blank}
use aoq.HashTable.Text.{Named}
use aoq.ServerStat.{ServerStat}
use aoq.Receive.{Aoq}
use aoq.Receive.Fill.{Clear}
use aoq.Events.Connections.{Counted}
use aoq.Main.{
  Opt, Options, or_else, default_ck_size, default_mp_size, Launch, settings, built, no_pool, set_up,
  read_options, no_options,
}
use aoq.Main.Settings.{Within, settings-Within}

values-Clear :
    (n k : ℕ) (xs : Cells Chunk) → values xs ≡ replicate k (zeros n) → Clear n xs × (length xs ≡ k)
values-Clear n zero [] e = (tt, refl)
values-Clear n zero (x ∷ xs) e = cc
values-Clear n (suc k) [] e = cc
values-Clear n (suc k) ((p, c) ∷ xs) e =
    let same : c ≡ zeros n = cc in
    let more : values xs ≡ replicate k (zeros n) = cc in
    let (clear, counted) = values-Clear n k xs more in ((same, clear), ap suc counted)

-- What `main` has set up, with the sizes of the pool and of a chunk, and the settings.
pub record Ready (pool_size chunk_size : ℕ) (serv : ServerStat) (key : List ℕ) (n : ℕ) (a : Aoq)
    : Type 0 where
  pub free : Cells Chunk
  pub pool : IsPool a.server.mem free
  pub clear : Clear chunk_size free
  pub enough : length free ≡ pool_size
  pub chunk : a.server.mem.mp.cksize ≡ chunk_size
  pub table : IsTable a.server.names.ht
  pub no_queue : hash_find n a.server.names.ht key ≡ ok none
  pub room : a.server.names.ht.total < a.server.names.ht.size
  pub blank : (i : ℕ) (b : Bucket) → get_elem? a.server.names.ht.buckets i ≡ some b → b.value ≡ none
  pub kept : a.serv ≡ serv
  pub silent : a.server.replies ≡ []
  pub counted : Counted (pos_part serv.max_client_connection) a

pub positive : (n : ℤ) → Within 1 n → 0 < pos_part n
positive n (k, e, low, high) = rw e (omega arith)

pub number : (n : ℤ) → Within 1 n → n ≡ pos (pos_part n)
number n (k, e, low, high) = rw e refl

pub set_up-Ready :
    (l : Launch) (opts : List (Opt × List ℕ)) (o : Options) (name key : List ℕ) (n : ℕ)
    → read_options opts no_options ≡ ok (some o)
    → Named name key
    → Returns (set_up l o) (
        Ready
          (pos_part (or_else o.mempool_size default_mp_size))
          (pos_part (or_else o.chunk_size default_ck_size))
          (settings l o)
          key
          n)
unfolding set_up settings hash_init
set_up-Ready l opts o name key n e named =
    let (_, _, clients, _, ht, _, _) = settings-Within l opts o e in
    let pool_size = pos_part (or_else o.mempool_size default_mp_size) in
    let chunk_size = pos_part (or_else o.chunk_size default_ck_size) in
    let (mem, run, (xs, is, cleared, total, used, ck)) =
      create_mem_pool-IsPool l.world.malloc_chunk (no_pool o) pool_size chunk_size refl in
    let (clear, enough) = values-Clear chunk_size pool_size xs cleared in
    let (table, free) = hash_init-IsTable l.base _ n name key (positive _ ht) named in
    (
      built l o mem,
      rw run refl,
      record {
        free = xs;
        pool = record { chain = is.chain; head = is.head; tail = is.tail; total = is.total };
        clear = clear;
        enough = enough;
        chunk = ck;
        table = table;
        no_queue = free;
        room = positive _ ht;
        blank = hash_init-blank l.base _;
        kept = refl;
        silent = refl;
        counted = record { limit = number _ clients; count = refl; few = omega arith };
      },
    )
