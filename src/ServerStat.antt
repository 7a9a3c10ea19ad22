-- ===== src/ServerStat.antt =====
-- serverstat.h: the settings and counters that the server keeps in one place, and `get_process_mem`.
-- The table and the pool, which it points to, and `chunk_used_num` are kept with what they belong to.
use aoq.Prelude.{ℕ, ◌-◌, Bool, List, ltb, if◌then◌else◌, take, drop, length, replicate, get_elem?}
use aoq.Prelude.Int.{ℤ}
use aoq.Heap.{Run, ok, fault, ◌>>=◌, of_option}
use aoq.CText.{c_string, copy_to, atoi}

pub record ServerStat : Type 0 where
  pub pid : ℤ
  pub start_time : List ℕ
  pub port : ℤ
  pub max_memory : ℤ
  pub max_client_connection : ℤ
  pub client_connection : ℤ
  pub aoq_max_size : ℤ
  pub work_dir_path : List ℕ
  pub persistent : Bool
  pub aomp : Bool
  pub status : ℤ

-- What `get_process_mem` reads: the peak and the present size, in KB.
pub record ProcessMem : Type 0 where
  pub vmpeak : ℤ
  pub vmrss : ℤ

-- `memcpy(vmstr, ret+7, strlen(line_buff)-cut)`, where a negative number is a size that no block has.
unfoldable pub copy_field : ℕ → List ℕ → List ℕ → Run (List ℕ)
unfolding copy_to
copy_field cut vmstr line_buff = do
  text ← c_string line_buff
  if ltb (length text) cut
      then fault
      else copy_to vmstr 0 (take (length text - cut) (drop 7 line_buff))

-- `vmstr` is not cleared between the two fields. The lines are what `fgets` leaves in `line_buff`; where
-- there is none it returns `NULL`.
unfoldable pub get_process_mem : List (List ℕ) → Run ProcessMem
unfolding copy_field
get_process_mem lines = do
  peak_line ← of_option (get_elem? lines 11)
  peak ← copy_field 10 (replicate 30 0) peak_line
  vmpeak ← atoi peak
  rss_line ← of_option (get_elem? lines 15)
  rss ← copy_field 9 peak rss_line
  vmrss ← atoi rss
  ok (record { vmpeak = vmpeak; vmrss = vmrss })
