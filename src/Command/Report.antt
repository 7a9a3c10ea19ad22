-- ===== src/Command/Report.antt =====
-- command.c: the commands that only report, `status`, `queues` and `queue`. Each writes a text behind a
-- header of eleven bytes, and then the length of the text into the header.
use aoq.Prelude.{
  ℕ, ◌+◌, ◌-◌, none, some, List, [], ◌∷◌, ◌++◌, ltb, ◌==◌, if◌then◌else◌, drop, length, codes,
}
use aoq.Prelude.Int.{ℤ, pos, negsuc}
use aoq.Heap.{Ptr, null, Run, ok, fault, ◌>>=◌, load}
use aoq.CText.{c_string}
use aoq.CText.Digits.{six_digits}
use aoq.Parser.{Arg}
use aoq.Queue.{Queue, Qnodes}
use aoq.HashTable.{hash_find, hash_keys, decimal}
use aoq.ServerStat.{ServerStat, ProcessMem}
use aoq.Command.{Server, Outside, first_arg, is_bad_name, reply, no_byte, get_queue_name, finish}

-- `%d` of an `int`.
abbrev pub percent_d : ℤ → List ℕ
percent_d (pos n) = decimal 20 n []
percent_d (negsuc n) = b'-' ∷ decimal 20 (n + 1) []

-- `%d` of an `unsigned int` that was stored in an `int`.
abbrev pub as_int : ℕ → ℤ
as_int n = if ltb n 0x8000_0000 then pos n else negsuc (0xffff_ffff - n)

-- The header, `"110c%06d "`, which has eleven bytes when the number has six digits. A longer one is written
-- past its block of twelve.
unfoldable pub head_of : ℕ → ℕ → Run (List ℕ)
head_of command n =
    if ltb n 1000000 then ok (codes "110" ++ command ∷ six_digits n ++ 32 ∷ []) else fault

-- The end of the three: `memcpy(res, head, 11)` in a text whose first eleven bytes are the place of the
-- header. `size` is the size of the text's buffer.
unfoldable pub with_head : ℕ → ℕ → List ℕ → Run (List ℕ)
unfolding head_of
with_head command size res =
    if ltb (length res) size
    then head_of command (length res - 12) >>= (λ h. ok (h ++ drop 11 res))
    else fault

-- The text that `status` prints.
unfoldable pub status_text : ServerStat → ProcessMem → Server → List ℕ
status_text stat process s =
    codes "0000000000 {\"PID\":"
    ++ percent_d stat.pid
    ++ (codes ",\"START_TIME\":\""
        ++ stat.start_time
        ++ (codes "\",\"MAX_CLIENT_CONNECTION\":"
            ++ percent_d stat.max_client_connection
            ++ (codes ",\"CLIENT_CONNECTION\":"
                ++ percent_d stat.client_connection
                ++ (codes ",\"MEMORY_MAX\":"
                    ++ percent_d stat.max_memory
                    ++ (codes " KB,\"MEMORY_PEAK\":"
                        ++ percent_d process.vmpeak
                        ++ (codes " KB,\"MEMORY_TOTAL\":"
                            ++ percent_d process.vmrss
                            ++ (codes " KB,\"HASH_TABLE_SIZE\":"
                                ++ percent_d (pos s.names.ht.size)
                                ++ (codes ",\"HASH_TABLE_TOTAL\":"
                                    ++ percent_d (pos s.names.ht.total)
                                    ++ (codes ",\"MEMPOOL_SIZE\":"
                                        ++ percent_d (pos s.mem.mp.size)
                                        ++ (codes ",\"MEMPOOL_TOTAL\":"
                                            ++ percent_d (pos s.mem.mp.total)
                                            ++ (codes ",\"CHUNK_SIZE\":"
                                                ++ percent_d (pos s.mem.mp.cksize)
                                                ++ (codes ",\"AOQ_MAX_SIZE\":"
                                                    ++ percent_d stat.aoq_max_size
                                                    ++ codes "}\n"))))))))))))

unfoldable pub status : ServerStat → ProcessMem → ℕ → ℕ → List Arg → Server → Run Server
unfolding status_text
status stat process fuel fd args s = if fd == 0 then finish fuel args s else do
  text ← with_head b'1' 512 (status_text stat process s)
  finish fuel args (reply fd text s)

-- The keys stand behind the eleven bytes `"1104000000 "`; the buffer has 1048576.
unfoldable pub queues : ℕ → ℕ → List Arg → Server → Run Server
queues fuel fd args s = if fd == 0 then finish fuel args s else do
  keys ← hash_keys s.names.ht
  text ←
      (if length keys == 0
        then ok (no_byte b'4')
        else with_head b'4' 1048577 (codes "1104000000 " ++ keys))
  finish fuel args (reply fd text s)

-- `p->uniqid`, and 0 for `NULL`.
unfoldable pub id_at : Qnodes (List Arg) → Ptr → Run ℕ
id_at h p = if p == null then ok 0 else load h p >>= λ n. ok n.val.uniqid

unfoldable pub queue_text : ℕ → ℕ → ℕ → List ℕ
queue_text total head_id tail_id =
    codes "0000000000 {\"TOTAL\":"
    ++ percent_d (pos total)
    ++ (codes ",\"HEAD_ID\":"
        ++ percent_d (as_int head_id)
        ++ (codes ",\"TAIL_ID\":" ++ percent_d (as_int tail_id) ++ codes "}\n"))

unfoldable pub queue_reply : Queue → Qnodes (List Arg) → Run (List ℕ)
unfolding id_at queue_text
queue_reply aoq h = do
  head_id ← id_at h aoq.head_next
  tail_id ← id_at h aoq.tail_next
  with_head b'5' 200 (queue_text aoq.total head_id tail_id)

unfoldable pub queue : Outside → ℕ → List Arg → Server → Run Server
queue o fd args s = if fd == 0 then finish o.fuel args s else do
  a ← first_arg args
  if is_bad_name a then finish o.fuel args (reply fd (no_byte b'5') s) else do
    qname ← get_queue_name o.beyond s.mem.chunks a
    text ← c_string qname
    if length text == 0 then finish o.fuel args (reply fd (no_byte b'5') s) else do
      r ← hash_find o.fuel s.names.ht qname
      answer ← elim r [
        | none ↦ ok (no_byte b'5')
        | some p ↦ load s.names.queues p >>= λ aoq. queue_reply aoq s.nodes
      ]
      finish o.fuel args (reply fd answer s)
