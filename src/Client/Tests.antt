-- ===== src/Client/Tests.antt =====
-- A `push` of a byte and a text of two, from the client.
use aoq.Prelude.{◌≡◌, refl, some, List, ℕ, [], ◌∷◌, ◌++◌, replicate, arith, codes}
use aoq.Prelude.Int.{pos, ◌+ℤ◌, ◌*ℤ◌}
use aoq.Heap.{null, ok, fault, stuck, read}
use aoq.Heap.Chain.{node}
use aoq.CText.{atoi, c_string, copy_to}
use aoq.MemPool.{Mem, MemSlab}
use aoq.Cursor.{at}
use aoq.Parser.{parsed, create_args, parse_args}
use aoq.Parser.Request.{located}
use aoq.Func.{received, again, read_cmd}
use aoq.Client.{
  sent, protocol_convert, convert_fixed, command_name2num, name2num_loop, server_msg_cb, print_loop,
  client_head_len,
}
use aoq.Client.Session.{opt_h, opt_p, default_peer, read_peer, client_main}
use aoq.Client.Host.{client_main-host}
use aoq.Client.Push.{pushed, push_line, IsName}
use aoq.Client.Sent.{parse_args-push, read_cmd-push}

abbrev name : List ℕ
name = b'a' ∷ []

abbrev value : List ℕ
value = b'b' ∷ b'c' ∷ []

abbrev slab : MemSlab
slab = record { head_next = 1; tail_next = 1 }

abbrev mem : Mem
mem = record {
  chunks = (1, some (node (pushed name value []) null)) ∷ [];
  slabs = (1, some slab) ∷ [];
  mp = record { head_next = null; tail_next = null; total = 0; size = 0; cksize = 1024 };
  chunk_used_num = pos 1;
}

abbrev a_name : IsName name
a_name = ((omega arith, tt), (refl, tt))

parse_args-push_example :
    (protocol_convert 0 (push_line name value ++ 0 ∷ []) ≡ ok (sent (pushed name value [])))
    × (parse_args (0 ∷ []) 9 1 mem (create_args 5)
        ≡ ok (record {
          outcome = parsed;
          command_num = pos 2;
          args =
              located
                (record { ptr = at 1 17; node = 1; slab = 1 })
                (name ∷ value ∷ [])
                (create_args 5);
          mem = mem;
        }))
unfolding read create_args
parse_args-push_example =
    parse_args-push (0 ∷ []) [] [] 9 1 mem (create_args 5) slab name value refl (omega arith)
      (omega arith) refl (omega arith, _, refl, refl) a_name
      (omega arith, omega arith, (omega arith, tt))
      (omega arith, omega arith, (omega arith, (omega arith, tt))) (omega arith) (omega arith)
      (omega arith)

port_read :
    client_main (opt_p (codes "80" ++ 0 ∷ []) ∷ []) ≡ ok (some (codes "0.0.0.0" ++ 0 ∷ [], pos 80))
unfolding client_main read_peer atoi
port_read = refl

with_host : client_main (opt_h ∷ []) ≡ fault
unfolding client_main read_peer
with_host = refl

read_cmd-push_example :
    (bytes : List ℕ) × (protocol_convert 0 (push_line name value ++ 0 ∷ []) ≡ ok (sent bytes))
    × (read_cmd (received bytes ∷ replicate 3 again) ≡ stuck)
read_cmd-push_example =
    read_cmd-push name value [] 3 a_name (omega arith, (omega arith, tt)) (omega arith)
      (omega arith)

-- A reply of one piece: what stands behind its head is printed.
printed : server_msg_cb (0 ∷ []) (codes "03ab" ++ 10 ∷ []) [] ≡ ok (b'b' ∷ 10 ∷ [])
unfolding server_msg_cb print_loop client_head_len atoi c_string
printed = refl

-- The names `pop` and `pnz` have the same number.
same_number : command_name2num (codes "pop") ≡ command_name2num (codes "pnz")
unfolding command_name2num name2num_loop ◌+ℤ◌ ◌*ℤ◌
same_number = refl

-- Six bytes and the `NUL` behind them are written into the block of six of `status`.
status-overflows : convert_fixed (codes "0501 \n") ≡ fault
unfolding convert_fixed copy_to
status-overflows = refl

-- `-p 80`
client_main-host_example : some (codes "0.0.0.0" ++ 0 ∷ []) ≡ default_peer.host
client_main-host_example = client_main-host (opt_p (codes "80" ++ 0 ∷ []) ∷ []) _ (pos 80) port_read
