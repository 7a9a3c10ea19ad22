-- ===== src/Client/Session.antt =====
-- aoq-client.c: `main`, `cmd_msg_cb` and `event_cb`.
use aoq.Prelude.{
  ℕ, ◌-◌, Bool, true, false, Option, none, some, List, [], ◌∷◌, ◌++◌, replicate, length, codes,
  if◌then◌else◌,
}
use aoq.Prelude.Int.{ℤ, pos}
use aoq.Heap.{Run, ok, fault, ◌>>=◌, of_option}
use aoq.CText.{atoi}
use aoq.Client.{sent, refused, unknown, helped, quit, protocol_convert}

-- What `getopt` returns: `h` without an argument, for which `optarg` is `NULL`, `p` with the memory of its
-- argument, and the rest.
pub data ClientOpt : Type 0 where
  opt_h : ClientOpt
  opt_p : List ℕ → ClientOpt
  opt_other : ClientOpt

-- `host` and `port`; the host `none` is `NULL`.
pub record Peer : Type 0 where
  pub host : Option (List ℕ)
  pub port : ℤ

abbrev pub default_peer : Peer
default_peer = record { host = some (codes "0.0.0.0" ++ 0 ∷ []); port = pos 5211 }

-- The loop; `none` is the return of 1.
unfoldable pub read_peer : List ClientOpt → Peer → Run (Option Peer)
read_peer [] peer = ok (some peer)
read_peer (opt_h ∷ opts) peer = read_peer opts (record peer { host = none })
read_peer (opt_p optarg ∷ opts) peer =
    atoi optarg >>= λ n. read_peer opts (record peer { port = n })
read_peer (opt_other ∷ opts) peer = ok none

-- `main` up to the connection: the host, which `inet_aton` reads, and the port.
unfoldable pub client_main : List ClientOpt → Run (Option (List ℕ × ℤ))
unfolding read_peer
client_main opts = do
  r ← read_peer opts default_peer
  elim r [
    | none ↦ ok none
    | some peer ↦ of_option peer.host >>= (λ host. ok (some (host, peer.port)))
  ]

-- What `cmd_msg_cb` does: it writes to the server, does nothing, or ends the program with a code.
pub data Typed : Type 0 where
  wrote : List ℕ → Typed
  nothing : Typed
  ended : ℕ → Typed

-- `cmd_msg_cb`, with what `i` holds and what `read` brings, if it does not fail. Where `protocol_convert` has
-- set no block, `*send_data` has no value as `free` gets it.
unfoldable pub cmd_msg_cb : ℕ → Option (List ℕ) → Run Typed
cmd_msg_cb start none = ok (ended 1)
cmd_msg_cb start (some got) =
    protocol_convert start (got ++ replicate (1000000 - length got) 0) >>= λ c. elim c [
      | sent text ↦ ok (wrote text)
      | refused ↦ ok nothing
      | unknown ↦ fault
      | helped ↦ fault
      | quit ↦ ok (ended 0)
    ]

-- The bits of an event that `event_cb` looks at.
pub record BevEvent : Type 0 where
  pub eof : Bool
  pub error : Bool
  pub connected : Bool

-- `event_cb`: what it prints, and whether the connection and the event of the input are still there. The
-- text of the error is the system's.
unfoldable pub event_cb : List ℕ → BevEvent → List ℕ × Bool
event_cb error_text e =
    if e.eof
    then (codes "Connection closed.\n", false)
    else if e.error
    then (codes "Some other error:" ++ error_text ++ codes "\n", false)
    else if e.connected
    then ([], true)
    else ([], false)
