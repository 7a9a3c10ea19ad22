-- ===== src/Daemon.antt =====
-- aoq-server.c: what makes the process a daemon, `init_daemon`, and its pid file, `mkpidfile` and
-- `checkpidfile`; and the listening socket, `tcp_server_init`.
pub mod Fork
pub mod Pid
pub mod Listen
mod Tests
use aoq.Prelude.{
  ℕ, zero, suc, ◌+◌, Bool, true, false, Option, none, some, List, [], ◌∷◌, ◌++◌, ◌==◌,
  if◌then◌else◌,
}
use aoq.Prelude.Int.{ℤ, pos, negsuc, ltb_ℤ, ◌==ℤ◌}
use aoq.Command.Report.{percent_d}
use aoq.Receive.{without}

-- What `init_daemon` changes of a process: its open descriptors, whether it leads a session, its
-- directory, and the mask of the files that it makes.
pub record Process : Type 0 where
  pub opened : List ℕ
  pub leads : Bool
  pub dir : List ℕ
  pub mask : ℕ

-- `exit` with its code, or the process that goes on.
pub data Life : Type 0 where
  exited : ℕ → Life
  lives : Process → Life

-- `if(pid=fork()) exit(0); else if(pid<0) exit(1);`, with what `fork` returns.
unfoldable pub after_fork : ℤ → Life → Life
after_fork pid next =
    if pid ==ℤ pos 0 then if ltb_ℤ pid (pos 0) then exited 1 else next else exited 0

abbrev pub close_fd : ℕ → List ℕ → List ℕ
close_fd fd [] = []
close_fd fd (x ∷ xs) = let rest = close_fd fd xs in if x == fd then rest else x ∷ rest

-- `for(i=0;i<NOFILE;++i) close(i)`, from `i` on with the rounds that are left.
unfoldable pub close_loop : ℕ → ℕ → List ℕ → List ℕ
close_loop i zero opened = opened
close_loop i (suc n) opened = close_loop (i + 1) n (close_fd i opened)

-- What the process gets from the system: the two forks, the number `NOFILE`, and whether `chdir` works.
pub record Forks : Type 0 where
  pub first : ℤ
  pub second : ℤ
  pub nofile : ℕ
  pub moves : Bool

-- A child that a session's leader forks leads none.
unfoldable pub init_daemon : Forks → List ℕ → Process → Life
unfolding after_fork close_loop
init_daemon f path p = after_fork f.first (
    after_fork f.second (
      lives (record {
        opened = close_loop 0 f.nofile p.opened;
        leads = false;
        dir = if f.moves then path else p.dir;
        mask = 0;
      })))

-- `checkpidfile`, of a file that is there with its content, or is not.
unfoldable pub checkpidfile : Option (List ℕ) → ℤ
checkpidfile none = pos 0
checkpidfile (some _) = pos 1

-- What happens to the pid file: `fopen` fails, `fprintf` fails after some bytes, or both work.
pub data Written : Type 0 where
  not_opened : Written
  broken_off : List ℕ → Written
  whole : Written

-- `mkpidfile`: what it returns, and the file.
unfoldable pub mkpidfile : ℤ → Written → Option (List ℕ) → ℤ × Option (List ℕ)
mkpidfile pid not_opened file = (negsuc 0, file)
mkpidfile pid (broken_off text) file = (negsuc 1, some text)
mkpidfile pid whole file = (pos 1, some (percent_d pid ++ b'\n' ∷ []))

-- What `socket`, `bind` and `listen` return.
pub record Net : Type 0 where
  pub socket : ℤ
  pub bind : ℤ
  pub listen : ℤ

-- `tcp_server_init`: what it returns, and the sockets that are open.
unfoldable pub tcp_server_init : Net → List ℤ → ℤ × List ℤ
tcp_server_init net opened =
    if net.socket ==ℤ negsuc 0
    then (negsuc 0, opened)
    else if ltb_ℤ net.bind (pos 0)
    then (negsuc 0, without net.socket (net.socket ∷ opened))
    else if ltb_ℤ net.listen (pos 0)
    then (negsuc 0, without net.socket (net.socket ∷ opened))
    else (net.socket, net.socket ∷ opened)
