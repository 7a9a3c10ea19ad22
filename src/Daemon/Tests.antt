-- ===== src/Daemon/Tests.antt =====
-- A daemon of the process 9.
use aoq.Prelude.{ℕ, ◌≡◌, ◌≢◌, ◌⊎◌, refl, true, false, none, some, List, [], ◌∷◌, ◌++◌, arith}
use aoq.Prelude.Int.{pos, negsuc}
use aoq.Heap.{ok}
use aoq.CText.{atoi}
use aoq.Daemon.{Process, Forks, lives, exited, init_daemon, after_fork, whole, mkpidfile}
use aoq.Daemon.Fork.{Shut, init_daemon-cases}
use aoq.Daemon.Pid.{mkpidfile-atoi}

abbrev process : Process
process = record { opened = 0 ∷ 1 ∷ 2 ∷ 300 ∷ []; leads = false; dir = []; mask = 18 }

abbrev forks : Forks
forks = record { first = pos 0; second = negsuc 0; nofile = 256; moves = true }

-- A second `fork` that fails ends the process with 0.
failed : init_daemon forks [] process ≡ exited 0
unfolding init_daemon after_fork
failed = refl

init_daemon-cases_example :
    ((p' : Process) × (init_daemon forks [] process ≡ lives p')
      × (pos 0 ≡ pos 0)
      × (negsuc 0 ≡ pos 0)
      × Shut 256 p'.opened)
    ⊎ ((init_daemon forks [] process ≡ exited 0) × ((pos 0 ≢ pos 0) ⊎ (negsuc 0 ≢ pos 0)))
init_daemon-cases_example = init_daemon-cases forks [] process

mkpidfile-atoi_example :
    (text : List ℕ) × (mkpidfile (pos 9) whole none ≡ (pos 1, some text))
    × (atoi (text ++ 0 ∷ []) ≡ ok (pos 9))
mkpidfile-atoi_example = mkpidfile-atoi 9 none (0 ∷ []) (omega arith)
