-- ===== src/Daemon/Tests.antt =====
-- Runs of the daemon's operations, and their theorems at such runs.
use net_library.Base.{
  ℕ, zero, suc, ◌+◌, ◌-◌, ◌*◌, ◌≡◌, ◌↔◌, refl, false, some, none, List, [], ◌∷◌, codes,
}
use net_library.Base.Int.{ℤ, pos}
use net_library.Daemon.{
  PidFile, Process, returned, minus_one, get_pid_from_file, write_pid_to_file, daemon_start,
  daemon_stop, daemon_restart, daemon_process, exits_1,
}
use net_library.Daemon.Starting.{start-restart-refuse}
use net_library.Daemon.Stopping.{FailsWithin, daemon_stop_iff}

-- The number that digits stand for.
abbrev digits : ℕ → List ℕ → ℤ
digits n [] = pos n
digits n (c ∷ cs) = digits (n * 10 + (c - 48)) cs

abbrev to_number : List ℕ → ℤ
to_number cs = digits 0 cs

abbrev as_text : ℕ → List ℕ
as_text n = codes "77"

abbrev pid_file : PidFile
pid_file = record { fd = pos 3; bytes = codes "42\n" }

abbrev no_file : PidFile
no_file = record { fd = minus_one; bytes = [] }

abbrev process : Process
process = record { ppid = 500; forked = pos 0; pid = 77; wrote = pos 3; null_fd = pos 4 }

-- The process ends behind the second signal.
abbrev kills : ℕ → ℤ
kills zero = pos 0
kills (suc zero) = pos 0
kills (suc (suc n)) = minus_one

starts : daemon_start to_number as_text process no_file ≡ some (returned (pos 0))
unfolding daemon_start get_pid_from_file write_pid_to_file
starts = refl

unknown_command : daemon_process (some (codes "halt")) none none none ≡ some exits_1
unfolding daemon_process
unknown_command = refl

start-restart-refuse_example :
    (daemon_start to_number as_text process pid_file ≡ some (returned minus_one))
    × (daemon_restart to_number as_text process kills minus_one false pid_file pid_file pid_file
        ≡ some (returned minus_one))
unfolding get_pid_from_file
start-restart-refuse_example =
    start-restart-refuse to_number as_text process kills minus_one false pid_file 41 refl

daemon_stop_iff_example :
    (daemon_stop to_number as_text kills pid_file ≡ some (pos 0)) ↔ FailsWithin kills 300 1
unfolding get_pid_from_file
daemon_stop_iff_example = daemon_stop_iff to_number as_text kills pid_file 41 refl refl
