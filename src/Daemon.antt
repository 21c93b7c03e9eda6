-- ===== src/Daemon.antt =====
-- daemon.h: starting, stopping and restarting a daemon by its pid file.
--
-- What the system calls give is a parameter: the record `Process` for a start, `kills n` for the n-th
-- kill with SIGQUIT of a stop, and `PidFile` for the pid file at the time when it is read; `atoi` is
-- that of <stdlib.h>. Messages to stderr are left out, and so are setsid, dup2 and the unlink at the
-- end of the daemon. A result is `none` where strchr leaves the buffer.
pub mod Starting
pub mod Stopping
pub mod Signal
mod Tests
use net_library.Base.{
  ℕ, zero, suc, ◌+◌, ◌-◌, Bool, true, false, not, ◌&&◌, ◌||◌, Option, none, some, List, [], ◌∷◌,
  ◌++◌, length, replicate, codes, same, ◌==◌, if◌then◌else◌,
}
use net_library.Base.Int.{ℤ, pos, negsuc, is_neg, ltb_ℤ}
use net_library.Status.{is_zero}

-- The result of open, and the bytes that read gives where it gives any: no more than 32.
pub record PidFile : Type 0 where
  pub fd : ℤ
  pub bytes : List ℕ

-- What getppid, fork and open("/dev/null") give, and the result of writing the pid file of a process.
pub record Process : Type 0 where
  pub ppid : ℕ
  pub forked : ℤ
  pub pid : ℕ
  pub wrote : ℤ
  pub null_fd : ℤ

-- How daemonStart and daemonRestart end: they return, or the parent exits behind fork.
pub data Result : Type 0 where
  returned : ℤ → Result
  parent_exits : Result

abbrev pub minus_one : ℤ
minus_one = negsuc 0

-- The text in front of the first newline, or of the zero behind what was read.
abbrev pub first_line : List ℕ → Option (List ℕ)
first_line [] = none
first_line (c ∷ cs) =
    let rest : Option (List ℕ) = elim (first_line cs) [ none ↦ none | some l ↦ some (c ∷ l) ] in
    if c == 10 || c == 0 then some [] else rest

abbrev pub is_nat : ℤ → ℕ → Bool
is_nat (pos m) n = m == n
is_nat (negsuc m) n = false

module _ (atoi : List ℕ → ℤ) where
  abbrev pub number_in : List ℕ → Option ℤ
  number_in [] = some minus_one
  number_in (b ∷ bs) = elim (first_line ((b ∷ bs) ++ replicate (32 - length (b ∷ bs)) 0)) [
    | none ↦ none
    | some l ↦ some (atoi l)
  ]

  pub get_pid_from_file : PidFile → Option ℤ
  get_pid_from_file f = if is_neg f.fd then some f.fd else number_in f.bytes

  -- WritePidtoFile, given how a pid is printed: whether the file holds all of it.
  module _ (print : ℕ → List ℕ) where
    pub write_pid_to_file : Process → ℤ
    write_pid_to_file p =
        if is_nat p.wrote (length (print p.pid ++ 10 ∷ [])) then pos 0 else minus_one

    -- The child, behind fork.
    abbrev pub run_child : Process → ℤ
    unfolding write_pid_to_file
    run_child p =
        let r = write_pid_to_file p in
        if not (is_zero r) then r else if ltb_ℤ (pos 0) p.null_fd then pos 0 else minus_one

    abbrev pub fork_child : Process → Result
    unfolding write_pid_to_file
    fork_child p =
        if is_neg p.forked
        then returned minus_one
        else if ltb_ℤ (pos 0) p.forked
        then parent_exits
        else returned (run_child p)

    -- With the pid that the file gives: kill and errno decide on the message only, since the return
    -- stands behind the `if`.
    abbrev pub start_with_pid : Process → Option ℤ → Option Result
    unfolding write_pid_to_file
    start_with_pid p none = none
    start_with_pid p (some pid) =
        if ltb_ℤ (pos 0) pid
        then some (returned minus_one)
        else if p.ppid == 1
        then some (returned minus_one)
        else some (fork_child p)

    pub daemon_start : Process → PidFile → Option Result
    unfolding get_pid_from_file write_pid_to_file
    daemon_start p f = start_with_pid p (get_pid_from_file f)

    -- The loop of daemonStop, with the rounds that are left and the calls of kill that were made.
    pub stop_loop : (ℕ → ℤ) → ℕ → ℕ → ℤ
    stop_loop kills zero n = minus_one
    stop_loop kills (suc rounds) n =
        let rest = stop_loop kills rounds (n + 1) in if is_zero (kills n) then rest else pos 0

    abbrev pub stop_pid : (ℕ → ℤ) → Option ℤ → Option ℤ
    unfolding stop_loop
    stop_pid kills none = none
    stop_pid kills (some pid) =
        if not (ltb_ℤ (pos 0) pid)
        then some minus_one
        else if is_neg (kills 0)
        then some minus_one
        else some (stop_loop kills 300 1)

    pub daemon_stop : (ℕ → ℤ) → PidFile → Option ℤ
    unfolding get_pid_from_file stop_loop
    daemon_stop kills f = stop_pid kills (get_pid_from_file f)

    abbrev pub restart_after_stop : Process → PidFile → Option ℤ → Option Result
    unfolding daemon_start
    restart_after_stop p f none = none
    restart_after_stop p f (some r) = if is_neg r then some (returned r) else daemon_start p f

    -- With the result of kill(pid, 0), and whether errno is EPERM then.
    abbrev pub restart_pid :
        Process → (ℕ → ℤ) → ℤ → Bool → PidFile → PidFile → Option ℤ → Option Result
    unfolding daemon_start daemon_stop
    restart_pid p kills probe eperm at_stop at_start none = none
    restart_pid p kills probe eperm at_stop at_start (some pid) =
        if not (ltb_ℤ (pos 0) pid)
        then daemon_start p at_start
        else if is_zero probe
        then restart_after_stop p at_start (daemon_stop kills at_stop)
        else if eperm
        then some (returned minus_one)
        else daemon_start p at_start

    -- daemonRestart reads the pid file up to three times: itself, in daemonStop and in daemonStart.
    pub daemon_restart : Process → (ℕ → ℤ) → ℤ → Bool → PidFile → PidFile → PidFile → Option Result
    unfolding get_pid_from_file daemon_start daemon_stop
    daemon_restart p kills probe eperm f at_stop at_start =
        restart_pid p kills probe eperm at_stop at_start (get_pid_from_file f)

-- How daemonProcess ends.
pub data End : Type 0 where
  goes_on exits_0 exits_1 : End

abbrev pub end_of : Result → End
end_of (returned r) = if is_zero r then goes_on else exits_1
end_of parent_exits = exits_0

abbrev pub end_of_stop : ℤ → End
end_of_stop r = if is_zero r then exits_0 else exits_1

abbrev pub map_end {ℓ} : {A : Type ℓ} → (A → End) → Option A → Option End
map_end f none = none
map_end f (some r) = some (f r)

-- daemonProcess, of what the three operations would give.
pub daemon_process : Option (List ℕ) → Option Result → Option ℤ → Option Result → Option End
daemon_process none start stop restart = map_end end_of start
daemon_process (some cmd) start stop restart =
    if same cmd (codes "start")
    then map_end end_of start
    else if same cmd (codes "stop")
    then map_end end_of_stop stop
    else if same cmd (codes "restart")
    then map_end end_of restart
    else some exits_1
