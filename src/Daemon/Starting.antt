-- ===== src/Daemon/Starting.antt =====
-- daemon.h: starting and restarting while the pid file holds a number.
use net_library.Base.{
  ℕ, zero, suc, ◌≡◌, refl, ap, ◌∙◌, Bool, true, some, List, Bool-cases, inl, inr, ◌⊎◌, ◌+◌, arith,
}
use net_library.Base.Int.{ℤ, pos, ltb_ℤ, is_neg}
use net_library.Daemon.{
  PidFile, Process, returned, minus_one, get_pid_from_file, start_with_pid, daemon_start, stop_loop,
  stop_pid, daemon_stop, restart_after_stop, restart_pid, daemon_restart,
}
use net_library.Status.{is_zero}

pub is_positive : (n : ℕ) → ltb_ℤ (pos 0) (pos (suc n)) ≡ true
is_positive n = ground arith

module _ (atoi : List ℕ → ℤ) (print : ℕ → List ℕ) where
  start_refuses :
      (p : Process) (f : PidFile) (n : ℕ)
      → get_pid_from_file atoi f ≡ some (pos (suc n))
      → daemon_start atoi print p f ≡ some (returned minus_one)
  unfolding daemon_start
  start_refuses p f n h = ap (start_with_pid atoi print p) h ∙ rw (is_positive n) refl

  restart_refuses :
      (p : Process) (f : PidFile) (n : ℕ) (r : ℤ)
      → get_pid_from_file atoi f ≡ some (pos (suc n))
      → (r ≡ pos 0) ⊎ (r ≡ minus_one)
      → restart_after_stop atoi print p f (some r) ≡ some (returned minus_one)
  unfolding restart_after_stop
  restart_refuses p f n r h (inl e) = rw e (start_refuses p f n h)
  restart_refuses p f n r h (inr e) = rw e refl

  stop_loop-cases :
      (kills : ℕ → ℤ) (rounds n : ℕ)
      → (stop_loop atoi print kills rounds n ≡ pos 0)
        ⊎ (stop_loop atoi print kills rounds n ≡ minus_one)
  unfolding stop_loop
  stop_loop-cases kills zero n = inr refl
  stop_loop-cases kills (suc rounds) n = elim (Bool-cases (is_zero (kills n))) [
    | inl e ↦ rw e (stop_loop-cases kills rounds (n + 1))
    | inr e ↦ rw e (inl refl)
  ]

  restart_stopped :
      (p : Process) (f : PidFile) (kills : ℕ → ℤ) (n : ℕ)
      → get_pid_from_file atoi f ≡ some (pos (suc n))
      → restart_after_stop atoi print p f (daemon_stop atoi print kills f)
        ≡ some (returned minus_one)
  unfolding daemon_stop restart_after_stop
  restart_stopped p f kills n h =
      ap (λ r. restart_after_stop atoi print p f (stop_pid atoi print kills r)) h
      ∙ rw (is_positive n) (elim (Bool-cases (is_neg (kills 0))) [
        | inl e ↦ rw e refl
        | inr e ↦ rw e (
            restart_refuses p f n (stop_loop atoi print kills 300 1) h
              (stop_loop-cases kills 300 1))
      ])

  -- While the pid file holds a positive number, whether or not a process has it, neither daemonStart
  -- nor daemonRestart starts a daemon: both return -1, whatever the system calls give.
  pub start-restart-refuse :
      (p : Process) (kills : ℕ → ℤ) (probe : ℤ) (eperm : Bool) (f : PidFile) (n : ℕ)
      → get_pid_from_file atoi f ≡ some (pos (suc n))
      → (daemon_start atoi print p f ≡ some (returned minus_one))
        × (daemon_restart atoi print p kills probe eperm f f f ≡ some (returned minus_one))
  unfolding daemon_restart
  start-restart-refuse p kills probe eperm f n h = (
    start_refuses p f n h,
    ap (restart_pid atoi print p kills probe eperm f f) h
        ∙ rw (is_positive n) (elim (Bool-cases (is_zero probe)) [
          | inl e ↦ rw e (restart_stopped p f kills n h)
          | inr e ↦
              rw e (elim (Bool-cases eperm) [
                | inl d ↦ rw d refl
                | inr d ↦ rw d (start_refuses p f n h)
              ])
        ]),
  )
