-- ===== src/Daemon/Stopping.antt =====
-- daemon.h: when daemonStop reports that the process has ended.
use net_library.Base.{
  ℕ, zero, suc, ◌+◌, ◌<◌, ◌≡◌, ◌↔◌, refl, ap, sym, subst, ◌∙◌, true, false, some, List, Bool-cases,
  inl, inr, arith,
}
use net_library.Base.Int.{ℤ, pos, is_neg}
use net_library.Daemon.{PidFile, get_pid_from_file, stop_loop, stop_pid, daemon_stop}
use net_library.Daemon.Starting.{is_positive}
use net_library.Status.{is_zero}

-- One of so many calls of kill, from the n-th on, does not succeed.
abbrev pub FailsWithin : (ℕ → ℤ) → ℕ → ℕ → Type 0
FailsWithin kills rounds n = (i : ℕ) × (i < rounds) × (is_zero (kills (n + i)) ≡ false)

module _ (atoi : List ℕ → ℤ) (print : ℕ → List ℕ) where
  loop_goes_on :
      (kills : ℕ → ℤ) (rounds n : ℕ)
      → is_zero (kills n) ≡ true
      → stop_loop atoi print kills (suc rounds) n ≡ stop_loop atoi print kills rounds (n + 1)
  unfolding stop_loop
  loop_goes_on kills rounds n e = rw e refl

  loop-to :
      (kills : ℕ → ℤ) (rounds n : ℕ)
      → stop_loop atoi print kills rounds n ≡ pos 0
      → FailsWithin kills rounds n
  unfolding stop_loop
  loop-to kills zero n h = cc h
  loop-to kills (suc rounds) n h = elim (Bool-cases (is_zero (kills n))) [
    | inl e ↦
        let (i, l, z) = loop-to kills rounds (n + 1) (sym (loop_goes_on kills rounds n e) ∙ h) in
        let q : n + 1 + i ≡ n + suc i = omega arith in
        (suc i, omega (arith, l), subst (λ k. is_zero (kills k) ≡ false) q z)
    | inr e ↦ (0, omega arith, let z : n + 0 ≡ n = omega arith in rw z e)
  ]

  loop-from :
      (kills : ℕ → ℤ) (rounds n : ℕ)
      → FailsWithin kills rounds n
      → stop_loop atoi print kills rounds n ≡ pos 0
  unfolding stop_loop
  loop-from kills zero n (i, h, e) = absurd (omega (arith, h))
  loop-from kills (suc rounds) n (zero, h, e) =
      let q : n + 0 ≡ n = omega arith in
      let z : is_zero (kills n) ≡ false = subst (λ k. is_zero (kills k) ≡ false) q e in rw z refl
  loop-from kills (suc rounds) n (suc i, h, e) = elim (Bool-cases (is_zero (kills n))) [
    | inl z ↦
        let q : n + suc i ≡ n + 1 + i = omega arith in
        loop_goes_on kills rounds n z
        ∙ loop-from kills rounds (n + 1)
            (i, omega (arith, h), subst (λ k. is_zero (kills k) ≡ false) q e)
    | inr z ↦ rw z refl
  ]

  -- Of a pid file with a positive number, where the first kill does not fail, daemonStop returns 0
  -- exactly if one of its next 300 calls of kill does not succeed.
  pub daemon_stop_iff :
      (kills : ℕ → ℤ) (f : PidFile) (n : ℕ)
      → get_pid_from_file atoi f ≡ some (pos (suc n))
      → is_neg (kills 0) ≡ false
      → (daemon_stop atoi print kills f ≡ some (pos 0)) ↔ FailsWithin kills 300 1
  unfolding daemon_stop
  daemon_stop_iff kills f n h k =
      let e : daemon_stop atoi print kills f ≡ some (stop_loop atoi print kills 300 1) =
        ap (stop_pid atoi print kills) h ∙ rw (is_positive n, k) refl in
      (λ z. loop-to kills 300 1 (cc (e, z)), λ w. e ∙ ap some (loop-from kills 300 1 w))
