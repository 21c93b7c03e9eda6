-- ===== src/ThreadPool/Join.antt =====
-- thread.cc: `exit` and `join`.
use net_library.Base.{
  ℕ, suc, ◌+◌, ◌*◌, ◌≤◌, ◌<◌, ◌≡◌, refl, ap, ◌⊎◌, inl, inr, ◌≢◌, true, List, [], ◌∷◌, ◌++◌, arith,
  length,
}
use net_library.ThreadPool.{
  ThreadPool, Worker, testing, waiting, stopped, running, WorkerStep, go_on, stop, take, find_none,
  finish,
}

module _ {ℓ} {T : Type ℓ} where
  -- How many steps a worker can still make once the queue has exited.
  abbrev weight : Worker T → ℕ
  weight waiting = 3
  weight (running t) = 2
  weight testing = 1
  weight stopped = 0

  abbrev pub left : List (Worker T) → ℕ
  left [] = 0
  left (w ∷ ws) = weight w + left ws

  left-append : (xs ys : List (Worker T)) → left (xs ++ ys) ≡ left xs + left ys
  left-append [] ys = omega arith
  left-append (x ∷ xs) ys = omega (arith, left-append xs ys)

  left-le : (ws : List (Worker T)) → left ws ≤ 3 * length ws
  left-le [] = omega arith
  left-le (waiting ∷ ws) = omega (arith, left-le ws)
  left-le (running t ∷ ws) = omega (arith, left-le ws)
  left-le (testing ∷ ws) = omega (arith, left-le ws)
  left-le (stopped ∷ ws) = omega (arith, left-le ws)

  abbrev pub AllStopped : List (Worker T) → Type ℓ
  AllStopped [] = Unit
  AllStopped (w ∷ ws) = (w ≡ stopped) × AllStopped ws

  replaced :
      (before after : List (Worker T)) (v w : Worker T) {ws : List (Worker T)}
      → ws ≡ before ++ v ∷ after
      → weight w < weight v
      → left (before ++ w ∷ after) < left ws
  replaced before after v w e h =
      omega (arith, ap left e, left-append before (v ∷ after), left-append before (w ∷ after))

  -- A step of a worker after the exit: the queue stays exited and the worker comes nearer its end.
  WorkerStep-exited :
      {p q : ThreadPool T}
      → WorkerStep p q
      → p.tasks.exited ≡ true
      → (q.tasks.exited ≡ true) × (left q.threads < left p.threads)
  WorkerStep-exited (go_on p before after e x) h = cc
  WorkerStep-exited (stop p before after e x) h =
      (h, replaced before after testing stopped e (omega arith))
  WorkerStep-exited (take p before after t rest e i) h =
      (h, replaced before after waiting (running t) e (omega arith))
  WorkerStep-exited (find_none p before after e i x) h =
      (h, replaced before after waiting testing e (omega arith))
  WorkerStep-exited (finish p before after t e) h =
      (h, replaced before after (running t) testing e (omega arith))

  -- `n` steps of workers.
  pub data Run (p : ThreadPool T) : ℕ → ThreadPool T → Type ℓ where
    none_yet : Run p 0 p
    one_more : {n : ℕ} {q r : ThreadPool T} → Run p n q → WorkerStep q r → Run p (suc n) r

  Run-exited :
      {p q : ThreadPool T} {n : ℕ}
      → p.tasks.exited ≡ true
      → Run p n q
      → (q.tasks.exited ≡ true) × (n + left q.threads ≤ left p.threads)
  Run-exited h none_yet = (h, omega arith)
  Run-exited h (one_more r s) =
      let k = Run-exited h r in let d = WorkerStep-exited s k.0 in (d.0, omega (arith, k.1, d.1))

  -- The first worker that has not stopped.
  active :
      (ws : List (Worker T))
      → AllStopped ws
        ⊎ ((before after : List (Worker T)) × (w : Worker T) × (w ≢ stopped)
            × (ws ≡ before ++ w ∷ after))
  active [] = inl tt
  active (waiting ∷ ws) = inr ([], ws, waiting, (λ e. cc), refl)
  active (running t ∷ ws) = inr ([], ws, running t, (λ e. cc), refl)
  active (testing ∷ ws) = inr ([], ws, testing, (λ e. cc), refl)
  active (stopped ∷ ws) = elim (active ws) [
    | inl all ↦ inl (refl, all)
    | inr (before, after, w, h, e) ↦ inr (stopped ∷ before, after, w, h, ap (λ r. stopped ∷ r) e)
  ]

  step_of :
      (p : ThreadPool T) (before after : List (Worker T)) (w : Worker T) (items : List T)
      → p.tasks.exited ≡ true
      → w ≢ stopped
      → p.threads ≡ before ++ w ∷ after
      → p.tasks.items ≡ items
      → (q : ThreadPool T) × WorkerStep p q
  step_of p before after testing items x h e i = (_, stop p before after e x)
  step_of p before after (running t) items x h e i = (_, finish p before after t e)
  step_of p before after stopped items x h e i = absurd (h refl)
  step_of p before after waiting [] x h e i = (_, find_none p before after e i x)
  step_of p before after waiting (t ∷ rest) x h e i = (_, take p before after t rest e i)

  -- Once the queue has exited, the workers of a pool make at most three steps each before all of
  -- them have stopped, and as long as one has not, some worker can make a step.
  pub exited-Run :
      {p q : ThreadPool T} {n : ℕ}
      → p.tasks.exited ≡ true
      → Run p n q
      → (n ≤ 3 * length p.threads) × (AllStopped q.threads ⊎ ((r : ThreadPool T) × WorkerStep q r))
  exited-Run {p} {q} h r =
      let k = Run-exited h r in
      (
        omega (arith, k.1, left-le p.threads),
        elim (active q.threads) [
          | inl all ↦ inl all
          | inr (before, after, w, a, e) ↦ inr (step_of q before after w q.tasks.items k.0 a e refl)
        ],
      )
