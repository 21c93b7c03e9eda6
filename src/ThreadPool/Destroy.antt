-- ===== src/ThreadPool/Destroy.antt =====
-- thread.cc: the destructor of a pool that has been left and joined.
use mathlib.Core.List.{Perm}
use mathlib.Core.List.Perm
use net_library.Base.{
  ℕ, ◌≡◌, refl, ap, sym, ◌∙◌, subst, Bool, true, List, [], ◌∷◌, ◌++◌, length, append-nil, ◌==◌,
  if◌then◌else◌,
}
use net_library.SafeQueue
use net_library.ThreadPool.{ThreadPool, Worker, init, Reach, Destroyed, silent, reports, destroy}
use net_library.ThreadPool.Tasks.{in_progress, init-Reach-Accounts}
use net_library.ThreadPool.Join.{AllStopped}

abbrev pub report : ℕ → Destroyed
report n = if n == 0 then silent else reports n

module _ {ℓ} {T : Type ℓ} where
  stopped-idle : (ws : List (Worker T)) → AllStopped ws → in_progress ws ≡ []
  stopped-idle [] all = refl
  stopped-idle (w ∷ ws) (e, all) = rw e (stopped-idle ws all)

  -- Of a pool that any interleaving has led to, that has exited and of which all workers have stopped:
  -- its destructor reports as many tasks as are left in the queue, and none if the queue is empty, and
  -- the accepted tasks are, in some order, those that were run to the end, each once, and those.
  pub destroy-report :
      (threads capacity : ℕ) (starts : Bool) {p : ThreadPool T}
      → Reach (init threads capacity starts) p
      → p.tasks.exited ≡ true
      → AllStopped p.threads
      → (destroy p ≡ report (length p.tasks.items)) × Perm p.added (p.finished ++ p.tasks.items)
  unfolding destroy SafeQueue.size
  destroy-report threads capacity starts {p} r x all =
      let a = init-Reach-Accounts threads capacity starts r in
      let run : Perm p.taken p.finished =
        subst (Perm p.taken)
          (ap (λ w. p.finished ++ w) (stopped-idle p.threads all) ∙ append-nil p.finished)
          a.run_once in
      (
        rw x refl,
        subst (λ l. Perm l (p.finished ++ p.tasks.items)) (sym a.in_order)
            (Perm.append_right p.tasks.items run),
      )
