-- ===== src/ThreadPool/Tasks.antt =====
-- thread.cc: the tasks that are accepted, taken and finished.
use mathlib.Core.List.{Perm, perm_middle, append_assoc}
use mathlib.Core.List.Perm
use net_library.Base.{
  ℕ, zero, suc, ◌≡◌, refl, sym, ap, ◌∙◌, subst, ◌⊎◌, inl, inr, Bool, true, false, List, [], ◌∷◌,
  ◌++◌, arith,
}
use mathlib.Core.List.{perm_append_singleton}
use mathlib.Core.Path.{subst₂}
use net_library.SafeQueue.{SafeQueue}
use net_library.SafeQueue.Laws.{IsBounded, push_lem}
use net_library.ThreadPool.{
  ThreadPool, Worker, testing, waiting, stopped, running, workers, start, init, add_task, exit,
  accepted, WorkerStep, go_on, stop, take, find_none, finish, Step, work, add, leave, begin, Reach,
  here, next,
}

module _ {ℓ} {T : Type ℓ} where
  -- The tasks that are running, in the order of the threads.
  abbrev pub in_progress : List (Worker T) → List T
  in_progress [] = []
  in_progress (running t ∷ ws) = t ∷ in_progress ws
  in_progress (testing ∷ ws) = in_progress ws
  in_progress (waiting ∷ ws) = in_progress ws
  in_progress (stopped ∷ ws) = in_progress ws

  in_progress-append :
      (xs ys : List (Worker T)) → in_progress (xs ++ ys) ≡ in_progress xs ++ in_progress ys
  in_progress-append [] ys = refl
  in_progress-append (running t ∷ xs) ys = ap (λ r. t ∷ r) (in_progress-append xs ys)
  in_progress-append (testing ∷ xs) ys = in_progress-append xs ys
  in_progress-append (waiting ∷ xs) ys = in_progress-append xs ys
  in_progress-append (stopped ∷ xs) ys = in_progress-append xs ys

  -- The tasks that were accepted are those taken followed by those in the queue, in order; those
  -- taken are, in some order, the finished and the running ones; the queue keeps its capacity.
  pub record Accounts (p : ThreadPool T) : Type ℓ where
    pub in_order : p.added ≡ p.taken ++ p.tasks.items
    pub run_once : Perm p.taken (p.finished ++ in_progress p.threads)
    pub bounded : IsBounded p.tasks

  idle : (n : ℕ) → in_progress (workers n) ≡ []
  idle zero = refl
  idle (suc n) = idle n

  init-Accounts : (n capacity : ℕ) (starts : Bool) → Accounts (init n capacity starts)
  init-Accounts n capacity true = record {
    in_order = refl;
    run_once = rw (idle n) (Perm.refl []);
    bounded = ground arith;
  }
  init-Accounts n capacity false = record {
    in_order = refl;
    run_once = Perm.refl [];
    bounded = ground arith;
  }

  start-Accounts : (p : ThreadPool T) → p.threads ≡ [] → Accounts p → Accounts (start p)
  start-Accounts p e v = record {
    in_order = v.in_order;
    run_once =
        let none_run : in_progress p.threads ≡ in_progress (p.threads ++ workers p.unstarted) =
          rw (e, idle p.unstarted) refl in
        subst (λ r. Perm p.taken (p.finished ++ r)) none_run v.run_once;
    bounded = v.bounded;
  }

  -- A worker that changes its place and runs no task before or after.
  idle_move :
      (before after : List (Worker T)) (v w : Worker T) {ws : List (Worker T)}
      → ws ≡ before ++ v ∷ after
      → in_progress (v ∷ after) ≡ in_progress (w ∷ after)
      → in_progress ws ≡ in_progress (before ++ w ∷ after)
  idle_move before after v w e k =
      ap in_progress e
      ∙ in_progress-append before (v ∷ after)
      ∙ ap (λ r. in_progress before ++ r) k
      ∙ sym (in_progress-append before (w ∷ after))

  start_perm :
      (taken done xs ys : List T) (t : T)
      → Perm taken (done ++ (xs ++ ys))
      → Perm (taken ++ t ∷ []) (done ++ (xs ++ (t ∷ ys)))
  start_perm taken done xs ys t h = Perm.trans (perm_append_singleton t taken) (
      Perm.trans (Perm.cons t h) (
        subst₂ Perm (ap (λ r. t ∷ r) (append_assoc done xs ys)) (append_assoc done xs (t ∷ ys))
          (Perm.symm (perm_middle (done ++ xs) ys))))

  finish_perm :
      (taken done xs ys : List T) (t : T)
      → Perm taken (done ++ (xs ++ (t ∷ ys)))
      → Perm taken ((done ++ t ∷ []) ++ (xs ++ ys))
  finish_perm taken done xs ys t h = Perm.trans h (
      subst (Perm (done ++ (xs ++ (t ∷ ys)))) (sym (append_assoc done (t ∷ []) (xs ++ ys)))
        (Perm.append_left done (perm_middle xs ys)))

  WorkerStep-Accounts : {p q : ThreadPool T} → WorkerStep p q → Accounts p → Accounts q
  WorkerStep-Accounts (go_on p before after e x) v = record {
    in_order = v.in_order;
    run_once =
        subst (λ r. Perm p.taken (p.finished ++ r)) (idle_move before after testing waiting e refl)
          v.run_once;
    bounded = v.bounded;
  }
  WorkerStep-Accounts (stop p before after e x) v = record {
    in_order = v.in_order;
    run_once =
        subst (λ r. Perm p.taken (p.finished ++ r)) (idle_move before after testing stopped e refl)
          v.run_once;
    bounded = v.bounded;
  }
  WorkerStep-Accounts (find_none p before after e n x) v = record {
    in_order = v.in_order;
    run_once =
        subst (λ r. Perm p.taken (p.finished ++ r)) (idle_move before after waiting testing e refl)
          v.run_once;
    bounded = v.bounded;
  }
  WorkerStep-Accounts (take p before after t rest e n) v = record {
    in_order = v.in_order ∙ ap (λ r. p.taken ++ r) n ∙ sym (append_assoc p.taken (t ∷ []) rest);
    run_once =
        subst (λ r. Perm (p.taken ++ t ∷ []) (p.finished ++ r))
          (sym (in_progress-append before (running t ∷ after)))
          (start_perm p.taken p.finished (in_progress before) (in_progress after) t (
            subst (λ r. Perm p.taken (p.finished ++ r))
              (ap in_progress e ∙ in_progress-append before (waiting ∷ after)) v.run_once));
    bounded = ground arith;
  }
  WorkerStep-Accounts (finish p before after t e) v = record {
    in_order = v.in_order;
    run_once =
        subst (λ r. Perm p.taken ((p.finished ++ t ∷ []) ++ r))
          (sym (in_progress-append before (testing ∷ after)))
          (finish_perm p.taken p.finished (in_progress before) (in_progress after) t (
            subst (λ r. Perm p.taken (p.finished ++ r))
              (ap in_progress e ∙ in_progress-append before (running t ∷ after)) v.run_once));
    bounded = v.bounded;
  }

  accepted-in_order :
      (ok : Bool) (t : T) (taken items items' : List T) (added : List T)
      → added ≡ taken ++ items
      → ((ok ≡ true) × (items' ≡ items ++ t ∷ [])) ⊎ ((ok ≡ false) × (items' ≡ items))
      → accepted ok t added ≡ taken ++ items'
  accepted-in_order ok t taken items items' added e (inl (a, i)) =
      rw (a, e, i) (append_assoc taken items (t ∷ []))
  accepted-in_order ok t taken items items' added e (inr (a, i)) = rw (a, e, i)

  add_task-Accounts : (p : ThreadPool T) (t : T) → Accounts p → Accounts (add_task p t).1
  unfolding add_task
  add_task-Accounts p t v = elim (push_lem p.tasks t v.bounded) [
    | inl (a, x, r, b, q) ↦ record {
      in_order =
          accepted-in_order _ t p.taken p.tasks.items _ p.added v.in_order
            (inl (a, ap (λ (k : SafeQueue T). k.items) q));
      run_once = v.run_once;
      bounded = b;
    }
    | inr (a, x, q) ↦ record {
      in_order =
          accepted-in_order _ t p.taken p.tasks.items _ p.added v.in_order
            (inr (a, ap (λ (k : SafeQueue T). k.items) q));
      run_once = v.run_once;
      bounded = subst IsBounded (sym q) v.bounded;
    }
  ]

  exit-Accounts : (p : ThreadPool T) → Accounts p → Accounts (exit p)
  unfolding exit
  exit-Accounts p v = record { in_order = v.in_order; run_once = v.run_once; bounded = v.bounded }

  Step-Accounts : {p q : ThreadPool T} → Step p q → Accounts p → Accounts q
  Step-Accounts (work s) v = WorkerStep-Accounts s v
  Step-Accounts (add p t) v = add_task-Accounts p t v
  Step-Accounts (leave p) v = exit-Accounts p v
  Step-Accounts (begin p e) v = start-Accounts p e v

  Reach-Accounts : {p q : ThreadPool T} → Accounts p → Reach p q → Accounts q
  Reach-Accounts v here = v
  Reach-Accounts v (next r s) = Step-Accounts s (Reach-Accounts v r)

  -- Whatever the workers and the clients of a new pool do, in any order, and whether its constructor
  -- starts it or a client does: the accepted tasks are those taken followed by those queued, in the
  -- order in which they were accepted, each taken task is finished or running once, and a queue with a
  -- capacity never exceeds it.
  pub init-Reach-Accounts :
      (threads capacity : ℕ) (starts : Bool) {p : ThreadPool T}
      → Reach (init threads capacity starts) p
      → Accounts p
  init-Reach-Accounts threads capacity starts r =
      Reach-Accounts (init-Accounts threads capacity starts) r
