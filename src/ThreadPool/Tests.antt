-- ===== src/ThreadPool/Tests.antt =====
-- A run of a pool of one worker, and the theorems of the pool at that run.
use net_library.Base.{ℕ, ◌≡◌, ◌⊎◌, refl, true, false, [], ◌∷◌, ◌≤◌, ◌*◌, length}
use net_library.ThreadPool.{
  testing, waiting, running, stopped, stop, leave, destroy, reports, ThreadPool, init, start,
  add_task, exit, Reach, here, next, work, add, WorkerStep, go_on, take, finish, task_size,
}
use mathlib.Core.List.{Perm}
use net_library.ThreadPool.Destroy.{destroy-report}
use net_library.ThreadPool.Tasks.{Accounts, init-Reach-Accounts}
use net_library.ThreadPool.Join.{none_yet, one_more, AllStopped, exited-Run}

abbrev new_pool : ThreadPool ℕ
new_pool = init 1 2 true

-- The worker waits, a client adds the task 7, the worker takes it, and a client calls `exit`.
abbrev waits : ThreadPool ℕ
waits = record new_pool { threads = waiting ∷ [] }

abbrev loaded : ThreadPool ℕ
loaded = record waits { tasks = record waits.tasks { items = 7 ∷ [] }; added = 7 ∷ [] }

abbrev busy : ThreadPool ℕ
busy = record {
  tasks = record loaded.tasks { items = [] };
  threads = running 7 ∷ [];
  unstarted = 0;
  added = 7 ∷ [];
  taken = 7 ∷ [];
  finished = [];
}

-- A pool that its constructor has not started, and a client starts.
start_late : start {T = ℕ} (init 1 2 false) ≡ init 1 2 true
start_late = refl

add_task_runs : add_task waits 7 ≡ (true, loaded)
unfolding add_task
add_task_runs = refl

task_size-loaded : task_size loaded ≡ 1
unfolding task_size
task_size-loaded = refl

busy_reached : Reach new_pool busy
unfolding add_task
busy_reached =
    next (next (next here (work (go_on new_pool [] [] refl refl))) (add waits 7))
      (work (take loaded [] [] 7 [] refl refl))

init-Reach-Accounts_example : Accounts busy
init-Reach-Accounts_example = init-Reach-Accounts 1 2 true busy_reached

abbrev leaving : ThreadPool ℕ
leaving = record busy { tasks = record busy.tasks { exited = true } }

exit_runs : exit busy ≡ leaving
unfolding exit
exit_runs = refl

abbrev done : ThreadPool ℕ
done = record leaving { threads = testing ∷ []; finished = 7 ∷ [] }

exited-Run_example :
    (1 ≤ 3 * length leaving.threads)
    × (AllStopped done.threads ⊎ ((r : ThreadPool ℕ) × WorkerStep done r))
exited-Run_example = exited-Run {p = leaving} refl (one_more none_yet (finish leaving [] [] 7 refl))

-- A second task is accepted while the worker runs the first one, and is left when it stops.
abbrev ended : ThreadPool ℕ
ended = record {
  tasks = record new_pool.tasks { items = 8 ∷ []; exited = true };
  threads = stopped ∷ [];
  unstarted = 0;
  added = 7 ∷ 8 ∷ [];
  taken = 7 ∷ [];
  finished = 7 ∷ [];
}

ended_reached : Reach new_pool ended
unfolding add_task exit
ended_reached =
    next
      (next (next (next busy_reached (add busy 8)) (leave (add_task busy 8).1))
        (work (finish (exit (add_task busy 8).1) [] [] 7 refl)))
      (work (
        stop (record (exit (add_task busy 8).1) { threads = testing ∷ []; finished = 7 ∷ [] }) [] []
          refl refl))

destroy-report_example : (destroy ended ≡ reports 1) × Perm {A = ℕ} (7 ∷ 8 ∷ []) (7 ∷ 8 ∷ [])
destroy-report_example = destroy-report 1 2 true {p = ended} ended_reached refl (refl, tt)
