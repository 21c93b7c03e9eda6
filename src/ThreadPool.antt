-- ===== src/ThreadPool.antt =====
-- thread.h, thread.cc: ThreadPool, worker threads that take tasks from one SafeQueue.
--
-- The threads interleave: a step is one action of one worker, or a call of a client. A worker runs
-- the loop of `start`: it tests `exited()`, waits in `pop_wait`, and runs the task. Its wait ends
-- only as SafeQueue/Laws says an untimed wait does. `added`, `taken` and `finished` record the
-- tasks that `addTask` accepted, that the workers took and that they ran to the end.
pub mod Tasks
pub mod Join
pub mod Destroy
mod Tests
use net_library.Base.{
  ℕ, zero, suc, ◌≡◌, ◌==◌, if◌then◌else◌, Bool, true, false, List, [], ◌∷◌, ◌++◌,
}
use net_library.SafeQueue
use net_library.SafeQueue.{SafeQueue}

-- Where a worker stands in the loop `while(!exited()) { if(pop_wait(&task)) task(); }`.
pub data Worker {ℓ} (T : Type ℓ) : Type ℓ where
  testing waiting stopped : Worker T
  running : T → Worker T

pub record ThreadPool {ℓ} (T : Type ℓ) : Type ℓ where
  pub tasks : SafeQueue T
  pub threads : List (Worker T)
  -- The threads for which `start` has not been called.
  pub unstarted : ℕ
  pub added : List T
  pub taken : List T
  pub finished : List T

-- How the destructor ends.
pub data Destroyed : Type 0 where
  asserts silent : Destroyed
  reports : ℕ → Destroyed

module _ {ℓ} {T : Type ℓ} where
  -- Each thread starts at the test of the loop.
  abbrev pub workers : ℕ → List (Worker T)
  workers zero = []
  workers (suc n) = testing ∷ workers n

  -- start()
  abbrev pub start : ThreadPool T → ThreadPool T
  start p = record p { threads = p.threads ++ workers p.unstarted; unstarted = 0 }

  -- ThreadPool(int threads, int taskCapacity, bool start = true)
  abbrev pub init : ℕ → ℕ → Bool → ThreadPool T
  init threads capacity starts =
      let p : ThreadPool T = record {
        tasks = SafeQueue.init capacity;
        threads = [];
        unstarted = threads;
        added = [];
        taken = [];
        finished = [];
      } in
      if starts then start p else p

  -- What the clients have had accepted.
  abbrev pub accepted : Bool → T → List T → List T
  accepted true t ts = ts ++ t ∷ []
  accepted false t ts = ts

  pub add_task : ThreadPool T → T → Bool × ThreadPool T
  unfolding SafeQueue.push
  add_task p t =
      let (ok, q) = SafeQueue.push p.tasks t in
      (ok, record p { tasks = q; added = accepted ok t p.added })

  pub exit : ThreadPool T → ThreadPool T
  unfolding SafeQueue.exit
  exit p = record p { tasks = SafeQueue.exit p.tasks }

  pub task_size : ThreadPool T → ℕ
  unfolding SafeQueue.size
  task_size p = SafeQueue.size p.tasks

  -- ~ThreadPool(): it asserts that the pool has exited, and prints the number of the tasks that are left,
  -- if there are any.
  pub destroy : ThreadPool T → Destroyed
  unfolding SafeQueue.size
  destroy p =
      if p.tasks.exited
      then (if SafeQueue.size p.tasks == 0 then silent else reports (SafeQueue.size p.tasks))
      else asserts

  -- A worker is the one between `before` and `after` in the list of threads.
  pub data WorkerStep : ThreadPool T → ThreadPool T → Type ℓ where
    go_on :
        (p : ThreadPool T) (before after : List (Worker T))
        → p.threads ≡ before ++ testing ∷ after
        → p.tasks.exited ≡ false
        → WorkerStep p (record p { threads = before ++ waiting ∷ after })
    stop :
        (p : ThreadPool T) (before after : List (Worker T))
        → p.threads ≡ before ++ testing ∷ after
        → p.tasks.exited ≡ true
        → WorkerStep p (record p { threads = before ++ stopped ∷ after })
    take :
        (p : ThreadPool T) (before after : List (Worker T)) (t : T) (rest : List T)
        → p.threads ≡ before ++ waiting ∷ after
        → p.tasks.items ≡ t ∷ rest
        → WorkerStep p (record p {
          tasks = record p.tasks { items = rest };
          threads = before ++ running t ∷ after;
          taken = p.taken ++ t ∷ [];
        })
    find_none :
        (p : ThreadPool T) (before after : List (Worker T))
        → p.threads ≡ before ++ waiting ∷ after
        → p.tasks.items ≡ []
        → p.tasks.exited ≡ true
        → WorkerStep p (record p { threads = before ++ testing ∷ after })
    finish :
        (p : ThreadPool T) (before after : List (Worker T)) (t : T)
        → p.threads ≡ before ++ running t ∷ after
        → WorkerStep p
            (record p { threads = before ++ testing ∷ after; finished = p.finished ++ t ∷ [] })

  pub data Step : ThreadPool T → ThreadPool T → Type ℓ where
    work : {p q : ThreadPool T} → WorkerStep p q → Step p q
    add : (p : ThreadPool T) (t : T) → Step p (add_task p t).1
    leave : (p : ThreadPool T) → Step p (exit p)
    -- A second call would end the program, since the threads have not been joined.
    begin : (p : ThreadPool T) → p.threads ≡ [] → Step p (start p)

  pub data Reach (p : ThreadPool T) : ThreadPool T → Type ℓ where
    here : Reach p p
    next : {q r : ThreadPool T} → Reach p q → Step q r → Reach p r
