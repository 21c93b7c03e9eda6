-- ===== src/EventBase/Wake.antt =====
-- eventbase.cc: the tasks that other threads hand to the loop.
use mathlib.Core.Option
use net_library.Base.{
  ℕ, zero, suc, ◌<◌, ◌≡◌, some, List, [], ◌∷◌, ◌++◌, arith, length, append_assoc, append-nil,
}
use net_library.Base.Int.{ℤ}
use net_library.SafeQueue.Laws.{pop_wait_now}
use net_library.EventBase.{EventBase, ok, Call, bytes, drain, handle_wakeup}
use net_library.EventBase.Order.{run_task_inert}

module _ (clock : ℕ → ℤ) (calls : ℕ → List Call) (inert : (task : ℕ) → calls task ≡ []) where
  drain_inert :
      (fuel : ℕ) (s : EventBase) (tasks : List ℕ)
      → length tasks < fuel
      → drain clock calls fuel (record s { tasks = record s.tasks { items = tasks } })
        ≡ some (ok (record s { tasks = record s.tasks { items = [] }; ran = s.ran ++ tasks }))
  unfolding drain Option.bind
  drain_inert zero s tasks h = elim h [ ]
  drain_inert (suc n) s [] h = rw (pop_wait_now (record s.tasks { items = [] }) [], append-nil)
  drain_inert (suc n) s (t ∷ ts) h = rw (
    pop_wait_now (record s.tasks { items = t ∷ ts }) [],
    run_task_inert clock calls inert (record s { tasks = record s.tasks { items = ts } }) t,
    drain_inert n (record s { ran = s.ran ++ t ∷ [] }) ts (omega arith),
    append_assoc,
  )

  -- Where no task makes a call, the wake-up handler that has read a byte runs every queued task,
  -- each once and in the order of the queue, and leaves the queue empty; one more round of fuel than
  -- there are tasks is enough.
  pub handle_wakeup_inert :
      (fuel : ℕ) (s : EventBase)
      → length s.tasks.items < fuel
      → handle_wakeup clock calls fuel s bytes
        ≡ some
            (ok (record s { tasks = record s.tasks { items = [] }; ran = s.ran ++ s.tasks.items }))
  unfolding handle_wakeup
  handle_wakeup_inert fuel s h = drain_inert fuel s s.tasks.items h
