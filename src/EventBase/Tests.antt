-- ===== src/EventBase/Tests.antt =====
-- Runs of the timers, and their theorems at such runs.
use mathlib.Core.Option
use net_library.Base.{ℕ, ◌+◌, ◌≡◌, ◌≢◌, refl, true, false, some, none, List, [], ◌∷◌, ◌++◌, arith}
use net_library.Base.Int.{ℤ, pos, negsuc, to_int, ◌≤ℤ◌}
use net_library.Base.SortedMap
use net_library.Base.SortedMap.{AllEntries}
use net_library.EventBase.{
  EventBase, TimerId, TimerRepeatable, once, repeats, lt, init, ok, Call, run_at, cancel, do_cancel,
  do_run_at, do_calls, handle_timeout, refresh_nearest, bytes, handle_wakeup,
}
use net_library.EventBase.Inv.{Inv}
use net_library.EventBase.Safety.{Keeps, init-do_calls-Keeps}
use net_library.EventBase.Firing.{MaybeKeeps, handle_timeout-Keeps}
use net_library.EventBase.Order.{due_tasks, not_due, handle_timeout_once}
use net_library.EventBase.Cancel.{cancel_repeat, cancel-run_at_past}
use net_library.EventBase.Wake.{handle_wakeup_inert}
use net_library.EventBase.Wait.{EndsBy, refresh_nearest_bounds}

-- A clock that has come to 120, and tasks of which task 4 cancels the repeated timer.
abbrev clock : ℕ → ℤ
clock n = pos 120

abbrev repeat_id : TimerId
repeat_id = record { first = negsuc 119; second = 1 }

abbrev pending_id : TimerId
pending_id = record { first = pos 120; second = 2 }

abbrev single_id : TimerId
single_id = record { first = pos 200; second = 4 }

abbrev entry : TimerRepeatable
entry = record { at = pos 120; interval = pos 10; tid = pending_id; task = 9 }

-- `runAt(120, task 9, 10)`, and single tasks at 100 and 200.
abbrev armed : EventBase
armed = record (init 0) {
  timer_num = 4;
  timers =
      (record { first = pos 100; second = 3 }, once 5)
      ∷ (pending_id, repeats repeat_id)
      ∷ (record { first = pos 200; second = 4 }, once 6)
      ∷ [];
  timer_repeats = (repeat_id, entry) ∷ [];
}

armed-Inv : Inv armed
unfolding lt SortedMap.find
armed-Inv = record {
  sorted = ((refl, (refl, tt)), ((refl, tt), (tt, tt)));
  sorted_repeats = (tt, tt);
  numbered = omega arith;
  numbered_repeats = omega arith;
  linked = (tt, ((entry, refl, refl), (tt, tt)));
}

abbrev calls : ℕ → List Call
calls n = []

abbrev singles : EventBase
singles = record (init 0) {
  timer_num = 4;
  timers =
      (record { first = pos 100; second = 3 }, once 5)
      ∷ (record { first = pos 200; second = 4 }, once 6)
      ∷ [];
}

abbrev later : EventBase
later = record (init 0) { timer_num = 4; timers = (single_id, once 6) ∷ [] }

-- Task 5 at 100, then task 9 at 120; task 6 is not due.
fires :
    Option.map (λ r. elim r [ ok s ↦ s.ran | _ ↦ [] ]) (handle_timeout clock calls 4 armed)
    ≡ some (5 ∷ 9 ∷ [])
unfolding handle_timeout SortedMap.find SortedMap.put lt to_int
fires = refl

handle_timeout-Keeps_example : MaybeKeeps clock calls (handle_timeout clock calls 4 armed)
handle_timeout-Keeps_example = handle_timeout-Keeps clock calls 4 armed-Inv

handle_timeout_once_example :
    handle_timeout clock calls 3 singles
    ≡ some (
        ok (
          refresh_nearest clock (record singles {
            timers = not_due (pos 120) singles.timers;
            ran = [] ++ due_tasks (pos 120) singles.timers;
            reads = 0 + 1;
          })))
unfolding lt
handle_timeout_once_example =
    handle_timeout_once clock calls (λ task. refl) 3 singles ((refl, tt), (tt, tt)) tt
      (omega arith, (omega arith, tt)) (omega arith)

init-do_calls-Keeps_example :
    Keeps (do_calls clock (init 0) (run_at (pos 120) 9 (pos 10) ∷ cancel repeat_id ∷ []))
init-do_calls-Keeps_example =
    init-do_calls-Keeps clock 0 (run_at (pos 120) 9 (pos 10) ∷ cancel repeat_id ∷ [])

cancel_repeat_example :
    (s' : EventBase) × (do_cancel armed repeat_id ≡ ok (s', true))
    × (SortedMap.find lt repeat_id s'.timer_repeats ≡ none)
    × AllEntries (λ (k : TimerId) t. (t ≢ repeats repeat_id)) s'.timers
    × (SortedMap.find lt single_id s'.timers ≡ SortedMap.find lt single_id armed.timers)
    × (SortedMap.find lt single_id s'.timer_repeats
        ≡ SortedMap.find lt single_id armed.timer_repeats)
unfolding lt SortedMap.find
cancel_repeat_example =
    cancel_repeat repeat_id entry single_id single_id armed-Inv refl refl (λ e. cc) (λ e. cc)

cancel-run_at_past_example :
    let (s', id) = do_run_at clock armed (pos 0) 7 (pos 10) in do_cancel s' id ≡ ok (s', false)
cancel-run_at_past_example = cancel-run_at_past clock (pos 0) 7 (pos 10) armed-Inv refl refl refl

refresh_nearest_bounds_example :
    (pos 0 ≤ℤ (refresh_nearest clock later).next_timeout)
    × EndsBy (pos 200) (pos 120) (refresh_nearest clock later).next_timeout
refresh_nearest_bounds_example = refresh_nearest_bounds clock later single_id (once 6) [] refl

abbrev handed : EventBase
handed = record (init 0) { tasks = record { items = 4 ∷ 5 ∷ []; capacity = 0; exited = false } }

handle_wakeup_inert_example :
    handle_wakeup clock calls 3 handed bytes
    ≡ some
        (ok (record handed { tasks = record handed.tasks { items = [] }; ran = [] ++ 4 ∷ 5 ∷ [] }))
handle_wakeup_inert_example = handle_wakeup_inert clock calls (λ task. refl) 3 handed (omega arith)
