-- ===== src/EventBase/Cancel.antt =====
-- eventbase.cc: `cancel`, and the timers that `runAt` adds.
use net_library.Base.{
  ℕ, ◌+◌, ◌≡◌, ◌⊎◌, subst, refl, ap, sym, ◌∙◌, ◌≢◌, true, false, none, some, arith, Option-cases,
  inl, inr,
}
use net_library.Base.Int.{ℤ, neg, is_neg}
use net_library.Base.SortedMap
use net_library.Base.SortedMap.{AllEntries}
use net_library.EventBase.{
  EventBase, TimerId, Timer, TimerRepeatable, repeats, lt, ok, do_cancel, do_run_at,
  refresh_nearest, add_repeat, is_zero,
}
use net_library.EventBase.Keys.{lt-IsStrictOrder}
use net_library.EventBase.Inv.{Inv, IsLinked, find_fresh, unpointed}

-- `cancel` of the id of a repeated timer returns true, removes its entry and its pending timer, and
-- leaves every other entry and every other timer; no timer is left that points to the entry.
pub cancel_repeat :
    {s : EventBase} (id : TimerId) (tr : TimerRepeatable) (j k : TimerId)
    → Inv s
    → is_neg id.first ≡ true
    → SortedMap.find lt id s.timer_repeats ≡ some tr
    → j ≢ tr.tid
    → k ≢ id
    → (s' : EventBase) × (do_cancel s id ≡ ok (s', true))
      × (SortedMap.find lt id s'.timer_repeats ≡ none)
      × AllEntries (λ k t. (t ≢ repeats id)) s'.timers
      × (SortedMap.find lt j s'.timers ≡ SortedMap.find lt j s.timers)
      × (SortedMap.find lt k s'.timer_repeats ≡ SortedMap.find lt k s.timer_repeats)
unfolding do_cancel
cancel_repeat {s} id tr j k v n e jne kne = (
  record s {
    timers = SortedMap.erase lt tr.tid s.timers;
    timer_repeats = SortedMap.erase lt id s.timer_repeats;
  },
  rw (n, do_cancel) (rw e),
  SortedMap.find-erase_self lt lt-IsStrictOrder id s.timer_repeats v.sorted_repeats,
  unpointed s.timer_repeats id tr (SortedMap.erase lt tr.tid s.timers) e
      (SortedMap.erase_ne lt lt-IsStrictOrder tr.tid s.timers v.sorted)
      (SortedMap.erase-AllEntries lt (IsLinked s.timer_repeats) tr.tid s.timers v.linked),
  SortedMap.find-erase_ne lt lt-IsStrictOrder j tr.tid s.timers jne v.sorted,
  SortedMap.find-erase_ne lt lt-IsStrictOrder k id s.timer_repeats kne v.sorted_repeats,
)

-- `cancel` of an id with a time of 0 or more returns true exactly where a timer has that id, then
-- removes that timer alone, and else changes nothing.
pub cancel_once :
    {s : EventBase} (id j : TimerId)
    → Inv s
    → is_neg id.first ≡ false
    → j ≢ id
    → ((SortedMap.find lt id s.timers ≡ none) × (do_cancel s id ≡ ok (s, false)))
      ⊎ ((t : Timer) × (s' : EventBase) × (SortedMap.find lt id s.timers ≡ some t)
          × (do_cancel s id ≡ ok (s', true))
          × (SortedMap.find lt id s'.timers ≡ none)
          × (SortedMap.find lt j s'.timers ≡ SortedMap.find lt j s.timers)
          × (s'.timer_repeats ≡ s.timer_repeats))
unfolding do_cancel
cancel_once {s} id j v n ne = elim (Option-cases (SortedMap.find lt id s.timers)) [
  | inl e ↦ inl (e, rw (n, do_cancel) (rw e))
  | inr (t, e) ↦ inr (
    t,
    record s { timers = SortedMap.erase lt id s.timers },
    e,
    rw (n, do_cancel) (rw e),
    SortedMap.find-erase_self lt lt-IsStrictOrder id s.timers v.sorted,
    SortedMap.find-erase_ne lt lt-IsStrictOrder j id s.timers ne v.sorted,
    refl,
  )
]

do_cancel_missing :
    (s : EventBase) (id : TimerId)
    → is_neg id.first ≡ false
    → SortedMap.find lt id s.timers ≡ none
    → do_cancel s id ≡ ok (s, false)
unfolding do_cancel
do_cancel_missing s id n e = rw (n, do_cancel) (rw e)

do_run_at_repeat :
    (clock : ℕ → ℤ) (s : EventBase) (wait_us : ℤ) (task : ℕ) (interval : ℤ)
    → s.exited ≡ false
    → is_zero interval ≡ false
    → do_run_at clock s wait_us task interval ≡ (
      refresh_nearest clock (add_repeat clock s wait_us task interval),
      record { first = neg wait_us; second = s.timer_num + 1 },
    )
unfolding do_run_at
do_run_at_repeat clock s wait_us task interval x z = simp (x, z)

-- The id that `runAt` returns for a repeated timer whose first time is 0 or less does not lead
-- `cancel` to it: `cancel` returns false and changes nothing, so the timer goes on for ever.
pub cancel-run_at_past :
    (clock : ℕ → ℤ) {s : EventBase} (wait_us : ℤ) (task : ℕ) (interval : ℤ)
    → Inv s
    → s.exited ≡ false
    → is_zero interval ≡ false
    → is_neg (neg wait_us) ≡ false
    → let (s', id) = do_run_at clock s wait_us task interval in do_cancel s' id ≡ ok (s', false)
unfolding refresh_nearest
cancel-run_at_past clock {s} wait_us task interval v x z n =
    subst (λ (r : EventBase × TimerId). do_cancel r.0 r.1 ≡ ok (r.0, false))
      (sym (do_run_at_repeat clock s wait_us task interval x z))
      (do_cancel_missing (refresh_nearest clock (add_repeat clock s wait_us task interval)) tid n (
        SortedMap.find-put_ne lt lt-IsStrictOrder tid first (repeats tid) s.timers
          (λ e. absurd (omega (arith, ap (λ (i : TimerId). i.second) e)))
        ∙ find_fresh tid s.timer_num s.timers v.numbered (omega arith)))
  where
    tid : TimerId
    tid = record { first = neg wait_us; second = s.timer_num + 1 }

    first : TimerId
    first = record { first = wait_us; second = s.timer_num + 2 }
