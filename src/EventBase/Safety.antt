-- ===== src/EventBase/Safety.antt =====
-- eventbase.cc: the invariant and the calls of a client.
use net_library.Base.{
  ℕ, ◌+◌, ◌≤◌, refl, ◌≢◌, List, [], ◌∷◌, arith, Option-cases, Bool-cases, inl, inr, either_branch,
}
use net_library.Base.Int.{ℤ, is_neg, neg}
use net_library.Base.SortedMap
use net_library.Base.SortedMap.{IsStrictOrder, AllEntries, AllEntries-mono}
use net_library.EventBase.{
  EventBase, TimerId, TimerRepeatable, once, repeats, lt, init, dangling_timer, end_of_repeats,
  double_delete, Result, ok, fault, ◌>>=◌, Call, run_at, cancel, exit, safe_call, do_exit,
  do_safe_call, do_cancel, do_run_at, do_call, do_calls, add_once, add_repeat, is_zero,
}
use net_library.EventBase.Keys.{lt-IsStrictOrder}
use net_library.EventBase.Inv.{
  Repeats, IsLinked, Inv, init-Inv, find_fresh, relink, unpointed, unpointed_fresh,
  refresh_nearest-Inv, later,
}

-- A call that returns keeps the invariant, and none follows a dangling pointer to a timer. Only
-- `cancel` of a repeated timer that is not there faults.
abbrev pub Keeps : Result EventBase → Type 0
Keeps (ok s) = Inv s
Keeps (fault dangling_timer) = ⊥
Keeps (fault end_of_repeats) = Unit
Keeps (fault double_delete) = ⊥

add_once-Inv :
    (clock : ℕ → ℤ) {s : EventBase} (wait_us : ℤ) (task : ℕ)
    → Inv s
    → Inv (add_once clock s wait_us task)
add_once-Inv clock {s} wait_us task v = record {
  sorted = SortedMap.insert-IsSorted lt lt-IsStrictOrder tid (once task) s.timers v.sorted;
  sorted_repeats = v.sorted_repeats;
  numbered =
      SortedMap.insert-AllEntries lt (λ k t. k.second ≤ s.timer_num + 1) tid (once task) s.timers
        (omega arith) (later s.timer_num 1 s.timers v.numbered);
  numbered_repeats = later s.timer_num 1 s.timer_repeats v.numbered_repeats;
  linked =
      SortedMap.insert-AllEntries lt (IsLinked s.timer_repeats) tid (once task) s.timers tt
        v.linked;
}
  where
    tid : TimerId
    tid = record { first = wait_us; second = s.timer_num + 1 }

-- A new entry for a repeated timer, and the timer that points to it.
add_repeat-Inv :
    (clock : ℕ → ℤ) {s : EventBase} (wait_us : ℤ) (task : ℕ) (interval : ℤ)
    → Inv s
    → Inv (add_repeat clock s wait_us task interval)
add_repeat-Inv clock {s} wait_us task interval v = record {
  sorted = SortedMap.put-IsSorted lt lt-IsStrictOrder first (repeats tid) s.timers v.sorted;
  sorted_repeats =
      SortedMap.put-IsSorted lt lt-IsStrictOrder tid tr s.timer_repeats v.sorted_repeats;
  numbered =
      SortedMap.put-AllEntries lt (λ k t. k.second ≤ s.timer_num + 2) first (repeats tid) s.timers
        (omega arith) (later s.timer_num 2 s.timers v.numbered);
  numbered_repeats =
      SortedMap.put-AllEntries lt (λ k t. k.second ≤ s.timer_num + 2) tid tr s.timer_repeats
        (omega arith) (later s.timer_num 2 s.timer_repeats v.numbered_repeats);
  linked =
      SortedMap.put-AllEntries lt (IsLinked rs') first (repeats tid) s.timers
        (tr, SortedMap.find-put_self lt lt-IsStrictOrder tid tr s.timer_repeats, refl)
        (relink s.timer_repeats rs' tid s.timers
          (λ j ne. SortedMap.find-put_ne lt lt-IsStrictOrder j tid tr s.timer_repeats ne)
          (unpointed_fresh s.timer_repeats tid s.timers
            (find_fresh tid s.timer_num s.timer_repeats v.numbered_repeats (omega arith)) v.linked)
          v.linked);
}
  where
    tid : TimerId
    tid = record { first = neg wait_us; second = s.timer_num + 1 }

    first : TimerId
    first = record { first = wait_us; second = s.timer_num + 2 }

    tr : TimerRepeatable
    tr = record { at = wait_us; interval = interval; tid = first; task = task }

    rs' : Repeats
    rs' = SortedMap.put lt tid tr s.timer_repeats

do_run_at-Inv :
    (clock : ℕ → ℤ) {s : EventBase} (wait_us : ℤ) (task : ℕ) (interval : ℤ)
    → Inv s
    → Inv (do_run_at clock s wait_us task interval).0
unfolding do_run_at
do_run_at-Inv clock {s} wait_us task interval v =
    either_branch (λ (r : EventBase × TimerId). Inv r.0) s.exited v
      (either_branch (λ (r : EventBase × TimerId). Inv r.0) (is_zero interval)
        (refresh_nearest-Inv clock (add_once-Inv clock wait_us task v))
        (refresh_nearest-Inv clock (add_repeat-Inv clock wait_us task interval v)))

erase-Inv :
    {s : EventBase} (id : TimerId)
    → Inv s
    → Inv (record s { timers = SortedMap.erase lt id s.timers })
erase-Inv {s} id v = record {
  sorted = SortedMap.erase-IsSorted lt id s.timers v.sorted;
  sorted_repeats = v.sorted_repeats;
  numbered = SortedMap.erase-AllEntries lt (λ k t. k.second ≤ s.timer_num) id s.timers v.numbered;
  numbered_repeats = v.numbered_repeats;
  linked = SortedMap.erase-AllEntries lt (IsLinked s.timer_repeats) id s.timers v.linked;
}

-- Without the entry `tr` at `id`, where no timer is left that points to it.
drop_repeat-Inv :
    {s : EventBase} (id : TimerId)
    → Inv s
    → AllEntries (λ k t. (t ≢ repeats id)) s.timers
    → Inv (record s { timer_repeats = SortedMap.erase lt id s.timer_repeats })
drop_repeat-Inv {s} id v free = record {
  sorted = v.sorted;
  sorted_repeats = SortedMap.erase-IsSorted lt id s.timer_repeats v.sorted_repeats;
  numbered = v.numbered;
  numbered_repeats =
      SortedMap.erase-AllEntries lt (λ k t. k.second ≤ s.timer_num) id s.timer_repeats
        v.numbered_repeats;
  linked =
      relink s.timer_repeats (SortedMap.erase lt id s.timer_repeats) id s.timers
        (λ j ne.
          SortedMap.find-erase_ne lt lt-IsStrictOrder j id s.timer_repeats ne v.sorted_repeats)
        free v.linked;
}

cancel-Keeps : {s : EventBase} (id : TimerId) → Inv s → Keeps (do_cancel s id >>= λ r. ok r.0)
unfolding do_cancel
cancel-Keeps {s} id v = elim (Bool-cases (is_neg id.first)) [
  | inl n ↦ rw n (elim (Option-cases (SortedMap.find lt id s.timer_repeats)) [
    | inl e ↦ rw e tt
    | inr (tr, e) ↦
        let w = erase-Inv tr.tid v in
        rw e (
          drop_repeat-Inv id w (
            unpointed s.timer_repeats id tr (SortedMap.erase lt tr.tid s.timers) e
              (SortedMap.erase_ne lt lt-IsStrictOrder tr.tid s.timers v.sorted) w.linked))
  ])
  | inr n ↦ rw n (elim (Option-cases (SortedMap.find lt id s.timers)) [
    | inl e ↦ rw e v
    | inr (t, e) ↦ rw e (erase-Inv id v)
  ])
]

-- `wakeup`, `exit` and `safeCall` leave the timers alone.
do_exit-Inv : {s : EventBase} → Inv s → Inv (do_exit s)
unfolding do_exit
do_exit-Inv v = record {
  sorted = v.sorted;
  sorted_repeats = v.sorted_repeats;
  numbered = v.numbered;
  numbered_repeats = v.numbered_repeats;
  linked = v.linked;
}

do_safe_call-Inv : {s : EventBase} (task : ℕ) → Inv s → Inv (do_safe_call s task)
unfolding do_safe_call
do_safe_call-Inv task v = record {
  sorted = v.sorted;
  sorted_repeats = v.sorted_repeats;
  numbered = v.numbered;
  numbered_repeats = v.numbered_repeats;
  linked = v.linked;
}

do_call-Keeps : (clock : ℕ → ℤ) {s : EventBase} (c : Call) → Inv s → Keeps (do_call clock s c)
unfolding do_call
do_call-Keeps clock (run_at wait_us task interval) v = do_run_at-Inv clock wait_us task interval v
do_call-Keeps clock (cancel id) v = cancel-Keeps id v
do_call-Keeps clock exit v = do_exit-Inv v
do_call-Keeps clock (safe_call task) v = do_safe_call-Inv task v

>>=-Keeps :
    (r : Result EventBase) (f : EventBase → Result EventBase)
    → Keeps r
    → ((s : EventBase) → Inv s → Keeps (f s))
    → Keeps (r >>= f)
>>=-Keeps (ok s) f h k = k s h
>>=-Keeps (fault dangling_timer) f h k = h
>>=-Keeps (fault end_of_repeats) f h k = h
>>=-Keeps (fault double_delete) f h k = h

pub do_calls-Keeps :
    (clock : ℕ → ℤ) {s : EventBase} (cs : List Call) → Inv s → Keeps (do_calls clock s cs)
unfolding do_calls
do_calls-Keeps clock [] v = v
do_calls-Keeps clock {s} (c ∷ cs) v =
    >>=-Keeps (do_call clock s c) (λ s'. do_calls clock s' cs) (do_call-Keeps clock c v)
      (λ s' w. do_calls-Keeps clock cs w)

-- A client that makes any calls on a new event base keeps the invariant, or has cancelled a
-- repeated timer that was not there.
pub init-do_calls-Keeps :
    (clock : ℕ → ℤ) (capacity : ℕ) (cs : List Call) → Keeps (do_calls clock (init capacity) cs)
init-do_calls-Keeps clock capacity cs = do_calls-Keeps clock cs (init-Inv capacity)
