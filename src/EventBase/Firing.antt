-- ===== src/EventBase/Firing.antt =====
-- eventbase.cc: the invariant and the timers that fire.
use mathlib.Core.Option
use net_library.Base.{
  ℕ, zero, suc, ◌+◌, ◌≤◌, ◌≡◌, refl, sym, subst, ◌≢◌, Option, none, some, List, [], ◌∷◌, arith,
  either_branch,
}
use net_library.Base.Int.{ℤ, ◌+ℤ◌}
use net_library.Base.SortedMap
use net_library.Base.SortedMap.{IsStrictOrder, AllEntries, AllEntries-mono}
use net_library.EventBase.{
  EventBase, TimerId, Timer, TimerRepeatable, once, repeats, lt, dangling_timer, end_of_repeats,
  double_delete, Result, ok, fault, ◌>>=◌, Call, run_task, repeatable_timeout, run_timer, and_then,
  fire_first, fire, handle_timeout, limit_of, refresh_nearest, rearmed,
}
use net_library.EventBase.Keys.{lt-IsStrictOrder}
use net_library.EventBase.Safety.{Keeps, do_calls-Keeps}
use net_library.EventBase.Inv.{
  Repeats, IsLinked, Inv, relink, unpointed, refresh_nearest-Inv, later,
}

module _ (clock : ℕ → ℤ) (calls : ℕ → List Call) where
  run_task-Keeps : {s : EventBase} (task : ℕ) → Inv s → Keeps (run_task clock calls s task)
  unfolding run_task
  run_task-Keeps task v = do_calls-Keeps clock (calls task) (record {
    sorted = v.sorted;
    sorted_repeats = v.sorted_repeats;
    numbered = v.numbered;
    numbered_repeats = v.numbered_repeats;
    linked = v.linked;
  })

  rearmed-Inv :
      {s : EventBase} (id : TimerId) (tr : TimerRepeatable)
      → Inv s
      → AllEntries (λ k t. (t ≢ repeats id)) s.timers
      → SortedMap.find lt id s.timer_repeats ≡ some tr
      → Inv (rearmed clock calls s id tr)
  rearmed-Inv {s} id tr v free e = record {
    sorted = SortedMap.put-IsSorted lt lt-IsStrictOrder tid (repeats id) s.timers v.sorted;
    sorted_repeats =
        SortedMap.put-IsSorted lt lt-IsStrictOrder id tr' s.timer_repeats v.sorted_repeats;
    numbered =
        SortedMap.put-AllEntries lt (λ k t. k.second ≤ s.timer_num + 1) tid (repeats id) s.timers
          (omega arith) (later s.timer_num 1 s.timers v.numbered);
    numbered_repeats =
        SortedMap.put-AllEntries lt (λ k t. k.second ≤ s.timer_num + 1) id tr' s.timer_repeats
          (omega (
            arith,
            SortedMap.find-AllEntries lt lt-IsStrictOrder (λ k t. k.second ≤ s.timer_num) id
                s.timer_repeats e v.numbered_repeats,
          ))
          (later s.timer_num 1 s.timer_repeats v.numbered_repeats);
    linked =
        SortedMap.put-AllEntries lt (IsLinked rs') tid (repeats id) s.timers
          (tr', SortedMap.find-put_self lt lt-IsStrictOrder id tr' s.timer_repeats, refl)
          (relink s.timer_repeats rs' id s.timers
            (λ j ne. SortedMap.find-put_ne lt lt-IsStrictOrder j id tr' s.timer_repeats ne) free
            v.linked);
  }
    where
      tid : TimerId
      tid = record { first = tr.at +ℤ tr.interval; second = s.timer_num + 1 }

      tr' : TimerRepeatable
      tr' = record tr { at = tr.at +ℤ tr.interval; tid = tid }

      rs' : Repeats
      rs' = SortedMap.put lt id tr' s.timer_repeats

  repeatable_timeout-Keeps :
      {s : EventBase} (k id : TimerId)
      → Inv s
      → IsLinked s.timer_repeats k (repeats id)
      → AllEntries (λ j (u : Timer). j ≢ k) s.timers
      → Keeps (repeatable_timeout clock calls s id)
  unfolding repeatable_timeout
  repeatable_timeout-Keeps {s} k id v (entry, e, q) ne =
      rw (e, repeatable_timeout)
        (run_task-Keeps entry.task (
          refresh_nearest-Inv clock (
            rearmed-Inv id entry v
              (unpointed s.timer_repeats id entry s.timers e
                (subst (λ i. AllEntries (λ j (u : Timer). j ≢ i) s.timers) (sym q) ne) v.linked)
              e)))

  -- A timer that has been taken out of the map runs, with the pointer of a repeated one valid.
  run_timer-Keeps :
      {s : EventBase} (k : TimerId) (t : Timer)
      → Inv s
      → IsLinked s.timer_repeats k t
      → AllEntries (λ j (u : Timer). j ≢ k) s.timers
      → Keeps (run_timer clock calls s t)
  unfolding run_timer
  run_timer-Keeps k (once task) v l ne = run_task-Keeps task v
  run_timer-Keeps k (repeats id) v l ne = repeatable_timeout-Keeps k id v l ne

  -- What is left when the first timer is taken out.
  tail-Inv :
      {s : EventBase} (k : TimerId) (t : Timer) (m : List (TimerId × Timer))
      → s.timers ≡ (k, t) ∷ m
      → Inv s
      → Inv (record s { timers = m })
        × IsLinked s.timer_repeats k t
        × AllEntries (λ j (u : Timer). j ≢ k) m
  tail-Inv {s} k t m e v =
      let sorted = subst (SortedMap.IsSorted lt) e v.sorted in
      let numbered = subst (AllEntries (λ j (u : Timer). j.second ≤ s.timer_num)) e v.numbered in
      let linked = subst (AllEntries (IsLinked s.timer_repeats)) e v.linked in
      (
        record {
          sorted = sorted.1;
          sorted_repeats = v.sorted_repeats;
          numbered = numbered.1;
          numbered_repeats = v.numbered_repeats;
          linked = linked.1;
        },
        linked.0,
        SortedMap.AllAbove-ne lt lt-IsStrictOrder k m sorted.0,
      )

  abbrev pub MaybeKeeps : Option (Result EventBase) → Type 0
  MaybeKeeps none = Unit
  MaybeKeeps (some r) = Keeps r

  and_then-Keeps :
      (rest : EventBase → Option (Result EventBase)) (r : Result EventBase)
      → ((s : EventBase) → Inv s → MaybeKeeps (rest s))
      → Keeps r
      → MaybeKeeps (and_then clock calls rest r)
  and_then-Keeps rest (ok s) h k = h s k
  and_then-Keeps rest (fault dangling_timer) h k = k
  and_then-Keeps rest (fault end_of_repeats) h k = k
  and_then-Keeps rest (fault double_delete) h k = k

  fire_first-Keeps :
      (rest : EventBase → Option (Result EventBase)) {s : EventBase} (limit : TimerId)
      → ((s' : EventBase) → Inv s' → MaybeKeeps (rest s'))
      → Inv s
      → (m : List (TimerId × Timer)) → s.timers ≡ m
      → MaybeKeeps (fire_first clock calls rest s limit m)
  fire_first-Keeps rest limit h v [] e = v
  fire_first-Keeps rest {s} limit h v ((k, t) ∷ m) e =
      let w = tail-Inv k t m e v in
      either_branch MaybeKeeps (lt k limit)
        (and_then-Keeps rest (run_timer clock calls (record s { timers = m }) t) h
          (run_timer-Keeps k t w.0 w.1 w.2))
        v

  fire-Keeps :
      (fuel : ℕ) {s : EventBase} (limit : TimerId)
      → Inv s
      → MaybeKeeps (fire clock calls fuel s limit)
  unfolding fire
  fire-Keeps zero limit v = tt
  fire-Keeps (suc n) {s} limit v =
      fire_first-Keeps (λ s'. fire clock calls n s' limit) limit (λ s' w. fire-Keeps n limit w) v
        s.timers refl

  refreshed-Keeps :
      (o : Option (Result EventBase))
      → MaybeKeeps o
      → MaybeKeeps (Option.map (λ r. r >>= λ s'. ok (refresh_nearest clock s')) o)
  refreshed-Keeps none h = tt
  refreshed-Keeps (some (ok s)) h = refresh_nearest-Inv clock h
  refreshed-Keeps (some (fault dangling_timer)) h = h
  refreshed-Keeps (some (fault end_of_repeats)) h = h
  refreshed-Keeps (some (fault double_delete)) h = h

  -- Whatever calls the tasks make, `handleTimeout` from a state with the invariant never follows a
  -- dangling pointer to a repeated timer: where it ends, it has kept the invariant, or a task has
  -- cancelled a repeated timer that was not there.
  pub handle_timeout-Keeps :
      (fuel : ℕ) {s : EventBase} → Inv s → MaybeKeeps (handle_timeout clock calls fuel s)
  unfolding handle_timeout
  handle_timeout-Keeps fuel {s} v =
      refreshed-Keeps
        (fire clock calls fuel (record s { reads = s.reads + 1 })
          (limit_of clock calls (clock s.reads)))
        (fire-Keeps fuel {s = record s { reads = s.reads + 1 }}
          (limit_of clock calls (clock s.reads))
          (record {
            sorted = v.sorted;
            sorted_repeats = v.sorted_repeats;
            numbered = v.numbered;
            numbered_repeats = v.numbered_repeats;
            linked = v.linked;
          }))
