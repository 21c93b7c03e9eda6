-- ===== src/EventBase/Order.antt =====
-- eventbase.cc: what `handleTimeout` runs, and in which order.
use net_library.Base.{
  ℕ, zero, suc, ◌+◌, ◌<◌, ◌^◌, Bool, true, not, ◌≡◌, refl, ap, sym, ◌∙◌, false, some, List, [], ◌∷◌,
  ◌++◌, arith, Bool-cases, inl, inr, length, if◌then◌else◌, append_assoc, append-nil,
}
use net_library.Base.Int.{ℤ, ltb_ℤ}
use mathlib.Core.Bool.{false≢true}
use net_library.Base.SortedMap
use net_library.Base.SortedMap.{AllEntries}
use net_library.EventBase.{
  EventBase, TimerId, Timer, once, repeats, lt, ok, Call, run_task, run_timer, fire, handle_timeout,
  refresh_nearest, do_calls,
}

-- Its time has come.
abbrev pub is_due : ℤ → TimerId → Bool
is_due now k = not (ltb_ℤ now k.first)

-- The tasks of the timers that are due at a time, in the order of their keys, and the other timers.
abbrev pub due_tasks : ℤ → List (TimerId × Timer) → List ℕ
due_tasks now [] = []
due_tasks now ((k, once task) ∷ m) =
    if is_due now k then task ∷ due_tasks now m else due_tasks now m
due_tasks now ((k, repeats id) ∷ m) = due_tasks now m

abbrev pub not_due : ℤ → List (TimerId × Timer) → List (TimerId × Timer)
not_due now [] = []
not_due now ((k, t) ∷ m) = if is_due now k then not_due now m else (k, t) ∷ not_due now m

abbrev pub AllOnce : List (TimerId × Timer) → Type 0
AllOnce [] = Unit
AllOnce ((k, once task) ∷ m) = AllOnce m
AllOnce ((k, repeats id) ∷ m) = ⊥

-- The numbers of the keys are below 2^62.
abbrev pub AllNumbered : List (TimerId × Timer) → Type 0
AllNumbered = AllEntries (λ k t. k.second < 2 ^ 62)

earlier : (now : ℤ) (k j : TimerId) → lt k j ≡ true → is_due now j ≡ true → is_due now k ≡ true
unfolding lt
earlier now k j l h = ground (arith, l, h)

lt-limit :
    (now : ℤ) (k : TimerId)
    → k.second < 2 ^ 62
    → lt k (record { first = now; second = 2 ^ 62 }) ≡ is_due now k
unfolding lt
lt-limit now k h = ground (arith, h)

-- Behind a timer that is not due none is.
none_due :
    (now : ℤ) (k : TimerId) (m : List (TimerId × Timer))
    → is_due now k ≡ false
    → SortedMap.AllAbove lt k m
    → AllOnce m
    → (due_tasks now m ≡ []) × (not_due now m ≡ m)
none_due now k [] d s a = (refl, refl)
none_due now k ((j, once task) ∷ m) d s a = elim (Bool-cases (is_due now j)) [
  | inl e ↦ absurd (false≢true (sym d ∙ earlier now k j s.0 e))
  | inr e ↦ let r = none_due now k m d s.1 a in rw e (r.0, ap (λ r. (j, once task) ∷ r) r.1)
]
none_due now k ((j, repeats id) ∷ m) d s a = elim a [ ]

module _ (clock : ℕ → ℤ) (calls : ℕ → List Call) (inert : (task : ℕ) → calls task ≡ []) where
  pub run_task_inert :
      (s : EventBase) (task : ℕ)
      → run_task clock calls s task ≡ ok (record s { ran = s.ran ++ task ∷ [] })
  unfolding run_task do_calls
  run_task_inert s task = rw (inert task, run_task)

  fire_once :
      (fuel : ℕ) (s : EventBase) (now : ℤ) (m : List (TimerId × Timer))
      → SortedMap.IsSorted lt m
      → AllOnce m
      → AllNumbered m
      → length m < fuel
      → fire clock calls fuel (record s { timers = m }) (record { first = now; second = 2 ^ 62 })
        ≡ some (ok (record s { timers = not_due now m; ran = s.ran ++ due_tasks now m }))
  unfolding fire run_timer
  fire_once zero s now m o a b h = elim h [ ]
  fire_once (suc n) s now [] o a b h = rw append-nil
  fire_once (suc n) s now ((k, once task) ∷ m) o a b h = elim (Bool-cases (is_due now k)) [
    | inl d ↦
        let ran = s.ran ++ task ∷ [] in
        rw (
          lt-limit now k b.0,
          d,
          run_task_inert (record s { timers = m }) task,
          fire_once n (record s { ran = ran }) now m o.1 a b.1 (omega arith),
          append_assoc,
        )
    | inr d ↦ let r = none_due now k m d o.0 a in rw (lt-limit now k b.0, d, r.0, r.1, append-nil)
  ]
  fire_once (suc n) s now ((k, repeats id) ∷ m) o a b h = elim a [ ]

  -- Where all timers, in the order of their keys, are single ones, their numbers are below 2^62 and no
  -- task makes a call,
  -- `handleTimeout` runs the tasks of exactly those whose time has come, each once and in the order of
  -- their keys, and removes exactly them; one more round of fuel than there are timers is enough.
  pub handle_timeout_once :
      (fuel : ℕ) (s : EventBase)
      → SortedMap.IsSorted lt s.timers
      → AllOnce s.timers
      → AllNumbered s.timers
      → length s.timers < fuel
      → let now = clock s.reads in
        handle_timeout clock calls fuel s
        ≡ some (
            ok (
              refresh_nearest clock (record s {
                timers = not_due now s.timers;
                ran = s.ran ++ due_tasks now s.timers;
                reads = s.reads + 1;
              })))
  unfolding handle_timeout
  handle_timeout_once fuel s o a b h =
      rw (fire_once fuel (record s { reads = s.reads + 1 }) (clock s.reads) s.timers o a b h)
