-- ===== src/EventBase/Inv.antt =====
-- eventbase.cc: the invariant that ties `m_timers` to `m_timerRepeats`.
use net_library.Base.{
  ℕ, ◌+◌, ◌≤◌, ◌<◌, ◌≡◌, ap, sym, ◌∙◌, ◌≢◌, none, some, List, [], ◌∷◌, arith, Option-cases, inl,
  inr,
}
use net_library.Base.Int.{ℤ}
use net_library.Base.SortedMap
use net_library.Base.SortedMap.{IsStrictOrder, AllEntries, AllEntries-mono}
use net_library.EventBase.{
  EventBase, TimerId, Timer, TimerRepeatable, once, repeats, lt, init, refresh_nearest,
}
use net_library.EventBase.Keys.{lt-IsStrictOrder}

abbrev pub Repeats : Type 0
Repeats = List (TimerId × TimerRepeatable)

-- The closure of a repeated timer points to an entry that knows this very timer.
abbrev pub IsLinked : Repeats → TimerId → Timer → Type 0
IsLinked rs k (once task) = Unit {0}
IsLinked rs k (repeats id) =
    (tr : TimerRepeatable) × (SortedMap.find lt id rs ≡ some tr) × (tr.tid ≡ k)

pub record Inv (s : EventBase) : Type 0 where
  pub sorted : SortedMap.IsSorted lt s.timers
  pub sorted_repeats : SortedMap.IsSorted lt s.timer_repeats
  pub numbered : AllEntries (λ k (v : Timer). k.second ≤ s.timer_num) s.timers
  pub numbered_repeats :
      AllEntries (λ k (v : TimerRepeatable). k.second ≤ s.timer_num) s.timer_repeats
  pub linked : AllEntries (IsLinked s.timer_repeats) s.timers

pub init-Inv : (capacity : ℕ) → Inv (init capacity)
init-Inv capacity = record {
  sorted = tt;
  sorted_repeats = tt;
  numbered = tt;
  numbered_repeats = tt;
  linked = tt;
}

-- A key above the numbers in use is not in the map.
pub find_fresh :
    {V : Type 0} (k : TimerId) (n : ℕ) (m : List (TimerId × V))
    → AllEntries (λ j (v : V). j.second ≤ n) m
    → n < k.second
    → SortedMap.find lt k m ≡ none
find_fresh k n m h lt_k = elim (Option-cases (SortedMap.find lt k m)) [
  | inl e ↦ e
  | inr (v, e) ↦
      let le : k.second ≤ n =
        SortedMap.find-AllEntries lt lt-IsStrictOrder (λ j v. j.second ≤ n) k m e h in
      absurd (omega arith)
]

-- Links survive a change of the entries at one key, to which no timer of the list points.
pub relink :
    (rs rs' : Repeats) (id : TimerId) (m : List (TimerId × Timer))
    → ((j : TimerId) → j ≢ id → SortedMap.find lt j rs' ≡ SortedMap.find lt j rs)
    → AllEntries (λ k t. (t ≢ repeats id)) m
    → AllEntries (IsLinked rs) m
    → AllEntries (IsLinked rs') m
relink rs rs' id [] same ne h = tt
relink rs rs' id ((k, once task) ∷ m) same ne h = (tt, relink rs rs' id m same ne.1 h.1)
relink rs rs' id ((k, repeats j) ∷ m) same ne h = (
  let l = h.0 in (l.0, same j (λ e. ne.0 (ap repeats e)) ∙ l.1, l.2),
  relink rs rs' id m same ne.1 h.1,
)

-- Only the timer at the key that an entry names points to that entry.
pub unpointed :
    (rs : Repeats) (id : TimerId) (tr : TimerRepeatable) (m : List (TimerId × Timer))
    → SortedMap.find lt id rs ≡ some tr
    → AllEntries (λ k (t : Timer). k ≢ tr.tid) m
    → AllEntries (IsLinked rs) m
    → AllEntries (λ k t. (t ≢ repeats id)) m
unpointed rs id tr [] f ne h = tt
unpointed rs id tr ((k, once task) ∷ m) f ne h = ((λ e. cc), unpointed rs id tr m f ne.1 h.1)
unpointed rs id tr ((k, repeats j) ∷ m) f ne h = (
  λ e.
      let l = h.0 in
      let ji : j ≡ id = cc in
      let same : some l.0 ≡ some tr = sym l.1 ∙ ap (λ i. SortedMap.find lt i rs) ji ∙ f in
      let q : l.0 ≡ tr = cc in ne.0 (sym l.2 ∙ ap (λ (r : TimerRepeatable). r.tid) q),
  unpointed rs id tr m f ne.1 h.1,
)

pub unpointed_fresh :
    (rs : Repeats) (id : TimerId) (m : List (TimerId × Timer))
    → SortedMap.find lt id rs ≡ none
    → AllEntries (IsLinked rs) m
    → AllEntries (λ k t. (t ≢ repeats id)) m
unpointed_fresh rs id [] f h = tt
unpointed_fresh rs id ((k, once task) ∷ m) f h = ((λ e. cc), unpointed_fresh rs id m f h.1)
unpointed_fresh rs id ((k, repeats j) ∷ m) f h = (
  λ e.
      let l = h.0 in
      let ji : j ≡ id = cc in
      let bad : some l.0 ≡ none = sym l.1 ∙ ap (λ i. SortedMap.find lt i rs) ji ∙ f in cc,
  unpointed_fresh rs id m f h.1,
)

pub refresh_nearest-Inv : (clock : ℕ → ℤ) {s : EventBase} → Inv s → Inv (refresh_nearest clock s)
unfolding refresh_nearest
refresh_nearest-Inv clock v = record {
  sorted = v.sorted;
  sorted_repeats = v.sorted_repeats;
  numbered = v.numbered;
  numbered_repeats = v.numbered_repeats;
  linked = v.linked;
}

pub later :
    {V : Type 0} (n k : ℕ) (m : List (TimerId × V))
    → AllEntries (λ j (v : V). j.second ≤ n) m
    → AllEntries (λ j (v : V). j.second ≤ n + k) m
later n k m h = AllEntries-mono _ _ m (λ j v p. omega arith) h
