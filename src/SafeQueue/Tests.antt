-- ===== src/SafeQueue/Tests.antt =====
-- Runs of the queue on concrete values, and its theorems at such runs.
use net_library.Base.{ℕ, ◌≡◌, refl, ◌⊎◌, inr, true, false, none, some, List, [], ◌∷◌, ◌++◌, arith}
use net_library.SafeQueue.{SafeQueue, Wake, init, push, pop_wait, wait_infinite}
use net_library.SafeQueue.Laws.{
  IsBounded, HasRoom, push_lem, Popped, pop_wait-Popped, pop_wait_timed,
}

abbrev two : SafeQueue ℕ
two = record { items = 1 ∷ 2 ∷ []; capacity = 2; exited = false }

abbrev woken : List (Wake ℕ)
woken = record { timeout = false; found = two } ∷ []

push_runs : (push {A = ℕ} (init 1) 5).0 ≡ true
unfolding push
push_runs = refl

push_full : push two 3 ≡ (false, two)
unfolding push
push_full = refl

pop_after_wake :
    pop_wait (init 2) wait_infinite woken ≡ some (some 1, record two { items = 2 ∷ [] })
unfolding pop_wait
pop_after_wake = refl

push_lem_example :
    let (accepted, q) = push two 3 in
    ((accepted ≡ true)
      × (two.exited ≡ false)
      × HasRoom two
      × IsBounded q
      × (q ≡ record two { items = two.items ++ 3 ∷ [] }))
    ⊎ ((accepted ≡ false) × ((two.exited ≡ true) ⊎ ¬ HasRoom two) × (q ≡ two))
push_lem_example = push_lem two 3 (inr (omega arith))

pop_wait-Popped_example : Popped (init 2) woken (pop_wait (init 2) wait_infinite woken)
pop_wait-Popped_example = pop_wait-Popped (init 2) woken

abbrev idle : SafeQueue ℕ
idle = init 2

abbrev timeouts : List (Wake ℕ)
timeouts = record { timeout = true; found = idle } ∷ record { timeout = true; found = idle } ∷ []

pop_wait_timed_example :
    (pop_wait idle 10 timeouts ≡ none)
    × (pop_wait idle 10 (timeouts ++ record { timeout = false; found = idle } ∷ [])
        ≡ some (none, idle))
pop_wait_timed_example =
    pop_wait_timed idle 10 timeouts idle [] refl refl (omega arith) (omega arith)
      (refl, refl, refl, (refl, refl, refl, tt)) refl
