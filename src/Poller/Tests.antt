-- ===== src/Poller/Tests.antt =====
-- Runs of the poller, and its theorems at such runs.
use mathlib.Core.Option
use net_library.Base.{
  ℕ, zero, suc, ◌≡◌, refl, Bool, true, false, none, Option, some, List, [], ◌∷◌, ◌++◌, arith, ◌==◌,
  if◌then◌else◌, either_branch,
}
use net_library.Base.Int.{pos}
use net_library.Poller.{
  Poller, Event, Result, Kind, reading, writing, Call, destroy, call, ok, fault, double_free, init,
  create_channel, run, loop_once,
}
use net_library.Poller.Inv.{init-Inv, create_channel-Inv}
use net_library.Poller.Ready.{AllSound}
use net_library.Poller.Safety.{Keeps, loop_once-Keeps}
use net_library.Poller.Dispatch.{all_asked_for, loop_once_inert}

abbrev two : Poller
two = create_channel (create_channel init (pos 5) 5) (pos 6) 1

-- Both channels may be read.
abbrev reported : List Event
reported = record { ptr = some 2; events = 1 } ∷ record { ptr = some 1; events = 5 } ∷ []

-- The handler of channel 2 deletes channel 1.
abbrev deleting : Kind → ℕ → Poller → List Call
deleting reading c s = if c == 2 then destroy 1 ∷ [] else []
deleting writing c s = []

deleting-AllSound : (k : Kind) (c : ℕ) (s : Poller) → AllSound (deleting k c s)
deleting-AllSound reading c s = either_branch AllSound (c == 2) (tt, tt) tt
deleting-AllSound writing c s = tt

abbrev idle : Kind → ℕ → Poller → List Call
idle k c s = []

abbrev is_some : Option ℕ → Bool
is_some none = false
is_some (some c) = true

abbrev or_zero : Option ℕ → ℕ
or_zero none = 0
or_zero (some c) = c

abbrev handled_by : Option (Result Poller) → List (Kind × ℕ)
handled_by (some (ok s)) = s.handled
handled_by _ = []

-- `close` calls the handler of channel 1, and its event is not followed.
deleted_event_is_dropped :
    handled_by (loop_once deleting 3 9 two reported) ≡ (reading, 2) ∷ (reading, 1) ∷ []
unfolding loop_once create_channel Option.bind
deleted_event_is_dropped = refl

-- A read handler that deletes its own channel when it is called by `close`, as that of the wake-up
-- channel does, deletes it twice.
abbrev deletes_itself : Kind → ℕ → Poller → List Call
deletes_itself k c s = destroy c ∷ []

own_delete : run deletes_itself 9 two (call (destroy 1) ∷ []) ≡ some (fault double_free)
unfolding run create_channel
own_delete = refl

loop_once-Keeps_example : Keeps (loop_once deleting 3 9 two reported)
unfolding create_channel
loop_once-Keeps_example =
    loop_once-Keeps deleting deleting-AllSound 3 9 reported
      (create_channel-Inv (create_channel init (pos 5) 5) (pos 6) 1
        (create_channel-Inv init (pos 5) 5 init-Inv refl) refl)
      (refl, (refl, tt)) ((refl, tt), (tt, tt))

loop_once_inert_example :
    loop_once idle 3 1 two reported
    ≡ some (ok (record two { active = []; handled = [] ++ all_asked_for reported }))
unfolding create_channel
loop_once_inert_example =
    loop_once_inert idle (λ k c s. refl) 3 0 two reported ((_, refl), ((_, refl), tt)) (omega arith)

-- The live channel with the highest number.
abbrev highest : ℕ → (ℕ → Bool) → Option ℕ
highest zero live = if live 0 then some 0 else none
highest (suc n) live = let rest = highest n live in if live (suc n) then some (suc n) else rest
