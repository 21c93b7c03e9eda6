-- ===== src/Poller/Dispatch.antt =====
-- poller.cc: the handlers that loop_once calls.
use mathlib.Core.Option
use net_library.Base.{
  ℕ, zero, suc, ◌<◌, ◌≡◌, ◌||◌, Bool-cases, inl, inr, Option, none, some, List, [], ◌∷◌, ◌++◌,
  arith, length, if◌then◌else◌, append_assoc, append-nil,
}
use net_library.Poller.{
  Poller, Channel, Event, Kind, reading, writing, Call, ok, has, error_event, read_event,
  write_event, run, handle_bits, handle_event, dispatch, loop_once,
}

abbrev pub IsThere : (ℕ → Option Channel) → Option ℕ → Type 0
IsThere channels none = Unit
IsThere channels (some c) = (ch : Channel) × (channels c ≡ some ch)

abbrev pub AllThere : (ℕ → Option Channel) → List Event → Type 0
AllThere channels [] = Unit
AllThere channels (e ∷ es) = IsThere channels e.ptr × AllThere channels es

-- The handler that an event asks for: the one for reading, if the event has an error or may be read.
abbrev pub asked_for : Option ℕ → ℕ → List (Kind × ℕ)
asked_for none bits = []
asked_for (some c) bits =
    if has bits error_event || has bits read_event
    then (reading, c) ∷ []
    else if has bits write_event
    then (writing, c) ∷ []
    else []

abbrev pub all_asked_for : List Event → List (Kind × ℕ)
all_asked_for [] = []
all_asked_for (e ∷ es) = asked_for e.ptr e.events ++ all_asked_for es

module _ (handler : Kind → ℕ → Poller → List Call)
    (inert : (k : Kind) (c : ℕ) (s : Poller) → handler k c s ≡ []) where
  handle_bits_inert :
      (fuel : ℕ) (s : Poller) (c bits : ℕ)
      → handle_bits handler (suc fuel) s c bits
        ≡ some (ok (record s { handled = s.handled ++ asked_for (some c) bits }))
  unfolding handle_bits run
  handle_bits_inert fuel s c bits =
      elim (Bool-cases (has bits error_event || has bits read_event)) [
        | inl r ↦ rw (r, handle_bits, inert reading c s)
        | inr r ↦ elim (Bool-cases (has bits write_event)) [
          | inl w ↦ rw (r, w, handle_bits, inert writing c s)
          | inr w ↦ rw (r, w, handle_bits, append-nil)
        ]
      ]

  handle_event_inert :
      (fuel : ℕ) (s : Poller) (e : Event)
      → IsThere s.channels e.ptr
      → handle_event handler (suc fuel) s e
        ≡ some (ok (record s { handled = s.handled ++ asked_for e.ptr e.events }))
  unfolding handle_event
  handle_event_inert fuel s e h = go e.ptr h
    where
      go :
          (p : Option ℕ)
          → IsThere s.channels p
          → handle_event handler (suc fuel) s (record e { ptr = p })
            ≡ some (ok (record s { handled = s.handled ++ asked_for p e.events }))
      go none h = rw append-nil
      go (some c) (ch, q) = rw (handle_event, q) (handle_bits_inert fuel s c e.events)

  dispatch_inert :
      (rounds fuel : ℕ) (s : Poller) (es : List Event)
      → AllThere s.channels es
      → length es < rounds
      → dispatch handler rounds (suc fuel) (record s { active = es })
        ≡ some (ok (record s { active = []; handled = s.handled ++ all_asked_for es }))
  unfolding dispatch Option.bind
  dispatch_inert zero fuel s es a h = elim h [ ]
  dispatch_inert (suc n) fuel s [] a h = rw append-nil
  dispatch_inert (suc n) fuel s (e ∷ es) a h =
      let handled = s.handled ++ asked_for e.ptr e.events in
      rw (
        handle_event_inert fuel (record s { active = e ∷ es }) e a.0,
        dispatch_inert n fuel (record s { handled = handled }) es a.1 (omega arith),
        append_assoc,
      )

  -- Where no handler makes a call, `loop_once` calls for each event that epoll_wait reports, from
  -- the last to the first, the one handler that it asks for; one more round than there are events is
  -- enough.
  pub loop_once_inert :
      (rounds fuel : ℕ) (s : Poller) (reported : List Event)
      → AllThere s.channels reported
      → length reported < rounds
      → loop_once handler rounds (suc fuel) s reported
        ≡ some (ok (record s { active = []; handled = s.handled ++ all_asked_for reported }))
  unfolding loop_once
  loop_once_inert rounds fuel s reported a h = dispatch_inert rounds fuel s reported a h
