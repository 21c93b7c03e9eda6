-- ===== src/Daemon/Signal.antt =====
-- daemon.h: Signal, the handlers of signals.
--
-- A handler is a function on the state `S` of the program. `dispositions sig` says whether the system
-- calls signal_handler on a signal, as `::signal` makes it do; `otherwise` is what the signal does
-- before.
use net_library.Base.{
  ℕ, ◌≡◌, refl, Bool, true, false, Option, none, some, List, [], ◌∷◌, Bool-cases, inl, inr, ◌==◌,
  if◌then◌else◌,
}
use net_library.Poller.{set}

pub record Signals (S : Type 0) : Type 0 where
  pub handlers : ℕ → Option (S → S)
  pub dispositions : ℕ → Bool

-- What a signal does: the program goes on, or std::bad_function_call leaves the handler.
pub data Delivered (S : Type 0) : Type 0 where
  goes_on : S → Delivered S
  bad_function_call : Delivered S

module _ {S : Type 0} where
  abbrev pub no_signals : Signals S
  no_signals = record { handlers = λ sig. none; dispositions = λ sig. false }

  -- Signal::signal
  pub signal : Signals S → ℕ → (S → S) → Signals S
  signal s sig handler = record {
    handlers = set s.handlers sig (some handler);
    dispositions = set s.dispositions sig true;
  }

  abbrev pub call_handler : Option (S → S) → S → Delivered S
  call_handler none state = bad_function_call
  call_handler (some handler) state = goes_on (handler state)

  pub signal_handler : Signals S → ℕ → S → Delivered S
  signal_handler s sig state = call_handler (s.handlers sig) state

  module _ (otherwise : ℕ → S → Delivered S) where
    pub deliver : Signals S → ℕ → S → Delivered S
    unfolding signal_handler
    deliver s sig state =
        if s.dispositions sig then signal_handler s sig state else otherwise sig state

    -- The calls of Signal::signal, the last one first.
    abbrev pub after_calls : List (ℕ × (S → S)) → Signals S
    unfolding signal
    after_calls [] = no_signals
    after_calls ((sig, handler) ∷ calls) = signal (after_calls calls) sig handler

    -- The handler of the last call for a signal.
    abbrev pub last_handler : ℕ → List (ℕ × (S → S)) → Option (S → S)
    last_handler sig [] = none
    last_handler sig ((j, handler) ∷ calls) =
        if sig == j then some handler else last_handler sig calls

    abbrev pub effect : Option (S → S) → ℕ → S → Delivered S
    effect none sig state = otherwise sig state
    effect (some handler) sig state = goes_on (handler state)

    -- After any calls of Signal::signal, a signal runs the handler of the last call for it, and does what
    -- it did before where there is none; it never finds an empty function.
    pub deliver-after_calls :
        (calls : List (ℕ × (S → S))) (sig : ℕ) (state : S)
        → deliver (after_calls calls) sig state ≡ effect (last_handler sig calls) sig state
    unfolding deliver signal signal_handler
    deliver-after_calls [] sig state = refl
    deliver-after_calls ((j, handler) ∷ calls) sig state = elim (Bool-cases (sig == j)) [
      | inl e ↦ rw e refl
      | inr e ↦ rw e (deliver-after_calls calls sig state)
    ]
