-- ===== src/Poller/Destroy.antt =====
-- poller.cc: the destructor of PollerEpoll, which closes the channels that are still live.
--
-- `first` is `*m_liveChannels.begin()`, where there is one: which channel has the lowest address is
-- not known. It is given the number of channels made so far.
use mathlib.Core.Option
use net_library.Base.{
  ℕ, zero, suc, ◌≤◌, ◌<◌, ◌≡◌, refl, Bool, true, false, Option, none, some, List, [], ◌∷◌, ◌++◌,
  arith, ◌==◌, if◌then◌else◌, map,
}
use net_library.Base.Int.{negsuc}
use net_library.Poller.{
  Poller, Channel, Kind, reading, Call, close, call, Result, ok, run, and_then, set, remove_channel,
}
use net_library.Poller.Inv.{Inv}

module _ (handler : Kind → ℕ → Poller → List Call) (first : ℕ → (ℕ → Bool) → Option ℕ) where
  abbrev pub close_next :
      (Poller → Option (Result Poller)) → ℕ → Poller → Option ℕ → Option (Result Poller)
  close_next rest fuel s none = some (ok s)
  close_next rest fuel s (some c) =
      Option.bind (run handler fuel s (call (close c) ∷ [])) (and_then handler rest)

  -- The loop of ~PollerEpoll().
  pub close_all : ℕ → ℕ → Poller → Option (Result Poller)
  close_all zero fuel s = none
  close_all (suc n) fuel s = close_next (λ s'. close_all n fuel s') fuel s (first s.ids s.live)

-- It finds a live channel, if one of those up to this number is live.
pub record Finds (first : ℕ → (ℕ → Bool) → Option ℕ) : Type 0 where
  pub found : (n : ℕ) (live : ℕ → Bool) (c : ℕ) → first n live ≡ some c → live c ≡ true
  pub missed : (n : ℕ) (live : ℕ → Bool) → first n live ≡ none → (c : ℕ) → c ≤ n → live c ≡ false

-- How many channels below a number are live.
abbrev pub count : ℕ → (ℕ → Bool) → ℕ
count zero live = 0
count (suc n) live = let rest = count n live in if live n then suc rest else rest

-- The channel without its descriptor.
abbrev pub closed : Option Channel → Option Channel
closed none = none
closed (some ch) = some (record ch { fd = negsuc 0 })

-- How often a number stands in a list.
abbrev pub occurrences : ℕ → List ℕ → ℕ
occurrences c [] = 0
occurrences c (d ∷ ds) = let rest = occurrences c ds in if d == c then suc rest else rest

-- All live channels of a state, and no others, are closed in the other one; the handlers that have been
-- called are the read handlers of those channels, each once.
pub record AllClosed (s s' : Poller) : Type 0 where
  pub none_live : (c : ℕ) → s'.live c ≡ false
  pub channels_closed :
      (c : ℕ) → s'.channels c ≡ (if s.live c then closed (s.channels c) else s.channels c)
  pub closes : List ℕ
  pub handled_then : s'.handled ≡ s.handled ++ map (λ c. (reading, c)) closes
  pub each_once : (c : ℕ) → occurrences c closes ≡ (if s.live c then 1 else 0)
  pub inv : Inv s'

no_live : (n : ℕ) (live : ℕ → Bool) → ((c : ℕ) → c < n → live c ≡ false) → count n live ≡ 0
no_live zero live h = refl
no_live (suc n) live h = rw (h n (omega arith)) (no_live n live (λ c l. h c (omega (arith, l))))

abbrev one_closed : Poller → ℕ → Channel → Poller
one_closed s c ch = record (remove_channel s c) {
  channels = set s.channels c (some (record ch { fd = negsuc 0 }));
  handled = s.handled ++ (reading, c) ∷ [];
}
