-- ===== src/Poller.antt =====
-- poller.h, poller.cc, channel.h, channel.cc: channels and the epoll poller that dispatches to them.
--
-- A channel is named by its `m_id`, which stands for its address: `channels` is the heap, in which a
-- deleted channel is not found. `epoll` records the calls of `epoll_ctl`, of which a failure is only
-- logged; `handled` records the calls of handlers. What a handler does is a list of calls that may
-- depend on the whole state. `active` holds `m_activeEvents[m_lastActive]` down to
-- `m_activeEvents[0]`; what `epoll_wait` reports is a parameter. POLLIN, POLLOUT and EPOLLERR have
-- their values on Linux, as weights of bits.
pub mod Bits
pub mod Inv
pub mod Ready
pub mod Safety
pub mod Dispatch
pub mod Destroy
mod Tests
use mathlib.Core.Option
use net_library.Base.{
  ℕ, zero, suc, ◌+◌, ◌-◌, ◌/◌, ◌%◌, Bool, true, false, ◌||◌, Option, none, some, List, [], ◌∷◌,
  ◌++◌, map, ◌==◌, if◌then◌else◌,
}
use net_library.Base.Int.{ℤ, pos, negsuc}

abbrev pub read_event : ℕ
read_event = 1

abbrev pub write_event : ℕ
write_event = 4

abbrev pub error_event : ℕ
error_event = 8

-- The test `bits & weight`.
abbrev pub has : ℕ → ℕ → Bool
has bits weight = (bits / weight) % 2 == 1

-- `bits |= weight`, or `bits &= ~weight`.
abbrev pub set_bit : ℕ → ℕ → Bool → ℕ
set_bit bits weight true = if has bits weight then bits else bits + weight
set_bit bits weight false = if has bits weight then bits - weight else bits

pub record Channel : Type 0 where
  pub fd : ℤ
  pub events : ℕ

pub enable_read : Channel → Bool → Channel
enable_read ch enable = record ch { events = set_bit ch.events read_event enable }

pub enable_write : Channel → Bool → Channel
enable_write ch enable = record ch { events = set_bit ch.events write_event enable }

pub enable_read_write : Channel → Bool → Bool → Channel
enable_read_write ch read write =
    let events = set_bit ch.events read_event read in
    record ch { events = set_bit events write_event write }

abbrev pub read_enable : Channel → Bool
read_enable ch = has ch.events read_event

abbrev pub write_enable : Channel → Bool
write_enable ch = has ch.events write_event

pub data Kind : Type 0 where
  reading writing : Kind

-- `epoll_ctl`, with EPOLL_CTL_ADD or EPOLL_CTL_MOD.
pub data Control : Type 0 where
  add modify : ℤ → ℕ → Control

-- struct epoll_event; the pointer is `none` where it is NULL.
pub record Event : Type 0 where
  pub ptr : Option ℕ
  pub events : ℕ

pub data Call : Type 0 where
  create : ℤ → ℕ → Call
  close destroy : ℕ → Call
  call_enable_read call_enable_write : ℕ → Bool → Call
  call_enable_read_write : ℕ → Bool → Bool → Call

-- What is left to do: a call, or the end of a `delete` behind the destructor's `close()`.
pub data Work : Type 0 where
  call : Call → Work
  free : ℕ → Work

-- A call on a deleted channel, a second `delete`, or an event of a deleted channel.
pub data Fault : Type 0 where
  stale_channel double_free dangling_event : Fault

pub data Result {ℓ} (A : Type ℓ) : Type ℓ where
  ok : A → Result A
  fault : Fault → Result A

pub record Poller : Type 0 where
  pub ids : ℕ
  pub channels : ℕ → Option Channel
  pub live : ℕ → Bool
  pub active : List Event
  pub epoll : List Control
  pub handled : List (Kind × ℕ)

abbrev pub init : Poller
init = record {
  ids = 0;
  channels = λ c. none;
  live = λ c. false;
  active = [];
  epoll = [];
  handled = [];
}

abbrev pub set {ℓ} : {A : Type ℓ} → (ℕ → A) → ℕ → A → ℕ → A
set f k v j = if j == k then v else f j

-- The test `m_fd > 0`.
abbrev pub is_pos : ℤ → Bool
is_pos (pos (suc n)) = true
is_pos _ = false

-- The test `ch == m_activeEvents[i].data.ptr`.
abbrev pub points_to : ℕ → Option ℕ → Bool
points_to c none = false
points_to c (some d) = d == c

-- The loop of removeChannel: the first event of the channel loses its pointer.
abbrev pub null_first : ℕ → List Event → List Event
null_first c [] = []
null_first c (e ∷ es) =
    if points_to c e.ptr then record e { ptr = none } ∷ es else e ∷ null_first c es

pub add_channel : Poller → ℕ → Channel → Poller
add_channel s c ch = record s {
  live = set s.live c true;
  epoll = s.epoll ++ add ch.fd ch.events ∷ [];
}

pub remove_channel : Poller → ℕ → Poller
remove_channel s c = record s { live = set s.live c false; active = null_first c s.active }

pub update_channel : Poller → ℕ → Channel → Poller
update_channel s c ch = record s {
  channels = set s.channels c (some ch);
  epoll = s.epoll ++ modify ch.fd ch.events ∷ [];
}

-- Channel(EventBase *base, int fd, int events)
pub create_channel : Poller → ℤ → ℕ → Poller
unfolding add_channel
create_channel s fd events =
    let ch : Channel = record { fd = fd; events = events } in
    let c = s.ids + 1 in
    add_channel (record s { ids = c; channels = set s.channels c (some ch) }) c ch

module _ (handler : Kind → ℕ → Poller → List Call) where
  -- m_readfunc() or m_writefunc(): the state, and what the handler does.
  abbrev pub invoke : Kind → ℕ → Poller → Poller × List Work
  invoke kind c s =
      (record s { handled = s.handled ++ (kind, c) ∷ [] }, map call (handler kind c s))

  -- Channel::close(), up to the calls of the handler that it ends with.
  pub close_channel : Poller → ℕ → Channel → Poller × List Work
  unfolding remove_channel
  close_channel s c ch =
      if is_pos ch.fd
      then invoke reading c (record (remove_channel s c) {
        channels = set s.channels c (some (record ch { fd = negsuc 0 }));
      })
      else (s, [])

  -- A call on a channel that is there.
  abbrev pub on_channel :
      Option Channel → (Channel → Poller × List Work) → Result (Poller × List Work)
  on_channel none f = fault stale_channel
  on_channel (some ch) f = ok (f ch)

  pub step : Poller → Work → Result (Poller × List Work)
  unfolding create_channel close_channel enable_read enable_write enable_read_write update_channel
  step s (call (create fd events)) = ok (create_channel s fd events, [])
  step s (call (close c)) = on_channel (s.channels c) (λ ch. close_channel s c ch)
  step s (call (destroy c)) =
      on_channel (s.channels c)
        (λ ch. let (s', ws) = close_channel s c ch in (s', ws ++ free c ∷ []))
  step s (call (call_enable_read c b)) =
      on_channel (s.channels c) (λ ch. (update_channel s c (enable_read ch b), []))
  step s (call (call_enable_write c b)) =
      on_channel (s.channels c) (λ ch. (update_channel s c (enable_write ch b), []))
  step s (call (call_enable_read_write c b d)) =
      on_channel (s.channels c) (λ ch. (update_channel s c (enable_read_write ch b d), []))
  step s (free c) = elim (s.channels c) [
    | none ↦ fault double_free
    | some ch ↦ ok (record s { channels = set s.channels c none }, [])
  ]

  abbrev pub and_then {ℓ} :
      {A : Type ℓ} → (A → Option (Result Poller)) → Result A → Option (Result Poller)
  and_then rest (ok r) = rest r
  and_then rest (fault e) = some (fault e)

  -- The work in its order, each call with all that it leads to, with fuel.
  pub run : ℕ → Poller → List Work → Option (Result Poller)
  unfolding step
  run zero s ws = none
  run (suc n) s [] = some (ok s)
  run (suc n) s (w ∷ ws) = and_then (λ (r : Poller × List Work). run n r.0 (r.1 ++ ws)) (step s w)

  abbrev pub run_invoked : ℕ → Poller × List Work → Option (Result Poller)
  run_invoked fuel (s, ws) = run fuel s ws

  -- What a round of the loop of loop_once does for the channel of an event.
  pub handle_bits : ℕ → Poller → ℕ → ℕ → Option (Result Poller)
  unfolding run
  handle_bits fuel s c bits =
      if has bits error_event || has bits read_event
      then run_invoked fuel (invoke reading c s)
      else if has bits write_event
      then run_invoked fuel (invoke writing c s)
      else some (ok s)

  pub handle_event : ℕ → Poller → Event → Option (Result Poller)
  unfolding handle_bits
  handle_event fuel s e = elim e.ptr [
    | none ↦ some (ok s)
    | some c ↦ elim (s.channels c) [
      | none ↦ some (fault dangling_event)
      | some ch ↦ handle_bits fuel s c e.events
    ]
  ]

  abbrev pub tail : List Event → List Event
  tail [] = []
  tail (e ∷ es) = es

  abbrev pub dispatch_first :
      (Poller → Option (Result Poller)) → ℕ → Poller → List Event → Option (Result Poller)
  dispatch_first rest fuel s [] = some (ok s)
  dispatch_first rest fuel s (e ∷ es) =
      Option.bind (handle_event fuel s e)
        (and_then (λ (s' : Poller). rest (record s' { active = tail s'.active })))

  pub dispatch : ℕ → ℕ → Poller → Option (Result Poller)
  unfolding handle_event
  dispatch zero fuel s = none
  dispatch (suc n) fuel s = dispatch_first (λ s'. dispatch n fuel s') fuel s s.active

  -- PollerEpoll::loop_once, given the events that epoll_wait reports, the last one first.
  pub loop_once : ℕ → ℕ → Poller → List Event → Option (Result Poller)
  unfolding dispatch
  loop_once rounds fuel s reported = dispatch rounds fuel (record s { active = reported })
