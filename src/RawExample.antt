-- ===== src/RawExample.antt =====
-- raw-example/epoll.cc: a server on epoll that does without the library.
--
-- `httpstr` is the text of the response. `received n` is what the n-th read gives, `sent n len` what
-- the n-th write gives when it is offered `len` bytes, `accepted n` the descriptor of the n-th accept,
-- and `controls n` says which of the fcntl and epoll_ctl calls behind it succeed. `wire` records the
-- bytes that the writes took, `closes` the calls of close and `added` those of epoll_ctl. The map
-- `cons` is a function; `cons[fd]` of a missing key makes a new entry. Loops run on fuel.
pub mod Sending
pub mod Serving
pub mod Failing
pub mod Registered
mod Tests
use net_library.Base.{
  ℕ, zero, suc, ◌+◌, ◌-◌, Bool, true, false, ◌&&◌, ◌||◌, Option, none, some, List, [], ◌∷◌, ◌++◌,
  length, take, drop, ltb, ◌==◌, same, if◌then◌else◌,
}
use net_library.Poller.{has, set, read_event, write_event, error_event}

pub record Con : Type 0 where
  pub readed : List ℕ
  pub written : ℕ
  -- Not used by the program.
  pub write_enable : Bool

-- Con()
abbrev pub new_con : Con
new_con = record { readed = []; written = 0; write_enable = false }

pub record Server : Type 0 where
  pub cons : ℕ → Option Con
  pub wire : ℕ → List ℕ
  pub closes : List ℕ
  pub added : List (ℕ × ℕ)
  pub reads : ℕ
  pub writes : ℕ
  pub accepts : ℕ

-- read: bytes, of which none means 0; or -1 with EAGAIN, or with another error.
pub data Received : Type 0 where
  bytes : List ℕ → Received
  again broken : Received

-- write: how many bytes it took; or -1 as for read.
pub data Sent : Type 0 where
  took : ℕ → Sent
  full failed : Sent

-- How a handler ends: it returns, exit_if ends the program, or the fuel runs out.
pub data Outcome : Type 0 where
  goes : Server → Outcome
  exits unfinished : Outcome

abbrev pub then_do : (Server → Outcome) → Outcome → Outcome
then_do f (goes s) = f s
then_do f exits = exits
then_do f unfinished = unfinished

abbrev pub or_new : Option Con → Con
or_new none = new_con
or_new (some c) = c

-- cons[fd]
abbrev pub con_of : Server → ℕ → Con
con_of s fd = or_new (s.cons fd)

abbrev pub put_con : Server → ℕ → Con → Server
put_con s fd c = record s { cons = set s.cons fd (some c) }

-- cons.erase(fd)
abbrev pub erase : Server → ℕ → Server
erase s fd = record s { cons = set s.cons fd none }

abbrev pub close_fd : Server → ℕ → Server
close_fd s fd = record s { closes = s.closes ++ fd ∷ [] }

abbrev pub ends_with : List ℕ → List ℕ → Bool
ends_with xs end = same (drop (length xs - length end) xs) end

-- Whether the text that was read is a request: more than 4 characters, with an empty line at the end.
abbrev pub is_request : List ℕ → Bool
is_request readed =
    ltb 4 (length readed)
    && (ends_with readed (10 ∷ 10 ∷ []) || ends_with readed (13 ∷ 10 ∷ 13 ∷ 10 ∷ []))

-- `sendRes` behind its loop, given what is left and what the last write gave.
abbrev pub end_send : Server → ℕ → ℕ → Sent → Server
end_send s fd zero r = erase s fd
end_send s fd (suc left) full = s
end_send s fd (suc left) failed = erase (close_fd s fd) fd
end_send s fd (suc left) (took n) = erase (close_fd s fd) fd

-- Whether the calls of fcntl and epoll_ctl for a descriptor succeed.
pub record Control : Type 0 where
  pub got_flags : Bool
  pub set_flags : Bool
  pub controlled : Bool

-- setNonBlock
abbrev pub set_non_block : Server → Control → Outcome
set_non_block s c = if c.got_flags then (if c.set_flags then goes s else exits) else exits

-- updateEvents; `op` is only that of EPOLL_CTL_ADD.
abbrev pub update_events : Server → ℕ → ℕ → Control → Outcome
update_events s fd event c =
    if c.controlled then goes (record s { added = s.added ++ (fd, event) ∷ [] }) else exits

abbrev pub accept_one : Server → Option ℕ → Control → Outcome
accept_one s none c = exits
accept_one s (some fd) c = then_do (λ s'. update_events s' fd read_event c) (set_non_block s c)

-- The state in which the program starts.
abbrev pub new_server : Server
new_server = record {
  cons = λ fd. none;
  wire = λ fd. [];
  closes = [];
  added = [];
  reads = 0;
  writes = 0;
  accepts = 0;
}

-- main: `epollfd` and `sersock` are what epoll_create and socket give, none for -1; `bound` and
-- `listening` say whether bind and listen succeed.
abbrev pub start : Option ℕ → Option ℕ → Bool → Bool → Control → Outcome
start none sersock bound listening c = exits
start (some epollfd) none bound listening c = exits
start (some epollfd) (some sersock) bound listening c =
    if bound && listening
    then then_do (λ s. update_events s sersock read_event c) (set_non_block new_server c)
    else exits

module _ (httpstr : List ℕ) (sent : ℕ → ℕ → Sent) where
  -- A write that took `n` bytes.
  abbrev pub take_bytes : Server → ℕ → ℕ → Server
  take_bytes s fd n =
      let con = con_of s fd in
      record s {
        cons = set s.cons fd (some (record con { written = con.written + n }));
        wire = set s.wire fd (s.wire fd ++ take n (drop con.written httpstr));
      }

  abbrev pub send_one : (Server → ℕ → Outcome) → Server → ℕ → ℕ → Sent → Outcome
  send_one rest s fd left (took (suc n)) = rest (take_bytes s fd (suc n)) (left - suc n)
  send_one rest s fd left (took zero) = goes (end_send s fd left (took zero))
  send_one rest s fd left full = goes (end_send s fd left full)
  send_one rest s fd left failed = goes (end_send s fd left failed)

  pub send_loop : ℕ → Server → ℕ → ℕ → Outcome
  send_loop zero s fd left = unfinished
  send_loop (suc fuel) s fd left =
      send_one (λ s' left'. send_loop fuel s' fd left') (record s { writes = s.writes + 1 }) fd left
        (sent s.writes left)

  -- sendRes
  pub send_res : ℕ → Server → ℕ → Outcome
  unfolding send_loop
  send_res fuel s fd =
      let con = con_of s fd in send_loop fuel (put_con s fd con) fd (length httpstr - con.written)

  module _ (received : ℕ → Received) where
    -- What handleRead does with the bytes of a read.
    abbrev pub take_in : ℕ → Server → ℕ → List ℕ → Outcome
    unfolding send_res
    take_in fuel s fd xs =
        let con = con_of s fd in
        let readed = con.readed ++ xs in
        let s' = put_con s fd (record con { readed = readed }) in
        let answer = send_res fuel s' fd in if is_request readed then answer else goes s'

    abbrev pub read_one : ℕ → (Server → Outcome) → Server → ℕ → Received → Outcome
    unfolding send_res
    read_one fuel rest s fd (bytes (x ∷ xs)) = then_do rest (take_in fuel s fd (x ∷ xs))
    read_one fuel rest s fd (bytes []) = goes (erase (close_fd s fd) fd)
    read_one fuel rest s fd again = goes s
    read_one fuel rest s fd broken = goes (erase (close_fd s fd) fd)

    -- handleRead; `rounds` is the fuel of its loop, `fuel` that of each sendRes.
    pub handle_read : ℕ → ℕ → Server → ℕ → Outcome
    unfolding send_res
    handle_read zero fuel s fd = unfinished
    handle_read (suc rounds) fuel s fd =
        read_one fuel (λ s'. handle_read rounds fuel s' fd) (record s { reads = s.reads + 1 }) fd
          (received s.reads)

    pub handle_write : ℕ → Server → ℕ → Outcome
    unfolding send_res
    handle_write fuel s fd = send_res fuel s fd

    module _ (accepted : ℕ → Option ℕ) (controls : ℕ → Control) where
      pub handle_accept : Server → Outcome
      handle_accept s =
          accept_one (record s { accepts = s.accepts + 1 }) (accepted s.accepts)
            (controls s.accepts)

      -- A round of the loop of once_loop, for a descriptor and its events.
      pub dispatch_event : ℕ → ℕ → ℕ → Server → ℕ → ℕ → Outcome
      unfolding handle_accept handle_read handle_write
      dispatch_event rounds fuel sfd s fd event =
          if has event read_event || has event error_event
          then (if fd == sfd then handle_accept s else handle_read rounds fuel s fd)
          else if has event write_event
          then handle_write fuel s fd
          else exits

      -- once_loop, of what epoll_wait reports: at most 20 events.
      pub once_loop : ℕ → ℕ → ℕ → Server → List (ℕ × ℕ) → Outcome
      unfolding dispatch_event
      once_loop rounds fuel sfd s [] = goes s
      once_loop rounds fuel sfd s ((fd, event) ∷ events) =
          then_do (λ s'. once_loop rounds fuel sfd s' events)
            (dispatch_event rounds fuel sfd s fd event)

      -- The loop of main, for as many reports.
      pub run : ℕ → ℕ → ℕ → Server → List (List (ℕ × ℕ)) → Outcome
      unfolding once_loop
      run rounds fuel sfd s [] = goes s
      run rounds fuel sfd s (events ∷ reports) =
          then_do (λ s'. run rounds fuel sfd s' reports) (once_loop rounds fuel sfd s events)

      -- The loop of main, with the descriptor of the listening socket.
      abbrev pub serve_on : ℕ → ℕ → Option ℕ → Server → List (List (ℕ × ℕ)) → Outcome
      unfolding run
      serve_on rounds fuel none s reports = exits
      serve_on rounds fuel (some sersock) s reports = run rounds fuel sersock s reports

      -- Where start has not ended the program there is a listening socket.
      pub main : ℕ → ℕ → Option ℕ → Option ℕ → Bool → Bool → Control → List (List (ℕ × ℕ)) → Outcome
      unfolding run
      main rounds fuel epollfd sersock bound listening control reports =
          then_do (λ s. serve_on rounds fuel sersock s reports)
            (start epollfd sersock bound listening control)
