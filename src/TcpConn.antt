-- ===== src/TcpConn.antt =====
-- tcpConn.h, tcpConn.cpp: a TCP connection, its states, and how it reads and writes.
--
-- `socket n space` is what the n-th `read` of the connection returns, given the room that it is
-- offered, and `sent n len` what the n-th `write` returns. `handle` is the read callback, which may
-- change the whole connection; `seen` records the bytes in `input_` at each of its calls, `received`
-- all bytes read, and `wire` those that writes have taken. A callback that does not return
-- says so in `callback_end`. The loops run on fuel. Addresses serve only the log and are left out.
pub mod Reading
pub mod Events
pub mod Lifecycle
pub mod Sending
pub mod States
pub mod Staying
pub mod Wire
pub mod Received
pub mod Message
pub mod Delivery
pub mod Making
pub mod Preserving
mod Tests
use net_library.Base.{
  ℕ, zero, suc, ◌+◌, ◌-◌, Bool, true, false, ◌&&◌, ◌||◌, not, Option, none, some, List, [], ◌∷◌,
  ◌++◌, ltb, ◌==◌, if◌then◌else◌, length, take, drop, write_at,
}
use net_library.Base.Int.{ℤ, pos, negsuc, is_neg}
use net_library.Buffer
use net_library.Buffer.{Buffer, Cell}
use net_library.Poller.{
  Channel, is_pos, enable_read_write, enable_write, write_enable, read_event, write_event,
}

pub data Status : Type 0 where
  invalid handshaking connected closed failed : Status

-- How a loop or an operation ends: std::bad_alloc, a null pointer followed, or out of fuel.
pub data Outcome {ℓ} (A : Type ℓ) : Type ℓ where
  done : A → Outcome A
  bad_alloc null_channel unfinished : Outcome A

pub record TcpConn : Type 0 where
  pub channel : Option Channel
  pub state : Status
  pub dest_port : ℤ
  -- Whether `readcb_` is set.
  pub readcb : Bool
  pub input : Buffer
  pub output : Buffer
  pub reads : ℕ
  pub writes : ℕ
  pub received : List Cell
  pub wire : List Cell
  pub seen : List (List Cell)
  -- How the callback has ended: where it has not returned, the handler that called it has not either.
  pub callback_end : Outcome (Unit {0})

-- TcpConn()
abbrev pub init : TcpConn
init = record {
  channel = none;
  state = invalid;
  dest_port = negsuc 0;
  readcb = false;
  input = Buffer.init;
  output = Buffer.init;
  reads = 0;
  writes = 0;
  received = [];
  wire = [];
  seen = [];
  callback_end = done tt;
}

-- `onRead(cb)`, which asserts that no callback is set.
abbrev pub on_read : TcpConn → TcpConn
on_read s = record s { readcb = true }

abbrev pub is_handshaking : Status → Bool
is_handshaking handshaking = true
is_handshaking _ = false

abbrev pub is_connected : Status → Bool
is_connected connected = true
is_connected _ = false

abbrev pub then_do {ℓ κ} : {A : Type ℓ} {B : Type κ} → (A → Outcome B) → Outcome A → Outcome B
then_do f (done a) = f a
then_do f bad_alloc = bad_alloc
then_do f null_channel = null_channel
then_do f unfinished = unfinished

-- `read`: bytes, of which none means 0; or -1 with EINTR, with EAGAIN, or with another error.
pub data ReadResult : Type 0 where
  bytes : List Cell → ReadResult
  interrupted again broken : ReadResult

-- `write`: how many bytes it took; or -1 as for `read`.
pub data WriteResult : Type 0 where
  took : ℕ → WriteResult
  write_interrupted write_again write_broken : WriteResult

-- Which branch leaves the loop of handleRead.
pub data End : Type 0 where
  drained closing : End

-- The bytes stand at `input_.end()`, and addSize follows.
abbrev pub read_in : Buffer → List Cell → Buffer
read_in b xs = Buffer.add_size_to (record b { buf = write_at b.buf b.e xs }) (length xs)

module _ (handle : TcpConn → TcpConn) where
  -- if (readcb_ && input_.size()) readcb_(con)
  abbrev pub call_back : TcpConn → TcpConn
  call_back s =
      if s.readcb && not (Buffer.size s.input == 0)
      then handle (record s { seen = s.seen ++ Buffer.contents s.input ∷ [] })
      else s

  abbrev pub closed_state : Status → Status
  closed_state handshaking = failed
  closed_state _ = closed

  pub cleanup : TcpConn → TcpConn
  cleanup s = let s' = call_back s in record s' { state = closed_state s'.state; readcb = false }

  -- delete channel_: one that is open is closed, which calls handleRead; the state is Handshaking and
  -- poll reports nothing for the descriptor -1.
  abbrev pub delete_channel : TcpConn → Option Channel → TcpConn
  unfolding cleanup
  delete_channel s none = s
  delete_channel s (some ch) =
      if is_pos ch.fd
      then cleanup (record s { channel = some (record ch { fd = negsuc 0 }) })
      else s

  -- attach, of a descriptor; the fatalif before it only writes to the log.
  unfoldable pub attach : TcpConn → ℤ → TcpConn
  unfolding cleanup
  attach s fd = record (delete_channel (record s { state = handshaking }) s.channel) {
    channel = some (record { fd = fd; events = write_event + read_event });
  }

  -- handleHandshake, given whether `poll` reports POLLOUT alone; and whether it returns 0.
  pub handshake : TcpConn → Channel → Bool → TcpConn × Bool
  unfolding cleanup
  handshake s ch true =
      (record s { channel = some (enable_read_write ch true false); state = connected }, true)
  handshake s ch false = (cleanup s, false)

  module _ (grants : ℕ → Bool) (socket : ℕ → ℕ → ReadResult) where
    abbrev pub after_read :
        (TcpConn → Outcome (TcpConn × End)) → TcpConn → ReadResult → Outcome (TcpConn × End)
    after_read rest s interrupted = rest s
    after_read rest s again = done (s, drained)
    after_read rest s broken = done (s, closing)
    after_read rest s (bytes []) = done (s, closing)
    after_read rest s (bytes (x ∷ xs)) =
        rest (record s { input = read_in s.input (x ∷ xs); received = s.received ++ x ∷ xs })

    -- One round, with the input that makeRoom leaves.
    abbrev pub read_once :
        (TcpConn → Outcome (TcpConn × End)) → TcpConn → ℤ → Option Buffer → Outcome (TcpConn × End)
    read_once rest s fd none = bad_alloc
    read_once rest s fd (some b) =
        if is_neg fd
        then done (record s { input = b }, closing)
        else after_read rest (record s { input = b; reads = s.reads + 1 })
            (socket s.reads (Buffer.space b))

    -- The loop of handleRead, up to the branch that leaves it; nothing in it changes the state.
    pub read_rounds : ℕ → TcpConn → ℤ → Outcome (TcpConn × End)
    read_rounds zero s fd = unfinished
    read_rounds (suc n) s fd =
        read_once (λ s'. read_rounds n s' fd) s fd (Buffer.make_some_room grants s.input)

    abbrev pub leave_loop : TcpConn × End → Outcome TcpConn
    unfolding cleanup
    leave_loop (s, drained) = done (call_back s)
    leave_loop (s, closing) = done (cleanup s)

    pub read_loop : ℕ → TcpConn → ℤ → Outcome TcpConn
    unfolding read_rounds
    read_loop fuel s fd =
        let rounds = then_do leave_loop (read_rounds fuel s fd) in
        if is_connected s.state then rounds else done s

    abbrev pub after_handshake : ℕ → Channel → TcpConn × Bool → Outcome TcpConn
    after_handshake fuel ch (s, true) = read_loop fuel s ch.fd
    after_handshake fuel ch (s, false) = done s

    pub handle_read_on : ℕ → TcpConn → Bool → Option Channel → Outcome TcpConn
    unfolding handshake read_loop
    handle_read_on fuel s ready none = null_channel
    handle_read_on fuel s ready (some ch) =
        let shaken = after_handshake fuel ch (handshake s ch ready) in
        let loop = read_loop fuel s ch.fd in if is_handshaking s.state then shaken else loop

    pub handle_read : ℕ → TcpConn → Bool → Outcome TcpConn
    unfolding handle_read_on
    handle_read fuel s ready = handle_read_on fuel s ready s.channel

  abbrev pub shake_on : TcpConn → Bool → Option Channel → Outcome TcpConn
  unfolding handshake
  shake_on s ready none = null_channel
  shake_on s ready (some ch) = done (handshake s ch ready).0

  pub handle_write : TcpConn → Bool → Outcome TcpConn
  unfolding handshake
  handle_write s ready = if is_handshaking s.state then shake_on s ready s.channel else done s

module _ (grants : ℕ → Bool) (sent : ℕ → ℕ → WriteResult) where
  -- if (!channel_->writeEnable()) channel_->enableWrite(true)
  abbrev pub wait_to_write : Channel → Channel
  wait_to_write ch = if write_enable ch then ch else enable_write ch true

  abbrev pub after_write :
      (TcpConn → Channel → ℕ → Outcome (TcpConn × ℕ))
      → TcpConn
      → Channel
      → List Cell
      → ℕ
      → WriteResult
      → Outcome (TcpConn × ℕ)
  after_write rest s ch buf n (took (suc k)) =
      rest (record s { wire = s.wire ++ take (suc k) (drop n buf) }) ch (n + suc k)
  after_write rest s ch buf n write_interrupted = rest s ch n
  after_write rest s ch buf n write_again =
      rest (record s { channel = some (wait_to_write ch) }) (wait_to_write ch) n
  after_write rest s ch buf n (took zero) = done (s, n)
  after_write rest s ch buf n write_broken = done (s, n)

  -- The loop of isend, of `len` bytes of which `n` are sent; the result is how many were. `buf` are
  -- the bytes at the address.
  pub isend : ℕ → TcpConn → Channel → List Cell → ℕ → ℕ → Outcome (TcpConn × ℕ)
  isend zero s ch buf len n = unfinished
  isend (suc fuel) s ch buf len n =
      let round =
        after_write (λ s' ch' m. isend fuel s' ch' buf len m) (record s { writes = s.writes + 1 })
          ch buf n (sent s.writes (len - n)) in
      if ltb n len then round else done (s, n)

  -- What `absorb` leaves of this buffer and of the message.
  abbrev pub absorbed : TcpConn → Option (Buffer × Option Buffer) → Outcome (TcpConn × Buffer)
  absorbed s none = bad_alloc
  absorbed s (some (o, none)) = done (record s { output = o }, o)
  absorbed s (some (o, some msg)) = done (record s { output = o }, msg)

  -- The second half of `send`, with what isend has sent taken off the message.
  abbrev pub send_rest : ℕ → Channel → TcpConn × Buffer → Outcome (TcpConn × Buffer)
  unfolding isend
  send_rest fuel ch (s, msg) =
      let sending =
        then_do (λ (r : TcpConn × ℕ). done (r.0, Buffer.consume msg r.1))
          (isend fuel s ch (Buffer.contents msg) (Buffer.size msg) 0) in
      if Buffer.size msg == 0 then done (s, msg) else sending

  -- send(Buffer& msg), which is not `output_` itself; without a channel it only warns.
  abbrev pub send_on : ℕ → TcpConn → Buffer → Option Channel → Outcome (TcpConn × Buffer)
  unfolding isend
  send_on fuel s msg none = done (s, msg)
  send_on fuel s msg (some ch) = then_do (send_rest fuel ch) (
      if write_enable ch
      then absorbed s (Buffer.absorb grants s.output (some msg))
      else done (s, msg))

  pub send : ℕ → TcpConn → Buffer → Outcome (TcpConn × Buffer)
  unfolding isend
  send fuel s msg = send_on fuel s msg s.channel
