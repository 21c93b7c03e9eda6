-- ===== src/Echo.antt =====
-- main.cpp: the echo server of TestTcpServer, whose connections send back what they have read.
pub mod Lossless
pub mod Answering
mod Tests
use net_library.Base.{ℕ, Bool, List, [], ◌∷◌}
use net_library.Base.Int.{ℤ}
use net_library.Buffer.{Buffer}
use net_library.TcpConn.{
  TcpConn, Outcome, done, bad_alloc, null_channel, unfinished, ReadResult, WriteResult, send,
  handle_read, handle_write, then_do, attach, on_read, init,
}

-- What is left of the message stays in the input. Where `send` does not return, the callback does not
-- either, which `serve_event` passes on.
abbrev pub put_back : TcpConn → Outcome (TcpConn × Buffer) → TcpConn
put_back s (done (s', msg)) = record s' { input = msg }
put_back s bad_alloc = record s { callback_end = bad_alloc }
put_back s null_channel = record s { callback_end = null_channel }
put_back s unfinished = record s { callback_end = unfinished }

-- The handlers call the callback last, but for the change of the state in cleanup: where it ends with
-- std::bad_alloc or runs on, so does the handler.
abbrev pub after_callback : TcpConn → Outcome TcpConn
after_callback s = then_do (λ (u : Unit {0}). done s) s.callback_end

-- con->send(con->getInput())
abbrev pub echo : (ℕ → Bool) → (ℕ → ℕ → WriteResult) → ℕ → TcpConn → TcpConn
echo grants sent fuel s = put_back s (send grants sent fuel s s.input)

-- A connection of the server, attached to its descriptor, on which onRead has set the callback; it has
-- had no channel before.
abbrev pub attached : ℤ → TcpConn
attached fd = on_read (attach (λ s. s) init fd)

-- What the loop of the event base calls: the channel is readable, or writable, with what poll says of
-- it.
pub data ChannelEvent : Type 0 where
  readable writable : Bool → ChannelEvent

module _ (grants : ℕ → Bool) (socket : ℕ → ℕ → ReadResult) (sent : ℕ → ℕ → WriteResult) where
  abbrev pub serve_event : ℕ → TcpConn → ChannelEvent → Outcome TcpConn
  serve_event fuel s (readable ready) =
      then_do after_callback (handle_read (echo grants sent fuel) grants socket fuel s ready)
  serve_event fuel s (writable ready) =
      then_do after_callback (handle_write (echo grants sent fuel) s ready)

  -- A connection on its way through events.
  pub serve : ℕ → TcpConn → List ChannelEvent → Outcome TcpConn
  serve fuel s [] = done s
  serve fuel s (event ∷ events) = then_do (λ s'. serve fuel s' events) (serve_event fuel s event)
