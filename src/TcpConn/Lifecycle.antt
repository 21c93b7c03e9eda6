-- ===== src/TcpConn/Lifecycle.antt =====
-- tcpConn.cpp: what handleRead and handleWrite do in each state of a connection.
use net_library.Base.{
  ℕ, ◌+◌, ◌≡◌, ◌<◌, ◌⊎◌, inl, inr, refl, ap, sym, subst, Bool, true, false, some, ◌∙◌,
}
use net_library.Base.Int.{is_neg}
use net_library.Poller.{Channel}
use net_library.Buffer.Inv.{IsValid, max_array}
use net_library.TcpConn.{
  TcpConn, Status, invalid, handshaking, connected, closed, failed, Outcome, done, bad_alloc, End,
  drained, closing, ReadResult, is_handshaking, is_connected, call_back, closed_state, cleanup,
  read_rounds, read_loop, leave_loop, handle_read, handle_read_on, handle_write, then_do,
}
use net_library.TcpConn.Reading.{IsFitting, IsLast, HasRead, Reads, read_rounds-Reads}

-- handleRead either runs out of memory, or has read all there was and called back or cleaned up.
abbrev pub Handles : (TcpConn → TcpConn) → TcpConn → Outcome TcpConn → Type 0
Handles handle s o =
    (o ≡ bad_alloc)
    ⊎ ((s' : TcpConn) × HasRead s s'
        × ((o ≡ done (call_back handle s')) ⊎ (o ≡ done (cleanup handle s'))))

module _ (handle : TcpConn → TcpConn) (grants : ℕ → Bool) (socket : ℕ → ℕ → ReadResult)
    (array_limit : (n : ℕ) → grants n ≡ true → n < max_array)
    (fits : (n space : ℕ) → IsFitting space (socket n space)) where
  left-Handles :
      {s : TcpConn} (o : Outcome (TcpConn × End))
      → Reads s o
      → Handles handle s (then_do (leave_loop handle grants socket) o)
  unfolding leave_loop
  left-Handles o (inl e) = rw e (inl refl)
  left-Handles o (inr (s', drained, e, h)) = rw e (inr (s', h, inl refl))
  left-Handles o (inr (s', closing, e, h)) = rw e (inr (s', h, inr refl))

  handle_read_connected :
      (fuel : ℕ) (s : TcpConn) (ch : Channel) (ready : Bool)
      → s.channel ≡ some ch
      → is_handshaking s.state ≡ false
      → is_connected s.state ≡ true
      → handle_read handle grants socket fuel s ready
        ≡ then_do (leave_loop handle grants socket) (read_rounds handle grants socket fuel s ch.fd)
  unfolding handle_read handle_read_on read_loop
  handle_read_connected fuel s ch ready c h i =
      ap (handle_read_on handle grants socket fuel s ready) c
      ∙ rw (h, handle_read_on) (rw (i, read_loop))

  -- Of a connection that is connected and has a descriptor, `handleRead` reads all bytes up to the
  -- read that yields neither bytes nor EINTR, if `k` reads come before that and memory suffices; it
  -- then calls back, with all of them behind those of the input, or cleans up.
  pub handle_read-Handles :
      (k fuel : ℕ) (s : TcpConn) (ch : Channel) (ready : Bool)
      → s.channel ≡ some ch
      → s.state ≡ connected
      → is_neg ch.fd ≡ false
      → IsValid s.input
      → ((space : ℕ) → IsLast (socket (s.reads + k) space))
      → k < fuel
      → Handles handle s (handle_read handle grants socket fuel s ready)
  unfolding handle_read read_loop
  handle_read-Handles k fuel s ch ready c t n v l h =
      subst (Handles handle s)
        (sym (handle_read_connected fuel s ch ready c (ap is_handshaking t) (ap is_connected t)))
        (left-Handles (read_rounds handle grants socket fuel s ch.fd)
          (read_rounds-Reads handle grants socket array_limit fits k fuel s ch.fd n v l h))

pub closed_state_lem :
    (handle : TcpConn → TcpConn) (t : Status)
    → (is_handshaking (closed_state handle t) ≡ false)
      × (is_connected (closed_state handle t) ≡ false)
closed_state_lem handle invalid = (refl, refl)
closed_state_lem handle handshaking = (refl, refl)
closed_state_lem handle connected = (refl, refl)
closed_state_lem handle closed = (refl, refl)
closed_state_lem handle failed = (refl, refl)

at_rest :
    (handle : TcpConn → TcpConn) (grants : ℕ → Bool) (socket : ℕ → ℕ → ReadResult) (fuel : ℕ)
    (s : TcpConn) (ch : Channel) (ready : Bool)
    → s.channel ≡ some ch
    → is_handshaking s.state ≡ false
    → is_connected s.state ≡ false
    → handle_read handle grants socket fuel s ready ≡ done s
unfolding handle_read handle_read_on read_loop
at_rest handle grants socket fuel s ch ready c h i =
    ap (handle_read_on handle grants socket fuel s ready) c
    ∙ rw (h, handle_read_on) (rw (i, read_loop))

write_at_rest :
    (handle : TcpConn → TcpConn) (s : TcpConn) (ready : Bool)
    → is_handshaking s.state ≡ false
    → handle_write handle s ready ≡ done s
unfolding handle_write
write_at_rest handle s ready h = rw (h, handle_write)

-- After `cleanup`, where the connection still has its channel, no callback is set, and `handleRead`
-- and `handleWrite` do nothing more.
pub cleanup-done :
    (handle : TcpConn → TcpConn) (grants : ℕ → Bool) (socket : ℕ → ℕ → ReadResult) (s : TcpConn)
    (fuel : ℕ) (ch : Channel) (ready : Bool)
    → (cleanup handle s).channel ≡ some ch
    → let s' = cleanup handle s in
      (handle_read handle grants socket fuel s' ready ≡ done s')
      × (handle_write handle s' ready ≡ done s')
      × (s'.readcb ≡ false)
unfolding cleanup
cleanup-done handle grants socket s fuel ch ready c =
    let r = closed_state_lem handle (call_back handle s).state in
    (
      at_rest handle grants socket fuel (cleanup handle s) ch ready c r.0 r.1,
      write_at_rest handle (cleanup handle s) ready r.0,
      refl,
    )

-- `cleanup` leaves the buffers and what went in and out as the callback does.
pub cleanup-call_back :
    (handle : TcpConn → TcpConn) (s : TcpConn)
    → let s' = cleanup handle s in
      (s'.wire ≡ (call_back handle s).wire)
      × (s'.received ≡ (call_back handle s).received)
      × (s'.input ≡ (call_back handle s).input)
      × (s'.callback_end ≡ (call_back handle s).callback_end)
unfolding cleanup
cleanup-call_back handle s = (refl, refl, refl, refl)
