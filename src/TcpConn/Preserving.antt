-- ===== src/TcpConn/Preserving.antt =====
-- tcpConn.cpp: what handleRead and handleWrite keep true of a connection.
use net_library.Base.{
  ℕ, ◌≡◌, ◌<◌, Bool, true, false, Option, none, some, List, ◌&&◌, not, ◌==◌, either_branch,
  Bool-cases, inl, inr,
}
use net_library.Base.Int.{ℤ}
use net_library.Buffer
use net_library.Buffer.Inv.{IsValid, max_array}
use net_library.Poller.{Channel, enable_read_write}
use net_library.TcpConn.{
  TcpConn, connected, Outcome, done, bad_alloc, null_channel, unfinished, ReadResult, End, drained,
  closing, is_handshaking, is_connected, call_back, cleanup, closed_state, handshake, leave_loop,
  read_loop, after_handshake, handle_read_on, handle_read, shake_on, handle_write, then_do,
}
use net_library.TcpConn.Reading.{IsFitting, HasRead}
use net_library.TcpConn.Wire.{WhenDone}
use net_library.TcpConn.Received.{HasReadOn, read_rounds-HasReadOn}

-- What is kept by the callback, by reads, by a handshake that succeeds, and by closing.
pub record Kept (handle : TcpConn → TcpConn) (P : TcpConn → Type 0) : Type 0 where
  pub valid : (s : TcpConn) → P s → IsValid s.input
  pub calls :
      (s : TcpConn) (seen : List (List Buffer.Cell)) → P s → P (handle (record s { seen = seen }))
  pub reads : (s s' : TcpConn) → is_connected s.state ≡ true → HasRead s s' → P s → P s'
  pub opens :
      (s : TcpConn) (ch : Channel)
      → is_handshaking s.state ≡ true
      → P s
      → P (record s { channel = some (enable_read_write ch true false); state = connected })
  pub closes :
      (s : TcpConn) → P s → P (record s { state = closed_state handle s.state; readcb = false })

module _ (handle : TcpConn → TcpConn) (P : TcpConn → Type 0) (kept : Kept handle P) where
  call_back-kept : (s : TcpConn) → P s → P (call_back handle s)
  call_back-kept s p =
      either_branch P (s.readcb && not (Buffer.size s.input == 0)) (kept.calls s _ p) p

  cleanup-kept : (s : TcpConn) → P s → P (cleanup handle s)
  unfolding cleanup
  cleanup-kept s p = kept.closes (call_back handle s) (call_back-kept s p)

  handshake-kept :
      (s : TcpConn) (ch : Channel) (ready : Bool)
      → is_handshaking s.state ≡ true
      → P s
      → P (handshake handle s ch ready).0
  unfolding handshake
  handshake-kept s ch true h p = kept.opens s ch h p
  handshake-kept s ch false h p = cleanup-kept s p

  shake_on-kept :
      (s : TcpConn) (ready : Bool) (o : Option Channel)
      → is_handshaking s.state ≡ true
      → P s
      → WhenDone P (shake_on handle s ready o)
  unfolding shake_on
  shake_on-kept s ready none h p = tt
  shake_on-kept s ready (some ch) h p = handshake-kept s ch ready h p

  pub handle_write-kept :
      (s : TcpConn) (ready : Bool) → P s → WhenDone P (handle_write handle s ready)
  unfolding handle_write
  handle_write-kept s ready p = elim (Bool-cases (is_handshaking s.state)) [
    | inl h ↦ rw h (shake_on-kept s ready s.channel h p)
    | inr h ↦ rw h p
  ]

  module _ (grants : ℕ → Bool) (socket : ℕ → ℕ → ReadResult)
      (array_limit : (n : ℕ) → grants n ≡ true → n < max_array)
      (fits : (n space : ℕ) → IsFitting space (socket n space)) where
    leave_loop-kept :
        (s : TcpConn) (o : Outcome (TcpConn × End))
        → is_connected s.state ≡ true
        → P s
        → WhenDone (HasReadOn s) o
        → WhenDone P (then_do (leave_loop handle grants socket) o)
    unfolding leave_loop
    leave_loop-kept s (done (s', drained)) c p h = call_back-kept s' (kept.reads s s' c h p)
    leave_loop-kept s (done (s', closing)) c p h = cleanup-kept s' (kept.reads s s' c h p)
    leave_loop-kept s bad_alloc c p h = tt
    leave_loop-kept s null_channel c p h = tt
    leave_loop-kept s unfinished c p h = tt

    read_loop-kept :
        (fuel : ℕ) (s : TcpConn) (fd : ℤ)
        → P s
        → WhenDone P (read_loop handle grants socket fuel s fd)
    unfolding read_loop
    read_loop-kept fuel s fd p = elim (Bool-cases (is_connected s.state)) [
      | inl c ↦ rw c (
          leave_loop-kept s _ c p (
            read_rounds-HasReadOn handle grants socket array_limit fits fuel s fd (kept.valid s p)))
      | inr c ↦ rw c p
    ]

    after_handshake-kept :
        (fuel : ℕ) (ch : Channel) (r : TcpConn × Bool)
        → P r.0
        → WhenDone P (after_handshake handle grants socket fuel ch r)
    after_handshake-kept fuel ch (s, true) p = read_loop-kept fuel s ch.fd p
    after_handshake-kept fuel ch (s, false) p = p

    handle_read_on-kept :
        (fuel : ℕ) (s : TcpConn) (ready : Bool) (o : Option Channel)
        → P s
        → WhenDone P (handle_read_on handle grants socket fuel s ready o)
    unfolding handle_read_on
    handle_read_on-kept fuel s ready none p = tt
    handle_read_on-kept fuel s ready (some ch) p = elim (Bool-cases (is_handshaking s.state)) [
      | inl h ↦ rw h (after_handshake-kept fuel ch _ (handshake-kept s ch ready h p))
      | inr h ↦ rw h (read_loop-kept fuel s ch.fd p)
    ]

    pub handle_read-kept :
        (fuel : ℕ) (s : TcpConn) (ready : Bool)
        → P s
        → WhenDone P (handle_read handle grants socket fuel s ready)
    unfolding handle_read
    handle_read-kept fuel s ready p = handle_read_on-kept fuel s ready s.channel p
