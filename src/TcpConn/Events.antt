-- ===== src/TcpConn/Events.antt =====
-- tcpConn.cpp: a connection from attach on, through the events that reach it.
use net_library.Base.{
  ℕ, ◌≡◌, refl, ap, sym, subst, ◌∙◌, Bool, true, false, Option, none, some, List, [], ◌∷◌,
}
use net_library.Base.Int.{ℤ, negsuc}
use net_library.Buffer.{Buffer}
use net_library.Poller.{Channel, is_pos}
use net_library.TcpConn.{
  TcpConn, Status, invalid, handshaking, connected, closed, failed, Outcome, done, bad_alloc,
  null_channel, unfinished, ReadResult, WriteResult, attach, is_handshaking, cleanup, closed_state,
  handshake, handle_read, handle_write, send, shake_on, then_do,
}
use net_library.TcpConn.Staying.{conn_of, send_on-Stays}
use net_library.TcpConn.States.{
  Reaches, here, through, connects, fails, Reaches-trans, HasChannel, Safe, Stays, KeepsState,
  cleanup-same, handle_read_on-Safe,
}

-- What reaches a connection: its channel is readable, or writable, with what poll says of it; or the
-- client sends.
pub data ConnEvent : Type 0 where
  readable writable : Bool → ConnEvent
  sends : Buffer → ConnEvent

-- The connection behind a send; what is left of the message is the client's.
abbrev pub sent_by : TcpConn × Buffer → Outcome TcpConn
sent_by (s, msg) = done s

module _ (handle : TcpConn → TcpConn) (grants : ℕ → Bool) (socket : ℕ → ℕ → ReadResult)
    (sent : ℕ → ℕ → WriteResult) where
  pub run_event : ℕ → TcpConn → ConnEvent → Outcome TcpConn
  run_event fuel s (readable ready) = handle_read handle grants socket fuel s ready
  run_event fuel s (writable ready) = handle_write handle s ready
  run_event fuel s (sends msg) = then_do sent_by (send grants sent fuel s msg)

  pub run_events : ℕ → TcpConn → List ConnEvent → Outcome TcpConn
  unfolding run_event
  run_events fuel s [] = done s
  run_events fuel s (e ∷ es) = then_do (λ s'. run_events fuel s' es) (run_event fuel s e)

  handshake-Safe :
      KeepsState handle
      → (s : TcpConn) (ch : Channel) (ready : Bool) → s.state ≡ handshaking
      → HasChannel s.channel
      → Safe handshaking (done (handshake handle s ch ready).0)
  unfolding handshake
  handshake-Safe keeps s ch true e c = (through connects here, tt)
  handshake-Safe keeps s ch false e c =
      let same = cleanup-same handle keeps s in
      let q : (cleanup handle s).state ≡ failed = same.0 ∙ ap (closed_state handle) e in
      (
        subst (λ t. Reaches handshaking t) (sym q) (through fails here),
        subst HasChannel (sym same.1) c,
      )

  sent_by-Safe :
      (t : Status) (o : Outcome (TcpConn × Buffer)) → Stays conn_of t o → Safe t (then_do sent_by o)
  sent_by-Safe t (done (s, msg)) (e, c) = (subst (λ u. Reaches t u) (sym e) here, c)
  sent_by-Safe t bad_alloc h = tt
  sent_by-Safe t null_channel h = h
  sent_by-Safe t unfinished h = tt

  shake_on-Safe :
      KeepsState handle
      → (s : TcpConn) (ready : Bool) (o : Option Channel) → s.state ≡ handshaking
      → HasChannel s.channel
      → HasChannel o
      → Safe handshaking (shake_on handle s ready o)
  unfolding shake_on
  shake_on-Safe keeps s ready none e c d = elim d [ ]
  shake_on-Safe keeps s ready (some ch) e c d = handshake-Safe keeps s ch ready e c

  handle_write-Safe :
      KeepsState handle
      → (s : TcpConn) (ready : Bool) (t : Status) → s.state ≡ t
      → HasChannel s.channel
      → Safe t (handle_write handle s ready)
  unfolding handle_write
  handle_write-Safe keeps s ready handshaking e c =
      rw (ap is_handshaking e) (shake_on-Safe keeps s ready s.channel e c c)
  handle_write-Safe keeps s ready invalid e c =
      rw (ap is_handshaking e) (subst (λ t. Reaches invalid t) (sym e) here, c)
  handle_write-Safe keeps s ready connected e c =
      rw (ap is_handshaking e) (subst (λ t. Reaches connected t) (sym e) here, c)
  handle_write-Safe keeps s ready closed e c =
      rw (ap is_handshaking e) (subst (λ t. Reaches closed t) (sym e) here, c)
  handle_write-Safe keeps s ready failed e c =
      rw (ap is_handshaking e) (subst (λ t. Reaches failed t) (sym e) here, c)

  run_event-Safe :
      KeepsState handle
      → (fuel : ℕ) (s : TcpConn) (e : ConnEvent) → HasChannel s.channel
      → Safe s.state (run_event fuel s e)
  unfolding run_event handle_read send
  run_event-Safe keeps fuel s (readable ready) c =
      handle_read_on-Safe handle keeps grants socket fuel s ready s.channel s.state refl c c
  run_event-Safe keeps fuel s (writable ready) c = handle_write-Safe keeps s ready s.state refl c
  run_event-Safe keeps fuel s (sends msg) c =
      sent_by-Safe s.state _ (send_on-Stays grants sent fuel s msg s.channel c)

  then-Safe :
      (t : Status) (o : Outcome TcpConn) (f : TcpConn → Outcome TcpConn)
      → Safe t o
      → ((s : TcpConn) → HasChannel s.channel → Safe s.state (f s))
      → Safe t (then_do f o)
  then-Safe t (done s) f (r, c) h = later t s.state (f s) r (h s c)
    where
      later : (a b : Status) (o : Outcome TcpConn) → Reaches a b → Safe b o → Safe a o
      later a b (done s) r h = (Reaches-trans r h.0, h.1)
      later a b bad_alloc r h = tt
      later a b null_channel r h = h
      later a b unfinished r h = tt
  then-Safe t bad_alloc f h k = tt
  then-Safe t null_channel f h k = elim h [ ]
  then-Safe t unfinished f h k = tt

  run_events-Safe :
      KeepsState handle
      → (fuel : ℕ) (s : TcpConn) (es : List ConnEvent) → HasChannel s.channel
      → Safe s.state (run_events fuel s es)
  unfolding run_events
  run_events-Safe keeps fuel s [] c = (here, c)
  run_events-Safe keeps fuel s (e ∷ es) c =
      then-Safe s.state (run_event fuel s e) (λ s'. run_events fuel s' es)
        (run_event-Safe keeps fuel s e c) (λ s' c'. run_events-Safe keeps fuel s' es c')

  -- Of a connection without a channel that has been attached, whatever events follow, no handler and no
  -- send follows a null channel, and the state only goes from Handshaking to Connected or Failed, and
  -- from Connected to Closed: with any fuel, and where the callback changes neither the state nor the
  -- channel.
  pub attach-run_events-Safe :
      KeepsState handle
      → (fuel : ℕ) (s : TcpConn) (fd : ℤ) (es : List ConnEvent) → s.channel ≡ none
      → Safe handshaking (run_events fuel (attach handle s fd) es)
  unfolding attach
  attach-run_events-Safe keeps fuel s fd es e =
      let begins : (attach handle s fd).state ≡ handshaking = rw e refl in
      subst (λ t. Safe t (run_events fuel (attach handle s fd) es)) begins
        (run_events-Safe keeps fuel (attach handle s fd) es tt)

-- A connection with an open channel is attached in the state Failed, without its callback.
pub attach-attached :
    (handle : TcpConn → TcpConn)
    → KeepsState handle
    → (s : TcpConn) (ch : Channel) (fd : ℤ) → s.channel ≡ some ch
    → is_pos ch.fd ≡ true
    → ((attach handle s fd).state ≡ failed) × ((attach handle s fd).readcb ≡ false)
unfolding attach cleanup
attach-attached handle keeps s ch fd e p =
    let at : TcpConn = record s {
      state = handshaking;
      channel = some (record ch { fd = negsuc 0 });
    } in
    let same = cleanup-same handle keeps at in rw (e, p) (same.0, refl)
