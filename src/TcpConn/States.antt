-- ===== src/TcpConn/States.antt =====
-- tcpConn.cpp: the states that a connection goes through.
use net_library.Base.{
  ℕ, zero, suc, ◌+◌, ◌≡◌, refl, ap, sym, subst, ◌∙◌, Bool, true, false, not, ◌&&◌, Option, none,
  some, [], ◌∷◌, ◌++◌, either_branch, ◌==◌,
}
use net_library.Base.Int.{ℤ, is_neg}
use net_library.Buffer
use net_library.Buffer.{Buffer}
use net_library.Poller.{Channel}
use net_library.TcpConn.{
  TcpConn, Status, invalid, handshaking, connected, closed, failed, Outcome, done, bad_alloc,
  null_channel, unfinished, End, drained, closing, ReadResult, bytes, interrupted, again, broken,
  is_handshaking, is_connected, call_back, closed_state, cleanup, handshake, after_read, read_once,
  read_rounds, leave_loop, read_loop, after_handshake, handle_read_on, then_do,
}

-- One change of the state, and any number of them.
pub data Next : Status → Status → Type 0 where
  connects : Next handshaking connected
  fails : Next handshaking failed
  closes : Next connected closed

pub data Reaches : Status → Status → Type 0 where
  here : {t : Status} → Reaches t t
  through : {a b c : Status} → Next a b → Reaches b c → Reaches a c

pub Reaches-trans : {a b c : Status} → Reaches a b → Reaches b c → Reaches a c
Reaches-trans here k = k
Reaches-trans (through n r) k = through n (Reaches-trans r k)

abbrev pub HasChannel : Option Channel → Type 0
HasChannel none = ⊥
HasChannel (some ch) = Unit

-- From a state on, a call that ends leaves a state that is reached from it, and a channel; and no
-- null pointer is followed.
abbrev pub Safe : Status → Outcome TcpConn → Type 0
Safe t (done s) = Reaches t s.state × HasChannel s.channel
Safe t bad_alloc = Unit
Safe t null_channel = ⊥
Safe t unfinished = Unit

-- The loops change neither the state nor whether there is a channel.
abbrev pub Stays : {A : Type 0} → (A → TcpConn) → Status → Outcome A → Type 0
Stays at t (done r) = ((at r).state ≡ t) × HasChannel (at r).channel
Stays at t bad_alloc = Unit
Stays at t null_channel = ⊥
Stays at t unfinished = Unit

-- What a callback is assumed to leave alone.
abbrev pub KeepsState : (TcpConn → TcpConn) → Type 0
KeepsState handle = (s : TcpConn) → ((handle s).state ≡ s.state) × ((handle s).channel ≡ s.channel)

module _ (handle : TcpConn → TcpConn) (keeps : KeepsState handle) where
  call_back-same :
      (s : TcpConn)
      → ((call_back handle s).state ≡ s.state) × ((call_back handle s).channel ≡ s.channel)
  call_back-same s =
      either_branch (λ (r : TcpConn). (r.state ≡ s.state) × (r.channel ≡ s.channel))
        (s.readcb && not (Buffer.size s.input == 0))
        (keeps (record s { seen = s.seen ++ Buffer.contents s.input ∷ [] })) (refl, refl)

  pub cleanup-same :
      (s : TcpConn)
      → ((cleanup handle s).state ≡ closed_state handle s.state)
        × ((cleanup handle s).channel ≡ s.channel)
  unfolding cleanup
  cleanup-same s = let c = call_back-same s in (ap (closed_state handle) c.0, c.1)

  module _ (grants : ℕ → Bool) (socket : ℕ → ℕ → ReadResult) where
    after_read-Stays :
        (rest : TcpConn → Outcome (TcpConn × End)) (s : TcpConn) (r : ReadResult)
        → HasChannel s.channel
        → ((s' : TcpConn)
            → s'.state ≡ s.state
            → HasChannel s'.channel
            → Stays (λ p. p.0) s.state (rest s'))
        → Stays (λ p. p.0) s.state (after_read handle grants socket rest s r)
    after_read-Stays rest s interrupted c f = f s refl c
    after_read-Stays rest s again c f = (refl, c)
    after_read-Stays rest s broken c f = (refl, c)
    after_read-Stays rest s (bytes []) c f = (refl, c)
    after_read-Stays rest s (bytes (x ∷ xs)) c f = f _ refl c

    read_once-Stays :
        (rest : TcpConn → Outcome (TcpConn × End)) (s : TcpConn) (fd : ℤ) (b : Option Buffer)
        → HasChannel s.channel
        → ((s' : TcpConn)
            → s'.state ≡ s.state
            → HasChannel s'.channel
            → Stays (λ p. p.0) s.state (rest s'))
        → Stays (λ p. p.0) s.state (read_once handle grants socket rest s fd b)
    read_once-Stays rest s fd none c f = tt
    read_once-Stays rest s fd (some b) c f =
        either_branch (Stays (λ p. p.0) s.state) (is_neg fd) (refl, c)
          (after_read-Stays rest (record s { input = b; reads = s.reads + 1 })
            (socket s.reads (Buffer.space b)) c f)

    read_rounds-Stays :
        (fuel : ℕ) (s : TcpConn) (fd : ℤ)
        → HasChannel s.channel
        → Stays (λ p. p.0) s.state (read_rounds handle grants socket fuel s fd)
    unfolding read_rounds
    read_rounds-Stays zero s fd c = tt
    read_rounds-Stays (suc n) s fd c =
        read_once-Stays (λ s'. read_rounds handle grants socket n s' fd) s fd
          (Buffer.make_some_room grants s.input) c
          (λ s' e c'.
            subst (λ t. Stays (λ p. p.0) t (read_rounds handle grants socket n s' fd)) e
              (read_rounds-Stays n s' fd c'))

    leave_loop-Safe :
        (o : Outcome (TcpConn × End))
        → Stays (λ p. p.0) connected o
        → Safe connected (then_do (leave_loop handle grants socket) o)
    unfolding leave_loop
    leave_loop-Safe (done (s, drained)) (e, c) =
        let same = call_back-same s in
        (subst (λ t. Reaches connected t) (sym (same.0 ∙ e)) here, subst HasChannel (sym same.1) c)
    leave_loop-Safe (done (s, closing)) (e, c) =
        let same = cleanup-same s in
        let q : (cleanup handle s).state ≡ closed = same.0 ∙ ap (closed_state handle) e in
        (
          subst (λ t. Reaches connected t) (sym q) (through closes here),
          subst HasChannel (sym same.1) c,
        )
    leave_loop-Safe bad_alloc c = tt
    leave_loop-Safe null_channel c = elim c [ ]
    leave_loop-Safe unfinished c = tt

    read_loop-Safe :
        (fuel : ℕ) (s : TcpConn) (fd : ℤ) (t : Status)
        → s.state ≡ t
        → HasChannel s.channel
        → Safe t (read_loop handle grants socket fuel s fd)
    unfolding read_loop
    read_loop-Safe fuel s fd connected e c = rw (ap is_connected e) (
        leave_loop-Safe (read_rounds handle grants socket fuel s fd) (
          subst (λ t. Stays (λ p. p.0) t (read_rounds handle grants socket fuel s fd)) e
            (read_rounds-Stays fuel s fd c)))
    read_loop-Safe fuel s fd invalid e c =
        rw (ap is_connected e) (subst (λ t. Reaches invalid t) (sym e) here, c)
    read_loop-Safe fuel s fd handshaking e c =
        rw (ap is_connected e) (subst (λ t. Reaches handshaking t) (sym e) here, c)
    read_loop-Safe fuel s fd closed e c =
        rw (ap is_connected e) (subst (λ t. Reaches closed t) (sym e) here, c)
    read_loop-Safe fuel s fd failed e c =
        rw (ap is_connected e) (subst (λ t. Reaches failed t) (sym e) here, c)

    Safe-through : (a b : Status) (o : Outcome TcpConn) → Next a b → Safe b o → Safe a o
    Safe-through a b (done s) n h = (through n h.0, h.1)
    Safe-through a b bad_alloc n h = tt
    Safe-through a b null_channel n h = h
    Safe-through a b unfinished n h = tt

    shaken-Safe :
        (fuel : ℕ) (s : TcpConn) (ch : Channel) (ready : Bool)
        → s.state ≡ handshaking
        → HasChannel s.channel
        → Safe handshaking
            (after_handshake handle grants socket fuel ch (handshake handle s ch ready))
    unfolding handshake
    shaken-Safe fuel s ch true e c =
        Safe-through handshaking connected _ connects
          (read_loop-Safe fuel _ ch.fd connected refl tt)
    shaken-Safe fuel s ch false e c =
        let same = cleanup-same s in
        let q : (cleanup handle s).state ≡ failed = same.0 ∙ ap (closed_state handle) e in
        (
          subst (λ t. Reaches handshaking t) (sym q) (through fails here),
          subst HasChannel (sym same.1) c,
        )

    pub handle_read_on-Safe :
        (fuel : ℕ) (s : TcpConn) (ready : Bool) (o : Option Channel) (t : Status)
        → s.state ≡ t
        → HasChannel s.channel
        → HasChannel o
        → Safe t (handle_read_on handle grants socket fuel s ready o)
    unfolding handle_read_on
    handle_read_on-Safe fuel s ready none t e c d = elim d [ ]
    handle_read_on-Safe fuel s ready (some ch) handshaking e c d =
        rw (ap is_handshaking e) (shaken-Safe fuel s ch ready e c)
    handle_read_on-Safe fuel s ready (some ch) invalid e c d =
        rw (ap is_handshaking e) (read_loop-Safe fuel s ch.fd invalid e c)
    handle_read_on-Safe fuel s ready (some ch) connected e c d =
        rw (ap is_handshaking e) (read_loop-Safe fuel s ch.fd connected e c)
    handle_read_on-Safe fuel s ready (some ch) closed e c d =
        rw (ap is_handshaking e) (read_loop-Safe fuel s ch.fd closed e c)
    handle_read_on-Safe fuel s ready (some ch) failed e c d =
        rw (ap is_handshaking e) (read_loop-Safe fuel s ch.fd failed e c)
