-- ===== src/TcpConn/Staying.antt =====
-- tcpConn.cpp: what send leaves alone in a connection.
use net_library.Base.{
  ℕ, zero, suc, ◌+◌, ◌-◌, ◌≡◌, refl, subst, Bool, Option, none, some, List, either_branch, ltb,
  ◌==◌,
}
use net_library.Buffer
use net_library.Buffer.{Buffer, Cell}
use net_library.Poller.{Channel, write_enable}
use net_library.TcpConn.{
  TcpConn, Status, Outcome, done, bad_alloc, null_channel, unfinished, WriteResult, took,
  write_interrupted, write_again, write_broken, after_write, isend, absorbed, send_rest, send_on,
  then_do,
}
use net_library.TcpConn.States.{HasChannel, Stays}

abbrev pub conn_of : TcpConn × Buffer → TcpConn
conn_of p = p.0

module _ (grants : ℕ → Bool) (sent : ℕ → ℕ → WriteResult) where
  after_write-Stays :
      (rest : TcpConn → Channel → ℕ → Outcome (TcpConn × ℕ)) (s : TcpConn) (ch : Channel)
      (buf : List Cell) (n : ℕ) (r : WriteResult)
      → HasChannel s.channel
      → ((s' : TcpConn) (ch' : Channel) (m : ℕ)
          → s'.state ≡ s.state
          → HasChannel s'.channel
          → Stays (λ (p : TcpConn × ℕ). p.0) s.state (rest s' ch' m))
      → Stays (λ (p : TcpConn × ℕ). p.0) s.state (after_write grants sent rest s ch buf n r)
  after_write-Stays rest s ch buf n (took zero) c f = (refl, c)
  after_write-Stays rest s ch buf n (took (suc k)) c f = f _ ch (n + suc k) refl c
  after_write-Stays rest s ch buf n write_interrupted c f = f s ch n refl c
  after_write-Stays rest s ch buf n write_again c f = f _ _ n refl tt
  after_write-Stays rest s ch buf n write_broken c f = (refl, c)

  isend-Stays :
      (fuel : ℕ) (s : TcpConn) (ch : Channel) (buf : List Cell) (len n : ℕ)
      → HasChannel s.channel
      → Stays (λ (p : TcpConn × ℕ). p.0) s.state (isend grants sent fuel s ch buf len n)
  unfolding isend
  isend-Stays zero s ch buf len n c = tt
  isend-Stays (suc fuel) s ch buf len n c =
      either_branch (Stays (λ (p : TcpConn × ℕ). p.0) s.state) (ltb n len)
        (after_write-Stays (λ s' ch' m. isend grants sent fuel s' ch' buf len m)
          (record s { writes = s.writes + 1 }) ch buf n (sent s.writes (len - n)) c
          (λ s' ch' m e c'.
            subst
              (λ t. Stays (λ (p : TcpConn × ℕ). p.0) t (isend grants sent fuel s' ch' buf len m)) e
              (isend-Stays fuel s' ch' buf len m c')))
        (refl, c)

  consumed-Stays :
      (t : Status) (msg : Buffer) (o : Outcome (TcpConn × ℕ))
      → Stays (λ (p : TcpConn × ℕ). p.0) t o
      → Stays conn_of t (then_do (λ (r : TcpConn × ℕ). done (r.0, Buffer.consume msg r.1)) o)
  consumed-Stays t msg (done r) h = h
  consumed-Stays t msg bad_alloc h = tt
  consumed-Stays t msg null_channel h = h
  consumed-Stays t msg unfinished h = tt

  send_rest-Stays :
      (fuel : ℕ) (ch : Channel) (s : TcpConn) (msg : Buffer)
      → HasChannel s.channel
      → Stays conn_of s.state (send_rest grants sent fuel ch (s, msg))
  unfolding send_rest
  send_rest-Stays fuel ch s msg c =
      either_branch (Stays conn_of s.state) (Buffer.size msg == 0) (refl, c)
        (consumed-Stays s.state msg
          (isend grants sent fuel s ch (Buffer.contents msg) (Buffer.size msg) 0)
          (isend-Stays fuel s ch (Buffer.contents msg) (Buffer.size msg) 0 c))

  rest-Stays :
      (fuel : ℕ) (ch : Channel) (t : Status) (o : Outcome (TcpConn × Buffer))
      → Stays conn_of t o
      → Stays conn_of t (then_do (send_rest grants sent fuel ch) o)
  rest-Stays fuel ch t (done (s, msg)) (e, c) =
      subst (λ t. Stays conn_of t (send_rest grants sent fuel ch (s, msg))) e
        (send_rest-Stays fuel ch s msg c)
  rest-Stays fuel ch t bad_alloc h = tt
  rest-Stays fuel ch t null_channel h = elim h [ ]
  rest-Stays fuel ch t unfinished h = tt

  absorbed-Stays :
      (s : TcpConn) (r : Option (Buffer × Option Buffer))
      → HasChannel s.channel
      → Stays conn_of s.state (absorbed grants sent s r)
  absorbed-Stays s none c = tt
  absorbed-Stays s (some (o, none)) c = (refl, c)
  absorbed-Stays s (some (o, some msg)) c = (refl, c)

  pub send_on-Stays :
      (fuel : ℕ) (s : TcpConn) (msg : Buffer) (o : Option Channel)
      → HasChannel s.channel
      → Stays conn_of s.state (send_on grants sent fuel s msg o)
  unfolding send_on
  send_on-Stays fuel s msg none c = (refl, c)
  send_on-Stays fuel s msg (some ch) c = rest-Stays fuel ch s.state _ (
      either_branch (Stays conn_of s.state) (write_enable ch)
        (absorbed-Stays s (Buffer.absorb grants s.output (some msg)) c) (refl, c))
