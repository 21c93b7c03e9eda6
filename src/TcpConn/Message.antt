-- ===== src/TcpConn/Message.antt =====
-- tcpConn.cpp: what send does with a message.
use net_library.Base.{
  ℕ, ◌≡◌, ◌<◌, ◌≤◌, ◌⊎◌, refl, ap, sym, subst, ◌∙◌, Bool, true, false, Option, none, some, [], ◌++◌,
  inl, inr, arith, either_branch, take, drop, length, ◌==◌, ==_iff,
}
use net_library.Buffer
use net_library.Buffer.{Buffer, Cell, contents}
use net_library.Buffer.Inv.{IsValid, max_array, length-contents}
use net_library.Buffer.Append.{consume_lem}
use net_library.Buffer.Copy.{absorb_lem}
use net_library.Poller.{Channel, write_enable}
use net_library.TcpConn.{
  TcpConn, Outcome, done, bad_alloc, null_channel, unfinished, WriteResult, send, send_on,
  send_rest, then_do,
}
use net_library.TcpConn.Sending.{TakesWithin}
use net_library.TcpConn.Wire.{HasSent, HasSent-same, isend-Sends, Sends, WhenDone}

-- The message has gone to the output, behind what that held.
pub record Absorbed (s : TcpConn) (msg o' msg' : Buffer) : Type 0 where
  pub output_valid : IsValid o'
  pub left_valid : IsValid msg'
  pub appended : contents o' ≡ contents s.output ++ contents msg
  pub emptied : contents msg' ≡ []

-- The first `count` bytes of the message have gone out, and it keeps the others.
pub record Written (s : TcpConn) (msg : Buffer) (s' : TcpConn) (msg' : Buffer) : Type 0 where
  pub count : ℕ
  pub count_le : count ≤ length (contents msg)
  pub gone : HasSent s s' (take count (contents msg))
  pub kept : contents msg' ≡ drop count (contents msg)
  pub left_valid : IsValid msg'

module _ (grants : ℕ → Bool) (sent : ℕ → ℕ → WriteResult) where
  pub send_at :
      (fuel : ℕ) (s : TcpConn) (msg : Buffer) (o : Option Channel)
      → s.channel ≡ o
      → send grants sent fuel s msg ≡ send_on grants sent fuel s msg o
  unfolding send
  send_at fuel s msg o c = ap (send_on grants sent fuel s msg) c

  pub send-none :
      (fuel : ℕ) (s : TcpConn) (msg : Buffer)
      → s.channel ≡ none
      → send grants sent fuel s msg ≡ done (s, msg)
  unfolding send_on
  send-none fuel s msg c = send_at fuel s msg none c

module _ (grants : ℕ → Bool) (array_limit : (n : ℕ) → grants n ≡ true → n < max_array)
    (sent : ℕ → ℕ → WriteResult) (within : (n len : ℕ) → TakesWithin len (sent n len)) where
  nothing_left : {b : Buffer} → IsValid b → contents b ≡ [] → (Buffer.size b == 0) ≡ true
  nothing_left {b} v e = (==_iff (Buffer.size b) 0).1 (sym (length-contents v) ∙ ap length e)

  pub send-Absorbed :
      (fuel : ℕ) (s : TcpConn) (msg : Buffer) (ch : Channel)
      → IsValid s.output
      → IsValid msg
      → s.channel ≡ some ch
      → write_enable ch ≡ true
      → (send grants sent fuel s msg ≡ bad_alloc)
        ⊎ ((o' msg' : Buffer) × (send grants sent fuel s msg
              ≡ done (record s { output = o' }, msg'))
            × Absorbed s msg o' msg')
  unfolding send_on send_rest
  send-Absorbed fuel s msg ch vo vm c w = elim (absorb_lem grants array_limit vo vm) [
    | inl (g, e) ↦ inl (send_at grants sent fuel s msg (some ch) c ∙ rw (w, e) refl)
    | inr (o', m', e, vo', vm', co, cm, xo, xm) ↦
        let z : (Buffer.size m' == 0) ≡ true = nothing_left vm' cm in
        inr (
          o',
          m',
          send_at grants sent fuel s msg (some ch) c ∙ rw (w, e, z) refl,
          record { output_valid = vo'; left_valid = vm'; appended = co; emptied = cm },
        )
  ]

  consumed-Written :
      (s : TcpConn) (msg : Buffer) (o : Outcome (TcpConn × ℕ))
      → IsValid msg
      → WhenDone (Sends s (contents msg) 0 (Buffer.size msg)) o
      → WhenDone
          (λ (p : TcpConn × Buffer). Written s msg p.0 p.1)
          (then_do (λ (r : TcpConn × ℕ). done (r.0, Buffer.consume msg r.1)) o)
  consumed-Written s msg (done (s', m)) v (lo, hi, h) =
      let k = consume_lem m v hi in
      record {
        count = m;
        count_le = omega (arith, hi, length-contents v);
        gone = subst (λ k. HasSent s s' (take k (contents msg))) (omega arith) h;
        kept = k.1;
        left_valid = k.0;
      }
  consumed-Written s msg bad_alloc v h = tt
  consumed-Written s msg null_channel v h = tt
  consumed-Written s msg unfinished v h = tt

  pub send-Written :
      (fuel : ℕ) (s : TcpConn) (msg : Buffer) (ch : Channel)
      → IsValid msg
      → s.channel ≡ some ch
      → write_enable ch ≡ false
      → WhenDone (λ (p : TcpConn × Buffer). Written s msg p.0 p.1) (send grants sent fuel s msg)
  unfolding send_on send_rest
  send-Written fuel s msg ch v c w =
      subst (WhenDone (λ (p : TcpConn × Buffer). Written s msg p.0 p.1))
        (sym (send_at grants sent fuel s msg (some ch) c))
        (rw w (
          either_branch (WhenDone (λ (p : TcpConn × Buffer). Written s msg p.0 p.1))
            (Buffer.size msg == 0)
            (record {
              count = 0;
              count_le = omega arith;
              gone = HasSent-same s s.writes s.channel;
              kept = refl;
              left_valid = v;
            })
            (consumed-Written s msg _ v (
              isend-Sends grants sent within fuel s ch (contents msg) (Buffer.size msg) 0
                (omega arith)))))
