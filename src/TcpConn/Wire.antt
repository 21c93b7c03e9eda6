-- ===== src/TcpConn/Wire.antt =====
-- tcpConn.cpp: what isend and send put on the wire.
use net_library.Base.{
  ℕ, Option, some, zero, suc, ◌+◌, ◌-◌, ◌≤◌, ◌≡◌, refl, ap, sym, subst, ◌∙◌, arith, Bool, ltb, List,
  [], ◌++◌, take, drop, drop-drop, take_add, take-zero, append-nil, append_assoc, either_branch,
}
use net_library.Buffer.{Cell}
use net_library.Poller.{Channel}
use net_library.TcpConn.{
  TcpConn, Outcome, done, bad_alloc, null_channel, unfinished, WriteResult, took, write_interrupted,
  write_again, write_broken, after_write, isend, wait_to_write,
}
use net_library.TcpConn.Sending.{TakesWithin}

pub take-drop_on :
    (buf : List Cell) (n k m : ℕ)
    → n + k ≤ m
    → take k (drop n buf) ++ take (m - (n + k)) (drop (n + k) buf) ≡ take (m - n) (drop n buf)
take-drop_on buf n k m le =
    ap (λ w. take k (drop n buf) ++ take (m - (n + k)) w) (sym (drop-drop k n buf))
    ∙ take_add k (m - (n + k)) (drop n buf)
    ∙ ap (λ j. take j (drop n buf)) (omega (arith, le))

-- What holds of a result, where there is one.
abbrev pub WhenDone {ℓ} : {A : Type ℓ} → (A → Type 0) → Outcome A → Type 0
WhenDone P (done a) = P a
WhenDone P bad_alloc = Unit
WhenDone P null_channel = Unit
WhenDone P unfinished = Unit

-- These bytes have gone out, and nothing else of the connection has changed but its channel and the
-- number of its writes.
pub record HasSent (s s' : TcpConn) (text : List Cell) : Type 0 where
  pub on_wire : s'.wire ≡ s.wire ++ text
  pub state_same : s'.state ≡ s.state
  pub readcb_same : s'.readcb ≡ s.readcb
  pub input_same : s'.input ≡ s.input
  pub output_same : s'.output ≡ s.output
  pub reads_same : s'.reads ≡ s.reads
  pub received_same : s'.received ≡ s.received
  pub seen_same : s'.seen ≡ s.seen

abbrev pub Sends : TcpConn → List Cell → ℕ → ℕ → TcpConn × ℕ → Type 0
Sends s buf n len (s', m) = (n ≤ m) × (m ≤ len) × HasSent s s' (take (m - n) (drop n buf))

HasSent-trans :
    {s s1 s2 : TcpConn} {a b : List Cell} → HasSent s s1 a → HasSent s1 s2 b → HasSent s s2 (a ++ b)
HasSent-trans {s} {s1} {s2} {a} {b} h k = record {
  on_wire = k.on_wire ∙ ap (λ w. w ++ b) h.on_wire ∙ append_assoc s.wire a b;
  state_same = k.state_same ∙ h.state_same;
  readcb_same = k.readcb_same ∙ h.readcb_same;
  input_same = k.input_same ∙ h.input_same;
  output_same = k.output_same ∙ h.output_same;
  reads_same = k.reads_same ∙ h.reads_same;
  received_same = k.received_same ∙ h.received_same;
  seen_same = k.seen_same ∙ h.seen_same;
}

pub HasSent-same :
    (s : TcpConn) (w : ℕ) (ch : Option Channel)
    → HasSent s (record s { writes = w; channel = ch }) []
HasSent-same s w ch = record {
  on_wire = sym (append-nil s.wire);
  state_same = refl;
  readcb_same = refl;
  input_same = refl;
  output_same = refl;
  reads_same = refl;
  received_same = refl;
  seen_same = refl;
}

HasSent-take :
    (s : TcpConn) (text : List Cell) → HasSent s (record s { wire = s.wire ++ text }) text
HasSent-take s text = record {
  on_wire = refl;
  state_same = refl;
  readcb_same = refl;
  input_same = refl;
  output_same = refl;
  reads_same = refl;
  received_same = refl;
  seen_same = refl;
}

Sends-nothing : (s : TcpConn) (buf : List Cell) (n len : ℕ) → n ≤ len → Sends s buf n len (s, n)
Sends-nothing s buf n len le = (
  omega arith,
  le,
  subst (HasSent s s) (sym (take-zero (n - n) (drop n buf) (omega arith)))
      (HasSent-same s s.writes s.channel),
)

module _ (grants : ℕ → Bool) (sent : ℕ → ℕ → WriteResult) where
  same-Sends :
      (s s' : TcpConn) (buf : List Cell) (n len : ℕ) (o : Outcome (TcpConn × ℕ))
      → HasSent s s' []
      → WhenDone (Sends s' buf n len) o
      → WhenDone (Sends s buf n len) o
  same-Sends s s' buf n len (done (s2, m)) h (lo, hi, k) = (lo, hi, HasSent-trans h k)
  same-Sends s s' buf n len bad_alloc h k = tt
  same-Sends s s' buf n len null_channel h k = tt
  same-Sends s s' buf n len unfinished h k = tt

  more-Sends :
      (s s' : TcpConn) (buf : List Cell) (n k len : ℕ) (o : Outcome (TcpConn × ℕ))
      → HasSent s s' (take k (drop n buf))
      → WhenDone (Sends s' buf (n + k) len) o
      → WhenDone (Sends s buf n len) o
  more-Sends s s' buf n k len (done (s2, m)) h (lo, hi, r) =
      (omega (arith, lo), hi, subst (HasSent s s2) (take-drop_on buf n k m lo) (HasSent-trans h r))
  more-Sends s s' buf n k len bad_alloc h r = tt
  more-Sends s s' buf n k len null_channel h r = tt
  more-Sends s s' buf n k len unfinished h r = tt

  after_write-Sends :
      (rest : TcpConn → Channel → ℕ → Outcome (TcpConn × ℕ)) (s : TcpConn) (ch : Channel)
      (buf : List Cell) (n len : ℕ) (r : WriteResult)
      → n ≤ len
      → TakesWithin (len - n) r
      → ((s' : TcpConn) (ch' : Channel) (m : ℕ)
          → m ≤ len
          → WhenDone (Sends s' buf m len) (rest s' ch' m))
      → WhenDone (Sends s buf n len) (after_write grants sent rest s ch buf n r)
  after_write-Sends rest s ch buf n len (took zero) h t f = Sends-nothing s buf n len h
  after_write-Sends rest s ch buf n len write_broken h t f = Sends-nothing s buf n len h
  after_write-Sends rest s ch buf n len write_interrupted h t f = f s ch n h
  after_write-Sends rest s ch buf n len write_again h t f =
      same-Sends s (record s { channel = some (wait_to_write grants sent ch) }) buf n len _
        (HasSent-same s s.writes (some (wait_to_write grants sent ch))) (f _ _ n h)
  after_write-Sends rest s ch buf n len (took (suc k)) h t f =
      more-Sends s _ buf n (suc k) len _ (HasSent-take s (take (suc k) (drop n buf)))
        (f _ _ _ (omega (arith, h, t)))

  pub isend-Sends :
      (within : (n len : ℕ) → TakesWithin len (sent n len)) (fuel : ℕ) (s : TcpConn) (ch : Channel)
      (buf : List Cell) (len n : ℕ)
      → n ≤ len
      → WhenDone (Sends s buf n len) (isend grants sent fuel s ch buf len n)
  unfolding isend
  isend-Sends within zero s ch buf len n h = tt
  isend-Sends within (suc fuel) s ch buf len n h =
      either_branch (WhenDone (Sends s buf n len)) (ltb n len)
        (same-Sends s (record s { writes = s.writes + 1 }) buf n len _
          (HasSent-same s (s.writes + 1) s.channel)
          (after_write-Sends (λ s' ch' m. isend grants sent fuel s' ch' buf len m)
            (record s { writes = s.writes + 1 }) ch buf n len (sent s.writes (len - n)) h
            (within s.writes (len - n)) (λ s' ch' m u. isend-Sends within fuel s' ch' buf len m u)))
        (Sends-nothing s buf n len h)
