-- ===== src/TcpConn/Delivery.antt =====
-- tcpConn.cpp: a message of which the writes take all bytes.
use net_library.Base.{
  ℕ, zero, suc, ◌+◌, ◌-◌, ◌≡◌, ◌<◌, ◌≤◌, refl, ap, ap₂, sym, subst, ◌∙◌, Bool, true, false, some,
  List, [], ◌∷◌, ◌++◌, arith, append-nil, append_assoc, take, drop, take-zero, take-length_le,
  drop-length_le, length, ltb, Bool-cases, inl, inr, ◌==◌, ==_iff,
}
use net_library.Buffer
use net_library.Buffer.{Buffer, Cell, contents}
use net_library.Buffer.Inv.{IsValid, length-contents}
use net_library.Buffer.Append.{consume_lem}
use net_library.Poller.{Channel, write_enable}
use net_library.TcpConn.Wire.{take-drop_on}
use net_library.TcpConn.Message.{send_at}
use net_library.TcpConn.{TcpConn, done, WriteResult, took, isend, send, send_on, send_rest, then_do}

-- From the n-th write on, the writes take the bytes that are left in pieces of these sizes, each one
-- less than the number.
abbrev pub TakesAll : (ℕ → ℕ → WriteResult) → ℕ → ℕ → List ℕ → Type 0
TakesAll sent n left [] = left ≡ 0
TakesAll sent n left (k ∷ ks) =
    (sent n left ≡ took (suc k)) × (suc k ≤ left) × TakesAll sent (n + 1) (left - suc k) ks

-- The connection behind so many writes that have taken these bytes.
abbrev pub delivered : TcpConn → List Cell → ℕ → TcpConn
delivered s text count = record s { writes = s.writes + count; wire = s.wire ++ text }

module _ (grants : ℕ → Bool) (sent : ℕ → ℕ → WriteResult) where
  isend-delivered :
      (ks : List ℕ) (fuel : ℕ) (s : TcpConn) (ch : Channel) (buf : List Cell) (len n : ℕ)
      → TakesAll sent s.writes (len - n) ks
      → n ≤ len
      → length ks < fuel
      → isend grants sent fuel s ch buf len n
        ≡ done (delivered s (take (len - n) (drop n buf)) (length ks), len)
  unfolding isend
  isend-delivered ks zero s ch buf len n t le lt = absurd (omega arith)
  isend-delivered [] (suc fuel) s ch buf len n t le lt =
      let all : ltb n len ≡ false = ground (arith, t) in
      rw all (
        ap₂ (λ (w : TcpConn) (m : ℕ). done (w, m))
          (ap₂ (λ (w : List Cell) (c : ℕ). record s { writes = c; wire = w })
            (sym (append-nil s.wire)
              ∙ ap (λ w. s.wire ++ w) (sym (take-zero (len - n) (drop n buf) t)))
            (omega arith))
          (omega (arith, t, le)))
  isend-delivered (k ∷ ks) (suc fuel) s ch buf len n (e, le1, t) le lt =
      let more : ltb n len ≡ true = ground (arith, le1) in
      rw (more, e)
        (isend-delivered ks fuel
            (record s { writes = s.writes + 1; wire = s.wire ++ take (suc k) (drop n buf) }) ch buf
            len (n + suc k) (subst (λ l. TakesAll sent (s.writes + 1) l ks) (omega arith) t)
            (omega (arith, le1)) (omega (arith, lt))
          ∙ ap₂ (λ (w : List Cell) (c : ℕ). done (record s { writes = c; wire = w }, len))
              (append_assoc s.wire (take (suc k) (drop n buf)) _
                ∙ ap (λ w. s.wire ++ w) (take-drop_on buf n (suc k) len (omega (arith, le1))))
              (omega arith))

  no_pieces : (ks : List ℕ) (n left : ℕ) → TakesAll sent n left ks → left ≡ 0 → length ks ≡ 0
  no_pieces [] n left t z = refl
  no_pieces (k ∷ ks) n left (e, le, t) z = absurd (omega arith)

  -- Of a valid message, where the channel does not wait for writing and the writes take all of it in
  -- pieces, `send` with more fuel than pieces puts the whole message on the wire, behind what has gone
  -- out before, and leaves the message empty and the rest of the connection as it is.
  pub send-delivered :
      (ks : List ℕ) (fuel : ℕ) (s : TcpConn) (msg : Buffer) (ch : Channel)
      → IsValid msg
      → s.channel ≡ some ch
      → write_enable ch ≡ false
      → TakesAll sent s.writes (Buffer.size msg) ks
      → length ks < fuel
      → (msg' : Buffer) × (send grants sent fuel s msg
          ≡ done (delivered s (contents msg) (length ks), msg'))
        × IsValid msg'
        × (contents msg' ≡ [])
  unfolding send_on send_rest
  send-delivered ks fuel s msg ch v c w t lt = elim (Bool-cases (Buffer.size msg == 0)) [
    | inl z ↦
        let e0 : Buffer.size msg ≡ 0 = (==_iff (Buffer.size msg) 0).0 z in
        let nil : contents msg ≡ [] =
          sym (take-length_le 0 (contents msg) (omega (arith, e0, length-contents v))) in
        (
          msg,
          send_at grants sent fuel s msg (some ch) c
              ∙ rw (w, z)
                  (ap (λ w. done (w, msg))
                    (ap₂ (λ (w : List Cell) (c : ℕ). record s { writes = c; wire = w })
                      (sym (append-nil s.wire) ∙ ap (λ w. s.wire ++ w) (sym nil))
                      (let k = no_pieces ks s.writes (Buffer.size msg) t e0 in omega (arith, k)))),
          v,
          nil,
        )
    | inr nz ↦
        let k = consume_lem (Buffer.size msg) v (omega arith) in
        (
          Buffer.consume msg (Buffer.size msg),
          send_at grants sent fuel s msg (some ch) c
              ∙ rw (w, nz)
                  (ap (then_do (λ (r : TcpConn × ℕ). done (r.0, Buffer.consume msg r.1))) (
                      isend-delivered ks fuel s ch (contents msg) (Buffer.size msg) 0
                        (subst (λ l. TakesAll sent s.writes l ks) (omega arith) t) (omega arith) lt)
                    ∙ ap
                        (λ w.
                          done (delivered s w (length ks), Buffer.consume msg (Buffer.size msg)))
                        (take-length_le (Buffer.size msg - 0) (contents msg)
                          (omega (arith, length-contents v)))),
          k.0,
          k.1 ∙ drop-length_le (Buffer.size msg) (contents msg) (omega (arith, length-contents v)),
        )
  ]
