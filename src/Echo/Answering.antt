-- ===== src/Echo/Answering.antt =====
-- main.cpp: a connection of the echo server whose writes take all that they are given.
use net_library.Base.{
  ℕ, zero, suc, ◌+◌, ◌≡◌, ◌<◌, ◌⊎◌, refl, ap, ap₂, sym, ◌∙◌, Bool, true, false, some, List, [], ◌∷◌,
  ◌++◌, inl, inr, arith, append-nil, Bool-cases, not, ◌&&◌, length, ◌==◌, ==_iff, take-length_le,
}
use net_library.Base.Int.{is_neg}
use net_library.Buffer
use net_library.Buffer.{Buffer, Cell, contents}
use net_library.Buffer.Inv.{IsValid, max_array, length-contents}
use net_library.Poller.{Channel, write_enable}
use net_library.TcpConn.{
  TcpConn, done, bad_alloc, connected, ReadResult, WriteResult, took, handle_read, call_back,
  cleanup,
}
use net_library.TcpConn.Reading.{IsFitting, IsLast, HasRead}
use net_library.TcpConn.Delivery.{TakesAll, send-delivered}
use net_library.TcpConn.Lifecycle.{handle_read-Handles, cleanup-call_back}
use net_library.Echo.{echo}

-- All bytes that are read, and before them those that were left in the input, have gone out; and no
-- call of the callback has failed.
pub record Answers (s s' : TcpConn) : Type 0 where
  pub news : List Cell
  pub counted : s'.received ≡ s.received ++ news
  pub on_wire : s'.wire ≡ s.wire ++ (contents s.input ++ news)
  pub emptied : contents s'.input ≡ []
  pub callback_same : s'.callback_end ≡ s.callback_end

one_piece :
    (sent : ℕ → ℕ → WriteResult)
    → ((n len : ℕ) → sent n (suc len) ≡ took (suc len))
    → (n len : ℕ) → (ks : List ℕ) × (length ks < 2) × TakesAll sent n len ks
one_piece sent full n zero = ([], omega arith, refl)
one_piece sent full n (suc len) = (len ∷ [], omega arith, (full n len, omega arith, omega arith))

module _ (grants : ℕ → Bool) (sent : ℕ → ℕ → WriteResult)
    (full : (n len : ℕ) → sent n (suc len) ≡ took (suc len)) where
  -- The callback, on a connection whose channel does not wait for writing.
  called_back :
      (fuel : ℕ) (s : TcpConn) (ch : Channel)
      → IsValid s.input
      → s.channel ≡ some ch
      → write_enable ch ≡ false
      → s.readcb ≡ true
      → 1 < fuel
      → let s' = call_back (echo grants sent fuel) s in
        (s'.wire ≡ s.wire ++ contents s.input)
        × (s'.received ≡ s.received)
        × (contents s'.input ≡ [])
        × (s'.callback_end ≡ s.callback_end)
  called_back fuel s ch v c w r lt = elim (Bool-cases (Buffer.size s.input == 0)) [
    | inl z ↦
        let nil : contents s.input ≡ [] = sym (
          take-length_le 0 (contents s.input) (
            let e = (==_iff (Buffer.size s.input) 0).0 z in omega (arith, e, length-contents v))) in
        let test : (s.readcb && not (Buffer.size s.input == 0)) ≡ false =
          ap₂ (λ a b. a && not b) r z in
        rw test (sym (append-nil s.wire) ∙ ap (λ t. s.wire ++ t) (sym nil), refl, nil, refl)
    | inr nz ↦
        let s0 : TcpConn = record s { seen = s.seen ++ contents s.input ∷ [] } in
        let (ks, few, t) = one_piece sent full s.writes (Buffer.size s.input) in
        let (msg, e, vm, nil) =
          send-delivered grants sent ks fuel s0 s.input ch v c w t (omega (arith, few, lt)) in
        let test : (s.readcb && not (Buffer.size s.input == 0)) ≡ true =
          ap₂ (λ a b. a && not b) r nz in
        rw (test, e) (refl, refl, nil, refl)
  ]

  module _ (array_limit : (n : ℕ) → grants n ≡ true → n < max_array) (socket : ℕ → ℕ → ReadResult)
      (fits : (n space : ℕ) → IsFitting space (socket n space)) where
    HasRead-called_back :
        (fuel : ℕ) (s s' : TcpConn) (ch : Channel)
        → HasRead s s'
        → s.channel ≡ some ch
        → write_enable ch ≡ false
        → s.readcb ≡ true
        → 1 < fuel
        → Answers s (call_back (echo grants sent fuel) s')
    HasRead-called_back fuel s s' ch h c w r lt =
        let k = called_back fuel s' ch h.valid (h.channel_same ∙ c) w (h.readcb_same ∙ r) lt in
        record {
          news = h.news;
          counted = k.1 ∙ h.counted;
          on_wire = k.0 ∙ ap₂ (λ a b. a ++ b) h.wire_same h.stored;
          emptied = k.2;
          callback_same = k.3 ∙ h.callback_same;
        }

    -- The connection is connected, has a descriptor and the callback of the server, and its channel does
    -- not wait for writing; `k` reads come before one that yields neither bytes nor EINTR, and each write
    -- takes all that it is given. Then handleRead runs out of memory, or it returns, and all bytes that it
    -- has read have gone out, behind those that were left in the input, which is empty then, and the
    -- callback has not failed.
    pub handle_read-Answers :
        (k fuel : ℕ) (s : TcpConn) (ch : Channel) (ready : Bool)
        → s.channel ≡ some ch
        → write_enable ch ≡ false
        → s.state ≡ connected
        → s.readcb ≡ true
        → is_neg ch.fd ≡ false
        → IsValid s.input
        → ((space : ℕ) → IsLast (socket (s.reads + k) space))
        → k < fuel
        → 1 < fuel
        → (handle_read (echo grants sent fuel) grants socket fuel s ready ≡ bad_alloc)
          ⊎ ((s' : TcpConn) × (handle_read (echo grants sent fuel) grants socket fuel s ready
                ≡ done s')
              × Answers s s')
    handle_read-Answers k fuel s ch ready c w t r n v l lt lt2 =
        elim (handle_read-Handles (echo grants sent fuel) grants socket array_limit fits k fuel s ch
          ready c t n v l lt) [
            | inl e ↦ inl e
            | inr (s1, h, inl e) ↦ inr (
              call_back (echo grants sent fuel) s1,
              e,
              HasRead-called_back fuel s s1 ch h c w r lt2,
            )
            | inr (s1, h, inr e) ↦
                let a = HasRead-called_back fuel s s1 ch h c w r lt2 in
                let q = cleanup-call_back (echo grants sent fuel) s1 in
                inr (
                  cleanup (echo grants sent fuel) s1,
                  e,
                  record {
                    news = a.news;
                    counted = q.1 ∙ a.counted;
                    on_wire = q.0 ∙ a.on_wire;
                    emptied = ap contents q.2 ∙ a.emptied;
                    callback_same = q.3 ∙ a.callback_same;
                  },
                )
          ]
