-- ===== src/TcpConn/Received.antt =====
-- tcpConn.cpp: what the loop of handleRead has read whenever it ends.
use net_library.Base.{
  ℕ, zero, suc, ◌+◌, ◌≡◌, ◌<◌, Bool, true, inl, inr, [], ◌∷◌, ◌++◌, either_branch,
}
use net_library.Base.Int.{ℤ, is_neg}
use net_library.Buffer
use net_library.Buffer.{Buffer}
use net_library.Buffer.Inv.{IsValid, max_array, make_some_room-cases}
use net_library.TcpConn.{
  TcpConn, Outcome, done, bad_alloc, null_channel, unfinished, ReadResult, bytes, interrupted,
  again, broken, End, read_in, after_read, read_rounds,
}
use net_library.TcpConn.Reading.{
  IsFitting, HasRead, HasRead-trans, roomy-HasRead, unread, read_in-HasRead,
}
use net_library.TcpConn.Wire.{WhenDone}

abbrev pub HasReadOn : TcpConn → TcpConn × End → Type 0
HasReadOn s p = HasRead s p.0

later-HasReadOn :
    (s s' : TcpConn) (o : Outcome (TcpConn × End))
    → HasRead s s'
    → WhenDone (HasReadOn s') o
    → WhenDone (HasReadOn s) o
later-HasReadOn s s' (done (s2, end)) h k = HasRead-trans h k
later-HasReadOn s s' bad_alloc h k = tt
later-HasReadOn s s' null_channel h k = tt
later-HasReadOn s s' unfinished h k = tt

module _ (handle : TcpConn → TcpConn) (grants : ℕ → Bool) (socket : ℕ → ℕ → ReadResult)
    (array_limit : (n : ℕ) → grants n ≡ true → n < max_array)
    (fits : (n space : ℕ) → IsFitting space (socket n space)) where
  after_read-HasReadOn :
      (rest : TcpConn → Outcome (TcpConn × End)) (s : TcpConn) (r : ReadResult)
      → IsValid s.input
      → IsFitting (Buffer.space s.input) r
      → ((s' : TcpConn) → IsValid s'.input → WhenDone (HasReadOn s') (rest s'))
      → WhenDone (HasReadOn s) (after_read handle grants socket rest s r)
  after_read-HasReadOn rest s interrupted v h f = f s v
  after_read-HasReadOn rest s again v h f = unread s v
  after_read-HasReadOn rest s broken v h f = unread s v
  after_read-HasReadOn rest s (bytes []) v h f = unread s v
  after_read-HasReadOn rest s (bytes (x ∷ xs)) v h f =
      let g = read_in-HasRead s (x ∷ xs) v h in
      let s' = record s { input = read_in s.input (x ∷ xs); received = s.received ++ x ∷ xs } in
      later-HasReadOn s s' (rest s') g (f s' g.valid)

  pub read_rounds-HasReadOn :
      (fuel : ℕ) (s : TcpConn) (fd : ℤ)
      → IsValid s.input
      → WhenDone (HasReadOn s) (read_rounds handle grants socket fuel s fd)
  unfolding read_rounds
  read_rounds-HasReadOn zero s fd v = tt
  read_rounds-HasReadOn (suc fuel) s fd v = elim (make_some_room-cases grants array_limit v) [
    | inl (g, e) ↦ rw e tt
    | inr (b, e, room) ↦
        let s' = record s { input = b; reads = s.reads + 1 } in
        rw e (
          either_branch (WhenDone (HasReadOn s)) (is_neg fd) (roomy-HasRead b s.reads room) (
            later-HasReadOn s s' _ (roomy-HasRead b (s.reads + 1) room) (
              after_read-HasReadOn (λ s2. read_rounds handle grants socket fuel s2 fd) s'
                (socket s.reads (Buffer.space b)) room.valid (fits s.reads (Buffer.space b))
                (λ s2 w. read_rounds-HasReadOn fuel s2 fd w))))
  ]
