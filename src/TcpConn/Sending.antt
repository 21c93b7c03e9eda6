-- ===== src/TcpConn/Sending.antt =====
-- tcpConn.cpp: how much isend sends.
use net_library.Base.{
  ℕ, zero, suc, ◌+◌, ◌-◌, ◌≤◌, ◌<◌, ◌≡◌, ◌⊎◌, inl, inr, refl, subst, arith, Bool, true, ltb, List,
  either_branch,
}
use net_library.Buffer.{Cell}
use net_library.Poller.{Channel}
use net_library.TcpConn.{
  TcpConn, Outcome, done, unfinished, WriteResult, took, write_interrupted, write_again,
  write_broken, after_write, isend, wait_to_write,
}

-- `write` takes no more bytes than it is given.
abbrev pub TakesWithin : ℕ → WriteResult → Type 0
TakesWithin len (took n) = n ≤ len
TakesWithin len _ = Unit

-- A write that is the last one: it fails, or takes nothing.
abbrev pub IsFinal : WriteResult → Type 0
IsFinal (took zero) = Unit
IsFinal (took (suc n)) = ⊥
IsFinal write_broken = Unit
IsFinal _ = ⊥

-- It ends, and no more is sent than there is, and no less than before.
abbrev pub SendsWithin : ℕ → ℕ → Outcome (TcpConn × ℕ) → Type 0
SendsWithin n len o = (s : TcpConn) × (m : ℕ) × (o ≡ done (s, m)) × (n ≤ m) × (m ≤ len)

module _ (grants : ℕ → Bool) (sent : ℕ → ℕ → WriteResult) where
  SendsWithin-later :
      (n m len : ℕ) (o : Outcome (TcpConn × ℕ)) → n ≤ m → SendsWithin m len o → SendsWithin n len o
  SendsWithin-later n m len o h (s, k, e, l, u) = (s, k, e, omega (arith, h, l), u)

  -- Where every write returns EAGAIN, `isend` of at least one byte does not end with any fuel.
  pub isend_again-unfinished :
      (again : (n len : ℕ) → sent n len ≡ write_again) (fuel : ℕ) (s : TcpConn) (ch : Channel)
      (buf : List Cell) (len n : ℕ)
      → n < len
      → isend grants sent fuel s ch buf len n ≡ unfinished
  unfolding isend
  isend_again-unfinished again zero s ch buf len n h = refl
  isend_again-unfinished again (suc fuel) s ch buf len n h =
      let t : ltb n len ≡ true = ground arith in
      rw (t, isend, again s.writes (len - n))
        (isend_again-unfinished again fuel _ (wait_to_write grants sent ch) buf len n h)

  after_write-SendsWithin :
      (rest : TcpConn → Channel → ℕ → Outcome (TcpConn × ℕ)) (s : TcpConn) (ch : Channel)
      (buf : List Cell) (n len : ℕ) (r : WriteResult)
      → n ≤ len
      → TakesWithin (len - n) r
      → IsFinal r
        ⊎ ((s' : TcpConn) (ch' : Channel) (m : ℕ)
            → s'.writes ≡ s.writes
            → m ≤ len
            → SendsWithin m len (rest s' ch' m))
      → SendsWithin n len (after_write grants sent rest s ch buf n r)
  after_write-SendsWithin rest s ch buf n len (took zero) h t f = (s, n, refl, omega arith, h)
  after_write-SendsWithin rest s ch buf n len write_broken h t f = (s, n, refl, omega arith, h)
  after_write-SendsWithin rest s ch buf n len (took (suc k)) h t (inr f) =
      SendsWithin-later n (n + suc k) len _ (omega arith)
        (f _ ch (n + suc k) refl (omega (arith, h, t)))
  after_write-SendsWithin rest s ch buf n len write_interrupted h t (inr f) = f s ch n refl h
  after_write-SendsWithin rest s ch buf n len write_again h t (inr f) = f _ _ n refl h
  after_write-SendsWithin rest s ch buf n len (took (suc k)) h t (inl f) = elim f [ ]
  after_write-SendsWithin rest s ch buf n len write_interrupted h t (inl f) = elim f [ ]
  after_write-SendsWithin rest s ch buf n len write_again h t (inl f) = elim f [ ]

  -- If each `write` takes no more than it is given, and the one after the next `k` fails or takes
  -- nothing, `isend` ends, and has sent no more bytes than there are.
  pub isend-SendsWithin :
      (within : (n len : ℕ) → TakesWithin len (sent n len)) (k fuel : ℕ) (s : TcpConn)
      (ch : Channel) (buf : List Cell) (len n : ℕ)
      → n ≤ len
      → ((l : ℕ) → IsFinal (sent (s.writes + k) l))
      → k < fuel
      → SendsWithin n len (isend grants sent fuel s ch buf len n)
  unfolding isend
  isend-SendsWithin within k zero s ch buf len n h l q = elim q [ ]
  isend-SendsWithin within zero (suc fuel) s ch buf len n h l q =
      either_branch (SendsWithin n len) (ltb n len)
        (after_write-SendsWithin (λ s' ch' m. isend grants sent fuel s' ch' buf len m)
          (record s { writes = s.writes + 1 }) ch buf n len (sent s.writes (len - n)) h
          (within s.writes (len - n))
          (inl (subst (λ m. IsFinal (sent m (len - n))) (omega arith) (l (len - n)))))
        (s, n, refl, omega arith, h)
  isend-SendsWithin within (suc k) (suc fuel) s ch buf len n h l q =
      either_branch (SendsWithin n len) (ltb n len)
        (after_write-SendsWithin (λ s' ch' m. isend grants sent fuel s' ch' buf len m)
          (record s { writes = s.writes + 1 }) ch buf n len (sent s.writes (len - n)) h
          (within s.writes (len - n))
          (inr (λ s' ch' m e u.
            isend-SendsWithin within k fuel s' ch' buf len m u
              (λ i. subst (λ j. IsFinal (sent j i)) (omega (arith, e)) (l i)) (omega (arith, q)))))
        (s, n, refl, omega arith, h)
