-- ===== src/TcpConn/Reading.antt =====
-- tcpConn.cpp: what the loop of handleRead reads.
use net_library.Base.{
  ℕ, zero, suc, ◌+◌, ◌≤◌, ◌<◌, ◌≡◌, refl, ap, sym, subst, ◌∙◌, ◌⊎◌, inl, inr, Bool, true, false,
  List, [], ◌∷◌, ◌++◌, arith, length, append-nil, append_assoc,
}
use net_library.Base.Int.{ℤ, is_neg}
use net_library.Buffer
use net_library.Buffer.{Buffer, Cell}
use net_library.Buffer.Inv.{IsValid, max_array, make_some_room-cases}
use net_library.Buffer.Append.{filled_lem, read-filled}
use net_library.TcpConn.{
  TcpConn, Outcome, done, bad_alloc, ReadResult, bytes, interrupted, again, broken, End, read_in,
  read_once, after_read, read_rounds,
}

-- `read` returns no more bytes than it has room for.
abbrev pub IsFitting : ℕ → ReadResult → Type 0
IsFitting space (bytes xs) = length xs ≤ space
IsFitting space _ = Unit

-- `read` returns neither bytes nor EINTR.
abbrev pub IsLast : ReadResult → Type 0
IsLast (bytes []) = Unit
IsLast (bytes (x ∷ xs)) = ⊥
IsLast interrupted = ⊥
IsLast again = Unit
IsLast broken = Unit

-- The loop has read `news`, which stand behind what was in the input, and has changed nothing else.
pub record HasRead (s s' : TcpConn) : Type 0 where
  pub valid : IsValid s'.input
  pub news : List Cell
  pub stored : Buffer.contents s'.input ≡ Buffer.contents s.input ++ news
  pub counted : s'.received ≡ s.received ++ news
  pub state_same : s'.state ≡ s.state
  pub channel_same : s'.channel ≡ s.channel
  pub readcb_same : s'.readcb ≡ s.readcb
  pub seen_same : s'.seen ≡ s.seen
  pub wire_same : s'.wire ≡ s.wire
  pub output_same : s'.output ≡ s.output
  pub callback_same : s'.callback_end ≡ s.callback_end

abbrev pub Reads : TcpConn → Outcome (TcpConn × End) → Type 0
Reads s o = (o ≡ bad_alloc) ⊎ ((s' : TcpConn) × (end : End) × (o ≡ done (s', end)) × HasRead s s')

pub HasRead-trans : {s s' s'' : TcpConn} → HasRead s s' → HasRead s' s'' → HasRead s s''
HasRead-trans {s} h k = record {
  valid = k.valid;
  news = h.news ++ k.news;
  stored =
      k.stored
      ∙ ap (λ c. c ++ k.news) h.stored
      ∙ append_assoc (Buffer.contents s.input) h.news k.news;
  counted = k.counted ∙ ap (λ c. c ++ k.news) h.counted ∙ append_assoc s.received h.news k.news;
  state_same = k.state_same ∙ h.state_same;
  channel_same = k.channel_same ∙ h.channel_same;
  readcb_same = k.readcb_same ∙ h.readcb_same;
  seen_same = k.seen_same ∙ h.seen_same;
  wire_same = k.wire_same ∙ h.wire_same;
  output_same = k.output_same ∙ h.output_same;
  callback_same = k.callback_same ∙ h.callback_same;
}

HasRead-Reads :
    (s s' : TcpConn) (o : Outcome (TcpConn × End)) → HasRead s s' → Reads s' o → Reads s o
HasRead-Reads s s' o h (inl e) = inl e
HasRead-Reads s s' o h (inr (s'', end, e, k)) = inr (s'', end, e, HasRead-trans h k)

-- Room has been made in the input.
pub roomy-HasRead :
    {s : TcpConn} (b : Buffer) (reads : ℕ)
    → Buffer.Inv.HasRoom s.input 0 b
    → HasRead s (record s { input = b; reads = reads })
roomy-HasRead {s} b reads h = record {
  valid = h.valid;
  news = [];
  stored = h.same ∙ sym (append-nil (Buffer.contents s.input));
  counted = sym (append-nil s.received);
  state_same = refl;
  channel_same = refl;
  readcb_same = refl;
  seen_same = refl;
  wire_same = refl;
  output_same = refl;
  callback_same = refl;
}

pub unread : (s : TcpConn) → IsValid s.input → HasRead s s
unread s v = record {
  valid = v;
  news = [];
  stored = sym (append-nil (Buffer.contents s.input));
  counted = sym (append-nil s.received);
  state_same = refl;
  channel_same = refl;
  readcb_same = refl;
  seen_same = refl;
  wire_same = refl;
  output_same = refl;
  callback_same = refl;
}

pub read_in-HasRead :
    (s : TcpConn) (xs : List Cell)
    → IsValid s.input
    → length xs ≤ Buffer.space s.input
    → HasRead s (record s { input = read_in s.input xs; received = s.received ++ xs })
read_in-HasRead s xs v h =
    let e = read-filled xs v h in
    let f = filled_lem xs v (omega (arith, h)) in
    record {
      valid = subst IsValid (sym e) f.0;
      news = xs;
      stored = ap Buffer.contents e ∙ f.1;
      counted = refl;
      state_same = refl;
      channel_same = refl;
      readcb_same = refl;
      seen_same = refl;
      wire_same = refl;
      output_same = refl;
      callback_same = refl;
    }

module _ (handle : TcpConn → TcpConn) (grants : ℕ → Bool) (socket : ℕ → ℕ → ReadResult)
    (array_limit : (n : ℕ) → grants n ≡ true → n < max_array)
    (fits : (n space : ℕ) → IsFitting space (socket n space)) where
  after_read-Reads :
      (rest : TcpConn → Outcome (TcpConn × End)) (s : TcpConn) (r : ReadResult)
      → IsValid s.input
      → IsFitting (Buffer.space s.input) r
      → IsLast r ⊎ ((s' : TcpConn) → s'.reads ≡ s.reads → IsValid s'.input → Reads s' (rest s'))
      → Reads s (after_read handle grants socket rest s r)
  after_read-Reads rest s interrupted v h (inr f) = f s refl v
  after_read-Reads rest s interrupted v h (inl l) = elim l [ ]
  after_read-Reads rest s again v h l = inr (s, _, refl, unread s v)
  after_read-Reads rest s broken v h l = inr (s, _, refl, unread s v)
  after_read-Reads rest s (bytes []) v h l = inr (s, _, refl, unread s v)
  after_read-Reads rest s (bytes (x ∷ xs)) v h (inl l) = elim l [ ]
  after_read-Reads rest s (bytes (x ∷ xs)) v h (inr f) =
      let g = read_in-HasRead s (x ∷ xs) v h in
      let s' = record s { input = read_in s.input (x ∷ xs); received = s.received ++ x ∷ xs } in
      HasRead-Reads s s' (rest s') g (f s' refl g.valid)

  round-Reads :
      (rest : TcpConn → Outcome (TcpConn × End)) (s : TcpConn) (fd : ℤ)
      → is_neg fd ≡ false
      → IsValid s.input
      → ((space : ℕ) → IsLast (socket s.reads space))
        ⊎ ((s' : TcpConn) → s'.reads ≡ s.reads + 1 → IsValid s'.input → Reads s' (rest s'))
      → Reads s (read_once handle grants socket rest s fd (Buffer.make_some_room grants s.input))
  round-Reads rest s fd n v l = elim (make_some_room-cases grants array_limit v) [
    | inl (g, e) ↦ rw e (inl refl)
    | inr (b, e, room) ↦
        let s' = record s { input = b; reads = s.reads + 1 } in
        rw (e, n)
          (HasRead-Reads s s' _ (roomy-HasRead b (s.reads + 1) room) (
            after_read-Reads rest s' (socket s.reads (Buffer.space b)) room.valid
              (fits s.reads (Buffer.space b))
              (elim l [ inl h ↦ inl (h (Buffer.space b)) | inr f ↦ inr f ])))
  ]

  -- The loop of `handleRead`, of a descriptor of which the read after the next `k` is the last one,
  -- comes to its end or to std::bad_alloc; at its end all bytes that it has read stand behind those
  -- of the input, and neither the state nor the callback has changed.
  pub read_rounds-Reads :
      (k fuel : ℕ) (s : TcpConn) (fd : ℤ)
      → is_neg fd ≡ false
      → IsValid s.input
      → ((space : ℕ) → IsLast (socket (s.reads + k) space))
      → k < fuel
      → Reads s (read_rounds handle grants socket fuel s fd)
  unfolding read_rounds
  read_rounds-Reads k zero s fd n v l h = elim h [ ]
  read_rounds-Reads zero (suc fuel) s fd n v l h =
      round-Reads (λ s'. read_rounds handle grants socket fuel s' fd) s fd n v
        (inl (λ space. subst (λ m. IsLast (socket m space)) (omega arith) (l space)))
  read_rounds-Reads (suc k) (suc fuel) s fd n v l h =
      round-Reads (λ s'. read_rounds handle grants socket fuel s' fd) s fd n v
        (inr (λ s' r w.
          read_rounds-Reads k fuel s' fd n w
            (λ space. subst (λ m. IsLast (socket m space)) (omega (arith, r)) (l space))
            (omega (arith, h))))
