-- ===== src/Echo/Lossless.antt =====
-- main.cpp: what a connection of the echo server has read, sent and kept.
use net_library.Base.{
  ℕ, ◌≡◌, ◌<◌, refl, ap, ap₂, sym, subst, ◌∙◌, Bool, true, false, Option, none, some, List, [], ◌∷◌,
  ◌++◌, inl, inr, arith, append-nil, append_assoc, Bool-cases, take, drop, drop-nil,
  take-append-drop,
}
use net_library.Base.Int.{ℤ}
use net_library.Buffer.{Buffer, Cell, contents}
use net_library.Buffer.Inv.{IsValid, max_array, init-IsValid}
use net_library.Poller.{Channel, write_enable}
use net_library.TcpConn.{
  TcpConn, Outcome, done, bad_alloc, null_channel, unfinished, Status, invalid, handshaking,
  connected, closed, failed, ReadResult, WriteResult, attach, is_handshaking, is_connected, then_do,
}
use net_library.TcpConn.Sending.{TakesWithin}
use net_library.TcpConn.Reading.{IsFitting}
use net_library.TcpConn.Wire.{WhenDone}
use net_library.TcpConn.Message.{Absorbed, Written, send-Absorbed, send-Written, send-none}
use net_library.TcpConn.Lifecycle.{closed_state_lem}
use net_library.TcpConn.Preserving.{Kept, handle_read-kept, handle_write-kept}
use net_library.Echo.{
  echo, put_back, ChannelEvent, readable, writable, after_callback, serve, serve_event, attached,
}

-- The output holds nothing while the channel does not wait for writing.
abbrev pub IsIdle : Option Channel → Buffer → Type 0
IsIdle none o = contents o ≡ []
IsIdle (some ch) o = write_enable ch ≡ false → contents o ≡ []

-- The bytes that were read are those that have gone out, then those of the output, then those of the
-- input, and both hold none while the connection is handshaking.
pub record Echoes (s : TcpConn) : Type 0 where
  pub lossless : s.received ≡ s.wire ++ contents s.output ++ contents s.input
  pub idle : IsIdle s.channel s.output
  pub fresh : is_handshaking s.state ≡ true → (contents s.output ≡ []) × (contents s.input ≡ [])
  pub input_valid : IsValid s.input
  pub output_valid : IsValid s.output

Echoes-end :
    (s : TcpConn) (o : Outcome (Unit {0})) → Echoes s → Echoes (record s { callback_end = o })
Echoes-end s o k = record {
  lossless = k.lossless;
  idle = k.idle;
  fresh = k.fresh;
  input_valid = k.input_valid;
  output_valid = k.output_valid;
}

empty-IsIdle : (o : Option Channel) (b : Buffer) → contents b ≡ [] → IsIdle o b
empty-IsIdle none b e = e
empty-IsIdle (some ch) b e = λ w. e

drop_nothing : (n : ℕ) (xs : List Cell) → xs ≡ [] → drop n xs ≡ []
drop_nothing n xs e = rw e (drop-nil n)

split_on :
    (wire wire' out out' xs xs' : List Cell) (count : ℕ)
    → out ≡ []
    → out' ≡ []
    → wire' ≡ wire ++ take count xs
    → xs' ≡ drop count xs
    → wire ++ out ++ xs ≡ wire' ++ out' ++ xs'
split_on wire wire' out out' xs xs' count n n' w d =
    rw (n, n', w, d)
      (ap (λ t. t ++ xs) (append-nil wire)
        ∙ ap (λ t. wire ++ t) (sym (take-append-drop count xs))
        ∙ sym (append_assoc wire (take count xs) (drop count xs))
        ∙ ap (λ t. t ++ drop count xs) (sym (append-nil (wire ++ take count xs))))

join_on :
    {received received' wire wire' out out' xs' : List Cell} (xs news : List Cell)
    → received ≡ wire ++ out ++ xs
    → wire' ≡ wire
    → out' ≡ out
    → received' ≡ received ++ news
    → xs' ≡ xs ++ news
    → received' ≡ wire' ++ out' ++ xs'
join_on {wire = wire} {out = out} xs news l w o r x =
    rw (r, l, w, o, x) (append_assoc (wire ++ out) xs news)

not_both : (t : Status) → is_connected t ≡ true → is_handshaking t ≡ true → ⊥
not_both invalid c h = ground (arith, c)
not_both handshaking c h = ground (arith, c)
not_both connected c h = ground (arith, h)
not_both closed c h = ground (arith, c)
not_both failed c h = ground (arith, c)

module _ (grants : ℕ → Bool) (array_limit : (n : ℕ) → grants n ≡ true → n < max_array)
    (sent : ℕ → ℕ → WriteResult) (within : (n len : ℕ) → TakesWithin len (sent n len)) where
  Absorbed-Echoes :
      (s : TcpConn) (ch : Channel) (o' m' : Buffer)
      → s.channel ≡ some ch
      → write_enable ch ≡ true
      → Echoes s
      → Absorbed s s.input o' m'
      → Echoes (record s { output = o'; input = m' })
  Absorbed-Echoes s ch o' m' c w k h = record {
    lossless =
        k.lossless
        ∙ append_assoc s.wire (contents s.output) (contents s.input)
        ∙ ap (λ t. s.wire ++ t) (sym h.appended)
        ∙ sym (append-nil (s.wire ++ contents o'))
        ∙ ap (λ t. s.wire ++ contents o' ++ t) (sym h.emptied);
    idle = subst (λ o. IsIdle o o') (sym c) (λ n. absurd (ground (arith, w, n)));
    fresh = λ t. let f = k.fresh t in (h.appended ∙ ap₂ (λ a b. a ++ b) f.0 f.1, h.emptied);
    input_valid = h.left_valid;
    output_valid = h.output_valid;
  }

  Written-Echoes :
      (s : TcpConn) (o : Outcome (TcpConn × Buffer))
      → contents s.output ≡ []
      → Echoes s
      → WhenDone (λ (p : TcpConn × Buffer). Written s s.input p.0 p.1) o
      → Echoes (put_back s o)
  Written-Echoes s (done (s', m')) n k h =
      let n' : contents s'.output ≡ [] = ap contents h.gone.output_same ∙ n in
      record {
        lossless =
            h.gone.received_same
            ∙ k.lossless
            ∙ split_on s.wire s'.wire (contents s.output) (contents s'.output) (contents s.input)
                (contents m') h.count n n' h.gone.on_wire h.kept;
        idle = empty-IsIdle s'.channel s'.output n';
        fresh = λ t.
            let f = k.fresh (ap is_handshaking (sym h.gone.state_same) ∙ t) in
            (n', h.kept ∙ drop_nothing h.count (contents s.input) f.1);
        input_valid = h.left_valid;
        output_valid = subst IsValid (sym h.gone.output_same) k.output_valid;
      }
  Written-Echoes s bad_alloc n k h = Echoes-end s bad_alloc k
  Written-Echoes s null_channel n k h = Echoes-end s null_channel k
  Written-Echoes s unfinished n k h = Echoes-end s unfinished k

  echo-Echoes :
      (fuel : ℕ) (s : TcpConn) (o : Option Channel)
      → s.channel ≡ o
      → Echoes s
      → Echoes (echo grants sent fuel s)
  echo-Echoes fuel s none c k =
      subst (λ r. Echoes (put_back s r)) (sym (send-none grants sent fuel s s.input c)) k
  echo-Echoes fuel s (some ch) c k = elim (Bool-cases (write_enable ch)) [
    | inl w ↦
        elim (send-Absorbed grants array_limit sent within fuel s s.input ch k.output_valid
          k.input_valid c w) [
            | inl e ↦ subst (λ r. Echoes (put_back s r)) (sym e) (Echoes-end s bad_alloc k)
            | inr (o', m', e, h) ↦
                subst (λ r. Echoes (put_back s r)) (sym e) (Absorbed-Echoes s ch o' m' c w k h)
          ]
    | inr w ↦
        let i : IsIdle (some ch) s.output = subst (λ o. IsIdle o s.output) c k.idle in
        Written-Echoes s _ (i w) k
          (send-Written grants array_limit sent within fuel s s.input ch k.input_valid c w)
  ]

  echo-Kept : (fuel : ℕ) → Kept (echo grants sent fuel) Echoes
  echo-Kept fuel = record {
    valid = λ s k. k.input_valid;
    calls = λ s seen k.
        echo-Echoes fuel (record s { seen = seen }) s.channel refl
          (record {
            lossless = k.lossless;
            idle = k.idle;
            fresh = k.fresh;
            input_valid = k.input_valid;
            output_valid = k.output_valid;
          });
    reads = λ s s' c h k. record {
      lossless =
          join_on (contents s.input) h.news k.lossless h.wire_same (ap contents h.output_same)
            h.counted h.stored;
      idle =
          subst (λ o. IsIdle o s'.output) (sym h.channel_same)
            (subst (λ b. IsIdle s.channel b) (sym h.output_same) k.idle);
      fresh = λ f. absurd (not_both s.state c (ap is_handshaking (sym h.state_same) ∙ f));
      input_valid = h.valid;
      output_valid = subst IsValid (sym h.output_same) k.output_valid;
    };
    opens = λ s ch t k. record {
      lossless = k.lossless;
      idle = λ w. (k.fresh t).0;
      fresh = λ f. absurd (ground (arith, f));
      input_valid = k.input_valid;
      output_valid = k.output_valid;
    };
    closes = λ s k. record {
      lossless = k.lossless;
      idle = k.idle;
      fresh = λ f.
          absurd
            (let e = (closed_state_lem (echo grants sent fuel) s.state).0 in ground (arith, e, f));
      input_valid = k.input_valid;
      output_valid = k.output_valid;
    };
  }

  module _ (socket : ℕ → ℕ → ReadResult)
      (fits : (n space : ℕ) → IsFitting space (socket n space)) where
    serve-kept :
        (fuel : ℕ) (s : TcpConn) (o : Outcome TcpConn) (f : TcpConn → Outcome TcpConn)
        → ((s' : TcpConn) → Echoes s' → WhenDone Echoes (f s'))
        → WhenDone Echoes o
        → WhenDone Echoes (then_do f o)
    serve-kept fuel s (done s') f h k = h s' k
    serve-kept fuel s bad_alloc f h k = tt
    serve-kept fuel s null_channel f h k = tt
    serve-kept fuel s unfinished f h k = tt

    after_callback-Echoes : (s : TcpConn) → Echoes s → WhenDone Echoes (after_callback s)
    after_callback-Echoes s k = returned s.callback_end
      where
        returned : (o : Outcome (Unit {0})) → WhenDone Echoes (then_do (λ (u : Unit {0}). done s) o)
        returned (done u) = k
        returned bad_alloc = tt
        returned null_channel = tt
        returned unfinished = tt

    serve_event-Echoes :
        (fuel : ℕ) (s : TcpConn) (event : ChannelEvent)
        → Echoes s
        → WhenDone Echoes (serve_event grants socket sent fuel s event)
    serve_event-Echoes fuel s (readable ready) k =
        serve-kept fuel s _ after_callback after_callback-Echoes (
          handle_read-kept (echo grants sent fuel) Echoes (echo-Kept fuel) grants socket array_limit
            fits fuel s ready k)
    serve_event-Echoes fuel s (writable ready) k =
        serve-kept fuel s _ after_callback after_callback-Echoes
          (handle_write-kept (echo grants sent fuel) Echoes (echo-Kept fuel) s ready k)

    serve_on :
        (fuel : ℕ) (s : TcpConn) (events : List ChannelEvent)
        → Echoes s
        → WhenDone Echoes (serve grants socket sent fuel s events)
    unfolding serve
    serve_on fuel s [] k = k
    serve_on fuel s (event ∷ events) k =
        serve-kept fuel s _ _ (λ s' k'. serve_on fuel s' events k')
          (serve_event-Echoes fuel s event k)

    -- From attach on, whatever reads and writes give, where each stays within its room, and however many
    -- events come: the bytes that a connection of the echo server has read are those that it has sent,
    -- then those of its output, then those of its input; its output is empty while its channel does not
    -- wait for writing, both are empty while it is handshaking, and both are valid. This is so
    -- behind each event, where its handler and the callback that it calls have returned.
    pub serve-Echoes :
        (fuel : ℕ) (fd : ℤ) (events : List ChannelEvent)
        → WhenDone Echoes (serve grants socket sent fuel (attached fd) events)
    unfolding attach
    serve-Echoes fuel fd events = serve_on fuel (attached fd) events (record {
      lossless = refl;
      idle = λ w. refl;
      fresh = λ h. (refl, refl);
      input_valid = init-IsValid;
      output_valid = init-IsValid;
    })
