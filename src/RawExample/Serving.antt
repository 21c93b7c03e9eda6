-- ===== src/RawExample/Serving.antt =====
-- raw-example/epoll.cc: what handleRead does with a request.
use net_library.Base.{
  ℕ, zero, suc, ◌+◌, ◌<◌, ◌≡◌, refl, ap, subst, ◌∙◌, true, false, some, List, [], ◌∷◌, ◌++◌, length,
  arith,
}
use net_library.RawExample.{
  Con, Server, Received, bytes, again, Sent, Outcome, goes, con_of, or_new, put_con, is_request,
  send_res, read_one, handle_read,
}
use net_library.RawExample.Sending.{Answered, Takes, set_there, set_other, send_res-Answered}

-- From the n-th read on, the reads give these pieces, which with the text before them make a
-- request at the last one and not before, and the read behind them gives EAGAIN.
abbrev pub Brings : (ℕ → Received) → ℕ → List ℕ → ℕ × List ℕ → List (ℕ × List ℕ) → Type 0
Brings received n readed (x, xs) [] =
    (received n ≡ bytes (x ∷ xs))
    × (is_request (readed ++ x ∷ xs) ≡ true)
    × (received (n + 1) ≡ again)
Brings received n readed (x, xs) (p ∷ ps) =
    (received n ≡ bytes (x ∷ xs))
    × (is_request (readed ++ x ∷ xs) ≡ false)
    × Brings received (n + 1) (readed ++ x ∷ xs) p ps

module _ (httpstr : List ℕ) (sent : ℕ → ℕ → Sent) (received : ℕ → Received) where
  read-Answered :
      (s s' : Server) (fd : ℕ) (c : Con) (text : List ℕ) (n : ℕ)
      → Answered (put_con (record s { reads = s.reads + 1 }) fd c) s' fd text n
      → Answered s s' fd text (n + 1)
  read-Answered s s' fd c text n a = record {
    erased = a.erased;
    on_wire = a.on_wire;
    others_same = λ j d. let h = a.others_same j d in (h.0 ∙ set_other s.cons fd j _ d, h.1);
    closes_same = a.closes_same;
    added_same = a.added_same;
    reads_on = let e = a.reads_on in omega (arith, e);
  }

  stop-Answered :
      (s s' : Server) (fd : ℕ) (text : List ℕ)
      → Answered s s' fd text 0
      → Answered s (record s' { reads = s'.reads + 1 }) fd text 1
  stop-Answered s s' fd text a = record {
    erased = a.erased;
    on_wire = a.on_wire;
    others_same = a.others_same;
    closes_same = a.closes_same;
    added_same = a.added_same;
    reads_on = let e = a.reads_on in omega (arith, e);
  }

  pub read_one-request :
      (fuel : ℕ) (rest : Server → Outcome) (s s' : Server) (fd x : ℕ) (xs : List ℕ)
      → is_request ((con_of s fd).readed ++ x ∷ xs) ≡ true
      → send_res httpstr sent fuel
          (put_con s fd (record (con_of s fd) { readed = (con_of s fd).readed ++ x ∷ xs }))
          fd
        ≡ goes s'
      → read_one httpstr sent received fuel rest s fd (bytes (x ∷ xs)) ≡ rest s'
  unfolding read_one
  read_one-request fuel rest s s' fd x xs ok runs = rw (ok, runs) refl

  read_one-piece :
      (fuel : ℕ) (rest : Server → Outcome) (s : Server) (fd x : ℕ) (xs : List ℕ)
      → is_request ((con_of s fd).readed ++ x ∷ xs) ≡ false
      → read_one httpstr sent received fuel rest s fd (bytes (x ∷ xs))
        ≡ rest (put_con s fd (record (con_of s fd) { readed = (con_of s fd).readed ++ x ∷ xs }))
  unfolding read_one
  read_one-piece fuel rest s fd x xs partial = rw partial refl

  pub handle_read_next :
      (rounds fuel : ℕ) (s : Server) (fd n : ℕ) (r : Received)
      → s.reads ≡ n
      → received n ≡ r
      → handle_read httpstr sent received (suc rounds) fuel s fd
        ≡ read_one httpstr sent received fuel
            (λ s'. handle_read httpstr sent received rounds fuel s' fd)
            (record s { reads = s.reads + 1 })
            fd
            r
  unfolding handle_read
  handle_read_next rounds fuel s fd n r er e =
      ap
        (read_one httpstr sent received fuel
          (λ s'. handle_read httpstr sent received rounds fuel s' fd)
          (record s { reads = s.reads + 1 }) fd)
        (ap received er ∙ e)

  handle_read_on :
      (p : ℕ × List ℕ) (ps : List (ℕ × List ℕ)) (ks readed : List ℕ) (rounds fuel : ℕ) (s : Server)
      (fd : ℕ)
      → (con_of s fd).readed ≡ readed
      → Brings received s.reads readed p ps
      → Takes sent s.writes (length httpstr) ks
      → length ks < fuel
      → length ps + 1 < rounds
      → (con_of s fd).written ≡ 0
      → (s' : Server) × (handle_read httpstr sent received rounds fuel s fd ≡ goes s')
        × Answered s s' fd httpstr (length ps + 2)
  unfolding handle_read
  handle_read_on p ps ks readed zero fuel s fd er b t lt lr ew = absurd (omega arith)
  handle_read_on (x, xs) [] ks readed (suc zero) fuel s fd er b t lt lr ew = absurd (omega arith)
  handle_read_on (x, xs) [] ks readed (suc (suc rounds)) fuel s fd er (e, ok, stop) t lt lr ew =
      let s0 : Server = record s { reads = s.reads + 1 } in
      let c : Con = record (con_of s fd) { readed = (con_of s fd).readed ++ x ∷ xs } in
      let s1 : Server = put_con s0 fd c in
      let e1 : (con_of s1 fd).written ≡ 0 =
        ap (λ c. (or_new c).written) (set_there s.cons fd (some c)) ∙ ew in
      let (s', runs, a) = send_res-Answered httpstr sent ks fuel s1 fd t lt e1 in
      let ok' : is_request ((con_of s fd).readed ++ x ∷ xs) ≡ true =
        ap (λ w. is_request (w ++ x ∷ xs)) er ∙ ok in
      (
        record s' { reads = s'.reads + 1 },
        ap
              (read_one httpstr sent received fuel
                (λ s'. handle_read httpstr sent received (suc rounds) fuel s' fd) s0 fd)
              e
            ∙ read_one-request fuel _ s0 s' fd x xs ok' runs
            ∙ handle_read_next rounds fuel s' fd (s.reads + 1) again
                (let r = a.reads_on in omega (arith, r)) stop,
        read-Answered s _ fd c httpstr 1 (stop-Answered s1 s' fd httpstr a),
      )
  handle_read_on (x, xs) (p ∷ ps) ks readed (suc rounds) fuel s fd er (e, partial, b) t lt lr ew =
      let s0 : Server = record s { reads = s.reads + 1 } in
      let c : Con = record (con_of s fd) { readed = (con_of s fd).readed ++ x ∷ xs } in
      let s1 : Server = put_con s0 fd c in
      let e1 : (con_of s1 fd).written ≡ 0 =
        ap (λ c. (or_new c).written) (set_there s.cons fd (some c)) ∙ ew in
      let er1 : (con_of s1 fd).readed ≡ readed ++ x ∷ xs =
        ap (λ c. (or_new c).readed) (set_there s.cons fd (some c)) ∙ ap (λ w. w ++ x ∷ xs) er in
      let (s', runs, a) =
        handle_read_on p ps ks (readed ++ x ∷ xs) rounds fuel s1 fd er1 b t lt (omega arith) e1 in
      let partial' : is_request ((con_of s fd).readed ++ x ∷ xs) ≡ false =
        ap (λ w. is_request (w ++ x ∷ xs)) er ∙ partial in
      (
        s',
        ap
              (read_one httpstr sent received fuel
                (λ s'. handle_read httpstr sent received rounds fuel s' fd) s0 fd)
              e
            ∙ read_one-piece fuel _ s0 fd x xs partial'
            ∙ runs,
        subst (Answered s s' fd httpstr) (omega arith) (read-Answered s s' fd c httpstr _ a),
      )

  -- A request comes in non-empty pieces and is one with the last of them; the read behind it gives
  -- EAGAIN. No part of the response has been sent on the descriptor, the writes take all of it in
  -- pieces, and the fuel is more than the number of the pieces. Then handleRead returns, the response
  -- has gone out on the descriptor behind what went out before, its entry in `cons` is erased, the
  -- entries and wires of all other descriptors are the same, and nothing was closed or registered.
  pub handle_read_answers :
      (p : ℕ × List ℕ) (ps : List (ℕ × List ℕ)) (ks : List ℕ) (rounds fuel : ℕ) (s : Server)
      (fd : ℕ)
      → Brings received s.reads (con_of s fd).readed p ps
      → Takes sent s.writes (length httpstr) ks
      → length ks < fuel
      → length ps + 1 < rounds
      → (con_of s fd).written ≡ 0
      → (s' : Server) × (handle_read httpstr sent received rounds fuel s fd ≡ goes s')
        × Answered s s' fd httpstr (length ps + 2)
  handle_read_answers p ps ks rounds fuel s fd b t lt lr ew =
      handle_read_on p ps ks (con_of s fd).readed rounds fuel s fd refl b t lt lr ew
