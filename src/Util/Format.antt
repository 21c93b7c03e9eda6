-- ===== src/Util/Format.antt =====
-- util.cc: what `format` returns.
use net_library.Base.{
  ℕ, zero, suc, ◌-◌, ◌≤◌, ◌<◌, ◌≡◌, refl, ap, sym, ◌∙◌, true, false, Option, none, some, List, [],
  ◌∷◌, ◌++◌, map, length, take, write_at, replicate, overlay, leb, Bool-cases, inl, inr, arith,
  HasNoZero, ◌==◌, length-take, length-replicate, take-length_le,
}
use net_library.Util.{
  Cell, printed, c_string, close_last, buffer_size, format_round, string_of, format,
}

pub take-HasNoZero : (n : ℕ) (text : List ℕ) → HasNoZero text → HasNoZero (take n text)
take-HasNoZero zero text h = tt
take-HasNoZero (suc n) [] h = tt
take-HasNoZero (suc n) (zero ∷ cs) h = h
take-HasNoZero (suc n) (suc c ∷ cs) h = take-HasNoZero n cs h

-- A text that is written with its zero into a buffer with room is read back.
pub c_string-overlay :
    (text : List ℕ) (buf : List Cell)
    → HasNoZero text
    → length text < length buf
    → c_string (overlay buf (map some (text ++ 0 ∷ []))) ≡ some text
c_string-overlay [] [] t h = elim h [ ]
c_string-overlay [] (b ∷ bs) t h = refl
c_string-overlay (zero ∷ cs) buf t h = elim t [ ]
c_string-overlay (suc c ∷ cs) [] t h = elim h [ ]
c_string-overlay (suc c ∷ cs) (b ∷ bs) t h = rw (c_string-overlay cs bs t (omega arith)) refl

closed_lem :
    (text : List ℕ) (buf : List Cell)
    → length text < length buf
    → write_at (overlay buf (map some (text ++ 0 ∷ []))) (length text) (some 0 ∷ [])
      ≡ overlay buf (map some (text ++ 0 ∷ []))
closed_lem [] [] h = elim h [ ]
closed_lem [] (b ∷ []) h = refl
closed_lem [] (b ∷ c ∷ bs) h = refl
closed_lem (c ∷ cs) [] h = elim h [ ]
closed_lem (c ∷ cs) (b ∷ bs) h = ap (λ r. some c ∷ r) (closed_lem cs bs (omega arith))

-- A text that fits into a buffer is read back; else what fits of it.
printed_lem :
    (n : ℕ) (text : List ℕ)
    → HasNoZero text
    → length text ≤ n
    → c_string (printed (suc n) text (replicate (suc n) none)) ≡ some text
printed_lem n text t h = rw (take-length_le n text h) (
    c_string-overlay text (replicate (suc n) none) t
      (omega (arith, length-replicate {A = Cell} (suc n) none)))

truncated_lem :
    (n : ℕ) (text : List ℕ)
    → HasNoZero text
    → n ≤ length text
    → c_string (close_last (suc n) (printed (suc n) text (replicate (suc n) none)))
      ≡ some (take n text)
truncated_lem n text t h =
    let front = take n text in
    let e : length front ≡ n = omega (arith, length-take n text, h) in
    let l : length front < length (replicate {A = Cell} (suc n) none) =
      omega (arith, length-replicate {A = Cell} (suc n) none, e) in
    let last : suc n - 1 ≡ length front = omega (arith, e) in
    ap (λ k. c_string (write_at (printed (suc n) text (replicate (suc n) none)) k (some 0 ∷ [])))
      last
    ∙ ap c_string (closed_lem front (replicate (suc n) none) l)
    ∙ c_string-overlay front (replicate (suc n) none) (take-HasNoZero n text t) l

-- A round whose buffer holds the text, one whose buffer does not, and the last one.
module _ (i n : ℕ) (size : buffer_size i ≡ suc n) (text : List ℕ) (t : HasNoZero text)
    (again : Option (List ℕ)) where
  round_fits : length text ≤ n → string_of (format_round i (some text)) again ≡ some text
  unfolding format_round
  round_fits h =
      let e : leb (suc n) (length text) ≡ false = ground arith in
      rw (format_round, size) (rw e (printed_lem n text t h))

  round_again :
      suc n ≤ length text → (i == 0) ≡ true → string_of (format_round i (some text)) again ≡ again
  unfolding format_round
  round_again h z =
      let e : leb (suc n) (length text) ≡ true = ground arith in
      rw (format_round, size) (rw e (rw z))

  round_cut :
      suc n ≤ length text
      → (i == 0) ≡ false
      → string_of (format_round i (some text)) again ≡ some (take n text)
  unfolding format_round
  round_cut h z =
      let e : leb (suc n) (length text) ≡ true = ground arith in
      rw (format_round, size) (rw e (rw z (truncated_lem n text t (omega (arith, h)))))

-- `format` returns the text, cut after 999 characters.
pub format_lem : (text : List ℕ) → HasNoZero text → format (some text) ≡ some (take 999 text)
unfolding format
format_lem text t = elim (Bool-cases (leb 10 (length text))) [
  | inr short ↦
      round_fits 0 9 refl text t _ (ground arith)
      ∙ ap some (sym (take-length_le 999 text (ground arith)))
  | inl long ↦
      round_again 0 9 refl text t _ (ground arith) refl
      ∙ elim (Bool-cases (leb 1000 (length text))) [
        | inl cut ↦ round_cut 1 999 refl text t none (ground arith) refl
        | inr fits ↦
            round_fits 1 999 refl text t none (ground arith)
            ∙ ap some (sym (take-length_le 999 text (ground arith)))
      ]
]
