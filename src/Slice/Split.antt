-- ===== src/Slice/Split.antt =====
-- slice.cc: `split`. Each piece but the last stands before a separator; an empty last piece is left
-- out.
use net_library.Base.{
  ℕ, zero, suc, ◌+◌, ◌-◌, ◌≤◌, ◌≡◌, refl, ap, sym, ◌∙◌, Bool, true, false, not, List, [], ◌∷◌, ◌++◌,
  append_assoc, arith, if◌then◌else◌, get_or, Bool-cases, inl, inr, ◌==◌, ==_iff, subst, ◌≢◌,
}
use net_library.Slice.{Slice, bytes, split_from, split}
use net_library.Slice.Scan.{IsValid, window, window-cons, window-snoc, window-append}

-- The pieces, each with a separator behind it, in one text.
abbrev pub terminated : ℕ → List Slice → List ℕ
terminated ch [] = []
terminated ch (s ∷ ss) = bytes s ++ (ch ∷ terminated ch ss)

-- Does a text end in something other than a separator?
abbrev pub is_open : ℕ → List ℕ → Bool
is_open ch [] = false
is_open ch (x ∷ []) = not (x == ch)
is_open ch (x ∷ y ∷ r) = is_open ch (y ∷ r)

abbrev pub closed : ℕ → List ℕ → List ℕ
closed ch xs = if is_open ch xs then xs ++ ch ∷ [] else xs

abbrev pub Lacks : ℕ → List ℕ → Type 0
Lacks ch [] = Unit {0}
Lacks ch (x ∷ xs) = ((x == ch) ≡ false) × Lacks ch xs

abbrev pub AllLack : ℕ → List Slice → Type 0
AllLack ch [] = Unit {0}
AllLack ch (s ∷ ss) = Lacks ch (bytes s) × AllLack ch ss

Lacks-snoc : (ch x : ℕ) (xs : List ℕ) → Lacks ch xs → (x == ch) ≡ false → Lacks ch (xs ++ x ∷ [])
Lacks-snoc ch x [] l h = (h, tt)
Lacks-snoc ch x (y ∷ xs) l h = (l.0, Lacks-snoc ch x xs l.1 h)

-- A text of no separators is open unless it is empty.
is_open-Lacks : (ch x : ℕ) (xs : List ℕ) → Lacks ch (x ∷ xs) → is_open ch (x ∷ xs) ≡ true
is_open-Lacks ch x [] l = rw l.0
is_open-Lacks ch x (y ∷ xs) l = is_open-Lacks ch y xs l.1

-- What follows a separator decides whether the text is open.
is_open-separator : (ch : ℕ) (xs ys : List ℕ) → is_open ch (xs ++ (ch ∷ ys)) ≡ is_open ch ys
is_open-separator ch [] [] = ground arith
is_open-separator ch [] (y ∷ ys) = refl
is_open-separator ch (x ∷ []) ys = is_open-separator ch [] ys
is_open-separator ch (x ∷ y ∷ xs) ys = is_open-separator ch (y ∷ xs) ys

closed-separator :
    (ch : ℕ) (xs ys : List ℕ) → closed ch (xs ++ (ch ∷ ys)) ≡ xs ++ (ch ∷ closed ch ys)
closed-separator ch xs ys = elim (Bool-cases (is_open ch ys)) [
  | inl o ↦ rw (is_open-separator ch xs ys, o) (append_assoc xs (ch ∷ ys) (ch ∷ []))
  | inr c ↦ rw (is_open-separator ch xs ys, c)
]

-- The pieces that a scan yields: they make up what is scanned, and none holds a separator.
abbrev pub Splits : ℕ → List ℕ → List Slice → Type 0
Splits ch xs ss = (terminated ch ss ≡ closed ch xs) × AllLack ch ss

module _ (ch : ℕ) {s : Slice} (v : IsValid s) where
  last_piece :
      (k p1 : ℕ)
      → p1 + suc k ≡ s.pe
      → Lacks ch (window s.mem p1 (suc k))
      → closed ch (window s.mem p1 (suc k)) ≡ window s.mem p1 (suc k) ++ ch ∷ []
  last_piece k p1 e l =
      let c = window-cons s.mem p1 k (omega arith) in
      let o : is_open ch (window s.mem p1 (suc k)) ≡ true =
        ap (is_open ch) c
        ∙ is_open-Lacks ch (get_or s.mem p1 0) (window s.mem (p1 + 1) k) (subst (Lacks ch) c l) in
      rw o

  split_from_lem :
      (n p1 p2 : ℕ)
      → p1 ≤ p2
      → p2 + n ≡ s.pe
      → Lacks ch (window s.mem p1 (p2 - p1))
      → Splits ch (window s.mem p1 (s.pe - p1)) (split_from s ch n p1 p2)
  unfolding split_from
  split_from_lem zero p1 p2 h e l = elim (Bool-cases (p1 == s.pe)) [
    | inl done ↦
        let z : s.pe - p1 ≡ 0 = omega (arith, (==_iff p1 s.pe).0 done) in rw (done, z) (refl, tt)
    | inr more ↦
        let ne : p1 ≢ s.pe = λ q. cc (more, (==_iff p1 s.pe).1 q) in
        let k : s.pe - p1 ≡ suc (s.pe - p1 - 1) = omega (arith, ne) in
        let m : p2 - p1 ≡ suc (s.pe - p1 - 1) = omega (arith, ne) in
        let l' = subst (λ j. Lacks ch (window s.mem p1 j)) m l in
        rw (more, k) (sym (last_piece (s.pe - p1 - 1) p1 (omega (arith, ne)) l'), (l', tt))
  ]
  split_from_lem (suc n) p1 p2 h e l = elim (Bool-cases (get_or s.mem p2 0 == ch)) [
    | inl here ↦
        let r = split_from_lem n (p2 + 1) (p2 + 1) (omega arith) (omega arith) empty in
        rw here (
          sym (
              ap (closed ch) (cut here)
              ∙ closed-separator ch (window s.mem p1 (p2 - p1))
                  (window s.mem (p2 + 1) (s.pe - (p2 + 1)))
              ∙ ap (λ t. window s.mem p1 (p2 - p1) ++ (ch ∷ t)) (sym r.0)),
          (l, r.1),
        )
    | inr on ↦
        let m : p2 + 1 - p1 ≡ suc (p2 - p1) = omega arith in
        let a : p1 + (p2 - p1) ≡ p2 = omega arith in
        rw on (
          split_from_lem n p1 (p2 + 1) (omega arith) (omega arith) (
            rw (m, window-snoc s.mem p1 (p2 - p1) (omega arith), a)
              (Lacks-snoc ch (get_or s.mem p2 0) (window s.mem p1 (p2 - p1)) l on)))
  ]
    where
      empty : Lacks ch (window s.mem (p2 + 1) (p2 + 1 - (p2 + 1)))
      empty = let z : p2 + 1 - (p2 + 1) ≡ 0 = omega arith in rw z tt

      cut :
          (get_or s.mem p2 0 == ch) ≡ true
          → window s.mem p1 (s.pe - p1)
            ≡ window s.mem p1 (p2 - p1) ++ (ch ∷ window s.mem (p2 + 1) (s.pe - (p2 + 1)))
      cut here =
          let k : s.pe - p1 ≡ (p2 - p1) + suc n = omega arith in
          let a : p1 + (p2 - p1) ≡ p2 = omega arith in
          let m : s.pe - (p2 + 1) ≡ n = omega arith in
          rw (
            k,
            window-append s.mem p1 (p2 - p1) (suc n) (omega arith),
            a,
            window-cons s.mem p2 n (omega arith),
            (==_iff (get_or s.mem p2 0) ch).0 here,
            m,
          )

-- The pieces that `split` of a valid slice yields hold no separator, and with a separator behind
-- each they make up the bytes of the slice, with one more separator where these end in another byte.
pub split_lem : (ch : ℕ) {s : Slice} → IsValid s → Splits ch (bytes s) (split s ch)
unfolding split
split_lem ch {s} v =
    let z : s.pb - s.pb ≡ 0 = omega arith in
    split_from_lem ch v (s.pe - s.pb) s.pb s.pb (omega arith) (omega arith) (rw z tt)
