-- ===== src/Slice/Scan.antt =====
-- slice.cc: the scanning loops, against the longest prefix or suffix of bytes that pass a test.
use mathlib.Core.List.{reverse, reverse-append, reverse-cons, reverse-reverse}
use net_library.Base.{
  ℕ, zero, suc, ◌+◌, ◌-◌, ◌≤◌, ◌<◌, ◌≡◌, refl, ap, sym, ◌∙◌, Bool, List, [], ◌∷◌, ◌++◌, arith,
  if◌then◌else◌, get_or, take, drop, length, Bool-cases, inl, inr, take-zero,
}
use net_library.Slice.{Slice, skip, skip_back}

-- The longest prefix whose bytes pass a test, and what follows it.
abbrev pub take_while : (ℕ → Bool) → List ℕ → List ℕ
take_while test [] = []
take_while test (x ∷ xs) = if test x then x ∷ take_while test xs else []

abbrev pub drop_while : (ℕ → Bool) → List ℕ → List ℕ
drop_while test [] = []
drop_while test (x ∷ xs) = if test x then drop_while test xs else x ∷ xs

-- What precedes the longest suffix whose bytes pass a test.
abbrev pub drop_while_back : (ℕ → Bool) → List ℕ → List ℕ
drop_while_back test xs = reverse (drop_while test (reverse xs))

pub record IsValid (s : Slice) : Type 0 where
  pub ordered : s.pb ≤ s.pe
  pub inside : s.pe ≤ length s.mem

abbrev pub window : List ℕ → ℕ → ℕ → List ℕ
window mem p n = take n (drop p mem)

pub window-cons :
    (mem : List ℕ) (p n : ℕ)
    → p < length mem
    → window mem p (suc n) ≡ get_or mem p 0 ∷ window mem (p + 1) n
window-cons [] p n h = absurd (omega arith)
window-cons (x ∷ mem) zero n h = refl
window-cons (x ∷ mem) (suc p) n h =
    let e : suc p + 1 ≡ suc (p + 1) = omega arith in rw e (window-cons mem p n (omega arith))

pub window-snoc :
    (mem : List ℕ) (p n : ℕ)
    → p + n < length mem
    → window mem p (suc n) ≡ window mem p n ++ get_or mem (p + n) 0 ∷ []
window-snoc [] p n h = absurd (omega arith)
window-snoc (x ∷ mem) zero zero h = refl
window-snoc (x ∷ mem) zero (suc n) h =
    let e : zero + suc n ≡ suc (zero + n) = omega arith in
    rw e (ap (λ r. x ∷ r) (window-snoc mem zero n (omega arith)))
window-snoc (x ∷ mem) (suc p) n h =
    let e : suc p + n ≡ suc (p + n) = omega arith in rw e (window-snoc mem p n (omega arith))

pub window-append :
    (mem : List ℕ) (p m n : ℕ)
    → p + m + n ≤ length mem
    → window mem p (m + n) ≡ window mem p m ++ window mem (p + m) n
window-append mem p zero n h =
    let e : zero + n ≡ n = omega arith in let k : p + zero ≡ p = omega arith in rw (e, k)
window-append mem p (suc m) n h =
    let e : suc m + n ≡ suc (m + n) = omega arith in
    let k : p + suc m ≡ p + 1 + m = omega arith in
    rw (e, window-cons mem p (m + n) (omega arith), window-cons mem p m (omega arith), k)
      (ap (λ r. get_or mem p 0 ∷ r) (window-append mem (p + 1) m n (omega arith)))

module _ (test : ℕ → Bool) (mem : List ℕ) where
  pub skip_bounds : (n p : ℕ) → (p ≤ skip test mem n p) × (skip test mem n p ≤ p + n)
  unfolding skip
  skip_bounds zero p = omega arith
  skip_bounds (suc n) p = ground (arith, skip_bounds n (p + 1))

  pub skip-take_while :
      (n p : ℕ)
      → p + n ≤ length mem
      → window mem p (skip test mem n p - p) ≡ take_while test (window mem p n)
  unfolding skip
  skip-take_while zero p h = take-zero (p - p) (drop p mem) (omega arith)
  skip-take_while (suc n) p h = elim (Bool-cases (test (get_or mem p 0))) [
    | inl t ↦
        let b = skip_bounds n (p + 1) in
        let e : skip test mem n (p + 1) - p ≡ suc (skip test mem n (p + 1) - (p + 1)) =
          omega arith in
        rw (t, window-cons mem p n (omega arith), t, e)
          (window-cons mem p (skip test mem n (p + 1) - (p + 1)) (omega arith)
            ∙ ap (λ r. get_or mem p 0 ∷ r) (skip-take_while n (p + 1) (omega arith)))
    | inr f ↦
        rw (f, window-cons mem p n (omega arith), f) (take-zero (p - p) (drop p mem) (omega arith))
  ]

  pub skip-drop_while :
      (n p : ℕ)
      → p + n ≤ length mem
      → window mem (skip test mem n p) (p + n - skip test mem n p)
        ≡ drop_while test (window mem p n)
  unfolding skip
  skip-drop_while zero p h = let e : p + zero - p ≡ 0 = omega arith in rw e
  skip-drop_while (suc n) p h = elim (Bool-cases (test (get_or mem p 0))) [
    | inl t ↦
        let e : p + suc n ≡ p + 1 + n = omega arith in
        rw (t, window-cons mem p n (omega arith), t, e) (skip-drop_while n (p + 1) (omega arith))
    | inr f ↦
        let e : p + suc n - p ≡ suc n = omega arith in
        rw (f, window-cons mem p n (omega arith), f, e) (window-cons mem p n (omega arith))
  ]

  pub skip_back_bounds :
      (n e : ℕ) → n ≤ e → (e ≤ skip_back test mem n e + n) × (skip_back test mem n e ≤ e)
  unfolding skip_back
  skip_back_bounds zero e h = omega arith
  skip_back_bounds (suc n) e h = ground (arith, skip_back_bounds n (e - 1))

  pub skip_back-drop_while_back :
      (n b : ℕ)
      → b + n ≤ length mem
      → window mem b (skip_back test mem n (b + n) - b) ≡ drop_while_back test (window mem b n)
  unfolding skip_back
  skip_back-drop_while_back zero b h = take-zero (b + zero - b) (drop b mem) (omega arith)
  skip_back-drop_while_back (suc n) b h =
      let e : b + suc n - 1 ≡ b + n = omega arith in
      let last : reverse (window mem b n ++ get_or mem (b + n) 0 ∷ [])
          ≡ get_or mem (b + n) 0 ∷ reverse (window mem b n) =
        reverse-append (window mem b n) (get_or mem (b + n) 0 ∷ []) in
      elim (Bool-cases (test (get_or mem (b + n) 0))) [
        | inl t ↦
            rw (e, t, window-snoc mem b n (omega arith), last, t)
              (skip_back-drop_while_back n b (omega arith))
        | inr f ↦
            let k : b + suc n - b ≡ suc n = omega arith in
            rw (e, f, window-snoc mem b n (omega arith), last, f, k)
              (window-snoc mem b n (omega arith)
                ∙ sym (
                    reverse-cons (get_or mem (b + n) 0) (reverse (window mem b n))
                    ∙ ap (λ r. r ++ get_or mem (b + n) 0 ∷ []) (reverse-reverse (window mem b n))))
      ]
