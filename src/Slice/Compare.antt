-- ===== src/Slice/Compare.antt =====
-- slice.cc: the comparisons, against the lexicographic order and the relation of being a part.
use net_library.Base.{
  ℕ, suc, ◌+◌, ◌-◌, ◌≤◌, ◌<◌, ◌≡◌, refl, ap, ap₂, sym, ◌∙◌, ◌↔◌, true, List, [], ◌∷◌, ◌++◌, arith,
  if◌then◌else◌, take, drop, length, Bool-cases, inl, inr, Sign, less, equal, greater, memcmp, ltb,
  leb, length-take, length-drop, ◌^◌, take-take, take-append-drop, leb→le, le→leb, &&-true, ◌&&◌,
  length-append, take-append, drop-append, drop-take, drop-drop,
}
use net_library.Slice.{Slice, bytes, size, by_size, compare, is_equal, start_with, end_with}
use net_library.Slice.Scan.{IsValid}

-- The lexicographic order of two texts; a text comes after its own prefixes.
abbrev pub lexicographic : List ℕ → List ℕ → Sign
lexicographic [] [] = equal
lexicographic [] (y ∷ ys) = less
lexicographic (x ∷ xs) [] = greater
lexicographic (x ∷ xs) (y ∷ ys) =
    if ltb x y then less else if ltb y x then greater else lexicographic xs ys

-- A text is shorter than the address space.
pub record IsText (s : Slice) : Type 0 where
  pub valid : IsValid s
  pub short : length s.mem < 2 ^ 63

size_lem : {s : Slice} → IsText s → (size s ≡ s.pe - s.pb) × (length (bytes s) ≡ s.pe - s.pb)
size_lem {s} t =
    omega (arith, t.valid, length-take (s.pe - s.pb) (drop s.pb s.mem), length-drop s.pb s.mem)

-- memcmp on the shorter length, then the lengths.
abbrev common : List ℕ → List ℕ → ℕ
common xs ys = if ltb (length ys) (length xs) then length ys else length xs

common-cons : (x y : ℕ) (xs ys : List ℕ) → common (x ∷ xs) (y ∷ ys) ≡ suc (common xs ys)
common-cons x y xs ys = ground arith

by_size-suc : (m n : ℕ) (s : Sign) → by_size (suc m) (suc n) s ≡ by_size m n s
unfolding by_size
by_size-suc m n equal = ground arith
by_size-suc m n less = refl
by_size-suc m n greater = refl

by_size-memcmp :
    (xs ys : List ℕ)
    → by_size (length xs) (length ys) (memcmp (take (common xs ys) xs) (take (common xs ys) ys))
      ≡ lexicographic xs ys
unfolding by_size
by_size-memcmp [] [] = refl
by_size-memcmp [] (y ∷ ys) = ground arith
by_size-memcmp (x ∷ xs) [] = ground arith
by_size-memcmp (x ∷ xs) (y ∷ ys) = rw (common-cons x y xs ys) (elim (Bool-cases (ltb x y)) [
  | inl lt ↦ rw lt
  | inr ge ↦ rw ge (elim (Bool-cases (ltb y x)) [
    | inl gt ↦ rw gt
    | inr eq ↦ rw eq (
        by_size-suc (length xs) (length ys)
          (memcmp (take (common xs ys) xs) (take (common xs ys) ys))
        ∙ by_size-memcmp xs ys)
  ])
])

-- `compare` of two slices has the sign of the lexicographic order of their bytes.
pub compare-lexicographic :
    {s r : Slice} → IsText s → IsText r → compare s r ≡ lexicographic (bytes s) (bytes r)
unfolding compare
compare-lexicographic {s} {r} t u =
    let a = size_lem t in
    let b = size_lem u in
    let sa : size s ≡ length (bytes s) = a.0 ∙ sym a.1 in
    let sb : size r ≡ length (bytes r) = b.0 ∙ sym b.1 in
    let c = common (bytes s) (bytes r) in
    let ca : c ≤ s.pe - s.pb = ground (arith, a.1, b.1) in
    let cb : c ≤ r.pe - r.pb = ground (arith, a.1, b.1) in
    rw
      (
        sa,
        sb,
        ← take-take c (s.pe - s.pb) (drop s.pb s.mem) ca,
        ← take-take c (r.pe - r.pb) (drop r.pb r.mem) cb,
      )
      (by_size-memcmp (bytes s) (bytes r))

memcmp-eq : (xs ys : List ℕ) → length xs ≡ length ys → is_equal (memcmp xs ys) ≡ true → xs ≡ ys
memcmp-eq [] [] l h = refl
memcmp-eq [] (y ∷ ys) l h = absurd (omega arith)
memcmp-eq (x ∷ xs) [] l h = absurd (omega arith)
memcmp-eq (x ∷ xs) (y ∷ ys) l h = ground (arith, memcmp-eq xs ys (omega arith))

memcmp_refl : (xs : List ℕ) → is_equal (memcmp xs xs) ≡ true
memcmp_refl [] = refl
memcmp_refl (x ∷ xs) = ground (arith, memcmp_refl xs)

start_with_iff :
    {s x : Slice}
    → IsText s
    → IsText x
    → (start_with s x ≡ true) ↔ ((rest : List ℕ) × (bytes s ≡ bytes x ++ rest))
unfolding start_with
start_with_iff {s} {x} t u = (to, from)
  where
    a : (size s ≡ s.pe - s.pb) × (length (bytes s) ≡ s.pe - s.pb)
    a = size_lem t

    b : (size x ≡ x.pe - x.pb) × (length (bytes x) ≡ x.pe - x.pb)
    b = size_lem u

    same : size x ≤ size s → take (size x) (bytes s) ≡ take (size x) (drop s.pb s.mem)
    same h = take-take (size x) (s.pe - s.pb) (drop s.pb s.mem) (omega (arith, a))

    to :
        (leb (size x) (size s) && is_equal (memcmp (take (size x) (drop s.pb s.mem)) (bytes x)))
          ≡ true
        → (rest : List ℕ) × (bytes s ≡ bytes x ++ rest)
    to h =
        let p = &&-true (leb (size x) (size s)) _ h in
        let le = leb→le (size x) (size s) p.0 in
        let e : take (size x) (drop s.pb s.mem) ≡ bytes x =
          memcmp-eq _ _
            (ap length (sym (same le)) ∙ omega (arith, a, b, length-take (size x) (bytes s))) p.1 in
        (
          drop (size x) (bytes s),
          sym (take-append-drop (size x) (bytes s))
              ∙ ap (λ r. r ++ drop (size x) (bytes s)) (same le ∙ e),
        )

    from :
        ((rest : List ℕ) × (bytes s ≡ bytes x ++ rest))
        → (leb (size x) (size s) && is_equal (memcmp (take (size x) (drop s.pb s.mem)) (bytes x)))
          ≡ true
    from (rest, e) =
        let le : size x ≤ size s = omega (arith, a, b, ap length e, length-append (bytes x) rest) in
        let n : size x ≡ length (bytes x) = b.0 ∙ sym b.1 in
        let cut : take (size x) (drop s.pb s.mem) ≡ bytes x =
          sym (same le)
          ∙ ap (take (size x)) e
          ∙ ap (λ k. take k (bytes x ++ rest)) n
          ∙ take-append (bytes x) rest in
        rw (le→leb (size x) (size s) le, cut) (memcmp_refl (bytes x))

end_with_iff :
    {s x : Slice}
    → IsText s
    → IsText x
    → (end_with s x ≡ true) ↔ ((front : List ℕ) × (bytes s ≡ front ++ bytes x))
unfolding end_with
end_with_iff {s} {x} t u = (to, from)
  where
    a : (size s ≡ s.pe - s.pb) × (length (bytes s) ≡ s.pe - s.pb)
    a = size_lem t

    b : (size x ≡ x.pe - x.pb) × (length (bytes x) ≡ x.pe - x.pb)
    b = size_lem u

    -- The last `size()` bytes of the slice.
    same :
        size x ≤ size s
        → drop (size s - size x) (bytes s) ≡ take (size x) (drop (s.pe - size x) s.mem)
    same h =
        let e : s.pe - s.pb - (size s - size x) ≡ size x = omega (arith, a) in
        let k : s.pb + (size s - size x) ≡ s.pe - size x = omega (arith, a) in
        drop-take (size s - size x) (s.pe - s.pb) (drop s.pb s.mem)
        ∙ ap₂ take e (drop-drop (size s - size x) s.pb s.mem ∙ ap (λ i. drop i s.mem) k)

    to :
        (leb (size x) (size s)
            && is_equal (memcmp (take (size x) (drop (s.pe - size x) s.mem)) (bytes x)))
          ≡ true
        → (front : List ℕ) × (bytes s ≡ front ++ bytes x)
    to h =
        let p = &&-true (leb (size x) (size s)) _ h in
        let le = leb→le (size x) (size s) p.0 in
        let e : take (size x) (drop (s.pe - size x) s.mem) ≡ bytes x =
          memcmp-eq _ _
            (ap length (sym (same le))
              ∙ omega (arith, a, b, length-drop (size s - size x) (bytes s)))
            p.1 in
        (
          take (size s - size x) (bytes s),
          sym (take-append-drop (size s - size x) (bytes s))
              ∙ ap (λ r. take (size s - size x) (bytes s) ++ r) (same le ∙ e),
        )

    from :
        ((front : List ℕ) × (bytes s ≡ front ++ bytes x))
        → (leb (size x) (size s)
            && is_equal (memcmp (take (size x) (drop (s.pe - size x) s.mem)) (bytes x)))
          ≡ true
    from (front, e) =
        let l = length-append front (bytes x) in
        let le : size x ≤ size s = omega (arith, a, b, ap length e, l) in
        let n : size s - size x ≡ length front = omega (arith, a, b, ap length e, l) in
        let cut : take (size x) (drop (s.pe - size x) s.mem) ≡ bytes x =
          sym (same le)
          ∙ ap (drop (size s - size x)) e
          ∙ ap (λ k. drop k (front ++ bytes x)) n
          ∙ drop-append front (bytes x) in
        rw (le→leb (size x) (size s) le, cut) (memcmp_refl (bytes x))

-- `startWith` holds exactly of the slices whose bytes begin with those of the other slice, and
-- `endWith` exactly of those whose bytes end with them.
pub start_with-end_with_iff :
    {s x : Slice}
    → IsText s
    → IsText x
    → ((start_with s x ≡ true) ↔ ((rest : List ℕ) × (bytes s ≡ bytes x ++ rest)))
      × ((end_with s x ≡ true) ↔ ((front : List ℕ) × (bytes s ≡ front ++ bytes x)))
start_with-end_with_iff t u = (start_with_iff t u, end_with_iff t u)
