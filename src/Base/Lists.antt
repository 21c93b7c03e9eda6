-- ===== src/Base/Lists.antt =====
-- Lists measured and indexed by native numbers: arrays of bytes, and the blocks of them that the
-- program copies with memcpy and std::copy.
use Prim.Native.Nat.{ℕ, zero, suc, ◌+◌, ◌-◌, ◌≤◌, min}
use mathlib.Core.Path.{◌≡◌, refl, ap}
use mathlib.Core.List.{List, [], ◌∷◌, ◌++◌}
use native.Mathlib.Omega.{arith}

module _ {ℓ} {A : Type ℓ} where
  abbrev pub length : List A → ℕ
  length [] = 0
  length (x ∷ xs) = suc (length xs)

  abbrev pub get_or : List A → ℕ → A → A
  get_or [] i d = d
  get_or (x ∷ xs) zero d = x
  get_or (x ∷ xs) (suc i) d = get_or xs i d

  abbrev pub take : ℕ → List A → List A
  take zero xs = []
  take (suc n) [] = []
  take (suc n) (x ∷ xs) = x ∷ take n xs

  abbrev pub drop : ℕ → List A → List A
  drop zero xs = xs
  drop (suc n) [] = []
  drop (suc n) (x ∷ xs) = drop n xs

  abbrev pub replicate : ℕ → A → List A
  replicate zero a = []
  replicate (suc n) a = a ∷ replicate n a

  -- Writes a block over the front of an array. What does not fit is not written.
  abbrev pub overlay : List A → List A → List A
  overlay [] xs = []
  overlay (y ∷ ys) [] = y ∷ ys
  overlay (y ∷ ys) (x ∷ xs) = x ∷ overlay ys xs

  -- memcpy of a block to the address `ys + i`.
  abbrev pub write_at : List A → ℕ → List A → List A
  write_at ys zero xs = overlay ys xs
  write_at [] (suc i) xs = []
  write_at (y ∷ ys) (suc i) xs = y ∷ write_at ys i xs

module _ {ℓ} {A : Type ℓ} where
  pub length-append : (xs ys : List A) → length (xs ++ ys) ≡ length xs + length ys
  length-append [] ys = omega arith
  length-append (x ∷ xs) ys = omega (arith, length-append xs ys)

  pub length-take : (n : ℕ) (xs : List A) → length (take n xs) ≡ min n (length xs)
  length-take zero xs = omega arith
  length-take (suc n) [] = omega arith
  length-take (suc n) (x ∷ xs) = omega (arith, length-take n xs)

  pub length-drop : (n : ℕ) (xs : List A) → length (drop n xs) ≡ length xs - n
  length-drop zero xs = omega arith
  length-drop (suc n) [] = omega arith
  length-drop (suc n) (x ∷ xs) = omega (arith, length-drop n xs)

  pub length-replicate : (n : ℕ) (a : A) → length (replicate n a) ≡ n
  length-replicate zero a = refl
  length-replicate (suc n) a = ap suc (length-replicate n a)

  pub length-overlay : (ys xs : List A) → length (overlay ys xs) ≡ length ys
  length-overlay [] xs = refl
  length-overlay (y ∷ ys) [] = refl
  length-overlay (y ∷ ys) (x ∷ xs) = ap suc (length-overlay ys xs)

  pub length-write_at : (ys : List A) (i : ℕ) (xs : List A) → length (write_at ys i xs) ≡ length ys
  length-write_at ys zero xs = length-overlay ys xs
  length-write_at [] (suc i) xs = refl
  length-write_at (y ∷ ys) (suc i) xs = ap suc (length-write_at ys i xs)

  pub take-zero : (n : ℕ) (xs : List A) → n ≡ 0 → take n xs ≡ []
  take-zero zero xs h = refl
  take-zero (suc n) xs h = absurd (omega arith)

  pub take-nil : (n : ℕ) → take {A = A} n [] ≡ []
  take-nil zero = refl
  take-nil (suc n) = refl

  pub drop-nil : (n : ℕ) → drop {A = A} n [] ≡ []
  drop-nil zero = refl
  drop-nil (suc n) = refl

  pub take-append-drop : (n : ℕ) (xs : List A) → take n xs ++ drop n xs ≡ xs
  take-append-drop zero xs = refl
  take-append-drop (suc n) [] = refl
  take-append-drop (suc n) (x ∷ xs) = rw (take-append-drop n xs)

  pub take_add : (m n : ℕ) (xs : List A) → take m xs ++ take n (drop m xs) ≡ take (m + n) xs
  take_add zero n xs = ap (λ k. take k xs) (omega arith)
  take_add (suc m) n [] = let e : suc m + n ≡ suc (m + n) = omega arith in rw e (take-nil n)
  take_add (suc m) n (x ∷ xs) =
      let e : suc m + n ≡ suc (m + n) = omega arith in rw e (ap (λ r. x ∷ r) (take_add m n xs))

  pub take-length_le : (n : ℕ) (xs : List A) → length xs ≤ n → take n xs ≡ xs
  take-length_le zero [] h = refl
  take-length_le zero (x ∷ xs) h = absurd (omega arith)
  take-length_le (suc n) [] h = refl
  take-length_le (suc n) (x ∷ xs) h = ap (λ r. x ∷ r) (take-length_le n xs (omega arith))

  pub drop-length_le : (n : ℕ) (xs : List A) → length xs ≤ n → drop n xs ≡ []
  drop-length_le zero [] h = refl
  drop-length_le zero (x ∷ xs) h = absurd (omega arith)
  drop-length_le (suc n) [] h = refl
  drop-length_le (suc n) (x ∷ xs) h = drop-length_le n xs (omega arith)

  pub take-append : (xs ys : List A) → take (length xs) (xs ++ ys) ≡ xs
  take-append [] ys = refl
  take-append (x ∷ xs) ys = ap (λ r. x ∷ r) (take-append xs ys)

  pub drop-append : (xs ys : List A) → drop (length xs) (xs ++ ys) ≡ ys
  drop-append [] ys = refl
  drop-append (x ∷ xs) ys = drop-append xs ys

  pub drop-drop : (m n : ℕ) (xs : List A) → drop m (drop n xs) ≡ drop (n + m) xs
  drop-drop m zero xs = ap (λ k. drop k xs) (omega arith)
  drop-drop m (suc n) [] = rw (drop-nil, drop-nil)
  drop-drop m (suc n) (x ∷ xs) =
      let e : suc n + m ≡ suc (n + m) = omega arith in rw e (drop-drop m n xs)

  pub drop-take : (m n : ℕ) (xs : List A) → drop m (take n xs) ≡ take (n - m) (drop m xs)
  drop-take zero n xs = ap (λ k. take k xs) (omega arith)
  drop-take (suc m) zero xs = rw (take-zero (0 - suc m) (drop (suc m) xs) (omega arith))
  drop-take (suc m) (suc n) [] = rw take-nil
  drop-take (suc m) (suc n) (x ∷ xs) =
      let e : suc n - suc m ≡ n - m = omega arith in rw e (drop-take m n xs)

  pub take-take : (m n : ℕ) (xs : List A) → m ≤ n → take m (take n xs) ≡ take m xs
  take-take zero n xs h = refl
  take-take (suc m) zero xs h = absurd (omega arith)
  take-take (suc m) (suc n) [] h = refl
  take-take (suc m) (suc n) (x ∷ xs) h = ap (λ r. x ∷ r) (take-take m n xs (omega arith))

  take-overlay : (ys xs : List A) → length xs ≤ length ys → take (length xs) (overlay ys xs) ≡ xs
  take-overlay ys [] h = refl
  take-overlay [] (x ∷ xs) h = absurd (omega arith)
  take-overlay (y ∷ ys) (x ∷ xs) h = ap (λ r. x ∷ r) (take-overlay ys xs (omega arith))

  -- The block of `n` bytes that ends where a block is written grows by that block.
  pub take-write_at :
      (ys : List A) (n : ℕ) (xs : List A)
      → n + length xs ≤ length ys
      → take (n + length xs) (write_at ys n xs) ≡ take n ys ++ xs
  take-write_at ys zero xs h =
      let e : 0 + length xs ≡ length xs = omega arith in rw e (take-overlay ys xs (omega arith))
  take-write_at [] (suc n) xs h = absurd (omega arith)
  take-write_at (y ∷ ys) (suc n) xs h =
      let e : suc n + length xs ≡ suc (n + length xs) = omega arith in
      rw e (ap (λ r. y ∷ r) (take-write_at ys n xs (omega arith)))

  pub drop-write_at :
      (ys : List A) (b n : ℕ) (xs : List A)
      → drop b (write_at ys (b + n) xs) ≡ write_at (drop b ys) n xs
  drop-write_at ys zero n xs = ap (λ k. write_at ys k xs) (omega arith)
  drop-write_at [] (suc b) n xs = nil n
    where
      nil : (n : ℕ) → drop (suc b) (write_at [] (suc b + n) xs) ≡ write_at [] n xs
      nil zero = let e : suc b + zero ≡ suc b = omega arith in rw e
      nil (suc m) = let e : suc b + suc m ≡ suc (b + suc m) = omega arith in rw e
  drop-write_at (y ∷ ys) (suc b) n xs =
      let e : suc b + n ≡ suc (b + n) = omega arith in rw e (drop-write_at ys b n xs)
