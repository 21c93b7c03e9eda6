-- ===== src/Buffer/Refused.antt =====
-- buffer.h, buffer.cpp: which operation needs a new array.
use mathlib.Core.Option.{map}
use net_library.Base.{
  ℕ, ◌≡◌, ◌/◌, ◌&&◌, ◌==◌, not, leb, ltb, add_size, Bool-cases, refl, ap, sym, ◌∙◌, Bool, true,
  false, Option, none, some, List, inl, inr, arith, length,
}
use net_library.Buffer.{
  Buffer, Cell, size, contents, clear, append, absorb, make_room, make_some_room, space, is_null,
  alloc_room, copy_from,
}
use net_library.Buffer.Inv.{IsValid, length-contents}

-- The room behind the bytes, and that before them, is not enough for so many more.
abbrev pub is_full : Buffer → ℕ → Bool
is_full x len = not (leb (add_size x.e len) x.cap) && not (ltb (add_size (size x) len) (x.cap / 2))

module _ (grants : ℕ → Bool) where
  pub make_room-full : (x : Buffer) (len : ℕ) → make_room grants x len ≡ none → is_full x len ≡ true
  unfolding make_room
  make_room-full x len e = elim (Bool-cases (leb (add_size x.e len) x.cap)) [
    | inl fits ↦ absurd (ground (arith, e, fits))
    | inr full ↦ elim (Bool-cases (ltb (add_size (size x) len) (x.cap / 2))) [
      | inl low ↦ absurd (ground (arith, e, full, low))
      | inr high ↦ rw (full, high) refl
    ]
  ]

  pub make_some_room-full :
      (x : Buffer) → make_some_room grants x ≡ none → ltb (space x) x.exp ≡ true
  unfolding make_some_room
  make_some_room-full x e = elim (Bool-cases (ltb (space x) x.exp)) [
    | inl low ↦ low
    | inr high ↦ absurd (ground (arith, e, high))
  ]

  map-none : {A B : Type 0} (f : A → B) (o : Option A) → map f o ≡ none → o ≡ none
  map-none f none e = refl
  map-none f (some a) e = absurd (ground (arith, e))

  pub append-full :
      (x : Buffer) (xs : List Cell) → append grants x xs ≡ none → is_full x (length xs) ≡ true
  unfolding append alloc_room
  append-full x xs e = make_room-full x (length xs) (map-none _ _ (map-none _ _ e))

  pub absorb-full :
      (x y : Buffer)
      → IsValid y
      → absorb grants x (some y) ≡ none
      → ((size x == 0) ≡ false) × (is_full x (size y) ≡ true)
  unfolding absorb
  absorb-full x y w e = elim (Bool-cases (size x == 0)) [
    | inl z ↦ absurd (ground (arith, e, z))
    | inr z ↦
        let none_left : append grants x (contents y) ≡ none = map-none _ _ (absorbing z) in
        (z, ap (is_full x) (sym (length-contents w)) ∙ append-full x (contents y) none_left)
  ]
    where
      absorbing :
          (size x == 0) ≡ false
          → map {B = Buffer × Option Buffer}
              (λ r'. (r', some (clear y)))
              (append grants x (contents y))
            ≡ none
      absorbing z =
          let computed : absorb grants x (some y)
              ≡ map {B = Buffer × Option Buffer} (λ r'. (r', some (clear y)))
                  (append grants x (contents y)) =
            rw z refl in
          sym computed ∙ e

  pub copy_from-array : (x : Buffer) → copy_from grants x ≡ none → is_null x.buf ≡ false
  unfolding copy_from
  copy_from-array x e = elim (Bool-cases (is_null x.buf)) [
    | inl null ↦ absurd (ground (arith, e, null))
    | inr array ↦ array
  ]
