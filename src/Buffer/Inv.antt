-- ===== src/Buffer/Inv.antt =====
-- buffer.h, buffer.cpp: the representation invariant of a buffer.
use net_library.Base.{
  ℕ, ◌+◌, ◌-◌, ◌^◌, ◌≤◌, ◌<◌, ◌≡◌, refl, subst, ◌⊎◌, inl, inr, Bool, true, false, none, some, List,
  arith, length, length-write_at, length-replicate, length-take, length-drop, write_at, take, drop,
  replicate, take-write_at, sub_size, add_size, Bool-cases, leb, ltb, ◌/◌,
}
use net_library.Buffer.{
  Buffer, Cell, uninitialised, init, size, space, contents, move_head, expand, make_room,
  make_some_room, new_cap,
}

-- The largest array: no object is larger than PTRDIFF_MAX.
abbrev pub max_array : ℕ
max_array = 2 ^ 63

pub record IsValid (r : Buffer) : Type 0 where
  pub stored : length r.buf ≡ r.cap
  pub begin_in : r.b ≤ r.e
  pub end_in : r.e ≤ r.cap
  pub small : r.cap < max_array

pub init-IsValid : IsValid init
init-IsValid = omega arith

pub size_lem : {r : Buffer} → IsValid r → (size r ≡ r.e - r.b) × (space r ≡ r.cap - r.e)
size_lem v = omega arith

pub length-contents : {r : Buffer} → IsValid r → length (contents r) ≡ size r
length-contents {r} v =
    omega (arith, length-take (r.e - r.b) (drop r.b r.buf), length-drop r.b r.buf)

-- A copy of the contents to the front of an array that holds them.
moved :
    {r : Buffer} (ys : List Cell)
    → IsValid r
    → r.e - r.b ≤ length ys
    → take (r.e - r.b) (write_at ys 0 (contents r)) ≡ contents r
moved {r} ys v h =
    let n : length (contents r) ≡ r.e - r.b = omega (arith, length-contents v) in
    let e : 0 + length (contents r) ≡ r.e - r.b = omega arith in
    subst (λ k. take k (write_at ys 0 (contents r)) ≡ contents r) e
      (take-write_at ys 0 (contents r) (omega arith))

-- What `makeRoom(len)` leaves: the same bytes, with `len` free ones behind them.
pub record HasRoom (r : Buffer) (len : ℕ) (r' : Buffer) : Type 0 where
  pub valid : IsValid r'
  pub same : contents r' ≡ contents r
  pub room : r'.e + len ≤ r'.cap
  pub exp_same : r'.exp ≡ r.exp

move_head-HasRoom :
    {r : Buffer} (len : ℕ) → IsValid r → size r + len ≤ r.cap → HasRoom r len (move_head r)
unfolding move_head
move_head-HasRoom {r} len v h = record {
  valid = omega (arith, length-write_at r.buf 0 (contents r));
  same =
      let e : sub_size r.e r.b - 0 ≡ r.e - r.b = omega arith in rw e (moved r.buf v (omega arith));
  room = omega arith;
  exp_same = refl;
}

abbrev pub MakesRoom : (ℕ → Bool) → Buffer → ℕ → Type 0
MakesRoom grants r len =
    ((grants (new_cap r len) ≡ false) × (make_room grants r len ≡ none))
    ⊎ ((r' : Buffer) × (make_room grants r len ≡ some r') × HasRoom r len r')

module _ (grants : ℕ → Bool) (array_limit : (n : ℕ) → grants n ≡ true → n < max_array) where
  -- `expand` succeeds exactly where the array is granted.
  pub expand-cases :
      {r : Buffer} (len : ℕ)
      → IsValid r
      → len < max_array
      → ((grants (new_cap r len) ≡ false) × (expand grants r len ≡ none))
        ⊎ ((grants (new_cap r len) ≡ true)
            × (r' : Buffer) × (expand grants r len ≡ some r')
            × HasRoom r len r')
  unfolding expand
  expand-cases {r} len v h = elim (Bool-cases (grants (new_cap r len))) [
    | inl g ↦ inr (g, _, rw g, grown g)
    | inr g ↦ inl (g, rw g)
  ]
    where
      fresh : List Cell
      fresh = replicate (new_cap r len) uninitialised

      grown :
          grants (new_cap r len) ≡ true
          → HasRoom r len (record r {
            buf = write_at fresh 0 (contents r);
            b = 0;
            e = sub_size r.e r.b;
            cap = new_cap r len;
          })
      grown g = record {
        valid = omega (
          arith,
          array_limit (new_cap r len) g,
          length-write_at fresh 0 (contents r),
          length-replicate (new_cap r len) uninitialised,
        );
        same =
            let e : sub_size r.e r.b - 0 ≡ r.e - r.b = omega arith in
            rw e (moved fresh v (omega (arith, length-replicate (new_cap r len) uninitialised)));
        room = omega arith;
        exp_same = refl;
      }

  -- `makeRoom(len)` of a valid buffer, for `len` below 2^63, fails only where the array that it wants
  -- is refused; else the buffer stays valid, keeps its bytes and `exp_`, and has `len` free bytes.
  pub make_room-cases :
      {r : Buffer} (len : ℕ) → IsValid r → len < max_array → MakesRoom grants r len
  unfolding make_room
  make_room-cases {r} len v h = elim (Bool-cases (leb (add_size r.e len) r.cap)) [
    | inl fits ↦
        inr (r, rw fits, record { valid = v; same = refl; room = ground arith; exp_same = refl })
    | inr full ↦ rw full (elim (Bool-cases (ltb (add_size (size r) len) (r.cap / 2))) [
      | inl low ↦ inr (move_head r, rw low, move_head-HasRoom len v (ground arith))
      | inr high ↦ rw high (elim (expand-cases len v h) [
        | inl refused ↦ inl refused
        | inr (g, r', e, k) ↦ inr (r', e, k)
      ])
    ])
  ]

  -- makeRoom() keeps the bytes, and leaves at least `exp_` free ones behind them.
  pub make_some_room-cases :
      {r : Buffer}
      → IsValid r
      → ((grants (new_cap r 0) ≡ false) × (make_some_room grants r ≡ none))
        ⊎ ((r' : Buffer) × (make_some_room grants r ≡ some r') × HasRoom r 0 r')
  unfolding make_some_room
  make_some_room-cases {r} v = elim (Bool-cases (ltb (space r) r.exp)) [
    | inl low ↦ rw low (elim (expand-cases 0 v (omega arith)) [
      | inl refused ↦ inl refused
      | inr (g, r', e, k) ↦ inr (r', e, k)
    ])
    | inr high ↦
        inr (r, rw high, record { valid = v; same = refl; room = omega arith; exp_same = refl })
  ]
