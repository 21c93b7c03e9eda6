-- ===== src/Buffer/Append.antt =====
-- buffer.h, buffer.cpp: appending, consuming and absorbing as operations on a sequence of bytes.
use net_library.Base.{
  ℕ, ◌+◌, ◌-◌, ◌≤◌, ◌<◌, ◌≡◌, refl, ap, sym, ◌∙◌, ◌⊎◌, inl, inr, ◌++◌, Bool, true, false, none,
  some, List, arith, length, length-write_at, length-drop, write_at, take, drop, take-write_at,
  drop-write_at, drop-drop, drop-take, drop-length_le, sub_size, add_size, Bool-cases, ◌==◌, ==_iff,
}
use net_library.Buffer.{
  Buffer, Cell, size, space, contents, clear, add_size_to, copy_in, consume, alloc_room, append,
  new_cap,
}
use net_library.Buffer.Inv.{IsValid, max_array, length-contents, make_room-cases}

-- The bytes that `append` leaves in a buffer with room for them.
abbrev pub filled : Buffer → List Cell → Buffer
filled r xs = copy_in (add_size_to r (length xs)) xs

pub filled_lem :
    {r : Buffer} (xs : List Cell)
    → IsValid r
    → r.e + length xs ≤ r.cap
    → IsValid (filled r xs)
      × (contents (filled r xs) ≡ contents r ++ xs)
      × ((filled r xs).exp ≡ r.exp)
unfolding copy_in add_size_to
filled_lem {r} xs v h = (
  omega (arith, length-write_at r.buf (sub_size (add_size r.e (length xs)) (length xs)) xs),
  rw (start, end) grown,
  refl,
)
  where
    start : sub_size (add_size r.e (length xs)) (length xs) ≡ r.e
    start = omega arith

    end : add_size r.e (length xs) - r.b ≡ (r.e - r.b) + length xs
    end = omega arith

    offset : r.e ≡ r.b + (r.e - r.b)
    offset = omega arith

    grown : take (r.e - r.b + length xs) (drop r.b (write_at r.buf r.e xs)) ≡ contents r ++ xs
    grown =
        ap (λ k. take (r.e - r.b + length xs) (drop r.b (write_at r.buf k xs))) offset
        ∙ ap (take (r.e - r.b + length xs)) (drop-write_at r.buf r.b (r.e - r.b) xs)
        ∙ take-write_at (drop r.b r.buf) (r.e - r.b) xs (omega (arith, length-drop r.b r.buf))

-- Bytes that are written at `end()` before `addSize`, as `read` does, are appended alike.
pub read-filled :
    {r : Buffer} (xs : List Cell)
    → IsValid r
    → length xs ≤ space r
    → add_size_to (record r { buf = write_at r.buf r.e xs }) (length xs) ≡ filled r xs
unfolding copy_in add_size_to
read-filled {r} xs v h =
    let e : sub_size (add_size r.e (length xs)) (length xs) ≡ r.e = omega (arith, h) in rw e

-- Either the array that is wanted is refused, or the bytes stand behind those of the buffer.
abbrev pub Appends : (ℕ → Bool) → Buffer → List Cell → Type 0
Appends grants r xs =
    ((grants (new_cap r (length xs)) ≡ false) × (append grants r xs ≡ none))
    ⊎ ((r' : Buffer) × (append grants r xs ≡ some r')
        × IsValid r'
        × (contents r' ≡ contents r ++ xs)
        × (r'.exp ≡ r.exp))

module _ (grants : ℕ → Bool) (array_limit : (n : ℕ) → grants n ≡ true → n < max_array) where
  -- `append` of fewer than 2^63 bytes to a valid buffer either fails, where the new array is
  -- refused, or yields a valid buffer of the old bytes followed by the new ones, with `exp_` kept.
  pub append_lem :
      {r : Buffer} (xs : List Cell) → IsValid r → length xs < max_array → Appends grants r xs
  unfolding append alloc_room
  append_lem {r} xs v h = elim (make_room-cases grants array_limit (length xs) v h) [
    | inl (g, e) ↦ inl (g, rw e)
    | inr (r', e, k) ↦
        let f = filled_lem xs k.valid k.room in
        inr (filled r' xs, rw e, f.0, f.1 ∙ ap (λ c. c ++ xs) k.same, f.2 ∙ k.exp_same)
  ]

-- `consume` of at most `size()` bytes of a valid buffer drops that many from the front, keeps
-- `exp_`, and leaves a valid buffer.
pub consume_lem :
    {r : Buffer} (n : ℕ)
    → IsValid r
    → n ≤ size r
    → IsValid (consume r n)
      × (contents (consume r n) ≡ drop n (contents r))
      × ((consume r n).exp ≡ r.exp)
unfolding consume clear
consume_lem {r} n v h = elim (Bool-cases (sub_size r.e (add_size r.b n) == 0)) [
  | inl all ↦ rw all (omega arith, sym (drop-length_le n (contents r) (all_gone all)), refl)
  | inr some_left ↦ rw some_left (omega arith, left, refl)
]
  where
    all_gone : (sub_size r.e (add_size r.b n) == 0) ≡ true → length (contents r) ≤ n
    all_gone all =
        omega (arith, (==_iff (sub_size r.e (add_size r.b n)) 0).0 all, length-contents v)

    left : take (r.e - add_size r.b n) (drop (add_size r.b n) r.buf) ≡ drop n (contents r)
    left =
        let e : add_size r.b n ≡ r.b + n = omega arith in
        let m : r.e - (r.b + n) ≡ r.e - r.b - n = omega arith in
        rw (e, m)
          (sym (
            drop-take n (r.e - r.b) (drop r.b r.buf)
            ∙ ap (take (r.e - r.b - n)) (drop-drop n r.b r.buf)))
