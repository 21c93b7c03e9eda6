-- ===== src/Buffer/Copy.antt =====
-- buffer.h, buffer.cpp: operations on two buffers, `absorb`, the copy constructor and `operator=`.
use net_library.Base.{
  ℕ, ◌+◌, ◌-◌, ◌<◌, ◌≡◌, refl, ap, sym, ◌∙◌, ◌⊎◌, inl, inr, ◌++◌, Bool, true, false, none, some,
  List, [], arith, length, length-write_at, length-replicate, length-drop, replicate, write_at,
  take, drop, take-write_at, drop-write_at, Bool-cases, take-zero, ◌==◌, ==_iff, subst,
}
use net_library.Buffer.{
  Buffer, Cell, uninitialised, size, contents, clear, absorb, is_null, copy_from, assign, new_cap,
}
use net_library.Buffer.Inv.{IsValid, max_array, length-contents}
use net_library.Buffer.Append.{append_lem}

pub clear_lem :
    (r : Buffer) → IsValid (clear r) × (contents (clear r) ≡ []) × ((clear r).exp ≡ r.exp)
unfolding clear
clear_lem r = (omega arith, refl, refl)

abbrev pub Absorbs : (ℕ → Bool) → Buffer → Buffer → Type 0
Absorbs grants r o =
    ((grants (new_cap r (size o)) ≡ false) × (absorb grants r (some o) ≡ none))
    ⊎ ((r' : Buffer) × (o' : Buffer) × (absorb grants r (some o) ≡ some (r', some o'))
        × IsValid r'
        × IsValid o'
        × (contents r' ≡ contents r ++ contents o)
        × (contents o' ≡ [])
        × (r'.exp ≡ r.exp)
        × (o'.exp ≡ o.exp))

abbrev pub Copies : (ℕ → Bool) → Buffer → Type 0
Copies grants o =
    ((grants o.cap ≡ false) × (copy_from grants o ≡ none))
    ⊎ ((r : Buffer) × (copy_from grants o ≡ some r)
        × IsValid r
        × (contents r ≡ contents o)
        × (r.exp ≡ o.exp))

module _ (grants : ℕ → Bool) (array_limit : (n : ℕ) → grants n ≡ true → n < max_array) where
  -- `absorb` of another buffer moves all its bytes behind those of the buffer, whether it swaps the
  -- arrays or copies, leaves the other one empty, and each keeps its own `exp_`; it fails only where
  -- the array to copy into is refused.
  pub absorb_lem : {r o : Buffer} → IsValid r → IsValid o → Absorbs grants r o
  unfolding absorb
  absorb_lem {r} {o} v w = elim (Bool-cases (size r == 0)) [
    | inl z ↦ inr (
      record o { exp = r.exp },
      record r { exp = o.exp },
      rw z,
      omega arith,
      omega arith,
      ap (λ c. c ++ contents o) (sym (nothing z)),
      nothing z,
      refl,
      refl,
    )
    | inr nz ↦
        rw nz
          (elim (append_lem grants array_limit (contents o) v (omega (arith, length-contents w))) [
            | inl (g, e) ↦ inl (ap (λ k. grants (new_cap r k)) (sym (length-contents w)) ∙ g, rw e)
            | inr (r', e, v', c, x) ↦
                let k = clear_lem o in inr (r', clear o, rw e, v', k.0, c, k.1, x, k.2)
          ])
  ]
    where
      nothing : (size r == 0) ≡ true → contents r ≡ []
      nothing z = take-zero (r.e - r.b) (drop r.b r.buf) (omega (arith, (==_iff (size r) 0).0 z))

  -- The copy constructor gives a buffer of the same bytes and the same fields with an array of its
  -- own, or fails where that is refused.
  pub copy_from_lem : {o : Buffer} → IsValid o → Copies grants o
  unfolding copy_from
  copy_from_lem {o} v = elim (Bool-cases (is_null o.buf)) [
    | inl null ↦ inr (o, rw null, v, refl, refl)
    | inr array ↦ rw array (elim (Bool-cases (grants o.cap)) [
      | inl g ↦ inr (
        record o { buf = write_at fresh o.b (contents o) },
        rw g,
        omega (arith, length-write_at fresh o.b (contents o), length-replicate o.cap uninitialised),
        copied,
        refl,
      )
      | inr g ↦ inl (g, rw g)
    ])
  ]
    where
      fresh : List Cell
      fresh = replicate o.cap uninitialised

      n : length (contents o) ≡ o.e - o.b
      n = omega (arith, length-contents v)

      whole : 0 + length (contents o) ≡ o.e - o.b
      whole = omega (arith, n)

      at_begin :
          drop o.b (write_at fresh o.b (contents o)) ≡ write_at (drop o.b fresh) 0 (contents o)
      at_begin =
          let e : o.b ≡ o.b + 0 = omega arith in
          ap (λ k. drop o.b (write_at fresh k (contents o))) e
          ∙ drop-write_at fresh o.b 0 (contents o)

      copied : take (o.e - o.b) (drop o.b (write_at fresh o.b (contents o))) ≡ contents o
      copied = rw at_begin (
          subst (λ k. take k (write_at (drop o.b fresh) 0 (contents o)) ≡ contents o) whole
            (take-write_at (drop o.b fresh) 0 (contents o)
              (omega (arith, n, length-drop o.b fresh, length-replicate o.cap uninitialised))))

-- `operator=` of a buffer to itself frees its array and keeps the capacity: the result is not valid
-- for any buffer that had an array.
pub assign_self-not-IsValid :
    (grants : ℕ → Bool) (r : Buffer)
    → 0 < r.cap
    → (r' : Buffer) × (assign grants r none ≡ some r') × ¬ IsValid r'
unfolding assign copy_from
assign_self-not-IsValid grants r h = (record r { buf = [] }, refl, λ v. omega arith)
