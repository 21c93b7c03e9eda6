-- ===== src/Buffer/Refine.antt =====
-- buffer.h, buffer.cpp: two buffers in use, seen as the lists of their bytes.
use mathlib.Core.Option.{map}
use net_library.Base.{
  ℕ, ◌≤◌, ◌<◌, ◌≡◌, ◌⊎◌, ◌==◌, ltb, refl, ap, ap₂, subst, sym, Bool, true, false, Option, none,
  some, List, [], ◌∷◌, ◌++◌, inl, inr, arith, length, drop,
}
use net_library.Buffer.{
  Buffer, Cell, size, contents, clear, append, absorb, consume, make_room, make_some_room,
  set_suggest_size, new_cap, assign, space, is_null,
}
use net_library.Buffer.Inv.{
  IsValid, max_array, length-contents, make_room-cases, make_some_room-cases,
}
use net_library.Buffer.Refused.{
  is_full, append-full, make_room-full, make_some_room-full, absorb-full, copy_from-array,
}
use net_library.Buffer.Append.{append_lem, consume_lem}
use net_library.Buffer.Copy.{absorb_lem, clear_lem, copy_from_lem}

-- An operation on the first of two buffers; `absorbs` takes the bytes of the second, `copies`
-- assigns it to the second, and `switches` goes on with the second one.
pub data Op : Type 0 where
  appends : List Cell → Op
  consumes reserves suggests : ℕ → Op
  reserves_some clears absorbs copies switches : Op

abbrev pub beside : Buffer → Option Buffer → Option (Buffer × Buffer)
beside y o = map (λ x. (x, y)) o

-- What `absorb` of another buffer returns.
abbrev pub both : Buffer → Option (Buffer × Option Buffer) → Option (Buffer × Buffer)
both y none = none
both y (some (x, none)) = some (x, y)
both y (some (x, some y')) = some (x, y')

abbrev pub or_refused {ℓ κ} : {A : Type ℓ} {B : Type κ} → (A → Option B) → Option A → Option B
or_refused f none = none
or_refused f (some a) = f a

module _ (grants : ℕ → Bool) where
  pub step : Buffer × Buffer → Op → Option (Buffer × Buffer)
  step (x, y) (appends xs) = beside y (append grants x xs)
  step (x, y) (consumes n) = some (consume x n, y)
  step (x, y) (reserves len) = beside y (make_room grants x len)
  step (x, y) (suggests sz) = some (set_suggest_size x sz, y)
  step (x, y) reserves_some = beside y (make_some_room grants x)
  step (x, y) clears = some (clear x, y)
  step (x, y) absorbs = both y (absorb grants x (some y))
  step (x, y) copies = map (λ y'. (x, y')) (assign grants y (some x))
  step (x, y) switches = some (y, x)

  pub steps : Buffer × Buffer → List Op → Option (Buffer × Buffer)
  steps p [] = some p
  steps p (op ∷ ops) = or_refused (λ p'. steps p' ops) (step p op)

-- The same on lists of bytes: there is nothing to reserve.
abbrev pub list_step : List Cell × List Cell → Op → List Cell × List Cell
list_step (x, y) (appends xs) = (x ++ xs, y)
list_step (x, y) (consumes n) = (drop n x, y)
list_step (x, y) (reserves len) = (x, y)
list_step (x, y) (suggests sz) = (x, y)
list_step (x, y) reserves_some = (x, y)
list_step (x, y) clears = ([], y)
list_step (x, y) absorbs = (x ++ y, [])
list_step (x, y) copies = (x, x)
list_step (x, y) switches = (y, x)

abbrev pub list_steps : List Cell × List Cell → List Op → List Cell × List Cell
list_steps p [] = p
list_steps p (op ∷ ops) = list_steps (list_step p op) ops

-- What the client may ask for: no more is consumed than there is, and lengths are below 2^63.
abbrev pub IsAllowed : List Cell × List Cell → Op → Type 0
IsAllowed (x, y) (appends xs) = length xs < max_array
IsAllowed (x, y) (consumes n) = n ≤ length x
IsAllowed (x, y) (reserves len) = len < max_array
IsAllowed (x, y) _ = Unit

abbrev pub AreAllowed : List Cell × List Cell → List Op → Type 0
AreAllowed p [] = Unit
AreAllowed p (op ∷ ops) = IsAllowed p op × AreAllowed (list_step p op) ops

abbrev pub view : Buffer × Buffer → List Cell × List Cell
view (x, y) = (contents x, contents y)

abbrev pub AreValid : Buffer × Buffer → Type 0
AreValid (x, y) = IsValid x × IsValid y

-- The operation asks for a new array of this size.
abbrev pub AsksFor : Buffer × Buffer → Op → ℕ → Type 0
AsksFor (x, y) (appends xs) n = (is_full x (length xs) ≡ true) × (n ≡ new_cap x (length xs))
AsksFor (x, y) (consumes k) n = ⊥
AsksFor (x, y) (reserves len) n = (is_full x len ≡ true) × (n ≡ new_cap x len)
AsksFor (x, y) (suggests sz) n = ⊥
AsksFor (x, y) reserves_some n = (ltb (space x) x.exp ≡ true) × (n ≡ new_cap x 0)
AsksFor (x, y) clears n = ⊥
AsksFor (x, y) absorbs n =
    ((size x == 0) ≡ false) × (is_full x (size y) ≡ true) × (n ≡ new_cap x (size y))
AsksFor (x, y) copies n = (is_null x.buf ≡ false) × (n ≡ x.cap)
AsksFor (x, y) switches n = ⊥

-- The operation asks for an array that is refused.
abbrev pub IsRefused : (ℕ → Bool) → Buffer × Buffer → Op → Type 0
IsRefused grants p op = (n : ℕ) × AsksFor p op n × (grants n ≡ false)

-- The buffers are valid and hold these lists.
abbrev pub HoldsLists : List Cell × List Cell → Option (Buffer × Buffer) → Type 0
HoldsLists l o = (p : Buffer × Buffer) × (o ≡ some p) × AreValid p × (view p ≡ l)

-- One of the operations, reached by those before it, asks for an array that is refused, and ends it; or
-- the buffers are valid and hold these lists.
abbrev pub Holds : (ℕ → Bool) → Buffer × Buffer → List Op → List Cell × List Cell → Type 0
Holds grants p ops l =
    ((before : List Op) × (op : Op) × (after : List Op) × (q : Buffer × Buffer) × (ops
        ≡ before ++ op ∷ after)
      × (steps grants p before ≡ some q)
      × IsRefused grants q op
      × (step grants q op ≡ none)
      × (steps grants p ops ≡ none))
    ⊎ HoldsLists l (steps grants p ops)

module _ (grants : ℕ → Bool) (array_limit : (n : ℕ) → grants n ≡ true → n < max_array) where
  suggest_lem :
      (x : Buffer) (sz : ℕ)
      → IsValid x
      → IsValid (set_suggest_size x sz) × (contents (set_suggest_size x sz) ≡ contents x)
  unfolding set_suggest_size
  suggest_lem x sz v = (
    record { stored = v.stored; begin_in = v.begin_in; end_in = v.end_in; small = v.small },
    refl,
  )

  -- What a step does.
  abbrev Steps : Buffer × Buffer → Op → Type 0
  Steps p op =
      (IsRefused grants p op × (step grants p op ≡ none))
      ⊎ HoldsLists (list_step (view p) op) (step grants p op)

  step-Steps :
      (x y : Buffer) (op : Op)
      → IsValid x
      → IsValid y
      → IsAllowed (view (x, y)) op
      → Steps (x, y) op
  unfolding step assign
  step-Steps x y (appends xs) v w h = elim (append_lem grants array_limit xs v h) [
    | inl (g, e) ↦ inl ((new_cap x (length xs), (append-full grants x xs e, refl), g), rw e refl)
    | inr (x', e, v', c, p) ↦ inr ((x', y), rw e refl, (v', w), ap (λ l. (l, contents y)) c)
  ]
  step-Steps x y (consumes n) v w h =
      let k = consume_lem n v (omega (arith, h, length-contents v)) in
      inr ((consume x n, y), refl, (k.0, w), ap (λ l. (l, contents y)) k.1)
  step-Steps x y (reserves len) v w h = elim (make_room-cases grants array_limit len v h) [
    | inl (g, e) ↦ inl ((new_cap x len, (make_room-full grants x len e, refl), g), rw e refl)
    | inr (x', e, k) ↦ inr ((x', y), rw e refl, (k.valid, w), ap (λ l. (l, contents y)) k.same)
  ]
  step-Steps x y (suggests sz) v w h =
      let k = suggest_lem x sz v in
      inr ((set_suggest_size x sz, y), refl, (k.0, w), ap (λ l. (l, contents y)) k.1)
  step-Steps x y reserves_some v w h = elim (make_some_room-cases grants array_limit v) [
    | inl (g, e) ↦ inl ((new_cap x 0, (make_some_room-full grants x e, refl), g), rw e refl)
    | inr (x', e, k) ↦ inr ((x', y), rw e refl, (k.valid, w), ap (λ l. (l, contents y)) k.same)
  ]
  step-Steps x y clears v w h =
      let k = clear_lem x in inr ((clear x, y), refl, (k.0, w), ap (λ l. (l, contents y)) k.1)
  step-Steps x y absorbs v w h = elim (absorb_lem grants array_limit v w) [
    | inl (g, e) ↦
        let f = absorb-full grants x y w e in
        inl ((new_cap x (size y), (f.0, f.1, refl), g), rw e refl)
    | inr (x', y', e, v', w', c, d, p, q) ↦
        inr ((x', y'), rw e refl, (v', w'), ap₂ (λ (l m : List Cell). (l, m)) c d)
  ]
  step-Steps x y copies v w h = elim (copy_from_lem grants array_limit v) [
    | inl (g, e) ↦ inl ((x.cap, (copy_from-array grants x e, refl), g), rw e refl)
    | inr (y', e, w', c, p) ↦ inr ((x, y'), rw e refl, (v, w'), ap (λ l. (contents x, l)) c)
  ]
  step-Steps x y switches v w h = inr ((y, x), refl, (w, v), refl)

  -- A step before the others.
  Holds-behind :
      (p p' : Buffer × Buffer) (op : Op) (ops : List Op) (l : List Cell × List Cell)
      → step grants p op ≡ some p'
      → Holds grants p' ops l
      → Holds grants p (op ∷ ops) l
  unfolding steps
  Holds-behind p p' op ops l e
        (inl (before, bad, after, q, split, reach, refused, ends, none_left)) =
      inl (
        op ∷ before,
        bad,
        after,
        q,
        ap (λ r. op ∷ r) split,
        rw e reach,
        refused,
        ends,
        rw e none_left,
      )
  Holds-behind p p' op ops l e (inr (q, runs, v, l')) = inr (q, rw e runs, v, l')

  -- Any sequence of operations on two valid buffers that the client may ask for does to their bytes
  -- what the operations on lists do, and leaves both valid; unless one of them, in the state that those
  -- before it have led to, needs a new array, of the size that it asks for, and that is refused: then
  -- this operation fails, and with it the sequence.
  pub steps-Holds :
      (ops : List Op) (x y : Buffer)
      → IsValid x
      → IsValid y
      → AreAllowed (view (x, y)) ops
      → Holds grants (x, y) ops (list_steps (view (x, y)) ops)
  unfolding steps
  steps-Holds [] x y v w h = inr ((x, y), refl, (v, w), refl)
  steps-Holds (op ∷ ops) x y v w (h, hs) = elim (step-Steps x y op v w h) [
    | inl (refused, e) ↦ inl ([], op, ops, (x, y), refl, refl, refused, e, rw e refl)
    | inr ((x', y'), e, (v', w'), l) ↦
        Holds-behind (x, y) (x', y') op ops _ e
          (subst (λ l. Holds grants (x', y') ops (list_steps l ops)) l
            (steps-Holds ops x' y' v' w' (subst (λ l. AreAllowed l ops) (sym l) hs)))
  ]
