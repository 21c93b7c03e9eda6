-- ===== src/Base/SortedMap.antt =====
-- std::map as a list of its entries in the order of their keys.
use mathlib.Core.Path.{◌≡◌, refl, subst, subst₂, sym, ap, ◌∙◌}
use mathlib.Core.Logic.{inl, inr, ◌≢◌}
use mathlib.Core.Bool.{Bool, true, false}
use mathlib.Core.Option.{Option, none, some}
use mathlib.Core.List.{List, [], ◌∷◌}
use native.Mathlib.Omega.{arith}
use net_library.Base.Tests.{if◌then◌else◌, Bool-cases}

module _ {K : Type 0} {V : Type 0} where
  -- A property of every entry.
  abbrev pub AllEntries : (K → V → Type 0) → List (K × V) → Type 0
  AllEntries P [] = Unit
  AllEntries P ((k, v) ∷ m) = P k v × AllEntries P m

  pub AllEntries-mono :
      (P Q : K → V → Type 0) (m : List (K × V))
      → ((k : K) (v : V) → P k v → Q k v)
      → AllEntries P m
      → AllEntries Q m
  AllEntries-mono P Q [] f h = tt
  AllEntries-mono P Q ((k, v) ∷ m) f h = (f k v h.0, AllEntries-mono P Q m f h.1)

-- The order of the keys.
pub record IsStrictOrder {K : Type 0} (lt : K → K → Bool) : Type 0 where
  pub irrefl : (a : K) → lt a a ≡ false
  pub trans : (a b c : K) → lt a b ≡ true → lt b c ≡ true → lt a c ≡ true
  pub total : (a b : K) → lt a b ≡ false → lt b a ≡ false → a ≡ b

ne_of_lt : {K : Type 0} (lt : K → K → Bool) {a b : K} → IsStrictOrder lt → lt a b ≡ true → a ≢ b
ne_of_lt lt {a} {b} o h e = cc (h, o.irrefl b, ap (λ k. lt k b) e)

module _ {K : Type 0} {V : Type 0} (lt : K → K → Bool) where
  unfoldable pub find : K → List (K × V) → Option V
  find k [] = none
  find k ((j, v) ∷ m) = if lt k j then none else if lt j k then find k m else some v

  -- m[k] = v
  unfoldable pub put : K → V → List (K × V) → List (K × V)
  put k v [] = (k, v) ∷ []
  put k v ((j, w) ∷ m) =
      if lt k j then (k, v) ∷ (j, w) ∷ m else if lt j k then (j, w) ∷ put k v m else (k, v) ∷ m

  -- m.insert({k, v}), which keeps an entry that is there
  unfoldable pub insert : K → V → List (K × V) → List (K × V)
  insert k v [] = (k, v) ∷ []
  insert k v ((j, w) ∷ m) =
      if lt k j then (k, v) ∷ (j, w) ∷ m else if lt j k then (j, w) ∷ insert k v m else (j, w) ∷ m

  unfoldable pub erase : K → List (K × V) → List (K × V)
  erase k [] = []
  erase k ((j, w) ∷ m) = if lt k j then (j, w) ∷ m else if lt j k then (j, w) ∷ erase k m else m

  -- Every key lies above a bound; the keys rise along the list.
  abbrev pub AllAbove : K → List (K × V) → Type 0
  AllAbove a [] = Unit
  AllAbove a ((k, v) ∷ m) = (lt a k ≡ true) × AllAbove a m

  abbrev pub IsSorted : List (K × V) → Type 0
  IsSorted [] = Unit
  IsSorted ((k, v) ∷ m) = AllAbove k m × IsSorted m

  pub AllAbove-put :
      (a k : K) (v : V) (m : List (K × V)) → lt a k ≡ true → AllAbove a m → AllAbove a (put k v m)
  unfolding put
  AllAbove-put a k v [] h s = (h, tt)
  AllAbove-put a k v ((j, w) ∷ m) h s = ground (arith, AllAbove-put a k v m h s.1)

  pub AllAbove-insert :
      (a k : K) (v : V) (m : List (K × V))
      → lt a k ≡ true
      → AllAbove a m
      → AllAbove a (insert k v m)
  unfolding insert
  AllAbove-insert a k v [] h s = (h, tt)
  AllAbove-insert a k v ((j, w) ∷ m) h s = ground (arith, AllAbove-insert a k v m h s.1)

  pub AllAbove-erase : (a k : K) (m : List (K × V)) → AllAbove a m → AllAbove a (erase k m)
  unfolding erase
  AllAbove-erase a k [] s = tt
  AllAbove-erase a k ((j, w) ∷ m) s = ground (arith, AllAbove-erase a k m s.1)

  pub erase-IsSorted : (k : K) (m : List (K × V)) → IsSorted m → IsSorted (erase k m)
  unfolding erase
  erase-IsSorted k [] s = tt
  erase-IsSorted k ((j, w) ∷ m) s = ground (arith, erase-IsSorted k m s.1, AllAbove-erase j k m s.0)

  pub put-AllEntries :
      (P : K → V → Type 0) (k : K) (v : V) (m : List (K × V))
      → P k v
      → AllEntries P m
      → AllEntries P (put k v m)
  unfolding put
  put-AllEntries P k v [] p h = (p, tt)
  put-AllEntries P k v ((j, w) ∷ m) p h = elim (Bool-cases (lt k j)) [
    | inl e ↦ rw e (p, h)
    | inr e ↦ rw e (elim (Bool-cases (lt j k)) [
      | inl f ↦ rw f (h.0, put-AllEntries P k v m p h.1)
      | inr f ↦ rw f (p, h.1)
    ])
  ]

  pub insert-AllEntries :
      (P : K → V → Type 0) (k : K) (v : V) (m : List (K × V))
      → P k v
      → AllEntries P m
      → AllEntries P (insert k v m)
  unfolding insert
  insert-AllEntries P k v [] p h = (p, tt)
  insert-AllEntries P k v ((j, w) ∷ m) p h = elim (Bool-cases (lt k j)) [
    | inl e ↦ rw e (p, h)
    | inr e ↦ rw e (elim (Bool-cases (lt j k)) [
      | inl f ↦ rw f (h.0, insert-AllEntries P k v m p h.1)
      | inr f ↦ rw f h
    ])
  ]

  pub erase-AllEntries :
      (P : K → V → Type 0) (k : K) (m : List (K × V)) → AllEntries P m → AllEntries P (erase k m)
  unfolding erase
  erase-AllEntries P k [] h = tt
  erase-AllEntries P k ((j, w) ∷ m) h = elim (Bool-cases (lt k j)) [
    | inl e ↦ rw e h
    | inr e ↦ rw e (elim (Bool-cases (lt j k)) [
      | inl f ↦ rw f (h.0, erase-AllEntries P k m h.1)
      | inr f ↦ rw f h.1
    ])
  ]

  module _ (o : IsStrictOrder lt) where
    pub AllAbove-trans : (a b : K) (m : List (K × V)) → lt a b ≡ true → AllAbove b m → AllAbove a m
    AllAbove-trans a b [] h s = tt
    AllAbove-trans a b ((k, v) ∷ m) h s = (o.trans a b k h s.0, AllAbove-trans a b m h s.1)

    pub put-IsSorted : (k : K) (v : V) (m : List (K × V)) → IsSorted m → IsSorted (put k v m)
    unfolding put
    put-IsSorted k v [] s = (tt, tt)
    put-IsSorted k v ((j, w) ∷ m) s = elim (Bool-cases (lt k j)) [
      | inl e ↦ rw e ((e, AllAbove-trans k j m e s.0), s)
      | inr e ↦ rw e (elim (Bool-cases (lt j k)) [
        | inl f ↦ rw f (AllAbove-put j k v m f s.0, put-IsSorted k v m s.1)
        | inr f ↦ rw f (subst (λ i. AllAbove i m) (o.total j k f e) s.0, s.1)
      ])
    ]

    pub insert-IsSorted : (k : K) (v : V) (m : List (K × V)) → IsSorted m → IsSorted (insert k v m)
    unfolding insert
    insert-IsSorted k v [] s = (tt, tt)
    insert-IsSorted k v ((j, w) ∷ m) s = elim (Bool-cases (lt k j)) [
      | inl e ↦ rw e ((e, AllAbove-trans k j m e s.0), s)
      | inr e ↦ rw e (elim (Bool-cases (lt j k)) [
        | inl f ↦ rw f (AllAbove-insert j k v m f s.0, insert-IsSorted k v m s.1)
        | inr f ↦ rw f s
      ])
    ]

    pub find-AllAbove : (k : K) (m : List (K × V)) → AllAbove k m → find k m ≡ none
    unfolding find
    find-AllAbove k [] s = refl
    find-AllAbove k ((j, v) ∷ m) s = rw s.0

    pub find-put_self : (k : K) (v : V) (m : List (K × V)) → find k (put k v m) ≡ some v
    unfolding find put
    find-put_self k v [] = rw (o.irrefl k)
    find-put_self k v ((j, w) ∷ m) = ground (arith, find-put_self k v m, o.irrefl k)

    pub find-erase_self : (k : K) (m : List (K × V)) → IsSorted m → find k (erase k m) ≡ none
    unfolding find erase
    find-erase_self k [] s = refl
    find-erase_self k ((j, w) ∷ m) s = elim (Bool-cases (lt k j)) [
      | inl e ↦ rw (e, find) (rw e)
      | inr e ↦ rw e (elim (Bool-cases (lt j k)) [
        | inl f ↦ rw f (rw (e, f) (find-erase_self k m s.1))
        | inr f ↦ rw f (find-AllAbove k m (subst (λ i. AllAbove i m) (o.total j k f e) s.0))
      ])
    ]

    pub find-put_ne : (j k : K) (v : V) (m : List (K × V)) → j ≢ k → find j (put k v m) ≡ find j m
    unfolding find put
    find-put_ne j k v [] h = elim (Bool-cases (lt j k)) [
      | inl e ↦ rw e
      | inr e ↦
          rw e (elim (Bool-cases (lt k j)) [ inl f ↦ rw f | inr f ↦ absurd (h (o.total j k e f)) ])
    ]
    find-put_ne j k v ((i, w) ∷ m) h = ground (
      arith,
      find-put_ne j k v m h,
      o.total j k,
      o.total i k,
      o.trans j k i,
      o.trans k j i,
      o.trans k i j,
      o.trans i k j,
      o.trans k j k,
      o.irrefl k,
      ap (λ a. lt j a) {x = i} {y = k},
      ap (λ a. lt a j) {x = i} {y = k},
    )

    pub find-AllEntries :
        (P : K → V → Type 0) (k : K) (m : List (K × V)) {v : V}
        → find k m ≡ some v
        → AllEntries P m
        → P k v
    unfolding find
    find-AllEntries P k [] h a = cc
    find-AllEntries P k ((j, w) ∷ m) {v} h a = elim (Bool-cases (lt k j)) [
      | inl e ↦ absurd (ground arith)
      | inr e ↦ elim (Bool-cases (lt j k)) [
        | inl f ↦ find-AllEntries P k m (ground arith) a.1
        | inr f ↦ let q : w ≡ v = ground arith in subst₂ P (o.total j k f e) q a.0
      ]
    ]

    pub AllAbove-ne : (k : K) (m : List (K × V)) → AllAbove k m → AllEntries (λ j v. j ≢ k) m
    AllAbove-ne k [] s = tt
    AllAbove-ne k ((j, w) ∷ m) s = ((λ e. ne_of_lt lt o s.0 (sym e)), AllAbove-ne k m s.1)

    pub erase_ne : (k : K) (m : List (K × V)) → IsSorted m → AllEntries (λ j v. j ≢ k) (erase k m)
    unfolding erase
    erase_ne k [] s = tt
    erase_ne k ((j, w) ∷ m) s = elim (Bool-cases (lt k j)) [
      | inl e ↦ rw e (AllAbove-ne k ((j, w) ∷ m) (e, AllAbove-trans k j m e s.0))
      | inr e ↦ rw e (elim (Bool-cases (lt j k)) [
        | inl f ↦ rw f (ne_of_lt lt o f, erase_ne k m s.1)
        | inr f ↦ rw f (AllAbove-ne k m (subst (λ i. AllAbove i m) (o.total j k f e) s.0))
      ])
    ]

    pub find-erase_ne :
        (j k : K) (m : List (K × V)) → j ≢ k → IsSorted m → find j (erase k m) ≡ find j m
    unfolding find erase
    find-erase_ne j k [] h s = refl
    find-erase_ne j k ((i, w) ∷ m) h s = elim (Bool-cases (lt k i)) [
      | inl e ↦ rw (e, find)
      | inr e ↦ rw e (elim (Bool-cases (lt i k)) [
        | inl f ↦ rw (f, find) (rw (find-erase_ne j k m h s.1))
        | inr f ↦ rw f (last (o.total i k f e))
      ])
    ]
      where
        last : i ≡ k → find j m ≡ (if lt j i then none else if lt i j then find j m else some w)
        last q = elim (Bool-cases (lt j i)) [
          | inl g ↦ rw g (find-AllAbove j m (AllAbove-trans j i m g s.0))
          | inr g ↦ rw g (elim (Bool-cases (lt i j)) [
            | inl l ↦ rw l
            | inr l ↦ absurd (h (o.total j i g l ∙ q))
          ])
        ]

    pub erase-put_fresh :
        (k : K) (v : V) (m : List (K × V)) → find k m ≡ none → erase k (put k v m) ≡ m
    unfolding find erase put
    erase-put_fresh k v [] h = rw (o.irrefl k)
    erase-put_fresh k v ((j, w) ∷ m) h = elim (Bool-cases (lt k j)) [
      | inl e ↦ rw (e, erase) (rw (o.irrefl k))
      | inr e ↦ rw e (elim (Bool-cases (lt j k)) [
        | inl f ↦
            rw (f, erase) (rw (e, f) (ap (λ r. (j, w) ∷ r) (erase-put_fresh k v m (ground arith))))
        | inr f ↦ absurd (ground arith)
      ])
    ]
