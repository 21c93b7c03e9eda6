-- ===== src/SafeQueue/Laws.antt =====
-- thread.cc: what a SafeQueue promises, and what its timed wait does not.
use net_library.Base.{
  ℕ, ◌≤◌, ◌<◌, ◌≡◌, refl, ◌⊎◌, inl, inr, true, false, not, ◌&&◌, ◌||◌, Option, none, some, List, [],
  ◌∷◌, ◌++◌, arith, length, leb, ◌==◌, Bool-cases, length-append,
}
use net_library.SafeQueue.{
  SafeQueue, Wake, push, is_ready, wait_forever, wait_timed, wait_ready, pop_front, pop_wait,
  wait_infinite,
}

module _ {ℓ} {A : Type ℓ} where
  -- A queue with a capacity never holds more than that.
  abbrev pub IsBounded : SafeQueue A → Type 0
  IsBounded q = (q.capacity ≡ 0) ⊎ (length q.items ≤ q.capacity)

  -- A queue has room, if it has a capacity at all.
  abbrev pub HasRoom : SafeQueue A → Type 0
  HasRoom q = (q.capacity ≡ 0) ⊎ (length q.items < q.capacity)

  -- `push` accepts a value exactly where the queue has not exited and has room; it then puts it
  -- behind the others, and else changes nothing; a bounded queue stays bounded.
  pub push_lem :
      (q : SafeQueue A) (v : A)
      → IsBounded q
      → let (accepted, q') = push q v in
        ((accepted ≡ true)
          × (q.exited ≡ false)
          × HasRoom q
          × IsBounded q'
          × (q' ≡ record q { items = q.items ++ v ∷ [] }))
        ⊎ ((accepted ≡ false) × ((q.exited ≡ true) ⊎ ¬ HasRoom q) × (q' ≡ q))
  unfolding push
  push_lem q v b =
      elim (Bool-cases (q.exited || (not (q.capacity == 0) && leb q.capacity (length q.items)))) [
        | inl full ↦ rw full (inr (refl, refused full, refl))
        | inr free ↦ rw free (
            inl (
              refl,
              ground arith,
              ground arith,
              ground (arith, length-append q.items (v ∷ [])),
              refl,
            ))
      ]
    where
      refused :
          (q.exited || (not (q.capacity == 0) && leb q.capacity (length q.items))) ≡ true
          → (q.exited ≡ true) ⊎ ¬ HasRoom q
      refused full = elim (Bool-cases q.exited) [ inl e ↦ inl e | inr e ↦ inr (λ r. ground arith) ]

  -- A queue that the waiting thread sees: the one it begins with, or one that it wakes up to.
  abbrev pub IsSeen : SafeQueue A → SafeQueue A → List (Wake A) → Type ℓ
  IsSeen found q [] = found ≡ q
  IsSeen found q (w ∷ ws) = (found ≡ q) ⊎ IsSeen found w.found ws

  IsSeen-first : (q : SafeQueue A) (ws : List (Wake A)) → IsSeen q q ws
  IsSeen-first q [] = refl
  IsSeen-first q (w ∷ ws) = inl refl

  abbrev EndsReady : SafeQueue A → List (Wake A) → Option (SafeQueue A × List (Wake A)) → Type ℓ
  EndsReady q ws none = Unit
  EndsReady q ws (some (found, rest)) = IsSeen found q ws × (is_ready found ≡ true)

  EndsReady-later :
      (q : SafeQueue A) (w : Wake A) (ws : List (Wake A)) (o : Option (SafeQueue A × List (Wake A)))
      → EndsReady w.found ws o
      → EndsReady q (w ∷ ws) o
  EndsReady-later q w ws none h = tt
  EndsReady-later q w ws (some (found, rest)) h = (inr h.0, h.1)

  wait_forever-EndsReady : (q : SafeQueue A) (ws : List (Wake A)) → EndsReady q ws (wait_forever ws)
  unfolding wait_forever
  wait_forever-EndsReady q [] = tt
  wait_forever-EndsReady q (w ∷ ws) = elim (Bool-cases (is_ready w.found)) [
    | inl ready ↦ rw ready (inr (IsSeen-first w.found ws), ready)
    | inr not_ready ↦
        rw not_ready (EndsReady-later q w ws (wait_forever ws) (wait_forever-EndsReady w.found ws))
  ]

  wait_ready-EndsReady :
      (q : SafeQueue A) (ws : List (Wake A)) → EndsReady q ws (wait_ready q wait_infinite ws)
  unfolding wait_ready
  wait_ready-EndsReady q ws = elim (Bool-cases (is_ready q)) [
    | inl ready ↦ rw ready (IsSeen-first q ws, ready)
    | inr not_ready ↦ rw not_ready (wait_forever-EndsReady q ws)
  ]

  -- What an untimed `pop_wait` may return.
  abbrev pub Popped : SafeQueue A → List (Wake A) → Option (Option A × SafeQueue A) → Type ℓ
  Popped q ws none = Unit
  Popped q ws (some (r, q')) =
      (found : SafeQueue A) × IsSeen found q ws
      × (((x : A) × (xs : List A) × (found.items ≡ x ∷ xs)
            × (r ≡ some x)
            × (q' ≡ record found { items = xs }))
          ⊎ ((found.items ≡ []) × (found.exited ≡ true) × (r ≡ none) × (q' ≡ found)))

  pop_front-Popped :
      (q found : SafeQueue A) (ws : List (Wake A)) (items : List A)
      → found.items ≡ items
      → IsSeen found q ws
      → is_ready found ≡ true
      → Popped q ws (some (pop_front items found))
  pop_front-Popped q found ws [] e seen ready = (found, seen, inr (e, ground arith, refl, refl))
  pop_front-Popped q found ws (x ∷ xs) e seen ready = (found, seen, inl (x, xs, e, refl, refl))

  -- An untimed `pop_wait` that returns does so with a queue that it has seen: it took the oldest
  -- value of that queue, or the queue was empty and had exited. Nothing else ends the wait.
  pub pop_wait-Popped :
      (q : SafeQueue A) (ws : List (Wake A)) → Popped q ws (pop_wait q wait_infinite ws)
  unfolding pop_wait
  pop_wait-Popped q ws = go (wait_ready q wait_infinite ws) (wait_ready-EndsReady q ws)
    where
      go :
          (o : Option (SafeQueue A × List (Wake A)))
          → EndsReady q ws o
          → Popped q ws (elim o [ none ↦ none | some (q', ws') ↦ some (pop_front q'.items q') ])
      go none h = tt
      go (some (found, rest)) h = pop_front-Popped q found ws found.items refl h.0 h.1

  -- Every wake-up is a time-out that finds the queue empty and live.
  abbrev pub AllTimeout : List (Wake A) → Type ℓ
  AllTimeout [] = Unit
  AllTimeout (w ∷ ws) =
      (w.timeout ≡ true) × (w.found.items ≡ []) × (w.found.exited ≡ false) × AllTimeout ws

  wait_timed-AllTimeout : (ws : List (Wake A)) → AllTimeout ws → wait_timed ws ≡ none
  unfolding wait_timed
  wait_timed-AllTimeout [] h = refl
  wait_timed-AllTimeout (w ∷ ws) h = ground (arith, wait_timed-AllTimeout ws h.3)

  wait_ready-timed :
      (q : SafeQueue A) (wait_ms : ℕ) (ws : List (Wake A))
      → q.items ≡ []
      → q.exited ≡ false
      → 0 < wait_ms
      → wait_ms < wait_infinite
      → wait_ready q wait_ms ws ≡ wait_timed ws
  unfolding wait_ready
  wait_ready-timed q wait_ms ws e x lo hi = ground arith

  wait_timed-behind :
      (ws : List (Wake A)) (found : SafeQueue A) (ws' : List (Wake A))
      → AllTimeout ws
      → wait_timed (ws ++ record { timeout = false; found = found } ∷ ws') ≡ some (found, ws')
  unfolding wait_timed
  wait_timed-behind [] found ws' h = ground arith
  wait_timed-behind (w ∷ ws) found ws' h = ground (arith, wait_timed-behind ws found ws' h.3)

  -- A timed `pop_wait` on an empty live queue has not returned after any number of wake-ups that are
  -- time-outs with the queue still empty and live; but the first wake-up behind them that is no
  -- time-out and finds the queue empty ends it without a value.
  pub pop_wait_timed :
      (q : SafeQueue A) (wait_ms : ℕ) (ws : List (Wake A)) (found : SafeQueue A)
      (ws' : List (Wake A))
      → q.items ≡ []
      → q.exited ≡ false
      → 0 < wait_ms
      → wait_ms < wait_infinite
      → AllTimeout ws
      → found.items ≡ []
      → (pop_wait q wait_ms ws ≡ none)
        × (pop_wait q wait_ms (ws ++ record { timeout = false; found = found } ∷ ws')
            ≡ some (none, found))
  unfolding pop_wait
  pop_wait_timed q wait_ms ws found ws' e x lo hi h f = (
    rw (wait_ready-timed q wait_ms ws e x lo hi, wait_timed-AllTimeout ws h, pop_wait),
    rw
        (
          wait_ready-timed q wait_ms (ws ++ record { timeout = false; found = found } ∷ ws') e x lo
              hi,
          wait_timed-behind ws found ws' h,
          pop_wait,
        )
        (rw f),
  )

-- A pop_wait that may not wait takes what is there.
pub pop_wait_now {ℓ} :
    {A : Type ℓ} (q : SafeQueue A) (ws : List (Wake A))
    → pop_wait q 0 ws ≡ some (pop_front q.items q)
unfolding pop_wait wait_ready
pop_wait_now q ws = elim (Bool-cases (is_ready q)) [
  | inl e ↦ rw (e, pop_wait, wait_ready)
  | inr e ↦ rw (e, pop_wait, wait_ready)
]
