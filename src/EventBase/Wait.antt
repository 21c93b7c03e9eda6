-- ===== src/EventBase/Wait.antt =====
-- eventbase.cc: how long the loop may wait for the poller.
use net_library.Base.{
  ℕ, ◌^◌, ◌<◌, ◌≡◌, ◌⊎◌, refl, inl, inr, List, ◌∷◌, arith, Bool-cases, ltb, ltb→lt, if◌then◌else◌,
}
use net_library.Base.Int.{ℤ, +ℤ_parts, pos, negsuc, ◌-ℤ◌, ◌+ℤ◌, ◌≤ℤ◌, to_int, is_neg, ltb_ℤ}
use net_library.EventBase.{EventBase, TimerId, Timer, refresh_nearest}

-- What `refreshNearest` makes of a difference: 0 or more, and never more than a difference of 0 or
-- more.
abbrev waited : ℤ → ℤ
waited d = let wait = to_int d in if is_neg wait then pos 0 else wait

waited_nonneg : (d : ℤ) → pos 0 ≤ℤ waited d
unfolding to_int
waited_nonneg (pos n) = ground arith
waited_nonneg (negsuc n) = ground arith

waited-le : (n : ℕ) → waited (pos n) ≤ℤ pos n
unfolding to_int
waited-le n = ground arith

-- A difference that is negative, and not below -2^31, makes no wait.
waited-neg : (n : ℕ) → n < 2 ^ 31 → waited (negsuc n) ≡ pos 0
unfolding to_int
waited-neg n h = ground (arith, h)

-- The later one of two times.
abbrev pub later_of : ℤ → ℤ → ℤ
later_of a b = if ltb_ℤ a b then b else a

-- A wait from the time `b` ends by the time `a`, or by now if that is over; unless it is over for
-- more than 2^31 milliseconds.
abbrev pub EndsBy : ℤ → ℤ → ℤ → Type 0
EndsBy a b wait = (b +ℤ wait ≤ℤ later_of b a) ⊎ (a +ℤ pos (2 ^ 31) +ℤ pos 1 ≤ℤ b)

waited-EndsBy : (a b d : ℤ) → a -ℤ b ≡ d → EndsBy a b (waited d)
waited-EndsBy a b (pos n) e =
    inl (let w = waited-le n in let s = +ℤ_parts b (waited (pos n)) in ground (arith, e, w, s))
waited-EndsBy a b (negsuc n) e = elim (Bool-cases (ltb n (2 ^ 31))) [
  | inl l ↦ inl (rw (waited-neg n (ltb→lt n (2 ^ 31) l)) (ground (arith, e)))
  | inr l ↦ inr (ground (arith, e, l))
]

-- Where there is a timer, `refreshNearest` lets the poller wait for 0 or more; and for no longer than
-- until the first timer, and not at all where that is overdue, unless it is overdue by more than 2^31
-- milliseconds, also where the difference does not fit an `int`.
pub refresh_nearest_bounds :
    (clock : ℕ → ℤ) (s : EventBase) (k : TimerId) (t : Timer) (m : List (TimerId × Timer))
    → s.timers ≡ (k, t) ∷ m
    → (pos 0 ≤ℤ (refresh_nearest clock s).next_timeout)
      × EndsBy k.first (clock s.reads) (refresh_nearest clock s).next_timeout
unfolding refresh_nearest
refresh_nearest_bounds clock s k t m e = rw e (
  waited_nonneg (k.first -ℤ clock s.reads),
  waited-EndsBy k.first (clock s.reads) (k.first -ℤ clock s.reads) refl,
)
