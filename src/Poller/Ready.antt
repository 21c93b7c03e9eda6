-- ===== src/Poller/Ready.antt =====
-- poller.cc, channel.cc: which work may be left to do.
use net_library.Base.{
  ℕ, ◌+◌, ◌≤◌, ◌≡◌, inl, inr, refl, sym, subst, ◌∙◌, Bool, true, false, some, List, [], ◌∷◌, ◌++◌,
  map, arith, ◌==◌, ==_iff, Bool-cases, either_branch,
}
use mathlib.Core.Bool.{true≢false}
use net_library.Poller.{Poller, Channel, Kind, Call, Work, create, call, free, is_pos, set}
use net_library.Poller.Inv.{Inv, is_open}

-- A handler makes channels only of positive descriptors.
abbrev pub IsSound : Call → Type 0
IsSound (create fd events) = is_pos fd ≡ true
IsSound _ = Unit

abbrev pub AllSound : List Call → Type 0
AllSound [] = Unit
AllSound (c ∷ cs) = IsSound c × AllSound cs

-- Work that is sound; a channel that is to be freed is not live, nor will its number be given again.
abbrev pub IsReady : (ℕ → Bool) → ℕ → Work → Type 0
IsReady live ids (call c) = IsSound c
IsReady live ids (free c) = (live c ≡ false) × (c ≤ ids)

abbrev pub AllReady : (ℕ → Bool) → ℕ → List Work → Type 0
AllReady live ids [] = Unit
AllReady live ids (w ∷ ws) = IsReady live ids w × AllReady live ids ws

pub AllReady-append :
    (live : ℕ → Bool) (ids : ℕ) (vs ws : List Work)
    → AllReady live ids vs
    → AllReady live ids ws
    → AllReady live ids (vs ++ ws)
AllReady-append live ids [] ws h k = k
AllReady-append live ids (v ∷ vs) ws h k = (h.0, AllReady-append live ids vs ws h.1 k)

pub AllReady-calls :
    (live : ℕ → Bool) (ids : ℕ) (cs : List Call) → AllSound cs → AllReady live ids (map call cs)
AllReady-calls live ids [] h = tt
AllReady-calls live ids (c ∷ cs) h = (h.0, AllReady-calls live ids cs h.1)

not_new : (live : ℕ → Bool) (c n : ℕ) → live c ≡ false → c ≤ n → set live (n + 1) true c ≡ false
not_new live c n l h = elim (Bool-cases (c == n + 1)) [
  | inl e ↦ absurd (omega (arith, (==_iff c (n + 1)).0 e, h))
  | inr e ↦ rw e l
]

pub AllReady-created :
    (live : ℕ → Bool) (ids : ℕ) (ws : List Work)
    → AllReady live ids ws
    → AllReady (set live (ids + 1) true) (ids + 1) ws
AllReady-created live ids [] h = tt
AllReady-created live ids (call c ∷ ws) h = (h.0, AllReady-created live ids ws h.1)
AllReady-created live ids (free c ∷ ws) h =
    ((not_new live c ids h.0.0 h.0.1, omega (arith, h.0.1)), AllReady-created live ids ws h.1)

pub AllReady-removed :
    (live : ℕ → Bool) (ids c : ℕ) (ws : List Work)
    → AllReady live ids ws
    → AllReady (set live c false) ids ws
AllReady-removed live ids c [] h = tt
AllReady-removed live ids c (call w ∷ ws) h = (h.0, AllReady-removed live ids c ws h.1)
AllReady-removed live ids c (free d ∷ ws) h = (
  (either_branch (λ b. b ≡ false) (d == c) refl h.0.0, h.0.1),
  AllReady-removed live ids c ws h.1,
)

pub Inv-handled :
    {s : Poller} (handled : List (Kind × ℕ)) → Inv s → Inv (record s { handled = handled })
Inv-handled handled v = record {
  tracked = v.tracked;
  numbered = v.numbered;
  pending = v.pending;
  distinct = v.distinct;
}

pub ==-refl : (c : ℕ) → (c == c) ≡ true
==-refl c = (==_iff c c).1 refl

pub closed_live :
    {s : Poller} (c : ℕ) (ch : Channel)
    → Inv s
    → s.channels c ≡ some ch
    → is_pos ch.fd ≡ false
    → s.live c ≡ false
closed_live {s} c ch v e n = elim (v.tracked c) [
  | inl l ↦ l
  | inr o ↦ absurd (true≢false (sym (subst (λ k. is_open k ≡ true) e o) ∙ n))
]
