-- ===== src/Poller/Inv.antt =====
-- poller.cc, channel.cc: the invariant of the live channels and the pending events.
use net_library.Base.{
  ℕ, ◌+◌, ◌≤◌, ◌≡◌, ◌⊎◌, inl, inr, refl, sym, ap, subst, ◌∙◌, Bool, true, false, Option, none, some,
  List, [], ◌∷◌, arith, ◌==◌, ==_iff, Bool-cases,
}
use net_library.Base.Int.{ℤ}
use net_library.Poller.{
  Poller, Channel, Event, init, is_pos, null_first, points_to, set, add_channel, remove_channel,
  update_channel, create_channel,
}

-- A channel that is there and has a descriptor.
abbrev pub is_open : Option Channel → Bool
is_open none = false
is_open (some ch) = is_pos ch.fd

abbrev pub IsLive : (ℕ → Bool) → Option ℕ → Type 0
IsLive live none = Unit
IsLive live (some c) = live c ≡ true

abbrev pub AllLive : (ℕ → Bool) → List Event → Type 0
AllLive live [] = Unit
AllLive live (e ∷ es) = IsLive live e.ptr × AllLive live es

-- No event of a list points to a channel.
abbrev pub Absent : ℕ → List Event → Type 0
Absent c [] = Unit
Absent c (e ∷ es) = (points_to c e.ptr ≡ false) × Absent c es

abbrev pub Apart : Option ℕ → List Event → Type 0
Apart none es = Unit
Apart (some c) es = Absent c es

-- A channel has one event at most.
abbrev pub Distinct : List Event → Type 0
Distinct [] = Unit
Distinct (e ∷ es) = Apart e.ptr es × Distinct es

pub record Inv (s : Poller) : Type 0 where
  pub tracked : (c : ℕ) → (s.live c ≡ false) ⊎ (is_open (s.channels c) ≡ true)
  pub numbered : (c : ℕ) → (s.channels c ≡ none) ⊎ (c ≤ s.ids)
  pub pending : AllLive s.live s.active
  pub distinct : Distinct s.active

pub init-Inv : Inv init
init-Inv = record { tracked = λ c. inl refl; numbered = λ c. inl refl; pending = tt; distinct = tt }

IsLive-dead :
    (live : ℕ → Bool) (c : ℕ) (p : Option ℕ)
    → points_to c p ≡ false
    → IsLive live p
    → IsLive (set live c false) p
IsLive-dead live c none h l = tt
IsLive-dead live c (some d) h l = rw h l

AllLive-dead :
    (live : ℕ → Bool) (c : ℕ) (es : List Event)
    → Absent c es
    → AllLive live es
    → AllLive (set live c false) es
AllLive-dead live c [] a l = tt
AllLive-dead live c (e ∷ es) a l =
    (IsLive-dead live c e.ptr a.0 l.0, AllLive-dead live c es a.1 l.1)

Apart-Absent :
    (c : ℕ) (p : Option ℕ) (es : List Event) → points_to c p ≡ true → Apart p es → Absent c es
Apart-Absent c none es h a = cc
Apart-Absent c (some d) es h a = subst (λ k. Absent k es) ((==_iff d c).0 h) a

pub null_first-AllLive :
    (live : ℕ → Bool) (c : ℕ) (es : List Event)
    → AllLive live es
    → Distinct es
    → AllLive (set live c false) (null_first c es)
null_first-AllLive live c [] l d = tt
null_first-AllLive live c (e ∷ es) l d = elim (Bool-cases (points_to c e.ptr)) [
  | inl h ↦ rw (h, null_first) (tt, AllLive-dead live c es (Apart-Absent c e.ptr es h d.0) l.1)
  | inr h ↦
      rw (h, null_first) (IsLive-dead live c e.ptr h l.0, null_first-AllLive live c es l.1 d.1)
]

null_first-Absent : (b c : ℕ) (es : List Event) → Absent b es → Absent b (null_first c es)
null_first-Absent b c [] a = tt
null_first-Absent b c (e ∷ es) a = elim (Bool-cases (points_to c e.ptr)) [
  | inl h ↦ rw (h, null_first) (refl, a.1)
  | inr h ↦ rw (h, null_first) (a.0, null_first-Absent b c es a.1)
]

null_first-Apart : (p : Option ℕ) (c : ℕ) (es : List Event) → Apart p es → Apart p (null_first c es)
null_first-Apart none c es a = tt
null_first-Apart (some b) c es a = null_first-Absent b c es a

pub null_first-Distinct : (c : ℕ) (es : List Event) → Distinct es → Distinct (null_first c es)
null_first-Distinct c [] d = tt
null_first-Distinct c (e ∷ es) d = elim (Bool-cases (points_to c e.ptr)) [
  | inl h ↦ rw (h, null_first) (tt, d.1)
  | inr h ↦ rw (h, null_first) (null_first-Apart e.ptr c es d.0, null_first-Distinct c es d.1)
]

IsLive-added : (live : ℕ → Bool) (c : ℕ) (p : Option ℕ) → IsLive live p → IsLive (set live c true) p
IsLive-added live c none l = tt
IsLive-added live c (some d) l = elim (Bool-cases (d == c)) [ inl h ↦ rw h | inr h ↦ rw h l ]

AllLive-added :
    (live : ℕ → Bool) (c : ℕ) (es : List Event) → AllLive live es → AllLive (set live c true) es
AllLive-added live c [] l = tt
AllLive-added live c (e ∷ es) l = (IsLive-added live c e.ptr l.0, AllLive-added live c es l.1)

-- A new channel with a descriptor.
pub create_channel-Inv :
    (s : Poller) (fd : ℤ) (events : ℕ) → Inv s → is_pos fd ≡ true → Inv (create_channel s fd events)
unfolding create_channel add_channel
create_channel-Inv s fd events v p = record {
  tracked =
      λ c. elim (Bool-cases (c == s.ids + 1)) [ inl h ↦ rw h (inr p) | inr h ↦ rw h (v.tracked c) ];
  numbered = λ c. elim (Bool-cases (c == s.ids + 1)) [
    | inl h ↦ inr (ground arith)
    | inr h ↦ rw h (elim (v.numbered c) [ inl n ↦ inl n | inr n ↦ inr (omega arith) ])
  ];
  pending = AllLive-added s.live (s.ids + 1) s.active v.pending;
  distinct = v.distinct;
}

-- A channel that is there has a number that was given.
pub numbered_there :
    {s : Poller} (c : ℕ) (ch : Channel) → Inv s → s.channels c ≡ some ch → c ≤ s.ids
numbered_there c ch v e = elim (v.numbered c) [ inl n ↦ absurd cc | inr n ↦ n ]

-- New flags for a channel that is there.
pub update_channel-Inv :
    {s : Poller} (c : ℕ) (ch ch' : Channel)
    → Inv s
    → s.channels c ≡ some ch
    → ch'.fd ≡ ch.fd
    → Inv (update_channel s c ch')
unfolding update_channel
update_channel-Inv {s} c ch ch' v e f = record {
  tracked = λ d. elim (Bool-cases (d == c)) [
    | inl h ↦ elim (v.tracked d) [
      | inl l ↦ inl l
      | inr o ↦ rw h (
          inr
            (ap is_pos f ∙ subst (λ k. is_open k ≡ true) (ap s.channels ((==_iff d c).0 h) ∙ e) o))
    ]
    | inr h ↦ rw h (v.tracked d)
  ];
  numbered = λ d. elim (Bool-cases (d == c)) [
    | inl h ↦ inr (subst (λ k. k ≤ s.ids) (sym ((==_iff d c).0 h)) (numbered_there c ch v e))
    | inr h ↦ rw h (v.numbered d)
  ];
  pending = v.pending;
  distinct = v.distinct;
}

-- A channel that closes, or is freed, is live no longer.
pub remove_channel-Inv :
    {s : Poller} (c : ℕ) (ch ch' : Channel)
    → Inv s
    → s.channels c ≡ some ch
    → Inv (record (remove_channel s c) { channels = set s.channels c (some ch') })
unfolding remove_channel
remove_channel-Inv {s} c ch ch' v e = record {
  tracked =
      λ d. elim (Bool-cases (d == c)) [ inl h ↦ rw h (inl refl) | inr h ↦ rw h (v.tracked d) ];
  numbered = λ d. elim (Bool-cases (d == c)) [
    | inl h ↦ inr (subst (λ k. k ≤ s.ids) (sym ((==_iff d c).0 h)) (numbered_there c ch v e))
    | inr h ↦ rw h (v.numbered d)
  ];
  pending = null_first-AllLive s.live c s.active v.pending v.distinct;
  distinct = null_first-Distinct c s.active v.distinct;
}

pub free-Inv :
    {s : Poller} (c : ℕ)
    → Inv s
    → s.live c ≡ false
    → Inv (record s { channels = set s.channels c none })
free-Inv {s} c v l = record {
  tracked = λ d. elim (Bool-cases (d == c)) [
    | inl h ↦ inl (subst (λ k. s.live k ≡ false) (sym ((==_iff d c).0 h)) l)
    | inr h ↦ rw h (v.tracked d)
  ];
  numbered =
      λ d. elim (Bool-cases (d == c)) [ inl h ↦ rw h (inl refl) | inr h ↦ rw h (v.numbered d) ];
  pending = v.pending;
  distinct = v.distinct;
}
