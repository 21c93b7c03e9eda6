-- ===== src/Conf/Verdict.antt =====
-- conf.h: which lines are well formed, and what parse makes of each.
use net_library.Base.{
  ℕ, ◌≡◌, refl, sym, ◌∙◌, inl, inr, Bool, true, false, not, ◌||◌, Option, none, some, [], ◌∷◌,
  arith, if◌then◌else◌, ◌==◌, is_space, drop, Bool-cases, subst, ==_iff,
}
use net_library.Conf.{
  Str, Parser, LineScanner, peek, drop_spaces, from, is_end, skip_space, peer_char, skip,
  match_char, consume_till, add_value, parse_value, parse_section, parse_continued, parse_line,
}

-- What a line is: well formed, wrong, or one behind which the parser reads.
pub data Verdict : Type 0 where
  fine wrong overrun : Verdict

-- The character stands in the text before a zero.
abbrev pub has : ℕ → Str → Bool
has c [] = false
has c (d ∷ ds) = let rest = has c ds in if d == 0 then false else if d == c then true else rest

-- Of a text without `=`: it has a colon, and not as its last character.
abbrev pub colon : Str → Verdict
colon [] = wrong
colon (d ∷ ds) =
    let rest = colon ds in
    if d == 0 then wrong else if d == 58 then (if is_end ds then overrun else fine) else rest

abbrev pub fine_if : Bool → Verdict
fine_if b = if b then fine else wrong

-- A comment or a blank line is fine; a section needs its `]`; a line that begins with a space needs a
-- key before it; another one needs `=` or, if it has none, `:`.
abbrev pub verdict : Str → Str → Verdict
verdict key line =
    let text = drop_spaces line in
    let c = peek text in
    if c == 59 || c == 35 || c == 0
    then fine
    else if c == 91
    then fine_if (has 93 text)
    else if is_space (peek line)
    then fine_if (not (is_end key))
    else if has 61 text
    then fine
    else colon text

abbrev pub verdict_of : Option (Parser × Bool) → Verdict
verdict_of none = overrun
verdict_of (some (s, err)) = if err then wrong else fine

drop_spaces-twice : (t : Str) → drop_spaces (drop_spaces t) ≡ drop_spaces t
drop_spaces-twice [] = refl
drop_spaces-twice (c ∷ cs) = elim (Bool-cases (is_space c)) [
  | inl e ↦ rw e (drop_spaces-twice cs)
  | inr e ↦ rw (e, e) refl
]

module _ (c : ℕ) (visible : is_space c ≡ false) (apart : (0 == c) ≡ false) where
  peek-from : (t : Str) → (peek (from c t) == c) ≡ has c t
  peek-from [] = apart
  peek-from (d ∷ ds) = let ih = peek-from ds in ground (arith, ih, apart)

  drop_spaces-from : (t : Str) → drop_spaces (from c t) ≡ from c t
  drop_spaces-from [] = refl
  drop_spaces-from (d ∷ ds) = let ih = drop_spaces-from ds in ground (arith, ih, visible)

  has-drop_spaces : (t : Str) → has c (drop_spaces t) ≡ has c t
  has-drop_spaces [] = refl
  has-drop_spaces (d ∷ ds) = let ih = has-drop_spaces ds in ground (arith, ih, visible)

  peek-has : (t : Str) → has c t ≡ false → (peek t == c) ≡ false
  peek-has [] h = apart
  peek-has (d ∷ ds) h = ground (arith, h, apart)

  till_found :
      (p : Str)
      → has c (drop_spaces p) ≡ true
      → (consume_till (record { p = p; err = false }) c).1
        ≡ record { p = from c (drop_spaces p); err = false }
  unfolding consume_till skip_space
  till_found p h = rw (peek-from (drop_spaces p), h) refl

  till_missed :
      (p : Str)
      → has c (drop_spaces p) ≡ false
      → (consume_till (record { p = p; err = false }) c).1
        ≡ record { p = drop_spaces p; err = true }
  unfolding consume_till skip_space
  till_missed p h = rw (peek-from (drop_spaces p), h) refl

colon_lem :
    (t : Str) → has 58 t ≡ true → colon t ≡ (if is_end (drop 1 (from 58 t)) then overrun else fine)
colon_lem [] h = absurd (ground (arith, h))
colon_lem (d ∷ ds) h = elim (Bool-cases (d == 0)) [
  | inl z ↦ absurd (ground (arith, h, z))
  | inr z ↦ elim (Bool-cases (d == 58)) [
    | inl e ↦ rw (z, e) refl
    | inr e ↦ rw (z, e) (colon_lem ds (ground (arith, h, z, e)))
  ]
]

colon_missed : (t : Str) → has 58 t ≡ false → colon t ≡ wrong
colon_missed [] h = refl
colon_missed (d ∷ ds) h = let ih = colon_missed ds in ground (arith, h, ih)

add_value-verdict :
    (s : Parser) (key : Str) (ln : LineScanner) (err : Bool)
    → verdict_of (some (add_value s key ln err)) ≡ (if err then wrong else fine)
unfolding add_value
add_value-verdict s key ln err = refl

parse_section-verdict :
    (s : Parser) (r : Str)
    → verdict_of (some (parse_section s (record { p = 91 ∷ r; err = false }))) ≡ fine_if (has 93 r)
unfolding parse_section skip match_char skip_space
parse_section-verdict s r = elim (Bool-cases (has 93 r)) [
  | inl h ↦
      let h' = has-drop_spaces 93 refl refl r ∙ h in
      rw (till_found 93 refl refl r h', h, drop_spaces-from 93 refl refl (drop_spaces r))
        (rw (peek-from 93 refl refl (drop_spaces r), h') refl)
  | inr h ↦
      let h' = has-drop_spaces 93 refl refl r ∙ h in
      rw (till_missed 93 refl refl r h', h) (rw (peek-has 93 refl refl (drop_spaces r) h') refl)
]

parse_continued-verdict :
    (s : Parser) (ln : LineScanner)
    → verdict_of (some (parse_continued s ln)) ≡ fine_if (not (is_end s.key))
unfolding parse_continued
parse_continued-verdict s ln = by_key s.key refl
  where
    by_key :
        (key : Str)
        → s.key ≡ key
        → verdict_of (some (parse_continued s ln)) ≡ fine_if (not (is_end s.key))
    by_key [] e = rw e refl
    by_key (c ∷ cs) e = rw e refl

overrun_or_fine :
    (b : Bool) (r : Parser × Bool)
    → r.1 ≡ false
    → verdict_of (if b then none else some r) ≡ (if b then overrun else fine)
overrun_or_fine true r e = refl
overrun_or_fine false r e = rw e refl

-- Of a text that begins with no space.
parse_value-verdict :
    (s : Parser) (t : Str)
    → drop_spaces t ≡ t
    → verdict_of (parse_value s (record { p = t; err = false }))
      ≡ (if has 61 t then fine else colon t)
unfolding parse_value peer_char match_char skip_space
parse_value-verdict s t e = elim (Bool-cases (has 61 t)) [
  | inl h ↦
      rw (e, peek-from 61 refl refl t, h, drop_spaces-from 61 refl refl t)
        (rw (peek-from 61 refl refl t, h) refl)
  | inr h ↦
      rw (e, peek-from 61 refl refl t, h, peek-has 61 refl refl t h)
        (elim (Bool-cases (has 58 t)) [
          | inl k ↦
              rw (peek-from 58 refl refl t, k, drop_spaces-from 58 refl refl t, colon_lem t k)
                (rw (peek-from 58 refl refl t, k)
                  (overrun_or_fine (is_end (drop 1 (from 58 t))) _ refl))
          | inr k ↦
              rw (peek-from 58 refl refl t, k, colon_missed t k)
                (rw (peek-has 58 refl refl t k) refl)
        ])
]

at_section :
    (s : Parser) (t : Str)
    → (peek t == 91) ≡ true
    → verdict_of (some (parse_section s (record { p = t; err = false }))) ≡ fine_if (has 93 t)
at_section s [] h = absurd (ground (arith, h))
at_section s (c ∷ r) h =
    subst
      (λ d.
        verdict_of (some (parse_section s (record { p = d ∷ r; err = false })))
        ≡ fine_if (has 93 (d ∷ r)))
      (sym ((==_iff c 91).0 h)) (parse_section-verdict s r)

pub parse_line-verdict :
    (s : Parser) (line : Str) → verdict_of (parse_line s line) ≡ verdict s.key line
unfolding parse_line peer_char skip_space
parse_line-verdict s line =
    let t = drop_spaces line in
    let c = peek t in
    elim (Bool-cases (c == 59 || c == 35 || c == 0)) [
      | inl e ↦ rw e refl
      | inr e ↦ elim (Bool-cases (c == 91)) [
        | inl k ↦ rw (e, k) (at_section s t k)
        | inr k ↦ elim (Bool-cases (is_space (peek line))) [
          | inl b ↦ rw (e, k, b) (parse_continued-verdict s (record { p = t; err = false }))
          | inr b ↦ rw (e, k, b) (parse_value-verdict s t (drop_spaces-twice line))
        ]
      ]
    ]
