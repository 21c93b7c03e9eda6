-- ===== src/Conf/Printing.antt =====
-- conf.h: the values that parse reads from the lines of a file.
use net_library.Base.{
  ℕ, zero, suc, ◌+◌, ◌≤◌, ◌<◌, ◌≡◌, length, refl, ap, Bool, true, false, not, ◌&&◌, ◌||◌, some,
  List, [], ◌∷◌, ◌++◌, map, ◌==◌, is_space, arith,
}
use net_library.Base.Int.{pos}
use net_library.Conf.{
  Str, Values, Parser, make_key, push_back, drop_spaces, skip_space, strip_end, peer_char, skip,
  match_char, before, from, consume_till, ends_value, value_of, consume_till_end, add_value,
  parse_value, parse_section, parse_line, parse_lines, parse, pieces, onto_first, fgets_all,
}

-- A character that stands for itself in a name or a value: no space, and none of 0 # : ; = [ ].
abbrev pub is_plain : ℕ → Bool
is_plain c =
    not (is_space c)
    && (not (c == 0)
        && (not (c == 35)
            && (not (c == 58)
                && (not (c == 59) && (not (c == 61) && (not (c == 91) && not (c == 93)))))))

abbrev pub AllPlain : Str → Type 0
AllPlain [] = Unit
AllPlain (c ∷ cs) = (is_plain c ≡ true) × AllPlain cs

abbrev pub IsWord : Str → Type 0
IsWord [] = ⊥
IsWord (c ∷ cs) = AllPlain (c ∷ cs)

abbrev NotSpecial : ℕ → Type 0
NotSpecial c =
    (is_space c ≡ false)
    × ((c == 0) ≡ false)
    × ((c == 35) ≡ false)
    × ((c == 59) ≡ false)
    × ((c == 61) ≡ false)
    × ((c == 91) ≡ false)
    × ((c == 93) ≡ false)

plain_lem : (c : ℕ) → is_plain c ≡ true → NotSpecial c
plain_lem c h = ground (arith, h)

strip_end-word : (w : Str) → AllPlain w → strip_end w ≡ w
strip_end-word [] p = refl
strip_end-word (c ∷ []) p = rw (plain_lem c p.0).0 refl
strip_end-word (c ∷ d ∷ ds) p = rw (strip_end-word (d ∷ ds) p.1) refl

-- What a scan up to the character `d`, which is not plain, leaves of a word before it.
module _ (d : ℕ) (stops : (d == 0 || d == d) ≡ true)
    (apart : (c : ℕ) → is_plain c ≡ true → (c == d) ≡ false) where
  before-word : (w r : Str) → AllPlain w → before d (w ++ d ∷ r) ≡ w
  before-word [] r p = rw stops refl
  before-word (c ∷ cs) r p =
      rw ((plain_lem c p.0).1, apart c p.0) (ap (λ z. c ∷ z) (before-word cs r p.1))

  from-word : (w r : Str) → AllPlain w → from d (w ++ d ∷ r) ≡ d ∷ r
  from-word [] r p = rw stops refl
  from-word (c ∷ cs) r p = rw ((plain_lem c p.0).1, apart c p.0) (from-word cs r p.1)

drop_spaces-word : (w r : Str) → IsWord w → drop_spaces (w ++ r) ≡ w ++ r
drop_spaces-word [] r p = elim p [ ]
drop_spaces-word (c ∷ cs) r p = rw (plain_lem c p.0).0 refl

ends_value-plain : (c : ℕ) → is_plain c ≡ true → ends_value c ≡ false
ends_value-plain c h = ground (arith, h)

value_of-word : (w : Str) → AllPlain w → value_of (w ++ 10 ∷ []) ≡ w
value_of-word [] p = refl
value_of-word (c ∷ cs) p = rw (ends_value-plain c p.0) (ap (λ z. c ∷ z) (value_of-word cs p.1))

IsWord-AllPlain : (w : Str) → IsWord w → AllPlain w
IsWord-AllPlain [] p = elim p [ ]
IsWord-AllPlain (c ∷ cs) p = p

-- The lines of a file: a section, or a key with its value.
pub data Item : Type 0 where
  section : Str → Item
  entry : Str → Str → Item

abbrev pub print : Item → Str
print (section name) = 91 ∷ (name ++ 93 ∷ 10 ∷ [])
print (entry key value) = key ++ 61 ∷ (value ++ 10 ∷ [])

abbrev pub IsPlain : Item → Type 0
IsPlain (section name) = IsWord name
IsPlain (entry key value) = IsWord key × IsWord value

abbrev pub ArePlain : List Item → Type 0
ArePlain [] = Unit
ArePlain (i ∷ is) = IsPlain i × ArePlain is

-- What the items say: each value in its section, behind the values of the same key.
abbrev pub store_item : Parser → Item → Parser
store_item s (section name) = record s { section = name; key = [] }
store_item s (entry key value) = record s {
  key = key;
  values = push_back (make_key s.section key) value s.values;
}

abbrev pub store_all : Parser → List Item → Parser
store_all s [] = s
store_all s (i ∷ is) = store_all (store_item s i) is

consume_till-word :
    (d : ℕ) (stops : (d == 0 || d == d) ≡ true)
    (apart : (c : ℕ) → is_plain c ≡ true → (c == d) ≡ false) (w r : Str)
    → IsWord w
    → consume_till (record { p = w ++ d ∷ r; err = false }) d
      ≡ (w, record { p = d ∷ r; err = false })
unfolding consume_till skip_space
consume_till-word d stops apart w r p =
    let a = IsWord-AllPlain w p in
    let e : (d == d) ≡ true = ground arith in
    rw
      (
        drop_spaces-word w (d ∷ r) p,
        before-word d stops apart w r a,
        from-word d stops apart w r a,
        e,
        strip_end-word w a,
      )
      refl

apart_61 : (c : ℕ) → is_plain c ≡ true → (c == 61) ≡ false
apart_61 c h = (plain_lem c h).4

apart_93 : (c : ℕ) → is_plain c ≡ true → (c == 93) ≡ false
apart_93 c h = (plain_lem c h).6

parse_section-word :
    (s : Parser) (name : Str)
    → IsWord name
    → parse_section s (record { p = print (section name); err = false })
      ≡ (store_item s (section name), false)
unfolding parse_section skip match_char skip_space
parse_section-word s name p = rw (consume_till-word 93 refl apart_93 name (10 ∷ []) p) refl

add_value-word :
    (s : Parser) (key value : Str)
    → IsWord value
    → add_value s key (record { p = 61 ∷ (value ++ 10 ∷ []); err = false }) false
      ≡ (store_item s (entry key value), false)
unfolding add_value skip consume_till_end skip_space
add_value-word s key value p =
    let a = IsWord-AllPlain value p in
    rw (drop_spaces-word value (10 ∷ []) p, value_of-word value a, strip_end-word value a) refl

parse_value-word :
    (s : Parser) (key value : Str)
    → IsWord key
    → IsWord value
    → parse_value s (record { p = print (entry key value); err = false })
      ≡ some (store_item s (entry key value), false)
unfolding parse_value peer_char skip_space
parse_value-word s key value p q =
    rw (consume_till-word 61 refl apart_61 key (value ++ 10 ∷ []) p)
      (ap some (add_value-word s key value q))

parse_line-print :
    (s : Parser) (i : Item) → IsPlain i → parse_line s (print i) ≡ some (store_item s i, false)
unfolding parse_line peer_char skip_space
parse_line-print s (section name) p = ap some (parse_section-word s name p)
parse_line-print s (entry [] value) p = elim p.0 [ ]
parse_line-print s (entry (c ∷ cs) value) p =
    let n = plain_lem c p.0.0 in
    rw (n.0, n.1, n.2, n.3, n.5) (parse_value-word s (c ∷ cs) value p.0 p.1)

parse_lines-print :
    (n : ℕ) (s : Parser) (is : List Item)
    → ArePlain is
    → parse_lines n s (map print is) ≡ some (store_all s is, 0)
unfolding parse_lines
parse_lines-print n s [] p = refl
parse_lines-print n s (i ∷ is) p =
    rw (parse_line-print s i p.0) (parse_lines-print (n + 1) (store_item s i) is p.1)

-- A line for which there is room is read in one piece.
pieces-short : (room : ℕ) (xs : Str) → length xs ≤ room → pieces room xs ≡ xs ∷ []
unfolding pieces
pieces-short zero [] h = refl
pieces-short (suc room) [] h = refl
pieces-short zero (c ∷ cs) h = absurd (omega (arith, h))
pieces-short (suc room) (c ∷ cs) h =
    ap (λ r. onto_first c r) (pieces-short room cs (omega (arith, h)))

-- Each line, with its newline, fits into the buffer beside the zero.
abbrev pub AreShort : List Item → Type 0
AreShort [] = Unit
AreShort (i ∷ is) = (length (print i) < 1024) × AreShort is

fgets_all-print : (is : List Item) → AreShort is → fgets_all (map print is) ≡ map print is
unfolding fgets_all
fgets_all-print [] h = refl
fgets_all-print (i ∷ is) h =
    rw (pieces-short 1023 (print i) (omega (arith, h.0)))
      (ap (λ r. print i ∷ r) (fgets_all-print is h.1))

-- parse of the lines of sections and of keys with their values, all of plain characters and each line
-- shorter than 1024 characters, returns 0 and stores each value in its section, behind the values of
-- the same key that were there.
pub parse-print :
    (m : Values) (is : List Item)
    → ArePlain is
    → AreShort is
    → parse m (some (map print is))
      ≡ some ((store_all (record { section = []; key = []; values = m }) is).values, pos 0)
unfolding parse
parse-print m is p h =
    rw
      (
        fgets_all-print is h,
        parse_lines-print 0 (record { section = []; key = []; values = m }) is p,
      )
      refl
