-- ===== src/Conf/Values.antt =====
-- conf.h: what the parser stores under a key, and what a getter finds.
use net_library.Base.{
  ◌≡◌, ◌⊎◌, inl, inr, ap, subst, sym, ◌∙◌, Bool, true, false, not, ◌&&◌, Option, none, some, List,
  [], ◌∷◌, ◌++◌, Bool-cases, ◌==◌, same, same_refl, same→eq, Option-cases, either_branch,
}
use net_library.Conf.{
  Str, Values, find, push_back, make_key, get_strings, Parser, LineScanner, add_value, parse_value,
  consume_till_end, skip, consume_till, peer_char, match_char, is_end,
}

-- The values under a key.
abbrev pub or_empty : Option (List Str) → List Str
or_empty none = []
or_empty (some vs) = vs

find-push_back_own :
    (k : Str) (v : Str) (m : Values)
    → find k (push_back k v m) ≡ some (or_empty (find k m) ++ v ∷ [])
unfolding find push_back
find-push_back_own k v [] = rw (same_refl k)
find-push_back_own k v ((i, vs) ∷ m) = elim (Bool-cases (same i k)) [
  | inl e ↦ rw e (rw e)
  | inr e ↦ rw e (rw e (find-push_back_own k v m))
]

find-push_back_other :
    (k j : Str) (v : Str) (m : Values) → same k j ≡ false → find j (push_back k v m) ≡ find j m
unfolding find push_back
find-push_back_other k j v [] n = rw n
find-push_back_other k j v ((i, vs) ∷ m) n = elim (Bool-cases (same i k)) [
  | inl e ↦ let d = subst (λ z. same z j ≡ false) (sym (same→eq i k e)) n in rw e (rw d)
  | inr e ↦ rw e (rw (find-push_back_other k j v m n))
]

or_empty-get_strings :
    (m : Values) (section name : Str)
    → get_strings m section name ≡ or_empty (find (make_key section name) m)
unfolding get_strings
or_empty-get_strings m section name = elim (Option-cases (find (make_key section name) m)) [
  | inl e ↦ rw (e, get_strings)
  | inr (vs, e) ↦ rw (e, get_strings)
]

-- A value has been put behind those of the key that was read, and no other key has changed.
abbrev pub AddsValue : Parser → Str → Str → Parser × Bool → Type 0
AddsValue s section name (s', err) =
    (v : Str) × (get_strings s'.values s.section s'.key
      ≡ get_strings s.values s.section s'.key ++ v ∷ [])
    × ((same (make_key s.section s'.key) (make_key section name) ≡ true)
        ⊎ (get_strings s'.values section name ≡ get_strings s.values section name))

add_value-AddsValue :
    (s : Parser) (key : Str) (ln : LineScanner) (err : Bool) (section name : Str)
    → AddsValue s section name (add_value s key ln err)
unfolding add_value
add_value-AddsValue s key ln err section name =
    let v = (consume_till_end (skip ln 1)).0 in
    let k = make_key s.section key in
    let j = make_key section name in
    (
      v,
      or_empty-get_strings _ s.section key
          ∙ ap or_empty (find-push_back_own k v s.values)
          ∙ ap (λ z. z ++ v ∷ []) (sym (or_empty-get_strings s.values s.section key)),
      elim (Bool-cases (same k j)) [
        | inl e ↦ inl e
        | inr e ↦ inr (
            or_empty-get_strings _ section name
            ∙ ap or_empty (find-push_back_other k j v s.values e)
            ∙ sym (or_empty-get_strings s.values section name))
      ],
    )

-- The same where the line has been read, and not where the parser reads behind it.
abbrev pub MaybeAdds : Parser → Str → Str → Option (Parser × Bool) → Type 0
MaybeAdds s section name none = Unit
MaybeAdds s section name (some r) = AddsValue s section name r

-- A line with a value adds exactly one value, behind those of the key that it has read, and changes
-- no other key, in upper or lower case, whether it has `=`, `:` or is wrong.
pub parse_value-AddsValue :
    (s : Parser) (ln : LineScanner) (section name : Str)
    → MaybeAdds s section name (parse_value s ln)
unfolding parse_value
parse_value-AddsValue s ln section name =
    let (key, after) = consume_till ln 61 in
    let (c, found) = peer_char after in
    let (key', after') = consume_till ln 58 in
    let matched = match_char after' 58 in
    either_branch (MaybeAdds s section name) (c == 61)
      (add_value-AddsValue s key found false section name)
      (either_branch (MaybeAdds s section name) (not matched.err && is_end matched.p) tt
        (add_value-AddsValue s key' matched matched.err section name))
