-- ===== src/Conf.antt =====
-- conf.h: INI files: the scanner of a line, the parser and the getters.
--
-- A character is its code, and the text that is scanned is what `fgets` yields, without the zero
-- behind it: the end of the list stands for that. The pointer of a scanner is the rest
-- of its line. `strtol` is a parameter, which yields nothing where it has read nothing.
pub mod Values
pub mod Printing
pub mod Verdict
pub mod Errors
mod Tests
use net_library.Base.{
  ℕ, zero, suc, ◌+◌, Bool, true, false, not, ◌&&◌, ◌||◌, Option, none, some, List, [], ◌∷◌, ◌++◌,
  map, ◌==◌, if◌then◌else◌, drop, is_space, to_lower, same,
}
use net_library.Base.Int.{ℤ, pos, negsuc}

abbrev pub Str : Type 0
Str = List ℕ

-- section + "." + name, in lower case.
pub make_key : Str → Str → Str
make_key section name = map to_lower (section ++ 46 ∷ name)

pub record LineScanner : Type 0 where
  pub p : Str
  pub err : Bool

-- `*p`
abbrev pub peek : Str → ℕ
peek [] = 0
peek (c ∷ cs) = c

abbrev pub drop_spaces : Str → Str
drop_spaces [] = []
drop_spaces (c ∷ cs) = if is_space c then drop_spaces cs else c ∷ cs

pub skip_space : LineScanner → LineScanner
skip_space s = if s.err then s else record s { p = drop_spaces s.p }

abbrev pub strip_one : ℕ → Str → Str
strip_one c [] = if is_space c then [] else c ∷ []
strip_one c (d ∷ ds) = c ∷ d ∷ ds

abbrev pub strip_end : Str → Str
strip_end [] = []
strip_end (c ∷ cs) = strip_one c (strip_end cs)

abbrev pub rstrip : Bool → Str → Str
rstrip err xs = if err then xs else strip_end xs

-- `peerChar`, with the scanner that it leaves.
pub peer_char : LineScanner → ℕ × LineScanner
unfolding skip_space
peer_char s = (peek (skip_space s).p, skip_space s)

pub skip : LineScanner → ℕ → LineScanner
skip s i = record s { p = drop i s.p }

pub match_char : LineScanner → ℕ → LineScanner
unfolding skip_space
match_char s c = let s' = skip_space s in record s' { p = drop 1 s'.p; err = not (peek s'.p == c) }

-- The characters before the first `c`, and the others.
abbrev pub before : ℕ → Str → Str
before c [] = []
before c (d ∷ ds) = if d == 0 || d == c then [] else d ∷ before c ds

abbrev pub from : ℕ → Str → Str
from c [] = []
from c (d ∷ ds) = if d == 0 || d == c then d ∷ ds else from c ds

pub consume_till : LineScanner → ℕ → Str × LineScanner
unfolding skip_space
consume_till s c =
    let s' = skip_space s in
    let text = if s'.err then [] else before c s'.p in
    let rest = if s'.err then s'.p else from c s'.p in
    if peek rest == c
    then (rstrip s'.err text, record s' { p = rest })
    else ([], record s' { err = true })

-- A value ends before a space, `#` or `;`.
abbrev pub ends_value : ℕ → Bool
ends_value c = c == 0 || (c == 35 || c == 59) || is_space c

abbrev pub value_of : Str → Str
value_of [] = []
value_of (c ∷ cs) = if ends_value c then [] else c ∷ value_of cs

abbrev pub after_value : Str → Str
after_value [] = []
after_value (c ∷ cs) = if ends_value c then c ∷ cs else after_value cs

pub consume_till_end : LineScanner → Str × LineScanner
unfolding skip_space
consume_till_end s =
    let s' = skip_space s in
    (
      rstrip s'.err (if s'.err then [] else value_of s'.p),
      record s' { p = if s'.err then s'.p else after_value s'.p },
    )

-- map<string, list<string>>; the order of the keys is never used.
abbrev pub Values : Type 0
Values = List (Str × List Str)

pub find : Str → Values → Option (List Str)
find k [] = none
find k ((j, vs) ∷ m) = if same j k then some vs else find k m

-- m_values[k].push_back(v)
pub push_back : Str → Str → Values → Values
push_back k v [] = (k, v ∷ []) ∷ []
push_back k v ((j, vs) ∷ m) = if same j k then (j, vs ++ v ∷ []) ∷ m else (j, vs) ∷ push_back k v m

pub record Parser : Type 0 where
  pub section : Str
  pub key : Str
  pub values : Values

-- The value behind a key, with the scanner behind it; and whether the line is wrong.
pub add_value : Parser → Str → LineScanner → Bool → Parser × Bool
unfolding make_key skip consume_till_end push_back
add_value s key ln err = (
  record s {
    key = key;
    values = push_back (make_key s.section key) (consume_till_end (skip ln 1)).0 s.values;
  },
  err,
)

abbrev pub is_end : Str → Bool
is_end [] = true
is_end (c ∷ cs) = false

-- `key=value`, or else `key:value`; `none` where skip(1) steps over the zero behind the text, as it does
-- where the colon is its last character, so that the value is read from behind it.
pub parse_value : Parser → LineScanner → Option (Parser × Bool)
unfolding consume_till peer_char match_char add_value
parse_value s ln =
    let (key, after) = consume_till ln 61 in
    let (c, found) = peer_char after in
    let (key', after') = consume_till ln 58 in
    let matched = match_char after' 58 in
    if c == 61
    then some (add_value s key found false)
    else if not matched.err && is_end matched.p
    then none
    else some (add_value s key' matched matched.err)

pub parse_section : Parser → LineScanner → Parser × Bool
unfolding skip consume_till match_char
parse_section s ln =
    let (section, after) = consume_till (skip ln 1) 93 in
    (record s { section = section; key = [] }, (match_char after 93).err)

-- A line that begins with a space goes on with the values of the key before it.
pub parse_continued : Parser → LineScanner → Parser × Bool
unfolding make_key consume_till push_back
parse_continued s ln = elim s.key [
  | [] ↦ (s, true)
  | c ∷ cs ↦ (
    record s { values = push_back (make_key s.section s.key) (consume_till ln 0).0 s.values },
    false,
  )
]

pub parse_line : Parser → Str → Option (Parser × Bool)
unfolding peer_char parse_section parse_continued parse_value
parse_line s line =
    let (c, ln) = peer_char (record { p = line; err = false }) in
    if c == 59 || c == 35 || c == 0
    then some (s, false)
    else if c == 91
    then some (parse_section s ln)
    else if is_space (peek line)
    then some (parse_continued s ln)
    else parse_value s ln

-- What follows a line that is the n-th: nothing, if it is wrong.
abbrev pub then_lines :
    (Parser → Option (Parser × ℕ)) → ℕ → Option (Parser × Bool) → Option (Parser × ℕ)
then_lines rest n none = none
then_lines rest n (some (s, true)) = some (s, n)
then_lines rest n (some (s, false)) = rest s

-- The loop of parse, from a line number on: the number of the wrong line, or 0.
pub parse_lines : ℕ → Parser → List Str → Option (Parser × ℕ)
unfolding parse_line
parse_lines n s [] = some (s, 0)
parse_lines n s (line ∷ lines) =
    then_lines (λ s'. parse_lines (n + 1) s' lines) (n + 1) (parse_line s line)

abbrev pub onto_first : ℕ → List Str → List Str
onto_first c [] = (c ∷ []) ∷ []
onto_first c (xs ∷ ys) = (c ∷ xs) ∷ ys

-- What fgets(buf, 1024, fp) yields of one line of the file: pieces of at most 1023 characters, of which
-- the first has this room.
pub pieces : ℕ → Str → List Str
pieces room [] = [] ∷ []
pieces zero (c ∷ cs) = [] ∷ onto_first c (pieces 1022 cs)
pieces (suc room) (c ∷ cs) = onto_first c (pieces room cs)

pub fgets_all : List Str → List Str
unfolding pieces
fgets_all [] = []
fgets_all (line ∷ lines) = pieces 1023 line ++ fgets_all lines

abbrev pub returned : Option (Parser × ℕ) → Option (Values × ℤ)
returned none = none
returned (some (s, n)) = some (s.values, pos n)

-- parse, of the lines of the file with the newlines that end them, or of a file that cannot be opened;
-- `none` where it reads behind the text in its buffer.
pub parse : Values → Option (List Str) → Option (Values × ℤ)
unfolding parse_lines fgets_all
parse m none = some (m, negsuc 0)
parse m (some lines) =
    returned (parse_lines 0 (record { section = []; key = []; values = m }) (fgets_all lines))

-- p->second.back(), of a list that is not empty.
abbrev pub last : Str → List Str → Str
last d [] = d
last d (v ∷ vs) = last v vs

pub get : Values → Str → Str → Str → Str
unfolding make_key find
get m section name default = elim (find (make_key section name) m) [
  | none ↦ default
  | some vs ↦ last default vs
]

pub get_strings : Values → Str → Str → List Str
unfolding make_key find
get_strings m section name = elim (find (make_key section name) m) [ none ↦ [] | some vs ↦ vs ]

-- getInteger and getReal, which differ in the function that reads the number.
pub get_number {ℓ} : {A : Type ℓ} → (Str → Option A) → Values → Str → Str → A → A
unfolding get
get_number read m section name default = elim (read (get m section name [])) [
  | none ↦ default
  | some n ↦ n
]

-- "true", "yes", "on", "1"; "false", "no", "off", "0"
abbrev pub is_true : Str → Bool
is_true s =
    same s (116 ∷ 114 ∷ 117 ∷ 101 ∷ [])
    || (same s (121 ∷ 101 ∷ 115 ∷ []) || (same s (111 ∷ 110 ∷ []) || same s (49 ∷ [])))

abbrev pub is_false : Str → Bool
is_false s =
    same s (102 ∷ 97 ∷ 108 ∷ 115 ∷ 101 ∷ [])
    || (same s (110 ∷ 111 ∷ []) || (same s (111 ∷ 102 ∷ 102 ∷ []) || same s (48 ∷ [])))

pub get_boolean : Values → Str → Str → Bool → Bool
unfolding get
get_boolean m section name default =
    let res = map to_lower (get m section name []) in
    if is_true res then true else if is_false res then false else default
