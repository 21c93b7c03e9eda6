-- ===== src/Logger.antt =====
-- logging.h, logging.cc: the levels of the log, its lines and its files.
--
-- A level is a number: LFATAL is 0 and LALL is 7; an `int` of any value may be turned into a level.
-- What snprintf writes of the time, thread, level and place of a line, and vsnprintf of the message,
-- are the texts `prefix` and `body`. A buffer is a list of cells, of which `none` is not initialised.
-- Times are integers, and so is the constant `timezone`. Opening, renaming and dup2 of files are
-- parameters, which give descriptors and whether they succeed.
pub mod Level
pub mod Line
pub mod Printing
pub mod Rotation
pub mod Calls
mod Tests
use net_library.Base.{
  ℕ, zero, suc, ◌+◌, ◌-◌, ◌*◌, ◌/◌, Bool, true, false, Option, none, some, List, [], ◌∷◌, ◌++◌, map,
  length, take, write_at, replicate, get_or, min, leb, ltb, ◌==◌, if◌then◌else◌, codes, to_lower,
  same,
}
use net_library.Base.Int.{ℤ, pos, negsuc, ◌+ℤ◌, ◌-ℤ◌, neg, is_neg}
use net_library.Util.{Cell, printed}

abbrev pub info_level : ℕ
info_level = 4

-- LALL
abbrev pub all_level : ℕ
all_level = 7

pub record Logger : Type 0 where
  pub fd : ℤ
  pub level : ℕ
  pub last_rotate : ℤ
  pub real_rotate : ℤ
  pub rotate_interval : ℤ
  pub filename : List ℕ

-- Logger(), at a time
abbrev pub init : ℤ → Logger
init now = record {
  fd = negsuc 0;
  level = info_level;
  last_rotate = now;
  real_rotate = now;
  rotate_interval = pos 86400;
  filename = [];
}

-- levelStr
abbrev pub level_str : List (List ℕ)
level_str =
    codes "FATAL"
    ∷ codes "ERROR"
    ∷ codes "UERR"
    ∷ codes "WARN"
    ∷ codes "INFO"
    ∷ codes "DEBUG"
    ∷ codes "TRACE"
    ∷ codes "ALL"
    ∷ []

-- strcasecmp(a, b) == 0
abbrev pub same_case : List ℕ → List ℕ → Bool
same_case a b = same (map to_lower a) (map to_lower b)

-- min(LALL, max(LFATAL, level))
abbrev pub clamp : ℤ → ℕ
clamp (pos n) = min all_level n
clamp (negsuc n) = 0

pub set_level : Logger → ℤ → Logger
set_level l level = record l { level = clamp level }

-- The loop over the names, from index `i` on; INFO where it finds none.
pub find_level : ℕ → List (List ℕ) → List ℕ → ℕ
find_level i [] name = info_level
find_level i (s ∷ ss) name = if same_case name s then i else find_level (i + 1) ss name

-- setLogLevel(const string&)
pub set_level_name : Logger → List ℕ → Logger
unfolding set_level find_level
set_level_name l name = set_level l (pos (find_level 0 level_str name))

-- getLogLevelStr
pub get_level_str : Logger → List ℕ
get_level_str l = get_or level_str l.level []

-- adjustLogLevel
pub adjust_level : Logger → ℤ → Logger
unfolding set_level
adjust_level l adjust = set_level l (pos l.level +ℤ adjust)

pub set_rotate_interval : Logger → ℤ → Logger
set_rotate_interval l interval = record l { rotate_interval = interval }

-- snprintf at an offset of a buffer of `size` cells; behind the buffer its size would be huge.
abbrev pub print_at : ℕ → List Cell → ℕ → List ℕ → Option (List Cell)
print_at size buf at text =
    if leb (at + 1) size
    then some (write_at buf at (map some (take (size - at - 1) text ++ 0 ∷ [])))
    else if at == size
    then some buf
    else none

abbrev pub is_newline : Cell → Bool
is_newline none = false
is_newline (some c) = c == 10

-- while(*--pb == '\n'); where it stops; nothing where it leaves the buffer.
pub last_char : List Cell → ℕ → Option ℕ
last_char buf zero = none
last_char buf (suc i) =
    let before = last_char buf i in if is_newline (get_or buf i none) then before else some i

-- The line that ends behind its last character, with its newline: what `write` is given.
abbrev pub close_line : List Cell → Option ℕ → Option (List Cell)
close_line buf none = none
close_line buf (some i) = some (take (i + 2) (write_at buf (i + 1) (some 10 ∷ some 0 ∷ [])))

abbrev pub end_line : ℕ → ℕ → Option (List Cell) → Option (List Cell)
unfolding last_char
end_line size at none = none
end_line size at (some buf) = close_line buf (last_char buf (min at (size - 2)))

-- The line that logv writes, in a buffer of `size` cells; nothing where it leaves the buffer.
pub log_line : ℕ → List ℕ → List ℕ → Option (List Cell)
unfolding last_char
log_line size prefix body =
    end_line size (length prefix + length body)
      (print_at size (printed size prefix (replicate size none)) (length prefix) body)

abbrev pub buffer_size : ℕ
buffer_size = 4 * 1024

-- The quotient of two longs, towards 0; nothing where the divisor is 0.
abbrev pub quotient : ℤ → ℤ → Option ℤ
quotient a (pos zero) = none
quotient (pos a) (pos (suc b)) = some (pos (a / suc b))
quotient (negsuc a) (pos (suc b)) = some (neg (pos (suc a / suc b)))
quotient (pos a) (negsuc b) = some (neg (pos (a / suc b)))
quotient (negsuc a) (negsuc b) = some (pos (suc a / suc b))

abbrev pub same_int : ℤ → ℤ → Bool
same_int (pos a) (pos b) = a == b
same_int (negsuc a) (negsuc b) = a == b
same_int _ _ = false

-- Whether two quotients are equal; nothing where one divides by 0.
abbrev pub same_quotient : Option ℤ → Option ℤ → Option Bool
same_quotient (some a) (some b) = some (same_int a b)
same_quotient _ _ = none

abbrev pub is_empty : List ℕ → Bool
is_empty [] = true
is_empty (_ ∷ _) = false

-- What maybeRotate does to the files: nothing, only a failing rename, a rename and a failing open,
-- or a rename and a new file behind the same descriptor.
pub data Files : Type 0 where
  untouched rename_failed open_failed reopened : Files

-- The end of maybeRotate, given whether rename succeeds, and the result of open.
abbrev pub replace_file : Bool → ℤ → Files
replace_file false fd = rename_failed
replace_file true (negsuc n) = open_failed
replace_file true (pos n) = reopened

abbrev pub rotate_real : Logger → ℤ → Bool → ℤ → Option Bool → Option (Logger × Files)
rotate_real l old renamed fd none = none
rotate_real l old renamed fd (some true) = some (l, untouched)
rotate_real l old renamed fd (some false) = some (l, replace_file renamed fd)

-- What logv returns, of what maybeRotate does and the line.
abbrev pub with_line :
    Option (Logger × Files) → Option (List Cell) → Option (Logger × Option (List Cell))
with_line none line = none
with_line (some (l, f)) none = none
with_line (some (l, f)) (some line) = some (l, some line)

module _ (timezone : ℤ) where
  -- Whether two times fall into one interval.
  abbrev pub same_period : Logger → ℤ → ℤ → Option Bool
  same_period l a b =
      same_quotient (quotient (a -ℤ timezone) l.rotate_interval)
        (quotient (b -ℤ timezone) l.rotate_interval)

  -- `m_realRotate.exchange(now)`, and the second test, with the new m_lastRotate.
  abbrev pub rotate_last : Logger → ℤ → Bool → ℤ → Option Bool → Option (Logger × Files)
  rotate_last l now renamed fd none = none
  rotate_last l now renamed fd (some true) = some (l, untouched)
  rotate_last l now renamed fd (some false) =
      let l' : Logger = record l { last_rotate = now; real_rotate = now } in
      rotate_real l' l.real_rotate renamed fd (same_period l l.real_rotate now)

  pub maybe_rotate : Logger → ℤ → Bool → ℤ → Option (Logger × Files)
  maybe_rotate l now renamed fd =
      if is_empty l.filename
      then some (l, untouched)
      else rotate_last l now renamed fd (same_period l now l.last_rotate)

  -- logv, given the texts and what maybeRotate meets: the line, where one is written.
  pub logv : Logger → ℕ → List ℕ → List ℕ → ℤ → Bool → ℤ → Option (Logger × Option (List Cell))
  unfolding maybe_rotate log_line
  logv l level prefix body now renamed fd =
      if ltb l.level level
      then some (l, none)
      else with_line (maybe_rotate l now renamed fd) (log_line buffer_size prefix body)

  -- The macro hlog.
  pub hlog : Logger → ℕ → List ℕ → List ℕ → ℤ → Bool → ℤ → Option (Logger × Option (List Cell))
  unfolding logv
  hlog l level prefix body now renamed fd =
      if ltb level l.level then logv l level prefix body now renamed fd else some (l, none)

-- setFileName, given the results of open and dup2: the descriptor that writes to the new file.
pub set_file_name : Logger → List ℕ → ℤ → Logger
set_file_name l name fd =
    if is_neg fd
    then l
    else record l { filename = name; fd = if same_int l.fd (negsuc 0) then fd else l.fd }
