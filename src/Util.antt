-- ===== src/Util.antt =====
-- util.h, util.cc: formatting, times and numbers.
--
-- `text` is what vsnprintf would write in full, of characters none of which is 0, and nothing where
-- it fails. A buffer is a list of cells, of which `none` is not initialised. The clocks' microseconds
-- and the results of strtol and fcntl are parameters.
pub mod Format
mod Tests
use net_library.Base.{
  ℕ, zero, suc, ◌+◌, ◌-◌, ◌/◌, Bool, true, false, Option, none, some, List, [], ◌∷◌, ◌++◌, map,
  length, take, write_at, replicate, leb, ◌==◌, if◌then◌else◌,
}
use net_library.Base.Int.{ℤ, negsuc}

abbrev pub Cell : Type 0
Cell = Option ℕ

-- vsnprintf(p, size, ...) into a buffer of `size` cells, with the terminating zero.
abbrev pub printed : ℕ → List ℕ → List Cell → List Cell
printed zero text buf = buf
printed (suc n) text buf = write_at buf 0 (map some (take n text ++ 0 ∷ []))

-- string(base): the characters before the first 0; nothing where this leaves the buffer, or reads
-- a cell that is not initialised.
abbrev pub c_string : List Cell → Option (List ℕ)
c_string [] = none
c_string (none ∷ cs) = none
c_string (some zero ∷ cs) = some []
c_string (some (suc c) ∷ cs) = elim (c_string cs) [ none ↦ none | some s ↦ some (suc c ∷ s) ]

-- `*p = '\0'` at the last cell.
abbrev pub close_last : ℕ → List Cell → List Cell
close_last size buf = write_at buf (size - 1) (some 0 ∷ [])

-- The buffer of round `i` of the loop of `format`.
abbrev pub buffer_size : ℕ → ℕ
buffer_size zero = 10
buffer_size (suc i) = 1000

-- A round of the loop, in a fresh buffer: what it leaves there, where it is the last one.
pub format_round : ℕ → Option (List ℕ) → Option (List Cell)
format_round i none = some (replicate (buffer_size i) none)
format_round i (some text) =
    let buf = printed (buffer_size i) text (replicate (buffer_size i) none) in
    if leb (buffer_size i) (length text)
    then (if i == 0 then none else some (close_last (buffer_size i) buf))
    else some buf

-- The string in the buffer of the last round.
abbrev pub string_of : Option (List Cell) → Option (List ℕ) → Option (List ℕ)
string_of (some buf) again = c_string buf
string_of none again = again

-- The loop, of two rounds.
pub format : Option (List ℕ) → Option (List ℕ)
unfolding format_round
format text = string_of (format_round 0 text) (string_of (format_round 1 text) none)

-- timeMilli() and steadyMilli(), from the microseconds of their clocks, which are not negative.
pub milli : ℕ → ℕ
milli micro = micro / 1000

-- strtol in base 10: the number, and how many characters it read.
module _ (strtol : List ℕ → ℤ × ℕ) where
  pub atoi : List ℕ → ℤ
  atoi b = (strtol b).0

  -- strtol writes the end into `e`, to which `ne` goes on pointing: the test is always true.
  pub atoi2 : List ℕ → ℤ
  atoi2 b = if true then (strtol b).0 else negsuc 0

  -- atoi(const char*), whose text ends where it ends.
  pub atoi_text : List ℕ → ℤ
  unfolding atoi
  atoi_text b = atoi b

-- readableTime, of what its format makes of the local time.
pub readable_time : Option (List ℕ) → Option (List ℕ)
unfolding format
readable_time text = format text

-- addFdFlag, given what F_GETFD gives, how the flag is set in it, and what F_SETFD gives; a failing
-- F_GETFD is not told from flags.
pub add_fd_flag : ℤ → (ℤ → ℤ) → (ℤ → ℤ) → ℤ
add_fd_flag ret with_flag set_flags = set_flags (with_flag ret)
