-- ===== src/Status.antt =====
-- status.h: an error code with its message, in one array of bytes.
--
-- The array holds its own size, the code and the message, at the offsets 0, 4 and 8; `host` says how
-- integers stand in it. `none` is the null pointer. A code is an `int32_t`. Reading outside the array
-- is a `none` of the result. `strerror` is a parameter, and a message to format is the text that
-- vsnprintf would write in full.
pub mod Layout
mod Tests
use net_library.Base.{
  ℕ, zero, suc, ◌+◌, ◌-◌, ◌^◌, ◌%◌, Bool, true, false, Option, none, some, List, [], ◌∷◌, ◌++◌,
  length, take, drop, ◌==◌, ltb, if◌then◌else◌,
}
use net_library.Base.Endian.{Endian, store, load, signed_32, pattern_32}
use net_library.Base.Int.{ℤ, pos, negsuc, ◌+ℤ◌}

pub record Status : Type 0 where
  pub state : Option (List ℕ)

-- Status()
abbrev pub ok_status : Status
ok_status = record { state = none }

abbrev pub is_zero : ℤ → Bool
is_zero (pos zero) = true
is_zero _ = false

-- The characters of a `const char*` up to its zero.
abbrev pub c_string : List ℕ → Option (List ℕ)
c_string [] = none
c_string (zero ∷ cs) = some []
c_string (suc c ∷ cs) = elim (c_string cs) [ none ↦ none | some s ↦ some (suc c ∷ s) ]

module _ (host : Endian) where
  -- `*(uint32_t*)res = sz`, `*(int32_t*)(res + 4) = code`, and what stands at `res + 8`.
  abbrev pub layout : ℕ → ℤ → List ℕ → List ℕ
  layout sz code rest = store host 4 sz ++ (store host 4 (pattern_32 code) ++ rest)

  -- Status(int code, const char* msg)
  pub make : ℤ → List ℕ → Status
  make code msg = record { state = some (layout ((length msg + 8) % 2 ^ 32) code msg) }

  -- The int that vsnprintf returns for a text of this length: negative where an int does not hold it.
  abbrev pub printed : ℕ → ℤ
  printed n = if ltb n (2 ^ 31) then pos n else negsuc 0

  -- What vsnprintf writes into so many bytes: what fits, and a zero; nothing into none.
  abbrev pub written : ℕ → List ℕ → List ℕ
  written room text = if room == 0 then [] else take (room - 1) text ++ 0 ∷ []

  pub from_format : ℤ → List ℕ → Status
  from_format code text =
      let sz = pattern_32 (printed (length text) +ℤ pos 9) in
      record { state = some (layout sz code (written (sz - 8) text)) }

  -- copyState: as many bytes as the array says it has.
  pub copy_state : Option (List ℕ) → Option (List ℕ)
  copy_state none = none
  copy_state (some bytes) = some (take (load host (take 4 bytes)) bytes)

  -- Status(const Status&) and `operator =`.
  pub copy : Status → Status
  unfolding copy_state
  copy s = record { state = copy_state s.state }

  -- Status(Status&&): the new one, and what is left of the other.
  pub move : Status → Status × Status
  move s = (s, record { state = none })

  abbrev pub code_of : Option (List ℕ) → ℤ
  code_of none = pos 0
  code_of (some bytes) = signed_32 (load host (take 4 (drop 4 bytes)))

  unfoldable pub code : Status → ℤ
  code s = code_of s.state

  abbrev pub msg_of : Option (List ℕ) → Option (List ℕ)
  msg_of none = some []
  msg_of (some bytes) = c_string (drop 8 bytes)

  pub msg : Status → Option (List ℕ)
  msg s = msg_of s.state

  unfoldable pub is_ok : Status → Bool
  unfolding code
  is_ok s = is_zero (code s)

  module _ (strerror : ℤ → List ℕ) where
    -- fromSystem(), given `errno`
    pub from_system : ℤ → Status
    unfolding make
    from_system errno = make errno (strerror errno)

    -- ioError: "%s %s %s"
    pub io_error : ℤ → List ℕ → List ℕ → Status
    unfolding from_format
    io_error errno op name = from_format errno (op ++ (32 ∷ (name ++ (32 ∷ strerror errno))))
