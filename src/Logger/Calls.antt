-- ===== src/Logger/Calls.antt =====
-- logging.h, logging.cc: the macros that write to the log, and what else there is of a Logger.
use net_library.Base.{
  ℕ, ◌≡◌, refl, Bool, true, false, Option, none, some, List, arith, if◌then◌else◌, ltb,
}
use net_library.Base.Int.{ℤ, negsuc}
use net_library.Logger.{Logger, Cell, hlog, same_int}

-- LFATAL, LERROR
abbrev fatal_level : ℕ
fatal_level = 0

abbrev error_level : ℕ
error_level = 1

pub get_log_level : Logger → ℕ
get_log_level l = l.level

pub get_fd : Logger → ℤ
get_fd l = l.fd

-- ~Logger(): the descriptor that it closes, where there is one.
pub destroy : Logger → Option ℤ
destroy l = if same_int l.fd (negsuc 0) then none else some l.fd

-- The logger and the line that is written, where one is, or a fault.
abbrev pub Logged : Type 0
Logged = Option (Logger × Option (List Cell))

-- What exitif does: the program goes on, or it ends once the line is written.
pub data Checked : Type 0 where
  goes_on : Logger → Checked
  exits : Logged → Checked

module _ (timezone : ℤ) (prefix body : List ℕ) (now : ℤ) (renamed : Bool) (fd : ℤ) where
  pub fatal : Logger → Logged
  unfolding hlog
  fatal l = hlog timezone l fatal_level prefix body now renamed fd

  pub error : Logger → Logged
  unfolding hlog
  error l = hlog timezone l error_level prefix body now renamed fd

  pub fatal_if : Bool → Logger → Logged
  unfolding fatal
  fatal_if b l = let line = fatal l in if b then line else some (l, none)

  pub exit_if : Bool → Logger → Checked
  unfolding error
  exit_if b l = let line = error l in if b then exits line else goes_on l

  -- With the log at FATAL, whatever happens, fatalif writes nothing, and the program goes on as if its
  -- condition did not hold.
  pub fatal_if-silent :
      (b : Bool) (l : Logger) → get_log_level l ≡ fatal_level → fatal_if b l ≡ some (l, none)
  unfolding fatal_if fatal hlog get_log_level
  fatal_if-silent true l e =
      let silent : ltb 0 l.level ≡ false = ground (arith, e) in rw silent refl
  fatal_if-silent false l e = refl
