-- ===== src/Logger/Tests.antt =====
-- Runs of the logger, and the theorems about it at concrete data.
use net_library.Base.{◌≡◌, refl, map, true, some, codes, arith, List}
use net_library.Base.Int.{pos}
use net_library.Util.{Cell}
use net_library.Logger.{
  Logger, untouched, reopened, init, set_level_name, log_line, maybe_rotate, find_level, set_level,
}
use net_library.Logger.Line.{log_line_lem}
use net_library.Logger.Rotation.{maybe_rotate-maybe_rotate}

lower_case : (set_level_name (init (pos 0)) (codes "debug")).level ≡ 5
unfolding set_level_name set_level find_level
lower_case = refl

-- A line of ten bytes in which the message is cut, and its newlines are one.
log_line_lem_example :
    log_line 10 (codes "in ") (codes "ab\n\n\n\n") ≡ some (map some (codes "in ab\n"))
log_line_lem_example =
    log_line_lem 8 (codes "in ") (codes "ab\n\n\n\n") (codes "in a") 98 3 (omega arith) refl
      (omega arith)

abbrev info_line : List Cell
info_line = map some (codes "in ab\n")

abbrev named : Logger
named = record (init (pos 0)) { filename = codes "log" }

-- The second call is on the same day as the first.
maybe_rotate-maybe_rotate_example :
    maybe_rotate
      (pos 0)
      (record named { last_rotate = pos 90000; real_rotate = pos 90000 })
      (pos 90001)
      true
      (pos 6)
    ≡ some (record named { last_rotate = pos 90000; real_rotate = pos 90000 }, untouched)
unfolding maybe_rotate
maybe_rotate-maybe_rotate_example =
    maybe_rotate-maybe_rotate (pos 0) named
      (record named { last_rotate = pos 90000; real_rotate = pos 90000 }) (pos 90000) (pos 90001)
      true true (pos 5) (pos 6) reopened refl refl
