-- ===== src/Logger/Level.antt =====
-- logging.cc: the level of the log.
use net_library.Base.{
  ℕ, zero, suc, ◌≤◌, ◌≡◌, refl, ap, ◌∙◌, Bool, false, none, some, List, [], ◌∷◌, min, arith, ltb,
  get_or,
}
use net_library.Base.Int.{ℤ, pos, negsuc, ◌+ℤ◌}
use net_library.Util.{Cell}
use net_library.Logger.{
  Logger, all_level, level_str, clamp, set_level, find_level, set_level_name, get_level_str,
  adjust_level, init, logv, hlog,
}

-- The calls of a client that may change the level.
pub data Setting : Type 0 where
  to_level : ℤ → Setting
  to_name : List ℕ → Setting
  by : ℤ → Setting

abbrev pub set_one : Logger → Setting → Logger
unfolding set_level_name adjust_level
set_one l (to_level z) = set_level l z
set_one l (to_name name) = set_level_name l name
set_one l (by z) = adjust_level l z

abbrev pub set_all : Logger → List Setting → Logger
unfolding set_one
set_all l [] = l
set_all l (c ∷ cs) = set_all (set_one l c) cs

clamp-le : (z : ℤ) → clamp z ≤ all_level
clamp-le (pos n) = omega arith
clamp-le (negsuc n) = omega arith

set-le : (l : Logger) (c : Setting) → (set_one l c).level ≤ all_level
unfolding set_one set_level set_level_name adjust_level
set-le l (to_level z) = clamp-le z
set-le l (to_name name) = clamp-le (pos (find_level 0 level_str name))
set-le l (by z) = clamp-le (pos l.level +ℤ z)

set_all-le :
    (l : Logger) (cs : List Setting) → l.level ≤ all_level → (set_all l cs).level ≤ all_level
unfolding set_all
set_all-le l [] h = h
set_all-le l (c ∷ cs) h = set_all-le (set_one l c) cs (set-le l c)

find_level-get_or : (n : ℕ) → n ≤ all_level → find_level 0 level_str (get_or level_str n []) ≡ n
unfolding find_level
find_level-get_or zero h = refl
find_level-get_or (suc zero) h = refl
find_level-get_or (suc (suc zero)) h = refl
find_level-get_or (suc (suc (suc zero))) h = refl
find_level-get_or (suc (suc (suc (suc zero)))) h = refl
find_level-get_or (suc (suc (suc (suc (suc zero))))) h = refl
find_level-get_or (suc (suc (suc (suc (suc (suc zero)))))) h = refl
find_level-get_or (suc (suc (suc (suc (suc (suc (suc zero))))))) h = refl
find_level-get_or (suc (suc (suc (suc (suc (suc (suc (suc n)))))))) h = absurd (omega arith)

-- After any calls that set the level of a new logger, the level lies between LFATAL and LALL, and its
-- name sets any logger to that level.
pub set_all-get_level_str :
    (now : ℤ) (cs : List Setting) (other : Logger)
    → let l = set_all (init now) cs in
      (l.level ≤ all_level) × ((set_level_name other (get_level_str l)).level ≡ l.level)
unfolding set_level_name set_level get_level_str
set_all-get_level_str now cs other =
    let h = set_all-le (init now) cs (omega arith) in
    (h, ap (λ n. min all_level n) (find_level-get_or _ h) ∙ omega (arith, h))

-- A message of exactly the level that is set is not written by the macros, although logv writes it.
pub hlog-logv :
    (timezone : ℤ) (l l' : Logger) (prefix body : List ℕ) (now : ℤ) (renamed : Bool) (fd : ℤ)
    (line : List Cell)
    → logv timezone l l.level prefix body now renamed fd ≡ some (l', some line)
    → hlog timezone l l.level prefix body now renamed fd ≡ some (l, none)
unfolding hlog
hlog-logv timezone l l' prefix body now renamed fd line h =
    let e : ltb l.level l.level ≡ false = ground arith in rw e
