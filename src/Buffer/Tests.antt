-- ===== src/Buffer/Tests.antt =====
-- Runs of the buffer on concrete bytes, and its theorems at such runs.
use net_library.Base.{
  ℕ, ◌≡◌, refl, ◌<◌, Bool, true, false, none, some, List, [], ◌∷◌, ◌++◌, map, arith, ltb, ltb→lt,
}
use net_library.Buffer.{Buffer, Cell, init, contents, consume, append, assign}
use net_library.Buffer.Inv.{IsValid, max_array}
use net_library.Buffer.Append.{Appends, append_lem}
use net_library.Buffer.Copy.{assign_self-not-IsValid}
use net_library.Buffer.Refine.{
  Op, appends, consumes, copies, switches, suggests, reserves_some, absorbs, Holds, steps-Holds,
}
use mathlib.Core.Option

abbrev kilobyte : ℕ → Bool
kilobyte n = ltb n 1024

kilobyte-limit : (n : ℕ) → kilobyte n ≡ true → n < max_array
kilobyte-limit n h = omega (arith, ltb→lt n 1024 h)

abbrev bytes : List ℕ → List Cell
bytes = map (λ n. some n)

-- Five bytes read, two of them consumed.
abbrev used : Buffer
used = record { buf = bytes (1 ∷ 2 ∷ 3 ∷ 4 ∷ 5 ∷ []) ++ none ∷ []; b = 2; e = 5; cap = 6; exp = 4 }

used-IsValid : IsValid used
used-IsValid = omega arith

abbrev small : Buffer
small = record { buf = bytes (7 ∷ 8 ∷ []); b = 0; e = 2; cap = 2; exp = 16 }

small-IsValid : IsValid small
small-IsValid = omega arith

append_runs :
    Option.map contents (append kilobyte used (bytes (6 ∷ 7 ∷ [])))
    ≡ some (bytes (3 ∷ 4 ∷ 5 ∷ 6 ∷ 7 ∷ []))
unfolding append
append_runs = refl

append_refused : append (λ n. false) used (bytes (6 ∷ 7 ∷ [])) ≡ none
unfolding append
append_refused = refl

consume_all : consume used 3 ≡ record init { exp = 4 }
unfolding consume
consume_all = refl

append_lem_example : Appends kilobyte used (bytes (6 ∷ 7 ∷ []))
append_lem_example =
    append_lem kilobyte kilobyte-limit (bytes (6 ∷ 7 ∷ [])) used-IsValid (omega arith)

assign_self-not-IsValid_example :
    (r' : Buffer) × (assign kilobyte used none ≡ some r') × ¬ IsValid r'
assign_self-not-IsValid_example = assign_self-not-IsValid kilobyte used (omega arith)

-- Both buffers are filled, changed and joined.
abbrev ops : List Op
ops =
    appends (bytes (6 ∷ 7 ∷ []))
    ∷ consumes 4
    ∷ copies
    ∷ switches
    ∷ suggests 100
    ∷ reserves_some
    ∷ absorbs
    ∷ []

steps-Holds_example : Holds kilobyte (used, small) ops (bytes (7 ∷ 7 ∷ []), [])
steps-Holds_example =
    steps-Holds kilobyte kilobyte-limit ops used small used-IsValid small-IsValid
      (omega arith, (omega arith, (tt, (tt, (tt, (tt, (tt, tt)))))))
