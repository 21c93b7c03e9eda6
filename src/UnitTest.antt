-- ===== src/UnitTest.antt =====
-- UnitTest.h: the registry of tests and the assertions, and main of main.cpp, which runs tests.
--
-- A test is a function on the state `S` of the program that it tests; it returns or ends the program.
-- A text is a list of characters. `Line` is what is written to cout, and `shown` what operator<< writes
-- of a value.
pub mod Running
pub mod Asserting
mod Tests
use net_library.Base.{
  ℕ, ◌+◌, Bool, true, false, not, Option, none, some, List, [], ◌∷◌, ◌++◌, same, if◌then◌else◌,
}

abbrev pub Text : Type 0
Text = List ℕ

-- How a test ends: it returns, or exit(1) ends the program.
pub data Ended (S : Type 0) : Type 0 where
  returned exited : S → Ended S

pub record Test (S : Type 0) : Type 0 where
  pub name : Text
  pub func : S → Ended S

pub data Line : Type 0 where
  testing : Text → Line
  passed : ℕ → Line

-- What RunAllTests does: it ends with what it has written, or reads through the null pointer `tests`.
pub data Run (S : Type 0) : Type 0 where
  ran : List Line → Ended S → Run S
  null_tests : Run S

module _ {S : Type 0} where
  abbrev pub or_empty : Option (List (Test S)) → List (Test S)
  or_empty none = []
  or_empty (some tests) = tests

  -- RegisterTest; `none` is the null pointer.
  pub register_test : Option (List (Test S)) → Text → (S → Ended S) → Option (List (Test S))
  register_test tests name func = some (or_empty tests ++ record { name = name; func = func } ∷ [])

  -- Not `continue`: no name is asked for, or it is that of the test.
  abbrev pub is_match : Option Text → Test S → Bool
  is_match none t = true
  is_match (some name) t = same t.name name

  -- A test is run, and `rest` follows where it returns.
  abbrev pub run_test : (S → ℕ → Run S) → Test S → ℕ → List Line → Ended S → Run S
  run_test rest t nums written (returned s) = rest s (nums + 1)
  run_test rest t nums written (exited s) = ran written (exited s)

  -- The loop of RunAllTests; `written` are the lines so far.
  pub run_loop : Option Text → List (Test S) → S → ℕ → List Line → Run S
  run_loop name [] s nums written = ran (written ++ passed nums ∷ []) (returned s)
  run_loop name (t ∷ tests) s nums written =
      let written' = written ++ testing t.name ∷ [] in
      let run = run_test (λ s' n. run_loop name tests s' n written') t nums written' (t.func s) in
      let skip = run_loop name tests s nums written in if is_match name t then run else skip

  pub run_all_tests : Option (List (Test S)) → Option Text → S → Run S
  unfolding run_loop
  run_all_tests none name s = null_tests
  run_all_tests (some []) name s = ran [] (returned s)
  run_all_tests (some (t ∷ tests)) name s = run_loop name (t ∷ tests) s 0 []

  -- Lines written before.
  abbrev pub behind : List Line → Run S → Run S
  behind written null_tests = null_tests
  behind written (ran lines e) = ran (written ++ lines) e

  abbrev pub and_then : (S → Run S) → Run S → Run S
  and_then rest null_tests = null_tests
  and_then rest (ran lines (exited s)) = ran lines (exited s)
  and_then rest (ran lines (returned s)) = behind lines (rest s)

  -- The loop of main over its arguments, of which there is one at least.
  pub run_args : Option (List (Test S)) → List Text → S → Run S
  unfolding run_all_tests
  run_args tests [] s = ran [] (returned s)
  run_args tests (arg ∷ args) s =
      and_then (λ s'. run_args tests args s') (run_all_tests tests (some arg) s)

  -- main, with the arguments behind the name of the program.
  pub main : Option (List (Test S)) → List Text → S → Run S
  unfolding run_args
  main tests [] s = run_all_tests tests none s
  main tests (arg ∷ args) s = run_args tests (arg ∷ args) s

-- A Tester: whether all was well, and the text of what was not.
pub record Tester : Type 0 where
  pub ok : Bool
  pub ss : Text

-- Tester(f, l)
abbrev pub new_tester : Tester
new_tester = record { ok = true; ss = [] }

-- Is(flag, msg)
pub is : Tester → Bool → Text → Tester
is t flag msg = if flag then t else record { ok = false; ss = t.ss ++ 32 ∷ msg }

-- IsEq(x, y), given whether they are equal and the texts of both.
pub is_eq : Tester → Bool → Text → Text → Tester
is_eq t equal x y = if equal then t else record {
  ok = false;
  ss = t.ss ++ 102 ∷ 97 ∷ 105 ∷ 108 ∷ 32 ∷ [] ++ x ++ 32 ∷ 61 ∷ 61 ∷ 32 ∷ [] ++ y;
}

-- operator<<, of the text of a value.
pub put : Tester → Text → Tester
put t x = if t.ok then t else record t { ss = t.ss ++ 32 ∷ x }

-- ~Tester(): the text of a failure, behind which the program ends.
abbrev pub failure : Tester → Option Text
failure t = if t.ok then none else some t.ss
