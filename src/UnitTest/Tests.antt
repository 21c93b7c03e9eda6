-- ===== src/UnitTest/Tests.antt =====
-- UnitTest.h: concrete runs.
use net_library.Base.{ℕ, ◌+◌, ◌≡◌, refl, none, some, List, [], ◌∷◌, ◌++◌, length}
use net_library.UnitTest.{
  Ended, returned, exited, Test, Line, testing, passed, ran, null_tests, register_test,
  run_all_tests, run_args, run_loop, main,
}
use net_library.UnitTest.Running.{Ends, Selects, last_line, run_all_tests-Ends}

-- Two tests of one name that count, and one that ends the program.
abbrev counting : Test ℕ
counting = record { name = 97 ∷ []; func = λ n. returned (n + 1) }

abbrev failing : Test ℕ
failing = record { name = 98 ∷ []; func = λ n. exited n }

run_all_tests-Ends_example :
    (chosen : List (Test ℕ)) × Selects none (counting ∷ failing ∷ counting ∷ []) chosen
    × (lines : List Line) × (e : Ended ℕ) × Ends chosen 0 lines e
    × (run_all_tests (some (counting ∷ failing ∷ counting ∷ [])) none 0
        ≡ ran (lines ++ last_line (length lines) e) e)
run_all_tests-Ends_example = run_all_tests-Ends none counting (failing ∷ counting ∷ []) 0

-- All of them: the second one ends the program.
all_example :
    run_all_tests (some (counting ∷ failing ∷ counting ∷ [])) none 0
    ≡ ran (testing (97 ∷ []) ∷ testing (98 ∷ []) ∷ []) (exited 1)
unfolding run_all_tests run_loop
all_example = refl

-- Those of one name, asked for twice.
twice_example :
    main (some (counting ∷ failing ∷ counting ∷ [])) ((97 ∷ []) ∷ (97 ∷ []) ∷ []) 0
    ≡ ran
        (testing (97 ∷ [])
          ∷ testing (97 ∷ [])
          ∷ passed 2
          ∷ testing (97 ∷ [])
          ∷ testing (97 ∷ [])
          ∷ passed 2
          ∷ [])
        (returned 4)
unfolding main run_args run_all_tests run_loop
twice_example = refl

-- Without a test that is registered, `tests` is null.
none_example : main {S = ℕ} none [] 0 ≡ null_tests
unfolding main run_all_tests
none_example = refl

registered_example :
    register_test (register_test none (97 ∷ []) counting.func) (98 ∷ []) failing.func
    ≡ some (counting ∷ failing ∷ [])
unfolding register_test
registered_example = refl
