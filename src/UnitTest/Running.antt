-- ===== src/UnitTest/Running.antt =====
-- UnitTest.h: which tests RunAllTests runs.
use net_library.Base.{
  ℕ, ◌+◌, ◌≡◌, refl, ap, ap₂, sym, ◌∙◌, true, false, Option, none, some, same, same_refl, same→eq,
  subst, List, [], ◌∷◌, ◌++◌, inl, inr, arith, length, append_assoc, append-nil, Bool-cases,
  if◌then◌else◌,
}
use net_library.UnitTest.{
  Text, Ended, returned, exited, Test, Line, testing, passed, Run, ran, is_match, run_test,
  run_loop, run_all_tests,
}

module _ {S : Type 0} where
  -- No name is asked for, or it is that of the test.
  abbrev pub AsksFor : Option Text → Test S → Type 0
  AsksFor none t = Unit
  AsksFor (some name) t = t.name ≡ name

  -- Of a list of tests, those that are asked for, in their order.
  pub data Selects (name : Option Text) : List (Test S) → List (Test S) → Type 0 where
    ends : Selects name [] []
    chooses :
        (t : Test S) (tests chosen : List (Test S))
        → AsksFor name t
        → Selects name tests chosen
        → Selects name (t ∷ tests) (t ∷ chosen)
    passes :
        (t : Test S) (tests chosen : List (Test S))
        → ¬ AsksFor name t
        → Selects name tests chosen
        → Selects name (t ∷ tests) chosen

  -- The tests that the loop runs.
  abbrev selected : Option Text → List (Test S) → List (Test S)
  selected name [] = []
  selected name (t ∷ tests) =
      let rest = selected name tests in if is_match name t then t ∷ rest else rest

  -- Tests that are run one after the other from a state: the lines with their names, and how it ends.
  pub data Ends : List (Test S) → S → List Line → Ended S → Type 0 where
    no_more : (s : S) → Ends [] s [] (returned s)
    goes_on :
        (t : Test S) (tests : List (Test S)) (s s1 : S) (lines : List Line) (e : Ended S)
        → t.func s ≡ returned s1
        → Ends tests s1 lines e
        → Ends (t ∷ tests) s (testing t.name ∷ lines) e
    stops :
        (t : Test S) (tests : List (Test S)) (s s1 : S)
        → t.func s ≡ exited s1
        → Ends (t ∷ tests) s (testing t.name ∷ []) (exited s1)

  -- Where the program has not ended, the number of the tests that were run.
  abbrev pub last_line : ℕ → Ended S → List Line
  last_line nums (returned s) = passed nums ∷ []
  last_line nums (exited s) = []

  selected_here :
      (name : Option Text) (t : Test S) (tests : List (Test S))
      → is_match name t ≡ true
      → selected name (t ∷ tests) ≡ t ∷ selected name tests
  selected_here name t tests m = rw m refl

  selected_skip :
      (name : Option Text) (t : Test S) (tests : List (Test S))
      → is_match name t ≡ false
      → selected name (t ∷ tests) ≡ selected name tests
  selected_skip name t tests m = rw m refl

  match-AsksFor : (name : Option Text) (t : Test S) → is_match name t ≡ true → AsksFor name t
  match-AsksFor none t m = tt
  match-AsksFor (some name) t m = same→eq t.name name m

  no_match-AsksFor : (name : Option Text) (t : Test S) → is_match name t ≡ false → ¬ AsksFor name t
  no_match-AsksFor none t m a = absurd (ground (arith, m))
  no_match-AsksFor (some name) t m a =
      let q : same t.name name ≡ true = subst (λ x. same t.name x ≡ true) a (same_refl t.name) in
      absurd (ground (arith, m, q))

  selected-Selects :
      (name : Option Text) (tests : List (Test S)) → Selects name tests (selected name tests)
  selected-Selects name [] = ends
  selected-Selects name (t ∷ tests) = elim (Bool-cases (is_match name t)) [
    | inl m ↦
        subst (λ r. Selects name (t ∷ tests) r) (sym (selected_here name t tests m))
          (chooses t tests (selected name tests) (match-AsksFor name t m)
            (selected-Selects name tests))
    | inr m ↦
        subst (λ r. Selects name (t ∷ tests) r) (sym (selected_skip name t tests m))
          (passes t tests (selected name tests) (no_match-AsksFor name t m)
            (selected-Selects name tests))
  ]

  -- The loop runs the selected tests, whichever those are.
  run_selected : List (Test S) → S → ℕ → List Line → Run S
  run_selected [] s nums written = ran (written ++ passed nums ∷ []) (returned s)
  run_selected (t ∷ tests) s nums written =
      run_test (λ s' n. run_selected tests s' n (written ++ testing t.name ∷ [])) t nums
        (written ++ testing t.name ∷ []) (t.func s)

  run_test_same :
      (f g : S → ℕ → Run S) (t : Test S) (nums : ℕ) (written : List Line) (e : Ended S)
      → ((s : S) (n : ℕ) → f s n ≡ g s n)
      → run_test f t nums written e ≡ run_test g t nums written e
  run_test_same f g t nums written (returned s) h = h s (nums + 1)
  run_test_same f g t nums written (exited s) h = refl

  run_loop-selected :
      (name : Option Text) (tests : List (Test S)) (s : S) (nums : ℕ) (written : List Line)
      → run_loop name tests s nums written ≡ run_selected (selected name tests) s nums written
  unfolding run_loop run_selected
  run_loop-selected name [] s nums written = refl
  run_loop-selected name (t ∷ tests) s nums written = elim (Bool-cases (is_match name t)) [
    | inl m ↦ rw m (
        run_test_same _ _ t nums (written ++ testing t.name ∷ []) (t.func s)
          (λ s' n. run_loop-selected name tests s' n (written ++ testing t.name ∷ [])))
    | inr m ↦ rw m (run_loop-selected name tests s nums written)
  ]

  run_selected-Ends :
      (tests : List (Test S)) (s : S) (lines : List Line) (e : Ended S) (nums : ℕ)
      (written : List Line)
      → Ends tests s lines e
      → run_selected tests s nums written
        ≡ ran (written ++ lines ++ last_line (nums + length lines) e) e
  unfolding run_selected
  run_selected-Ends _ _ _ _ nums written (no_more s) =
      ap₂ (λ (l : List Line) (n : ℕ). ran (l ++ passed n ∷ []) (returned s))
        (sym (append-nil written)) (omega arith)
  run_selected-Ends _ _ _ _ nums written (goes_on t rest s s1 after e f h) = rw f (
      run_selected-Ends rest s1 after e (nums + 1) (written ++ testing t.name ∷ []) h
      ∙ ap₂ (λ (l : List Line) (n : ℕ). ran (l ++ last_line n e) e)
          (append_assoc written (testing t.name ∷ []) after) (omega arith))
  run_selected-Ends _ _ _ _ nums written (stops t rest s s1 f) =
      rw f (ap (λ l. ran l (exited s1)) (sym (append-nil (written ++ testing t.name ∷ []))))

  Ends-first :
      (t : Test S) (tests : List (Test S)) (s : S) (r : Ended S)
      → t.func s ≡ r
      → ((s1 : S) → (lines : List Line) × (e : Ended S) × Ends tests s1 lines e)
      → (lines : List Line) × (e : Ended S) × Ends (t ∷ tests) s lines e
  Ends-first t tests s (returned s1) f later =
      let (lines, e, h) = later s1 in (testing t.name ∷ lines, e, goes_on t tests s s1 lines e f h)
  Ends-first t tests s (exited s1) f later = (testing t.name ∷ [], exited s1, stops t tests s s1 f)

  Ends-total :
      (tests : List (Test S)) (s : S) → (lines : List Line) × (e : Ended S) × Ends tests s lines e
  Ends-total [] s = ([], returned s, no_more s)
  Ends-total (t ∷ tests) s = Ends-first t tests s (t.func s) refl (λ s1. Ends-total tests s1)

  -- RunAllTests, with at least one test registered, runs those tests whose name is asked for, or all,
  -- in the order in which they were registered, writes the name of each before it runs, and ends with
  -- the first that ends the program; where none does, it writes their number.
  pub run_all_tests-Ends :
      (name : Option Text) (t : Test S) (tests : List (Test S)) (s : S)
      → (chosen : List (Test S)) × Selects name (t ∷ tests) chosen
        × (lines : List Line) × (e : Ended S) × Ends chosen s lines e
        × (run_all_tests (some (t ∷ tests)) name s ≡ ran (lines ++ last_line (length lines) e) e)
  unfolding run_all_tests
  run_all_tests-Ends name t tests s =
      let (lines, e, h) = Ends-total (selected name (t ∷ tests)) s in
      (
        selected name (t ∷ tests),
        selected-Selects name (t ∷ tests),
        lines,
        e,
        h,
        run_loop-selected name (t ∷ tests) s 0 []
            ∙ run_selected-Ends (selected name (t ∷ tests)) s lines e 0 [] h
            ∙ ap (λ n. ran (lines ++ last_line n e) e) (omega arith),
      )
