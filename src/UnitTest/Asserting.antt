-- ===== src/UnitTest/Asserting.antt =====
-- UnitTest.h: when an assertion ends the program.
use net_library.Base.{
  ◌≡◌, ◌↔◌, refl, ap, sym, subst, if◌then◌else◌, ◌∙◌, Bool, true, false, ◌&&◌, Option, none, some,
  List, [], ◌∷◌, arith,
}
use net_library.UnitTest.{Text, Tester, new_tester, is, is_eq, put, failure}

-- The calls of one assertion.
pub data Check : Type 0 where
  checks : Bool → Text → Check
  compares : Bool → Text → Text → Check
  puts : Text → Check

abbrev pub check : Tester → Check → Tester
check t (checks flag msg) = is t flag msg
check t (compares equal x y) = is_eq t equal x y
check t (puts x) = put t x

abbrev pub check_all : Tester → List Check → Tester
check_all t [] = t
check_all t (c ∷ cs) = check_all (check t c) cs

abbrev pub holds : Check → Bool
holds (checks flag msg) = flag
holds (compares equal x y) = equal
holds (puts x) = true

abbrev pub all_hold : List Check → Bool
all_hold [] = true
all_hold (c ∷ cs) = holds c && all_hold cs

check-ok :
    (ok : Bool) (ss : Text) (c : Check)
    → (check (record { ok = ok; ss = ss }) c).ok ≡ (ok && holds c)
unfolding is is_eq put
check-ok true ss (checks true msg) = refl
check-ok true ss (checks false msg) = refl
check-ok true ss (compares true x y) = refl
check-ok true ss (compares false x y) = refl
check-ok true ss (puts x) = refl
check-ok false ss (checks true msg) = refl
check-ok false ss (checks false msg) = refl
check-ok false ss (compares true x y) = refl
check-ok false ss (compares false x y) = refl
check-ok false ss (puts x) = refl

and_true : (a : Bool) → (a && true) ≡ a
and_true true = refl
and_true false = refl

and_assoc : (a b c : Bool) → ((a && b) && c) ≡ (a && (b && c))
and_assoc true b c = refl
and_assoc false b c = refl

check_all-ok : (t : Tester) (cs : List Check) → (check_all t cs).ok ≡ (t.ok && all_hold cs)
check_all-ok t [] = sym (and_true t.ok)
check_all-ok t (c ∷ cs) =
    check_all-ok (check t c) cs
    ∙ ap (λ b. b && all_hold cs) (check-ok t.ok t.ss c)
    ∙ and_assoc t.ok (holds c) (all_hold cs)

abbrev is_none : Option Text → Bool
is_none none = true
is_none (some x) = false

some-none : (x : Text) → some x ≡ none → ⊥
some-none x h = let e : false ≡ true = ap is_none h in ground (arith, e)

failure_on : (t : Tester) (b : Bool) → t.ok ≡ b → (failure t ≡ none) ↔ (b ≡ true)
failure_on t true e = (λ h. refl, λ h. rw e refl)
failure_on t false e = (
  λ h. absurd (some-none t.ss (subst (λ b. (if b then none else some t.ss) ≡ none) e h)),
  λ h. absurd (ground (arith, h)),
)

-- The destructor of a Tester leaves the program running exactly if all conditions of the assertion
-- hold, whatever is written to it besides.
pub check_all-failure_iff :
    (cs : List Check) → (failure (check_all new_tester cs) ≡ none) ↔ (all_hold cs ≡ true)
check_all-failure_iff cs =
    failure_on (check_all new_tester cs) (all_hold cs) (check_all-ok new_tester cs)
