-- ===== src/Base/Bytes.antt =====
-- What the program takes from <ctype.h> and <string.h>, in the C locale, on bytes.
use Prim.Native.Nat.{ℕ, zero, suc, ◌+◌}
use mathlib.Core.Bool.{Bool, true, false, ◌&&◌, ◌||◌}
use mathlib.Core.List.{List, [], ◌∷◌}
use mathlib.Core.Path.{◌≡◌, refl, ap₂}
use Prim.Native.Char.{code}
use Prim.Native.String.{String}
use net_library.Base.Tests.{ltb, leb, ◌==◌, if◌then◌else◌, ==_iff, &&-true}

-- Space, and the characters from tab to carriage return.
abbrev pub is_space : ℕ → Bool
is_space c = c == 32 || (leb 9 c && leb c 13)

abbrev pub to_lower : ℕ → ℕ
to_lower c = if leb 65 c && leb c 90 then c + 32 else c

-- The sign of the result of memcmp, strcmp and their like.
pub data Sign : Type 0 where
  less equal greater : Sign

-- memcmp of two blocks of one length.
abbrev pub memcmp : List ℕ → List ℕ → Sign
memcmp [] ys = equal
memcmp (x ∷ xs) [] = equal
memcmp (x ∷ xs) (y ∷ ys) = if ltb x y then less else if ltb y x then greater else memcmp xs ys

-- The bytes of an ASCII text.
abbrev pub codes : String → List ℕ
codes String.[] = []
codes (String.◌∷◌ c s) = code c ∷ codes s

-- A text without the zero that ends it in memory.
abbrev pub HasNoZero : List ℕ → Type 0
HasNoZero [] = Unit
HasNoZero (zero ∷ cs) = ⊥
HasNoZero (suc c ∷ cs) = HasNoZero cs

-- The operator == of two texts.
abbrev pub same : List ℕ → List ℕ → Bool
same [] [] = true
same (a ∷ x) (b ∷ y) = a == b && same x y
same _ _ = false

pub same_refl : (x : List ℕ) → same x x ≡ true
same_refl [] = refl
same_refl (a ∷ x) = rw ((==_iff a a).1 refl) (same_refl x)

pub same→eq : (x y : List ℕ) → same x y ≡ true → x ≡ y
same→eq [] [] h = refl
same→eq [] (b ∷ y) h = cc
same→eq (a ∷ x) [] h = cc
same→eq (a ∷ x) (b ∷ y) h =
    let e = &&-true (a == b) (same x y) h in
    ap₂ (λ c z. c ∷ z) ((==_iff a b).0 e.0) (same→eq x y e.1)
