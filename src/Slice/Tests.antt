-- ===== src/Slice/Tests.antt =====
-- Runs of the slices on concrete texts, and their theorems at such runs.

use net_library.Base.{◌≡◌, refl, true, [], ◌∷◌, map, arith, codes}
use net_library.Slice.{
  Slice, of_string, bytes, skip, skip_back, eat_word, trim_space, compare, start_with, end_with,
  split,
}
use net_library.Slice.Scan.{IsValid}
use net_library.Slice.Compare.{IsText, lexicographic, compare-lexicographic}
use net_library.Slice.Split.{Splits, split_lem}

-- The text of the program's own test of slices.
abbrev text : Slice
text = of_string (codes " abc def hij k ")

text-IsValid : IsValid text
text-IsValid = omega arith

text-IsText : IsText text
text-IsText = omega arith

abbrev word : Slice
word = of_string (codes " abc")

word-IsText : IsText word
word-IsText = omega arith

abbrev tail : Slice
tail = of_string (codes " k ")

eat_word_runs : bytes (eat_word text).0 ≡ codes "abc"
unfolding eat_word skip
eat_word_runs = refl

trim_space_runs : bytes (trim_space text) ≡ codes "abc def hij k"
unfolding trim_space skip skip_back
trim_space_runs = refl

split_runs : map bytes (split tail b' ') ≡ [] ∷ codes "k" ∷ []
unfolding split
split_runs = refl

start_with_runs : (start_with text word ≡ true) × (end_with text tail ≡ true)
unfolding start_with end_with
start_with_runs = (refl, refl)

compare-lexicographic_example : compare text word ≡ lexicographic (bytes text) (bytes word)
compare-lexicographic_example = compare-lexicographic text-IsText word-IsText

split_lem_example : Splits b' ' (bytes text) (split text b' ')
split_lem_example = split_lem b' ' text-IsValid
