-- ===== src/Conf/Tests.antt =====
-- Runs of the parser, and its theorems at such runs.
use net_library.Base.{
  ℕ, ◌≡◌, refl, true, false, Option, none, some, arith, List, [], ◌∷◌, codes, map,
}
use net_library.Base.Int.{ℤ, pos}
use net_library.Conf.Errors.{Parsed, parse-FirstWrong}
use net_library.Conf.{Str, Values, get_strings, Parser, parse, get, get_boolean}
use net_library.Conf.Printing.{Item, section, entry, print, store_all, parse-print}

abbrev lines : List (List ℕ)
lines = codes "[Net]\n" ∷ codes "port = 80 # http\n" ∷ codes "host:abc\n" ∷ codes "fast=Yes\n" ∷ []

abbrev values_of : Option (Values × ℤ) → Values
values_of none = []
values_of (some (m, n)) = m

abbrev number_of : Option (Values × ℤ) → Option ℤ
number_of none = none
number_of (some (m, n)) = some n

reads_port : get (values_of (parse [] (some lines))) (codes "net") (codes "PORT") [] ≡ codes "80"
unfolding get parse
reads_port = refl

reads_fast :
    get_boolean (values_of (parse [] (some lines))) (codes "net") (codes "fast") false ≡ true
unfolding get_boolean parse
reads_fast = refl

-- The first character of a value behind a colon is lost.
drops_after_colon :
    get (values_of (parse [] (some lines))) (codes "net") (codes "host") [] ≡ codes "bc"
unfolding get parse
drops_after_colon = refl

finds_wrong_line : number_of (parse [] (some (codes "a=1\n" ∷ codes "wrong\n" ∷ []))) ≡ some (pos 2)
unfolding parse
finds_wrong_line = refl

-- It leaves an empty value under an empty name.
stores_wrong_line :
    get_strings (values_of (parse [] (some (codes "a=1\n" ∷ codes "wrong\n" ∷ [])))) [] [] ≡ [] ∷ []
unfolding parse get_strings
stores_wrong_line = refl

abbrev start : Parser
start = record { section = codes "net"; key = []; values = [] }

abbrev items : List Item
items =
    section (codes "Net")
    ∷ entry (codes "port") (codes "80")
    ∷ entry (codes "Port") (codes "81")
    ∷ section (codes "Log")
    ∷ entry (codes "level") (codes "WARN")
    ∷ []

parse-print_example :
    parse [] (some (map print items))
    ≡ some ((store_all (record { section = []; key = []; values = [] }) items).values, pos 0)
parse-print_example =
    parse-print [] items
      (
        (refl, (refl, (refl, tt))),
        (
          ((refl, (refl, (refl, (refl, tt)))), (refl, (refl, tt))),
          (
            ((refl, (refl, (refl, (refl, tt)))), (refl, (refl, tt))),
            (
              (refl, (refl, (refl, tt))),
              (
                ((refl, (refl, (refl, (refl, (refl, tt))))), (refl, (refl, (refl, (refl, tt))))),
                tt,
              ),
            ),
          ),
        ),
      )
      (omega arith, (omega arith, (omega arith, (omega arith, (omega arith, tt)))))

stores_port :
    get (values_of (parse [] (some (map print items)))) (codes "net") (codes "port") [] ≡ codes "81"
unfolding get parse
stores_port = refl

-- A file whose third line has neither `=` nor `:`.
abbrev wrong_lines : List Str
wrong_lines = codes "[net]" ∷ codes "a=1" ∷ codes "oops" ∷ codes "b=2" ∷ []

parse-FirstWrong_example : Parsed [] wrong_lines (parse [] (some wrong_lines))
parse-FirstWrong_example = parse-FirstWrong [] wrong_lines

-- A colon at the very end of the file.
leaves_text : parse [] (some (codes "a=1\n" ∷ codes "host:" ∷ [])) ≡ none
unfolding parse
leaves_text = refl
