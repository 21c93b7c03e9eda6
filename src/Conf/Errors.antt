-- ===== src/Conf/Errors.antt =====
-- conf.h: the number that parse returns.
use net_library.Base.{
  ℕ, ◌+◌, ◌≡◌, refl, ap, sym, ◌∙◌, ◌⊎◌, inl, inr, Bool, true, false, Option, none, some, List, [],
  ◌∷◌, ◌++◌, length, arith,
}
use net_library.Base.Int.{ℤ}
use net_library.Conf.{
  Str, Values, Parser, parse_line, then_lines, parse_lines, fgets_all, returned, parse,
}
use net_library.Conf.Verdict.{
  Verdict, fine, wrong, overrun, verdict, verdict_of, parse_line-verdict,
}

-- All lines are well formed, and lead the parser to this state.
abbrev pub Accepts : Parser → List Str → Parser → Type 0
Accepts s [] s' = s ≡ s'
Accepts s (line ∷ lines) s' =
    (verdict s.key line ≡ fine)
    × ((s1 : Parser) × (parse_line s line ≡ some (s1, false)) × Accepts s1 lines s')

-- Behind well formed lines comes one of this verdict, of this number, which leads to this result.
abbrev pub StopsAt : Verdict → Option (Parser × Bool) → ℕ → Parser → List Str → ℕ → Type 0
StopsAt v r n s lines k =
    (good : List Str) × (bad : Str) × (rest : List Str) × (s1 : Parser) × (lines
      ≡ good ++ bad ∷ rest)
    × Accepts s good s1
    × (verdict s1.key bad ≡ v)
    × (parse_line s1 bad ≡ r)
    × (k ≡ n + length good + 1)

-- How the loop ends, where the lines are counted from `n` on.
abbrev pub EndsAt : ℕ → Parser → List Str → Option (Parser × ℕ) → Type 0
EndsAt n s lines none = (k : ℕ) × StopsAt overrun none n s lines k
EndsAt n s lines (some (s', k)) =
    (Accepts s lines s' × (k ≡ 0)) ⊎ StopsAt wrong (some (s', true)) n s lines k

later-StopsAt :
    (v : Verdict) (r : Option (Parser × Bool)) (n : ℕ) (s s1 : Parser) (line : Str)
    (lines : List Str) (k : ℕ)
    → verdict s.key line ≡ fine
    → parse_line s line ≡ some (s1, false)
    → StopsAt v r (n + 1) s1 lines k
    → StopsAt v r n s (line ∷ lines) k
later-StopsAt v r n s s1 line lines k f e (good, bad, rest, s2, l, a, w, p, q) =
    (line ∷ good, bad, rest, s2, ap (λ r. line ∷ r) l, (f, (s1, e, a)), w, p, omega (arith, q))

later-EndsAt :
    (n : ℕ) (s s1 : Parser) (line : Str) (lines : List Str) (o : Option (Parser × ℕ))
    → verdict s.key line ≡ fine
    → parse_line s line ≡ some (s1, false)
    → EndsAt (n + 1) s1 lines o
    → EndsAt n s (line ∷ lines) o
later-EndsAt n s s1 line lines none f e (k, h) =
    (k, later-StopsAt overrun none n s s1 line lines k f e h)
later-EndsAt n s s1 line lines (some (s', k)) f e (inl (a, z)) = inl ((f, (s1, e, a)), z)
later-EndsAt n s s1 line lines (some (s', k)) f e (inr h) =
    inr (later-StopsAt wrong (some (s', true)) n s s1 line lines k f e h)

parse_lines-EndsAt :
    (lines : List Str) (n : ℕ) (s : Parser) → EndsAt n s lines (parse_lines n s lines)
unfolding parse_lines
parse_lines-EndsAt [] n s = inl (refl, refl)
parse_lines-EndsAt (line ∷ lines) n s =
    line_cases (parse_line s line) refl (λ s1. parse_lines-EndsAt lines (n + 1) s1)
  where
    line_cases :
        (r : Option (Parser × Bool))
        → parse_line s line ≡ r
        → ((s1 : Parser) → EndsAt (n + 1) s1 lines (parse_lines (n + 1) s1 lines))
        → EndsAt n s (line ∷ lines) (then_lines (λ s1. parse_lines (n + 1) s1 lines) (n + 1) r)
    line_cases none e later = (
      n + 1,
      (
        [],
        line,
        lines,
        s,
        refl,
        refl,
        sym (parse_line-verdict s line) ∙ ap verdict_of e,
        e,
        omega arith,
      ),
    )
    line_cases (some (s1, true)) e later = inr (
      [],
      line,
      lines,
      s,
      refl,
      refl,
      sym (parse_line-verdict s line) ∙ ap verdict_of e,
      e,
      omega arith,
    )
    line_cases (some (s1, false)) e later =
        later-EndsAt n s s1 line lines _ (sym (parse_line-verdict s line) ∙ ap verdict_of e) e
          (later s1)

abbrev pub Parsed : Values → List Str → Option (Values × ℤ) → Type 0
Parsed m lines r =
    (o : Option (Parser × ℕ)) × (r ≡ returned o)
    × EndsAt 0 (record { section = []; key = []; values = m }) (fgets_all lines) o

-- Of a file that can be opened, `parse` stops at the first piece that fgets yields which is not well
-- formed as `verdict` says: it returns the number of a wrong one, counted from 1, or reads behind the
-- text of one that ends in the colon of its key; where all are well formed it returns 0. The values are
-- those behind the last piece that it has read.
pub parse-FirstWrong : (m : Values) (lines : List Str) → Parsed m lines (parse m (some lines))
unfolding parse
parse-FirstWrong m lines =
    let s : Parser = record { section = []; key = []; values = m } in
    (parse_lines 0 s (fgets_all lines), refl, parse_lines-EndsAt (fgets_all lines) 0 s)
