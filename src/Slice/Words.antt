-- ===== src/Slice/Words.antt =====
-- slice.cc: words, lines and the trimming of spaces, as functions of the bytes of the slice.
use net_library.Base.{ℕ, ◌+◌, ◌-◌, ◌≤◌, ◌≡◌, ap, sym, ◌∙◌, Bool, arith, is_space}
use net_library.Slice.{
  Slice, bytes, skip, skip_back, eat_word, eat_line, trim_space, not_space, in_line,
}
use net_library.Slice.Scan.{
  IsValid, window, take_while, drop_while, drop_while_back, skip_bounds, skip-take_while,
  skip-drop_while, skip_back_bounds, skip_back-drop_while_back,
}

-- What a scan from the front of a valid slice does: both halves.
module _ (test : ℕ → Bool) {s : Slice} (v : IsValid s) where
  abbrev stop : ℕ
  stop = skip test s.mem (s.pe - s.pb) s.pb

  stop_bounds : (s.pb ≤ stop) × (stop ≤ s.pe)
  stop_bounds = omega (arith, skip_bounds test s.mem (s.pe - s.pb) s.pb)

  scanned : window s.mem s.pb (stop - s.pb) ≡ take_while test (bytes s)
  scanned = skip-take_while test s.mem (s.pe - s.pb) s.pb (omega arith)

  unscanned : window s.mem stop (s.pe - stop) ≡ drop_while test (bytes s)
  unscanned =
      let e : s.pb + (s.pe - s.pb) ≡ s.pe = omega arith in
      ap (λ k. window s.mem stop (k - stop)) (sym e)
      ∙ skip-drop_while test s.mem (s.pe - s.pb) s.pb (omega arith)

  -- The slice `Slice(b, e - b)` that the scan returns.
  returned : window s.mem s.pb (s.pb + (stop - s.pb) - s.pb) ≡ take_while test (bytes s)
  returned =
      let e : s.pb + (stop - s.pb) - s.pb ≡ stop - s.pb = omega arith in
      ap (window s.mem s.pb) e ∙ scanned

-- `eatWord` of a valid slice returns its first word, the longest run of bytes other than spaces
-- after its leading spaces, and leaves the bytes behind that word; both slices are valid.
pub eat_word_lem :
    {s : Slice}
    → IsValid s
    → let (word, rest) = eat_word s in
      IsValid word
      × IsValid rest
      × (bytes word ≡ take_while not_space (drop_while is_space (bytes s)))
      × (bytes rest ≡ drop_while not_space (drop_while is_space (bytes s)))
unfolding eat_word
eat_word_lem {s} v =
    let from : Slice = record s { pb = stop is_space v } in
    let w : IsValid from = omega (arith, stop_bounds is_space v) in
    (
      omega (arith, stop_bounds not_space w),
      omega (arith, stop_bounds not_space w),
      returned not_space w ∙ ap (take_while not_space) (unscanned is_space v),
      unscanned not_space w ∙ ap (drop_while not_space) (unscanned is_space v),
    )

-- `eatLine` of a valid slice returns the bytes up to the first carriage return or line feed, and
-- leaves those from it on; both slices are valid.
pub eat_line_lem :
    {s : Slice}
    → IsValid s
    → let (line, rest) = eat_line s in
      IsValid line
      × IsValid rest
      × (bytes line ≡ take_while in_line (bytes s))
      × (bytes rest ≡ drop_while in_line (bytes s))
unfolding eat_line
eat_line_lem {s} v = (
  omega (arith, stop_bounds in_line v),
  omega (arith, stop_bounds in_line v),
  returned in_line v,
  unscanned in_line v,
)

-- `trimSpace` of a valid slice takes off exactly its leading and its trailing spaces.
pub trim_space_lem :
    {s : Slice}
    → IsValid s
    → IsValid (trim_space s)
      × (bytes (trim_space s) ≡ drop_while_back is_space (drop_while is_space (bytes s)))
unfolding trim_space
trim_space_lem {s} v =
    let from : Slice = record s { pb = stop is_space v } in
    let b = stop_bounds is_space v in
    let e : from.pb + (s.pe - from.pb) ≡ s.pe = omega (arith, b) in
    let k = skip_back_bounds is_space s.mem (s.pe - from.pb) s.pe (omega arith) in
    (
      omega (arith, b, k),
      ap (λ k. window s.mem from.pb (skip_back is_space s.mem (s.pe - from.pb) k - from.pb)) (sym e)
          ∙ skip_back-drop_while_back is_space s.mem (s.pe - from.pb) from.pb (omega (arith, b))
          ∙ ap (drop_while_back is_space) (unscanned is_space v),
    )
