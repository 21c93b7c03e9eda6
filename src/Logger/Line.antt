-- ===== src/Logger/Line.antt =====
-- logging.cc: the line that logv puts together in its buffer.
use net_library.Base.{
  ℕ, zero, suc, ◌+◌, ◌-◌, ◌≤◌, ◌<◌, ◌≡◌, ◌≢◌, refl, ap, sym, ◌∙◌, false, none, some, List, [], ◌∷◌,
  ◌++◌, map, length, take, write_at, overlay, replicate, get_or, min, ◌==◌, arith, length-take,
  length-append, length-replicate,
}
use net_library.Util.{Cell}
use net_library.Util.{Cell}
use net_library.Logger.{last_char, close_line, end_line, log_line}
use net_library.Logger.Printing.{
  map-append, length-map, length-text, rest_of, rest_of-length, overlay-text, print_at-printed,
}

-- What stands behind a newline run's last character is passed over.
get_or-append :
    (xs ys : List Cell) (i : ℕ) → get_or (xs ++ ys) (length xs + i) none ≡ get_or ys i none
get_or-append [] ys i = let e : 0 + i ≡ i = omega arith in rw e refl
get_or-append (x ∷ xs) ys i =
    let e : suc (length xs) + i ≡ suc (length xs + i) = omega arith in rw e (get_or-append xs ys i)

get_or-replicate :
    (j : ℕ) (ys : List Cell) (i : ℕ) → i < j → get_or (replicate j (some 10) ++ ys) i none ≡ some 10
get_or-replicate zero ys i h = absurd (omega (arith, h))
get_or-replicate (suc j) ys zero h = refl
get_or-replicate (suc j) ys (suc i) h = get_or-replicate j ys i (omega (arith, h))

last_char-newline :
    (buf : List Cell) (i : ℕ)
    → get_or buf i none ≡ some 10
    → last_char buf (suc i) ≡ last_char buf i
unfolding last_char
last_char-newline buf i h = rw h refl

last_char-other :
    (buf : List Cell) (i c : ℕ)
    → get_or buf i none ≡ some c
    → c ≢ 10
    → last_char buf (suc i) ≡ some i
unfolding last_char
last_char-other buf i c h hc = rw h (let e : (c == 10) ≡ false = ground (arith, hc) in rw e refl)

-- The buffer behind a line's last character `c`: newlines up to `j`, and what follows them.
last_char-replicate :
    (xs : List Cell) (c : ℕ) (n j : ℕ) (rest : List Cell)
    → c ≢ 10
    → j ≤ n
    → last_char (xs ++ some c ∷ (replicate n (some 10) ++ rest)) (suc (length xs + j))
      ≡ some (length xs)
last_char-replicate xs c n zero rest hc h =
    let buf : List Cell = xs ++ some c ∷ (replicate n (some 10) ++ rest) in
    let e : length xs + 0 ≡ length xs = omega arith in
    last_char-other buf (length xs + 0) c
      (get_or-append xs (some c ∷ (replicate n (some 10) ++ rest)) 0) hc
    ∙ ap some e
last_char-replicate xs c n (suc j) rest hc h =
    let buf : List Cell = xs ++ some c ∷ (replicate n (some 10) ++ rest) in
    let e : length xs + suc j ≡ suc (length xs + j) = omega arith in
    last_char-newline buf (length xs + suc j) (
      get_or-append xs (some c ∷ (replicate n (some 10) ++ rest)) (suc j)
      ∙ get_or-replicate n rest j h)
    ∙ ap (last_char buf) e
    ∙ last_char-replicate xs c n j rest hc (omega (arith, h))

-- The line ends with one newline behind its last character.
take-write_at_append :
    (xs rest : List Cell) (x y z : Cell)
    → take
        (length xs + 2)
        (write_at (xs ++ x ∷ y ∷ z ∷ rest) (length xs + 1) (some 10 ∷ some 0 ∷ []))
      ≡ xs ++ x ∷ some 10 ∷ []
take-write_at_append [] rest x y z = refl
take-write_at_append (w ∷ xs) rest x y z =
    let e₁ : suc (length xs) + 2 ≡ suc (length xs + 2) = omega arith in
    let e₂ : suc (length xs) + 1 ≡ suc (length xs + 1) = omega arith in
    rw (e₁, e₂) (ap (λ r. w ∷ r) (take-write_at_append xs rest x y z))

close_line-append :
    (xs rest : List Cell) (x : Cell)
    → 2 ≤ length rest
    → close_line (xs ++ x ∷ rest) (some (length xs)) ≡ some (xs ++ x ∷ some 10 ∷ [])
close_line-append xs [] x h = absurd (omega (arith, h))
close_line-append xs (y ∷ []) x h = absurd (omega (arith, h))
close_line-append xs (y ∷ z ∷ rest) x h = ap some (take-write_at_append xs rest x y z)

-- A buffer that holds a text of at most `size - 2` characters, with newlines at its end.
end_line-replicate :
    (size at : ℕ) (xs rest : List Cell) (c n : ℕ)
    → c ≢ 10
    → 2 ≤ length rest
    → min at (size - 2) ≡ suc (length xs + n)
    → end_line size at (some (xs ++ some c ∷ (replicate n (some 10) ++ rest)))
      ≡ some (xs ++ some c ∷ some 10 ∷ [])
unfolding end_line
end_line-replicate size at xs rest c n hc hr h =
    rw (h, last_char-replicate xs c n n rest hc (omega arith))
      (close_line-append xs (replicate n (some 10) ++ rest) (some c)
        (rw (length-append (replicate n (some 10)) rest) (omega (arith, hr))))

-- In a buffer of `k + 2` bytes, a line is the first `k` characters of the prefix and the message, with
-- one newline in place of those at its end: for a prefix that fits the buffer, and `k` characters that
-- are not only newlines.
pub log_line_lem :
    (k : ℕ) (prefix body front : List ℕ) (c n : ℕ)
    → length prefix < k + 2
    → take k (prefix ++ body) ≡ front ++ c ∷ replicate n 10
    → c ≢ 10
    → log_line (k + 2) prefix body ≡ some (map some (front ++ c ∷ 10 ∷ []))
unfolding log_line
log_line_lem k prefix body front c n hp ht hc =
    let fresh = replicate {A = Cell} (k + 2) none in
    let hf : k + 2 ≤ length fresh = rw (length-replicate {A = Cell} (k + 2) none) (omega arith) in
    let len : min k (length (prefix ++ body)) ≡ suc (length front + n) =
      sym (length-take k (prefix ++ body)) ∙ ap length ht ∙ length-text front c n in
    let e : k + 2 - 1 ≡ k + 1 = omega arith in
    let hat : min (length prefix + length body) (k + 2 - 2)
        ≡ suc (length (map {B = Cell} some front) + n) =
      rw (length-map front) (omega (arith, len, length-append prefix body)) in
    ap (end_line (k + 2) (length prefix + length body)) (
      print_at-printed (k + 2) prefix body fresh hp
      ∙ ap (λ r. some (overlay fresh (map some (take r (prefix ++ body) ++ 0 ∷ [])))) e
      ∙ ap some (overlay-text k (prefix ++ body) front c n fresh hf ht))
    ∙ end_line-replicate (k + 2) (length prefix + length body) (map some front)
        (rest_of k (prefix ++ body) fresh) c n hc (rest_of-length k (prefix ++ body) fresh hf) hat
    ∙ ap some (sym (map-append front (c ∷ 10 ∷ [])))
