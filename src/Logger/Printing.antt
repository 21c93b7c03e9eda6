-- ===== src/Logger/Printing.antt =====
-- logging.cc: what two calls of printf leave in the buffer of logv.
use net_library.Base.{
  ℕ, zero, suc, ◌+◌, ◌-◌, ◌≤◌, ◌<◌, ◌≡◌, refl, ap, sym, ◌∙◌, true, some, List, [], ◌∷◌, ◌++◌, map,
  length, take, drop, length-drop, take-take, take-append-drop, write_at, overlay, replicate, leb,
  arith, append_assoc, length-take, length-append, length-replicate, length-overlay,
}
use net_library.Util.{Cell, printed}
use net_library.Util.{Cell, printed}
use net_library.Logger.{print_at}

-- What is printed behind a text in a buffer makes up one text with it.
overlay_twice :
    (buf xs ys : List Cell) → length xs ≤ length ys → overlay (overlay buf xs) ys ≡ overlay buf ys
overlay_twice [] xs ys h = refl
overlay_twice (b ∷ bs) [] ys h = refl
overlay_twice (b ∷ bs) (x ∷ xs) [] h = elim h [ ]
overlay_twice (b ∷ bs) (x ∷ xs) (y ∷ ys) h =
    ap (λ r. y ∷ r) (overlay_twice bs xs ys (omega (arith, h)))

sub_zero : (n : ℕ) → n - 0 ≡ n
sub_zero n = omega arith

one-le : (b : List ℕ) → 1 ≤ length (map {B = Cell} some (b ++ 0 ∷ []))
one-le [] = omega arith
one-le (c ∷ b) = omega arith

printed_twice :
    (m : ℕ) (p b : List ℕ) (buf : List Cell)
    → length p ≤ m
    → write_at
        (overlay buf (map some (take m p ++ 0 ∷ [])))
        (length p)
        (map some (take (m - length p) b ++ 0 ∷ []))
      ≡ overlay buf (map some (take m (p ++ b) ++ 0 ∷ []))
printed_twice zero [] b buf h = overlay_twice buf (some 0 ∷ []) (some 0 ∷ []) (omega arith)
printed_twice (suc m) [] b buf h = rw (sub_zero (suc m)) (
    overlay_twice buf (some 0 ∷ []) (map some (take (suc m) b ++ 0 ∷ [])) (one-le (take (suc m) b)))
printed_twice zero (c ∷ p) b buf h = elim h [ ]
printed_twice (suc m) (c ∷ p) b [] h = refl
printed_twice (suc m) (c ∷ p) b (x ∷ buf) h =
    let e : suc m - suc (length p) ≡ m - length p = omega arith in
    rw e (ap (λ r. some c ∷ r) (printed_twice m p b buf (omega (arith, h))))

overlay-append :
    (buf xs ys : List Cell)
    → length xs ≤ length buf
    → overlay buf (xs ++ ys) ≡ xs ++ overlay (drop (length xs) buf) ys
overlay-append buf [] ys h = refl
overlay-append [] (x ∷ xs) ys h = absurd (omega (arith, h))
overlay-append (b ∷ buf) (x ∷ xs) ys h =
    ap (λ r. x ∷ r) (overlay-append buf xs ys (omega (arith, h)))

pub map-append : (xs ys : List ℕ) → map {B = Cell} some (xs ++ ys) ≡ map some xs ++ map some ys
map-append [] ys = refl
map-append (x ∷ xs) ys = ap (λ r. some x ∷ r) (map-append xs ys)

map-replicate : (n a : ℕ) → map {B = Cell} some (replicate n a) ≡ replicate n (some a)
map-replicate zero a = refl
map-replicate (suc n) a = ap (λ r. some a ∷ r) (map-replicate n a)

pub length-map : (xs : List ℕ) → length (map {B = Cell} some xs) ≡ length xs
length-map [] = refl
length-map (x ∷ xs) = ap suc (length-map xs)

-- The two texts are in the buffer as one, cut behind `size - 1` characters.
pub print_at-printed :
    (size : ℕ) (p b : List ℕ) (buf : List Cell)
    → length p < size
    → print_at size (printed size p buf) (length p) b
      ≡ some (overlay buf (map some (take (size - 1) (p ++ b) ++ 0 ∷ [])))
print_at-printed zero p b buf h = absurd (omega (arith, h))
print_at-printed (suc m) p b buf h =
    let e₁ : leb (length p + 1) (suc m) ≡ true = ground (arith, h) in
    let e₂ : suc m - length p - 1 ≡ m - length p = omega arith in
    let e₃ : suc m - 1 ≡ m = omega arith in
    rw (e₁, e₂, e₃) (ap some (printed_twice m p b buf (omega (arith, h))))

overlay-take :
    (k m : ℕ) (t : List ℕ) (buf : List Cell)
    → k ≤ m
    → m < length buf
    → overlay buf (map some (take m t ++ 0 ∷ []))
      ≡ map some (take k t)
        ++ overlay
            (drop (length (map {B = Cell} some (take k t))) buf)
            (map some (drop k (take m t) ++ 0 ∷ []))
overlay-take k m t buf hk hm =
    let e : map {B = Cell} some (take m t ++ 0 ∷ [])
        ≡ map some (take k t) ++ map some (drop k (take m t) ++ 0 ∷ []) =
      ap (λ r. map {B = Cell} some (r ++ 0 ∷ [])) (sym (take-append-drop k (take m t)))
      ∙ ap (map some) (append_assoc (take k (take m t)) (drop k (take m t)) (0 ∷ []))
      ∙ map-append (take k (take m t)) (drop k (take m t) ++ 0 ∷ [])
      ∙ ap (λ r. map {B = Cell} some r ++ map some (drop k (take m t) ++ 0 ∷ []))
          (take-take k m t hk) in
    let len : length (map {B = Cell} some (take k t)) ≤ length buf =
      rw (length-map (take k t), length-take k t) (omega (arith, hk, hm)) in
    rw e (overlay-append buf (map some (take k t)) (map some (drop k (take m t) ++ 0 ∷ [])) len)

map-text :
    (front : List ℕ) (c n : ℕ) (rest : List Cell)
    → map some (front ++ c ∷ replicate n 10) ++ rest
      ≡ map some front ++ some c ∷ (replicate n (some 10) ++ rest)
map-text front c n rest =
    ap (λ r. r ++ rest)
      (map-append front (c ∷ replicate n 10)
        ∙ ap (λ r. map {B = Cell} some front ++ (some c ∷ r)) (map-replicate n 10))
    ∙ append_assoc (map some front) (some c ∷ replicate n (some 10)) rest

pub length-text :
    (front : List ℕ) (c n : ℕ) → length (front ++ c ∷ replicate n 10) ≡ suc (length front + n)
length-text front c n =
    length-append front (c ∷ replicate n 10)
    ∙ ap (λ r. length front + suc r) (length-replicate n 10)
    ∙ omega arith

-- What stands behind the text in a buffer of two more cells.
pub rest_of : ℕ → List ℕ → List Cell → List Cell
rest_of k t buf =
    overlay (drop (length (map {B = Cell} some (take k t))) buf)
      (map some (drop k (take (k + 1) t) ++ 0 ∷ []))

pub rest_of-length :
    (k : ℕ) (t : List ℕ) (buf : List Cell) → k + 2 ≤ length buf → 2 ≤ length (rest_of k t buf)
unfolding rest_of
rest_of-length k t buf h =
    rw
      (
        length-overlay (drop (length (map {B = Cell} some (take k t))) buf)
            (map some (drop k (take (k + 1) t) ++ 0 ∷ [])),
        length-drop (length (map {B = Cell} some (take k t))) buf,
        length-map (take k t),
        length-take k t,
      )
      (omega (arith, h))

pub overlay-text :
    (k : ℕ) (t front : List ℕ) (c n : ℕ) (buf : List Cell)
    → k + 2 ≤ length buf
    → take k t ≡ front ++ c ∷ replicate n 10
    → overlay buf (map some (take (k + 1) t ++ 0 ∷ []))
      ≡ map some front ++ some c ∷ (replicate n (some 10) ++ rest_of k t buf)
unfolding rest_of
overlay-text k t front c n buf h ht =
    overlay-take k (k + 1) t buf (omega arith) (omega (arith, h))
    ∙ ap (λ r. map {B = Cell} some r ++ rest_of k t buf) ht
    ∙ map-text front c n (rest_of k t buf)
