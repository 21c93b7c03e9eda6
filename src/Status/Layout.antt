-- ===== src/Status/Layout.antt =====
-- status.h: what is read back from a status.
use net_library.Base.{
  ℕ, zero, suc, ◌+◌, ◌-◌, ◌^◌, ◌<◌, ◌≤◌, ◌==◌, false, ◌≡◌, refl, ap, ◌∙◌, none, some, List, [], ◌∷◌,
  ◌++◌, length, take, drop, take-length_le, length-append, HasNoZero, arith,
}
use net_library.Base.Endian.{Endian, little, big, store, load, load-store_32, signed_32, pattern_32}
use net_library.Base.Int.{ℤ, pos, negsuc, ◌≤ℤ◌, ◌+ℤ◌}
use net_library.Status.{
  make, from_format, printed, written, copy, copy_state, code, msg, c_string, layout, io_error,
}

pub c_string-closed : (s : List ℕ) → HasNoZero s → c_string (s ++ 0 ∷ []) ≡ some s
c_string-closed [] t = refl
c_string-closed (zero ∷ cs) t = elim t [ ]
c_string-closed (suc c ∷ cs) t = rw (c_string-closed cs t) refl

c_string-open : (s : List ℕ) → HasNoZero s → c_string s ≡ none
c_string-open [] t = refl
c_string-open (zero ∷ cs) t = elim t [ ]
c_string-open (suc c ∷ cs) t = rw (c_string-open cs t) refl

-- The range of an int32_t.
abbrev pub IsInt : ℤ → Type 0
IsInt z = (negsuc (2 ^ 31 - 1) ≤ℤ z) × (z ≤ℤ pos (2 ^ 31 - 1))

signed-pattern_32 : (z : ℤ) → IsInt z → (signed_32 (pattern_32 z) ≡ z) × (pattern_32 z < 2 ^ 32)
signed-pattern_32 (pos n) h = ground arith
signed-pattern_32 (negsuc n) h = ground arith

length-layout :
    (host : Endian) (sz : ℕ) (z : ℤ) (rest : List ℕ)
    → length (layout host sz z rest) ≡ length rest + 8
length-layout little sz z rest = omega arith
length-layout big sz z rest = omega arith

drop-layout :
    (host : Endian) (sz : ℕ) (z : ℤ) (rest : List ℕ) → drop 8 (layout host sz z rest) ≡ rest
drop-layout little sz z rest = refl
drop-layout big sz z rest = refl

layout-fields :
    (host : Endian) (sz : ℕ) (z : ℤ) (rest : List ℕ)
    → (take 4 (layout host sz z rest) ≡ store host 4 sz)
      × (take 4 (drop 4 (layout host sz z rest)) ≡ store host 4 (pattern_32 z))
layout-fields little sz z rest = (refl, refl)
layout-fields big sz z rest = (refl, refl)

code-layout :
    (host : Endian) (sz : ℕ) (z : ℤ) (rest : List ℕ)
    → IsInt z
    → code host (record { state = some (layout host sz z rest) }) ≡ z
unfolding code
code-layout host sz z rest i =
    let p = signed-pattern_32 z i in
    ap (λ b. signed_32 (load host b)) (layout-fields host sz z rest).1
    ∙ ap signed_32 (load-store_32 host (pattern_32 z) p.1)
    ∙ p.0

pub io_error-code :
    (host : Endian) (strerror : ℤ → List ℕ) (errno : ℤ) (op name : List ℕ)
    → IsInt errno
    → code host (io_error host strerror errno op name) ≡ errno
unfolding io_error from_format
io_error-code host strerror errno op name i = code-layout host _ errno _ i

copy_state-layout :
    (host : Endian) (sz : ℕ) (z : ℤ) (rest : List ℕ)
    → sz ≡ length rest + 8
    → sz < 2 ^ 32
    → copy_state host (some (layout host sz z rest)) ≡ some (layout host sz z rest)
unfolding copy_state
copy_state-layout host sz z rest e h =
    let n : load host (take 4 (layout host sz z rest)) ≡ sz =
      ap (load host) (layout-fields host sz z rest).0 ∙ load-store_32 host sz h in
    ap (λ k. some (take k (layout host sz z rest))) n
    ∙ ap some
        (take-length_le sz (layout host sz z rest) (omega (arith, length-layout host sz z rest, e)))

size_32 : (host : Endian) (n : ℕ) → n < 2 ^ 31 → pattern_32 (printed host n +ℤ pos 9) ≡ n + 9
size_32 host n h = ground (arith, h)

written-whole :
    (host : Endian) (text : List ℕ) → written host (length text + 9 - 8) text ≡ text ++ 0 ∷ []
written-whole host text =
    let room : (length text + 9 - 8 == 0) ≡ false = ground arith in
    let enough : length text ≤ length text + 9 - 8 - 1 = omega arith in
    rw (room, take-length_le (length text + 9 - 8 - 1) text enough) refl

-- A status that `fromFormat` makes, of a message of fewer than 2^31 bytes, gives its code and its
-- message back, also when it is copied.
pub from_format_lem :
    (host : Endian) (z : ℤ) (text : List ℕ)
    → IsInt z
    → HasNoZero text
    → length text < 2 ^ 31
    → let s = from_format host z text in
      (code host s ≡ z) × (msg host s ≡ some text) × (copy host s ≡ s)
unfolding from_format msg copy
from_format_lem host z text i t h =
    let sz = length text + 9 in
    let rest = text ++ 0 ∷ [] in
    rw (size_32 host (length text) h, written-whole host text)
      (
        code-layout host sz z rest i,
        ap c_string (drop-layout host sz z rest) ∙ c_string-closed text t,
        ap (λ r. record { state = r })
            (copy_state-layout host sz z rest (omega (arith, length-append {0} text (0 ∷ [])))
              (omega (arith, h))),
      )

-- A status that is made from a code and a message gives the code back, but the array has no zero
-- behind the message: reading the message leaves the array, whatever the message is.
pub make-msg :
    (host : Endian) (z : ℤ) (text : List ℕ)
    → IsInt z
    → HasNoZero text
    → (code host (make host z text) ≡ z) × (msg host (make host z text) ≡ none)
unfolding make msg
make-msg host z text i t =
    (code-layout host _ z text i, ap c_string (drop-layout host _ z text) ∙ c_string-open text t)
