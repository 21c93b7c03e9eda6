-- ===== src/Slice.antt =====
-- slice.h, slice.cc: a view of a part of a text, from `pb` up to `pe`.
--
-- `mem` is the text that both pointers point into, and a pointer is an index into it. A `char` is a
-- byte, and a read outside the text yields 0. A loop `while(p < e && test(*p)) ++p` is a recursion
-- on the `e - p` rounds that it has left.
mod Scan
pub mod Words
pub mod Compare
pub mod Split
mod Tests
use net_library.Base.{
  ℕ, zero, suc, ◌+◌, ◌-◌, Bool, true, false, not, ◌&&◌, ◌||◌, List, [], ◌∷◌, ltb, leb, ◌==◌,
  if◌then◌else◌, get_or, take, drop, length, sub_size, is_space, Sign, less, equal, greater, memcmp,
}

pub record Slice : Type 0 where
  pub mem : List ℕ
  pub pb : ℕ
  pub pe : ℕ

-- The bytes that the slice shows; `toString()`.
abbrev pub bytes : Slice → List ℕ
bytes s = take (s.pe - s.pb) (drop s.pb s.mem)

-- Slice(const string &str)
abbrev pub of_string : List ℕ → Slice
of_string str = record { mem = str; pb = 0; pe = length str }

abbrev pub size : Slice → ℕ
size s = sub_size s.pe s.pb

abbrev pub is_empty : Slice → Bool
is_empty s = s.pb == s.pe

pub front : Slice → ℕ
front s = get_or s.mem s.pb 0

pub back : Slice → ℕ
back s = get_or s.mem (s.pe - 1) 0

pub index : Slice → ℕ → ℕ
index s n = get_or s.mem (s.pb + n) 0

pub resize : Slice → ℕ → Slice
resize s sz = record s { pe = s.pb + sz }

-- The pointers are to the literal "".
pub clear : Slice → Slice
clear s = record { mem = []; pb = 0; pe = 0 }

pub eat : Slice → ℕ → Slice × Slice
eat s sz = (record s { pe = s.pb + sz }, record s { pb = s.pb + sz })

pub sub : Slice → ℕ → ℕ → Slice
sub s boff sz = record s { pb = s.pb + boff; pe = s.pb + boff + sz }

-- while(p < e && test(*p)) ++p
pub skip : (ℕ → Bool) → List ℕ → ℕ → ℕ → ℕ
skip test mem zero p = p
skip test mem (suc n) p =
    let next = skip test mem n (p + 1) in if test (get_or mem p 0) then next else p

-- while(p < e && test(e[-1])) --e
pub skip_back : (ℕ → Bool) → List ℕ → ℕ → ℕ → ℕ
skip_back test mem zero e = e
skip_back test mem (suc n) e =
    let next = skip_back test mem n (e - 1) in if test (get_or mem (e - 1) 0) then next else e

abbrev pub not_space : ℕ → Bool
not_space c = not (is_space c)

-- The word, and the slice that is left.
pub eat_word : Slice → Slice × Slice
eat_word s =
    let b = skip is_space s.mem (s.pe - s.pb) s.pb in
    let e = skip not_space s.mem (s.pe - b) b in
    (record s { pb = b; pe = b + (e - b) }, record s { pb = e })

abbrev pub in_line : ℕ → Bool
in_line c = not (c == b'\r') && not (c == b'\n')

pub eat_line : Slice → Slice × Slice
eat_line s =
    let p = skip in_line s.mem (s.pe - s.pb) s.pb in
    (record s { pe = s.pb + (p - s.pb) }, record s { pb = p })

pub trim_space : Slice → Slice
trim_space s =
    let b = skip is_space s.mem (s.pe - s.pb) s.pb in
    record s { pb = b; pe = skip_back is_space s.mem (s.pe - b) s.pe }

-- Where memcmp finds no difference the sizes decide.
pub by_size : ℕ → ℕ → Sign → Sign
by_size sz rsz equal = if ltb rsz sz then greater else if ltb sz rsz then less else equal
by_size sz rsz less = less
by_size sz rsz greater = greater

pub compare : Slice → Slice → Sign
unfolding by_size
compare s rb =
    let sz = size s in
    let rsz = size rb in
    let min_sz = if ltb rsz sz then rsz else sz in
    by_size sz rsz (memcmp (take min_sz (drop s.pb s.mem)) (take min_sz (drop rb.pb rb.mem)))

abbrev pub is_equal : Sign → Bool
is_equal equal = true
is_equal _ = false

pub start_with : Slice → Slice → Bool
start_with s x =
    leb (size x) (size s) && is_equal (memcmp (take (size x) (drop s.pb s.mem)) (bytes x))

-- `pe - x.size()` is where the comparison starts.
pub end_with : Slice → Slice → Bool
end_with s x =
    leb (size x) (size s)
    && is_equal (memcmp (take (size x) (drop (s.pe - size x) s.mem)) (bytes x))

-- for(p2 = p; p2 != pe; ++p2), with the rounds left; the slices come in the order of `push_back`.
pub split_from : Slice → ℕ → ℕ → ℕ → ℕ → List Slice
split_from s ch zero p1 p2 = if p1 == s.pe then [] else record s { pb = p1 } ∷ []
split_from s ch (suc n) p1 p2 =
    let here = record s { pb = p1; pe = p2 } ∷ split_from s ch n (p2 + 1) (p2 + 1) in
    let on = split_from s ch n p1 (p2 + 1) in if get_or s.mem p2 0 == ch then here else on

pub split : Slice → ℕ → List Slice
unfolding split_from
split s ch = split_from s ch (s.pe - s.pb) s.pb s.pb
