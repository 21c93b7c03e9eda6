-- ===== src/Base/Endian.antt =====
-- How a host keeps an unsigned integer in memory, and the signed integers of 16 and 32 bits.
use Prim.Native.Nat.{ℕ, zero, suc, ◌+◌, ◌-◌, ◌*◌, ◌/◌, ◌%◌, ◌^◌, ◌<◌}
use mathlib.Core.Path.{◌≡◌}
use mathlib.Core.List.{List, [], ◌∷◌, ◌++◌}
use native.Mathlib.Omega.{arith}
use net_library.Base.Int.{ℤ, pos, negsuc}
use net_library.Base.Tests.{ltb, if◌then◌else◌}

pub data Endian : Type 0 where
  little big : Endian

-- The lowest byte first.
abbrev pub low_first : ℕ → ℕ → List ℕ
low_first zero v = []
low_first (suc n) v = v % 256 ∷ low_first n (v / 256)

abbrev pub high_first : ℕ → ℕ → List ℕ
high_first zero v = []
high_first (suc n) v = high_first n (v / 256) ++ v % 256 ∷ []

-- The bytes of an integer of `n` bytes, by their addresses.
abbrev pub store : Endian → ℕ → ℕ → List ℕ
store little n v = low_first n v
store big n v = high_first n v

abbrev pub read_low_first : List ℕ → ℕ
read_low_first [] = 0
read_low_first (b ∷ bs) = b + 256 * read_low_first bs

abbrev pub read_high_first : ℕ → List ℕ → ℕ
read_high_first high [] = high
read_high_first high (b ∷ bs) = read_high_first (256 * high + b) bs

abbrev pub load : Endian → List ℕ → ℕ
load little bs = read_low_first bs
load big bs = read_high_first 0 bs

pub load-store_32 : (e : Endian) (v : ℕ) → v < 2 ^ 32 → load e (store e 4 v) ≡ v
load-store_32 little v h = omega arith
load-store_32 big v h = omega arith

-- The number that a pattern of 16 or 32 bits stands for, and the pattern of a number.
abbrev pub signed_16 : ℕ → ℤ
signed_16 w = if ltb w (2 ^ 15) then pos w else negsuc (2 ^ 16 - 1 - w)

abbrev pub signed_32 : ℕ → ℤ
signed_32 w = if ltb w (2 ^ 31) then pos w else negsuc (2 ^ 32 - 1 - w)

abbrev pub signed_64 : ℕ → ℤ
signed_64 w = if ltb w (2 ^ 63) then pos w else negsuc (2 ^ 64 - 1 - w)

abbrev pub pattern_16 : ℤ → ℕ
pattern_16 (pos n) = n % 2 ^ 16
pattern_16 (negsuc n) = 2 ^ 16 - 1 - n % 2 ^ 16

abbrev pub pattern_32 : ℤ → ℕ
pattern_32 (pos n) = n % 2 ^ 32
pattern_32 (negsuc n) = 2 ^ 32 - 1 - n % 2 ^ 32

abbrev pub pattern_64 : ℤ → ℕ
pattern_64 (pos n) = n % 2 ^ 64
pattern_64 (negsuc n) = 2 ^ 64 - 1 - n % 2 ^ 64
