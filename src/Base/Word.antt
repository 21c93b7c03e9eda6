-- ===== src/Base/Word.antt =====
-- The arithmetic of `size_t` and `uint64_t`, with its wrap-around.
use Prim.Native.Nat.{ℕ, ◌+◌, ◌-◌, ◌*◌, ◌%◌, ◌^◌}

abbrev pub size_mod : ℕ
size_mod = 2 ^ 64

abbrev pub add_size : ℕ → ℕ → ℕ
add_size a b = (a + b) % size_mod

-- `-` on ℕ stops at 0, so the modulus is added first.
abbrev pub sub_size : ℕ → ℕ → ℕ
sub_size a b = (a + size_mod - b) % size_mod

abbrev pub mul_size : ℕ → ℕ → ℕ
mul_size a b = (a * b) % size_mod
