-- ===== src/Port.antt =====
-- port.h: the conversion of integers to network order.
--
-- `host` says how the host keeps an integer in memory. A shifted byte is a product, and `|` of bytes
-- in different places is their sum. `kLittleEndian` is the constant LITTLE_ENDIAN of <endian.h>,
-- which is never 0, so that `htobe` always takes its bytes apart. A signed overload converts the
-- pattern of its argument.
pub mod Order
mod Tests
use net_library.Base.{ℕ, ◌+◌, ◌*◌, ◌==◌, ◌^◌, List, get_or, if◌then◌else◌}
use net_library.Base.Endian.{
  Endian, store, signed_16, signed_32, signed_64, pattern_16, pattern_32, pattern_64,
}
use net_library.Base.Int.{ℤ}

-- LITTLE_ENDIAN
abbrev pub is_little : ℕ
is_little = 1234

abbrev pub byte_at : List ℕ → ℕ → ℕ
byte_at p i = get_or p i 0

module _ (host : Endian) where
  pub htobe_16 : ℕ → ℕ
  htobe_16 v =
      let p = store host 2 v in if is_little == 0 then v else byte_at p 0 * 2 ^ 8 + byte_at p 1

  pub htobe_32 : ℕ → ℕ
  htobe_32 v =
      let p = store host 4 v in
      if is_little == 0
      then v
      else byte_at p 0 * 2 ^ 24 + byte_at p 1 * 2 ^ 16 + byte_at p 2 * 2 ^ 8 + byte_at p 3

  pub htobe_64 : ℕ → ℕ
  htobe_64 v =
      let p = store host 8 v in
      if is_little == 0
      then v
      else byte_at p 0 * 2 ^ 56
        + byte_at p 1 * 2 ^ 48
        + byte_at p 2 * 2 ^ 40
        + byte_at p 3 * 2 ^ 32
        + byte_at p 4 * 2 ^ 24
        + byte_at p 5 * 2 ^ 16
        + byte_at p 6 * 2 ^ 8
        + byte_at p 7

  pub htobe_int16 : ℤ → ℤ
  unfolding htobe_16
  htobe_int16 v = signed_16 (htobe_16 (pattern_16 v))

  pub htobe_int32 : ℤ → ℤ
  unfolding htobe_32
  htobe_int32 v = signed_32 (htobe_32 (pattern_32 v))

  pub htobe_int64 : ℤ → ℤ
  unfolding htobe_64
  htobe_int64 v = signed_64 (htobe_64 (pattern_64 v))
