-- ===== src/Port/Order.antt =====
-- port.h: htobe and the bytes in memory.
use net_library.Base.{ℕ, ◌<◌, ◌^◌, ◌≡◌, arith}
use net_library.Base.Endian.{Endian, little, big, store, high_first}
use net_library.Port.{htobe_16, htobe_32, htobe_64}

-- On a host of either kind the bytes of `htobe(v)` in memory are those of `v`, the highest first,
-- for integers of 2, 4 and 8 bytes.
pub htobe-store :
    (host : Endian) (a b c : ℕ)
    → a < 2 ^ 16
    → b < 2 ^ 32
    → c < 2 ^ 64
    → (store host 2 (htobe_16 host a) ≡ high_first 2 a)
      × (store host 4 (htobe_32 host b) ≡ high_first 4 b)
      × (store host 8 (htobe_64 host c) ≡ high_first 8 c)
unfolding htobe_16 htobe_32 htobe_64
htobe-store little a b c h k l = (ground arith, ground arith, ground arith)
htobe-store big a b c h k l = (ground arith, ground arith, ground arith)

-- `ntoh`, which is `htobe` too, undoes `hton`, for integers of 2, 4 and 8 bytes.
pub htobe-htobe :
    (host : Endian) (a b c : ℕ)
    → a < 2 ^ 16
    → b < 2 ^ 32
    → c < 2 ^ 64
    → (htobe_16 host (htobe_16 host a) ≡ a)
      × (htobe_32 host (htobe_32 host b) ≡ b)
      × (htobe_64 host (htobe_64 host c) ≡ c)
unfolding htobe_16 htobe_32 htobe_64
htobe-htobe little a b c h k l = (omega arith, omega arith, omega arith)
htobe-htobe big a b c h k l = (omega arith, omega arith, omega arith)
