-- ===== src/Port/Tests.antt =====
-- A run of the conversion, and its theorem at such a run.
use net_library.Base.{◌≡◌, refl}
use net_library.Base.Endian.{little}
use net_library.Port.{htobe_32}

swaps : htobe_32 little 0x0a0b_0c0d ≡ 0x0d0c_0b0a
unfolding htobe_32
swaps = refl
