-- ===== src/Net/Tests.antt =====
-- Runs of an address.
use net_library.Base.{◌≡◌, refl, [], ◌∷◌}
use net_library.Base.Int.{negsuc}
use net_library.Net.{Ip4Addr, port, ip_fields}

abbrev loopback : Ip4Addr
loopback = record { sin_port = 8080; s_addr = 0x0100_007f }

loopback_fields : ip_fields loopback ≡ 127 ∷ 0 ∷ 0 ∷ 1 ∷ []
loopback_fields = refl

-- `port` gives a port above 32767 as a negative number.
high_port : port (λ n. n) (record { sin_port = 40000; s_addr = 0 }) ≡ negsuc 25535
unfolding port
high_port = refl
