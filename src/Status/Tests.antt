-- ===== src/Status/Tests.antt =====
-- Runs of a status, and its theorem at such a run.
use net_library.Base.{◌≡◌, refl, true, some, codes, arith}
use net_library.Base.Endian.{little}
use net_library.Base.Int.{pos, negsuc}
use net_library.Status.{from_format, code, msg, copy, is_ok, ok_status, io_error}
use net_library.Status.Layout.{from_format_lem}

new_is_ok : is_ok little ok_status ≡ true
unfolding is_ok
new_is_ok = refl

io_error_text :
    msg little (io_error little (λ e. codes "denied") (pos 13) (codes "open") (codes "a.txt"))
    ≡ some (codes "open a.txt denied")
unfolding io_error msg
io_error_text = refl

from_format_lem_example :
    let s = from_format little (negsuc 4) (codes "no disk") in
    (code little s ≡ negsuc 4) × (msg little s ≡ some (codes "no disk")) × (copy little s ≡ s)
from_format_lem_example =
    from_format_lem little (negsuc 4) (codes "no disk") (omega arith) tt (omega arith)
