-- ===== src/Util/Tests.antt =====
-- A run of `format`.
use net_library.Base.{◌≡◌, refl, some, codes}
use net_library.Util.{format}

formats_short : format (some (codes "7 ok")) ≡ some (codes "7 ok")
unfolding format
formats_short = refl
