-- ===== src/EventBase/Keys.antt =====
-- eventbase.h: the keys of the timers are ordered strictly and linearly.
use net_library.Base.{◌≡◌, true, false, arith}
use net_library.Base.Int.{ℤ, ltb_ℤ}
use net_library.Base.SortedMap.{IsStrictOrder}
use net_library.EventBase.{TimerId, lt}

antisym_ℤ : (a b : ℤ) → ltb_ℤ a b ≡ false → ltb_ℤ b a ≡ false → a ≡ b
antisym_ℤ a b h k = ground arith

TimerId-path : (a b : TimerId) → a.first ≡ b.first → a.second ≡ b.second → a ≡ b
TimerId-path a b p q = λ i. record { first = p i; second = q i }

lt_irrefl : (a : TimerId) → lt a a ≡ false
unfolding lt
lt_irrefl a = ground arith

lt_trans : (a b c : TimerId) → lt a b ≡ true → lt b c ≡ true → lt a c ≡ true
unfolding lt
lt_trans a b c h k = ground arith

lt_total : (a b : TimerId) → lt a b ≡ false → lt b a ≡ false → a ≡ b
unfolding lt
lt_total a b h k =
    TimerId-path a b (antisym_ℤ a.first b.first (ground arith) (ground arith)) (ground arith)

pub lt-IsStrictOrder : IsStrictOrder lt
lt-IsStrictOrder = record { irrefl = lt_irrefl; trans = lt_trans; total = lt_total }
