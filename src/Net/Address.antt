-- ===== src/Net/Address.antt =====
-- net.cc: what an address keeps of its host and its port.
use net_library.Base.{ℕ, ◌-◌, ◌^◌, ◌<◌, ◌≡◌, refl, ap, ◌∙◌, true, false, none, List, [], ◌∷◌, arith}
use net_library.Base.Int.{ℤ, pos, negsuc, ◌≤ℤ◌}
use net_library.Base.Endian.{little, store, signed_16, pattern_16}
use net_library.Net.{
  Answer, Ip4Addr, make, port, is_valid, ip_fields, get_host_by_name, inaddr_none,
}

-- The range of a short.
abbrev pub IsShort : ℤ → Type 0
IsShort z = (negsuc (2 ^ 15 - 1) ≤ℤ z) × (z ≤ℤ pos (2 ^ 15 - 1))

signed-pattern_16 : (z : ℤ) → IsShort z → (signed_16 (pattern_16 z) ≡ z) × (pattern_16 z < 2 ^ 16)
signed-pattern_16 (pos n) h = ground arith
signed-pattern_16 (negsuc n) h = ground arith

module _ (resolve : List ℕ → Answer) (htons ntohs : ℕ → ℕ)
    (inverse : (n : ℕ) → ntohs (htons n) ≡ n) where
  -- An address gives the port that it was made with back, whatever the host is; an address without a
  -- host is not valid, and one of a host that has no entry has the four fields 255, and counts as
  -- valid.
  pub Ip4Addr-make :
      (host : List ℕ) (c : ℕ) (z : ℤ)
      → IsShort z
      → (resolve (c ∷ host)).entry ≡ none
      → (port ntohs (make resolve htons [] z) ≡ z)
        × (is_valid (make resolve htons [] z) ≡ false)
        × (port ntohs (make resolve htons (c ∷ host) z) ≡ z)
        × (ip_fields (make resolve htons (c ∷ host) z) ≡ 255 ∷ 255 ∷ 255 ∷ 255 ∷ [])
        × (is_valid (make resolve htons (c ∷ host) z) ≡ true)
  unfolding make port is_valid get_host_by_name
  Ip4Addr-make host c z h e =
      let kept = ap signed_16 (inverse (pattern_16 z)) ∙ (signed-pattern_16 z h).0 in
      let e' : get_host_by_name resolve (c ∷ host) ≡ inaddr_none = rw (e, get_host_by_name) in
      let with_addr : ℕ → Ip4Addr = λ a. record { sin_port = htons (pattern_16 z); s_addr = a } in
      (kept, refl, kept, ap (λ a. ip_fields (with_addr a)) e', ap (λ a. is_valid (with_addr a)) e')

-- On a host that keeps the lowest byte first, the fields of an address are its bytes in memory, in
-- their order.
pub ip_fields-store : (a : Ip4Addr) → a.s_addr < 2 ^ 32 → ip_fields a ≡ store little 4 a.s_addr
ip_fields-store a h = ground arith
