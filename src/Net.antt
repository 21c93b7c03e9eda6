-- ===== src/Net.antt =====
-- net.h, net.cc, port.cc: socket options and IPv4 addresses.
--
-- `sockaddr_in` is its port and its address, as the host reads these two fields. `resolve` is what
-- gethostbyname_r gives, `htons`, `ntohs` and `ntohl` are those of <arpa/inet.h>, and `print` is the
-- "%d" of printf. fcntl and setsockopt are parameters: their flags are sets of bits that the model
-- only sets or clears.
pub mod Address
mod Tests
use net_library.Base.{
  ℕ, zero, suc, ◌+◌, ◌-◌, ◌*◌, ◌/◌, ◌%◌, ◌^◌, Bool, true, false, not, ◌&&◌, Option, none, some,
  List, [], ◌∷◌, ◌++◌, ◌==◌, if◌then◌else◌,
}
use net_library.Base.Int.{ℤ, pos, negsuc, is_neg}
use net_library.Base.Endian.{signed_16, pattern_16}
use net_library.Util

-- F_GETFL gives the flags, or a negative number; F_SETFL takes new ones and gives a result.
module _ {Flags : Type 0} (get_flags : Option Flags) (set_flags : Flags → ℤ) (errno : ℤ) where
  -- setNonBlock, given how O_NONBLOCK is set and cleared.
  pub set_non_block : (Flags → Bool → Flags) → Bool → ℤ
  set_non_block with_bit value = elim get_flags [
    | none ↦ errno
    | some flags ↦
        if value then set_flags (with_bit flags true) else set_flags (with_bit flags false)
  ]

-- setReuseAddr, setReusePort and setNoDelay differ in the option that they name; the value is an int.
pub set_option {ℓ} : {Name : Type ℓ} → (Name → ℕ → ℤ) → Name → Bool → ℤ
set_option setsockopt name value = setsockopt name (if value then 1 else 0)

-- INADDR_ANY and INADDR_NONE
abbrev pub inaddr_any : ℕ
inaddr_any = 0

abbrev pub inaddr_none : ℕ
inaddr_none = 2 ^ 32 - 1

-- What gethostbyname_r gives: its result, and the entry with whether it is of AF_INET.
pub record HostEntry : Type 0 where
  pub is_inet : Bool
  pub addr : ℕ

pub record Answer : Type 0 where
  pub result : ℤ
  pub entry : Option HostEntry

abbrev pub is_zero : ℤ → Bool
is_zero (pos zero) = true
is_zero _ = false

pub get_host_by_name : (List ℕ → Answer) → List ℕ → ℕ
get_host_by_name resolve host = elim (resolve host).entry [
  | none ↦ inaddr_none
  | some he ↦ if is_zero (resolve host).result && he.is_inet then he.addr else inaddr_none
]

pub record Ip4Addr : Type 0 where
  pub sin_port : ℕ
  pub s_addr : ℕ

abbrev pub is_empty : List ℕ → Bool
is_empty [] = true
is_empty (_ ∷ _) = false

-- Ip4Addr(const string& host, short port)
pub make : (List ℕ → Answer) → (ℕ → ℕ) → List ℕ → ℤ → Ip4Addr
unfolding get_host_by_name
make resolve htons host port = record {
  sin_port = htons (pattern_16 port);
  s_addr = if is_empty host then inaddr_any else get_host_by_name resolve host;
}

pub port : (ℕ → ℕ) → Ip4Addr → ℤ
port ntohs a = signed_16 (ntohs a.sin_port)

pub ip_int : (ℕ → ℕ) → Ip4Addr → ℕ
ip_int ntohl a = ntohl a.s_addr

pub is_valid : Ip4Addr → Bool
is_valid a = not (a.s_addr == inaddr_any)

-- The four numbers that `ip` prints, from the shifts and masks of the address.
abbrev pub ip_fields : Ip4Addr → List ℕ
ip_fields a =
    a.s_addr % 2 ^ 8
    ∷ a.s_addr / 2 ^ 8 % 2 ^ 8
    ∷ a.s_addr / 2 ^ 16 % 2 ^ 8
    ∷ a.s_addr / 2 ^ 24 % 2 ^ 8
    ∷ []

module _ (print : ℤ → List ℕ) where
  abbrev pub dotted : List ℕ → List ℕ
  dotted [] = []
  dotted (n ∷ []) = print (pos n)
  dotted (n ∷ m ∷ ns) = print (pos n) ++ (46 ∷ dotted (m ∷ ns))

  pub ip : Ip4Addr → Option (List ℕ)
  ip a = Util.format (some (dotted (ip_fields a)))

  -- toString: "%s:%d"
  pub to_string : (ℕ → ℕ) → Ip4Addr → Option (List ℕ)
  unfolding ip port
  to_string ntohs a = elim (ip a) [
    | none ↦ none
    | some s ↦ Util.format (some (s ++ (58 ∷ print (port ntohs a))))
  ]

  -- hostToIp
  pub host_to_ip : (List ℕ → Answer) → (ℕ → ℕ) → List ℕ → Option (List ℕ)
  unfolding make ip
  host_to_ip resolve htons host = ip (make resolve htons host (pos 0))
