-- ===== src/Poller/Bits.antt =====
-- channel.cc: the flags of a channel.
use net_library.Base.{ℕ, ◌/◌, ◌%◌, ◌≡◌, ap, ◌∙◌, Bool, true, false, arith, refl, ◌==◌}
use net_library.Poller.{
  Channel, has, set_bit, enable_read, enable_write, enable_read_write, read_enable, write_enable,
}

set_read :
    (bits : ℕ) (b : Bool) → (has (set_bit bits 1 b) 1 ≡ b) × (set_bit bits 1 b / 2 ≡ bits / 2)
set_read bits true = ground arith
set_read bits false = ground arith

set_write :
    (bits : ℕ) (b : Bool)
    → (has (set_bit bits 4 b) 4 ≡ b)
      × (set_bit bits 4 b / 8 ≡ bits / 8)
      × (set_bit bits 4 b % 4 ≡ bits % 4)
set_write bits true = ground arith
set_write bits false = ground arith

same_read : (a b : ℕ) → a % 4 ≡ b % 4 → has a 1 ≡ has b 1
same_read a b h = ap (λ k. k == 1) (omega (arith, h))

-- `enableReadWrite` sets the two flags as it is told, and changes no higher bit and no descriptor.
pub enable_read_write_lem :
    (ch : Channel) (read write : Bool)
    → let ch' = enable_read_write ch read write in
      (read_enable ch' ≡ read)
      × (write_enable ch' ≡ write)
      × (ch'.events / 8 ≡ ch.events / 8)
      × (ch'.fd ≡ ch.fd)
unfolding enable_read_write
enable_read_write_lem ch read write =
    let bits = set_bit ch.events 1 read in
    let r = set_read ch.events read in
    let w = set_write bits write in
    (same_read (set_bit bits 4 write) bits w.2 ∙ r.0, w.0, omega (arith, w.1, r.1), refl)

-- `enableRead` and `enableWrite` set their own flag and leave the other as it is.
pub enable_one_lem :
    (ch : Channel) (b : Bool)
    → (read_enable (enable_read ch b) ≡ b)
      × (write_enable (enable_read ch b) ≡ write_enable ch)
      × (write_enable (enable_write ch b) ≡ b)
      × (read_enable (enable_write ch b) ≡ read_enable ch)
unfolding enable_read enable_write
enable_one_lem ch b =
    let r = set_read ch.events b in
    let w = set_write ch.events b in
    (
      r.0,
      ap (λ k. k == 1) (omega (arith, r.1)),
      w.0,
      same_read (set_bit ch.events 4 b) ch.events w.2,
    )
