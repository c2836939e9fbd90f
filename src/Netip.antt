-- ===== src/Netip.antt =====
-- What the program uses of Go's package net/netip. ParseAddr and String are a parameter, with the
-- documented fact that ParseAddr reads what String prints.
use remnanode_exporter.Prelude.{
  ℕ, ◌-◌, ◌*◌, ◌/◌, ◌%◌, ◌^◌, ◌≡◌, ◌≢◌, Bool, true, false, ◌||◌, Option, some, [], ◌==◌,
  if◌then◌else◌, Text,
}

-- netip.Addr: the zero Addr, an IPv4 address, or an IPv6 address with its zone. The number is the
-- address in network byte order.
pub data Addr : Type 0 where
  no_addr : Addr
  v4 : ℕ → Addr
  v6 : ℕ → Text → Addr

pub record Netip : Type 0 where
  pub parse_addr : Text → Option Addr
  pub show_addr : Addr → Text

abbrev pub ReadsBack : Netip → Type 0
ReadsBack ip = (a : Addr) → a ≢ no_addr → ip.parse_addr (ip.show_addr a) ≡ some a

unfoldable pub is_valid : Addr → Bool
is_valid no_addr = false
is_valid (v4 n) = true
is_valid (v6 n zone) = true

unfoldable pub is_6 : Addr → Bool
is_6 no_addr = false
is_6 (v4 n) = false
is_6 (v6 n zone) = true

-- ::ffff:0:0/96
unfoldable pub is_4in6 : Addr → Bool
is_4in6 no_addr = false
is_4in6 (v4 n) = false
is_4in6 (v6 n zone) = n / 2 ^ 32 == 0xffff

unfoldable pub unmap : Addr → Addr
unmap no_addr = no_addr
unmap (v4 n) = v4 n
unmap (v6 n zone) = if n / 2 ^ 32 == 0xffff then v4 (n % 2 ^ 32) else v6 n zone

-- each of these looks at the unmapped address
unfoldable pub plain_is_loopback : Addr → Bool
plain_is_loopback no_addr = false
plain_is_loopback (v4 n) = n / 2 ^ 24 == 127
plain_is_loopback (v6 n zone) = n == 1

unfoldable pub plain_is_private : Addr → Bool
plain_is_private no_addr = false
plain_is_private (v4 n) = n / 2 ^ 24 == 10 || n / 2 ^ 20 == 0xac1 || n / 2 ^ 16 == 0xc0a8
plain_is_private (v6 n zone) = n / 2 ^ 121 == 0x7e

unfoldable pub plain_is_link_local : Addr → Bool
plain_is_link_local no_addr = false
plain_is_link_local (v4 n) = n / 2 ^ 16 == 0xa9fe
plain_is_link_local (v6 n zone) = n / 2 ^ 118 == 0x3fa

unfoldable pub is_loopback : Addr → Bool
is_loopback a = plain_is_loopback (unmap a)

unfoldable pub is_private : Addr → Bool
is_private a = plain_is_private (unmap a)

unfoldable pub is_link_local_unicast : Addr → Bool
is_link_local_unicast a = plain_is_link_local (unmap a)

-- Addr.Prefix(bits) with bits in range: the other bits and the zone are dropped
unfoldable pub mask : Addr → ℕ → Addr
mask no_addr bits = no_addr
mask (v4 n) bits = v4 (n / 2 ^ (32 - bits) * 2 ^ (32 - bits))
mask (v6 n zone) bits = v6 (n / 2 ^ (128 - bits) * 2 ^ (128 - bits)) []

unfoldable pub bit_len : Addr → ℕ
bit_len no_addr = 0
bit_len (v4 n) = 32
bit_len (v6 n zone) = 128
