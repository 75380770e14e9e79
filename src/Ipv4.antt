-- ===== src/Ipv4.antt =====
-- The IPv4 address arithmetic of src/sandbox/hyperv/network.rs. An address is its 32-bit number,
-- the first octet the highest, as `u32::from` gives it.
pub mod Ranges
pub mod Masks
mod Tests
use Prim.Native.Nat.{bit_and, bit_or}
use foxhole.Prelude.{
  ℕ, suc, ◌+◌, ◌-◌, ◌*◌, ◌%◌, ◌^◌, Bool, ◌&&◌, ◌||◌, ◌==◌, ltb, leb, within, if◌then◌else◌,
}

abbrev pub u32_max : ℕ
u32_max = 2 ^ 32 - 1

-- `Ipv4Addr::new`
abbrev pub ipv4 : ℕ → ℕ → ℕ → ℕ → ℕ
ipv4 a b c d = ((a * 256 + b) * 256 + c) * 256 + d

-- The tests of `std::net::Ipv4Addr` that the source calls.
abbrev pub is_unspecified : ℕ → Bool
is_unspecified a = a == 0

abbrev pub is_loopback : ℕ → Bool
is_loopback = within (ipv4 127 0 0 0) (ipv4 127 255 255 255)

abbrev pub is_link_local : ℕ → Bool
is_link_local = within (ipv4 169 254 0 0) (ipv4 169 254 255 255)

abbrev pub is_multicast : ℕ → Bool
is_multicast = within (ipv4 224 0 0 0) (ipv4 239 255 255 255)

abbrev pub is_private : ℕ → Bool
is_private a =
    within (ipv4 10 0 0 0) (ipv4 10 255 255 255) a
    || within (ipv4 172 16 0 0) (ipv4 172 31 255 255) a
    || within (ipv4 192 168 0 0) (ipv4 192 168 255 255) a

abbrev pub is_documentation : ℕ → Bool
is_documentation a =
    within (ipv4 192 0 2 0) (ipv4 192 0 2 255) a
    || within (ipv4 198 51 100 0) (ipv4 198 51 100 255) a
    || within (ipv4 203 0 113 0) (ipv4 203 0 113 255) a

abbrev pub broadcast_all : ℕ
broadcast_all = ipv4 255 255 255 255

-- `u32::MAX << (32 - prefix)`, for a prefix of 1 to 32
abbrev pub prefix_mask : ℕ → ℕ
prefix_mask prefix = (u32_max * 2 ^ (32 - prefix)) % 2 ^ 32

unfoldable pub network_address : ℕ → ℕ → ℕ
network_address address prefix = bit_and address (prefix_mask prefix)

unfoldable pub broadcast_address : ℕ → ℕ → ℕ
broadcast_address address prefix = bit_or address (u32_max - prefix_mask prefix)

unfoldable pub same_subnet : ℕ → ℕ → ℕ → Bool
same_subnet left right prefix = network_address left prefix == network_address right prefix
