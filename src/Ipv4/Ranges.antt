-- ===== src/Ipv4/Ranges.antt =====
-- `forbidden_ranges`, `range_to_cidrs`, `public_ipv4_cidrs` and `forbidden_ipv4_cidrs` of
-- src/sandbox/hyperv/network.rs. A CIDR is kept as its address and prefix; the source prints it.
pub mod Blocks
pub mod Partition
use foxhole.Prelude.{
  ℕ, zero, suc, ◌+◌, ◌-◌, ◌*◌, ◌/◌, ◌%◌, ◌^◌, Bool, true, false, not, ◌&&◌, ◌||◌, List, [], ◌∷◌,
  ◌++◌, any, ◌==◌, ltb, leb, within, if◌then◌else◌, min,
}
use foxhole.Ipv4.{u32_max, ipv4}

-- The tests of the source run over a list of inclusive ranges.
pub record Range : Type 0 where
  pub start : ℕ
  pub end : ℕ

pub record Cidr : Type 0 where
  pub address : ℕ
  pub prefix : ℕ

abbrev pub forbidden_ranges : List Range
forbidden_ranges =
    record { start = ipv4 0 0 0 0; end = ipv4 0 255 255 255 }
    ∷ record { start = ipv4 10 0 0 0; end = ipv4 10 255 255 255 }
    ∷ record { start = ipv4 100 64 0 0; end = ipv4 100 127 255 255 }
    ∷ record { start = ipv4 127 0 0 0; end = ipv4 127 255 255 255 }
    ∷ record { start = ipv4 168 63 129 16; end = ipv4 168 63 129 16 }
    ∷ record { start = ipv4 169 254 0 0; end = ipv4 169 254 255 255 }
    ∷ record { start = ipv4 172 16 0 0; end = ipv4 172 31 255 255 }
    ∷ record { start = ipv4 192 0 0 0; end = ipv4 192 0 0 255 }
    ∷ record { start = ipv4 192 0 2 0; end = ipv4 192 0 2 255 }
    ∷ record { start = ipv4 192 88 99 0; end = ipv4 192 88 99 255 }
    ∷ record { start = ipv4 192 168 0 0; end = ipv4 192 168 255 255 }
    ∷ record { start = ipv4 198 18 0 0; end = ipv4 198 19 255 255 }
    ∷ record { start = ipv4 198 51 100 0; end = ipv4 198 51 100 255 }
    ∷ record { start = ipv4 203 0 113 0; end = ipv4 203 0 113 255 }
    ∷ record { start = ipv4 224 0 0 0; end = ipv4 255 255 255 255 }
    ∷ []

abbrev pub in_ranges : List Range → ℕ → Bool
in_ranges ranges raw = any (λ r. within r.start r.end raw) ranges

unfoldable pub is_public_ipv4 : ℕ → Bool
is_public_ipv4 address = not (in_ranges forbidden_ranges address)

-- `u32::trailing_zeros`, with the width as fuel: 32 for the number 0
pub trailing_zeros_within : ℕ → ℕ → ℕ
trailing_zeros_within zero n = 0
trailing_zeros_within (suc k) n = if n % 2 == 0 then suc (trailing_zeros_within k (n / 2)) else 0

-- The bits up to the highest 1, so that `u64::leading_zeros` is 64 less this.
pub bit_length_within : ℕ → ℕ → ℕ
bit_length_within zero n = 0
bit_length_within (suc k) n = if n == 0 then 0 else suc (bit_length_within k (n / 2))

abbrev pub leading_zeros : ℕ → ℕ
leading_zeros n = 64 - bit_length_within 64 n

-- the size of the next block, from `start` and `end`
pub host_bits : ℕ → ℕ → ℕ
unfolding trailing_zeros_within bit_length_within
host_bits start end =
    let alignment_bits = trailing_zeros_within 32 start in
    let remaining = end - start + 1 in
    let size_bits = 63 - leading_zeros remaining in min alignment_bits size_bits

-- the `loop`, with fuel; each round starts past the block of the round before
pub cidr_loop : ℕ → ℕ → ℕ → List Cidr
unfolding host_bits
cidr_loop zero start end = []
cidr_loop (suc fuel) start end =
    let bits = host_bits start end in
    let next = start + 2 ^ bits in
    let rest = cidr_loop fuel (next % 2 ^ 32) end in
    record { address = start; prefix = 32 - bits } ∷ (if ltb end next then [] else rest)

unfoldable pub range_to_cidrs : ℕ → ℕ → List Cidr
unfolding cidr_loop
range_to_cidrs start end = cidr_loop (end + 1 - start) start end

pub forbidden_cidrs_of : List Range → List Cidr
forbidden_cidrs_of [] = []
forbidden_cidrs_of (r ∷ rs) = range_to_cidrs r.start r.end ++ forbidden_cidrs_of rs

unfoldable pub forbidden_ipv4_cidrs : List Cidr
unfolding forbidden_cidrs_of
forbidden_ipv4_cidrs = forbidden_cidrs_of forbidden_ranges

abbrev pub saturating_add_u64 : ℕ → ℕ → ℕ
saturating_add_u64 a b = min (a + b) (2 ^ 64 - 1)

-- the loop of `public_ipv4_cidrs`, and the range that is left behind it
pub public_cidrs_from : ℕ → List Range → List Cidr
public_cidrs_from cursor [] =
    if leb cursor u32_max then range_to_cidrs (cursor % 2 ^ 32) u32_max else []
public_cidrs_from cursor (r ∷ rs) =
    let rest = public_cidrs_from (saturating_add_u64 r.end 1) rs in
    if ltb cursor r.start
    then range_to_cidrs (cursor % 2 ^ 32) ((r.start - 1) % 2 ^ 32) ++ rest
    else rest

unfoldable pub public_ipv4_cidrs : List Cidr
unfolding public_cidrs_from
public_ipv4_cidrs = public_cidrs_from 0 forbidden_ranges
