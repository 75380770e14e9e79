-- ===== src/Network/Gateway/Pool.antt =====
-- Every address of a validated pool of src/sandbox/hyperv/network.rs can be given to a guest.
use native.Mathlib.Nat.{mod-eq-zero_of_dvd, dvd-mul_left}
use foxhole.Prelude.{
  ℕ, ◌+◌, ◌-◌, ◌/◌, ◌%◌, ◌^◌, ◌≤◌, ◌<◌, ◌≡◌, ◌≢◌, sym, ◌∙◌, true, false, arith, ==_iff, within, ok,
}
use foxhole.Prelude.Powers.{pow_pos}
use foxhole.Prelude.Bits.{clear}
use foxhole.Ipv4.{u32_max, network_address, broadcast_address, same_subnet}
use foxhole.Ipv4.Masks.{network_address-clear, broadcast_address-fill}
use foxhole.Ipv4.Ranges.Blocks.{clear_iff}
use foxhole.Network.Platform.{Platform}
use foxhole.Network.Gateway.{
  ControlledGatewayConfig, bad_settings, bad_pool, bad_endpoint, validate_unicast, validate_gateway,
}

-- An `Ipv4Addr` has 32 bits.
pub record IsWide (g : ControlledGatewayConfig) : Type 0 where
  pub host : g.host_ipv4 ≤ u32_max
  pub first : g.guest_address_start ≤ u32_max
  pub last : g.guest_address_end ≤ u32_max

-- An address that a guest can have beside the host.
pub record IsUsable (g : ControlledGatewayConfig) (address : ℕ) : Type 0 where
  pub in_subnet :
      network_address address g.prefix_length ≡ network_address g.host_ipv4 g.prefix_length
  pub not_network : address ≢ network_address g.host_ipv4 g.prefix_length
  pub not_broadcast : address ≢ broadcast_address g.host_ipv4 g.prefix_length
  pub not_host : address ≢ g.host_ipv4

-- The subnet as an interval: from a block's start up to the size of the block.
module _ (k s first last address : ℕ) (aligned : s % 2 ^ k ≡ 0) where
  block_between :
      clear k first ≡ s → clear k last ≡ s → first ≤ address → address ≤ last → clear k address ≡ s
  block_between f l lo hi = (clear_iff k s address aligned).1 (
    omega (arith, (clear_iff k s first aligned).0 f),
    omega (arith, (clear_iff k s last aligned).0 l),
  )

clear-aligned : (k x : ℕ) → clear k x % 2 ^ k ≡ 0
clear-aligned k x = mod-eq-zero_of_dvd (2 ^ k) (dvd-mul_left (2 ^ k) (x / 2 ^ k))

-- What the pool's tests leave.
pub record PoolFacts (g : ControlledGatewayConfig) : Type 0 where
  pub prefix_low : 1 ≤ g.prefix_length
  pub prefix_high : g.prefix_length ≤ 30
  pub pool : bad_pool g ≡ false
  pub endpoint : bad_endpoint g ≡ false

settings_prefix :
    (p : Platform) (g : ControlledGatewayConfig)
    → bad_settings p g ≡ false
    → (1 ≤ g.prefix_length) × (g.prefix_length ≤ 30)
unfolding bad_settings
settings_prefix p g h = ground arith

pub validate_gateway-PoolFacts :
    (p : Platform) (g : ControlledGatewayConfig) → validate_gateway p g ≡ ok tt → PoolFacts g
unfolding validate_gateway
validate_gateway-PoolFacts p g h =
    let settings : bad_settings p g ≡ false = ground arith in
    let (low, high) = settings_prefix p g settings in
    record { prefix_low = low; prefix_high = high; pool = ground arith; endpoint = ground arith }

pool_order :
    (g : ControlledGatewayConfig)
    → bad_pool g ≡ false
    → (same_subnet g.host_ipv4 g.guest_address_start g.prefix_length ≡ true)
      × (same_subnet g.host_ipv4 g.guest_address_end g.prefix_length ≡ true)
      × (within g.guest_address_start g.guest_address_end g.host_ipv4 ≡ false)
unfolding bad_pool
pool_order g h = ground arith

pool_ordered :
    (g : ControlledGatewayConfig) → bad_pool g ≡ false → g.guest_address_start ≤ g.guest_address_end
unfolding bad_pool
pool_ordered g h = ground arith

-- The first address of a validated pool is not above the last, and the host's is a unicast one.
pub validate_gateway-order :
    (p : Platform) (g : ControlledGatewayConfig)
    → validate_gateway p g ≡ ok tt
    → g.guest_address_start ≤ g.guest_address_end
validate_gateway-order p g h = pool_ordered g (validate_gateway-PoolFacts p g h).pool

pub validate_gateway-unicast :
    (p : Platform) (g : ControlledGatewayConfig)
    → validate_gateway p g ≡ ok tt
    → validate_unicast g.host_ipv4 ≡ ok tt
unfolding validate_gateway
validate_gateway-unicast p g h = ground arith

pool_ends :
    (g : ControlledGatewayConfig)
    → bad_endpoint g ≡ false
    → (g.guest_address_start ≢ network_address g.host_ipv4 g.prefix_length)
      × (g.guest_address_end ≢ broadcast_address g.host_ipv4 g.prefix_length)
unfolding bad_endpoint
pool_ends g h = ground arith

module _ (g : ControlledGatewayConfig) (facts : PoolFacts g) (wide : IsWide g) where
  -- The prefix clears `k` bits of the host's address, and of both ends of the pool alike.
  abbrev k : ℕ
  k = 32 - g.prefix_length

  abbrev network : ℕ
  network = clear k g.host_ipv4

  low_prefix : g.prefix_length ≤ 32
  low_prefix = omega (arith, facts.prefix_high)

  host_network : network_address g.host_ipv4 g.prefix_length ≡ network
  host_network = network_address-clear g.host_ipv4 g.prefix_length low_prefix wide.host

  end_network :
      (a : ℕ) → a ≤ u32_max → same_subnet g.host_ipv4 a g.prefix_length ≡ true → clear k a ≡ network
  unfolding same_subnet
  end_network a b h =
      sym (network_address-clear a g.prefix_length low_prefix b)
      ∙ sym ((==_iff _ _).0 h)
      ∙ host_network

  pool_bounds : (network < g.guest_address_start) × (g.guest_address_end < network + 2 ^ k - 1)
  pool_bounds =
      let (same_first, same_last, apart) = pool_order g facts.pool in
      let (not_first, not_last) = pool_ends g facts.endpoint in
      let aligned = clear-aligned k g.host_ipv4 in
      let below =
        (clear_iff k network g.guest_address_start aligned).0
          (end_network g.guest_address_start wide.first same_first) in
      let above =
        (clear_iff k network g.guest_address_end aligned).0
          (end_network g.guest_address_end wide.last same_last) in
      let ne_first : g.guest_address_start ≢ network = λ e. not_first (e ∙ sym host_network) in
      let ne_last : g.guest_address_end ≢ network + (2 ^ k - 1) =
        λ e. not_last (e ∙ sym (broadcast_address-fill g.host_ipv4 g.prefix_length low_prefix)) in
      (omega arith, omega (arith, pow_pos k))

  in_network : (a : ℕ) → g.guest_address_start ≤ a → a ≤ g.guest_address_end → clear k a ≡ network
  in_network a lo hi =
      let (same_first, same_last, apart) = pool_order g facts.pool in
      block_between k network g.guest_address_start g.guest_address_end a
        (clear-aligned k g.host_ipv4) (end_network g.guest_address_start wide.first same_first)
        (end_network g.guest_address_end wide.last same_last) lo hi

  pub pool-IsUsable : (a : ℕ) → g.guest_address_start ≤ a → a ≤ g.guest_address_end → IsUsable g a
  pool-IsUsable a lo hi =
      let (above, below) = pool_bounds in
      record {
        in_subnet =
            network_address-clear a g.prefix_length low_prefix (omega (arith, wide.last))
            ∙ in_network a lo hi
            ∙ sym host_network;
        not_network = λ e. absurd (omega (arith, e ∙ host_network));
        not_broadcast = λ e. absurd (
            omega (
              arith,
              e ∙ broadcast_address-fill g.host_ipv4 g.prefix_length low_prefix,
              pow_pos k,
            ));
        not_host = λ e. host_outside a lo hi (pool_order g facts.pool).2 e;
      }
    where
      host_outside :
          (a : ℕ)
          → g.guest_address_start ≤ a
          → a ≤ g.guest_address_end
          → within g.guest_address_start g.guest_address_end g.host_ipv4 ≡ false
          → a ≢ g.host_ipv4
      host_outside a lo hi h e = ground arith

-- With a gateway of 32-bit addresses that validates, every address of the pool is one of the
-- host's subnet, other than the subnet's own address, its broadcast address and the host's.
pub validate_gateway-IsUsable :
    (p : Platform) (g : ControlledGatewayConfig) (a : ℕ)
    → validate_gateway p g ≡ ok tt
    → IsWide g
    → g.guest_address_start ≤ a
    → a ≤ g.guest_address_end
    → IsUsable g a
validate_gateway-IsUsable p g a h wide = pool-IsUsable g (validate_gateway-PoolFacts p g h) wide a
