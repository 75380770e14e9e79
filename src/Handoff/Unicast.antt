-- ===== src/Handoff/Unicast.antt =====
-- Which addresses a pool of src/sandbox/hyperv/network.rs can hold: with a prefix of 16 bits or
-- more none that src/sandbox/hyperv/guest_protocol.rs refuses.
use native.Mathlib.Nat.{div-eq_of_eq-mul_left, div-div-eq-div-mul, div-eq_of_lt-le, div-add-mod'}
use foxhole.Prelude.{ℕ, ◌+◌, ◌-◌, ◌*◌, ◌/◌, ◌^◌, ◌≤◌, ◌≡◌, ◌≢◌, refl, sym, ap, ◌∙◌, true, arith, ok}
use foxhole.Prelude.Bits.{clear}
use foxhole.Prelude.Powers.{pow_pos, pow_add}
use foxhole.Ipv4.{u32_max, network_address}
use foxhole.Ipv4.Masks.{network_address-clear, broadcast_address-fill, one_less}
use foxhole.Protocol.Request.{valid_guest_unicast}
use foxhole.Network.Platform.{Platform}
use foxhole.Network.Gateway.{ControlledGatewayConfig, validate_gateway, validate_unicast}
use foxhole.Network.Gateway.Pool.{
  IsUsable, IsWide, validate_gateway-PoolFacts, validate_gateway-IsUsable, validate_gateway-unicast,
}

-- Addresses that agree above `k` bits agree above more bits.
quotients : (k a b : ℕ) → clear k a ≡ clear k b → a / 2 ^ k ≡ b / 2 ^ k
quotients k a b e =
    sym (div-eq_of_eq-mul_left {m = clear k a} (pow_pos k) refl)
    ∙ div-eq_of_eq-mul_left (pow_pos k) e

wider : (k a : ℕ) → k ≤ 16 → a / 65536 ≡ a / 2 ^ k / 2 ^ (16 - k)
wider k a h =
    let e : 2 ^ k * 2 ^ (16 - k) ≡ 65536 =
      sym (pow_add k (16 - k)) ∙ ap (λ (t : ℕ). 2 ^ t) {y = 16} (omega arith) in
    sym (div-div-eq-div-mul a (2 ^ k) (2 ^ (16 - k)) ∙ ap (λ t. a / t) e)

same_sixteen : (k a b : ℕ) → k ≤ 16 → clear k a ≡ clear k b → a / 65536 ≡ b / 65536
same_sixteen k a b h e =
    wider k a h ∙ ap (λ t. t / 2 ^ (16 - k)) (quotients k a b e) ∙ sym (wider k b h)

clear-le : (k a : ℕ) → clear k a ≤ a
clear-le k a = omega (arith, div-add-mod' a (2 ^ k))

-- The highest address of all is the last of its block.
clear-u32_max : (k : ℕ) → k ≤ 32 → clear k u32_max + (2 ^ k - 1) ≡ u32_max
clear-u32_max k h =
    let whole : 2 ^ (32 - k) * 2 ^ k ≡ 2 ^ 32 =
      sym (pow_add (32 - k) k) ∙ ap (λ (t : ℕ). 2 ^ t) {y = 32} (omega arith) in
    let less = one_less (2 ^ (32 - k)) (2 ^ k) (pow_pos (32 - k)) in
    let back : 2 ^ (32 - k) - 1 + 1 ≡ 2 ^ (32 - k) = omega (arith, pow_pos (32 - k)) in
    let q : u32_max / 2 ^ k ≡ 2 ^ (32 - k) - 1 =
      div-eq_of_lt-le (2 ^ k) (omega (arith, pow_pos k)) (rw back (omega (arith, whole))) in
    rw q (omega (arith, pow_pos k, less, whole))

-- The blocks that the guest refuses are whole blocks above 16 bits, but for two addresses.
high_decides :
    (a b : ℕ)
    → a / 65536 ≡ b / 65536
    → a ≢ 0
    → a ≢ u32_max
    → valid_guest_unicast b ≡ true
    → valid_guest_unicast a ≡ true
unfolding valid_guest_unicast
high_decides a b e z t v = ground arith

unicast : (a : ℕ) → validate_unicast a ≡ ok tt → valid_guest_unicast a ≡ true
unfolding validate_unicast valid_guest_unicast
unicast a h = ground arith

-- With a gateway of 32-bit addresses that validates and whose prefix has at least 16 bits, every
-- address of the pool is one that the guest accepts as a unicast address.
pub validate_gateway-valid_guest_unicast :
    (p : Platform) (g : ControlledGatewayConfig) (a : ℕ)
    → validate_gateway p g ≡ ok tt
    → IsWide g
    → 16 ≤ g.prefix_length
    → g.guest_address_start ≤ a
    → a ≤ g.guest_address_end
    → valid_guest_unicast a ≡ true
validate_gateway-valid_guest_unicast p g a valid wide long from to =
    high_decides a g.host_ipv4 (same_sixteen k a g.host_ipv4 (omega arith) same) not_zero not_last
      (unicast g.host_ipv4 (validate_gateway-unicast p g valid))
  where
    k : ℕ
    k = 32 - g.prefix_length

    short : g.prefix_length ≤ 32
    short = omega (arith, (validate_gateway-PoolFacts p g valid).prefix_high)

    usable : IsUsable g a
    usable = validate_gateway-IsUsable p g a valid wide from to

    own : network_address a g.prefix_length ≡ clear k a
    own = network_address-clear a g.prefix_length short (omega (arith, wide.last))

    same : clear k a ≡ clear k g.host_ipv4
    same =
        sym own
        ∙ usable.in_subnet
        ∙ network_address-clear g.host_ipv4 g.prefix_length short wide.host

    not_zero : a ≢ 0
    not_zero e = usable.not_network (below ∙ usable.in_subnet)
      where
        below : a ≡ network_address a g.prefix_length
        below = omega (arith, own, clear-le k a, e)

    not_last : a ≢ u32_max
    not_last e = usable.not_broadcast (
        e
        ∙ sym (clear-u32_max k (omega arith))
        ∙ ap (λ t. t + (2 ^ k - 1)) (ap (clear k) (sym e) ∙ same)
        ∙ sym (broadcast_address-fill g.host_ipv4 g.prefix_length short))
