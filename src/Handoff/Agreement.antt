-- ===== src/Handoff/Agreement.antt =====
-- That the guest's validation, src/sandbox/hyperv/guest_protocol.rs, agrees with the plan that the
-- host activated, src/sandbox/hyperv/network.rs.
use Prim.Native.Nat.{bit_and, bit_or}
use mathlib.Core.Path.{subst}
use foxhole.Prelude.{
  ℕ, ltb, ◌-◌, ◌≤◌, ◌≡◌, refl, sym, ap, ◌∙◌, Bool, true, false, not, any, none, some, ok, err,
  arith, ◌==◌, inl, inr, ◌⊎◌, is_empty, length, if◌then◌else◌, within, refuse_if, ◌>>◌,
}
use foxhole.Ipv4.{u32_max, prefix_mask}
use foxhole.Protocol.Errors.{ProtocolResult, invalid_network_configuration}
use foxhole.Protocol.Request
use foxhole.Protocol.Request.{
  GuestRunRequest, validate_network_configuration, validate_addressing, validate_endpoint,
  valid_guest_unicast, bad_resolver, bad_internet, bad_host_service, lacks_port, is_set,
}
use foxhole.Network.Platform.{Platform}
use foxhole.Network.Gateway.{ControlledGatewayConfig, validate_gateway, validate_unicast}
use foxhole.Network.Gateway.Pool.{
  IsUsable, IsWide, PoolFacts, validate_gateway-PoolFacts, validate_gateway-IsUsable,
  validate_gateway-unicast,
}
use foxhole.Network.Gateway.Modes.{HostServerFacts, ExternalFacts}
use foxhole.Handoff.Addressing.{not_network, not_broadcast, same_network, not_host, no_bad_resolver}

-- What the tests come to, step by step.
address_checks :
    (r : GuestRunRequest) (guest prefix : ℕ)
    → r.guest_ipv4 ≡ some guest
    → r.prefix_length ≡ some prefix
    → within 1 30 prefix ≡ true
    → (guest == bit_and guest (prefix_mask prefix)) ≡ false
    → (guest == bit_or guest (u32_max - prefix_mask prefix)) ≡ false
    → validate_endpoint r guest (prefix_mask prefix) ≡ ok tt
    → validate_addressing r
      ≡ (if valid_guest_unicast guest then ok tt else err invalid_network_configuration)
unfolding validate_addressing
address_checks r guest prefix g p w n b e =
    simp (g, p, w, n, b, e) (final (valid_guest_unicast guest))
  where
    final :
        (v : Bool)
        → ◌≡◌ {A = ProtocolResult Unit}
            (refuse_if (not v) invalid_network_configuration >> ok tt)
            (if v then ok tt else err invalid_network_configuration)
    final true = refl
    final false = refl

host_endpoint :
    (r : GuestRunRequest) (guest mask host port : ℕ)
    → r.network_policy ≡ Request.host_server
    → r.host_service_ipv4 ≡ some host
    → r.host_service_port ≡ some port
    → (port == 0) ≡ false
    → r.gateway_ipv4 ≡ none
    → is_empty r.dns_servers ≡ true
    → valid_guest_unicast host ≡ true
    → (host == guest) ≡ false
    → (bit_and host mask == bit_and guest mask) ≡ true
    → validate_endpoint r guest mask ≡ ok tt
unfolding validate_endpoint bad_host_service
host_endpoint r guest mask host port pol h p np gw d v ne s =
    rw (pol, h, p, np, gw, d, v, ne, s) refl

internet_endpoint :
    (r : GuestRunRequest) (guest mask gateway : ℕ)
    → r.network_policy ≡ Request.allow_internet
    → r.gateway_ipv4 ≡ some gateway
    → valid_guest_unicast gateway ≡ true
    → (gateway == guest) ≡ false
    → (bit_and gateway mask == bit_and guest mask) ≡ true
    → is_empty r.dns_servers ≡ false
    → length r.dns_servers ≤ 8
    → any bad_resolver r.dns_servers ≡ false
    → r.host_service_ipv4 ≡ none
    → r.host_service_port ≡ none
    → validate_endpoint r guest mask ≡ ok tt
unfolding validate_endpoint bad_internet
internet_endpoint r guest mask gateway pol gw v ne s d few b h p =
    let c : ltb 8 (length r.dns_servers) ≡ false = ground arith in
    rw (pol, gw, v, ne, s, d, c, b, h, p) refl

addressed :
    (r : GuestRunRequest)
    → ((r.network_policy ≡ Request.host_server) ⊎ (r.network_policy ≡ Request.allow_internet))
    → validate_network_configuration r ≡ validate_addressing r
unfolding validate_network_configuration
addressed r (inl e) = rw e refl
addressed r (inr e) = rw e refl

unicast_valid : (a : ℕ) → validate_unicast a ≡ ok tt → valid_guest_unicast a ≡ true
unfolding validate_unicast valid_guest_unicast
unicast_valid a h = ground arith

-- The plan's guest, in a request with the plan's configuration.
module _ (p : Platform) (g : ControlledGatewayConfig) (r : GuestRunRequest) (a : ℕ)
    (valid : validate_gateway p g ≡ ok tt) (wide : IsWide g) (from : g.guest_address_start ≤ a)
    (to : a ≤ g.guest_address_end) (guest : r.guest_ipv4 ≡ some a)
    (prefix : r.prefix_length ≡ some g.prefix_length) where
  facts : PoolFacts g
  facts = validate_gateway-PoolFacts p g valid

  usable : IsUsable g a
  usable = validate_gateway-IsUsable p g a valid wide from to

  within_32 : a ≤ u32_max
  within_32 = omega (arith, wide.last)

  host_valid : valid_guest_unicast g.host_ipv4 ≡ true
  host_valid = unicast_valid g.host_ipv4 (validate_gateway-unicast p g valid)

  prefix_valid : within 1 30 g.prefix_length ≡ true
  prefix_valid = ground (arith, facts.prefix_low, facts.prefix_high)

  pool_address :
      ((r.network_policy ≡ Request.host_server) ⊎ (r.network_policy ≡ Request.allow_internet))
      → validate_endpoint r a (prefix_mask g.prefix_length) ≡ ok tt
      → validate_network_configuration r
        ≡ (if valid_guest_unicast a then ok tt else err invalid_network_configuration)
  pool_address mode endpoint =
      addressed r mode
      ∙ address_checks r a g.prefix_length guest prefix prefix_valid
          (not_network g a usable facts.prefix_high within_32 wide.host)
          (not_broadcast g a usable facts.prefix_high within_32 wide.host) endpoint

  pub host_server_agrees :
      HostServerFacts g
      → r.network_policy ≡ Request.host_server
      → r.host_service_ipv4 ≡ some g.host_ipv4
      → r.host_service_port ≡ g.host_service_port
      → r.gateway_ipv4 ≡ g.gateway_ipv4
      → r.dns_servers ≡ g.dns_servers
      → validate_network_configuration r
        ≡ (if valid_guest_unicast a then ok tt else err invalid_network_configuration)
  host_server_agrees f policy host port gateway dns = pool_address (inl policy) (
      host_endpoint r a (prefix_mask g.prefix_length) g.host_ipv4 f.port policy host
        (port ∙ f.service) f.listening (gateway ∙ f.routeless) (ap is_empty dns ∙ f.resolverless)
        host_valid (not_host g a usable facts.prefix_high within_32 wide.host)
        (same_network g a usable facts.prefix_high within_32 wide.host))

  pub internet_agrees :
      ExternalFacts g
      → r.network_policy ≡ Request.allow_internet
      → r.host_service_ipv4 ≡ none
      → r.host_service_port ≡ none
      → r.gateway_ipv4 ≡ g.gateway_ipv4
      → r.dns_servers ≡ g.dns_servers
      → validate_network_configuration r
        ≡ (if valid_guest_unicast a then ok tt else err invalid_network_configuration)
  internet_agrees f policy host port gateway dns = pool_address (inr policy) (
      internet_endpoint r a (prefix_mask g.prefix_length) g.host_ipv4 policy (gateway ∙ f.gateway)
        host_valid (not_host g a usable facts.prefix_high within_32 wide.host)
        (same_network g a usable facts.prefix_high within_32 wide.host)
        (ap is_empty dns ∙ f.some_resolver) (subst (λ ds. length ds ≤ 8) (sym dns) f.few_resolvers)
        (ap (any bad_resolver) dns ∙ no_bad_resolver g.dns_servers f.public_resolvers) host port)
