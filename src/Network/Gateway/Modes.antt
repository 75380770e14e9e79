-- ===== src/Network/Gateway/Modes.antt =====
-- What the mode's validation in src/sandbox/hyperv/network.rs leaves of a gateway.
use foxhole.Prelude.{
  ℕ, ◌≤◌, ◌≡◌, true, false, not, none, some, any, is_empty, length, arith, inl, inr, ok,
  Option-cases, ◌==◌,
}
use foxhole.Ipv4.{ipv4}
use foxhole.Ipv4.Ranges.{is_public_ipv4}
use foxhole.Network.Gateway.{
  ControlledGatewayConfig, external_network, validate_mode, validate_unicast, bad_host_server,
  bad_external, lacks_port, is_some,
}
use foxhole.Network.Gateway

pub record HostServerFacts (g : ControlledGatewayConfig) : Type 0 where
  pub port : ℕ
  pub service : g.host_service_port ≡ some port
  pub listening : (port == 0) ≡ false
  pub host : g.host_ipv4 ≡ ipv4 192 168 250 1
  pub prefix : g.prefix_length ≡ 24
  pub routeless : g.gateway_ipv4 ≡ none
  pub resolverless : is_empty g.dns_servers ≡ true

pub validate_mode-HostServerFacts :
    (g : ControlledGatewayConfig) → validate_mode g Gateway.host_server ≡ ok tt → HostServerFacts g
unfolding validate_mode bad_host_server
validate_mode-HostServerFacts g h = elim (Option-cases g.host_service_port) [
  | inl e ↦ absurd (ground arith)
  | inr (port, e) ↦ record {
    port = port;
    service = e;
    listening = ground arith;
    host = ground arith;
    prefix = ground arith;
    routeless = ground arith;
    resolverless = ground arith;
  }
]

pub record ExternalFacts (g : ControlledGatewayConfig) : Type 0 where
  pub gateway : g.gateway_ipv4 ≡ some g.host_ipv4
  pub some_resolver : is_empty g.dns_servers ≡ false
  pub few_resolvers : length g.dns_servers ≤ 8
  pub public_resolvers : any (λ address. not (is_public_ipv4 address)) g.dns_servers ≡ false
  pub serviceless : g.host_service_port ≡ none

pub validate_mode-ExternalFacts :
    (g : ControlledGatewayConfig) → validate_mode g external_network ≡ ok tt → ExternalFacts g
unfolding validate_mode bad_external
validate_mode-ExternalFacts g h = elim (Option-cases g.gateway_ipv4) [
  | inl e ↦ absurd (ground arith)
  | inr (address, e) ↦ record {
    gateway = ground arith;
    some_resolver = ground arith;
    few_resolvers = ground arith;
    public_resolvers = ground arith;
    serviceless = ground arith;
  }
]
