-- ===== src/Protocol/Request/Addresses.antt =====
-- The addressing that a network policy asks for.
use foxhole.Prelude.{ℕ, ◌-◌, ◌≤◌, ◌≡◌, ◌≢◌, ◌==◌, true, false, [], none, some, arith, All, length}
use Prim.Native.Nat.{bit_and, bit_or}
use foxhole.Ipv4.{
  u32_max, is_unspecified, is_loopback, is_link_local, is_multicast, is_private, is_documentation,
  broadcast_all, prefix_mask,
}
use foxhole.Protocol.Request.{GuestRunRequest, GuestNetworkPolicy, valid_guest_unicast}

-- An address of one machine: none of the special ones.
pub record IsUnicast (a : ℕ) : Type 0 where
  pub specified : is_unspecified a ≡ false
  pub remote : is_loopback a ≡ false
  pub routed : is_link_local a ≡ false
  pub single : is_multicast a ≡ false
  pub directed : (a == broadcast_all) ≡ false

pub valid_guest_unicast-IsUnicast : (a : ℕ) → valid_guest_unicast a ≡ true → IsUnicast a
unfolding valid_guest_unicast
valid_guest_unicast-IsUnicast a h = record {
  specified = ground arith;
  remote = ground arith;
  routed = ground arith;
  single = ground arith;
  directed = ground arith;
}

-- No address at all.
pub record IsUnaddressed (r : GuestRunRequest) : Type 0 where
  pub guest : r.guest_ipv4 ≡ none
  pub prefix : r.prefix_length ≡ none
  pub gateway : r.gateway_ipv4 ≡ none
  pub resolvers : r.dns_servers ≡ []
  pub host : r.host_service_ipv4 ≡ none
  pub port : r.host_service_port ≡ none

-- The guest's own address, within its subnet.
pub record IsOwn (r : GuestRunRequest) (guest prefix : ℕ) : Type 0 where
  pub named : r.guest_ipv4 ≡ some guest
  pub sized : r.prefix_length ≡ some prefix
  pub subnet : (1 ≤ prefix) × (prefix ≤ 30)
  pub unicast : IsUnicast guest
  pub inside : guest ≢ bit_and guest (prefix_mask prefix)
  pub below_last : guest ≢ bit_or guest (u32_max - prefix_mask prefix)

-- Another machine of the guest's subnet.
pub record IsNeighbour (guest prefix other : ℕ) : Type 0 where
  pub unicast : IsUnicast other
  pub distinct : other ≢ guest
  pub alongside : bit_and other (prefix_mask prefix) ≡ bit_and guest (prefix_mask prefix)

-- A service on a neighbour, and nothing else.
pub record IsServed (r : GuestRunRequest) (guest prefix host port : ℕ) : Type 0 where
  pub named : r.host_service_ipv4 ≡ some host
  pub neighbour : IsNeighbour guest prefix host
  pub listening : r.host_service_port ≡ some port
  pub reachable : 1 ≤ port
  pub routeless : r.gateway_ipv4 ≡ none
  pub resolverless : r.dns_servers ≡ []

-- A resolver outside private and documentation addresses.
abbrev pub IsResolver : ℕ → Type 0
IsResolver a = IsUnicast a × (is_private a ≡ false) × (is_documentation a ≡ false)

-- A neighbour as the gateway, one to eight resolvers, and no service.
pub record IsRouted (r : GuestRunRequest) (guest prefix gateway : ℕ) : Type 0 where
  pub named : r.gateway_ipv4 ≡ some gateway
  pub neighbour : IsNeighbour guest prefix gateway
  pub resolvers : (1 ≤ length r.dns_servers) × (length r.dns_servers ≤ 8)
  pub resolving : All IsResolver r.dns_servers
  pub hostless : r.host_service_ipv4 ≡ none
  pub portless : r.host_service_port ≡ none

-- The addressing that each policy asks for.
abbrev pub IsAddressed : GuestNetworkPolicy → GuestRunRequest → Type 0
IsAddressed GuestNetworkPolicy.host_server r =
    (guest prefix host port : ℕ) × IsOwn r guest prefix × IsServed r guest prefix host port
IsAddressed GuestNetworkPolicy.allow_internet r =
    (guest prefix gateway : ℕ) × IsOwn r guest prefix × IsRouted r guest prefix gateway
IsAddressed _ r = IsUnaddressed r
