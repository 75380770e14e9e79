-- ===== src/Network/Gateway.antt =====
-- `ControlledGatewayConfig` and its validation in src/sandbox/hyperv/network.rs. An address is its
-- 32-bit number.
pub mod Pool
pub mod Modes
use foxhole.Prelude.{
  ℕ, Bool, true, false, not, ◌&&◌, ◌||◌, List, [], ◌∷◌, Option, none, some, ltb, leb, ◌==◌, within,
  all, any, length, is_empty, if◌then◌else◌, Result, ok, err, ◌>>=◌, ◌>>◌, refuse_if, ok_or, Text,
  codes, byte_len, is_blank, ◌=text◌, is_control, eq_ignore_ascii_case, is_ascii_alphanumeric,
  is_ascii_hexdigit,
}
use foxhole.Sandbox.Errors.{SandboxResult, hyperv_network}
use foxhole.Ipv4.{
  ipv4, is_unspecified, is_loopback, is_link_local, is_multicast, broadcast_all, network_address,
  broadcast_address, same_subnet,
}
use foxhole.Ipv4.Ranges.{is_public_ipv4}
use foxhole.Network.Platform.{Platform}

pub data ControlledSwitchType : Type 0 where
  private internal external : ControlledSwitchType

pub data ControlledNetworkMode : Type 0 where
  host_server external_network : ControlledNetworkMode

pub record ControlledGatewayConfig : Type 0 where
  pub switch_name : Text
  pub switch_id : Text
  pub switch_type : ControlledSwitchType
  pub gateway_id : Text
  pub host_ipv4 : ℕ
  pub prefix_length : ℕ
  pub host_service_port : Option ℕ
  pub host_adapter_id : Text
  pub guest_address_start : ℕ
  pub guest_address_end : ℕ
  pub dns_servers : List ℕ
  pub gateway_ipv4 : Option ℕ
  pub allocation_directory : Text
  pub firewall_enforced : Bool
  pub packet_capture_enabled : Bool
  pub host_private_ranges_blocked : Bool
  pub nat_enabled : Bool
  pub owned_by_run : Bool

abbrev pub is_external : ControlledSwitchType → Bool
is_external external = true
is_external _ = false

abbrev pub is_internal : ControlledSwitchType → Bool
is_internal internal = true
is_internal _ = false

abbrev pub is_some {ℓ} : {A : Type ℓ} → Option A → Bool
is_some none = false
is_some (some _) = true

-- `is_none_or(|port| port == 0)`
abbrev pub lacks_port : Option ℕ → Bool
lacks_port none = true
lacks_port (some port) = port == 0

unfoldable pub validate_unicast : ℕ → SandboxResult Unit
validate_unicast address =
    refuse_if
      (is_unspecified address
        || is_loopback address
        || is_link_local address
        || is_multicast address
        || address == broadcast_all)
      hyperv_network

-- the run identifier of the network module, stricter than the protocol's
unfoldable pub validate_run_id : Text → SandboxResult Unit
validate_run_id run_id =
    refuse_if (not (within 16 64 (byte_len run_id)) || not (all is_ascii_hexdigit run_id))
      hyperv_network

abbrev identifier_char : ℕ → Bool
identifier_char c =
    is_ascii_alphanumeric c
    || (c == b'-' || c == b'_' || c == b'{' || c == b'}' || c == b':' || c == b'\\')

unfoldable pub validate_identifier : Text → SandboxResult Unit
validate_identifier identifier =
    refuse_if
      (is_blank identifier || ltb 128 (byte_len identifier) || not (all identifier_char identifier))
      hyperv_network

-- the build that is not a test's
unfoldable pub allocation_directory_is_allowed : Platform → Text → Bool
allocation_directory_is_allowed p directory = elim p.program_data [
  | none ↦ false
  | some root ↦
      not (is_empty root)
      && eq_ignore_ascii_case directory
          (p.join (p.join (p.join root (codes "Foxhole")) (codes "network")) (codes "allocations"))
]

unfoldable pub bad_settings : Platform → ControlledGatewayConfig → Bool
bad_settings p g =
    is_blank g.switch_name
    || ltb 80 (byte_len g.switch_name)
    || any is_control g.switch_name
    || eq_ignore_ascii_case g.switch_name (codes "Default Switch")
    || is_external g.switch_type
    || g.owned_by_run
    || not (within 1 30 g.prefix_length)
    || not (p.is_absolute g.allocation_directory)
    || not (allocation_directory_is_allowed p g.allocation_directory)

unfoldable pub bad_pool : ControlledGatewayConfig → Bool
bad_pool g =
    ltb g.guest_address_end g.guest_address_start
    || not (same_subnet g.host_ipv4 g.guest_address_start g.prefix_length)
    || not (same_subnet g.host_ipv4 g.guest_address_end g.prefix_length)
    || within g.guest_address_start g.guest_address_end g.host_ipv4

unfoldable pub bad_endpoint : ControlledGatewayConfig → Bool
bad_endpoint g =
    let network = network_address g.host_ipv4 g.prefix_length in
    let broadcast = broadcast_address g.host_ipv4 g.prefix_length in
    any (λ address. address == network || address == broadcast)
      (g.host_ipv4 ∷ g.guest_address_start ∷ g.guest_address_end ∷ [])

unfoldable pub validate_gateway : Platform → ControlledGatewayConfig → SandboxResult Unit
unfolding bad_settings bad_pool bad_endpoint
validate_gateway p g = do
  validate_identifier g.switch_id
  validate_identifier g.gateway_id
  validate_identifier g.host_adapter_id
  refuse_if (bad_settings p g) hyperv_network
  validate_unicast g.host_ipv4
  validate_unicast g.guest_address_start
  validate_unicast g.guest_address_end
  refuse_if (bad_pool g) hyperv_network
  refuse_if (bad_endpoint g) hyperv_network

-- `BTreeSet::len` of a list's set is the list's length when no entry comes twice.
abbrev has_number : ℕ → List ℕ → Bool
has_number n [] = false
has_number n (m ∷ ms) = (m == n) || has_number n ms

abbrev all_unique : List ℕ → Bool
all_unique [] = true
all_unique (n ∷ ns) = not (has_number n ns) && all_unique ns

unfoldable pub bad_host_server : ControlledGatewayConfig → Bool
bad_host_server g =
    not (is_internal g.switch_type)
    || not (g.switch_name =text codes "Foxhole Internal")
    || not (g.host_ipv4 == ipv4 192 168 250 1)
    || not (g.prefix_length == 24)
    || g.nat_enabled
    || is_some g.gateway_ipv4
    || not (is_empty g.dns_servers)
    || lacks_port g.host_service_port
    || not g.firewall_enforced

unfoldable pub bad_external : ControlledGatewayConfig → ℕ → Bool
bad_external g gateway_address =
    not (is_internal g.switch_type)
    || not g.nat_enabled
    || not g.firewall_enforced
    || not g.packet_capture_enabled
    || not g.host_private_ranges_blocked
    || is_empty g.dns_servers
    || ltb 8 (length g.dns_servers)
    || not (all_unique g.dns_servers)
    || is_some g.host_service_port
    || not (gateway_address == g.host_ipv4)
    || any (λ address. not (is_public_ipv4 address)) g.dns_servers

unfoldable pub validate_mode : ControlledGatewayConfig → ControlledNetworkMode → SandboxResult Unit
unfolding bad_host_server bad_external
validate_mode g host_server = refuse_if (bad_host_server g) hyperv_network
validate_mode g external_network = do
  gateway_address ← ok_or g.gateway_ipv4 hyperv_network
  validate_unicast gateway_address
  refuse_if (bad_external g gateway_address) hyperv_network
