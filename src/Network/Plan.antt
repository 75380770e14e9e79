-- ===== src/Network/Plan.antt =====
-- `plan`, `activate` and `guest_configuration` of src/sandbox/hyperv/network.rs.
pub mod Activating
pub mod Planned
pub mod Enforcing
use foxhole.Prelude.{
  ℕ, Bool, true, false, not, ◌&&◌, ◌||◌, ◌+◌, leb, length, List, [], ◌∷◌, ◌++◌, Option, none, some,
  Result, ok, err, ◌>>=◌, ◌>>◌, refuse_if, ok_or, Text, codes, if◌then◌else◌,
}
use foxhole.Sandbox.Errors.{SandboxError, SandboxResult, hyperv_network}
use foxhole.Sandbox.Policy.{
  NetworkPolicy, deny_all, host_server, allow_internet, allow_list, capture_only,
}
use foxhole.Ipv4.Ranges.{forbidden_ipv4_cidrs, public_ipv4_cidrs}
use foxhole.Network.Platform.{Platform}
use foxhole.Network.Gateway.{
  ControlledGatewayConfig, ControlledSwitchType, ControlledNetworkMode, external_network,
  validate_gateway, validate_mode, validate_run_id, is_some,
}
use foxhole.Network.Gateway
use foxhole.Network.Lease.{GuestAddressLease, Directory, allocate_guest_address}
use foxhole.Network.Firewall.{
  FirewallRuleSpec, rule_prefix, host_rules, external_rules, final_rules,
}

-- The fields of `HyperVNetworkPlan::Controlled`.
pub record ControlledPlan : Type 0 where
  pub network_mode : ControlledNetworkMode
  pub switch_name : Text
  pub switch_id : Text
  pub switch_type : ControlledSwitchType
  pub gateway_id : Text
  pub host_ipv4 : ℕ
  pub prefix_length : ℕ
  pub host_service_port : Option ℕ
  pub host_adapter_id : Text
  pub guest_address_start : ℕ
  pub guest_address_end : ℕ
  pub dns_servers : List ℕ
  pub gateway_ipv4 : Option ℕ
  pub allocation_directory : Text
  pub nat_enabled : Bool
  pub guest_ipv4 : Option ℕ
  pub lease_path : Option Text
  pub firewall_rules : List FirewallRuleSpec
  pub host_firewall_rule_id : Option Text
  pub capture_session : Option Text
  pub capture_file : Option Text
  pub firewall_scope_id : Option Text

pub data HyperVNetworkPlan : Type 0 where
  deny_all_plan : HyperVNetworkPlan
  controlled : ControlledPlan → HyperVNetworkPlan

abbrev pub network_mode_of : NetworkPolicy → SandboxResult ControlledNetworkMode
network_mode_of host_server = ok Gateway.host_server
network_mode_of allow_internet = ok external_network
network_mode_of _ = err hyperv_network

abbrev pub controlled_plan : ControlledGatewayConfig → ControlledNetworkMode → ControlledPlan
controlled_plan g mode = record {
  network_mode = mode;
  switch_name = g.switch_name;
  switch_id = g.switch_id;
  switch_type = g.switch_type;
  gateway_id = g.gateway_id;
  host_ipv4 = g.host_ipv4;
  prefix_length = g.prefix_length;
  host_service_port = g.host_service_port;
  host_adapter_id = g.host_adapter_id;
  guest_address_start = g.guest_address_start;
  guest_address_end = g.guest_address_end;
  dns_servers = g.dns_servers;
  gateway_ipv4 = g.gateway_ipv4;
  allocation_directory = g.allocation_directory;
  nat_enabled = g.nat_enabled;
  guest_ipv4 = none;
  lease_path = none;
  firewall_rules = [];
  host_firewall_rule_id = none;
  capture_session = none;
  capture_file = none;
  firewall_scope_id = none;
}

unfoldable pub plan_controlled :
    Platform → NetworkPolicy → Option ControlledGatewayConfig → SandboxResult HyperVNetworkPlan
plan_controlled p policy gateway = do
  g ← ok_or gateway hyperv_network
  validate_gateway p g
  mode ← network_mode_of policy
  validate_mode g mode
  ok (controlled (controlled_plan g mode))

unfoldable pub plan :
    Platform → NetworkPolicy → Option ControlledGatewayConfig → SandboxResult HyperVNetworkPlan
unfolding plan_controlled
plan p deny_all gateway = ok deny_all_plan
plan p policy gateway = plan_controlled p policy gateway

-- What `activate` does: it returns, or it stops at an `expect` or an overflow.
pub data Activation : Type 0 where
  returned : HyperVNetworkPlan → Directory → SandboxResult (Option GuestAddressLease) → Activation
  panicked : Directory → Activation

-- Every index of a list of this length converts to `u16`, and none is above the weight that it is
-- subtracted from.
abbrev pub weights_fit : (weight count : ℕ) → Bool
weights_fit weight count = leb count 65536 && leb count (weight + 1)

abbrev pub external_weights_fit : List ℕ → Bool
external_weights_fit dns_servers =
    weights_fit 60000 (length dns_servers)
    && weights_fit 40000 (length forbidden_ipv4_cidrs)
    && weights_fit 20000 (length public_ipv4_cidrs)

-- `none` is a stop: an `expect` on the port or on an index, or a subtraction that overflows.
abbrev pub mode_rules : Text → ℕ → ControlledPlan → Option (List FirewallRuleSpec)
mode_rules prefix address c = elim c.network_mode [
  | Gateway.host_server ↦ elim c.host_service_port [
    | none ↦ none
    | some port ↦ some (host_rules prefix address c.host_ipv4 port)
  ]
  | external_network ↦
      if external_weights_fit c.dns_servers
      then some (external_rules prefix address c.dns_servers)
      else none
]

abbrev pub host_rule_id : Text → ControlledPlan → Option Text
host_rule_id prefix c = elim c.network_mode [
  | Gateway.host_server ↦ some (prefix ++ codes "host-inbound")
  | external_network ↦ c.host_firewall_rule_id
]

module _ (p : Platform) where
  abbrev pub activated :
      ControlledPlan → Text → Text → GuestAddressLease → List FirewallRuleSpec → ControlledPlan
  activated c run_id run_root lease rules = record c {
    guest_ipv4 = some lease.address;
    lease_path = some lease.path;
    firewall_rules = rules ++ final_rules (rule_prefix run_id) lease.address;
    host_firewall_rule_id = host_rule_id (rule_prefix run_id) c;
    capture_session = some (codes "FoxholeNet-" ++ run_id);
    capture_file = some (p.join run_root (codes "network-capture.etl"));
  }

  unfoldable pub with_lease :
      ControlledPlan → Text → Text → Directory × SandboxResult GuestAddressLease → Activation
  with_lease c run_id run_root (d, err e) = returned (controlled c) d (err e)
  with_lease c run_id run_root (d, ok lease) =
      elim (mode_rules (rule_prefix run_id) lease.address c) [
        | none ↦ panicked d
        | some rules ↦
            returned (controlled (activated c run_id run_root lease rules)) d (ok (some lease))
      ]

  unfoldable pub activate_controlled : ControlledPlan → Directory → Text → Text → Activation
  unfolding with_lease
  activate_controlled c d run_id run_root =
      if is_some c.guest_ipv4 || is_some c.lease_path
      then returned (controlled c) d (err hyperv_network)
      else with_lease c run_id run_root (
          allocate_guest_address (p.join c.allocation_directory) d c.guest_address_start
            c.guest_address_end run_id)

  unfoldable pub activate_plan : HyperVNetworkPlan → Directory → Text → Text → Activation
  unfolding activate_controlled
  activate_plan deny_all_plan d run_id run_root = returned deny_all_plan d (ok none)
  activate_plan (controlled c) d run_id run_root = activate_controlled c d run_id run_root

  -- `validate_run_id(run_id)?`, before anything changes
  abbrev pub if_valid : SandboxResult Unit → HyperVNetworkPlan → Directory → Activation → Activation
  if_valid (err e) pl d next = returned pl d (err e)
  if_valid (ok _) pl d next = next

  unfoldable pub activate : HyperVNetworkPlan → Directory → Text → Text → Activation
  unfolding activate_plan
  activate pl d run_id run_root =
      let next = activate_plan pl d run_id run_root in if_valid (validate_run_id run_id) pl d next

pub record GuestNetworkConfiguration : Type 0 where
  pub guest_ipv4 : Option ℕ
  pub prefix_length : Option ℕ
  pub gateway_ipv4 : Option ℕ
  pub dns_servers : List ℕ
  pub host_service_ipv4 : Option ℕ
  pub host_service_port : Option ℕ

-- A plan for a host server without a port stops at an `expect`: `none`.
unfoldable pub guest_configuration : HyperVNetworkPlan → Option GuestNetworkConfiguration
guest_configuration deny_all_plan = some record {
  guest_ipv4 = none;
  prefix_length = none;
  gateway_ipv4 = none;
  dns_servers = [];
  host_service_ipv4 = none;
  host_service_port = none;
}
guest_configuration (controlled c) = elim c.network_mode [
  | Gateway.host_server ↦ elim c.host_service_port [
    | none ↦ none
    | some port ↦ some record {
      guest_ipv4 = c.guest_ipv4;
      prefix_length = some c.prefix_length;
      gateway_ipv4 = c.gateway_ipv4;
      dns_servers = c.dns_servers;
      host_service_ipv4 = some c.host_ipv4;
      host_service_port = some port;
    }
  ]
  | external_network ↦ some record {
    guest_ipv4 = c.guest_ipv4;
    prefix_length = some c.prefix_length;
    gateway_ipv4 = c.gateway_ipv4;
    dns_servers = c.dns_servers;
    host_service_ipv4 = none;
    host_service_port = none;
  }
]
