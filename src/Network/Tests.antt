-- ===== src/Network/Tests.antt =====
-- A gateway for a host server, its plan and its leases, and the theorems at concrete inputs.
use foxhole.Prelude.{◌≡◌, ◌≢◌, refl, true, false, [], ◌∷◌, ◌++◌, none, some, arith, ok, Text, codes}
use foxhole.Ipv4.{ipv4}
use foxhole.Sandbox.Policy
use foxhole.Network.Platform.{Platform}
use foxhole.Network.Gateway.{
  ControlledGatewayConfig, internal, validate_gateway, validate_identifier, validate_unicast,
  validate_mode, validate_run_id, allocation_directory_is_allowed, bad_settings, bad_pool,
  bad_endpoint, bad_host_server,
}
use foxhole.Network.Gateway
use foxhole.Network.Gateway.Pool.{IsWide, IsUsable, validate_gateway-IsUsable}
use foxhole.Network.Lease.{
  GuestAddressLease, Directory, lease_name, allocate_from, allocate_guest_address,
}
use foxhole.Network.Lease.Exclusion.{
  Allocates, allocate_guest_address-Allocates, allocate_guest_address-exclusive,
}
use foxhole.Network.Firewall.{outbound, rule_prefix, host_rules}
use foxhole.Network.Firewall.Groups.{all_external_rules}
use foxhole.Network.Firewall.Outbound.{may_leave, admits-may_leave}
use foxhole.Network.Firewall.Weights.{Packet, tcp, udp}
use foxhole.Network.Firewall.HostOnly.{all_host_rules, may_reach, admits-may_reach}
use foxhole.Network.Plan.Enforcing.{rules_of, may_pass, activate-admits}
use foxhole.Network.Firewall.Weighing.{weighing_switch}
use foxhole.Network.Plan.{
  HyperVNetworkPlan, controlled, controlled_plan, plan, plan_controlled, activate, activate_plan,
  activate_controlled, with_lease, activated, returned,
}
use foxhole.Network.Plan.Activating.{IsReturned}
use foxhole.Network.Plan.Planned.{activate-plan-IsReturned}
use foxhole.Ipv4.{same_subnet, network_address, broadcast_address}

abbrev pub windows : Platform
windows = record {
  is_absolute = λ path. true;
  join = λ a b. a ++ (b'\\' ∷ b);
  program_data = some (codes "C:\\ProgramData");
}

abbrev pub gateway : ControlledGatewayConfig
gateway = record {
  switch_name = codes "Foxhole Internal";
  switch_id = codes "switch-1";
  switch_type = internal;
  gateway_id = codes "gateway-1";
  host_ipv4 = ipv4 192 168 250 1;
  prefix_length = 24;
  host_service_port = some 8080;
  host_adapter_id = codes "adapter-1";
  guest_address_start = ipv4 192 168 250 10;
  guest_address_end = ipv4 192 168 250 20;
  dns_servers = [];
  gateway_ipv4 = none;
  allocation_directory = codes "C:\\ProgramData\\Foxhole\\network\\allocations";
  firewall_enforced = true;
  packet_capture_enabled = false;
  host_private_ranges_blocked = false;
  nat_enabled = false;
  owned_by_run = false;
}

pub gateway_valid : validate_gateway windows gateway ≡ ok tt
unfolding validate_gateway validate_identifier validate_unicast bad_settings bad_pool bad_endpoint
    allocation_directory_is_allowed same_subnet network_address broadcast_address
gateway_valid = refl

pub gateway-IsWide : IsWide gateway
gateway-IsWide = record { host = omega arith; first = omega arith; last = omega arith }

abbrev pub run : Text
run = codes "0123456789abcdef"

abbrev pub root : Text
root = codes "C:\\run"

-- `.10` is taken, so that the run gets `.11`.
abbrev join : Text → Text
join = windows.join gateway.allocation_directory

abbrev other : GuestAddressLease
other = record {
  run_id = codes "fedcba9876543210";
  address = ipv4 192 168 250 10;
  path = join (codes "192_168_250_10.lease");
}

abbrev pub directory : Directory
directory = record {
  secured = true;
  leases = other ∷ [];
  cannot_open = λ path. false;
  cannot_write = λ path. false;
  cannot_remove = λ path. false;
}

abbrev pub lease : GuestAddressLease
lease = record {
  run_id = run;
  address = ipv4 192 168 250 11;
  path = join (codes "192_168_250_11.lease");
}

abbrev pub leased : Directory
leased = record directory { leases = lease ∷ other ∷ [] }

first_lease :
    allocate_guest_address join directory gateway.guest_address_start gateway.guest_address_end run
    ≡ (leased, ok lease)
unfolding allocate_guest_address allocate_from lease_name
first_lease = refl

abbrev second : GuestAddressLease
second = record {
  run_id = codes "ffffffffffffffff";
  address = ipv4 192 168 250 12;
  path = join (codes "192_168_250_12.lease");
}

lease_again :
    allocate_guest_address join leased gateway.guest_address_start gateway.guest_address_end
      second.run_id
    ≡ (record leased { leases = second ∷ lease ∷ other ∷ [] }, ok second)
unfolding allocate_guest_address allocate_from lease_name
lease_again = refl

abbrev pub planned : HyperVNetworkPlan
planned = controlled (controlled_plan gateway Gateway.host_server)

pub plan_made : plan windows Policy.host_server (some gateway) ≡ ok planned
unfolding plan plan_controlled validate_gateway validate_identifier validate_unicast bad_settings
    bad_pool bad_endpoint allocation_directory_is_allowed same_subnet network_address
    broadcast_address validate_mode bad_host_server
plan_made = refl

abbrev pub active : HyperVNetworkPlan
active = controlled (
    activated windows (controlled_plan gateway Gateway.host_server) run root lease
      (host_rules (rule_prefix run) lease.address gateway.host_ipv4 8080))

pub plan_activated :
    activate windows planned directory run root ≡ returned active leased (ok (some lease))
unfolding activate activate_plan activate_controlled with_lease allocate_guest_address allocate_from
    lease_name validate_run_id
plan_activated = refl

abbrev question : Packet
question = record {
  direction = outbound;
  transport = udp;
  local_address = ipv4 10 0 0 9;
  remote_address = ipv4 9 9 9 9;
  remote_port = some 53;
}

validate_gateway-IsUsable_example : IsUsable gateway (ipv4 192 168 250 15)
validate_gateway-IsUsable_example =
    validate_gateway-IsUsable windows gateway (ipv4 192 168 250 15) gateway_valid gateway-IsWide
      (omega arith) (omega arith)

allocate_guest_address-Allocates_example :
    Allocates join directory gateway.guest_address_start gateway.guest_address_end run (
      allocate_guest_address join directory gateway.guest_address_start gateway.guest_address_end
        run)
allocate_guest_address-Allocates_example =
    allocate_guest_address-Allocates join directory gateway.guest_address_start
      gateway.guest_address_end run (omega arith)

allocate_guest_address-exclusive_example : lease.address ≢ second.address
allocate_guest_address-exclusive_example =
    allocate_guest_address-exclusive join directory leased
      (record leased { leases = second ∷ lease ∷ other ∷ [] }) gateway.guest_address_start
      gateway.guest_address_end gateway.guest_address_start gateway.guest_address_end run
      second.run_id lease second (omega arith) (omega arith) first_lease lease_again

admits-may_leave_example :
    weighing_switch.admits
      (all_external_rules (rule_prefix run) (ipv4 10 0 0 9) (ipv4 9 9 9 9 ∷ []))
      question
    ≡ may_leave (ipv4 9 9 9 9 ∷ []) question
admits-may_leave_example =
    admits-may_leave weighing_switch (rule_prefix run) (ipv4 10 0 0 9) (ipv4 9 9 9 9 ∷ []) question
      refl refl (omega arith) (omega arith)

activate-plan-IsReturned_example : IsReturned (activate windows planned directory run root)
activate-plan-IsReturned_example =
    activate-plan-IsReturned windows Policy.host_server (some gateway) planned directory run root
      plan_made

abbrev service_call : Packet
service_call = record {
  direction = outbound;
  transport = tcp;
  local_address = lease.address;
  remote_address = gateway.host_ipv4;
  remote_port = some 8080;
}

admits-may_reach_example :
    weighing_switch.admits
      (all_host_rules (rule_prefix run) lease.address gateway.host_ipv4 8080)
      service_call
    ≡ may_reach gateway.host_ipv4 8080 service_call
admits-may_reach_example =
    admits-may_reach weighing_switch (rule_prefix run) lease.address gateway.host_ipv4 8080
      service_call refl refl

activate-admits_example :
    weighing_switch.admits (rules_of active) service_call
    ≡ may_pass Policy.host_server gateway service_call
activate-admits_example =
    activate-admits weighing_switch windows Policy.host_server gateway planned active directory
      leased run root lease service_call plan_made plan_activated refl refl (omega arith)
