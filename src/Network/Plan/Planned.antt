-- ===== src/Network/Plan/Planned.antt =====
-- The plans that `plan` of src/sandbox/hyperv/network.rs makes, and what their activation leaves.
use foxhole.Prelude.{
  ℕ, ◌≡◌, ◌≢◌, refl, List, Option, none, some, arith, inl, inr, ◌⊎◌, ok, err, Text, Result-cases,
}
use foxhole.Sandbox.Errors.{SandboxError}
use foxhole.Sandbox.Policy.{
  NetworkPolicy, deny_all, host_server, allow_internet, allow_list, capture_only,
}
use foxhole.Network.Platform.{Platform}
use foxhole.Network.Gateway.{
  ControlledGatewayConfig, ControlledNetworkMode, external_network, validate_gateway, validate_mode,
  validate_run_id, bad_host_server, bad_external, lacks_port, is_some,
}
use foxhole.Network.Gateway
use foxhole.Network.Lease.{GuestAddressLease, Directory}
use foxhole.Network.Firewall.{FirewallRuleSpec}
use foxhole.Network.Plan.{
  HyperVNetworkPlan, deny_all_plan, controlled, controlled_plan, plan, plan_controlled, returned,
  activate, activate_plan, activated, GuestNetworkConfiguration, guest_configuration,
}
use foxhole.Network.Plan.Activating.{
  IsMade, plan_controlled-IsMade, IsReturned, activate-made-IsReturned,
}

abbrev pub IsPlanned :
    Platform → NetworkPolicy → Option ControlledGatewayConfig → HyperVNetworkPlan → Type 0
IsPlanned p policy none pl = pl ≡ deny_all_plan
IsPlanned p policy (some g) pl =
    (pl ≡ deny_all_plan) ⊎ ((mode : ControlledNetworkMode) × IsMade p policy g mode pl)

plan_controlled-IsPlanned :
    (p : Platform) (policy : NetworkPolicy) (g : Option ControlledGatewayConfig)
    (pl : HyperVNetworkPlan)
    → plan_controlled p policy g ≡ ok pl
    → IsPlanned p policy g pl
unfolding plan_controlled
plan_controlled-IsPlanned p policy none pl h = absurd (ground arith)
plan_controlled-IsPlanned p policy (some g) pl h = inr (plan_controlled-IsMade p policy g pl h)

pub plan-IsPlanned :
    (p : Platform) (policy : NetworkPolicy) (g : Option ControlledGatewayConfig)
    (pl : HyperVNetworkPlan)
    → plan p policy g ≡ ok pl
    → IsPlanned p policy g pl
unfolding plan
plan-IsPlanned p deny_all none pl h = ground arith
plan-IsPlanned p deny_all (some g) pl h = inl (ground arith)
plan-IsPlanned p host_server g pl h = plan_controlled-IsPlanned p host_server g pl h
plan-IsPlanned p (allow_list ns) g pl h = plan_controlled-IsPlanned p (allow_list ns) g pl h
plan-IsPlanned p allow_internet g pl h = plan_controlled-IsPlanned p allow_internet g pl h
plan-IsPlanned p capture_only g pl h = plan_controlled-IsPlanned p capture_only g pl h

deny_all-IsReturned :
    (p : Platform) (pl : HyperVNetworkPlan) (d : Directory) (run_id run_root : Text)
    → pl ≡ deny_all_plan
    → IsReturned (activate p pl d run_id run_root)
unfolding activate activate_plan
deny_all-IsReturned p pl d run_id run_root e = elim (Result-cases (validate_run_id run_id)) [
  | inr (_, refused) ↦ rw refused tt
  | inl accepted ↦ rw (accepted, e) tt
]

-- The guest's configuration, from an activated plan.
abbrev pub configuration :
    ControlledGatewayConfig → GuestAddressLease → Option ℕ → Option ℕ → GuestNetworkConfiguration
configuration g l host port = record {
  guest_ipv4 = some l.address;
  prefix_length = some g.prefix_length;
  gateway_ipv4 = g.gateway_ipv4;
  dns_servers = g.dns_servers;
  host_service_ipv4 = host;
  host_service_port = port;
}

module _ (p : Platform) (g : ControlledGatewayConfig) (run_id run_root : Text)
    (l : GuestAddressLease) (rules : List FirewallRuleSpec) where
  pub guest_configuration-host_server :
      (port : ℕ)
      → g.host_service_port ≡ some port
      → guest_configuration
          (controlled (activated p (controlled_plan g Gateway.host_server) run_id run_root l rules))
        ≡ some (configuration g l (some g.host_ipv4) (some port))
  unfolding guest_configuration
  guest_configuration-host_server port e = rw e refl

  pub guest_configuration-external :
      guest_configuration
        (controlled (activated p (controlled_plan g external_network) run_id run_root l rules))
      ≡ some (configuration g l none none)
  unfolding guest_configuration
  guest_configuration-external = refl

-- A plan that denies all leases nothing.
pub deny_all-leases-nothing :
    (p : Platform) (pl pl' : HyperVNetworkPlan) (d d' : Directory) (l : GuestAddressLease)
    (run_id run_root : Text)
    → pl ≡ deny_all_plan
    → activate p pl d run_id run_root ≢ returned pl' d' (ok (some l))
unfolding activate activate_plan
deny_all-leases-nothing p pl pl' d d' l run_id run_root e h =
    elim (Result-cases (validate_run_id run_id)) [
      | inr (failure, refused) ↦ absurd (failed failure (rw refused at h))
      | inl accepted ↦ absurd (empty (rw (accepted, e) at h))
    ]
  where
    failed : (e : SandboxError) → returned pl d (err e) ≡ returned pl' d' (ok (some l)) → ⊥
    failed e eq = ground arith

    empty : returned deny_all_plan d (ok none) ≡ returned pl' d' (ok (some l)) → ⊥
    empty eq = ground arith

-- Activating what `plan` returns never stops at an `expect`, be it for a port or for the index of a
-- resolver or a CIDR, nor at a weight below zero, whatever the run and the directory.
pub activate-plan-IsReturned :
    (p : Platform) (policy : NetworkPolicy) (g : Option ControlledGatewayConfig)
    (pl : HyperVNetworkPlan) (d : Directory) (run_id run_root : Text)
    → plan p policy g ≡ ok pl
    → IsReturned (activate p pl d run_id run_root)
activate-plan-IsReturned p policy none pl d run_id run_root h =
    deny_all-IsReturned p pl d run_id run_root (plan-IsPlanned p policy none pl h)
activate-plan-IsReturned p policy (some g) pl d run_id run_root h =
    elim (plan-IsPlanned p policy (some g) pl h) [
      | inl e ↦ deny_all-IsReturned p pl d run_id run_root e
      | inr (mode, m) ↦ activate-made-IsReturned p g mode run_id run_root d pl m.mode_valid m.made
    ]
