-- ===== src/Handoff/Runs.antt =====
-- A run from the plan to the guest's validation: `plan` and `activate` of
-- src/sandbox/hyperv/network.rs and `build_guest_request` of src/sandbox/hyperv/backend.rs.
use mathlib.Core.Path.{subst}
use foxhole.Prelude.{
  ◌≡◌, refl, sym, ap, ◌∙◌, Option, none, some, ok, err, arith, inl, inr, Text, if◌then◌else◌,
}
use foxhole.Sandbox.Policy.{NetworkPolicy}
use foxhole.Sandbox.Request.{SandboxRequest}
use foxhole.Protocol.Errors.{invalid_network_configuration}
use foxhole.Protocol.Request.{validate_network_configuration, valid_guest_unicast}
use foxhole.Protocol.Request
use foxhole.Network.Platform.{Platform}
use foxhole.Network.Gateway.{ControlledGatewayConfig, ControlledNetworkMode, external_network}
use foxhole.Network.Gateway
use foxhole.Network.Gateway.Pool.{IsWide, validate_gateway-order}
use foxhole.Network.Gateway.Modes.{validate_mode-HostServerFacts, validate_mode-ExternalFacts}
use foxhole.Network.Lease.{GuestAddressLease, Directory}
use foxhole.Network.Plan.{
  HyperVNetworkPlan, network_mode_of, plan, returned, activate, GuestNetworkConfiguration,
  guest_configuration,
}
use foxhole.Network.Plan.Activating.{IsMade, IsActivated, activate-made-IsActivated}
use foxhole.Network.Plan.Planned.{
  configuration, guest_configuration-host_server, guest_configuration-external, plan-IsPlanned,
  deny_all-leases-nothing,
}
use foxhole.Handoff.{Host, guest_request, guest_policy}
use foxhole.Handoff.Agreement.{host_server_agrees, internet_agrees}

module _ (h : Host) (r : SandboxRequest) (run_id : Text) (target_sha256 : Option Text)
    (l : GuestAddressLease) where
  -- The guest accepts the network part of the request exactly if it can use the leased address.
  abbrev pub Agrees : Option GuestNetworkConfiguration → Type 0
  Agrees none = ⊥
  Agrees (some c) =
      validate_network_configuration (guest_request h r c run_id target_sha256)
      ≡ (if valid_guest_unicast l.address then ok tt else err invalid_network_configuration)

  module _ (p : Platform) (g : ControlledGatewayConfig) (run_root : Text) (pl' : HyperVNetworkPlan)
      (wide : IsWide g) where
    mode-Agrees :
        (mode : ControlledNetworkMode) (pl : HyperVNetworkPlan)
        → IsMade p r.network_policy g mode pl
        → IsActivated p g mode run_id run_root pl' l
        → Agrees (guest_configuration pl')
    unfolding guest_request
    mode-Agrees Gateway.host_server pl m i =
        let f = validate_mode-HostServerFacts g m.mode_valid in
        let c = configuration g l (some g.host_ipv4) (some f.port) in
        subst Agrees
          (sym (
            ap guest_configuration i.filled
            ∙ guest_configuration-host_server p g run_id run_root l i.rules f.port f.service))
          (host_server_agrees p g (guest_request h r c run_id target_sha256) l.address m.gateway
            wide i.from i.to refl refl f (host_server_mode r.network_policy m.mode_of_policy) refl
            (sym f.service) refl refl)
      where
        host_server_mode :
            (n : NetworkPolicy)
            → network_mode_of n ≡ ok Gateway.host_server
            → guest_policy n ≡ Request.host_server
        host_server_mode n e = ground arith
    mode-Agrees external_network pl m i =
        let f = validate_mode-ExternalFacts g m.mode_valid in
        let c = configuration g l none none in
        subst Agrees
          (sym (
            ap guest_configuration i.filled
            ∙ guest_configuration-external p g run_id run_root l i.rules))
          (internet_agrees p g (guest_request h r c run_id target_sha256) l.address m.gateway wide
            i.from i.to refl refl f (internet_mode r.network_policy m.mode_of_policy) refl refl refl
            refl)
      where
        internet_mode :
            (n : NetworkPolicy)
            → network_mode_of n ≡ ok external_network
            → guest_policy n ≡ Request.allow_internet
        internet_mode n e = ground arith

-- When a plan made for a request is activated with a lease, the guest's configuration exists, and
-- the guest accepts the network part of the request made of it exactly if the leased address is
-- not unspecified, loopback, link-local, multicast or the broadcast address. The gateway's
-- addresses are 32-bit numbers.
pub activate-Agrees :
    (h : Host) (r : SandboxRequest) (p : Platform) (g : ControlledGatewayConfig)
    (pl pl' : HyperVNetworkPlan) (d d' : Directory) (run_id run_root : Text)
    (target_sha256 : Option Text) (l : GuestAddressLease)
    → IsWide g
    → plan p r.network_policy (some g) ≡ ok pl
    → activate p pl d run_id run_root ≡ returned pl' d' (ok (some l))
    → Agrees h r run_id target_sha256 l (guest_configuration pl')
activate-Agrees h r p g pl pl' d d' run_id run_root target_sha256 l wide planned active =
    elim (plan-IsPlanned p r.network_policy (some g) pl planned) [
      | inl e ↦ absurd (deny_all-leases-nothing p pl pl' d d' l run_id run_root e active)
      | inr (mode, m) ↦ mode-Agrees h r run_id target_sha256 l p g run_root pl' wide mode pl m (
          activate-made-IsActivated p g mode run_id run_root d d' pl pl' l m.mode_valid m.made
            (omega (arith, validate_gateway-order p g m.gateway)) active)
    ]
