-- ===== src/Network/Plan/Enforcing.antt =====
-- What leaves the guest once a plan of src/sandbox/hyperv/network.rs is activated.
use foxhole.Prelude.{
  ◌≤◌, ◌≡◌, refl, sym, ap, ◌∙◌, Bool, false, List, [], ◌++◌, none, some, ok, arith, inl, inr, Text,
}
use foxhole.Ipv4.{u32_max}
use foxhole.Sandbox.Policy.{NetworkPolicy, host_server, allow_internet}
use foxhole.Network.Platform.{Platform}
use foxhole.Network.Gateway.{ControlledGatewayConfig, ControlledNetworkMode, external_network}
use foxhole.Network.Gateway
use foxhole.Network.Gateway.Pool.{validate_gateway-order}
use foxhole.Network.Gateway.Modes.{validate_mode-HostServerFacts, validate_mode-ExternalFacts}
use foxhole.Network.Lease.{GuestAddressLease, Directory}
use foxhole.Network.Firewall.{
  FirewallRuleSpec, outbound, rule_prefix, host_rules, external_rules, final_rules,
}
use foxhole.Network.Firewall.Weights.{Packet, Switch}
use foxhole.Network.Firewall.Outbound.{may_leave, admits-may_leave}
use foxhole.Network.Firewall.HostOnly.{may_reach, admits-may_reach}
use foxhole.Network.Plan.{
  HyperVNetworkPlan, deny_all_plan, controlled, plan, activate, returned, network_mode_of,
}
use foxhole.Network.Plan.Activating.{
  IsMade, IsActivated, activate-made-IsActivated, few-external_weights_fit,
}
use foxhole.Network.Plan.Planned.{plan-IsPlanned, deny_all-leases-nothing}

abbrev pub rules_of : HyperVNetworkPlan → List FirewallRuleSpec
rules_of deny_all_plan = []
rules_of (controlled c) = c.firewall_rules

-- What each policy lets out.
abbrev pub may_pass : NetworkPolicy → ControlledGatewayConfig → Packet → Bool
may_pass host_server g q = elim g.host_service_port [
  | none ↦ false
  | some port ↦ may_reach g.host_ipv4 port q
]
may_pass allow_internet g q = may_leave g.dns_servers q
may_pass _ g q = false

module _ (switch : Switch) (p : Platform) (policy : NetworkPolicy) (g : ControlledGatewayConfig)
    (run_id run_root : Text) (pl : HyperVNetworkPlan) (l : GuestAddressLease) (q : Packet)
    (out : q.direction ≡ outbound) (own : q.local_address ≡ l.address)
    (wide : q.remote_address ≤ u32_max) where
  mode_enforced :
      (mode : ControlledNetworkMode) (before : HyperVNetworkPlan)
      → IsMade p policy g mode before
      → IsActivated p g mode run_id run_root pl l
      → switch.admits (rules_of pl) q ≡ may_pass policy g q
  mode_enforced Gateway.host_server before m i =
      let f = validate_mode-HostServerFacts g m.mode_valid in
      let expected : may_pass policy g q ≡ may_reach g.host_ipv4 f.port q =
        rw (host_server_mode policy m.mode_of_policy, f.service) refl in
      let rules : i.rules ≡ host_rules (rule_prefix run_id) l.address g.host_ipv4 f.port =
        same_rules i.rules (host_rules (rule_prefix run_id) l.address g.host_ipv4 f.port)
          (sym i.rules_of_mode ∙ rw f.service refl) in
      ap (λ t. switch.admits (rules_of t) q) i.filled
      ∙ ap (λ rs. switch.admits (rs ++ final_rules (rule_prefix run_id) l.address) q) rules
      ∙ admits-may_reach switch (rule_prefix run_id) l.address g.host_ipv4 f.port q out own
      ∙ sym expected
    where
      host_server_mode :
          (n : NetworkPolicy) → network_mode_of n ≡ ok Gateway.host_server → n ≡ host_server
      host_server_mode n e = ground arith

      same_rules : (rs ts : List FirewallRuleSpec) → some rs ≡ some ts → rs ≡ ts
      same_rules rs ts e = ground arith
  mode_enforced external_network before m i =
      let f = validate_mode-ExternalFacts g m.mode_valid in
      let expected : may_pass policy g q ≡ may_leave g.dns_servers q =
        rw (internet_mode policy m.mode_of_policy) refl in
      let rules : i.rules ≡ external_rules (rule_prefix run_id) l.address g.dns_servers =
        same_rules i.rules (external_rules (rule_prefix run_id) l.address g.dns_servers) (
          sym i.rules_of_mode ∙ rw (few-external_weights_fit g.dns_servers f.few_resolvers) refl) in
      ap (λ t. switch.admits (rules_of t) q) i.filled
      ∙ ap (λ rs. switch.admits (rs ++ final_rules (rule_prefix run_id) l.address) q) rules
      ∙ admits-may_leave switch (rule_prefix run_id) l.address g.dns_servers q out own wide
          f.few_resolvers
      ∙ sym expected
    where
      internet_mode :
          (n : NetworkPolicy) → network_mode_of n ≡ ok external_network → n ≡ allow_internet
      internet_mode n e = ground arith

      same_rules : (rs ts : List FirewallRuleSpec) → some rs ≡ some ts → rs ≡ ts
      same_rules rs ts e = ground arith

-- When a plan is activated with a lease, a switch that decides by weight lets a packet from the
-- leased address to a 32-bit address out exactly as the policy says: for a host server TCP to the
-- service, and for internet access questions to the configured resolvers and TCP to public
-- addresses on other ports.
pub activate-admits :
    (switch : Switch) (p : Platform) (policy : NetworkPolicy) (g : ControlledGatewayConfig)
    (pl pl' : HyperVNetworkPlan) (d d' : Directory) (run_id run_root : Text) (l : GuestAddressLease)
    (q : Packet)
    → plan p policy (some g) ≡ ok pl
    → activate p pl d run_id run_root ≡ returned pl' d' (ok (some l))
    → q.direction ≡ outbound
    → q.local_address ≡ l.address
    → q.remote_address ≤ u32_max
    → switch.admits (rules_of pl') q ≡ may_pass policy g q
activate-admits switch p policy g pl pl' d d' run_id run_root l q planned active out own wide =
    elim (plan-IsPlanned p policy (some g) pl planned) [
      | inl e ↦ absurd (deny_all-leases-nothing p pl pl' d d' l run_id run_root e active)
      | inr (mode, m) ↦
          mode_enforced switch p policy g run_id run_root pl' l q out own wide mode pl m (
            activate-made-IsActivated p g mode run_id run_root d d' pl pl' l m.mode_valid m.made
              (omega (arith, validate_gateway-order p g m.gateway)) active)
    ]
