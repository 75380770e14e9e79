-- ===== src/Network/Plan/Activating.antt =====
-- What a plan of src/sandbox/hyperv/network.rs is after its activation.
use mathlib.Core.Path.{subst}
use foxhole.Prelude.{
  ℕ, ◌+◌, ◌≤◌, ◌≡◌, refl, true, length, sym, ap, List, some, arith, inl, inr, ok, err, >>-eq-ok,
  >>=-eq-ok, Text, Result-cases,
}
use foxhole.Sandbox.Errors.{SandboxError, SandboxResult}
use foxhole.Sandbox.Policy.{NetworkPolicy}
use foxhole.Ipv4.Ranges.Partition.{forbidden_ipv4_cidrs-few, public_ipv4_cidrs-few}
use foxhole.Network.Platform.{Platform}
use foxhole.Network.Gateway.{
  ControlledGatewayConfig, ControlledNetworkMode, external_network, validate_gateway, validate_mode,
  validate_run_id, bad_host_server, bad_external, lacks_port, is_some,
}
use foxhole.Network.Gateway
use foxhole.Network.Gateway.Modes.{validate_mode-HostServerFacts, validate_mode-ExternalFacts}
use foxhole.Network.Lease.{GuestAddressLease, Directory, allocate_guest_address}
use foxhole.Network.Lease.Exclusion.{Allocates, allocate_guest_address-Allocates}
use foxhole.Network.Firewall.{FirewallRuleSpec, host_rules, external_rules, rule_prefix}
use foxhole.Network.Plan.{
  HyperVNetworkPlan, controlled, controlled_plan, network_mode_of, plan_controlled, Activation,
  returned, panicked, mode_rules, external_weights_fit, with_lease, activate, activate_controlled,
  activate_plan, activated,
}

-- A plan for controlled networking that `plan` made of a gateway.
pub record IsMade (p : Platform) (policy : NetworkPolicy) (g : ControlledGatewayConfig)
    (mode : ControlledNetworkMode) (pl : HyperVNetworkPlan) : Type 0 where
  pub mode_of_policy : network_mode_of policy ≡ ok mode
  pub gateway : validate_gateway p g ≡ ok tt
  pub mode_valid : validate_mode g mode ≡ ok tt
  pub made : pl ≡ controlled (controlled_plan g mode)

pub plan_controlled-IsMade :
    (p : Platform) (policy : NetworkPolicy) (g : ControlledGatewayConfig) (pl : HyperVNetworkPlan)
    → plan_controlled p policy (some g) ≡ ok pl
    → (mode : ControlledNetworkMode) × IsMade p policy g mode pl
unfolding plan_controlled
plan_controlled-IsMade p policy g pl h =
    let (gateway, rest) = >>-eq-ok (validate_gateway p g) _ h in
    let (mode, of_policy, rest) = >>=-eq-ok (network_mode_of policy) _ rest in
    let (valid, made) = >>-eq-ok (validate_mode g mode) _ rest in
    (
      mode,
      record {
        mode_of_policy = of_policy;
        gateway = gateway;
        mode_valid = valid;
        made = ground arith;
      },
    )

abbrev pub IsReturned : Activation → Type 0
IsReturned (returned pl d r) = Unit
IsReturned (panicked d) = ⊥

-- With at most eight resolvers every weight is one.
pub few-external_weights_fit :
    (dns_servers : List ℕ) → length dns_servers ≤ 8 → external_weights_fit dns_servers ≡ true
few-external_weights_fit dns_servers few =
    ground (arith, few, forbidden_ipv4_cidrs-few, public_ipv4_cidrs-few)

has_rules :
    (g : ControlledGatewayConfig) (mode : ControlledNetworkMode) (prefix : Text) (a : ℕ)
    → validate_mode g mode ≡ ok tt
    → (rules : List FirewallRuleSpec) × (mode_rules prefix a (controlled_plan g mode) ≡ some rules)
has_rules g Gateway.host_server prefix a h =
    let facts = validate_mode-HostServerFacts g h in
    (host_rules prefix a g.host_ipv4 facts.port, rw facts.service refl)
has_rules g external_network prefix a h =
    let facts = validate_mode-ExternalFacts g h in
    (
      external_rules prefix a g.dns_servers,
      rw (few-external_weights_fit g.dns_servers facts.few_resolvers) refl,
    )

module _ (p : Platform) (g : ControlledGatewayConfig) (mode : ControlledNetworkMode)
    (run_id run_root : Text) where
  -- The outcome of an activation that got as far as the allocation.
  with_lease-IsReturned :
      (d : Directory) (r : SandboxResult GuestAddressLease)
      → validate_mode g mode ≡ ok tt
      → IsReturned (with_lease p (controlled_plan g mode) run_id run_root (d, r))
  unfolding with_lease
  with_lease-IsReturned d (err e) h = tt
  with_lease-IsReturned d (ok l) h =
      let (rules, e) = has_rules g mode (rule_prefix run_id) l.address h in rw e tt

  controlled-IsReturned :
      (d : Directory)
      → validate_mode g mode ≡ ok tt
      → IsReturned (activate_controlled p (controlled_plan g mode) d run_id run_root)
  unfolding activate_controlled
  controlled-IsReturned d h =
      let (d', r) =
        allocate_guest_address (p.join g.allocation_directory) d g.guest_address_start
          g.guest_address_end run_id in
      with_lease-IsReturned d' r h

-- An activation that gave a lease: the address is one of the pool, and the plan is filled with it
-- and with the mode's rules.
pub record IsActivated (p : Platform) (g : ControlledGatewayConfig) (mode : ControlledNetworkMode)
    (run_id run_root : Text) (pl : HyperVNetworkPlan) (l : GuestAddressLease) : Type 0 where
  pub rules : List FirewallRuleSpec
  pub rules_of_mode :
      mode_rules (rule_prefix run_id) l.address (controlled_plan g mode) ≡ some rules
  pub filled : pl ≡ controlled (activated p (controlled_plan g mode) run_id run_root l rules)
  pub from : g.guest_address_start ≤ l.address
  pub to : l.address ≤ g.guest_address_end

module _ (p : Platform) (g : ControlledGatewayConfig) (mode : ControlledNetworkMode)
    (run_id run_root : Text) where
  with_lease-IsActivated :
      (d d' d'' : Directory) (r : SandboxResult GuestAddressLease) (pl : HyperVNetworkPlan)
      (l : GuestAddressLease)
      → validate_mode g mode ≡ ok tt
      → Allocates
          (p.join g.allocation_directory)
          d
          g.guest_address_start
          g.guest_address_end
          run_id
          (d', r)
      → with_lease p (controlled_plan g mode) run_id run_root (d', r)
        ≡ returned pl d'' (ok (some l))
      → IsActivated p g mode run_id run_root pl l
  unfolding with_lease
  with_lease-IsActivated d d' d'' (err e) pl l valid h eq = absurd (ground arith)
  with_lease-IsActivated d d' d'' (ok k) pl l valid h eq =
      let (rules, e) = has_rules g mode (rule_prefix run_id) k.address valid in
      let filled : returned
            (controlled (activated p (controlled_plan g mode) run_id run_root k rules)) d'
            (ok (some k))
          ≡ returned pl d'' (ok (some l)) =
        rw e at eq in
      let same : k ≡ l = ground arith in
      subst (λ t. IsActivated p g mode run_id run_root pl t) same
        record {
          rules = rules;
          rules_of_mode = e;
          filled = sym (ap (plan_after pl) filled);
          from = h.from;
          to = h.to;
        }
    where
      plan_after : HyperVNetworkPlan → Activation → HyperVNetworkPlan
      plan_after other (returned made d r) = made
      plan_after other (panicked d) = other

  controlled-IsActivated :
      (d d' : Directory) (pl : HyperVNetworkPlan) (l : GuestAddressLease)
      → validate_mode g mode ≡ ok tt
      → g.guest_address_start ≤ g.guest_address_end + 1
      → activate_controlled p (controlled_plan g mode) d run_id run_root
        ≡ returned pl d' (ok (some l))
      → IsActivated p g mode run_id run_root pl l
  unfolding activate_controlled
  controlled-IsActivated d d' pl l valid order eq =
      let outcome =
        allocate_guest_address (p.join g.allocation_directory) d g.guest_address_start
          g.guest_address_end run_id in
      with_lease-IsActivated d outcome.0 d' outcome.1 pl l valid
        (allocate_guest_address-Allocates (p.join g.allocation_directory) d g.guest_address_start
          g.guest_address_end run_id order)
        eq

  -- A plan that `plan` made is activated without a panic, and with a lease it is filled.
  pub activate-made-IsReturned :
      (d : Directory) (pl : HyperVNetworkPlan)
      → validate_mode g mode ≡ ok tt
      → pl ≡ controlled (controlled_plan g mode)
      → IsReturned (activate p pl d run_id run_root)
  unfolding activate activate_plan
  activate-made-IsReturned d pl valid made = elim (Result-cases (validate_run_id run_id)) [
    | inr (e, refused) ↦ rw refused tt
    | inl accepted ↦ rw (accepted, made) (controlled-IsReturned p g mode run_id run_root d valid)
  ]

  pub activate-made-IsActivated :
      (d d' : Directory) (pl pl' : HyperVNetworkPlan) (l : GuestAddressLease)
      → validate_mode g mode ≡ ok tt
      → pl ≡ controlled (controlled_plan g mode)
      → g.guest_address_start ≤ g.guest_address_end + 1
      → activate p pl d run_id run_root ≡ returned pl' d' (ok (some l))
      → IsActivated p g mode run_id run_root pl' l
  unfolding activate activate_plan
  activate-made-IsActivated d d' pl pl' l valid made order h =
      elim (Result-cases (validate_run_id run_id)) [
        | inr (e, refused) ↦ absurd (failed e (rw refused at h))
        | inl accepted ↦ controlled-IsActivated d d' pl' l valid order (rw (accepted, made) at h)
      ]
    where
      failed : (e : SandboxError) → returned pl d (err e) ≡ returned pl' d' (ok (some l)) → ⊥
      failed e eq = ground arith
