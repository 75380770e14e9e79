-- ===== src/Network/Firewall.antt =====
-- `FirewallRuleSpec` of src/sandbox/hyperv/network.rs and the rules that an activation makes. A
-- rule's addresses are numbers and blocks here, which the source prints.
pub mod Weights
pub mod Weighing
pub mod Groups
pub mod Outbound
pub mod HostOnly
use foxhole.Prelude.{
  ℕ, zero, suc, ◌+◌, ◌-◌, ◌/◌, ◌%◌, ◌==◌, Bool, true, false, not, ◌&&◌, ◌||◌, List, [], ◌∷◌, ◌++◌,
  Option, none, some, any, ltb, if◌then◌else◌, Text, codes,
}
use foxhole.Ipv4.Ranges.{Cidr, forbidden_ipv4_cidrs, public_ipv4_cidrs}
use foxhole.Ipv4.Ranges.Blocks.{matches}

pub data Direction : Type 0 where
  outbound inbound : Direction

pub data Action : Type 0 where
  allow deny : Action

-- `"Any"` or `"TCP"`
pub data RuleProtocol : Type 0 where
  any_protocol tcp_only : RuleProtocol

pub data Remote : Type 0 where
  any_remote : Remote
  one_address : ℕ → Remote
  block : Cidr → Remote

pub record FirewallRuleSpec : Type 0 where
  pub name : Text
  pub direction : Direction
  pub action : Action
  pub protocol : RuleProtocol
  pub priority : ℕ
  pub stateful : Bool
  pub local_address : ℕ
  pub remote_address : Remote
  pub remote_port : Option ℕ

abbrev digit : ℕ → ℕ
digit n = b'0' + n % 10

-- `{index:03}`, below 1000
abbrev three_digits : ℕ → Text
three_digits n = digit (n / 100) ∷ digit (n / 10) ∷ digit n ∷ []

-- `{index}`, below 1000
abbrev pub decimal : ℕ → Text
decimal n =
    if ltb n 10
    then digit n ∷ []
    else if ltb n 100
    then digit (n / 10) ∷ digit n ∷ []
    else three_digits n

abbrev pub rule_prefix : Text → Text
rule_prefix run_id = codes "Foxhole-" ++ (run_id ++ codes "-")

module _ (prefix : Text) (lease_address : ℕ) where
  pub firewall_rule :
      Text → Direction → Action → RuleProtocol → ℕ → Bool → Remote → Option ℕ → FirewallRuleSpec
  firewall_rule name direction action protocol priority stateful remote port = record {
    name = prefix ++ name;
    direction = direction;
    action = action;
    protocol = protocol;
    priority = priority;
    stateful = stateful;
    local_address = lease_address;
    remote_address = remote;
    remote_port = port;
  }

  pub host_rules : ℕ → ℕ → List FirewallRuleSpec
  unfolding firewall_rule
  host_rules host_ipv4 port =
      firewall_rule (codes "host-service") outbound allow tcp_only 300 true (one_address host_ipv4)
        (some port)
      ∷ firewall_rule (codes "host-service-reply") inbound allow tcp_only 300 false
          (one_address host_ipv4) (some port)
      ∷ []

  pub dns_rules : ℕ → List ℕ → List FirewallRuleSpec
  unfolding firewall_rule
  dns_rules index [] = []
  dns_rules index (resolver ∷ resolvers) =
      let weight = 60000 - index in
      firewall_rule (codes "dns-" ++ decimal index) outbound allow any_protocol weight false
        (one_address resolver) (some 53)
      ∷ firewall_rule (codes "dns-reply-" ++ decimal index) inbound allow any_protocol weight false
          (one_address resolver) (some 53)
      ∷ dns_rules (index + 1) resolvers

  pub block_rules : ℕ → List Cidr → List FirewallRuleSpec
  unfolding firewall_rule
  block_rules index [] = []
  block_rules index (c ∷ cs) =
      firewall_rule (codes "block-local-" ++ three_digits index) outbound deny any_protocol
        (40000 - index) false (block c) none
      ∷ block_rules (index + 1) cs

  pub public_rules : ℕ → List Cidr → List FirewallRuleSpec
  unfolding firewall_rule
  public_rules index [] = []
  public_rules index (c ∷ cs) =
      firewall_rule (codes "public-ipv4-" ++ three_digits index) outbound allow tcp_only
        (20000 - index) true (block c) none
      ∷ public_rules (index + 1) cs

  pub block_other_dns : FirewallRuleSpec
  unfolding firewall_rule
  block_other_dns =
      firewall_rule (codes "block-other-dns") outbound deny any_protocol 50000 false any_remote
        (some 53)

  pub external_rules : List ℕ → List FirewallRuleSpec
  unfolding dns_rules block_other_dns block_rules public_rules
  external_rules dns_servers =
      dns_rules 0 dns_servers
      ++ (block_other_dns
          ∷ (block_rules 0 forbidden_ipv4_cidrs ++ public_rules 0 public_ipv4_cidrs))

  pub final_rules : List FirewallRuleSpec
  unfolding firewall_rule
  final_rules =
      firewall_rule (codes "block-outbound") outbound deny any_protocol 1 false any_remote none
      ∷ firewall_rule (codes "block-inbound") inbound deny any_protocol 1 false any_remote none
      ∷ []
