-- ===== src/Network/Firewall/HostOnly.antt =====
-- What the rules of src/sandbox/hyperv/network.rs let out of a guest with a host server.
use foxhole.Prelude.{
  ℕ, ◌≡◌, sym, Bool, true, false, ◌&&◌, List, ◌++◌, any, all, ◌==◌, arith, Bool-cases, inl, inr,
  Text, ◌∙◌,
}
use foxhole.Network.Firewall.{
  outbound, allow, deny, FirewallRuleSpec, host_rules, final_rules, firewall_rule,
}
use foxhole.Network.Firewall.Weights.{
  Packet, Switch, is_tcp, has_port, applies, agrees, in_band, band,
}
use foxhole.Network.Firewall.Groups.{own_address}

abbrev pub all_host_rules : Text → ℕ → ℕ → ℕ → List FirewallRuleSpec
all_host_rules prefix lease host port =
    host_rules prefix lease host port ++ final_rules prefix lease

-- TCP to the service on the host
abbrev pub may_reach : ℕ → ℕ → Packet → Bool
may_reach host port p =
    is_tcp p.transport && (host == p.remote_address && has_port p.remote_port port)

module _ (prefix : Text) (lease host port : ℕ) (p : Packet) (out : p.direction ≡ outbound)
    (own : p.local_address ≡ lease) where
  service_in_band :
      may_reach host port p ≡ true
      → any (in_band p 300 allow) (all_host_rules prefix lease host port) ≡ true
  unfolding host_rules final_rules firewall_rule applies
  service_in_band h = rw (out, own_address prefix lease p out own) (ground arith)

  service_agrees : all (agrees p 300 allow) (all_host_rules prefix lease host port) ≡ true
  unfolding host_rules final_rules firewall_rule applies
  service_agrees = rw (out, own_address prefix lease p out own) (ground arith)

  rest_in_band : any (in_band p 1 deny) (all_host_rules prefix lease host port) ≡ true
  unfolding host_rules final_rules firewall_rule applies
  rest_in_band = rw (out, own_address prefix lease p out own) (ground arith)

  rest_agrees :
      may_reach host port p ≡ false
      → all (agrees p 1 deny) (all_host_rules prefix lease host port) ≡ true
  unfolding host_rules final_rules firewall_rule applies
  rest_agrees h = rw (out, own_address prefix lease p out own) (ground arith)

-- With the rules for a host server, a packet that leaves the guest's own address passes a switch
-- that decides by weight exactly when it is TCP to the configured port of the host's address.
pub admits-may_reach :
    (switch : Switch) (prefix : Text) (lease host port : ℕ) (p : Packet)
    → p.direction ≡ outbound
    → p.local_address ≡ lease
    → switch.admits (all_host_rules prefix lease host port) p ≡ may_reach host port p
admits-may_reach switch prefix lease host port p out own =
    elim (Bool-cases (may_reach host port p)) [
      | inl reached ↦
          band p 300 allow switch (all_host_rules prefix lease host port)
            (service_in_band prefix lease host port p out own reached)
            (service_agrees prefix lease host port p out own)
          ∙ sym reached
      | inr missed ↦
          band p 1 deny switch (all_host_rules prefix lease host port)
            (rest_in_band prefix lease host port p out own)
            (rest_agrees prefix lease host port p out own missed)
          ∙ sym missed
    ]
