-- ===== src/Network/Firewall/Groups.antt =====
-- The groups of rules of src/sandbox/hyperv/network.rs for a guest with internet access: to which
-- packets they apply, what they do and how much they weigh.
use foxhole.Prelude.{
  ℕ, ◌+◌, ◌≤◌, ◌<◌, ◌≡◌, refl, true, false, ◌&&◌, ◌||◌, List, [], ◌∷◌, ◌++◌, any, all, any-append,
  all-append, ltb, leb, ◌==◌, length, arith, Bool-cases, inl, inr, Text,
}
use foxhole.Ipv4.Ranges.{Cidr, forbidden_ipv4_cidrs, public_ipv4_cidrs}
use foxhole.Ipv4.Ranges.Partition.{covers}
use foxhole.Network.Firewall.{
  outbound, Action, allow, deny, FirewallRuleSpec, firewall_rule, dns_rules, block_other_dns,
  block_rules, public_rules, external_rules, final_rules,
}
use foxhole.Network.Firewall.Weights.{Packet, is_tcp, has_port, applies, agrees, in_band, =action}

-- What each group of rules does to a packet that leaves the guest's own address.
module _ (prefix : Text) (lease : ℕ) (p : Packet) (out : p.direction ≡ outbound)
    (own : p.local_address ≡ lease) where
  pub all_agree_silent :
      (w : ℕ) (a : Action) (rs : List FirewallRuleSpec)
      → any (λ r. applies r p) rs ≡ false
      → all (agrees p w a) rs ≡ true
  all_agree_silent w a [] h = refl
  all_agree_silent w a (r ∷ rs) h =
      let rest = all_agree_silent w a rs (ground arith) in ground arith

  pub own_address : (lease == p.local_address) ≡ true
  own_address = ground arith

  pub dns_rules-applies :
      (i : ℕ) (ds : List ℕ)
      → any (λ r. applies r p) (dns_rules prefix lease i ds)
        ≡ (any (λ d. d == p.remote_address) ds && has_port p.remote_port 53)
  unfolding dns_rules applies firewall_rule
  dns_rules-applies i [] = refl
  dns_rules-applies i (d ∷ ds) = rw (out, own_address, dns_rules-applies (i + 1) ds) (ground arith)

  pub block_rules-applies :
      (i : ℕ) (cs : List Cidr)
      → any (λ r. applies r p) (block_rules prefix lease i cs) ≡ covers cs p.remote_address
  unfolding block_rules applies firewall_rule
  block_rules-applies i [] = refl
  block_rules-applies i (c ∷ cs) =
      rw (out, own_address, block_rules-applies (i + 1) cs) (ground arith)

  pub public_rules-applies :
      (i : ℕ) (cs : List Cidr)
      → any (λ r. applies r p) (public_rules prefix lease i cs)
        ≡ (covers cs p.remote_address && is_tcp p.transport)
  unfolding public_rules applies firewall_rule
  public_rules-applies i [] = refl
  public_rules-applies i (c ∷ cs) =
      rw (out, own_address, public_rules-applies (i + 1) cs) (ground arith)

  pub any-in_band :
      (w : ℕ) (a : Action) (rs : List FirewallRuleSpec)
      → all (λ r. leb w r.priority) rs ≡ true
      → any (λ r. applies r p) rs ≡ true
      → any (in_band p w a) rs ≡ true
  any-in_band w a [] b h = h
  any-in_band w a (r ∷ rs) b h = elim (Bool-cases (applies r p)) [
    | inl t ↦ ground arith
    | inr f ↦ let rest = any-in_band w a rs (ground arith) (ground arith) in ground arith
  ]

  pub all_agree_light :
      (w : ℕ) (a : Action) (rs : List FirewallRuleSpec)
      → all (λ r. ltb r.priority w) rs ≡ true
      → all (agrees p w a) rs ≡ true
  all_agree_light w a [] h = refl
  all_agree_light w a (r ∷ rs) h = let rest = all_agree_light w a rs (ground arith) in ground arith

  pub all_agree_same :
      (w : ℕ) (a : Action) (rs : List FirewallRuleSpec)
      → all (λ r. =action r.action a) rs ≡ true
      → all (agrees p w a) rs ≡ true
  all_agree_same w a [] h = refl
  all_agree_same w a (r ∷ rs) h = let rest = all_agree_same w a rs (ground arith) in ground arith

-- The action and the weights of each group.
module _ (prefix : Text) (lease : ℕ) where
  pub dns_rules-allow :
      (i : ℕ) (ds : List ℕ) → all (λ r. =action r.action allow) (dns_rules prefix lease i ds) ≡ true
  unfolding dns_rules firewall_rule
  dns_rules-allow i [] = refl
  dns_rules-allow i (d ∷ ds) = dns_rules-allow (i + 1) ds

  pub block_rules-deny :
      (i : ℕ) (cs : List Cidr)
      → all (λ r. =action r.action deny) (block_rules prefix lease i cs) ≡ true
  unfolding block_rules firewall_rule
  block_rules-deny i [] = refl
  block_rules-deny i (c ∷ cs) = block_rules-deny (i + 1) cs

  pub public_rules-allow :
      (i : ℕ) (cs : List Cidr)
      → all (λ r. =action r.action allow) (public_rules prefix lease i cs) ≡ true
  unfolding public_rules firewall_rule
  public_rules-allow i [] = refl
  public_rules-allow i (c ∷ cs) = public_rules-allow (i + 1) cs

  pub dns_rules-heavy :
      (w i : ℕ) (ds : List ℕ)
      → w + (i + length ds) ≤ 60000
      → all (λ r. leb w r.priority) (dns_rules prefix lease i ds) ≡ true
  unfolding dns_rules firewall_rule
  dns_rules-heavy w i [] b = refl
  dns_rules-heavy w i (d ∷ ds) b =
      let rest = dns_rules-heavy w (i + 1) ds (omega arith) in ground arith

  pub block_rules-heavy :
      (w i : ℕ) (cs : List Cidr)
      → w + (i + length cs) ≤ 40000
      → all (λ r. leb w r.priority) (block_rules prefix lease i cs) ≡ true
  unfolding block_rules firewall_rule
  block_rules-heavy w i [] b = refl
  block_rules-heavy w i (c ∷ cs) b =
      let rest = block_rules-heavy w (i + 1) cs (omega arith) in ground arith

  pub public_rules-heavy :
      (w i : ℕ) (cs : List Cidr)
      → w + (i + length cs) ≤ 20000
      → all (λ r. leb w r.priority) (public_rules prefix lease i cs) ≡ true
  unfolding public_rules firewall_rule
  public_rules-heavy w i [] b = refl
  public_rules-heavy w i (c ∷ cs) b =
      let rest = public_rules-heavy w (i + 1) cs (omega arith) in ground arith

  pub block_rules-light :
      (w i : ℕ) (cs : List Cidr)
      → 40000 < w
      → all (λ r. ltb r.priority w) (block_rules prefix lease i cs) ≡ true
  unfolding block_rules firewall_rule
  block_rules-light w i [] b = refl
  block_rules-light w i (c ∷ cs) b = let rest = block_rules-light w (i + 1) cs b in ground arith

  pub public_rules-light :
      (w i : ℕ) (cs : List Cidr)
      → 20000 < w
      → all (λ r. ltb r.priority w) (public_rules prefix lease i cs) ≡ true
  unfolding public_rules firewall_rule
  public_rules-light w i [] b = refl
  public_rules-light w i (c ∷ cs) b = let rest = public_rules-light w (i + 1) cs b in ground arith

abbrev pub all_external_rules : Text → ℕ → List ℕ → List FirewallRuleSpec
all_external_rules prefix lease ds = external_rules prefix lease ds ++ final_rules prefix lease

module _ (prefix : Text) (lease : ℕ) (ds : List ℕ) (p : Packet) (w : ℕ) (a : Action) where
  pub all_agree :
      all (agrees p w a) (dns_rules prefix lease 0 ds) ≡ true
      → agrees p w a (block_other_dns prefix lease) ≡ true
      → all (agrees p w a) (block_rules prefix lease 0 forbidden_ipv4_cidrs) ≡ true
      → all (agrees p w a) (public_rules prefix lease 0 public_ipv4_cidrs) ≡ true
      → all (agrees p w a) (final_rules prefix lease) ≡ true
      → all (agrees p w a) (all_external_rules prefix lease ds) ≡ true
  unfolding external_rules
  all_agree d o b pu f =
      rw
        (
          all-append (agrees p w a) (external_rules prefix lease ds) (final_rules prefix lease),
          f,
          all-append (agrees p w a) (dns_rules prefix lease 0 ds) (
              block_other_dns prefix lease
              ∷ (block_rules prefix lease 0 forbidden_ipv4_cidrs
                  ++ public_rules prefix lease 0 public_ipv4_cidrs)),
          d,
          o,
          all-append (agrees p w a) (block_rules prefix lease 0 forbidden_ipv4_cidrs)
              (public_rules prefix lease 0 public_ipv4_cidrs),
          b,
          pu,
        )
        refl

  pub some_in_band :
      (any (in_band p w a) (dns_rules prefix lease 0 ds)
          || (in_band p w a (block_other_dns prefix lease)
              || (any (in_band p w a) (block_rules prefix lease 0 forbidden_ipv4_cidrs)
                  || (any (in_band p w a) (public_rules prefix lease 0 public_ipv4_cidrs)
                      || any (in_band p w a) (final_rules prefix lease)))))
        ≡ true
      → any (in_band p w a) (all_external_rules prefix lease ds) ≡ true
  unfolding external_rules
  some_in_band h =
      rw
        (
          any-append (in_band p w a) (external_rules prefix lease ds) (final_rules prefix lease),
          any-append (in_band p w a) (dns_rules prefix lease 0 ds) (
              block_other_dns prefix lease
              ∷ (block_rules prefix lease 0 forbidden_ipv4_cidrs
                  ++ public_rules prefix lease 0 public_ipv4_cidrs)),
          any-append (in_band p w a) (block_rules prefix lease 0 forbidden_ipv4_cidrs)
              (public_rules prefix lease 0 public_ipv4_cidrs),
        )
        (ground arith)

-- The last rules, and the one that stops other resolvers.
module _ (prefix : Text) (lease : ℕ) (p : Packet) (out : p.direction ≡ outbound)
    (own : p.local_address ≡ lease) where
  pub final_rules-light :
      (w : ℕ) (a : Action) → 1 < w → all (agrees p w a) (final_rules prefix lease) ≡ true
  unfolding final_rules firewall_rule applies
  final_rules-light w a b = rw (out, own_address prefix lease p out own) (ground arith)

  pub final_rules-deny : all (agrees p 1 deny) (final_rules prefix lease) ≡ true
  unfolding final_rules firewall_rule applies
  final_rules-deny = rw (out, own_address prefix lease p out own) (ground arith)

  pub final_rules-in_band : any (in_band p 1 deny) (final_rules prefix lease) ≡ true
  unfolding final_rules firewall_rule applies
  final_rules-in_band = rw (out, own_address prefix lease p out own) (ground arith)

  pub block_other_dns-applies : applies (block_other_dns prefix lease) p ≡ has_port p.remote_port 53
  unfolding block_other_dns firewall_rule applies
  block_other_dns-applies = rw (out, own_address prefix lease p out own) (ground arith)

pub block_other_dns-deny :
    (prefix : Text) (lease : ℕ) → (block_other_dns prefix lease).action ≡ deny
unfolding block_other_dns firewall_rule
block_other_dns-deny prefix lease = refl

pub block_other_dns-priority :
    (prefix : Text) (lease : ℕ) → (block_other_dns prefix lease).priority ≡ 50000
unfolding block_other_dns firewall_rule
block_other_dns-priority prefix lease = refl
