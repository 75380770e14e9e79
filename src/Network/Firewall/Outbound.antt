-- ===== src/Network/Firewall/Outbound.antt =====
-- What the rules of src/sandbox/hyperv/network.rs let out of a guest with internet access.
use foxhole.Prelude.{
  ℕ, ◌≤◌, ◌≡◌, ap, ◌∙◌, Bool, true, false, not, ◌&&◌, List, any, all, ◌==◌, length, arith,
  Bool-cases, inl, inr, Text, if◌then◌else◌,
}
use foxhole.Ipv4.{u32_max}
use foxhole.Ipv4.Ranges.{is_public_ipv4, forbidden_ipv4_cidrs, public_ipv4_cidrs}
use foxhole.Ipv4.Ranges.Partition.{
  covers, public_ipv4_cidrs-covers, forbidden_ipv4_cidrs-covers, forbidden_ipv4_cidrs-few,
  public_ipv4_cidrs-few,
}
use foxhole.Network.Firewall.{
  outbound, Action, allow, deny, dns_rules, block_other_dns, block_rules, public_rules, final_rules,
}
use foxhole.Network.Firewall.Weights.{
  Packet, Switch, is_tcp, has_port, applies, agrees, in_band, band,
}
use foxhole.Network.Firewall.Groups

-- What should leave the guest: its questions to the configured resolvers, and TCP to public
-- addresses on other ports than the resolvers'.
abbrev pub may_leave : List ℕ → Packet → Bool
may_leave dns_servers p =
    if has_port p.remote_port 53
    then any (λ d. d == p.remote_address) dns_servers
    else is_public_ipv4 p.remote_address && is_tcp p.transport

module _ (switch : Switch) (prefix : Text) (lease : ℕ) (ds : List ℕ) (p : Packet)
    (out : p.direction ≡ outbound) (own : p.local_address ≡ lease) where
  dns_silent :
      (w : ℕ) (a : Action)
      → has_port p.remote_port 53 ≡ false
      → all (agrees p w a) (dns_rules prefix lease 0 ds) ≡ true
  dns_silent w a h =
      Groups.all_agree_silent prefix lease p out own w a (dns_rules prefix lease 0 ds)
        (Groups.dns_rules-applies prefix lease p out own 0 ds ∙ ground arith)

  other_silent :
      (w : ℕ) (a : Action)
      → has_port p.remote_port 53 ≡ false
      → agrees p w a (block_other_dns prefix lease) ≡ true
  other_silent w a h = let e = Groups.block_other_dns-applies prefix lease p out own in ground arith

  other_heavy :
      (w : ℕ)
      → w ≤ 50000
      → applies (block_other_dns prefix lease) p ≡ true
      → in_band p w deny (block_other_dns prefix lease) ≡ true
  other_heavy w b h = let e = Groups.block_other_dns-priority prefix lease in ground arith

  resolver_question :
      has_port p.remote_port 53 ≡ true
      → any (λ d. d == p.remote_address) ds ≡ true
      → length ds ≤ 8
      → switch.admits (Groups.all_external_rules prefix lease ds) p ≡ true
  resolver_question dns known few =
      band p 50001 allow switch (Groups.all_external_rules prefix lease ds)
        (Groups.some_in_band prefix lease ds p 50001 allow (ground (arith, top)))
        (Groups.all_agree prefix lease ds p 50001 allow
          (Groups.all_agree_same prefix lease p out own 50001 allow (dns_rules prefix lease 0 ds)
            (Groups.dns_rules-allow prefix lease 0 ds))
          light
          (Groups.all_agree_light prefix lease p out own 50001 allow
            (block_rules prefix lease 0 forbidden_ipv4_cidrs)
            (Groups.block_rules-light prefix lease 50001 0 forbidden_ipv4_cidrs (omega arith)))
          (Groups.all_agree_light prefix lease p out own 50001 allow
            (public_rules prefix lease 0 public_ipv4_cidrs)
            (Groups.public_rules-light prefix lease 50001 0 public_ipv4_cidrs (omega arith)))
          (Groups.final_rules-light prefix lease p out own 50001 allow (omega arith)))
    where
      top : any (in_band p 50001 allow) (dns_rules prefix lease 0 ds) ≡ true
      top =
          Groups.any-in_band prefix lease p out own 50001 allow (dns_rules prefix lease 0 ds)
            (Groups.dns_rules-heavy prefix lease 50001 0 ds (omega arith))
            (Groups.dns_rules-applies prefix lease p out own 0 ds ∙ ground arith)

      light : agrees p 50001 allow (block_other_dns prefix lease) ≡ true
      light = let e = Groups.block_other_dns-priority prefix lease in ground arith

  -- A question to any other server meets the block, which only the resolvers' rules outweigh.
  other_question :
      has_port p.remote_port 53 ≡ true
      → any (λ d. d == p.remote_address) ds ≡ false
      → switch.admits (Groups.all_external_rules prefix lease ds) p ≡ false
  other_question dns unknown =
      band p 50000 deny switch (Groups.all_external_rules prefix lease ds)
        (Groups.some_in_band prefix lease ds p 50000 deny (ground (arith, top)))
        (Groups.all_agree prefix lease ds p 50000 deny
          (Groups.all_agree_silent prefix lease p out own 50000 deny (dns_rules prefix lease 0 ds)
            (Groups.dns_rules-applies prefix lease p out own 0 ds ∙ ground arith))
          denies
          (Groups.all_agree_same prefix lease p out own 50000 deny
            (block_rules prefix lease 0 forbidden_ipv4_cidrs)
            (Groups.block_rules-deny prefix lease 0 forbidden_ipv4_cidrs))
          (Groups.all_agree_light prefix lease p out own 50000 deny
            (public_rules prefix lease 0 public_ipv4_cidrs)
            (Groups.public_rules-light prefix lease 50000 0 public_ipv4_cidrs (omega arith)))
          (Groups.final_rules-light prefix lease p out own 50000 deny (omega arith)))
    where
      top : in_band p 50000 deny (block_other_dns prefix lease) ≡ true
      top =
          other_heavy 50000 (omega arith)
            (Groups.block_other_dns-applies prefix lease p out own ∙ dns)

      denies : agrees p 50000 deny (block_other_dns prefix lease) ≡ true
      denies = let e = Groups.block_other_dns-deny prefix lease in ground arith

  -- Away from port 53: an address that is not public meets a block of its own.
  local_address :
      has_port p.remote_port 53 ≡ false
      → covers forbidden_ipv4_cidrs p.remote_address ≡ true
      → switch.admits (Groups.all_external_rules prefix lease ds) p ≡ false
  local_address dns forbidden =
      band p 30000 deny switch (Groups.all_external_rules prefix lease ds)
        (Groups.some_in_band prefix lease ds p 30000 deny (ground (arith, top)))
        (Groups.all_agree prefix lease ds p 30000 deny (dns_silent 30000 deny dns)
          (other_silent 30000 deny dns)
          (Groups.all_agree_same prefix lease p out own 30000 deny
            (block_rules prefix lease 0 forbidden_ipv4_cidrs)
            (Groups.block_rules-deny prefix lease 0 forbidden_ipv4_cidrs))
          (Groups.all_agree_light prefix lease p out own 30000 deny
            (public_rules prefix lease 0 public_ipv4_cidrs)
            (Groups.public_rules-light prefix lease 30000 0 public_ipv4_cidrs (omega arith)))
          (Groups.final_rules-light prefix lease p out own 30000 deny (omega arith)))
    where
      top : any (in_band p 30000 deny) (block_rules prefix lease 0 forbidden_ipv4_cidrs) ≡ true
      top =
          Groups.any-in_band prefix lease p out own 30000 deny
            (block_rules prefix lease 0 forbidden_ipv4_cidrs)
            (Groups.block_rules-heavy prefix lease 30000 0 forbidden_ipv4_cidrs
              (omega (arith, forbidden_ipv4_cidrs-few)))
            (Groups.block_rules-applies prefix lease p out own 0 forbidden_ipv4_cidrs ∙ forbidden)

  blocks_silent :
      (w : ℕ) (a : Action)
      → covers forbidden_ipv4_cidrs p.remote_address ≡ false
      → all (agrees p w a) (block_rules prefix lease 0 forbidden_ipv4_cidrs) ≡ true
  blocks_silent w a h =
      Groups.all_agree_silent prefix lease p out own w a
        (block_rules prefix lease 0 forbidden_ipv4_cidrs)
        (Groups.block_rules-applies prefix lease p out own 0 forbidden_ipv4_cidrs ∙ h)

  public_tcp :
      has_port p.remote_port 53 ≡ false
      → covers forbidden_ipv4_cidrs p.remote_address ≡ false
      → covers public_ipv4_cidrs p.remote_address ≡ true
      → is_tcp p.transport ≡ true
      → switch.admits (Groups.all_external_rules prefix lease ds) p ≡ true
  public_tcp dns allowed public t =
      band p 10000 allow switch (Groups.all_external_rules prefix lease ds)
        (Groups.some_in_band prefix lease ds p 10000 allow (ground (arith, top)))
        (Groups.all_agree prefix lease ds p 10000 allow (dns_silent 10000 allow dns)
          (other_silent 10000 allow dns) (blocks_silent 10000 allow allowed)
          (Groups.all_agree_same prefix lease p out own 10000 allow
            (public_rules prefix lease 0 public_ipv4_cidrs)
            (Groups.public_rules-allow prefix lease 0 public_ipv4_cidrs))
          (Groups.final_rules-light prefix lease p out own 10000 allow (omega arith)))
    where
      top : any (in_band p 10000 allow) (public_rules prefix lease 0 public_ipv4_cidrs) ≡ true
      top =
          Groups.any-in_band prefix lease p out own 10000 allow
            (public_rules prefix lease 0 public_ipv4_cidrs)
            (Groups.public_rules-heavy prefix lease 10000 0 public_ipv4_cidrs
              (omega (arith, public_ipv4_cidrs-few)))
            (Groups.public_rules-applies prefix lease p out own 0 public_ipv4_cidrs ∙ ground arith)

  -- Anything but TCP is left to the rule that stops all.
  not_tcp :
      has_port p.remote_port 53 ≡ false
      → covers forbidden_ipv4_cidrs p.remote_address ≡ false
      → is_tcp p.transport ≡ false
      → switch.admits (Groups.all_external_rules prefix lease ds) p ≡ false
  not_tcp dns allowed t =
      band p 1 deny switch (Groups.all_external_rules prefix lease ds)
        (Groups.some_in_band prefix lease ds p 1 deny (ground (arith, top)))
        (Groups.all_agree prefix lease ds p 1 deny (dns_silent 1 deny dns) (other_silent 1 deny dns)
          (blocks_silent 1 deny allowed)
          (Groups.all_agree_silent prefix lease p out own 1 deny
            (public_rules prefix lease 0 public_ipv4_cidrs)
            (Groups.public_rules-applies prefix lease p out own 0 public_ipv4_cidrs
              ∙ and-false (covers public_ipv4_cidrs p.remote_address) (is_tcp p.transport) t))
          (Groups.final_rules-deny prefix lease p out own))
    where
      and-false : (b c : Bool) → c ≡ false → (b && c) ≡ false
      and-false b c h = ground arith

      top : any (in_band p 1 deny) (final_rules prefix lease) ≡ true
      top = Groups.final_rules-in_band prefix lease p out own

-- With at most eight resolvers, a packet that leaves the guest's own address for a 32-bit address
-- passes a switch that decides by weight exactly when it is a question to a configured resolver
-- on port 53 or, on any other port, TCP to a public address.
pub admits-may_leave :
    (switch : Switch) (prefix : Text) (lease : ℕ) (ds : List ℕ) (p : Packet)
    → p.direction ≡ outbound
    → p.local_address ≡ lease
    → p.remote_address ≤ u32_max
    → length ds ≤ 8
    → switch.admits (Groups.all_external_rules prefix lease ds) p ≡ may_leave ds p
admits-may_leave switch prefix lease ds p out own wide few =
    elim (Bool-cases (has_port p.remote_port 53)) [
      | inl dns ↦ elim (Bool-cases (any (λ d. d == p.remote_address) ds)) [
        | inl known ↦
            resolver_question switch prefix lease ds p out own dns known few ∙ ground arith
        | inr unknown ↦ other_question switch prefix lease ds p out own dns unknown ∙ ground arith
      ]
      | inr dns ↦ elim (Bool-cases (is_public_ipv4 p.remote_address)) [
        | inr local ↦
            local_address switch prefix lease ds p out own dns (ground (arith, forbidden))
            ∙ ground arith
        | inl public ↦ elim (Bool-cases (is_tcp p.transport)) [
          | inl t ↦
              public_tcp switch prefix lease ds p out own dns (ground (arith, forbidden))
                (ground (arith, listed)) t
              ∙ ground arith
          | inr t ↦
              not_tcp switch prefix lease ds p out own dns (ground (arith, forbidden)) t
              ∙ ground arith
        ]
      ]
    ]
  where
    listed : covers public_ipv4_cidrs p.remote_address ≡ is_public_ipv4 p.remote_address
    listed = public_ipv4_cidrs-covers p.remote_address wide

    forbidden : covers forbidden_ipv4_cidrs p.remote_address ≡ not (is_public_ipv4 p.remote_address)
    forbidden = forbidden_ipv4_cidrs-covers p.remote_address wide ∙ ap not listed
