-- ===== src/Network/Firewall/Weights.antt =====
-- Packets, a switch that decides by the weight of the rules of src/sandbox/hyperv/network.rs, and
-- bands of rules that all do the same.
use foxhole.Prelude.{
  ℕ, ◌<◌, ◌≡◌, refl, Bool, true, false, not, ◌&&◌, ◌||◌, List, [], ◌∷◌, Option, none, some, any,
  all, ltb, leb, ◌==◌, arith, Bool-cases, inl, inr, ◌⊎◌,
}
use foxhole.Ipv4.Ranges.Blocks.{matches}
use foxhole.Network.Firewall.{
  Direction, outbound, inbound, Action, allow, deny, RuleProtocol, any_protocol, tcp_only, Remote,
  any_remote, one_address, block, FirewallRuleSpec,
}

pub data Transport : Type 0 where
  tcp udp other_transport : Transport

-- A packet of the guest's adapter; one without ports has none.
pub record Packet : Type 0 where
  pub direction : Direction
  pub transport : Transport
  pub local_address : ℕ
  pub remote_address : ℕ
  pub remote_port : Option ℕ

abbrev pub =direction : Direction → Direction → Bool
=direction outbound outbound = true
=direction inbound inbound = true
=direction _ _ = false

abbrev pub =action : Action → Action → Bool
=action allow allow = true
=action deny deny = true
=action _ _ = false

abbrev pub is_tcp : Transport → Bool
is_tcp tcp = true
is_tcp _ = false

abbrev protocol_matches : RuleProtocol → Transport → Bool
protocol_matches any_protocol t = true
protocol_matches tcp_only t = is_tcp t

abbrev remote_matches : Remote → ℕ → Bool
remote_matches any_remote a = true
remote_matches (one_address b) a = b == a
remote_matches (block c) a = matches c a

abbrev pub has_port : Option ℕ → ℕ → Bool
has_port none n = false
has_port (some m) n = m == n

abbrev port_matches : Option ℕ → Option ℕ → Bool
port_matches none port = true
port_matches (some n) port = has_port port n

unfoldable pub applies : FirewallRuleSpec → Packet → Bool
applies r p =
    =direction r.direction p.direction
    && (protocol_matches r.protocol p.transport
        && (r.local_address == p.local_address
            && (remote_matches r.remote_address p.remote_address
                && port_matches r.remote_port p.remote_port)))

-- A rule that applies and that no rule of the list outweighs: those that apply weigh less, or
-- weigh the same and do the same.
abbrev pub outweighs : Packet → FirewallRuleSpec → FirewallRuleSpec → Bool
outweighs p r s =
    not (applies s p)
    || (ltb s.priority r.priority || (s.priority == r.priority && =action s.action r.action))

abbrev pub is_heaviest : List FirewallRuleSpec → Packet → FirewallRuleSpec → Bool
is_heaviest rules p r = applies r p && all (outweighs p r) rules

-- The switch lets a packet through, or not, as the heaviest rule that applies says.
pub record Switch : Type 0 where
  pub admits : List FirewallRuleSpec → Packet → Bool
  pub by_weight :
      (rules : List FirewallRuleSpec) (p : Packet) (a : Action)
      → any (λ r. is_heaviest rules p r && =action r.action a) rules ≡ true
      → admits rules p ≡ =action a allow

-- Rules of a band: what applies with a weight of at least `w` does `a`.
module _ (p : Packet) (w : ℕ) (a : Action) where
  abbrev pub in_band : FirewallRuleSpec → Bool
  in_band r = applies r p && leb w r.priority

  abbrev pub agrees : FirewallRuleSpec → Bool
  agrees r = not (applies r p) || (ltb r.priority w || =action r.action a)

  record IsPicked (rs : List FirewallRuleSpec) (r : FirewallRuleSpec) : Type 0 where
    pub picked : in_band r ≡ true
    pub action : =action r.action a ≡ true
    pub heaviest : all (outweighs p r) rs ≡ true
    pub member : (f : FirewallRuleSpec → Bool) → f r ≡ true → any f rs ≡ true

  outweighs_rest :
      (x : FirewallRuleSpec) (xs : List FirewallRuleSpec)
      → in_band x ≡ true
      → any in_band xs ≡ false
      → all (outweighs p x) xs ≡ true
  outweighs_rest x [] hx h = refl
  outweighs_rest x (y ∷ ys) hx h = let rest = outweighs_rest x ys hx (ground arith) in ground arith

  outweighs_more :
      (x r : FirewallRuleSpec) (xs : List FirewallRuleSpec)
      → r.priority < x.priority
      → all (outweighs p r) xs ≡ true
      → all (outweighs p x) xs ≡ true
  outweighs_more x r [] b h = refl
  outweighs_more x r (y ∷ ys) b h =
      let rest = outweighs_more x r ys b (ground arith) in ground arith

  pick_head :
      (x : FirewallRuleSpec) (xs : List FirewallRuleSpec)
      → in_band x ≡ true
      → agrees x ≡ true
      → all (outweighs p x) xs ≡ true
      → IsPicked (x ∷ xs) x
  pick_head x xs h g o = record {
    picked = h;
    action = ground arith;
    heaviest = ground arith;
    member = λ f e. rw e refl;
  }

  or-true : (b c : Bool) → c ≡ true → (b || c) ≡ true
  or-true b c h = ground arith

  pick_tail :
      (x r : FirewallRuleSpec) (xs : List FirewallRuleSpec)
      → agrees x ≡ true
      → (applies x p && ltb r.priority x.priority) ≡ false
      → IsPicked xs r
      → IsPicked (x ∷ xs) r
  pick_tail x r xs g b h = record {
    picked = h.picked;
    action = h.action;
    heaviest = ground (arith, h.heaviest, h.picked, h.action);
    member = λ f e. or-true (f x) (any f xs) (h.member f e);
  }

  pick_cons :
      (x : FirewallRuleSpec) (xs : List FirewallRuleSpec)
      → any in_band (x ∷ xs) ≡ true
      → all agrees (x ∷ xs) ≡ true
      → (any in_band xs ≡ true → (r : FirewallRuleSpec) × IsPicked xs r)
      → (r : FirewallRuleSpec) × IsPicked (x ∷ xs) r
  pick_cons x xs h g later = go (Bool-cases (any in_band xs))
    where
      beside : (r : FirewallRuleSpec) × IsPicked xs r → (r : FirewallRuleSpec) × IsPicked (x ∷ xs) r
      beside (r, i) = elim (Bool-cases (applies x p && ltb r.priority x.priority)) [
        | inl b ↦ (
          x,
          pick_head x xs (ground (arith, i.picked)) (ground arith)
              (outweighs_more x r xs (ground arith) i.heaviest),
        )
        | inr b ↦ (r, pick_tail x r xs (ground arith) b i)
      ]

      go :
          (any in_band xs ≡ true) ⊎ (any in_band xs ≡ false)
          → (r : FirewallRuleSpec) × IsPicked (x ∷ xs) r
      go (inl t) = beside (later t)
      go (inr f) =
          let b : in_band x ≡ true = ground arith in
          (x, pick_head x xs b (ground arith) (outweighs_rest x xs b f))

  pick :
      (rs : List FirewallRuleSpec)
      → any in_band rs ≡ true
      → all agrees rs ≡ true
      → (r : FirewallRuleSpec) × IsPicked rs r
  pick [] h g = absurd (ground arith)
  pick (x ∷ xs) h g = pick_cons x xs h g (λ t. pick xs t (ground arith))

  -- Then a switch does `a`.
  pub band :
      (switch : Switch) (rs : List FirewallRuleSpec)
      → any in_band rs ≡ true
      → all agrees rs ≡ true
      → switch.admits rs p ≡ =action a allow
  band switch rs h g =
      let (r, i) = pick rs h g in
      switch.by_weight rs p a (i.member (λ s. is_heaviest rs p s && =action s.action a) (both r i))
    where
      both :
          (r : FirewallRuleSpec) → IsPicked rs r → (is_heaviest rs p r && =action r.action a) ≡ true
      both r i = ground (arith, i.picked, i.heaviest, i.action)
