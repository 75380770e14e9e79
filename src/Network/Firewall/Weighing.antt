-- ===== src/Network/Firewall/Weighing.antt =====
-- A switch that lets a packet through if a heaviest rule of src/sandbox/hyperv/network.rs allows it.
use foxhole.Prelude.{
  ◌≡◌, refl, Bool, true, false, ◌&&◌, List, [], ◌∷◌, any, all, arith, Bool-cases, inl, inr,
}
use foxhole.Network.Firewall.{Action, allow, deny, FirewallRuleSpec}
use foxhole.Network.Firewall.Weights.{Packet, Switch, applies, outweighs, is_heaviest, =action}

-- An element that passes, with what holds of all elements.
record IsFound (f : FirewallRuleSpec → Bool) (rs : List FirewallRuleSpec) (r : FirewallRuleSpec)
    : Type 0 where
  pub passes : f r ≡ true
  pub common : (h : FirewallRuleSpec → Bool) → all h rs ≡ true → h r ≡ true

find :
    (f : FirewallRuleSpec → Bool) (rs : List FirewallRuleSpec)
    → any f rs ≡ true
    → (r : FirewallRuleSpec) × IsFound f rs r
find f [] e = absurd (ground arith)
find f (r ∷ rs) e = elim (Bool-cases (f r)) [
  | inl t ↦ (r, record { passes = t; common = λ h a. head_holds h r rs a })
  | inr n ↦ later (find f rs (ground arith))
]
  where
    head_holds :
        (h : FirewallRuleSpec → Bool) (r : FirewallRuleSpec) (rs : List FirewallRuleSpec)
        → all h (r ∷ rs) ≡ true
        → h r ≡ true
    head_holds h r rs a = ground arith

    tail_holds :
        (h : FirewallRuleSpec → Bool) (r : FirewallRuleSpec) (rs : List FirewallRuleSpec)
        → all h (r ∷ rs) ≡ true
        → all h rs ≡ true
    tail_holds h r rs a = ground arith

    later : (s : FirewallRuleSpec) × IsFound f rs s → (s : FirewallRuleSpec) × IsFound f (r ∷ rs) s
    later (s, i) =
        (s, record { passes = i.passes; common = λ h a. i.common h (tail_holds h r rs a) })

module _ (rules : List FirewallRuleSpec) (p : Packet) where
  -- Two heaviest rules do the same.
  same_action :
      (r s : FirewallRuleSpec)
      → applies r p ≡ true
      → applies s p ≡ true
      → outweighs p r s ≡ true
      → outweighs p s r ≡ true
      → =action r.action deny ≡ true
      → =action s.action allow ≡ false
  same_action r s ar as' o o' d = ground arith

  none_allows :
      (r : FirewallRuleSpec) (rs : List FirewallRuleSpec)
      → ((h : FirewallRuleSpec → Bool) → all h rules ≡ true → h r ≡ true)
      → applies r p ≡ true
      → =action r.action deny ≡ true
      → all (outweighs p r) rs ≡ true
      → any (λ s. is_heaviest rules p s && =action s.action allow) rs ≡ false
  none_allows r [] common ar d o = refl
  none_allows r (s ∷ rs) common ar d o =
      let rest = none_allows r rs common ar d (ground arith) in
      elim (Bool-cases (is_heaviest rules p s)) [
        | inr light ↦ ground arith
        | inl heavy ↦
            let back : outweighs p s r ≡ true = common (outweighs p s) (ground arith) in
            let forth : outweighs p r s ≡ true = ground arith in
            let differ : =action s.action allow ≡ false =
              same_action r s ar (ground arith) forth back d in
            ground (arith, differ, rest)
      ]

abbrev let_through : List FirewallRuleSpec → Packet → Bool
let_through rules p = any (λ r. is_heaviest rules p r && =action r.action allow) rules

pub decides :
    (rules : List FirewallRuleSpec) (p : Packet) (a : Action)
    → any (λ r. is_heaviest rules p r && =action r.action a) rules ≡ true
    → let_through rules p ≡ =action a allow
decides rules p allow h = h
decides rules p deny h =
    let (r, i) = find (λ r. is_heaviest rules p r && =action r.action deny) rules h in
    none_allows rules p r rules i.common (ground (arith, i.passes)) (ground (arith, i.passes))
      (ground (arith, i.passes))

abbrev pub weighing_switch : Switch
weighing_switch = record { admits = let_through; by_weight = decides }
