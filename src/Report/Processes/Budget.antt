-- ===== src/Report/Processes/Budget.antt =====
-- What the budget for process images allows over a whole analysis.
use foxhole.Prelude.{
  ℕ, ◌+◌, ◌≡◌, ◌≤◌, ◌<◌, ◌↔◌, List, [], ◌∷◌, Bool-cases, inl, inr, leb, ok, arith,
}
use foxhole.Report.Processes.{AssociationBudget, charge, check, usize_max}

-- The budget after all of some charges, whatever their outcomes.
unfoldable pub charge_all : AssociationBudget → List ℕ → AssociationBudget
charge_all budget [] = budget
charge_all budget (bytes ∷ rest) = charge_all (charge budget bytes).0 rest

abbrev pub sum : List ℕ → ℕ
sum [] = 0
sum (n ∷ ns) = n + sum ns

charge_within :
    (budget : AssociationBudget) (bytes : ℕ)
    → budget.maximum < usize_max
    → budget.used + bytes ≤ budget.maximum
    → ((charge budget bytes).0.used ≡ budget.used + bytes)
      × ((charge budget bytes).0.maximum ≡ budget.maximum)
unfolding charge
charge_within budget bytes small fits = ground arith

charge_beyond :
    (budget : AssociationBudget) (bytes : ℕ)
    → budget.maximum < budget.used + bytes
    → ((charge budget bytes).0.used ≡ usize_max)
      × ((charge budget bytes).0.maximum ≡ budget.maximum)
unfolding charge
charge_beyond budget bytes past = ground arith

-- However many images are charged to the budget that all importers share, it is good exactly
-- while the bytes charged to it add up to no more than its maximum: no overflow hides an excess,
-- and a budget that was exceeded once stays so. The maximum is below the largest `usize`.
pub check-charge_all :
    (budget : AssociationBudget) (charges : List ℕ)
    → budget.maximum < usize_max
    → (check (charge_all budget charges) ≡ ok tt) ↔ (budget.used + sum charges ≤ budget.maximum)
unfolding charge_all check
check-charge_all budget [] small = ground arith
check-charge_all budget (bytes ∷ rest) small =
    elim (Bool-cases (leb (budget.used + bytes) budget.maximum)) [
      | inl fits ↦
          let step = charge_within budget bytes small (ground arith) in
          let later = check-charge_all (charge budget bytes).0 rest (ground arith) in
          (λ h. (let k = later.0 h in ground arith), λ h. later.1 (ground arith))
      | inr past ↦
          let step = charge_beyond budget bytes (ground arith) in
          let later = check-charge_all (charge budget bytes).0 rest (ground arith) in
          (λ h. (let k = later.0 h in absurd (ground arith)), λ h. absurd (ground arith))
    ]
