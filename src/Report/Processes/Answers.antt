-- ===== src/Report/Processes/Answers.antt =====
-- How near the answers of the three timelines are.
use foxhole.Prelude.{
  ℕ, ◌≡◌, refl, sym, ◌∙◌, Bool, true, false, not, ◌&&◌, ◌||◌, List, [], Option, none, some, any,
  arith, Bool-cases, inl, inr,
}
use foxhole.Report.Timeline.{Candidate, Interval}
use foxhole.Report.Timeline.Present.{holds}
use foxhole.Report.Timeline.Best.{IsBest, precedes, same_candidate}
use foxhole.Report.Processes.{pair_lt, with_option, map_option}
use foxhole.Report.Processes.Least.{same_pair, any_weaken, any_constant, all-not, all-none}

-- One timeline: what it answers, against the sightings on its side.
module _ (prefer_latest : Bool) (time : ℕ) (intervals : List Interval) (sighted : List Candidate)
    (side : Candidate → Bool) (pairing : Candidate → ℕ × ℕ)
    (transfer : (h : Candidate → Bool)
      → any (λ v. holds time v && h v.candidate) intervals ≡ any (λ c. side c && h c) sighted)
    (side_same : (b c : Candidate) → same_candidate c b ≡ true → side c ≡ true → side b ≡ true)
    (pairing_same : (b c : Candidate)
      → same_candidate c b ≡ true
      → same_pair (pairing b) (pairing c) ≡ true)
    (pairing_order : (b c : Candidate)
      → side b ≡ true
      → side c ≡ true
      → precedes prefer_latest b c ≡ true
      → pair_lt (pairing c) (pairing b) ≡ false) where
  sided : (b : Candidate) → IsBest prefer_latest time intervals (some b) → side b ≡ true
  sided b best = any_constant (side b) sighted (
      any_weaken (λ c. side c && same_candidate c b) (λ c. side b) sighted
        (λ c h. side_same b c (ground arith) (ground arith))
        (sym (transfer (λ c. same_candidate c b)) ∙ best.0))

  -- A nearer sighting is not preceded.
  beaten :
      (b : Candidate) (y : ℕ × ℕ) (c : Candidate)
      → side b ≡ true
      → pair_lt y (pairing b) ≡ true
      → (side c && same_pair y (pairing c)) ≡ true
      → (side c && not (precedes prefer_latest b c)) ≡ true
  beaten b y c on_side nearer h = elim (Bool-cases (precedes prefer_latest b c)) [
    | inl before ↦
        let behind = pairing_order b c on_side (ground arith) before in absurd (ground arith)
    | inr beyond ↦ rw beyond (ground arith)
  ]

  -- None of the sightings on its side is nearer than its answer.
  pub answer_reaches :
      (o : Option Candidate) (y : ℕ × ℕ)
      → IsBest prefer_latest time intervals o
      → any (λ c. side c && same_pair y (pairing c)) sighted ≡ true
      → any (λ x. not (pair_lt y x)) (with_option (map_option pairing o) []) ≡ true
  answer_reaches none y best there =
      let nothing = all-none (holds time) (λ v. same_pair y (pairing v.candidate)) intervals best in
      let moved = transfer (λ c. same_pair y (pairing c)) in absurd (ground arith)
  answer_reaches (some b) y best there = elim (Bool-cases (pair_lt y (pairing b))) [
    | inr not_nearer ↦ rw not_nearer refl
    | inl nearer ↦
        let passed =
          all-not (holds time) (λ v. precedes prefer_latest b v.candidate) intervals best.1 in
        let moved = transfer (λ c. not (precedes prefer_latest b c)) in
        let closer =
          any_weaken (λ c. side c && same_pair y (pairing c))
            (λ c. side c && not (precedes prefer_latest b c)) sighted
            (λ c h. beaten b y c (sided b best) nearer h) there in
        absurd (ground arith)
  ]

  -- Its answer is a sighting.
  pub answer_sighted :
      (o : Option Candidate) (m : ℕ × ℕ)
      → IsBest prefer_latest time intervals o
      → any (same_pair m) (with_option (map_option pairing o) []) ≡ true
      → any (λ c. same_pair m (pairing c)) sighted ≡ true
  answer_sighted none m best there = absurd (ground arith)
  answer_sighted (some b) m best there =
      any_weaken (λ c. side c && same_candidate c b) (λ c. same_pair m (pairing c)) sighted
        (λ c h. ground (arith, pairing_same b c))
        (sym (transfer (λ c. same_candidate c b)) ∙ best.0)

pub any-with_option :
    (p : ℕ × ℕ → Bool) (o : Option (ℕ × ℕ)) (rest : List (ℕ × ℕ))
    → any p (with_option o rest) ≡ (any p (with_option o []) || any p rest)
any-with_option p none rest = refl
any-with_option p (some a) rest = ground arith

pub or_sighted :
    {a b c s u : Bool}
    → (a ≡ true → s ≡ true)
    → (b ≡ true → s ≡ true)
    → (c ≡ true → u ≡ true)
    → (a || (b || c)) ≡ true
    → (s || u) ≡ true
or_sighted {a = true} f g h held = ground (arith, f refl)
or_sighted {a = false} {b = true} f g h held = ground (arith, g refl)
or_sighted {a = false} {b = false} f g h held = ground (arith, h held)

pub or_reached :
    {a b c s s' s'' u : Bool}
    → s ≡ (s' || s'')
    → (s' ≡ true → a ≡ true)
    → (s'' ≡ true → b ≡ true)
    → (u ≡ true → c ≡ true)
    → (s || u) ≡ true
    → (a || (b || c)) ≡ true
or_reached {s' = true} split f g h held = ground (arith, f refl)
or_reached {s' = false} {s'' = true} split f g h held = ground (arith, g refl)
or_reached {s' = false} {s'' = false} {u = true} split f g h held = ground (arith, h refl)
or_reached {s' = false} {s'' = false} {u = false} split f g h held = ground arith
