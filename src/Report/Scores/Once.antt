-- ===== src/Report/Scores/Once.antt =====
-- No evidence and no family of behavior is scored twice.
use foxhole.Prelude.{
  ℕ, suc, ◌≡◌, ◌≤◌, refl, sym, ◌∙◌, Bool, true, false, not, ◌&&◌, ◌||◌, List, [], ◌∷◌, ◌++◌, map,
  Option, none, some, ltb, ◌==◌, Text, ◌=text◌, =text_iff, has_text, any, count, arith, Bool-cases,
  inl, inr,
}
use mathlib.Core.Path.{subst}
use foxhole.Prelude.Sort.{sort_by, count-sort_by}
use foxhole.Report.Model.{Finding, EvidenceReference}
use foxhole.Report.Scores.{
  Winner, score_group, winners_of, numbered, order_le, index_le, evidence_ids, is_beaten, overlaps,
  suppressed, visit, deduplicate_scores,
}

abbrev pub scores : Finding → Bool
scores f = ltb 0 f.score_contribution

abbrev pub has_evidence : Text → Finding → Bool
has_evidence id f = any (λ e. e.evidence_id =text id) f.evidence

abbrev pub scores_in : Text → Finding → Bool
scores_in group f = scores f && (score_group f =text group)

count-map {ℓ κ} :
    {A : Type ℓ} {B : Type κ} (p : B → Bool) (f : A → B) (xs : List A)
    → count p (map f xs) ≡ count (λ x. p (f x)) xs
count-map p f [] = refl
count-map p f (x ∷ xs) = ground (arith, count-map p f xs)

count-numbered :
    (p : Finding → Bool) (i : ℕ) (fs : List Finding)
    → count (λ x. p x.1) (numbered i fs) ≡ count p fs
unfolding numbered
count-numbered p i [] = refl
count-numbered p i (f ∷ fs) = ground (arith, count-numbered p (suc i) fs)

-- A count over the result is one over the loop.
count-deduplicate_scores :
    (p : Finding → Bool) (findings : List Finding)
    → count p (deduplicate_scores findings)
      ≡ count
          (λ x. p x.1)
          (visit (winners_of (λ group. none) findings) [] (sort_by order_le (numbered 0 findings)))
unfolding deduplicate_scores
count-deduplicate_scores p findings =
    let visited =
      visit (winners_of (λ group. none) findings) [] (sort_by order_le (numbered 0 findings)) in
    count-map p (λ x. x.1) (sort_by index_le visited) ∙ count-sort_by index_le (λ x. p x.1) visited

has_text-evidence_ids :
    (id : Text) (es : List EvidenceReference) (scored : List Text)
    → has_text id (evidence_ids es ++ scored)
      ≡ (any (λ e. e.evidence_id =text id) es || has_text id scored)
has_text-evidence_ids id [] scored = refl
has_text-evidence_ids id (e ∷ es) scored = ground (arith, has_text-evidence_ids id es scored)

-- A finding with evidence that has scored overlaps.
overlaps_of_evidence :
    (id : Text) (es : List EvidenceReference) (scored : List Text)
    → has_text id scored ≡ true
    → any (λ e. e.evidence_id =text id) es ≡ true
    → any (λ e. has_text e.evidence_id scored) es ≡ true
overlaps_of_evidence id [] scored known held = held
overlaps_of_evidence id (e ∷ es) scored known held = elim (Bool-cases (e.evidence_id =text id)) [
  | inl same ↦
      let here : has_text e.evidence_id scored ≡ true =
        subst (λ t. has_text t scored ≡ true) (sym ((=text_iff e.evidence_id id).0 same)) known in
      rw here refl
  | inr other ↦ ground (arith, overlaps_of_evidence id es scored known)
]

abbrev scores_with : Text → ℕ × Finding → Bool
scores_with id x = scores x.1 && has_evidence id x.1

module _ (winners : Text → Option Winner) (id : Text) where
  visit_scored :
      (scored : List Text) (order : List (ℕ × Finding))
      → has_text id scored ≡ true
      → count (scores_with id) (visit winners scored order) ≡ 0
  unfolding visit suppressed
  visit_scored scored [] known = refl
  visit_scored scored ((i, f) ∷ rest) known = elim (Bool-cases (f.score_contribution == 0)) [
    | inl silent ↦ rw silent (ground (arith, visit_scored scored rest))
    | inr scoring ↦
        elim (Bool-cases (is_beaten (winners (score_group f)) f.rule_id || overlaps scored f)) [
          | inl beaten ↦ rw (scoring, beaten) (visit_scored scored rest known)
          | inr kept ↦
              let longer = has_text-evidence_ids id f.evidence scored in
              let fresh : has_evidence id f ≡ false = elim (Bool-cases (has_evidence id f)) [
                | inl held ↦
                    let clash = overlaps_of_evidence id f.evidence scored known held in
                    absurd (ground arith)
                | inr free ↦ free
              ] in
              rw (scoring, kept, fresh)
                (ground (arith, visit_scored (evidence_ids f.evidence ++ scored) rest))
        ]
  ]

  visit_once :
      (scored : List Text) (order : List (ℕ × Finding))
      → count (scores_with id) (visit winners scored order) ≤ 1
  unfolding visit suppressed
  visit_once scored [] = omega arith
  visit_once scored ((i, f) ∷ rest) = elim (Bool-cases (f.score_contribution == 0)) [
    | inl silent ↦ rw silent (ground (arith, visit_once scored rest))
    | inr scoring ↦
        elim (Bool-cases (is_beaten (winners (score_group f)) f.rule_id || overlaps scored f)) [
          | inl beaten ↦ rw (scoring, beaten) (visit_once scored rest)
          | inr kept ↦
              rw (scoring, kept)
                (ground (
                  arith,
                  has_text-evidence_ids id f.evidence scored,
                  visit_scored (evidence_ids f.evidence ++ scored) rest,
                  visit_once (evidence_ids f.evidence ++ scored) rest,
                ))
        ]
  ]

module _ (winners : Text → Option Winner) (group rule_id : Text)
    (won : (rule : Text) → is_beaten (winners group) rule ≡ false → rule ≡ rule_id) where
  -- What scores in a family is of the rule that won it.
  visit-won :
      (scored : List Text) (order : List (ℕ × Finding))
      → count (λ x. scores_in group x.1) (visit winners scored order)
        ≤ count (λ x. scores x.1 && (x.1.rule_id =text rule_id)) order
  unfolding visit suppressed
  visit-won scored [] = omega arith
  visit-won scored ((i, f) ∷ rest) = elim (Bool-cases (f.score_contribution == 0)) [
    | inl silent ↦ rw silent (ground (arith, visit-won scored rest))
    | inr scoring ↦
        elim (Bool-cases (is_beaten (winners (score_group f)) f.rule_id || overlaps scored f)) [
          | inl beaten ↦ rw (scoring, beaten) (ground (arith, visit-won scored rest))
          | inr kept ↦ elim (Bool-cases (score_group f =text group)) [
            | inl here ↦
                let same = (=text_iff (score_group f) group).0 here in
                let unbeaten : is_beaten (winners group) f.rule_id ≡ false =
                  subst (λ g. is_beaten (winners g) f.rule_id ≡ false) same (ground arith) in
                let winner = (=text_iff f.rule_id rule_id).1 (won f.rule_id unbeaten) in
                rw (scoring, kept)
                  (ground (arith, visit-won (evidence_ids f.evidence ++ scored) rest))
            | inr other ↦
                rw (scoring, kept)
                  (ground (arith, visit-won (evidence_ids f.evidence ++ scored) rest))
          ]
        ]
  ]

no_winner : (o : Option Winner) (rule : Text) → o ≡ none → ¬ (is_beaten o rule ≡ false)
no_winner none rule e unbeaten = ground arith
no_winner (some w) rule e unbeaten = ground arith

winner_of :
    (o : Option Winner) (score : ℕ) (winner rule : Text)
    → o ≡ some (score, winner)
    → is_beaten o rule ≡ false
    → rule ≡ winner
winner_of o score winner rule e unbeaten =
    let same : not (winner =text rule) ≡ false = subst (λ p. is_beaten p rule ≡ false) e unbeaten in
    sym ((=text_iff winner rule).0 (ground arith))

-- Whatever findings the rules make, after the scores are deduplicated no piece of evidence
-- belongs to two findings that score.
pub deduplicate_scores-evidence :
    (findings : List Finding) (id : Text)
    → count (λ f. scores f && has_evidence id f) (deduplicate_scores findings) ≤ 1
deduplicate_scores-evidence findings id =
    let once =
      visit_once (winners_of (λ group. none) findings) id []
        (sort_by order_le (numbered 0 findings)) in
    let moved = count-deduplicate_scores (λ f. scores f && has_evidence id f) findings in
    omega arith

-- If no rule makes two findings that score, then after the scores are deduplicated at most one finding of a
-- behavior family scores.
pub deduplicate_scores-family :
    (findings : List Finding) (group : Text)
    → ((rule : Text) → count (λ f. scores f && (f.rule_id =text rule)) findings ≤ 1)
    → count (scores_in group) (deduplicate_scores findings) ≤ 1
deduplicate_scores-family findings group distinct =
    count_in_group (winners_of (λ g. none) findings group) refl
  where
    order : List (ℕ × Finding)
    order = sort_by order_le (numbered 0 findings)

    count_rule : (rule : Text) → count (λ x. scores x.1 && (x.1.rule_id =text rule)) order ≤ 1
    count_rule rule =
        let sorted =
          count-sort_by order_le (λ x. scores x.1 && (x.1.rule_id =text rule))
            (numbered 0 findings) in
        let unnumbered = count-numbered (λ f. scores f && (f.rule_id =text rule)) 0 findings in
        let once = distinct rule in omega arith

    count_in_group :
        (w : Option Winner)
        → winners_of (λ g. none) findings group ≡ w
        → count (scores_in group) (deduplicate_scores findings) ≤ 1
    count_in_group none e =
        let won =
          visit-won (winners_of (λ g. none) findings) group []
            (λ rule h. absurd (no_winner (winners_of (λ g. none) findings group) rule e h)) []
            order in
        let few = count_rule [] in
        let moved = count-deduplicate_scores (scores_in group) findings in omega arith
    count_in_group (some (score, winner)) e =
        let won =
          visit-won (winners_of (λ g. none) findings) group winner
            (λ rule h. winner_of (winners_of (λ g. none) findings group) score winner rule e h) []
            order in
        let few = count_rule winner in
        let moved = count-deduplicate_scores (scores_in group) findings in omega arith
