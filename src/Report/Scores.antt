-- ===== src/Report/Scores.antt =====
-- Which findings of a report score: `deduplicate_scores` and `score_group` of
-- src/report_analysis/correlation.rs.
pub mod Once
use foxhole.Prelude.{
  ℕ, zero, suc, Bool, true, false, not, ◌&&◌, ◌||◌, List, [], ◌∷◌, ◌++◌, map, Option, none, some,
  ltb, leb, ◌==◌, if◌then◌else◌, Text, codes, ◌=text◌, text_lt, has_text, any, is_empty,
}
use foxhole.Prelude.Sort.{sort_by}
use foxhole.Report.Model.{Finding, FindingDetails, EvidenceReference}

-- The family that a rule's findings belong to, if they name none.
unfoldable pub rule_group : Text → Text
rule_group rule_id =
    if rule_id =text codes "process_injection"
    then codes "injection"
    else if rule_id =text codes "credential_store_access"
    then codes "credentials"
    else if rule_id =text codes "suspicious_registry_autostart"
    then codes "persistence"
    else if rule_id =text codes "script_interpreter_network"
    then codes "execution"
    else rule_id

unfoldable pub named_group : Option FindingDetails → Text → Text
named_group none rule_id = rule_group rule_id
named_group (some d) rule_id =
    if not (is_empty d.score_group) then d.score_group else rule_group rule_id

unfoldable pub score_group : Finding → Text
score_group f = named_group f.details f.rule_id

-- `(score_contribution, rule_id)`
abbrev pub Winner : Type 0
Winner = ℕ × Text

abbrev pub is_better : Winner → Winner → Bool
is_better candidate prior =
    ltb prior.0 candidate.0 || (candidate.0 == prior.0 && text_lt candidate.1 prior.1)

-- `entry(group).or_insert(candidate)`, and the update of what stood there
abbrev pub better_winner : Winner → Option Winner → Option Winner
better_winner candidate none = some candidate
better_winner candidate (some prior) =
    if is_better candidate prior then some candidate else some prior

-- The map by its lookups.
unfoldable pub add_winner : (Text → Option Winner) → Finding → Text → Option Winner
add_winner winners f group =
    if f.score_contribution == 0
    then winners group
    else if score_group f =text group
    then better_winner (f.score_contribution, f.rule_id) (winners group)
    else winners group

unfoldable pub winners_of : (Text → Option Winner) → List Finding → Text → Option Winner
winners_of winners [] = winners
winners_of winners (f ∷ fs) = winners_of (add_winner winners f) fs

unfoldable pub numbered : ℕ → List Finding → List (ℕ × Finding)
numbered i [] = []
numbered i (f ∷ fs) = (i, f) ∷ numbered (suc i) fs

-- Higher scores first, then by the rule; the first that may stand in front.
abbrev pub order_le : ℕ × Finding → ℕ × Finding → Bool
order_le a b =
    ltb b.1.score_contribution a.1.score_contribution
    || (a.1.score_contribution == b.1.score_contribution && not (text_lt b.1.rule_id a.1.rule_id))

abbrev pub evidence_ids : List EvidenceReference → List Text
evidence_ids = map (λ e. e.evidence_id)

-- `winners.get(&group).is_none_or(|(_, id)| id != &f.rule_id)`
abbrev pub is_beaten : Option Winner → Text → Bool
is_beaten none rule_id = true
is_beaten (some winner) rule_id = not (winner.1 =text rule_id)

abbrev pub overlaps : List Text → Finding → Bool
overlaps scored_evidence f = any (λ e. has_text e.evidence_id scored_evidence) f.evidence

unfoldable pub suppressed : Finding → Finding
suppressed f = record f {
  score_contribution = 0;
  explanation =
      f.explanation
      ++ codes " Score suppressed because the same underlying behavior is already scored.";
}

-- The loop in the order of the scores: each finding under its index, as the loop leaves it.
unfoldable pub visit : (Text → Option Winner) → List Text → List (ℕ × Finding) → List (ℕ × Finding)
visit winners scored_evidence [] = []
visit winners scored_evidence ((i, f) ∷ rest) =
    let skipped = (i, f) ∷ visit winners scored_evidence rest in
    let silenced = (i, suppressed f) ∷ visit winners scored_evidence rest in
    let scored = (i, f) ∷ visit winners (evidence_ids f.evidence ++ scored_evidence) rest in
    if f.score_contribution == 0
    then skipped
    else if is_beaten (winners (score_group f)) f.rule_id || overlaps scored_evidence f
    then silenced
    else scored

abbrev pub index_le : ℕ × Finding → ℕ × Finding → Bool
index_le a b = leb a.0 b.0

-- Each finding is visited once and changed where it stands: the visited ones, by their indices.
unfoldable pub deduplicate_scores : List Finding → List Finding
deduplicate_scores findings =
    map (λ p. p.1)
      (sort_by index_le
        (visit (winners_of (λ group. none) findings) [] (sort_by order_le (numbered 0 findings))))
