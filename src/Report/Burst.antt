-- ===== src/Report/Burst.antt =====
-- Mass file modification: `mass_file_finding` and `add_finding` of
-- src/report_analysis/verdict.rs.
pub mod Distinct
pub mod Window
pub mod Attained
pub mod Sorted
pub mod Reported
use foxhole.Prelude.{
  ℕ, suc, ◌+◌, ◌-◌, ◌*◌, Bool, true, false, not, ◌&&◌, ◌||◌, List, [], ◌∷◌, ◌++◌, map, Option, none,
  some, ltb, leb, ◌==◌, if◌then◌else◌, Text, codes, ◌=text◌, text_lt, length, is_empty,
}
use foxhole.Prelude.Sort.{sort_by}
use foxhole.Report.Model.{
  FileEvent, Finding, EvidenceReference, Severity, informational, suspicious, malicious,
}
use foxhole.Report.Timeline.{u64_max}

pub record VerdictConfig : Type 0 where
  pub mass_file_threshold : ℕ
  pub mass_file_window_ms : ℕ
  pub mass_file_malicious_multiplier : ℕ

abbrev pub default_config : VerdictConfig
default_config = record {
  mass_file_threshold = 100;
  mass_file_window_ms = 10000;
  mass_file_malicious_multiplier = 5;
}

-- `sort_by` by the time, then by the evidence's id; the first that may stand in front
abbrev pub evidence_le : EvidenceReference → EvidenceReference → Bool
evidence_le a b =
    ltb a.observed_at_ms b.observed_at_ms
    || (a.observed_at_ms == b.observed_at_ms && not (text_lt b.evidence_id a.evidence_id))

module _ {ℓ} {A : Type ℓ} (same : A → A → Bool) where
  -- What `dedup_by` keeps behind the element that it kept last.
  unfoldable pub dedup_after : A → List A → List A
  dedup_after kept [] = []
  dedup_after kept (x ∷ xs) =
      let dropped = dedup_after kept xs in
      let rest = dedup_after x xs in if same x kept then dropped else x ∷ rest

  unfoldable pub dedup_by : List A → List A
  dedup_by [] = []
  dedup_by (x ∷ xs) = x ∷ dedup_after x xs

abbrev pub severity_points : Severity → ℕ
severity_points informational = 0
severity_points suspicious = 30
severity_points malicious = 70

-- The finding that `add_finding` pushes, if there is evidence.
unfoldable pub add_finding :
    (rule_id : Text)
    → Severity
    → (title explanation : Text) → List EvidenceReference
    → (confidence : ℕ) → Option Finding
add_finding rule_id severity title explanation evidence confidence =
    if is_empty evidence
    then none
    else some (record {
      details = none;
      rule_id = rule_id;
      severity = severity;
      title = title;
      explanation = explanation;
      evidence = dedup_by (λ a b. a.evidence_id =text b.evidence_id) (sort_by evidence_le evidence);
      confidence = confidence;
      score_contribution = severity_points severity;
    })

-- `saturating_mul`
abbrev pub malicious_threshold : VerdictConfig → ℕ
malicious_threshold config =
    let multiplier =
      if leb 1 config.mass_file_malicious_multiplier
      then config.mass_file_malicious_multiplier
      else 1 in
    let product = config.mass_file_threshold * multiplier in
    if leb product u64_max then product else u64_max

abbrev pub and_then {ℓ κ} : {A : Type ℓ} {B : Type κ} → Option A → (A → Option B) → Option B
and_then none f = none
and_then (some a) f = f a

module _ {Value : Type 0} where
  -- `(observed_at_ms, pid, path, action)`, in lexicographic order; the first that may stand in front
  abbrev pub file_event_le : FileEvent Value → FileEvent Value → Bool
  file_event_le a b =
      ltb a.observed_at_ms b.observed_at_ms
      || (a.observed_at_ms == b.observed_at_ms
          && (ltb a.pid b.pid
              || (a.pid == b.pid
                  && (text_lt a.path b.path
                      || ((a.path =text b.path) && not (text_lt b.action a.action))))))

  abbrev pub same_file_event : FileEvent Value → FileEvent Value → Bool
  same_file_event a b =
      a.observed_at_ms == b.observed_at_ms
      && (a.pid == b.pid && ((a.path =text b.path) && (a.action =text b.action)))

  unfoldable pub distinct_events : List (FileEvent Value) → List (FileEvent Value)
  distinct_events events = dedup_by same_file_event (sort_by file_event_le events)

  -- The inner loop: `start` moves on while the window up to an event at `time` is too long. The
  -- window is `events[start..=end]`; one that runs empty is an index out of range.
  unfoldable pub advance :
      (window_ms time : ℕ) → List (FileEvent Value) → Option (List (FileEvent Value))
  advance window_ms time [] = none
  advance window_ms time (x ∷ xs) =
      let rest = advance window_ms time xs in
      if ltb window_ms (time - x.observed_at_ms) then rest else some (x ∷ xs)

  -- `if window.len() > best.len() { best = window; }`
  unfoldable pub longer : (best window : List (FileEvent Value)) → List (FileEvent Value)
  longer best window = if ltb (length best) (length window) then window else best

  -- The outer loop, from the window `events[start..end]` on.
  unfoldable pub busiest_from :
      (window_ms : ℕ) (window best rest : List (FileEvent Value)) → Option (List (FileEvent Value))
  busiest_from window_ms window best [] = some best
  busiest_from window_ms window best (e ∷ rest) =
      and_then (advance window_ms e.observed_at_ms (window ++ e ∷ []))
        λ window'. busiest_from window_ms window' (longer best window') rest

  unfoldable pub busiest : ℕ → List (FileEvent Value) → Option (List (FileEvent Value))
  busiest window_ms events = busiest_from window_ms [] [] events

  abbrev pub file_evidence : FileEvent Value → EvidenceReference
  file_evidence event = record {
    evidence_id = event.evidence_id;
    kind = codes "file_event";
    pid = event.pid;
    process_image = event.association.image;
    parent_pid = event.association.parent_pid;
    observed_at_ms = event.observed_at_ms;
    source_artifact = event.source;
    exact_value = event.action ++ 0x20 ∷ event.path;
    inferred = event.association.inferred;
  }

  unfoldable pub judge_burst : VerdictConfig → List (FileEvent Value) → Option Finding
  judge_burst config best =
      if ltb (length best) config.mass_file_threshold
      then none
      else add_finding (codes "mass_file_modification")
          (if leb (malicious_threshold config) (length best) then malicious else suspicious)
          (codes "Mass file modification observed")
          (codes
            "The configured number of file changes occurred inside the configured short time window.")
          (map file_evidence best) 94

  -- The finding that is pushed, if any; `none` outside is an index out of range.
  unfoldable pub mass_file_finding :
      VerdictConfig → List (FileEvent Value) → Option (Option Finding)
  mass_file_finding config file_events =
      if config.mass_file_threshold == 0 || ltb (length file_events) config.mass_file_threshold
      then some none
      else and_then (busiest config.mass_file_window_ms (distinct_events file_events))
          λ best. some (judge_burst config best)
