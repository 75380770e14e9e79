-- ===== src/Report/Tests.antt =====
-- Processes of a run, and the theorems about them.
use foxhole.Prelude.{
  ℕ, ◌*◌, ◌+◌, ◌≡◌, ◌≤◌, ◌↔◌, refl, [], ◌∷◌, some, none, ok, codes, arith, Text, List, true, false,
  ◌&&◌, ◌=text◌, =text_iff, Option, count, map,
}
use foxhole.Report.Model.{
  Process, ProcessObservation, FileEvent, Finding, EvidenceReference, suspicious, malicious,
}
use foxhole.Report.Burst.{
  VerdictConfig, mass_file_finding, busiest, busiest_from, advance, longer, distinct_events,
  dedup_by, dedup_after, judge_burst, add_finding, file_evidence,
}
use foxhole.Report.Burst.Reported.{SpanHolds, severity_of, is_some, mass_file_finding-reports}
use foxhole.Report.Scores.{
  deduplicate_scores, visit, suppressed, winners_of, add_winner, score_group, named_group,
  rule_group, numbered,
}
use foxhole.Report.Scores.Once.{
  scores, scores_in, has_evidence, deduplicate_scores-evidence, deduplicate_scores-family,
}
use foxhole.Report.Timeline.{
  u64_max, timeline, sweep, events_from, interval_events, apply_event, insert_key, remove_key,
  first_key, lesser_key, winner, key, at, at_end, change_at, partition_point,
}
use foxhole.Prelude.Sort.{sort_by, insert_sorted}
use foxhole.Report.Processes.{
  new_index, nearest, associate, associate_near, collect, push_before, push_after, push_each,
  push_empty, process_start, process_end, least_pair, check, default_budget, map_option,
}
use foxhole.Report.Processes.Budget.{check-charge_all, charge_all, sum}
use foxhole.Report.Processes.Sightings.{distances, sightings, unobserved}
use foxhole.Report.Processes.Nearest.{associate-new_index}

abbrev observation : Text → ℕ → ProcessObservation ℕ
observation status time = record {
  evidence_id = [];
  pid = 0;
  parent_pid = none;
  image = [];
  command_line = none;
  status = status;
  observed_at_ms = time;
  source = [];
  raw = 0;
}

abbrev process : ℕ → List (ProcessObservation ℕ) → Process ℕ
process pid observations = record {
  pid = pid;
  parent_pid = some 1;
  image = codes "p.exe";
  command_line = none;
  status = codes "observed";
  observed_at_ms = 5;
  observations = observations;
  raw = 0;
}

-- Two processes that overlap, one that ends before it starts, and one never observed.
abbrev processes : List (Process ℕ)
processes =
    process 30 (observation (codes "observed") 10 ∷ observation (codes "terminated") 40 ∷ [])
    ∷ process 20 (observation (codes "observed") 12 ∷ observation (codes "terminated") 30 ∷ [])
    ∷ process 50 (observation (codes "observed") 30 ∷ observation (codes "terminated") 15 ∷ [])
    ∷ process 60 []
    ∷ []

nearest_at_boundary : nearest (new_index processes) 30 ≡ some (0, 20)
unfolding nearest new_index timeline sweep events_from interval_events apply_event insert_key
    remove_key first_key lesser_key winner key at at_end change_at partition_point sort_by
    insert_sorted collect push_before push_after push_each push_empty process_start process_end
nearest_at_boundary = refl

nearest_after_end : nearest (new_index processes) 41 ≡ some (u64_max, 60)
unfolding nearest new_index timeline sweep events_from interval_events apply_event insert_key
    remove_key first_key lesser_key winner key at at_end change_at partition_point sort_by
    insert_sorted collect push_before push_after push_each push_empty process_start process_end
nearest_after_end = refl

distances_at_boundary :
    distances processes 30 ≡ (20, 30) ∷ (10, 30) ∷ (18, 20) ∷ (0, 20) ∷ (u64_max, 60) ∷ []
unfolding distances sightings unobserved process_start process_end
distances_at_boundary = refl

associate-new_index_example :
    associate (new_index processes) none 30 999
    ≡ associate_near (new_index processes) 999 (least_pair (distances processes 30))
associate-new_index_example = associate-new_index processes 30 999 (omega arith)

check-charge_all_example :
    (check (charge_all default_budget (4096 ∷ 4096 ∷ [])) ≡ ok tt)
    ↔ (0 + sum (4096 ∷ 4096 ∷ []) ≤ 64 * 1024 * 1024)
check-charge_all_example = check-charge_all default_budget (4096 ∷ 4096 ∷ []) (omega arith)

abbrev file_event : ℕ → Text → FileEvent ℕ
file_event time path = record {
  evidence_id = path;
  pid = 30;
  path = path;
  action = codes "write";
  size_bytes = none;
  sha256 = none;
  hash_source = none;
  observed_at_ms = time;
  source = [];
  association = record {
    pid = 30;
    image = codes "p.exe";
    parent_pid = none;
    inferred = false;
    method = [];
  };
  raw = 0;
}

-- Five events, of which the last two are the same: three of them lie within ten milliseconds.
abbrev file_events : List (FileEvent ℕ)
file_events =
    file_event 28 (codes "d")
    ∷ file_event 5 (codes "a")
    ∷ file_event 20 (codes "b")
    ∷ file_event 30 (codes "c")
    ∷ file_event 30 (codes "c")
    ∷ []

abbrev config : VerdictConfig
config = record {
  mass_file_threshold = 3;
  mass_file_window_ms = 10;
  mass_file_malicious_multiplier = 5;
}

burst_is_suspicious :
    map_option severity_of (mass_file_finding config file_events) ≡ some (some suspicious)
unfolding mass_file_finding busiest busiest_from advance longer distinct_events dedup_by dedup_after
    judge_burst add_finding sort_by insert_sorted
burst_is_suspicious = refl

mass_file_finding-reports_example :
    (result : Option Finding) × (mass_file_finding config file_events ≡ some result)
    × ((is_some result ≡ true) ↔ SpanHolds config file_events 3)
    × ((severity_of result ≡ some malicious) ↔ SpanHolds config file_events 15)
mass_file_finding-reports_example =
    mass_file_finding-reports config file_events (omega arith) (omega arith)

abbrev evidence : Text → EvidenceReference
evidence id = file_evidence (record (file_event 20 (codes "b")) { evidence_id = id })

abbrev finding : Text → ℕ → List EvidenceReference → Finding
finding rule points found = record {
  details = none;
  rule_id = rule;
  severity = suspicious;
  title = [];
  explanation = [];
  evidence = found;
  confidence = 94;
  score_contribution = points;
}

-- The second shares evidence with the first, and the third is of the first's family.
abbrev findings : List Finding
findings =
    finding (codes "credential_store_access") 70 (evidence (codes "e1") ∷ [])
    ∷ finding (codes "other") 30 (evidence (codes "e1") ∷ evidence (codes "e2") ∷ [])
    ∷ finding (codes "credentials") 30 (evidence (codes "e3") ∷ [])
    ∷ []

one_scores : map (λ f. f.score_contribution) (deduplicate_scores findings) ≡ 70 ∷ 0 ∷ 0 ∷ []
unfolding deduplicate_scores visit suppressed winners_of add_winner score_group named_group
    rule_group numbered sort_by insert_sorted
one_scores = refl

deduplicate_scores-evidence_example :
    count (λ f. scores f && has_evidence (codes "e1") f) (deduplicate_scores findings) ≤ 1
deduplicate_scores-evidence_example = deduplicate_scores-evidence findings (codes "e1")

-- Stated of any three names, so that no proof holds the texts letter by letter.
names_differ :
    (a b c rule : Text)
    → (a =text b) ≡ false
    → (a =text c) ≡ false
    → (b =text c) ≡ false
    → count (λ name. name =text rule) (a ∷ b ∷ c ∷ []) ≤ 1
names_differ a b c rule ab ac bc = ground (
  arith,
  =text_iff a rule,
  =text_iff b rule,
  =text_iff c rule,
  =text_iff a b,
  =text_iff a c,
  =text_iff b c,
)

rules_differ : (rule : Text) → count (λ f. scores f && (f.rule_id =text rule)) findings ≤ 1
rules_differ rule =
    names_differ (codes "credential_store_access") (codes "other") (codes "credentials") rule refl
      refl refl

deduplicate_scores-family_example :
    count (scores_in (codes "credentials")) (deduplicate_scores findings) ≤ 1
deduplicate_scores-family_example =
    deduplicate_scores-family findings (codes "credentials") rules_differ
