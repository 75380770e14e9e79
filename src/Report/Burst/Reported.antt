-- ===== src/Report/Burst/Reported.antt =====
-- When `mass_file_finding` reports, and how severely.
use Prim.Native.Nat.{max}
use foxhole.Prelude.{
  ℕ, if◌then◌else◌, ◌∙◌, min, within, ap, ◌+◌, zero, suc, ◌*◌, ◌≡◌, ◌≤◌, ◌<◌, ◌↔◌, refl, Bool, true,
  false, List, [], ◌∷◌, Option, none, some, ltb, leb, ◌==◌, arith, Bool-cases, inl, inr, length,
  count,
}
use foxhole.Report.Model.{FileEvent, Finding, Severity, malicious}
use foxhole.Report.Timeline.{u64_max}
use foxhole.Report.Burst.{
  VerdictConfig, distinct_events, same_file_event, judge_burst, add_finding, mass_file_finding,
  malicious_threshold,
}
use foxhole.Report.Burst.Distinct.{count_distinct, count_distinct_lem}
use foxhole.Report.Burst.Window.{in_span}
use foxhole.Report.Burst.Attained.{busiest_reaches_iff}
use foxhole.Report.Burst.Sorted.{distinct_events-IsSortedBy, count-distinct_events}

-- The severity of a finding that is there.
abbrev pub severity_of : Option Finding → Option Severity
severity_of none = none
severity_of (some f) = some f.severity

abbrev pub is_some {ℓ} : {A : Type ℓ} → Option A → Bool
is_some none = false
is_some (some a) = true

le-mul : (n m : ℕ) → 1 ≤ m → n ≤ n * m
le-mul n zero positive = absurd (omega arith)
le-mul n (suc m) positive = grind arith

threshold-le :
    (config : VerdictConfig)
    → config.mass_file_threshold ≤ u64_max
    → config.mass_file_threshold ≤ malicious_threshold config
threshold-le config small = elim (Bool-cases (leb 1 config.mass_file_malicious_multiplier)) [
  | inl positive ↦
      ground (arith, le-mul config.mass_file_threshold config.mass_file_malicious_multiplier)
  | inr absent ↦ ground arith
]

module _ {Value : Type 0} (config : VerdictConfig) (some_wanted : 0 < config.mass_file_threshold)
    (small : config.mass_file_threshold ≤ u64_max) where
  is_some-judge_burst :
      (best : List (FileEvent Value))
      → (is_some (judge_burst config best) ≡ true) ↔ (config.mass_file_threshold ≤ length best)
  unfolding judge_burst add_finding
  is_some-judge_burst [] = ground arith
  is_some-judge_burst (e ∷ best) = ground arith

  severity_of-judge_burst :
      (best : List (FileEvent Value))
      → (severity_of (judge_burst config best) ≡ some malicious)
        ↔ (malicious_threshold config ≤ length best)
  unfolding judge_burst add_finding
  severity_of-judge_burst [] = ground (arith, threshold-le config small)
  severity_of-judge_burst (e ∷ best) = ground (arith, threshold-le config small)

  -- The events that are left are as many as are different.
  spans :
      (events : List (FileEvent Value)) (start : ℕ)
      → count (in_span config.mass_file_window_ms start) (distinct_events events)
        ≡ count_distinct (in_span config.mass_file_window_ms start) events
  spans events start =
      count_distinct_lem (in_span config.mass_file_window_ms start)
        (λ a b same. ap (within start (start + config.mass_file_window_ms)) (same_time a b same))
        events
    where
      same_time :
          (a b : FileEvent Value) → same_file_event a b ≡ true → a.observed_at_ms ≡ b.observed_at_ms
      same_time a b same = ground arith

  -- A number of distinct events that lie in one span of the configured length.
  abbrev SpanOf : List (FileEvent Value) → ℕ → Type 0
  SpanOf events wanted =
      (start : ℕ) × (wanted
        ≤ count (in_span config.mass_file_window_ms start) (distinct_events events))

  few_events :
      (events : List (FileEvent Value)) (wanted : ℕ)
      → length events < config.mass_file_threshold
      → config.mass_file_threshold ≤ wanted
      → ¬ SpanOf events wanted
  few_events events wanted few many (start, full) =
      let bound = count-distinct_events (in_span config.mass_file_window_ms start) events in
      absurd (omega arith)

-- The same, of the events that are left and the threshold that the source computes.
judged_spans :
    {Value : Type 0} (config : VerdictConfig) (events : List (FileEvent Value))
    → 0 < config.mass_file_threshold
    → config.mass_file_threshold ≤ u64_max
    → (result : Option Finding) × (mass_file_finding config events ≡ some result)
      × ((is_some result ≡ true) ↔ (
          (start : ℕ) × (config.mass_file_threshold
            ≤ count (in_span config.mass_file_window_ms start) (distinct_events events))))
      × ((severity_of result ≡ some malicious) ↔ (
          (start : ℕ) × (malicious_threshold config
            ≤ count (in_span config.mass_file_window_ms start) (distinct_events events))))
unfolding mass_file_finding
judged_spans config events some_wanted small =
    elim (Bool-cases (ltb (length events) config.mass_file_threshold)) [
      | inl few ↦
          let quiet : (config.mass_file_threshold == 0) ≡ false = ground arith in
          let refuted = few_events config some_wanted small events in
          (
            none,
            rw (quiet, few) refl,
            (
              λ h. absurd (ground arith),
              λ span. absurd (refuted config.mass_file_threshold (ground arith) (omega arith) span),
            ),
            (
              λ h. absurd (ground arith),
              λ span. absurd (
                  refuted (malicious_threshold config) (ground arith) (threshold-le config small)
                    span),
            ),
          )
      | inr many ↦
          let quiet : (config.mass_file_threshold == 0) ≡ false = ground arith in
          let (best, found, reach) =
            busiest_reaches_iff config.mass_file_window_ms (distinct_events events)
              (distinct_events-IsSortedBy events) in
          let reports = is_some-judge_burst config some_wanted small best in
          let grades = severity_of-judge_burst config some_wanted small best in
          (
            judge_burst config best,
            rw (quiet, many, found) refl,
            (
              λ there. (reach config.mass_file_threshold).0 (reports.0 there),
              λ span. reports.1 ((reach config.mass_file_threshold).1 span),
            ),
            (
              λ there. (reach (malicious_threshold config)).0 (grades.0 there),
              λ span. grades.1 ((reach (malicious_threshold config)).1 span),
            ),
          )
    ]

-- Some span of the configured length holds a number of different events.
abbrev pub SpanHolds : {Value : Type 0} → VerdictConfig → List (FileEvent Value) → ℕ → Type 0
SpanHolds config events wanted =
    (start : ℕ) × (wanted ≤ count_distinct (in_span config.mass_file_window_ms start) events)

-- The number of different events that makes a burst malicious.
abbrev pub malicious_count : VerdictConfig → ℕ
malicious_count config =
    min u64_max (config.mass_file_threshold * max 1 config.mass_file_malicious_multiplier)

malicious_threshold-malicious_count :
    (config : VerdictConfig) → malicious_threshold config ≡ malicious_count config
malicious_threshold-malicious_count config =
    capped (config.mass_file_threshold * raised_multiplier config.mass_file_malicious_multiplier)
    ∙ ap (λ m. min u64_max (config.mass_file_threshold * m))
        (raised config.mass_file_malicious_multiplier)
  where
    raised_multiplier : ℕ → ℕ
    raised_multiplier m = if leb 1 m then m else 1

    raised : (m : ℕ) → raised_multiplier m ≡ max 1 m
    raised m = ground arith

    capped : (n : ℕ) → (if leb n u64_max then n else u64_max) ≡ min u64_max n
    capped n = ground arith

span-SpanHolds :
    {Value : Type 0} (config : VerdictConfig) (some_wanted : 0 < config.mass_file_threshold)
    (small : config.mass_file_threshold ≤ u64_max) (events : List (FileEvent Value)) (n wanted : ℕ)
    → n ≡ wanted
    → SpanOf config some_wanted small events n ↔ SpanHolds config events wanted
span-SpanHolds config some_wanted small events n wanted same = (
  λ (start, full). (start, omega (arith, same, full, spans config some_wanted small events start)),
  λ (start, full). (start, omega (arith, same, full, spans config some_wanted small events start)),
)

-- For a threshold that is not zero and fits a `usize`, the rule on mass file modification always
-- ends, with no index out of range. It reports a finding if and only if some span of the
-- configured length holds as many different file events as the threshold (an event that is listed
-- twice counts once), and the finding is malicious if and only if some span holds as many as the
-- threshold times the multiplier, which counts as one at least, capped at the largest `usize`.
pub mass_file_finding-reports :
    {Value : Type 0} (config : VerdictConfig) (events : List (FileEvent Value))
    → 0 < config.mass_file_threshold
    → config.mass_file_threshold ≤ u64_max
    → (result : Option Finding) × (mass_file_finding config events ≡ some result)
      × ((is_some result ≡ true) ↔ SpanHolds config events config.mass_file_threshold)
      × ((severity_of result ≡ some malicious) ↔ SpanHolds config events (malicious_count config))
mass_file_finding-reports config events some_wanted small =
    let (result, ended, reports, grades) = judged_spans config events some_wanted small in
    let some_span =
      span-SpanHolds config some_wanted small events config.mass_file_threshold
        config.mass_file_threshold refl in
    let bad_span =
      span-SpanHolds config some_wanted small events (malicious_threshold config)
        (malicious_count config) (malicious_threshold-malicious_count config) in
    (
      result,
      ended,
      (λ there. some_span.0 (reports.0 there), λ span. reports.1 (some_span.1 span)),
      (λ there. bad_span.0 (grades.0 there), λ span. grades.1 (bad_span.1 span)),
    )
