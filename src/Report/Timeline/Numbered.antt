-- ===== src/Report/Timeline/Numbered.antt =====
-- The events of the intervals: each interval's own, under the number of its place.
use foxhole.Prelude.{
  ℕ, suc, ◌+◌, ◌≡◌, ◌<◌, refl, sym, ap, ◌∙◌, Bool, true, false, List, [], ◌∷◌, ◌++◌, leb, ◌==◌, any,
  All, arith, Bool-cases, inl, inr, length, any-append, length-append,
}
use mathlib.Core.List.{append_assoc}
use foxhole.Report.Timeline.{Key, Event, Interval, key, interval_events, events_from, u64_max}

-- No event of other numbers passes a test that looks for the number `n`.
module _ (prefer_latest : Bool) (q : Event → Bool) (n : ℕ)
    (tests_number : (e : Event) → q e ≡ true → e.key.id ≡ n) where
  foreign : (e : Event) → (e.key.id == n) ≡ false → q e ≡ false
  foreign e other = elim (Bool-cases (q e)) [
    | inl passes ↦ let same : e.key.id ≡ n = tests_number e passes in absurd (ground arith)
    | inr fails ↦ fails
  ]

  other_interval :
      (id : ℕ) (v : Interval)
      → (id == n) ≡ false
      → any q (interval_events prefer_latest id v) ≡ false
  unfolding interval_events key
  other_interval id v other =
      let k : Key = key prefer_latest id v.candidate in
      let entry : Event = record { time = v.start; add = true; key = k } in
      let exit : Event = record { time = suc v.end; add = false; key = k } in
      elim (Bool-cases (leb (suc v.end) u64_max)) [
        | inl left ↦ rw (left, foreign entry other, foreign exit other) refl
        | inr stays ↦ rw (stays, foreign entry other) refl
      ]

  later_intervals :
      (id : ℕ) (intervals : List Interval)
      → n < id
      → any q (events_from prefer_latest id intervals) ≡ false
  unfolding events_from
  later_intervals id [] far = refl
  later_intervals id (v ∷ intervals) far = ground (
    arith,
    any-append q (interval_events prefer_latest id v)
        (events_from prefer_latest (suc id) intervals),
    other_interval id v,
    later_intervals (suc id) intervals,
  )

  -- Only the interval at the place `n` has events that pass.
  pub any-events_from :
      (id : ℕ) (front : List Interval) (v : Interval) (back : List Interval)
      → n ≡ id + length front
      → any q (events_from prefer_latest id (front ++ v ∷ back))
        ≡ any q (interval_events prefer_latest n v)
  unfolding events_from
  any-events_from id [] v back place =
      let here : id ≡ n = omega arith in
      any-append q (interval_events prefer_latest id v) (events_from prefer_latest (suc id) back)
      ∙ rw (later_intervals (suc id) back (omega arith), here) (ground arith)
  any-events_from id (u ∷ front) v back place =
      any-append q (interval_events prefer_latest id u)
        (events_from prefer_latest (suc id) (front ++ v ∷ back))
      ∙ rw (other_interval id u (ground arith), any-events_from (suc id) front v back (omega arith))
          refl

-- The key of an interval, by its place among the intervals.
abbrev pub IsKeyOf : Bool → List Interval → Key → Type 0
IsKeyOf prefer_latest intervals k =
    (front : List Interval) × (v : Interval) × (back : List Interval) × (intervals
      ≡ front ++ v ∷ back)
    × (k ≡ key prefer_latest (length front) v.candidate)

All-append {ℓ} :
    {A : Type ℓ} (P : A → Type 0) (xs ys : List A) → All P xs → All P ys → All P (xs ++ ys)
All-append P [] ys a b = b
All-append P (x ∷ xs) ys a b = (a.0, All-append P xs ys a.1 b)

All-interval_events :
    (prefer_latest : Bool) (P : Key → Type 0) (id : ℕ) (v : Interval)
    → P (key prefer_latest id v.candidate)
    → All (λ e. P e.key) (interval_events prefer_latest id v)
unfolding interval_events
All-interval_events prefer_latest P id v held = elim (Bool-cases (leb (suc v.end) u64_max)) [
  | inl left ↦ rw left (held, (held, tt))
  | inr stays ↦ rw stays (held, tt)
]

-- Every event has the key of an interval.
pub events_from-IsKeyOf :
    (prefer_latest : Bool) (intervals : List Interval) (id : ℕ) (front rest : List Interval)
    → intervals ≡ front ++ rest
    → id ≡ length front
    → All (λ e. IsKeyOf prefer_latest intervals e.key) (events_from prefer_latest id rest)
unfolding events_from
events_from-IsKeyOf prefer_latest intervals id front [] split place = tt
events_from-IsKeyOf prefer_latest intervals id front (v ∷ rest) split place =
    All-append (λ e. IsKeyOf prefer_latest intervals e.key) (interval_events prefer_latest id v)
      (events_from prefer_latest (suc id) rest)
      (All-interval_events prefer_latest (IsKeyOf prefer_latest intervals) id v
        (front, v, rest, split, ap (λ n. key prefer_latest n v.candidate) place))
      (events_from-IsKeyOf prefer_latest intervals (suc id) (front ++ v ∷ []) rest
        (split ∙ sym (append_assoc front (v ∷ []) rest))
        (omega (arith, length-append front (v ∷ []))))
