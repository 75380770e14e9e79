-- ===== src/Report/Burst/Sorted.antt =====
-- The distinct events of a burst are sorted by time, and no more than the events.
use foxhole.Prelude.{
  ◌≡◌, ◌≤◌, refl, Bool, true, List, [], ◌∷◌, all, arith, Bool-cases, inl, inr, length, count,
  count-le-length,
}
use foxhole.Prelude.Sort.{IsSortedBy, sort_by, sort_by-IsSortedBy, count-sort_by}
use foxhole.Report.Model.{FileEvent}
use foxhole.Report.Burst.{dedup_after, dedup_by, distinct_events, file_event_le, same_file_event}
use foxhole.Report.Burst.Window.{time_le}

module _ {Value : Type 0} where
  all-dedup_after :
      (same p : FileEvent Value → FileEvent Value → Bool) (q : FileEvent Value → Bool)
      (kept : FileEvent Value) (xs : List (FileEvent Value))
      → all q xs ≡ true
      → all q (dedup_after same kept xs) ≡ true
  unfolding dedup_after
  all-dedup_after same p q kept [] held = refl
  all-dedup_after same p q kept (x ∷ xs) held =
      ground (arith, all-dedup_after same p q kept xs, all-dedup_after same p q x xs)

  dedup_after-IsSortedBy :
      (same : FileEvent Value → FileEvent Value → Bool) (kept : FileEvent Value)
      (xs : List (FileEvent Value))
      → IsSortedBy time_le xs
      → IsSortedBy time_le (dedup_after same kept xs)
  unfolding dedup_after
  dedup_after-IsSortedBy same kept [] s = tt
  dedup_after-IsSortedBy same kept (x ∷ xs) s = elim (Bool-cases (same x kept)) [
    | inl again ↦ rw again (dedup_after-IsSortedBy same kept xs s.1)
    | inr new ↦
        rw new
          (all-dedup_after same same (time_le x) x xs s.0, dedup_after-IsSortedBy same x xs s.1)
  ]

  dedup_by-IsSortedBy :
      (same : FileEvent Value → FileEvent Value → Bool) (xs : List (FileEvent Value))
      → IsSortedBy time_le xs
      → IsSortedBy time_le (dedup_by same xs)
  unfolding dedup_by
  dedup_by-IsSortedBy same [] s = tt
  dedup_by-IsSortedBy same (x ∷ xs) s =
      (all-dedup_after same same (time_le x) x xs s.0, dedup_after-IsSortedBy same x xs s.1)

  pub distinct_events-IsSortedBy :
      (events : List (FileEvent Value)) → IsSortedBy time_le (distinct_events events)
  unfolding distinct_events
  distinct_events-IsSortedBy events =
      dedup_by-IsSortedBy same_file_event (sort_by file_event_le events) (
        sort_by-IsSortedBy file_event_le time_le (λ x y z. ground arith) (λ x y. ground arith)
          (λ x y. ground arith) events)

  count-dedup_after :
      (same : FileEvent Value → FileEvent Value → Bool) (p : FileEvent Value → Bool)
      (kept : FileEvent Value) (xs : List (FileEvent Value))
      → count p (dedup_after same kept xs) ≤ count p xs
  unfolding dedup_after
  count-dedup_after same p kept [] = omega arith
  count-dedup_after same p kept (x ∷ xs) =
      ground (arith, count-dedup_after same p kept xs, count-dedup_after same p x xs)

  count-dedup_by :
      (same : FileEvent Value → FileEvent Value → Bool) (p : FileEvent Value → Bool)
      (xs : List (FileEvent Value))
      → count p (dedup_by same xs) ≤ count p xs
  unfolding dedup_by
  count-dedup_by same p [] = omega arith
  count-dedup_by same p (x ∷ xs) = ground (arith, count-dedup_after same p x xs)

  -- No span holds more distinct events than there are events.
  pub count-distinct_events :
      (p : FileEvent Value → Bool) (events : List (FileEvent Value))
      → count p (distinct_events events) ≤ length events
  unfolding distinct_events
  count-distinct_events p events = omega (
    arith,
    count-dedup_by same_file_event p (sort_by file_event_le events),
    count-sort_by file_event_le p events,
    count-le-length p events,
  )
