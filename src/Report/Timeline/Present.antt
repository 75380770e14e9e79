-- ===== src/Report/Timeline/Present.antt =====
-- Which keys are active at a time.
use foxhole.Prelude.{
  ℕ, suc, ◌≡◌, ◌≤◌, refl, ◌∙◌, Bool, true, false, ◌&&◌, List, [], ◌∷◌, ◌++◌, leb, any, All, arith,
  length, within,
}
use foxhole.Prelude.Sort.{sort_by, any-sort_by, All-sort_by}
use foxhole.Report.Timeline.{
  Candidate, Key, Event, Interval, key, same_key, event_le, events_from, interval_events, u64_max,
}
use foxhole.Report.Timeline.Active.{
  upto, upto-IsSortedBy, any-upto, has, has-run, is_stray, is_entry, is_exit, All-run, All-upto,
}
use foxhole.Report.Timeline.Numbered.{any-events_from, IsKeyOf, events_from-IsKeyOf}
use foxhole.Report.Timeline.Winner.{active_at, events-IsSortedBy}

abbrev pub holds : ℕ → Interval → Bool
holds time v = within v.start v.end time

module _ (prefer_latest : Bool) (time : ℕ) (bounded : time ≤ u64_max) where
  -- Whether an event up to the time passes is told by the one interval it can come from.
  any_at :
      (q : Event → Bool) (front : List Interval) (v : Interval) (back : List Interval)
      → ((e : Event) → q e ≡ true → e.key.id ≡ length front)
      → any q (upto time (sort_by event_le (events_from prefer_latest 0 (front ++ v ∷ back))))
        ≡ any (λ e. leb e.time time && q e) (interval_events prefer_latest (length front) v)
  any_at q front v back tests_number =
      any-upto time q (sort_by event_le (events_from prefer_latest 0 (front ++ v ∷ back)))
      ∙ any-sort_by event_le (λ e. leb e.time time && q e)
          (events_from prefer_latest 0 (front ++ v ∷ back))
      ∙ any-events_from prefer_latest (λ e. leb e.time time && q e) (length front)
          (λ e passes. tests_number e (ground arith)) 0 front v back (omega arith)

  same_key-id :
      (n : ℕ) (candidate : Candidate) (e : Event)
      → same_key (key prefer_latest n candidate) e.key ≡ true
      → e.key.id ≡ n
  unfolding key
  same_key-id n candidate e same = ground arith

  same_key_self : (k : Key) → same_key k k ≡ true
  same_key_self k = ground arith

  module _ (n : ℕ) (v : Interval) where
    own_stray :
        any
          (λ e. leb e.time time && is_stray (key prefer_latest n v.candidate) v.start (suc v.end) e)
          (interval_events prefer_latest n v)
        ≡ false
    unfolding interval_events
    own_stray = ground arith

    own_entry :
        any
          (λ e. leb e.time time && is_entry (key prefer_latest n v.candidate) e)
          (interval_events prefer_latest n v)
        ≡ leb v.start time
    unfolding interval_events
    own_entry = ground (arith, same_key_self (key prefer_latest n v.candidate))

    own_exit :
        any
          (λ e. leb e.time time && is_exit (key prefer_latest n v.candidate) e)
          (interval_events prefer_latest n v)
        ≡ leb (suc v.end) time
    unfolding interval_events
    own_exit = ground (arith, same_key_self (key prefer_latest n v.candidate))

  -- An interval's key is active while the interval holds the time.
  pub has-active_at :
      (front : List Interval) (v : Interval) (back : List Interval)
      → v.start ≤ v.end
      → has
          (key prefer_latest (length front) v.candidate)
          (active_at (front ++ v ∷ back) prefer_latest time)
        ≡ holds time v
  unfolding active_at
  has-active_at front v back valid =
      let n = length front in
      let k = key prefer_latest n v.candidate in
      let unsorted = events_from prefer_latest 0 (front ++ v ∷ back) in
      let es = sort_by event_le unsorted in
      has-run k v.start (suc v.end) (omega arith) (upto time es) []
        (upto-IsSortedBy time es (events-IsSortedBy unsorted))
        (any_at (is_stray k v.start (suc v.end)) front v back
            (λ e h. same_key-id n v.candidate e (ground arith))
          ∙ own_stray n v)
      ∙ rw
          (
            any_at (is_exit k) front v back (λ e h. same_key-id n v.candidate e (ground arith)),
            any_at (is_entry k) front v back (λ e h. same_key-id n v.candidate e (ground arith)),
            own_exit n v,
            own_entry n v,
          )
          (ground arith)

  -- Every active key is that of an interval.
  pub active_at-IsKeyOf :
      (intervals : List Interval)
      → All (IsKeyOf prefer_latest intervals) (active_at intervals prefer_latest time)
  unfolding active_at
  active_at-IsKeyOf intervals =
      let P = IsKeyOf prefer_latest intervals in
      let unsorted = events_from prefer_latest 0 intervals in
      let es = sort_by event_le unsorted in
      All-run P (upto time es) []
        (All-upto P time es (
          All-sort_by event_le (λ e. P e.key) unsorted
            (events_from-IsKeyOf prefer_latest intervals 0 [] intervals refl refl)))
        tt
