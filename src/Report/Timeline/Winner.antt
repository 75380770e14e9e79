-- ===== src/Report/Timeline/Winner.antt =====
-- What a timeline answers at a time: the best of the intervals that hold the time.
use foxhole.Prelude.{
  ℕ, ◌≡◌, refl, sym, ap, ◌∙◌, Bool, true, false, List, [], ◌∷◌, Option, none, some, leb,
  if◌then◌else◌, arith, Bool-cases, inl, inr,
}
use foxhole.Prelude.Sort.{sort_by, IsSortedBy, sort_by-IsSortedBy}
use foxhole.Report.Timeline.{
  Candidate, Key, Event, Interval, event_le, events_from, apply_event, winner, same_winner, at_time,
  is_change, sweep, timeline, partition_point, change_at, at_end, at, first_key,
}
use foxhole.Report.Timeline.Active.{run, upto, upto_late}

-- The winner at a time, where `before` won before the first change.
at_or : Option Candidate → List (ℕ × Option Candidate) → ℕ → Option Candidate
at_or before [] time = before
at_or before (change ∷ changes) time =
    let later = at_or change.1 changes time in if leb change.0 time then later else before

change_at_or :
    (t time : ℕ) (w : Option Candidate) (changes : List (ℕ × Option Candidate))
    → change_at ((t, w) ∷ changes) (partition_point time changes) ≡ at_or w changes time
unfolding partition_point change_at at_or
change_at_or t time w [] = refl
change_at_or t time w ((t', w') ∷ changes) = elim (Bool-cases (leb t' time)) [
  | inl early ↦ rw early (change_at_or t' time w' changes)
  | inr late ↦ rw late refl
]

at-at_or :
    (changes : List (ℕ × Option Candidate)) (time : ℕ) → at changes time ≡ at_or none changes time
unfolding at at_end partition_point at_or
at-at_or [] time = refl
at-at_or ((t, w) ∷ changes) time = elim (Bool-cases (leb t time)) [
  | inl early ↦ rw early (change_at_or t time w changes)
  | inr late ↦ rw late refl
]

same_winner_eq : (a b : Option Candidate) → same_winner a b ≡ true → a ≡ b
same_winner_eq none none same = refl
same_winner_eq none (some b) same = ground arith
same_winner_eq (some a) none same = ground arith
same_winner_eq (some a) (some b) same = ground arith

-- The last change pushed is the current winner.
abbrev Agrees : Option (Option Candidate) → Option Candidate → Type 0
Agrees none current = Unit {0}
Agrees (some old) current = old ≡ current

-- What a sweep answers at a time, from the state in front of an event.
swept : List Key → Option Candidate → List Event → ℕ → Option Candidate
swept active current [] time = current
swept active current (e ∷ es) time =
    if leb e.time time then winner (run (upto time (e ∷ es)) active) else current

-- After the last event of a time, the winner is read.
swept_next :
    (e : Event) (es : List Event) (active : List Key) (time : ℕ)
    → IsSortedBy event_le (e ∷ es)
    → leb e.time time ≡ true
    → swept (apply_event e active) (winner (apply_event e active)) es time
      ≡ winner (run (upto time (e ∷ es)) active)
unfolding swept run upto
swept_next e [] active time s early = rw early refl
swept_next e (f ∷ es) active time s early = elim (Bool-cases (leb f.time time)) [
  | inl soon ↦ rw (early, soon) refl
  | inr late ↦
      let none_left : upto time es ≡ [] = upto_late time f es s.1 late in
      rw (early, late) (ap (λ l. winner (run l (apply_event e active))) (sym none_left))
]

swept_late :
    (e : Event) (es : List Event) (active : List Key) (current : Option Candidate) (time : ℕ)
    → IsSortedBy event_le (e ∷ es)
    → leb e.time time ≡ false
    → swept active current es time ≡ current
unfolding swept
swept_late e [] active current time s late = refl
swept_late e (f ∷ es) active current time s late =
    let later : leb f.time time ≡ false = ground arith in rw later refl

-- Between two events of one time nothing is read.
swept_same :
    (e : Event) (es : List Event) (active : List Key) (current : Option Candidate) (time : ℕ)
    → at_time e.time es ≡ true
    → swept (apply_event e active) current es time ≡ swept active current (e ∷ es) time
unfolding swept run upto
swept_same e [] active current time more = absurd (ground arith)
swept_same e (f ∷ es) active current time more = elim (Bool-cases (leb e.time time)) [
  | inl early ↦ let soon : leb f.time time ≡ true = ground arith in rw (early, soon) refl
  | inr late ↦ let later : leb f.time time ≡ false = ground arith in rw (late, later) refl
]

no_change :
    (last : Option (Option Candidate)) (current new : Option Candidate)
    → Agrees last current
    → is_change last new ≡ false
    → current ≡ new
no_change none current new agrees same = absurd (ground arith)
no_change (some old) current new agrees same = sym agrees ∙ same_winner_eq old new (ground arith)

at_or-sweep :
    (es : List Event) (active : List Key) (last : Option (Option Candidate))
    (current : Option Candidate) (time : ℕ)
    → IsSortedBy event_le es
    → Agrees last current
    → at_or current (sweep active last es) time ≡ swept active current es time
unfolding at_or sweep swept
at_or-sweep [] active last current time s agrees = refl
at_or-sweep (e ∷ es) active last current time s agrees =
    let active' = apply_event e active in
    let new = winner active' in
    elim (Bool-cases (at_time e.time es)) [
      | inl more ↦ rw more (
          at_or-sweep es active' last current time s.1 agrees
          ∙ swept_same e es active current time more)
      | inr finished ↦ elim (Bool-cases (is_change last new)) [
        | inl changed ↦ elim (Bool-cases (leb e.time time)) [
          | inl early ↦
              rw (finished, changed, early)
                (at_or-sweep es active' (some new) new time s.1 refl
                  ∙ swept_next e es active time s early)
          | inr late ↦ rw (finished, changed, late) refl
        ]
        | inr unchanged ↦
            let kept : current ≡ new = no_change last current new agrees unchanged in
            let read : at_or current (sweep active' last es) time ≡ swept active' current es time =
              at_or-sweep es active' last current time s.1 agrees in
            elim (Bool-cases (leb e.time time)) [
              | inl early ↦
                  rw (finished, unchanged, early)
                    (read
                      ∙ ap (λ c. swept active' c es time) kept
                      ∙ swept_next e es active time s early)
              | inr late ↦
                  rw (finished, unchanged, late)
                    (read ∙ swept_late e es active' current time s late)
            ]
      ]
    ]

-- The active keys at a time.
unfoldable pub active_at : List Interval → Bool → ℕ → List Key
active_at intervals prefer_latest time =
    run (upto time (sort_by event_le (events_from prefer_latest 0 intervals))) []

event_le_trans : (a b c : Event) → event_le a b ≡ true → event_le b c ≡ true → event_le a c ≡ true
event_le_trans a b c h g = ground arith

event_le_total : (a b : Event) → event_le a b ≡ false → event_le b a ≡ true
event_le_total a b h = ground arith

pub events-IsSortedBy : (es : List Event) → IsSortedBy event_le (sort_by event_le es)
events-IsSortedBy es =
    sort_by-IsSortedBy event_le event_le event_le_trans (λ a b h. h) event_le_total es

swept_start :
    (es : List Event) (time : ℕ)
    → IsSortedBy event_le es
    → swept [] none es time ≡ winner (run (upto time es) [])
unfolding swept run upto winner first_key
swept_start [] time s = refl
swept_start (e ∷ es) time s = elim (Bool-cases (leb e.time time)) [
  | inl early ↦ rw early refl
  | inr late ↦
      let none_yet : upto time es ≡ [] = upto_late time e es s late in
      rw late (ap (λ l. winner (run l [])) (sym none_yet))
]

-- The timeline answers with the winner of the active keys.
pub at-timeline :
    (intervals : List Interval) (prefer_latest : Bool) (time : ℕ)
    → at (timeline intervals prefer_latest) time ≡ winner (active_at intervals prefer_latest time)
unfolding timeline active_at
at-timeline intervals prefer_latest time =
    let es = sort_by event_le (events_from prefer_latest 0 intervals) in
    let sorted = events-IsSortedBy (events_from prefer_latest 0 intervals) in
    at-at_or (sweep [] none es) time
    ∙ at_or-sweep es [] none none time sorted tt
    ∙ swept_start es time sorted
