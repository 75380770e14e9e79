-- ===== src/Report/Timeline/Best.antt =====
-- The winner at a time, told from the intervals alone.
use foxhole.Prelude.{
  ℕ, ◌-◌, ◌≡◌, ◌≤◌, refl, sym, ap, ◌∙◌, Bool, true, false, not, ◌&&◌, ◌||◌, List, [], ◌∷◌, ◌++◌,
  Option, none, some, ltb, leb, ◌==◌, if◌then◌else◌, any, all, arith, Bool-cases, inl, inr, length,
  any-append, all-append,
}
use mathlib.Core.Path.{subst}
use mathlib.Core.List.{append_assoc}
use foxhole.Report.Timeline.{
  Candidate, Key, Interval, key, key_lt, candidate_of, winner, timeline, at, u64_max, first_key,
}
use foxhole.Report.Timeline.Active.{
  has, All-first_key, first_key_least, first_key-none, first_key-has,
}
use foxhole.Report.Timeline.Numbered.{IsKeyOf}
use foxhole.Report.Timeline.Winner.{active_at, at-timeline}
use foxhole.Report.Timeline.Present.{holds, has-active_at, active_at-IsKeyOf}

abbrev pub same_candidate : Candidate → Candidate → Bool
same_candidate a b = a.observed == b.observed && a.pid == b.pid

abbrev rank : Bool → Candidate → ℕ
rank prefer_latest c = if prefer_latest then u64_max - c.observed else c.observed

-- Neither a worse observation nor, for the same one, a higher process number.
abbrev pub precedes : Bool → Candidate → Candidate → Bool
precedes prefer_latest a b =
    ltb (rank prefer_latest a) (rank prefer_latest b)
    || (rank prefer_latest a == rank prefer_latest b && leb a.pid b.pid)

-- The answer at a time is the candidate of an interval that holds it, and precedes those of all
-- that do.
abbrev pub IsBest : Bool → ℕ → List Interval → Option Candidate → Type 0
IsBest prefer_latest time intervals none = all (λ v. not (holds time v)) intervals ≡ true
IsBest prefer_latest time intervals (some c) =
    (any (λ v. holds time v && same_candidate v.candidate c) intervals ≡ true)
    × (all (λ v. not (holds time v) || precedes prefer_latest c v.candidate) intervals ≡ true)

-- A test of all elements is a test at every place.
all_places :
    (p : Interval → Bool) (intervals front rest : List Interval)
    → intervals ≡ front ++ rest
    → ((f : List Interval) (v : Interval) (b : List Interval) → intervals ≡ f ++ v ∷ b → p v ≡ true)
    → all p rest ≡ true
all_places p intervals front [] split here = refl
all_places p intervals front (v ∷ rest) split here =
    rw
      (
        here front v rest split,
        all_places p intervals (front ++ v ∷ []) rest
            (split ∙ sym (append_assoc front (v ∷ []) rest)) here,
      )
      refl

least_of_has :
    (k j : Key) (active : List Key)
    → all (λ i. not (key_lt i k)) active ≡ true
    → has j active ≡ true
    → key_lt j k ≡ false
least_of_has k j [] least there = absurd (ground arith)
least_of_has k j (i ∷ active) least there = ground (arith, least_of_has k j active)

precedes_of_key :
    (prefer_latest : Bool) (n m : ℕ) (a b : Candidate)
    → key_lt (key prefer_latest m b) (key prefer_latest n a) ≡ false
    → precedes prefer_latest a b ≡ true
unfolding key
precedes_of_key prefer_latest n m a b least = ground arith

precedes_of_same :
    (prefer_latest : Bool) (n m : ℕ) (a b : Candidate) (k : Key)
    → k ≡ key prefer_latest n a
    → key_lt (key prefer_latest m b) k ≡ false
    → precedes prefer_latest k.candidate b ≡ true
unfolding key
precedes_of_same prefer_latest n m a b k same =
    subst
      (λ (j : Key).
        key_lt (key prefer_latest m b) j ≡ false → precedes prefer_latest j.candidate b ≡ true)
      (sym same) (precedes_of_key prefer_latest n m a b)

any_place :
    (p : Interval → Bool) (front : List Interval) (v : Interval) (back : List Interval)
    → p v ≡ true
    → any p (front ++ v ∷ back) ≡ true
any_place p front v back holds = any-append p front (v ∷ back) ∙ ground arith

module _ (intervals : List Interval) (prefer_latest : Bool) (time : ℕ) (bounded : time ≤ u64_max)
    (valid : all (λ v. leb v.start v.end) intervals ≡ true) where
  valid_at :
      (front : List Interval) (v : Interval) (back : List Interval)
      → intervals ≡ front ++ v ∷ back
      → v.start ≤ v.end
  valid_at front v back split =
      let kept : all (λ v. leb v.start v.end) (front ++ v ∷ back) ≡ true =
        ap (all (λ (v : Interval). leb v.start v.end)) (sym split) ∙ valid in
      let parts = sym (all-append (λ (v : Interval). leb v.start v.end) front (v ∷ back)) ∙ kept in
      ground arith

  here_of :
      (v : Interval) (k : Key) (n : ℕ)
      → holds time v ≡ true
      → k ≡ key prefer_latest n v.candidate
      → (holds time v && same_candidate v.candidate k.candidate) ≡ true
  unfolding key
  here_of v k n held same =
      let cand : k.candidate ≡ v.candidate = ap (λ (j : Key). j.candidate) same in ground arith

  key_active :
      (front : List Interval) (v : Interval) (back : List Interval)
      → intervals ≡ front ++ v ∷ back
      → has (key prefer_latest (length front) v.candidate) (active_at intervals prefer_latest time)
        ≡ holds time v
  key_active front v back split =
      ap (λ l. has (key prefer_latest (length front) v.candidate) (active_at l prefer_latest time))
        split
      ∙ has-active_at prefer_latest time bounded front v back (valid_at front v back split)

  candidate_of-IsBest :
      (o : Option Key)
      → first_key (active_at intervals prefer_latest time) ≡ o
      → IsBest prefer_latest time intervals (candidate_of o)
  candidate_of-IsBest none empty =
      let active = active_at intervals prefer_latest time in
      all_places (λ v. not (holds time v)) intervals [] intervals refl
        λ front v back split. ap not (
          sym (key_active front v back split)
          ∙ ap (has (key prefer_latest (length front) v.candidate)) (first_key-none active empty))
  candidate_of-IsBest (some k) found =
      let active = active_at intervals prefer_latest time in
      let (front, v, back, split, same) =
        All-first_key (IsKeyOf prefer_latest intervals) active
          (active_at-IsKeyOf prefer_latest time bounded intervals) found in
      let held : holds time v ≡ true =
        sym (key_active front v back split)
        ∙ ap (λ j. has j active) (sym same)
        ∙ first_key-has active found in
      (
        ap (any (λ (u : Interval). holds time u && same_candidate u.candidate k.candidate)) split
            ∙ any_place (λ u. holds time u && same_candidate u.candidate k.candidate) front v back
                (here_of v k (length front) held same),
        all_places (λ u. not (holds time u) || precedes prefer_latest k.candidate u.candidate)
            intervals [] intervals refl
            λ f u b split'. elim (Bool-cases (holds time u)) [
              | inl also ↦
                  let reached =
                    least_of_has k (key prefer_latest (length f) u.candidate) active
                      (first_key_least active found) (key_active f u b split' ∙ also) in
                  let before =
                    precedes_of_same prefer_latest (length front) (length f) v.candidate u.candidate
                      k same reached in
                  rw (also, before) refl
              | inr not_there ↦ rw not_there refl
            ],
      )

  pub at-timeline-IsBest :
      IsBest prefer_latest time intervals (at (timeline intervals prefer_latest) time)
  unfolding winner
  at-timeline-IsBest =
      rw (at-timeline intervals prefer_latest time)
        (candidate_of-IsBest (first_key (active_at intervals prefer_latest time)) refl)
