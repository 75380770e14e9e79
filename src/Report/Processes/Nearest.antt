-- ===== src/Report/Processes/Nearest.antt =====
-- The process that an event is given to, told without the index: the nearest observation of a
-- process that lived at the time.
use foxhole.Prelude.{
  ℕ, ◌≡◌, ◌≤◌, refl, sym, ap, ◌∙◌, Bool, true, false, not, ◌&&◌, ◌||◌, List, [], ◌∷◌, map, none,
  any, arith, any-append,
}
use foxhole.Report.Model.{Process}
use foxhole.Report.Timeline.{Candidate, Interval, u64_max, timeline, at}
use foxhole.Report.Timeline.Present.{holds}
use foxhole.Report.Timeline.Best.{precedes, at-timeline-IsBest}
use foxhole.Report.Processes.{
  push_before, push_after, push_each, push_empty, collect, new_index, nearest, near, associate,
  associate_near, least_pair, pair_lt, with_option, map_option,
}
use foxhole.Report.Processes.Least.{same_pair, any-map, least_pair_agree}
use foxhole.Report.Processes.Sightings.{
  seen, unseen_yet, far, never, unobserved-never, distances, sightings, unobserved, any-before,
  any-after, any-empty, before_valid, after_valid, empty_valid,
}
use foxhole.Report.Processes.Answers.{
  answer_reaches, answer_sighted, any-with_option, or_sighted, or_reached,
}

module _ {Value : Type 0} (ps : List (Process Value)) (time : ℕ) (bounded : time ≤ u64_max) where
  before_order :
      (b c : Candidate)
      → seen time b ≡ true
      → seen time c ≡ true
      → precedes true b c ≡ true
      → pair_lt (near time c) (near time b) ≡ false
  before_order b c hb hc before = ground arith

  after_order :
      (b c : Candidate)
      → unseen_yet time b ≡ true
      → unseen_yet time c ≡ true
      → precedes false b c ≡ true
      → pair_lt (near time c) (near time b) ≡ false
  after_order b c hb hc before = ground arith

  empty_order :
      (b c : Candidate)
      → never b ≡ true
      → never c ≡ true
      → precedes false b c ≡ true
      → pair_lt (u64_max, c.pid) (u64_max, b.pid) ≡ false
  empty_order b c hb hc before = ground arith

  empty_transfer :
      (h : Candidate → Bool)
      → any (λ v. holds time v && h v.candidate) (collect (λ p. push_empty p p.observations) ps)
        ≡ any (λ c. never c && h c) (unobserved time ps)
  empty_transfer h = any-empty time h ps ∙ sym (unobserved-never time h ps)

  -- The intervals behind the three timelines.
  abbrev befores : List Interval
  befores = collect (λ p. push_each (push_before p) p.observations) ps

  abbrev afters : List Interval
  afters = collect (λ p. push_each (push_after p) p.observations) ps

  abbrev empties : List Interval
  empties = collect (λ p. push_empty p p.observations) ps

  abbrev read : List Interval → Bool → (Candidate → ℕ × ℕ) → List (ℕ × ℕ)
  read intervals prefer_latest pairing =
      with_option (map_option pairing (at (timeline intervals prefer_latest) time)) []

  module _ (m : ℕ × ℕ) where
    before_sighted :
        any (same_pair m) (read befores true (near time)) ≡ true
        → any (λ c. same_pair m (near time c)) (sightings time ps) ≡ true
    before_sighted =
        answer_sighted true time befores (sightings time ps) (seen time) (near time)
          (λ h. any-before time h ps) (λ b c. ground arith) (λ b c. ground arith) before_order
          (at (timeline befores true) time) m
          (at-timeline-IsBest befores true time bounded (before_valid ps))

    after_sighted :
        any (same_pair m) (read afters false (near time)) ≡ true
        → any (λ c. same_pair m (near time c)) (sightings time ps) ≡ true
    after_sighted =
        answer_sighted false time afters (sightings time ps) (unseen_yet time) (near time)
          (λ h. any-after time h ps) (λ b c. ground arith) (λ b c. ground arith) after_order
          (at (timeline afters false) time) m
          (at-timeline-IsBest afters false time bounded (after_valid ps))

    empty_sighted :
        any (same_pair m) (read empties false far) ≡ true
        → any (λ c. same_pair m (far c)) (unobserved time ps) ≡ true
    empty_sighted =
        answer_sighted false time empties (unobserved time ps) never far empty_transfer
          (λ b c. ground arith) (λ b c. ground arith) empty_order (at (timeline empties false) time)
          m (at-timeline-IsBest empties false time bounded (empty_valid ps))

    before_reaches :
        any (λ c. seen time c && same_pair m (near time c)) (sightings time ps) ≡ true
        → any (λ x. not (pair_lt m x)) (read befores true (near time)) ≡ true
    before_reaches =
        answer_reaches true time befores (sightings time ps) (seen time) (near time)
          (λ h. any-before time h ps) (λ b c. ground arith) (λ b c. ground arith) before_order
          (at (timeline befores true) time) m
          (at-timeline-IsBest befores true time bounded (before_valid ps))

    after_reaches :
        any (λ c. unseen_yet time c && same_pair m (near time c)) (sightings time ps) ≡ true
        → any (λ x. not (pair_lt m x)) (read afters false (near time)) ≡ true
    after_reaches =
        answer_reaches false time afters (sightings time ps) (unseen_yet time) (near time)
          (λ h. any-after time h ps) (λ b c. ground arith) (λ b c. ground arith) after_order
          (at (timeline afters false) time) m
          (at-timeline-IsBest afters false time bounded (after_valid ps))

    empty_reaches :
        any (λ c. never c && same_pair m (far c)) (unobserved time ps) ≡ true
        → any (λ x. not (pair_lt m x)) (read empties false far) ≡ true
    empty_reaches =
        answer_reaches false time empties (unobserved time ps) never far empty_transfer
          (λ b c. ground arith) (λ b c. ground arith) empty_order (at (timeline empties false) time)
          m (at-timeline-IsBest empties false time bounded (empty_valid ps))

    any-distances : any (same_pair m) (distances ps time) ≡ (
        any (λ c. same_pair m (near time c)) (sightings time ps)
        || any (λ c. same_pair m (far c)) (unobserved time ps))
    unfolding distances
    any-distances =
        any-append (same_pair m) (map (near time) (sightings time ps))
          (map far (unobserved time ps))
        ∙ rw
            (
              any-map (same_pair m) (near time) (sightings time ps),
              any-map (same_pair m) far (unobserved time ps),
            )
            refl

  abbrev answers : List (ℕ × ℕ)
  answers = with_option (map_option (near time) (at (timeline befores true) time)) (
      with_option (map_option (near time) (at (timeline afters false) time))
        (read empties false far))

  any-answers :
      (p : ℕ × ℕ → Bool)
      → any p answers ≡ (
          any p (read befores true (near time))
          || (any p (read afters false (near time)) || any p (read empties false far)))
  any-answers p =
      any-with_option p (map_option (near time) (at (timeline befores true) time)) (
        with_option (map_option (near time) (at (timeline afters false) time))
          (read empties false far))
      ∙ ap (λ b. any p (read befores true (near time)) || b)
          (any-with_option p (map_option (near time) (at (timeline afters false) time))
            (read empties false far))

  -- A sighting is not after the time or not before it.
  two_sides :
      (m : ℕ × ℕ) (cs : List Candidate)
      → any (λ c. same_pair m (near time c)) cs ≡ (
          any (λ c. seen time c && same_pair m (near time c)) cs
          || any (λ c. unseen_yet time c && same_pair m (near time c)) cs)
  two_sides m [] = refl
  two_sides m (c ∷ cs) = ground (arith, two_sides m cs)

  -- The nearest of three answers is the nearest of all that the timelines were built from.
  nearest-new_index : nearest (new_index ps) time ≡ least_pair (distances ps time)
  unfolding nearest new_index
  nearest-new_index =
      least_pair_agree answers (distances ps time)
        (λ m held.
          any-distances m
          ∙ or_sighted (before_sighted m) (after_sighted m) (empty_sighted m)
              (sym (any-answers (same_pair m)) ∙ held))
        (λ m held.
          any-answers (λ x. not (pair_lt m x))
          ∙ or_reached (two_sides m (sightings time ps)) (before_reaches m) (after_reaches m)
              (λ h. empty_reaches m (unobserved-never time (λ c. same_pair m (far c)) ps ∙ h))
              (sym (any-distances m) ∙ held))

-- An event without an explicit process is given to the process whose observation is nearest to
-- it, among all observations of all processes that live at its time, the lowest number first; a
-- process that lives then and was never observed is as far as can be; and if none lives then, to
-- the root. The index finds it in three timelines. The time is a 64-bit number.
pub associate-new_index :
    {Value : Type 0} (ps : List (Process Value)) (time root_pid : ℕ)
    → time ≤ u64_max
    → associate (new_index ps) none time root_pid
      ≡ associate_near (new_index ps) root_pid (least_pair (distances ps time))
unfolding associate
associate-new_index ps time root_pid bounded =
    ap (associate_near (new_index ps) root_pid) (nearest-new_index ps time bounded)
