-- ===== src/Report/Processes/Sightings.antt =====
-- What the intervals that `ProcessIndex::new` collects hold at a time: the observations of the
-- processes that live then, and the processes that were never observed.
use foxhole.Prelude.{
  ℕ, ◌≡◌, refl, sym, ◌∙◌, Bool, true, false, ◌&&◌, ◌||◌, List, [], ◌∷◌, ◌++◌, map, ltb, leb, ◌==◌,
  if◌then◌else◌, any, all, arith, Bool-cases, inl, inr, any-append, all-append,
}
use foxhole.Report.Model.{Process, ProcessObservation}
use foxhole.Report.Timeline.{Candidate, Interval, u64_max}
use foxhole.Report.Timeline.Present.{holds}
use foxhole.Report.Processes.{
  near, process_start, process_end, push_before, push_after, push_each, push_empty, collect,
  candidate, near,
}

abbrev pub seen : ℕ → Candidate → Bool
seen time c = leb c.observed time

abbrev pub unseen_yet : ℕ → Candidate → Bool
unseen_yet time c = leb time c.observed

abbrev pub never : Candidate → Bool
never c = c.observed == 0

abbrev pub far : Candidate → ℕ × ℕ
far c = (u64_max, c.pid)

module _ {Value : Type 0} where
  abbrev pub lives : ℕ → Process Value → Bool
  lives time p = leb (process_start p) time && leb time (process_end p)

  -- The observations of the processes that live at the time.
  unfoldable pub sightings : ℕ → List (Process Value) → List Candidate
  sightings time [] = []
  sightings time (p ∷ ps) =
      let rest = sightings time ps in
      if lives time p then map (candidate p) p.observations ++ rest else rest

  module _ (time : ℕ) (push : Process Value → ProcessObservation Value → List Interval)
      (side : Candidate → Bool) (h : Candidate → Bool) where
    module _
        (one : (p : Process Value) (o : ProcessObservation Value)
          → ltb (process_end p) (process_start p) ≡ false
          → any (λ v. holds time v && h v.candidate) (push p o)
            ≡ (lives time p && (side (candidate p o) && h (candidate p o)))) where
      any-push_each :
          (p : Process Value) (os : List (ProcessObservation Value))
          → ltb (process_end p) (process_start p) ≡ false
          → any (λ v. holds time v && h v.candidate) (push_each (push p) os)
            ≡ (lives time p && any (λ c. side c && h c) (map (candidate p) os))
      unfolding push_each
      any-push_each p [] valid = ground arith
      any-push_each p (o ∷ os) valid =
          any-append (λ v. holds time v && h v.candidate) (push p o) (push_each (push p) os)
          ∙ rw (one p o valid, any-push_each p os valid) (ground arith)

      any-collect :
          (ps : List (Process Value))
          → any
              (λ v. holds time v && h v.candidate)
              (collect (λ p. push_each (push p) p.observations) ps)
            ≡ any (λ c. side c && h c) (sightings time ps)
      unfolding collect sightings
      any-collect [] = refl
      any-collect (p ∷ ps) = elim (Bool-cases (ltb (process_end p) (process_start p))) [
        | inl dead ↦
            let gone : lives time p ≡ false = ground arith in rw (dead, gone, any-collect ps) refl
        | inr valid ↦ rw valid (
            any-append (λ v. holds time v && h v.candidate) (push_each (push p) p.observations)
              (collect (λ p'. push_each (push p') p'.observations) ps)
            ∙ rw (any-push_each p p.observations valid, any-collect ps) (joined p ps))
      ]
        where
          joined :
              (p : Process Value) (ps : List (Process Value))
              → ((lives time p && any (λ c. side c && h c) (map (candidate p) p.observations))
                  || any (λ c. side c && h c) (sightings time ps))
                ≡ any (λ c. side c && h c) (sightings time (p ∷ ps))
          joined p ps = elim (Bool-cases (lives time p)) [
            | inl alive ↦ rw alive (
                sym (
                  any-append (λ c. side c && h c) (map (candidate p) p.observations)
                    (sightings time ps)))
            | inr gone ↦ rw gone refl
          ]

  module _ (time : ℕ) (h : Candidate → Bool) where
    -- The intervals of the first list that hold the time are the sightings up to it.
    pub any-before :
        (ps : List (Process Value))
        → any
            (λ v. holds time v && h v.candidate)
            (collect (λ p. push_each (push_before p) p.observations) ps)
          ≡ any (λ c. seen time c && h c) (sightings time ps)
    unfolding push_before
    any-before = any-collect time push_before (seen time) h λ p o valid. ground arith

    pub any-after :
        (ps : List (Process Value))
        → any
            (λ v. holds time v && h v.candidate)
            (collect (λ p. push_each (push_after p) p.observations) ps)
          ≡ any (λ c. unseen_yet time c && h c) (sightings time ps)
    unfolding push_after
    any-after = any-collect time push_after (unseen_yet time) h λ p o valid. ground arith

  abbrev unobserved_of :
      ℕ → Process Value → List (ProcessObservation Value) → List Candidate → List Candidate
  unobserved_of time p [] rest =
      let c : Candidate = record { observed = 0; pid = p.pid } in
      if lives time p then c ∷ rest else rest
  unobserved_of time p (o ∷ os) rest = rest

  -- The processes without an observation that live at the time.
  unfoldable pub unobserved : ℕ → List (Process Value) → List Candidate
  unobserved time [] = []
  unobserved time (p ∷ ps) = unobserved_of time p p.observations (unobserved time ps)

  module _ (time : ℕ) (h : Candidate → Bool) where
    any-push_empty :
        (p : Process Value) (os : List (ProcessObservation Value)) (rest : List Candidate)
        → (any (λ v. holds time v && h v.candidate) (push_empty p os) || any h rest)
          ≡ any h (unobserved_of time p os rest)
    unfolding push_empty
    any-push_empty p [] rest = ground arith
    any-push_empty p (o ∷ os) rest = refl

    pub any-empty :
        (ps : List (Process Value))
        → any (λ v. holds time v && h v.candidate) (collect (λ p. push_empty p p.observations) ps)
          ≡ any h (unobserved time ps)
    unfolding collect unobserved
    any-empty [] = refl
    any-empty (p ∷ ps) = elim (Bool-cases (ltb (process_end p) (process_start p))) [
      | inl dead ↦
          let gone : lives time p ≡ false = ground arith in
          rw (dead, any-empty ps) (passed p p.observations (unobserved time ps) gone)
      | inr valid ↦ rw valid (
          any-append (λ v. holds time v && h v.candidate) (push_empty p p.observations)
            (collect (λ p'. push_empty p' p'.observations) ps)
          ∙ rw (any-empty ps) (any-push_empty p p.observations (unobserved time ps)))
    ]
      where
        passed :
            (p : Process Value) (os : List (ProcessObservation Value)) (rest : List Candidate)
            → lives time p ≡ false
            → any h rest ≡ any h (unobserved_of time p os rest)
        passed p [] rest gone = rw gone refl
        passed p (o ∷ os) rest gone = refl

  -- The distance and the number of each process that lives at the time, once for each of its
  -- observations; one without any is as far as can be.
  unfoldable pub distances : List (Process Value) → ℕ → List (ℕ × ℕ)
  distances ps time = map (near time) (sightings time ps) ++ map far (unobserved time ps)

  module _ (time : ℕ) (h : Candidate → Bool) where
    any-unobserved_of :
        (p : Process Value) (os : List (ProcessObservation Value)) (rest : List Candidate)
        → any (λ c. never c && h c) rest ≡ any h rest
        → any (λ c. never c && h c) (unobserved_of time p os rest)
          ≡ any h (unobserved_of time p os rest)
    any-unobserved_of p [] rest same = ground arith
    any-unobserved_of p (o ∷ os) rest same = same

    pub unobserved-never :
        (ps : List (Process Value))
        → any (λ c. never c && h c) (unobserved time ps) ≡ any h (unobserved time ps)
    unfolding unobserved
    unobserved-never [] = refl
    unobserved-never (p ∷ ps) =
        any-unobserved_of p p.observations (unobserved time ps) (unobserved-never ps)

  -- No interval ends before it starts.
  all-collect :
      (push : Process Value → List Interval)
      → ((p : Process Value)
          → ltb (process_end p) (process_start p) ≡ false
          → all (λ v. leb v.start v.end) (push p) ≡ true)
      → (ps : List (Process Value)) → all (λ v. leb v.start v.end) (collect push ps) ≡ true
  unfolding collect
  all-collect push one [] = refl
  all-collect push one (p ∷ ps) = elim (Bool-cases (ltb (process_end p) (process_start p))) [
    | inl dead ↦ rw dead (all-collect push one ps)
    | inr valid ↦ rw valid (
        all-append (λ v. leb v.start v.end) (push p) (collect push ps)
        ∙ rw (one p valid, all-collect push one ps) refl)
  ]

  all-push_each :
      (push : ProcessObservation Value → List Interval)
      → ((o : ProcessObservation Value) → all (λ v. leb v.start v.end) (push o) ≡ true)
      → (os : List (ProcessObservation Value))
      → all (λ v. leb v.start v.end) (push_each push os) ≡ true
  unfolding push_each
  all-push_each push one [] = refl
  all-push_each push one (o ∷ os) =
      all-append (λ v. leb v.start v.end) (push o) (push_each push os)
      ∙ rw (one o, all-push_each push one os) refl

  module _ (ps : List (Process Value)) where
    pub before_valid :
        all (λ v. leb v.start v.end) (collect (λ p. push_each (push_before p) p.observations) ps)
        ≡ true
    unfolding push_before
    before_valid =
        all-collect (λ p. push_each (push_before p) p.observations)
          (λ p valid. all-push_each (push_before p) (λ o. ground arith) p.observations) ps

    pub after_valid :
        all (λ v. leb v.start v.end) (collect (λ p. push_each (push_after p) p.observations) ps)
        ≡ true
    unfolding push_after
    after_valid =
        all-collect (λ p. push_each (push_after p) p.observations)
          (λ p valid. all-push_each (push_after p) (λ o. ground arith) p.observations) ps

    pub empty_valid :
        all (λ v. leb v.start v.end) (collect (λ p. push_empty p p.observations) ps) ≡ true
    unfolding push_empty
    empty_valid =
        all-collect (λ p. push_empty p p.observations) (λ p valid. one p p.observations valid) ps
      where
        one :
            (p : Process Value) (os : List (ProcessObservation Value))
            → ltb (process_end p) (process_start p) ≡ false
            → all (λ v. leb v.start v.end) (push_empty p os) ≡ true
        one p [] valid = ground arith
        one p (o ∷ os) valid = refl
