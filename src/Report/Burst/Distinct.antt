-- ===== src/Report/Burst/Distinct.antt =====
-- How many distinct events `mass_file_finding` of src/report_analysis/verdict.rs is left with when
-- it has sorted them and dropped repetitions.
use foxhole.Prelude.{
  ℕ, suc, ◌≡◌, refl, sym, ap, ◌∙◌, Bool, true, false, not, ◌&&◌, ◌||◌, List, [], ◌∷◌, if◌then◌else◌,
  any, all, count, ◌==◌, ◌=text◌, arith, Bool-cases, inl, inr,
}
use foxhole.Prelude.Sort.{sort_by, insert_sorted, IsSortedBy, sort_by-IsSortedBy, any-sort_by}
use foxhole.Report.Model.{FileEvent}
use foxhole.Report.Burst.{dedup_after, dedup_by, distinct_events, file_event_le, same_file_event}
use foxhole.Prelude.TextOrder.{
  text_lt_asym, text_lt_connected, text_lt_trans, =text_refl, =text_sym, =text_trans, text_lt_same,
  text_lt_alike, text_lt_apart, text_le_trans,
}

module _ {Value : Type 0} where
  le_trans :
      (a b c : FileEvent Value)
      → file_event_le a b ≡ true
      → file_event_le b c ≡ true
      → file_event_le a c ≡ true
  le_trans a b c h k =
      let lt = text_lt_trans a.path b.path c.path in
      let lt_eq = text_lt_alike b.path c.path a.path in
      let eq_lt = text_lt_same a.path b.path c.path in
      let eq = =text_trans a.path b.path c.path in
      let act = text_le_trans a.action b.action c.action in ground arith

  le_refl : (a : FileEvent Value) → file_event_le a a ≡ true
  le_refl a =
      let path = =text_refl a.path in
      let act = text_lt_apart a.action a.action (=text_refl a.action) in ground arith

  le_total : (a b : FileEvent Value) → file_event_le a b ≡ false → file_event_le b a ≡ true
  le_total a b h =
      let path = text_lt_connected a.path b.path in
      let alike = =text_sym a.path b.path in
      let act = text_lt_asym b.action a.action in ground arith

  same_sym : (a b : FileEvent Value) → same_file_event a b ≡ same_file_event b a
  same_sym a b =
      let path = =text_sym a.path b.path in let act = =text_sym a.action b.action in ground arith

  same_trans :
      (a b c : FileEvent Value)
      → same_file_event a b ≡ true
      → same_file_event b c ≡ same_file_event a c
  same_trans a b c h =
      let path = =text_trans a.path b.path c.path in
      let act = =text_trans a.action b.action c.action in ground arith

  -- What stands between two repetitions is a repetition too.
  between_same :
      (a b c : FileEvent Value)
      → file_event_le a b ≡ true
      → file_event_le b c ≡ true
      → same_file_event a c ≡ true
      → same_file_event b a ≡ true
  between_same a b c h k e =
      let lt = text_lt_asym a.path b.path in
      let path = text_lt_alike a.path c.path b.path in
      let alike = =text_sym a.path b.path in
      let act = text_lt_alike a.action c.action b.action in
      let act' = text_lt_same a.action c.action b.action in
      let acts = text_lt_connected b.action a.action in
      let paths = =text_trans a.path c.path b.path in
      let apaths = =text_sym a.path c.path in
      let bpaths = =text_sym b.path c.path in
      let apart = text_lt_apart a.path b.path in
      let capart = text_lt_apart b.path c.path in ground arith

  -- Each event is counted where it stands last.
  abbrev count_last : (FileEvent Value → Bool) → List (FileEvent Value) → ℕ
  count_last p [] = 0
  count_last p (e ∷ events) =
      let rest = count_last p events in
      if p e && not (any (same_file_event e) events) then suc rest else rest

  module _ (p : FileEvent Value → Bool)
      (respects : (a b : FileEvent Value) → same_file_event a b ≡ true → p a ≡ p b) where
    any-same :
        (a b : FileEvent Value) (events : List (FileEvent Value))
        → same_file_event a b ≡ true
        → any (same_file_event a) events ≡ any (same_file_event b) events
    any-same a b [] h = refl
    any-same a b (c ∷ events) h =
        let ih = any-same a b events h in
        let same = same_trans a b c h in
        ap (λ t. t || any (same_file_event a) events) (sym same)
        ∙ ap (λ t. same_file_event b c || t) ih

    any-insert :
        (q : FileEvent Value → Bool) (e : FileEvent Value) (events : List (FileEvent Value))
        → any q (insert_sorted file_event_le e events) ≡ (q e || any q events)
    unfolding insert_sorted
    any-insert q e [] = refl
    any-insert q e (f ∷ events) = elim (Bool-cases (file_event_le e f)) [
      | inl first ↦ rw first refl
      | inr later ↦ rw (later, any-insert q e events) (ground arith)
    ]

    swap_tests :
        (pe pf ef fe ae af : Bool) (n : ℕ)
        → ef ≡ fe
        → (ef ≡ true → ae ≡ af)
        → (ef ≡ true → pe ≡ pf)
        → (let rest = if pe && not ae then suc n else n in
            if pf && not (fe || af) then suc rest else rest)
          ≡ (let rest = if pf && not af then suc n else n in
              if pe && not (ef || ae) then suc rest else rest)
    swap_tests pe pf ef fe ae af n symmetric alike passes = ground arith

    swap :
        (e f : FileEvent Value) (events : List (FileEvent Value))
        → count_last p (f ∷ (e ∷ events)) ≡ count_last p (e ∷ (f ∷ events))
    swap e f events =
        swap_tests (p e) (p f) (same_file_event e f) (same_file_event f e)
          (any (same_file_event e) events) (any (same_file_event f) events) (count_last p events)
          (same_sym e f) (any-same e f events) (respects e f)

    count_last-insert :
        (e : FileEvent Value) (events : List (FileEvent Value))
        → count_last p (insert_sorted file_event_le e events) ≡ count_last p (e ∷ events)
    unfolding insert_sorted
    count_last-insert e [] = refl
    count_last-insert e (f ∷ events) = elim (Bool-cases (file_event_le e f)) [
      | inl first ↦ rw first refl
      | inr later ↦
          rw (later, any-insert (same_file_event f) e events, count_last-insert e events)
            (swap e f events)
    ]

    count_last-sort_by :
        (events : List (FileEvent Value))
        → count_last p (sort_by file_event_le events) ≡ count_last p events
    unfolding sort_by
    count_last-sort_by [] = refl
    count_last-sort_by (e ∷ events) =
        count_last-insert e (sort_by file_event_le events)
        ∙ rw (any-sort_by file_event_le (same_file_event e) events, count_last-sort_by events) refl

    none_same :
        (kept x : FileEvent Value) (xs : List (FileEvent Value))
        → file_event_le kept x ≡ true
        → same_file_event x kept ≡ false
        → all (file_event_le x) xs ≡ true
        → any (same_file_event kept) xs ≡ false
    none_same kept x [] first other behind = refl
    none_same kept x (y ∷ xs) first other behind =
        let (this, rest) = both (file_event_le x y) (all (file_event_le x) xs) behind in
        let later = none_same kept x xs first other rest in
        let apart =
          differs (same_file_event kept y) (same_file_event x kept) other
            (between_same kept x y first this) in
        rw (apart, later) refl
      where
        both : (a b : Bool) → (a && b) ≡ true → (a ≡ true) × (b ≡ true)
        both a b h = ground arith

        differs : (a b : Bool) → b ≡ false → (a ≡ true → b ≡ true) → a ≡ false
        differs a b h f = ground arith

    -- Among sorted events repetitions are neighbours, and so `dedup_by` finds them all.
    count-dedup_after :
        (kept : FileEvent Value) (xs : List (FileEvent Value))
        → IsSortedBy file_event_le (kept ∷ xs)
        → count_last p (kept ∷ xs) ≡ count p (kept ∷ dedup_after same_file_event kept xs)
    unfolding dedup_after
    count-dedup_after kept [] sorted = kept_one (p kept)
      where
        kept_one : (b : Bool) → ◌≡◌ {A = ℕ} (if b && not false then 1 else 0) (if b then 1 else 0)
        kept_one b = ground arith
    count-dedup_after kept (x ∷ xs) sorted = elim (Bool-cases (same_file_event x kept)) [
      | inl again ↦
          let skipped = count-dedup_after kept xs (tail_sorted kept x xs sorted) in
          rw (again, sym (same_sym x kept) ∙ again)
            (repeated (p kept) (p x) (any (same_file_event x) xs) (any (same_file_event kept) xs)
                (count_last p xs) (any-same x kept xs again) (respects x kept again)
              ∙ skipped)
      | inr new ↦
          let unrepeated =
            none_same kept x (x ∷ xs) (first_le kept x xs sorted) new (self_le x xs sorted.1) in
          let rest = count-dedup_after x xs sorted.1 in
          rw (new, unrepeated)
            (one_more (p kept) (count_last p (x ∷ xs))
              (count p (x ∷ dedup_after same_file_event x xs)) rest)
    ]
      where
        tail_sorted :
            (e f : FileEvent Value) (es : List (FileEvent Value))
            → IsSortedBy file_event_le (e ∷ (f ∷ es))
            → IsSortedBy file_event_le (e ∷ es)
        tail_sorted e f es s = (ground (arith, s.0), s.1.1)

        repeated :
            (pk px ax ak : Bool) (n : ℕ)
            → ax ≡ ak
            → px ≡ pk
            → (let rest = if px && not ax then suc n else n in
                if pk && not (true || ak) then suc rest else rest)
              ≡ (if pk && not ak then suc n else n)
        repeated pk px ax ak n alike passes = ground arith

        first_le :
            (e f : FileEvent Value) (es : List (FileEvent Value))
            → IsSortedBy file_event_le (e ∷ (f ∷ es))
            → file_event_le e f ≡ true
        first_le e f es s = ground (arith, s.0)

        self_le :
            (e : FileEvent Value) (es : List (FileEvent Value))
            → IsSortedBy file_event_le (e ∷ es)
            → all (file_event_le e) (e ∷ es) ≡ true
        self_le e es s = rw (le_refl e, s.0) refl

        one_more :
            (b : Bool) (m n : ℕ)
            → m ≡ n
            → (if b && not false then suc m else m) ≡ (if b then suc n else n)
        one_more b m n same = ground arith

  count-dedup_by :
      (p : FileEvent Value → Bool)
      → ((a b : FileEvent Value) → same_file_event a b ≡ true → p a ≡ p b)
      → (es : List (FileEvent Value)) → IsSortedBy file_event_le es
      → count p (dedup_by same_file_event es) ≡ count_last p es
  unfolding dedup_by
  count-dedup_by p respects [] sorted = refl
  count-dedup_by p respects (e ∷ es) sorted = sym (count-dedup_after p respects e es sorted)

  -- The same action on the same path, by the same process and at the same time.
  abbrev pub is_repetition : FileEvent Value → FileEvent Value → Bool
  is_repetition a b =
      ((a.action =text b.action) && (a.path =text b.path))
      && (a.pid == b.pid && a.observed_at_ms == b.observed_at_ms)

  -- The number of different events that pass a test, in whatever order they stand.
  abbrev pub count_distinct : (FileEvent Value → Bool) → List (FileEvent Value) → ℕ
  count_distinct p [] = 0
  count_distinct p (e ∷ events) =
      let rest = count_distinct p events in
      if p e && not (any (is_repetition e) events) then suc rest else rest

  any-is_repetition :
      (e : FileEvent Value) (events : List (FileEvent Value))
      → any (same_file_event e) events ≡ any (is_repetition e) events
  any-is_repetition e [] = refl
  any-is_repetition e (f ∷ events) =
      let same : same_file_event e f ≡ is_repetition e f = ground arith in
      ap (λ t. t || any (same_file_event e) events) same
      ∙ ap (λ t. is_repetition e f || t) (any-is_repetition e events)

  count_last-count_distinct :
      (p : FileEvent Value → Bool) (events : List (FileEvent Value))
      → count_last p events ≡ count_distinct p events
  count_last-count_distinct p [] = refl
  count_last-count_distinct p (e ∷ events) =
      rw (any-is_repetition e events, count_last-count_distinct p events) refl

  -- What is left of the events is as many as are different.
  pub count_distinct_lem :
      (p : FileEvent Value → Bool)
      → ((a b : FileEvent Value) → same_file_event a b ≡ true → p a ≡ p b)
      → (events : List (FileEvent Value))
      → count p (distinct_events events) ≡ count_distinct p events
  unfolding distinct_events
  count_distinct_lem p respects events =
      count-dedup_by p respects (sort_by file_event_le events)
        (sort_by-IsSortedBy file_event_le file_event_le le_trans (λ a b h. h) le_total events)
      ∙ count_last-sort_by p respects events
      ∙ count_last-count_distinct p events
