-- ===== src/Report/Burst/Attained.antt =====
-- The longest window of `mass_file_finding` is found, and its events do lie in one span.
use foxhole.Prelude.{
  ℕ, ◌-◌, ◌≡◌, ◌≤◌, ◌↔◌, refl, sym, ap, ◌∙◌, Bool, true, ◌&&◌, List, [], ◌∷◌, ◌++◌, some, ltb, all,
  arith, Bool-cases, inl, inr, length, count, count-append, count_all, all_weaken, all-append,
}
use mathlib.Core.Path.{subst}
use mathlib.Core.List.{append_assoc}
use foxhole.Prelude.Sort.{IsSortedBy}
use foxhole.Report.Model.{FileEvent}
use foxhole.Report.Burst.{longer, busiest_from, busiest}
use foxhole.Report.Burst.Window.{
  time_le, in_span, BeginsInTime, Advanced, advance-Advanced, busiest_from-step,
  busiest_from-bounds,
}

module _ {Value : Type 0} where
  -- No index runs out of range: the loop always ends with a window.
  pub busiest_from_total :
      (window_ms : ℕ) (rest window best : List (FileEvent Value))
      → (out : List (FileEvent Value)) × (busiest_from window_ms window best rest ≡ some out)
  unfolding busiest_from
  busiest_from_total window_ms [] window best = (best, refl)
  busiest_from_total window_ms (e ∷ rest) window best =
      let (window', moved, advanced) = advance-Advanced window_ms e window in
      let (out, found) = busiest_from_total window_ms rest window' (longer best window') in
      (out, busiest_from-step window_ms e window best rest moved ∙ found)

  sorted_suffix :
      (xs ys : List (FileEvent Value)) → IsSortedBy time_le (xs ++ ys) → IsSortedBy time_le ys
  sorted_suffix [] ys s = s
  sorted_suffix (x ∷ xs) ys s = sorted_suffix xs ys s.1

  sorted_front :
      (xs : List (FileEvent Value)) (e : FileEvent Value) (ys : List (FileEvent Value))
      → IsSortedBy time_le (xs ++ e ∷ ys)
      → all (λ x. time_le x e) xs ≡ true
  sorted_front [] e ys s = refl
  sorted_front (x ∷ xs) e ys s =
      ground (arith, all-append (time_le x) xs (e ∷ ys), sorted_front xs e ys s.1)

  sorted_prefix :
      (xs ys : List (FileEvent Value)) → IsSortedBy time_le (xs ++ ys) → IsSortedBy time_le xs
  sorted_prefix [] ys s = tt
  sorted_prefix (x ∷ xs) ys s =
      (ground (arith, all-append (time_le x) xs ys), sorted_prefix xs ys s.1)

  module _ (window_ms : ℕ) where
    -- A window that begins in time lies in the span up to its event.
    window_in_span :
        (e : FileEvent Value) (window : List (FileEvent Value))
        → IsSortedBy time_le window
        → BeginsInTime window_ms e.observed_at_ms window
        → all (λ x. time_le x e) window ≡ true
        → all (in_span window_ms (e.observed_at_ms - window_ms)) window ≡ true
    window_in_span e [] s begins until = refl
    window_in_span e (x ∷ window) s begins until =
        let later : all (λ y. time_le x y && time_le y e) window ≡ true =
          both window s.0 (ground arith) in
        let spans : all (in_span window_ms (e.observed_at_ms - window_ms)) window ≡ true =
          all_weaken (λ y. time_le x y && time_le y e)
            (in_span window_ms (e.observed_at_ms - window_ms)) window (λ y h. ground arith) later in
        ground arith
      where
        both :
            (ys : List (FileEvent Value))
            → all (time_le x) ys ≡ true
            → all (λ y. time_le y e) ys ≡ true
            → all (λ y. time_le x y && time_le y e) ys ≡ true
        both [] a b = refl
        both (y ∷ ys) a b = ground (arith, both ys)

    module _ (e : FileEvent Value) (rest window window' : List (FileEvent Value))
        (advanced : Advanced window_ms e.observed_at_ms (window ++ e ∷ []) window') where
      sorted_after : IsSortedBy time_le (window ++ e ∷ rest) → IsSortedBy time_le (window' ++ rest)
      sorted_after s = sorted_suffix advanced.dropped (window' ++ rest) (
          subst (IsSortedBy time_le)
            (sym (append_assoc window (e ∷ []) rest)
              ∙ ap (λ l. l ++ rest) advanced.split
              ∙ append_assoc advanced.dropped window' rest)
            s)

      until_event : IsSortedBy time_le (window ++ e ∷ rest) → all (λ x. time_le x e) window' ≡ true
      until_event s =
          let before = sorted_front window e rest s in
          let whole : all (λ x. time_le x e) (window ++ e ∷ []) ≡ true =
            all-append (λ x. time_le x e) window (e ∷ []) ∙ ground arith in
          let parts =
            sym (all-append (λ x. time_le x e) advanced.dropped window')
            ∙ ap (all (λ (x : FileEvent Value). time_le x e)) (sym advanced.split)
            ∙ whole in
          ground arith

      part_after :
          (seen : List (FileEvent Value))
          → ((p : FileEvent Value → Bool) → count p window ≤ count p seen)
          → (p : FileEvent Value → Bool) → count p window' ≤ count p (seen ++ e ∷ [])
      part_after seen part p = omega (
        arith,
        part p,
        count-append p seen (e ∷ []),
        count-append p window (e ∷ []),
        count-append p advanced.dropped window',
        ap (count p) advanced.split,
      )

      longest_after :
          (best seen : List (FileEvent Value)) (start : ℕ)
          → IsSortedBy time_le (window ++ e ∷ rest)
          → IsSortedBy time_le (window' ++ rest)
          → ((p : FileEvent Value → Bool) → count p window ≤ count p seen)
          → length best ≤ count (in_span window_ms start) seen
          → (start : ℕ) × (length (longer best window')
              ≤ count (in_span window_ms start) (seen ++ e ∷ []))
      unfolding longer
      longest_after best seen start s s' part held =
          elim (Bool-cases (ltb (length best) (length window'))) [
            | inl longest ↦
                let from = e.observed_at_ms - window_ms in
                let full = count_all (in_span window_ms from) window' (
                  window_in_span e window' (sorted_prefix window' rest s') advanced.fits
                    (until_event s)) in
                (from, rw longest (omega (arith, part_after seen part (in_span window_ms from))))
            | inr kept ↦ (
              start,
              rw kept (omega (arith, count-append (in_span window_ms start) seen (e ∷ []))),
            )
          ]

    -- The longest window so far is no longer than a span's events among those seen.
    busiest_from-attained :
        (rest window best seen : List (FileEvent Value)) (start : ℕ) {out : List (FileEvent Value)}
        → IsSortedBy time_le (window ++ rest)
        → ((p : FileEvent Value → Bool) → count p window ≤ count p seen)
        → length best ≤ count (in_span window_ms start) seen
        → busiest_from window_ms window best rest ≡ some out
        → (start : ℕ) × (length out ≤ count (in_span window_ms start) (seen ++ rest))
    unfolding busiest_from longer
    busiest_from-attained [] window best seen start {out} s part held found =
        let same : best ≡ out = ground arith in
        let longest : length best ≡ length out = ap length same in
        (start, omega (arith, count-append (in_span window_ms start) seen []))
    busiest_from-attained (e ∷ rest) window best seen start {out} s part held found =
        let (window', moved, advanced) = advance-Advanced window_ms e window in
        let s' = sorted_after e rest window window' advanced s in
        let (start', held') =
          longest_after e rest window window' advanced best seen start s s' part held in
        let (last, reached) =
          busiest_from-attained rest window' (longer best window') (seen ++ e ∷ []) start' s'
            (part_after e rest window window' advanced seen part) held'
            (sym (busiest_from-step window_ms e window best rest moved) ∙ found) in
        (
          last,
          subst (λ l. length out ≤ count (in_span window_ms last) l)
              (append_assoc seen (e ∷ []) rest) reached,
        )

  -- The loop of `mass_file_finding` ends, no index runs out of range, and its window is at least
  -- as long as a number, if and only if some span of the window's length holds that many events.
  -- The events are in the order of time.
  pub busiest_reaches_iff :
      (window_ms : ℕ) (events : List (FileEvent Value))
      → IsSortedBy time_le events
      → (best : List (FileEvent Value)) × (busiest window_ms events ≡ some best)
        × ((wanted : ℕ)
            → (wanted ≤ length best)
              ↔ ((start : ℕ) × (wanted ≤ count (in_span window_ms start) events)))
  unfolding busiest
  busiest_reaches_iff window_ms events s =
      let (best, found) = busiest_from_total window_ms events [] [] in
      let (from, reached) =
        busiest_from-attained window_ms events [] [] [] 0 s (λ p. omega arith) (omega arith)
          found in
      (
        best,
        found,
        λ wanted. (
          λ long. (from, omega arith),
          λ (start, full).
              let bound =
                busiest_from-bounds window_ms start events [] [] 0 s (omega arith)
                  (λ none. absurd (omega arith)) found in
              omega arith,
        ),
      )
