-- ===== src/Report/Burst/Window.antt =====
-- The two indices of `mass_file_finding`: the window never runs empty, and the longest one holds
-- as many events as any span of that length.
use foxhole.Prelude.{
  ℕ, ◌+◌, ◌-◌, ◌≡◌, ◌≤◌, ◌<◌, refl, sym, ap, ◌∙◌, Bool, true, false, List, [], ◌∷◌, ◌++◌, some, ltb,
  leb, within, all, arith, Bool-cases, inl, inr, length, count, count-append, count-le-length,
  all_weaken,
}
use foxhole.Prelude.Sort.{IsSortedBy}
use foxhole.Report.Model.{FileEvent}
use foxhole.Report.Burst.{advance, longer, busiest_from}

module _ {Value : Type 0} where
  abbrev pub time_le : FileEvent Value → FileEvent Value → Bool
  time_le a b = leb a.observed_at_ms b.observed_at_ms

  -- the events of a span of `window_ms` from `start`
  abbrev pub in_span : (window_ms start : ℕ) → FileEvent Value → Bool
  in_span window_ms start e = within start (start + window_ms) e.observed_at_ms

  abbrev pub too_early : (window_ms time : ℕ) → FileEvent Value → Bool
  too_early window_ms time x = ltb window_ms (time - x.observed_at_ms)

  abbrev pub BeginsInTime : (window_ms time : ℕ) → List (FileEvent Value) → Type 0
  BeginsInTime window_ms time [] = Unit {0}
  BeginsInTime window_ms time (x ∷ xs) = too_early window_ms time x ≡ false

  -- What the inner loop drops, and what it leaves: a window that begins in time.
  pub record Advanced (window_ms time : ℕ) (before after : List (FileEvent Value)) : Type 0 where
    pub dropped : List (FileEvent Value)
    pub split : before ≡ dropped ++ after
    pub early : all (too_early window_ms time) dropped ≡ true
    pub fits : BeginsInTime window_ms time after

  -- The inner loop stops: the event itself is never too early.
  pub advance-Advanced :
      (window_ms : ℕ) (e : FileEvent Value) (window : List (FileEvent Value))
      → (after : List (FileEvent Value)) × (advance window_ms e.observed_at_ms (window ++ e ∷ [])
          ≡ some after)
        × Advanced window_ms e.observed_at_ms (window ++ e ∷ []) after
  unfolding advance
  advance-Advanced window_ms e [] =
      let now : too_early window_ms e.observed_at_ms e ≡ false = ground arith in
      (e ∷ [], rw now refl, record { dropped = []; split = refl; early = refl; fits = now })
  advance-Advanced window_ms e (x ∷ window) =
      elim (Bool-cases (too_early window_ms e.observed_at_ms x)) [
        | inl early ↦
            let (after, moved, advanced) = advance-Advanced window_ms e window in
            (
              after,
              rw early moved,
              record {
                dropped = x ∷ advanced.dropped;
                split = ap (λ l. x ∷ l) advanced.split;
                early = rw (early, advanced.early) refl;
                fits = advanced.fits;
              },
            )
        | inr kept ↦ (
          x ∷ (window ++ e ∷ []),
          rw kept refl,
          record { dropped = []; split = refl; early = refl; fits = kept },
        )
      ]

  -- Nothing that is dropped lies in a span that the event lies in.
  none_dropped :
      (window_ms start time : ℕ) (dropped : List (FileEvent Value))
      → all (too_early window_ms time) dropped ≡ true
      → time ≤ start + window_ms
      → count (in_span window_ms start) dropped ≡ 0
  none_dropped window_ms start time [] early inside = refl
  none_dropped window_ms start time (x ∷ dropped) early inside =
      ground (arith, none_dropped window_ms start time dropped)

  pub busiest_from-step :
      (window_ms : ℕ) (e : FileEvent Value) (window best rest : List (FileEvent Value))
      {window' : List (FileEvent Value)}
      → advance window_ms e.observed_at_ms (window ++ e ∷ []) ≡ some window'
      → busiest_from window_ms window best (e ∷ rest)
        ≡ busiest_from window_ms window' (longer best window') rest
  unfolding busiest_from
  busiest_from-step window_ms e window best rest moved = rw moved refl

  pub length-longer :
      (best window : List (FileEvent Value))
      → (length best ≤ length (longer best window)) × (length window ≤ length (longer best window))
  unfolding longer
  length-longer best window = ground arith

  module _ (window_ms start : ℕ) where
    abbrev spanned : List (FileEvent Value) → ℕ
    spanned = count (in_span window_ms start)

    -- The longer of two windows, after the event `e`.
    held_after :
        (e : FileEvent Value) (window window' best dropped : List (FileEvent Value)) (gone : ℕ)
        → spanned window + spanned (e ∷ []) ≡ spanned dropped + spanned window'
        → gone + spanned window ≤ length best
        → (0 < gone → ltb (start + window_ms) e.observed_at_ms ≡ true)
        → (e.observed_at_ms ≤ start + window_ms → spanned dropped ≡ 0)
        → gone + spanned dropped + spanned window' ≤ length (longer best window')
    held_after e window window' best dropped gone kept held passed left =
        let shorter = count-le-length (in_span window_ms start) window' in
        let longest = length-longer best window' in
        elim (Bool-cases (in_span window_ms start e)) [
          | inl inside ↦
              let none_left = left (ground arith) in
              let none_gone : gone ≡ 0 = ground arith in omega arith
          | inr outside ↦ let uncounted : spanned (e ∷ []) ≡ 0 = ground arith in omega arith
        ]

    passed_now :
        (e : FileEvent Value) (rest : List (FileEvent Value))
        → all (λ x. ltb (start + window_ms) x.observed_at_ms) (e ∷ rest) ≡ true
        → ltb (start + window_ms) e.observed_at_ms ≡ true
    passed_now e rest all_late = ground arith

    passed_after :
        (e : FileEvent Value) (rest dropped : List (FileEvent Value)) (gone : ℕ)
        → all (time_le e) rest ≡ true
        → (0 < gone → all (λ x. ltb (start + window_ms) x.observed_at_ms) (e ∷ rest) ≡ true)
        → (e.observed_at_ms ≤ start + window_ms → spanned dropped ≡ 0)
        → 0 < gone + spanned dropped
        → all (λ x. ltb (start + window_ms) x.observed_at_ms) rest ≡ true
    passed_after e rest dropped gone later passed left some_gone =
        elim (Bool-cases (ltb (start + window_ms) e.observed_at_ms)) [
          | inl late ↦
              all_weaken (time_le e) (λ x. ltb (start + window_ms) x.observed_at_ms) rest
                (λ x h. ground arith) later
          | inr early ↦
              let none_left = left (ground arith) in
              let now = passed (omega arith) in absurd (ground arith)
        ]

    pub count_cons :
        (p : FileEvent Value → Bool) (e : FileEvent Value) (rest : List (FileEvent Value))
        → count p (e ∷ rest) ≡ count p (e ∷ []) + count p rest
    count_cons p e rest = ground arith

    -- No span holds more events than the longest window, once all of them have passed. `gone` is
    -- the number of events of the span that the window has left behind.
    pub busiest_from-bounds :
        (rest window best : List (FileEvent Value)) (gone : ℕ) {out : List (FileEvent Value)}
        → IsSortedBy time_le rest
        → gone + spanned window ≤ length best
        → (0 < gone → all (λ e. ltb (start + window_ms) e.observed_at_ms) rest ≡ true)
        → busiest_from window_ms window best rest ≡ some out
        → gone + spanned window + spanned rest ≤ length out
    unfolding busiest_from
    busiest_from-bounds [] window best gone {out} s held passed found =
        let same : best ≡ out = ground arith in
        let longest : length best ≡ length out = ap length same in omega arith
    busiest_from-bounds (e ∷ rest) window best gone {out} s held passed found =
        let (window', moved, advanced) = advance-Advanced window_ms e window in
        let kept : spanned window + spanned (e ∷ []) ≡ spanned advanced.dropped + spanned window' =
          sym (count-append (in_span window_ms start) window (e ∷ []))
          ∙ ap spanned advanced.split
          ∙ count-append (in_span window_ms start) advanced.dropped window' in
        let all_left =
          none_dropped window_ms start e.observed_at_ms advanced.dropped advanced.early in
        let bound =
          busiest_from-bounds rest window' (longer best window') (gone + spanned advanced.dropped)
            s.1
            (held_after e window window' best advanced.dropped gone kept held
              (λ h. (passed_now e rest (passed h))) all_left)
            (passed_after e rest advanced.dropped gone s.0 passed all_left)
            (sym (busiest_from-step window_ms e window best rest moved) ∙ found) in
        omega (arith, count_cons (in_span window_ms start) e rest)
