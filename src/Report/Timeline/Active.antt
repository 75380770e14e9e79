-- ===== src/Report/Timeline/Active.antt =====
-- Which intervals are active after the events up to a time.
use foxhole.Prelude.{
  ℕ, ◌≡◌, ◌<◌, refl, Bool, true, false, not, ◌&&◌, ◌||◌, List, [], ◌∷◌, Option, none, some, leb,
  ◌==◌, if◌then◌else◌, any, all, all_weaken, All, arith, Bool-cases, Option-cases, inl, inr,
}
use mathlib.Core.Path.{subst}
use foxhole.Prelude.Sort.{IsSortedBy}
use foxhole.Report.Timeline.{
  Key, Event, key_lt, same_key, event_le, insert_key, remove_key, lesser_key, first_key,
  apply_event,
}

abbrev pub has : Key → List Key → Bool
has k active = any (same_key k) active

has_same : (k j : Key) (active : List Key) → same_key k j ≡ true → has k active ≡ has j active
has_same k j [] same = refl
has_same k j (i ∷ active) same = ground (arith, has_same k j active same)

has-insert_key :
    (k j : Key) (active : List Key) → has k (insert_key j active) ≡ (same_key k j || has k active)
unfolding insert_key
has-insert_key k j active = ground (arith, has_same k j active)

has-remove_key :
    (k j : Key) (active : List Key)
    → has k (remove_key j active) ≡ (not (same_key k j) && has k active)
unfolding remove_key
has-remove_key k j [] = ground arith
has-remove_key k j (i ∷ active) = ground (arith, has-remove_key k j active)

unfoldable pub run : List Event → List Key → List Key
run [] active = active
run (e ∷ es) active = run es (apply_event e active)

unfoldable pub upto : ℕ → List Event → List Event
upto time [] = []
upto time (e ∷ es) = let rest = upto time es in if leb e.time time then e ∷ rest else rest

pub any-upto :
    (time : ℕ) (p : Event → Bool) (es : List Event)
    → any p (upto time es) ≡ any (λ e. leb e.time time && p e) es
unfolding upto
any-upto time p [] = refl
any-upto time p (e ∷ es) = ground (arith, any-upto time p es)

all-upto :
    (time : ℕ) (p : Event → Bool) (es : List Event) → all p es ≡ true → all p (upto time es) ≡ true
unfolding upto
all-upto time p [] h = refl
all-upto time p (e ∷ es) h = ground (arith, all-upto time p es)

pub upto-IsSortedBy :
    (time : ℕ) (es : List Event) → IsSortedBy event_le es → IsSortedBy event_le (upto time es)
unfolding upto
upto-IsSortedBy time [] s = tt
upto-IsSortedBy time (e ∷ es) s = elim (Bool-cases (leb e.time time)) [
  | inl early ↦ rw early (all-upto time (event_le e) es s.0, upto-IsSortedBy time es s.1)
  | inr late ↦ rw late (upto-IsSortedBy time es s.1)
]

-- Nothing up to a time follows an event that comes after it.
pub upto_late :
    (time : ℕ) (e : Event) (es : List Event)
    → IsSortedBy event_le (e ∷ es)
    → leb e.time time ≡ false
    → upto time es ≡ []
unfolding upto
upto_late time e [] s late = refl
upto_late time e (f ∷ es) s late =
    let later : leb f.time time ≡ false = ground arith in rw later (upto_late time f es s.1 later)

abbrev pub is_entry : Key → Event → Bool
is_entry k e = same_key k e.key && e.add

abbrev pub is_exit : Key → Event → Bool
is_exit k e = same_key k e.key && not e.add

-- An event of this key at another time than its interval has.
abbrev pub is_stray : Key → (start after : ℕ) → Event → Bool
is_stray k start after e =
    same_key k e.key && (if e.add then not (e.time == start) else not (e.time == after))

module _ (k : Key) (start after : ℕ) (order : start < after) where
  no_entry_after :
      (e : Event) (es : List Event)
      → all (event_le e) es ≡ true
      → any (is_stray k start after) es ≡ false
      → e.time ≡ after
      → any (is_entry k) es ≡ false
  no_entry_after e [] s regular at = refl
  no_entry_after e (f ∷ es) s regular at = ground (arith, no_entry_after e es)

  -- A key is active if its entry came and its exit did not.
  pub has-run :
      (es : List Event) (active : List Key)
      → IsSortedBy event_le es
      → any (is_stray k start after) es ≡ false
      → has k (run es active) ≡ (not (any (is_exit k) es) && (any (is_entry k) es || has k active))
  unfolding run apply_event
  has-run [] active s regular = ground arith
  has-run (e ∷ es) active s regular = elim (Bool-cases e.add) [
    | inl adds ↦ ground (
      arith,
      has-run es (insert_key e.key active) s.1 (ground arith),
      has-insert_key k e.key active,
    )
    | inr removes ↦ ground (
      arith,
      has-run es (remove_key e.key active) s.1 (ground arith),
      has-remove_key k e.key active,
      no_entry_after e es s.0,
    )
  ]

module _ (P : Key → Type 0) where
  All-insert_key : (k : Key) (active : List Key) → P k → All P active → All P (insert_key k active)
  unfolding insert_key
  All-insert_key k active new old = elim (Bool-cases (any (same_key k) active)) [
    | inl there ↦ rw there old
    | inr fresh ↦ rw fresh (new, old)
  ]

  All-remove_key : (k : Key) (active : List Key) → All P active → All P (remove_key k active)
  unfolding remove_key
  All-remove_key k [] old = tt
  All-remove_key k (j ∷ active) old = elim (Bool-cases (same_key k j)) [
    | inl same ↦ rw same (All-remove_key k active old.1)
    | inr other ↦ rw other (old.0, All-remove_key k active old.1)
  ]

  -- Every active key came with an event.
  pub All-run :
      (es : List Event) (active : List Key)
      → All (λ e. P e.key) es
      → All P active
      → All P (run es active)
  unfolding run apply_event
  All-run [] active new old = old
  All-run (e ∷ es) active new old = elim (Bool-cases e.add) [
    | inl adds ↦
        rw adds (All-run es (insert_key e.key active) new.1 (All-insert_key e.key active new.0 old))
    | inr removes ↦
        rw removes (All-run es (remove_key e.key active) new.1 (All-remove_key e.key active old))
  ]

  pub All-upto :
      (time : ℕ) (es : List Event) → All (λ e. P e.key) es → All (λ e. P e.key) (upto time es)
  unfolding upto
  All-upto time [] new = tt
  All-upto time (e ∷ es) new = elim (Bool-cases (leb e.time time)) [
    | inl early ↦ rw early (new.0, All-upto time es new.1)
    | inr late ↦ rw late (All-upto time es new.1)
  ]

  All-lesser_key :
      (j : Key) (o : Option Key) {k : Key}
      → P j
      → ((i : Key) → o ≡ some i → P i)
      → lesser_key j o ≡ some k
      → P k
  unfolding lesser_key
  All-lesser_key j none here there found = let same : j ≡ _ = cc in subst P same here
  All-lesser_key j (some i) here there found = elim (Bool-cases (key_lt j i)) [
    | inl first ↦ let same : j ≡ _ = ground arith in subst P same here
    | inr later ↦ let same : some i ≡ some _ = ground arith in there _ same
  ]

  -- The first key is one of the active ones.
  pub All-first_key : (active : List Key) {k : Key} → All P active → first_key active ≡ some k → P k
  unfolding first_key
  All-first_key [] held found = absurd (ground arith)
  All-first_key (j ∷ active) held found =
      All-lesser_key j (first_key active) held.0 (λ i there. All-first_key active held.1 there)
        found

pub first_key-none : (active : List Key) → first_key active ≡ none → active ≡ []
unfolding first_key lesser_key
first_key-none [] empty = refl
first_key-none (j ∷ active) empty = elim (Option-cases (first_key active)) [
  | inl e ↦ ground arith
  | inr (i, e) ↦ ground arith
]

key_lt_irreflexive : (k : Key) → key_lt k k ≡ false
key_lt_irreflexive k = ground arith

key_lt_trans : (x i j : Key) → not (key_lt x i) ≡ true → key_lt j i ≡ true → not (key_lt x j) ≡ true
key_lt_trans x i j h g = ground arith

key_lt_asym : (i j : Key) → key_lt i j ≡ true → key_lt j i ≡ false
key_lt_asym i j h = ground arith

-- No active key comes before the first one.
pub first_key_least :
    (active : List Key) {k : Key}
    → first_key active ≡ some k
    → all (λ j. not (key_lt j k)) active ≡ true
unfolding first_key lesser_key
first_key_least [] found = refl
first_key_least (j ∷ active) {k} found = elim (Option-cases (first_key active)) [
  | inl empty ↦
      let alone : active ≡ [] = first_key-none active empty in
      let same : j ≡ k = ground arith in rw (alone, same, key_lt_irreflexive k) refl
  | inr (i, there) ↦ elim (Bool-cases (key_lt j i)) [
    | inl before ↦
        let same : j ≡ k = ground arith in
        let rest : all (λ x. not (key_lt x j)) active ≡ true =
          all_weaken (λ x. not (key_lt x i)) (λ x. not (key_lt x j)) active
            (λ x h. key_lt_trans x i j h before) (first_key_least active there) in
        subst (λ m. all (λ x. not (key_lt x m)) (j ∷ active) ≡ true) same
          (rw (key_lt_irreflexive j, rest) refl)
    | inr later ↦
        let same : i ≡ k = ground arith in
        subst (λ m. all (λ x. not (key_lt x m)) (j ∷ active) ≡ true) same
          (rw (later, first_key_least active there) refl)
  ]
]

same_key_self : (k : Key) → same_key k k ≡ true
same_key_self k = ground arith

pub first_key-has : (active : List Key) {k : Key} → first_key active ≡ some k → has k active ≡ true
unfolding first_key lesser_key
first_key-has [] found = absurd (ground arith)
first_key-has (j ∷ active) {k} found = elim (Option-cases (first_key active)) [
  | inl empty ↦ let same : j ≡ k = ground arith in rw (← same, same_key_self j) refl
  | inr (i, there) ↦ elim (Bool-cases (key_lt j i)) [
    | inl before ↦ let same : j ≡ k = ground arith in rw (← same, same_key_self j) refl
    | inr later ↦
        let same : i ≡ k = ground arith in
        let held : has k active ≡ true =
          subst (λ m. has m active ≡ true) same (first_key-has active there) in
        ground arith
  ]
]
