-- ===== src/Prelude/Sort.antt =====
-- Rust's `sort_by` and `sort_unstable` for a total order given as a test. Insertion keeps equal
-- elements in their order, which is what the documentation promises of a stable sort.
use Prim.Native.Nat.{suc}
use mathlib.Core.Path.{◌≡◌, refl}
use mathlib.Core.Bool.{Bool, true, false, ◌&&◌, ◌||◌}
use mathlib.Core.List.{List, [], ◌∷◌}
use native.Mathlib.Omega.{arith}
use foxhole.Prelude.Tests.{if◌then◌else◌, Bool-cases}
use mathlib.Core.Logic.{inl, inr}
use foxhole.Prelude.Lists.{any, all, All, all_weaken, count}

module _ {ℓ} {A : Type ℓ} (before : A → A → Bool) where
  -- `before x y`: x may stand in front of y.
  unfoldable pub insert_sorted : A → List A → List A
  insert_sorted x [] = x ∷ []
  insert_sorted x (y ∷ ys) =
      let rest = insert_sorted x ys in if before x y then x ∷ (y ∷ ys) else y ∷ rest

  unfoldable pub sort_by : List A → List A
  sort_by [] = []
  sort_by (x ∷ xs) = insert_sorted x (sort_by xs)

  -- Every element may stand in front of all that follow it.
  abbrev pub IsSortedBy : List A → Type 0
  IsSortedBy [] = Unit {0}
  IsSortedBy (x ∷ xs) = (all (before x) xs ≡ true) × IsSortedBy xs

module _ {ℓ} {A : Type ℓ} (before : A → A → Bool) where
  any-insert_sorted :
      (p : A → Bool) (x : A) (xs : List A) → any p (insert_sorted before x xs) ≡ (p x || any p xs)
  unfolding insert_sorted
  any-insert_sorted p x [] = refl
  any-insert_sorted p x (y ∷ ys) = ground (arith, any-insert_sorted p x ys)

  -- Sorting keeps what the list holds.
  pub any-sort_by : (p : A → Bool) (xs : List A) → any p (sort_by before xs) ≡ any p xs
  unfolding sort_by
  any-sort_by p [] = refl
  any-sort_by p (x ∷ xs) =
      ground (arith, any-insert_sorted p x (sort_by before xs), any-sort_by p xs)

  all-insert_sorted :
      (p : A → Bool) (x : A) (xs : List A) → all p (insert_sorted before x xs) ≡ (p x && all p xs)
  unfolding insert_sorted
  all-insert_sorted p x [] = refl
  all-insert_sorted p x (y ∷ ys) = ground (arith, all-insert_sorted p x ys)

  pub all-sort_by : (p : A → Bool) (xs : List A) → all p (sort_by before xs) ≡ all p xs
  unfolding sort_by
  all-sort_by p [] = refl
  all-sort_by p (x ∷ xs) =
      ground (arith, all-insert_sorted p x (sort_by before xs), all-sort_by p xs)

  count-insert_sorted :
      (p : A → Bool) (x : A) (xs : List A)
      → count p (insert_sorted before x xs) ≡ (if p x then suc (count p xs) else count p xs)
  unfolding insert_sorted
  count-insert_sorted p x [] = refl
  count-insert_sorted p x (y ∷ ys) = ground (arith, count-insert_sorted p x ys)

  pub count-sort_by : (p : A → Bool) (xs : List A) → count p (sort_by before xs) ≡ count p xs
  unfolding sort_by
  count-sort_by p [] = refl
  count-sort_by p (x ∷ xs) =
      ground (arith, count-insert_sorted p x (sort_by before xs), count-sort_by p xs)

  -- A sort puts elements in the order of every key that its test compares first.
  module _ (weak : A → A → Bool)
      (trans : (x y z : A) → weak x y ≡ true → weak y z ≡ true → weak x z ≡ true)
      (forth : (x y : A) → before x y ≡ true → weak x y ≡ true)
      (back : (x y : A) → before x y ≡ false → weak y x ≡ true) where
    insert_sorted-IsSortedBy :
        (x : A) (xs : List A) → IsSortedBy weak xs → IsSortedBy weak (insert_sorted before x xs)
    unfolding insert_sorted
    insert_sorted-IsSortedBy x [] s = (refl, tt)
    insert_sorted-IsSortedBy x (y ∷ ys) s = elim (Bool-cases (before x y)) [
      | inl first ↦
          let front : weak x y ≡ true = forth x y first in
          let rest : all (weak x) ys ≡ true =
            all_weaken (weak y) (weak x) ys (λ z. trans x y z front) s.0 in
          rw first (ground arith, s)
      | inr later ↦
          let front : weak y x ≡ true = back x y later in
          rw later
            (ground (arith, all-insert_sorted (weak y) x ys), insert_sorted-IsSortedBy x ys s.1)
    ]

    pub sort_by-IsSortedBy : (xs : List A) → IsSortedBy weak (sort_by before xs)
    unfolding sort_by
    sort_by-IsSortedBy [] = tt
    sort_by-IsSortedBy (x ∷ xs) =
        insert_sorted-IsSortedBy x (sort_by before xs) (sort_by-IsSortedBy xs)

module _ {ℓ κ} {A : Type ℓ} (before : A → A → Bool) (P : A → Type κ) where
  All-insert_sorted : (x : A) (xs : List A) → P x → All P xs → All P (insert_sorted before x xs)
  unfolding insert_sorted
  All-insert_sorted x [] px held = (px, tt)
  All-insert_sorted x (y ∷ ys) px held = elim (Bool-cases (before x y)) [
    | inl first ↦ rw first (px, held)
    | inr later ↦ rw later (held.0, All-insert_sorted x ys px held.1)
  ]

  pub All-sort_by : (xs : List A) → All P xs → All P (sort_by before xs)
  unfolding sort_by
  All-sort_by [] held = tt
  All-sort_by (x ∷ xs) held = All-insert_sorted x (sort_by before xs) held.0 (All-sort_by xs held.1)
