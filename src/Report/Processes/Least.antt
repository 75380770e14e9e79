-- ===== src/Report/Processes/Least.antt =====
-- The least of some pairs, and when two lists have the same.
use foxhole.Prelude.{
  ℕ, ◌≡◌, refl, sym, ap, ◌∙◌, Bool, true, false, not, ◌&&◌, ◌||◌, List, [], ◌∷◌, map, none, some,
  ◌==◌, any, all, arith, Bool-cases, Option-cases, inl, inr,
}
use mathlib.Core.Path.{subst}
use foxhole.Report.Processes.{least_pair, pair_lt}

abbrev pub same_pair : ℕ × ℕ → ℕ × ℕ → Bool
same_pair x y = x.0 == y.0 && x.1 == y.1

module _ {ℓ} {A : Type ℓ} where
  pub any_weaken :
      (p q : A → Bool) (xs : List A)
      → ((x : A) → p x ≡ true → q x ≡ true)
      → any p xs ≡ true
      → any q xs ≡ true
  any_weaken p q [] weaker found = found
  any_weaken p q (x ∷ xs) weaker found = ground (arith, weaker x, any_weaken p q xs weaker)

  pub any_constant : (b : Bool) (xs : List A) → any (λ x. b) xs ≡ true → b ≡ true
  any_constant b [] found = absurd (ground arith)
  any_constant b (x ∷ xs) found = ground (arith, any_constant b xs)

  pub all-not :
      (a b : A → Bool) (xs : List A)
      → all (λ x. not (a x) || b x) xs ≡ true
      → any (λ x. a x && not (b x)) xs ≡ false
  all-not a b [] h = refl
  all-not a b (x ∷ xs) h = ground (arith, all-not a b xs)

  pub all-none :
      (a b : A → Bool) (xs : List A)
      → all (λ x. not (a x)) xs ≡ true
      → any (λ x. a x && b x) xs ≡ false
  all-none a b [] h = refl
  all-none a b (x ∷ xs) h = ground (arith, all-none a b xs)

pub any-map {ℓ κ} :
    {A : Type ℓ} {B : Type κ} (p : B → Bool) (f : A → B) (xs : List A)
    → any p (map f xs) ≡ any (λ x. p (f x)) xs
any-map p f [] = refl
any-map p f (x ∷ xs) = ap (λ b. p (f x) || b) (any-map p f xs)

pair_lt_irreflexive : (x : ℕ × ℕ) → pair_lt x x ≡ false
pair_lt_irreflexive x = ground arith

same_pair_self : (x : ℕ × ℕ) → same_pair x x ≡ true
same_pair_self x = ground arith

-- The least of a list is one of its pairs, and none is below it.
pub least_pair-any :
    (xs : List (ℕ × ℕ)) {m : ℕ × ℕ} → least_pair xs ≡ some m → any (same_pair m) xs ≡ true
least_pair-any [] found = absurd (ground arith)
least_pair-any (x ∷ xs) {m} found = elim (Option-cases (least_pair xs)) [
  | inl empty ↦ let same : x ≡ m = ground arith in rw (← same, same_pair_self x) refl
  | inr (n, there) ↦ elim (Bool-cases (pair_lt n x)) [
    | inl lesser ↦
        let same : n ≡ m = ground arith in
        let held : any (same_pair m) xs ≡ true =
          subst (λ p. any (same_pair p) xs ≡ true) same (least_pair-any xs there) in
        ground arith
    | inr not_lesser ↦ let same : x ≡ m = ground arith in rw (← same, same_pair_self x) refl
  ]
]

least_pair_empty : (xs : List (ℕ × ℕ)) → least_pair xs ≡ none → xs ≡ []
least_pair_empty [] empty = refl
least_pair_empty (x ∷ xs) empty = elim (Option-cases (least_pair xs)) [
  | inl e ↦ absurd (ground arith)
  | inr (n, e) ↦ absurd (ground arith)
]

below_mono :
    (xs : List (ℕ × ℕ)) (x n : ℕ × ℕ)
    → pair_lt n x ≡ false
    → any (λ y. pair_lt y n) xs ≡ false
    → any (λ y. pair_lt y x) xs ≡ false
below_mono [] x n h least = refl
below_mono (y ∷ xs) x n h least = ground (arith, below_mono xs x n)

pub least_pair_least :
    (xs : List (ℕ × ℕ)) {m : ℕ × ℕ} → least_pair xs ≡ some m → any (λ y. pair_lt y m) xs ≡ false
least_pair_least [] found = refl
least_pair_least (x ∷ xs) {m} found = elim (Option-cases (least_pair xs)) [
  | inl empty ↦
      let same : x ≡ m = ground arith in
      let alone : xs ≡ [] = least_pair_empty xs empty in
      rw (← same, alone, pair_lt_irreflexive x) refl
  | inr (n, there) ↦ elim (Bool-cases (pair_lt n x)) [
    | inl lesser ↦
        let same : n ≡ m = ground arith in
        subst (λ p. any (λ y. pair_lt y p) (x ∷ xs) ≡ false) same
          (ground (arith, least_pair_least xs there))
    | inr not_lesser ↦
        let same : x ≡ m = ground arith in
        let rest = below_mono xs x n not_lesser (least_pair_least xs there) in
        subst (λ p. any (λ y. pair_lt y p) (x ∷ xs) ≡ false) same (rw (pair_lt_irreflexive x) rest)
  ]
]

none_below :
    (ys : List (ℕ × ℕ)) (m n : ℕ × ℕ)
    → any (same_pair m) ys ≡ true
    → any (λ y. pair_lt y n) ys ≡ false
    → pair_lt m n ≡ false
none_below [] m n held least = absurd (ground arith)
none_below (y ∷ ys) m n held least = ground (arith, none_below ys m n)

reached_below :
    (xs : List (ℕ × ℕ)) (n m : ℕ × ℕ)
    → any (λ x. not (pair_lt n x)) xs ≡ true
    → any (λ x. pair_lt x m) xs ≡ false
    → pair_lt n m ≡ false
reached_below [] n m held least = absurd (ground arith)
reached_below (x ∷ xs) n m held least = ground (arith, reached_below xs n m)

pair_eq : (m n : ℕ × ℕ) → pair_lt m n ≡ false → pair_lt n m ≡ false → m ≡ n
pair_eq m n h g = ground arith

-- The least pair of two lists is the same, if the first holds only pairs of the second and none
-- of these is below all of it.
pub least_pair_agree :
    (xs ys : List (ℕ × ℕ))
    → ((m : ℕ × ℕ) → any (same_pair m) xs ≡ true → any (same_pair m) ys ≡ true)
    → ((m : ℕ × ℕ) → any (same_pair m) ys ≡ true → any (λ x. not (pair_lt m x)) xs ≡ true)
    → least_pair xs ≡ least_pair ys
least_pair_agree xs ys within below = elim (Option-cases (least_pair xs)) [
  | inl empty ↦ elim (Option-cases (least_pair ys)) [
    | inl both ↦ empty ∙ sym both
    | inr (n, there) ↦
        let reached = below n (least_pair-any ys there) in
        let none_there = ap (any (λ x. not (pair_lt n x))) (least_pair_empty xs empty) in
        absurd (ground arith)
  ]
  | inr (m, here) ↦ elim (Option-cases (least_pair ys)) [
    | inl empty ↦
        let held = within m (least_pair-any xs here) in
        let none_there = ap (any (same_pair m)) (least_pair_empty ys empty) in absurd (ground arith)
    | inr (n, there) ↦
        here
        ∙ ap some (
            pair_eq m n
              (none_below ys m n (within m (least_pair-any xs here)) (least_pair_least ys there))
              (reached_below xs n m (below n (least_pair-any ys there)) (least_pair_least xs here)))
        ∙ sym there
  ]
]
