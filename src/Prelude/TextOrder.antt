-- ===== src/Prelude/TextOrder.antt =====
-- The order of texts is total.
use foxhole.Prelude.Tests.{Bool-cases}
use mathlib.Core.Path.{◌≡◌, refl, sym, ap, ◌∙◌}
use mathlib.Core.Bool.{true, false}
use mathlib.Core.List.{[], ◌∷◌}
use mathlib.Core.Logic.{inl, inr}
use native.Mathlib.Omega.{arith}
use foxhole.Prelude.Strings.{Text, text_lt, ◌=text◌, =text_iff}

pub text_lt_asym : (s t : Text) → text_lt s t ≡ true → text_lt t s ≡ false
text_lt_asym [] [] h = absurd (ground arith)
text_lt_asym [] (d ∷ t) h = refl
text_lt_asym (c ∷ s) [] h = absurd (ground arith)
text_lt_asym (c ∷ s) (d ∷ t) h = let ih = text_lt_asym s t in ground arith

pub text_lt_connected :
    (s t : Text) → text_lt s t ≡ false → text_lt t s ≡ false → (s =text t) ≡ true
text_lt_connected [] [] h k = refl
text_lt_connected [] (d ∷ t) h k = absurd (ground arith)
text_lt_connected (c ∷ s) [] h k = absurd (ground arith)
text_lt_connected (c ∷ s) (d ∷ t) h k = let ih = text_lt_connected s t in ground arith

pub text_lt_trans : (s t u : Text) → text_lt s t ≡ true → text_lt t u ≡ true → text_lt s u ≡ true
text_lt_trans [] [] u h k = absurd (ground arith)
text_lt_trans [] (d ∷ t) [] h k = absurd (ground arith)
text_lt_trans [] (d ∷ t) (e ∷ u) h k = refl
text_lt_trans (c ∷ s) [] u h k = absurd (ground arith)
text_lt_trans (c ∷ s) (d ∷ t) [] h k = absurd (ground arith)
text_lt_trans (c ∷ s) (d ∷ t) (e ∷ u) h k = let ih = text_lt_trans s t u in ground arith

pub =text_refl : (s : Text) → (s =text s) ≡ true
=text_refl s = (=text_iff s s).1 refl

pub =text_sym : (s t : Text) → (s =text t) ≡ (t =text s)
=text_sym s t = ground (arith, =text_iff s t, =text_iff t s)

pub =text_trans : (s t u : Text) → (s =text t) ≡ true → (t =text u) ≡ (s =text u)
=text_trans s t u h = ap (λ v. v =text u) (sym ((=text_iff s t).0 h))

pub text_lt_same : (s t u : Text) → (s =text t) ≡ true → text_lt s u ≡ text_lt t u
text_lt_same s t u h = ap (λ v. text_lt v u) ((=text_iff s t).0 h)

pub text_lt_alike : (s t u : Text) → (s =text t) ≡ true → text_lt u s ≡ text_lt u t
text_lt_alike s t u h = ap (λ v. text_lt u v) ((=text_iff s t).0 h)

pub text_lt_apart : (s t : Text) → (s =text t) ≡ true → text_lt s t ≡ false
text_lt_apart s t h = let asym = text_lt_asym s s in sym (text_lt_alike s t s h) ∙ ground arith

-- `¬ (t < s)` and `¬ (u < t)` give `¬ (u < s)`.
pub text_le_trans : (s t u : Text) → text_lt t s ≡ false → text_lt u t ≡ false → text_lt u s ≡ false
text_le_trans s t u h k = elim (Bool-cases (text_lt s t)) [
  | inl before ↦ elim (Bool-cases (text_lt t u)) [
    | inl behind ↦ text_lt_asym s u (text_lt_trans s t u before behind)
    | inr unbehind ↦
        let same = text_lt_connected t u unbehind k in
        text_lt_asym s u (sym (text_lt_alike t u s same) ∙ before)
  ]
  | inr unbefore ↦ let same = text_lt_connected s t unbefore h in text_lt_alike s t u same ∙ k
]
