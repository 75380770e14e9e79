-- ===== src/Protocol/Fields/Paths.antt =====
-- What a wire path that passes `validate_relative_wire_path` of
-- src/sandbox/hyperv/guest_protocol.rs can name.
use mathlib.Core.List.{reverse, reverse-cons, append_assoc}
use foxhole.Prelude.{
  ℕ, ◌≡◌, ◌≢◌, refl, ap, ◌∙◌, false, inl, inr, List, [], ◌∷◌, ◌++◌, All, arith, ◌==◌, ==_iff, ok,
  refuse_if, >>-eq-ok, refuse_if_ok, Bool-cases, Text, codes, =text_iff, has_char, ends_with_char,
  split_on, push_first,
}
use foxhole.Protocol.Errors.{invalid_relative_path}
use foxhole.Protocol.Fields.{
  is_unsafe_component, is_malformed_path, is_reserved_windows_component, validate_components,
  validate_relative_wire_path, push_all, wire_path_to_native,
}

-- A component that a path may be built from.
pub record IsSafe (component : Text) : Type 0 where
  pub present : component ≢ []
  pub not_here : component ≢ codes "."
  pub not_parent : component ≢ codes ".."
  pub no_final_dot : ends_with_char b'.' component ≡ false
  pub no_final_space : ends_with_char b' ' component ≡ false
  pub not_device : is_reserved_windows_component component ≡ false
  pub no_slash : has_char b'/' component ≡ false
  pub no_backslash : has_char b'\\' component ≡ false
  pub no_stream : has_char b':' component ≡ false
  pub no_nul : has_char 0 component ≡ false

-- The components with `/` between them.
abbrev pub join : List Text → Text
join [] = []
join (c ∷ []) = c
join (c ∷ (d ∷ cs)) = c ++ (b'/' ∷ join (d ∷ cs))

join-push_first : (c : ℕ) (ss : List Text) → ss ≢ [] → join (push_first c ss) ≡ c ∷ join ss
join-push_first c [] h = absurd (h refl)
join-push_first c (s ∷ []) h = refl
join-push_first c (s ∷ (t ∷ ss)) h = refl

split_on-ne-nil : (sep : ℕ) (s : Text) → split_on sep s ≢ []
split_on-ne-nil sep [] h = ground arith
split_on-ne-nil sep (c ∷ s) h = ground (arith, h)

-- A character that ends a component starts the next, and any other stays in its component.
split_on-sep : (sep : ℕ) (s : Text) → split_on sep (sep ∷ s) ≡ [] ∷ split_on sep s
split_on-sep sep s = rw ((==_iff sep sep).1 refl)

split_on-other :
    (sep c : ℕ) (s : Text)
    → (c == sep) ≡ false
    → split_on sep (c ∷ s) ≡ push_first c (split_on sep s)
split_on-other sep c s h = rw h

join-cons : (ss : List Text) → ss ≢ [] → join ([] ∷ ss) ≡ b'/' ∷ join ss
join-cons [] h = absurd (h refl)
join-cons (s ∷ ss) h = refl

join-split_on : (s : Text) → join (split_on b'/' s) ≡ s
join-split_on [] = refl
join-split_on (c ∷ s) = elim (Bool-cases (c == b'/')) [
  | inl e ↦ rw ((==_iff c b'/').0 e) (
      ap join (split_on-sep b'/' s)
      ∙ join-cons (split_on b'/' s) (split_on-ne-nil b'/' s)
      ∙ ap (λ l. b'/' ∷ l) (join-split_on s))
  | inr e ↦
      ap join (split_on-other b'/' c s e)
      ∙ join-push_first c (split_on b'/' s) (split_on-ne-nil b'/' s)
      ∙ ap (λ l. c ∷ l) (join-split_on s)
]

abbrev Lacks : ℕ → Text → Type 0
Lacks d s = has_char d s ≡ false

Lacks-push_first :
    (d c : ℕ) (ss : List Text)
    → (c == d) ≡ false
    → All (Lacks d) ss
    → All (Lacks d) (push_first c ss)
Lacks-push_first d c [] e h = (ground arith, tt)
Lacks-push_first d c (s ∷ ss) e h = (ground arith, h.1)

split_on-Lacks : (sep d : ℕ) (s : Text) → Lacks d s → All (Lacks d) (split_on sep s)
split_on-Lacks sep d [] h = (refl, tt)
split_on-Lacks sep d (c ∷ s) h =
    let rest : All (Lacks d) (split_on sep s) = split_on-Lacks sep d s (ground arith) in
    elim (Bool-cases (c == sep)) [
      | inl e ↦ rw e (refl, rest)
      | inr e ↦ rw e (Lacks-push_first d c (split_on sep s) (ground arith) rest)
    ]

split_on-Lacks_self : (sep : ℕ) (s : Text) → All (Lacks sep) (split_on sep s)
split_on-Lacks_self sep [] = (refl, tt)
split_on-Lacks_self sep (c ∷ s) = elim (Bool-cases (c == sep)) [
  | inl e ↦ rw e (refl, split_on-Lacks_self sep s)
  | inr e ↦ rw e (Lacks-push_first sep c (split_on sep s) e (split_on-Lacks_self sep s))
]

validate_components_ok :
    (cs : List Text) → validate_components cs ≡ ok tt → All (λ c. is_unsafe_component c ≡ false) cs
unfolding validate_components
validate_components_ok [] h = tt
validate_components_ok (c ∷ cs) h = (ground arith, validate_components_ok cs (ground arith))

IsSafe-of :
    (c : Text)
    → is_unsafe_component c ≡ false
    → Lacks b'/' c
    → Lacks b'\\' c
    → Lacks b':' c
    → Lacks 0 c
    → IsSafe c
unfolding is_unsafe_component
IsSafe-of c u a b d e = record {
  present = λ x. ground (arith, x);
  not_here = λ x. ground (arith, (=text_iff c (codes ".")).1 x);
  not_parent = λ x. ground (arith, (=text_iff c (codes "..")).1 x);
  no_final_dot = ground arith;
  no_final_space = ground arith;
  not_device = ground arith;
  no_slash = a;
  no_backslash = b;
  no_stream = d;
  no_nul = e;
}

All-IsSafe :
    (cs : List Text)
    → All (λ c. is_unsafe_component c ≡ false) cs
    → All (Lacks b'/') cs
    → All (Lacks b'\\') cs
    → All (Lacks b':') cs
    → All (Lacks 0) cs
    → All IsSafe cs
All-IsSafe [] u a b d e = tt
All-IsSafe (c ∷ cs) u a b d e = (IsSafe-of c u.0 a.0 b.0 d.0 e.0, All-IsSafe cs u.1 a.1 b.1 d.1 e.1)

-- Every component of an accepted wire path is safe.
pub validate_relative_wire_path_ok :
    (value : Text) → validate_relative_wire_path value ≡ ok tt → All IsSafe (split_on b'/' value)
unfolding validate_relative_wire_path is_malformed_path
validate_relative_wire_path_ok value h =
    let (shape, parts) =
      >>-eq-ok (refuse_if (is_malformed_path value) invalid_relative_path)
        (validate_components (split_on b'/' value)) h in
    let fine : is_malformed_path value ≡ false =
      refuse_if_ok (is_malformed_path value) invalid_relative_path shape in
    All-IsSafe (split_on b'/' value) (validate_components_ok (split_on b'/' value) parts)
      (split_on-Lacks_self b'/' value) (split_on-Lacks b'/' b'\\' value (ground arith))
      (split_on-Lacks b'/' b':' value (ground arith)) (split_on-Lacks b'/' 0 value (ground arith))

push_all-reverse : (root cs : List Text) → push_all root cs ≡ reverse cs ++ root
unfolding push_all
push_all-reverse root [] = refl
push_all-reverse root (c ∷ cs) =
    push_all-reverse (c ∷ root) cs ∙ rw (reverse-cons c cs, append_assoc (reverse cs) (c ∷ []) root)

-- An accepted wire path leads to a native path below the root: the root's own components stay,
-- and what is put on them is a list of safe components that spell the wire path.
pub wire_path_to_native_below :
    (root : List Text) (value : Text) {out : List Text}
    → wire_path_to_native root value ≡ ok out
    → (cs : List Text) × (out ≡ reverse cs ++ root) × All IsSafe cs × (join cs ≡ value)
unfolding wire_path_to_native
wire_path_to_native_below root value {out} h =
    let (valid, made) =
      >>-eq-ok (validate_relative_wire_path value) (ok (push_all root (split_on b'/' value))) h in
    (
      split_on b'/' value,
      (ground (arith, made) ∙ push_all-reverse root (split_on b'/' value)),
      validate_relative_wire_path_ok value valid,
      join-split_on value,
    )
