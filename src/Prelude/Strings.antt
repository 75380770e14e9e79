-- ===== src/Prelude/Strings.antt =====
-- Rust's `str` as the list of its code points. `len()` counts the bytes of UTF-8.
use Prim.Native.Nat.{ℕ, ◌+◌, ◌-◌, ◌*◌}
use Prim.Native.Char.{code}
use Prim.Native.String.{String}
use mathlib.Core.Path.{◌≡◌, refl, ap₂}
use mathlib.Core.Logic.{◌↔◌}
use mathlib.Core.Bool.{Bool, true, false, ◌&&◌, ◌||◌}
use mathlib.Core.Option.{Option, none, some}
use mathlib.Core.List.{List, [], ◌∷◌, map}
use native.Mathlib.Omega.{arith}
use foxhole.Prelude.Tests.{ltb, leb, ◌==◌, within, if◌then◌else◌}

abbrev pub Text : Type 0
Text = List ℕ

-- A literal of the source.
abbrev pub codes : String → Text
codes String.[] = []
codes (String.◌∷◌ c s) = code c ∷ codes s

-- The bytes that UTF-8 takes for a code point.
abbrev pub utf8_len : ℕ → ℕ
utf8_len c = if ltb c 0x80 then 1 else if ltb c 0x800 then 2 else if ltb c 0x10000 then 3 else 4

-- `str::len`
abbrev pub byte_len : Text → ℕ
byte_len [] = 0
byte_len (c ∷ s) = utf8_len c + byte_len s

infix 50 ◌=text◌
abbrev pub ◌=text◌ : Text → Text → Bool
[] =text [] = true
[] =text (d ∷ t) = false
(c ∷ s) =text [] = false
(c ∷ s) =text (d ∷ t) = (c == d) && (s =text t)

pub =text_iff : (s t : Text) → ((s =text t) ≡ true) ↔ (s ≡ t)
=text_iff s t = (to s t, from s t)
  where
    to : (s t : Text) → (s =text t) ≡ true → s ≡ t
    to [] [] h = refl
    to [] (d ∷ t) h = ground arith
    to (c ∷ s) [] h = ground arith
    to (c ∷ s) (d ∷ t) h = ap₂ (λ a l. a ∷ l) (ground arith) (to s t (ground arith))

    self : (s : Text) → (s =text s) ≡ true
    self [] = refl
    self (c ∷ s) = ground (arith, self s)

    from : (s t : Text) → s ≡ t → (s =text t) ≡ true
    from s t e = rw e (self t)

-- `<` of texts: the order of the bytes of UTF-8 is that of the code points.
abbrev pub text_lt : Text → Text → Bool
text_lt s [] = false
text_lt [] (d ∷ t) = true
text_lt (c ∷ s) (d ∷ t) = let rest = text_lt s t in ltb c d || (c == d && rest)

-- `contains(c)` of one character
abbrev pub has_char : ℕ → Text → Bool
has_char c [] = false
has_char c (d ∷ s) = (d == c) || has_char c s

abbrev pub starts_with : Text → Text → Bool
starts_with [] s = true
starts_with (c ∷ p) [] = false
starts_with (c ∷ p) (d ∷ s) = (c == d) && starts_with p s

abbrev pub last_char : Text → Option ℕ
last_char [] = none
last_char (c ∷ []) = some c
last_char (c ∷ (d ∷ s)) = last_char (d ∷ s)

-- `ends_with(c)` of one character
abbrev pub ends_with_char : ℕ → Text → Bool
ends_with_char c s = elim (last_char s) [ none ↦ false | some d ↦ d == c ]

abbrev pub is_digit : ℕ → Bool
is_digit c = within b'0' b'9' c

abbrev pub is_ascii_upper : ℕ → Bool
is_ascii_upper c = within b'A' b'Z' c

abbrev pub is_ascii_lower : ℕ → Bool
is_ascii_lower c = within b'a' b'z' c

-- Every byte of a character beyond ASCII is 0x80 or more, so a test of all bytes for an ASCII
-- class is a test of all characters.
abbrev pub is_ascii_alphanumeric : ℕ → Bool
is_ascii_alphanumeric c = is_digit c || (is_ascii_upper c || is_ascii_lower c)

abbrev pub is_ascii_hexdigit : ℕ → Bool
is_ascii_hexdigit c = is_digit c || (within b'A' b'F' c || within b'a' b'f' c)

-- `char::is_control`: the category Cc.
abbrev pub is_control : ℕ → Bool
is_control c = ltb c 0x20 || within 0x7f 0x9f c

abbrev pub to_ascii_lower : ℕ → ℕ
to_ascii_lower c = if is_ascii_upper c then c + 32 else c

abbrev pub to_ascii_upper : ℕ → ℕ
to_ascii_upper c = if is_ascii_lower c then c - 32 else c

-- `to_ascii_lowercase`, `to_ascii_uppercase` and `eq_ignore_ascii_case`
abbrev pub to_ascii_lowercase : Text → Text
to_ascii_lowercase = map to_ascii_lower

abbrev pub to_ascii_uppercase : Text → Text
to_ascii_uppercase = map to_ascii_upper

abbrev pub eq_ignore_ascii_case : Text → Text → Bool
eq_ignore_ascii_case s t = to_ascii_lowercase s =text to_ascii_lowercase t

abbrev pub push_first : ℕ → List Text → List Text
push_first c [] = (c ∷ []) ∷ []
push_first c (s ∷ ss) = (c ∷ s) ∷ ss

-- `split(c)`: the pieces between separators, always at least one
abbrev pub split_on : ℕ → Text → List Text
split_on sep [] = [] ∷ []
split_on sep (c ∷ s) =
    let rest = split_on sep s in if c == sep then [] ∷ rest else push_first c rest

-- the part before the first separator, or all of the text
abbrev pub before_char : ℕ → Text → Text
before_char sep [] = []
before_char sep (c ∷ s) = let rest = before_char sep s in if c == sep then [] else c ∷ rest

-- `char::is_whitespace`: the property White_Space.
abbrev pub is_whitespace : ℕ → Bool
is_whitespace c =
    within 9 13 c
    || within 0x2000 0x200a c
    || c == 0x20
    || c == 0x85
    || c == 0xa0
    || c == 0x1680
    || within 0x2028 0x2029 c
    || c == 0x202f
    || c == 0x205f
    || c == 0x3000

-- `trim().is_empty()`
abbrev pub is_blank : Text → Bool
is_blank [] = true
is_blank (c ∷ s) = is_whitespace c && is_blank s

abbrev pub strip_prefix : Text → Text → Option Text
strip_prefix [] s = some s
strip_prefix (c ∷ p) [] = none
strip_prefix (c ∷ p) (d ∷ s) = let rest = strip_prefix p s in if c == d then rest else none

abbrev prepend : ℕ → Option (Text × Text) → Option (Text × Text)
prepend c none = none
prepend c (some (before, behind)) = some (c ∷ before, behind)

-- `split_once(c)`, at the first separator
abbrev pub split_once : ℕ → Text → Option (Text × Text)
split_once sep [] = none
split_once sep (c ∷ s) =
    let rest = prepend c (split_once sep s) in if c == sep then some ([], s) else rest

-- `rsplit_once(c)`, at the last separator
abbrev pub rsplit_once : ℕ → Text → Option (Text × Text)
rsplit_once sep [] = none
rsplit_once sep (c ∷ s) = elim (rsplit_once sep s) [
  | some (before, behind) ↦ some (c ∷ before, behind)
  | none ↦ if c == sep then some ([], s) else none
]

-- The digits of a `u8`, while the value fits.
abbrev u8_digits : ℕ → Text → Option ℕ
u8_digits n [] = some n
u8_digits n (c ∷ s) =
    let m = n * 10 + (c - b'0') in
    let rest = u8_digits m s in if is_digit c && leb m 255 then rest else none

-- `parse::<u8>()`: at least one digit, and a `+` before them is allowed.
abbrev pub parse_u8 : Text → Option ℕ
parse_u8 [] = none
parse_u8 (c ∷ []) = u8_digits 0 (c ∷ [])
parse_u8 (c ∷ (d ∷ s)) = if c == b'+' then u8_digits 0 (d ∷ s) else u8_digits 0 (c ∷ (d ∷ s))

-- whether a list of texts holds one, `HashSet::contains` and `slice::contains`
abbrev pub has_text : Text → List Text → Bool
has_text s [] = false
has_text s (t ∷ ts) = (t =text s) || has_text s ts
