-- ===== src/Sandbox/FileName.antt =====
-- The rules for a file-name component in src/artifact.rs. The checks of the source return an
-- error of one kind with a message; here they say whether a name passes.
use foxhole.Prelude.{
  ℕ, Bool, false, not, ◌&&◌, ◌||◌, Option, none, some, [], ◌∷◌, ltb, ◌==◌, within, any, is_empty,
  Text, codes, byte_len, has_char, ends_with_char, is_control, to_ascii_uppercase, before_char,
  strip_prefix, has_text,
}

abbrev is_direction_mark : ℕ → Bool
is_direction_mark c =
    (c == 0x061c)
    || (c == 0x200e)
    || (c == 0x200f)
    || within 0x202a 0x202e c
    || within 0x2066 0x2069 c

unfoldable pub passes_common : Text → Bool
passes_common value = not (
    is_empty value
    || ltb 240 (byte_len value)
    || any (λ c. is_control c || is_direction_mark c) value)

-- the superscript digits stand for ports too
abbrev is_port_number : Text → Bool
is_port_number [] = false
is_port_number (c ∷ []) = within b'1' b'9' c || (c == 0xb9 || c == 0xb2 || c == 0xb3)
is_port_number (c ∷ (d ∷ rest)) = false

abbrev port_suffix : Text → Option Text
port_suffix base = elim (strip_prefix (codes "COM") base) [
  | some suffix ↦ some suffix
  | none ↦ strip_prefix (codes "LPT") base
]

abbrev is_reserved_base : Text → Bool
is_reserved_base base =
    has_text base (
      codes "CON" ∷ codes "PRN" ∷ codes "AUX" ∷ codes "NUL" ∷ codes "CONIN$" ∷ codes "CONOUT$" ∷ [])
    || elim (port_suffix base) [ none ↦ false | some suffix ↦ is_port_number suffix ]

abbrev windows_marks : Text
windows_marks = codes "<>\":|?*"

unfoldable pub passes_windows_rules : Text → Bool
passes_windows_rules value =
    not (
      any (λ c. has_char c windows_marks) value
      || (ends_with_char b'.' value || ends_with_char b' ' value))
    && not (is_reserved_base (to_ascii_uppercase (before_char b'.' value)))

-- `validate_windows_file_name_component`
unfoldable pub is_windows_file_name : Text → Bool
unfolding passes_common passes_windows_rules
is_windows_file_name name = passes_common name && passes_windows_rules name
