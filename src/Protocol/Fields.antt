-- ===== src/Protocol/Fields.antt =====
-- The validators of single fields in src/sandbox/hyperv/guest_protocol.rs.
pub mod Paths
use foxhole.Prelude.{
  ℕ, Bool, not, ◌&&◌, ◌||◌, List, [], ◌∷◌, ltb, ◌==◌, within, if◌then◌else◌, all, any, length,
  is_empty, ok, err, ◌>>◌, refuse_if, Text, codes, byte_len, ◌=text◌, has_char, starts_with,
  ends_with_char, is_ascii_alphanumeric, is_ascii_hexdigit, is_control, to_ascii_uppercase,
  split_on, before_char,
}
use foxhole.Protocol.Errors.{
  ProtocolResult, unsupported_protocol, invalid_run_id, invalid_checksum, invalid_relative_path,
  invalid_warnings, invalid_field, protocol_version, max_run_id_bytes, max_wire_path_bytes,
  max_warnings, max_warning_bytes,
}

unfoldable pub validate_protocol_version : ℕ → ProtocolResult Unit
validate_protocol_version version =
    if version == protocol_version then ok tt else err unsupported_protocol

abbrev pub run_id_char : ℕ → Bool
run_id_char c = is_ascii_alphanumeric c || (c == b'-' || c == b'_')

unfoldable pub validate_run_id : Text → ProtocolResult Unit
validate_run_id run_id =
    refuse_if (not (within 8 max_run_id_bytes (byte_len run_id)) || not (all run_id_char run_id))
      invalid_run_id

unfoldable pub validate_sha256 : Text → ProtocolResult Unit
validate_sha256 digest =
    if byte_len digest == 64 && all is_ascii_hexdigit digest then ok tt else err invalid_checksum

abbrev reserved_names : List Text
reserved_names =
    codes "CON"
    ∷ codes "PRN"
    ∷ codes "AUX"
    ∷ codes "NUL"
    ∷ codes "COM1"
    ∷ codes "COM2"
    ∷ codes "COM3"
    ∷ codes "COM4"
    ∷ codes "COM5"
    ∷ codes "COM6"
    ∷ codes "COM7"
    ∷ codes "COM8"
    ∷ codes "COM9"
    ∷ codes "LPT1"
    ∷ codes "LPT2"
    ∷ codes "LPT3"
    ∷ codes "LPT4"
    ∷ codes "LPT5"
    ∷ codes "LPT6"
    ∷ codes "LPT7"
    ∷ codes "LPT8"
    ∷ codes "LPT9"
    ∷ []

unfoldable pub is_reserved_windows_component : Text → Bool
is_reserved_windows_component component =
    any (λ name. name =text to_ascii_uppercase (before_char b'.' component)) reserved_names

-- the test of the loop over `value.split('/')`
unfoldable pub is_unsafe_component : Text → Bool
is_unsafe_component component =
    is_empty component
    || ((component =text codes ".") || (component =text codes ".."))
    || (ends_with_char b'.' component || ends_with_char b' ' component)
    || is_reserved_windows_component component

-- the test above the loop
unfoldable pub is_malformed_path : Text → Bool
is_malformed_path value =
    is_empty value
    || ltb max_wire_path_bytes (byte_len value)
    || starts_with (codes "/") value
    || ends_with_char b'/' value
    || (has_char b'\\' value || has_char 0 value || has_char b':' value)
    || any is_control value

unfoldable pub validate_components : List Text → ProtocolResult Unit
validate_components [] = ok tt
validate_components (component ∷ rest) =
    let others = validate_components rest in
    if is_unsafe_component component then err invalid_relative_path else others

unfoldable pub validate_relative_wire_path : Text → ProtocolResult Unit
unfolding validate_components
validate_relative_wire_path value = do
  refuse_if (is_malformed_path value) invalid_relative_path
  validate_components (split_on b'/' value)

-- The native root is a list of components, the last one first: `push` adds one.
push_all : List Text → List Text → List Text
push_all output [] = output
push_all output (component ∷ rest) = push_all (component ∷ output) rest

unfoldable pub wire_path_to_native : List Text → Text → ProtocolResult (List Text)
unfolding push_all
wire_path_to_native root value = do
  validate_relative_wire_path value
  ok (push_all root (split_on b'/' value))

unfoldable pub validate_warnings : List Text → ProtocolResult Unit
validate_warnings warnings =
    refuse_if
      (ltb max_warnings (length warnings)
        || any (λ warning. ltb max_warning_bytes (byte_len warning) || has_char 0 warning) warnings)
      invalid_warnings

unfoldable pub validate_small_field : Text → ℕ → ProtocolResult Unit
validate_small_field value maximum =
    if is_empty value || ltb maximum (byte_len value) || has_char 0 value
    then err invalid_field
    else ok tt
