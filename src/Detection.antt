-- ===== src/Detection.antt =====
-- src/detection/config.rs: the limits and scanners of a static analysis, and their validation.
pub mod Soundness
mod Tests
use foxhole.Prelude.{
  ℕ, ◌*◌, Bool, true, false, not, ◌&&◌, ◌||◌, List, [], ◌∷◌, Option, none, some, ltb, ◌==◌, within,
  all, any, is_empty, Result, ok, err, ◌>>=◌, ◌>>◌, refuse_if, if◌then◌else◌, Text, codes, byte_len,
  ◌=text◌, is_control, starts_with, is_ascii_alphanumeric, is_ascii_hexdigit, push_first,
}

-- The messages of the source, by what they say.
pub data DetectionError : Type 0 where
  small_output bad_limit bad_version bad_budget same_identifiers bad_executable bad_rule_pack :
      DetectionError
  unsupported_user_rules : DetectionError

abbrev pub DetectionResult : Type 0
DetectionResult = Result DetectionError (Unit {0})

pub record Limits : Type 0 where
  pub timeout_seconds : ℕ
  pub memory_bytes : ℕ
  pub input_bytes : ℕ
  pub output_bytes : ℕ
  pub findings : ℕ
  pub strings : ℕ
  pub string_bytes : ℕ
  pub match_bytes : ℕ
  pub offsets : ℕ
  pub features : ℕ
  pub depth : ℕ
  pub rules : ℕ
  pub files : ℕ
  pub packets : ℕ
  pub flows : ℕ

abbrev pub mebibyte : ℕ
mebibyte = 1024 * 1024

abbrev pub default_limits : Limits
default_limits = record {
  timeout_seconds = 60;
  memory_bytes = 512 * mebibyte;
  input_bytes = 32 * mebibyte;
  output_bytes = 4 * mebibyte;
  findings = 512;
  strings = 2048;
  string_bytes = 2048;
  match_bytes = 64;
  offsets = 256;
  features = 256;
  depth = 16;
  rules = 10000;
  files = 32;
  packets = 100000;
  flows = 4096;
}

abbrev pub hard : Limits
hard = record {
  timeout_seconds = 300;
  memory_bytes = 2048 * mebibyte;
  input_bytes = 128 * mebibyte;
  output_bytes = 16 * mebibyte;
  findings = 4096;
  strings = 8192;
  string_bytes = 4096;
  match_bytes = 256;
  offsets = 1024;
  features = 1024;
  depth = 24;
  rules = 50000;
  files = 64;
  packets = 1000000;
  flows = 16384;
}

-- the fields of the macro `check!`, in its order
abbrev pub fields : Limits → List ℕ
fields l =
    l.timeout_seconds ∷ l.memory_bytes ∷ l.input_bytes ∷ l.output_bytes ∷ l.findings ∷ l.strings
    ∷ l.string_bytes ∷ l.match_bytes ∷ l.offsets ∷ l.features ∷ l.depth ∷ l.rules ∷ l.files
    ∷ l.packets ∷ l.flows ∷ []

unfoldable pub check_fields : List ℕ → List ℕ → DetectionResult
check_fields (field ∷ fields) (ceiling ∷ ceilings) = do
  refuse_if (field == 0 || ltb ceiling field) bad_limit
  check_fields fields ceilings
check_fields _ _ = ok tt

unfoldable pub validate_limits : Limits → DetectionResult
unfolding check_fields
validate_limits l = do
  refuse_if (ltb l.output_bytes 4096) small_output
  check_fields (fields l) (fields hard)

pub record RulePack : Type 0 where
  pub id : Text
  pub version : Text
  pub path : Text
  pub sha256 : Text

pub record ScannerConfig : Type 0 where
  pub enabled : Bool
  pub executable : Option Text
  pub executable_sha256 : Option Text
  pub rules : Option RulePack
  pub user_rules : Option RulePack
  pub limits : Limits

abbrev pub default_scanner : ScannerConfig
default_scanner = record {
  enabled = true;
  executable = none;
  executable_sha256 = none;
  rules = none;
  user_rules = none;
  limits = default_limits;
}

pub record DetectionConfig : Type 0 where
  pub schema_version : ℕ
  pub yara : ScannerConfig
  pub pe : ScannerConfig
  pub capa : ScannerConfig
  pub network : ScannerConfig
  pub behavioral : Bool
  pub total_timeout_seconds : ℕ
  pub max_capture_bytes : ℕ
  pub max_total_output_bytes : ℕ

abbrev pub default_detection : DetectionConfig
default_detection = record {
  schema_version = 1;
  yara = default_scanner;
  pe = default_scanner;
  capa = default_scanner;
  network = default_scanner;
  behavioral = true;
  total_timeout_seconds = 180;
  max_capture_bytes = 64 * mebibyte;
  max_total_output_bytes = 16 * mebibyte;
}

abbrev pub stages : DetectionConfig → List ScannerConfig
stages c = c.yara ∷ c.pe ∷ c.capa ∷ c.network ∷ []

-- `hex(value, 64)` and `identifier` of src/detection/validation.rs
unfoldable pub is_sha256 : Text → Bool
is_sha256 value = byte_len value == 64 && all is_ascii_hexdigit value

abbrev identifier_char : ℕ → Bool
identifier_char c = is_ascii_alphanumeric c || (c == b'_' || c == b'.' || c == b':' || c == b'-')

unfoldable pub is_identifier : Text → Bool
is_identifier value =
    not (is_empty value) && (within 0 160 (byte_len value) && all identifier_char value)

-- `split(['/', '\\'])`
abbrev pub split_path : Text → List Text
split_path [] = [] ∷ []
split_path (c ∷ s) =
    let rest = split_path s in if c == b'/' || c == b'\\' then [] ∷ rest else push_first c rest

-- the bytes 1 and 2 of the text are `:` and a backslash: the first byte is then a character
abbrev pub has_drive : Text → Bool
has_drive (c ∷ (d ∷ (e ∷ s))) = ltb c 0x80 && (d == b':' && e == b'\\')
has_drive _ = false

abbrev pub has_user_rules : ScannerConfig → Bool
has_user_rules s = elim s.user_rules [ none ↦ false | some _ ↦ true ]

-- `Path::is_absolute` is a parameter.
module _ (is_absolute : Text → Bool) where
  unfoldable pub absolute_scanner_path : Text → Bool
  absolute_scanner_path value =
      not (ltb 1024 (byte_len value))
      && (not (any is_control value)
          && (not
                (any (λ part. (part =text codes "..") || (part =text codes ".")) (split_path value))
              && (not (starts_with (codes "\\\\") value)
                  && (is_absolute value || has_drive value))))

  unfoldable pub same_ids : Option RulePack → Option RulePack → Bool
  same_ids (some a) (some b) = a.id =text b.id
  same_ids _ _ = false

  unfoldable pub is_pinned : Option Text → Option Text → Bool
  unfolding is_sha256
  is_pinned none none = true
  is_pinned (some path) (some hash) = absolute_scanner_path path && is_sha256 hash
  is_pinned _ _ = false

  unfoldable pub bad_pack : Option RulePack → Bool
  unfolding is_sha256 is_identifier
  bad_pack none = false
  bad_pack (some pack) =
      not (absolute_scanner_path pack.path)
      || (not (is_sha256 pack.sha256)
          || (not (is_identifier pack.id) || not (is_identifier pack.version)))

  unfoldable pub validate_stage : ScannerConfig → DetectionResult
  unfolding validate_limits same_ids is_pinned bad_pack
  validate_stage s = do
    validate_limits s.limits
    refuse_if (same_ids s.rules s.user_rules) same_identifiers
    refuse_if (not (is_pinned s.executable s.executable_sha256)) bad_executable
    refuse_if (bad_pack s.rules) bad_rule_pack
    refuse_if (bad_pack s.user_rules) bad_rule_pack

  unfoldable pub validate_stages : List ScannerConfig → DetectionResult
  unfolding validate_stage
  validate_stages [] = ok tt
  validate_stages (s ∷ ss) = do validate_stage s; validate_stages ss

  unfoldable pub bad_totals : DetectionConfig → Bool
  bad_totals c =
      not (within 1 900 c.total_timeout_seconds)
      || (not (within 1 (128 * mebibyte) c.max_capture_bytes)
          || not (within 16384 (32 * mebibyte) c.max_total_output_bytes))

  unfoldable pub validate_detection : DetectionConfig → DetectionResult
  unfolding validate_stages bad_totals
  validate_detection c = do
    refuse_if (not (c.schema_version == 1)) bad_version
    refuse_if (bad_totals c) bad_budget
    validate_stages (stages c)
    refuse_if (has_user_rules c.pe || has_user_rules c.network || has_user_rules c.capa)
        unsupported_user_rules

-- `public`: the same configuration without the places of files
abbrev clear_path : Option RulePack → Option RulePack
clear_path none = none
clear_path (some pack) = some record pack { path = [] }

abbrev pub public_stage : ScannerConfig → ScannerConfig
public_stage s = record s {
  executable = none;
  rules = clear_path s.rules;
  user_rules = clear_path s.user_rules;
}

unfoldable pub public_view : DetectionConfig → DetectionConfig
public_view c = record c {
  yara = public_stage c.yara;
  pe = public_stage c.pe;
  capa = public_stage c.capa;
  network = public_stage c.network;
}
