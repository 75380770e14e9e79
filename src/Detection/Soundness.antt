-- ===== src/Detection/Soundness.antt =====
-- What a configuration says when it passes the validation of src/detection/config.rs.
use foxhole.Prelude.{
  ℕ, ◌≤◌, ◌≡◌, Bool, true, false, ◌||◌, List, ◌∷◌, Option, none, some, ◌==◌, any, all, map,
  is_empty, byte_len, has_char, is_ascii_alphanumeric, is_control, starts_with, split_on,
  if◌then◌else◌, Text, codes, ◌=text◌,
}
use foxhole.Protocol.Status.Validity.{IsSha256}
use foxhole.Detection.{Limits, fields, RulePack, ScannerConfig, DetectionConfig}

-- The hard ceilings of a scanner's limits; none of them is zero.
pub record AreLimits (l : Limits) : Type 0 where
  pub timeout_seconds : (1 ≤ l.timeout_seconds) × (l.timeout_seconds ≤ 300)
  pub memory_bytes : (1 ≤ l.memory_bytes) × (l.memory_bytes ≤ 2147483648)
  pub input_bytes : (1 ≤ l.input_bytes) × (l.input_bytes ≤ 134217728)
  pub output_bytes : (4096 ≤ l.output_bytes) × (l.output_bytes ≤ 16777216)
  pub findings : (1 ≤ l.findings) × (l.findings ≤ 4096)
  pub strings : (1 ≤ l.strings) × (l.strings ≤ 8192)
  pub string_bytes : (1 ≤ l.string_bytes) × (l.string_bytes ≤ 4096)
  pub match_bytes : (1 ≤ l.match_bytes) × (l.match_bytes ≤ 256)
  pub offsets : (1 ≤ l.offsets) × (l.offsets ≤ 1024)
  pub features : (1 ≤ l.features) × (l.features ≤ 1024)
  pub depth : (1 ≤ l.depth) × (l.depth ≤ 24)
  pub rules : (1 ≤ l.rules) × (l.rules ≤ 50000)
  pub files : (1 ≤ l.files) × (l.files ≤ 64)
  pub packets : (1 ≤ l.packets) × (l.packets ≤ 1000000)
  pub flows : (1 ≤ l.flows) × (l.flows ≤ 16384)

-- Each number is positive and at most its ceiling.
abbrev AreWithin : List ℕ → List ℕ → Type 0
AreWithin (field ∷ fields) (ceiling ∷ ceilings) =
    ((1 ≤ field) × (field ≤ ceiling)) × AreWithin fields ceilings
AreWithin _ _ = Unit

-- At most 160 bytes of letters, digits and four marks, and at least one.
abbrev pub IsIdentifier : Text → Type 0
IsIdentifier value =
    (is_empty value ≡ false)
    × (byte_len value ≤ 160)
    × (all (λ c. is_ascii_alphanumeric c || has_char c (codes "_.:-")) value ≡ true)

-- The limits of all scanners together.
pub record AreTotals (c : DetectionConfig) : Type 0 where
  pub time : (1 ≤ c.total_timeout_seconds) × (c.total_timeout_seconds ≤ 900)
  pub capture : (1 ≤ c.max_capture_bytes) × (c.max_capture_bytes ≤ 134217728)
  pub output : (16384 ≤ c.max_total_output_bytes) × (c.max_total_output_bytes ≤ 33554432)

-- A path of at most 1024 bytes without control characters that climbs to no parent, whichever of
-- the two slashes it is written with.
pub record IsPlainPath (path : Text) : Type 0 where
  pub short : byte_len path ≤ 1024
  pub printable : any is_control path ≡ false
  pub local : starts_with (codes "\\\\") path ≡ false
  pub stays :
      any
        (λ part. (part =text codes "..") || (part =text codes "."))
        (split_on b'/' (map (λ c. if c == b'\\' then b'/' else c) path))
      ≡ false

module _ (is_absolute : Text → Bool) where
  -- A program is named together with its digest, or neither is.
  abbrev pub IsPinned : Option Text → Option Text → Type 0
  IsPinned none none = Unit
  IsPinned (some path) (some hash) = IsPlainPath path × IsSha256 hash
  IsPinned _ _ = ⊥

  abbrev pub IsPack : Option RulePack → Type 0
  IsPack none = Unit
  IsPack (some pack) =
      IsPlainPath pack.path
      × IsSha256 pack.sha256
      × IsIdentifier pack.id
      × IsIdentifier pack.version

  pub record IsStage (s : ScannerConfig) : Type 0 where
    pub limits : AreLimits s.limits
    pub program : IsPinned s.executable s.executable_sha256
    pub rules : IsPack s.rules
    pub user_rules : IsPack s.user_rules
    pub distinct :
        (a b : RulePack) → s.rules ≡ some a → s.user_rules ≡ some b → (a.id =text b.id) ≡ false
