-- ===== src/Report/Model.antt =====
-- Records of a run: the types of src/report_analysis/model.rs that the other modules read. A raw
-- JSON value is of a type that they never look into.
use foxhole.Prelude.{ℕ, Bool, List, Option, Text}

pub record ProcessObservation (Value : Type 0) : Type 0 where
  pub evidence_id : Text
  pub pid : ℕ
  pub parent_pid : Option ℕ
  pub image : Text
  pub command_line : Option Text
  pub status : Text
  pub observed_at_ms : ℕ
  pub source : Text
  pub raw : Value

pub record Process (Value : Type 0) : Type 0 where
  pub pid : ℕ
  pub parent_pid : Option ℕ
  pub image : Text
  pub command_line : Option Text
  pub status : Text
  pub observed_at_ms : ℕ
  pub observations : List (ProcessObservation Value)
  pub raw : Value

pub record ProcessAssociation : Type 0 where
  pub pid : ℕ
  pub image : Text
  pub parent_pid : Option ℕ
  pub inferred : Bool
  pub method : Text

pub record FileEvent (Value : Type 0) : Type 0 where
  pub evidence_id : Text
  pub pid : ℕ
  pub path : Text
  pub action : Text
  pub size_bytes : Option ℕ
  pub sha256 : Option Text
  pub hash_source : Option Text
  pub observed_at_ms : ℕ
  pub source : Text
  pub association : ProcessAssociation
  pub raw : Value

pub data Severity : Type 0 where
  informational : Severity
  suspicious : Severity
  malicious : Severity

pub record EvidenceReference : Type 0 where
  pub evidence_id : Text
  pub kind : Text
  pub pid : ℕ
  pub process_image : Text
  pub parent_pid : Option ℕ
  pub observed_at_ms : ℕ
  pub source_artifact : Text
  pub exact_value : Text
  pub inferred : Bool

pub record FindingDetails : Type 0 where
  pub version : Text
  pub source : Text
  pub namespace : Text
  pub file_sha256 : Option Text
  pub attack : List Text
  pub required_events : List Text
  pub window_ms : Option ℕ
  pub association : Text
  pub false_positive_guidance : Text
  pub score_group : Text

-- A confidence is written in hundredths.
pub record Finding : Type 0 where
  pub details : Option FindingDetails
  pub rule_id : Text
  pub severity : Severity
  pub title : Text
  pub explanation : Text
  pub evidence : List EvidenceReference
  pub confidence : ℕ
  pub score_contribution : ℕ
