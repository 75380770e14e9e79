-- ===== src/Protocol/Errors.antt =====
-- The `code` of a `ProtocolError` in src/sandbox/hyperv/guest_protocol.rs. The message beside the
-- code is text for people and is left out.
use foxhole.Prelude.{ℕ, ◌*◌, Result}

pub data ProtocolError : Type 0 where
  unsupported_protocol invalid_run_id invalid_checksum invalid_relative_path : ProtocolError
  invalid_warnings invalid_field invalid_status invalid_resource_limits : ProtocolError
  invalid_detection_config invalid_target invalid_arguments invalid_timeout : ProtocolError
  invalid_network_policy invalid_network_configuration invalid_execution_profile : ProtocolError
  invalid_coverage invalid_artifact invalid_result invalid_network_attestation : ProtocolError
  state_run_mismatch state_sequence state_replay state_terminal state_transition : ProtocolError

abbrev pub ProtocolResult : Type 0 → Type 0
ProtocolResult A = Result ProtocolError A

abbrev pub protocol_version : ℕ
protocol_version = 2

abbrev pub max_run_id_bytes : ℕ
max_run_id_bytes = 64

abbrev pub max_wire_path_bytes : ℕ
max_wire_path_bytes = 1024

abbrev pub max_arguments : ℕ
max_arguments = 128

abbrev pub max_argument_bytes : ℕ
max_argument_bytes = 32 * 1024

abbrev pub max_argument_total_bytes : ℕ
max_argument_total_bytes = 128 * 1024

abbrev pub max_allowed_networks : ℕ
max_allowed_networks = 128

abbrev pub max_timeout_seconds : ℕ
max_timeout_seconds = 60 * 60

abbrev pub max_active_processes : ℕ
max_active_processes = 1024

abbrev pub max_guest_memory_bytes : ℕ
max_guest_memory_bytes = 64 * 1024 * 1024 * 1024

abbrev pub max_warnings : ℕ
max_warnings = 256

abbrev pub max_warning_bytes : ℕ
max_warning_bytes = 4096

abbrev pub max_artifacts : ℕ
max_artifacts = 4096

abbrev pub max_artifact_bytes : ℕ
max_artifact_bytes = 128 * 1024 * 1024

abbrev pub max_total_artifact_bytes : ℕ
max_total_artifact_bytes = 512 * 1024 * 1024
