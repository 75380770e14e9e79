-- ===== src/Protocol/Envelope.antt =====
-- `GuestResultEnvelope` of src/sandbox/hyperv/guest_protocol.rs and the validation of its metadata.
pub mod Metadata
use foxhole.Prelude.{
  ℕ, ◌+◌, ◌-◌, ◌^◌, Bool, true, false, not, ◌&&◌, ◌||◌, List, [], ◌∷◌, Option, none, some, ltb,
  ◌==◌, within, any, length, is_empty, Result, ok, err, ◌>>◌, refuse_if, if◌then◌else◌, Text,
  byte_len, has_text,
}
use foxhole.Detection.{DetectionConfig}
use foxhole.Protocol.Errors.{
  ProtocolResult, invalid_coverage, invalid_artifact, invalid_result, invalid_network_attestation,
  max_artifacts, max_artifact_bytes, max_total_artifact_bytes,
}
use foxhole.Protocol.Fields.{
  validate_protocol_version, validate_run_id, validate_sha256, validate_relative_wire_path,
  validate_warnings, validate_small_field,
}
use foxhole.Protocol.Status.{GuestError, validate_guest_error, if_some}
use foxhole.Protocol.Request.{valid_guest_unicast}

pub data GuestTerminalOutcome : Type 0 where
  completed timed_out cancelled agent_failed : GuestTerminalOutcome

pub record CaptureCoverage : Type 0 where
  pub requested : Bool
  pub collected : Bool
  pub complete : Bool
  pub warnings : List Text

unfoldable pub unavailable : Bool → Text → CaptureCoverage
unavailable requested warning = record {
  requested = requested;
  collected = false;
  complete = not requested;
  warnings = if requested then warning ∷ [] else [];
}

unfoldable pub validate_capture : CaptureCoverage → ProtocolResult Unit
validate_capture c = do
  refuse_if (c.complete && (c.requested && not c.collected)) invalid_coverage
  validate_warnings c.warnings

pub record ObservationCoverage : Type 0 where
  pub stdout : CaptureCoverage
  pub stderr : CaptureCoverage
  pub processes : CaptureCoverage
  pub network : CaptureCoverage
  pub filesystem : CaptureCoverage
  pub registry : CaptureCoverage

unfoldable pub validate_coverage : ObservationCoverage → ProtocolResult Unit
validate_coverage c = do
  validate_capture c.stdout
  validate_capture c.stderr
  validate_capture c.processes
  validate_capture c.network
  validate_capture c.filesystem
  validate_capture c.registry

pub record ArtifactManifestEntry : Type 0 where
  pub relative_path : Text
  pub size_bytes : ℕ
  pub sha256 : Text
  pub kind : Text

unfoldable pub validate_artifact : ArtifactManifestEntry → ProtocolResult Unit
validate_artifact a = do
  validate_relative_wire_path a.relative_path
  refuse_if (ltb max_artifact_bytes a.size_bytes) invalid_artifact
  validate_sha256 a.sha256
  validate_small_field a.kind 64

pub record GuestNetworkAttestation : Type 0 where
  pub interface_index : ℕ
  pub interface_guid : Text
  pub mac_address : Text
  pub guest_ipv4 : ℕ
  pub prefix_length : ℕ
  pub gateway_ipv4 : Option ℕ
  pub dns_servers : List ℕ
  pub ipv6_disabled : Bool
  pub no_unexpected_routes : Bool

abbrev pub bad_gateway : Option ℕ → Bool
bad_gateway none = false
bad_gateway (some address) = not (valid_guest_unicast address)

pub bad_attestation : GuestNetworkAttestation → Bool
bad_attestation a =
    a.interface_index == 0
    || is_empty a.interface_guid
    || ltb 128 (byte_len a.interface_guid)
    || is_empty a.mac_address
    || ltb 32 (byte_len a.mac_address)
    || not (valid_guest_unicast a.guest_ipv4)
    || not (within 1 30 a.prefix_length)
    || bad_gateway a.gateway_ipv4
    || ltb 8 (length a.dns_servers)
    || any (λ address. not (valid_guest_unicast address)) a.dns_servers
    || not a.ipv6_disabled
    || not a.no_unexpected_routes

unfoldable pub validate_attestation : GuestNetworkAttestation → ProtocolResult Unit
unfolding bad_attestation
validate_attestation a = do
  refuse_if (bad_attestation a) invalid_network_attestation
  validate_small_field a.interface_guid 128
  validate_small_field a.mac_address 32

-- `T`, the execution's payload, is not validated.
pub record GuestResultEnvelope (T : Type 0) : Type 0 where
  pub detection_config : DetectionConfig
  pub protocol_version : ℕ
  pub run_id : Text
  pub agent_version : Text
  pub guest_image_version : Text
  pub outcome : GuestTerminalOutcome
  pub execution : Option T
  pub coverage : ObservationCoverage
  pub artifacts : List ArtifactManifestEntry
  pub warnings : List Text
  pub network_attestation : Option GuestNetworkAttestation
  pub error : Option GuestError

abbrev pub u64_max : ℕ
u64_max = 2 ^ 64 - 1

-- the match at the end, by the outcome, whether there is an execution and whether there is an error
unfoldable pub validate_outcome : GuestTerminalOutcome → Bool → Bool → ProtocolResult Unit
validate_outcome agent_failed executed failed = do
  refuse_if (not failed) invalid_result
  refuse_if executed invalid_result
validate_outcome cancelled executed failed = refuse_if (executed || failed) invalid_result
validate_outcome _ executed failed = do
  refuse_if (not executed) invalid_result
  refuse_if failed invalid_result

abbrev pub is_present {ℓ} : {A : Type ℓ} → Option A → Bool
is_present none = false
is_present (some _) = true

-- `str::to_lowercase` is a parameter.
module _ (to_lowercase : Text → Text) where
  -- the loop over the manifest, with the folded paths and the bytes so far
  unfoldable pub validate_artifacts :
      List Text → ℕ → List ArtifactManifestEntry → ProtocolResult Unit
  validate_artifacts paths total [] =
      refuse_if (ltb max_total_artifact_bytes total) invalid_artifact
  validate_artifacts paths total (a ∷ rest) = do
    validate_artifact a
    refuse_if (has_text (to_lowercase a.relative_path) paths) invalid_artifact
    refuse_if (ltb u64_max (total + a.size_bytes)) invalid_artifact
    validate_artifacts (to_lowercase a.relative_path ∷ paths) (total + a.size_bytes) rest

  unfoldable pub validate_metadata : {T : Type 0} → GuestResultEnvelope T → ProtocolResult Unit
  unfolding validate_artifacts validate_outcome
  validate_metadata e = do
    validate_protocol_version e.protocol_version
    validate_run_id e.run_id
    validate_small_field e.agent_version 128
    validate_small_field e.guest_image_version 128
    validate_coverage e.coverage
    validate_warnings e.warnings
    if_some e.network_attestation validate_attestation
    refuse_if (ltb max_artifacts (length e.artifacts)) invalid_artifact
    validate_artifacts [] 0 e.artifacts
    if_some e.error validate_guest_error
    validate_outcome e.outcome (is_present e.execution) (is_present e.error)
