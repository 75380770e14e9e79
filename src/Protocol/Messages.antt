-- ===== src/Protocol/Messages.antt =====
-- A request and a result, and the theorems about them.
use foxhole.Prelude.{
  ℕ, ◌≡◌, refl, Bool, true, false, [], ◌∷◌, Option, none, some, ok, Text, codes, replicate,
}
use foxhole.Detection.{default_detection}
use foxhole.Protocol.Fields.{
  is_malformed_path, is_unsafe_component, is_reserved_windows_component, validate_components,
  validate_relative_wire_path, validate_protocol_version, validate_run_id, validate_sha256,
  validate_warnings, validate_small_field,
}
use foxhole.Ipv4.{ipv4}
use foxhole.Protocol.Request.{GuestRunRequest, compatible, admin, GuestNetworkPolicy}
use foxhole.Protocol.Envelope.{
  GuestResultEnvelope, CaptureCoverage, ArtifactManifestEntry, completed, unavailable,
  validate_metadata, validate_coverage, validate_capture, validate_artifacts, validate_artifact,
  validate_outcome,
}
use foxhole.Protocol.Envelope.Metadata.{IsConsistent, validate_metadata-IsConsistent}

abbrev run : Text
run = codes "run-00000001"

abbrev no_address : Text → Option Bool
no_address text = none

abbrev rooted : Text → Bool
rooted path = true

abbrev request : GuestRunRequest
request = record {
  detection = default_detection;
  protocol_version = 2;
  run_id = run;
  target = codes "input/target.bin";
  target_sha256 = some (replicate 64 b'e');
  arguments = codes "--verbose" ∷ codes "out" ∷ [];
  timeout_seconds = 3600;
  network_policy = GuestNetworkPolicy.host_server;
  allowed_networks = [];
  guest_ipv4 = some (ipv4 192 168 250 10);
  prefix_length = some 24;
  gateway_ipv4 = none;
  dns_servers = [];
  host_service_ipv4 = some (ipv4 192 168 250 1);
  host_service_port = some 8080;
  mitigation_profile = compatible;
  execution_profile = admin;
  resource_limits = record {
    active_process_limit = 32;
    process_memory_bytes = 268435456;
    job_memory_bytes = 536870912;
    cpu_rate_percent = 50;
  };
  capture = record {
    stdout = true;
    stderr = true;
    processes = true;
    network = true;
    filesystem = true;
    registry = true;
  };
  shutdown_when_complete = true;
}

abbrev complete : CaptureCoverage
complete = record { requested = true; collected = true; complete = true; warnings = [] }

abbrev artifact : Text → ArtifactManifestEntry
artifact path = record {
  relative_path = path;
  size_bytes = 1024;
  sha256 = replicate 64 b'f';
  kind = codes "screenshot";
}

abbrev result : GuestResultEnvelope ℕ
result = record {
  detection_config = default_detection;
  protocol_version = 2;
  run_id = run;
  agent_version = codes "0.1.0";
  guest_image_version = codes "image-1";
  outcome = completed;
  execution = some 0;
  coverage = record {
    stdout = complete;
    stderr = complete;
    processes = complete;
    network = unavailable true (codes "no provider");
    filesystem = complete;
    registry = unavailable false [];
  };
  artifacts = artifact (codes "screenshots/1.png") ∷ artifact (codes "screenshots/2.png") ∷ [];
  warnings = [];
  network_attestation = none;
  error = none;
}

abbrev unfolded : Text → Text
unfolded path = path

result_valid : validate_metadata unfolded result ≡ ok tt
unfolding validate_metadata validate_protocol_version validate_run_id validate_small_field
    validate_coverage validate_capture unavailable validate_warnings validate_artifacts
    validate_artifact validate_relative_wire_path is_malformed_path validate_components
    is_unsafe_component is_reserved_windows_component validate_sha256 validate_outcome
result_valid = refl

validate_metadata-IsConsistent_example : IsConsistent unfolded result
validate_metadata-IsConsistent_example = validate_metadata-IsConsistent unfolded result result_valid
