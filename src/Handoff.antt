-- ===== src/Handoff.antt =====
-- `build_guest_request` of src/sandbox/hyperv/backend.rs: the request that the host hands to the
-- guest agent, made of the sandbox's request and of the activated network plan.
pub mod Addressing
pub mod Agreement
pub mod Unicast
pub mod Runs
mod Tests
use foxhole.Prelude.{
  ℕ, Bool, true, List, [], ◌∷◌, map, Option, none, some, Result, ok, err, ◌>>◌, map_err, Text,
  codes, eq_ignore_ascii_case, if◌then◌else◌,
}
use foxhole.Sandbox.Errors.{SandboxError, SandboxResult, hyperv_guest_request}
use foxhole.Sandbox.Policy
use foxhole.Sandbox.Request.{SandboxRequest}
use foxhole.Detection.{default_detection}
use foxhole.Protocol.Errors.{protocol_version}
use foxhole.Protocol.Request
use foxhole.Protocol.Request.{
  GuestRunRequest, GuestNetworkPolicy, GuestMitigationProfile, GuestExecutionProfile,
  CaptureOptions, validate_request,
}
use foxhole.Network.Plan.{HyperVNetworkPlan, GuestNetworkConfiguration, guest_configuration}

abbrev pub guest_policy : Policy.NetworkPolicy → GuestNetworkPolicy
guest_policy Policy.deny_all = Request.deny_all
guest_policy Policy.host_server = Request.host_server
guest_policy (Policy.allow_list _) = Request.allow_list
guest_policy Policy.allow_internet = Request.allow_internet
guest_policy Policy.capture_only = Request.capture_only

abbrev pub guest_mitigation : Policy.MitigationProfile → GuestMitigationProfile
guest_mitigation Policy.compatible = Request.compatible
guest_mitigation Policy.strict = Request.strict
guest_mitigation Policy.maximum = Request.maximum

abbrev pub guest_profile : Policy.HyperVGuestProfile → GuestExecutionProfile
guest_profile Policy.restricted = Request.restricted
guest_profile Policy.normal = Request.normal
guest_profile Policy.admin = Request.admin

abbrev pub capture_all : CaptureOptions
capture_all = record {
  stdout = true;
  stderr = true;
  processes = true;
  network = true;
  filesystem = true;
  registry = true;
}

-- What `std` gives: a path's extension, an address in text, and the two tests of the request's
-- validation.
pub record Host : Type 0 where
  pub extension : Text → Option Text
  pub print_network : Policy.IpNetwork → Text
  pub parse_ip : Text → Option Bool
  pub is_absolute : Text → Bool

module _ (h : Host) where
  abbrev pub allowed_entries : Policy.NetworkPolicy → List Text
  allowed_entries (Policy.allow_list entries) = map h.print_network entries
  allowed_entries _ = []

  abbrev pub guest_target_path : Text → Text
  guest_target_path host_target = elim (h.extension host_target) [
    | none ↦ codes "input/target.bin"
    | some extension ↦
        if eq_ignore_ascii_case extension (codes "bat")
        then codes "input/target.bat"
        else if eq_ignore_ascii_case extension (codes "cmd")
        then codes "input/target.cmd"
        else codes "input/target.bin"
  ]

  unfoldable pub guest_request :
      SandboxRequest → GuestNetworkConfiguration → Text → Option Text → GuestRunRequest
  guest_request r c run_id target_sha256 = record {
    detection = default_detection;
    protocol_version = protocol_version;
    run_id = run_id;
    target = guest_target_path r.target;
    target_sha256 = target_sha256;
    arguments = r.arguments;
    timeout_seconds = r.timeout_secs;
    network_policy = guest_policy r.network_policy;
    allowed_networks = allowed_entries r.network_policy;
    guest_ipv4 = c.guest_ipv4;
    prefix_length = c.prefix_length;
    gateway_ipv4 = c.gateway_ipv4;
    dns_servers = c.dns_servers;
    host_service_ipv4 = c.host_service_ipv4;
    host_service_port = c.host_service_port;
    mitigation_profile = guest_mitigation r.mitigation_profile;
    execution_profile = guest_profile r.hyperv_guest_profile;
    resource_limits = record {
      active_process_limit = r.resource_limits.active_process_limit;
      process_memory_bytes = r.resource_limits.process_memory_bytes;
      job_memory_bytes = r.resource_limits.job_memory_bytes;
      cpu_rate_percent = r.resource_limits.cpu_rate_percent;
    };
    capture = capture_all;
    shutdown_when_complete = true;
  }

  -- `guest_request.validate().map_err(..)?`
  pub checked : GuestRunRequest → SandboxResult GuestRunRequest
  checked g = do
    map_err (λ _. hyperv_guest_request) (validate_request h.parse_ip h.is_absolute g)
    ok g

  -- `none` is the panic of `guest_configuration`.
  pub build_guest_request :
      SandboxRequest
      → HyperVNetworkPlan
      → Text
      → Option Text
      → Option (SandboxResult GuestRunRequest)
  unfolding checked
  build_guest_request r pl run_id target_sha256 = elim (guest_configuration pl) [
    | none ↦ none
    | some c ↦ some (checked (guest_request r c run_id target_sha256))
  ]
