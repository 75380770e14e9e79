-- ===== src/Sandbox/Request.antt =====
-- `SandboxRequest` of src/sandbox/backend.rs and its validation. The target and the host side of a
-- mapping are paths that the validation does not read.
pub mod Soundness
use foxhole.Prelude.{
  ℕ, ◌*◌, Bool, true, false, not, ◌&&◌, ◌||◌, List, [], ◌∷◌, ltb, ◌==◌, within, is_empty,
  if◌then◌else◌, Result, ok, err, ◌>>=◌, ◌>>◌, refuse_if, Text, codes, ◌=text◌, has_char,
  to_ascii_lowercase, has_text,
}
use foxhole.Sandbox.Errors.{SandboxResult, request_validation}
use foxhole.Sandbox.Policy.{
  BackendKind, hyperv, restricted_process, MitigationProfile, compatible, HyperVGuestProfile,
  restricted, NetworkPolicy, deny_all, ◌=backend◌, is_restricted, is_compatible, is_host_server,
}
use foxhole.Sandbox.FileName.{is_windows_file_name}

pub data MappedPathAccess : Type 0 where
  read_only read_write : MappedPathAccess

pub record MappedPath : Type 0 where
  pub host_path : Text
  pub guest_name : Text
  pub access : MappedPathAccess

pub record ResourceLimits : Type 0 where
  pub active_process_limit : ℕ
  pub process_memory_bytes : ℕ
  pub job_memory_bytes : ℕ
  pub cpu_rate_percent : ℕ

unfoldable pub default_limits : ResourceLimits
default_limits = record {
  active_process_limit = 32;
  process_memory_bytes = 256 * 1024 * 1024;
  job_memory_bytes = 512 * 1024 * 1024;
  cpu_rate_percent = 50;
}

pub record SandboxRequest : Type 0 where
  pub target : Text
  pub arguments : List Text
  pub timeout_secs : ℕ
  pub network_policy : NetworkPolicy
  pub backend : BackendKind
  pub resource_limits : ResourceLimits
  pub mitigation_profile : MitigationProfile
  pub hyperv_guest_profile : HyperVGuestProfile
  pub mapped_paths : List MappedPath
  pub dry_run : Bool

-- `SandboxRequest::restricted` and `SandboxRequest::hyperv`
unfoldable pub restricted_request : Text → SandboxRequest
unfolding default_limits
restricted_request target = record {
  target = target;
  arguments = [];
  timeout_secs = 30;
  network_policy = deny_all;
  backend = restricted_process;
  resource_limits = default_limits;
  mitigation_profile = compatible;
  hyperv_guest_profile = restricted;
  mapped_paths = [];
  dry_run = false;
}

unfoldable pub hyperv_request : Text → SandboxRequest
unfolding restricted_request
hyperv_request target = record (restricted_request target) { backend = hyperv }

-- the name's part of the test in the loop over the mappings
unfoldable pub is_bad_name : Text → Bool
is_bad_name name =
    is_empty name
    || (name =text codes ".")
    || (name =text codes "..")
    || (has_char b'/' name || has_char b'\\' name)
    || not (is_windows_file_name name)

-- The loop over the mappings; `names` is the set of the names so far, in lower case.
unfoldable pub validate_mappings : List Text → List MappedPath → SandboxResult Unit
validate_mappings names [] = ok tt
validate_mappings names (m ∷ ms) =
    let folded = to_ascii_lowercase m.guest_name in
    let rest = validate_mappings (folded ∷ names) ms in
    if is_bad_name m.guest_name || has_text folded names then err request_validation else rest

unfoldable pub validate_common : SandboxRequest → SandboxResult Unit
unfolding validate_mappings
validate_common r = do
  refuse_if (r.timeout_secs == 0) request_validation
  refuse_if
      (r.resource_limits.active_process_limit == 0
        || r.resource_limits.process_memory_bytes == 0
        || r.resource_limits.job_memory_bytes == 0
        || not (within 1 100 r.resource_limits.cpu_rate_percent))
      request_validation
  refuse_if (ltb r.resource_limits.job_memory_bytes r.resource_limits.process_memory_bytes)
      request_validation
  refuse_if (not (r.backend =backend hyperv) && not (is_restricted r.hyperv_guest_profile))
      request_validation
  refuse_if (not (r.backend =backend hyperv) && is_host_server r.network_policy) request_validation
  refuse_if (not (is_restricted r.hyperv_guest_profile) && not (is_compatible r.mitigation_profile))
      request_validation
  validate_mappings [] r.mapped_paths

unfoldable pub validate_for_backend : SandboxRequest → BackendKind → SandboxResult Unit
unfolding validate_common
validate_for_backend r expected = do
  validate_common r
  refuse_if (not (r.backend =backend expected)) request_validation
