-- ===== src/Sandbox/Request/Soundness.antt =====
-- What `SandboxRequest::validate_common` of src/sandbox/backend.rs establishes.
use foxhole.Prelude.{
  ◌≤◌, ◌<◌, ◌≡◌, ◌≢◌, true, false, List, [], ◌∷◌, All, arith, ok, Text, codes, has_char, has_text,
  to_ascii_lowercase, =text_iff,
}
use foxhole.Sandbox.Policy.{
  hyperv, restricted_process, restricted, compatible, host_server, BackendKind, ◌=backend◌,
}
use foxhole.Sandbox.FileName.{is_windows_file_name}
use foxhole.Sandbox.Request.{
  MappedPath, SandboxRequest, is_bad_name, validate_mappings, validate_common,
}

-- A name that a mapping can have below the guest's root.
pub record IsPlainName (name : Text) : Type 0 where
  pub present : name ≢ []
  pub not_here : name ≢ codes "."
  pub not_parent : name ≢ codes ".."
  pub no_slash : has_char b'/' name ≡ false
  pub no_backslash : has_char b'\\' name ≡ false
  pub windows : is_windows_file_name name ≡ true

-- No folded name occurs twice, or among the names before.
abbrev pub AreDistinct : List Text → List MappedPath → Type 0
AreDistinct names [] = Unit
AreDistinct names (m ∷ ms) =
    (has_text (to_ascii_lowercase m.guest_name) names ≡ false)
    × AreDistinct (to_ascii_lowercase m.guest_name ∷ names) ms

pub record IsSound (r : SandboxRequest) : Type 0 where
  pub timed : 0 < r.timeout_secs
  pub processes : 0 < r.resource_limits.active_process_limit
  pub memory :
      (0 < r.resource_limits.process_memory_bytes)
      × (r.resource_limits.process_memory_bytes ≤ r.resource_limits.job_memory_bytes)
  pub cpu : (1 ≤ r.resource_limits.cpu_rate_percent) × (r.resource_limits.cpu_rate_percent ≤ 100)
  pub local_profile : r.backend ≡ restricted_process → r.hyperv_guest_profile ≡ restricted
  pub local_network : r.backend ≡ restricted_process → r.network_policy ≢ host_server
  pub elevated : r.hyperv_guest_profile ≢ restricted → r.mitigation_profile ≡ compatible
  pub names : All (λ m. IsPlainName m.guest_name) r.mapped_paths
  pub distinct : AreDistinct [] r.mapped_paths

IsPlainName-of : (name : Text) → is_bad_name name ≡ false → IsPlainName name
unfolding is_bad_name
IsPlainName-of name h = record {
  present = λ x. ground (arith, x);
  not_here = λ x. ground (arith, (=text_iff name (codes ".")).1 x);
  not_parent = λ x. ground (arith, (=text_iff name (codes "..")).1 x);
  no_slash = ground arith;
  no_backslash = ground arith;
  windows = ground arith;
}

mappings_sound :
    (names : List Text) (ms : List MappedPath)
    → validate_mappings names ms ≡ ok tt
    → All (λ m. IsPlainName m.guest_name) ms × AreDistinct names ms
unfolding validate_mappings
mappings_sound names [] h = (tt, tt)
mappings_sound names (m ∷ ms) h =
    let bad : is_bad_name m.guest_name ≡ false = ground arith in
    let new : has_text (to_ascii_lowercase m.guest_name) names ≡ false = ground arith in
    let (plain, distinct) =
      mappings_sound (to_ascii_lowercase m.guest_name ∷ names) ms (ground arith) in
    ((IsPlainName-of m.guest_name bad, plain), (new, distinct))

backend_local : (b : BackendKind) → b ≡ restricted_process → (b =backend hyperv) ≡ false
backend_local b h = ground arith

-- A request that passes has a time limit, consistent resource limits, guest profiles and host
-- networking only with Hyper-V, and mapped names that are plain and distinct without case.
pub validate_common-IsSound : (r : SandboxRequest) → validate_common r ≡ ok tt → IsSound r
unfolding validate_common
validate_common-IsSound r h = record {
  timed = ground arith;
  processes = ground arith;
  memory = ground arith;
  cpu = ground arith;
  local_profile = ground arith;
  local_network = ground arith;
  elevated = ground arith;
  names = (mappings_sound [] r.mapped_paths (ground arith)).0;
  distinct = (mappings_sound [] r.mapped_paths (ground arith)).1;
}
