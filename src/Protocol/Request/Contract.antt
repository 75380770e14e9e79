-- ===== src/Protocol/Request/Contract.antt =====
-- What a request says when it passes the validation of src/sandbox/hyperv/guest_protocol.rs.
use foxhole.Prelude.{
  ℕ, ◌+◌, ◌≤◌, ◌≡◌, Bool, true, false, List, [], ◌∷◌, Option, some, All, Text, codes, byte_len,
  split_on, starts_with, length, is_empty, ◌↔◌, ◌⊎◌,
}
use foxhole.Protocol.Errors.{
  max_arguments, max_argument_total_bytes, max_timeout_seconds, max_guest_memory_bytes,
}
use foxhole.Protocol.Fields.Paths.{IsSafe}
use foxhole.Protocol.Status.Validity.{IsSha256, IsRunId}
use foxhole.Protocol.Request.{
  GuestRunRequest, GuestResourceLimits, restricted, compatible, allow_list,
}
use foxhole.Protocol.Request.Addresses.{IsAddressed}

abbrev pub total_bytes : List Text → ℕ
total_bytes [] = 0
total_bytes (argument ∷ rest) = byte_len argument + total_bytes rest

-- A target below `input/`, with the digest that it must have.
pub record IsTarget (r : GuestRunRequest) : Type 0 where
  pub safe : All IsSafe (split_on b'/' r.target)
  pub inside : starts_with (codes "input/") r.target ≡ true
  pub digest : Text
  pub pinned : r.target_sha256 ≡ some digest
  pub hashed : IsSha256 digest

pub record AreLimits (l : GuestResourceLimits) : Type 0 where
  pub processes : (1 ≤ l.active_process_limit) × (l.active_process_limit ≤ 1024)
  pub process_memory : (1 ≤ l.process_memory_bytes) × (l.process_memory_bytes ≤ l.job_memory_bytes)
  pub job_memory : l.job_memory_bytes ≤ max_guest_memory_bytes
  pub cpu : (1 ≤ l.cpu_rate_percent) × (l.cpu_rate_percent ≤ 100)

module _ (parse_ip : Text → Option Bool) (is_absolute : Text → Bool) where
  pub record IsRunnable (r : GuestRunRequest) : Type 0 where
    pub run : IsRunId r.run_id
    pub target : IsTarget r
    pub arguments : length r.arguments ≤ max_arguments
    pub argument_total : total_bytes r.arguments ≤ max_argument_total_bytes
    pub time : (1 ≤ r.timeout_seconds) × (r.timeout_seconds ≤ max_timeout_seconds)
    pub networks : (r.network_policy ≡ allow_list) ↔ (is_empty r.allowed_networks ≡ false)
    pub addressing : IsAddressed r.network_policy r
    pub profile : (r.execution_profile ≡ restricted) ⊎ (r.mitigation_profile ≡ compatible)
    pub limits : AreLimits r.resource_limits
