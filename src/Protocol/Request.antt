-- ===== src/Protocol/Request.antt =====
-- `GuestRunRequest` of src/sandbox/hyperv/guest_protocol.rs and its validation.
pub mod Addresses
pub mod Addressing
pub mod Contract
use Prim.Native.Nat.{bit_and, bit_or}
use foxhole.Prelude.{
  ℕ, ◌+◌, ◌-◌, ◌^◌, Bool, true, false, not, ◌&&◌, ◌||◌, List, [], ◌∷◌, Option, none, some, ltb,
  ◌==◌, within, any, length, is_empty, Result, ok, err, ◌>>=◌, ◌>>◌, refuse_if, ok_or, map_err,
  if◌then◌else◌, Text, codes, byte_len, has_char, starts_with, split_once, parse_u8,
}
use foxhole.Ipv4.{
  u32_max, is_unspecified, is_loopback, is_link_local, is_multicast, is_private, is_documentation,
  broadcast_all, prefix_mask,
}
use foxhole.Detection.{DetectionConfig, validate_detection}
use foxhole.Protocol.Errors.{
  ProtocolResult, invalid_resource_limits, invalid_detection_config, invalid_target,
  invalid_arguments, invalid_timeout, invalid_network_policy, invalid_network_configuration,
  invalid_execution_profile, max_arguments, max_argument_bytes, max_argument_total_bytes,
  max_allowed_networks, max_timeout_seconds, max_active_processes, max_guest_memory_bytes,
}
use foxhole.Protocol.Fields.{
  validate_protocol_version, validate_run_id, validate_sha256, validate_relative_wire_path,
}

pub data GuestNetworkPolicy : Type 0 where
  deny_all host_server allow_list allow_internet capture_only : GuestNetworkPolicy

pub data GuestMitigationProfile : Type 0 where
  compatible strict maximum : GuestMitigationProfile

pub data GuestExecutionProfile : Type 0 where
  restricted normal admin : GuestExecutionProfile

pub record GuestResourceLimits : Type 0 where
  pub active_process_limit : ℕ
  pub process_memory_bytes : ℕ
  pub job_memory_bytes : ℕ
  pub cpu_rate_percent : ℕ

unfoldable pub bad_memory : GuestResourceLimits → Bool
bad_memory l =
    l.process_memory_bytes == 0
    || (ltb max_guest_memory_bytes l.process_memory_bytes
        || (l.job_memory_bytes == 0
            || (ltb max_guest_memory_bytes l.job_memory_bytes
                || ltb l.job_memory_bytes l.process_memory_bytes)))

unfoldable pub validate_resource_limits : GuestResourceLimits → ProtocolResult Unit
unfolding bad_memory
validate_resource_limits l = do
  refuse_if (l.active_process_limit == 0 || ltb max_active_processes l.active_process_limit)
      invalid_resource_limits
  refuse_if (bad_memory l) invalid_resource_limits
  refuse_if (not (within 1 100 l.cpu_rate_percent)) invalid_resource_limits

pub record CaptureOptions : Type 0 where
  pub stdout : Bool
  pub stderr : Bool
  pub processes : Bool
  pub network : Bool
  pub filesystem : Bool
  pub registry : Bool

pub record GuestRunRequest : Type 0 where
  pub detection : DetectionConfig
  pub protocol_version : ℕ
  pub run_id : Text
  pub target : Text
  pub target_sha256 : Option Text
  pub arguments : List Text
  pub timeout_seconds : ℕ
  pub network_policy : GuestNetworkPolicy
  pub allowed_networks : List Text
  pub guest_ipv4 : Option ℕ
  pub prefix_length : Option ℕ
  pub gateway_ipv4 : Option ℕ
  pub dns_servers : List ℕ
  pub host_service_ipv4 : Option ℕ
  pub host_service_port : Option ℕ
  pub mitigation_profile : GuestMitigationProfile
  pub execution_profile : GuestExecutionProfile
  pub resource_limits : GuestResourceLimits
  pub capture : CaptureOptions
  pub shutdown_when_complete : Bool

abbrev pub usize_max : ℕ
usize_max = 2 ^ 64 - 1

-- the loop over the arguments, with the bytes counted so far
unfoldable pub argument_bytes : ℕ → List Text → ProtocolResult ℕ
argument_bytes total [] = ok total
argument_bytes total (argument ∷ rest) = do
  refuse_if (has_char 0 argument || ltb max_argument_bytes (byte_len argument)) invalid_arguments
  refuse_if (ltb usize_max (total + byte_len argument)) invalid_arguments
  argument_bytes (total + byte_len argument) rest

abbrev pub is_set {ℓ} : {A : Type ℓ} → Option A → Bool
is_set none = false
is_set (some _) = true

abbrev pub is_allow_list : GuestNetworkPolicy → Bool
is_allow_list allow_list = true
is_allow_list _ = false

abbrev pub is_restricted : GuestExecutionProfile → Bool
is_restricted restricted = true
is_restricted _ = false

abbrev pub is_compatible : GuestMitigationProfile → Bool
is_compatible compatible = true
is_compatible _ = false

unfoldable pub valid_guest_unicast : ℕ → Bool
valid_guest_unicast a =
    not (is_unspecified a)
    && (not (is_loopback a)
        && (not (is_link_local a) && (not (is_multicast a) && not (a == broadcast_all))))

unfoldable pub is_configured : GuestRunRequest → Bool
is_configured r =
    is_set r.guest_ipv4
    || (is_set r.prefix_length
        || (is_set r.gateway_ipv4
            || (not (is_empty r.dns_servers)
                || (is_set r.host_service_ipv4 || is_set r.host_service_port))))

-- `is_none_or(|port| port == 0)`
abbrev pub lacks_port : Option ℕ → Bool
lacks_port none = true
lacks_port (some port) = port == 0

unfoldable pub bad_host_service : GuestRunRequest → ℕ → ℕ → ℕ → Bool
bad_host_service r guest mask host =
    not (valid_guest_unicast host)
    || (host == guest
        || (not (bit_and host mask == bit_and guest mask)
            || (lacks_port r.host_service_port
                || (is_set r.gateway_ipv4 || not (is_empty r.dns_servers)))))

abbrev pub bad_resolver : ℕ → Bool
bad_resolver a = not (valid_guest_unicast a) || (is_private a || is_documentation a)

unfoldable pub bad_internet : GuestRunRequest → ℕ → ℕ → ℕ → Bool
bad_internet r guest mask gateway =
    not (valid_guest_unicast gateway)
    || (gateway == guest
        || (not (bit_and gateway mask == bit_and guest mask)
            || (is_empty r.dns_servers
                || (ltb 8 (length r.dns_servers)
                    || (any bad_resolver r.dns_servers
                        || (is_set r.host_service_ipv4 || is_set r.host_service_port))))))

unfoldable pub validate_endpoint : GuestRunRequest → ℕ → ℕ → ProtocolResult Unit
validate_endpoint r guest mask = elim r.network_policy [
  | host_server ↦ ok_or r.host_service_ipv4 invalid_network_configuration >>= λ host.
      refuse_if (bad_host_service r guest mask host) invalid_network_configuration
  | allow_internet ↦ ok_or r.gateway_ipv4 invalid_network_configuration >>= λ gateway.
      refuse_if (bad_internet r guest mask gateway) invalid_network_configuration
  | _ ↦ ok tt
]

unfoldable pub validate_addressing : GuestRunRequest → ProtocolResult Unit
validate_addressing r = do
  guest ← ok_or r.guest_ipv4 invalid_network_configuration
  prefix ← ok_or r.prefix_length invalid_network_configuration
  refuse_if (not (within 1 30 prefix) || not (valid_guest_unicast guest))
      invalid_network_configuration
  refuse_if
      (guest == bit_and guest (prefix_mask prefix)
        || guest == bit_or guest (u32_max - prefix_mask prefix))
      invalid_network_configuration
  validate_endpoint r guest (prefix_mask prefix)

unfoldable pub validate_network_configuration : GuestRunRequest → ProtocolResult Unit
validate_network_configuration r = elim r.network_policy [
  | host_server ↦ validate_addressing r
  | allow_internet ↦ validate_addressing r
  | _ ↦ refuse_if (is_configured r) invalid_network_configuration
]

unfoldable pub validate_target : GuestRunRequest → ProtocolResult Unit
validate_target r = do
  validate_relative_wire_path r.target
  refuse_if (not (starts_with (codes "input/") r.target)) invalid_target
  digest ← ok_or r.target_sha256 invalid_target
  validate_sha256 digest

unfoldable pub validate_arguments : GuestRunRequest → ProtocolResult Unit
unfolding argument_bytes
validate_arguments r = do
  refuse_if (ltb max_arguments (length r.arguments)) invalid_arguments
  total ← argument_bytes 0 r.arguments
  refuse_if (ltb max_argument_total_bytes total) invalid_arguments

-- an address that was parsed: whether it is an IPv4 one
module _ (parse_ip : Text → Option Bool) (is_absolute : Text → Bool) where
  abbrev address_part : Text → Text
  address_part value = elim (split_once b'/' value) [ none ↦ value | some (address, _) ↦ address ]

  pub prefix_is_bad : Text → Bool → Bool
  prefix_is_bad value v4 = elim (split_once b'/' value) [
    | none ↦ false
    | some (_, prefix) ↦ elim (parse_u8 prefix) [
      | none ↦ true
      | some n ↦ ltb (if v4 then 32 else 128) n
    ]
  ]

  unfoldable pub validate_ip_network : Text → ProtocolResult Unit
  unfolding prefix_is_bad
  validate_ip_network value = do
    refuse_if (is_empty value || ltb 128 (byte_len value)) invalid_network_policy
    v4 ← ok_or (parse_ip (address_part value)) invalid_network_policy
    refuse_if (prefix_is_bad value v4) invalid_network_policy

  unfoldable pub validate_ip_networks : List Text → ProtocolResult Unit
  unfolding validate_ip_network
  validate_ip_networks [] = ok tt
  validate_ip_networks (value ∷ rest) = do validate_ip_network value; validate_ip_networks rest

  unfoldable pub validate_allow_list : GuestRunRequest → ProtocolResult Unit
  unfolding validate_ip_networks
  validate_allow_list r = do
    refuse_if (ltb max_allowed_networks (length r.allowed_networks)) invalid_network_policy
    refuse_if (not (is_allow_list r.network_policy) && not (is_empty r.allowed_networks))
        invalid_network_policy
    refuse_if (is_allow_list r.network_policy && is_empty r.allowed_networks) invalid_network_policy
    validate_ip_networks r.allowed_networks

  -- `GuestRunRequest::validate`
  unfoldable pub validate_request : GuestRunRequest → ProtocolResult Unit
  unfolding validate_target validate_arguments validate_allow_list
  validate_request r = do
    map_err (λ _. invalid_detection_config) (validate_detection is_absolute r.detection)
    validate_protocol_version r.protocol_version
    validate_run_id r.run_id
    validate_target r
    validate_arguments r
    refuse_if (r.timeout_seconds == 0 || ltb max_timeout_seconds r.timeout_seconds) invalid_timeout
    validate_allow_list r
    validate_network_configuration r
    refuse_if (not (is_restricted r.execution_profile) && not (is_compatible r.mitigation_profile))
        invalid_execution_profile
    validate_resource_limits r.resource_limits
