-- ===== src/Sandbox/Policy.antt =====
-- The policies and profiles of src/sandbox/backend.rs, and its parser of allow-list entries.
use foxhole.Prelude.{
  ℕ, Bool, true, false, List, Option, none, some, ltb, if◌then◌else◌, ok, err, ◌>>=◌, Text, codes,
  rsplit_once, parse_u8,
}
use foxhole.Sandbox.Errors.{SandboxResult, request_validation}

pub data BackendKind : Type 0 where
  restricted_process hyperv : BackendKind

pub data MitigationProfile : Type 0 where
  compatible strict maximum : MitigationProfile

pub data HyperVGuestProfile : Type 0 where
  restricted normal admin : HyperVGuestProfile

pub data IpNetwork : Type 0 where
  v4 v6 : ℕ → ℕ → IpNetwork

pub data NetworkPolicy : Type 0 where
  deny_all host_server : NetworkPolicy
  allow_list : List IpNetwork → NetworkPolicy
  allow_internet capture_only : NetworkPolicy

unfoldable pub name : NetworkPolicy → Text
name deny_all = codes "deny_all"
name host_server = codes "host_server"
name (allow_list _) = codes "allow_list"
name allow_internet = codes "allow_internet"
name capture_only = codes "capture_only"

unfoldable pub needs_internet_capability : NetworkPolicy → Bool
needs_internet_capability (allow_list _) = true
needs_internet_capability allow_internet = true
needs_internet_capability capture_only = true
needs_internet_capability _ = false

-- the derived `PartialEq`
infix 50 ◌=backend◌
abbrev pub ◌=backend◌ : BackendKind → BackendKind → Bool
restricted_process =backend restricted_process = true
hyperv =backend hyperv = true
_ =backend _ = false

abbrev pub is_restricted : HyperVGuestProfile → Bool
is_restricted restricted = true
is_restricted _ = false

abbrev pub is_compatible : MitigationProfile → Bool
is_compatible compatible = true
is_compatible _ = false

abbrev pub is_host_server : NetworkPolicy → Bool
is_host_server host_server = true
is_host_server _ = false

unfoldable pub parse_prefix : Option Text → ℕ → SandboxResult ℕ
parse_prefix none largest = ok largest
parse_prefix (some prefix) largest = elim (parse_u8 prefix) [
  | none ↦ err request_validation
  | some n ↦ if ltb largest n then err request_validation else ok n
]

abbrev address_part : Text → Text
address_part value = elim (rsplit_once b'/' value) [ none ↦ value | some (address, _) ↦ address ]

abbrev prefix_part : Text → Option Text
prefix_part value = elim (rsplit_once b'/' value) [ none ↦ none | some (_, prefix) ↦ some prefix ]

-- The address parsers of `std::net` are parameters: an address is its number.
module _ (parse_ipv4 parse_ipv6 : Text → Option ℕ) where
  -- `IpNetwork::from_str`
  unfoldable pub parse_ip_network : Text → SandboxResult IpNetwork
  unfolding parse_prefix
  parse_ip_network value = elim (parse_ipv4 (address_part value)) [
    | some address ↦ parse_prefix (prefix_part value) 32 >>= λ prefix. ok (v4 address prefix)
    | none ↦ elim (parse_ipv6 (address_part value)) [
      | some address ↦ parse_prefix (prefix_part value) 128 >>= λ prefix. ok (v6 address prefix)
      | none ↦ err request_validation
    ]
  ]
