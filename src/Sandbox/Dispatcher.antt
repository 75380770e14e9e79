-- ===== src/Sandbox/Dispatcher.antt =====
-- The choice of a backend in src/sandbox/dispatcher.rs.
pub mod Fallback
use foxhole.Prelude.{
  Bool, true, false, Option, none, some, List, [], ◌∷◌, ◌++◌, if◌then◌else◌, Result, ok, err, Text,
  codes, is_blank,
}
use foxhole.Sandbox.Errors.{SandboxResult, backend_selection}
use foxhole.Sandbox.Policy.{BackendKind, restricted_process, hyperv}

pub data RequestedBackend : Type 0 where
  restricted hyper_v auto : RequestedBackend

pub data CapabilityAvailability : Type 0 where
  available unavailable : CapabilityAvailability

pub record HyperVCapabilityEvidence : Type 0 where
  pub availability : CapabilityAvailability
  pub reason : Option Text

abbrev no_reason : Text
no_reason = codes "capability detection reported no additional reason"

unfoldable pub unavailable_reason : HyperVCapabilityEvidence → Text
unavailable_reason e = elim e.reason [
  | none ↦ no_reason
  | some reason ↦ if is_blank reason then no_reason else reason
]

pub record BackendSelection : Type 0 where
  pub requested : RequestedBackend
  pub selected : BackendKind
  pub fallback_used : Bool
  pub warnings : List Text

unfoldable pub selection : RequestedBackend → BackendKind → Bool → List Text → BackendSelection
selection requested selected fallback_used warnings = record {
  requested = requested;
  selected = selected;
  fallback_used = fallback_used;
  warnings = warnings;
}

abbrev pub fallback_warning_prefix : Text
fallback_warning_prefix =
    codes
      "Hyper-V is unavailable; using the weaker restricted-process backend because fallback was explicitly permitted"

unfoldable pub resolve :
    RequestedBackend
    → CapabilityAvailability
    → HyperVCapabilityEvidence
    → Bool
    → SandboxResult BackendSelection
unfolding selection unavailable_reason
resolve restricted _ e allow = ok (selection restricted restricted_process false [])
resolve hyper_v available e allow = ok (selection hyper_v hyperv false [])
resolve hyper_v unavailable e allow = err backend_selection
resolve auto available e allow = ok (selection auto hyperv false [])
resolve auto unavailable e true = ok (
    selection auto restricted_process true
      ((fallback_warning_prefix ++ (codes ": " ++ unavailable_reason e)) ∷ []))
resolve auto unavailable e false = err backend_selection

unfoldable pub resolve_backend :
    RequestedBackend → HyperVCapabilityEvidence → Bool → SandboxResult BackendSelection
unfolding resolve
resolve_backend requested e allow = resolve requested e.availability e allow
