-- ===== src/Sandbox/Tests.antt =====
-- A request and the choice of a backend, and the theorems about them.
use foxhole.Prelude.{◌≡◌, ◌↔◌, ◌⊎◌, ◌++◌, refl, true, false, [], ◌∷◌, some, ok, err, Text, codes}
use foxhole.Sandbox.Errors.{backend_selection}
use foxhole.Sandbox.Policy.{restricted_process}
use foxhole.Sandbox.FileName.{is_windows_file_name, passes_common, passes_windows_rules}
use foxhole.Sandbox.Request.{
  SandboxRequest, MappedPath, read_only, hyperv_request, restricted_request, default_limits,
  validate_common, validate_mappings, is_bad_name,
}
use foxhole.Sandbox.Request.Soundness.{IsSound, validate_common-IsSound}
use foxhole.Sandbox.Dispatcher.{
  auto, hyper_v, HyperVCapabilityEvidence, unavailable, BackendSelection, resolve_backend, resolve,
  selection, unavailable_reason, fallback_warning_prefix,
}
use foxhole.Sandbox.Dispatcher.Fallback.{
  IsJustified, resolve_backend-IsJustified, resolve_backend_fails_iff,
}

abbrev mapping : Text → MappedPath
mapping name = record { host_path = codes "D:\\in"; guest_name = name; access = read_only }

abbrev request : SandboxRequest
request = record (hyperv_request (codes "sample.exe")) {
  mapped_paths = mapping (codes "report.txt") ∷ mapping (codes "notes.txt") ∷ [];
}

request_valid : validate_common request ≡ ok tt
unfolding validate_common validate_mappings is_bad_name is_windows_file_name passes_common
    passes_windows_rules hyperv_request restricted_request default_limits
request_valid = refl

device_refused : is_windows_file_name (codes "com1.txt") ≡ false
unfolding is_windows_file_name passes_common passes_windows_rules
device_refused = refl

validate_common-IsSound_example : IsSound request
validate_common-IsSound_example = validate_common-IsSound request request_valid

abbrev evidence : HyperVCapabilityEvidence
evidence = record { availability = unavailable; reason = some (codes "no hypervisor") }

abbrev chosen : BackendSelection
chosen = record {
  requested = auto;
  selected = restricted_process;
  fallback_used = true;
  warnings = (fallback_warning_prefix ++ codes ": no hypervisor") ∷ [];
}

chosen_made : resolve_backend auto evidence true ≡ ok chosen
unfolding resolve_backend resolve selection unavailable_reason
chosen_made = refl

resolve_backend-IsJustified_example : IsJustified auto evidence true chosen
resolve_backend-IsJustified_example =
    resolve_backend-IsJustified auto evidence true chosen chosen_made

resolve_backend_fails_iff_example :
    (resolve_backend hyper_v evidence true ≡ err backend_selection)
    ↔ ((unavailable ≡ unavailable) × ((hyper_v ≡ hyper_v) ⊎ ((hyper_v ≡ auto) × (true ≡ false))))
resolve_backend_fails_iff_example = resolve_backend_fails_iff hyper_v evidence true
