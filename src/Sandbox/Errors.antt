-- ===== src/Sandbox/Errors.antt =====
-- The `stage` of a `SandboxError` of src/sandbox/backend.rs. Its message is text for people and
-- is left out.
use foxhole.Prelude.{Result}

pub data SandboxError : Type 0 where
  request_validation backend_selection hyperv_network hyperv_network_allocation : SandboxError
  hyperv_guest_request : SandboxError

abbrev pub SandboxResult : Type 0 → Type 0
SandboxResult A = Result SandboxError A
