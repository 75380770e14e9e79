-- ===== src/Protocol/Status.antt =====
-- `GuestError` and `StatusRecord` of src/sandbox/hyperv/guest_protocol.rs.
pub mod Validity
use foxhole.Prelude.{
  ℕ, Bool, true, false, not, ◌&&◌, Option, none, some, ◌==◌, ok, ◌>>=◌, ◌>>◌, refuse_if, ok_or,
  Text,
}
use foxhole.Protocol.Errors.{ProtocolResult, invalid_status, max_warning_bytes, protocol_version}
use foxhole.Protocol.Fields.{
  validate_protocol_version, validate_run_id, validate_sha256, validate_small_field,
}
use foxhole.Protocol.State.{
  ProtocolActor, ProtocolState, actor, completed, failed, ◌=actor◌, ◌=state◌,
}

pub record GuestError : Type 0 where
  pub stage : Text
  pub code : Text
  pub message : Text

unfoldable pub validate_guest_error : GuestError → ProtocolResult Unit
validate_guest_error e = do
  validate_small_field e.stage 128
  validate_small_field e.code 128
  validate_small_field e.message max_warning_bytes

pub record StatusRecord : Type 0 where
  pub protocol_version : ℕ
  pub run_id : Text
  pub sequence : ℕ
  pub actor : ProtocolActor
  pub state : ProtocolState
  pub timestamp_ms : ℕ
  pub request_sha256 : Option Text
  pub result_sha256 : Option Text
  pub error : Option GuestError

-- `StatusRecord::new`; the clock is the argument `timestamp_ms`
unfoldable pub new_status : Text → ℕ → ProtocolState → ℕ → StatusRecord
new_status run_id sequence state timestamp_ms = record {
  protocol_version = protocol_version;
  run_id = run_id;
  sequence = sequence;
  actor = actor state;
  state = state;
  timestamp_ms = timestamp_ms;
  request_sha256 = none;
  result_sha256 = none;
  error = none;
}

abbrev pub is_some {ℓ} : {A : Type ℓ} → Option A → Bool
is_some none = false
is_some (some _) = true

-- `if let Some(x) = o { check(x)?; }`
abbrev pub if_some {ℓ} : {A : Type ℓ} → Option A → (A → ProtocolResult Unit) → ProtocolResult Unit
if_some none check = ok tt
if_some (some a) check = check a

unfoldable pub validate_status : StatusRecord → ProtocolResult Unit
validate_status r = do
  validate_protocol_version r.protocol_version
  validate_run_id r.run_id
  refuse_if (r.sequence == 0) invalid_status
  refuse_if (not (r.actor =actor actor r.state)) invalid_status
  request_digest ← ok_or r.request_sha256 invalid_status
  validate_sha256 request_digest
  if_some r.result_sha256 validate_sha256
  if_some r.error validate_guest_error
  refuse_if ((r.state =state failed) && not (is_some r.error)) invalid_status
  refuse_if (not (r.state =state failed) && is_some r.error) invalid_status
  refuse_if ((r.state =state completed) && not (is_some r.result_sha256)) invalid_status
