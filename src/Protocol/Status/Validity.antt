-- ===== src/Protocol/Status/Validity.antt =====
-- What `StatusRecord::validate` of src/sandbox/hyperv/guest_protocol.rs establishes.
use foxhole.Prelude.{
  ℕ, ◌≤◌, ◌<◌, ◌≡◌, ◌↔◌, refl, Bool, true, not, ◌&&◌, ◌||◌, Option, none, some, arith, ◌==◌, all,
  within, ok, err, ◌>>=◌, refuse_if, ok_or, if◌then◌else◌, Text, byte_len, is_ascii_hexdigit,
}
use foxhole.Protocol.Errors.{
  ProtocolError, ProtocolResult, invalid_run_id, invalid_checksum, protocol_version, invalid_status,
}
use foxhole.Protocol.Fields.{
  validate_protocol_version, validate_sha256, validate_run_id, run_id_char,
}
use foxhole.Protocol.State.{actor, completed, failed}
use foxhole.Protocol.Status.{StatusRecord, validate_status, is_some, if_some}

abbrev pub IsSha256 : Text → Type 0
IsSha256 d = (byte_len d ≡ 64) × (all is_ascii_hexdigit d ≡ true)

pub record IsRunId (id : Text) : Type 0 where
  pub at_least : 8 ≤ byte_len id
  pub at_most : byte_len id ≤ 64
  pub plain : all run_id_char id ≡ true

-- A digest that is there has the form of a SHA-256.
abbrev pub IsSha256? : Option Text → Type 0
IsSha256? none = Unit
IsSha256? (some d) = IsSha256 d

pub record IsAuthentic (r : StatusRecord) : Type 0 where
  pub version : r.protocol_version ≡ protocol_version
  pub run : IsRunId r.run_id
  pub numbered : 0 < r.sequence
  pub owned : r.actor ≡ actor r.state
  pub request : is_some r.request_sha256 ≡ true
  pub request_form : IsSha256? r.request_sha256
  pub result_form : IsSha256? r.result_sha256
  pub error_exactly : (r.state ≡ failed) ↔ (is_some r.error ≡ true)
  pub result_of_completed : r.state ≡ completed → is_some r.result_sha256 ≡ true

pub validate_protocol_version_ok :
    (v : ℕ) → validate_protocol_version v ≡ ok tt → v ≡ protocol_version
unfolding validate_protocol_version
validate_protocol_version_ok v h = ground arith

split_tests :
    (a b : Bool) (e : ProtocolError)
    → refuse_if (not a || not b) e ≡ ok tt
    → (a ≡ true) × (b ≡ true)
split_tests a b e h = ground arith

within-le : (lo hi x : ℕ) → within lo hi x ≡ true → (lo ≤ x) × (x ≤ hi)
within-le lo hi x h = ground arith

pub validate_run_id-IsRunId : (id : Text) → validate_run_id id ≡ ok tt → IsRunId id
unfolding validate_run_id
validate_run_id-IsRunId id h =
    let (size, plain) =
      split_tests (within 8 64 (byte_len id)) (all run_id_char id) invalid_run_id h in
    let (low, high) = within-le 8 64 (byte_len id) size in
    record { at_least = low; at_most = high; plain = plain }

both :
    (n : ℕ) (b : Bool) (e : ProtocolError)
    → ◌≡◌ {A = ProtocolResult Unit} (if n == 64 && b then ok tt else err e) (ok tt)
    → (n ≡ 64) × (b ≡ true)
both n b e h = ground arith

pub validate_sha256-IsSha256 : (d : Text) → validate_sha256 d ≡ ok tt → IsSha256 d
unfolding validate_sha256
validate_sha256-IsSha256 d h = both (byte_len d) (all is_ascii_hexdigit d) invalid_checksum h

if_some-IsSha256? : (o : Option Text) → if_some o validate_sha256 ≡ ok tt → IsSha256? o
if_some-IsSha256? none h = tt
if_some-IsSha256? (some d) h = validate_sha256-IsSha256 d h

request_form :
    (o : Option Text)
    → (ok_or o invalid_status >>= validate_sha256) ≡ ok tt
    → (is_some o ≡ true) × IsSha256? o
request_form none h = ground arith
request_form (some d) h = (refl, validate_sha256-IsSha256 d h)

-- A status record that passes belongs to protocol version 2, has a positive number, the actor of
-- its state and well-formed digests, carries an error exactly when it reports a failure, and a
-- result digest when it reports completion.
pub validate_status-IsAuthentic : (r : StatusRecord) → validate_status r ≡ ok tt → IsAuthentic r
unfolding validate_status
validate_status-IsAuthentic r h = record {
  version = validate_protocol_version_ok r.protocol_version (ground arith);
  run = validate_run_id-IsRunId r.run_id (ground arith);
  numbered = ground arith;
  owned = ground arith;
  request = (request_form r.request_sha256 (ground arith)).0;
  request_form = (request_form r.request_sha256 (ground arith)).1;
  result_form = if_some-IsSha256? r.result_sha256 (ground arith);
  error_exactly = ground arith;
  result_of_completed = ground arith;
}
