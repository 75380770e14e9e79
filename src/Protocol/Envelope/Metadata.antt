-- ===== src/Protocol/Envelope/Metadata.antt =====
-- What the metadata of a result says when it passes the validation of
-- src/sandbox/hyperv/guest_protocol.rs.
use foxhole.Prelude.{
  ℕ, ◌+◌, ◌≤◌, ◌≡◌, Bool, true, false, List, [], ◌∷◌, arith, ok, refuse_if, refuse_if_ok, >>-eq-ok,
  All, Text, split_on, has_text, length, ◌↔◌, ◌⊎◌,
}
use foxhole.Protocol.Errors.{
  invalid_artifact, max_artifacts, max_artifact_bytes, max_total_artifact_bytes,
}
use foxhole.Protocol.Fields.Paths.{IsSafe, validate_relative_wire_path_ok}
use foxhole.Protocol.Status.Validity.{IsSha256, validate_sha256-IsSha256}
use foxhole.Protocol.Envelope.{
  GuestTerminalOutcome, completed, timed_out, agent_failed, ArtifactManifestEntry,
  validate_artifact, validate_artifacts, validate_outcome, GuestResultEnvelope, is_present,
  validate_metadata,
}

pub record IsEntry (a : ArtifactManifestEntry) : Type 0 where
  pub safe : All IsSafe (split_on b'/' a.relative_path)
  pub bounded : a.size_bytes ≤ max_artifact_bytes
  pub hashed : IsSha256 a.sha256

validate_artifact-IsEntry : (a : ArtifactManifestEntry) → validate_artifact a ≡ ok tt → IsEntry a
unfolding validate_artifact
validate_artifact-IsEntry a h = record {
  safe = validate_relative_wire_path_ok a.relative_path (ground arith);
  bounded = ground arith;
  hashed = validate_sha256-IsSha256 a.sha256 (ground arith);
}

abbrev pub total_bytes : List ArtifactManifestEntry → ℕ
total_bytes [] = 0
total_bytes (a ∷ rest) = a.size_bytes + total_bytes rest

module _ (to_lowercase : Text → Text) where
  -- No path is one of those given or of another entry, in lower case.
  abbrev pub AreNew : List Text → List ArtifactManifestEntry → Type 0
  AreNew paths [] = Unit
  AreNew paths (a ∷ rest) =
      (has_text (to_lowercase a.relative_path) paths ≡ false)
      × AreNew (to_lowercase a.relative_path ∷ paths) rest

  artifacts_sound :
      (paths : List Text) (total : ℕ) (entries : List ArtifactManifestEntry)
      → validate_artifacts to_lowercase paths total entries ≡ ok tt
      → All IsEntry entries
        × AreNew paths entries
        × (total + total_bytes entries ≤ max_total_artifact_bytes)
  unfolding validate_artifacts
  artifacts_sound paths total [] h = (tt, tt, ground arith)
  artifacts_sound paths total (a ∷ rest) h =
      let (entry, later) = >>-eq-ok (validate_artifact a) _ h in
      let (new, later) =
        >>-eq-ok (refuse_if (has_text (to_lowercase a.relative_path) paths) invalid_artifact) _
          later in
      let (_, later) = >>-eq-ok (refuse_if _ invalid_artifact) _ later in
      let (entries, fresh, bytes) =
        artifacts_sound (to_lowercase a.relative_path ∷ paths) (total + a.size_bytes) rest later in
      (
        (validate_artifact-IsEntry a entry, entries),
        (refuse_if_ok (has_text (to_lowercase a.relative_path) paths) invalid_artifact new, fresh),
        omega (arith, bytes),
      )

  -- The outcome says what the result holds.
  pub record IsConsistent {T : Type 0} (e : GuestResultEnvelope T) : Type 0 where
    pub entries : All IsEntry e.artifacts
    pub distinct : AreNew [] e.artifacts
    pub count : length e.artifacts ≤ max_artifacts
    pub bytes : total_bytes e.artifacts ≤ max_total_artifact_bytes
    pub executed :
        (is_present e.execution ≡ true) ↔ ((e.outcome ≡ completed) ⊎ (e.outcome ≡ timed_out))
    pub failed : (is_present e.error ≡ true) ↔ (e.outcome ≡ agent_failed)

  -- the execution's and the error's part
  outcome_sound :
      (o : GuestTerminalOutcome) (executed failed : Bool)
      → validate_outcome o executed failed ≡ ok tt
      → ((executed ≡ true) ↔ ((o ≡ completed) ⊎ (o ≡ timed_out)))
        × ((failed ≡ true) ↔ (o ≡ agent_failed))
  unfolding validate_outcome
  outcome_sound o executed failed h = ground arith

  manifest_part :
      {T : Type 0} (e : GuestResultEnvelope T)
      → validate_metadata to_lowercase e ≡ ok tt
      → (length e.artifacts ≤ max_artifacts)
        × (validate_artifacts to_lowercase [] 0 e.artifacts ≡ ok tt)
        × (validate_outcome e.outcome (is_present e.execution) (is_present e.error) ≡ ok tt)
  unfolding validate_metadata
  manifest_part e h = ground arith

-- Metadata that passes lists at most 4096 artifacts of at most 128 MiB each and 512 MiB together,
-- with safe path components, well-formed digests and paths that are distinct in lower case; it
-- holds an execution exactly when the outcome is completed or timed out, and an error exactly when
-- the agent failed.
pub validate_metadata-IsConsistent :
    (to_lowercase : Text → Text) {T : Type 0} (e : GuestResultEnvelope T)
    → validate_metadata to_lowercase e ≡ ok tt
    → IsConsistent to_lowercase e
validate_metadata-IsConsistent to_lowercase e h =
    let (count, artifacts, outcome) = manifest_part to_lowercase e h in
    let (entries, distinct, bytes) = artifacts_sound to_lowercase [] 0 e.artifacts artifacts in
    let (executed, failed) =
      outcome_sound to_lowercase e.outcome (is_present e.execution) (is_present e.error) outcome in
    record {
      entries = entries;
      distinct = distinct;
      count = count;
      bytes = omega (arith, bytes);
      executed = executed;
      failed = failed;
    }
