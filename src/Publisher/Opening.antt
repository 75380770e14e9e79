-- ===== src/Publisher/Opening.antt =====
-- What the guest knows once it has opened the protocol.
use foxhole.Prelude.{
  ◌≡◌, refl, ◌⊎◌, inl, inr, true, false, not, ◌||◌, ltb, [], ◌∷◌, none, some, Result, ok, err, ◌>>◌,
  >>-eq-ok, >>=-eq-ok, refuse_if, refuse_if_ok, map_err, map_err_ok, ok_eq, Text, arith,
}
use mathlib.Core.Path.{subst}
use foxhole.Prelude.Sort.{sort_by, All-sort_by}
use foxhole.Protocol.Fields.{validate_run_id}
use foxhole.Protocol.Status.{StatusRecord}
use foxhole.Publisher.Sources.{Holds, Told, Knows, read_states-Holds, take_records-Knows}
use foxhole.Protocol.State.{
  ProtocolState, host_ready, request_written, start_allowed, cancel_requested, guest_ready, running,
  completed, failed, shutdown_ready, actor, contains,
}
use foxhole.Protocol.Machine.{Machine, new_machine, has_seen}
use foxhole.Protocol.Machine.Phases.{idle}
use foxhole.Protocol.Machine.Traces.{new-InPhase}
use foxhole.Collection.{StatusFile, absent, unreadable, malformed, holds, sequence_le}
use foxhole.Publisher.{
  AgentError, Publisher, Files, Output, exists, reject_guest_states, reject_output,
  reject_existing_guest_states, read_states, take_records, taken, open_publisher, invalid_run_id,
  host_not_ready, stale_output,
}
use foxhole.Publisher.Waiting.{InProtocol, take_records-InProtocol}
use foxhole.Publisher.Saying.{is_guest}

-- A publisher that follows the protocol, knows its states from files of its run and its request,
-- has the host's two states, and finds nothing of an earlier run.
pub record IsOpened (files : Files) (output : Output) (run_id request_sha256 : Text)
    (publisher : Publisher) : Type 0 where
  pub follows : InProtocol publisher.machine
  pub told :
      (s : ProtocolState)
      → has_seen publisher.machine s ≡ true
      → Told (Holds files) run_id request_sha256 s
  pub greeted : has_seen publisher.machine host_ready ≡ true
  pub asked : has_seen publisher.machine request_written ≡ true
  pub fresh : (s : ProtocolState) → is_guest s ≡ true → files s ≡ absent
  pub unused : output ≡ some 0

no_file : (f : StatusFile) → exists f ≡ false → f ≡ absent
no_file absent gone = refl
no_file unreadable gone = absurd (ground arith)
no_file malformed gone = absurd (ground arith)
no_file (holds r) gone = absurd (ground arith)

no_output : (output : Output) → reject_output output ≡ ok tt → output ≡ some 0
unfolding reject_output
no_output none passed = absurd (ground arith)
no_output (some entries) passed =
    let empty = refuse_if_ok (ltb 0 entries) stale_output passed in ground arith

-- A test that is passed for some states in turn is passed for each.
no_guest_file :
    (files : Files)
    → reject_guest_states files (guest_ready ∷ running ∷ completed ∷ failed ∷ shutdown_ready ∷ [])
      ≡ ok tt
    → (s : ProtocolState) → is_guest s ≡ true
    → exists (files s) ≡ false
unfolding reject_guest_states actor
no_guest_file files passed guest_ready own = ground arith
no_guest_file files passed running own = ground arith
no_guest_file files passed completed own = ground arith
no_guest_file files passed failed own = ground arith
no_guest_file files passed shutdown_ready own = ground arith
no_guest_file files passed host_ready own = absurd (ground arith)
no_guest_file files passed request_written own = absurd (ground arith)
no_guest_file files passed start_allowed own = absurd (ground arith)
no_guest_file files passed cancel_requested own = absurd (ground arith)

taken_machine :
    (o : Machine × Result AgentError (Unit {0})) {m : Machine} → taken o ≡ ok m → o.0 ≡ m
taken_machine (machine, ok done) passed = ok_eq passed
taken_machine (machine, err e) passed = absurd (ground arith)

made_machine :
    (run_id : Text) (m : Machine)
    → map_err invalid_run_id (new_machine run_id) ≡ ok m
    → InProtocol m
made_machine run_id m made =
    (idle, new-InPhase run_id m (map_err_ok invalid_run_id (new_machine run_id) made) [])

made_machine-Knows :
    (Source : StatusRecord → Type 0) (run_id request_sha256 : Text) (m : Machine)
    → map_err invalid_run_id (new_machine run_id) ≡ ok m
    → Knows Source run_id request_sha256 [] m
unfolding new_machine
made_machine-Knows Source run_id request_sha256 m made =
    let (_, same) =
      >>-eq-ok (validate_run_id run_id) _ (map_err_ok invalid_run_id (new_machine run_id) made) in
    subst (Knows Source run_id request_sha256 []) (ok_eq same)
      (record { run = refl; told = λ s seen. inl seen })

since_nothing :
    (Source : StatusRecord → Type 0) (run_id request_sha256 : Text) (s : ProtocolState)
    → (contains [] s ≡ true) ⊎ Told Source run_id request_sha256 s
    → Told Source run_id request_sha256 s
since_nothing Source run_id request_sha256 s (inl seen) = absurd (ground arith)
since_nothing Source run_id request_sha256 s (inr told) = told

-- If a guest opens the protocol on a status directory and an output directory, then its machine has
-- followed the protocol and seen that the host is ready and the request written; every state that
-- it has seen was told by a record in one of the files, which belongs to the run and names the bytes
-- of the request; there is no file of any state of the guest's, and the output directory is empty.
pub open_publisher-IsOpened :
    (files : Files) (output : Output) (run_id request_sha256 : Text) {publisher : Publisher}
    → open_publisher files output run_id request_sha256 ≡ ok publisher
    → IsOpened files output run_id request_sha256 publisher
unfolding open_publisher reject_existing_guest_states
open_publisher-IsOpened files output run_id request_sha256 {publisher} opened =
    let (machine, made, after_made) =
      >>=-eq-ok (map_err invalid_run_id (new_machine run_id)) _ opened in
    let (rejected, after_rejected) =
      >>-eq-ok
        (do
          reject_guest_states files
              (guest_ready ∷ running ∷ completed ∷ failed ∷ shutdown_ready ∷ [])
          reject_output output)
        _ after_made in
    let (no_states, no_entries) =
      >>-eq-ok
        (reject_guest_states files
          (guest_ready ∷ running ∷ completed ∷ failed ∷ shutdown_ready ∷ []))
        (reject_output output) rejected in
    let (records, found, after_found) =
      >>=-eq-ok
        (read_states (λ s. false) files
          (host_ready ∷ request_written ∷ start_allowed ∷ cancel_requested ∷ []))
        _ after_rejected in
    let (machine', passed, after_passed) =
      >>=-eq-ok (taken (take_records request_sha256 machine (sort_by sequence_le records))) _
        after_found in
    let (ready, made_publisher) =
      >>-eq-ok
        (refuse_if (not (has_seen machine' host_ready) || not (has_seen machine' request_written))
          host_not_ready)
        _ after_passed in
    let seen = refuse_if_ok _ _ ready in
    let same : record { request_sha256 = request_sha256; machine = machine' } ≡ publisher =
      ok_eq made_publisher in
    let end : InProtocol machine' =
      subst InProtocol
        (taken_machine (take_records request_sha256 machine (sort_by sequence_le records)) passed)
        (take_records-InProtocol request_sha256 machine (sort_by sequence_le records)
          (made_machine run_id machine made)) in
    let states = host_ready ∷ request_written ∷ start_allowed ∷ cancel_requested ∷ [] in
    let sources =
      All-sort_by sequence_le (Holds files) records
        (read_states-Holds (λ s. false) files states records found) in
    let knows : Knows (Holds files) run_id request_sha256 [] machine' =
      subst (Knows (Holds files) run_id request_sha256 [])
        (taken_machine (take_records request_sha256 machine (sort_by sequence_le records)) passed)
        (take_records-Knows (Holds files) run_id request_sha256 [] machine
          (sort_by sequence_le records) sources
          (made_machine-Knows (Holds files) run_id request_sha256 machine made)) in
    subst (IsOpened files output run_id request_sha256) same (record {
      follows = end;
      told = λ s seen. since_nothing (Holds files) run_id request_sha256 s (knows.told s seen);
      greeted = ground arith;
      asked = ground arith;
      fresh = λ s own. no_file (files s) (no_guest_file files no_states s own);
      unused = no_output output no_entries;
    })
