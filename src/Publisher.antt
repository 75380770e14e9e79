-- ===== src/Publisher.antt =====
-- The guest's side of the protocol: `StatusPublisher` of guest-agent/src/artifacts.rs.
pub mod Sources
pub mod Waiting
pub mod Opening
pub mod Saying
pub mod Course
mod Tests
use foxhole.Prelude.{
  ℕ, zero, suc, ◌+◌, Bool, true, false, not, ◌&&◌, ◌||◌, List, [], ◌∷◌, Option, none, some, ltb,
  leb, ◌==◌, if◌then◌else◌, Result, ok, err, ◌>>◌, ◌>>=◌, refuse_if, map_err, Text,
  eq_ignore_ascii_case,
}
use foxhole.Prelude.Sort.{sort_by}
use foxhole.Protocol.Errors.{ProtocolError}
use foxhole.Protocol.State.{
  ProtocolState, host_ready, request_written, start_allowed, cancel_requested, guest_ready, running,
  completed, failed, shutdown_ready, ◌=state◌, contains,
}
use foxhole.Protocol.Status.{StatusRecord, GuestError, new_status, validate_status}
use foxhole.Protocol.Machine.{Machine, new_machine, observe, has_seen}
use foxhole.Collection.{StatusFile, absent, unreadable, malformed, holds, sequence_le}
use foxhole.Report.Timeline.{u64_max}

-- The reasons of a refusal, by their codes.
pub data AgentError : Type 0 where
  invalid_run_id invalid_status invalid_host_state invalid_guest_state : ProtocolError → AgentError
  stale_guest_state : ProtocolState → AgentError
  inspect_output stale_output invalid_status_json request_digest_mismatch : AgentError
  host_not_ready publish_guest_state start_timeout : AgentError

-- The status directory, by the files of the states.
abbrev pub Files : Type 0
Files = ProtocolState → StatusFile

-- The output directory: its number of entries, unless it cannot be read.
abbrev pub Output : Type 0
Output = Option ℕ

pub record Publisher : Type 0 where
  pub request_sha256 : Text
  pub machine : Machine

abbrev pub exists : StatusFile → Bool
exists absent = false
exists _ = true

unfoldable pub read_status : StatusFile → Result AgentError StatusRecord
read_status (holds r) = do map_err invalid_status (validate_status r); ok r
read_status _ = err invalid_status_json

abbrev pub digest_differs : Text → Option Text → Bool
digest_differs expected none = false
digest_differs expected (some actual) = not (eq_ignore_ascii_case actual expected)

unfoldable pub validate_request_digest : StatusRecord → Text → Result AgentError (Unit {0})
validate_request_digest r expected =
    refuse_if (digest_differs expected r.request_sha256) request_digest_mismatch

unfoldable pub reject_guest_states : Files → List ProtocolState → Result AgentError (Unit {0})
reject_guest_states files [] = ok tt
reject_guest_states files (s ∷ states) = do
  refuse_if (exists (files s)) (stale_guest_state s)
  reject_guest_states files states

unfoldable pub reject_output : Output → Result AgentError (Unit {0})
reject_output none = err inspect_output
reject_output (some entries) = refuse_if (ltb 0 entries) stale_output

unfoldable pub reject_existing_guest_states : Files → Output → Result AgentError (Unit {0})
reject_existing_guest_states files output = do
  reject_guest_states files (guest_ready ∷ running ∷ completed ∷ failed ∷ shutdown_ready ∷ [])
  reject_output output

-- The records of the states that have a file, but for those that `skip` names.
unfoldable pub read_states :
    (ProtocolState → Bool) → Files → List ProtocolState → Result AgentError (List StatusRecord)
read_states skip files [] = ok []
read_states skip files (s ∷ states) =
    let passed = read_states skip files states in
    if skip s || not (exists (files s))
    then passed
    else (do r ← read_status (files s); records ← passed; ok (r ∷ records))

-- The machine is left as far as the records were taken.
abbrev pub take_next :
    Machine × Result ProtocolError (Unit {0})
    → (Machine → Machine × Result AgentError (Unit {0}))
    → Machine × Result AgentError (Unit {0})
take_next (machine, ok done) next = next machine
take_next (machine, err e) next = (machine, err (invalid_host_state e))

abbrev pub if_bound :
    Machine
    → Result AgentError (Unit {0})
    → Machine × Result AgentError (Unit {0})
    → Machine × Result AgentError (Unit {0})
if_bound machine (ok done) next = next
if_bound machine (err e) next = (machine, err e)

unfoldable pub take_records :
    Text → Machine → List StatusRecord → Machine × Result AgentError (Unit {0})
take_records request_sha256 machine [] = (machine, ok tt)
take_records request_sha256 machine (r ∷ records) =
    if_bound machine (validate_request_digest r request_sha256)
      (take_next (observe machine r) λ machine'. take_records request_sha256 machine' records)

abbrev pub taken : Machine × Result AgentError (Unit {0}) → Result AgentError Machine
taken (machine, ok done) = ok machine
taken (machine, err e) = err e

unfoldable pub open_publisher : Files → Output → Text → Text → Result AgentError Publisher
open_publisher files output run_id request_sha256 = do
  machine ← map_err invalid_run_id (new_machine run_id)
  reject_existing_guest_states files output
  records ←
      read_states (λ s. false) files
        (host_ready ∷ request_written ∷ start_allowed ∷ cancel_requested ∷ [])
  machine' ← taken (take_records request_sha256 machine (sort_by sequence_le records))
  refuse_if (not (has_seen machine' host_ready) || not (has_seen machine' request_written))
      host_not_ready
  ok (record { request_sha256 = request_sha256; machine = machine' })

unfoldable pub guest_record :
    Publisher → ProtocolState → Option GuestError → Option Text → (timestamp_ms : ℕ) → StatusRecord
guest_record publisher state error result_sha256 timestamp_ms =
    let last = publisher.machine.last_sequence in
    let sequence = if ltb last u64_max then suc last else u64_max in
    record (new_status publisher.machine.run_id sequence state timestamp_ms) {
      request_sha256 = some publisher.request_sha256;
      result_sha256 = result_sha256;
      error = error;
    }

abbrev pub set_file : ProtocolState → StatusFile → Files → Files
set_file s file files t = if s =state t then file else files t

-- `write_atomic_json_new`: a file that exists is not replaced. `written` tells whether the file
-- system did the rest.
abbrev pub write_new : Bool → ProtocolState → StatusRecord → Files → Option Files
write_new written s r files =
    if written && not (exists (files s)) then some (set_file s (holds r) files) else none

abbrev pub publish_file :
    Publisher → Files → Machine → Option Files → Publisher × Files × Result AgentError (Unit {0})
publish_file publisher files machine none = (publisher, files, err publish_guest_state)
publish_file publisher files machine (some files') =
    (record publisher { machine = machine }, files', ok tt)

-- `next.observe(&record)?`, then the file, then `self.machine = next`
abbrev pub publish_next :
    Publisher
    → Files
    → Option Files
    → Machine × Result ProtocolError (Unit {0})
    → Publisher × Files × Result AgentError (Unit {0})
publish_next publisher files files' (machine, ok done) = publish_file publisher files machine files'
publish_next publisher files files' (machine, err e) =
    (publisher, files, err (invalid_guest_state e))

unfoldable pub publish :
    Publisher
    → Files
    → (written : Bool) (timestamp_ms : ℕ) → ProtocolState
    → Option GuestError
    → Option Text
    → Publisher × Files × Result AgentError (Unit {0})
publish publisher files written timestamp_ms state error result_sha256 =
    let r = guest_record publisher state error result_sha256 timestamp_ms in
    publish_next publisher files (write_new written state r files) (observe publisher.machine r)

pub data StartDecision : Type 0 where
  start cancel : StartDecision

abbrev pub decided : Machine → Option StartDecision
decided machine =
    if has_seen machine cancel_requested
    then some cancel
    else if has_seen machine start_allowed
    then some start
    else none

abbrev pub take_found :
    Publisher → Result AgentError (List StatusRecord) → Machine × Result AgentError (Unit {0})
take_found publisher (err e) = (publisher.machine, err e)
take_found publisher (ok records) =
    take_records publisher.request_sha256 publisher.machine (sort_by sequence_le records)

-- One round of the loop: the new records of the two states, as the directory is found.
unfoldable pub poll : Publisher → Files → Machine × Result AgentError (Unit {0})
poll publisher files =
    take_found publisher
      (read_states (has_seen publisher.machine) files (start_allowed ∷ cancel_requested ∷ []))

abbrev pub unless_decided :
    Publisher
    → Option StartDecision
    → Publisher × Result AgentError StartDecision
    → Publisher × Result AgentError StartDecision
unless_decided publisher (some decision) again = (publisher, ok decision)
unless_decided publisher none again = again

abbrev pub after_poll :
    Publisher
    → Machine × Result AgentError (Unit {0})
    → (Publisher → Publisher × Result AgentError StartDecision)
    → Publisher × Result AgentError StartDecision
after_poll publisher (machine, err e) again = (record publisher { machine = machine }, err e)
after_poll publisher (machine, ok done) again =
    let publisher' : Publisher = record publisher { machine = machine } in
    unless_decided publisher' (decided machine) (again publisher')

-- The loop over the directory as each round finds it; when the rounds are over, so is the time.
unfoldable pub poll_all : Publisher → List Files → Publisher × Result AgentError StartDecision
poll_all publisher [] = (publisher, err start_timeout)
poll_all publisher (files ∷ rounds) =
    after_poll publisher (poll publisher files) λ publisher'. poll_all publisher' rounds

unfoldable pub wait_for_start_or_cancel :
    Publisher → List Files → Publisher × Result AgentError StartDecision
wait_for_start_or_cancel publisher rounds =
    unless_decided publisher (decided publisher.machine) (poll_all publisher rounds)
