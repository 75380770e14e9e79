-- ===== src/Collection.antt =====
-- What the host makes of the guest's status files after a run: `validate_status_chain` of
-- src/sandbox/hyperv/result_collector.rs.
pub mod Archive
pub mod Taken
pub mod Chain
mod Tests
use foxhole.Prelude.{
  ℕ, zero, suc, Bool, true, false, not, ◌&&◌, ◌||◌, List, [], ◌∷◌, ◌++◌, map, Option, none, some,
  ltb, leb, ◌==◌, if◌then◌else◌, Result, ok, err, ◌>>◌, ◌>>=◌, refuse_if, map_err, Text, codes,
  ◌=text◌, has_text,
}
use foxhole.Prelude.Sort.{sort_by}
use foxhole.Protocol.Errors.{ProtocolError}
use foxhole.Protocol.Fields.{validate_sha256}
use foxhole.Protocol.State.{
  ProtocolState, host_ready, request_written, start_allowed, cancel_requested, guest_ready, running,
  completed, failed, shutdown_ready, file_name, ◌=state◌, contains,
}
use foxhole.Protocol.Status.{StatusRecord}
use foxhole.Protocol.Machine.{Machine, new_machine, observe, has_seen}
use foxhole.Protocol.Envelope.{GuestTerminalOutcome}

-- The reasons of a refusal, by their messages.
pub data CollectionError : Type 0 where
  protocol : ProtocolError → CollectionError
  directory_refused entry_unreadable too_many_entries not_unicode unexpected_entry : CollectionError
  linked_entry irregular_entry status_unreadable status_malformed : CollectionError
  contradicts_name unbound_request unauthenticated_result unexpected_result : CollectionError
  unreached : ProtocolState → CollectionError
  omitted_guest_ready contradicts_outcome : CollectionError

pub record DirectoryEntry : Type 0 where
  pub readable : Bool
  -- `None` if it is not Unicode
  pub name : Option Text
  pub is_link : Bool
  pub is_file : Bool

pub data StatusFile : Type 0 where
  absent unreadable malformed : StatusFile
  holds : StatusRecord → StatusFile

-- The status directory as it is found: whether it is a plain directory, what enumerating it
-- gives, and what reading the file of each state gives.
pub record StatusDirectory : Type 0 where
  pub is_plain : Bool
  pub entries : List DirectoryEntry
  pub file : ProtocolState → StatusFile

abbrev pub all_protocol_states : List ProtocolState
all_protocol_states =
    host_ready ∷ request_written ∷ start_allowed ∷ cancel_requested ∷ guest_ready ∷ running
    ∷ completed ∷ failed ∷ shutdown_ready ∷ []

unfoldable pub allowed_names : List Text
allowed_names = codes "agent-claim.json" ∷ map file_name all_protocol_states

unfoldable pub check_name : Option Text → Result CollectionError (Unit {0})
check_name none = err not_unicode
check_name (some name) = refuse_if (not (has_text name allowed_names)) unexpected_entry

unfoldable pub check_entries : ℕ → List DirectoryEntry → Result CollectionError (Unit {0})
check_entries entry_count [] = ok tt
check_entries entry_count (entry ∷ entries) = do
  refuse_if (not entry.readable) entry_unreadable
  refuse_if (ltb 16 (suc entry_count)) too_many_entries
  check_name entry.name
  refuse_if entry.is_link linked_entry
  refuse_if (not entry.is_file) irregular_entry
  check_entries (suc entry_count) entries

-- The record that a status file gives, if there is one.
unfoldable pub read_file : ProtocolState → StatusFile → Result CollectionError (List StatusRecord)
read_file state absent = ok []
read_file state unreadable = err status_unreadable
read_file state malformed = err status_malformed
read_file state (holds r) = do refuse_if (not (r.state =state state)) contradicts_name; ok (r ∷ [])

unfoldable pub read_records :
    (ProtocolState → StatusFile) → List ProtocolState → Result CollectionError (List StatusRecord)
read_records file [] = ok []
read_records file (state ∷ states) = do
  found ← read_file state (file state)
  records ← read_records file states
  ok (found ++ records)

abbrev pub is_digest : Text → Option Text → Bool
is_digest expected none = false
is_digest expected (some actual) = actual =text expected

abbrev pub is_result_state : ProtocolState → Bool
is_result_state s = (s =state completed) || (s =state failed) || (s =state shutdown_ready)

abbrev pub has_digest : Option Text → Bool
has_digest none = false
has_digest (some digest) = true

-- `machine.observe(record).map_err(...)?`
abbrev pub observed : Machine × Result ProtocolError (Unit {0}) → Result CollectionError Machine
observed (machine, ok done) = ok machine
observed (machine, err e) = err (protocol e)

unfoldable pub observe_record :
    Text → Text → Machine → StatusRecord → Result CollectionError Machine
observe_record request_sha256 result_sha256 machine r = do
  refuse_if (not (is_digest request_sha256 r.request_sha256)) unbound_request
  machine' ← observed (observe machine r)
  refuse_if (is_result_state r.state && not (is_digest result_sha256 r.result_sha256))
      unauthenticated_result
  refuse_if (not (is_result_state r.state) && has_digest r.result_sha256) unexpected_result
  ok machine'

unfoldable pub observe_records :
    Text → Text → Machine → List StatusRecord → Result CollectionError Machine
observe_records request_sha256 result_sha256 machine [] = ok machine
observe_records request_sha256 result_sha256 machine (r ∷ records) = do
  machine' ← observe_record request_sha256 result_sha256 machine r
  observe_records request_sha256 result_sha256 machine' records

abbrev pub has_run : GuestTerminalOutcome → Bool
has_run GuestTerminalOutcome.completed = true
has_run GuestTerminalOutcome.timed_out = true
has_run _ = false

unfoldable pub outcome_matches : (ProtocolState → Bool) → GuestTerminalOutcome → Bool
outcome_matches seen GuestTerminalOutcome.completed =
    seen running && seen completed && not (seen failed) && not (seen cancel_requested)
outcome_matches seen GuestTerminalOutcome.timed_out =
    seen running && seen completed && not (seen failed) && not (seen cancel_requested)
outcome_matches seen GuestTerminalOutcome.agent_failed =
    seen failed && not (seen completed) && not (seen cancel_requested)
outcome_matches seen GuestTerminalOutcome.cancelled =
    seen cancel_requested && not (seen completed) && not (seen failed)

-- What the machine must have seen in the end.
unfoldable pub check_reached :
    (ProtocolState → Bool) → GuestTerminalOutcome → Result CollectionError (Unit {0})
check_reached seen outcome = do
  refuse_if (not (seen host_ready)) (unreached host_ready)
  refuse_if (not (seen request_written)) (unreached request_written)
  refuse_if (not (seen start_allowed)) (unreached start_allowed)
  refuse_if (not (seen shutdown_ready)) (unreached shutdown_ready)
  refuse_if (has_run outcome && not (seen guest_ready)) omitted_guest_ready
  refuse_if (not (outcome_matches seen outcome)) contradicts_outcome

abbrev pub sequence_le : StatusRecord → StatusRecord → Bool
sequence_le a b = leb a.sequence b.sequence

unfoldable pub validate_status_chain :
    StatusDirectory
    → (run_id request_sha256 result_sha256 : Text) → GuestTerminalOutcome
    → Result CollectionError (Unit {0})
validate_status_chain directory run_id request_sha256 result_sha256 outcome = do
  map_err protocol (validate_sha256 request_sha256)
  refuse_if (not directory.is_plain) directory_refused
  check_entries 0 directory.entries
  records ← read_records directory.file all_protocol_states
  machine ← map_err protocol (new_machine run_id)
  machine' ← observe_records request_sha256 result_sha256 machine (sort_by sequence_le records)
  check_reached (has_seen machine') outcome
