-- ===== src/Collection/Tests.antt =====
-- The status files of a run that completed, and that they are accepted.
use foxhole.Prelude.{
  ℕ, ◌≡◌, refl, List, [], ◌∷◌, some, none, ok, true, false, codes, Text, replicate,
}
use foxhole.Prelude.Sort.{sort_by, insert_sorted}
use foxhole.Protocol.Fields.{validate_protocol_version, validate_run_id, validate_sha256}
use foxhole.Protocol.State.{
  ProtocolState, host_ready, request_written, start_allowed, guest_ready, running, completed,
  shutdown_ready, actor as owner, file_name,
}
use foxhole.Protocol.Status.{StatusRecord, validate_status}
use foxhole.Protocol.Envelope.{GuestTerminalOutcome}
use foxhole.Protocol.Machine.{new_machine, observe}
use foxhole.Collection.{
  StatusDirectory, StatusFile, absent, holds, DirectoryEntry, all_protocol_states, allowed_names,
  check_name, check_entries, read_file, read_records, observe_record, observe_records,
  outcome_matches, check_reached, sequence_le, validate_status_chain,
}
use foxhole.Collection.Chain.{IsChain, validate_status_chain-IsChain}

abbrev run : Text
run = codes "run-00000001"

abbrev request_digest : Text
request_digest = replicate 64 b'a'

abbrev result_digest : Text
result_digest = replicate 64 b'b'

abbrev status : ℕ → ProtocolState → StatusRecord
status n s = record {
  protocol_version = 2;
  run_id = run;
  sequence = n;
  actor = owner s;
  state = s;
  timestamp_ms = 1700000000000;
  request_sha256 = some request_digest;
  result_sha256 = none;
  error = none;
}

abbrev final : ℕ → ProtocolState → StatusRecord
final n s = record (status n s) { result_sha256 = some result_digest }

abbrev file : ProtocolState → StatusFile
file host_ready = holds (status 1 host_ready)
file request_written = holds (status 2 request_written)
file start_allowed = holds (status 3 start_allowed)
file guest_ready = holds (status 4 guest_ready)
file running = holds (status 5 running)
file completed = holds (final 6 completed)
file shutdown_ready = holds (final 7 shutdown_ready)
file _ = absent

abbrev entry : ProtocolState → DirectoryEntry
entry s = record { readable = true; name = some (file_name s); is_link = false; is_file = true }

abbrev directory : StatusDirectory
directory = record { is_plain = true; entries = entry host_ready ∷ entry running ∷ []; file = file }

accepted_directory :
    validate_status_chain directory run request_digest result_digest GuestTerminalOutcome.completed
    ≡ ok tt
unfolding validate_status_chain check_entries check_name allowed_names read_records read_file
    observe_records observe_record observe validate_status validate_protocol_version validate_run_id
    validate_sha256 owner file_name new_machine sort_by insert_sorted check_reached outcome_matches
accepted_directory = refl

validate_status_chain-IsChain_example :
    (records : List StatusRecord) × (read_records file all_protocol_states ≡ ok records)
    × IsChain run request_digest result_digest GuestTerminalOutcome.completed
        (sort_by sequence_le records)
validate_status_chain-IsChain_example =
    validate_status_chain-IsChain directory run request_digest result_digest
      GuestTerminalOutcome.completed accepted_directory
