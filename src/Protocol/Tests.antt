-- ===== src/Protocol/Tests.antt =====
-- Runs of the protocol, and its theorems at concrete inputs.
use mathlib.Core.List.{reverse}
use foxhole.Prelude.{
  ℕ, false, ◌≡◌, refl, ◌≤◌, length, none, some, List, [], ◌∷◌, ◌++◌, All, arith, ok, err, Text,
  codes, replicate,
}
use foxhole.Protocol.Errors.{invalid_relative_path}
use foxhole.Protocol.Fields.{
  is_malformed_path, is_unsafe_component, is_reserved_windows_component, validate_protocol_version,
  validate_run_id, validate_sha256, wire_path_to_native, validate_relative_wire_path,
}
use foxhole.Protocol.Fields.Paths.{IsSafe, join, wire_path_to_native_below}
use foxhole.Protocol.State.{
  ProtocolState, host_ready, request_written, start_allowed, guest_ready, running, completed,
  cancel_requested, contains, actor as owner,
}
use foxhole.Protocol.Status.{StatusRecord, validate_status}
use foxhole.Protocol.Status.Validity.{IsAuthentic, validate_status-IsAuthentic}
use foxhole.Protocol.Machine.{Machine, new_machine, observe, observe_all}
use foxhole.Protocol.Machine.Phases.{members, idle, greeted, requested, InPhase}
use foxhole.Protocol.Machine.Refinement.{Follows, observe-Follows}
use foxhole.Protocol.Machine.Traces.{
  accepted, states, IsTrace, Increasing, IsOrdered, accepted-Increasing, accepted-IsTrace,
  length-accepted, observe_all-IsOrdered,
}

abbrev run : Text
run = codes "run-00000001"

abbrev digest : Text
digest = replicate 64 b'a'

abbrev start : Machine
start = record { run_id = run; seen = []; last_sequence = 0 }

made_start : new_machine run ≡ ok start
unfolding new_machine validate_run_id
made_start = refl

abbrev status : ℕ → ProtocolState → StatusRecord
status n s = record {
  protocol_version = 2;
  run_id = run;
  sequence = n;
  actor = owner s;
  state = s;
  timestamp_ms = 1700000000000;
  request_sha256 = some digest;
  result_sha256 = none;
  error = none;
}

abbrev done : ℕ → StatusRecord
done n = record (status n completed) { result_sha256 = some digest }

-- the second `guest_ready` is a replay, and nothing but a shutdown may follow the end
abbrev session : List StatusRecord
session =
    status 1 host_ready
    ∷ status 2 request_written
    ∷ status 3 start_allowed
    ∷ status 5 guest_ready
    ∷ status 6 guest_ready
    ∷ status 7 running
    ∷ done 8
    ∷ status 9 cancel_requested
    ∷ []

session_result :
    states (accepted start session)
    ≡ host_ready ∷ request_written ∷ start_allowed ∷ guest_ready ∷ running ∷ completed ∷ []
unfolding observe validate_status validate_protocol_version validate_run_id validate_sha256 owner
session_result = refl

accepted-Increasing_example : Increasing 0 (accepted start session)
accepted-Increasing_example = accepted-Increasing start session

accepted-IsTrace_example : IsTrace idle start session
accepted-IsTrace_example = accepted-IsTrace run start made_start session

length-accepted_example : length (accepted start session) ≤ 7
length-accepted_example = length-accepted run start made_start session

observe_all-IsOrdered_example : IsOrdered (contains (observe_all start session).seen)
observe_all-IsOrdered_example = observe_all-IsOrdered run start made_start session

status_valid : validate_status (status 3 request_written) ≡ ok tt
unfolding validate_status validate_protocol_version validate_run_id validate_sha256 owner
status_valid = refl

validate_status-IsAuthentic_example : IsAuthentic (status 3 request_written)
validate_status-IsAuthentic_example =
    validate_status-IsAuthentic (status 3 request_written) status_valid

abbrev greeted_machine : Machine
greeted_machine = record { run_id = run; seen = host_ready ∷ []; last_sequence = 1 }

in_greeted : InPhase greeted (host_ready ∷ [])
in_greeted = record { same = same; counted = refl; sound = refl }
  where
    same : (s : ProtocolState) → contains (host_ready ∷ []) s ≡ members greeted s
    same s = ground arith

observe-Follows_example :
    Follows greeted_machine (status 3 request_written) (some (requested false false))
observe-Follows_example =
    observe-Follows greeted_machine (status 3 request_written) greeted in_greeted
      (record { valid = status_valid; same_run = refl; later = omega arith })

abbrev wire_path : Text
wire_path = codes "input/target.exe"

abbrev native_path : List Text
native_path = codes "target.exe" ∷ codes "input" ∷ codes "data" ∷ []

path_joined : wire_path_to_native (codes "data" ∷ []) wire_path ≡ ok native_path
unfolding wire_path_to_native validate_relative_wire_path is_malformed_path is_unsafe_component
    is_reserved_windows_component
path_joined = refl

traversal_refused : wire_path_to_native [] (codes "input/../secret") ≡ err invalid_relative_path
unfolding wire_path_to_native validate_relative_wire_path is_malformed_path is_unsafe_component
    is_reserved_windows_component
traversal_refused = refl

device_refused : wire_path_to_native [] (codes "input/nul.txt") ≡ err invalid_relative_path
unfolding wire_path_to_native validate_relative_wire_path is_malformed_path is_unsafe_component
    is_reserved_windows_component
device_refused = refl

wire_path_to_native_below_example :
    (cs : List Text) × (native_path ≡ reverse cs ++ (codes "data" ∷ []))
    × All IsSafe cs
    × (join cs ≡ wire_path)
wire_path_to_native_below_example =
    wire_path_to_native_below (codes "data" ∷ []) wire_path path_joined
