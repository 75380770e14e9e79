-- ===== src/Protocol/Machine.antt =====
-- `ProtocolStateMachine` of src/sandbox/hyperv/guest_protocol.rs. A method on `&mut self` returns
-- the machine that it leaves and its result.
pub mod Phases
pub mod Refinement
pub mod Traces
use foxhole.Prelude.{
  ℕ, Bool, not, ◌&&◌, ◌||◌, List, [], ◌∷◌, leb, if◌then◌else◌, is_empty, ok, err, ◌>>◌, refuse_if,
  Text, ◌=text◌,
}
use foxhole.Protocol.Errors.{
  ProtocolResult, state_run_mismatch, state_sequence, state_replay, state_terminal,
  state_transition,
}
use foxhole.Protocol.Fields.{validate_run_id}
use foxhole.Protocol.State.{
  ProtocolState, host_ready, request_written, start_allowed, cancel_requested, guest_ready, running,
  completed, failed, shutdown_ready, ◌=state◌, contains,
}
use foxhole.Protocol.Status.{StatusRecord, validate_status}

pub record Machine : Type 0 where
  pub run_id : Text
  pub seen : List ProtocolState
  pub last_sequence : ℕ

unfoldable pub new_machine : Text → ProtocolResult Machine
new_machine run_id = do
  validate_run_id run_id
  ok (record { run_id = run_id; seen = []; last_sequence = 0 })

abbrev pub has_seen : Machine → ProtocolState → Bool
has_seen m s = contains m.seen s

abbrev is_terminal : List ProtocolState → Bool
is_terminal seen =
    contains seen completed
    || contains seen failed
    || contains seen cancel_requested
    || contains seen shutdown_ready

-- the `match state` of `validate_prerequisites`
abbrev prerequisites : List ProtocolState → ProtocolState → Bool
prerequisites seen host_ready = is_empty seen
prerequisites seen request_written = contains seen host_ready
prerequisites seen start_allowed =
    contains seen request_written && not (contains seen running) && not (is_terminal seen)
prerequisites seen guest_ready = contains seen request_written && not (is_terminal seen)
prerequisites seen running =
    contains seen guest_ready && contains seen start_allowed && not (is_terminal seen)
prerequisites seen completed = contains seen running && not (is_terminal seen)
prerequisites seen failed = contains seen request_written && not (is_terminal seen)
prerequisites seen cancel_requested =
    contains seen request_written && not (contains seen completed) && not (contains seen failed)
prerequisites seen shutdown_ready =
    contains seen completed || contains seen failed || contains seen cancel_requested

pub validate_prerequisites : List ProtocolState → ProtocolState → ProtocolResult Unit
validate_prerequisites seen state = do
  refuse_if (is_terminal seen && not (state =state shutdown_ready)) state_terminal
  if prerequisites seen state then ok tt else err state_transition

-- `HashSet::insert`
abbrev pub insert_state : ProtocolState → List ProtocolState → List ProtocolState
insert_state s seen = if contains seen s then seen else s ∷ seen

pub check_record : Machine → StatusRecord → ProtocolResult Unit
check_record m r = do
  validate_status r
  refuse_if (not (r.run_id =text m.run_id)) state_run_mismatch
  refuse_if (leb r.sequence m.last_sequence) state_sequence
  refuse_if (contains m.seen r.state) state_replay
  validate_prerequisites m.seen r.state

unfoldable pub observe : Machine → StatusRecord → Machine × ProtocolResult Unit
unfolding check_record validate_prerequisites
observe m r = elim (check_record m r) [
  | err e ↦ (m, err e)
  | ok _ ↦ (record m { last_sequence = r.sequence; seen = insert_state r.state m.seen }, ok tt)
]

-- Every record in turn; a refused one is skipped, as the collector and the tests do.
unfoldable pub observe_all : Machine → List StatusRecord → Machine
unfolding observe
observe_all m [] = m
observe_all m (r ∷ rs) = observe_all (observe m r).0 rs
