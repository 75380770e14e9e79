-- ===== src/Publisher/Saying.antt =====
-- What the guest publishes of one message.
use foxhole.Prelude.{
  ℕ, suc, ◌+◌, ◌==◌, ◌≡◌, ◌≤◌, refl, ap, ◌∙◌, Bool, true, false, not, ◌&&◌, Option, some, ltb,
  Result, ok, Text, arith, Bool-cases, inl, inr, refuse_if, ◌>>◌,
}
use foxhole.Protocol.Errors.{ProtocolResult, invalid_status}
use foxhole.Protocol.Fields.{validate_run_id, validate_sha256, validate_protocol_version}
use foxhole.Protocol.State.{
  ProtocolState, completed, failed, ◌=state◌, ProtocolActor, host, guest, ◌=actor◌, actor, contains,
}
use foxhole.Protocol.Status.{
  StatusRecord, validate_status, new_status, GuestError, is_some, if_some, validate_guest_error,
}
use foxhole.Protocol.Machine.{insert_state}
use foxhole.Protocol.Machine.Phases.{Phase, InPhase, advance, admits-eq}
use foxhole.Protocol.Machine.Refinement.{observe_taken, check_record_ok, IsFresh, InPhase-insert}
use foxhole.Collection.{absent, holds}
use foxhole.Report.Timeline.{u64_max}
use foxhole.Publisher.{AgentError, Publisher, Files, guest_record, set_file, publish}

abbrev pub is_guest : ProtocolState → Bool
is_guest s = actor s =actor guest

-- A publisher that can go on: a run and a request that are well formed, sequence numbers left,
-- and no file of a guest's state that the machine has not seen.
pub record CanPublish (left : ℕ) (publisher : Publisher) (files : Files) (p : Phase) : Type 0 where
  pub run : validate_run_id publisher.machine.run_id ≡ ok tt
  pub request : validate_sha256 publisher.request_sha256 ≡ ok tt
  pub inside : InPhase p publisher.machine.seen
  pub numbers : publisher.machine.last_sequence + left ≤ u64_max
  pub free :
      (s : ProtocolState)
      → is_guest s ≡ true
      → contains publisher.machine.seen s ≡ false
      → files s ≡ absent

-- What the guest says of a state.
pub record Message : Type 0 where
  pub state : ProtocolState
  pub error : Option GuestError
  pub result_sha256 : Option Text

-- An error exactly for a failure, a result for a completion, and both well formed.
pub record IsSayable (message : Message) : Type 0 where
  pub own : is_guest message.state ≡ true
  pub error_exactly : (message.state =state failed) ≡ is_some message.error
  pub error_form : if_some message.error validate_guest_error ≡ ok tt
  pub with_result :
      ((message.state =state completed) && not (is_some message.result_sha256)) ≡ false
  pub result_form : if_some message.result_sha256 validate_sha256 ≡ ok tt

pub record IsPublished (left : ℕ) (q : Phase)
    (after : Publisher × Files × Result AgentError (Unit {0})) : Type 0 where
  pub outcome : after.2 ≡ ok tt
  pub ready : CanPublish left after.0 after.1 q

-- The record that a guest publishes of a message.
abbrev pub message_record :
    (run_id request_sha256 : Text) (sequence timestamp_ms : ℕ) → Message → StatusRecord
message_record run_id request_sha256 sequence timestamp_ms m = record {
  protocol_version = 2;
  run_id = run_id;
  sequence = sequence;
  actor = guest;
  state = m.state;
  timestamp_ms = timestamp_ms;
  request_sha256 = some request_sha256;
  result_sha256 = m.result_sha256;
  error = m.error;
}

-- What one message changes: the next number, and its file, which was not there.
pub record Says (publisher : Publisher) (files : Files) (timestamp_ms : ℕ) (m : Message)
    (publisher' : Publisher) (files' : Files) : Type 0 where
  pub same_run : publisher'.machine.run_id ≡ publisher.machine.run_id
  pub same_request : publisher'.request_sha256 ≡ publisher.request_sha256
  pub counted : publisher'.machine.last_sequence ≡ suc publisher.machine.last_sequence
  pub free : files m.state ≡ absent
  pub wrote :
      files'
      ≡ set_file m.state
          (holds (
            message_record publisher.machine.run_id publisher.request_sha256
              (suc publisher.machine.last_sequence)
              timestamp_ms
              m))
          files

is_guest-guest : (s : ProtocolState) → is_guest s ≡ true → actor s ≡ guest
is_guest-guest s own = is_actor (actor s) own
  where
    is_actor : (a : ProtocolActor) → (a =actor guest) ≡ true → a ≡ guest
    is_actor a same = ground arith

=actor_refl : (a : ProtocolActor) → (a =actor a) ≡ true
=actor_refl host = refl
=actor_refl guest = refl

one_error :
    (b : Bool)
    → ◌≡◌ {A = ProtocolResult (Unit {0})}
        (refuse_if (b && not b) invalid_status
          >> (refuse_if (not b && b) invalid_status >> refuse_if false invalid_status))
        (ok tt)
one_error true = refl
one_error false = refl

module _ (publisher : Publisher) (files : Files) (timestamp_ms : ℕ) (left : ℕ) (p : Phase)
    (can : CanPublish (suc left) publisher files p) (message : Message)
    (sayable : IsSayable message) where
  said : StatusRecord
  said = guest_record publisher message.state message.error message.result_sha256 timestamp_ms

  sequence_next : said.sequence ≡ suc publisher.machine.last_sequence
  unfolding said guest_record new_status
  sequence_next =
      let more : ltb publisher.machine.last_sequence u64_max ≡ true = ground (arith, can.numbers) in
      rw more refl

  said_valid : validate_status said ≡ ok tt
  unfolding said validate_status guest_record new_status validate_protocol_version
  said_valid =
      let more : ltb publisher.machine.last_sequence u64_max ≡ true = ground (arith, can.numbers) in
      let numbered : (suc publisher.machine.last_sequence == 0) ≡ false = ground arith in
      rw
        (
          more,
          can.run,
          numbered,
          =actor_refl (actor message.state),
          can.request,
          sayable.result_form,
          sayable.error_form,
          sayable.error_exactly,
          sayable.with_result,
        )
        (one_error (is_some message.error))

  -- The one new file is that of the state that is seen now.
  still_free :
      contains publisher.machine.seen message.state ≡ false
      → (s : ProtocolState) → is_guest s ≡ true
      → contains (insert_state message.state publisher.machine.seen) s ≡ false
      → set_file message.state (holds said) files s ≡ absent
  still_free new s own unseen = elim (Bool-cases (message.state =state s)) [
    | inl same ↦ absurd (ground arith)
    | inr other ↦ rw other (can.free s own (ground arith))
  ]

  said-message_record :
      said
      ≡ message_record publisher.machine.run_id publisher.request_sha256
          (suc publisher.machine.last_sequence)
          timestamp_ms
          message
  unfolding said guest_record new_status
  said-message_record =
      let more : ltb publisher.machine.last_sequence u64_max ≡ true = ground (arith, can.numbers) in
      rw (more, is_guest-guest message.state sayable.own) refl

  -- A state that the automaton takes is published, with a record that the host will take.
  pub publish-IsPublished :
      {q : Phase}
      → advance p message.state ≡ some q
      → let after =
          publish publisher files true timestamp_ms message.state message.error
            message.result_sha256 in
        IsPublished left q after × Says publisher files timestamp_ms message after.0 after.1
  unfolding publish said guest_record new_status
  publish-IsPublished {q} step =
      let admitted =
        admits-eq p publisher.machine.seen message.state can.inside.same ∙ ap is_some step in
      let fresh : IsFresh publisher.machine said = record {
        valid = said_valid;
        same_run = refl;
        later = omega (arith, sequence_next);
      } in
      let taken =
        observe_taken publisher.machine said
          (check_record_ok publisher.machine said fresh admitted) in
      let new : contains publisher.machine.seen message.state ≡ false = ground arith in
      rw (taken, can.free message.state sayable.own new)
        (
          record {
            outcome = refl;
            ready = record {
              run = can.run;
              request = can.request;
              inside = InPhase-insert p publisher.machine.seen message.state can.inside step;
              numbers = ground (arith, can.numbers);
              free = λ s own unseen. still_free new s own unseen;
            };
          },
          record {
            same_run = refl;
            same_request = refl;
            counted = sequence_next;
            free = can.free message.state sayable.own new;
            wrote = ap (λ x. set_file message.state (holds x) files) said-message_record;
          },
        )
