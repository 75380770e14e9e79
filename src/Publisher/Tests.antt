-- ===== src/Publisher/Tests.antt =====
-- A guest that opens the protocol, waits for the start and publishes its course.
use foxhole.Prelude.{
  ℕ, ◌+◌, ◌≡◌, refl, List, [], ◌∷◌, Option, some, none, ok, true, false, codes, Text, replicate,
  length, arith, All,
}
use foxhole.Prelude.Sort.{sort_by, insert_sorted}
use foxhole.Protocol.Fields.{validate_protocol_version, validate_run_id, validate_sha256}
use foxhole.Protocol.State.{
  ProtocolState, host_ready, request_written, start_allowed, guest_ready, running, completed,
  shutdown_ready, actor as owner, contains,
}
use foxhole.Protocol.Status.{StatusRecord, validate_status}
use foxhole.Protocol.Machine.{new_machine, observe}
use foxhole.Protocol.Machine.Phases.{requested, closed, did_complete, InPhase}
use foxhole.Collection.{absent, holds}
use foxhole.Publisher.{
  Publisher, Files, read_status, validate_request_digest, reject_guest_states, reject_output,
  reject_existing_guest_states, read_states, take_records, open_publisher, start,
  wait_for_start_or_cancel, poll, poll_all,
}
use foxhole.Publisher.Waiting.{WaitsSoundly, wait_for_start_or_cancel-WaitsSoundly}
use foxhole.Publisher.Opening.{IsOpened, open_publisher-IsOpened}
use foxhole.Publisher.Saying.{Message, IsSayable, CanPublish, IsPublished, is_guest}
use foxhole.Publisher.Course.{IsWritten, publish_all, publish_all-IsPublished}

abbrev run : Text
run = codes "run-00000001"

abbrev digest : Text
digest = replicate 64 b'a'

abbrev status : ℕ → ProtocolState → StatusRecord
status n s = record {
  protocol_version = 2;
  run_id = run;
  sequence = n;
  actor = owner s;
  state = s;
  timestamp_ms = 1700000000000;
  request_sha256 = some digest;
  result_sha256 = none;
  error = none;
}

abbrev files : Files
files host_ready = holds (status 1 host_ready)
files request_written = holds (status 2 request_written)
files _ = absent

abbrev allowed_files : Files
allowed_files start_allowed = holds (status 3 start_allowed)
allowed_files s = files s

abbrev opened : Publisher
opened = record {
  request_sha256 = digest;
  machine = record { run_id = run; seen = request_written ∷ host_ready ∷ []; last_sequence = 2 };
}

made_opened : open_publisher files (some 0) run digest ≡ ok opened
unfolding open_publisher new_machine validate_run_id reject_existing_guest_states
    reject_guest_states reject_output read_states read_status validate_status
    validate_protocol_version validate_sha256 owner take_records validate_request_digest observe
    sort_by insert_sorted
made_opened = refl

open_publisher-IsOpened_example : IsOpened files (some 0) run digest opened
open_publisher-IsOpened_example = open_publisher-IsOpened files (some 0) run digest made_opened

opened-InPhase : InPhase (requested false false) opened.machine.seen
opened-InPhase = record { same = λ s. ground arith; counted = refl; sound = refl }

-- The second round finds that the start is allowed.
allowed_in_time : (wait_for_start_or_cancel opened (files ∷ allowed_files ∷ [])).1 ≡ ok start
unfolding wait_for_start_or_cancel poll_all poll new_machine validate_run_id read_states read_status
    validate_status validate_protocol_version validate_sha256 owner take_records
    validate_request_digest observe sort_by insert_sorted
allowed_in_time = refl

wait_for_start_or_cancel-WaitsSoundly_example :
    WaitsSoundly
      (files ∷ allowed_files ∷ [])
      opened
      (wait_for_start_or_cancel opened (files ∷ allowed_files ∷ []))
wait_for_start_or_cancel-WaitsSoundly_example =
    wait_for_start_or_cancel-WaitsSoundly opened (files ∷ allowed_files ∷ [])
      (requested false false, opened-InPhase)

abbrev started : Publisher
started = record opened {
  machine = record opened.machine {
    seen = start_allowed ∷ request_written ∷ host_ready ∷ [];
    last_sequence = 3;
  };
}

abbrev says : ProtocolState → Option Text → Message
says s result = record { state = s; error = none; result_sha256 = result }

abbrev course : List (ℕ × Message)
course =
    (10, says guest_ready none)
    ∷ (20, says running none)
    ∷ (30, says completed (some digest))
    ∷ (40, says shutdown_ready (some digest))
    ∷ []

started_can : CanPublish (length course + 0) started allowed_files (requested true false)
unfolding validate_run_id validate_sha256 owner
started_can = record {
  run = refl;
  request = refl;
  inside = record { same = λ s. ground arith; counted = refl; sound = refl };
  numbers = omega arith;
  free = free;
}
  where
    free :
        (s : ProtocolState)
        → is_guest s ≡ true
        → contains started.machine.seen s ≡ false
        → allowed_files s ≡ absent
    free s own unseen = ground arith

course-IsSayable : All (λ m. IsSayable m.1) course
unfolding validate_sha256 owner
course-IsSayable = (
  record {
    own = refl;
    error_exactly = refl;
    error_form = refl;
    with_result = refl;
    result_form = refl;
  },
  (
    record {
      own = refl;
      error_exactly = refl;
      error_form = refl;
      with_result = refl;
      result_form = refl;
    },
    (
      record {
        own = refl;
        error_exactly = refl;
        error_form = refl;
        with_result = refl;
        result_form = refl;
      },
      (
        record {
          own = refl;
          error_exactly = refl;
          error_form = refl;
          with_result = refl;
          result_form = refl;
        },
        tt,
      ),
    ),
  ),
)

publish_all-IsPublished_example :
    IsPublished 0 (closed did_complete true true true) (publish_all started allowed_files course)
    × IsWritten started allowed_files course (publish_all started allowed_files course).1
publish_all-IsPublished_example =
    publish_all-IsPublished started allowed_files course 0 (requested true false)
      (closed did_complete true true true) started_can course-IsSayable refl
