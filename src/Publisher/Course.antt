-- ===== src/Publisher/Course.antt =====
-- What the guest publishes, and that a guest that keeps to the protocol is never refused.
use foxhole.Prelude.{
  ℕ, suc, ◌+◌, ◌≡◌, refl, ap, ◌∙◌, true, false, List, [], ◌∷◌, some, length, map, All, Option-cases,
  Result, ok, err, Text, arith, Bool-cases, inl, inr,
}
use mathlib.Core.Path.{subst}
use foxhole.Protocol.State.{ProtocolState, ◌=state◌, contains}
use foxhole.Protocol.Status.{StatusRecord}
use foxhole.Protocol.Machine.Phases.{Phase, advance, advance_all}
use foxhole.Collection.{absent, holds}
use foxhole.Publisher.{AgentError, Publisher, Files, set_file, publish}
use foxhole.Publisher.Saying.{
  CanPublish, Message, IsSayable, IsPublished, message_record, Says, publish-IsPublished,
}

-- One message after another, each at its time, while the file system does its part. A refusal
-- ends the course.
abbrev pub then_publish :
    Publisher × Files × Result AgentError (Unit {0})
    → (Publisher → Files → Publisher × Files × Result AgentError (Unit {0}))
    → Publisher × Files × Result AgentError (Unit {0})
then_publish (publisher, files, ok done) next = next publisher files
then_publish (publisher, files, err e) next = (publisher, files, err e)

unfoldable pub publish_all :
    Publisher → Files → List (ℕ × Message) → Publisher × Files × Result AgentError (Unit {0})
publish_all publisher files [] = (publisher, files, ok tt)
publish_all publisher files ((timestamp_ms, m) ∷ rest) =
    then_publish (publish publisher files true timestamp_ms m.state m.error m.result_sha256)
      λ publisher' files'. publish_all publisher' files' rest

abbrev pub message_states : List (ℕ × Message) → List ProtocolState
message_states = map (λ m. m.1.state)

-- Each message's file was not there before, and holds its record afterwards; the records are
-- numbered in their order.
abbrev pub AreWritten :
    (run_id request_sha256 : Text) (last : ℕ) (before after : Files) → List (ℕ × Message) → Type 0
AreWritten run_id request_sha256 last before after [] = Unit {0}
AreWritten run_id request_sha256 last before after ((timestamp_ms, m) ∷ rest) =
    (before m.state ≡ absent)
    × (after m.state ≡ holds (message_record run_id request_sha256 (suc last) timestamp_ms m))
    × AreWritten run_id request_sha256 (suc last) before after rest

-- All files are written, and no other file changes.
pub record IsWritten (publisher : Publisher) (before : Files) (messages : List (ℕ × Message))
    (after : Files) : Type 0 where
  pub written :
      AreWritten publisher.machine.run_id publisher.request_sha256 publisher.machine.last_sequence
        before after messages
  pub kept : (s : ProtocolState) → contains (message_states messages) s ≡ false → after s ≡ before s

=state_comm : (s t : ProtocolState) → (s =state t) ≡ (t =state s)
=state_comm s t = ground arith

=state_refl : (s : ProtocolState) → (s =state s) ≡ true
=state_refl s = ground arith

-- What was not there after a file was written was not there before, and is no state of that file.
earlier-AreWritten :
    (run_id request_sha256 : Text) (last : ℕ) (s : ProtocolState) (r : StatusRecord)
    (before after : Files) (messages : List (ℕ × Message))
    → AreWritten run_id request_sha256 last (set_file s (holds r) before) after messages
    → AreWritten run_id request_sha256 last before after messages
      × (contains (message_states messages) s ≡ false)
earlier-AreWritten run_id request_sha256 last s r before after [] written = (tt, refl)
earlier-AreWritten run_id request_sha256 last s r before after ((timestamp_ms, m) ∷ rest) written =
    elim (Bool-cases (s =state m.state)) [
      | inl same ↦ absurd (ground (arith, written.0, same))
      | inr other ↦
          let (free, kept, more) = written in
          let (earlier, unsaid) =
            earlier-AreWritten run_id request_sha256 (suc last) s r before after rest more in
          ((rw other at free, kept, earlier), rw (=state_comm m.state s, other) unsaid)
    ]

module _ (publisher publisher' : Publisher) (files files' after : Files) (timestamp_ms : ℕ)
    (m : Message) (rest : List (ℕ × Message))
    (says : Says publisher files timestamp_ms m publisher' files')
    (later : IsWritten publisher' files' rest after) where
  spoken : StatusRecord
  spoken =
      message_record publisher.machine.run_id publisher.request_sha256
        (suc publisher.machine.last_sequence) timestamp_ms m

  rest_written :
      AreWritten publisher.machine.run_id publisher.request_sha256
        (suc publisher.machine.last_sequence)
        (set_file m.state (holds spoken) files)
        after
        rest
  unfolding spoken
  rest_written =
      subst
        (λ fs.
          AreWritten publisher.machine.run_id publisher.request_sha256
            (suc publisher.machine.last_sequence) fs after rest)
        says.wrote
        (subst
          (λ n. AreWritten publisher.machine.run_id publisher.request_sha256 n files' after rest)
          says.counted
          (subst
            (λ d.
              AreWritten publisher.machine.run_id d publisher'.machine.last_sequence files' after
                rest)
            says.same_request
            (subst
              (λ i.
                AreWritten i publisher'.request_sha256 publisher'.machine.last_sequence files' after
                  rest)
              says.same_run later.written)))

  -- The first message's file stays as it was written, since the others are new.
  IsWritten-cons : IsWritten publisher files ((timestamp_ms, m) ∷ rest) after
  unfolding spoken
  IsWritten-cons =
      let (earlier, unsaid) =
        earlier-AreWritten publisher.machine.run_id publisher.request_sha256
          (suc publisher.machine.last_sequence) m.state spoken files after rest rest_written in
      record {
        written = (
          says.free,
          later.kept m.state unsaid
              ∙ ap (λ fs. fs m.state) says.wrote
              ∙ rw (=state_refl m.state) refl,
          earlier,
        );
        kept = λ s unsaid. others s unsaid (ground arith) (ground arith);
      }
    where
      others :
          (s : ProtocolState)
          → contains (message_states ((timestamp_ms, m) ∷ rest)) s ≡ false
          → (m.state =state s) ≡ false
          → contains (message_states rest) s ≡ false
          → after s ≡ files s
      others s unsaid other later_unsaid =
          later.kept s later_unsaid ∙ ap (λ fs. fs s) says.wrote ∙ rw other refl

-- A step that went well is followed by the next.
then_publish_ok :
    (G : Publisher × Files × Result AgentError (Unit {0}) → Type 0)
    (o : Publisher × Files × Result AgentError (Unit {0}))
    (next : Publisher → Files → Publisher × Files × Result AgentError (Unit {0}))
    → o.2 ≡ ok tt
    → G (next o.0 o.1)
    → G (then_publish o next)
then_publish_ok G (publisher, files, ok done) next went later = later
then_publish_ok G (publisher, files, err e) next went later = absurd (ground arith)

-- A guest that says things that can be said, in an order that the protocol takes, is never refused
-- and ends in the phase that the protocol reaches: its machine takes every record. The file of each
-- of the states was not there, and holds in the end a record of the run and the request that says
-- what was to be said, at its time and numbered in its turn; no other file changes. The guest has a
-- valid run and request and enough sequence numbers, no file of a guest's state is there that it has
-- not published, and the file system writes every file.
pub publish_all-IsPublished :
    (publisher : Publisher) (files : Files) (messages : List (ℕ × Message)) (left : ℕ) (p q : Phase)
    → CanPublish (length messages + left) publisher files p
    → All (λ m. IsSayable m.1) messages
    → advance_all p (message_states messages) ≡ some q
    → IsPublished left q (publish_all publisher files messages)
      × IsWritten publisher files messages (publish_all publisher files messages).1
unfolding publish_all
publish_all-IsPublished publisher files [] left p q can sayable path =
    let same : p ≡ q = ground (arith, path) in
    let left_over : 0 + left ≡ left = omega arith in
    (
      record {
        outcome = refl;
        ready =
            subst (λ n. CanPublish n publisher files q) left_over
              (subst (λ r. CanPublish (0 + left) publisher files r) same can);
      },
      record { written = tt; kept = λ s unsaid. refl },
    )
publish_all-IsPublished publisher files ((timestamp_ms, m) ∷ rest) left p q can sayable path =
    elim (Option-cases (advance p m.state)) [
      | inl stuck ↦ absurd (ground (arith, stuck, path))
      | inr (next, step) ↦
          let counted : suc (length rest) + left ≡ suc (length rest + left) = omega arith in
          let after = publish publisher files true timestamp_ms m.state m.error m.result_sha256 in
          let (first, says) =
            publish-IsPublished publisher files timestamp_ms (length rest + left) p
              (subst (λ n. CanPublish n publisher files p) counted can) m sayable.0 step in
          let (later, written) =
            publish_all-IsPublished after.0 after.1 rest left next q first.ready sayable.1
              (rw (step, advance_all) at path) in
          then_publish_ok
            (λ o. IsPublished left q o × IsWritten publisher files ((timestamp_ms, m) ∷ rest) o.1)
            after (λ publisher' files'. publish_all publisher' files' rest) first.outcome
            (
              later,
              IsWritten-cons publisher after.0 files after.1 (publish_all after.0 after.1 rest).1
                  timestamp_ms m rest says written,
            )
    ]
