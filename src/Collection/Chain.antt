-- ===== src/Collection/Chain.antt =====
-- What a status directory is worth that the host accepts.
use mathlib.Core.Path.{fun_ext, subst}
use foxhole.Prelude.{
  ◌≡◌, Bool, true, not, List, some, All, ok, >>-eq-ok, >>=-eq-ok, refuse_if, map_err, map_err_ok,
  Text, arith,
}
use foxhole.Prelude.Sort.{sort_by}
use foxhole.Protocol.Fields.{validate_sha256}
use foxhole.Protocol.State.{ProtocolState, completed}
use foxhole.Protocol.Status.{StatusRecord}
use foxhole.Protocol.Envelope.{GuestTerminalOutcome}
use foxhole.Protocol.Machine.{Machine, new_machine, has_seen}
use foxhole.Protocol.Machine.Phases.{
  Phase, idle, greeted, executing, requested, ended, closed, Outcome, did_complete, did_fail,
  was_cancelled, members, is_sound, advance_all,
}
use foxhole.Protocol.Machine.Traces.{states, Increasing, new-InPhase}
use foxhole.Collection.{
  protocol, directory_refused, StatusDirectory, all_protocol_states, observe_records, check_reached,
  outcome_matches, sequence_le, check_entries, read_records, validate_status_chain,
}
use foxhole.Collection.Taken.{IsBound, observe_records_path}

-- How far a run came whose result has an outcome.
abbrev pub Concludes : GuestTerminalOutcome → Phase → Type 0
Concludes GuestTerminalOutcome.completed q = q ≡ closed did_complete true true true
Concludes GuestTerminalOutcome.timed_out q = q ≡ closed did_complete true true true
Concludes GuestTerminalOutcome.agent_failed q =
    (ready : Bool) × (ran : Bool) × (q ≡ closed did_fail true ready ran)
Concludes GuestTerminalOutcome.cancelled q =
    (ready : Bool) × (ran : Bool) × (q ≡ closed was_cancelled true ready ran)

concludes_complete :
    (o : Outcome) (allowed ready ran : Bool)
    → is_sound (closed o allowed ready ran) ≡ true
    → members (closed o allowed ready ran) completed ≡ true
    → closed o allowed ready ran ≡ closed did_complete true true true
concludes_complete did_complete allowed ready ran sound seen = ground arith
concludes_complete did_fail allowed ready ran sound seen = absurd (ground arith)
concludes_complete was_cancelled allowed ready ran sound seen = absurd (ground arith)

check_reached-Concludes :
    (q : Phase) (outcome : GuestTerminalOutcome)
    → is_sound q ≡ true
    → check_reached (members q) outcome ≡ ok tt
    → Concludes outcome q
unfolding check_reached outcome_matches
check_reached-Concludes (closed o allowed ready ran) GuestTerminalOutcome.completed sound done =
    concludes_complete o allowed ready ran sound (ground arith)
check_reached-Concludes (closed o allowed ready ran) GuestTerminalOutcome.timed_out sound done =
    concludes_complete o allowed ready ran sound (ground arith)
check_reached-Concludes (closed o allowed ready ran) GuestTerminalOutcome.agent_failed sound done =
    (ready, ran, ground arith)
check_reached-Concludes (closed o allowed ready ran) GuestTerminalOutcome.cancelled sound done =
    (ready, ran, ground arith)
check_reached-Concludes idle outcome sound done = absurd (ground arith)
check_reached-Concludes greeted outcome sound done = absurd (ground arith)
check_reached-Concludes executing outcome sound done = absurd (ground arith)
check_reached-Concludes (requested allowed ready) outcome sound done = absurd (ground arith)
check_reached-Concludes (ended o allowed ready ran) outcome sound done = absurd (ground arith)

new_machine_fields :
    (run_id : Text) {m : Machine}
    → new_machine run_id ≡ ok m
    → (m.run_id ≡ run_id) × (m.last_sequence ≡ 0)
unfolding new_machine
new_machine_fields run_id made = ground arith

-- Records that are a run of the protocol with an outcome: a path of the automaton with increasing
-- sequence numbers, each bound to the run.
abbrev pub IsChain :
    (run_id request_sha256 result_sha256 : Text) → GuestTerminalOutcome → List StatusRecord → Type 0
IsChain run_id request_sha256 result_sha256 outcome rs =
    (q : Phase) × (advance_all idle (states rs) ≡ some q)
    × Concludes outcome q
    × Increasing 0 rs
    × All (IsBound run_id request_sha256 result_sha256) rs

-- From the machine that was made to what it must have seen.
checked-IsChain :
    (run_id request_sha256 result_sha256 : Text) (outcome : GuestTerminalOutcome)
    (rs : List StatusRecord) {m m' : Machine}
    → map_err protocol (new_machine run_id) ≡ ok m
    → observe_records request_sha256 result_sha256 m rs ≡ ok m'
    → check_reached (has_seen m') outcome ≡ ok tt
    → IsChain run_id request_sha256 result_sha256 outcome rs
checked-IsChain run_id request_sha256 result_sha256 outcome rs {m} {m'} made seen reached =
    let new = map_err_ok protocol (new_machine run_id) made in
    let (named, zeroed) = new_machine_fields run_id new in
    let (q, path, inside, increasing, bound) =
      observe_records_path request_sha256 result_sha256 m idle rs (new-InPhase run_id m new rs)
        seen in
    (
      q,
      path,
      check_reached-Concludes q outcome inside.sound (
          subst (λ (s : ProtocolState → Bool). check_reached s outcome ≡ ok tt)
            (fun_ext inside.same) reached),
      subst (λ n. Increasing n rs) zeroed increasing,
      subst (λ i. All (IsBound i request_sha256 result_sha256) rs) named bound,
    )

-- If the host accepts a status directory for an outcome, then each of its records belongs to the
-- run, to the bytes of the request and, if it is a final one, to the bytes of the result; by their
-- sequence numbers, which differ, their states are a path of the protocol; and the path ends in a
-- shutdown after the end that the outcome tells: a completion after a start that was allowed, a
-- ready guest and a running target, or a failure, or a cancellation, after a start that was
-- allowed.
pub validate_status_chain-IsChain :
    (directory : StatusDirectory) (run_id request_sha256 result_sha256 : Text)
    (outcome : GuestTerminalOutcome)
    → validate_status_chain directory run_id request_sha256 result_sha256 outcome ≡ ok tt
    → (records : List StatusRecord) × (read_records directory.file all_protocol_states ≡ ok records)
      × IsChain run_id request_sha256 result_sha256 outcome (sort_by sequence_le records)
unfolding validate_status_chain
validate_status_chain-IsChain directory run_id request_sha256 result_sha256 outcome done =
    let (digest, after_digest) =
      >>-eq-ok (map_err protocol (validate_sha256 request_sha256)) _ done in
    let (plain, after_plain) =
      >>-eq-ok (refuse_if (not directory.is_plain) directory_refused) _ after_digest in
    let (listed, after_list) = >>-eq-ok (check_entries 0 directory.entries) _ after_plain in
    let (records, found, after_read) =
      >>=-eq-ok (read_records directory.file all_protocol_states) _ after_list in
    let (machine, made, after_made) =
      >>=-eq-ok (map_err protocol (new_machine run_id)) _ after_read in
    let (machine', seen, reached) =
      >>=-eq-ok (observe_records request_sha256 result_sha256 machine (sort_by sequence_le records))
        _ after_made in
    (
      records,
      found,
      checked-IsChain run_id request_sha256 result_sha256 outcome (sort_by sequence_le records) made
          seen reached,
    )
