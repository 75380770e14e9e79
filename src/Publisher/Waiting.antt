-- ===== src/Publisher/Waiting.antt =====
-- What the guest knows when it has waited for the host's decision.
use foxhole.Prelude.{
  ◌≡◌, refl, sym, ◌⊎◌, All, All-weaken, true, false, List, [], ◌∷◌, Option, none, some, Result, ok,
  err, Text, arith, Result-cases, inl, inr,
}
use mathlib.Core.Path.{subst}
use foxhole.Prelude.Sort.{sort_by, All-sort_by}
use foxhole.Protocol.Errors.{ProtocolError}
use foxhole.Protocol.State.{start_allowed, cancel_requested}
use foxhole.Protocol.Status.{StatusRecord}
use foxhole.Protocol.Machine.{Machine, observe, check_record, has_seen}
use foxhole.Protocol.Machine.Phases.{Phase, InPhase}
use foxhole.Protocol.Machine.Refinement.{
  observe_taken, observe_refused, check_record-IsFresh, advance_of_admits, InPhase-insert,
}
use foxhole.Collection.{sequence_le}
use foxhole.Publisher.Sources.{Holds, Knows, read_states-Holds, take_records-Knows}
use foxhole.Publisher.{
  AgentError, Publisher, Files, StartDecision, start, cancel, decided, read_states, take_records,
  take_next, if_bound, validate_request_digest, take_found, unless_decided, poll, after_poll,
  poll_all, wait_for_start_or_cancel,
}

-- A machine that has followed the protocol.
abbrev pub InProtocol : Machine → Type 0
InProtocol m = (p : Phase) × InPhase p m.seen

observe-InProtocol : (m : Machine) (r : StatusRecord) → InProtocol m → InProtocol (observe m r).0
observe-InProtocol m r (p, h) = elim (Result-cases (check_record m r)) [
  | inl c ↦
      let (fresh, admitted) = check_record-IsFresh m r c in
      let (q, step) = advance_of_admits p m.seen r.state h admitted in
      rw (observe_taken m r c) (q, InPhase-insert p m.seen r.state h step)
  | inr (e, c) ↦ rw (observe_refused m r e c) (p, h)
]

take_next-InProtocol :
    (o : Machine × Result ProtocolError (Unit {0}))
    (f : Machine → Machine × Result AgentError (Unit {0}))
    → InProtocol o.0
    → ((m : Machine) → InProtocol m → InProtocol (f m).0)
    → InProtocol (take_next o f).0
take_next-InProtocol (m, ok done) f inside next = next m inside
take_next-InProtocol (m, err e) f inside next = inside

if_bound-InProtocol :
    (m : Machine) (b : Result AgentError (Unit {0})) (o : Machine × Result AgentError (Unit {0}))
    → InProtocol m
    → InProtocol o.0
    → InProtocol (if_bound m b o).0
if_bound-InProtocol m (ok done) o before inside = inside
if_bound-InProtocol m (err e) o before inside = before

pub take_records-InProtocol :
    (request_sha256 : Text) (m : Machine) (rs : List StatusRecord)
    → InProtocol m
    → InProtocol (take_records request_sha256 m rs).0
unfolding take_records
take_records-InProtocol request_sha256 m [] h = h
take_records-InProtocol request_sha256 m (r ∷ rs) h =
    let rest = λ (m' : Machine). take_records request_sha256 m' rs in
    if_bound-InProtocol m (validate_request_digest r request_sha256) (take_next (observe m r) rest)
      h
      (take_next-InProtocol (observe m r) rest (observe-InProtocol m r h)
        λ m' inside. take_records-InProtocol request_sha256 m' rs inside)

-- A record that a file holds in some round.
abbrev pub Found : List Files → StatusRecord → Type 0
Found [] r = ⊥
Found (files ∷ rounds) r = Holds files r ⊎ Found rounds r

-- A machine that has followed the protocol, and has learned what it did not know before from the
-- files of some rounds.
abbrev pub HasLearned : List Files → Publisher → Publisher → Type 0
HasLearned rounds before after =
    InProtocol after.machine
    × Knows (Found rounds) before.machine.run_id before.request_sha256 before.machine.seen
        after.machine

-- What a decision says of the states that the guest has seen.
abbrev pub Decides : Publisher × Result AgentError StartDecision → Type 0
Decides (publisher, ok start) =
    (has_seen publisher.machine start_allowed ≡ true)
    × (has_seen publisher.machine cancel_requested ≡ false)
Decides (publisher, ok cancel) = has_seen publisher.machine cancel_requested ≡ true
Decides (publisher, err e) = Unit {0}

abbrev pub WaitsSoundly :
    List Files → Publisher → Publisher × Result AgentError StartDecision → Type 0
WaitsSoundly rounds before after = HasLearned rounds before after.0 × Decides after

decided-Decides :
    (publisher : Publisher) (decision : StartDecision)
    → decided publisher.machine ≡ some decision
    → Decides (publisher, ok decision)
decided-Decides publisher start made = ground arith
decided-Decides publisher cancel made = ground arith

module _ (rounds : List Files) (before : Publisher) where
  -- The loop keeps the request, so that all records are tested against the same.
  abbrev Waits : Publisher → Type 0
  Waits p = (p.request_sha256 ≡ before.request_sha256) × HasLearned rounds before p

  take_found-HasLearned :
      (publisher : Publisher) (files : Files) (found : Result AgentError (List StatusRecord))
      → ((r : StatusRecord) → Holds files r → Found rounds r)
      → ((records : List StatusRecord) → found ≡ ok records → All (Holds files) records)
      → Waits publisher
      → HasLearned rounds before (record publisher { machine = (take_found publisher found).0 })
  take_found-HasLearned publisher files (err e) source read (same, learned) = learned
  take_found-HasLearned publisher files (ok records) source read (same, (inside, knows)) =
      let sorted =
        All-sort_by sequence_le (Found rounds) records
          (All-weaken (Holds files) (Found rounds) records source (read records refl)) in
      (
        take_records-InProtocol publisher.request_sha256 publisher.machine
            (sort_by sequence_le records) inside,
        subst
            (λ request.
              Knows (Found rounds) before.machine.run_id before.request_sha256 before.machine.seen
                (take_records request publisher.machine (sort_by sequence_le records)).0)
            (sym same)
            (take_records-Knows (Found rounds) before.machine.run_id before.request_sha256
              before.machine.seen publisher.machine (sort_by sequence_le records) sorted knows),
      )

  unless_decided-WaitsSoundly :
      (publisher : Publisher) (o : Option StartDecision)
      (again : Publisher × Result AgentError StartDecision)
      → decided publisher.machine ≡ o
      → HasLearned rounds before publisher
      → WaitsSoundly rounds before again
      → WaitsSoundly rounds before (unless_decided publisher o again)
  unless_decided-WaitsSoundly publisher none again made learned rest = rest
  unless_decided-WaitsSoundly publisher (some decision) again made learned rest =
      (learned, decided-Decides publisher decision made)

  after_poll-WaitsSoundly :
      (publisher : Publisher) (polled : Machine × Result AgentError (Unit {0}))
      (again : Publisher → Publisher × Result AgentError StartDecision)
      → Waits (record publisher { machine = polled.0 })
      → ((p : Publisher) → Waits p → WaitsSoundly rounds before (again p))
      → WaitsSoundly rounds before (after_poll publisher polled again)
  after_poll-WaitsSoundly publisher (machine, err e) again waits rest = (waits.1, tt)
  after_poll-WaitsSoundly publisher (machine, ok done) again waits rest =
      let publisher' : Publisher = record publisher { machine = machine } in
      unless_decided-WaitsSoundly publisher' (decided machine) (again publisher') refl waits.1
        (rest publisher' waits)

  poll_all-WaitsSoundly :
      (publisher : Publisher) (left : List Files)
      → All (λ files. (r : StatusRecord) → Holds files r → Found rounds r) left
      → Waits publisher
      → WaitsSoundly rounds before (poll_all publisher left)
  unfolding poll_all poll
  poll_all-WaitsSoundly publisher [] sources waits = (waits.1, tt)
  poll_all-WaitsSoundly publisher (files ∷ left) sources waits =
      let states = start_allowed ∷ cancel_requested ∷ [] in
      let learned =
        take_found-HasLearned publisher files
          (read_states (has_seen publisher.machine) files states) sources.0
          (λ records. read_states-Holds (has_seen publisher.machine) files states records) waits in
      after_poll-WaitsSoundly publisher (poll publisher files) (λ p. poll_all p left)
        (waits.0, learned) (λ p waits'. poll_all-WaitsSoundly p left sources.1 waits')

-- Each round is one of the rounds.
found_in :
    (rounds : List Files) (Source : StatusRecord → Type 0)
    → ((r : StatusRecord) → Found rounds r → Source r)
    → All (λ files. (r : StatusRecord) → Holds files r → Source r) rounds
found_in [] Source within = tt
found_in (files ∷ rounds) Source within =
    (λ r held. within r (inl held), found_in rounds Source λ r found. within r (inr found))

-- A guest whose machine has followed the protocol, and that waits for a decision while the status
-- directory changes in any way, still follows it. Every state that it has not seen before was told
-- by a record in a file of some round, which belongs to the guest's run and names the bytes of its
-- request. It starts the target only if it has accepted that the host allows it, and no
-- cancellation; it cancels only if it has accepted the host's cancellation.
pub wait_for_start_or_cancel-WaitsSoundly :
    (publisher : Publisher) (rounds : List Files)
    → InProtocol publisher.machine
    → WaitsSoundly rounds publisher (wait_for_start_or_cancel publisher rounds)
unfolding wait_for_start_or_cancel
wait_for_start_or_cancel-WaitsSoundly publisher rounds inside =
    let known : HasLearned rounds publisher publisher =
      (inside, record { run = refl; told = λ s seen. inl seen }) in
    unless_decided-WaitsSoundly rounds publisher publisher (decided publisher.machine)
      (poll_all publisher rounds) refl known
      (poll_all-WaitsSoundly rounds publisher publisher rounds
        (found_in rounds (Found rounds) λ r found. found) (refl, known))
