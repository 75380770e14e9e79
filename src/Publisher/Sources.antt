-- ===== src/Publisher/Sources.antt =====
-- Where the states that the guest has seen come from: status files of its run and its request.
use foxhole.Prelude.{
  ◌≡◌, refl, ◌∙◌, Bool, true, false, not, ◌||◌, List, [], ◌∷◌, Option, none, some, All, Result, ok,
  err, ok_eq, >>-eq-ok, >>=-eq-ok, map_err, Text, eq_ignore_ascii_case, arith, Bool-cases,
  Result-cases, inl, inr, ◌⊎◌,
}
use mathlib.Core.Path.{subst}
use foxhole.Protocol.Errors.{ProtocolError}
use foxhole.Protocol.State.{ProtocolState, ◌=state◌, contains}
use foxhole.Protocol.Status.{StatusRecord, validate_status}
use foxhole.Protocol.Status.Validity.{validate_status-IsAuthentic}
use foxhole.Protocol.Machine.{Machine, observe, check_record, insert_state}
use foxhole.Protocol.Machine.Refinement.{observe_taken, observe_refused, check_record-IsFresh}
use foxhole.Collection.{StatusFile, absent, unreadable, malformed, holds}
use foxhole.Publisher.{
  AgentError, Files, exists, read_status, read_states, digest_differs, validate_request_digest,
  take_records, take_next, invalid_status,
}

-- A record of the run that names the bytes of the request, in either case of its digits.
pub record IsBoundTo (run_id request_sha256 : Text) (r : StatusRecord) : Type 0 where
  pub run : r.run_id ≡ run_id
  pub digest : Text
  pub named : r.request_sha256 ≡ some digest
  pub same : eq_ignore_ascii_case digest request_sha256 ≡ true

-- A record that one of the files holds.
abbrev pub Holds : Files → StatusRecord → Type 0
Holds files r = (s : ProtocolState) × (files s ≡ holds r)

-- A state that a record from a source has told.
abbrev pub Told : (StatusRecord → Type 0) → Text → Text → ProtocolState → Type 0
Told Source run_id request_sha256 s =
    (r : StatusRecord) × Source r × (r.state ≡ s) × IsBoundTo run_id request_sha256 r

-- A machine of the run that has seen nothing but what was seen before and what it was told.
pub record Knows (Source : StatusRecord → Type 0) (run_id request_sha256 : Text)
    (before : List ProtocolState) (m : Machine) : Type 0 where
  pub run : m.run_id ≡ run_id
  pub told :
      (s : ProtocolState)
      → contains m.seen s ≡ true
      → (contains before s ≡ true) ⊎ Told Source run_id request_sha256 s

=state_eq : (s t : ProtocolState) → (s =state t) ≡ true → s ≡ t
=state_eq s t h = ground arith

read_status-holds : (f : StatusFile) (r : StatusRecord) → read_status f ≡ ok r → f ≡ holds r
unfolding read_status
read_status-holds absent r h = absurd (ground arith)
read_status-holds unreadable r h = absurd (ground arith)
read_status-holds malformed r h = absurd (ground arith)
read_status-holds (holds q) r h =
    let (_, same) = >>-eq-ok (map_err invalid_status (validate_status q)) _ h in ground arith

-- What is read is in the files.
pub read_states-Holds :
    (skip : ProtocolState → Bool) (files : Files) (states : List ProtocolState)
    (records : List StatusRecord)
    → read_states skip files states ≡ ok records
    → All (Holds files) records
unfolding read_states
read_states-Holds skip files [] records h = subst (All (Holds files)) (ok_eq h) tt
read_states-Holds skip files (s ∷ states) records h =
    elim (Bool-cases (skip s || not (exists (files s)))) [
      | inl passed ↦ read_states-Holds skip files states records (rw passed at h)
      | inr there ↦
          let (r, read, h) = >>=-eq-ok (read_status (files s)) _ (rw there at h) in
          let (rest, found, same) = >>=-eq-ok (read_states skip files states) _ h in
          subst (All (Holds files)) (ok_eq same) (
            (s, read_status-holds (files s) r read),
            read_states-Holds skip files states rest found,
          )
    ]

module _ (Source : StatusRecord → Type 0) (run_id request_sha256 : Text)
    (before : List ProtocolState) where
  named_digest :
      (r : StatusRecord)
      → validate_status r ≡ ok tt
      → digest_differs request_sha256 r.request_sha256 ≡ false
      → r.run_id ≡ run_id
      → IsBoundTo run_id request_sha256 r
  named_digest r valid agrees run = with_digest r.request_sha256 refl agrees
    where
      with_digest :
          (o : Option Text)
          → r.request_sha256 ≡ o
          → digest_differs request_sha256 o ≡ false
          → IsBoundTo run_id request_sha256 r
      with_digest none e same =
          let authentic = validate_status-IsAuthentic r valid in
          absurd (ground (arith, authentic.request))
      with_digest (some digest) e same = record {
        run = run;
        digest = digest;
        named = e;
        same = ground arith;
      }

  learned_next :
      (m : Machine) (r : StatusRecord)
      → Source r
      → IsBoundTo run_id request_sha256 r
      → Knows Source run_id request_sha256 before m
      → (s : ProtocolState) → contains (insert_state r.state m.seen) s ≡ true
      → (contains before s ≡ true) ⊎ Told Source run_id request_sha256 s
  learned_next m r source bound knows s seen = elim (Bool-cases (contains m.seen s)) [
    | inl old ↦ knows.told s old
    | inr new ↦ inr (r, source, =state_eq r.state s (ground arith), bound)
  ]

  observe-Knows :
      (m : Machine) (r : StatusRecord)
      → Source r
      → digest_differs request_sha256 r.request_sha256 ≡ false
      → Knows Source run_id request_sha256 before m
      → Knows Source run_id request_sha256 before (observe m r).0
  observe-Knows m r source agrees knows = elim (Result-cases (check_record m r)) [
    | inr (e, refused) ↦ rw (observe_refused m r e refused) knows
    | inl accepted ↦
        let fresh = (check_record-IsFresh m r accepted).0 in
        let bound = named_digest r fresh.valid agrees (fresh.same_run ∙ knows.run) in
        rw (observe_taken m r accepted)
          (record { run = knows.run; told = learned_next m r source bound knows })
  ]

  take_next-Knows :
      (o : Machine × Result ProtocolError (Unit {0}))
      (f : Machine → Machine × Result AgentError (Unit {0}))
      → Knows Source run_id request_sha256 before o.0
      → ((m : Machine)
          → Knows Source run_id request_sha256 before m
          → Knows Source run_id request_sha256 before (f m).0)
      → Knows Source run_id request_sha256 before (take_next o f).0
  take_next-Knows (m, ok done) f knows next = next m knows
  take_next-Knows (m, err e) f knows next = knows

  pub take_records-Knows :
      (m : Machine) (rs : List StatusRecord)
      → All Source rs
      → Knows Source run_id request_sha256 before m
      → Knows Source run_id request_sha256 before (take_records request_sha256 m rs).0
  unfolding take_records validate_request_digest
  take_records-Knows m [] sources knows = knows
  take_records-Knows m (r ∷ rs) sources knows =
      elim (Bool-cases (digest_differs request_sha256 r.request_sha256)) [
        | inl other ↦ rw other knows
        | inr agrees ↦
            let rest = λ (m' : Machine). take_records request_sha256 m' rs in
            rw agrees (
              take_next-Knows (observe m r) rest (observe-Knows m r sources.0 agrees knows)
                λ m' knows'. take_records-Knows m' rs sources.1 knows')
      ]
