-- ===== src/Protocol/Machine/Refinement.antt =====
-- `observe` of src/sandbox/hyperv/guest_protocol.rs against the automaton of phases, and what
-- follows for a machine that any records at all have driven.
use foxhole.Prelude.{
  suc, ◌<◌, length, ◌≡◌, refl, sym, ap, ◌∙◌, true, false, ◌||◌, inl, inr, Option, none, some, List,
  arith, ok, err, =text_iff, Result-cases,
}
use foxhole.Protocol.Errors.{ProtocolError}
use foxhole.Protocol.State.{ProtocolState, ◌=state◌, contains}
use foxhole.Protocol.Status.{StatusRecord, validate_status, is_some}
use foxhole.Protocol.Machine.{Machine, validate_prerequisites, insert_state, check_record, observe}
use foxhole.Protocol.Machine.Phases.{
  Phase, InPhase, size-advance, is_sound-advance, advance, Represents, admits, admits-eq,
  members-advance,
}

-- What `observe` asks of a record beyond the order of states.
pub record IsFresh (m : Machine) (r : StatusRecord) : Type 0 where
  pub valid : validate_status r ≡ ok tt
  pub same_run : r.run_id ≡ m.run_id
  pub later : m.last_sequence < r.sequence

-- A fresh record that the automaton takes is taken, and the rest is refused and changes nothing.
abbrev pub Follows : Machine → StatusRecord → Option Phase → Type 0
Follows m r none = ((observe m r).0 ≡ m) × ((e : ProtocolError) × ((observe m r).1 ≡ err e))
Follows m r (some p) =
    ((observe m r).1 ≡ ok tt)
    × Represents p (observe m r).0.seen
    × ((observe m r).0.last_sequence ≡ r.sequence)
    × ((observe m r).0.run_id ≡ m.run_id)

module _ (m : Machine) (r : StatusRecord) where
  pub check_record_ok : IsFresh m r → admits m.seen r.state ≡ true → check_record m r ≡ ok tt
  unfolding check_record validate_prerequisites
  check_record_ok h a = ground (arith, =text_iff r.run_id m.run_id)

  pub check_record-IsFresh : check_record m r ≡ ok tt → IsFresh m r × (admits m.seen r.state ≡ true)
  unfolding check_record validate_prerequisites
  check_record-IsFresh h = ground (arith, =text_iff r.run_id m.run_id)

  pub observe_taken :
      check_record m r ≡ ok tt
      → observe m r
        ≡ (record m { last_sequence = r.sequence; seen = insert_state r.state m.seen }, ok tt)
  unfolding observe
  observe_taken h = rw (h, observe)

  pub observe_refused : (e : ProtocolError) → check_record m r ≡ err e → observe m r ≡ (m, err e)
  unfolding observe
  observe_refused e h = rw (h, observe)

contains-insert :
    (s : ProtocolState) (seen : List ProtocolState) (t : ProtocolState)
    → contains seen s ≡ false
    → contains (insert_state s seen) t ≡ ((s =state t) || contains seen t)
contains-insert s seen t h = rw h refl

length-insert :
    (s : ProtocolState) (seen : List ProtocolState)
    → contains seen s ≡ false
    → length (insert_state s seen) ≡ suc (length seen)
length-insert s seen h = rw h refl

admits_new :
    (seen : List ProtocolState) (s : ProtocolState) → admits seen s ≡ true → contains seen s ≡ false
admits_new seen s h = ground arith

-- A phase and a record that it takes: the next machine is in the next phase.
pub InPhase-insert :
    (p : Phase) (seen : List ProtocolState) (s : ProtocolState) {q : Phase}
    → InPhase p seen
    → advance p s ≡ some q
    → InPhase q (insert_state s seen)
InPhase-insert p seen s h e =
    let new : contains seen s ≡ false =
      admits_new seen s (admits-eq p seen s h.same ∙ ap is_some e) in
    record {
      same = λ t. contains-insert s seen t new ∙ rw (h.same t) (sym (members-advance p s e t));
      counted = length-insert s seen new ∙ rw h.counted (sym (size-advance p s e));
      sound = is_sound-advance p s h.sound e;
    }

module _ (m : Machine) (r : StatusRecord) (p : Phase) (h : InPhase p m.seen)
    (fresh : IsFresh m r) where
  Follows-taken : {q : Phase} → advance p r.state ≡ some q → Follows m r (some q)
  Follows-taken {q} e =
      let taken =
        observe_taken m r
          (check_record_ok m r fresh (admits-eq p m.seen r.state h.same ∙ ap is_some e)) in
      rw taken (refl, (InPhase-insert p m.seen r.state h e).same, refl, refl)

  Follows-refused : advance p r.state ≡ none → Follows m r none
  Follows-refused e = elim (Result-cases (check_record m r)) [
    | inl c ↦
        absurd (ground (arith, check_record-IsFresh m r c, admits-eq p m.seen r.state h.same, e))
    | inr (x, c) ↦ rw (observe_refused m r x c) (refl, (x, refl))
  ]

  -- A machine in a phase does with a fresh record what the automaton does with its state: it
  -- takes it, moves to the next phase and keeps its sequence number, or refuses it unchanged.
  pub observe-Follows : Follows m r (advance p r.state)
  observe-Follows = go (advance p r.state) refl
    where
      go : (o : Option Phase) → advance p r.state ≡ o → Follows m r o
      go none e = Follows-refused e
      go (some q) e = Follows-taken e

-- What is taken was a fresh record whose state the automaton takes.
pub advance_of_admits :
    (p : Phase) (seen : List ProtocolState) (s : ProtocolState)
    → InPhase p seen
    → admits seen s ≡ true
    → (q : Phase) × (advance p s ≡ some q)
advance_of_admits p seen s h a = go (advance p s) refl
  where
    go : (o : Option Phase) → advance p s ≡ o → (q : Phase) × (advance p s ≡ some q)
    go none e = absurd (ground (arith, admits-eq p seen s h.same, e, a))
    go (some q) e = (q, e)
