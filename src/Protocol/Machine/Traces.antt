-- ===== src/Protocol/Machine/Traces.antt =====
-- What holds of `ProtocolStateMachine` of src/sandbox/hyperv/guest_protocol.rs over any list of
-- status records, well-formed or not.
use mathlib.Core.Path.{fun_ext}
use foxhole.Prelude.{
  ℕ, ◌+◌, inl, inr, ◌<◌, ◌≤◌, ◌≡◌, refl, Bool, true, not, ◌&&◌, ◌||◌, ◌⊎◌, some, List, [], ◌∷◌, map,
  length, arith, ok, err, Text, Result-cases, Option-cases,
}
use foxhole.Protocol.Errors.{ProtocolResult}
use foxhole.Protocol.State.{
  ProtocolState, host_ready, request_written, start_allowed, cancel_requested, guest_ready, running,
  completed, failed, shutdown_ready, contains,
}
use foxhole.Protocol.Status.{StatusRecord}
use foxhole.Protocol.Machine.{
  Machine, check_record, insert_state, observe, observe_all, new_machine,
}
use foxhole.Protocol.Machine.Phases.{
  Phase, idle, advance, advance_all, InPhase, members, is_sound, size, size_bound, size-advance,
}
use foxhole.Protocol.Machine.Refinement.{
  observe_taken, observe_refused, check_record-IsFresh, advance_of_admits, InPhase-insert,
}

abbrev keep : ProtocolResult Unit → StatusRecord → List StatusRecord → List StatusRecord
keep (ok _) r rs = r ∷ rs
keep (err _) r rs = rs

-- The records that the machine takes, in order.
abbrev pub accepted : Machine → List StatusRecord → List StatusRecord
accepted m [] = []
accepted m (r ∷ rs) = keep (observe m r).1 r (accepted (observe m r).0 rs)

abbrev pub states : List StatusRecord → List ProtocolState
states = map (λ r. r.state)

-- Every sequence number is above the one before it.
abbrev pub Increasing : ℕ → List StatusRecord → Type 0
Increasing n [] = Unit
Increasing n (r ∷ rs) = (n < r.sequence) × Increasing r.sequence rs

-- The accepted states are a path of the automaton, and the machine ends in the phase it reaches.
abbrev pub IsTrace : Phase → Machine → List StatusRecord → Type 0
IsTrace p m rs =
    (q : Phase) × (advance_all p (states (accepted m rs)) ≡ some q)
    × InPhase q (observe_all m rs).seen

-- The machine that a taken record leaves.
abbrev after : Machine → StatusRecord → Machine
after m r = record m { last_sequence = r.sequence; seen = insert_state r.state m.seen }

-- Whatever is observed, the sequence numbers of the accepted records strictly increase, from
-- above the last one that the machine knew.
pub accepted-Increasing :
    (m : Machine) (rs : List StatusRecord) → Increasing m.last_sequence (accepted m rs)
accepted-Increasing m [] = tt
accepted-Increasing m (r ∷ rs) = elim (Result-cases (check_record m r)) [
  | inl c ↦
      rw (observe_taken m r c, accepted)
        ((check_record-IsFresh m r c).0.later, accepted-Increasing (after m r) rs)
  | inr (e, c) ↦ rw (observe_refused m r e c, accepted) (accepted-Increasing m rs)
]

accepted-IsTrace_from :
    (p : Phase) (m : Machine) (rs : List StatusRecord) → InPhase p m.seen → IsTrace p m rs
unfolding observe_all
accepted-IsTrace_from p m [] h = (p, refl, h)
accepted-IsTrace_from p m (r ∷ rs) h = elim (Result-cases (check_record m r)) [
  | inl c ↦
      let (q, e) = advance_of_admits p m.seen r.state h (check_record-IsFresh m r c).1 in
      let (last, path, final) =
        accepted-IsTrace_from q (after m r) rs (InPhase-insert p m.seen r.state h e) in
      rw (observe_taken m r c, accepted, observe_all) (last, rw (e, advance_all) path, final)
  | inr (e, c) ↦
      rw (observe_refused m r e c, accepted, observe_all) (accepted-IsTrace_from p m rs h)
]

-- Every record that the automaton takes adds one state to the set.
size-advance_all :
    (p : Phase) (rs : List StatusRecord) {q : Phase}
    → advance_all p (states rs) ≡ some q
    → size q ≡ length rs + size p
size-advance_all p [] e = ground arith
size-advance_all p (r ∷ rs) {q} e = elim (Option-cases (advance p r.state)) [
  | inl x ↦ absurd (ground (arith, x, e))
  | inr (t, x) ↦
      omega (arith, size-advance p r.state x, size-advance_all t rs (rw (x, advance_all) at e))
]

-- What the states that were seen say about one another.
pub record IsOrdered (has : ProtocolState → Bool) : Type 0 where
  pub written : has request_written ≡ true → has host_ready ≡ true
  pub allowed : has start_allowed ≡ true → has request_written ≡ true
  pub ready : has guest_ready ≡ true → has request_written ≡ true
  pub started : has running ≡ true → (has start_allowed ≡ true) × (has guest_ready ≡ true)
  pub finished : has completed ≡ true → has running ≡ true
  pub ended : (has failed ≡ true) ⊎ (has cancel_requested ≡ true) → has request_written ≡ true
  pub one_outcome :
      (not (has completed && has failed) ≡ true)
      × (not (has completed && has cancel_requested) ≡ true)
      × (not (has failed && has cancel_requested) ≡ true)
  pub shut :
      has shutdown_ready ≡ true → (has completed || has failed || has cancel_requested) ≡ true

members-IsOrdered : (p : Phase) → is_sound p ≡ true → IsOrdered (members p)
members-IsOrdered p h = ground arith

module _ (run_id : Text) (m : Machine) (made : new_machine run_id ≡ ok m)
    (rs : List StatusRecord) where
  pub new-InPhase : InPhase idle m.seen
  unfolding new_machine
  new-InPhase = record {
    same = λ s. ground (arith, made);
    counted = ground (arith, made);
    sound = refl;
  }

  -- A machine made by `new` accepts, of any records in any order, a sequence of states that the
  -- automaton takes from its first phase, and has then seen just those states.
  pub accepted-IsTrace : IsTrace idle m rs
  accepted-IsTrace = accepted-IsTrace_from idle m rs new-InPhase

  -- However many records are observed, a machine made by `new` accepts at most seven.
  pub length-accepted : length (accepted m rs) ≤ 7
  length-accepted =
      let (q, path, final) = accepted-IsTrace in
      omega (arith, size-advance_all idle (accepted m rs) path, size_bound q)

  -- A machine made by `new` that has observed any records has seen `running` only with
  -- `start_allowed` and `guest_ready`, `completed` only with `running`, no two of completion,
  -- failure and cancellation, and a shutdown only with one of them.
  pub observe_all-IsOrdered : IsOrdered (contains (observe_all m rs).seen)
  observe_all-IsOrdered =
      let (q, path, final) = accepted-IsTrace in
      rw (fun_ext final.same) (members-IsOrdered q final.sound)
