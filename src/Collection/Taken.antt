-- ===== src/Collection/Taken.antt =====
-- What a record is worth that the host takes.
use mathlib.Core.Path.{subst}
use foxhole.Prelude.{
  ◌≡◌, ◌<◌, refl, sym, ap, ◌∙◌, true, false, not, ◌&&◌, List, [], ◌∷◌, Option, none, some, All, ok,
  >>-eq-ok, >>=-eq-ok, refuse_if, refuse_if_ok, ok_eq, Text, =text_iff, if◌then◌else◌, arith,
  Result-cases, Bool-cases, inl, inr,
}
use foxhole.Protocol.Status.{StatusRecord}
use foxhole.Protocol.Machine.{Machine, observe, check_record, insert_state}
use foxhole.Protocol.Machine.Phases.{Phase, InPhase, advance, advance_all}
use foxhole.Protocol.Machine.Refinement.{
  observe_taken, observe_refused, check_record-IsFresh, advance_of_admits, InPhase-insert,
}
use foxhole.Protocol.Machine.Traces.{states, Increasing}
use foxhole.Collection.{
  unbound_request, unauthenticated_result, unexpected_result, is_digest, is_result_state,
  has_digest, observed, observe_record, observe_records,
}

-- A record that belongs to this run, to the bytes of its request and to those of its result.
pub record IsBound (run_id request_sha256 result_sha256 : Text) (r : StatusRecord) : Type 0 where
  pub run : r.run_id ≡ run_id
  pub request : r.request_sha256 ≡ some request_sha256
  pub result : r.result_sha256 ≡ (if is_result_state r.state then some result_sha256 else none)

is_digest_eq : (expected : Text) (o : Option Text) → is_digest expected o ≡ true → o ≡ some expected
is_digest_eq expected none h = absurd (ground arith)
is_digest_eq expected (some actual) h = ap some ((=text_iff actual expected).0 h)

no_digest : (o : Option Text) → has_digest o ≡ false → o ≡ none
no_digest none h = refl
no_digest (some actual) h = absurd (ground arith)

module _ (request_sha256 result_sha256 : Text) where
  -- A record that is taken: bound, new, and a step of the automaton.
  pub record IsTaken (m : Machine) (p : Phase) (r : StatusRecord) (m' : Machine) : Type 0 where
    pub bound : IsBound m.run_id request_sha256 result_sha256 r
    pub later : m.last_sequence < r.sequence
    pub next : Phase
    pub step : advance p r.state ≡ some next
    pub inside : InPhase next m'.seen
    pub same_run : m'.run_id ≡ m.run_id
    pub counted : m'.last_sequence ≡ r.sequence

  -- An observation that is passed on was taken.
  observed_taken :
      (m : Machine) (r : StatusRecord) {made : Machine}
      → observed (observe m r) ≡ ok made
      → (check_record m r ≡ ok tt)
        × (made ≡ record m { last_sequence = r.sequence; seen = insert_state r.state m.seen })
  observed_taken m r {made} passed = elim (Result-cases (check_record m r)) [
    | inl c ↦ let same = sym (ap observed (observe_taken m r c)) ∙ passed in (c, ground arith)
    | inr (e, c) ↦
        let same = sym (ap observed (observe_refused m r e c)) ∙ passed in absurd (ground arith)
  ]

  bound_result :
      (r : StatusRecord)
      → (is_result_state r.state && not (is_digest result_sha256 r.result_sha256)) ≡ false
      → (not (is_result_state r.state) && has_digest r.result_sha256) ≡ false
      → r.result_sha256 ≡ (if is_result_state r.state then some result_sha256 else none)
  bound_result r terminal other = elim (Bool-cases (is_result_state r.state)) [
    | inl final ↦ rw final (is_digest_eq result_sha256 r.result_sha256 (ground arith))
    | inr early ↦ rw early (no_digest r.result_sha256 (ground arith))
  ]

  observe_record-IsTaken :
      (m : Machine) (p : Phase) (r : StatusRecord) {m' : Machine}
      → InPhase p m.seen
      → observe_record request_sha256 result_sha256 m r ≡ ok m'
      → IsTaken m p r m'
  unfolding observe_record
  observe_record-IsTaken m p r {m'} h done =
      let (digest, rest) =
        >>-eq-ok (refuse_if (not (is_digest request_sha256 r.request_sha256)) unbound_request) _
          done in
      let (made, passed, tail) = >>=-eq-ok (observed (observe m r)) _ rest in
      let (taken, after) = observed_taken m r passed in
      let (fresh, admitted) = check_record-IsFresh m r taken in
      let (next, step) = advance_of_admits p m.seen r.state h admitted in
      let (final, tail') =
        >>-eq-ok
          (refuse_if (is_result_state r.state && not (is_digest result_sha256 r.result_sha256))
            unauthenticated_result)
          _ tail in
      let (early, kept) =
        >>-eq-ok
          (refuse_if (not (is_result_state r.state) && has_digest r.result_sha256)
            unexpected_result)
          _ tail' in
      let next_machine : Machine = record m {
        last_sequence = r.sequence;
        seen = insert_state r.state m.seen;
      } in
      let same : m' ≡ next_machine = sym (ok_eq kept) ∙ after in
      record {
        bound = record {
          run = fresh.same_run;
          request =
              is_digest_eq request_sha256 r.request_sha256
                (ground (arith, refuse_if_ok _ _ digest));
          result = bound_result r (refuse_if_ok _ _ final) (refuse_if_ok _ _ early);
        };
        later = fresh.later;
        next = next;
        step = step;
        inside =
            subst (λ (x : Machine). InPhase next x.seen) (sym same)
              (InPhase-insert p m.seen r.state h step);
        same_run = ap (λ (x : Machine). x.run_id) same;
        counted = ap (λ (x : Machine). x.last_sequence) same;
      }

  -- Records that were all taken are a path of the automaton.
  pub observe_records_path :
      (m : Machine) (p : Phase) (rs : List StatusRecord) {m' : Machine}
      → InPhase p m.seen
      → observe_records request_sha256 result_sha256 m rs ≡ ok m'
      → (q : Phase) × (advance_all p (states rs) ≡ some q)
        × InPhase q m'.seen
        × Increasing m.last_sequence rs
        × All (IsBound m.run_id request_sha256 result_sha256) rs
  unfolding observe_records
  observe_records_path m p [] {m'} h done =
      let same : m ≡ m' = ok_eq done in
      (p, refl, subst (λ (x : Machine). InPhase p x.seen) same h, tt, tt)
  observe_records_path m p (r ∷ rs) {m'} h done =
      let (made, first, rest) =
        >>=-eq-ok (observe_record request_sha256 result_sha256 m r) _ done in
      let taken = observe_record-IsTaken m p r h first in
      let (q, path, inside, increasing, bound) =
        observe_records_path made taken.next rs taken.inside rest in
      (
        q,
        rw (taken.step, advance_all) path,
        inside,
        (taken.later, subst (λ n. Increasing n rs) taken.counted increasing),
        (
          taken.bound,
          subst (λ i. All (IsBound i request_sha256 result_sha256) rs) taken.same_run bound,
        ),
      )
