-- ===== src/Protocol/Machine/Phases.antt =====
-- The protocol as an explicit automaton of phases, and that the dependency graph of
-- `ProtocolStateMachine` in src/sandbox/hyperv/guest_protocol.rs implements it.
use mathlib.Core.Path.{fun_ext}
use foxhole.Prelude.{
  ℕ, suc, ◌+◌, ◌≤◌, length, ◌∙◌, ◌≡◌, refl, Bool, true, false, not, ◌&&◌, ◌||◌, Option, none, some,
  List, [], ◌∷◌, arith, is_empty,
}
use foxhole.Protocol.State.{
  ProtocolState, host_ready, request_written, start_allowed, cancel_requested, guest_ready, running,
  completed, failed, shutdown_ready, ◌=state◌, contains,
}
use foxhole.Protocol.Status.{is_some}
use foxhole.Protocol.Machine.{is_terminal, prerequisites}

pub data Outcome : Type 0 where
  did_complete did_fail was_cancelled : Outcome

-- `requested` records whether the host allowed the start and whether the guest is ready. `ended`
-- and `closed` keep how far the run had come.
pub data Phase : Type 0 where
  idle greeted executing : Phase
  requested : Bool → Bool → Phase
  ended closed : Outcome → Bool → Bool → Bool → Phase

abbrev outcome_state : Outcome → ProtocolState
outcome_state did_complete = completed
outcome_state did_fail = failed
outcome_state was_cancelled = cancel_requested

abbrev members_from : Bool → Bool → Bool → ProtocolState → Bool
members_from allowed ready ran host_ready = true
members_from allowed ready ran request_written = true
members_from allowed ready ran start_allowed = allowed
members_from allowed ready ran guest_ready = ready
members_from allowed ready ran running = ran
members_from allowed ready ran _ = false

-- The states that have been seen in a phase.
abbrev pub members : Phase → ProtocolState → Bool
members idle s = false
members greeted s = host_ready =state s
members (requested allowed ready) s = members_from allowed ready false s
members executing s = members_from true true true s
members (ended o allowed ready ran) s =
    (outcome_state o =state s) || members_from allowed ready ran s
members (closed o allowed ready ran) s =
    (shutdown_ready =state s) || ((outcome_state o =state s) || members_from allowed ready ran s)

-- One record more.
abbrev pub advance : Phase → ProtocolState → Option Phase
advance idle host_ready = some greeted
advance greeted request_written = some (requested false false)
advance (requested false ready) start_allowed = some (requested true ready)
advance (requested allowed false) guest_ready = some (requested allowed true)
advance (requested true true) running = some executing
advance (requested allowed ready) failed = some (ended did_fail allowed ready false)
advance (requested allowed ready) cancel_requested = some (ended was_cancelled allowed ready false)
advance executing completed = some (ended did_complete true true true)
advance executing failed = some (ended did_fail true true true)
advance executing cancel_requested = some (ended was_cancelled true true true)
advance (ended o allowed ready ran) shutdown_ready = some (closed o allowed ready ran)
advance _ _ = none

abbrev pub Represents : Phase → List ProtocolState → Type 0
Represents p seen = (s : ProtocolState) → contains seen s ≡ members p s

-- the three tests on the seen states that `observe` makes
abbrev pub admits : List ProtocolState → ProtocolState → Bool
admits seen s =
    not (contains seen s)
    && (not (is_terminal seen && not (s =state shutdown_ready)) && prerequisites seen s)

=state_refl : (s : ProtocolState) → (s =state s) ≡ true
=state_refl host_ready = refl
=state_refl _ = refl

is_empty_of_none :
    (seen : List ProtocolState)
    → ((s : ProtocolState) → contains seen s ≡ false)
    → is_empty seen ≡ true
is_empty_of_none [] h = refl
is_empty_of_none (t ∷ ts) h = ground (arith, h t, =state_refl t)

not_empty_of_some :
    (seen : List ProtocolState) (s : ProtocolState) → contains seen s ≡ true → is_empty seen ≡ false
not_empty_of_some [] s h = ground arith
not_empty_of_some (t ∷ ts) s h = refl

is_empty_lem :
    (p : Phase) (seen : List ProtocolState)
    → Represents p seen
    → is_empty seen ≡ not (members p host_ready)
is_empty_lem idle seen h = is_empty_of_none seen h
is_empty_lem greeted seen h = not_empty_of_some seen host_ready (h host_ready)
is_empty_lem (requested a g) seen h = not_empty_of_some seen host_ready (h host_ready)
is_empty_lem executing seen h = not_empty_of_some seen host_ready (h host_ready)
is_empty_lem (ended o a g r) seen h =
    ground (arith, not_empty_of_some seen host_ready, h host_ready)
is_empty_lem (closed o a g r) seen h =
    ground (arith, not_empty_of_some seen host_ready, h host_ready)

-- `admits`, from the membership test and the emptiness of the set.
abbrev admits_by : (ProtocolState → Bool) → Bool → ProtocolState → Bool
admits_by has empty s =
    let terminal = has completed || has failed || has cancel_requested || has shutdown_ready in
    not (has s) && (not (terminal && not (s =state shutdown_ready)) && needs has empty terminal s)
  where
    needs : (ProtocolState → Bool) → Bool → Bool → ProtocolState → Bool
    needs has empty terminal host_ready = empty
    needs has empty terminal request_written = has host_ready
    needs has empty terminal start_allowed =
        has request_written && not (has running) && not terminal
    needs has empty terminal guest_ready = has request_written && not terminal
    needs has empty terminal running = has guest_ready && has start_allowed && not terminal
    needs has empty terminal completed = has running && not terminal
    needs has empty terminal failed = has request_written && not terminal
    needs has empty terminal cancel_requested =
        has request_written && not (has completed) && not (has failed)
    needs has empty terminal shutdown_ready = has completed || has failed || has cancel_requested

admits-eq-admits_by :
    (seen : List ProtocolState) (s : ProtocolState)
    → admits seen s ≡ admits_by (contains seen) (is_empty seen) s
admits-eq-admits_by seen host_ready = refl
admits-eq-admits_by seen _ = refl

-- The dependency graph and the automaton agree, phase by phase and state by state.
admits_table :
    (p : Phase) (s : ProtocolState)
    → admits_by (members p) (not (members p host_ready)) s ≡ is_some (advance p s)
admits_table idle s = ground arith
admits_table greeted s = ground arith
admits_table executing s = ground arith
admits_table (requested a g) s = ground arith
admits_table (ended o a g r) s = ground arith
admits_table (closed o a g r) s = ground arith

pub members-advance :
    (p : Phase) (s : ProtocolState) {p' : Phase}
    → advance p s ≡ some p'
    → (t : ProtocolState) → members p' t ≡ ((s =state t) || members p t)
members-advance idle s e t = ground arith
members-advance greeted s e t = ground arith
members-advance executing s e t = ground arith
members-advance (requested a g) s e t = ground arith
members-advance (ended o a g r) s e t = ground arith
members-advance (closed o a g r) s e t = ground arith

pub admits-eq :
    (p : Phase) (seen : List ProtocolState) (s : ProtocolState)
    → Represents p seen
    → admits seen s ≡ is_some (advance p s)
admits-eq p seen s h =
    admits-eq-admits_by seen s ∙ rw (is_empty_lem p seen h, fun_ext h) (admits_table p s)

-- How many states have been seen in a phase.
abbrev bit : Bool → ℕ
bit true = 1
bit false = 0

abbrev pub size : Phase → ℕ
size idle = 0
size greeted = 1
size (requested allowed ready) = 2 + (bit allowed + bit ready)
size executing = 5
size (ended o allowed ready ran) = 3 + (bit allowed + bit ready + bit ran)
size (closed o allowed ready ran) = 4 + (bit allowed + bit ready + bit ran)

pub size-advance :
    (p : Phase) (s : ProtocolState) {p' : Phase} → advance p s ≡ some p' → size p' ≡ suc (size p)
size-advance idle s e = ground arith
size-advance greeted s e = ground arith
size-advance executing s e = ground arith
size-advance (requested a g) s e = ground arith
size-advance (ended o a g r) s e = ground arith
size-advance (closed o a g r) s e = ground arith

pub size_bound : (p : Phase) → size p ≤ 7
size_bound idle = omega arith
size_bound greeted = omega arith
size_bound executing = omega arith
size_bound (requested a g) = ground arith
size_bound (ended o a g r) = ground arith
size_bound (closed o a g r) = ground arith

abbrev ends_soundly : Outcome → Bool → Bool → Bool → Bool
ends_soundly did_complete allowed ready ran = allowed && ready && ran
ends_soundly _ allowed ready ran = not ran || (allowed && ready)

-- A run that ran was allowed and ready, and one that completed ran.
abbrev pub is_sound : Phase → Bool
is_sound (ended o allowed ready ran) = ends_soundly o allowed ready ran
is_sound (closed o allowed ready ran) = ends_soundly o allowed ready ran
is_sound _ = true

pub is_sound-advance :
    (p : Phase) (s : ProtocolState) {p' : Phase}
    → is_sound p ≡ true
    → advance p s ≡ some p'
    → is_sound p' ≡ true
is_sound-advance idle s h e = ground arith
is_sound-advance greeted s h e = ground arith
is_sound-advance executing s h e = ground arith
is_sound-advance (requested a g) s h e = ground arith
is_sound-advance (ended o a g r) s h e = ground arith
is_sound-advance (closed o a g r) s h e = ground arith

-- The set that a machine keeps is the set of its phase, each state once.
pub record InPhase (p : Phase) (seen : List ProtocolState) : Type 0 where
  pub same : Represents p seen
  pub counted : length seen ≡ size p
  pub sound : is_sound p ≡ true

-- A sequence of states that the automaton takes from a phase, and the phase that it reaches.
abbrev pub advance_all : Phase → List ProtocolState → Option Phase
advance_all p [] = some p
advance_all p (s ∷ ss) = elim (advance p s) [ none ↦ none | some q ↦ advance_all q ss ]
