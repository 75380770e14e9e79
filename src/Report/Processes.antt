-- ===== src/Report/Processes.antt =====
-- Which process an event of a report belongs to: the association budget and `ProcessIndex` of
-- src/report_analysis/process_index.rs.
pub mod Sightings
pub mod Least
pub mod Answers
pub mod Nearest
pub mod Budget
use foxhole.Prelude.{
  ℕ, zero, suc, ◌+◌, ◌-◌, ◌*◌, Bool, true, false, not, ◌&&◌, ◌||◌, List, [], ◌∷◌, ◌++◌, map, Option,
  none, some, ltb, leb, ◌==◌, if◌then◌else◌, Result, ok, err, Text, codes, byte_len, ◌=text◌, min,
}
use foxhole.Report.Model.{Process, ProcessObservation, ProcessAssociation}
use foxhole.Report.Timeline.{Candidate, Interval, timeline, at, u64_max}

-- The error of an exhausted budget, of kind `InvalidData`.
pub data BudgetError : Type 0 where
  budget_exceeded : BudgetError

-- The count that the clones of a budget share, and its maximum.
pub record AssociationBudget : Type 0 where
  pub used : ℕ
  pub maximum : ℕ

abbrev pub usize_max : ℕ
usize_max = u64_max

abbrev pub default_budget : AssociationBudget
default_budget = record { used = 0; maximum = 64 * 1024 * 1024 }

unfoldable pub check : AssociationBudget → Result BudgetError (Unit {0})
check budget = if ltb budget.maximum budget.used then err budget_exceeded else ok tt

-- The budget afterwards, and the outcome.
unfoldable pub charge : AssociationBudget → ℕ → AssociationBudget × Result BudgetError (Unit {0})
charge budget bytes =
    let total = budget.used + bytes in
    let charged = if leb total usize_max && leb total budget.maximum then total else usize_max in
    let budget' = record budget { used = charged } in (budget', check budget')

-- `min()` of an iterator
abbrev pub least_of : List ℕ → Option ℕ
least_of [] = none
least_of (n ∷ ns) = elim (least_of ns) [ none ↦ some n | some m ↦ some (min n m) ]

abbrev pub unwrap_or {ℓ} : {A : Type ℓ} → A → Option A → A
unwrap_or a none = a
unwrap_or a (some b) = b

abbrev pub max_of : ℕ → ℕ → ℕ
max_of a b = if leb a b then b else a

abbrev pub min_of : ℕ → ℕ → ℕ
min_of a b = if leb a b then a else b

abbrev pub abs_diff : ℕ → ℕ → ℕ
abs_diff a b = if leb a b then b - a else a - b

-- `min()` of pairs, in lexicographic order
abbrev pub pair_lt : ℕ × ℕ → ℕ × ℕ → Bool
pair_lt a b = ltb a.0 b.0 || (a.0 == b.0 && ltb a.1 b.1)

abbrev pub lesser_pair : ℕ × ℕ → Option (ℕ × ℕ) → Option (ℕ × ℕ)
lesser_pair a none = some a
lesser_pair a (some b) = if pair_lt b a then some b else some a

abbrev pub least_pair : List (ℕ × ℕ) → Option (ℕ × ℕ)
least_pair [] = none
least_pair (a ∷ rest) = lesser_pair a (least_pair rest)

-- What `associate` compares of a candidate.
abbrev pub near : ℕ → Candidate → ℕ × ℕ
near time c = (abs_diff c.observed time, c.pid)

abbrev pub with_option {ℓ} : {A : Type ℓ} → Option A → List A → List A
with_option none rest = rest
with_option (some a) rest = a ∷ rest

abbrev pub map_option {ℓ κ} : {A : Type ℓ} {B : Type κ} → (A → B) → Option A → Option B
map_option f none = none
map_option f (some a) = some (f a)

module _ {Value : Type 0} where
  abbrev pub is_terminated : ProcessObservation Value → Bool
  is_terminated o = o.status =text codes "terminated"

  abbrev pub times : (ProcessObservation Value → Bool) → List (ProcessObservation Value) → List ℕ
  times keep [] = []
  times keep (o ∷ os) = let rest = times keep os in if keep o then o.observed_at_ms ∷ rest else rest

  unfoldable pub process_start : Process Value → ℕ
  process_start p =
      unwrap_or p.observed_at_ms (least_of (times (λ o. not (is_terminated o)) p.observations))

  unfoldable pub process_end : Process Value → ℕ
  process_end p = unwrap_or u64_max (least_of (times is_terminated p.observations))

  abbrev pub candidate : Process Value → ProcessObservation Value → Candidate
  candidate p o = record { observed = o.observed_at_ms; pid = p.pid }

  -- What one observation pushes.
  unfoldable pub push_before : Process Value → ProcessObservation Value → List Interval
  push_before p o =
      let v : Interval = record {
        start = max_of (process_start p) o.observed_at_ms;
        end = process_end p;
        candidate = candidate p o;
      } in
      if leb o.observed_at_ms (process_end p) then v ∷ [] else []

  unfoldable pub push_after : Process Value → ProcessObservation Value → List Interval
  push_after p o =
      let v : Interval = record {
        start = process_start p;
        end = min_of (process_end p) o.observed_at_ms;
        candidate = candidate p o;
      } in
      if leb (process_start p) o.observed_at_ms then v ∷ [] else []

  unfoldable pub push_each :
      (ProcessObservation Value → List Interval) → List (ProcessObservation Value) → List Interval
  push_each push [] = []
  push_each push (o ∷ os) = push o ++ push_each push os

  unfoldable pub push_empty : Process Value → List (ProcessObservation Value) → List Interval
  push_empty p [] =
      let v : Interval = record {
        start = process_start p;
        end = process_end p;
        candidate = record { observed = 0; pid = p.pid };
      } in
      v ∷ []
  push_empty p (o ∷ os) = []

  -- The loop over the processes; one that ends before it starts is passed over.
  unfoldable pub collect : (Process Value → List Interval) → List (Process Value) → List Interval
  collect push [] = []
  collect push (p ∷ ps) =
      let rest = collect push ps in
      if ltb (process_end p) (process_start p) then rest else push p ++ rest

  -- `by_pid.entry(process.pid).or_insert(process)`: the first process with a number keeps it.
  unfoldable pub by_pid : List (Process Value) → ℕ → Option (Process Value)
  by_pid [] pid = none
  by_pid (p ∷ ps) pid = let rest = by_pid ps pid in if p.pid == pid then some p else rest

-- `by_pid.get(&pid)` of the map that the loop builds, and the three timelines.
pub record ProcessIndex (Value : Type 0) : Type 0 where
  pub budget : AssociationBudget
  pub processes : ℕ → Option (Process Value)
  pub before : List (ℕ × Option Candidate)
  pub after : List (ℕ × Option Candidate)
  pub empty : List (ℕ × Option Candidate)

abbrev pub charged :
    ProcessAssociation → Result BudgetError (Unit {0}) → Result BudgetError ProcessAssociation
charged found (ok done) = ok found
charged found (err e) = err e

module _ {Value : Type 0} where
  unfoldable pub new_index : List (Process Value) → ProcessIndex Value
  new_index ps = record {
    budget = default_budget;
    processes = by_pid ps;
    before = timeline (collect (λ p. push_each (push_before p) p.observations) ps) true;
    after = timeline (collect (λ p. push_each (push_after p) p.observations) ps) false;
    empty = timeline (collect (λ p. push_empty p p.observations) ps) false;
  }

  abbrev pub image_of : Option (Process Value) → Text
  image_of none = codes "<unknown>"
  image_of (some p) = p.image

  abbrev pub parent_of : Option (Process Value) → Option ℕ
  parent_of none = none
  parent_of (some p) = p.parent_pid

  -- The index afterwards, and the outcome.
  unfoldable pub for_pid :
      ProcessIndex Value
      → ℕ
      → Bool
      → Text
      → ProcessIndex Value × Result BudgetError ProcessAssociation
  for_pid index pid inferred method =
      let process = index.processes pid in
      let image = image_of process in
      let (budget, outcome) = charge index.budget (byte_len image) in
      let found : ProcessAssociation = record {
        pid = pid;
        image = image;
        parent_pid = parent_of process;
        inferred = inferred;
        method = method;
      } in
      (record index { budget = budget }, charged found outcome)

  -- The nearest of the candidates at a time, with its distance.
  unfoldable pub nearest : ProcessIndex Value → ℕ → Option (ℕ × ℕ)
  nearest index time = least_pair (
      with_option (map_option (near time) (at index.before time)) (
        with_option (map_option (near time) (at index.after time))
          (with_option (map_option (λ c. (u64_max, c.pid)) (at index.empty time)) [])))

  unfoldable pub associate_near :
      ProcessIndex Value
      → ℕ
      → Option (ℕ × ℕ)
      → ProcessIndex Value × Result BudgetError ProcessAssociation
  associate_near index root_pid (some (distance, pid)) =
      for_pid index pid true (codes "nearest_process_lifetime")
  associate_near index root_pid none = for_pid index root_pid true (codes "root_target_fallback")

  unfoldable pub associate :
      ProcessIndex Value
      → Option ℕ
      → ℕ
      → ℕ
      → ProcessIndex Value × Result BudgetError ProcessAssociation
  associate index (some pid) time root_pid = for_pid index pid false (codes "explicit_pid")
  associate index none time root_pid = associate_near index root_pid (nearest index time)
