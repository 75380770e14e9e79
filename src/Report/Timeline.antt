-- ===== src/Report/Timeline.antt =====
-- `Timeline` of src/report_analysis/process_index.rs: which of many overlapping intervals wins at
-- a time, as a list of the times at which the winner changes.
pub mod Active
pub mod Numbered
pub mod Winner
pub mod Present
pub mod Best
use foxhole.Prelude.{
  ℕ, zero, suc, ◌+◌, ◌-◌, Bool, true, false, not, ◌&&◌, ◌||◌, List, [], ◌∷◌, ◌++◌, Option, none,
  some, ltb, leb, ◌==◌, if◌then◌else◌, any,
}
use foxhole.Prelude.Sort.{sort_by}

abbrev pub u64_max : ℕ
u64_max = 0xffffffffffffffff

pub record Candidate : Type 0 where
  pub observed : ℕ
  pub pid : ℕ

pub record Interval : Type 0 where
  pub start : ℕ
  pub end : ℕ
  pub candidate : Candidate

-- An element of `active`. It carries the candidate of the interval that its `id` is the index of.
pub record Key : Type 0 where
  pub rank : ℕ
  pub pid : ℕ
  pub id : ℕ
  pub candidate : Candidate

-- `(rank, pid, id)`, in lexicographic order
abbrev pub key_lt : Key → Key → Bool
key_lt a b =
    ltb a.rank b.rank
    || (a.rank == b.rank && (ltb a.pid b.pid || (a.pid == b.pid && ltb a.id b.id)))

abbrev pub same_key : Key → Key → Bool
same_key a b = a.rank == b.rank && (a.pid == b.pid && a.id == b.id)

unfoldable pub key : (prefer_latest : Bool) (id : ℕ) → Candidate → Key
key prefer_latest id candidate = record {
  rank = if prefer_latest then u64_max - candidate.observed else candidate.observed;
  pid = candidate.pid;
  id = id;
  candidate = candidate;
}

-- `(time, id, add)` with the key that the loop computes for it.
pub record Event : Type 0 where
  pub time : ℕ
  pub add : Bool
  pub key : Key

-- `(time, id, add)`, in lexicographic order
abbrev pub event_le : Event → Event → Bool
event_le a b =
    ltb a.time b.time
    || (a.time == b.time
        && (ltb a.key.id b.key.id || (a.key.id == b.key.id && (not a.add || b.add))))

-- An interval that ends at the last time is never left: `checked_add` overflows.
unfoldable pub interval_events : Bool → ℕ → Interval → List Event
interval_events prefer_latest id v =
    let k : Key = key prefer_latest id v.candidate in
    let entry : Event = record { time = v.start; add = true; key = k } in
    let exit : Event = record { time = suc v.end; add = false; key = k } in
    if leb (suc v.end) u64_max then entry ∷ (exit ∷ []) else entry ∷ []

-- The events of the intervals from the `id`-th on, before they are sorted.
unfoldable pub events_from : Bool → ℕ → List Interval → List Event
events_from prefer_latest id [] = []
events_from prefer_latest id (v ∷ intervals) =
    interval_events prefer_latest id v ++ events_from prefer_latest (suc id) intervals

-- A `BTreeSet`, by its elements: `insert`, `remove` and `first`.
unfoldable pub insert_key : Key → List Key → List Key
insert_key k active = if any (same_key k) active then active else k ∷ active

unfoldable pub remove_key : Key → List Key → List Key
remove_key k [] = []
remove_key k (j ∷ active) =
    let rest = remove_key k active in if same_key k j then rest else j ∷ rest

unfoldable pub lesser_key : Key → Option Key → Option Key
lesser_key k none = some k
lesser_key k (some j) = if key_lt k j then some k else some j

unfoldable pub first_key : List Key → Option Key
first_key [] = none
first_key (k ∷ active) = lesser_key k (first_key active)

unfoldable pub apply_event : Event → List Key → List Key
apply_event e active = if e.add then insert_key e.key active else remove_key e.key active

-- `map(|&(_, _, id)| intervals[id].candidate)`
abbrev pub candidate_of : Option Key → Option Candidate
candidate_of none = none
candidate_of (some k) = some k.candidate

unfoldable pub winner : List Key → Option Candidate
winner active = candidate_of (first_key active)

abbrev pub same_winner : Option Candidate → Option Candidate → Bool
same_winner none none = true
same_winner (some a) (some b) = a.observed == b.observed && a.pid == b.pid
same_winner none (some b) = false
same_winner (some a) none = false

abbrev pub at_time : ℕ → List Event → Bool
at_time time [] = false
at_time time (e ∷ es) = e.time == time

-- `changes.last().is_none_or(|&(_, old)| old != winner)`
abbrev pub is_change : Option (Option Candidate) → Option Candidate → Bool
is_change none new = true
is_change (some old) new = not (same_winner old new)

-- The loop, one event at a time. The inner loop goes on while the next event has the same time,
-- and the winner is read after the last of them; `last` is the last winner pushed.
unfoldable pub sweep :
    List Key → (last : Option (Option Candidate)) → List Event → List (ℕ × Option Candidate)
sweep active last [] = []
sweep active last (e ∷ es) =
    let active' = apply_event e active in
    let new = winner active' in
    let more = sweep active' last es in
    let pushed = (e.time, new) ∷ sweep active' (some new) es in
    if at_time e.time es then more else if is_change last new then pushed else more

unfoldable pub timeline : List Interval → Bool → List (ℕ × Option Candidate)
timeline intervals prefer_latest =
    sweep [] none (sort_by event_le (events_from prefer_latest 0 intervals))

-- `partition_point(|&(start, _)| start <= time)` of changes in the order of time
unfoldable pub partition_point : ℕ → List (ℕ × Option Candidate) → ℕ
partition_point time [] = 0
partition_point time (change ∷ changes) =
    let rest = partition_point time changes in if leb change.0 time then suc rest else 0

unfoldable pub change_at : List (ℕ × Option Candidate) → ℕ → Option Candidate
change_at [] index = none
change_at (change ∷ changes) zero = change.1
change_at (change ∷ changes) (suc index) = change_at changes index

-- `end.checked_sub(1).and_then(|index| self.0[index].1)`
unfoldable pub at_end : List (ℕ × Option Candidate) → ℕ → Option Candidate
at_end changes zero = none
at_end changes (suc index) = change_at changes index

unfoldable pub at : List (ℕ × Option Candidate) → ℕ → Option Candidate
at changes time = at_end changes (partition_point time changes)
