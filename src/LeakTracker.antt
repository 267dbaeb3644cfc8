-- ===== src/LeakTracker.antt =====
-- framework/src/leak_detector/leakdetect.c: the table of live allocations. A pointer is a number, 0
-- for NULL; allocation succeeds, and the messages that are logged change nothing.
pub mod Removal
pub mod Contents
mod Examples
use cweb.Base.{
  ℕ, zero, suc, ◌+◌, ◌-◌, ◌*◌, ◌%◌, ◌^◌, Bool, true, false, ◌||◌, not, List, [], ◌∷◌, ◌++◌, Option,
  none, some, ltb, ◌==◌, bump, if◌then◌else◌, length, get_elem?, set, take, Bytes,
}
use cweb.Logger.{Mode, is_dev}

pub record LeakRecord : Type 0 where
  pub pointer : ℕ
  pub name : Option Bytes
  pub size : ℕ

-- The static variables; the count is the length of the list.
pub record Tracker : Type 0 where
  pub records : List LeakRecord
  pub capacity : ℕ
  pub exit_handler_registered : Bool

abbrev no_records : Tracker
no_records = record { records = []; capacity = 0; exit_handler_registered = false }

-- none is for (size_t)-1.
pub find_record_index : ℕ → List LeakRecord → Option ℕ
find_record_index p [] = none
find_record_index p (r ∷ rs) = if r.pointer == p then some 0 else bump (find_record_index p rs)

-- The memory asked for, the capacity times the size of a record, is taken to be below 2^64 bytes.
pub ensure_capacity : Tracker → Tracker
ensure_capacity t =
    if ltb (length t.records) t.capacity
    then t
    else record t { capacity = if t.capacity == 0 then 16 else (t.capacity * 2) % 2 ^ 64 }

-- An empty name is dropped.
pub duplicate_name : Option Bytes → Option Bytes
duplicate_name none = none
duplicate_name (some []) = none
duplicate_name (some (c ∷ cs)) = some (c ∷ cs)

-- The new record goes behind the last one, where there is room.
place_record : LeakRecord → Tracker → Tracker
place_record r t =
    if ltb (length t.records) t.capacity then record t { records = t.records ++ r ∷ [] } else t

pub push_record : LeakRecord → Tracker → Tracker
unfolding ensure_capacity place_record
push_record r t = place_record r (ensure_capacity t)

-- The record at an index gets a new name and size.
pub rename_record : ℕ → LeakRecord → List LeakRecord → List LeakRecord
rename_record i r rs = set rs i r

-- The last record takes the place of the one at `i`, and the count goes down by one.
pub remove_record : ℕ → List LeakRecord → List LeakRecord
remove_record i rs =
    let last = length rs - 1 in
    let moved : List LeakRecord = elim (get_elem? rs last) [
      | none ↦ rs
      | some r ↦ if i == last then rs else set rs i r
    ] in
    take last moved

pub track : ℕ → Option Bytes → ℕ → Tracker → Tracker
unfolding find_record_index push_record rename_record duplicate_name
track p name size t =
    let r : LeakRecord = record { pointer = p; name = duplicate_name name; size = size } in
    elim (find_record_index p t.records) [
      | none ↦ push_record r t
      | some i ↦ record t { records = rename_record i r t.records }
    ]

pub untrack : ℕ → Tracker → Tracker
unfolding find_record_index remove_record
untrack p t = elim (find_record_index p t.records) [
  | none ↦ t
  | some i ↦ record t { records = remove_record i t.records }
]

-- cweb_leak_tracker_record
pub leak_tracker_record : Mode → Option Bytes → ℕ → ℕ → Bool → Tracker → Tracker
unfolding track untrack
leak_tracker_record mode name pointer size is_allocation t =
    let t' = record t { exit_handler_registered = true } in
    let run = if is_allocation then track pointer name size t' else untrack pointer t' in
    if not (is_dev mode) || pointer == 0 then t else run

-- cweb_leak_tracker_outstanding
leak_tracker_outstanding : Tracker → ℕ
leak_tracker_outstanding t = length t.records

-- cweb_leak_tracker_reset
leak_tracker_reset : Mode → Tracker → Tracker
leak_tracker_reset mode t = if is_dev mode then record t { records = []; capacity = 0 } else t
