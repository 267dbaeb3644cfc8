-- ===== src/LeakTracker/Examples.antt =====
-- The theorem on the leak tracker at a concrete table.
use cweb.Base.{refl, true, false, [], ◌∷◌, some, none, codes, arith}
use cweb.Logger.{dev}
use cweb.LeakTracker.{Tracker, leak_tracker_record}
use cweb.LeakTracker.Contents.{IsTracker, Updates, tracked, leak_tracker_record-Updates}

-- Two live allocations; the first is freed.
abbrev two : Tracker
two = record {
  records =
      record { pointer = 16; name = some (codes "a"); size = 4 }
      ∷ record { pointer = 32; name = none; size = 8 }
      ∷ [];
  capacity = 16;
  exit_handler_registered = true;
}

two-IsTracker : IsTracker two
two-IsTracker = record { distinct = (refl, (refl, tt)); fits = omega arith }

leak_tracker_record-Updates_example :
    Updates 16 (tracked 16 none 0 false) two (leak_tracker_record dev none 16 0 false two)
leak_tracker_record-Updates_example =
    leak_tracker_record-Updates none 16 0 false two refl two-IsTracker (omega arith)
