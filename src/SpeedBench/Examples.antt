-- ===== src/SpeedBench/Examples.antt =====
-- The theorem on the ring of samples at a concrete row of calls.
use cweb.Base.{ℕ, ◌-◌, ◌≡◌, List, [], ◌∷◌, some, codes, length, drop}
use cweb.SpeedBench.{Timespec, history_capacity, init_speedbench, get_speed_history}
use cweb.SpeedBench.History.{Call, start, finish, run, all_measured, get_speed_history-run}

abbrev time : ℕ → Timespec
time n = record { tv_sec = n; tv_nsec = 0 }

-- The second end has no timer.
abbrev calls : List Call
calls =
    start 7 (codes "/a") (some (time 1)) (some (time 100))
    ∷ finish 7 (some (time 3)) (some (time 102))
    ∷ finish 7 (some (time 4)) (some (time 103))
    ∷ []

get_speed_history-run_example :
    get_speed_history (run calls init_speedbench)
    ≡ drop
        (length (all_measured calls init_speedbench) - history_capacity)
        (all_measured calls init_speedbench)
get_speed_history-run_example = get_speed_history-run calls
