-- ===== src/SpeedBench/History.antt =====
-- The history that speed_benchmark.c gives after a row of calls.
use cweb.Base.{
  ℕ, zero, suc, ◌≡◌, sym, subst, List, [], ◌∷◌, ◌++◌, length, drop, append_assoc, append-nil,
  Option, none, some, get_elem?, set, Bytes, ◌-◌,
}
use cweb.SpeedBench.{
  Timespec, ActiveTimer, started, or_else, find_timer_slot, get_free_timer_slot, sample_of,
  finish_timer, speedbench_start, speedbench_end, SpeedSample, SpeedBench, history_capacity,
  init_speedbench, get_speed_history,
}
use cweb.SpeedBench.Ring.{IsRing, init-IsRing, push-IsRing, history-IsRing}

-- The calls that a server makes.
pub data Call : Type 0 where
  start : (key : ℕ) (path : Bytes) (mono wall : Option Timespec) → Call
  finish : (key : ℕ) (mono wall : Option Timespec) → Call

pub step : Call → SpeedBench → SpeedBench
step (start key path mono wall) s = speedbench_start key path mono wall s
step (finish key mono wall) s = speedbench_end key mono wall s

pub run : List Call → SpeedBench → SpeedBench
unfolding step
run [] s = s
run (c ∷ cs) s = run cs (step c s)

-- The samples that a call measures: one at the end of a running timer, if both clocks can be read.
pub measured : Call → SpeedBench → List SpeedSample
measured (start key path mono wall) s = []
measured (finish zero mono wall) s = []
measured (finish (suc k) none wall) s = []
measured (finish (suc k) (some m) none) s = []
measured (finish (suc k) (some m) (some w)) s = elim (find_timer_slot (suc k) s.active_timers) [
  | none ↦ []
  | some i ↦ elim (get_elem? s.active_timers i) [ none ↦ [] | some t ↦ sample_of t m w ∷ [] ]
]

pub all_measured : List Call → SpeedBench → List SpeedSample
all_measured [] s = []
all_measured (c ∷ cs) s = measured c s ++ all_measured cs (step c s)

IsRing-none : (xs : List SpeedSample) (s : SpeedBench) → IsRing xs s → IsRing (xs ++ []) s
IsRing-none xs s h = subst (λ ys. IsRing ys s) (sym (append-nil xs)) h

start-IsRing :
    (xs : List SpeedSample) (key : ℕ) (path : Bytes) (mono wall : Option Timespec) (s : SpeedBench)
    → IsRing xs s
    → IsRing xs (speedbench_start key path mono wall s)
unfolding speedbench_start
start-IsRing xs zero path mono wall s h = h
start-IsRing xs (suc k) path none wall s h = h
start-IsRing xs (suc k) path (some m) none s h = h
start-IsRing xs (suc k) path (some m) (some w) s h =
    elim (or_else (find_timer_slot (suc k) s.active_timers) (get_free_timer_slot s.active_timers))
      as (λ o. IsRing xs (elim o [
        | none ↦ s
        | some i ↦ record s { active_timers = set s.active_timers i (started (suc k) path m w) }
      ])) [
        | none ↦ h
        | some i ↦ record { right_size = h.right_size; right_next = h.right_next; keeps = h.keeps }
      ]

finish_timer-IsRing :
    (xs : List SpeedSample) (i : ℕ) (t : ActiveTimer) (m w : Timespec) (s : SpeedBench)
    → IsRing xs s
    → IsRing (xs ++ sample_of t m w ∷ []) (finish_timer i t m w s)
unfolding finish_timer
finish_timer-IsRing xs i t m w s h =
    let r = push-IsRing xs (sample_of t m w) s h in
    record { right_size = r.right_size; right_next = r.right_next; keeps = r.keeps }

end-IsRing :
    (xs : List SpeedSample) (key : ℕ) (mono wall : Option Timespec) (s : SpeedBench)
    → IsRing xs s
    → IsRing (xs ++ measured (finish key mono wall) s) (speedbench_end key mono wall s)
unfolding speedbench_end measured
end-IsRing xs zero mono wall s h = IsRing-none xs s h
end-IsRing xs (suc k) none wall s h = IsRing-none xs s h
end-IsRing xs (suc k) (some m) none s h = IsRing-none xs s h
end-IsRing xs (suc k) (some m) (some w) s h =
    elim (find_timer_slot (suc k) s.active_timers)
      as (λ o.
        IsRing
          (xs ++ (elim o [
            | none ↦ []
            | some i ↦ elim (get_elem? s.active_timers i) [
              | none ↦ []
              | some t ↦ sample_of t m w ∷ []
            ]
          ]))
          (elim o [
            | none ↦ s
            | some i ↦ elim (get_elem? s.active_timers i) [
              | none ↦ s
              | some t ↦ finish_timer i t m w s
            ]
          ])) [
            | none ↦ IsRing-none xs s h
            | some i ↦
                elim (get_elem? s.active_timers i)
                  as (λ o.
                    IsRing (xs ++ (elim o [ none ↦ [] | some t ↦ sample_of t m w ∷ [] ]))
                      (elim o [ none ↦ s | some t ↦ finish_timer i t m w s ])) [
                        | none ↦ IsRing-none xs s h
                        | some t ↦ finish_timer-IsRing xs i t m w s h
                      ]
          ]

run-IsRing :
    (calls : List Call) (xs : List SpeedSample) (s : SpeedBench)
    → IsRing xs s
    → IsRing (xs ++ all_measured calls s) (run calls s)
unfolding run all_measured measured
run-IsRing [] xs s h = IsRing-none xs s h
run-IsRing (start key path mono wall ∷ cs) xs s h =
    run-IsRing cs xs (speedbench_start key path mono wall s)
      (start-IsRing xs key path mono wall s h)
run-IsRing (finish key mono wall ∷ cs) xs s h =
    subst (λ ys. IsRing ys (run cs (speedbench_end key mono wall s)))
      (append_assoc xs (measured (finish key mono wall) s)
        (all_measured cs (speedbench_end key mono wall s)))
      (run-IsRing cs (xs ++ measured (finish key mono wall) s) (speedbench_end key mono wall s)
        (end-IsRing xs key mono wall s h))

-- After any calls from the start on, the history is the last 2048 of the samples that they measured, all
-- of them if they are fewer, from the oldest to the newest.
pub get_speed_history-run :
    (calls : List Call)
    → get_speed_history (run calls init_speedbench)
      ≡ drop
          (length (all_measured calls init_speedbench) - history_capacity)
          (all_measured calls init_speedbench)
get_speed_history-run calls =
    history-IsRing (all_measured calls init_speedbench) (run calls init_speedbench)
      (run-IsRing calls [] init_speedbench init-IsRing)
