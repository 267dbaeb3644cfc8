-- ===== src/SpeedBench.antt =====
-- framework/src/SpeedBench/speed_benchmark.c: timers of the requests that run, and the ring of the last
-- measurements. A key is a number, 0 for NULL; a clock's reading is an argument, none where
-- clock_gettime fails. A duration is kept in nanoseconds, where the code has a double of milliseconds.
pub mod Ring
pub mod History
mod Examples
use cweb.Base.{
  ℕ, zero, suc, ◌+◌, ◌-◌, ◌*◌, ◌%◌, ◌^◌, ◌≡◌, Bool, true, false, ◌&&◌, not, List, [], ◌∷◌, Option,
  none, some, ltb, ◌==◌, bump, if◌then◌else◌, set, get_elem?, take, replicate, Bytes,
}

abbrev pub history_capacity : ℕ
history_capacity = 2048

abbrev path_max : ℕ
path_max = 2048

abbrev max_active : ℕ
max_active = 256

-- struct timespec
pub record Timespec : Type 0 where
  pub tv_sec : ℕ
  pub tv_nsec : ℕ

pub record SpeedSample : Type 0 where
  pub path : Bytes
  pub start_wall : Timespec
  pub end_wall : Timespec
  pub duration : ℕ

pub record ActiveTimer : Type 0 where
  pub in_use : Bool
  pub key : ℕ
  pub path : Bytes
  pub start_mono : Timespec
  pub start_wall : Timespec

-- The static variables; the arrays that are indexed modulo their size are functions.
pub record SpeedBench : Type 0 where
  pub active_timers : List ActiveTimer
  pub history_buffer : ℕ → SpeedSample
  pub history_size : ℕ
  pub history_next_index : ℕ

abbrev zero_time : Timespec
zero_time = record { tv_sec = 0; tv_nsec = 0 }

abbrev free_timer : ActiveTimer
free_timer = record {
  in_use = false;
  key = 0;
  path = [];
  start_mono = zero_time;
  start_wall = zero_time;
}

abbrev pub zero_sample : SpeedSample
zero_sample = record { path = []; start_wall = zero_time; end_wall = zero_time; duration = 0 }

-- cweb_init_speedbench
abbrev pub init_speedbench : SpeedBench
init_speedbench = record {
  active_timers = replicate max_active free_timer;
  history_buffer = λ i. zero_sample;
  history_size = 0;
  history_next_index = 0;
}

-- The monotonic clock does not run backwards.
diff_ns : Timespec → Timespec → ℕ
diff_ns start end =
    (end.tv_sec * 1000000000 + end.tv_nsec) - (start.tv_sec * 1000000000 + start.tv_nsec)

-- Both searches give the index of a slot.
pub find_timer_slot : ℕ → List ActiveTimer → Option ℕ
find_timer_slot key [] = none
find_timer_slot key (t ∷ ts) =
    if t.in_use && t.key == key then some 0 else bump (find_timer_slot key ts)

pub get_free_timer_slot : List ActiveTimer → Option ℕ
get_free_timer_slot [] = none
get_free_timer_slot (t ∷ ts) = if not t.in_use then some 0 else bump (get_free_timer_slot ts)

abbrev pub or_else : Option ℕ → Option ℕ → Option ℕ
or_else none o = o
or_else (some i) o = some i

abbrev pub started : ℕ → Bytes → Timespec → Timespec → ActiveTimer
started key path m w = record {
  in_use = true;
  key = key;
  path = take (path_max - 1) path;
  start_mono = m;
  start_wall = w;
}

pub speedbench_start : ℕ → Bytes → Option Timespec → Option Timespec → SpeedBench → SpeedBench
unfolding find_timer_slot get_free_timer_slot
speedbench_start zero path mono wall s = s
speedbench_start (suc k) path none wall s = s
speedbench_start (suc k) path (some m) none s = s
speedbench_start (suc k) path (some m) (some w) s =
    elim (or_else (find_timer_slot (suc k) s.active_timers) (get_free_timer_slot s.active_timers)) [
      | none ↦ s
      | some i ↦ record s { active_timers = set s.active_timers i (started (suc k) path m w) }
    ]

-- The sample goes to the next place of the ring.
pub push_sample : SpeedSample → SpeedBench → SpeedBench
push_sample x s = record s {
  history_buffer = λ i. if i == s.history_next_index then x else s.history_buffer i;
  history_next_index = (s.history_next_index + 1) % history_capacity;
  history_size = if ltb s.history_size history_capacity then suc s.history_size else s.history_size;
}

-- slot->in_use = 0; slot->key = NULL; slot->path[0] = '\0'
abbrev release : ActiveTimer → ActiveTimer
release t = record t { in_use = false; key = 0; path = [] }

pub sample_of : ActiveTimer → Timespec → Timespec → SpeedSample
unfolding diff_ns
sample_of t m w = record {
  path = take (path_max - 1) t.path;
  start_wall = t.start_wall;
  end_wall = w;
  duration = diff_ns t.start_mono m;
}

-- What `speedbench_end` does with the slot that it finds.
pub finish_timer : ℕ → ActiveTimer → Timespec → Timespec → SpeedBench → SpeedBench
unfolding push_sample
finish_timer i t m w s =
    let s' = push_sample (sample_of t m w) s in
    record s' { active_timers = set s.active_timers i (release t) }

pub speedbench_end : ℕ → Option Timespec → Option Timespec → SpeedBench → SpeedBench
unfolding find_timer_slot finish_timer
speedbench_end zero mono wall s = s
speedbench_end (suc k) none wall s = s
speedbench_end (suc k) (some m) none s = s
speedbench_end (suc k) (some m) (some w) s = elim (find_timer_slot (suc k) s.active_timers) [
  | none ↦ s
  | some i ↦ elim (get_elem? s.active_timers i) [ none ↦ s | some t ↦ finish_timer i t m w s ]
]

-- The loop that copies the ring, from its `i`th sample on.
pub copy_history : ℕ → ℕ → ℕ → SpeedBench → List SpeedSample
copy_history zero start i s = []
copy_history (suc n) start i s =
    s.history_buffer ((start + i) % history_capacity) ∷ copy_history n start (suc i) s

-- cweb_get_speed_history; the count is the length of the list.
pub get_speed_history : SpeedBench → List SpeedSample
unfolding copy_history
get_speed_history s =
    copy_history s.history_size
      (if s.history_size == history_capacity then s.history_next_index else 0) 0 s
