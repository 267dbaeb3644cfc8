-- ===== src/SpeedBench/Ring.antt =====
-- The ring of speed_benchmark.c keeps the last 2048 samples, in order.
use cweb.Base.{
  ℕ, zero, suc, ◌+◌, ◌%◌, ◌≤◌, ◌<◌, ◌≡◌, inl, inr, refl, ap, ap₂, sym, ◌∙◌, true, false, List, [],
  ◌∷◌, ◌++◌, ◌==◌, ltb, if◌then◌else◌, if_true, if_false, if_cases, Bool-cases, length,
  length-append, drop, drop_all, get_or, get_or-append, get_or-append_last, drop_cons, arith, ◌-◌,
}
use cweb.SpeedBench.{
  SpeedSample, SpeedBench, history_capacity, zero_sample, init_speedbench, push_sample,
  copy_history, get_speed_history,
}

-- The state after the samples `xs`: each of the last 2048 stands at its number modulo 2048.
pub record IsRing (xs : List SpeedSample) (s : SpeedBench) : Type 0 where
  pub right_size :
      s.history_size ≡ (if ltb (length xs) history_capacity then length xs else history_capacity)
  pub right_next : s.history_next_index ≡ length xs % history_capacity
  pub keeps :
      (k : ℕ)
      → k < length xs
      → length xs ≤ k + history_capacity
      → s.history_buffer (k % history_capacity) ≡ get_or xs k zero_sample

pub init-IsRing : IsRing [] init_speedbench
init-IsRing = record { right_size = refl; right_next = refl; keeps = λ k h b. absurd (omega arith) }

grown_size :
    (n size : ℕ)
    → size ≡ (if ltb n 2048 then n else 2048)
    → (if ltb size 2048 then suc size else size) ≡ (if ltb (suc n) 2048 then suc n else 2048)
grown_size n size h = ground arith

next_index : (n i : ℕ) → i ≡ n % 2048 → (i + 1) % 2048 ≡ suc n % 2048
next_index n i h = omega arith

other_place : (n k i : ℕ) → i ≡ n % 2048 → k < n → n < k + 2048 → (k % 2048 == i) ≡ false
other_place n k i h b c = ground arith

own_place : (n k i : ℕ) → i ≡ n % 2048 → k ≡ n → (k % 2048 == i) ≡ true
own_place n k i h e = ground arith

pub push-IsRing :
    (xs : List SpeedSample) (x : SpeedSample) (s : SpeedBench)
    → IsRing xs s
    → IsRing (xs ++ x ∷ []) (push_sample x s)
unfolding push_sample
push-IsRing xs x s h =
    let n = length xs in
    let longer : length (xs ++ x ∷ []) ≡ suc n = omega (arith, length-append xs (x ∷ [])) in
    record {
      right_size =
          grown_size n s.history_size h.right_size
          ∙ ap (λ m. if ltb m history_capacity then m else history_capacity) (sym longer);
      right_next =
          next_index n s.history_next_index h.right_next
          ∙ ap (λ m. m % history_capacity) (sym longer);
      keeps = λ k b c. elim (Bool-cases (k == n)) [
        | inl e ↦
            let same : k ≡ n = ground arith in
            if_true _ _ _ (own_place n k s.history_next_index h.right_next same)
            ∙ sym (
                ap (λ j. get_or (xs ++ x ∷ []) j zero_sample) same
                ∙ get_or-append_last xs x zero_sample)
        | inr e ↦
            let below : k < n = ground arith in
            if_false _ _ _ (other_place n k s.history_next_index h.right_next below (omega arith))
            ∙ h.keeps k below (omega arith)
            ∙ sym (get_or-append xs (x ∷ []) k zero_sample below)
      ];
    }

-- The copying loop, from the `k`th sample on.
copy-drop :
    (n start i k : ℕ) (xs : List SpeedSample) (s : SpeedBench)
    → IsRing xs s
    → k + n ≡ length xs
    → length xs ≤ k + history_capacity
    → (start + i) % history_capacity ≡ k % history_capacity
    → copy_history n start i s ≡ drop k xs
unfolding copy_history
copy-drop zero start i k xs s h e b c = sym (drop_all k xs (omega arith))
copy-drop (suc n) start i k xs s h e b c =
    ap₂ (λ y ys. y ∷ ys) (ap s.history_buffer c ∙ h.keeps k (omega arith) b)
      (copy-drop n start (suc i) (suc k) xs s h (omega arith) (omega arith) (omega arith))
    ∙ sym (drop_cons xs k zero_sample (omega arith))

full_count :
    (n size : ℕ)
    → size ≡ (if ltb n 2048 then n else 2048)
    → (size == 2048) ≡ true
    → n - 2048 + size ≡ n
full_count n size h e = ground arith

part_count : (n size : ℕ) → size ≡ (if ltb n 2048 then n else 2048) → n - 2048 + size ≡ n
part_count n size h = ground arith

full_start :
    (n size next : ℕ)
    → size ≡ (if ltb n 2048 then n else 2048)
    → (size == 2048) ≡ true
    → next ≡ n % 2048
    → (next + 0) % 2048 ≡ (n - 2048) % 2048
full_start n size next h e k = ground arith

part_start :
    (n size : ℕ)
    → size ≡ (if ltb n 2048 then n else 2048)
    → (size == 2048) ≡ false
    → (0 + 0) % 2048 ≡ (n - 2048) % 2048
part_start n size h e = ground arith

-- What is copied out of the ring.
pub history-IsRing :
    (xs : List SpeedSample) (s : SpeedBench)
    → IsRing xs s
    → get_speed_history s ≡ drop (length xs - history_capacity) xs
unfolding get_speed_history
history-IsRing xs s h =
    let n = length xs in
    let size = h.right_size in
    let next = h.right_next in
    if_cases (λ start. copy_history s.history_size start 0 s ≡ drop (n - history_capacity) xs)
      (s.history_size == history_capacity) _ _
      (λ e.
        copy-drop s.history_size s.history_next_index 0 (n - history_capacity) xs s h
          (full_count n _ size e) (omega arith) (full_start n _ _ size e next))
      (λ e.
        copy-drop s.history_size 0 0 (n - history_capacity) xs s h (part_count n _ size)
          (omega arith) (part_start n _ size e))
