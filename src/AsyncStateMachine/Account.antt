-- ===== src/AsyncStateMachine/Account.antt =====
-- Every order of starts and answers.
use cweb.Base.{
  ℕ, suc, ◌+◌, ◌-◌, ◌≡◌, refl, ap, ◌∙◌, inl, inr, Bool, true, false, ◌&&◌, Option, Bytes, ◌==◌,
  if◌then◌else◌, if_cases, ◌||◌, Bool-cases, arith,
}
use cweb.AsyncStateMachine.{
  AsyncStateMachine, machine_init, check_completion, answered, fetch_data, db_data, fetch_cb, db_cb,
  start_github_fetch, start_db_query,
}

abbrev pub bit : Bool → ℕ
bit true = 1
bit false = 0

-- The machine, how many requests are not answered, and how often the callback has been called.
pub data Reach {G R : Type 0} : AsyncStateMachine G R → ℕ → ℕ → Type 0 where
  init : Reach (machine_init true) 0 0
  start_fetch :
      {m : AsyncStateMachine G R} {n k : ℕ}
      → Reach m n k
      → Reach (start_github_fetch true m).0 (suc n) k
  start_query :
      {m : AsyncStateMachine G R} {n k : ℕ}
      → Reach m n k
      → Reach (start_db_query true m).0 (suc n) k
  refuse_fetch :
      {m : AsyncStateMachine G R} {n k : ℕ} → Reach m n k → Reach (start_github_fetch false m).0 n k
  refuse_query :
      {m : AsyncStateMachine G R} {n k : ℕ} → Reach m n k → Reach (start_db_query false m).0 n k
  answer_fetch :
      {m : AsyncStateMachine G R} {n k : ℕ} (copied : Option G) (error_message : Option Bytes)
      → Reach m (suc n) k
      → Reach (fetch_cb copied error_message m).0 n (k + bit (fetch_cb copied error_message m).1)
  answer_query :
      {m : AsyncStateMachine G R} {n k : ℕ} (result : Option (Option R))
      (error_message : Option Bytes)
      → Reach m (suc n) k
      → Reach (db_cb result error_message m).0 n (k + bit (db_cb result error_message m).1)

one_more : (p n : ℕ) → p ≡ n → p + 1 ≡ suc n
one_more p n e = omega (arith, e)

module _ {G R : Type 0} where
  record Accounted (m : AsyncStateMachine G R) (n k : ℕ) : Type 0 where
    pub pending : m.pending_count ≡ n
    pub calls : k ≡ bit m.completed
    pub waits : m.has_completion_cb ≡ true

  check-Accounted :
      (m : AsyncStateMachine G R) (n k : ℕ)
      → Accounted m n k
      → Accounted (check_completion m).0 n (k + bit (check_completion m).1)
  unfolding check_completion
  check-Accounted m n k a =
      let P = λ (r : AsyncStateMachine G R × Bool). Accounted r.0 n (k + bit r.1) in
      let same : P (m, false) = record {
        pending = a.pending;
        calls = omega (arith, a.calls);
        waits = a.waits;
      } in
      let done : AsyncStateMachine G R = record m { completed = true } in
      let ends = m.pending_count == 0 && m.has_completion_cb in
      if_cases P m.completed (m, false) (if ends then (done, true) else (m, false)) (λ _. same)
        (λ running.
          if_cases P ends (done, true) (m, false)
            (λ _. record {
              pending = a.pending;
              calls = omega (arith, a.calls, ap bit running);
              waits = a.waits;
            })
            (λ _. same))

  completed-check :
      (m : AsyncStateMachine G R)
      → m.has_completion_cb ≡ true
      → (check_completion m).0.completed ≡ (m.completed || m.pending_count == 0)
  unfolding check_completion
  completed-check m waits = elim (Bool-cases m.completed) [
    | inl ended ↦ cc (ended, waits)
    | inr running ↦ elim (Bool-cases (m.pending_count == 0)) [
      | inl last ↦ cc (running, last, waits)
      | inr others ↦ cc (running, others, waits)
    ]
  ]

  one_less :
      (m : AsyncStateMachine G R) (n k : ℕ) → Accounted m (suc n) k → Accounted (answered m) n k
  one_less m n k a = record { pending = omega (arith, a.pending); calls = a.calls; waits = a.waits }

  reach-Accounted : {m : AsyncStateMachine G R} {n k : ℕ} → Reach m n k → Accounted m n k
  unfolding machine_init start_github_fetch start_db_query fetch_cb db_cb
  reach-Accounted init = record { pending = refl; calls = refl; waits = refl }
  reach-Accounted (start_fetch {m = m} {n = n} r) =
      let a = reach-Accounted r in
      record { pending = one_more m.pending_count n a.pending; calls = a.calls; waits = a.waits }
  reach-Accounted (start_query {m = m} {n = n} r) =
      let a = reach-Accounted r in
      record { pending = one_more m.pending_count n a.pending; calls = a.calls; waits = a.waits }
  reach-Accounted (refuse_fetch r) =
      let a = reach-Accounted r in record { pending = a.pending; calls = a.calls; waits = a.waits }
  reach-Accounted (refuse_query r) =
      let a = reach-Accounted r in record { pending = a.pending; calls = a.calls; waits = a.waits }
  reach-Accounted (answer_fetch {m = m} {n = n} {k = k} copied error_message r) =
      let a = reach-Accounted r in
      let told : AsyncStateMachine G R = record m {
        data' = fetch_data copied error_message m.data';
      } in
      check-Accounted (answered told) n k
        (one_less told n k (record { pending = a.pending; calls = a.calls; waits = a.waits }))
  reach-Accounted (answer_query {m = m} {n = n} {k = k} result error_message r) =
      let a = reach-Accounted r in
      let told : AsyncStateMachine G R = record m {
        data' = db_data result error_message m.data';
      } in
      check-Accounted (answered told) n k
        (one_less told n k (record { pending = a.pending; calls = a.calls; waits = a.waits }))

  -- In whatever order requests are started, refused and answered, as long as one is not answered: the count is that of
  -- the requests without an answer, the callback has been called once if the machine is marked as completed and not at
  -- all if it is not, and after an answer of either kind the machine is completed exactly if it was before or nothing is
  -- left to wait for.
  pub reach_once :
      {m : AsyncStateMachine G R} {n k : ℕ}
      → Reach m (suc n) k
      → (copied : Option G) (result : Option (Option R)) (error_message : Option Bytes)
      → (m.pending_count ≡ suc n)
        × (k ≡ bit m.completed)
        × ((fetch_cb copied error_message m).0.completed ≡ (m.completed || n == 0))
        × ((db_cb result error_message m).0.completed ≡ (m.completed || n == 0))
  unfolding fetch_cb db_cb
  reach_once {m = m} {n = n} r copied result error_message =
      let a = reach-Accounted r in
      let left : m.pending_count - 1 ≡ n = omega (arith, a.pending) in
      let ends = ap (λ (p : ℕ). m.completed || p == 0) left in
      (
        a.pending,
        a.calls,
        completed-check (answered (record m { data' = fetch_data copied error_message m.data' }))
              a.waits
            ∙ ends,
        completed-check (answered (record m { data' = db_data result error_message m.data' }))
              a.waits
            ∙ ends,
      )
