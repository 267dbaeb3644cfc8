-- ===== src/AsyncStateMachine/Examples.antt =====
-- Runs of the machine of a page.
use cweb.Base.{ℕ, ◌+◌, ◌≡◌, refl, true, false, ◌||◌, ◌==◌, none, some, codes}
use cweb.AsyncStateMachine.{
  AsyncStateMachine, machine_init, fetch_cb, db_cb, start_github_fetch, start_db_query,
}
use cweb.AsyncStateMachine.Account.{
  Reach, bit, init, start_fetch, start_query, answer_fetch, reach_once,
}

-- Both requests are under way, and the fetch is answered first.
abbrev half : AsyncStateMachine ℕ ℕ
half =
    (fetch_cb (some 1) none
      (start_db_query true (start_github_fetch true (machine_init true)).0).0).0

abbrev both_started :
    Reach {G = ℕ} {R = ℕ}
      (start_db_query true (start_github_fetch true (machine_init true)).0).0
      2
      0
both_started = start_query (start_fetch init)

first_answer_waits :
    (fetch_cb {G = ℕ} {R = ℕ}
      (some 1)
      none
      (start_db_query true (start_github_fetch true (machine_init true)).0).0).1
    ≡ false
unfolding fetch_cb start_db_query start_github_fetch machine_init
first_answer_waits = refl

reach_once_example :
    (half.pending_count ≡ 1)
    × (0
          + bit
              (fetch_cb {G = ℕ} {R = ℕ}
                (some 1)
                none
                (start_db_query true (start_github_fetch true (machine_init true)).0).0).1
        ≡ bit half.completed)
    × ((fetch_cb none (some (codes "gone")) half).0.completed ≡ (half.completed || 0 == 0))
    × ((db_cb (some (some 7)) (some (codes "gone")) half).0.completed ≡ (half.completed || 0 == 0))
reach_once_example =
    reach_once (answer_fetch (some 1) none both_started) none (some (some 7)) (some (codes "gone"))

-- A query that cannot be started, with nothing else under way: the callback is never called.
refused_alone : (start_db_query {G = ℕ} {R = ℕ} false (machine_init true)).0.completed ≡ false
unfolding start_db_query machine_init
refused_alone = refl
