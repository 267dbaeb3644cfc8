-- ===== src/AsyncStateMachine.antt =====
-- app/plugins/async_state_machine.c: a page of the example application that waits for a fetch and for a query. What the
-- two plugins say and copy are arguments; they answer from the event loop, after the call that starts them.
pub mod Account
mod Examples
use cweb.Base.{
  ℕ, zero, suc, ◌+◌, ◌-◌, Bool, true, false, not, ◌&&◌, Option, none, some, ltb, ◌==◌,
  if◌then◌else◌, [], take, Bytes, codes,
}

pub record AsyncData (G R : Type 0) : Type 0 where
  pub github : Option G
  pub has_github : Bool
  pub fetch_error : Bool
  pub fetch_error_message : Bytes
  pub db_result : Option R
  pub has_db_result : Bool
  pub db_error : Bool
  pub db_error_message : Bytes

pub record AsyncStateMachine (G R : Type 0) : Type 0 where
  pub data' : AsyncData G R
  pub pending_count : ℕ
  pub completed : Bool
  pub has_completion_cb : Bool

-- strncpy into an array of that size, which keeps its last NUL
abbrev message : Bytes → Bytes
message text = take 255 text

abbrev or_unknown : Option Bytes → Bytes → Bytes
or_unknown none unknown = unknown
or_unknown (some text) unknown = text

module _ {G R : Type 0} where
  pub machine_init : Bool → AsyncStateMachine G R
  machine_init callback = record {
    data' = record {
      github = none;
      has_github = false;
      fetch_error = false;
      fetch_error_message = [];
      db_result = none;
      has_db_result = false;
      db_error = false;
      db_error_message = [];
    };
    pending_count = 0;
    completed = false;
    has_completion_cb = callback;
  }

  -- The result says whether the callback is called.
  pub check_completion : AsyncStateMachine G R → AsyncStateMachine G R × Bool
  check_completion m =
      if m.completed
      then (m, false)
      else if m.pending_count == 0 && m.has_completion_cb
      then (record m { completed = true }, true)
      else (m, false)

  -- if (machine->pending_count > 0) machine->pending_count--
  abbrev pub answered : AsyncStateMachine G R → AsyncStateMachine G R
  answered m = record m { pending_count = m.pending_count - 1 }

  -- With the copy of the data, where there are data and they can be copied.
  pub fetch_data : Option G → Option Bytes → AsyncData G R → AsyncData G R
  fetch_data (some copied) error_message d = record d { github = some copied; has_github = true }
  fetch_data none error_message d = record d {
    fetch_error = true;
    fetch_error_message = message (or_unknown error_message (codes "Unknown fetch error"));
  }

  pub fetch_cb : Option G → Option Bytes → AsyncStateMachine G R → AsyncStateMachine G R × Bool
  unfolding fetch_data check_completion
  fetch_cb copied error_message m =
      check_completion (answered (record m { data' = fetch_data copied error_message m.data' }))

  -- With the clone of the result, where there is a result and it can be cloned.
  pub db_data : Option (Option R) → Option Bytes → AsyncData G R → AsyncData G R
  db_data (some (some result)) none d = record d { db_result = some result; has_db_result = true }
  db_data (some none) none d = record d {
    db_error = true;
    db_error_message = message (codes "Failed to clone MariaDB result");
  }
  db_data none error_message d = record d {
    db_error = true;
    db_error_message = message (or_unknown error_message (codes "Unknown database error"));
  }
  db_data (some result) (some error_message) d = record d {
    db_error = true;
    db_error_message = message error_message;
  }

  pub db_cb :
      Option (Option R) → Option Bytes → AsyncStateMachine G R → AsyncStateMachine G R × Bool
  unfolding db_data check_completion
  db_cb result error_message m =
      check_completion (answered (record m { data' = db_data result error_message m.data' }))

  -- The flag says whether the plugin takes the request, the result whether the machine waits for it.
  pub start_github_fetch : Bool → AsyncStateMachine G R → AsyncStateMachine G R × Bool
  start_github_fetch true m = (record m { pending_count = m.pending_count + 1 }, true)
  start_github_fetch false m = (
    record m {
      data' = record m.data' {
        fetch_error = true;
        fetch_error_message = message (codes "Unable to start GitHub fetch");
      };
    },
    false,
  )

  pub start_db_query : Bool → AsyncStateMachine G R → AsyncStateMachine G R × Bool
  start_db_query true m = (record m { pending_count = m.pending_count + 1 }, true)
  start_db_query false m = (
    record m {
      data' = record m.data' {
        db_error = true;
        db_error_message = message (codes "Unable to start MariaDB query");
      };
    },
    false,
  )

  -- What the plugins do to the data that they free is not followed.
  pub cleanup : AsyncStateMachine G R → AsyncStateMachine G R
  cleanup m = record m { pending_count = 0; completed = false }
