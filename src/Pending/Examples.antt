-- ===== src/Pending/Examples.antt =====
-- A connection that closes before its response is ready, and instances of the theorems.
use cweb.Base.{◌+◌, ◌≡◌, refl, true, false, List, [], ◌∷◌, ◌++◌, some, All}
use cweb.Pending.{
  Response, processing, processed, Action, free_unsent, call_cancel, Server, accept, read_later,
  close, write_state, tick, Reach, here, next, start, add_pending, cancel_pending, set_state,
  check_pending, apply, update,
}
use cweb.Pending.Lifetime.{SendsLive, Reach-sends_open}
use cweb.Pending.Account.{count, waiting, finished, all_taken, Reach-account}

abbrev query : Response
query = record { state = processing; async_data = some 40; has_async_cancel = true }

-- Connection 1 sends request 7, whose handler waits for a query.
abbrev asked : Server
asked = record start { open_bev = update start.open_bev 1 true; pending = add_pending 7 query 1 [] }

asked-Reach : Reach start asked
asked-Reach = next (next here (accept 1)) (read_later 1 7 query refl refl)

abbrev closed : Server
closed = record (apply asked (cancel_pending 1 asked.pending)) {
  open_bev = update asked.open_bev 1 false;
}

closed-Reach : Reach start closed
closed-Reach = next asked-Reach (close 1)

-- The query's callback still marks the response; the tick frees it and sends nothing.
abbrev late : Server
late = record closed { pending = set_state 7 processed closed.pending }

late-Reach : Reach start late
late-Reach = next closed-Reach (write_state 7 processed)

late_tick :
    (apply late (check_pending late.pending)).log ≡ call_cancel (some 40) ∷ free_unsent 7 ∷ []
unfolding add_pending cancel_pending set_state check_pending
late_tick = refl

Reach-sends_open_example :
    (acts : List Action) × ((apply late (check_pending late.pending)).log ≡ late.log ++ acts)
    × All (SendsLive late.open_bev) acts
Reach-sends_open_example = Reach-sends_open late-Reach (tick {s = late})

Reach-account_example :
    count 7 (all_taken late-Reach) ≡ count 7 (waiting late.pending) + count 7 (finished late.log)
Reach-account_example = Reach-account 7 late-Reach
