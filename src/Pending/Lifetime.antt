-- ===== src/Pending/Lifetime.antt =====
-- No response goes to a connection that is closed.
use cweb.Base.{
  ℕ, ◌≡◌, inl, inr, refl, sym, ◌∙◌, Bool, true, false, List, [], ◌∷◌, ◌++◌, Option, none, some,
  arith, ◌==◌, if◌then◌else◌, All, All-append, Bool-cases, Option-cases, append-nil,
}
use cweb.Pending.{
  PendingResponse, Response, ResponseState, Action, send, free_unsent, call_cancel, add_pending,
  is_bev, cancel_response, cancel_pending, is_processed, deliver, check_pending, cleanup_pending,
  set_state, mark_state, Server, update, Step, accept, read_done, read_later, close, write_state,
  tick, cleanup, Reach, here, next, start,
}

-- An entry that still has a connection has an open one.
abbrev Live : (ℕ → Bool) → PendingResponse → Type 0
Live live p = (b : ℕ) → p.bev ≡ some b → live b ≡ true

abbrev pub SendsLive : (ℕ → Bool) → Action → Type 0
SendsLive live (send b req) = live b ≡ true
SendsLive live (free_unsent req) = Unit
SendsLive live (call_cancel d) = Unit

update-Live :
    (live : ℕ → Bool) (b : ℕ) (p : PendingResponse) → Live live p → Live (update live b true) p
update-Live live b p h c e = ground (arith, h c e)

update-All :
    (live : ℕ → Bool) (b : ℕ) (ps : List PendingResponse)
    → All (Live live) ps
    → All (Live (update live b true)) ps
update-All live b [] h = tt
update-All live b (p ∷ ps) h = (update-Live live b p h.0, update-All live b ps h.1)

-- An entry that does not wait for `b` outlives `b`.
other-Live :
    (live : ℕ → Bool) (b : ℕ) (p : PendingResponse)
    → is_bev b p.bev ≡ false
    → Live live p
    → Live (update live b false) p
other-Live live b p n h c e = let ne : (b == c) ≡ false = rw e at n in rw ne (h c e)

cancel_response_quiet :
    (live : ℕ → Bool) (r : Option Response) → All (SendsLive live) (cancel_response r).1
unfolding cancel_response
cancel_response_quiet live none = tt
cancel_response_quiet live (some r) = elim (Bool-cases r.has_async_cancel) [
  | inl y ↦ rw y (tt, tt)
  | inr n ↦ rw n tt
]

cancel-Live :
    (live : ℕ → Bool) (b : ℕ) (ps : List PendingResponse)
    → All (Live live) ps
    → All (Live (update live b false)) (cancel_pending b ps).0
      × All (SendsLive live) (cancel_pending b ps).1
unfolding cancel_pending
cancel-Live live b [] h = (tt, tt)
cancel-Live live b (p ∷ ps) h =
    let (k, q) = cancel-Live live b ps h.1 in
    elim (Bool-cases (is_bev b p.bev)) [
      | inl y ↦
          rw y
            (((λ c e. cc), k), All-append (SendsLive live) _ _ (cancel_response_quiet live p.res) q)
      | inr n ↦ rw n ((other-Live live b p n h.0, k), q)
    ]

deliver-SendsLive :
    (live : ℕ → Bool) (p : PendingResponse) → Live live p → SendsLive live (deliver p)
unfolding deliver
deliver-SendsLive live p h = elim (Option-cases p.bev) [
  | inl n ↦ rw (n, deliver) tt
  | inr (b, e) ↦
      rw (e, deliver) (elim (Bool-cases p.cancelled) [ inl y ↦ rw y tt | inr n ↦ rw n (h b e) ])
]

check-Live :
    (live : ℕ → Bool) (ps : List PendingResponse)
    → All (Live live) ps
    → All (Live live) (check_pending ps).0 × All (SendsLive live) (check_pending ps).1
unfolding check_pending
check-Live live [] h = (tt, tt)
check-Live live (p ∷ ps) h =
    let (k, q) = check-Live live ps h.1 in
    elim (Option-cases p.res) [
      | inl n ↦ rw (n, check_pending) (k, q)
      | inr (r, e) ↦
          rw (e, check_pending)
            (elim (Bool-cases (is_processed r.state)) [
              | inl y ↦ rw y (k, (deliver-SendsLive live p h.0, q))
              | inr n ↦ rw n ((h.0, k), q)
            ])
    ]

cleanup-Live :
    (live : ℕ → Bool) (ps : List PendingResponse)
    → All (Live live) (cleanup_pending ps).0 × All (SendsLive live) (cleanup_pending ps).1
unfolding cleanup_pending
cleanup-Live live [] = (tt, tt)
cleanup-Live live (p ∷ ps) = (tt, (tt, (cleanup-Live live ps).1))

mark_bev :
    (req : ℕ) (st : ResponseState) (p : PendingResponse)
    → (if p.req == req then mark_state st p else p).bev ≡ p.bev
unfolding mark_state
mark_bev req st p = ground arith

set_state-Live :
    (live : ℕ → Bool) (req : ℕ) (st : ResponseState) (ps : List PendingResponse)
    → All (Live live) ps
    → All (Live live) (set_state req st ps)
unfolding set_state
set_state-Live live req st [] h = tt
set_state-Live live req st (p ∷ ps) h =
    ((λ c e. h.0 c (sym (mark_bev req st p) ∙ e)), set_state-Live live req st ps h.1)

abbrev AllLive : Server → Type 0
AllLive s = All (Live s.open_bev) s.pending

Step-AllLive : {s t : Server} → Step s t → AllLive s → AllLive t
unfolding add_pending
Step-AllLive (accept {s} b) h = update-All s.open_bev b s.pending h
Step-AllLive (read_done b req o) h = h
Step-AllLive (read_later {s} b req res o n) h = ((λ c e. ground (arith, o)), h)
Step-AllLive (close {s} b) h = (cancel-Live s.open_bev b s.pending h).0
Step-AllLive (write_state {s} req st) h = set_state-Live s.open_bev req st s.pending h
Step-AllLive (tick {s}) h = (check-Live s.open_bev s.pending h).0
Step-AllLive (cleanup {s}) h = (cleanup-Live s.open_bev s.pending).0

Reach-AllLive : {s t : Server} → AllLive s → Reach s t → AllLive t
Reach-AllLive h here = h
Reach-AllLive h (next r st) = Step-AllLive st (Reach-AllLive h r)

Step-sends_open :
    {s t : Server}
    → Step s t
    → AllLive s
    → (acts : List Action) × (t.log ≡ s.log ++ acts) × All (SendsLive s.open_bev) acts
Step-sends_open (accept {s} b) h = ([], sym (append-nil s.log), tt)
Step-sends_open (read_done {s} b req o) h = (send b req ∷ [], refl, (o, tt))
Step-sends_open (read_later {s} b req res o n) h = ([], sym (append-nil s.log), tt)
Step-sends_open (close {s} b) h =
    ((cancel_pending b s.pending).1, refl, (cancel-Live s.open_bev b s.pending h).1)
Step-sends_open (write_state {s} req st) h = ([], sym (append-nil s.log), tt)
Step-sends_open (tick {s}) h =
    ((check_pending s.pending).1, refl, (check-Live s.open_bev s.pending h).1)
Step-sends_open (cleanup {s}) h =
    ((cleanup_pending s.pending).1, refl, (cleanup-Live s.open_bev s.pending).1)

-- From the server's start on, whatever callbacks run in whatever order: what a callback adds to the
-- log sends responses only to connections that are open when it runs.
pub Reach-sends_open :
    {s t : Server}
    → Reach start s
    → Step s t
    → (acts : List Action) × (t.log ≡ s.log ++ acts) × All (SendsLive s.open_bev) acts
Reach-sends_open r st = Step-sends_open st (Reach-AllLive tt r)
