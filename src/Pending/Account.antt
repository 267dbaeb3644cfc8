-- ===== src/Pending/Account.antt =====
-- Every request is answered or freed once.
use cweb.Base.{
  ℕ, ◌+◌, ◌≡◌, inl, inr, refl, ap, ap₂, ◌∙◌, Bool, true, false, List, [], ◌∷◌, ◌++◌, Option, none,
  some, arith, ◌==◌, if◌then◌else◌, All, Bool-cases, Option-cases,
}
use cweb.Pending.{
  PendingResponse, Response, ResponseState, Action, send, free_unsent, call_cancel, add_pending,
  is_bev, cancel_response, cancel_pending, is_processed, deliver, check_pending, cleanup_pending,
  mark_state, set_state, Server, Step, accept, read_done, read_later, close, write_state, tick,
  cleanup, Reach, here, next, start,
}

abbrev pub count : ℕ → List ℕ → ℕ
count q [] = 0
count q (x ∷ xs) = (if q == x then 1 else 0) + count q xs

count-append : (q : ℕ) (xs ys : List ℕ) → count q (xs ++ ys) ≡ count q xs + count q ys
count-append q [] ys = omega arith
count-append q (x ∷ xs) ys = omega (arith, count-append q xs ys)

abbrev pub waiting : List PendingResponse → List ℕ
waiting [] = []
waiting (p ∷ ps) = p.req ∷ waiting ps

-- The requests that a log has freed, with or without an answer.
abbrev pub finished : List Action → List ℕ
finished [] = []
finished (send b req ∷ acts) = req ∷ finished acts
finished (free_unsent req ∷ acts) = req ∷ finished acts
finished (call_cancel d ∷ acts) = finished acts

finished-append : (xs ys : List Action) → finished (xs ++ ys) ≡ finished xs ++ finished ys
finished-append [] ys = refl
finished-append (send b req ∷ xs) ys = ap (◌∷◌ req) (finished-append xs ys)
finished-append (free_unsent req ∷ xs) ys = ap (◌∷◌ req) (finished-append xs ys)
finished-append (call_cancel d ∷ xs) ys = finished-append xs ys

-- The requests that a step reads from a connection.
taken : {s t : Server} → Step s t → List ℕ
taken (accept b) = []
taken (read_done b req o) = req ∷ []
taken (read_later b req res o n) = req ∷ []
taken (close b) = []
taken (write_state req st) = []
taken tick = []
taken cleanup = []

pub all_taken : {s t : Server} → Reach s t → List ℕ
unfolding taken
all_taken here = []
all_taken (next r st) = taken st ++ all_taken r

abbrev has_res : Option Response → Bool
has_res none = false
has_res (some r) = true

abbrev AllHaveRes : List PendingResponse → Type 0
AllHaveRes = All (λ p. has_res p.res ≡ true)

cancel_response_keeps :
    (r : Option Response)
    → (has_res (cancel_response r).0 ≡ has_res r) × (finished (cancel_response r).1 ≡ [])
unfolding cancel_response
cancel_response_keeps none = (refl, refl)
cancel_response_keeps (some r) = elim (Bool-cases r.has_async_cancel) [
  | inl y ↦ rw y (refl, refl)
  | inr n ↦ rw n (refl, refl)
]

cancel_keeps :
    (b : ℕ) (ps : List PendingResponse)
    → AllHaveRes ps
    → (waiting (cancel_pending b ps).0 ≡ waiting ps)
      × (finished (cancel_pending b ps).1 ≡ [])
      × AllHaveRes (cancel_pending b ps).0
unfolding cancel_pending
cancel_keeps b [] h = (refl, refl, tt)
cancel_keeps b (p ∷ ps) h =
    let (w, f, k) = cancel_keeps b ps h.1 in
    let (r, c) = cancel_response_keeps p.res in
    elim (Bool-cases (is_bev b p.bev)) [
      | inl y ↦ rw y (
        ap (◌∷◌ p.req) w,
        finished-append (cancel_response p.res).1 (cancel_pending b ps).1 ∙ rw (c, f),
        (r ∙ h.0, k),
      )
      | inr n ↦ rw n (ap (◌∷◌ p.req) w, f, (h.0, k))
    ]

deliver_finishes :
    (p : PendingResponse) (acts : List Action) → finished (deliver p ∷ acts) ≡ p.req ∷ finished acts
unfolding deliver
deliver_finishes p acts = elim (Option-cases p.bev) [
  | inl n ↦ rw (n, deliver) refl
  | inr (b, e) ↦
      rw (e, deliver) (elim (Bool-cases p.cancelled) [ inl y ↦ rw y refl | inr n ↦ rw n refl ])
]

check_keeps :
    (q : ℕ) (ps : List PendingResponse)
    → AllHaveRes ps
    → (count q (waiting ps)
        ≡ count q (waiting (check_pending ps).0) + count q (finished (check_pending ps).1))
      × AllHaveRes (check_pending ps).0
unfolding check_pending
check_keeps q [] h = (refl, tt)
check_keeps q (p ∷ ps) h =
    let (c, k) = check_keeps q ps h.1 in
    elim (Option-cases p.res) [
      | inl n ↦ absurd (cc (rw n at h.0))
      | inr (r, e) ↦
          rw (e, check_pending)
            (elim (Bool-cases (is_processed r.state)) [
              | inl y ↦ rw y (rw (deliver_finishes p (check_pending ps).1) (omega (arith, c)), k)
              | inr n ↦ rw n (omega (arith, c), (h.0, k))
            ])
    ]

cleanup_keeps :
    (ps : List PendingResponse)
    → (waiting ps ≡ finished (cleanup_pending ps).1) × (waiting (cleanup_pending ps).0 ≡ [])
unfolding cleanup_pending
cleanup_keeps [] = (refl, refl)
cleanup_keeps (p ∷ ps) = (ap (◌∷◌ p.req) (cleanup_keeps ps).0, refl)

cleanup-AllHaveRes : (ps : List PendingResponse) → AllHaveRes (cleanup_pending ps).0
unfolding cleanup_pending
cleanup-AllHaveRes [] = tt
cleanup-AllHaveRes (p ∷ ps) = tt

mark_keeps :
    (req : ℕ) (st : ResponseState) (p : PendingResponse)
    → ((if p.req == req then mark_state st p else p).req ≡ p.req)
      × (has_res (if p.req == req then mark_state st p else p).res ≡ has_res p.res)
unfolding mark_state
mark_keeps req st p = ground arith

set_state_keeps :
    (req : ℕ) (st : ResponseState) (ps : List PendingResponse)
    → AllHaveRes ps
    → (waiting (set_state req st ps) ≡ waiting ps) × AllHaveRes (set_state req st ps)
unfolding set_state
set_state_keeps req st [] h = (refl, tt)
set_state_keeps req st (p ∷ ps) h =
    let (w, k) = set_state_keeps req st ps h.1 in
    let (r, v) = mark_keeps req st p in (ap₂ ◌∷◌ r w, (v ∙ h.0, k))

-- A request is as often in the list or finished as it has been taken.
abbrev Balanced : ℕ → ℕ → Server → Type 0
Balanced q n s = (n ≡ count q (waiting s.pending) + count q (finished s.log)) × AllHaveRes s.pending

log_keeps :
    (q : ℕ) (log acts : List Action)
    → count q (finished (log ++ acts)) ≡ count q (finished log) + count q (finished acts)
log_keeps q log acts = rw finished-append (count-append q (finished log) (finished acts))

Step-Balanced :
    (q n : ℕ) {s t : Server}
    → (st : Step s t) → Balanced q n s
    → Balanced q (count q (taken st) + n) t
unfolding taken add_pending
Step-Balanced q n (accept b) h = (omega (arith, h.0), h.1)
Step-Balanced q n (read_done {s} b req o) h =
    (ground (arith, h.0, log_keeps q s.log (send b req ∷ [])), h.1)
Step-Balanced q n (read_later {s} b req res o m) h = (omega (arith, h.0), (refl, h.1))
Step-Balanced q n (close {s} b) h =
    let (w, f, k) = cancel_keeps b s.pending h.1 in
    (rw w (omega (arith, h.0, log_keeps q s.log (cancel_pending b s.pending).1, ap (count q) f)), k)
Step-Balanced q n (write_state {s} req v) h =
    let (w, k) = set_state_keeps req v s.pending h.1 in (rw w (omega (arith, h.0)), k)
Step-Balanced q n (tick {s}) h =
    let (c, k) = check_keeps q s.pending h.1 in
    (omega (arith, h.0, c, log_keeps q s.log (check_pending s.pending).1), k)
Step-Balanced q n (cleanup {s}) h =
    let (w, e) = cleanup_keeps s.pending in
    (
      omega (
        arith,
        h.0,
        log_keeps q s.log (cleanup_pending s.pending).1,
        ap (count q) w,
        ap (count q) e,
      ),
      cleanup-AllHaveRes s.pending,
    )

Reach-Balanced : (q : ℕ) {s : Server} (r : Reach start s) → Balanced q (count q (all_taken r)) s
unfolding all_taken
Reach-Balanced q here = (refl, tt)
Reach-Balanced q (next r st) =
    let (c, k) = Step-Balanced q (count q (all_taken r)) st (Reach-Balanced q r) in
    (count-append q (taken st) (all_taken r) ∙ c, k)

-- From the server's start on, in every order of callbacks, each request stands in the list or has
-- been finished, by an answer or by being freed, exactly as often as it has been taken from a
-- connection: none is lost, and none is answered or freed twice.
pub Reach-account :
    (q : ℕ) {s : Server} (r : Reach start s)
    → count q (all_taken r) ≡ count q (waiting s.pending) + count q (finished s.log)
Reach-account q r = (Reach-Balanced q r).0
