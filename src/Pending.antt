-- ===== src/Pending.antt =====
-- framework/src/Server/server_pending.c, and the parts of framework/src/Server/server.c that use
-- it: the responses that a handler finishes later, and the connections that they go to. A connection
-- (`struct bufferevent *`) and a request are named by numbers; a pending entry holds its response.
pub mod Lifetime
pub mod Account
mod Examples
use cweb.Base.{
  ℕ, ◌≡◌, Bool, true, false, not, ◌&&◌, List, [], ◌∷◌, ◌++◌, Option, none, some, ◌==◌,
  if◌then◌else◌,
}

pub data ResponseState : Type 0 where
  nprocessed processing processed error : ResponseState

-- The fields of Response that the queue reads.
pub record Response : Type 0 where
  pub state : ResponseState
  pub async_data : Option ℕ
  pub has_async_cancel : Bool

-- struct pending_response; `next` is the rest of the list.
pub record PendingResponse : Type 0 where
  pub req : ℕ
  pub res : Option Response
  pub bev : Option ℕ
  pub cancelled : Bool

-- What the outside sees: a response is sent to a connection (which frees it and its request), both
-- are freed unsent, or a handler's `async_cancel` is called with its data.
pub data Action : Type 0 where
  send : ℕ → ℕ → Action
  free_unsent : ℕ → Action
  call_cancel : Option ℕ → Action

-- cweb_add_pending_response
pub add_pending : ℕ → Response → ℕ → List PendingResponse → List PendingResponse
add_pending req res bev ps =
    record { req = req; res = some res; bev = some bev; cancelled = false } ∷ ps

abbrev pub is_bev : ℕ → Option ℕ → Bool
is_bev b none = false
is_bev b (some c) = b == c

-- The inner test of `cweb_cancel_pending_responses`: the response after it, and the calls made.
pub cancel_response : Option Response → Option Response × List Action
cancel_response none = (none, [])
cancel_response (some r) =
    if r.has_async_cancel
    then (
      some (record r { async_data = none; has_async_cancel = false }),
      call_cancel r.async_data ∷ [],
    )
    else (some r, [])

cancel_entry : PendingResponse → PendingResponse × List Action
unfolding cancel_response
cancel_entry p =
    let (res, acts) = cancel_response p.res in
    (record p { res = res; bev = none; cancelled = true }, acts)

pub cancel_pending : ℕ → List PendingResponse → List PendingResponse × List Action
unfolding cancel_entry
cancel_pending b [] = ([], [])
cancel_pending b (p ∷ ps) =
    let (ps', acts) = cancel_pending b ps in
    let (p', first) = cancel_entry p in
    if is_bev b p.bev then (p' ∷ ps', first ++ acts) else (p ∷ ps', acts)

abbrev pub is_processed : ResponseState → Bool
is_processed processed = true
is_processed _ = false

-- !pending->cancelled && pending->bev
pub deliver : PendingResponse → Action
deliver p = elim p.bev [
  | none ↦ free_unsent p.req
  | some b ↦ if p.cancelled then free_unsent p.req else send b p.req
]

-- One timer tick of `check_pending_responses`: what stays in the list, and what is done. An entry
-- with no response is unlinked.
pub check_pending : List PendingResponse → List PendingResponse × List Action
unfolding deliver
check_pending [] = ([], [])
check_pending (p ∷ ps) =
    let (ps', acts) = check_pending ps in
    elim p.res [
      | none ↦ (ps', acts)
      | some r ↦ if is_processed r.state then (ps', deliver p ∷ acts) else (p ∷ ps', acts)
    ]

-- cweb_cleanup_pending_responses
pub cleanup_pending : List PendingResponse → List PendingResponse × List Action
cleanup_pending [] = ([], [])
cleanup_pending (p ∷ ps) = ([], free_unsent p.req ∷ (cleanup_pending ps).1)

pub mark_state : ResponseState → PendingResponse → PendingResponse
mark_state st p = elim p.res [
  | none ↦ p
  | some r ↦ record p { res = some (record r { state = st }) }
]

-- A handler, or the callback that it left behind, writes the state of a request's response.
pub set_state : ℕ → ResponseState → List PendingResponse → List PendingResponse
unfolding mark_state
set_state req st [] = []
set_state req st (p ∷ ps) = (if p.req == req then mark_state st p else p) ∷ set_state req st ps

-- The server's side of it: the connections that are open, and all that has been done.
pub record Server : Type 0 where
  pub pending : List PendingResponse
  pub open_bev : ℕ → Bool
  pub log : List Action

abbrev pub update : (ℕ → Bool) → ℕ → Bool → ℕ → Bool
update f b v c = if b == c then v else f c

abbrev pub apply : Server → List PendingResponse × List Action → Server
apply s (ps, acts) = record s { pending = ps; log = s.log ++ acts }

-- What the event loop does, one callback at a time.
pub data Step : Server → Server → Type 0 where
  -- listener_cb
  accept : {s : Server} (b : ℕ) → Step s (record s { open_bev = update s.open_bev b true })
  -- conn_read_cb, with the response that the handler left: it is sent at once or put aside
  read_done :
      {s : Server} (b req : ℕ)
      → s.open_bev b ≡ true
      → Step s (record s { log = s.log ++ send b req ∷ [] })
  read_later :
      {s : Server} (b req : ℕ) (res : Response)
      → s.open_bev b ≡ true
      → is_processed res.state ≡ false
      → Step s (record s { pending = add_pending req res b s.pending })
  -- conn_event_cb at the end of a connection: its responses are cancelled and it is freed
  close :
      {s : Server} (b : ℕ)
      → Step s
          (record (apply s (cancel_pending b s.pending)) { open_bev = update s.open_bev b false })
  -- the handler's callback
  write_state :
      {s : Server} (req : ℕ) (st : ResponseState)
      → Step s (record s { pending = set_state req st s.pending })
  -- check_pending_responses
  tick : {s : Server} → Step s (apply s (check_pending s.pending))
  -- cweb_cleanup_pending_responses
  cleanup : {s : Server} → Step s (apply s (cleanup_pending s.pending))

pub data Reach (s : Server) : Server → Type 0 where
  here : Reach s s
  next : {t u : Server} → Reach s t → Step t u → Reach s u

abbrev pub start : Server
start = record { pending = []; open_bev = λ b. false; log = [] }
