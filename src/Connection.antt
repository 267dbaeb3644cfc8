-- ===== src/Connection.antt =====
-- framework/src/Server/server.c: from the bytes that a connection reads to the bytes that it writes. A handler of the
-- application is any function on the request, the response and the static variables that a request meets; what it does
-- to the queue of pending responses and to the world outside is not followed. What the encoders, the disk, the clock and the random numbers give are arguments.
pub mod Answers
mod Examples
use cweb.Base.{
  ℕ, suc, Bool, true, false, ◌&&◌, ◌||◌, not, List, [], ◌∷◌, ◌++◌, Option, none, some, ltb, ◌==◌,
  ◌>>=◌, if◌then◌else◌, length, drop, Bytes, codes, bytes_eq, decimal,
}
use cweb.Http.{Request, Response, parse_request, add_response_header, serialize_response}
use cweb.PathUtils.FileKind.{strrchr, has_ext}
use cweb.Routing.{Router, get_route_handler}
use cweb.Sessions.{Session, SessionStore, session_lifetime, get_or_create_session}
use cweb.Pending.{ResponseState, is_processed}
use cweb.Compress.Encoding.{Doubles, auto_compress}
use cweb.FileCache.Mime.{is_static_file}
use cweb.FileCache.Store.{FileServer}
use cweb.FileCache.Serve.{FileResponse, handle_request}

-- A request with the fields that server.c sets.
pub record ServerRequest : Type 0 where
  pub request : Request
  pub using_session : Bool
  pub session : Option Session

-- The static variables of the modules that a request meets.
pub record Server (H A : Type 0) : Type 0 where
  pub router : Router H A
  pub store : SessionStore
  pub files : FileServer

-- What a handler gets, and leaves changed: it may call the functions of the other components, so that it can register
-- routes, create or prolong sessions and change the cache.
pub record Exchange (H A : Type 0) : Type 0 where
  pub server : Server H A
  pub request : ServerRequest
  pub response : FileResponse

-- What becomes of the bytes of a read: nothing, bytes that are written, or an entry of the queue of pending responses.
pub data ReadOutcome : Type 0 where
  unread : ReadOutcome
  sent : Bytes → ReadOutcome
  queued : ServerRequest → FileResponse → ReadOutcome

abbrev compressible_exts : List Bytes
compressible_exts =
    codes "html"
    ∷ codes "htm"
    ∷ codes "css"
    ∷ codes "js"
    ∷ codes "mjs"
    ∷ codes "json"
    ∷ codes "txt"
    ∷ codes "xml"
    ∷ codes "svg"
    ∷ []

-- The loop over the other endings gives 0 too.
pub path_is_compressible : Bytes → Bool
unfolding strrchr has_ext
path_is_compressible path = elim (strrchr path b'.') [
  | none ↦ false
  | some dot ↦ has_ext (drop (suc dot) path) compressible_exts
]

-- The session of a request that asks for one; the request then bears the session's name.
pub attach_session : Bytes → ℕ → ℕ → ServerRequest → SessionStore → SessionStore × ServerRequest
attach_session random checked stamped req store =
    let (store', s) = get_or_create_session req.request.session_id random checked stamped store in
    let named = record req {
      session = some s;
      request = record req.request { session_id = some s.id };
    } in
    if req.using_session then (store', named) else (store, req)

abbrev differs : Option Bytes → Bytes → Bool
differs none id = true
differs (some old) id = not (bytes_eq old id)

-- The cookie of a new session. The code reads the old name after it has been freed; here it is still what it was.
pub set_cookie : Option Bytes → Option Session → Response → Response
set_cookie old none res = res
set_cookie old (some s) res =
    let value =
      codes "session_id="
      ++ (s.id ++ (codes "; HttpOnly; Path=/; Max-Age=" ++ decimal session_lifetime)) in
    if differs old s.id then add_response_header res (codes "Set-Cookie") value else res

-- The page where there is neither a handler nor a file.
pub page_not_found : FileResponse → FileResponse
page_not_found res =
    let page = record res.response { status_code = 404; body = codes "<h1>404 Not Found</h1>" } in
    record res {
      response = add_response_header page (codes "Content-Type") (codes "text/html");
      state = ResponseState.processed;
    }

module _ (d : Doubles) (brotli gzip : Bytes → Option Bytes) where
  -- The bytes of a response that is ready. `none` means that a minifier ran out of turns.
  pub send_response : Request → Response → Option Bytes
  send_response req res =
      let do_compress = path_is_compressible req.path && ltb 512 (length res.body) in
      (if do_compress then auto_compress d brotli gzip req res else some res) >>= λ r.
      some (serialize_response r).1

  -- if (res->state == PROCESSED)
  pub finish_response : ServerRequest → FileResponse → Option ReadOutcome
  finish_response req res =
      if is_processed res.state
      then (send_response req.request res.response >>= λ bytes. some (ReadOutcome.sent bytes))
      else some (ReadOutcome.queued req res)

  module _ {H A : Type 0} (run : H → Exchange H A → Exchange H A)
      (disk : Bytes → Option Bytes) where
    -- What the handler makes of the exchange, the response of the file server, or the page of an unknown path.
    pub respond : Option H → Exchange H A → Exchange H A
    respond (some h) x = run h x
    respond none x =
        let files = x.server.files in
        let path = x.request.request.path in
        record x {
          response =
              if is_static_file files.server_config.lookup_path path
              then handle_request disk files path x.response
              else page_not_found x.response;
        }

    -- A parsed request.
    pub serve_request : Bytes → ℕ → ℕ → Request → Server H A → Server H A × Option ReadOutcome
    serve_request random checked stamped parsed s =
        let (store, req) =
          attach_session random checked stamped
            (record { request = parsed; using_session = false; session = none }) s.store in
        let created : Response = record { status_code = 404; headers = []; body = [] } in
        let res : FileResponse = record {
          response = set_cookie parsed.session_id req.session created;
          priority = 0;
          state = ResponseState.nprocessed;
        } in
        let (router, handler) =
          get_route_handler req.request.path (some req.using_session) s.router in
        let x : Exchange H A = record {
          server = record s { router = router; store = store };
          request = req;
          response = res;
        } in
        let answered = respond handler x in
        (answered.server, finish_response answered.request answered.response)

    pub conn_read : Bytes → ℕ → ℕ → Bytes → Server H A → Server H A × Option ReadOutcome
    conn_read random checked stamped [] s = (s, some ReadOutcome.unread)
    conn_read random checked stamped (c ∷ cs) s = elim (parse_request (c ∷ cs)) [
      | none ↦ (s, some ReadOutcome.unread)
      | some parsed ↦ serve_request random checked stamped parsed s
    ]
