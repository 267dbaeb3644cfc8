-- ===== src/Connection/Answers.antt =====
-- What a request is answered with.
use cweb.Base.{
  ℕ, ◌≡◌, ◌≢◌, refl, ap, ◌∙◌, inl, inr, false, ◌&&◌, [], ◌∷◌, Option, none, some, ltb, ◌>>=◌,
  if◌then◌else◌, if_true, if_false, if_cases, Bool-cases, length, Bytes,
}
use cweb.Http.{Request, Response, parse_request, serialize_response}
use cweb.Routing.{get_route_handler}
use cweb.Pending.{ResponseState, is_processed}
use cweb.Compress.Encoding.{Doubles}
use cweb.FileCache.Mime.{is_static_file}
use cweb.FileCache.Serve.{FileResponse, handle_request}
use cweb.FileCache.Serve.Processed.{handle_request_processed}
use cweb.Compress.Encoding.Accepted.{auto_compress_total}
use cweb.Connection.{
  ServerRequest, Server, Exchange, sent, path_is_compressible, attach_session, set_cookie,
  page_not_found, send_response, finish_response, respond, serve_request, conn_read,
}

-- The request and the response that every path starts with.
abbrev plain_request : Request → ServerRequest
plain_request parsed = record { request = parsed; using_session = false; session = none }

abbrev pub created : FileResponse
created = record {
  response = record { status_code = 404; headers = []; body = [] };
  priority = 0;
  state = ResponseState.nprocessed;
}

module _ (d : Doubles) (brotli gzip : Bytes → Option Bytes) where
  send_total :
      (req : Request) (res : Response)
      → (bytes : Bytes) × (send_response d brotli gzip req res ≡ some bytes)
  unfolding send_response
  send_total req res =
      let compresses = path_is_compressible req.path && ltb 512 (length res.body) in
      let (out, e) = auto_compress_total d brotli gzip req res in
      elim (Bool-cases compresses) [
        | inl yes' ↦ (
          (serialize_response out).1,
          ap (λ o. o >>= λ r. some (serialize_response r).1) (if_true compresses _ _ yes' ∙ e),
        )
        | inr no' ↦ (
          (serialize_response res).1,
          ap (λ o. o >>= λ r. some (serialize_response r).1) (if_false compresses _ _ no'),
        )
      ]

  finish_total :
      (req : ServerRequest) (res : FileResponse)
      → res.state ≡ ResponseState.processed
      → (bytes : Bytes) × (send_response d brotli gzip req.request res.response ≡ some bytes)
        × (finish_response d brotli gzip req res ≡ some (sent bytes))
  unfolding finish_response
  finish_total req res h =
      let (bytes, e) = send_total req.request res.response in
      (bytes, e, if_true _ _ _ (ap is_processed h) ∙ ap (λ o. o >>= λ b. some (sent b)) e)

  module _ {H A : Type 0} (run : H → Exchange H A → Exchange H A)
      (disk : Bytes → Option Bytes) where
    read_parsed :
        (random : Bytes) (checked stamped : ℕ) (raw : Bytes) (s : Server H A) (parsed : Request)
        → parse_request raw ≡ some parsed
        → raw ≢ []
        → conn_read d brotli gzip run disk random checked stamped raw s
          ≡ serve_request d brotli gzip run disk random checked stamped parsed s
    unfolding conn_read
    read_parsed random checked stamped [] s parsed e ne = absurd (ne refl)
    read_parsed random checked stamped (c ∷ cs) s parsed e ne = rw (e, conn_read) refl

    -- A request that no handler is found for is always answered at once, with the response of the file server where
    -- the path is one of a static file, and with the page for an unknown path where it is not.
    pub conn_read_unhandled :
        (random : Bytes) (checked stamped : ℕ) (raw : Bytes) (s : Server H A) (parsed : Request)
        → raw ≢ []
        → parse_request raw ≡ some parsed
        → (get_route_handler parsed.path (some false) s.router).1 ≡ none
        → (bytes : Bytes) × (send_response d brotli gzip parsed
              (if is_static_file s.files.server_config.lookup_path parsed.path
                then handle_request disk s.files parsed.path created
                else page_not_found created).response
            ≡ some bytes)
          × ((conn_read d brotli gzip run disk random checked stamped raw s).1 ≡ some (sent bytes))
    unfolding serve_request attach_session set_cookie respond page_not_found
    conn_read_unhandled random checked stamped raw s parsed ne e h =
        let static = is_static_file s.files.server_config.lookup_path parsed.path in
        let answer =
          if static
          then handle_request disk s.files parsed.path created
          else page_not_found created in
        let done : answer.state ≡ ResponseState.processed =
          if_cases (λ (r : FileResponse). r.state ≡ ResponseState.processed) static _ _
            (λ _. handle_request_processed disk s.files parsed.path created) (λ _. refl) in
        let (bytes, out, last) = finish_total (plain_request parsed) answer done in
        let met : Exchange H A = record {
          server = record s { router = (get_route_handler parsed.path (some false) s.router).0 };
          request = plain_request parsed;
          response = created;
        } in
        (
          bytes,
          out,
          ap (λ r. r.1) (read_parsed random checked stamped raw s parsed e ne)
              ∙ ap
                  (λ o.
                    let x = respond d brotli gzip run disk o met in
                    finish_response d brotli gzip x.request x.response)
                  h
              ∙ last,
        )
