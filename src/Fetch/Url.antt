-- ===== src/Fetch/Url.antt =====
-- The URL of a request with parameters.
use mathlib.Core.List.{reverse-cons}
use cweb.Base.{
  ◌+◌, ◌≤◌, ◌≡◌, refl, ap, subst, sym, ◌∙◌, false, List, [], ◌∷◌, ◌++◌, append_assoc, append-nil,
  reverse, Option, some, length, length-append, Bytes, codes, arith,
}
use cweb.Fetch.{
  FetchMethod, FetchQueryParam, FetchRequest, request_create, request_add_query_param,
  params_length, url_buffer_size, append_params, request_build_url,
}

-- The parameters, added one after another.
pub add_query_params : List FetchQueryParam → FetchRequest → FetchRequest
add_query_params [] r = r
add_query_params (p ∷ ps) r = add_query_params ps (request_add_query_param p r)

added_params :
    (ps : List FetchQueryParam) (r : FetchRequest)
    → (add_query_params ps r).query_params ≡ reverse ps ++ r.query_params
unfolding add_query_params request_add_query_param
added_params [] r = refl
added_params (p ∷ ps) r =
    added_params ps (request_add_query_param p r)
    ∙ sym (append_assoc (reverse ps) (p ∷ []) r.query_params)
    ∙ ap (λ l. l ++ r.query_params) (sym (reverse-cons p ps))

added_url : (ps : List FetchQueryParam) (r : FetchRequest) → (add_query_params ps r).url ≡ r.url
unfolding add_query_params request_add_query_param
added_url [] r = refl
added_url (p ∷ ps) r = added_url ps (request_add_query_param p r)

module _ (encode : Bytes → Bytes) where
  abbrev encoded : Bytes → Option Bytes
  encoded text = some (encode text)

  param_text : FetchQueryParam → Bytes
  param_text p = encode p.name ++ (codes "=" ++ encode p.value)

  -- Parameters that follow others.
  more_params : List FetchQueryParam → Bytes
  more_params [] = []
  more_params (p ∷ ps) = codes "&" ++ (param_text p ++ more_params ps)

  pub query_text : List FetchQueryParam → Bytes
  query_text [] = []
  query_text (p ∷ ps) = param_text p ++ more_params ps

  append_params_more :
      (url : Bytes) (ps : List FetchQueryParam)
      → append_params encoded false url ps ≡ url ++ more_params ps
  unfolding append_params more_params param_text
  append_params_more url [] = sym (append-nil url)
  append_params_more url (p ∷ ps) =
      append_params_more ((url ++ codes "&") ++ param_text p) ps
      ∙ append_assoc (url ++ codes "&") (param_text p) (more_params ps)
      ∙ append_assoc url (codes "&") (param_text p ++ more_params ps)

  length-more_params :
      (ps : List FetchQueryParam) → length (more_params ps) ≡ params_length encoded ps
  unfolding more_params params_length param_text
  length-more_params [] = refl
  length-more_params (p ∷ ps) = omega (
    arith,
    length-more_params ps,
    length-append (param_text p) (more_params ps),
    length-append (encode p.name) (codes "=" ++ encode p.value),
  )

  build_url_lem :
      (r : FetchRequest) (p : FetchQueryParam) (ps : List FetchQueryParam)
      → r.query_params ≡ p ∷ ps
      → (request_build_url encoded r).final_url ≡ some (r.url ++ (codes "?" ++ query_text (p ∷ ps)))
  unfolding request_build_url append_params query_text param_text
  build_url_lem r p ps e =
      ap (λ qs. (request_build_url encoded (record r { query_params = qs })).final_url) e
      ∙ ap some (
          append_params_more ((r.url ++ codes "?") ++ param_text p) ps
          ∙ append_assoc (r.url ++ codes "?") (param_text p) (more_params ps)
          ∙ append_assoc r.url (codes "?") (param_text p ++ more_params ps))

  fits_lem :
      (r : FetchRequest) (p : FetchQueryParam) (ps : List FetchQueryParam)
      → r.query_params ≡ p ∷ ps
      → length (r.url ++ (codes "?" ++ query_text (p ∷ ps))) + 1 ≤ url_buffer_size encoded r
  unfolding url_buffer_size params_length query_text param_text
  fits_lem r p ps e = omega (
    arith,
    ap (params_length encoded) e,
    length-more_params ps,
    length-append r.url (codes "?" ++ query_text (p ∷ ps)),
    length-append (param_text p) (more_params ps),
    length-append (encode p.name) (codes "=" ++ encode p.value),
  )

  -- As long as curl encodes every text, the URL of a request is its own, a question mark and the encoded parameters
  -- with an ampersand between any two, the last one added first; and it fits the buffer that is allocated for it.
  pub build_url-joined :
      (method : FetchMethod) (url : Bytes) (ps : List FetchQueryParam) (p : FetchQueryParam)
      → let r = request_add_query_param p (add_query_params ps (request_create method url)) in
        ((request_build_url encoded r).final_url
          ≡ some (url ++ (codes "?" ++ query_text (p ∷ reverse ps))))
        × (length (url ++ (codes "?" ++ query_text (p ∷ reverse ps))) + 1
            ≤ url_buffer_size encoded r)
  unfolding request_add_query_param request_create
  build_url-joined method url ps p =
      let before = add_query_params ps (request_create method url) in
      let r = request_add_query_param p before in
      let params : r.query_params ≡ p ∷ reverse ps =
        ap (λ l. p ∷ l) (added_params ps (request_create method url) ∙ append-nil (reverse ps)) in
      let same : before.url ≡ url = added_url ps (request_create method url) in
      let whole = λ (u : Bytes). u ++ (codes "?" ++ query_text (p ∷ reverse ps)) in
      (
        build_url_lem r p (reverse ps) params ∙ ap (λ u. some (whole u)) same,
        subst (λ u. length (whole u) + 1 ≤ url_buffer_size encoded r) same
            (fits_lem r p (reverse ps) params),
      )
