-- ===== src/Compress/Encoding/Accepted.antt =====
-- What a client gets back of a response that has been compressed.
use native.Mathlib.Nat.{le_refl}
use cweb.Base.{
  ℕ, ◌≤◌, ◌<◌, ◌≡◌, refl, ap, ap₂, sym, ◌∙◌, inl, inr, true, false, ◌&&◌, Option, none, some, ltb,
  ◌==◌, ◌>>=◌, if◌then◌else◌, if_cases, if_true, if_false, Bool-cases, Option-cases, length, Bytes,
  codes, bytes_eq, case_eq, lt→ltb, arith,
}
use cweb.Http.{
  Request, Response, max_headers, get_request_header, get_response_header, add_response_header,
}
use cweb.Http.Table.{or_else, get-add_response_header, body-add_response_header}
use cweb.Compress.Asset.{minify_asset}
use cweb.Compress.Asset.Fits.{minify_total}
use cweb.Compress.Encoding.{
  Doubles, CompressionType, pick_compression, encode, encoding_name, minified_body, compressed,
  auto_compress,
}

abbrev encoding_key : Bytes
encoding_key = codes "Content-Encoding"

-- A response with room for a header, and with no encoding yet.
pub record IsOpen (res : Response) : Type 0 where
  pub room : length res.headers < max_headers
  pub plain : get_response_header res (codes "Content-Encoding") ≡ none

-- Every response is sent.
pub auto_compress_total :
    (d : Doubles) (brotli gzip : Bytes → Option Bytes) (req : Request) (res : Response)
    → (sent : Response) × (auto_compress d brotli gzip req res ≡ some sent)
unfolding auto_compress
auto_compress_total d brotli gzip req res =
    let (m, minified) = minify_total res.body (get_response_header res (codes "Content-Type")) in
    let chosen = pick_compression d (get_request_header req (codes "Accept-Encoding")) in
    let finish : Option Bytes → Response = λ m.
      let small = record res { body = minified_body res.body m } in
      if ltb (length small.body) 4096 then small else compressed brotli gzip chosen small in
    elim (Bool-cases (length res.body == 0)) [
      | inl e ↦ (res, if_true _ _ _ e)
      | inr e ↦ (finish m, if_false _ _ _ e ∙ ap (λ o. o >>= λ m. some (finish m)) minified)
    ]

-- The two decoders of a client, which undo what the encoders do.
module _ (d : Doubles) (brotli gzip unbrotli ungzip : Bytes → Option Bytes)
    (brotli_back : (body out : Bytes) → brotli body ≡ some out → unbrotli out ≡ some body)
    (gzip_back : (body out : Bytes) → gzip body ≡ some out → ungzip out ≡ some body) where
  abbrev decoder : Bytes → Bytes → Option Bytes
  decoder name body =
      if bytes_eq name (codes "br")
      then unbrotli body
      else if bytes_eq name (codes "gzip")
      then ungzip body
      else none

  -- The body that the client reads.
  abbrev pub decoded : Response → Option Bytes
  decoded res = elim (get_response_header res (codes "Content-Encoding")) [
    | none ↦ some res.body
    | some name ↦ decoder name res.body
  ]

  decode_encoded :
      (chosen : CompressionType) (body out : Bytes)
      → encode brotli gzip chosen body ≡ some out
      → decoder (encoding_name chosen) out ≡ some body
  unfolding encode encoding_name bytes_eq
  decode_encoded CompressionType.comp_none body out e = absurd (cc e)
  decode_encoded CompressionType.comp_br body out e = brotli_back body out e
  decode_encoded CompressionType.comp_gzip body out e = gzip_back body out e

  -- What `compressed` leaves: the client reads the same body, and the body is not longer.
  record Sent (res res' : Response) : Type 0 where
    same : decoded res' ≡ some res.body
    shorter : length res'.body ≤ length res.body

  as_is-Sent : (res : Response) → IsOpen res → Sent res res
  as_is-Sent res h = record {
    same = ap (λ o. elim o [ none ↦ some res.body | some name ↦ decoder name res.body ]) h.plain;
    shorter = le_refl (length res.body);
  }

  named_encoding :
      (res : Response) (name body : Bytes)
      → IsOpen res
      → get_response_header
          (add_response_header
            (add_response_header (record res { body = body }) (codes "Content-Encoding") name)
            (codes "Vary")
            (codes "Accept-Encoding"))
          (codes "Content-Encoding")
        ≡ some name
  unfolding case_eq get_response_header
  named_encoding res name body h =
      let named = record res { body = body } in
      let inner = add_response_header named (codes "Content-Encoding") name in
      let found : get_response_header inner (codes "Content-Encoding") ≡ some name =
        get-add_response_header named (codes "Content-Encoding") name (codes "Content-Encoding")
        ∙ ap₂
            (λ o b. or_else o (
              if b
              then (if case_eq (codes "Content-Encoding") (codes "Content-Encoding")
                  then some name
                  else none)
              else none))
            h.plain (lt→ltb _ _ h.room) in
      get-add_response_header inner (codes "Vary") (codes "Accept-Encoding")
        (codes "Content-Encoding")
      ∙ ap
          (λ o. or_else o (
            if ltb (length inner.headers) max_headers
            then (if case_eq (codes "Vary") (codes "Content-Encoding")
                then some (codes "Accept-Encoding")
                else none)
            else none))
          found

  encoded-body :
      (res : Response) (name body : Bytes)
      → (add_response_header
          (add_response_header (record res { body = body }) (codes "Content-Encoding") name)
          (codes "Vary")
          (codes "Accept-Encoding")).body
        ≡ body
  encoded-body res name body =
      body-add_response_header
        (add_response_header (record res { body = body }) (codes "Content-Encoding") name)
        (codes "Vary") (codes "Accept-Encoding")
      ∙ body-add_response_header (record res { body = body }) (codes "Content-Encoding") name

  compressed-Sent :
      (chosen : CompressionType) (res : Response)
      → IsOpen res
      → Sent res (compressed brotli gzip chosen res)
  unfolding compressed
  compressed-Sent chosen res h = elim (Option-cases (encode brotli gzip chosen res.body)) [
    | inl e ↦ rw (e, compressed) (as_is-Sent res h)
    | inr (out, e) ↦
        rw (e, compressed)
          (if_cases (Sent res) (ltb 0 (length out) && ltb (length out) (length res.body)) _ res
            (λ smaller. record {
              same =
                  ap₂ (λ o b. elim o [ none ↦ some b | some n ↦ decoder n b ])
                    (named_encoding res (encoding_name chosen) out h)
                    (encoded-body res (encoding_name chosen) out)
                  ∙ decode_encoded chosen res.body out e;
              shorter = omega (
                arith,
                smaller_le (length out) (length res.body) smaller,
                ap length (encoded-body res (encoding_name chosen) out),
              );
            })
            (λ _. as_is-Sent res h))
  ]
    where
      smaller_le : (n m : ℕ) → (ltb 0 n && ltb n m) ≡ true → n ≤ m
      smaller_le n m e = ground arith

  minified_le : (body : Bytes) (m : Option Bytes) → length (minified_body body m) ≤ length body
  unfolding minified_body
  minified_le body none = le_refl (length body)
  minified_le body (some m) =
      if_cases (λ (b : Bytes). length b ≤ length body) _ m body
        (smaller_le (length m) (length body)) (λ e. le_refl (length body))
    where
      smaller_le : (n k : ℕ) → (ltb 0 n && ltb n k) ≡ true → n ≤ k
      smaller_le n k e = ground arith

  minified_empty :
      (body : Bytes) (m : Option Bytes) → (length body == 0) ≡ true → minified_body body m ≡ body
  unfolding minified_body
  minified_empty body none e = refl
  minified_empty body (some m) e =
      if_false (ltb 0 (length m) && ltb (length m) (length body)) _ _
        (no_shorter (length m) (length body) e)
    where
      no_shorter : (n k : ℕ) → (k == 0) ≡ true → (ltb 0 n && ltb n k) ≡ false
      no_shorter n k e = ground arith

  -- For any two encoders with decoders that undo them: a response with room for a header and without an encoding is
  -- always sent; its body is not longer than it was, and the client who decodes it by its Content-Encoding reads the body
  -- that the minifier left, whatever it accepts.
  pub auto_compress-decoded :
      (req : Request) (res : Response)
      → IsOpen res
      → (m : Option Bytes) × (minify_asset res.body (get_response_header res (codes "Content-Type"))
          ≡ some m)
        × (sent : Response) × (auto_compress d brotli gzip req res ≡ some sent)
        × (decoded sent ≡ some (minified_body res.body m))
        × (length sent.body ≤ length res.body)
  unfolding auto_compress get_response_header
  auto_compress-decoded req res h =
      let (m, minified) = minify_total res.body (get_response_header res (codes "Content-Type")) in
      let small = record res { body = minified_body res.body m } in
      let chosen = pick_compression d (get_request_header req (codes "Accept-Encoding")) in
      let sent =
        if ltb (length small.body) 4096 then small else compressed brotli gzip chosen small in
      let open_small : IsOpen small = record { room = h.room; plain = h.plain } in
      let finish : Option Bytes → Option Response = λ m.
        let small = record res { body = minified_body res.body m } in
        some
          (if ltb (length small.body) 4096 then small else compressed brotli gzip chosen small) in
      let r : Sent small sent =
        if_cases (Sent small) (ltb (length small.body) 4096) small
          (compressed brotli gzip chosen small) (λ _. as_is-Sent small open_small)
          (λ _. compressed-Sent chosen small open_small) in
      elim (Bool-cases (length res.body == 0)) [
        | inl e ↦ (
          m,
          minified,
          res,
          if_true _ _ _ e,
          (as_is-Sent res h).same ∙ ap some (sym (minified_empty res.body m e)),
          le_refl (length res.body),
        )
        | inr e ↦ (
          m,
          minified,
          sent,
          if_false _ _ _ e ∙ ap (λ o. o >>= finish) minified,
          r.same,
          omega (arith, r.shorter, minified_le res.body m),
        )
      ]
