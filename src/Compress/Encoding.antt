-- ===== src/Compress/Encoding.antt =====
-- framework/src/compress/compress.c: the encoding that a client accepts, and the response that is minified and
-- compressed. The doubles with their comparisons, strtod and the two encoders are arguments.
pub mod Accepted
pub mod Items
pub mod Quality
use cweb.Base.{
  ℕ, zero, suc, Bool, true, false, ◌&&◌, ◌||◌, not, List, [], ◌∷◌, Option, none, some, ltb, leb,
  ◌==◌, ◌>>=◌, if◌then◌else◌, length, take, drop, Bytes, codes, reverse, strstr,
}
use cweb.Http.{Request, Response, get_request_header, get_response_header, add_response_header}
use cweb.Compress.Asset.{starts_with_ci, minify_asset}

-- The doubles that occur. No law is asked of the comparisons, since strtod may give a NaN.
pub record Doubles : Type 1 where
  pub Double : Type 0
  pub lt : Double → Double → Bool
  pub le : Double → Double → Bool
  pub q_zero : Double
  pub q_one : Double
  pub q_minus_one : Double
  pub strtod : Bytes → Double

pub data CompressionType : Type 0 where
  comp_none comp_br comp_gzip : CompressionType

-- while (*p == ' ' || *p == '\t' || *p == ',') p++;
unfoldable pub skip_separators : Bytes → Bytes
skip_separators [] = []
skip_separators (c ∷ cs) = if c == 32 || c == 9 || c == b',' then skip_separators cs else c ∷ cs

-- while (*p && *p != ',') p++;
unfoldable pub until_comma : Bytes → Bytes
until_comma [] = []
until_comma (c ∷ cs) = if c == b',' then [] else c ∷ until_comma cs

-- The blanks at the front of a reversed item.
unfoldable pub drop_trailing : Bytes → Bytes
drop_trailing [] = []
drop_trailing (c ∷ cs) = if c == 32 || c == 9 then drop_trailing cs else c ∷ cs

-- The buffer of 160 bytes holds the item, cut off and trimmed.
unfoldable pub item_of : Bytes → Bytes
unfolding drop_trailing
item_of item = reverse (drop_trailing (reverse (take 159 item)))

-- What the chosen encoder gives; `none` is an rc that is not 0.
pub encode :
    (Bytes → Option Bytes) → (Bytes → Option Bytes) → CompressionType → Bytes → Option Bytes
encode brotli gzip CompressionType.comp_none body = none
encode brotli gzip CompressionType.comp_br body = brotli body
encode brotli gzip CompressionType.comp_gzip body = gzip body

pub encoding_name : CompressionType → Bytes
encoding_name CompressionType.comp_br = codes "br"
encoding_name _ = codes "gzip"

-- minified && minified_len > 0 && minified_len < res->body_len
pub minified_body : Bytes → Option Bytes → Bytes
minified_body body none = body
minified_body body (some m) = if ltb 0 (length m) && ltb (length m) (length body) then m else body

pub compressed :
    (Bytes → Option Bytes) → (Bytes → Option Bytes) → CompressionType → Response → Response
compressed brotli gzip chosen res = elim (encode brotli gzip chosen res.body) [
  | none ↦ res
  | some out ↦
      let sent =
        add_response_header (record res { body = out }) (codes "Content-Encoding")
          (encoding_name chosen) in
      if ltb 0 (length out) && ltb (length out) (length res.body)
      then add_response_header sent (codes "Vary") (codes "Accept-Encoding")
      else res
]

module _ (d : Doubles) where
  open d use {Double, lt, le, q_zero, q_one, q_minus_one, strtod}

  unfoldable pub extract_q : Bytes → Double
  extract_q token = elim (strstr token (codes "q=")) [
    | none ↦ q_one
    | some i ↦
        let v = strtod (drop (suc (suc i)) token) in
        let v' = if lt v q_zero then q_zero else v in if lt q_one v' then q_one else v'
  ]

  -- The variables q_br and q_gz.
  pub record Qualities : Type 0 where
    pub q_br : Double
    pub q_gz : Double

  unfoldable pub read_item : Bytes → Qualities → Qualities
  read_item item q =
      if starts_with_ci item (codes "br")
      then record q { q_br = extract_q item }
      else if starts_with_ci item (codes "gzip")
      then record q { q_gz = extract_q item }
      else q

  -- Each turn reads a byte at least, so that the length of the text bounds the turns.
  unfoldable pub read_items : ℕ → Bytes → Qualities → Qualities
  read_items zero p q = q
  read_items (suc turns) p q =
      let start = skip_separators p in
      let item = until_comma start in
      let more = read_items turns (drop (suc (length item)) start) (read_item (item_of item) q) in
      elim start [ [] ↦ q | c ∷ cs ↦ more ]

  unfoldable pub choose : Qualities → CompressionType
  choose q =
      if le q.q_br q_zero && le q.q_gz q_zero
      then CompressionType.comp_none
      else if lt q.q_gz q.q_br
      then (if lt q_zero q.q_br then CompressionType.comp_br else CompressionType.comp_none)
      else if lt q.q_br q.q_gz
      then (if lt q_zero q.q_gz then CompressionType.comp_gzip else CompressionType.comp_none)
      else if lt q_zero q.q_br
      then CompressionType.comp_br
      else CompressionType.comp_none

  unfoldable pub pick_compression : Option Bytes → CompressionType
  pick_compression none = CompressionType.comp_none
  pick_compression (some accept_enc) = choose (
      read_items (length accept_enc) accept_enc (record { q_br = q_minus_one; q_gz = q_minus_one }))

  -- The outer `none` means that a minifier ran out of turns.
  pub auto_compress :
      (Bytes → Option Bytes) → (Bytes → Option Bytes) → Request → Response → Option Response
  auto_compress brotli gzip req res =
      let minify = minify_asset res.body (get_response_header res (codes "Content-Type")) in
      let finish = λ (m : Option Bytes).
        let small = record res { body = minified_body res.body m } in
        let chosen = pick_compression (get_request_header req (codes "Accept-Encoding")) in
        some
          (if ltb (length small.body) 4096 then small else compressed brotli gzip chosen small) in
      if length res.body == 0 then some res else minify >>= finish
