-- ===== src/PathUtils/Decode.antt =====
-- `cweb_url_decode`.
use cweb.Base.{
  ℕ, zero, suc, ◌+◌, ◌-◌, ◌*◌, ◌/◌, ◌%◌, ◌≤◌, ◌<◌, ◌≡◌, inl, inr, refl, ap, ◌∙◌, Bool, true, false,
  ◌&&◌, ◌||◌, [], ◌∷◌, ◌++◌, arith, leb, ◌==◌, if◌then◌else◌, length, drop, get_or, Bytes,
  Bool-cases, is_digit, is_alnum, All,
}

-- isxdigit; the terminating NUL is none.
unfoldable is_xdigit : ℕ → Bool
unfolding is_digit
is_xdigit c = is_digit c || (leb b'a' c && leb c b'f') || (leb b'A' c && leb c b'F')

-- The value of one digit of strtol(hex, NULL, 16).
unfoldable hex_value : ℕ → ℕ
hex_value c = if leb c b'9' then c - b'0' else if leb c b'F' then c - b'A' + 10 else c - b'a' + 10

-- '%' and two hexadecimal digits behind it; src[si+1] past the end is the NUL.
unfoldable is_escape : ℕ → Bytes → Bool
unfolding is_xdigit
is_escape c rest = c == b'%' && is_xdigit (get_or rest 0 0) && is_xdigit (get_or rest 1 0)

-- What one round of the loop writes, and what it leaves to read.
unfoldable decoded_byte : ℕ → Bytes → ℕ
unfolding is_escape hex_value
decoded_byte c rest =
    if is_escape c rest
    then hex_value (get_or rest 0 0) * 16 + hex_value (get_or rest 1 0)
    else if c == b'+'
    then b' '
    else c

unfoldable after_decoded : ℕ → Bytes → Bytes
unfolding is_escape
after_decoded c rest = if is_escape c rest then drop 2 rest else rest

-- The loop, with `room` for the bytes that still fit.
unfoldable pub decode_loop : ℕ → Bytes → Bytes
unfolding decoded_byte after_decoded
decode_loop zero src = []
decode_loop (suc room) [] = []
decode_loop (suc room) (c ∷ rest) = decoded_byte c rest ∷ decode_loop room (after_decoded c rest)

-- The text that `cweb_url_decode` leaves in `dst`, before its NUL.
unfoldable pub url_decode : Bytes → ℕ → Bytes
unfolding decode_loop
url_decode src max_len = decode_loop (max_len - 1) src

-- A percent-encoder: letters and digits stand for themselves, a space is `+`.
hex_digit : ℕ → ℕ
hex_digit n = if leb n 9 then n + b'0' else n - 10 + b'A'

encode_byte : ℕ → Bytes
encode_byte c =
    if is_alnum c
    then c ∷ []
    else if c == b' '
    then b'+' ∷ []
    else b'%' ∷ hex_digit (c / 16) ∷ hex_digit (c % 16) ∷ []

pub url_encode : Bytes → Bytes
url_encode [] = []
url_encode (c ∷ cs) = encode_byte c ++ url_encode cs

hex_digit_ok : (n : ℕ) → n < 16 → (is_xdigit (hex_digit n) ≡ true) × (hex_value (hex_digit n) ≡ n)
unfolding hex_digit is_xdigit hex_value
hex_digit_ok n h = ground arith

alnum_plain : (c : ℕ) → is_alnum c ≡ true → ((c == b'%') ≡ false) × ((c == b'+') ≡ false)
unfolding is_alnum
alnum_plain c h = ground arith

decode_plain :
    (room c : ℕ) (rest : Bytes)
    → (c == b'%') ≡ false
    → decode_loop (suc room) (c ∷ rest) ≡ (if c == b'+' then b' ' else c) ∷ decode_loop room rest
unfolding decode_loop
decode_plain room c rest h = rw h

escape_found :
    (h l : ℕ) (rest : Bytes)
    → is_xdigit h ≡ true
    → is_xdigit l ≡ true
    → is_escape b'%' (h ∷ l ∷ rest) ≡ true
unfolding is_escape
escape_found h l rest p q = rw (p, q)

decode_escape :
    (room h l : ℕ) (rest : Bytes)
    → is_xdigit h ≡ true
    → is_xdigit l ≡ true
    → decode_loop (suc room) (b'%' ∷ h ∷ l ∷ rest)
      ≡ (hex_value h * 16 + hex_value l) ∷ decode_loop room rest
unfolding decode_loop
decode_escape room h l rest p q = rw (p, q)

decode_encode_byte :
    (room c : ℕ) (rest : Bytes)
    → c < 256
    → decode_loop (suc room) (encode_byte c ++ rest) ≡ c ∷ decode_loop room rest
unfolding encode_byte
decode_encode_byte room c rest h = elim (Bool-cases (is_alnum c)) [
  | inl a ↦ let (p, q) = alnum_plain c a in rw a (decode_plain room c rest p ∙ rw q)
  | inr n ↦ rw n (elim (Bool-cases (c == b' ')) [
    | inl s ↦
        rw s (decode_plain room b'+' rest refl ∙ ap (λ x. x ∷ decode_loop room rest) (ground arith))
    | inr t ↦
        let (x, v) = hex_digit_ok (c / 16) (omega arith) in
        let (y, w) = hex_digit_ok (c % 16) (omega arith) in
        rw t (
          decode_escape room (hex_digit (c / 16)) (hex_digit (c % 16)) rest x y
          ∙ ap (λ x. x ∷ decode_loop room rest) (rw (v, w) (omega arith)))
  ])
]

decode_encode :
    (room : ℕ) (s : Bytes)
    → All (λ c. c < 256) s
    → length s ≤ room
    → decode_loop room (url_encode s) ≡ s
unfolding url_encode
decode_encode zero [] h n = unfold decode_loop in refl
decode_encode (suc room) [] h n = unfold decode_loop in refl
decode_encode zero (c ∷ s) h n = absurd (omega arith)
decode_encode (suc room) (c ∷ s) h n =
    decode_encode_byte room c (url_encode s) h.0
    ∙ ap (◌∷◌ c) (decode_encode room s h.1 (omega arith))

-- Decoding undoes encoding, whatever the bytes, if the buffer has room for the text and its NUL.
pub url_decode-encode :
    (s : Bytes) (max_len : ℕ)
    → All (λ c. c < 256) s
    → length s < max_len
    → url_decode (url_encode s) max_len ≡ s
unfolding url_decode
url_decode-encode s max_len h n = decode_encode (max_len - 1) s h (omega arith)

decode_loop_le : (room : ℕ) (src : Bytes) → length (decode_loop room src) ≤ room
unfolding decode_loop
decode_loop_le zero src = omega arith
decode_loop_le (suc room) [] = omega arith
decode_loop_le (suc room) (c ∷ rest) = omega (arith, decode_loop_le room (after_decoded c rest))

-- The text and its NUL stay within the `max_len` bytes of the buffer.
url_decode_bounds :
    (src : Bytes) (max_len : ℕ) → 0 < max_len → length (url_decode src max_len) < max_len
unfolding url_decode
url_decode_bounds src max_len h = omega (arith, decode_loop_le (max_len - 1) src)
