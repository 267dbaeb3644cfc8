-- ===== src/Sessions/Id.antt =====
-- Session identifiers.
use cweb.Base.{
  ℕ, ◌*◌, ◌/◌, ◌%◌, ◌<◌, ◌≡◌, refl, [], ◌∷◌, arith, length, All, Bytes, Bool, true, ◌&&◌, ◌||◌, leb,
}
use mathlib.Core.List.{head-eq_of_cons-eq, tail-eq_of_cons-eq}
use cweb.Sessions.{hex_digit, generate_session_id}

-- A digit of a lower-case hexadecimal number.
abbrev is_lower_hex : ℕ → Bool
is_lower_hex c = (leb b'0' c && leb c b'9') || (leb b'a' c && leb c b'f')

hex_digit_lower : (n : ℕ) → n < 16 → is_lower_hex (hex_digit n) ≡ true
unfolding hex_digit
hex_digit_lower n h = ground arith

hex_digit_injective : (m n : ℕ) → m < 16 → n < 16 → hex_digit m ≡ hex_digit n → m ≡ n
unfolding hex_digit
hex_digit_injective m n h k e = ground arith

-- An identifier is twice as long as the bytes that it is made of, and only has digits of
-- lower-case hexadecimal numbers.
generate_session_id_hex :
    (bs : Bytes)
    → All (λ b. b < 256) bs
    → (length (generate_session_id bs) ≡ 2 * length bs)
      × All (λ c. is_lower_hex c ≡ true) (generate_session_id bs)
unfolding generate_session_id
generate_session_id_hex [] h = (omega arith, tt)
generate_session_id_hex (b ∷ bs) h =
    let (n, a) = generate_session_id_hex bs h.1 in
    (
      omega arith,
      (hex_digit_lower (b / 16) (omega arith), (hex_digit_lower (b % 16) (omega arith), a)),
    )

-- Different bytes give different identifiers: two sessions share one only if their bytes were equal.
generate_session_id_injective :
    (as' bs : Bytes)
    → All (λ b. b < 256) as'
    → All (λ b. b < 256) bs
    → generate_session_id as' ≡ generate_session_id bs
    → as' ≡ bs
unfolding generate_session_id
generate_session_id_injective [] [] h k e = refl
generate_session_id_injective [] (b ∷ bs) h k e = cc
generate_session_id_injective (a ∷ as') [] h k e = cc
generate_session_id_injective (a ∷ as') (b ∷ bs) h k e =
    let hi =
      hex_digit_injective (a / 16) (b / 16) (omega arith) (omega arith) (head-eq_of_cons-eq e) in
    let lo =
      hex_digit_injective (a % 16) (b % 16) (omega arith) (omega arith)
        (head-eq_of_cons-eq (tail-eq_of_cons-eq e)) in
    let first : a ≡ b = omega (arith, hi, lo) in
    let rest =
      generate_session_id_injective as' bs h.1 k.1 (tail-eq_of_cons-eq (tail-eq_of_cons-eq e)) in
    cc
