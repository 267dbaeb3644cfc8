-- ===== src/Base/Bits.antt =====
-- Bitwise or as addition, where the arguments have no binary digit in common.
use Prim.Native.Nat.{
  ℕ, zero, suc, ◌+◌, ◌*◌, ◌/◌, ◌%◌, ◌^◌, ◌≤◌, ◌<◌, max, digits, bit_or, bit_or-bitwise,
}
use mathlib.Core.Path.{◌≡◌, ◌∙◌, ap, sym}
use native.Mathlib.Nat.{le_refl, pow-suc, mul_assoc}
use native.Mathlib.Omega.{arith}

last_digit :
    (x b w joined : ℕ) → b ≡ w * 2 → joined ≡ x / 2 + w → joined * 2 + max (x % 2) (b % 2) ≡ x + b
last_digit x b w joined e h = omega arith

-- With a count of turns that the number `x` does not exceed.
digits_high :
    (turns k x y : ℕ)
    → x ≤ turns
    → x < 2 ^ k
    → digits (λ b. b) max turns x (y * 2 ^ k) ≡ x + y * 2 ^ k
digits_high zero k zero y h l = omega arith
digits_high zero k (suc x) y h l = absurd (omega arith)
digits_high (suc turns) k zero y h l = omega arith
digits_high (suc turns) zero (suc x) y h l = absurd (omega arith)
digits_high (suc turns) (suc k) (suc x) y h l =
    let twice = ap (λ (p : ℕ). y * p) (pow-suc 2 k) ∙ sym (mul_assoc y (2 ^ k) 2) in
    let half : y * 2 ^ suc k / 2 ≡ y * 2 ^ k = omega arith in
    let rest = digits_high turns k (suc x / 2) y (omega arith) (omega (arith, pow-suc 2 k)) in
    last_digit (suc x) (y * 2 ^ suc k) (y * 2 ^ k) _ twice
      (ap (digits (λ b. b) max turns (suc x / 2)) half ∙ rest)

-- A number below 2^k and a multiple of 2^k.
pub bit_or_high : (k x y : ℕ) → x < 2 ^ k → bit_or x (y * 2 ^ k) ≡ x + y * 2 ^ k
bit_or_high k x y h = bit_or-bitwise x (y * 2 ^ k) ∙ digits_high x k x y (le_refl x) h
