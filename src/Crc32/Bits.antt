-- ===== src/Crc32/Bits.antt =====
-- Exclusive or, digit by digit.
use picokernel.Prelude.{
  ℕ, zero, suc, ◌+◌, ◌*◌, ◌/◌, ◌%◌, ◌≤◌, ◌<◌, ◌≡◌, refl, sym, ap, ap₂, ◌∙◌, arith, bit_xor,
}
use Prim.Native.Nat.{digits, differ, bit_xor-bitwise}

abbrev xor_digits : ℕ → ℕ → ℕ → ℕ
xor_digits = digits (λ c. c) differ

-- A count of digits that is enough for the first number is as good as another one.
xor_digits_enough : (n m a b : ℕ) → a ≤ n → a ≤ m → xor_digits n a b ≡ xor_digits m a b
xor_digits_enough zero zero a b h g = refl
xor_digits_enough zero (suc m) zero b h g = refl
xor_digits_enough zero (suc m) (suc a) b h g = absurd (omega arith)
xor_digits_enough (suc n) zero zero b h g = refl
xor_digits_enough (suc n) zero (suc a) b h g = absurd (omega arith)
xor_digits_enough (suc n) (suc m) zero b h g = refl
xor_digits_enough (suc n) (suc m) (suc a) b h g =
    ap (λ c. c * 2 + differ (suc a % 2) (b % 2))
      (xor_digits_enough n m (suc a / 2) (b / 2) (omega arith) (omega arith))

-- The lowest digit and the others.
bit_xor_digit : (a b : ℕ) → bit_xor a b ≡ bit_xor (a / 2) (b / 2) * 2 + differ (a % 2) (b % 2)
bit_xor_digit zero b = rw (bit_xor-bitwise, bit_xor-bitwise) (omega arith)
bit_xor_digit (suc a) b =
    bit_xor-bitwise (suc a) b
    ∙ ap (λ c. c * 2 + differ (suc a % 2) (b % 2))
        (xor_digits_enough a (suc a / 2) (suc a / 2) (b / 2) (omega arith) (omega arith)
          ∙ sym (bit_xor-bitwise (suc a / 2) (b / 2)))

differ_sum : (x y : ℕ) → x < 2 → y < 2 → differ x y ≡ (x + y) % 2
differ_sum zero zero h g = refl
differ_sum zero (suc zero) h g = refl
differ_sum zero (suc (suc y)) h g = absurd (omega arith)
differ_sum (suc zero) zero h g = refl
differ_sum (suc zero) (suc zero) h g = refl
differ_sum (suc zero) (suc (suc y)) h g = absurd (omega arith)
differ_sum (suc (suc x)) y h g = absurd (omega arith)

pub bit_xor_half : (a b : ℕ) → bit_xor a b / 2 ≡ bit_xor (a / 2) (b / 2)
bit_xor_half a b =
    omega (arith, bit_xor_digit a b, differ_sum (a % 2) (b % 2) (omega arith) (omega arith))

pub bit_xor_low : (a b : ℕ) → bit_xor a b % 2 ≡ (a + b) % 2
bit_xor_low a b =
    omega (arith, bit_xor_digit a b, differ_sum (a % 2) (b % 2) (omega arith) (omega arith))

-- Two numbers with the same lowest digit and the same others are the same.
pub same_digits : (a b : ℕ) → a / 2 ≡ b / 2 → a % 2 ≡ b % 2 → a ≡ b
same_digits a b h g = omega arith

none_left : (a : ℕ) → a ≤ 0 → a ≡ 0
none_left a h = omega arith

zero_upto : (n a : ℕ) → a ≤ n → bit_xor a 0 ≡ a
zero_upto zero a h = rw (none_left a h) refl
zero_upto (suc n) a h =
    same_digits _ _ (bit_xor_half a 0 ∙ zero_upto n (a / 2) (omega arith))
      (omega (arith, bit_xor_low a 0))

pub bit_xor_zero : (a : ℕ) → bit_xor a 0 ≡ a
bit_xor_zero a = zero_upto a a (omega arith)

interchange_upto :
    (n a b c d : ℕ)
    → a ≤ n
    → b ≤ n
    → c ≤ n
    → d ≤ n
    → bit_xor (bit_xor a b) (bit_xor c d) ≡ bit_xor (bit_xor a c) (bit_xor b d)
interchange_upto zero a b c d h₁ h₂ h₃ h₄ =
    rw (none_left a h₁, none_left b h₂, none_left c h₃, none_left d h₄) refl
interchange_upto (suc n) a b c d h₁ h₂ h₃ h₄ =
    same_digits _ _
      (bit_xor_half (bit_xor a b) (bit_xor c d)
        ∙ ap₂ bit_xor (bit_xor_half a b) (bit_xor_half c d)
        ∙ interchange_upto n (a / 2) (b / 2) (c / 2) (d / 2) (omega arith) (omega arith)
            (omega arith) (omega arith)
        ∙ ap₂ bit_xor (sym (bit_xor_half a c)) (sym (bit_xor_half b d))
        ∙ sym (bit_xor_half (bit_xor a c) (bit_xor b d)))
      (omega (
        arith,
        bit_xor_low (bit_xor a b) (bit_xor c d),
        bit_xor_low (bit_xor a c) (bit_xor b d),
        bit_xor_low a b,
        bit_xor_low c d,
        bit_xor_low a c,
        bit_xor_low b d,
      ))

pub interchange :
    (a b c d : ℕ) → bit_xor (bit_xor a b) (bit_xor c d) ≡ bit_xor (bit_xor a c) (bit_xor b d)
interchange a b c d =
    interchange_upto (a + b + c + d) a b c d (omega arith) (omega arith) (omega arith) (omega arith)
