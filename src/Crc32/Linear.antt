-- ===== src/Crc32/Linear.antt =====
-- The division steps respect exclusive or, so that eight of them are one look-up in the table of
-- kernel/crc32.c.
use picokernel.Prelude.{
  ℕ, zero, suc, ◌+◌, ◌*◌, ◌/◌, ◌%◌, ◌<◌, ◌≡◌, refl, sym, ap, ap₂, ◌∙◌, ◌-◌, arith, bit_xor, List,
  [], ◌∷◌,
}
use picokernel.Crc32.Bits.{bit_xor_half, bit_xor_low, same_digits, bit_xor_zero, interchange}
use picokernel.Crc32.{crc32_byte, crc32_loop, crc32_compute}
use picokernel.Crc32.Reference.{masked, bit_step, bit_steps, divide}
use picokernel.Crc32.Table.{entry-bit_steps}

masked_sum : (x y : ℕ) → x < 2 → y < 2 → masked ((x + y) % 2) ≡ bit_xor (masked x) (masked y)
masked_sum zero zero h g = refl
masked_sum zero (suc zero) h g = refl
masked_sum zero (suc (suc y)) h g = absurd (omega arith)
masked_sum (suc zero) zero h g = refl
masked_sum (suc zero) (suc zero) h g = refl
masked_sum (suc zero) (suc (suc y)) h g = absurd (omega arith)
masked_sum (suc (suc x)) y h g = absurd (omega arith)

bit_step-bit_xor : (a b : ℕ) → bit_step (bit_xor a b) ≡ bit_xor (bit_step a) (bit_step b)
unfolding bit_step
bit_step-bit_xor a b =
    let low : bit_xor a b % 2 ≡ (a % 2 + b % 2) % 2 = omega (arith, bit_xor_low a b) in
    ap₂ bit_xor (bit_xor_half a b)
      (ap masked low ∙ masked_sum (a % 2) (b % 2) (omega arith) (omega arith))
    ∙ interchange (a / 2) (b / 2) (masked (a % 2)) (masked (b % 2))

bit_steps-bit_xor :
    (n a b : ℕ) → bit_steps n (bit_xor a b) ≡ bit_xor (bit_steps n a) (bit_steps n b)
unfolding bit_steps
bit_steps-bit_xor zero a b = refl
bit_steps-bit_xor (suc n) a b =
    ap (bit_steps n) (bit_step-bit_xor a b) ∙ bit_steps-bit_xor n (bit_step a) (bit_step b)

-- The lowest `n` digits, the others in their places, and the others moved down.
unfoldable low : ℕ → ℕ → ℕ
low zero a = 0
low (suc n) a = low n (a / 2) * 2 + a % 2

unfoldable high : ℕ → ℕ → ℕ
high zero a = a
high (suc n) a = high n (a / 2) * 2

unfoldable halves : ℕ → ℕ → ℕ
halves zero a = a
halves (suc n) a = halves n (a / 2)

high-low : (n a : ℕ) → bit_xor (high n a) (low n a) ≡ a
unfolding high low
high-low zero a = bit_xor_zero a
high-low (suc n) a =
    let h = high n (a / 2) in
    let l = low n (a / 2) in
    same_digits _ _
      (bit_xor_half (h * 2) (l * 2 + a % 2)
        ∙ ap₂ bit_xor (omega arith) (omega arith)
        ∙ high-low n (a / 2))
      (omega (arith, bit_xor_low (h * 2) (l * 2 + a % 2)))

bit_step-double : (a : ℕ) → bit_step (a * 2) ≡ a
unfolding bit_step
bit_step-double a =
    let even : a * 2 % 2 ≡ 0 = omega arith in
    let half : a * 2 / 2 ≡ a = omega arith in ap₂ bit_xor half (ap masked even) ∙ bit_xor_zero a

bit_steps-high : (n a : ℕ) → bit_steps n (high n a) ≡ halves n a
unfolding high bit_steps halves
bit_steps-high zero a = refl
bit_steps-high (suc n) a =
    ap (bit_steps n) (bit_step-double (high n (a / 2))) ∙ bit_steps-high n (a / 2)

bit_steps-split : (n a : ℕ) → bit_steps n a ≡ bit_xor (halves n a) (bit_steps n (low n a))
bit_steps-split n a =
    ap (bit_steps n) (sym (high-low n a))
    ∙ bit_steps-bit_xor n (high n a) (low n a)
    ∙ ap (λ b. bit_xor b (bit_steps n (low n a))) (bit_steps-high n a)

halves-bit_xor : (n a b : ℕ) → halves n (bit_xor a b) ≡ bit_xor (halves n a) (halves n b)
unfolding halves
halves-bit_xor zero a b = refl
halves-bit_xor (suc n) a b = ap (halves n) (bit_xor_half a b) ∙ halves-bit_xor n (a / 2) (b / 2)

halves_byte : (a : ℕ) → halves 8 a ≡ a / 256
unfolding halves
halves_byte a = omega arith

low_byte : (a : ℕ) → low 8 a ≡ a % 256
unfolding low
low_byte a = omega arith

-- One look-up is eight steps.
crc32_byte-bit_steps :
    (crc byte : ℕ) → byte < 256 → crc32_byte crc byte ≡ bit_steps 8 (bit_xor crc byte)
unfolding crc32_byte
crc32_byte-bit_steps crc byte h =
    let index = bit_xor crc byte % 256 in
    let moved : halves 8 (bit_xor crc byte) ≡ crc / 256 =
      halves-bit_xor 8 crc byte
      ∙ ap₂ bit_xor (halves_byte crc) (halves_byte byte ∙ omega arith)
      ∙ bit_xor_zero (crc / 256) in
    sym (
      bit_steps-split 8 (bit_xor crc byte)
      ∙ ap₂ bit_xor moved (
          ap (bit_steps 8) (low_byte (bit_xor crc byte))
          ∙ sym (entry-bit_steps index (omega arith))))

-- p[i], p[i + 1], ..., `n` of them
abbrev pub bytes_of : (p : ℕ → ℕ) (n i : ℕ) → List ℕ
bytes_of p zero i = []
bytes_of p (suc n) i = p i ∷ bytes_of p n (i + 1)

crc32_loop-divide :
    (rounds : ℕ) (p : ℕ → ℕ) (i crc : ℕ)
    → ((j : ℕ) → p j < 256)
    → crc32_loop rounds p i crc ≡ divide (bytes_of p rounds i) crc
unfolding crc32_loop divide
crc32_loop-divide zero p i crc h = refl
crc32_loop-divide (suc rounds) p i crc h =
    crc32_loop-divide rounds p (i + 1) (crc32_byte crc (p i)) h
    ∙ ap (divide (bytes_of p rounds (i + 1))) (crc32_byte-bit_steps crc (p i) (h i))

-- For bytes, the checksum by the table is the complement of the remainder, in 32 bits, that the
-- division bit by bit by the polynomial 0xEDB88320 (the lowest bit first) leaves, which starts from
-- 0xFFFFFFFF.
pub crc32_compute-divide :
    (p : ℕ → ℕ) (len : ℕ)
    → ((j : ℕ) → p j < 256)
    → crc32_compute p len ≡ 0xffff_ffff - divide (bytes_of p len 0) 0xffff_ffff
unfolding crc32_compute
crc32_compute-divide p len h =
    ap (λ crc. 0xffff_ffff - crc) (crc32_loop-divide len p 0 0xffff_ffff h)
