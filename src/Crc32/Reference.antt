-- ===== src/Crc32/Reference.antt =====
-- The checksum by one division step for each bit, which the table of kernel/crc32.c replaces.
use picokernel.Prelude.{ℕ, zero, suc, ◌/◌, ◌%◌, ◌==◌, List, [], ◌∷◌, if◌then◌else◌, bit_xor}

-- The polynomial, with the bits in reverse.
abbrev pub polynomial : ℕ
polynomial = 0xedb8_8320

-- The polynomial where the digit is 1.
abbrev pub masked : ℕ → ℕ
masked digit = if digit == 1 then polynomial else 0

-- One step of the division.
unfoldable pub bit_step : ℕ → ℕ
bit_step crc = bit_xor (crc / 2) (masked (crc % 2))

unfoldable pub bit_steps : ℕ → ℕ → ℕ
bit_steps zero crc = crc
bit_steps (suc n) crc = bit_steps n (bit_step crc)

-- The bytes of a range, each of which enters the remainder and is divided by eight steps.
unfoldable pub divide : List ℕ → ℕ → ℕ
divide [] crc = crc
divide (byte ∷ bytes) crc = divide bytes (bit_steps 8 (bit_xor crc byte))
