-- ===== src/Crc32/Tests.antt =====
-- The theorem about the checksum at an input that meets its hypothesis.
use picokernel.Prelude.{ℕ, ◌+◌, ◌-◌, ◌≡◌, arith, refl}
use picokernel.Crc32.{crc32_compute, crc32_byte, crc32_loop}
use picokernel.Crc32.Reference.{divide}
use picokernel.Crc32.Linear.{bytes_of, crc32_compute-divide}

-- The byte 49 nine times.
abbrev ones : ℕ → ℕ
ones i = 49

crc32_compute-divide_example :
    crc32_compute ones 9 ≡ 0xffff_ffff - divide (bytes_of ones 9 0) 0xffff_ffff
crc32_compute-divide_example = crc32_compute-divide ones 9 λ j. omega arith

-- The check value of the checksum, that of the digits 1 to 9.
check_value : crc32_compute (λ i. 49 + i) 9 ≡ 0xcbf4_3926
unfolding crc32_compute crc32_byte crc32_loop
check_value = refl
