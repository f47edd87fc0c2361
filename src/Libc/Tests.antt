-- ===== src/Libc/Tests.antt =====
-- The theorems about the C library at inputs that meet their hypotheses.
use picokernel.Prelude.{◌+◌, ◌%◌, ◌^◌, ◌≡◌, refl, [], ◌∷◌, arith, update, some}
use picokernel.Libc.{Memory, memmove, strtoul}
use picokernel.Libc.Move.{moved, memmove_lem}
use picokernel.Libc.Strings.{IsString, IsDigit, Prefix, Digits, value, strtoul_lem}

-- The string 42 at the address 100.
abbrev forty_two : Memory
forty_two = update (update (λ a. 0) 100 52) 101 50

abbrev counting : Memory
counting a = a % 256

memmove_lem_example : memmove 12 10 5 counting 14 ≡ moved 12 10 5 counting 14
memmove_lem_example = memmove_lem 12 10 5 counting 14

forty_two-IsString : IsString forty_two 100 2
forty_two-IsString = record { inside = λ i lt. ground arith; end = refl }

forty_two-Digits : Digits forty_two 10 100 (4 ∷ 2 ∷ [])
forty_two-Digits = (
  IsDigit.decimal (omega arith) refl,
  omega arith,
  (IsDigit.decimal (omega arith) refl, omega arith, refl),
)

strtoul_lem_example :
    strtoul forty_two 5 100 10 ≡ some (value forty_two 10 0 (4 ∷ 2 ∷ []) % 2 ^ 64, 100 + 2)
strtoul_lem_example =
    strtoul_lem forty_two (4 ∷ 2 ∷ []) 5 10 100 10 100
      (Prefix.plain (λ e. absurd (omega (arith, e))) refl refl) forty_two-Digits (omega arith)
