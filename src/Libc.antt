-- ===== src/Libc.antt =====
-- libc/string.c: the memory and string functions of a freestanding build. Memory is a function from
-- addresses to bytes; a function that writes returns it. An `int` is its pattern of 32 bits.
pub mod Move
pub mod Compare
pub mod Strings
mod Tests
use picokernel.Prelude.{
  ℕ, zero, suc, ◌+◌, ◌-◌, ◌*◌, ◌/◌, ◌%◌, ◌^◌, Bool, true, false, Option, none, some, ◌==◌, ltb, leb,
  if◌then◌else◌, update, not, ◌&&◌, ◌||◌,
}

abbrev pub Memory : Type 0
Memory = ℕ → ℕ

-- The copy loop from index `i` on, with `rounds` left.
unfoldable pub copy_forward : ℕ → (i dest src : ℕ) → Memory → Memory
copy_forward zero i dest src m = m
copy_forward (suc rounds) i dest src m =
    copy_forward rounds (i + 1) dest src (update m (dest + i) (m (src + i)))

-- The copy loop from index `i` down to 0.
unfoldable pub copy_backward : (i dest src : ℕ) → Memory → Memory
copy_backward zero dest src m = m
copy_backward (suc i) dest src m = copy_backward i dest src (update m (dest + i) (m (src + i)))

unfoldable pub memcpy : (dest src n : ℕ) → Memory → Memory
memcpy dest src n m = copy_forward n 0 dest src m

unfoldable pub memmove : (dest src n : ℕ) → Memory → Memory
memmove dest src n m =
    if ltb dest src
    then copy_forward n 0 dest src m
    else if ltb src dest
    then copy_backward n dest src m
    else m

unfoldable pub fill : ℕ → (i s c : ℕ) → Memory → Memory
fill zero i s c m = m
fill (suc rounds) i s c m = fill rounds (i + 1) s c (update m (s + i) (c % 2 ^ 8))

unfoldable pub memset : (s c n : ℕ) → Memory → Memory
memset s c n m = fill n 0 s c m

-- The difference of two bytes as an int.
abbrev pub byte_difference : ℕ → ℕ → ℕ
byte_difference a b = (a + 2 ^ 32 - b) % 2 ^ 32

module _ (m : Memory) where
  unfoldable pub compare_bytes : ℕ → (i s₁ s₂ : ℕ) → ℕ
  compare_bytes zero i s₁ s₂ = 0
  compare_bytes (suc rounds) i s₁ s₂ =
      if m (s₁ + i) == m (s₂ + i)
      then compare_bytes rounds (i + 1) s₁ s₂
      else byte_difference (m (s₁ + i)) (m (s₂ + i))

  unfoldable pub memcmp : (s₁ s₂ n : ℕ) → ℕ
  memcmp s₁ s₂ n = compare_bytes n 0 s₁ s₂

  unfoldable pub find_byte : ℕ → (i s target : ℕ) → ℕ
  find_byte zero i s target = 0
  find_byte (suc rounds) i s target =
      if m (s + i) == target then s + i else find_byte rounds (i + 1) s target

  -- NULL is 0.
  unfoldable pub memchr : (s c n : ℕ) → ℕ
  memchr s c n = find_byte n 0 s (c % 2 ^ 8)

  -- Loops to the end of a string have fuel.
  unfoldable pub strlen_loop : ℕ → (str len : ℕ) → Option ℕ
  strlen_loop zero str len = none
  strlen_loop (suc fuel) str len =
      let more = strlen_loop fuel str (len + 1) in if m (str + len) == 0 then some len else more

  unfoldable pub strlen : ℕ → ℕ → Option ℕ
  strlen fuel str = strlen_loop fuel str 0

  unfoldable pub strnlen_loop : ℕ → (str len : ℕ) → ℕ
  strnlen_loop zero str len = len
  strnlen_loop (suc rounds) str len =
      if m (str + len) == 0 then len else strnlen_loop rounds str (len + 1)

  unfoldable pub strnlen : (str maxlen : ℕ) → ℕ
  strnlen str maxlen = strnlen_loop maxlen str 0

  unfoldable pub strchr_loop : ℕ → (str c : ℕ) → Option ℕ
  strchr_loop zero str c = none
  strchr_loop (suc fuel) str c =
      let more = strchr_loop fuel (str + 1) c in
      if m str == 0 then some (if c == 0 then str else 0) else if m str == c then some str else more

  pub strchr : ℕ → (str ch : ℕ) → Option ℕ
  strchr fuel str ch = strchr_loop fuel str (ch % 2 ^ 8)

  unfoldable pub strrchr_loop : ℕ → (str c last : ℕ) → Option ℕ
  strrchr_loop zero str c last = none
  strrchr_loop (suc fuel) str c last =
      let more = strrchr_loop fuel (str + 1) c (if m str == c then str else last) in
      if m str == 0 then some (if c == 0 then str else last) else more

  pub strrchr : ℕ → (str ch : ℕ) → Option ℕ
  strrchr fuel str ch = strrchr_loop fuel str (ch % 2 ^ 8) 0

  unfoldable pub strcmp : ℕ → (s₁ s₂ : ℕ) → Option ℕ
  strcmp zero s₁ s₂ = none
  strcmp (suc fuel) s₁ s₂ =
      let more = strcmp fuel (s₁ + 1) (s₂ + 1) in
      if not (m s₁ == 0) && (m s₁ == m s₂) then more else some (byte_difference (m s₁) (m s₂))

  abbrev pub is_space : ℕ → Bool
  is_space b = b == 32 || b == 9 || b == 10 || b == 13

  unfoldable pub skip_space : ℕ → ℕ → Option ℕ
  skip_space zero s = none
  skip_space (suc fuel) s =
      let more = skip_space fuel (s + 1) in if is_space (m s) then more else some s

  abbrev pub has_hex_mark : ℕ → Bool
  has_hex_mark s = m (s + 1) == 120 || m (s + 1) == 88

  -- The base and the start of the digits.
  unfoldable pub base_prefix : (s base : ℕ) → ℕ × ℕ
  base_prefix s base =
      if base == 0
      then if m s == 48 then if has_hex_mark s then (16, s + 2) else (8, s + 1) else (10, s)
      else if base == 16
      then if m s == 48 && has_hex_mark s then (base, s + 2) else (base, s)
      else (base, s)

  -- The value of a digit, none where the loop breaks.
  unfoldable pub digit_of : ℕ → Option ℕ
  digit_of b =
      if leb 48 b && leb b 57
      then some (b - 48)
      else if leb 97 b && leb b 122
      then some (b - 97 + 10)
      else if leb 65 b && leb b 90
      then some (b - 65 + 10)
      else none

  -- The loop over the digits: the result and the end.
  unfoldable pub digits_loop : ℕ → (base s result : ℕ) → Option (ℕ × ℕ)
  digits_loop zero base s result = none
  digits_loop (suc fuel) base s result =
      let more : ℕ → Option (ℕ × ℕ) =
        λ digit. digits_loop fuel base (s + 1) ((result * base + digit) % 2 ^ 64) in
      if m s == 0 then some (result, s) else elim (digit_of (m s)) [
        | none ↦ some (result, s)
        | some digit ↦ if leb base digit then some (result, s) else more digit
      ]

  -- `strtoul` of a base that is not negative: the result, and what `*str_end` is set to.
  unfoldable pub strtoul : ℕ → (str base : ℕ) → Option (ℕ × ℕ)
  strtoul fuel str base = elim (skip_space fuel str) [
    | none ↦ none
    | some s ↦ let (b, start) = base_prefix s base in digits_loop fuel b start 0
  ]
