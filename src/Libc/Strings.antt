-- ===== src/Libc/Strings.antt =====
-- What `strlen`, `strnlen` and `strtoul` (libc/string.c) make of a string.
use native.Mathlib.Nat.{add-mul, mul_assoc, add-mul-mod_self_left}
use picokernel.Prelude.{
  ℕ, ◌/◌, ◌⊎◌, ◌&&◌, ◌||◌, true, zero, suc, ◌+◌, ◌*◌, ◌%◌, ◌^◌, ◌≤◌, ◌<◌, ◌≡◌, ◌≢◌, refl, arith,
  ◌==◌, leb, min, false, inl, inr, Bool-cases, ◌∙◌, ap, sym, subst, ==_iff, List, [], ◌∷◌, length,
  some, ne→==,
}
use picokernel.Libc.{
  Memory, strlen_loop, strlen, strnlen_loop, strnlen, skip_space, is_space, base_prefix, digit_of,
  digits_loop, strtoul,
}

-- At `s` stands a string of `n` characters.
pub record IsString (m : Memory) (s n : ℕ) : Type 0 where
  pub inside : (i : ℕ) → i < n → m (s + i) ≢ 0
  pub end : m (s + n) ≡ 0

-- One step of Horner's rule may be taken modulo 2 ^ 64.
horner_mod :
    (r acc base d : ℕ) → r ≡ acc % 2 ^ 64 → (r * base + d) % 2 ^ 64 ≡ (acc * base + d) % 2 ^ 64
horner_mod r acc base d e =
    let q = acc / 2 ^ 64 in
    let whole : acc ≡ r + 2 ^ 64 * q = omega arith in
    let split : acc * base + d ≡ r * base + d + 2 ^ 64 * (q * base) =
      ap (λ a. a * base + d) whole
      ∙ ap (λ a. a + d)
          (add-mul r (2 ^ 64 * q) base ∙ ap (λ a. r * base + a) (mul_assoc (2 ^ 64) q base))
      ∙ omega arith in
    sym (ap (λ a. a % 2 ^ 64) split ∙ add-mul-mod_self_left (r * base + d) (2 ^ 64) (q * base))

-- The character `c` is the digit `d`: one of '0' to '9' for 0 to 9, or one of 'a' to 'z' or 'A' to
-- 'Z' for 10 to 35.
pub data IsDigit (c d : ℕ) : Type 0 where
  decimal : d < 10 → c ≡ 48 + d → IsDigit c d
  lower : 10 ≤ d → d < 36 → c + 10 ≡ 97 + d → IsDigit c d
  upper : 10 ≤ d → d < 36 → c + 10 ≡ 65 + d → IsDigit c d

module _ (m : Memory) where
  -- What `strtoul` is to make of the start of a string `s` and the base it is given: the digits
  -- start at `t` and are of the base `b`.
  pub data Prefix (s base b t : ℕ) : Type 0 where
    plain : base ≢ 0 → b ≡ base → t ≡ s → Prefix s base b t
    decimal : base ≡ 0 → m s ≢ 48 → b ≡ 10 → t ≡ s → Prefix s base b t
    octal :
        base ≡ 0
        → m s ≡ 48
        → m (s + 1) ≢ 120
        → m (s + 1) ≢ 88
        → b ≡ 8
        → t ≡ s + 1
        → Prefix s base b t
    hex :
        (base ≡ 0) ⊎ (base ≡ 16)
        → m s ≡ 48
        → (m (s + 1) ≡ 120) ⊎ (m (s + 1) ≡ 88)
        → b ≡ 16
        → t ≡ s + 2
        → Prefix s base b t

  strlen_loop_lem :
      (left fuel s len n : ℕ)
      → IsString m s n
      → len + left ≡ n
      → left < fuel
      → strlen_loop m fuel s len ≡ some n
  unfolding strlen_loop
  strlen_loop_lem left zero s len n str e f = absurd (omega arith)
  strlen_loop_lem zero (suc fuel) s len n str e f =
      let here : len ≡ n = omega arith in rw (here, str.end) refl
  strlen_loop_lem (suc left) (suc fuel) s len n str e f =
      rw (ne→== (m (s + len)) 0 (str.inside len (omega arith)))
        (strlen_loop_lem left fuel s (len + 1) n str (omega arith) (omega arith))

  -- For a string of `n` characters, `strlen` ends within any fuel above `n` and returns `n`.
  strlen_lem : (fuel s n : ℕ) → IsString m s n → n < fuel → strlen m fuel s ≡ some n
  unfolding strlen
  strlen_lem fuel s n str f = strlen_loop_lem n fuel s 0 n str (omega arith) f

  strnlen_loop_lem :
      (rounds s len n : ℕ)
      → IsString m s n
      → len ≤ n
      → strnlen_loop m rounds s len ≡ min n (len + rounds)
  unfolding strnlen_loop
  strnlen_loop_lem zero s len n str le = omega arith
  strnlen_loop_lem (suc rounds) s len n str le = elim (Bool-cases (len == n)) [
    | inl e ↦ let here : len ≡ n = ground arith in rw (here, str.end) (omega arith)
    | inr more ↦
        let lt : len < n = ground arith in
        rw (ne→== (m (s + len)) 0 (str.inside len lt))
          (strnlen_loop_lem rounds s (len + 1) n str (omega arith) ∙ omega arith)
  ]

  -- For a string of `n` characters, `strnlen` returns the smaller of `n` and the bound.
  strnlen_lem : (s maxlen n : ℕ) → IsString m s n → strnlen m s maxlen ≡ min n maxlen
  unfolding strnlen
  strnlen_lem s maxlen n str = strnlen_loop_lem maxlen s 0 n str (omega arith) ∙ omega arith

  -- From `s` on stand the digits `ds` of a base, and then the end of the string.
  abbrev pub Digits : (base s : ℕ) → List ℕ → Type 0
  Digits base s [] = m s ≡ 0
  Digits base s (d ∷ ds) = IsDigit (m s) d × (d < base) × Digits base (s + 1) ds

  -- The value of digits behind those of `acc`.
  abbrev pub value : (base acc : ℕ) → List ℕ → ℕ
  value base acc [] = acc
  value base acc (d ∷ ds) = value base (acc * base + d) ds

  IsDigit-digit_of :
      (c d : ℕ)
      → IsDigit c d
      → (digit_of m c ≡ some d) × ((c == 0) ≡ false) × (is_space m c ≡ false)
  unfolding digit_of
  IsDigit-digit_of c d (IsDigit.decimal lt e) =
      (ground (arith, e, lt), ground (arith, e, lt), ground (arith, e, lt))
  IsDigit-digit_of c d (IsDigit.lower ge lt e) =
      (ground (arith, e, ge, lt), ground (arith, e, ge, lt), ground (arith, e, ge, lt))
  IsDigit-digit_of c d (IsDigit.upper ge lt e) =
      (ground (arith, e, ge, lt), ground (arith, e, ge, lt), ground (arith, e, ge, lt))

  digits_loop_lem :
      (ds : List ℕ) (fuel base s acc r : ℕ)
      → Digits base s ds
      → length ds < fuel
      → r ≡ acc % 2 ^ 64
      → digits_loop m fuel base s r ≡ some (value base acc ds % 2 ^ 64, s + length ds)
  unfolding digits_loop
  digits_loop_lem ds zero base s acc r t f e = absurd (omega arith)
  digits_loop_lem [] (suc fuel) base s acc r t f e =
      rw (t, e) (ap (λ z. some (acc % 2 ^ 64, z)) (omega arith))
  digits_loop_lem (d ∷ ds) (suc fuel) base s acc r t f e =
      let (is_digit, lt, rest) = t in
      let (digit, there, _) = IsDigit-digit_of (m s) d is_digit in
      let small : leb base d ≡ false = ground arith in
      let again =
        digits_loop_lem ds fuel base (s + 1) (acc * base + d) ((r * base + d) % 2 ^ 64) rest
          (omega arith) (horner_mod r acc base d e) in
      rw (there, digit, small)
        (again ∙ ap (λ z. some (value base (acc * base + d) ds % 2 ^ 64, z)) (omega arith))

  digit_no_mark : (c d : ℕ) → IsDigit c d → d < 16 → ((c == 120) || (c == 88)) ≡ false
  digit_no_mark c d (IsDigit.decimal lt e) small = ground (arith, e, lt)
  digit_no_mark c d (IsDigit.lower ge lt e) small = ground (arith, e, ge, small)
  digit_no_mark c d (IsDigit.upper ge lt e) small = ground (arith, e, ge, small)

  -- The second character of hexadecimal digits is no mark of a prefix.
  no_mark :
      (s : ℕ) (ds : List ℕ)
      → Digits 16 s ds
      → ((m s == 48) && ((m (s + 1) == 120) || (m (s + 1) == 88))) ≡ false
  no_mark s [] g = rw g refl
  no_mark s (d ∷ []) g = rw g.2 (ground arith)
  no_mark s (d ∷ d' ∷ ds) g = rw (digit_no_mark (m (s + 1)) d' g.2.0 g.2.1) (ground arith)

  first_no_space : (base s : ℕ) (ds : List ℕ) → Digits base s ds → is_space m (m s) ≡ false
  first_no_space base s [] g = rw g refl
  first_no_space base s (d ∷ ds) g = (IsDigit-digit_of (m s) d g.0).2

  mark : (c : ℕ) → (c ≡ 120) ⊎ (c ≡ 88) → ((c == 120) || (c == 88)) ≡ true
  mark c (inl e) = rw e refl
  mark c (inr e) = rw e refl

  base_prefix-Prefix :
      (s base b t : ℕ) (ds : List ℕ)
      → Prefix s base b t
      → Digits b t ds
      → base_prefix m s base ≡ (b, t)
  unfolding base_prefix
  base_prefix-Prefix s base b t ds (Prefix.plain ne eb et) g = elim (Bool-cases (base == 16)) [
    | inl it ↦
        let e = (==_iff base 16).0 it in
        let g' : Digits 16 s ds =
          subst (λ z. Digits z s ds) (eb ∙ e) (subst (λ z. Digits b z ds) et g) in
        rw (eb, et, e, no_mark s ds g') refl
    | inr other ↦ rw (eb, et, ne→== base 0 ne, other) refl
  ]
  base_prefix-Prefix s base b t ds (Prefix.decimal e ne eb et) g =
      rw (e, ne→== (m s) 48 ne, eb, et) refl
  base_prefix-Prefix s base b t ds (Prefix.octal e z ne ne' eb et) g =
      rw (e, z, ne→== (m (s + 1)) 120 ne, ne→== (m (s + 1)) 88 ne', eb, et) refl
  base_prefix-Prefix s base b t ds (Prefix.hex (inl e) z x eb et) g =
      rw (e, z, mark (m (s + 1)) x, eb, et) refl
  base_prefix-Prefix s base b t ds (Prefix.hex (inr e) z x eb et) g =
      rw (e, z, mark (m (s + 1)) x, eb, et) refl

  no_space :
      (s base b t : ℕ) (ds : List ℕ) → Prefix s base b t → Digits b t ds → is_space m (m s) ≡ false
  no_space s base b t ds (Prefix.plain ne eb et) g =
      first_no_space b s ds (subst (λ z. Digits b z ds) et g)
  no_space s base b t ds (Prefix.decimal e ne eb et) g =
      first_no_space b s ds (subst (λ z. Digits b z ds) et g)
  no_space s base b t ds (Prefix.octal e z ne ne' eb et) g = rw z refl
  no_space s base b t ds (Prefix.hex e z x eb et) g = rw z refl

  -- For a string that is the digits `ds` of the base, or of the base that its prefix gives (0x or
  -- 0X for 16, where the base is 0 or 16, and where it is 0 a 0 for 8 and otherwise 10), `strtoul`
  -- ends within any fuel above their number. It returns their value modulo 2 ^ 64, and the end of
  -- the string.
  pub strtoul_lem :
      (ds : List ℕ) (fuel base s b t : ℕ)
      → Prefix s base b t
      → Digits b t ds
      → length ds < fuel
      → strtoul m fuel s base ≡ some (value b 0 ds % 2 ^ 64, t + length ds)
  unfolding strtoul skip_space
  strtoul_lem ds zero base s b t p g f = absurd (omega arith)
  strtoul_lem ds (suc fuel) base s b t p g f =
      rw (strtoul, skip_space, no_space s base b t ds p g, base_prefix-Prefix s base b t ds p g)
        (digits_loop_lem ds (suc fuel) b t 0 0 g f refl)
