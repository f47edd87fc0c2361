-- ===== src/Libc/Compare.antt =====
-- What `memcmp` (libc/string.c) tells of two areas.
use native.Mathlib.Decide.{dec_lt}
use picokernel.Prelude.{
  ℕ, zero, suc, ◌+◌, ◌^◌, ◌≤◌, ◌<◌, ◌≡◌, ◌≢◌, refl, arith, ◌==◌, inl, inr, ◌⊎◌, Bool-cases, ==_iff,
}
use picokernel.Libc.{Memory, compare_bytes, memcmp}

-- The int is negative.
abbrev pub IsNegative : ℕ → Type 0
IsNegative r = 2 ^ 31 ≤ r

abbrev pub IsPositive : ℕ → Type 0
IsPositive r = (0 < r) × (r < 2 ^ 31)

-- Two areas of `n` bytes agree before index `i` and differ there.
abbrev pub DifferAt : Memory → (s₁ s₂ i : ℕ) → Type 0
DifferAt m s₁ s₂ i = ((j : ℕ) → j < i → m (s₁ + j) ≡ m (s₂ + j)) × (m (s₁ + i) ≢ m (s₂ + i))

-- What an int says of two areas: 0 that they agree, a negative or a positive one that the first byte
-- that differs is smaller or greater in the first area.
abbrev pub Says : Memory → (s₁ s₂ n r : ℕ) → Type 0
Says m s₁ s₂ n r =
    ((r ≡ 0) × ((j : ℕ) → j < n → m (s₁ + j) ≡ m (s₂ + j)))
    ⊎ ((i : ℕ) × (i < n)
        × DifferAt m s₁ s₂ i
        × ((IsNegative r × (m (s₁ + i) < m (s₂ + i))) ⊎ (IsPositive r × (m (s₂ + i) < m (s₁ + i)))))

module _ (m : Memory) (bytes : (a : ℕ) → m a < 2 ^ 8) where
  compare_bytes-Says :
      (rounds i s₁ s₂ n : ℕ)
      → i + rounds ≡ n
      → ((j : ℕ) → j < i → m (s₁ + j) ≡ m (s₂ + j))
      → Says m s₁ s₂ n (compare_bytes m rounds i s₁ s₂)
  unfolding compare_bytes
  compare_bytes-Says zero i s₁ s₂ n e same = inl (refl, λ j lt. same j (omega arith))
  compare_bytes-Says (suc rounds) i s₁ s₂ n e same = elim (Bool-cases (m (s₁ + i) == m (s₂ + i))) [
    | inl agree ↦ rw agree (
        compare_bytes-Says rounds (i + 1) s₁ s₂ n (omega arith) λ j lt. elim (Bool-cases (j == i)) [
          | inl last ↦
              let last' : j ≡ i = (==_iff j i).0 last in
              rw last' ((==_iff (m (s₁ + i)) (m (s₂ + i))).0 agree)
          | inr before ↦ same j (ground arith)
        ])
    | inr ne ↦ rw ne (
        inr (
          i,
          omega arith,
          (same, ground arith),
          (elim (dec_lt (m (s₁ + i)) (m (s₂ + i))) [
            | yes below ↦ inl (omega (arith, bytes (s₁ + i), bytes (s₂ + i)), below)
            | no above ↦
                let more : m (s₂ + i) < m (s₁ + i) = ground arith in
                inr ((omega arith, omega (arith, bytes (s₁ + i))), more)
          ]),
        ))
  ]

  -- In a memory of bytes, `memcmp` returns 0 exactly if the two areas of `n` bytes agree, and
  -- otherwise an int with the sign of the first difference.
  memcmp-Says : (s₁ s₂ n : ℕ) → Says m s₁ s₂ n (memcmp m s₁ s₂ n)
  unfolding memcmp
  memcmp-Says s₁ s₂ n = compare_bytes-Says n 0 s₁ s₂ n (omega arith) (λ j lt. absurd (omega arith))
