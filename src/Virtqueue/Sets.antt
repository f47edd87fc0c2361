-- ===== src/Virtqueue/Sets.antt =====
-- Lists of descriptors from which others are taken, as the drivers' interrupt handlers give
-- descriptors back (driver/virtio/virtio.c, virtqueue_free_desc).
use picokernel.Prelude.{
  ℕ, suc, ◌≡◌, refl, ap, subst, ◌∙◌, true, false, List, [], ◌∷◌, arith, ◌==◌, if◌then◌else◌, length,
  has, Distinct, Bool-cases, inl, inr, ==_iff, ne→==, not, ◌&&◌, ◌||◌, ◌+◌,
}

-- `xs` without `d`.
abbrev pub without : ℕ → List ℕ → List ℕ
without d [] = []
without d (x ∷ xs) = if x == d then without d xs else x ∷ without d xs

pub has-without : (c d : ℕ) (xs : List ℕ) → has c (without d xs) ≡ (has c xs && not (c == d))
has-without c d [] = refl
has-without c d (x ∷ xs) = ground (arith, has-without c d xs)

without_same : (d : ℕ) (xs : List ℕ) → has d xs ≡ false → without d xs ≡ xs
without_same d [] e = refl
without_same d (x ∷ xs) e = ground (arith, without_same d xs)

pub length-without :
    (d : ℕ) (xs : List ℕ) → Distinct xs → has d xs ≡ true → suc (length (without d xs)) ≡ length xs
length-without d [] u e = ground arith
length-without d (x ∷ xs) u e = elim (Bool-cases (x == d)) [
  | inl same ↦
      let e' : x ≡ d = (==_iff x d).0 same in
      rw same (ap suc (ap length (without_same d xs (subst (λ a. has a xs ≡ false) e' u.0))))
  | inr other ↦ rw other (ap suc (length-without d xs u.1 (ground arith)))
]

pub Distinct-without : (d : ℕ) (xs : List ℕ) → Distinct xs → Distinct (without d xs)
Distinct-without d [] u = tt
Distinct-without d (x ∷ xs) u = elim (Bool-cases (x == d)) [
  | inl same ↦ rw same (Distinct-without d xs u.1)
  | inr other ↦ rw other (has-without x d xs ∙ ground (arith, u.0), Distinct-without d xs u.1)
]

-- The descriptors that are free and those that are out once `ds` were given back.
abbrev pub freed : List ℕ → List ℕ → List ℕ
freed [] free = free
freed (d ∷ ds) free = freed ds (d ∷ free)

abbrev pub remaining : List ℕ → List ℕ → List ℕ
remaining [] out = out
remaining (d ∷ ds) out = remaining ds (without d out)

-- A member is not what is no member.
pub has_other : (x a : ℕ) (xs : List ℕ) → has x xs ≡ false → has a xs ≡ true → (a == x) ≡ false
has_other x a xs out inn = ne→== a x λ e. cc (out, inn, ap (λ c. has c xs) e)

pub has-freed : (c : ℕ) (ds free : List ℕ) → has c (freed ds free) ≡ (has c ds || has c free)
has-freed c [] free = refl
has-freed c (d ∷ ds) free = has-freed c ds (d ∷ free) ∙ ground arith

pub length-freed : (ds free : List ℕ) → length (freed ds free) ≡ length ds + length free
length-freed [] free = omega arith
length-freed (d ∷ ds) free = length-freed ds (d ∷ free) ∙ omega arith
