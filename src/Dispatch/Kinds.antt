-- ===== src/Dispatch/Kinds.antt =====
-- The submissions of one kind in `platform_submit` (platform/shared/platform_virtio.c).
use picokernel.Prelude.{
  ℕ, ◌+◌, ◌≤◌, ◌≡◌, refl, ap, ◌∙◌, true, false, ◌||◌, ◌&&◌, List, [], ◌∷◌, arith, ◌==◌, length, has,
  Distinct, ==_refl, ==_iff, Bool-cases, inl, inr,
}
use picokernel.State.{Ptr, Kernel, work_at}
use picokernel.Virtqueue.Sets.{has_other}
use picokernel.Dispatch.Partition.{Kind, kind_of, same, picked}
use picokernel.Dispatch.Complete.{reversed}

same_apart : (k a b : Kind) → same a b ≡ false → same k a ≡ true → same k b ≡ false
same_apart k a b ne e = ground (arith, ne, e)

pub has-picked :
    (a : Ptr) (kind : Kind) (ops : ℕ → ℕ) (xs acc : List Ptr)
    → has a (picked kind ops xs acc) ≡ (has a acc || (has a xs && same (kind_of (ops a)) kind))
has-picked a kind ops [] acc = ground arith
has-picked a kind ops (x ∷ xs) acc =
    let own = ap (λ b. same (kind_of (ops b)) kind) in
    elim (Bool-cases (same (kind_of (ops x)) kind)) [
      | inl mine ↦ elim (Bool-cases (a == x)) [
        | inl it ↦
            let mine' : same (kind_of (ops a)) kind ≡ true = own ((==_iff a x).0 it) ∙ mine in
            rw mine (has-picked a kind ops xs (x ∷ acc) ∙ rw (it, mine') (ground arith))
        | inr else_ ↦ rw mine (has-picked a kind ops xs (x ∷ acc) ∙ rw else_ refl)
      ]
      | inr other ↦ elim (Bool-cases (a == x)) [
        | inl it ↦
            let other' : same (kind_of (ops a)) kind ≡ false = own ((==_iff a x).0 it) ∙ other in
            rw other (has-picked a kind ops xs acc ∙ rw (it, other') (ground arith))
        | inr else_ ↦ rw other (has-picked a kind ops xs acc ∙ rw else_ refl)
      ]
    ]

pub Distinct-picked :
    (kind : Kind) (ops : ℕ → ℕ) (xs acc : List Ptr)
    → Distinct xs
    → Distinct acc
    → ((a : Ptr) → has a xs ≡ true → has a acc ≡ false)
    → Distinct (picked kind ops xs acc)
Distinct-picked kind ops [] acc u v apart = v
Distinct-picked kind ops (x ∷ xs) acc u v apart = elim (Bool-cases (same (kind_of (ops x)) kind)) [
  | inl mine ↦ rw mine (
      Distinct-picked kind ops xs (x ∷ acc) u.1 (apart x (ground (arith, ==_refl x)), v)
        λ a i. ground (arith, has_other x a xs u.0 i, apart a))
  | inr other ↦ rw other (Distinct-picked kind ops xs acc u.1 v λ a i. apart a (ground arith))
]

pub length-picked :
    (kind : Kind) (ops : ℕ → ℕ) (xs acc : List Ptr)
    → length (picked kind ops xs acc) ≤ length xs + length acc
length-picked kind ops [] acc = omega arith
length-picked kind ops (x ∷ xs) acc = elim (Bool-cases (same (kind_of (ops x)) kind)) [
  | inl mine ↦ rw mine (omega (arith, length-picked kind ops xs (x ∷ acc)))
  | inr other ↦ rw other (omega (arith, length-picked kind ops xs acc))
]

pub has-reversed : (a : Ptr) (xs ys : List Ptr) → has a (reversed xs ys) ≡ (has a xs || has a ys)
has-reversed a [] ys = refl
has-reversed a (x ∷ xs) ys = has-reversed a xs (x ∷ ys) ∙ ground arith

-- The items of one kind among the submissions.
abbrev pub of_kind : Kernel → List Ptr → Kind → List Ptr
of_kind k xs kind = picked kind (λ a. (work_at k a).op) xs []

-- A list of one kind has no item of another one, nor one that is not submitted.
pub of_kind-apart :
    (k : Kernel) (xs : List Ptr) (i j : Kind) (a : Ptr)
    → same i j ≡ false
    → has a (of_kind k xs i) ≡ true
    → has a (of_kind k xs j) ≡ false
of_kind-apart k xs i j a ne e =
    let in_i = has-picked a i (λ b. (work_at k b).op) xs [] in
    let in_j = has-picked a j (λ b. (work_at k b).op) xs [] in
    in_j ∙ ground (arith, e, in_i, same_apart (kind_of (work_at k a).op) i j ne)

pub of_kind-within :
    (k : Kernel) (xs : List Ptr) (i : Kind) (a : Ptr)
    → has a (of_kind k xs i) ≡ true
    → has a xs ≡ true
of_kind-within k xs i a e = ground (arith, e, has-picked a i (λ b. (work_at k b).op) xs [])

pub same_refl : (k : Kind) → same k k ≡ true
same_refl Kind.rng = refl
same_refl Kind.blk = refl
same_refl Kind.net = refl
same_refl Kind.unknown = refl
