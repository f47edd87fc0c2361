-- ===== src/Virtqueue/Chains.antt =====
-- Chains of descriptors that a driver builds on a virtqueue (driver/virtio/virtio.h,
-- VIRTQ_DESC_F_NEXT): a list of the chains in use, beside the free descriptors.
pub mod Removal
pub mod Release
pub mod Slots
pub mod Used
use picokernel.Prelude.{
  ℕ, zero, suc, ◌+◌, ◌%◌, ◌^◌, ◌≤◌, ◌<◌, ◌≡◌, refl, sym, ap, subst, ◌∙◌, Bool, true, false, ◌&&◌,
  ◌||◌, not, List, [], ◌∷◌, ◌++◌, arith, ◌==◌, if◌then◌else◌, update, length, has, has-append,
  Distinct, All, Bool-cases, inl, inr, Option, none, some, ==_iff, ==_refl, length-append,
}
use picokernel.Virtqueue.{Desc, Virtqueue, no_desc, free_desc}

-- A chain: its first descriptor and those behind it.
pub record Taken : Type 0 where
  pub head : ℕ
  pub rest : List ℕ

abbrev pub members : Taken → List ℕ
members c = c.head ∷ c.rest

abbrev pub heads : List Taken → List ℕ
heads [] = []
heads (c ∷ cs) = c.head ∷ heads cs

abbrev pub all_of : List Taken → List ℕ
all_of [] = []
all_of (c ∷ cs) = members c ++ all_of cs

-- The chain with the first descriptor `d`, and the others.
abbrev pub rest_at : ℕ → List Taken → List ℕ
rest_at d [] = []
rest_at d (c ∷ cs) = if c.head == d then c.rest else rest_at d cs

abbrev pub without_head : ℕ → List Taken → List Taken
without_head d [] = []
without_head d (c ∷ cs) = if c.head == d then cs else c ∷ without_head d cs

-- `flags & VIRTQ_DESC_F_NEXT`
abbrev pub has_next : Desc → Bool
has_next e = e.flags % 2 == 1

-- The loop that gives back a chain's descriptors from `curr_desc` on.
unfoldable pub free_chain : ℕ → ℕ → Virtqueue → Option Virtqueue
free_chain zero curr_desc vq = none
free_chain (suc fuel) curr_desc vq =
    let desc = vq.desc curr_desc in
    let vq' = free_desc vq curr_desc in
    let more = free_chain fuel desc.next vq' in
    if curr_desc == no_desc then some vq else if not (has_next desc) then some vq' else more

-- The descriptors `xs` follow `d` in its chain, and end it.
abbrev pub Linked : (ℕ → Desc) → ℕ → List ℕ → Type 0
Linked desc d [] = has_next (desc d) ≡ false
Linked desc d (e ∷ xs) = (has_next (desc d) ≡ true) × ((desc d).next ≡ e) × Linked desc e xs

pub Linked-update :
    (desc : ℕ → Desc) (d : ℕ) (e : Desc) (c : ℕ) (xs : List ℕ)
    → has d (c ∷ xs) ≡ false
    → Linked desc c xs
    → Linked (update desc d e) c xs
Linked-update desc d e c [] out l = let other : (c == d) ≡ false = ground arith in rw other l
Linked-update desc d e c (x ∷ xs) out (more, same, l) =
    let other : (c == d) ≡ false = ground arith in
    (rw other more, rw other same, Linked-update desc d e x xs (ground arith) l)

abbrev pub AllLinked : (ℕ → Desc) → List Taken → Type 0
AllLinked desc [] = Unit
AllLinked desc (c ∷ cs) = Linked desc c.head c.rest × AllLinked desc cs

pub AllLinked-update :
    (desc : ℕ → Desc) (d : ℕ) (e : Desc) (cs : List Taken)
    → has d (all_of cs) ≡ false
    → AllLinked desc cs
    → AllLinked (update desc d e) cs
AllLinked-update desc d e [] out l = tt
AllLinked-update desc d e (c ∷ cs) out (l, ls) =
    let split = has-append d (members c) (all_of cs) in
    (
      Linked-update desc d e c.head c.rest (ground (arith, split)) l,
      AllLinked-update desc d e cs (ground (arith, split)) ls,
    )

Linked-frame :
    (desc desc' : ℕ → Desc) (c : ℕ) (xs : List ℕ)
    → ((d : ℕ) → has d (c ∷ xs) ≡ true → desc' d ≡ desc d)
    → Linked desc c xs
    → Linked desc' c xs
Linked-frame desc desc' c [] same l = rw (same c (ground (arith, ==_refl c))) l
Linked-frame desc desc' c (x ∷ xs) same (more, next, l) =
    let here = same c (ground (arith, ==_refl c)) in
    (rw here more, rw here next, Linked-frame desc desc' x xs (λ d i. same d (ground arith)) l)

-- Chains whose descriptors are unchanged are still linked.
pub AllLinked-frame :
    (desc desc' : ℕ → Desc) (cs : List Taken)
    → ((d : ℕ) → has d (all_of cs) ≡ true → desc' d ≡ desc d)
    → AllLinked desc cs
    → AllLinked desc' cs
AllLinked-frame desc desc' [] same l = tt
AllLinked-frame desc desc' (c ∷ cs) same (l, ls) = (
  Linked-frame desc desc' c.head c.rest
      (λ d i. same d (has-append d (members c) (all_of cs) ∙ ground arith)) l,
  AllLinked-frame desc desc' cs
      (λ d i. same d (has-append d (members c) (all_of cs) ∙ ground (arith, i))) ls,
)

pub length_le : (cs : List Taken) → length cs ≤ length (all_of cs)
length_le [] = omega arith
length_le (c ∷ cs) = omega (arith, length_le cs, length-append (members c) (all_of cs))

-- Distinctness of two lists put together.
pub Distinct-left : (xs ys : List ℕ) → Distinct (xs ++ ys) → Distinct xs
Distinct-left [] ys u = tt
Distinct-left (x ∷ xs) ys u = (ground (arith, has-append x xs ys, u.0), Distinct-left xs ys u.1)

pub Distinct-right : (xs ys : List ℕ) → Distinct (xs ++ ys) → Distinct ys
Distinct-right [] ys u = u
Distinct-right (x ∷ xs) ys u = Distinct-right xs ys u.1

pub Distinct-apart :
    (a : ℕ) (xs ys : List ℕ) → Distinct (xs ++ ys) → has a xs ≡ true → has a ys ≡ false
Distinct-apart a [] ys u e = ground arith
Distinct-apart a (x ∷ xs) ys u e = elim (Bool-cases (a == x)) [
  | inl same ↦
      let e' : a ≡ x = (==_iff a x).0 same in rw e' (ground (arith, has-append x xs ys, u.0))
  | inr other ↦ Distinct-apart a xs ys u.1 (ground (arith, other))
]

pub Distinct-append :
    (xs ys : List ℕ)
    → Distinct xs
    → Distinct ys
    → ((a : ℕ) → has a xs ≡ true → has a ys ≡ false)
    → Distinct (xs ++ ys)
Distinct-append [] ys u v apart = v
Distinct-append (x ∷ xs) ys u v apart = (
  has-append x xs ys ∙ ground (arith, u.0, apart x),
  Distinct-append xs ys u.1 v λ a e. apart a (ground (arith, e)),
)
