-- ===== src/Virtqueue/Chains/Removal.antt =====
-- What taking one chain away leaves of a list of chains.
use picokernel.Prelude.{
  ℕ, suc, ◌+◌, ◌≡◌, refl, sym, ap, subst, ◌∙◌, true, false, ◌&&◌, not, List, [], ◌∷◌, arith, ◌==◌,
  if◌then◌else◌, length, has, has-append, Distinct, Bool-cases, inl, inr, ==_iff, length-append,
  ==_refl,
}
use picokernel.Virtqueue.{Desc}
use picokernel.Virtqueue.Chains.{
  Taken, members, heads, all_of, rest_at, without_head, Linked, AllLinked, Distinct-left,
  Distinct-right, Distinct-apart, Distinct-append,
}

has-heads : (d : ℕ) (cs : List Taken) → has d (heads cs) ≡ true → has d (all_of cs) ≡ true
has-heads d [] e = e
has-heads d (c ∷ cs) e = ground (arith, has-append d (members c) (all_of cs), has-heads d cs)

-- A member of what is left is a member of the whole.
pub has-without_head :
    (e d : ℕ) (cs : List Taken)
    → has e (all_of (without_head d cs)) ≡ true
    → has e (all_of cs) ≡ true
has-without_head e d [] i = i
has-without_head e d (c ∷ cs) i = elim (Bool-cases (c.head == d)) [
  | inl same ↦
      has-append e (members c) (all_of cs)
      ∙ ground (
        arith,
        subst (λ b. has e (all_of (if b then cs else c ∷ without_head d cs)) ≡ true) same i,
      )
  | inr other ↦
      let i' =
        subst (λ b. has e (all_of (if b then cs else c ∷ without_head d cs)) ≡ true) other i in
      has-append e (members c) (all_of cs)
      ∙ ground (
        arith,
        i',
        has-append e (members c) (all_of (without_head d cs)),
        has-without_head e d cs,
      )
]

-- The chain that is taken away lies within the whole, and apart from what is left.
pub has-rest_at :
    (e d : ℕ) (cs : List Taken)
    → has d (heads cs) ≡ true
    → has e (d ∷ rest_at d cs) ≡ true
    → has e (all_of cs) ≡ true
has-rest_at e d [] i j = absurd (ground arith)
has-rest_at e d (c ∷ cs) i j = elim (Bool-cases (c.head == d)) [
  | inl same ↦
      let same' : c.head ≡ d = (==_iff c.head d).0 same in
      has-append e (members c) (all_of cs)
      ∙ ground (
        arith,
        subst (λ b. has e (d ∷ (if b then c.rest else rest_at d cs)) ≡ true) same j,
        same',
      )
  | inr other ↦
      let j' = subst (λ b. has e (d ∷ (if b then c.rest else rest_at d cs)) ≡ true) other j in
      let i' : has d (heads cs) ≡ true = ground (arith, other) in
      has-append e (members c) (all_of cs) ∙ ground (arith, has-rest_at e d cs i' j')
]

pub apart-rest_at :
    (e d : ℕ) (cs : List Taken)
    → Distinct (all_of cs)
    → has d (heads cs) ≡ true
    → has e (d ∷ rest_at d cs) ≡ true
    → has e (all_of (without_head d cs)) ≡ false
apart-rest_at e d [] u i j = refl
apart-rest_at e d (c ∷ cs) u i j = elim (Bool-cases (c.head == d)) [
  | inl same ↦
      let same' : c.head ≡ d = (==_iff c.head d).0 same in
      let j' : has e (members c) ≡ true = ground (
        arith,
        subst (λ b. has e (d ∷ (if b then c.rest else rest_at d cs)) ≡ true) same j,
        same',
      ) in
      rw same (Distinct-apart e (members c) (all_of cs) u j')
  | inr other ↦
      let j' = subst (λ b. has e (d ∷ (if b then c.rest else rest_at d cs)) ≡ true) other j in
      let i' : has d (heads cs) ≡ true = ground (arith, other) in
      let right = Distinct-right (members c) (all_of cs) u in
      rw other (
        has-append e (members c) (all_of (without_head d cs))
        ∙ ground (
          arith,
          apart-rest_at e d cs right i' j',
          has-rest_at e d cs i' j',
          Distinct-apart e (members c) (all_of cs) u,
        ))
]

pub without_head-Distinct :
    (d : ℕ) (cs : List Taken) → Distinct (all_of cs) → Distinct (all_of (without_head d cs))
without_head-Distinct d [] u = tt
without_head-Distinct d (c ∷ cs) u = elim (Bool-cases (c.head == d)) [
  | inl same ↦ rw same (Distinct-right (members c) (all_of cs) u)
  | inr other ↦ rw other (
      Distinct-append (members c) (all_of (without_head d cs))
        (Distinct-left (members c) (all_of cs) u)
        (without_head-Distinct d cs (Distinct-right (members c) (all_of cs) u))
        λ a e.
          ground (arith, Distinct-apart a (members c) (all_of cs) u e, has-without_head a d cs))
]

pub rest_at-Distinct :
    (d : ℕ) (cs : List Taken)
    → Distinct (all_of cs)
    → has d (heads cs) ≡ true
    → Distinct (d ∷ rest_at d cs)
rest_at-Distinct d [] u i = absurd (ground arith)
rest_at-Distinct d (c ∷ cs) u i = elim (Bool-cases (c.head == d)) [
  | inl same ↦
      let same' : c.head ≡ d = (==_iff c.head d).0 same in
      rw same (subst (λ a. Distinct (a ∷ c.rest)) same' (Distinct-left (members c) (all_of cs) u))
  | inr other ↦
      rw other
        (rest_at-Distinct d cs (Distinct-right (members c) (all_of cs) u) (ground (arith, other)))
]

pub length-without_head :
    (d : ℕ) (cs : List Taken)
    → has d (heads cs) ≡ true
    → suc (length (without_head d cs)) ≡ length cs
length-without_head d [] i = absurd (ground arith)
length-without_head d (c ∷ cs) i = elim (Bool-cases (c.head == d)) [
  | inl same ↦ rw same refl
  | inr other ↦ rw other (ap suc (length-without_head d cs (ground (arith, other))))
]

pub length-all_of :
    (d : ℕ) (cs : List Taken)
    → has d (heads cs) ≡ true
    → length (d ∷ rest_at d cs) + length (all_of (without_head d cs)) ≡ length (all_of cs)
length-all_of d [] i = absurd (ground arith)
length-all_of d (c ∷ cs) i = elim (Bool-cases (c.head == d)) [
  | inl same ↦ rw same (sym (length-append (members c) (all_of cs)))
  | inr other ↦ rw other (
      omega (
        arith,
        length-append (members c) (all_of cs),
        length-append (members c) (all_of (without_head d cs)),
        length-all_of d cs (ground (arith, other)),
      ))
]

pub rest_at-Linked :
    (desc : ℕ → Desc) (d : ℕ) (cs : List Taken)
    → AllLinked desc cs
    → has d (heads cs) ≡ true
    → Linked desc d (rest_at d cs)
rest_at-Linked desc d [] l i = absurd (ground arith)
rest_at-Linked desc d (c ∷ cs) l i = elim (Bool-cases (c.head == d)) [
  | inl same ↦
      let same' : c.head ≡ d = (==_iff c.head d).0 same in
      rw same (subst (λ a. Linked desc a c.rest) same' l.0)
  | inr other ↦ rw other (rest_at-Linked desc d cs l.1 (ground (arith, other)))
]

pub without_head-AllLinked :
    (desc : ℕ → Desc) (d : ℕ) (cs : List Taken)
    → AllLinked desc cs
    → AllLinked desc (without_head d cs)
without_head-AllLinked desc d [] l = tt
without_head-AllLinked desc d (c ∷ cs) l = elim (Bool-cases (c.head == d)) [
  | inl same ↦ rw same l.1
  | inr other ↦ rw other (l.0, without_head-AllLinked desc d cs l.1)
]

-- The first descriptors of what is left.
pub has-heads-without_head :
    (e d : ℕ) (cs : List Taken)
    → Distinct (all_of cs)
    → has d (heads cs) ≡ true
    → has e (heads (without_head d cs)) ≡ (has e (heads cs) && not (e == d))
has-heads-without_head e d [] u i = absurd (ground arith)
has-heads-without_head e d (c ∷ cs) u i = elim (Bool-cases (c.head == d)) [
  | inl same ↦
      let apart =
        Distinct-apart c.head (members c) (all_of cs) u (ground (arith, ==_refl c.head)) in
      let same' : c.head ≡ d = (==_iff c.head d).0 same in
      elim (Bool-cases (e == d)) [
        | inl it ↦
            let it' : e ≡ c.head = (==_iff e d).0 it ∙ sym same' in
            rw same (
              ground
                (arith, it, subst (λ a. has a (all_of cs) ≡ false) (sym it') apart, has-heads e cs))
        | inr not_it ↦ rw (same, same', not_it) (ground (arith, not_it))
      ]
  | inr other ↦ rw other (
      ground (
        arith,
        other,
        has-heads-without_head e d cs (Distinct-right (members c) (all_of cs) u)
            (ground (arith, other)),
      ))
]
