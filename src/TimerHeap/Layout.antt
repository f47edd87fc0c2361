-- ===== src/TimerHeap/Layout.antt =====
-- The tree of kernel/timer_heap.c as a complete binary tree: position 1 is the root, the children of
-- position p are 2 p and 2 p + 1, and the positions from 1 to the size are taken.
use native.Mathlib.Nat.{le_refl}
use native.Mathlib.Decide.{dec_lt}
use picokernel.Prelude.{
  ℕ, zero, suc, ◌+◌, ◌*◌, ◌/◌, ◌%◌, ◌^◌, ◌≤◌, ◌<◌, ◌≡◌, ◌≢◌, ◌∙◌, ap, sym, arith, inl, inr,
  Bool-cases, ◌==◌, if◌then◌else◌, ==_refl, ne→==, false, ==_iff,
}
use picokernel.State.{Ptr, null, Request}
use picokernel.TimerHeap.{navigate, swap}
use picokernel.TimerHeap.Navigate.{child_of, navigate-children}
use picokernel.TimerHeap.Swap.{swap_left, swap_right, swap_other, SameLinks}

-- `at p` is the request at position p, NULL where there is none.
pub record Layout (h : Ptr → Request) (at : ℕ → Ptr) (size : ℕ) : Type 0 where
  pub inside : (p : ℕ) → 0 < p → p ≤ size → at p ≢ null
  pub above : at 0 ≡ null
  pub outside : (p : ℕ) → size < p → at p ≡ null
  pub left : (p : ℕ) → 0 < p → p ≤ size → (h (at p)).left ≡ at (2 * p)
  pub right : (p : ℕ) → 0 < p → p ≤ size → (h (at p)).right ≡ at (2 * p + 1)
  pub parent : (p : ℕ) → 0 < p → p ≤ size → (h (at p)).parent ≡ at (p / 2)
  pub distinct : (p q : ℕ) → 0 < p → p ≤ size → 0 < q → q ≤ size → at p ≡ at q → p ≡ q

-- No request is due before the one above it.
abbrev pub Ordered : (Ptr → Request) → (ℕ → Ptr) → ℕ → Type 0
Ordered h at size =
    (p : ℕ) → 1 < p → p ≤ size → (h (at (p / 2))).deadline_ns ≤ (h (at p)).deadline_ns

module _ {at : ℕ → Ptr} {size : ℕ} where
  pub SameLinks-Layout : {h g : Ptr → Request} → SameLinks h g → Layout h at size → Layout g at size
  SameLinks-Layout same t = record {
    inside = t.inside;
    above = t.above;
    outside = t.outside;
    left = λ p lo hi. same.left (at p) ∙ t.left p lo hi;
    right = λ p lo hi. same.right (at p) ∙ t.right p lo hi;
    parent = λ p lo hi. same.parent (at p) ∙ t.parent p lo hi;
    distinct = t.distinct;
  }

  -- The root is due first.
  Ordered-root :
      (fuel : ℕ) (h : Ptr → Request) (p : ℕ)
      → Ordered h at size
      → p < fuel
      → 0 < p
      → p ≤ size
      → (h (at 1)).deadline_ns ≤ (h (at p)).deadline_ns
  Ordered-root zero h p o f lo hi = absurd (omega arith)
  Ordered-root (suc fuel) h p o f lo hi = elim (Bool-cases (p == 1)) [
    | inl e ↦ let e' : p ≡ 1 = (==_iff p 1).0 e in rw e' (le_refl _)
    | inr ne ↦
        let more : 1 < p = ground arith in
        omega (
          arith,
          o p more hi,
          Ordered-root fuel h (p / 2) o (omega arith) (omega arith) (omega arith),
        )
  ]

  module _ {h : Ptr → Request} (t : Layout h at size) where
    -- What a swap of the requests at two positions does to the requests at all positions.
    pub swap-at :
        (p q c : ℕ)
        → 0 < p
        → p ≤ size
        → 0 < q
        → q ≤ size
        → 0 < c
        → c ≤ size
        → (swap h (at p) (at q) (at c)).deadline_ns ≡ (
            if c == p
            then (h (at q)).deadline_ns
            else if c == q
            then (h (at p)).deadline_ns
            else (h (at c)).deadline_ns)
    swap-at p q c p0 p1 q0 q1 c0 c1 = elim (Bool-cases (c == p)) [
      | inl e ↦
          let e' : c ≡ p = (==_iff c p).0 e in
          rw (e', ==_refl p) (ap (λ r. r.deadline_ns) (swap_left h (at p) (at q)))
      | inr np ↦ elim (Bool-cases (c == q)) [
        | inl e ↦
            let e' : c ≡ q = (==_iff c q).0 e in
            let np' : (q == p) ≡ false = ground arith in
            rw (e', np', ==_refl q) (ap (λ r. r.deadline_ns) (swap_right h (at p) (at q)))
        | inr nq ↦
            rw (np, nq)
              (ap (λ r. r.deadline_ns)
                (swap_other h (at p) (at q) (at c)
                  (λ e. cc ((==_iff c p).1 (t.distinct c p c0 c1 p0 p1 e)))
                  (λ e. cc ((==_iff c q).1 (t.distinct c q c0 c1 q0 q1 e)))))
      ]
    ]

    left-at : (q : ℕ) → 0 < q → child_of h 0 (at q) ≡ at (2 * q)
    left-at q lo = elim (dec_lt size q) [
      | yes out ↦ rw (t.outside q out) (sym (t.outside (2 * q) (omega arith)))
      | no inn ↦ rw (ne→== (at q) null (t.inside q lo (omega arith))) (t.left q lo (omega arith))
    ]

    right-at : (q : ℕ) → 0 < q → child_of h 1 (at q) ≡ at (2 * q + 1)
    right-at q lo = elim (dec_lt size q) [
      | yes out ↦ rw (t.outside q out) (sym (t.outside (2 * q + 1) (omega arith)))
      | no inn ↦ rw (ne→== (at q) null (t.inside q lo (omega arith))) (t.right q lo (omega arith))
    ]

    -- Navigation finds the request at each position.
    pub navigate-at :
        (fuel root p : ℕ) → at 1 ≡ root → p < fuel → 0 < p → p < 2 ^ 64 → navigate h root p ≡ at p
    navigate-at zero root p e f lo hi = absurd (omega arith)
    navigate-at (suc fuel) root p e f lo hi = elim (Bool-cases (p == 1)) [
      | inl one ↦
          let e' : p ≡ 1 = (==_iff p 1).0 one in
          rw e' ((navigate-children h root 1 (omega arith) (omega arith)).0 ∙ sym e)
      | inr ne ↦
          let q = p / 2 in
          let pos : 0 < q = ground arith in
          let found = navigate-at fuel root q e (omega arith) pos (omega arith) in
          let (_, l, r) = navigate-children h root q pos (omega arith) in
          elim (Bool-cases (p % 2 == 0)) [
            | inl even ↦
                let e' : p ≡ 2 * q = ground arith in
                rw e' (l ∙ ap (child_of h 0) found ∙ left-at q pos)
            | inr odd ↦
                let e' : p ≡ 2 * q + 1 = ground arith in
                rw e' (r ∙ ap (child_of h 1) found ∙ right-at q pos)
          ]
    ]
