-- ===== src/TimerHeap/Order.antt =====
-- `timer_heap_bubble_up` and `timer_heap_bubble_down` of kernel/timer_heap.c restore the order.
use native.Mathlib.Decide.{dec_lt}
use picokernel.Prelude.{
  ℕ, ◌+◌, ◌*◌, ◌/◌, ◌%◌, ◌≤◌, ◌<◌, ◌≡◌, refl, ◌≢◌, ◌∙◌, ap, sym, arith, inl, inr, ◌⊎◌, Bool,
  Bool-cases, ◌==◌, ltb, true, false, not, ◌&&◌,
}
use picokernel.State.{Ptr, null, Request}
use picokernel.TimerHeap.{swap, smallest}
use picokernel.TimerHeap.Swap.{SameLinks, swap-SameLinks}
use picokernel.TimerHeap.Layout.{Layout, swap-at}

-- `g` is `h` after swaps of requests of the heap.
pub data Swaps (at : ℕ → Ptr) (size : ℕ) (g : Ptr → Request) : (Ptr → Request) → Type 0 where
  done : Swaps at size g g
  step :
      {h : Ptr → Request} (p q : ℕ)
      → 0 < p
      → p ≤ size
      → 0 < q
      → q ≤ size
      → Swaps at size g (swap h (at p) (at q))
      → Swaps at size g h

-- Ordered but perhaps at position `p` itself, whose children are not due before its parent.
pub record Rising (at : ℕ → Ptr) (size : ℕ) (h : Ptr → Request) (p : ℕ) : Type 0 where
  pub others :
      (q : ℕ) → 1 < q → q ≤ size → q ≢ p → (h (at (q / 2))).deadline_ns ≤ (h (at q)).deadline_ns
  pub across :
      (q : ℕ) → 1 < p → q ≤ size → q / 2 ≡ p → (h (at (p / 2))).deadline_ns ≤ (h (at q)).deadline_ns

-- Ordered but perhaps below position `p`, whose children are not due before its parent.
pub record Sinking (at : ℕ → Ptr) (size : ℕ) (h : Ptr → Request) (p : ℕ) : Type 0 where
  pub others :
      (q : ℕ) → 1 < q → q ≤ size → q / 2 ≢ p → (h (at (q / 2))).deadline_ns ≤ (h (at q)).deadline_ns
  pub across :
      (q : ℕ) → 1 < p → q ≤ size → q / 2 ≡ p → (h (at (p / 2))).deadline_ns ≤ (h (at q)).deadline_ns

module _ {at : ℕ → Ptr} {size : ℕ} where
  pub Swaps-SameLinks : {g h : Ptr → Request} → Swaps at size g h → SameLinks h g
  Swaps-SameLinks done = record { parent = λ a. refl; left = λ a. refl; right = λ a. refl }
  Swaps-SameLinks (step {h} p q p0 p1 q0 q1 s) =
      let rest = Swaps-SameLinks s in
      let one = swap-SameLinks h (at p) (at q) in
      record {
        parent = λ a. rest.parent a ∙ one.parent a;
        left = λ a. rest.left a ∙ one.left a;
        right = λ a. rest.right a ∙ one.right a;
      }

  module _ {h : Ptr → Request} (t : Layout h at size) where
    pub Rising-swap :
        (p : ℕ)
        → 1 < p
        → p ≤ size
        → Rising at size h p
        → (h (at p)).deadline_ns < (h (at (p / 2))).deadline_ns
        → Rising at size (swap h (at p) (at (p / 2))) (p / 2)
    Rising-swap p lo hi r lt = record {
      others = λ q q0 q1 ne. ground (
        arith,
        swap-at t p (p / 2) q (omega arith) hi (omega arith) (omega arith) (omega arith) q1,
        swap-at t p (p / 2) (q / 2) (omega arith) hi (omega arith) (omega arith) (omega arith)
            (omega arith),
        r.others q q0 q1,
        r.across q lo q1,
        lt,
      );
      across = λ q p0 q1 e. ground (
        arith,
        swap-at t p (p / 2) q (omega arith) hi (omega arith) (omega arith) (omega arith) q1,
        swap-at t p (p / 2) (p / 2 / 2) (omega arith) hi (omega arith) (omega arith) (omega arith)
            (omega arith),
        r.others q (omega arith) q1,
        r.others (p / 2) p0 (omega arith) (omega arith),
      );
    }

    -- The position that `smallest` picks for the node at position `p`.
    pub record Pick (p s : ℕ) : Type 0 where
      pub near : (s ≡ p) ⊎ ((s ≡ 2 * p) ⊎ (s ≡ 2 * p + 1))
      pub inside : s ≤ size
      pub self : (h (at s)).deadline_ns ≤ (h (at p)).deadline_ns
      pub left : 2 * p ≤ size → (h (at s)).deadline_ns ≤ (h (at (2 * p))).deadline_ns
      pub right : 2 * p + 1 ≤ size → (h (at s)).deadline_ns ≤ (h (at (2 * p + 1))).deadline_ns

    -- One of its two tests: whether the child at position `c` is there and due before position `s`.
    abbrev first : ℕ → ℕ → Bool
    first c s = not (at c == null) && ltb (h (at c)).deadline_ns (h (at s)).deadline_ns

    first-false :
        (c s : ℕ)
        → first c s ≡ false
        → 0 < c
        → c ≤ size
        → (h (at s)).deadline_ns ≤ (h (at c)).deadline_ns
    first-false c s e lo hi = ground (arith, t.inside c lo hi)

    first-true :
        (c s : ℕ)
        → first c s ≡ true
        → (c ≤ size) × ((h (at c)).deadline_ns < (h (at s)).deadline_ns)
    first-true c s e = elim (dec_lt size c) [
      | yes out ↦ ground (arith, t.outside c out)
      | no inn ↦ ground arith
    ]

    -- What the first test chooses.
    abbrev Choice : ℕ → ℕ → Type 0
    Choice p s = ((s ≡ 2 * p) × (first (2 * p) p ≡ true)) ⊎ ((s ≡ p) × (first (2 * p) p ≡ false))

    choose : (p : ℕ) → (s : ℕ) × Choice p s
    choose p = elim (Bool-cases (first (2 * p) p)) [
      | inl l ↦ (2 * p, inl (refl, l))
      | inr l ↦ (p, inr (refl, l))
    ]

    Pick-right :
        (p s : ℕ)
        → 0 < p
        → p ≤ size
        → Choice p s
        → first (2 * p + 1) s ≡ true
        → (smallest h (at p) ≡ at (2 * p + 1)) × Pick p (2 * p + 1)
    unfolding smallest
    Pick-right p s lo hi (inl (e, l)) r = (
      rw (t.left p lo hi, t.right p lo hi, l, ap (λ q. first (2 * p + 1) q) (sym e) ∙ r) refl,
      ground (arith, first-true (2 * p) p l, first-true (2 * p + 1) s r),
    )
    Pick-right p s lo hi (inr (e, l)) r = (
      rw (t.left p lo hi, t.right p lo hi, l, ap (λ q. first (2 * p + 1) q) (sym e) ∙ r) refl,
      ground (arith, first-false (2 * p) p l, first-true (2 * p + 1) s r),
    )

    Pick-other :
        (p s : ℕ)
        → 0 < p
        → p ≤ size
        → Choice p s
        → first (2 * p + 1) s ≡ false
        → (smallest h (at p) ≡ at s) × Pick p s
    unfolding smallest
    Pick-other p s lo hi (inl (e, l)) r = (
      rw (t.left p lo hi, t.right p lo hi, l, ap (λ q. first (2 * p + 1) q) (sym e) ∙ r)
          (ap at (sym e)),
      ground (arith, first-true (2 * p) p l, first-false (2 * p + 1) s r),
    )
    Pick-other p s lo hi (inr (e, l)) r = (
      rw (t.left p lo hi, t.right p lo hi, l, ap (λ q. first (2 * p + 1) q) (sym e) ∙ r)
          (ap at (sym e)),
      ground (arith, first-false (2 * p) p l, first-false (2 * p + 1) s r),
    )

    pub pick : (p : ℕ) → 0 < p → p ≤ size → (s : ℕ) × (smallest h (at p) ≡ at s) × Pick p s
    pick p lo hi =
        let (s, c) = choose p in
        elim (Bool-cases (first (2 * p + 1) s)) [
          | inl r ↦ let (e, k) = Pick-right p s lo hi c r in (2 * p + 1, e, k)
          | inr r ↦ let (e, k) = Pick-other p s lo hi c r in (s, e, k)
        ]

    -- The picked position is due no later than any child.
    pub Pick-child :
        (p s q : ℕ)
        → Pick p s
        → q / 2 ≡ p
        → q ≤ size
        → (h (at s)).deadline_ns ≤ (h (at q)).deadline_ns
    Pick-child p s q k e hi = elim (Bool-cases (q % 2 == 0)) [
      | inl even ↦ let e' : q ≡ 2 * p = ground arith in rw e' (k.left (omega arith))
      | inr odd ↦ let e' : q ≡ 2 * p + 1 = ground arith in rw e' (k.right (omega arith))
    ]

    pub Sinking-swap :
        (p s : ℕ)
        → 0 < p
        → p ≤ size
        → Sinking at size h p
        → Pick p s
        → s ≢ p
        → Sinking at size (swap h (at p) (at s)) s
    Sinking-swap p s lo hi sink k ne =
        let half : s / 2 ≡ p = ground arith in
        record {
          others = λ q q0 q1 nq. ground (
            arith,
            swap-at t p s q lo hi (omega arith) k.inside (omega arith) q1,
            swap-at t p s (q / 2) lo hi (omega arith) k.inside (omega arith) (omega arith),
            sink.others q q0 q1,
            λ (l : 1 < p). sink.across s l k.inside half,
            λ (e : q / 2 ≡ p). Pick-child p s q k e q1,
            k.self,
          );
          across = λ q s0 q1 e. ground (
            arith,
            swap-at t p s q lo hi (omega arith) k.inside (omega arith) q1,
            swap-at t p s (s / 2) lo hi (omega arith) k.inside (omega arith) (omega arith),
            sink.others q (omega arith) q1,
            half,
          );
        }
