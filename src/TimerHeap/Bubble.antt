-- ===== src/TimerHeap/Bubble.antt =====
-- The loops of `timer_heap_bubble_up` and `timer_heap_bubble_down` (kernel/timer_heap.c) end, only
-- swap requests of the heap, and leave it ordered.
use native.Mathlib.Nat.{pow-suc, mul_comm, mul_assoc, mul-le-mul_right}
use native.Mathlib.Decide.{dec_lt}
use picokernel.Prelude.{
  ℕ, zero, suc, ◌*◌, ◌/◌, ◌^◌, ◌≤◌, ◌<◌, ◌≡◌, ◌≢◌, ◌∙◌, ap, arith, subst, inl, inr, ◌⊎◌, Bool-cases,
  ◌==◌, ==_iff, Option, some,
}
use picokernel.State.{Ptr, null, Request}
use picokernel.TimerHeap.{swap, bubble_up, smallest, bubble_down}
use picokernel.TimerHeap.Swap.{swap-SameLinks}
use picokernel.TimerHeap.Layout.{Layout, Ordered, SameLinks-Layout}
use picokernel.TimerHeap.Order.{
  Swaps, done, step, Rising, Sinking, Pick, pick, Pick-child, Rising-swap, Sinking-swap,
}

-- A run that ended, with requests that are those of `h` after swaps, in order.
pub record Restored (at : ℕ → Ptr) (size : ℕ) (h : Ptr → Request) (run : Option (Ptr → Request))
    : Type 0 where
  pub requests : Ptr → Request
  pub ran : run ≡ some requests
  pub swaps : Swaps at size requests h
  pub ordered : Ordered requests at size

pub bubble_up-more :
    (fuel : ℕ) (h : Ptr → Request) (node parent : Ptr)
    → (h node).parent ≡ parent
    → parent ≢ null
    → (h node).deadline_ns < (h parent).deadline_ns
    → bubble_up (suc fuel) node h ≡ bubble_up fuel parent (swap h node parent)
unfolding bubble_up
bubble_up-more fuel h node parent e ne lt = rw e (ground arith)

pub bubble_up-stop :
    (fuel : ℕ) (h : Ptr → Request) (node parent : Ptr)
    → (h node).parent ≡ parent
    → (parent ≡ null) ⊎ ((h parent).deadline_ns ≤ (h node).deadline_ns)
    → bubble_up (suc fuel) node h ≡ some h
unfolding bubble_up
bubble_up-stop fuel h node parent e c = rw e (ground arith)

bubble_down-more :
    (fuel : ℕ) (h : Ptr → Request) (node s : Ptr)
    → smallest h node ≡ s
    → s ≢ node
    → bubble_down (suc fuel) node h ≡ bubble_down fuel s (swap h node s)
unfolding bubble_down
bubble_down-more fuel h node s e ne = rw e (ground arith)

bubble_down-stop :
    (fuel : ℕ) (h : Ptr → Request) (node s : Ptr)
    → smallest h node ≡ s
    → s ≡ node
    → bubble_down (suc fuel) node h ≡ some h
unfolding bubble_down
bubble_down-stop fuel h node s e same = rw e (ground arith)

-- One level further down the fuel may be one less.
deeper : (size p s fuel : ℕ) → 2 * p ≤ s → size < p * 2 ^ suc fuel → size < s * 2 ^ fuel
deeper size p s fuel le f =
    let e : p * 2 ^ suc fuel ≡ 2 * p * 2 ^ fuel =
      rw (pow-suc 2 fuel, mul_comm (2 ^ fuel) 2, mul_comm 2 p, mul_assoc p 2 (2 ^ fuel)) in
    omega (arith, mul-le-mul_right (2 ^ fuel) le)

module _ {at : ℕ → Ptr} {size : ℕ} where
  swapped :
      {h : Ptr → Request} {run run' : Option (Ptr → Request)} (p q : ℕ)
      → 0 < p
      → p ≤ size
      → 0 < q
      → q ≤ size
      → run ≡ run'
      → Restored at size (swap h (at p) (at q)) run'
      → Restored at size h run
  swapped p q p0 p1 q0 q1 e r = record {
    requests = r.requests;
    ran = e ∙ r.ran;
    swaps = step p q p0 p1 q0 q1 r.swaps;
    ordered = r.ordered;
  }

  Rising-stop :
      (h : Ptr → Request) (p : ℕ)
      → Rising at size h p
      → (1 < p → (h (at (p / 2))).deadline_ns ≤ (h (at p)).deadline_ns)
      → Ordered h at size
  Rising-stop h p r top q q0 q1 = elim (Bool-cases (q == p)) [
    | inl e ↦ let e' : q ≡ p = (==_iff q p).0 e in rw e' (top (omega arith))
    | inr ne ↦ r.others q q0 q1 (ground arith)
  ]

  -- For a heap laid out in positions 1 to `size` that is ordered but perhaps at position `p`,
  -- `timer_heap_bubble_up` from there ends within any fuel with `p < 2 ^ fuel`; it only swaps
  -- requests of the heap and leaves the whole heap ordered.
  pub bubble_up-Restored :
      (fuel : ℕ) (h : Ptr → Request) (p : ℕ)
      → Layout h at size
      → 0 < p
      → p ≤ size
      → p < 2 ^ fuel
      → Rising at size h p
      → Restored at size h (bubble_up fuel (at p) h)
  bubble_up-Restored zero h p t lo hi f r = absurd (omega arith)
  bubble_up-Restored (suc fuel) h p t lo hi f r =
      let q = p / 2 in
      elim (dec_lt 1 p) [
        | no root ↦
            let top : p / 2 ≡ 0 = omega arith in
            record {
              requests = h;
              ran = bubble_up-stop fuel h (at p) (at q) (t.parent p lo hi) (inl (rw top t.above));
              swaps = done;
              ordered = Rising-stop h p r (λ l. absurd (root l));
            }
        | yes more ↦ elim (dec_lt (h (at p)).deadline_ns (h (at q)).deadline_ns) [
          | no fine ↦ record {
            requests = h;
            ran = bubble_up-stop fuel h (at p) (at q) (t.parent p lo hi) (inr (omega arith));
            swaps = done;
            ordered = Rising-stop h p r (λ _. omega arith);
          }
          | yes less ↦
              let half : q < 2 ^ fuel = omega (arith, pow-suc 2 fuel) in
              let inn : at q ≢ null = t.inside q (omega arith) (omega arith) in
              let rest =
                bubble_up-Restored fuel (swap h (at p) (at q)) q
                  (SameLinks-Layout (swap-SameLinks h (at p) (at q)) t) (omega arith) (omega arith)
                  half (Rising-swap t p more hi r less) in
              swapped p q lo hi (omega arith) (omega arith)
                (bubble_up-more fuel h (at p) (at q) (t.parent p lo hi) inn less) rest
        ]
      ]

  Sinking-stop :
      {h : Ptr → Request} (t : Layout h at size) (p : ℕ)
      → Sinking at size h p
      → Pick t p p
      → Ordered h at size
  Sinking-stop t p k picked q q0 q1 = elim (Bool-cases (q / 2 == p)) [
    | inl e ↦ let e' : q / 2 ≡ p = (==_iff (q / 2) p).0 e in rw e' (Pick-child t p p q picked e' q1)
    | inr ne ↦ k.others q q0 q1 (ground arith)
  ]

  -- For a heap laid out in positions 1 to `size` that is ordered but perhaps below position `p`,
  -- `timer_heap_bubble_down` from there ends within any fuel with `size < p * 2 ^ fuel`; it only
  -- swaps requests of the heap and leaves the whole heap ordered.
  pub bubble_down-Restored :
      (fuel : ℕ) (h : Ptr → Request) (p : ℕ)
      → Layout h at size
      → 0 < p
      → p ≤ size
      → size < p * 2 ^ fuel
      → Sinking at size h p
      → Restored at size h (bubble_down fuel (at p) h)
  bubble_down-Restored zero h p t lo hi f k = absurd (omega arith)
  bubble_down-Restored (suc fuel) h p t lo hi f k =
      let (s, e, picked) = pick t p lo hi in
      elim (Bool-cases (s == p)) [
        | inl same ↦
            let same' : s ≡ p = (==_iff s p).0 same in
            record {
              requests = h;
              ran = bubble_down-stop fuel h (at p) (at s) e (ap at same');
              swaps = done;
              ordered = Sinking-stop t p k (subst (λ c. Pick t p c) same' picked);
            }
        | inr other ↦
            let ne : s ≢ p = ground arith in
            let s0 : 0 < s = ground (arith, picked.near) in
            let far : size < s * 2 ^ fuel = deeper size p s fuel (ground (arith, picked.near)) f in
            let rest =
              bubble_down-Restored fuel (swap h (at p) (at s)) s
                (SameLinks-Layout (swap-SameLinks h (at p) (at s)) t) s0 picked.inside far
                (Sinking-swap t p s lo hi k picked ne) in
            swapped p s lo hi s0 picked.inside
              (bubble_down-more fuel h (at p) (at s) e
                (λ same. ne (t.distinct s p s0 picked.inside lo hi same)))
              rest
      ]
