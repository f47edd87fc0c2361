-- ===== src/TimerHeap/Navigate.antt =====
-- `timer_heap_navigate` of kernel/timer_heap.c against the layout of a binary heap.
use native.Mathlib.Nat.{pow-suc, mul_comm, div-div-eq-div-mul}
use picokernel.Prelude.{
  ℕ, zero, suc, ◌+◌, ◌*◌, ◌/◌, ◌%◌, ◌^◌, ◌<◌, ◌≡◌, refl, ap, ◌∙◌, inl, inr, arith, ◌==◌,
  if◌then◌else◌, Bool-cases, sym,
}
use picokernel.State.{Ptr, null, Request}
use picokernel.TimerHeap.{max_depth, msb_loop, bit, child, descend, navigate}

-- Shifting a position left by one bit shifts its path.
bit-double : (i p b : ℕ) → b < 2 → bit (2 * p + b) (suc i) ≡ bit p i
bit-double i p b h =
    let halves : (2 * p + b) / 2 ≡ p = omega arith in
    let e : (2 * p + b) / 2 ^ suc i ≡ p / 2 ^ i =
      rw (pow-suc 2 i, mul_comm (2 ^ i) 2, ← div-div-eq-div-mul (2 * p + b) 2 (2 ^ i), halves) in
    ap (λ q. q % 2 == 1) e

bit-double_zero : (p b : ℕ) → b < 2 → bit (2 * p + b) 0 ≡ (b == 1)
bit-double_zero p b h = ap (λ q. q == 1) (omega arith)

msb_loop-shift : (fuel temp msb : ℕ) → msb_loop fuel temp (msb + 1) ≡ suc (msb_loop fuel temp msb)
unfolding msb_loop
msb_loop-shift zero temp msb = omega arith
msb_loop-shift (suc fuel) temp msb = ground (arith, msb_loop-shift fuel (temp / 2) (msb + 1))

-- With `temp` below `2 ^ fuel` one more round changes nothing.
msb_loop_enough :
    (fuel temp msb : ℕ) → temp < 2 ^ fuel → msb_loop (suc fuel) temp msb ≡ msb_loop fuel temp msb
unfolding msb_loop
msb_loop_enough zero temp msb h = ground arith
msb_loop_enough (suc fuel) temp msb h =
    let half : temp / 2 < 2 ^ fuel = omega (arith, pow-suc 2 fuel) in
    ground (arith, msb_loop_enough fuel (temp / 2) (msb + 1) half)

msb_loop-half :
    (fuel temp : ℕ) → 1 < temp → msb_loop (suc fuel) temp 0 ≡ msb_loop fuel (temp / 2) (0 + 1)
unfolding msb_loop
msb_loop-half fuel temp h = ground arith

-- A position one level further down has one bit more.
msb_loop-double :
    (fuel p b : ℕ)
    → b < 2
    → 0 < p
    → p < 2 ^ fuel
    → msb_loop (suc fuel) (2 * p + b) 0 ≡ suc (msb_loop (suc fuel) p 0)
msb_loop-double fuel p b lt pos small =
    let half : (2 * p + b) / 2 ≡ p = omega arith in
    msb_loop-half fuel (2 * p + b) (omega arith)
    ∙ ap (λ t. msb_loop fuel t (0 + 1)) half
    ∙ msb_loop-shift fuel p 0
    ∙ ap suc (sym (msb_loop_enough fuel p 0 small))

module _ (h : Ptr → Request) where
  -- The left child (0) or the right child (1) of a node, NULL of NULL.
  abbrev pub child_of : ℕ → Ptr → Ptr
  child_of b c = if c == null then null else child h (b == 1) c

  descend-null : (n position : ℕ) → descend h n position null ≡ null
  unfolding descend
  descend-null zero position = refl
  descend-null (suc n) position = refl

  descend-double :
      (n p b : ℕ) (current : Ptr)
      → b < 2
      → descend h (suc n) (2 * p + b) current ≡ child_of b (descend h n p current)
  unfolding descend
  descend-double zero p b current lt = ground (arith, bit-double_zero p b lt)
  descend-double (suc n) p b current lt = elim (Bool-cases (current == null)) [
    | inl e ↦ rw e (ground arith)
    | inr e ↦ rw e (rw (bit-double n p b lt) (descend-double n p b (child h (bit p n) current) lt))
  ]

  descend_one : (root : Ptr) (p : ℕ) → p ≡ 1 → descend h (msb_loop max_depth p 0) p root ≡ root
  unfolding descend msb_loop
  descend_one root p e = rw e

  navigate-descend :
      (root : Ptr) (p : ℕ) → 0 < p → navigate h root p ≡ descend h (msb_loop max_depth p 0) p root
  unfolding navigate
  navigate-descend root p pos =
      ground (arith, descend-null (msb_loop max_depth p 0) p, descend_one root p)

  navigate-child :
      (root : Ptr) (p b : ℕ)
      → b < 2
      → 0 < p
      → p < 2 ^ 63
      → navigate h root (2 * p + b) ≡ child_of b (navigate h root p)
  navigate-child root p b lt pos small =
      navigate-descend root (2 * p + b) (omega arith)
      ∙ ap (λ n. descend h n (2 * p + b) root) (msb_loop-double 63 p b lt pos small)
      ∙ descend-double (msb_loop max_depth p 0) p b root lt
      ∙ ap (child_of b) (sym (navigate-descend root p pos))

  -- For every position `p` from 1 to 2 ^ 63 - 1, `timer_heap_navigate` finds at `2 * p` the left
  -- child and at `2 * p + 1` the right child of what it finds at `p` (NULL below NULL); at 1 it
  -- finds the root.
  pub navigate-children :
      (root : Ptr) (p : ℕ)
      → 0 < p
      → p < 2 ^ 63
      → (navigate h root 1 ≡ root)
        × (navigate h root (2 * p) ≡ child_of 0 (navigate h root p))
        × (navigate h root (2 * p + 1) ≡ child_of 1 (navigate h root p))
  unfolding navigate
  navigate-children root p pos small = (
    ground arith,
    ap (navigate h root) (omega arith) ∙ navigate-child root p 0 (omega arith) pos small,
    navigate-child root p 1 (omega arith) pos small,
  )
