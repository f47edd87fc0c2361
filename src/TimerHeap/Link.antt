-- ===== src/TimerHeap/Link.antt =====
-- The pointers that `timer_heap_insert` of kernel/timer_heap.c sets: the tree with a request more.
use picokernel.Prelude.{
  ℕ, zero, suc, ◌+◌, ◌*◌, ◌/◌, ◌≤◌, ◌<◌, ◌≡◌, refl, ◌≢◌, ◌∙◌, sym, arith, inl, inr, Bool,
  Bool-cases, ◌==◌, if◌then◌else◌, ==_refl, ne→==, ==_iff, update,
}
use picokernel.State.{Ptr, null, Request}
use picokernel.TimerHeap.{max_depth, descend, navigate, msb_loop}
use picokernel.TimerHeap.Layout.{Layout}

-- Each request has the deadline and the work item that it had.
pub record SamePayloads (h g : Ptr → Request) : Type 0 where
  pub work : (a : Ptr) → (g a).work ≡ (h a).work
  pub deadline : (a : Ptr) → (g a).deadline_ns ≡ (h a).deadline_ns

-- Navigation reads the pointers to children only.
descend_same :
    (h g : Ptr → Request) (n p : ℕ) (c : Ptr)
    → ((a : Ptr) → (g a).left ≡ (h a).left)
    → ((a : Ptr) → (g a).right ≡ (h a).right)
    → descend g n p c ≡ descend h n p c
unfolding descend
descend_same h g zero p c l r = refl
descend_same h g (suc n) p c l r =
    ground
      (arith, l c, r c, descend_same h g n p (h c).left l r, descend_same h g n p (h c).right l r)

pub navigate_same :
    (h g : Ptr → Request) (root : Ptr) (p : ℕ)
    → ((a : Ptr) → (g a).left ≡ (h a).left)
    → ((a : Ptr) → (g a).right ≡ (h a).right)
    → navigate g root p ≡ navigate h root p
unfolding navigate
navigate_same h g root p l r = rw (descend_same h g (msb_loop max_depth p 0) p root l r)

-- `timer`, its pointers set to NULL.
abbrev pub cleared : (Ptr → Request) → Ptr → Ptr → Request
cleared h timer = update h timer (record (h timer) { parent = null; left = null; right = null })

-- The parent's pointer set, to the left child or to the right one.
abbrev pub hung : (Ptr → Request) → Ptr → Ptr → Bool → Ptr → Request
hung h timer parent even =
    let g = cleared h timer in
    update g parent
      (if even then record (g parent) { left = timer } else record (g parent) { right = timer })

-- And the pointer back.
unfoldable pub linked : (Ptr → Request) → Ptr → Ptr → Bool → Ptr → Request
linked h timer parent even =
    let g = hung h timer parent even in update g timer (record (g timer) { parent = parent })

module _ (h : Ptr → Request) (timer parent : Ptr) (even : Bool) (ne : timer ≢ parent) where
  pub linked_end :
      linked h timer parent even timer
      ≡ record (h timer) { parent = parent; left = null; right = null }
  unfolding linked
  linked_end = rw (==_refl timer, ne→== timer parent ne) refl

  pub linked_parent :
      linked h timer parent even parent
      ≡ (if even then record (h parent) { left = timer } else record (h parent) { right = timer })
  unfolding linked
  linked_parent = rw (ne→== parent timer (λ e. ne (sym e)), ==_refl parent) refl

  pub linked_other : (a : Ptr) → a ≢ timer → a ≢ parent → linked h timer parent even a ≡ h a
  unfolding linked
  linked_other a nt np = rw (ne→== a timer nt, ne→== a parent np) refl

  pub linked-SamePayloads : SamePayloads h (linked h timer parent even)
  unfolding linked
  linked-SamePayloads = record { work = λ a. ground arith; deadline = λ a. ground arith }

-- The positions with `timer` placed at the next one.
unfoldable pub placed : (ℕ → Ptr) → ℕ → Ptr → ℕ → Ptr
placed at n timer = update at n timer

pub placed_new : (at : ℕ → Ptr) (n : ℕ) (timer : Ptr) → placed at n timer n ≡ timer
unfolding placed
placed_new at n timer = rw (==_refl n) refl

pub placed_old : (at : ℕ → Ptr) (n : ℕ) (timer : Ptr) (p : ℕ) → p ≢ n → placed at n timer p ≡ at p
unfolding placed
placed_old at n timer p ne = rw (ne→== p n ne) refl

-- The request is none of the heap's.
abbrev pub Outside : (ℕ → Ptr) → ℕ → Ptr → Type 0
Outside at size timer = (p : ℕ) → 0 < p → p ≤ size → at p ≢ timer

module _ {h : Ptr → Request} {at : ℕ → Ptr} {size : ℕ} (t : Layout h at size) (timer : Ptr)
    (there : timer ≢ null) (new : Outside at size timer) where
  pub cleared-Layout : Layout (cleared h timer) at size
  cleared-Layout = record {
    inside = t.inside;
    above = t.above;
    outside = t.outside;
    left = λ p lo hi. rw (ne→== (at p) timer (new p lo hi)) (t.left p lo hi);
    right = λ p lo hi. rw (ne→== (at p) timer (new p lo hi)) (t.right p lo hi);
    parent = λ p lo hi. rw (ne→== (at p) timer (new p lo hi)) (t.parent p lo hi);
    distinct = t.distinct;
  }

  -- `g` is the heap's requests with `timer` linked in at the next position.
  pub record Linked (g : Ptr → Request) : Type 0 where
    pub last :
        g timer ≡ record (h timer) { parent = at ((size + 1) / 2); left = null; right = null }
    pub others_parent : (p : ℕ) → 0 < p → p ≤ size → (g (at p)).parent ≡ (h (at p)).parent
    pub others_left :
        (p : ℕ)
        → 0 < p
        → p ≤ size
        → (g (at p)).left ≡ (if 2 * p == size + 1 then timer else (h (at p)).left)
    pub others_right :
        (p : ℕ)
        → 0 < p
        → p ≤ size
        → (g (at p)).right ≡ (if 2 * p + 1 == size + 1 then timer else (h (at p)).right)

  module _ {g : Ptr → Request} (l : Linked g) where
    abbrev n : ℕ
    n = size + 1

    old : (p : ℕ) → p ≢ n → placed at n timer p ≡ at p
    old = placed_old at n timer

    placed_if : (p : ℕ) → placed at n timer p ≡ (if p == n then timer else at p)
    unfolding placed
    placed_if p = refl

    next_distinct :
        (p q : ℕ)
        → 0 < p
        → p ≤ n
        → 0 < q
        → q ≤ n
        → placed at n timer p ≡ placed at n timer q
        → p ≡ q
    next_distinct p q p0 p1 q0 q1 e =
        ground (arith, placed_if p, placed_if q, t.distinct p q, new p, new q)

    -- Below the new position there is nothing.
    leaf : (p : ℕ) → n < p → null ≡ placed at n timer p
    leaf p lt = sym (old p (omega arith) ∙ t.outside p (omega arith))

    next-left : (p : ℕ) → 0 < p → p ≤ n → (g (placed at n timer p)).left ≡ placed at n timer (2 * p)
    next-left p lo hi = elim (Bool-cases (p == n)) [
      | inl e ↦
          let e' : p ≡ n = (==_iff p n).0 e in
          rw (e', placed_new at n timer, l.last) (leaf (2 * n) (omega arith))
      | inr other ↦
          let le : p ≤ size = ground arith in
          rw (old p (omega arith), l.others_left p lo le)
            (rw (t.left p lo le) (sym (placed_if (2 * p))))
    ]

    next-right :
        (p : ℕ) → 0 < p → p ≤ n → (g (placed at n timer p)).right ≡ placed at n timer (2 * p + 1)
    next-right p lo hi = elim (Bool-cases (p == n)) [
      | inl e ↦
          let e' : p ≡ n = (==_iff p n).0 e in
          rw (e', placed_new at n timer, l.last) (leaf (2 * n + 1) (omega arith))
      | inr other ↦
          let le : p ≤ size = ground arith in
          rw (old p (omega arith), l.others_right p lo le)
            (rw (t.right p lo le) (sym (placed_if (2 * p + 1))))
    ]

    next-parent :
        (p : ℕ) → 0 < p → p ≤ n → (g (placed at n timer p)).parent ≡ placed at n timer (p / 2)
    next-parent p lo hi = elim (Bool-cases (p == n)) [
      | inl e ↦
          let e' : p ≡ n = (==_iff p n).0 e in
          rw (e', placed_new at n timer, l.last) (sym (old (n / 2) (omega arith)))
      | inr other ↦
          let le : p ≤ size = ground arith in
          rw (old p (omega arith), l.others_parent p lo le)
            (t.parent p lo le ∙ sym (old (p / 2) (omega arith)))
    ]

    pub next-Layout : Layout g (placed at n timer) n
    next-Layout = record {
      inside = λ p lo hi. elim (Bool-cases (p == n)) [
        | inl e ↦ rw (placed_if p, e) there
        | inr other ↦ rw (placed_if p, other) (t.inside p lo (ground arith))
      ];
      above = old 0 (omega arith) ∙ t.above;
      outside = λ p out. old p (omega arith) ∙ t.outside p (omega arith);
      left = next-left;
      right = next-right;
      parent = next-parent;
      distinct = next_distinct;
    }
