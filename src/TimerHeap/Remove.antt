-- ===== src/TimerHeap/Remove.antt =====
-- `timer_heap_extract_min` and `timer_heap_delete` of kernel/timer_heap.c exchange a request's payload
-- with that of the last request, unlink the last one, and put the rest back into order.
use picokernel.Prelude.{
  ℕ, ◌+◌, ◌/◌, ◌^◌, ◌≤◌, ◌<◌, ◌≡◌, refl, ◌∙◌, ap, sym, subst, arith, ◌==◌, if◌then◌else◌, ne→==,
  false, Option, some,
}
use picokernel.State.{Ptr, null, Request, Kernel, dec_size}
use picokernel.TimerHeap.{
  max_depth, swap, unlink_last, find_last, bubble_up, bubble_down, with_requests, extract_min,
}
use picokernel.TimerHeap.Swap.{swap-SameLinks, swap_right, swap_other}
use picokernel.TimerHeap.Layout.{Layout, SameLinks-Layout, swap-at, navigate-at}
use picokernel.TimerHeap.Order.{Rising, Sinking, Swaps, done, step, Swaps-SameLinks}
use picokernel.TimerHeap.Bubble.{Restored, bubble_up-Restored, bubble_down-Restored}
use picokernel.TimerHeap.Link.{SamePayloads, placed, placed_old, Outside}
use picokernel.TimerHeap.Insert.{IsHeap}
use picokernel.TimerHeap.Unlink.{unlink_last-SamePayloads, unlink-Layout}

pub root_position : 0 < 1
root_position = omega arith

-- Swaps leave the requests outside of the heap alone.
Swaps-elsewhere :
    {at : ℕ → Ptr} {size : ℕ} {g h : Ptr → Request} (a : Ptr)
    → Outside at size a
    → Swaps at size g h
    → g a ≡ h a
Swaps-elsewhere a out done = refl
Swaps-elsewhere a out (step {h} p q p0 p1 q0 q1 s) =
    Swaps-elsewhere a out s
    ∙ swap_other h _ _ a (λ e. out p p0 p1 (sym e)) (λ e. out q q0 q1 (sym e))

module _ {k : Kernel} {at : ℕ → Ptr} (v : IsHeap k at) (m : ℕ) (size : k.timer_heap_size ≡ m + 1)
    (pos : 0 < m) (small : m + 1 < 2 ^ 63) where
  pub whole : Layout k.requests at (m + 1)
  whole = subst (Layout k.requests at) size v.layout

  before :
      (q : ℕ)
      → 1 < q
      → q ≤ m + 1
      → (k.requests (at (q / 2))).deadline_ns ≤ (k.requests (at q)).deadline_ns
  before q lo hi = v.ordered q lo (omega arith)

  abbrev pub last : Ptr
  last = at (m + 1)

  pub find_last-at : find_last k ≡ last
  unfolding find_last
  find_last-at =
      let some_there : (m + 1 == 0) ≡ false = ground arith in
      rw (size, some_there)
        (navigate-at whole (m + 2) k.timer_heap_root (m + 1) v.root (omega arith) (omega arith)
          (omega arith))

  module _ (p : ℕ) (lo : 0 < p) (hi : p ≤ m) where
    abbrev swapped : Ptr → Request
    swapped = swap k.requests (at p) last

    abbrev pub exchanged : Ptr → Request
    exchanged = unlink_last swapped last

    swapped-Layout : Layout swapped at (m + 1)
    swapped-Layout = SameLinks-Layout (swap-SameLinks k.requests (at p) last) whole

    pub exchanged-Layout : Layout exchanged (placed at (m + 1) null) m
    exchanged-Layout = unlink-Layout swapped-Layout pos

    pub exchanged-at :
        (c : ℕ)
        → 0 < c
        → c ≤ m
        → (exchanged (placed at (m + 1) null c)).deadline_ns
          ≡ (if c == p then (k.requests last).deadline_ns else (k.requests (at c)).deadline_ns)
    exchanged-at c c0 c1 =
        let other : (c == m + 1) ≡ false = ground arith in
        rw (placed_old at (m + 1) null c (omega arith)) (
          (unlink_last-SamePayloads swapped last).deadline (at c)
          ∙ rw
              (
                swap-at whole p (m + 1) c lo (omega arith) (omega arith) (omega arith) c0
                    (omega arith),
                other,
              )
              refl)

    exchanged-Sinking :
        (1 < p → (k.requests (at (p / 2))).deadline_ns ≤ (k.requests last).deadline_ns)
        → Sinking (placed at (m + 1) null) m exchanged p
    exchanged-Sinking top = record {
      others = λ q q0 q1 ne.
          rw (exchanged-at q (omega arith) q1, exchanged-at (q / 2) (omega arith) (omega arith))
            (ground (arith, before q q0 (omega arith), top));
      across = λ q p0 q1 e.
          rw (exchanged-at q (omega arith) q1, exchanged-at (p / 2) (omega arith) (omega arith))
            (ground (arith, before q (omega arith) (omega arith), before p p0 (omega arith)));
    }

    exchanged-Rising :
        1 < p
        → (k.requests last).deadline_ns < (k.requests (at (p / 2))).deadline_ns
        → Rising (placed at (m + 1) null) m exchanged p
    exchanged-Rising p0 less = record {
      others = λ q q0 q1 ne.
          rw (exchanged-at q (omega arith) q1, exchanged-at (q / 2) (omega arith) (omega arith))
            (ground (arith, before q q0 (omega arith), before p p0 (omega arith)));
      across = λ q _ q1 e.
          rw (exchanged-at q (omega arith) q1, exchanged-at (p / 2) (omega arith) (omega arith))
            (ground (arith, before q (omega arith) (omega arith), before p p0 (omega arith)));
    }

    -- The heap is one position shorter, its payloads are those of before with the last one at
    -- position `p`, swapped into order; the request that stood last holds the payload of position `p`.
    pub record Removed (k' : Kernel) : Type 0 where
      pub heap : IsHeap k' (placed at (m + 1) null)
      pub shrunk : k'.timer_heap_size ≡ m
      pub unlinked : Ptr → Request
      pub payloads : SamePayloads swapped unlinked
      pub swaps : Swaps (placed at (m + 1) null) m k'.requests unlinked
      pub taken_work : (k'.requests last).work ≡ (k.requests (at p)).work
      pub taken_deadline : (k'.requests last).deadline_ns ≡ (k.requests (at p)).deadline_ns

    abbrev pub after : Kernel
    after = record k { requests = exchanged; timer_heap_size = m }

    last-Outside : Outside (placed at (m + 1) null) m last
    last-Outside c c0 c1 e =
        let same =
          whole.distinct c (m + 1) c0 (omega arith) (omega arith) (omega arith)
            (sym (placed_old at (m + 1) null c (omega arith)) ∙ e) in
        absurd (omega (arith, same))

    pub restored :
        (run : Option (Ptr → Request))
        → Restored (placed at (m + 1) null) m exchanged run
        → (k' : Kernel) × (with_requests after run ≡ some k') × Removed k'
    restored run r =
        let same = unlink_last-SamePayloads swapped last in
        let kept = Swaps-elsewhere last last-Outside r.swaps in
        let mine = swap_right k.requests (at p) last in
        (
          record after { requests = r.requests },
          ap (with_requests after) r.ran,
          record {
            heap = record {
              root = placed_old at (m + 1) null 1 (omega arith) ∙ v.root;
              layout = SameLinks-Layout (Swaps-SameLinks r.swaps) exchanged-Layout;
              ordered = r.ordered;
            };
            shrunk = refl;
            unlinked = exchanged;
            payloads = same;
            swaps = r.swaps;
            taken_work = ap (λ x. x.work) kept ∙ same.work last ∙ ap (λ x. x.work) mine;
            taken_deadline =
                ap (λ x. x.deadline_ns) kept ∙ same.deadline last ∙ ap (λ x. x.deadline_ns) mine;
          },
        )

    pub down :
        (1 < p → (k.requests (at (p / 2))).deadline_ns ≤ (k.requests last).deadline_ns)
        → Restored (placed at (m + 1) null) m exchanged (bubble_down max_depth (at p) exchanged)
    down top =
        let r =
          bubble_down-Restored 64 exchanged p exchanged-Layout lo hi (omega arith)
            (exchanged-Sinking top) in
        subst
          (λ a. Restored (placed at (m + 1) null) m exchanged (bubble_down max_depth a exchanged))
          (placed_old at (m + 1) null p (omega arith)) r

    pub up :
        1 < p
        → (k.requests last).deadline_ns < (k.requests (at (p / 2))).deadline_ns
        → Restored (placed at (m + 1) null) m exchanged (bubble_up max_depth (at p) exchanged)
    up p0 less =
        let r =
          bubble_up-Restored 64 exchanged p exchanged-Layout lo hi (omega arith)
            (exchanged-Rising p0 less) in
        subst (λ a. Restored (placed at (m + 1) null) m exchanged (bubble_up max_depth a exchanged))
          (placed_old at (m + 1) null p (omega arith)) r

  pub here : (p : ℕ) → 0 < p → p ≤ m + 1 → (at p == null) ≡ false
  here p lo hi = ne→== (at p) null (whole.inside p lo hi)

  -- What `timer_heap_extract_min` computes with the root `r`.
  abbrev Ends : Ptr → Kernel → Type 0
  Ends r k' =
      let h = unlink_last (swap k.requests r last) last in
      with_requests (record k { requests = h; timer_heap_size = m }) (bubble_down max_depth r h)
      ≡ some k'

  extract_min_run :
      (k' : Kernel) → Ends k.timer_heap_root k' → extract_min k ≡ some (k.timer_heap_root, k')
  unfolding extract_min
  extract_min_run k' e =
      let alone : (m + 1 == 1) ≡ false = ground arith in
      let less : dec_size (m + 1) ≡ m = omega arith in
      let root : (k.timer_heap_root == null) ≡ false =
        rw (← v.root) (here 1 (omega arith) (omega arith)) in
      rw
        (
          extract_min,
          find_last-at,
          size,
          root,
          alone,
          less,
          here (m + 1) (omega arith) (omega arith),
          e,
        )
        refl

  -- For an ordered heap of two to 2 ^ 63 - 2 requests, `timer_heap_extract_min` ends and the heap is
  -- then an ordered heap of one request less, whose payloads are those of before without the
  -- earliest. But the request that leaves the heap, with that payload, is the one that stood last;
  -- the pointer returned is the root, which stays the root.
  pub extract_min-IsHeap :
      (k' : Kernel) × (extract_min k ≡ some (k.timer_heap_root, k'))
      × Removed 1 root_position pos k'
      × (k'.timer_heap_root ≡ k.timer_heap_root)
  extract_min-IsHeap =
      let (k', e, r) =
        restored 1 root_position pos (bubble_down max_depth (at 1) (exchanged 1 root_position pos))
          (down 1 root_position pos (λ l. absurd (omega arith))) in
      (
        k',
        extract_min_run k' (subst (λ a. Ends a k') v.root e),
        r,
        sym r.heap.root ∙ placed_old at (m + 1) null 1 (omega arith) ∙ v.root,
      )
