-- ===== src/TimerHeap/Insert.antt =====
-- `timer_heap_insert` of kernel/timer_heap.c adds a request to the heap.
use picokernel.Prelude.{
  ℕ, ◌+◌, ◌/◌, ◌%◌, ◌^◌, ◌≤◌, ◌<◌, ◌≡◌, refl, ◌≢◌, ◌∙◌, ap, sym, subst, arith, inl, inr, Bool,
  Bool-cases, ◌==◌, if◌then◌else◌, ne→==, true, false, ==_iff, some, ltb, leb,
}
use picokernel.State.{Ptr, null, Request, Kernel, inc_size}
use picokernel.TimerHeap.{
  max_depth, navigate, find_parent, root_slot, left_slot, right_slot, find_insertion_slot,
  with_requests, bubble_up, insert,
}
use picokernel.TimerHeap.Layout.{Layout, Ordered, navigate-at, SameLinks-Layout}
use picokernel.TimerHeap.Order.{Swaps, Rising, Swaps-SameLinks}
use picokernel.TimerHeap.Bubble.{bubble_up-Restored}
use picokernel.TimerHeap.Link.{
  SamePayloads, navigate_same, cleared, hung, linked, linked-SamePayloads, placed, placed_new,
  placed_old, Outside, cleared-Layout, Linked, next-Layout,
}
use picokernel.TimerHeap.Grown.{first-Linked, more-Linked}

-- The kernel's timer heap is an ordered heap whose position p holds the request `at p`.
pub record IsHeap (k : Kernel) (at : ℕ → Ptr) : Type 0 where
  pub root : at 1 ≡ k.timer_heap_root
  pub layout : Layout k.requests at k.timer_heap_size
  pub ordered : Ordered k.requests at k.timer_heap_size

module _ {k : Kernel} {at : ℕ → Ptr} (v : IsHeap k at) (timer : Ptr) (there : timer ≢ null)
    (new : Outside at k.timer_heap_size timer) (small : k.timer_heap_size + 1 < 2 ^ 63) where
  abbrev size : ℕ
  size = k.timer_heap_size

  abbrev k₁ : Kernel
  k₁ = record k { requests = cleared k.requests timer }

  slot_first : size ≡ 0 → find_insertion_slot k₁ ≡ some root_slot
  unfolding find_insertion_slot
  slot_first e = rw e refl

  abbrev up : Ptr
  up = at ((size + 1) / 2)

  inc : inc_size size ≡ size + 1
  inc = omega arith

  parent_next :
      (h : Ptr → Request)
      → 0 < size
      → navigate h k.timer_heap_root ((size + 1) / 2) ≡ up
      → find_parent h k.timer_heap_root (inc_size size) ≡ up
  unfolding find_parent
  parent_next h pos e = let more : leb (size + 1) 1 ≡ false = ground arith in rw (inc, more) e

  parent_before :
      0 < size → find_parent (cleared k.requests timer) k.timer_heap_root (inc_size size) ≡ up
  parent_before pos = parent_next (cleared k.requests timer) pos (
      navigate-at (cleared-Layout v.layout timer there new) (size + 2) k.timer_heap_root
        ((size + 1) / 2) v.root (omega arith) (omega arith) (omega arith))

  abbrev even_next : Bool
  even_next = (size + 1) % 2 == 0

  slot_more :
      0 < size
      → find_insertion_slot k₁ ≡ (if even_next then some (left_slot up) else some (right_slot up))
  unfolding find_insertion_slot
  slot_more pos =
      let more : (size + 1 == 1) ≡ false = ground arith in
      let here : (up == null) ≡ false =
        ne→== up null (v.layout.inside ((size + 1) / 2) (omega arith) (omega arith)) in
      rw (parent_before pos, inc, more, here) refl

  abbrev g : Ptr → Request
  g = linked k.requests timer up even_next

  parent_after :
      0 < size
      → find_parent (hung k.requests timer up even_next) k.timer_heap_root (inc_size size) ≡ up
  unfolding linked
  parent_after pos =
      let found =
        navigate-at
          (next-Layout v.layout timer there new (more-Linked v.layout timer there new pos))
          (size + 2) k.timer_heap_root ((size + 1) / 2)
          (placed_old at (size + 1) timer 1 (omega arith) ∙ v.root) (omega arith) (omega arith)
          (omega arith) in
      parent_next (hung k.requests timer up even_next) pos (
        navigate_same g (hung k.requests timer up even_next) k.timer_heap_root ((size + 1) / 2)
          (λ a. ground arith) (λ a. ground arith)
        ∙ found
        ∙ placed_old at (size + 1) timer ((size + 1) / 2) (omega arith))

  insert_first :
      size ≡ 0
      → insert k timer
        ≡ with_requests
            (record k {
              requests = cleared k.requests timer;
              timer_heap_root = timer;
              timer_heap_size = size + 1;
            })
            (bubble_up max_depth timer (cleared k.requests timer))
  unfolding insert
  insert_first e = rw (insert, slot_first e, e) refl

  insert_more :
      0 < size
      → insert k timer
        ≡ with_requests
            (record k { requests = g; timer_heap_size = size + 1 })
            (bubble_up max_depth timer g)
  unfolding insert linked
  insert_more pos =
      let full : ltb 0 size ≡ true = ground arith in
      elim (Bool-cases even_next) [
        | inl e ↦
            let after : find_parent (hung k.requests timer up true) k.timer_heap_root
                  (inc_size size)
                ≡ up =
              subst
                (λ b.
                  find_parent (hung k.requests timer up b) k.timer_heap_root (inc_size size) ≡ up)
                e (parent_after pos) in
            rw (insert, slot_more pos, e, full, after, inc) refl
        | inr e ↦
            let after : find_parent (hung k.requests timer up false) k.timer_heap_root
                  (inc_size size)
                ≡ up =
              subst
                (λ b.
                  find_parent (hung k.requests timer up b) k.timer_heap_root (inc_size size) ≡ up)
                e (parent_after pos) in
            rw (insert, slot_more pos, e, full, after, inc) refl
      ]

  abbrev next_at : ℕ → Ptr
  next_at = placed at (size + 1) timer

  -- The request comes last, and the requests are then swapped into order.
  pub record Inserted (k' : Kernel) : Type 0 where
    pub heap : IsHeap k' next_at
    pub grown : k'.timer_heap_size ≡ size + 1
    pub linked_in : Ptr → Request
    pub payloads : SamePayloads k.requests linked_in
    pub swaps : Swaps next_at (size + 1) k'.requests linked_in

  -- In the linked requests only the last one may be out of order.
  last-Rising :
      (g : Ptr → Request) → SamePayloads k.requests g → Rising next_at (size + 1) g (size + 1)
  last-Rising g same = record {
    others = λ q q0 q1 ne.
        let le : q ≤ size = omega arith in
        rw
          (
            same.deadline (next_at (q / 2)),
            same.deadline (next_at q),
            placed_old at (size + 1) timer q ne,
            placed_old at (size + 1) timer (q / 2) (omega arith),
          )
          (v.ordered q q0 le);
    across = λ q lo q1 e. absurd (omega arith);
  }

  finish :
      (g : Ptr → Request) (root : Ptr)
      → Linked v.layout timer there new g
      → SamePayloads k.requests g
      → next_at 1 ≡ root
      → insert k timer
        ≡ with_requests
            (record k { requests = g; timer_heap_root = root; timer_heap_size = size + 1 })
            (bubble_up max_depth timer g)
      → (k' : Kernel) × (insert k timer ≡ some k') × Inserted k'
  finish g root l same at_root e =
      let layout = next-Layout v.layout timer there new l in
      let r =
        bubble_up-Restored 64 g (size + 1) layout (omega arith) (omega arith) (omega arith)
          (last-Rising g same) in
      let k₂ = record k { requests = g; timer_heap_root = root; timer_heap_size = size + 1 } in
      let ran : bubble_up max_depth timer g ≡ some r.requests =
        rw (← placed_new at (size + 1) timer) r.ran in
      (
        record k₂ { requests = r.requests },
        e ∙ ap (with_requests k₂) ran,
        record {
          heap = record {
            root = at_root;
            layout = (SameLinks-Layout (Swaps-SameLinks r.swaps) layout);
            ordered = r.ordered;
          };
          grown = refl;
          linked_in = g;
          payloads = same;
          swaps = r.swaps;
        },
      )

  cleared-SamePayloads : SamePayloads k.requests (cleared k.requests timer)
  cleared-SamePayloads = record { work = λ a. ground arith; deadline = λ a. ground arith }

  -- For an ordered heap of at most 2 ^ 63 - 2 requests and a request that is none of them,
  -- `timer_heap_insert` ends, and the heap is then an ordered heap of one request more: the new
  -- request stands at the next position, the others stay where they are, and their deadlines and
  -- work items are those from before, swapped within the heap.
  pub insert-IsHeap : (k' : Kernel) × (insert k timer ≡ some k') × Inserted k'
  insert-IsHeap = elim (Bool-cases (size == 0)) [
    | inl e ↦
        let e' : size ≡ 0 = (==_iff size 0).0 e in
        finish (cleared k.requests timer) timer (first-Linked v.layout timer there new e')
          cleared-SamePayloads (ap (λ n. placed at (n + 1) timer 1) e' ∙ placed_new at 1 timer)
          (insert_first e')
    | inr more ↦
        let pos : 0 < size = ground arith in
        let apart : timer ≢ up = λ e. new ((size + 1) / 2) (omega arith) (omega arith) (sym e) in
        finish g k.timer_heap_root (more-Linked v.layout timer there new pos)
          (linked-SamePayloads k.requests timer up even_next apart)
          (placed_old at (size + 1) timer 1 (omega arith) ∙ v.root) (insert_more pos)
  ]
