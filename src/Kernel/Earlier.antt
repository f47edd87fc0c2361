-- ===== src/Kernel/Earlier.antt =====
-- `ksubmit` (kernel/kernel.c) of a timer that is due before the only one in the heap.
use picokernel.Prelude.{
  ◌<◌, ◌≡◌, ◌≢◌, refl, sym, ap, ◌∙◌, true, false, arith, inl, ◌==◌, ne→==, ==_refl, some,
}
use picokernel.State.{Ptr, null, Kerr, WorkState, op_timer, Request, Kernel, work_at, set_work}
use picokernel.TimerHeap
use picokernel.TimerHeap.{
  max_depth, navigate, find_parent, find_insertion_slot, left_slot, swap, bubble_up,
}
use picokernel.TimerHeap.Bubble.{bubble_up-more, bubble_up-stop}
use picokernel.TimerHeap.Link.{cleared, hung, linked, linked_end, linked_parent}
use picokernel.TimerHeap.Swap.{swap_left, swap_right}
use picokernel.Kernel.{is_dead, submit}

module _ (k : Kernel) (a b : Ptr) (root : k.timer_heap_root ≡ a) (size : k.timer_heap_size ≡ 1)
    (a_there : a ≢ null) (b_there : b ≢ null) (apart : b ≢ a) (top : (k.requests a).parent ≡ null)
    (earlier : (k.requests b).deadline_ns < (k.requests a).deadline_ns) where
  second_parent : (h : Ptr → Request) → find_parent h a 2 ≡ a
  unfolding find_parent navigate
  second_parent h = ground arith

  slot : (h : Ptr → Request) → find_insertion_slot (record k { requests = h }) ≡ some (left_slot a)
  unfolding find_insertion_slot
  slot h = rw (find_insertion_slot, size, root, second_parent h, ne→== a null a_there) refl

  abbrev g : Ptr → Request
  g = linked k.requests b a true

  rises : bubble_up max_depth b g ≡ some (swap g b a)
  rises =
      let at_b = linked_end k.requests b a true apart in
      let at_a = linked_parent k.requests b a true apart in
      let less : (g b).deadline_ns < (g a).deadline_ns = rw (at_b, at_a) earlier in
      bubble_up-more 63 g b a (ap (λ r. r.parent) at_b) a_there less
      ∙ bubble_up-stop 62 (swap g b a) a null
          (ap (λ r. r.parent) (swap_right g b a) ∙ ap (λ r. r.parent) at_a ∙ top) (inl refl)

  insert_earlier :
      TimerHeap.insert k b ≡ some (record k { requests = swap g b a; timer_heap_size = 2 })
  unfolding linked TimerHeap.insert
  insert_earlier =
      rw
        (
          TimerHeap.insert,
          slot (cleared k.requests b),
          size,
          root,
          second_parent (hung k.requests b a true),
          rises,
        )
        refl

-- For a dead timer `b` with a callback that is due before the only timer `a` in the heap, `ksubmit`
-- returns KERR_OK; but it marks as LIVE the request `b`, which by then holds the work item of `a`,
-- while the work item that was submitted stands in the request `a`, in state SUBMIT_REQUESTED.
pub submit_earlier_wrong :
    (k : Kernel) (a b : Ptr)
    → k.timer_heap_root ≡ a
    → k.timer_heap_size ≡ 1
    → a ≢ null
    → b ≢ null
    → b ≢ a
    → (k.requests a).parent ≡ null
    → (k.requests b).deadline_ns < (k.requests a).deadline_ns
    → (work_at k b).op ≡ op_timer
    → (work_at k b).state ≡ WorkState.dead
    → (work_at k b).callback ≢ 0
    → (k' : Kernel) × (submit k b ≡ some (Kerr.ok, k'))
      × ((work_at k' a).callback ≡ (work_at k b).callback)
      × ((work_at k' a).state ≡ WorkState.submit_requested)
      × ((work_at k' b).callback ≡ (work_at k a).callback)
      × ((work_at k' b).state ≡ WorkState.live)
unfolding submit
submit_earlier_wrong k a b root size a_there b_there apart top earlier timer dead callback =
    let w = work_at k b in
    let k₁ = set_work k b (record w { state = WorkState.submit_requested; result = Kerr.ok }) in
    let other : (a == b) ≡ false = ne→== a b λ e. apart (sym e) in
    let same : k₁.requests a ≡ k.requests a = rw other refl in
    let g₁ = linked k₁.requests b a true in
    let top₁ : (k₁.requests a).parent ≡ null = rw other top in
    let earlier₁ : (k₁.requests b).deadline_ns < (k₁.requests a).deadline_ns =
      rw (other, ==_refl b) earlier in
    let inserted = insert_earlier k₁ a b root size a_there b_there apart top₁ earlier₁ in
    let at_b = linked_end k₁.requests b a true apart in
    let at_a = linked_parent k₁.requests b a true apart in
    let end_a = swap_right g₁ b a in
    let end_b = swap_left g₁ b a in
    let k₂ = record k₁ { requests = swap g₁ b a; timer_heap_size = 2 } in
    let is_timer : ((work_at k b).op == op_timer) ≡ true = rw timer refl in
    let was_dead : is_dead (work_at k b).state ≡ true = rw dead refl in
    let old = record w { state = WorkState.submit_requested; result = Kerr.ok } in
    let at_old : (swap g₁ b a a).work ≡ old =
      ap (λ r. r.work) end_a ∙ ap (λ r. r.work) at_b ∙ rw (==_refl b) refl in
    let at_new : (swap g₁ b a b).work ≡ (k.requests a).work =
      ap (λ r. r.work) end_b ∙ ap (λ r. r.work) at_a ∙ ap (λ r. r.work) same in
    (
      set_work k₂ b (record (work_at k₂ b) { state = WorkState.live }),
      rw
          (
            submit,
            ne→== b null b_there,
            ne→== (work_at k b).callback 0 callback,
            was_dead,
            is_timer,
            inserted,
          )
          refl,
      rw (work_at, other) (ap (λ v. v.callback) at_old),
      rw (work_at, other) (ap (λ v. v.state) at_old),
      rw (work_at, ==_refl b) (ap (λ v. v.callback) at_new),
      rw (work_at, ==_refl b) refl,
    )
