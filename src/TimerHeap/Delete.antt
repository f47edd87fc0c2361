-- ===== src/TimerHeap/Delete.antt =====
-- `timer_heap_delete` of kernel/timer_heap.c deletes a request in the middle of the heap.
use native.Mathlib.Decide.{dec_lt}
use picokernel.Prelude.{
  ℕ, ◌+◌, ◌/◌, ◌^◌, ◌≤◌, ◌<◌, ◌≡◌, refl, ◌∙◌, ap, sym, arith, Bool, ◌==◌, if◌then◌else◌, ==_refl,
  ne→==, false, some, ltb, lt→ltb, nlt→ltb, not, ◌&&◌,
}
use picokernel.State.{Ptr, null, Request, Kernel, dec_size}
use picokernel.TimerHeap.{max_depth, bubble_up, bubble_down, with_requests, delete}
use picokernel.TimerHeap.Link.{placed_old}
use picokernel.TimerHeap.Insert.{IsHeap}
use picokernel.TimerHeap.Remove.{
  whole, last, find_last-at, exchanged, exchanged-Layout, exchanged-at, after, here, up, down,
  restored, Removed,
}

module _ {k : Kernel} {at : ℕ → Ptr} (v : IsHeap k at) (m : ℕ) (size : k.timer_heap_size ≡ m + 1)
    (pos : 0 < m) (small : m + 1 < 2 ^ 63) where
  module _ (p : ℕ) (lo : 0 < p) (hi : p ≤ m) where
    abbrev g : Ptr → Request
    g = exchanged v m size pos small p lo hi

    -- Whether the payload that came to position `p` is due before the one above.
    rises : Bool
    rises =
        not ((g (at p)).parent == null)
        && ltb (g (at p)).deadline_ns (g (g (at p)).parent).deadline_ns

    delete_run :
        delete k (at p)
        ≡ with_requests
            (after v m size pos small p lo hi)
            (if rises then bubble_up max_depth (at p) g else bubble_down max_depth (at p) g)
    unfolding delete rises
    delete_run =
        let alone : (m + 1 == 1) ≡ false = ground arith in
        let none_there : (m + 1 == 0) ≡ false = ground arith in
        let less : dec_size (m + 1) ≡ m = omega arith in
        let other : (at p == last v m size pos small) ≡ false =
          ne→== (at p) (last v m size pos small) λ e. absurd (
            omega (
              arith,
              (whole v m size pos small).distinct p (m + 1) lo (omega arith) (omega arith)
                  (omega arith) e,
            )) in
        rw
          (
            delete,
            find_last-at v m size pos small,
            size,
            here v m size pos small p lo (omega arith),
            none_there,
            alone,
            here v m size pos small (m + 1) (omega arith) (omega arith),
            other,
            less,
          )
          refl

    parent-at : (g (at p)).parent ≡ at (p / 2)
    parent-at =
        let w = exchanged-Layout v m size pos small p lo hi in
        ap (λ a. (g a).parent) (sym (placed_old at (m + 1) null p (omega arith)))
        ∙ w.parent p lo hi
        ∙ placed_old at (m + 1) null (p / 2) (omega arith)

    deadline-at :
        (c : ℕ)
        → 0 < c
        → c ≤ m
        → (g (at c)).deadline_ns ≡ (
            if c == p
            then (k.requests (last v m size pos small)).deadline_ns
            else (k.requests (at c)).deadline_ns)
    deadline-at c c0 c1 =
        ap (λ a. (g a).deadline_ns) (sym (placed_old at (m + 1) null c (omega arith)))
        ∙ exchanged-at v m size pos small p lo hi c c0 c1

    rises_if :
        1 < p
        → rises
          ≡ ltb
              (k.requests (last v m size pos small)).deadline_ns
              (k.requests (at (p / 2))).deadline_ns
    unfolding rises
    rises_if p0 =
        let other : (p / 2 == p) ≡ false = ground arith in
        rw
          (
            parent-at,
            here v m size pos small (p / 2) (omega arith) (omega arith),
            deadline-at p lo hi,
            deadline-at (p / 2) (omega arith) (omega arith),
            ==_refl p,
            other,
          )
          refl

    rises_root : ¬ (1 < p) → rises ≡ false
    unfolding rises
    rises_root out =
        let top : at (p / 2) ≡ null =
          let zero_th : p / 2 ≡ 0 = omega arith in rw zero_th (whole v m size pos small).above in
        rw (parent-at, top) refl

    -- For an ordered heap of two to 2 ^ 63 - 2 requests, `timer_heap_delete` of any but the last one
    -- ends and the heap is then an ordered heap of one request less, whose payloads are those of
    -- before without the deleted one. The request that leaves the heap, with that payload, is the one
    -- that stood last.
    pub delete-IsHeap :
        (k' : Kernel) × (delete k (at p) ≡ some k') × Removed v m size pos small p lo hi k'
    delete-IsHeap = elim (dec_lt 1 p) [
      | no root ↦
          let (k', e, r) =
            restored v m size pos small p lo hi _
              (down v m size pos small p lo hi (λ l. absurd (root l))) in
          (k', delete_run ∙ rw (rises_root root) e, r)
      | yes more ↦
          elim (dec_lt (k.requests (last v m size pos small)).deadline_ns
            (k.requests (at (p / 2))).deadline_ns) [
              | yes less ↦
                  let (k', e, r) =
                    restored v m size pos small p lo hi _
                      (up v m size pos small p lo hi more less) in
                  (k', delete_run ∙ rw (rises_if more, lt→ltb _ _ less) e, r)
              | no fine ↦
                  let (k', e, r) =
                    restored v m size pos small p lo hi _
                      (down v m size pos small p lo hi (λ _. omega arith)) in
                  (k', delete_run ∙ rw (rises_if more, nlt→ltb _ _ fine) e, r)
            ]
    ]
