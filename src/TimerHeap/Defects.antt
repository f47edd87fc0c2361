-- ===== src/TimerHeap/Defects.antt =====
-- What `timer_heap_extract_min` of kernel/timer_heap.c does to a heap of two timers: it exchanges
-- the payloads of the root and the last node, unlinks the last node, and returns the root, which
-- stays in the heap and now carries the other timer.
use picokernel.Prelude.{ℕ, suc, ◌≤◌, ◌≡◌, ◌≢◌, ap, ◌∙◌, some, arith, ne→==, ==_refl, update}
use picokernel.State.{Ptr, null, Request, Kernel, work_at}
use picokernel.TimerHeap.{find_last, swap, smallest, bubble_down, unlink_last, extract_min}
use picokernel.TimerHeap.Navigate.{child_of, navigate-children}
use picokernel.TimerHeap.Swap.{swap_left, swap-SameLinks}

-- The heap holds the request `r` at its root and `l` as its left child, the root due first.
pub record TwoTimers (k : Kernel) (r l : Ptr) : Type 0 where
  pub root : k.timer_heap_root ≡ r
  pub size : k.timer_heap_size ≡ 2
  pub root_ne : r ≢ null
  pub left_ne : l ≢ null
  pub apart : r ≢ l
  pub root_left : (k.requests r).left ≡ l
  pub root_right : (k.requests r).right ≡ null
  pub left_parent : (k.requests l).parent ≡ r
  pub ordered : (k.requests r).deadline_ns ≤ (k.requests l).deadline_ns

bubble_down-leaf :
    (fuel : ℕ) (h : Ptr → Request) (node : Ptr)
    → (h node).left ≡ null
    → (h node).right ≡ null
    → bubble_down (suc fuel) node h ≡ some h
unfolding bubble_down smallest
bubble_down-leaf fuel h node el er = rw (el, er, ==_refl node)

find_last-left : {k : Kernel} {r l : Ptr} → TwoTimers k r l → find_last k ≡ l
unfolding find_last
find_last-left {k} {r} {l} t =
    let at = navigate-children k.requests r 1 (omega arith) (omega arith) in
    rw (t.size, t.root)
      (at.1 ∙ ap (child_of k.requests 0) at.0 ∙ rw (ne→== r null t.root_ne) t.root_left)

-- The requests when the last node has been unlinked.
abbrev pub extracted : Kernel → Ptr → Ptr → Ptr → Request
extracted k r l = unlink_last (swap k.requests r l) l

unlink_last-left :
    (h : Ptr → Request) (r l : Ptr)
    → r ≢ null
    → (h l).parent ≡ r
    → (h r).left ≡ l
    → unlink_last h l ≡ update h r (record (h r) { left = null })
unfolding unlink_last
unlink_last-left h r l ne ep el = rw (ep, ne→== r null ne, el, ==_refl l)

module _ {k : Kernel} {r l : Ptr} (t : TwoTimers k r l) where
  extracted_lem :
      extracted k r l
      ≡ update (swap k.requests r l) r (record (swap k.requests r l r) { left = null })
  extracted_lem =
      let links = swap-SameLinks k.requests r l in
      unlink_last-left (swap k.requests r l) r l t.root_ne (links.parent l ∙ t.left_parent)
        (links.left r ∙ t.root_left)

  pub extracted-root : extracted k r l r ≡ record (k.requests r) {
    work = work_at k l;
    deadline_ns = (k.requests l).deadline_ns;
    left = null;
  }
  extracted-root = rw (extracted_lem, ==_refl r, swap_left k.requests r l)

  pub extract_min-run :
      extract_min k ≡ some (r, record k { requests = extracted k r l; timer_heap_size = 1 })
  unfolding extract_min
  extract_min-run =
      let bottom =
        bubble_down-leaf 63 (extracted k r l) r (ap (λ q. q.left) extracted-root)
          (ap (λ q. q.right) extracted-root ∙ t.root_right) in
      rw (find_last-left t, t.root, t.size, ne→== r null t.root_ne, ne→== l null t.left_ne, bottom)
