-- ===== src/TimerHeap/Grown.antt =====
-- The requests that `timer_heap_insert` of kernel/timer_heap.c leaves are the tree with a request more.
use picokernel.Prelude.{
  ℕ, ◌+◌, ◌/◌, ◌%◌, ◌≤◌, ◌<◌, ◌≡◌, refl, ◌≢◌, ◌∙◌, ap, sym, arith, inl, inr, Bool, Bool-cases, ◌==◌,
  if◌then◌else◌, ==_refl, ==_iff,
}
use picokernel.State.{Ptr, null, Request}
use picokernel.TimerHeap.Layout.{Layout}
use picokernel.TimerHeap.Link.{
  cleared, linked, linked_end, linked_parent, linked_other, Outside, Linked,
}

module _ {h : Ptr → Request} {at : ℕ → Ptr} {size : ℕ} (t : Layout h at size) (timer : Ptr)
    (there : timer ≢ null) (new : Outside at size timer) where
  pub first-Linked : size ≡ 0 → Linked t timer there new (cleared h timer)
  first-Linked e =
      let top : (size + 1) / 2 ≡ 0 = rw e refl in
      record {
        last = rw (==_refl timer) (rw (ap at top ∙ t.above) refl);
        others_parent = λ p lo hi. absurd (omega arith);
        others_left = λ p lo hi. absurd (omega arith);
        others_right = λ p lo hi. absurd (omega arith);
      }

  -- The position above the next one.
  abbrev above : ℕ
  above = (size + 1) / 2

  abbrev even : Bool
  even = (size + 1) % 2 == 0

  linked_at :
      (p : ℕ)
      → 0 < p
      → p ≤ size
      → linked h timer (at above) even (at p) ≡ (
          if p == above
          then (if even
              then record (h (at p)) { left = timer }
              else record (h (at p)) { right = timer })
          else h (at p))
  linked_at p lo hi =
      let apart : timer ≢ at above = λ e. new above (omega arith) (omega arith) (sym e) in
      elim (Bool-cases (p == above)) [
        | inl e ↦
            let e' : p ≡ above = (==_iff p above).0 e in
            rw (e', ==_refl above) (linked_parent h timer (at above) even apart)
        | inr other ↦ rw other (
            linked_other h timer (at above) even apart (at p) (new p lo hi) λ e.
              cc (
                other,
                (==_iff p above).1 (t.distinct p above lo hi (omega arith) (omega arith) e),
              ))
      ]

  pub more-Linked : 0 < size → Linked t timer there new (linked h timer (at above) even)
  more-Linked pos =
      let apart : timer ≢ at above = λ e. new above (omega arith) (omega arith) (sym e) in
      record {
        last = linked_end h timer (at above) even apart;
        others_parent = λ p lo hi. rw (linked_at p lo hi) (ground arith);
        others_left = λ p lo hi. rw (linked_at p lo hi) (ground arith);
        others_right = λ p lo hi. rw (linked_at p lo hi) (ground arith);
      }
