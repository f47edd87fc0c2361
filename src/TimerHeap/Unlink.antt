-- ===== src/TimerHeap/Unlink.antt =====
-- The pointer that `timer_heap_extract_min` and `timer_heap_delete` of kernel/timer_heap.c reset: the
-- tree without its last request, whose payload was exchanged with that of another position before.
use picokernel.Prelude.{
  ℕ, ◌+◌, ◌*◌, ◌/◌, ◌%◌, ◌≤◌, ◌<◌, ◌≡◌, refl, ◌≢◌, ◌∙◌, sym, arith, inl, inr, Bool, Bool-cases,
  ◌==◌, if◌then◌else◌, ==_refl, ne→==, false, ==_iff,
}
use picokernel.State.{Ptr, null, Request}
use picokernel.TimerHeap.{unlink_last}
use picokernel.TimerHeap.Layout.{Layout}
use picokernel.TimerHeap.Link.{SamePayloads, placed, placed_old}

pub unlink_last-SamePayloads :
    (h : Ptr → Request) (last : Ptr) → SamePayloads h (unlink_last h last)
unfolding unlink_last
unlink_last-SamePayloads h last = record { work = λ a. ground arith; deadline = λ a. ground arith }

module _ {h : Ptr → Request} {at : ℕ → Ptr} {m : ℕ} (t : Layout h at (m + 1)) (pos : 0 < m) where
  abbrev above : ℕ
  above = (m + 1) / 2

  abbrev even : Bool
  even = (m + 1) % 2 == 0

  left-last : ((h (at above)).left == at (m + 1)) ≡ even
  left-last = elim (Bool-cases even) [
    | inl e ↦
        let twice : 2 * above ≡ m + 1 = ground arith in
        rw (e, t.left above (omega arith) (omega arith), twice, ==_refl (at (m + 1))) refl
    | inr e ↦
        let twice : 2 * above ≡ m = ground arith in
        rw (e, t.left above (omega arith) (omega arith), twice)
          (ne→== (at m) (at (m + 1)) λ same. absurd (
            omega (arith, t.distinct m (m + 1) pos (omega arith) (omega arith) (omega arith) same)))
  ]

  unlink-at :
      (p : ℕ)
      → 0 < p
      → p ≤ m
      → unlink_last h (at (m + 1)) (at p) ≡ (
          if p == above
          then (if even
              then record (h (at p)) { left = null }
              else record (h (at p)) { right = null })
          else h (at p))
  unfolding unlink_last
  unlink-at p lo hi =
      let up : (h (at (m + 1))).parent ≡ at above = t.parent (m + 1) (omega arith) (omega arith) in
      let here : (at above == null) ≡ false =
        ne→== _ _ (t.inside above (omega arith) (omega arith)) in
      elim (Bool-cases (p == above)) [
        | inl e ↦
            let e' : p ≡ above = (==_iff p above).0 e in
            rw (e', ==_refl above, up, here, left-last)
              (elim (Bool-cases even) [
                | inl b ↦ rw (b, ==_refl (at above)) refl
                | inr b ↦ rw (b, ==_refl (at above)) refl
              ])
        | inr other ↦
            let far : (at p == at above) ≡ false = ne→== _ _ λ same. cc (
              other,
              (==_iff p above).1
                  (t.distinct p above lo (omega arith) (omega arith) (omega arith) same),
            ) in
            rw (other, up, here, left-last)
              (elim (Bool-cases even) [ inl b ↦ rw (b, far) refl | inr b ↦ rw (b, far) refl ])
      ]

  -- The positions without the last one.
  abbrev pub fewer : ℕ → Ptr
  fewer = placed at (m + 1) null

  old : (p : ℕ) → p ≢ m + 1 → fewer p ≡ at p
  old = placed_old at (m + 1) null

  fewer_if : (p : ℕ) → fewer p ≡ (if p == m + 1 then null else at p)
  unfolding placed
  fewer_if p = refl

  pub unlink-Layout : Layout (unlink_last h (at (m + 1))) fewer m
  unlink-Layout = record {
    inside = λ p lo hi. rw (old p (omega arith)) (t.inside p lo (omega arith));
    above = old 0 (omega arith) ∙ t.above;
    outside = λ p out. rw (fewer_if p) (ground (arith, t.outside p));
    left = λ p lo hi.
        rw (old p (omega arith), fewer_if (2 * p), unlink-at p lo hi)
          (ground (arith, t.left p lo (omega arith)));
    right = λ p lo hi.
        rw (old p (omega arith), fewer_if (2 * p + 1), unlink-at p lo hi)
          (ground (arith, t.right p lo (omega arith)));
    parent = λ p lo hi.
        rw (old p (omega arith), old (p / 2) (omega arith), unlink-at p lo hi)
          (ground (arith, t.parent p lo (omega arith)));
    distinct = λ p q p0 p1 q0 q1 e.
        t.distinct p q p0 (omega arith) q0 (omega arith)
          (sym (old p (omega arith)) ∙ e ∙ old q (omega arith));
  }
