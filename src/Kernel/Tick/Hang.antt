-- ===== src/Kernel/Tick/Hang.antt =====
-- Two timers due at once stop the kernel: `expire_timers` makes a cycle of the ready queue, and the
-- loop over it in `kmain_tick` (kernel/kernel.c) never leaves the cycle.
use picokernel.Prelude.{ℕ, zero, suc, ◌≤◌, ◌≡◌, refl, ◌≢◌, ◌∙◌, ap, inl, inr, none, arith, ne→==}
use picokernel.State.{Ptr, null, Kernel, work_at}
use picokernel.TimerHeap.Defects.{TwoTimers}
use picokernel.Kernel.{Platform, tick, run_ready, run_one, settle}
use picokernel.Kernel.Tick.Expire.{expire_timers-both, expired_twice, expired_twice-cycle}

-- Callbacks leave the `next` pointer of the request `r` alone (they do not queue it again).
abbrev pub LeavesNext : {P : Type 0} → Platform P → Ptr → Type 0
LeavesNext {P} platform r =
    (fn work : ℕ) (p : P) (k : Kernel)
    → (work_at (platform.invoke fn work (p, k)).1 r).next ≡ (work_at k r).next

at_time :
    {r l : Ptr} (k : Kernel) (now : ℕ)
    → TwoTimers k r l
    → TwoTimers (record k { current_time_ns = now }) r l
at_time k now t = record {
  root = t.root;
  size = t.size;
  root_ne = t.root_ne;
  left_ne = t.left_ne;
  apart = t.apart;
  root_left = t.root_left;
  root_right = t.root_right;
  left_parent = t.left_parent;
  ordered = t.ordered;
}

module _ {P : Type 0} (platform : Platform P) (r : Ptr) (leaves : LeavesNext platform r) where
  run_one-next :
      (w : P × Kernel) (x : Ptr) → (work_at (run_one platform x w).1 r).next ≡ (work_at w.1 r).next
  unfolding run_one settle
  run_one-next w x = leaves _ x w.0 _ ∙ ground arith

  pub run_ready-cycle :
      (fuel : ℕ) (w : P × Kernel)
      → r ≢ null
      → (work_at w.1 r).next ≡ r
      → run_ready platform fuel r w ≡ none
  unfolding run_ready
  run_ready-cycle zero w ne e = refl
  run_ready-cycle (suc fuel) w ne e =
      rw (ne→== r null ne, e)
        (run_ready-cycle fuel (run_one platform r w) ne (run_one-next w r ∙ e))

  -- The platform's own tick leaves the head of the ready queue and the `next` pointer of `r` alone,
  -- as it does where no device has completed work.
  module _
      (quiet : (p : P) (k : Kernel)
        → ((platform.platform_tick (p, k)).1.ready_queue_head ≡ k.ready_queue_head)
          × ((work_at (platform.platform_tick (p, k)).1 r).next ≡ (work_at k r).next)) where
    -- Where the heap holds two timers with roots `r` and `l` that are both due at the time of the
    -- tick, callbacks leave the `next` pointer of `r` alone and the platform's tick is quiet,
    -- `kmain_tick` does not end: no number of rounds is enough for its loops.
    pub tick_hangs :
        (l : Ptr) (fuel now : ℕ) (p : P) (k : Kernel)
        → TwoTimers k r l
        → (k.requests l).deadline_ns ≤ now
        → tick platform fuel now (p, k) ≡ none
    unfolding tick
    tick_hangs l fuel now p k t due =
        let k₀ = record k { current_time_ns = now } in
        let t₀ = at_time k now t in
        let k₁ = expired_twice t₀ in
        let w = platform.platform_tick (p, k₁) in
        let (head, next) = expired_twice-cycle t₀ in
        let cycle : run_ready platform fuel w.1.ready_queue_head w ≡ none =
          ap (λ q. run_ready platform fuel q w) ((quiet p k₁).0 ∙ head)
          ∙ run_ready-cycle fuel w t.root_ne ((quiet p k₁).1 ∙ next) in
        elim (expire_timers-both t₀ fuel due) [ inl e ↦ rw e | inr e ↦ rw (e, cycle) ]
