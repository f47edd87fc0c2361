-- ===== src/Kernel/Tick.antt =====
-- Timers in the tick, and the whole tick (kernel/kernel.c).
pub mod Expire
pub mod Hang
mod Tests
use mathlib.Core.List.{reverse}
use picokernel.Prelude.{
  ℕ, ◌<◌, ◌≡◌, refl, ◌≢◌, ◌⊎◌, inl, inr, true, not, ◌||◌, ◌==◌, if◌then◌else◌, ne→==, ◌∙◌, Option,
  some, none, List, arith, Distinct, All, length,
}
use picokernel.State.{Ptr, null, Kernel, ◌>>=◌}
use picokernel.Kernel.{Platform, tick, expire_timers, run_ready, cancel_loop, submit_bulk}
use picokernel.Kernel.Queues.{Chain}
use picokernel.Kernel.Ready.{IsReady, Behaved, run_all, run_ready_lem}
use picokernel.Kernel.Cancel.{IsOther, HandedOver, cancel_loop_lem}
use picokernel.Kernel.Tick.Expire.{NoneDue, expire_timers-stop}

-- The kernel when the callbacks have run: first the platform's own tick, then a round for each
-- ready item.
abbrev pub after_callbacks : {P : Type 0} → Platform P → List Ptr → ℕ → P → Kernel → P × Kernel
after_callbacks platform xs now p k =
    run_all platform xs (platform.platform_tick (p, record k { current_time_ns = now }))

module _ {P : Type 0} (platform : Platform P) where
  -- The end of a tick with the list at `head` for the platform: `w` is what it leaves.
  pub record BulkSubmitted (head : Ptr) (p : P) (k : Kernel) (w : P × Kernel) : Type 0 where
    pub nothing :
        k.submit_queue_head ≡ null → head ≡ null → w ≡ (p, record k { cancel_queue_head = null })
    pub passed :
        (k.submit_queue_head ≢ null) ⊎ (head ≢ null)
        → let (p', k') = platform.platform_submit k.submit_queue_head head (p, k) in
          w ≡ (
            p',
            record k' {
              submit_queue_head = null;
              submit_queue_tail = null;
              cancel_queue_head = null;
            },
          )

  submit_bulk-BulkSubmitted :
      (head : Ptr) (p : P) (k : Kernel) → BulkSubmitted head p k (submit_bulk platform head (p, k))
  unfolding submit_bulk
  submit_bulk-BulkSubmitted head p k = record {
    nothing = λ e f. rw (submit_bulk, e, f) refl;
    passed = λ some_list.
        let there : (not (k.submit_queue_head == null) || not (head == null)) ≡ true =
          elim some_list [
            | inl ne ↦ rw (ne→== k.submit_queue_head null ne) refl
            | inr ne ↦ rw (ne→== head null ne) (ground arith)
          ] in
        rw (submit_bulk, there) refl;
  }

module _ {P : Type 0} (platform : Platform P) (Inv : P × Kernel → Type 0)
    (behaved : Behaved platform Inv) where
  -- A tick in which no timer is due, with behaved callbacks, where the platform's tick leaves the
  -- items `xs` (all READY) in the ready queue and the callbacks leave the items `ys` (no timers) in
  -- the cancel queue: it ends within any fuel above both numbers. It sets the time, lets the
  -- platform tick, runs one round for each of `xs` in order, and links the items `ys` in reverse
  -- order; if that list or the submit queue is not empty, it passes first the submit queue and then
  -- the list to the platform and leaves the submit and cancel queues empty behind that, and otherwise
  -- it leaves the cancel queue empty.
  pub tick_lem :
      (xs ys : List Ptr) (fuel now : ℕ) (p : P) (k : Kernel)
      → NoneDue (record k { current_time_ns = now })
      → let w = platform.platform_tick (p, record k { current_time_ns = now }) in
        let w' = after_callbacks platform xs now p k in
        Inv w
        → Chain w.1.requests xs w.1.ready_queue_head
        → Distinct xs
        → All (IsReady w.1.requests) xs
        → length xs < fuel
        → Chain w'.1.requests ys w'.1.cancel_queue_head
        → Distinct ys
        → All (IsOther w'.1.requests) ys
        → length ys < fuel
        → (r : Ptr × Kernel) × (end_ : P × Kernel) × (tick platform fuel now (p, k) ≡ some end_)
          × BulkSubmitted platform r.0 w'.0 r.1 end_
          × HandedOver w'.1 ys (reverse ys) r
          × (r.1.ready_queue_head ≡ null)
  unfolding tick
  tick_lem xs ys fuel now p k due inv c d ready f c' d' other f' =
      let w = platform.platform_tick (p, record k { current_time_ns = now }) in
      let w' = after_callbacks platform xs now p k in
      let (ran, empty) = run_ready_lem platform Inv behaved xs fuel w inv f c d ready in
      let (r, left, over) = cancel_loop_lem ys fuel w'.1 f' c' d' other in
      (
        r,
        submit_bulk platform r.0 (w'.0, r.1),
        rw
            (
              expire_timers-stop fuel (record k { current_time_ns = now }) (omega arith) due,
              ran,
              left,
            )
            refl,
        submit_bulk-BulkSubmitted platform r.0 w'.0 r.1,
        over,
        over.ready_head ∙ empty,
      )
