-- ===== src/Kernel/Tick/Expire.antt =====
-- `expire_timers` and `kmain_next_delay` of kernel/kernel.c.
use picokernel.Prelude.{
  ℕ, zero, suc, ◌+◌, ◌<◌, ◌≤◌, ◌≡◌, refl, ◌≢◌, ◌∙◌, ap, sym, subst, ◌⊎◌, inl, inr, some, none,
  false, arith, ltb, ne→==, max,
}
use picokernel.State.{Ptr, null, Kerr, WorkState, Request, Kernel, work_at}
use picokernel.TimerHeap.{extract_min, peek_min}
use picokernel.TimerHeap.Defects.{TwoTimers, extracted, extracted-root, extract_min-run}
use picokernel.Kernel.{expire_timers, make_ready, enqueue_ready, next_delay, forever}

-- There is no timer, or the first one is not due.
abbrev pub NoneDue : Kernel → Type 0
NoneDue k =
    (k.timer_heap_root ≡ null) ⊎ (k.current_time_ns < (k.requests k.timer_heap_root).deadline_ns)

pub expire_timers-stop :
    (fuel : ℕ) (k : Kernel) → 0 < fuel → NoneDue k → expire_timers fuel k ≡ some k
unfolding expire_timers peek_min
expire_timers-stop zero k h due = absurd (omega arith)
expire_timers-stop (suc fuel) k h (inl e) = rw e
expire_timers-stop (suc fuel) k h (inr lt) = ground arith

expire_timers-step :
    (fuel : ℕ) (k : Kernel) (r t : Ptr) (k' : Kernel)
    → k.timer_heap_root ≡ r
    → r ≢ null
    → (k.requests r).deadline_ns ≤ k.current_time_ns
    → extract_min k ≡ some (t, k')
    → expire_timers (suc fuel) k ≡ expire_timers fuel (make_ready k' r Kerr.ok)
unfolding expire_timers peek_min
expire_timers-step fuel k r t k' er ne due e =
    let late : ltb k.current_time_ns (k.requests r).deadline_ns ≡ false = ground arith in
    rw (e, er, ne→== r null ne, late) refl

expire_timers-zero : (k : Kernel) → expire_timers 0 k ≡ none
unfolding expire_timers
expire_timers-zero k = refl

extract_min-at :
    (k : Kernel) (r : Ptr)
    → k.timer_heap_root ≡ r
    → r ≢ null
    → k.timer_heap_size ≡ 1
    → extract_min k ≡ some (r, record k { timer_heap_root = null; timer_heap_size = 0 })
unfolding extract_min
extract_min-at k r er ne e = ground arith

-- The request as `make_ready` leaves it, with the old head of the ready queue behind it.
abbrev ready_request : Ptr → Request → Request
ready_request head q = record q {
  work = record (q.work) { result = Kerr.ok; state = WorkState.ready; next = head; prev = null };
}

make_ready_self :
    (k : Kernel) (work : Ptr)
    → (make_ready k work Kerr.ok).requests work ≡ ready_request k.ready_queue_head (k.requests work)
unfolding make_ready enqueue_ready
make_ready_self k work = ground arith

make_ready-size :
    (k : Kernel) (work : Ptr) → (make_ready k work Kerr.ok).timer_heap_size ≡ k.timer_heap_size
unfolding make_ready enqueue_ready
make_ready-size k work = refl

make_ready-root :
    (k : Kernel) (work : Ptr) → (make_ready k work Kerr.ok).timer_heap_root ≡ k.timer_heap_root
unfolding make_ready enqueue_ready
make_ready-root k work = refl

make_ready-head : (k : Kernel) (work : Ptr) → (make_ready k work Kerr.ok).ready_queue_head ≡ work
unfolding make_ready enqueue_ready
make_ready-head k work = refl

make_ready-time :
    (k : Kernel) (work : Ptr) → (make_ready k work Kerr.ok).current_time_ns ≡ k.current_time_ns
unfolding make_ready enqueue_ready
make_ready-time k work = refl

-- With at most one timer `expire_timers` does what it says: while no timer is due it changes
-- nothing, and a single due timer leaves the heap empty, and its request goes to the front of the
-- ready queue, READY with KERR_OK. Two rounds are enough.
expire_timers_lem :
    (k : Kernel) (fuel : ℕ)
    → 1 < fuel
    → (NoneDue k → expire_timers fuel k ≡ some k)
      × (k.timer_heap_root ≢ null
          → k.timer_heap_size ≡ 1
          → (k.requests k.timer_heap_root).deadline_ns ≤ k.current_time_ns
          → expire_timers fuel k
            ≡ some (
                make_ready
                  (record k { timer_heap_root = null; timer_heap_size = 0 })
                  k.timer_heap_root
                  Kerr.ok))
expire_timers_lem k zero h = absurd (omega arith)
expire_timers_lem k (suc fuel) h = (
  expire_timers-stop (suc fuel) k (omega arith),
  λ ne one due.
      let empty = record k { timer_heap_root = null; timer_heap_size = 0 } in
      expire_timers-step fuel k k.timer_heap_root k.timer_heap_root empty refl ne due
        (extract_min-at k k.timer_heap_root refl ne one)
      ∙ expire_timers-stop fuel (make_ready empty k.timer_heap_root Kerr.ok) (omega arith)
          (inl (make_ready-root empty k.timer_heap_root)),
)

-- `kmain_next_delay` reaches exactly the first deadline, or the present if that has passed; without
-- timers it waits forever.
next_delay_lem :
    (k : Kernel)
    → (k.timer_heap_root ≡ null → next_delay k ≡ forever)
      × (k.timer_heap_root ≢ null
          → k.current_time_ns + next_delay k
            ≡ max k.current_time_ns (k.requests k.timer_heap_root).deadline_ns)
unfolding next_delay peek_min
next_delay_lem k = (λ e. ground arith, λ ne. ground arith)

-- Two timers
module _ {k : Kernel} {r l : Ptr} (t : TwoTimers k r l) where
  -- The kernel when the first of the two timers has been taken out and made ready.
  abbrev expired_once : Kernel
  expired_once = make_ready (record k { requests = extracted k r l; timer_heap_size = 1 }) r Kerr.ok

  expired_once-request : expired_once.requests r ≡ record (k.requests r) {
    work = record (work_at k l) {
      result = Kerr.ok;
      state = WorkState.ready;
      next = k.ready_queue_head;
      prev = null;
    };
    deadline_ns = (k.requests l).deadline_ns;
    left = null;
  }
  expired_once-request =
      make_ready_self (record k { requests = extracted k r l; timer_heap_size = 1 }) r
      ∙ ap (ready_request k.ready_queue_head) (extracted-root t)

  once-later :
      k.current_time_ns < (k.requests l).deadline_ns
      → expired_once.current_time_ns < (expired_once.requests r).deadline_ns
  once-later later = rw (expired_once-request, make_ready-time _ r) later

  -- A heap of two timers of which only the first, `r`, is due: `expire_timers` ends, and the
  -- request that it puts at the front of the ready queue (READY, KERR_OK) is `r`, which now carries
  -- the operation, callback and context of the timer that is not due, and is still the root of the
  -- heap with that timer's deadline in the future. So the wrong timer completes.
  pub expire_timers_wrong :
      (fuel : ℕ)
      → 1 < fuel
      → (k.requests r).deadline_ns ≤ k.current_time_ns
      → k.current_time_ns < (k.requests l).deadline_ns
      → (k' : Kernel) × (expire_timers fuel k ≡ some k')
        × (k'.ready_queue_head ≡ r)
        × (work_at k' r ≡ record (work_at k l) {
          result = Kerr.ok;
          state = WorkState.ready;
          next = k.ready_queue_head;
          prev = null;
        })
        × (k'.timer_heap_root ≡ r)
        × (k'.current_time_ns < (k'.requests r).deadline_ns)
  expire_timers_wrong zero h due later = absurd (omega arith)
  expire_timers_wrong (suc fuel) h due later =
      let still : expired_once.current_time_ns
          < (expired_once.requests expired_once.timer_heap_root).deadline_ns =
        subst (λ q. expired_once.current_time_ns < (expired_once.requests q).deadline_ns)
          (sym (make_ready-root _ r ∙ t.root)) (once-later later) in
      (
        expired_once,
        expire_timers-step fuel k r r _ t.root t.root_ne due (extract_min-run t)
            ∙ expire_timers-stop fuel expired_once (omega arith) (inr still),
        make_ready-head _ r,
        ap (λ q. q.work) expired_once-request,
        make_ready-root _ r ∙ t.root,
        once-later later,
      )

  -- The kernel when both have been taken out: the request `r` has been made ready twice.
  abbrev pub expired_twice : Kernel
  expired_twice =
      make_ready (record expired_once { timer_heap_root = null; timer_heap_size = 0 }) r Kerr.ok

  expire_timers-first :
      (fuel : ℕ)
      → (k.requests r).deadline_ns ≤ k.current_time_ns
      → expire_timers (suc fuel) k ≡ expire_timers fuel expired_once
  expire_timers-first fuel due =
      expire_timers-step fuel k r r _ t.root t.root_ne due (extract_min-run t)

  expire_timers-second :
      (fuel : ℕ)
      → (k.requests l).deadline_ns ≤ k.current_time_ns
      → expire_timers (suc fuel) expired_once ≡ expire_timers fuel expired_twice
  expire_timers-second fuel due =
      let late : (expired_once.requests r).deadline_ns ≤ expired_once.current_time_ns =
        rw (expired_once-request, make_ready-time _ r) due in
      let root = make_ready-root _ r ∙ t.root in
      expire_timers-step fuel expired_once r r _ root t.root_ne late
        (extract_min-at expired_once r root t.root_ne (make_ready-size _ r))

  -- With any fuel the loop has not ended, or it has ended with both taken out.
  pub expire_timers-both :
      (fuel : ℕ)
      → (k.requests l).deadline_ns ≤ k.current_time_ns
      → (expire_timers fuel k ≡ none) ⊎ (expire_timers fuel k ≡ some expired_twice)
  expire_timers-both zero due = inl (expire_timers-zero k)
  expire_timers-both (suc zero) due =
      inl (expire_timers-first 0 (omega (arith, t.ordered)) ∙ expire_timers-zero expired_once)
  expire_timers-both (suc (suc zero)) due = inl (
      expire_timers-first 1 (omega (arith, t.ordered))
      ∙ expire_timers-second 0 due
      ∙ expire_timers-zero expired_twice)
  expire_timers-both (suc (suc (suc fuel))) due = inr (
      expire_timers-first (suc (suc fuel)) (omega (arith, t.ordered))
      ∙ expire_timers-second (suc fuel) due
      ∙ expire_timers-stop (suc fuel) expired_twice (omega arith) (inl (make_ready-root _ r)))

  -- The head of the ready queue is then its own successor.
  pub expired_twice-cycle :
      (expired_twice.ready_queue_head ≡ r) × ((work_at expired_twice r).next ≡ r)
  expired_twice-cycle =
      (make_ready-head _ r, ap (λ q. q.work.next) (make_ready_self _ r) ∙ make_ready-head _ r)
