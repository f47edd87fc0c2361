-- ===== src/Kernel/Tick/Tests.antt =====
-- Timers in the tick at inputs that meet the theorems' hypotheses.
use picokernel.Prelude.{ℕ, ◌+◌, ◌<◌, ◌≡◌, refl, some, none, arith, update}
use picokernel.State.{Ptr, null, Kerr, WorkState, Request, Kernel, work_at}
use picokernel.TimerHeap.Defects.{TwoTimers}
use picokernel.Kernel.{Platform, expire_timers, tick}
use picokernel.Kernel.Tick.Expire.{expire_timers_wrong}
use picokernel.Kernel.Tick.Hang.{tick_hangs}

abbrev timer : (callback deadline parent left : ℕ) → Request
timer callback deadline parent left = record {
  work = record {
    op = 1;
    callback = callback;
    ctx = 0;
    result = Kerr.ok;
    state = WorkState.live;
    flags = 0;
    next = 0;
    prev = 0;
  };
  deadline_ns = deadline;
  parent = parent;
  left = left;
  right = 0;
}

abbrev kernel_of : (Ptr → Request) → (size now : ℕ) → Kernel
kernel_of h size now = record {
  requests = h;
  submit_queue_head = 0;
  submit_queue_tail = 0;
  cancel_queue_head = 0;
  ready_queue_head = 0;
  timer_heap_root = 10;
  timer_heap_size = size;
  current_time_ns = now;
}

-- One timer, at address 10, due at 50.
abbrev single : ℕ → Kernel
single now = kernel_of (λ a. timer 7 50 0 0) 1 now

-- The timers 10, due at 50, and 20, due at 90.
abbrev pair : ℕ → Kernel
pair now = kernel_of (update (λ a. timer 8 90 10 0) 10 (timer 7 50 0 20)) 2 now

pair-TwoTimers : (now : ℕ) → TwoTimers (pair now) 10 20
pair-TwoTimers now = omega arith

expire_timers_wrong_example :
    (k' : Kernel) × (expire_timers 2 (pair 60) ≡ some k')
    × (k'.ready_queue_head ≡ 10)
    × (work_at k' 10 ≡ record (work_at (pair 60) 20) {
      result = Kerr.ok;
      state = WorkState.ready;
      next = 0;
      prev = null;
    })
    × (k'.timer_heap_root ≡ 10)
    × (k'.current_time_ns < (k'.requests 10).deadline_ns)
expire_timers_wrong_example =
    expire_timers_wrong (pair-TwoTimers 60) 2 (omega arith) (omega arith) (omega arith)

-- No devices, and callbacks that count their runs.
abbrev counting : Platform ℕ
counting = record {
  platform_tick = λ w. w;
  platform_submit = λ s c w. w;
  platform_wfi = λ t p. (p, 0);
  invoke = λ fn work w. (w.0 + 1, w.1);
}

tick_hangs_example : tick counting 1000 95 (0, pair 60) ≡ none
tick_hangs_example =
    tick_hangs counting 10 (λ fn work p k. refl) (λ p k. (refl, refl)) 20 1000 95 0 (pair 60)
      (pair-TwoTimers 60) (omega arith)
