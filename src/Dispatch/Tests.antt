-- ===== src/Dispatch/Tests.antt =====
-- The theorems about `platform_submit` at inputs that meet their hypotheses.
use picokernel.Prelude.{ℕ, ◌≡◌, refl, true, false, List, [], ◌∷◌, has, arith, update, some}
use picokernel.State.{
  Ptr, null, Kerr, WorkState, op_rng_read, op_block_flush, Request, Kernel, work_at,
}
use picokernel.Dispatch.{Drivers, platform_submit}
use picokernel.Dispatch.Refusals.{IsRefused, refusal}
use picokernel.Dispatch.Absent.{platform_submit_absent}
use picokernel.Kernel.Queues.{Chain}

abbrev request : ℕ → Ptr → Request
request op next = record {
  work = record {
    op = op;
    callback = 77;
    ctx = 0;
    result = Kerr.ok;
    state = WorkState.live;
    flags = 0;
    next = next;
    prev = 0;
  };
  deadline_ns = 0;
  parent = 0;
  left = 0;
  right = 0;
}

-- A flush, a read of random bytes and an unknown operation, in this order, and an empty ready queue.
abbrev kernel : Kernel
kernel = record {
  requests =
      update (update (λ a. request 99 0) 20 (request op_rng_read 30)) 10
        (request op_block_flush 20);
  submit_queue_head = 0;
  submit_queue_tail = 0;
  cancel_queue_head = 0;
  ready_queue_head = 0;
  timer_heap_root = 0;
  timer_heap_size = 0;
  current_time_ns = 0;
}

abbrev three : List Ptr
three = 10 ∷ 20 ∷ 30 ∷ []

three-Chain : Chain kernel.requests three 10
three-Chain = (refl, omega arith, (refl, omega arith, (refl, omega arith, refl)))

abbrev no_drivers : Drivers ℕ
no_drivers = record {
  rng_there = λ s. false;
  blk_there = λ s. false;
  net_there = λ s. false;
  rng_submit = λ p s. some s;
  blk_submit = λ p s. some s;
  net_submit = λ p s. some s;
  net_cancel = λ p s. some s;
}

platform_submit_absent_example :
    (k' : Kernel) × (platform_submit no_drivers 4 10 null (0, kernel) ≡ some (0, k'))
    × ((a : Ptr) → has a three ≡ true → IsRefused k' a (refusal (work_at kernel a).op))
    × ((a : Ptr) → has a three ≡ false → k'.requests a ≡ kernel.requests a)
platform_submit_absent_example =
    platform_submit_absent no_drivers three [] 3 10 0 kernel
      (record { rng = refl; blk = refl; net = refl }) three-Chain refl (ground arith) (λ a i. refl)
      (omega arith)
