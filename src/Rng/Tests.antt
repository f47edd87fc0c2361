-- ===== src/Rng/Tests.antt =====
-- The theorems about the entropy driver at inputs that meet their hypotheses.
use picokernel.Prelude.{
  ℕ, ◌+◌, ◌≡◌, refl, ◌≢◌, false, [], ◌∷◌, arith, update, ◌==◌, if◌then◌else◌, length, some,
}
use picokernel.State.{Ptr, null, Kerr, WorkState, op_rng_read, Request, Kernel}
use picokernel.IrqRing
use picokernel.IrqRing.{Ring}
use picokernel.Virtqueue.{Virtqueue, init, has_used}
use picokernel.Virtqueue.FreeList.{init-IsFree}
use picokernel.Rng.{Rng, World, Notify, submit_work, process_irq}
use picokernel.Rng.Submit.{Tracked}
use picokernel.Virtqueue.Sets.{freed, remaining}
use picokernel.Rng.Complete.{process_irq_lem}
use picokernel.Rng.Bulk.{Waiting, SubmittedAll, submit_work-Tracked}

abbrev read_request : Ptr → Request
read_request next = record {
  work = record {
    op = op_rng_read;
    callback = 77;
    ctx = 0;
    result = Kerr.ok;
    state = WorkState.submit_requested;
    flags = 0;
    next = next;
    prev = 0;
  };
  deadline_ns = 0;
  parent = 0;
  left = 0;
  right = 0;
}

abbrev kernel : Kernel
kernel = record {
  requests = update (λ a. read_request 0) 10 (read_request 20);
  submit_queue_head = 10;
  submit_queue_tail = 20;
  cancel_queue_head = 0;
  ready_queue_head = 0;
  timer_heap_root = 0;
  timer_heap_size = 0;
  current_time_ns = 0;
}

abbrev unset : Virtqueue
unset = record {
  queue_size = 0;
  num_free = 0;
  free_head = 0;
  last_used_idx = 0;
  notify_offset = 0;
  queue_index = 0;
  desc_address = 0;
  avail_address = 0;
  used_address = 0;
  desc = λ i. record { addr = 0; len = 0; flags = 0; next = 0 };
  avail_flags = 0;
  avail_idx = 0;
  avail_ring = λ i. 0;
  used_flags = 0;
  used_idx = 0;
  used_ring = λ i. record { id = 0; len = 32 };
}

abbrev ring : Ring
ring = record { items = λ i. 0; write_pos = 0; read_pos = 0; overflow_count = 0 }

-- Three descriptors, and no request out.
abbrev rng : Rng
rng = record {
  self = 99;
  transport_type = 1;
  vq = init unset 3 4096;
  queue_size = 3;
  active_requests = λ i. 0;
  outstanding_requests = 0;
}

abbrev world : World ℕ
world = record {
  rng = rng;
  reqs = λ a. record { buffer = 8192; length = 32; completed = 0; desc_idx = 0 };
  kernel = kernel;
  irq_ring = ring;
  device = 0;
}

-- A device that counts how often it is notified.
abbrev counting : Notify ℕ
counting = record { mmio = λ q d. d + 1; pci = λ vq d. d + 1 }

rng-Tracked : Tracked rng (0 ∷ 1 ∷ 2 ∷ []) []
rng-Tracked = record {
  free_list = init-IsFree unset 3 4096 (omega arith) (omega arith);
  distinct = tt;
  apart = λ d e. ground arith;
  within = λ d e. ground arith;
  busy = λ d e. ground arith;
  idle = λ d e. refl;
  count = refl;
  fits = omega arith;
}

ten_there : 10 ≢ null
ten_there = λ e. absurd (omega arith)

both-Waiting : Waiting world (10 ∷ 20 ∷ []) 10
both-Waiting = record {
  chain = (refl, ten_there, (refl, (λ e. absurd (omega arith)), refl));
  reads = (refl, (refl, tt));
}

submit_work-Tracked_example :
    (w' : World ℕ) × (submit_work counting 5 10 world ≡ some w')
    × SubmittedAll counting world (10 ∷ 20 ∷ []) (0 ∷ 1 ∷ 2 ∷ []) [] w'
unfolding init
submit_work-Tracked_example =
    submit_work-Tracked counting (10 ∷ 20 ∷ []) 5 10 world (0 ∷ 1 ∷ 2 ∷ []) [] rng-Tracked
      (omega arith) both-Waiting (refl, (refl, tt)) (omega arith)

-- Descriptor 0 carries the request 10, and the device has used it.
abbrev busy_rng : Rng
busy_rng = record {
  self = 99;
  transport_type = 1;
  vq = record unset { queue_size = 1; free_head = 0xFFFF; used_idx = 1 };
  queue_size = 1;
  active_requests = update (λ i. 0) 0 10;
  outstanding_requests = 1;
}

abbrev busy_world : World ℕ
busy_world = record world { rng = busy_rng }

busy-Tracked : Tracked busy_rng [] (0 ∷ [])
busy-Tracked = record {
  free_list = record { chain = refl; distinct = tt; count = refl; fits = omega arith };
  distinct = (refl, tt);
  apart = λ d e. refl;
  within = λ d e. ground arith;
  busy = λ d e. ground arith;
  idle = λ d e. ground arith;
  count = refl;
  fits = omega arith;
}

process_irq_lem_example :
    (w' : World ℕ) × (process_irq 5 busy_world ≡ some w')
    × Tracked w'.rng (freed (0 ∷ []) []) (remaining (0 ∷ []) (0 ∷ []))
    × (has_used w'.rng.vq ≡ false)
    × (w'.irq_ring ≡ (
        if length (remaining (0 ∷ []) (0 ∷ [])) == 0
        then busy_world.irq_ring
        else (IrqRing.enqueue busy_world.irq_ring busy_world.rng.self).1))
process_irq_lem_example =
    process_irq_lem (0 ∷ []) 5 busy_world [] (0 ∷ []) busy-Tracked (refl, refl, refl, refl)
      (omega arith)
