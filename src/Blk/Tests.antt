-- ===== src/Blk/Tests.antt =====
-- The theorems about the block driver at inputs that meet their hypotheses.
use picokernel.Prelude.{ℕ, ◌+◌, ◌≡◌, refl, List, [], ◌∷◌, arith, update, some}
use picokernel.State.{
  Ptr, Kerr, WorkState, op_block_read, op_block_flush, op_rng_read, Request, Kernel,
}
use picokernel.Virtqueue.{Virtqueue, init}
use picokernel.Mmio.{
  Transport, reset, set_status, get_status, set_features, get_queue_size, setup_queue,
  setup_addresses, write_address,
}
use picokernel.Mmio.Offset
use picokernel.Mmio.Queue.{registers}
use picokernel.Setup.{Config, begin_mmio, accept_mmio, queue_mmio, finish_mmio}
use picokernel.Blk.Setup.{SetUp, init_mmio, blk_init_mmio-SetUp}
use picokernel.Virtqueue.FreeList.{IsFree, init-IsFree}
use picokernel.Virtqueue.Chains.{Taken, free_chain}
use picokernel.Virtqueue.Sets.{freed}
use picokernel.Rng.{Notify}
use picokernel.Blk.{Blk, World, submit_one, process_irq}
use picokernel.Blk.Tracked.{Tracked}
use picokernel.Virtqueue.Chains.Release.{Kept, free_chain-IsFree}
use picokernel.Virtqueue.Chains.Used.{free_after, out_after}
use picokernel.Blk.Transfer.{Transferred, submit_one-Transferred}
use picokernel.Blk.Drain.{complete_all, blk_process_irq_lem}

abbrev request : ℕ → Ptr → Request
request op next = record {
  work = record {
    op = op;
    callback = 77;
    ctx = 0;
    result = Kerr.ok;
    state = WorkState.submit_requested;
    flags = 0;
    next = next;
    prev = 0;
  };
  deadline_ns = 0;
  parent = 0;
  left = 0;
  right = 0;
}

-- A read, a flush and a request for random bytes, in this order.
abbrev kernel : Kernel
kernel = record {
  requests =
      update (update (λ a. request op_rng_read 0) 20 (request op_block_flush 30)) 10
        (request op_block_read 20);
  submit_queue_head = 10;
  submit_queue_tail = 30;
  cancel_queue_head = 0;
  ready_queue_head = 0;
  timer_heap_root = 0;
  timer_heap_size = 0;
  current_time_ns = 0;
}

abbrev unset : Virtqueue
unset = record {
  queue_size = 0;
  num_free = 0;
  free_head = 0;
  last_used_idx = 0;
  notify_offset = 0;
  queue_index = 0;
  desc_address = 0;
  avail_address = 0;
  used_address = 0;
  desc = λ i. record { addr = 0; len = 0; flags = 0; next = 0 };
  avail_flags = 0;
  avail_idx = 0;
  avail_ring = λ i. 0;
  used_flags = 0;
  used_idx = 0;
  used_ring = λ i. record { id = 0; len = 1 };
}

-- Four descriptors, and no request out.
abbrev blk : Blk
blk = record {
  transport_type = 1;
  vq = init unset 4 4096;
  queue_size = 4;
  capacity = 2048;
  sector_size = 512;
  seg_max = 1;
  active_requests = λ i. 0;
  outstanding_requests = 0;
}

abbrev world : World ℕ
world = record {
  blk = blk;
  reqs = λ a. record { segments = 600; num_segments = 1; desc_idx = 0 };
  segments = λ a. record { sector = 3; buffer = 8192; num_sectors = 2; completed_sectors = 0 };
  req_buffers = λ i. record { kind = 0; reserved = 0; sector = 0; status = 0 };
  req_buffers_address = 12288;
  kernel = kernel;
  device = 0;
}

-- A device that counts how often it is notified.
abbrev counting : Notify ℕ
counting = record { mmio = λ q d. d + 1; pci = λ vq d. d + 1 }

abbrev four : List ℕ
four = 0 ∷ 1 ∷ 2 ∷ 3 ∷ []

blk-Tracked : Tracked blk four []
unfolding init
blk-Tracked = record {
  free_list = init-IsFree unset 4 4096 (omega arith) (omega arith);
  linked = tt;
  distinct = tt;
  apart = λ d e. ground arith;
  within = λ d e. ground arith;
  busy = λ d e. ground arith;
  idle = λ d e. refl;
  count = refl;
  fits = omega arith;
  small = omega arith;
}

submit_one-Transferred_example : Transferred world 10 0 four [] (submit_one 10 (world, 0))
unfolding init
submit_one-Transferred_example =
    submit_one-Transferred world 10 0 four [] blk-Tracked (λ e. absurd (omega arith)) (refl, refl)

-- The chain of descriptors 2 and 1, which the device has used.
abbrev busy_vq : Virtqueue
busy_vq = record unset {
  queue_size = 4;
  free_head = 0xFFFF;
  used_idx = 1;
  used_ring = λ i. record { id = 2; len = 1 };
  desc =
      update (λ i. record { addr = 0; len = 1; flags = 2; next = 0xFFFF }) 2
        (record { addr = 0; len = 16; flags = 1; next = 1 });
}

abbrev two_one : Taken
two_one = record { head = 2; rest = 1 ∷ [] }

abbrev busy_world : World ℕ
busy_world = record world {
  blk = record blk {
    vq = busy_vq;
    active_requests = update (λ i. 0) 2 20;
    outstanding_requests = 1;
  };
}

none-IsFree : IsFree busy_vq []
none-IsFree = record { chain = refl; distinct = tt; count = refl; fits = omega arith }

free_chain-IsFree_example :
    (v : Virtqueue) × (free_chain 2 2 busy_vq ≡ some v)
    × IsFree v (freed (2 ∷ 1 ∷ []) [])
    × Kept busy_vq v (2 ∷ 1 ∷ [])
free_chain-IsFree_example =
    free_chain-IsFree 2 (1 ∷ []) 2 busy_vq [] none-IsFree (refl, refl, refl) (refl, (refl, tt))
      (λ c i. (refl, ground arith)) (omega arith) (omega arith) (omega arith)

busy-Tracked : Tracked busy_world.blk [] (two_one ∷ [])
busy-Tracked = record {
  free_list = none-IsFree;
  linked = ((refl, refl, refl), tt);
  distinct = (refl, (refl, tt));
  apart = λ d e. refl;
  within = λ d e. ground arith;
  busy = λ d e. ground arith;
  idle = λ d e. ground arith;
  count = refl;
  fits = omega arith;
  small = omega arith;
}

blk_process_irq_lem_example :
    (w' : World ℕ) × (process_irq 2 2 busy_world ≡ some w')
    × Tracked w'.blk (free_after (2 ∷ []) (two_one ∷ []) []) (out_after (2 ∷ []) (two_one ∷ []))
    × ((w'.kernel, w'.segments)
        ≡ complete_all busy_world.blk.active_requests busy_world.reqs busy_world.req_buffers
            (2 ∷ [])
            (busy_world.kernel, busy_world.segments))
    × (w'.blk.vq.last_used_idx ≡ w'.blk.vq.used_idx)
blk_process_irq_lem_example =
    blk_process_irq_lem (2 ∷ []) 2 2 busy_world [] (two_one ∷ []) busy-Tracked
      (refl, refl, refl, refl) (omega arith) (omega arith)

-- A version 2 device with a queue of eight entries, whose other registers read as written.
abbrev eight : ℕ → ℕ
eight = update (λ a. 0) (4096 + Offset.queue_num_max) 8

abbrev plain_config : Config (ℕ → ℕ)
plain_config = record { read8 = λ d a. (d, 0); read64 = λ d a. (d, 2048) }

blk_init_mmio-SetUp_example :
    let t : Transport = record { base = 4096; version = 2 } in
    SetUp (init_mmio registers plain_config t 65_536 (blk, eight)).1
unfolding init_mmio begin_mmio accept_mmio queue_mmio finish_mmio reset set_status get_status
    set_features get_queue_size setup_queue setup_addresses write_address init
blk_init_mmio-SetUp_example =
    let t : Transport = record { base = 4096; version = 2 } in
    blk_init_mmio-SetUp registers plain_config t 65_536 blk eight (λ i le. refl) refl (omega arith)
