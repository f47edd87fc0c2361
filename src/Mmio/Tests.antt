-- ===== src/Mmio/Tests.antt =====
-- The theorems about the MMIO transport at inputs that meet their hypotheses.
use picokernel.Prelude.{◌+◌, ◌^◌}
use picokernel.Virtqueue.{Virtqueue}

abbrev empty : Virtqueue
empty = record {
  queue_size = 0;
  num_free = 0;
  free_head = 0;
  last_used_idx = 0;
  notify_offset = 0;
  queue_index = 0;
  desc_address = 2 ^ 32 + 4096;
  avail_address = 2 ^ 32 + 8192;
  used_address = 2 ^ 32 + 12_288;
  desc = λ i. record { addr = 0; len = 0; flags = 0; next = 0 };
  avail_flags = 0;
  avail_idx = 0;
  avail_ring = λ i. 0;
  used_flags = 0;
  used_idx = 0;
  used_ring = λ i. record { id = 0; len = 0 };
}
