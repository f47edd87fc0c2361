-- ===== src/Blk/Tracked.antt =====
-- The state that the block driver (driver/virtio/virtio_blk.c) keeps between its functions.
use picokernel.Prelude.{List, ℕ}
use picokernel.Virtqueue.Chains.{Taken}
use picokernel.Virtqueue.Chains.Slots.{Slots}
use picokernel.Blk.{Blk}

-- The descriptors of the device: `free` are free, the chains `out` carry a request each.
abbrev pub Tracked : Blk → List ℕ → List Taken → Type 0
Tracked blk free out = Slots blk.vq blk.active_requests blk.outstanding_requests free out
