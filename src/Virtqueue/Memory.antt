-- ===== src/Virtqueue/Memory.antt =====
-- Where `virtqueue_init` (driver/virtio/virtio.c) puts the tables in a queue's memory.
use picokernel.Prelude.{ℕ, ◌+◌, ◌*◌, ◌%◌, ◌^◌, ◌≤◌, ◌<◌, ◌≡◌, refl, arith}
use picokernel.Virtqueue.{Virtqueue, init}

-- For a queue of 1 to 256 entries and a page-aligned memory of 10246 bytes (what
-- `virtqueue_memory_t` has before its own alignment) below 2 ^ 64, the three tables lie in the
-- memory one after another without overlap, and the used ring is page-aligned.
pub init_layout :
    (vq : Virtqueue) (queue_size base : ℕ)
    → 0 < queue_size
    → queue_size ≤ 256
    → base % 4096 ≡ 0
    → base + 10_246 < 2 ^ 64
    → let v = init vq queue_size base in
      (v.desc_address ≡ base)
      × (v.desc_address + 16 * queue_size ≤ v.avail_address)
      × (v.avail_address + (6 + 2 * queue_size) ≤ v.used_address)
      × (v.used_address + (6 + 8 * queue_size) ≤ base + 10_246)
      × (v.used_address % 4096 ≡ 0)
unfolding init
init_layout vq queue_size base lo hi aligned fits =
    (refl, omega arith, omega arith, omega arith, omega arith)
