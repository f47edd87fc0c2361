-- ===== src/Mmio/Queue.antt =====
-- What a device learns of a queue from `virtio_mmio_setup_queue` (driver/virtio/virtio_mmio.c).
use picokernel.Prelude.{ℕ, ◌+◌, ◌*◌, ◌-◌, ◌/◌, ◌%◌, ◌^◌, ◌≤◌, ◌<◌, ◌≡◌, refl, arith, update, ◌==◌}
use picokernel.Virtqueue.{Virtqueue, init}
use picokernel.Mmio.{Mmio, Transport, success, setup_queue, setup_addresses, write_address}
use picokernel.Mmio.Offset

-- A device of plain registers: it reads back what was written.
abbrev pub registers : Mmio (ℕ → ℕ)
registers = record { read32 = λ d a. (d, d a); write32 = λ d a v. update d a (v % 2 ^ 32) }

-- A 64-bit address from two registers.
abbrev pub address_in : (ℕ → ℕ) → ℕ → ℕ → ℕ
address_in d low high = d high * 2 ^ 32 + d low

far : (base x y : ℕ) → (base + x == base + y) ≡ (x == y)
far base x y = ground arith

-- On a version 2 transport whose queue is not ready yet, `virtio_mmio_setup_queue` succeeds, and the
-- registers then hold the queue's index and size, the 64-bit addresses of its three tables, and that
-- it is ready.
pub setup_queue_modern :
    (base queue_idx queue_size : ℕ) (vq : Virtqueue) (d : ℕ → ℕ)
    → base + 4096 < 2 ^ 64
    → queue_idx < 2 ^ 16
    → queue_size < 2 ^ 16
    → vq.desc_address < 2 ^ 64
    → vq.avail_address < 2 ^ 64
    → vq.used_address < 2 ^ 64
    → d (base + Offset.queue_ready) ≡ 0
    → let t : Transport = record { base = base; version = 2 } in
      let r = setup_queue registers t queue_idx vq queue_size d in
      (r.0 ≡ success)
      × (r.1 (base + Offset.queue_sel) ≡ queue_idx)
      × (r.1 (base + Offset.queue_num) ≡ queue_size)
      × (address_in r.1 (base + Offset.queue_desc_low) (base + Offset.queue_desc_high)
          ≡ vq.desc_address)
      × (address_in r.1 (base + Offset.queue_driver_low) (base + Offset.queue_driver_high)
          ≡ vq.avail_address)
      × (address_in r.1 (base + Offset.queue_device_low) (base + Offset.queue_device_high)
          ≡ vq.used_address)
      × (r.1 (base + Offset.queue_ready) ≡ 1)
unfolding setup_queue setup_addresses write_address
setup_queue_modern base queue_idx queue_size vq d fits i s da aa ua ready =
    let a : (off : ℕ) → off < 4096 → (base + off) % 2 ^ 64 ≡ base + off = λ off lt. omega arith in
    rw
      (
        a Offset.queue_sel (omega arith),
        a Offset.queue_ready (omega arith),
        a Offset.queue_num (omega arith),
        a Offset.queue_desc_low (omega arith),
        a Offset.queue_desc_high (omega arith),
        a Offset.queue_driver_low (omega arith),
        a Offset.queue_driver_high (omega arith),
        a Offset.queue_device_low (omega arith),
        a Offset.queue_device_high (omega arith),
      )
      (simp (far base, ready)
        (refl, omega arith, omega arith, omega arith, omega arith, omega arith, refl))

-- Where a version 1 device has the used ring of a queue: after the descriptors and the available ring
-- (with its event index), at the next multiple of the alignment.
abbrev pub legacy_used : ℕ → ℕ → ℕ → ℕ
legacy_used address queue_size align =
    (address + 16 * queue_size + (6 + 2 * queue_size) + (align - 1)) / align * align

-- On a version 1 transport, `virtio_mmio_setup_queue` succeeds on a queue of at most 256 entries that
-- `virtqueue_init` put into a page-aligned memory below 2 ^ 44 - 16384. The registers then hold the
-- page of the memory, and the used ring that the device finds from it is the one of the queue.
setup_queue_legacy :
    (base queue_idx queue_size memory : ℕ) (vq : Virtqueue) (d : ℕ → ℕ)
    → base + 4096 < 2 ^ 64
    → queue_idx < 2 ^ 16
    → queue_size ≤ 256
    → memory % 4096 ≡ 0
    → memory + 16_384 < 2 ^ 44
    → let t : Transport = record { base = base; version = 1 } in
      let v = init vq queue_size memory in
      let r = setup_queue registers t queue_idx v queue_size d in
      let align = r.1 (base + Offset.queue_align) in
      let address = r.1 (base + Offset.queue_pfn) * align in
      (r.0 ≡ success)
      × (r.1 (base + Offset.queue_sel) ≡ queue_idx)
      × (r.1 (base + Offset.queue_num) ≡ queue_size)
      × (address ≡ v.desc_address)
      × (legacy_used address queue_size align ≡ v.used_address)
unfolding setup_queue setup_addresses init
setup_queue_legacy base queue_idx queue_size memory vq d fits i s aligned small =
    let a : (off : ℕ) → off < 4096 → (base + off) % 2 ^ 64 ≡ base + off = λ off lt. omega arith in
    rw
      (
        a Offset.queue_sel (omega arith),
        a Offset.queue_num (omega arith),
        a Offset.queue_align (omega arith),
        a Offset.queue_pfn (omega arith),
      )
      (simp (far base) (refl, omega arith, omega arith, omega arith, omega arith))
