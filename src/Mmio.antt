-- ===== src/Mmio.antt =====
-- driver/virtio/virtio_mmio.c: the registers of a VirtIO device behind memory-mapped I/O. A transport
-- that the functions take and change is passed and returned, and so is the device.
pub mod Offset
pub mod Queue
mod Tests
use picokernel.Prelude.{ℕ, ◌+◌, ◌/◌, ◌%◌, ◌^◌, Bool, ◌==◌, ltb, leb, if◌then◌else◌, not, ◌||◌}
use picokernel.Virtqueue.{Virtqueue}
use picokernel.Mmio.Offset

-- The platform's platform_mmio_read32 and platform_mmio_write32: single machine instructions. A device
-- is whatever `D` makes of an access to an address.
pub record Mmio (D : Type 0) : Type 0 where
  pub read32 : D → ℕ → D × ℕ
  pub write32 : D → ℕ → ℕ → D

-- `virtio_mmio_transport_t`
pub record Transport : Type 0 where
  pub base : ℕ
  pub version : ℕ

-- VIRTIO_MMIO_MAGIC
abbrev pub magic : ℕ
magic = 0x74726976

-- The two results of the functions that can fail.
pub data Outcome : Type 0 where
  success failure : Outcome

module _ {D : Type 0} (io : Mmio D) where
  open io use {read32, write32}

  -- `mmio->base + offset`
  abbrev pub register : Transport → ℕ → ℕ
  register t offset = (t.base + offset) % 2 ^ 64

  unfoldable pub init : Transport → ℕ → D → Outcome × Transport × D
  init t base d =
      let t₁ = record t { base = base } in
      let (d₁, found) = read32 d (register t₁ Offset.magic_value) in
      let (d₂, version) = read32 d₁ (register t₁ Offset.version) in
      let t₂ = record t₁ { version = version } in
      if not (found == magic)
      then (failure, t₁, d₁)
      else if ltb version 1 || ltb 2 version
      then (failure, t₂, d₂)
      else (success, t₂, d₂)

  unfoldable pub reset : Transport → D → D
  reset t d = write32 d (register t Offset.status) 0

  unfoldable pub set_status : Transport → ℕ → D → D
  set_status t status d = write32 d (register t Offset.status) status

  unfoldable pub get_status : Transport → D → D × ℕ
  get_status t d = let (d', s) = read32 d (register t Offset.status) in (d', s % 2 ^ 8)

  unfoldable pub get_device_id : Transport → D → D × ℕ
  get_device_id t d = read32 d (register t Offset.device_id)

  unfoldable pub get_features : Transport → ℕ → D → D × ℕ
  get_features t select d =
      read32 (write32 d (register t Offset.device_features_sel) select)
        (register t Offset.device_features)

  unfoldable pub set_features : Transport → ℕ → ℕ → D → D
  set_features t select features d =
      write32 (write32 d (register t Offset.driver_features_sel) select)
        (register t Offset.driver_features) features

  unfoldable pub get_queue_size : Transport → ℕ → D → D × ℕ
  get_queue_size t queue_idx d =
      let (d', s) =
        read32 (write32 d (register t Offset.queue_sel) queue_idx)
          (register t Offset.queue_num_max) in
      (d', s % 2 ^ 16)

  -- A 64-bit address in two registers.
  unfoldable pub write_address : Transport → ℕ → ℕ → ℕ → D → D
  write_address t low high address d =
      write32 (write32 d (register t low) (address % 2 ^ 32)) (register t high) (address / 2 ^ 32)

  -- What remains of `virtio_mmio_setup_queue` once the queue is known not to be in use.
  unfoldable pub setup_addresses : Transport → Virtqueue → ℕ → D → D
  setup_addresses t vq queue_size d =
      let d₁ = write32 d (register t Offset.queue_num) queue_size in
      if t.version == 1
      then write32 (write32 d₁ (register t Offset.queue_align) 4096) (register t Offset.queue_pfn)
          (vq.desc_address / 2 ^ 12 % 2 ^ 32)
      else let d₂ =
          write_address t Offset.queue_desc_low Offset.queue_desc_high vq.desc_address d₁ in
        let d₃ =
          write_address t Offset.queue_driver_low Offset.queue_driver_high vq.avail_address d₂ in
        let d₄ =
          write_address t Offset.queue_device_low Offset.queue_device_high vq.used_address d₃ in
        write32 d₄ (register t Offset.queue_ready) 1

  unfoldable pub setup_queue : Transport → ℕ → Virtqueue → ℕ → D → Outcome × D
  setup_queue t queue_idx vq queue_size d =
      let d₁ = write32 d (register t Offset.queue_sel) queue_idx in
      let (d₂, ready) = read32 d₁ (register t Offset.queue_ready) in
      if leb 2 t.version
      then if not (ready == 0) then (failure, d₂) else (success, setup_addresses t vq queue_size d₂)
      else (success, setup_addresses t vq queue_size d₁)

  unfoldable pub notify_queue : Transport → ℕ → D → D
  notify_queue t queue_idx d = write32 d (register t Offset.queue_notify) queue_idx

  unfoldable pub read_isr : Transport → D → D × ℕ
  read_isr t d = read32 d (register t Offset.interrupt_status)

  unfoldable pub ack_isr : Transport → ℕ → D → D
  ack_isr t status d = write32 d (register t Offset.interrupt_ack) status
