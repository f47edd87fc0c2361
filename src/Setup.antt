-- ===== src/Setup.antt =====
-- The steps that the set-up functions of the drivers (driver/virtio/virtio_rng.c, virtio_blk.c and
-- virtio_net.c) share, for each transport.
pub mod Queue
use picokernel.Prelude.{ℕ, ◌+◌, ◌/◌, ◌%◌, ◌^◌, Bool, ◌==◌, ltb, if◌then◌else◌, not}
use picokernel.State.{Ptr, null}
use picokernel.Virtqueue.{Virtqueue}
use picokernel.Virtqueue
use picokernel.Mmio.{Mmio, register}
use picokernel.Mmio
use picokernel.Mmio.Offset
use picokernel.Pci.{Pci}
use picokernel.Pci

-- VIRTIO_STATUS_ACKNOWLEDGE, VIRTIO_STATUS_DRIVER, VIRTIO_STATUS_DRIVER_OK and
-- VIRTIO_STATUS_FEATURES_OK, as the driver combines them.
abbrev pub acknowledge : ℕ
acknowledge = 1

abbrev pub with_driver : ℕ
with_driver = acknowledge + 2

abbrev pub with_features_ok : ℕ
with_features_ok = with_driver + 8

abbrev pub with_driver_ok : ℕ
with_driver_ok = with_features_ok + 4

-- `status & VIRTIO_STATUS_FEATURES_OK` and `status & VIRTIO_STATUS_FAILED`
abbrev pub features_ok : ℕ → Bool
features_ok status = status / 8 % 2 == 1

abbrev pub failed : ℕ → Bool
failed status = status / 128 % 2 == 1

-- VIRTIO_RNG_MAX_REQUESTS, VIRTIO_BLK_MAX_REQUESTS and VIRTIO_NET_MAX_REQUESTS
abbrev pub max_queue : ℕ
max_queue = 256

abbrev pub capped : ℕ → ℕ
capped n = if ltb max_queue n then max_queue else n

-- The table of requests with each of its slots NULL.
abbrev pub cleared : (ℕ → Ptr) → ℕ → Ptr
cleared slots i = if ltb i max_queue then null else slots i

-- The platform's platform_mmio_read8 and platform_mmio_read64.
pub record Config (D : Type 0) : Type 0 where
  pub read8 : D → ℕ → D × ℕ
  pub read64 : D → ℕ → D × ℕ

module _ {D : Type 0} (io : Mmio D) where
  -- Reset, ACKNOWLEDGE and DRIVER, and the page size of a version 1 device.
  unfoldable pub begin_mmio : Mmio.Transport → D → D
  begin_mmio t d =
      let d₁ = Mmio.reset io t d in
      let d₂ = Mmio.set_status io t acknowledge d₁ in
      let d₃ = Mmio.set_status io t with_driver d₂ in
      if t.version == 1 then io.write32 d₃ (register io t Offset.guest_page_size) 4096 else d₃

  -- FEATURES_OK, and whether the device keeps it.
  unfoldable pub accept_mmio : Mmio.Transport → D → D × Bool
  accept_mmio t d =
      let (d', status) = Mmio.get_status io t (Mmio.set_status io t with_features_ok d) in
      (d', features_ok status)

  unfoldable pub queue_mmio : Mmio.Transport → ℕ → Virtqueue → ℕ → D → Virtqueue × D
  queue_mmio t queue_idx vq memory d =
      let (d₁, n) = Mmio.get_queue_size io t queue_idx d in
      let vq' = Virtqueue.init vq (capped n) memory in
      let (_, d₂) = Mmio.setup_queue io t queue_idx vq' (capped n) d₁ in (vq', d₂)

  -- DRIVER_OK, and whether the device has not failed.
  unfoldable pub finish_mmio : Mmio.Transport → D → D × Bool
  finish_mmio t d =
      let (d', status) = Mmio.get_status io t (Mmio.set_status io t with_driver_ok d) in
      (d', not (failed status))

module _ {D : Type 0} (io : Pci D) where
  unfoldable pub begin_pci : Pci.Transport → D → D
  begin_pci t d =
      Pci.set_status io t with_driver (Pci.set_status io t acknowledge (Pci.reset io t d))

  unfoldable pub accept_pci : Pci.Transport → D → D × Bool
  accept_pci t d =
      let (d', status) = Pci.get_status io t (Pci.set_status io t with_features_ok d) in
      (d', features_ok status)

  unfoldable pub queue_pci : Pci.Transport → ℕ → Virtqueue → ℕ → D → Virtqueue × D
  queue_pci t queue_idx vq memory d =
      let (d₁, n) = Pci.get_queue_size io t queue_idx d in
      Pci.setup_queue io t queue_idx (Virtqueue.init vq (capped n) memory) d₁
