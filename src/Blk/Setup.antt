-- ===== src/Blk/Setup.antt =====
-- `virtio_blk_init_mmio` and `virtio_blk_init_pci` (driver/virtio/virtio_blk.c).
use picokernel.Prelude.{
  ℕ, ◌+◌, ◌%◌, ◌^◌, ◌<◌, ◌≤◌, ◌≡◌, ◌≢◌, refl, sym, subst, [], arith, ◌==◌, if◌then◌else◌, not,
}
use picokernel.Virtqueue.{Virtqueue}
use picokernel.Virtqueue.FreeList.{range}
use picokernel.Mmio.{Mmio, Outcome, success, failure, register}
use picokernel.Mmio
use picokernel.Pci.{Pci}
use picokernel.Pci
use picokernel.Pci.Common
use picokernel.Rng.{transport_mmio, transport_pci}
use picokernel.Setup.{
  Config, cleared, max_queue, begin_mmio, accept_mmio, queue_mmio, finish_mmio, begin_pci,
  accept_pci, queue_pci, with_driver_ok,
}
use picokernel.Setup.Queue.{
  EmptyBeyond, Fresh, queue_mmio-Fresh, queue_pci-Fresh, Fresh-Slots, both_passed, one_passed,
}
use picokernel.Blk.{Blk}
use picokernel.Blk.Tracked.{Tracked}

-- Where the device's configuration starts behind its other registers, and the offsets of `capacity`,
-- `seg_max` and `blk_size` in `virtio_blk_config_t`.
abbrev pub config_offset : ℕ
config_offset = 0x100

abbrev pub capacity_offset : ℕ
capacity_offset = 0

abbrev pub seg_max_offset : ℕ
seg_max_offset = 12

abbrev pub blk_size_offset : ℕ
blk_size_offset = 20

-- The configuration's values as the driver keeps them, with its defaults.
abbrev pub with_config : Blk → (capacity sector_size seg_max : ℕ) → Blk
with_config blk capacity sector_size seg_max = record blk {
  capacity = capacity;
  sector_size = if sector_size == 0 then 512 else sector_size;
  seg_max = if seg_max == 0 then 1 else seg_max;
}

abbrev pub ready : Blk → Blk
ready blk = record blk { outstanding_requests = 0; active_requests = cleared blk.active_requests }

abbrev pub with_queue : Blk → Virtqueue → Blk
with_queue blk vq = record blk { vq = vq; queue_size = vq.queue_size }

-- `virtio_blk_init_mmio`, with the queue's memory at an address.
unfoldable pub init_mmio :
    {D : Type 0} → Mmio D → Config D → Mmio.Transport → ℕ → Blk × D → Outcome × Blk × D
init_mmio io config t memory (blk, d) =
    let at = λ (member : ℕ). register io t (config_offset + member) in
    let (d₁, capacity) = config.read64 (begin_mmio io t d) (at capacity_offset) in
    let (d₂, sector_size) = io.read32 d₁ (at blk_size_offset) in
    let (d₃, seg_max) = io.read32 d₂ (at seg_max_offset) in
    let blk₁ =
      with_config (record blk { transport_type = transport_mmio }) capacity sector_size seg_max in
    let (d₄, kept) = accept_mmio io t (Mmio.set_features io t 0 0 d₃) in
    let (vq, d₅) = queue_mmio io t 0 blk.vq memory d₄ in
    let blk₂ = with_queue blk₁ vq in
    let (d₆, alive) = finish_mmio io t d₅ in
    if not kept
    then (failure, blk₁, d₄)
    else if not alive
    then (failure, blk₂, d₆)
    else (success, ready blk₂, d₆)

-- `virtio_blk_init_pci`
unfoldable pub init_pci : {D : Type 0} → Pci D → Pci.Transport → ℕ → Blk × D → Outcome × Blk × D
init_pci io t memory (blk, d) =
    let at = λ (member : ℕ). (t.device_cfg + member) % 2 ^ 64 in
    let (d₁, capacity) = io.read64 (begin_pci io t d) (at capacity_offset) in
    let (d₂, sector_size) = io.read32 d₁ (at blk_size_offset) in
    let (d₃, seg_max) = io.read32 d₂ (at seg_max_offset) in
    let blk₁ =
      with_config (record blk { transport_type = transport_pci }) capacity sector_size seg_max in
    let (d₄, kept) = accept_pci io t (Pci.set_features io t 0 0 d₃) in
    let d₅ = io.write16 d₄ (Pci.common io t Common.msix_config) t.msix_config_vector in
    let (d₆, actual) = io.read16 d₅ (Pci.common io t Common.msix_config) in
    let (vq, d₇) = queue_pci io t 0 blk.vq memory d₆ in
    let d₈ = Pci.set_status io t with_driver_ok d₇ in
    if not kept then (failure, blk₁, d₄) else (success, ready (with_queue blk₁ vq), d₈)

-- The driver after a set-up: no request is out, all descriptors are free, there are at most 256,
-- and the sector size and the most segments are not 0.
abbrev pub SetUp : Blk → Type 0
SetUp blk =
    Tracked blk (range blk.queue_size 0) []
    × (blk.vq.queue_size ≡ blk.queue_size)
    × (blk.queue_size ≤ max_queue)
    × (blk.sector_size ≢ 0)
    × (blk.seg_max ≢ 0)

default_ne : (n other : ℕ) → other ≢ 0 → (if n == 0 then other else n) ≢ 0
default_ne n other ne = ground (arith, ne)

ready-SetUp :
    (blk : Blk) (vq : Virtqueue) (capacity sector_size seg_max : ℕ)
    → EmptyBeyond blk.active_requests
    → Fresh vq
    → SetUp (ready (with_queue (with_config blk capacity sector_size seg_max) vq))
ready-SetUp blk vq capacity sector_size seg_max beyond f = (
  Fresh-Slots vq blk.active_requests beyond f,
  refl,
  f.most,
  default_ne sector_size 512 (λ e. absurd (omega arith)),
  default_ne seg_max 1 (λ e. absurd (omega arith)),
)

-- Where `virtio_blk_init_mmio` succeeds with a queue of the device that is not empty, no request is
-- out, all descriptors are free, there are at most 256 of them, and the sector size and the most
-- segments are not 0, whatever the structure held.
pub blk_init_mmio-SetUp :
    {D : Type 0} (io : Mmio D) (config : Config D) (t : Mmio.Transport) (memory : ℕ) (blk : Blk)
    (d : D)
    → let (result, blk', _) = init_mmio io config t memory (blk, d) in
      EmptyBeyond blk.active_requests → result ≡ success → 0 < blk'.queue_size → SetUp blk'
unfolding init_mmio
blk_init_mmio-SetUp io config t memory blk d beyond e pos =
    let at = λ (member : ℕ). register io t (config_offset + member) in
    let (d₁, capacity) = config.read64 (begin_mmio io t d) (at capacity_offset) in
    let (d₂, sector_size) = io.read32 d₁ (at blk_size_offset) in
    let (d₃, seg_max) = io.read32 d₂ (at seg_max_offset) in
    let blk₀ = record blk { transport_type = transport_mmio } in
    let blk₁ = with_config blk₀ capacity sector_size seg_max in
    let (d₄, kept) = accept_mmio io t (Mmio.set_features io t 0 0 d₃) in
    let (vq, d₅) = queue_mmio io t 0 blk.vq memory d₄ in
    let blk₂ = with_queue blk₁ vq in
    let done = both_passed kept (finish_mmio io t d₅).1 blk₁ blk₂ (ready blk₂) d₄ _ _ e in
    subst SetUp (sym done) (
      ready-SetUp blk₀ vq capacity sector_size seg_max beyond
        (queue_mmio-Fresh io t 0 memory blk.vq d₄ (subst (λ b. 0 < b.queue_size) done pos)))

-- The same for `virtio_blk_init_pci`.
blk_init_pci-SetUp :
    {D : Type 0} (io : Pci D) (t : Pci.Transport) (memory : ℕ) (blk : Blk) (d : D)
    → let (result, blk', _) = init_pci io t memory (blk, d) in
      EmptyBeyond blk.active_requests → result ≡ success → 0 < blk'.queue_size → SetUp blk'
unfolding init_pci
blk_init_pci-SetUp io t memory blk d beyond e pos =
    let at = λ (member : ℕ). (t.device_cfg + member) % 2 ^ 64 in
    let (d₁, capacity) = io.read64 (begin_pci io t d) (at capacity_offset) in
    let (d₂, sector_size) = io.read32 d₁ (at blk_size_offset) in
    let (d₃, seg_max) = io.read32 d₂ (at seg_max_offset) in
    let blk₀ = record blk { transport_type = transport_pci } in
    let blk₁ = with_config blk₀ capacity sector_size seg_max in
    let (d₄, kept) = accept_pci io t (Pci.set_features io t 0 0 d₃) in
    let d₅ = io.write16 d₄ (Pci.common io t Common.msix_config) t.msix_config_vector in
    let (d₆, actual) = io.read16 d₅ (Pci.common io t Common.msix_config) in
    let (vq, d₇) = queue_pci io t 0 blk.vq memory d₆ in
    let done = one_passed kept blk₁ (ready (with_queue blk₁ vq)) d₄ _ e in
    subst SetUp (sym done) (
      ready-SetUp blk₀ vq capacity sector_size seg_max beyond
        (queue_pci-Fresh io t 0 memory blk.vq d₆ (subst (λ b. 0 < b.queue_size) done pos)))
