-- ===== src/Pci.antt =====
-- driver/virtio/virtio_pci.c: the registers of a VirtIO device on the PCI bus. The device's
-- capabilities in its configuration space say where the registers are.
pub mod Common
pub mod Walk
pub mod Queue
mod Tests
use picokernel.Prelude.{
  ℕ, zero, suc, ◌+◌, ◌-◌, ◌*◌, ◌/◌, ◌%◌, ◌^◌, Bool, true, false, ◌&&◌, not, Option, none, some,
  ◌==◌, if◌then◌else◌,
}
use picokernel.Virtqueue.{Virtqueue}
use picokernel.Mmio.{Outcome, success, failure}
use picokernel.Pci.Common

-- Where a device is on the bus.
pub record Location : Type 0 where
  pub bus : ℕ
  pub slot : ℕ
  pub func : ℕ

-- The platform's accesses to the configuration space (platform_pci_config_read8 and its kin), the base
-- of a BAR (platform_pci_read_bar), and accesses to registers. A device is whatever `D` makes of them.
pub record Pci (D : Type 0) : Type 0 where
  pub config_read8 : D → Location → ℕ → D × ℕ
  pub config_read16 : D → Location → ℕ → D × ℕ
  pub config_read32 : D → Location → ℕ → D × ℕ
  pub config_write16 : D → Location → ℕ → ℕ → D
  pub read_bar : D → Location → ℕ → D × ℕ
  pub read8 : D → ℕ → D × ℕ
  pub read16 : D → ℕ → D × ℕ
  pub read32 : D → ℕ → D × ℕ
  pub read64 : D → ℕ → D × ℕ
  pub write8 : D → ℕ → ℕ → D
  pub write16 : D → ℕ → ℕ → D
  pub write32 : D → ℕ → ℕ → D
  pub write64 : D → ℕ → ℕ → D

-- `virtio_pci_transport_t`
pub record Transport : Type 0 where
  pub location : Location
  pub common_cfg : ℕ
  pub isr_status : ℕ
  pub device_cfg : ℕ
  pub notify_base : ℕ
  pub notify_off_multiplier : ℕ
  pub msix_config_vector : ℕ
  pub msix_queue_vector : ℕ

-- PCI_REG_COMMAND and PCI_REG_CAPABILITIES
abbrev pub reg_command : ℕ
reg_command = 0x04

abbrev pub reg_capabilities : ℕ
reg_capabilities = 0x34

-- The identifier of a vendor-specific capability, and VIRTIO_PCI_CAP_*
abbrev pub cap_vendor : ℕ
cap_vendor = 0x09

abbrev pub cap_common : ℕ
cap_common = 1

abbrev pub cap_notify : ℕ
cap_notify = 2

abbrev pub cap_isr : ℕ
cap_isr = 3

abbrev pub cap_device : ℕ
cap_device = 4

-- What the walk over the capabilities has found.
pub record Found : Type 0 where
  pub common : Bool
  pub notify : Bool
  pub isr : Bool

-- `command | MEM_ENABLE | BUS_MASTER`, and without INT_DISABLE: bits 1 and 2 are set, bit 10 is not.
abbrev pub enabled_command : ℕ → ℕ
enabled_command c = c / 2 ^ 11 * 2 ^ 11 + c % 2 ^ 10 / 2 ^ 3 * 2 ^ 3 + 6 + c % 2

module _ {D : Type 0} (io : Pci D) where
  open io use {
    config_read8, config_read16, config_read32, config_write16, read_bar, read8, read16, read32,
    write8, write16, write32, write64,
  }

  -- What a vendor-specific capability at `cap` sets.
  unfoldable pub read_capability : ℕ → D × Transport × Found → D × Transport × Found
  read_capability cap_offset (d, t, f) =
      let (d₁, cfg_type) = config_read8 d t.location ((cap_offset + 3) % 2 ^ 8) in
      let (d₂, bar) = config_read8 d₁ t.location ((cap_offset + 4) % 2 ^ 8) in
      let (d₃, offset) = config_read32 d₂ t.location ((cap_offset + 8) % 2 ^ 8) in
      let (d₄, bar_base) = read_bar d₃ t.location bar in
      let address = (bar_base + offset) % 2 ^ 64 in
      let (d₅, multiplier) = config_read32 d₄ t.location ((cap_offset + 16) % 2 ^ 8) in
      if cfg_type == cap_common
      then (d₄, record t { common_cfg = address }, record f { common = true })
      else if cfg_type == cap_notify
      then (
        d₅,
        record t { notify_base = address; notify_off_multiplier = multiplier },
        record f { notify = true },
      )
      else if cfg_type == cap_isr
      then (d₄, record t { isr_status = address }, record f { isr = true })
      else if cfg_type == cap_device
      then (d₄, record t { device_cfg = address }, f)
      else (d₄, t, f)

  -- The body of the loop of `virtio_find_capabilities`: the next capability's offset too.
  unfoldable pub visit : ℕ → D × Transport × Found → ℕ × D × Transport × Found
  visit cap_offset (d, t, f) =
      let (d₁, id) = config_read8 d t.location cap_offset in
      let (d₂, t₂, f₂) =
        if id == cap_vendor then read_capability cap_offset (d₁, t, f) else (d₁, t, f) in
      let (d₃, next) = config_read8 d₂ t.location ((cap_offset + 1) % 2 ^ 8) in (next, d₃, t₂, f₂)

  unfoldable pub walk : ℕ → ℕ → D × Transport × Found → Option (D × Transport × Found)
  walk zero cap_offset s = none
  walk (suc fuel) cap_offset s =
      let (next, d', t', f') = visit cap_offset s in
      let more = walk fuel next (d', t', f') in if cap_offset == 0 then some s else more

  -- `virtio_find_capabilities`
  unfoldable pub find_capabilities : ℕ → D × Transport → Option (Outcome × D × Transport)
  find_capabilities fuel (d, t) =
      let (d₁, cap_offset) = config_read8 d t.location reg_capabilities in
      let nothing : Found = record { common = false; notify = false; isr = false } in
      if cap_offset == 0
      then some (failure, d₁, t)
      else elim (walk fuel cap_offset (d₁, t, nothing)) [
        | none ↦ none
        | some (d₂, t₂, f) ↦
            some (if f.common && f.notify && f.isr then success else failure, d₂, t₂)
      ]

  -- `virtio_pci_init`
  unfoldable pub init : ℕ → Location → D × Transport → Option (Outcome × D × Transport)
  init fuel location (d, t) =
      let t₁ = record t {
        location = location;
        msix_config_vector = 0xFFFF;
        msix_queue_vector = 0xFFFF;
      } in
      let (d₁, command) = config_read16 d location reg_command in
      let d₂ = config_write16 d₁ location reg_command (enabled_command command) in
      find_capabilities fuel (d₂, t₁)

  -- `&common_cfg->member`
  abbrev pub common : Transport → ℕ → ℕ
  common t member = (t.common_cfg + member) % 2 ^ 64

  unfoldable pub reset : Transport → D → D
  reset t d = write8 d (common t Common.device_status) 0

  unfoldable pub set_status : Transport → ℕ → D → D
  set_status t status d = write8 d (common t Common.device_status) status

  unfoldable pub get_status : Transport → D → D × ℕ
  get_status t d = read8 d (common t Common.device_status)

  unfoldable pub get_features : Transport → ℕ → D → D × ℕ
  get_features t select d =
      read32 (write32 d (common t Common.device_feature_select) select)
        (common t Common.device_feature)

  unfoldable pub set_features : Transport → ℕ → ℕ → D → D
  set_features t select features d =
      write32 (write32 d (common t Common.driver_feature_select) select)
        (common t Common.driver_feature) features

  unfoldable pub get_queue_size : Transport → ℕ → D → D × ℕ
  get_queue_size t queue_idx d =
      read16 (write16 d (common t Common.queue_select) queue_idx) (common t Common.queue_size)

  -- `virtio_pci_setup_queue`, which does not use the size that it is given.
  unfoldable pub setup_queue : Transport → ℕ → Virtqueue → D → Virtqueue × D
  setup_queue t queue_idx vq d =
      let d₁ = write16 d (common t Common.queue_select) queue_idx in
      let d₂ = write64 d₁ (common t Common.queue_desc) vq.desc_address in
      let d₃ = write64 d₂ (common t Common.queue_driver) vq.avail_address in
      let d₄ = write64 d₃ (common t Common.queue_device) vq.used_address in
      let (d₅, notify_off) = read16 d₄ (common t Common.queue_notify_off) in
      let d₆ = write16 d₅ (common t Common.queue_msix_vector) t.msix_queue_vector in
      let (d₇, actual) = read16 d₆ (common t Common.queue_msix_vector) in
      (
        record vq { queue_index = queue_idx; notify_offset = notify_off },
        write16 d₇ (common t Common.queue_enable) 1,
      )

  unfoldable pub notify_queue : Transport → Virtqueue → D → D
  notify_queue t vq d =
      let offset = t.notify_off_multiplier * vq.notify_offset % 2 ^ 32 in
      write16 d ((t.notify_base + offset) % 2 ^ 64) vq.queue_index

  unfoldable pub read_isr : Transport → D → D × ℕ
  read_isr t d = read8 d t.isr_status

-- `virtio_pci_set_msix_vectors`
pub set_msix_vectors : Transport → ℕ → ℕ → Transport
set_msix_vectors t config queue = record t {
  msix_config_vector = config;
  msix_queue_vector = queue;
}
