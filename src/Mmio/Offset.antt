-- ===== src/Mmio/Offset.antt =====
-- The offsets of a device's registers, VIRTIO_MMIO_* of driver/virtio/virtio_mmio.h.
use picokernel.Prelude.{ℕ}

abbrev pub magic_value : ℕ
magic_value = 0x000

abbrev pub version : ℕ
version = 0x004

abbrev pub device_id : ℕ
device_id = 0x008

abbrev pub device_features : ℕ
device_features = 0x010

abbrev pub device_features_sel : ℕ
device_features_sel = 0x014

abbrev pub driver_features : ℕ
driver_features = 0x020

abbrev pub driver_features_sel : ℕ
driver_features_sel = 0x024

abbrev pub queue_sel : ℕ
queue_sel = 0x030

abbrev pub queue_num_max : ℕ
queue_num_max = 0x034

abbrev pub queue_num : ℕ
queue_num = 0x038

abbrev pub queue_align : ℕ
queue_align = 0x03c

abbrev pub queue_pfn : ℕ
queue_pfn = 0x040

abbrev pub queue_ready : ℕ
queue_ready = 0x044

abbrev pub queue_notify : ℕ
queue_notify = 0x050

abbrev pub interrupt_status : ℕ
interrupt_status = 0x060

abbrev pub interrupt_ack : ℕ
interrupt_ack = 0x064

abbrev pub status : ℕ
status = 0x070

abbrev pub queue_desc_low : ℕ
queue_desc_low = 0x080

abbrev pub queue_desc_high : ℕ
queue_desc_high = 0x084

abbrev pub queue_driver_low : ℕ
queue_driver_low = 0x090

abbrev pub queue_driver_high : ℕ
queue_driver_high = 0x094

abbrev pub queue_device_low : ℕ
queue_device_low = 0x0a0

abbrev pub queue_device_high : ℕ
queue_device_high = 0x0a4

abbrev pub guest_page_size : ℕ
guest_page_size = 0x028
