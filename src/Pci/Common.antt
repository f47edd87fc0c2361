-- ===== src/Pci/Common.antt =====
-- The offsets of the members of `virtio_pci_common_cfg_t` (driver/virtio/virtio_pci.h).
use picokernel.Prelude.{ℕ}

abbrev pub device_feature_select : ℕ
device_feature_select = 0

abbrev pub device_feature : ℕ
device_feature = 4

abbrev pub driver_feature_select : ℕ
driver_feature_select = 8

abbrev pub driver_feature : ℕ
driver_feature = 12

abbrev pub msix_config : ℕ
msix_config = 16

abbrev pub device_status : ℕ
device_status = 20

abbrev pub queue_select : ℕ
queue_select = 22

abbrev pub queue_size : ℕ
queue_size = 24

abbrev pub queue_msix_vector : ℕ
queue_msix_vector = 26

abbrev pub queue_enable : ℕ
queue_enable = 28

abbrev pub queue_notify_off : ℕ
queue_notify_off = 30

abbrev pub queue_desc : ℕ
queue_desc = 32

abbrev pub queue_driver : ℕ
queue_driver = 40

abbrev pub queue_device : ℕ
queue_device = 48
