-- ===== src/Pci/Tests.antt =====
-- The theorems about the PCI transport at inputs that meet their hypotheses.
use picokernel.Prelude.{
  ℕ, ◌+◌, ◌^◌, ◌≡◌, refl, List, [], ◌∷◌, arith, ◌==◌, if◌then◌else◌, some, ◌&&◌,
}
use picokernel.Virtqueue.{Virtqueue}
use picokernel.Mmio.{success, failure}
use picokernel.Pci.{
  Pci, Location, Transport, cap_common, cap_notify, cap_isr, cap_device, find_capabilities,
  setup_queue, notify_queue,
}
use picokernel.Pci.Walk.{Space, some_is_a, last_address, last_multiplier, find_capabilities_lem}
use picokernel.Pci.Queue
use picokernel.Pci.Queue.{Device, QueueSetUp, notify_queue-setup_queue}

abbrev place : Location
place = record { bus = 0; slot = 3; func = 0 }

-- The vendor's capabilities at 0x40, 0x50 and 0x60: common, notification and interrupt status.
abbrev space : Space
space = record {
  byte = λ l a.
      if a == 0x34
      then 0x40
      else if a == 0x41
      then 0x50
      else if a == 0x51
      then 0x60
      else if a == 0x61
      then 0
      else if a == 0x43
      then 1
      else if a == 0x53
      then 2
      else if a == 0x63
      then 3
      else 9;
  word = λ l a. a;
  bar = λ l b. 4096;
}

abbrev device : Pci Unit
device = record {
  config_read8 = λ d l a. (d, space.byte l a);
  config_read16 = λ d l a. (d, 0);
  config_read32 = λ d l a. (d, space.word l a);
  config_write16 = λ d l a v. d;
  read_bar = λ d l b. (d, space.bar l b);
  read8 = λ d a. (d, 0);
  read16 = λ d a. (d, 0);
  read32 = λ d a. (d, 0);
  read64 = λ d a. (d, 0);
  write8 = λ d a v. d;
  write16 = λ d a v. d;
  write32 = λ d a v. d;
  write64 = λ d a v. d;
}

abbrev transport : Transport
transport = record {
  location = place;
  common_cfg = 4096;
  isr_status = 0;
  device_cfg = 0;
  notify_base = 8192;
  notify_off_multiplier = 4;
  msix_config_vector = 0xFFFF;
  msix_queue_vector = 0xFFFF;
}

abbrev three : List ℕ
three = 0x40 ∷ 0x50 ∷ 0x60 ∷ []

find_capabilities_lem_example :
    (t' : Transport) × (find_capabilities device 4 (tt, transport)
      ≡ some (
        if some_is_a space place cap_common three
              && some_is_a space place cap_notify three
              && some_is_a space place cap_isr three
            then success
            else failure,
        tt,
        t',
      ))
    × (t'.common_cfg ≡ last_address space place cap_common three 4096)
    × (t'.notify_base ≡ last_address space place cap_notify three 8192)
    × (t'.notify_off_multiplier ≡ last_multiplier space place three 4)
    × (t'.isr_status ≡ last_address space place cap_isr three 0)
    × (t'.device_cfg ≡ last_address space place cap_device three 0)
find_capabilities_lem_example =
    find_capabilities_lem space place device
      (record {
        config_read8 = λ d l a. refl;
        config_read32 = λ d l a. refl;
        read_bar = λ d l b. refl;
      })
      three 4 tt transport refl
      (
        refl,
        (λ e. absurd (omega arith)),
        (refl, (λ e. absurd (omega arith)), (refl, (λ e. absurd (omega arith)), refl)),
      )
      (omega arith)

abbrev vq : Virtqueue
vq = record {
  queue_size = 0;
  num_free = 0;
  free_head = 0;
  last_used_idx = 0;
  notify_offset = 0;
  queue_index = 0;
  desc_address = 2 ^ 32 + 4096;
  avail_address = 2 ^ 32 + 8192;
  used_address = 2 ^ 32 + 12_288;
  desc = λ i. record { addr = 0; len = 0; flags = 0; next = 0 };
  avail_flags = 0;
  avail_idx = 0;
  avail_ring = λ i. 0;
  used_flags = 0;
  used_idx = 0;
  used_ring = λ i. record { id = 0; len = 0 };
}

abbrev twos : Device
twos = record { selected = 0; queues = λ q a. 2; enabled = λ q a. 0; cells = λ a. 0 }

notify_queue-setup_queue_example :
    let r = setup_queue (Queue.device 4096) transport 1 vq twos in
    QueueSetUp transport 1 vq twos r.1
    × ((notify_queue (Queue.device 4096) transport r.0 r.1).cells 8200 ≡ 1)
notify_queue-setup_queue_example =
    notify_queue-setup_queue transport 1 vq twos (omega arith) (omega arith) refl
