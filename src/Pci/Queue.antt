-- ===== src/Pci/Queue.antt =====
-- What a device on the PCI bus learns of a queue (driver/virtio/virtio_pci.c).
use picokernel.Prelude.{
  ℕ, ◌+◌, ◌*◌, ◌%◌, ◌^◌, ◌<◌, ◌≡◌, refl, ap, arith, update, Bool, true, false, ◌&&◌, ◌||◌, ◌==◌,
  leb, ltb, not, if◌then◌else◌, ==_refl,
}
use picokernel.Virtqueue.{Virtqueue}
use picokernel.Pci.{Pci, Transport, setup_queue, notify_queue}

-- A device whose common configuration starts at an address: the queue that is selected, the registers
-- of each queue, those that each queue had when it was last written to its enabling register, and
-- the other registers.
pub record Device : Type 0 where
  pub selected : ℕ
  pub queues : ℕ → ℕ → ℕ
  pub enabled : ℕ → ℕ → ℕ
  pub cells : ℕ → ℕ

-- The registers of the selected queue are those at 24 to 55 behind the start, queue_select is that
-- at 22, and the enabling register that at 28.
abbrev pub of_queue : (start a : ℕ) → Bool
of_queue start a = leb (start + 24) a && ltb a (start + 56)

unfoldable pub store : (start : ℕ) → Device → ℕ → ℕ → Device
store start d a v =
    let mine = update (d.queues d.selected) a v in
    if a == start + 22
    then record d { selected = v }
    else if of_queue start a
    then record d {
      queues = update d.queues d.selected mine;
      enabled = if a == start + 28 then update d.enabled d.selected mine else d.enabled;
    }
    else record d { cells = update d.cells a v }

unfoldable pub load : (start : ℕ) → Device → ℕ → ℕ
load start d a =
    if a == start + 22
    then d.selected
    else if of_queue start a
    then d.queues d.selected a
    else d.cells a

abbrev pub device : (start : ℕ) → Pci Device
device start = record {
  config_read8 = λ d l a. (d, 0);
  config_read16 = λ d l a. (d, 0);
  config_read32 = λ d l a. (d, 0);
  config_write16 = λ d l a v. d;
  read_bar = λ d l b. (d, 0);
  read8 = λ d a. (d, load start d a % 2 ^ 8);
  read16 = λ d a. (d, load start d a % 2 ^ 16);
  read32 = λ d a. (d, load start d a % 2 ^ 32);
  read64 = λ d a. (d, load start d a);
  write8 = λ d a v. store start d a (v % 2 ^ 8);
  write16 = λ d a v. store start d a (v % 2 ^ 16);
  write32 = λ d a v. store start d a (v % 2 ^ 32);
  write64 = λ d a v. store start d a v;
}

or_first : (x y : Bool) → (x || y) ≡ false → x ≡ false
or_first x y e = ground (arith, e)

or_second : (x y : Bool) → (x || y) ≡ false → y ≡ false
or_second x y e = ground (arith, e)

module _ (start : ℕ) where
  store-select : (d : Device) (v : ℕ) → store start d (start + 22) v ≡ record d { selected = v }
  unfolding store
  store-select d v = rw (==_refl (start + 22)) refl

  -- The registers of a queue but for the enabling one.
  store-queue :
      (d : Device) (off v : ℕ)
      → (leb 24 off && ltb off 56 && not (off == 28)) ≡ true
      → store start d (start + off) v ≡ record d {
        queues = update d.queues d.selected (update (d.queues d.selected) (start + off) v);
      }
  unfolding store
  store-queue d off v e =
      let other : (start + off == start + 22) ≡ false = ground (arith, e) in
      let inside : of_queue start (start + off) ≡ true = ground (arith, e) in
      let not_enable : (start + off == start + 28) ≡ false = ground (arith, e) in
      rw (other, inside, not_enable) refl

  store-enable :
      (d : Device) (v : ℕ)
      → let mine = update (d.queues d.selected) (start + 28) v in
        store start d (start + 28) v ≡ record d {
          queues = update d.queues d.selected mine;
          enabled = update d.enabled d.selected mine;
        }
  unfolding store
  store-enable d v =
      let other : (start + 28 == start + 22) ≡ false = ground arith in
      let inside : of_queue start (start + 28) ≡ true = ground arith in
      rw (other, inside, ==_refl (start + 28)) refl

  load-queue :
      (d : Device) (off : ℕ)
      → (leb 24 off && ltb off 56) ≡ true
      → load start d (start + off) ≡ d.queues d.selected (start + off)
  unfolding load
  load-queue d off e =
      let other : (start + off == start + 22) ≡ false = ground (arith, e) in
      let inside : of_queue start (start + off) ≡ true = ground (arith, e) in
      rw (other, inside) refl

store-cells :
    (start : ℕ) (d : Device) (a v : ℕ)
    → ((a == start + 22) || of_queue start a) ≡ false
    → (store start d a v).cells a ≡ v
unfolding store
store-cells start d a v e =
    let other : (a == start + 22) ≡ false = or_first (a == start + 22) _ e in
    let outside : of_queue start a ≡ false = or_second (a == start + 22) _ e in
    rw (other, outside, ==_refl a) refl

far : (base x y : ℕ) → (base + x == base + y) ≡ (x == y)
far base x y = ground arith

-- What the device knows of the queue `q` after its set-up, and what it knew.
pub record QueueSetUp (t : Transport) (q : ℕ) (vq : Virtqueue) (d d' : Device) : Type 0 where
  pub desc : d'.enabled q (t.common_cfg + 32) ≡ vq.desc_address
  pub avail : d'.enabled q (t.common_cfg + 40) ≡ vq.avail_address
  pub used : d'.enabled q (t.common_cfg + 48) ≡ vq.used_address
  pub vector : d'.enabled q (t.common_cfg + 26) ≡ t.msix_queue_vector % 2 ^ 16
  pub enable : d'.enabled q (t.common_cfg + 28) ≡ 1
  pub size : d'.enabled q (t.common_cfg + 24) ≡ d.queues q (t.common_cfg + 24)
  pub current : (a : ℕ) → d'.queues q a ≡ d'.enabled q a
  pub others :
      (j : ℕ) → (j == q) ≡ false → (d'.queues j ≡ d.queues j) × (d'.enabled j ≡ d.enabled j)
  pub cells : d'.cells ≡ d.cells

setup_queue-QueueSetUp :
    (t : Transport) (q : ℕ) (vq : Virtqueue) (d : Device)
    → t.common_cfg + 64 < 2 ^ 64
    → q < 2 ^ 16
    → let r = setup_queue (device t.common_cfg) t q vq d in
      (r.0 ≡ record vq { queue_index = q; notify_offset = d.queues q (t.common_cfg + 30) % 2 ^ 16 })
      × QueueSetUp t q vq d r.1
unfolding setup_queue
setup_queue-QueueSetUp t q vq d fits small =
    let c = t.common_cfg in
    let a : (off : ℕ) → off < 64 → (c + off) % 2 ^ 64 ≡ c + off = λ off lt. omega arith in
    let q_fits : q % 2 ^ 16 ≡ q = omega arith in
    let d₁ : Device = record d { selected = q } in
    let put = λ (e : Device) (off v : ℕ). record e {
      queues = update e.queues e.selected (update (e.queues e.selected) (c + off) v);
    } in
    let d₂ = put d₁ 32 vq.desc_address in
    let d₃ = put d₂ 40 vq.avail_address in
    let d₄ = put d₃ 48 vq.used_address in
    let d₆ = put d₄ 26 (t.msix_queue_vector % 2 ^ 16) in
    rw
      (
        a 22 (omega arith),
        a 32 (omega arith),
        a 40 (omega arith),
        a 48 (omega arith),
        a 30 (omega arith),
        a 26 (omega arith),
        a 28 (omega arith),
        q_fits,
        store-select c d q,
        store-queue c d₁ 32 vq.desc_address refl,
        store-queue c d₂ 40 vq.avail_address refl,
        store-queue c d₃ 48 vq.used_address refl,
        load-queue c d₄ 30 refl,
        store-queue c d₄ 26 (t.msix_queue_vector % 2 ^ 16) refl,
        store-enable c d₆ 1,
      )
      (
        simp (far c, ==_refl) refl,
        record {
          desc = simp (far c, ==_refl) refl;
          avail = simp (far c, ==_refl) refl;
          used = simp (far c, ==_refl) refl;
          vector = simp (far c, ==_refl) refl;
          enable = simp (far c, ==_refl) refl;
          size = simp (far c, ==_refl) refl;
          current = λ a. simp (==_refl) refl;
          others = λ j ne. (rw ne refl, rw ne refl);
          cells = refl;
        },
      )

-- For a device whose registers of a queue are those of the queue that is selected when they are
-- written, `virtio_pci_setup_queue` gives the queue `q` the addresses of its three tables and the
-- interrupt vector of the queues before it enables it; it leaves the size that the device has for
-- the queue, and the registers of the other queues. Where the notification address, which is the
-- base plus the device's offset for the queue times the multiplier, as a 32-bit product, lies
-- outside of the common configuration, `virtio_pci_notify_queue` then writes `q` there.
pub notify_queue-setup_queue :
    (t : Transport) (q : ℕ) (vq : Virtqueue) (d : Device)
    → t.common_cfg + 64 < 2 ^ 64
    → q < 2 ^ 16
    → let r = setup_queue (device t.common_cfg) t q vq d in
      let offset = d.queues q (t.common_cfg + 30) % 2 ^ 16 in
      let at = (t.notify_base + t.notify_off_multiplier * offset % 2 ^ 32) % 2 ^ 64 in
      ((at == t.common_cfg + 22) || of_queue t.common_cfg at) ≡ false
      → QueueSetUp t q vq d r.1 × ((notify_queue (device t.common_cfg) t r.0 r.1).cells at ≡ q)
unfolding notify_queue
notify_queue-setup_queue t q vq d fits small apart =
    let (same, known) = setup_queue-QueueSetUp t q vq d fits small in
    let offset = d.queues q (t.common_cfg + 30) % 2 ^ 16 in
    let at = (t.notify_base + t.notify_off_multiplier * offset % 2 ^ 32) % 2 ^ 64 in
    let q_fits : q % 2 ^ 16 ≡ q = omega arith in
    (
      known,
      rw (ap (λ v. v.notify_offset) same, ap (λ v. v.queue_index) same, q_fits)
          (store-cells t.common_cfg (setup_queue (device t.common_cfg) t q vq d).1 at q apart),
    )
