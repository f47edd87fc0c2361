-- ===== src/Net/Setup.antt =====
-- `virtio_net_init_mmio` and `virtio_net_init_pci` (driver/virtio/virtio_net.c).
use picokernel.Prelude.{
  ℕ, zero, suc, ◌+◌, ◌%◌, ◌^◌, ◌<◌, ◌≡◌, refl, sym, subst, true, [], arith, if◌then◌else◌, not,
  update, ltb,
}
use picokernel.State.{null}
use picokernel.Virtqueue.{Virtqueue}
use picokernel.Virtqueue.FreeList.{range}
use picokernel.Mmio.{Mmio, Outcome, success, failure, register}
use picokernel.Mmio
use picokernel.Pci.{Pci}
use picokernel.Pci
use picokernel.Pci.Common
use picokernel.Rng.{transport_mmio, transport_pci}
use picokernel.Setup.{
  Config, cleared, max_queue, begin_mmio, accept_mmio, queue_mmio, finish_mmio, begin_pci,
  accept_pci, queue_pci, with_driver_ok,
}
use picokernel.Setup.Queue.{
  EmptyBeyond, Fresh, queue_mmio-Fresh, queue_pci-Fresh, Fresh-Slots, both_passed, one_passed,
}
use picokernel.Blk.Setup.{config_offset}
use picokernel.Net.{Net, untracked, vq_rx, vq_tx}
use picokernel.Net.Drain.{TxSlots}

-- `1 << VIRTIO_NET_F_MAC`
abbrev pub wanted_features : ℕ
wanted_features = 2 ^ 5

-- The loop that reads the six bytes of the MAC address from `at` on, `rounds` of them left.
unfoldable pub read_mac : {D : Type 0} → (D → ℕ → D × ℕ) → ℕ → ℕ → ℕ → (ℕ → ℕ) × D → (ℕ → ℕ) × D
read_mac read8 at zero i (mac, d) = (mac, d)
read_mac read8 at (suc rounds) i (mac, d) =
    let (d', byte) = read8 d ((at + i) % 2 ^ 64) in
    read_mac read8 at rounds (i + 1) (update mac i byte, d')

-- The end of both: no request is out or standing.
abbrev pub ready : Net → Net
ready net = record net {
  outstanding_rx_requests = 0;
  outstanding_tx_requests = 0;
  standing_recv_req = null;
  active_rx_requests = λ i. if ltb i max_queue then untracked else net.active_rx_requests i;
  active_tx_requests = cleared net.active_tx_requests;
}

abbrev pub with_rx : Net → Virtqueue → Net
with_rx net vq = record net { rx_vq = vq; queue_size = vq.queue_size }

abbrev pub with_tx : Net → Virtqueue → Net
with_tx net vq = record net { tx_vq = vq }

-- `virtio_net_init_mmio`, with the queues' memories at two addresses.
unfoldable pub init_mmio :
    {D : Type 0} → Mmio D → Config D → Mmio.Transport → ℕ → ℕ → Net × D → Outcome × Net × D
init_mmio io config t rx_memory tx_memory (net, d) =
    let net₁ = record net { transport_type = transport_mmio } in
    let (d₁, kept) =
      accept_mmio io t (Mmio.set_features io t wanted_features 0 (begin_mmio io t d)) in
    let (mac, d₂) = read_mac config.read8 (register io t config_offset) 6 0 (net.mac_address, d₁) in
    let net₂ = record net₁ { mac_address = mac } in
    let (rx, d₃) = queue_mmio io t vq_rx net.rx_vq rx_memory d₂ in
    let (tx, d₄) = queue_mmio io t vq_tx net.tx_vq tx_memory d₃ in
    let net₃ = with_tx (with_rx net₂ rx) tx in
    let (d₅, alive) = finish_mmio io t d₄ in
    if not kept
    then (failure, net₁, d₁)
    else if not alive
    then (failure, net₃, d₅)
    else (success, ready net₃, d₅)

-- `virtio_net_init_pci`
unfoldable pub init_pci : {D : Type 0} → Pci D → Pci.Transport → ℕ → ℕ → Net × D → Outcome × Net × D
init_pci io t rx_memory tx_memory (net, d) =
    let net₁ = record net { transport_type = transport_pci } in
    let d₁ = Pci.set_features io t wanted_features 0 (begin_pci io t d) in
    let (d₂, negotiated) = Pci.get_features io t 0 d₁ in
    let (d₃, kept) = accept_pci io t d₂ in
    let (mac, d₄) = read_mac io.read8 t.device_cfg 6 0 (net.mac_address, d₃) in
    let net₂ = record net₁ { mac_address = mac } in
    let d₅ = io.write16 d₄ (Pci.common io t Common.msix_config) t.msix_config_vector in
    let (rx, d₆) = queue_pci io t vq_rx net.rx_vq rx_memory d₅ in
    let (tx, d₇) = queue_pci io t vq_tx net.tx_vq tx_memory d₆ in
    let net₃ = with_tx (with_rx net₂ rx) tx in
    let d₈ = Pci.set_status io t with_driver_ok d₇ in
    if not kept then (failure, net₁, d₃) else (success, ready net₃, d₈)

-- The driver after a set-up: each queue has its 1 to 256 descriptors free, no packet is out, no
-- buffer is counted as out, no request is standing and no slot of the table carries a buffer.
abbrev pub SetUp : Net → Type 0
SetUp net =
    TxSlots net (range net.tx_vq.queue_size 0) []
    × Fresh net.rx_vq
    × (net.outstanding_rx_requests ≡ 0)
    × (net.standing_recv_req ≡ null)
    × ((i : ℕ) → i < max_queue → net.active_rx_requests i ≡ untracked)

ready-SetUp :
    (net : Net)
    → EmptyBeyond net.active_tx_requests
    → Fresh net.rx_vq
    → Fresh net.tx_vq
    → SetUp (ready net)
ready-SetUp net beyond rx tx = (
  Fresh-Slots net.tx_vq net.active_tx_requests beyond tx,
  rx,
  refl,
  refl,
  λ i lt. let inside : ltb i max_queue ≡ true = ground arith in rw inside refl,
)

-- Where `virtio_net_init_mmio` succeeds with queues of the device that are not empty, each queue
-- has its descriptors free, at most 256, no packet is out, no request is standing and no slot
-- carries a buffer, whatever the structure held.
net_init_mmio-SetUp :
    {D : Type 0} (io : Mmio D) (config : Config D) (t : Mmio.Transport) (rx_memory tx_memory : ℕ)
    (net : Net) (d : D)
    → let (result, net', _) = init_mmio io config t rx_memory tx_memory (net, d) in
      EmptyBeyond net.active_tx_requests
      → result ≡ success
      → 0 < net'.rx_vq.queue_size
      → 0 < net'.tx_vq.queue_size
      → SetUp net'
unfolding init_mmio
net_init_mmio-SetUp io config t rx_memory tx_memory net d beyond e pos pos' =
    let net₁ = record net { transport_type = transport_mmio } in
    let (d₁, kept) =
      accept_mmio io t (Mmio.set_features io t wanted_features 0 (begin_mmio io t d)) in
    let (mac, d₂) = read_mac config.read8 (register io t config_offset) 6 0 (net.mac_address, d₁) in
    let net₂ = record net₁ { mac_address = mac } in
    let (rx, d₃) = queue_mmio io t vq_rx net.rx_vq rx_memory d₂ in
    let (tx, d₄) = queue_mmio io t vq_tx net.tx_vq tx_memory d₃ in
    let net₃ = with_tx (with_rx net₂ rx) tx in
    let done = both_passed kept (finish_mmio io t d₄).1 net₁ net₃ (ready net₃) d₁ _ _ e in
    subst SetUp (sym done) (
      ready-SetUp net₃ beyond
        (queue_mmio-Fresh io t vq_rx rx_memory net.rx_vq d₂
          (subst (λ n. 0 < n.rx_vq.queue_size) done pos))
        (queue_mmio-Fresh io t vq_tx tx_memory net.tx_vq d₃
          (subst (λ n. 0 < n.tx_vq.queue_size) done pos')))

-- Where `virtio_net_init_pci` succeeds with queues of the device that are not empty, each queue has
-- its 1 to 256 descriptors free, no packet is out, no buffer is counted as out, no request is
-- standing and none of the 256 slots carries a buffer, whatever the structure held but for slots of
-- packets behind those.
pub net_init_pci-SetUp :
    {D : Type 0} (io : Pci D) (t : Pci.Transport) (rx_memory tx_memory : ℕ) (net : Net) (d : D)
    → let (result, net', _) = init_pci io t rx_memory tx_memory (net, d) in
      EmptyBeyond net.active_tx_requests
      → result ≡ success
      → 0 < net'.rx_vq.queue_size
      → 0 < net'.tx_vq.queue_size
      → SetUp net'
unfolding init_pci
net_init_pci-SetUp io t rx_memory tx_memory net d beyond e pos pos' =
    let net₁ = record net { transport_type = transport_pci } in
    let d₁ = Pci.set_features io t wanted_features 0 (begin_pci io t d) in
    let (d₂, negotiated) = Pci.get_features io t 0 d₁ in
    let (d₃, kept) = accept_pci io t d₂ in
    let (mac, d₄) = read_mac io.read8 t.device_cfg 6 0 (net.mac_address, d₃) in
    let net₂ = record net₁ { mac_address = mac } in
    let d₅ = io.write16 d₄ (Pci.common io t Common.msix_config) t.msix_config_vector in
    let (rx, d₆) = queue_pci io t vq_rx net.rx_vq rx_memory d₅ in
    let (tx, d₇) = queue_pci io t vq_tx net.tx_vq tx_memory d₆ in
    let net₃ = with_tx (with_rx net₂ rx) tx in
    let done = one_passed kept net₁ (ready net₃) d₃ _ e in
    subst SetUp (sym done) (
      ready-SetUp net₃ beyond
        (queue_pci-Fresh io t vq_rx rx_memory net.rx_vq d₅
          (subst (λ n. 0 < n.rx_vq.queue_size) done pos))
        (queue_pci-Fresh io t vq_tx tx_memory net.tx_vq d₆
          (subst (λ n. 0 < n.tx_vq.queue_size) done pos')))
