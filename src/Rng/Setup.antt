-- ===== src/Rng/Setup.antt =====
-- `virtio_rng_init_mmio` and `virtio_rng_init_pci` (driver/virtio/virtio_rng.c).
use picokernel.Prelude.{ℕ, ◌<◌, ◌≤◌, ◌≡◌, refl, sym, subst, [], if◌then◌else◌, not}
use picokernel.Virtqueue.{Virtqueue}
use picokernel.Virtqueue.FreeList.{range}
use picokernel.Mmio.{Mmio, Outcome, success, failure}
use picokernel.Mmio
use picokernel.Pci.{Pci}
use picokernel.Pci
use picokernel.Pci.Common
use picokernel.Setup.{
  cleared, max_queue, begin_mmio, accept_mmio, queue_mmio, finish_mmio, begin_pci, accept_pci,
  queue_pci, with_driver_ok,
}
use picokernel.Setup.Queue.{
  EmptyBeyond, Fresh, queue_mmio-Fresh, queue_pci-Fresh, Fresh-Slots, both_passed, one_passed,
}
use picokernel.Rng.{Rng, transport_mmio, transport_pci}
use picokernel.Rng.Submit.{Tracked}

-- The end of both: no request is out.
abbrev pub ready : Rng → Rng
ready rng = record rng { outstanding_requests = 0; active_requests = cleared rng.active_requests }

abbrev pub with_queue : Rng → Virtqueue → Rng
with_queue rng vq = record rng { vq = vq; queue_size = vq.queue_size }

-- `virtio_rng_init_mmio`, with the queue's memory at an address.
unfoldable pub init_mmio : {D : Type 0} → Mmio D → Mmio.Transport → ℕ → Rng × D → Outcome × Rng × D
init_mmio io t memory (rng, d) =
    let rng₁ = record rng { transport_type = transport_mmio } in
    let (d₁, kept) = accept_mmio io t (Mmio.set_features io t 0 0 (begin_mmio io t d)) in
    let (vq, d₂) = queue_mmio io t 0 rng.vq memory d₁ in
    let rng₂ = with_queue rng₁ vq in
    let (d₃, alive) = finish_mmio io t d₂ in
    if not kept
    then (failure, rng₁, d₁)
    else if not alive
    then (failure, rng₂, d₃)
    else (success, ready rng₂, d₃)

-- `virtio_rng_init_pci`
unfoldable pub init_pci : {D : Type 0} → Pci D → Pci.Transport → ℕ → Rng × D → Outcome × Rng × D
init_pci io t memory (rng, d) =
    let rng₁ = record rng { transport_type = transport_pci } in
    let (d₁, kept) = accept_pci io t (Pci.set_features io t 0 0 (begin_pci io t d)) in
    let d₂ = io.write16 d₁ (Pci.common io t Common.msix_config) t.msix_config_vector in
    let (vq, d₃) = queue_pci io t 0 rng.vq memory d₂ in
    let d₄ = Pci.set_status io t with_driver_ok d₃ in
    if not kept then (failure, rng₁, d₁) else (success, ready (with_queue rng₁ vq), d₄)

ready-Tracked :
    (rng : Rng)
    → Fresh rng.vq
    → EmptyBeyond rng.active_requests
    → Tracked (ready rng) (range rng.vq.queue_size 0) []
ready-Tracked rng f beyond =
    let s = Fresh-Slots rng.vq rng.active_requests beyond f in
    record {
      free_list = s.free_list;
      distinct = tt;
      apart = s.apart;
      within = s.within;
      busy = s.busy;
      idle = s.idle;
      count = s.count;
      fits = s.fits;
    }

-- The driver after a set-up: no request is out, all descriptors are free, and there are at most 256.
abbrev pub SetUp : Rng → Type 0
SetUp rng =
    Tracked rng (range rng.queue_size 0) []
    × (rng.vq.queue_size ≡ rng.queue_size)
    × (rng.queue_size ≤ max_queue)

ready-SetUp :
    (rng : Rng) (vq : Virtqueue)
    → EmptyBeyond rng.active_requests
    → Fresh vq
    → SetUp (ready (with_queue rng vq))
ready-SetUp rng vq beyond f = (ready-Tracked (with_queue rng vq) f beyond, refl, f.most)

-- Where `virtio_rng_init_mmio` succeeds with a queue of the device that is not empty, no request is
-- out, all descriptors are free, and there are at most 256 of them, whatever the structure held.
rng_init_mmio-SetUp :
    {D : Type 0} (io : Mmio D) (t : Mmio.Transport) (memory : ℕ) (rng : Rng) (d : D)
    → let (result, rng', _) = init_mmio io t memory (rng, d) in
      EmptyBeyond rng.active_requests → result ≡ success → 0 < rng'.queue_size → SetUp rng'
unfolding init_mmio
rng_init_mmio-SetUp io t memory rng d beyond e pos =
    let (d₁, kept) = accept_mmio io t (Mmio.set_features io t 0 0 (begin_mmio io t d)) in
    let (vq, d₂) = queue_mmio io t 0 rng.vq memory d₁ in
    let rng₁ = record rng { transport_type = transport_mmio } in
    let rng₃ = ready (with_queue rng₁ vq) in
    let done = both_passed kept (finish_mmio io t d₂).1 rng₁ (with_queue rng₁ vq) rng₃ d₁ _ _ e in
    subst SetUp (sym done) (
      ready-SetUp rng₁ vq beyond
        (queue_mmio-Fresh io t 0 memory rng.vq d₁ (subst (λ r. 0 < r.queue_size) done pos)))

-- The same for `virtio_rng_init_pci`.
rng_init_pci-SetUp :
    {D : Type 0} (io : Pci D) (t : Pci.Transport) (memory : ℕ) (rng : Rng) (d : D)
    → let (result, rng', _) = init_pci io t memory (rng, d) in
      EmptyBeyond rng.active_requests → result ≡ success → 0 < rng'.queue_size → SetUp rng'
unfolding init_pci
rng_init_pci-SetUp io t memory rng d beyond e pos =
    let (d₁, kept) = accept_pci io t (Pci.set_features io t 0 0 (begin_pci io t d)) in
    let d₂ = io.write16 d₁ (Pci.common io t Common.msix_config) t.msix_config_vector in
    let (vq, d₃) = queue_pci io t 0 rng.vq memory d₂ in
    let rng₁ = record rng { transport_type = transport_pci } in
    let done = one_passed kept rng₁ (ready (with_queue rng₁ vq)) d₁ _ e in
    subst SetUp (sym done) (
      ready-SetUp rng₁ vq beyond
        (queue_pci-Fresh io t 0 memory rng.vq d₂ (subst (λ r. 0 < r.queue_size) done pos)))
