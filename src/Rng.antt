-- ===== src/Rng.antt =====
-- driver/virtio/virtio_rng.c: the driver of the entropy device. It hands the buffers of requests to
-- the device through a virtqueue, and completes the requests whose buffers come back.
pub mod Submit
pub mod Complete
pub mod Bulk
pub mod Setup
mod Tests
use picokernel.Prelude.{
  ℕ, zero, suc, ◌+◌, ◌-◌, ◌%◌, ◌^◌, Bool, true, false, Option, none, some, ◌==◌, ltb, if◌then◌else◌,
  update, List, ◌∷◌,
}
use picokernel.State.{Ptr, null, Kerr, WorkState, op_rng_read, Work, Kernel, work_at, set_work}
use picokernel.IrqRing.{Ring}
use picokernel.IrqRing
use picokernel.Kernel.{complete_work}
use picokernel.Virtqueue.{
  Virtqueue, no_desc, flag_write, add16, sub16, alloc_desc, add_desc, add_avail, has_used, get_used,
  free_desc,
}

-- The members of a `krng_req_t` behind its work item.
pub record RngReq : Type 0 where
  pub buffer : ℕ
  pub length : ℕ
  pub completed : ℕ
  pub desc_idx : ℕ

-- VIRTIO_TRANSPORT_MMIO and VIRTIO_TRANSPORT_PCI
abbrev pub transport_mmio : ℕ
transport_mmio = 1

abbrev pub transport_pci : ℕ
transport_pci = 2

-- `virtio_rng_dev_t`, without its links to the transport and the kernel, and its address.
pub record Rng : Type 0 where
  pub self : Ptr
  pub transport_type : ℕ
  pub vq : Virtqueue
  pub queue_size : ℕ
  pub active_requests : ℕ → Ptr
  pub outstanding_requests : ℕ

-- What the driver's functions read and write: the device's structure, the requests' own members, the
-- kernel, the platform's ring, and the device behind the transport.
pub record World (D : Type 0) : Type 0 where
  pub rng : Rng
  pub reqs : Ptr → RngReq
  pub kernel : Kernel
  pub irq_ring : Ring
  pub device : D

-- The notification by each transport.
pub record Notify (D : Type 0) : Type 0 where
  pub mmio : ℕ → D → D
  pub pci : Virtqueue → D → D

module _ {D : Type 0} where
  -- The body of the loop of `virtio_rng_submit_work` for a work item, with the count `submitted`.
  unfoldable pub submit_one : Ptr → World D × ℕ → World D × ℕ
  submit_one work (w, submitted) =
      let req = w.reqs work in
      let (desc_idx, vq₁) = alloc_desc w.rng.vq in
      let vq₂ = add_desc vq₁ desc_idx req.buffer (req.length % 2 ^ 32) flag_write in
      let vq₃ = add_avail vq₂ desc_idx in
      if (work_at w.kernel work).op == op_rng_read
      then if desc_idx == no_desc
        then (
          record w {
            rng = record w.rng { vq = vq₁ };
            kernel = complete_work w.kernel work Kerr.busy;
          },
          submitted,
        )
        else (
          record w {
            rng = record w.rng {
              vq = vq₃;
              active_requests = update w.rng.active_requests desc_idx work;
              outstanding_requests = add16 w.rng.outstanding_requests 1;
            };
            reqs = update w.reqs work (record req { desc_idx = desc_idx });
            kernel =
                set_work w.kernel work (record (work_at w.kernel work) { state = WorkState.live });
          },
          submitted + 1,
        )
      else (w, submitted)

  unfoldable pub submit_loop : ℕ → Ptr → World D × ℕ → Option (World D × ℕ)
  submit_loop zero work w = none
  submit_loop (suc fuel) work w =
      let next = (work_at w.0.kernel work).next in
      let more = submit_loop fuel next (submit_one work w) in if work == null then some w else more

  unfoldable pub kick : Notify D → World D → World D
  kick notify w =
      let device =
        if w.rng.transport_type == transport_mmio
        then notify.mmio 0 w.device
        else if w.rng.transport_type == transport_pci
        then notify.pci w.rng.vq w.device
        else w.device in
      record w { device = device; irq_ring = (IrqRing.enqueue w.irq_ring w.rng.self).1 }

  -- `virtio_rng_submit_work`
  unfoldable pub submit_work : Notify D → ℕ → Ptr → World D → Option (World D)
  submit_work notify fuel submissions w = elim (submit_loop fuel submissions (w, 0)) [
    | none ↦ none
    | some (w', submitted) ↦ some (if ltb 0 submitted then kick notify w' else w')
  ]

  -- The body of the loop of `virtio_rng_process_irq`.
  unfoldable pub complete_one : World D → World D
  complete_one w =
      let (desc_idx, len, vq₁) = get_used w.rng.vq in
      let req = w.rng.active_requests desc_idx in
      let vq₂ = free_desc vq₁ desc_idx in
      if req == null then record w { rng = record w.rng { vq = vq₂ } } else record w {
        rng = record w.rng {
          vq = vq₂;
          active_requests = update w.rng.active_requests desc_idx null;
          outstanding_requests = sub16 w.rng.outstanding_requests 1;
        };
        reqs = update w.reqs req (record (w.reqs req) { completed = len });
        kernel = complete_work w.kernel req Kerr.ok;
      }

  unfoldable pub complete_loop : ℕ → World D → Option (World D)
  complete_loop zero w = none
  complete_loop (suc fuel) w =
      let more = complete_loop fuel (complete_one w) in if has_used w.rng.vq then more else some w

  -- `virtio_rng_process_irq`
  unfoldable pub process_irq : ℕ → World D → Option (World D)
  process_irq fuel w = elim (complete_loop fuel w) [
    | none ↦ none
    | some w' ↦ some (
        if ltb 0 w'.rng.outstanding_requests
        then record w' { irq_ring = (IrqRing.enqueue w'.irq_ring w'.rng.self).1 }
        else w')
  ]
