-- ===== src/Blk/Drain.antt =====
-- The loop of `virtio_blk_process_irq` (driver/virtio/virtio_blk.c) over the used entries.
use picokernel.Prelude.{
  ℕ, zero, suc, ◌≤◌, ◌<◌, ◌≡◌, ◌≢◌, refl, ap, ◌∙◌, ◌&&◌, not, if◌then◌else◌, false, List, [], ◌∷◌,
  arith, ◌==◌, update, length, has, some, ne→==,
}
use picokernel.State.{Ptr, null, Kerr, is_ok, Kernel, work_at}
use picokernel.Kernel.{complete_work}
use picokernel.Virtqueue.{Virtqueue, get_used, has_used}
use picokernel.Virtqueue.Chains.{free_chain, Taken, all_of, rest_at, without_head}
use picokernel.Virtqueue.Chains.Removal.{length-all_of}
use picokernel.Virtqueue.Rings.{get_used_id}
use picokernel.Virtqueue.Sets.{freed}
use picokernel.Blk.{World, Segment, BlkReq, ReqBuf, result_of, settle, complete_one, process_irq}
use picokernel.Blk.Tracked.{Tracked}
use picokernel.Virtqueue.Chains.Slots.{free_chain-GivenBack, release-Slots}
use picokernel.Virtqueue.Chains.Used.{UsedBy, free_after, out_after, UsedBy-absent, UsedBy-release}

-- The result that a request gets for the status byte that the device wrote.
abbrev pub status_result : ℕ → Kerr
status_result zero = Kerr.ok
status_result (suc zero) = Kerr.io_error
status_result (suc (suc zero)) = Kerr.invalid
status_result (suc (suc (suc status))) = Kerr.io_error

status_result_lem : (status : ℕ) → result_of status ≡ status_result status
status_result_lem zero = refl
status_result_lem (suc zero) = refl
status_result_lem (suc (suc zero)) = refl
status_result_lem (suc (suc (suc status))) = ground arith

is_ok_status : (status : ℕ) → is_ok (status_result status) ≡ (status == 0)
is_ok_status zero = refl
is_ok_status (suc zero) = refl
is_ok_status (suc (suc zero)) = refl
is_ok_status (suc (suc (suc status))) = ground arith

-- The kernel and the segments once the request `req` was completed for a status byte: a read or write
-- that succeeded has transferred all its sectors, those of a flush (operation 5) or a failure stay.
abbrev pub completed :
    Ptr → (at_segment status : ℕ) → Kernel × (ℕ → Segment) → Kernel × (ℕ → Segment)
completed req at_segment status (k, segs) =
    let seg = segs at_segment in
    (
      complete_work k req (status_result status),
      if (status == 0) && not ((work_at k req).op == 5)
          then update segs at_segment (record seg { completed_sectors = seg.num_sectors })
          else segs,
    )

-- Both once the requests of the slots `ds` were completed in order.
abbrev pub complete_all :
    (ℕ → Ptr)
    → (Ptr → BlkReq)
    → (ℕ → ReqBuf)
    → List ℕ
    → Kernel × (ℕ → Segment)
    → Kernel × (ℕ → Segment)
complete_all slots reqs bufs [] k = k
complete_all slots reqs bufs (d ∷ ds) k =
    complete_all slots reqs bufs ds
      (completed (slots d) ((reqs (slots d)).segments) ((bufs d).status) k)

complete_all_slots :
    (slots : ℕ → Ptr) (reqs : Ptr → BlkReq) (bufs : ℕ → ReqBuf) (c : ℕ) (p : Ptr) (ds : List ℕ)
    (k : Kernel × (ℕ → Segment))
    → has c ds ≡ false
    → complete_all (update slots c p) reqs bufs ds k ≡ complete_all slots reqs bufs ds k
complete_all_slots slots reqs bufs c p [] k absent = refl
complete_all_slots slots reqs bufs c p (d ∷ ds) k absent =
    let other : (d == c) ≡ false = ground arith in
    rw other (complete_all_slots slots reqs bufs c p ds _ (ground arith))

module _ {D : Type 0} where
  complete_one_found :
      (w : World D) (fuel d : ℕ) (v : Virtqueue)
      → (get_used w.blk.vq).0 ≡ d
      → w.blk.active_requests d ≢ null
      → free_chain fuel d ((get_used w.blk.vq).2) ≡ some v
      → complete_one fuel w ≡ some (settle w v (w.blk.active_requests d) d)
  unfolding complete_one
  complete_one_found w fuel d v id busy e = rw (complete_one, id, ne→== _ null busy, e) refl

  settle-completed :
      (w : World D) (v : Virtqueue) (req : Ptr) (d : ℕ)
      → ((settle w v req d).kernel, (settle w v req d).segments)
        ≡ completed req ((w.reqs req).segments) ((w.req_buffers d).status) (w.kernel, w.segments)
  settle-completed w v req d =
      let status = (w.req_buffers d).status in
      rw (status_result_lem status, is_ok_status status) refl

  process_irq_end :
      (fuel chain : ℕ) (w : World D)
      → w.blk.vq.last_used_idx ≡ w.blk.vq.used_idx
      → process_irq (suc fuel) chain w ≡ some w
  unfolding process_irq has_used
  process_irq_end fuel chain w e = ground arith

  process_irq_more :
      (fuel chain : ℕ) (w w' : World D)
      → (w.blk.vq.last_used_idx == w.blk.vq.used_idx) ≡ false
      → complete_one chain w ≡ some w'
      → process_irq (suc fuel) chain w ≡ process_irq fuel chain w'
  unfolding process_irq has_used
  process_irq_more fuel chain w w' more e = rw (process_irq, more, e) refl

  -- Where the used ring holds the first descriptors `ds` of chains that are out,
  -- `virtio_blk_process_irq` ends within any fuel above their number and any fuel for a chain from
  -- the number of descriptors in use on: the requests are completed in order, each with the result
  -- for its status byte (KERR_OK for 0, KERR_INVALID for 2, KERR_IO_ERROR for any other) and, for a
  -- read or write that succeeded, all sectors counted as transferred; every descriptor of their
  -- chains is free again, the other chains are out as before, and the used ring is empty.
  pub blk_process_irq_lem :
      (ds : List ℕ) (fuel chain : ℕ) (w : World D) (free : List ℕ) (out : List Taken)
      → Tracked w.blk free out
      → UsedBy w.blk.vq ds out
      → length ds < fuel
      → length (all_of out) ≤ chain
      → (w' : World D) × (process_irq fuel chain w ≡ some w')
        × Tracked w'.blk (free_after ds out free) (out_after ds out)
        × ((w'.kernel, w'.segments)
            ≡ complete_all w.blk.active_requests w.reqs w.req_buffers ds (w.kernel, w.segments))
        × (w'.blk.vq.last_used_idx ≡ w'.blk.vq.used_idx)
  blk_process_irq_lem ds zero chain w free out t p f c = absurd (omega arith)
  blk_process_irq_lem [] (suc fuel) chain w free out t p f c =
      (w, process_irq_end fuel chain w p, t, refl, p)
  blk_process_irq_lem (d ∷ ds) (suc fuel) chain w free out t p f c =
      let (more, id, i, rest) = p in
      let (v, e, back) = free_chain-GivenBack w.blk.vq _ _ chain d free out t i c in
      let w₁ = settle w v (w.blk.active_requests d) d in
      let (w', e', t', k', done) =
        blk_process_irq_lem ds fuel chain w₁ (freed (d ∷ rest_at d out) free) (without_head d out)
          (release-Slots w.blk.vq _ _ d free out v t i back)
          (UsedBy-release w.blk.vq v d ds free out back p) (omega arith)
          (omega (arith, length-all_of d out i, c)) in
      let one = complete_one_found w chain d v (get_used_id w.blk.vq ∙ id) (t.busy d i) e in
      let again = UsedBy-absent w.blk.vq _ _ d ds free out t p in
      (
        w',
        process_irq_more fuel chain w w₁ more one ∙ e',
        t',
        k'
            ∙ ap (complete_all (update w.blk.active_requests d null) w.reqs w.req_buffers ds)
                (settle-completed w v (w.blk.active_requests d) d)
            ∙ complete_all_slots w.blk.active_requests w.reqs w.req_buffers d null ds _ again,
        done,
      )
