-- ===== src/Blk/Transfer.antt =====
-- Reads and writes in `virtio_blk_submit_work` (driver/virtio/virtio_blk.c).
use picokernel.Prelude.{
  ℕ, ◌+◌, ◌≡◌, ◌≢◌, refl, true, false, ◌||◌, List, [], ◌∷◌, arith, ◌==◌, ==_refl, if◌then◌else◌,
}
use picokernel.State.{Ptr, null, Kerr, op_block_read, op_block_write, op_block_flush, work_at}
use picokernel.Virtqueue.{Virtqueue, no_desc, alloc_desc, add_avail, free_desc}
use picokernel.Virtqueue.FreeList.{alloc_desc-Allocated}
use picokernel.Virtqueue.Chains.{Taken, Distinct-left}
use picokernel.Blk.{
  Segment, World, build_transfer, accept, refuse, submit_transfer, submit_valid, submit_one,
  is_invalid,
}
use picokernel.Blk.Tracked.{Tracked}
use picokernel.Blk.Outcome.{started, Refused, Accepted, refuse-Refused, accept-Accepted}
use picokernel.Virtqueue.Chains.Slots.{
  Slots-Queue, Queue-alloc, Queue-free, taken_apart, accept-Slots,
}
use picokernel.Blk.Build.{Transfer, Transfer-Linked, build_transfer-Transfer, build_transfer-Queue}

-- Making a chain available leaves its descriptors.
add_avail-Transfer :
    (v : Virtqueue) (h d s base op : ℕ) (seg : Segment) (sector_size : ℕ)
    → Transfer v h d s base op seg sector_size
    → Transfer (add_avail v h) h d s base op seg sector_size
unfolding add_avail
add_avail-Transfer v h d s base op seg sector_size b = record {
  header = b.header;
  buffer = b.buffer;
  status = b.status;
}

transfer_op :
    (op : ℕ)
    → ((op == op_block_read) || (op == op_block_write)) ≡ true
    → (((op == op_block_read) || (op == op_block_write) || (op == op_block_flush)) ≡ true)
      × ((op == op_block_flush) ≡ false)
transfer_op op e = (ground arith, ground arith)

module _ {D : Type 0} where
  -- A read or write that passes the driver's checks.
  abbrev pub IsTransfer : World D → Ptr → Type 0
  IsTransfer w work =
      let op = (work_at w.kernel work).op in
      let req = w.reqs work in
      (((op == op_block_read) || (op == op_block_write)) ≡ true)
      × (is_invalid req (w.segments req.segments) ≡ false)

  -- What becomes of a read or write, by the descriptors that are free.
  abbrev pub Transferred : World D → Ptr → ℕ → List ℕ → List Taken → World D × ℕ → Type 0
  Transferred w work n (h ∷ d ∷ s ∷ free) out r =
      Tracked r.0.blk free (record { head = h; rest = d ∷ s ∷ [] } ∷ out)
      × Transfer r.0.blk.vq h d s w.req_buffers_address (work_at w.kernel work).op
          (w.segments ((w.reqs work).segments)) w.blk.sector_size
      × (r.0.req_buffers h ≡ record {
        kind = if (work_at w.kernel work).op == 3 then 0 else 1;
        reserved = 0;
        sector = (w.segments ((w.reqs work).segments)).sector;
        status = 0xFF;
      })
      × Accepted w work n h r
  Transferred w work n free out r = Refused w work n free out r

  submit_one-full :
      (w : World D) (work : Ptr) (n : ℕ)
      → IsTransfer w work
      → alloc_desc w.blk.vq ≡ (no_desc, w.blk.vq)
      → submit_one work (w, n) ≡ (refuse w work w.blk.vq Kerr.no_space, n)
  unfolding submit_one submit_valid
  submit_one-full w work n (op, valid) e =
      let (block, not_flush) = transfer_op (work_at w.kernel work).op op in
      rw (submit_one, submit_valid, block, not_flush, valid, e) refl

  submit_one-started :
      (w : World D) (work : Ptr) (n h : ℕ)
      → IsTransfer w work
      → (alloc_desc w.blk.vq).0 ≡ h
      → (h == no_desc) ≡ false
      → submit_one work (w, n)
        ≡ submit_transfer work h (started w work h ((alloc_desc w.blk.vq).1), n)
  unfolding submit_one submit_valid
  submit_one-started w work n h (op, valid) e there =
      let (block, not_flush) = transfer_op (work_at w.kernel work).op op in
      rw (submit_one, submit_valid, block, not_flush, valid, e, there) refl

  submit_transfer-short :
      (w : World D) (work : Ptr) (n h : ℕ)
      → alloc_desc w.blk.vq ≡ (no_desc, w.blk.vq)
      → submit_transfer work h (w, n) ≡ (refuse w work (free_desc w.blk.vq h) Kerr.no_space, n)
  unfolding submit_transfer
  submit_transfer-short w work n h e = rw (submit_transfer, e) refl

  submit_transfer-shorter :
      (w : World D) (work : Ptr) (n h d : ℕ)
      → let v = (alloc_desc w.blk.vq).1 in
        (alloc_desc w.blk.vq).0 ≡ d
        → (d == no_desc) ≡ false
        → alloc_desc v ≡ (no_desc, v)
        → submit_transfer work h (w, n)
          ≡ (refuse w work (free_desc (free_desc v h) d) Kerr.no_space, n)
  unfolding submit_transfer
  submit_transfer-shorter w work n h d same there e = rw (submit_transfer, same, there, e) refl

  submit_transfer-built :
      (w : World D) (work : Ptr) (n h d s : ℕ)
      → let v = (alloc_desc w.blk.vq).1 in
        (alloc_desc w.blk.vq).0 ≡ d
        → (d == no_desc) ≡ false
        → (alloc_desc v).0 ≡ s
        → (s == no_desc) ≡ false
        → let built =
            build_transfer
              ((alloc_desc v).1)
              h
              d
              s
              w.req_buffers_address
              (work_at w.kernel work).op
              (w.segments ((w.reqs work).segments))
              w.blk.sector_size in
          submit_transfer work h (w, n) ≡ (accept w work built h, n + 1)
  unfolding submit_transfer
  submit_transfer-built w work n h d s e_d d_there e_s s_there =
      rw (submit_transfer, e_d, d_there, e_s, s_there) refl

  -- For a read or write that passes the checks: with fewer than three free descriptors it is
  -- completed with KERR_NO_SPACE and the driver still tracks the same chains and free descriptors;
  -- otherwise the first three free descriptors are linked as header, data and status: the header
  -- says IN (0) for a read and OUT (1) for a write, and the sector, the data is the segment's
  -- buffer, as long as its sectors and written by the device for a read, and the status is one byte
  -- behind the header; the chain is made available and becomes the request's, and the driver tracks
  -- it with the others.
  pub submit_one-Transferred :
      (w : World D) (work : Ptr) (n : ℕ) (free : List ℕ) (out : List Taken)
      → Tracked w.blk free out
      → work ≢ null
      → IsTransfer w work
      → Transferred w work n free out (submit_one work (w, n))
  submit_one-Transferred w work n [] out t there tr =
      rw (submit_one-full w work n tr (alloc_desc-Allocated w.blk.vq [] t.free_list)) (
        refuse-Refused w work n [] [] out w w.blk.vq t
          (Slots-Queue w.blk.vq w.blk.active_requests w.blk.outstanding_requests [] out t)
          (λ a. refl) refl refl refl)
  submit_one-Transferred w work n (h ∷ []) out t there tr =
      let size = w.blk.vq.queue_size in
      let i = w.blk.vq.avail_idx in
      let apart =
        taken_apart w.blk.vq w.blk.active_requests w.blk.outstanding_requests (h ∷ []) [] out t in
      let (e_h, q) =
        Queue-alloc w.blk.vq size i h [] out
          (Slots-Queue w.blk.vq w.blk.active_requests w.blk.outstanding_requests _ out t) in
      let v = (alloc_desc w.blk.vq).1 in
      let back =
        Queue-free v size i h [] out q t.free_list.chain.1 refl
          (apart h (ground (arith, ==_refl h))).1 (omega arith) in
      rw
        (
          submit_one-started w work n h tr e_h (ground (arith, t.small)),
          submit_transfer-short (started w work h v) work n h
              (alloc_desc-Allocated v [] q.free_list),
        )
        (refuse-Refused w work n (h ∷ []) (h ∷ []) out (started w work h v) _ t back (λ a. refl)
          refl refl refl)
  submit_one-Transferred w work n (h ∷ d ∷ []) out t there tr =
      let size = w.blk.vq.queue_size in
      let i = w.blk.vq.avail_idx in
      let apart =
        taken_apart w.blk.vq w.blk.active_requests w.blk.outstanding_requests (h ∷ d ∷ []) [] out
          t in
      let (e_h, q_h) =
        Queue-alloc w.blk.vq size i h (d ∷ []) out
          (Slots-Queue w.blk.vq w.blk.active_requests w.blk.outstanding_requests _ out t) in
      let v = (alloc_desc w.blk.vq).1 in
      let (e_d, q_d) = Queue-alloc v size i d [] out q_h in
      let v' = (alloc_desc v).1 in
      let (_, h_lt, (_, d_lt, _)) = t.free_list.chain in
      let back_h =
        Queue-free v' size i h [] out q_d h_lt refl (apart h (ground (arith, ==_refl h))).1
          (omega arith) in
      let back =
        Queue-free _ size i d (h ∷ []) out back_h d_lt (ground (arith, t.free_list.distinct.0))
          (apart d (ground (arith, ==_refl d))).1 (omega arith) in
      rw
        (
          submit_one-started w work n h tr e_h (ground (arith, t.small)),
          submit_transfer-shorter (started w work h v) work n h d e_d (ground (arith, t.small))
              (alloc_desc-Allocated v' [] q_d.free_list),
        )
        (refuse-Refused w work n (h ∷ d ∷ []) (d ∷ h ∷ []) out (started w work h v) _ t back
          (λ a. ground arith) refl refl refl)
  submit_one-Transferred w work n (h ∷ d ∷ s ∷ free) out t there tr =
      let size = w.blk.vq.queue_size in
      let i = w.blk.vq.avail_idx in
      let op = (work_at w.kernel work).op in
      let seg = w.segments ((w.reqs work).segments) in
      let base = w.req_buffers_address in
      let (e_h, q_h) =
        Queue-alloc w.blk.vq size i h (d ∷ s ∷ free) out
          (Slots-Queue w.blk.vq w.blk.active_requests w.blk.outstanding_requests _ out t) in
      let v = (alloc_desc w.blk.vq).1 in
      let (e_d, q_d) = Queue-alloc v size i d (s ∷ free) out q_h in
      let v' = (alloc_desc v).1 in
      let (e_s, q_s) = Queue-alloc v' size i s free out q_d in
      let v'' = (alloc_desc v').1 in
      let (_, h_lt, (_, d_lt, (_, s_lt, _))) = t.free_list.chain in
      let apart =
        taken_apart w.blk.vq w.blk.active_requests w.blk.outstanding_requests (h ∷ d ∷ s ∷ []) free
          out t in
      let q =
        build_transfer-Queue v'' h d s base op seg w.blk.sector_size size i free out apart q_s in
      let built = build_transfer v'' h d s base op seg w.blk.sector_size in
      let b =
        build_transfer-Transfer v'' h d s base op seg w.blk.sector_size
          (Distinct-left (h ∷ d ∷ s ∷ []) free t.free_list.distinct) in
      rw
        (
          submit_one-started w work n h tr e_h (ground (arith, t.small)),
          submit_transfer-built (started w work h v) work n h d s e_d (ground (arith, t.small)) e_s
              (ground (arith, t.small)),
        )
        (
          accept-Slots w.blk.vq w.blk.active_requests w.blk.outstanding_requests work built
              (record { head = h; rest = d ∷ s ∷ [] }) free out t there q
              (Transfer-Linked built h d s base op seg w.blk.sector_size b),
          add_avail-Transfer built h d s base op seg w.blk.sector_size b,
          (let not_flush = (transfer_op op tr.0).1 in rw (==_refl h, not_flush) refl),
          accept-Accepted w work n h built v free out q,
        )
