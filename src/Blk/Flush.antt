-- ===== src/Blk/Flush.antt =====
-- Flushes in `virtio_blk_submit_work` (driver/virtio/virtio_blk.c).
use picokernel.Prelude.{
  ℕ, ◌+◌, ◌≡◌, ◌≢◌, refl, true, false, ◌||◌, List, [], ◌∷◌, arith, ◌==◌, ==_refl,
}
use picokernel.State.{Ptr, null, Kerr, op_block_read, op_block_write, op_block_flush, work_at}
use picokernel.Virtqueue.{Virtqueue, no_desc, alloc_desc, add_avail, free_desc}
use picokernel.Virtqueue.FreeList.{alloc_desc-Allocated}
use picokernel.Virtqueue.Chains.{Taken}
use picokernel.Blk.{World, build_flush, accept, refuse, submit_flush, submit_valid, submit_one}
use picokernel.Blk.Tracked.{Tracked}
use picokernel.Blk.Outcome.{started, Refused, Accepted, refuse-Refused, accept-Accepted}
use picokernel.Virtqueue.Chains.Slots.{
  Slots-Queue, Queue-alloc, Queue-free, taken_apart, accept-Slots,
}
use picokernel.Blk.Build.{Flush, Flush-Linked, build_flush-Flush, build_flush-Queue}

-- Making a chain available leaves its descriptors.
add_avail-Flush : (v : Virtqueue) (h s base : ℕ) → Flush v h s base → Flush (add_avail v h) h s base
unfolding add_avail
add_avail-Flush v h s base b = record { header = b.header; status = b.status }

flush_op :
    (op : ℕ)
    → op ≡ op_block_flush
    → (((op == op_block_read) || (op == op_block_write) || (op == op_block_flush)) ≡ true)
      × ((op == op_block_flush) ≡ true)
flush_op op e = (ground arith, ground arith)

module _ {D : Type 0} where
  -- What becomes of a flush, by the descriptors that are free.
  abbrev pub Flushed : World D → Ptr → ℕ → List ℕ → List Taken → World D × ℕ → Type 0
  Flushed w work n (h ∷ s ∷ free) out r =
      Tracked r.0.blk free (record { head = h; rest = s ∷ [] } ∷ out)
      × Flush r.0.blk.vq h s w.req_buffers_address
      × Accepted w work n h r
  Flushed w work n free out r = Refused w work n free out r

  submit_one-full :
      (w : World D) (work : Ptr) (n : ℕ)
      → (work_at w.kernel work).op ≡ op_block_flush
      → alloc_desc w.blk.vq ≡ (no_desc, w.blk.vq)
      → submit_one work (w, n) ≡ (refuse w work w.blk.vq Kerr.no_space, n)
  unfolding submit_one submit_valid
  submit_one-full w work n op e =
      let (block, flush) = flush_op (work_at w.kernel work).op op in
      rw (submit_one, submit_valid, block, flush, e) refl

  submit_one-started :
      (w : World D) (work : Ptr) (n h : ℕ)
      → (work_at w.kernel work).op ≡ op_block_flush
      → (alloc_desc w.blk.vq).0 ≡ h
      → (h == no_desc) ≡ false
      → submit_one work (w, n) ≡ submit_flush work h (started w work h ((alloc_desc w.blk.vq).1), n)
  unfolding submit_one submit_valid
  submit_one-started w work n h op e there =
      let (block, flush) = flush_op (work_at w.kernel work).op op in
      rw (submit_one, submit_valid, block, flush, e, there) refl

  submit_flush-short :
      (w : World D) (work : Ptr) (n h : ℕ)
      → alloc_desc w.blk.vq ≡ (no_desc, w.blk.vq)
      → submit_flush work h (w, n) ≡ (refuse w work (free_desc w.blk.vq h) Kerr.no_space, n)
  unfolding submit_flush
  submit_flush-short w work n h e = rw (submit_flush, e) refl

  submit_flush-built :
      (w : World D) (work : Ptr) (n h s : ℕ)
      → (alloc_desc w.blk.vq).0 ≡ s
      → (s == no_desc) ≡ false
      → submit_flush work h (w, n)
        ≡ (accept w work (build_flush ((alloc_desc w.blk.vq).1) h s w.req_buffers_address) h, n + 1)
  unfolding submit_flush
  submit_flush-built w work n h s e there = rw (submit_flush, e, there) refl

  -- For a flush: with fewer than two free descriptors it is completed with KERR_NO_SPACE and the
  -- driver still tracks the same chains and free descriptors; otherwise the first two free descriptors
  -- are linked as header and status, the chain is made available and becomes the request's, and the
  -- driver tracks it with the others.
  pub submit_one-Flushed :
      (w : World D) (work : Ptr) (n : ℕ) (free : List ℕ) (out : List Taken)
      → Tracked w.blk free out
      → work ≢ null
      → (work_at w.kernel work).op ≡ op_block_flush
      → Flushed w work n free out (submit_one work (w, n))
  submit_one-Flushed w work n [] out t there op =
      rw (submit_one-full w work n op (alloc_desc-Allocated w.blk.vq [] t.free_list)) (
        refuse-Refused w work n [] [] out w w.blk.vq t
          (Slots-Queue w.blk.vq w.blk.active_requests w.blk.outstanding_requests [] out t)
          (λ a. refl) refl refl refl)
  submit_one-Flushed w work n (h ∷ []) out t there op =
      let size = w.blk.vq.queue_size in
      let i = w.blk.vq.avail_idx in
      let apart =
        taken_apart w.blk.vq w.blk.active_requests w.blk.outstanding_requests (h ∷ []) [] out t in
      let (e_h, q) =
        Queue-alloc w.blk.vq size i h [] out
          (Slots-Queue w.blk.vq w.blk.active_requests w.blk.outstanding_requests _ out t) in
      let v = (alloc_desc w.blk.vq).1 in
      let back =
        Queue-free v size i h [] out q t.free_list.chain.1 refl
          (apart h (ground (arith, ==_refl h))).1 (omega arith) in
      rw
        (
          submit_one-started w work n h op e_h (ground (arith, t.small)),
          submit_flush-short (started w work h v) work n h (alloc_desc-Allocated v [] q.free_list),
        )
        (refuse-Refused w work n (h ∷ []) (h ∷ []) out (started w work h v) _ t back (λ a. refl)
          refl refl refl)
  submit_one-Flushed w work n (h ∷ s ∷ free) out t there op =
      let size = w.blk.vq.queue_size in
      let i = w.blk.vq.avail_idx in
      let base = w.req_buffers_address in
      let (e_h, q_h) =
        Queue-alloc w.blk.vq size i h (s ∷ free) out
          (Slots-Queue w.blk.vq w.blk.active_requests w.blk.outstanding_requests _ out t) in
      let v = (alloc_desc w.blk.vq).1 in
      let (e_s, q_s) = Queue-alloc v size i s free out q_h in
      let v' = (alloc_desc v).1 in
      let (_, h_lt, (_, s_lt, _)) = t.free_list.chain in
      let apart =
        taken_apart w.blk.vq w.blk.active_requests w.blk.outstanding_requests (h ∷ s ∷ []) free out
          t in
      let q = build_flush-Queue v' h s base size i free out apart q_s in
      let built = build_flush v' h s base in
      let b = build_flush-Flush v' h s base (ground (arith, t.free_list.distinct.0)) in
      rw
        (
          submit_one-started w work n h op e_h (ground (arith, t.small)),
          submit_flush-built (started w work h v) work n h s e_s (ground (arith, t.small)),
        )
        (
          accept-Slots w.blk.vq w.blk.active_requests w.blk.outstanding_requests work built
              (record { head = h; rest = s ∷ [] }) free out t there q
              (Flush-Linked built h s base b),
          add_avail-Flush built h s base b,
          accept-Accepted w work n h built v free out q,
        )
