-- ===== src/Blk/Outcome.antt =====
-- The outcomes of a request in `virtio_blk_submit_work` (driver/virtio/virtio_blk.c).
use picokernel.Prelude.{ℕ, ◌+◌, ◌%◌, ◌≡◌, refl, sym, ap, subst, List, update, length, has, ==_refl}
use picokernel.State.{Ptr, Kerr, WorkState, work_at}
use picokernel.Kernel.{complete_work}
use picokernel.Virtqueue.{Virtqueue, add16}
use picokernel.Virtqueue.Chains.{Taken}
use picokernel.Blk.{World, accept, refuse, request_buffer}
use picokernel.Blk.Tracked.{Tracked}
use picokernel.Virtqueue.Chains.Slots.{Queue, add_avail-keeps, refuse-Slots}

module _ {D : Type 0} where
  -- The world once the header's descriptor is taken and the header is written.
  abbrev pub started : World D → Ptr → ℕ → Virtqueue → World D
  started w work h vq = record w {
    blk = record w.blk { vq = vq };
    req_buffers =
        update w.req_buffers h (
          request_buffer (work_at w.kernel work).op ((w.segments ((w.reqs work).segments)).sector));
  }

  -- A request that finds too few descriptors is completed with KERR_NO_SPACE, and the driver keeps
  -- track of the same chains and free descriptors.
  pub record Refused (w : World D) (work : Ptr) (n : ℕ) (free : List ℕ) (out : List Taken)
      (r : World D × ℕ) : Type 0 where
    pub left : List ℕ
    pub tracked : Tracked r.0.blk left out
    pub same_free : (a : ℕ) → has a left ≡ has a free
    pub length_left : length left ≡ length free
    pub completed : r.0.kernel ≡ complete_work w.kernel work Kerr.no_space
    pub count : r.1 ≡ n

  -- A request that got a chain is LIVE and counted, its chain is in the available ring and its slot.
  pub record Accepted (w : World D) (work : Ptr) (n h : ℕ) (r : World D × ℕ) : Type 0 where
    pub slot : r.0.blk.active_requests h ≡ work
    pub header :
        r.0.req_buffers h
        ≡ request_buffer (work_at w.kernel work).op ((w.segments ((w.reqs work).segments)).sector)
    pub ring_at : r.0.blk.vq.avail_ring (w.blk.vq.avail_idx % w.blk.vq.queue_size) ≡ h
    pub next_idx : r.0.blk.vq.avail_idx ≡ add16 w.blk.vq.avail_idx 1
    pub live : (work_at r.0.kernel work).state ≡ WorkState.live
    pub count : r.1 ≡ n + 1

  pub accept-Accepted :
      (w : World D) (work : Ptr) (n h : ℕ) (v v₀ : Virtqueue) (free : List ℕ) (out : List Taken)
      → Queue v w.blk.vq.queue_size w.blk.vq.avail_idx free out
      → Accepted w work n h (accept (started w work h v₀) work v h, n + 1)
  accept-Accepted w work n h v v₀ free out q =
      let (_, _, _, next_idx, ring_at) =
        add_avail-keeps v w.blk.vq.queue_size w.blk.vq.avail_idx free out h q in
      record {
        slot = rw (==_refl h) refl;
        header = rw (==_refl h) refl;
        ring_at = ring_at;
        next_idx = next_idx;
        live = rw (work_at, ==_refl work) refl;
        count = refl;
      }

  pub refuse-Refused :
      (w : World D) (work : Ptr) (n : ℕ) (free free' : List ℕ) (out : List Taken) (w' : World D)
      (v : Virtqueue)
      → Tracked w.blk free out
      → Queue v w.blk.vq.queue_size w.blk.vq.avail_idx free' out
      → ((a : ℕ) → has a free' ≡ has a free)
      → length free' ≡ length free
      → w'.kernel ≡ w.kernel
      → record w'.blk { vq = v } ≡ record w.blk { vq = v }
      → Refused w work n free out (refuse w' work v Kerr.no_space, n)
  refuse-Refused w work n free free' out w' v t q same len kernel blk = record {
    left = free';
    tracked =
        subst (λ b. Tracked b free' out) (sym blk)
          (refuse-Slots w.blk.vq w.blk.active_requests w.blk.outstanding_requests v free free' out t
            q same len);
    same_free = same;
    length_left = len;
    completed = ap (λ k. complete_work k work Kerr.no_space) kernel;
    count = refl;
  }
