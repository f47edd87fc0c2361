-- ===== src/Rng/Submit.antt =====
-- What `virtio_rng_submit_work` (driver/virtio/virtio_rng.c) does with a request.
use picokernel.Prelude.{
  ℕ, ◌+◌, ◌%◌, ◌^◌, ◌≤◌, ◌<◌, ◌≡◌, ◌≢◌, refl, sym, ap, ap₂, ◌∙◌, true, false, List, [], ◌∷◌, arith,
  ◌==◌, update, length, has, Distinct, ==_refl,
}
use picokernel.State.{Ptr, null, Kerr, WorkState, op_rng_read, work_at, set_work}
use picokernel.Kernel.{complete_work}
use picokernel.Virtqueue.{
  Desc, Virtqueue, no_desc, flag_write, add16, alloc_desc, add_desc, add_avail,
}
use picokernel.Virtqueue.FreeList.{IsFree, alloc_desc-Allocated, add_desc-IsFree}
use picokernel.Rng.{Rng, World, submit_one}

-- The descriptors of the device: `free` are free, `out` carry a request, each in its own slot.
pub record Tracked (rng : Rng) (free out : List ℕ) : Type 0 where
  pub free_list : IsFree rng.vq free
  pub distinct : Distinct out
  pub apart : (d : ℕ) → has d out ≡ true → has d free ≡ false
  pub within : (d : ℕ) → has d out ≡ true → d < rng.vq.queue_size
  pub busy : (d : ℕ) → has d out ≡ true → rng.active_requests d ≢ null
  pub idle : (d : ℕ) → has d out ≡ false → rng.active_requests d ≡ null
  pub count : rng.outstanding_requests ≡ length out
  pub fits : length free + length out < 2 ^ 16

add_avail-IsFree :
    (vq : Virtqueue) (free : List ℕ) (d : ℕ) → IsFree vq free → IsFree (add_avail vq d) free
unfolding add_avail
add_avail-IsFree vq free d f = record {
  chain = f.chain;
  distinct = f.distinct;
  count = f.count;
  fits = f.fits;
}

-- Taking a descriptor leaves the size and the available ring.
record SameRing (vq v : Virtqueue) : Type 0 where
  pub queue_size : v.queue_size ≡ vq.queue_size
  pub avail_idx : v.avail_idx ≡ vq.avail_idx

alloc_desc-SameRing : (vq : Virtqueue) → SameRing vq ((alloc_desc vq).1)
unfolding alloc_desc
alloc_desc-SameRing vq = record { queue_size = ground arith; avail_idx = ground arith }

-- The queue after a descriptor was set up and made available.
record Offered (vq v : Virtqueue) (d : ℕ) (desc : Desc) : Type 0 where
  pub desc_at : v.desc d ≡ desc
  pub ring_at : v.avail_ring (vq.avail_idx % vq.queue_size) ≡ d
  pub next_idx : v.avail_idx ≡ add16 vq.avail_idx 1
  pub queue_size : v.queue_size ≡ vq.queue_size

offer :
    (vq : Virtqueue) (d addr len flags : ℕ)
    → Offered vq
        (add_avail (add_desc vq d addr len flags) d)
        d
        (record { addr = addr; len = len; flags = flags; next = no_desc })
unfolding add_avail add_desc
offer vq d addr len flags = record {
  desc_at = rw (==_refl d) refl;
  ring_at = rw (==_refl (vq.avail_idx % vq.queue_size)) refl;
  next_idx = refl;
  queue_size = refl;
}

module _ {D : Type 0} where
  -- What becomes of a request for random bytes, by the descriptors that are free.
  abbrev pub Submitted : World D → Ptr → ℕ → List ℕ → List ℕ → World D × ℕ → Type 0
  Submitted w work n [] out (w', n') =
      (w' ≡ record w { kernel = complete_work w.kernel work Kerr.busy }) × (n' ≡ n)
  Submitted w work n (d ∷ free) out (w', n') =
      Tracked w'.rng free (d ∷ out)
      × (w'.rng.active_requests d ≡ work)
      × (w'.rng.vq.desc d ≡ record {
        addr = (w.reqs work).buffer;
        len = (w.reqs work).length % 2 ^ 32;
        flags = flag_write;
        next = no_desc;
      })
      × (w'.rng.vq.avail_ring (w.rng.vq.avail_idx % w.rng.vq.queue_size) ≡ d)
      × (w'.rng.vq.avail_idx ≡ add16 w.rng.vq.avail_idx 1)
      × ((work_at w'.kernel work).state ≡ WorkState.live)
      × ((w'.reqs work).desc_idx ≡ d)
      × (n' ≡ n + 1)

  submit_one-full :
      (w : World D) (work : Ptr) (n : ℕ)
      → alloc_desc w.rng.vq ≡ (no_desc, w.rng.vq)
      → (work_at w.kernel work).op ≡ op_rng_read
      → submit_one work (w, n) ≡ (record w { kernel = complete_work w.kernel work Kerr.busy }, n)
  unfolding submit_one
  submit_one-full w work n e op = rw (submit_one, e, op) refl

  -- The driver and the kernel after descriptor `d` was taken for the request, which left `vq₁`.
  abbrev submitted : World D → Ptr → ℕ → Virtqueue → World D
  submitted w work d vq₁ =
      let req = w.reqs work in
      record w {
        rng = record w.rng {
          vq = add_avail (add_desc vq₁ d req.buffer (req.length % 2 ^ 32) flag_write) d;
          active_requests = update w.rng.active_requests d work;
          outstanding_requests = add16 w.rng.outstanding_requests 1;
        };
        reqs = update w.reqs work (record req { desc_idx = d });
        kernel = set_work w.kernel work (record (work_at w.kernel work) { state = WorkState.live });
      }

  submit_one-submitted :
      (w : World D) (work : Ptr) (n d : ℕ)
      → (alloc_desc w.rng.vq).0 ≡ d
      → (d == no_desc) ≡ false
      → (work_at w.kernel work).op ≡ op_rng_read
      → submit_one work (w, n) ≡ (submitted w work d ((alloc_desc w.rng.vq).1), n + 1)
  unfolding submit_one
  submit_one-submitted w work n d e there op = rw (submit_one, op, e, there) refl

  submitted-Tracked :
      (w : World D) (work : Ptr) (d : ℕ) (free out : List ℕ)
      → Tracked w.rng (d ∷ free) out
      → work ≢ null
      → d < w.rng.vq.queue_size
      → IsFree ((alloc_desc w.rng.vq).1) free
      → Tracked ((submitted w work d ((alloc_desc w.rng.vq).1)).rng) free (d ∷ out)
  submitted-Tracked w work d free out t there lt f =
      let vq₁ = (alloc_desc w.rng.vq).1 in
      let same = alloc_desc-SameRing w.rng.vq in
      let o = offer vq₁ d ((w.reqs work).buffer) ((w.reqs work).length % 2 ^ 32) flag_write in
      record {
        free_list =
            add_avail-IsFree _ free d (add_desc-IsFree _ free d _ _ _ f (t.free_list.distinct.0));
        distinct = (ground (arith, t.apart d), t.distinct);
        apart = λ c e. ground (arith, t.apart c);
        within = λ c e. rw (o.queue_size, same.queue_size) (ground (arith, t.within c));
        busy = λ c e. ground (arith, t.busy c, there);
        idle = λ c e. ground (arith, t.idle c);
        count = omega (arith, t.count, t.fits);
        fits = omega (arith, t.fits);
      }

  -- For a queue of at most 256 entries that tracks its requests, and a request for random bytes:
  -- without a free descriptor `virtio_rng_submit_work` completes it with KERR_BUSY and changes
  -- nothing else; otherwise the first free descriptor describes the request's buffer, writable by the
  -- device, stands in the available ring and is the request's slot, the request is LIVE and counted,
  -- and the queue still tracks its requests.
  pub submit_one-Submitted :
      (w : World D) (work : Ptr) (n : ℕ) (free out : List ℕ)
      → Tracked w.rng free out
      → work ≢ null
      → w.rng.vq.queue_size ≤ 256
      → (work_at w.kernel work).op ≡ op_rng_read
      → Submitted w work n free out (submit_one work (w, n))
  submit_one-Submitted w work n [] out t there small op =
      let e = submit_one-full w work n (alloc_desc-Allocated w.rng.vq [] t.free_list) op in
      (ap (λ r. r.0) e, ap (λ r. r.1) e)
  submit_one-Submitted w work n (d ∷ free) out t there small op =
      let (same, lt, left) = alloc_desc-Allocated w.rng.vq (d ∷ free) t.free_list in
      let kept = alloc_desc-SameRing w.rng.vq in
      let o =
        offer ((alloc_desc w.rng.vq).1) d ((w.reqs work).buffer) ((w.reqs work).length % 2 ^ 32)
          flag_write in
      let v = (submitted w work d ((alloc_desc w.rng.vq).1)).rng.vq in
      let there' : (d == no_desc) ≡ false = ground arith in
      rw (submit_one-submitted w work n d same there' op) (
        submitted-Tracked w work d free out t there lt left,
        rw (==_refl d) refl,
        o.desc_at,
        ap₂ (λ i z. v.avail_ring (i % z)) (sym kept.avail_idx) (sym kept.queue_size) ∙ o.ring_at,
        o.next_idx ∙ ap (λ i. add16 i 1) kept.avail_idx,
        rw (work_at, ==_refl work) refl,
        rw (==_refl work) refl,
        refl,
      )
