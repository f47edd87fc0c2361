-- ===== src/Net/Receive.antt =====
-- The buffers of a standing request in `virtio_net_submit_work` (driver/virtio/virtio_net.c).
use picokernel.Prelude.{
  ℕ, zero, suc, ◌+◌, ◌*◌, ◌%◌, ◌^◌, ◌≤◌, ◌<◌, ◌≡◌, refl, ap, ◌∙◌, true, false, List, [], ◌∷◌, arith,
  ◌==◌, update, length, has, Distinct, ==_refl, ltb,
}
use picokernel.State.{Ptr, Kerr, WorkState, op_net_recv, work_at}
use picokernel.Virtqueue.{Desc, no_desc}
use picokernel.Virtqueue.FreeList.{IsFree}
use picokernel.Net.{
  NetBuffer, RxTracking, Net, World, submit_rx_buffer, submit_buffers, submit_recv, submit_one,
  make_standing, make_live, is_invalid_recv, max_buffers,
}
use picokernel.Net.Offer.{RxChain, OneOffered, submit_rx_buffer-OneOffered}

-- The first descriptors of the chains of `n` buffers, the descriptors left, and the chains then out.
abbrev pub heads_for : ℕ → List ℕ → List ℕ
heads_for (suc n) (h ∷ b ∷ free) = h ∷ heads_for n free
heads_for n free = []

abbrev pub left_for : ℕ → List ℕ → List ℕ
left_for (suc n) (h ∷ b ∷ free) = left_for n free
left_for n free = free

-- The buffers `bufs` from `i` on, `n` of them, are offered, each with the next two of the descriptors:
-- the first one is the buffer's, leads back to it, and is the first one of its chain, whose header
-- stands at the same index behind `base`.
abbrev pub Offered :
    (heads : ℕ → ℕ)
    → (slots : ℕ → RxTracking) → (desc : ℕ → Desc) → (req : Ptr) → (bufs : ℕ → NetBuffer)
    → (base i n : ℕ) → List ℕ
    → Type 0
Offered heads slots desc req bufs base i (suc n) (h ∷ b ∷ free) =
    (heads i ≡ h)
    × (slots h ≡ record { req = req; buffer_index = i })
    × RxChain desc h b ((base + 10 * h) % 2 ^ 64) (bufs i)
    × Offered heads slots desc req bufs base (i + 1) n free
Offered heads slots desc req bufs base i n free = Unit

-- The available ring of `size` entries once the heads `hs` were put into it from the index `at` on.
abbrev pub ring_after : (ring : ℕ → ℕ) → (size at : ℕ) → List ℕ → ℕ → ℕ
ring_after ring size at [] = ring
ring_after ring size at (h ∷ hs) =
    ring_after (update ring (at % size) h) size ((at + 1) % 2 ^ 16) hs

module _ {D : Type 0} where
  -- What the loop from buffer `i` on leaves, with `n` buffers and the descriptors `free` for them.
  record Filled (w w' : World D) (req : Ptr) (bufs : ℕ → NetBuffer) (base i n : ℕ) (free : List ℕ)
      : Type 0 where
    pub free_list : IsFree w'.net.rx_vq (left_for n free)
    pub offered :
        Offered
          (w'.recvs req).desc_heads
          w'.net.active_rx_requests
          w'.net.rx_vq.desc
          req
          bufs
          base
          i
          n
          free
    pub ring :
        w'.net.rx_vq.avail_ring
        ≡ ring_after w.net.rx_vq.avail_ring w.net.rx_vq.queue_size w.net.rx_vq.avail_idx
            (heads_for n free)
    pub descs_kept : (d : ℕ) → has d free ≡ false → w'.net.rx_vq.desc d ≡ w.net.rx_vq.desc d
    pub heads_before : (j : ℕ) → j < i → (w'.recvs req).desc_heads j ≡ (w.recvs req).desc_heads j
    pub slots_kept :
        (d : ℕ) → has d free ≡ false → w'.net.active_rx_requests d ≡ w.net.active_rx_requests d
    pub kernel : w'.kernel ≡ w.kernel
    pub standing : w'.net.standing_recv_req ≡ w.net.standing_recv_req
    pub outstanding : w'.net.outstanding_rx_requests ≡ (w.net.outstanding_rx_requests + n) % 2 ^ 16
    pub avail : w'.net.rx_vq.avail_idx ≡ (w.net.rx_vq.avail_idx + n) % 2 ^ 16

  Filled-OneOffered :
      (w w₁ w' : World D) (req : Ptr) (bufs : ℕ → NetBuffer) (base i n h b : ℕ) (free : List ℕ)
      → Distinct (h ∷ b ∷ free)
      → w.net.rx_vq.avail_idx < 2 ^ 16
      → OneOffered w w₁ req bufs base i h b free
      → Filled w₁ w' req bufs base (i + 1) n free
      → Filled w w' req bufs base i (suc n) (h ∷ b ∷ free)
  Filled-OneOffered w w₁ w' req bufs base i n h b free d small o g = record {
    free_list = g.free_list;
    offered = (
      g.heads_before i (omega arith) ∙ ap (λ heads. heads i) o.heads ∙ rw (==_refl i) refl,
      g.slots_kept h (ground (arith, d.0)) ∙ ap (λ slots. slots h) o.slots ∙ rw (==_refl h) refl,
      record {
        header = g.descs_kept h (ground (arith, d.0)) ∙ o.chain.header;
        buffer = g.descs_kept b (ground (arith, d.1.0)) ∙ o.chain.buffer;
      },
      g.offered,
    );
    ring = g.ring ∙ rw (o.built.ring, o.queue_size, o.avail) refl;
    descs_kept =
        λ c out. g.descs_kept c (ground arith) ∙ o.built.descs c (ground arith) (ground arith);
    heads_before =
        λ j lt. g.heads_before j (omega arith) ∙ ap (λ heads. heads j) o.heads ∙ ground arith;
    slots_kept = λ c out.
        g.slots_kept c (ground arith)
        ∙ ap (λ slots. slots c) o.slots
        ∙ (let other : (c == h) ≡ false = ground arith in rw other refl);
    kernel = g.kernel ∙ o.kernel;
    standing = g.standing ∙ o.standing;
    outstanding = g.outstanding ∙ rw o.outstanding (omega arith);
    avail = g.avail ∙ rw o.avail (omega arith);
  }

  submit_buffers_step :
      (w w₁ : World D) (req : Ptr) (i n s : ℕ)
      → submit_rx_buffer req i w ≡ (Kerr.ok, w₁)
      → submit_buffers (suc n) i req (w, s) ≡ submit_buffers n (i + 1) req (w₁, s + 1)
  unfolding submit_buffers
  submit_buffers_step w w₁ req i n s e = rw e refl

  submit_buffers_done :
      (w : World D) (req : Ptr) (i s : ℕ) → submit_buffers 0 i req (w, s) ≡ (true, w, s)
  unfolding submit_buffers
  submit_buffers_done w req i s = refl

  submit_buffers-Filled :
      (n i s : ℕ) (req : Ptr) (bufs : ℕ → NetBuffer) (base : ℕ) (w : World D) (free : List ℕ)
      → w.arrays (w.recvs req).buffers ≡ bufs
      → w.rx_headers_address ≡ base
      → ((j : ℕ) → i ≤ j → j < i + n → (w.recvs req).desc_heads j ≡ no_desc)
      → IsFree w.net.rx_vq free
      → w.net.rx_vq.queue_size < 2 ^ 16
      → w.net.outstanding_rx_requests < 2 ^ 16
      → w.net.rx_vq.avail_idx < 2 ^ 16
      → 2 * n ≤ length free
      → (w' : World D) × (submit_buffers n i req (w, s) ≡ (true, w', s + n))
        × Filled w w' req bufs base i n free
  submit_buffers-Filled zero i s req bufs base w free here there fresh f size few small enough = (
    w,
    submit_buffers_done w req i s ∙ ap (λ m. (true, w, m)) (omega arith),
    record {
      free_list = f;
      offered = tt;
      ring = refl;
      descs_kept = λ d out. refl;
      heads_before = λ j lt. refl;
      slots_kept = λ d out. refl;
      kernel = refl;
      standing = refl;
      outstanding = omega (arith, few);
      avail = omega (arith, small);
    },
  )
  submit_buffers-Filled (suc n) i s req bufs base w [] here there fresh f size few small enough =
      absurd (omega arith)
  submit_buffers-Filled (suc n) i s req bufs base w (h ∷ []) here there fresh f size few small
        enough =
      absurd (omega arith)
  submit_buffers-Filled (suc n) i s req bufs base w (h ∷ b ∷ free) here there fresh f size few small
        enough =
      let (w₁, one, o) =
        submit_rx_buffer-OneOffered req bufs base w i h b free here there
          (fresh i (omega arith) (omega arith)) f size in
      let (w', eq, g) =
        submit_buffers-Filled n (i + 1) (s + 1) req bufs base w₁ free o.bufs_kept o.base_kept
          (λ j lo hi.
            ap (λ heads. heads j) o.heads ∙ ground (arith, fresh j (omega arith) (omega arith)))
          o.free_list (rw o.queue_size size) (rw o.outstanding (omega arith))
          (rw o.avail (omega arith)) (omega arith) in
      (
        w',
        submit_buffers_step w w₁ req i n s one ∙ eq ∙ ap (λ m. (true, w', m)) (omega arith),
        Filled-OneOffered w w₁ w' req bufs base i n h b free f.distinct small o g,
      )

length-heads_for : (n : ℕ) (free : List ℕ) → 2 * n ≤ length free → length (heads_for n free) ≡ n
length-heads_for zero free enough = refl
length-heads_for (suc n) [] enough = absurd (omega arith)
length-heads_for (suc n) (h ∷ []) enough = absurd (omega arith)
length-heads_for (suc n) (h ∷ b ∷ free) enough = ap suc (length-heads_for n free (omega arith))

-- The receive queue has the free descriptors `free`, and its counters are 16-bit numbers.
pub record RxQueue (net : Net) (free : List ℕ) : Type 0 where
  pub free_list : IsFree net.rx_vq free
  pub small : net.rx_vq.queue_size < 2 ^ 16
  pub outstanding : net.outstanding_rx_requests < 2 ^ 16
  pub avail : net.rx_vq.avail_idx < 2 ^ 16

module _ {D : Type 0} where
  -- A standing request to receive that passes the checks and has no descriptors of its own yet.
  pub record IsNewStanding (w : World D) (work : Ptr) : Type 0 where
    pub op : (work_at w.kernel work).op ≡ op_net_recv
    pub valid : is_invalid_recv w work ≡ false
    pub unallocated : (w.recvs work).descriptors_allocated ≡ false

  -- Every buffer of the request is offered to the device.
  pub record AllOffered (w : World D) (work : Ptr) (free : List ℕ) (w' : World D) : Type 0 where
    pub free_list : IsFree w'.net.rx_vq (left_for (w.recvs work).num_buffers free)
    pub each : length (heads_for (w.recvs work).num_buffers free) ≡ (w.recvs work).num_buffers
    pub offered :
        Offered
          (w'.recvs work).desc_heads
          w'.net.active_rx_requests
          w'.net.rx_vq.desc
          work
          (w.arrays (w.recvs work).buffers)
          w.rx_headers_address
          0
          (w.recvs work).num_buffers
          free
    pub ring :
        w'.net.rx_vq.avail_ring
        ≡ ring_after w.net.rx_vq.avail_ring w.net.rx_vq.queue_size w.net.rx_vq.avail_idx
            (heads_for (w.recvs work).num_buffers free)
    pub standing : w'.net.standing_recv_req ≡ work
    pub outstanding :
        w'.net.outstanding_rx_requests
        ≡ (w.net.outstanding_rx_requests + (w.recvs work).num_buffers) % 2 ^ 16
    pub avail :
        w'.net.rx_vq.avail_idx ≡ (w.net.rx_vq.avail_idx + (w.recvs work).num_buffers) % 2 ^ 16
    pub live : (work_at w'.kernel work).state ≡ WorkState.live

  submit_recv_all :
      (w w' : World D) (work : Ptr) (rx n : ℕ)
      → is_invalid_recv w work ≡ false
      → submit_buffers (w.recvs work).num_buffers 0 work (make_standing w work, rx) ≡ (true, w', n)
      → submit_recv work (w, rx) ≡ (make_live w' work, n)
  unfolding submit_recv
  submit_recv_all w w' work rx n valid e = rw (submit_recv, valid, e) refl

  submit_one_recv :
      (w w' : World D) (work : Ptr) (rx tx n : ℕ)
      → (work_at w.kernel work).op ≡ op_net_recv
      → submit_recv work (w, rx) ≡ (w', n)
      → submit_one work (w, rx, tx) ≡ (w', n, tx)
  unfolding submit_one
  submit_one_recv w w' work rx tx n op e = rw (submit_one, op, e) refl

  fresh_heads :
      (w : World D) (work : Ptr)
      → (w.recvs work).descriptors_allocated ≡ false
      → is_invalid_recv w work ≡ false
      → (j : ℕ) → j < (w.recvs work).num_buffers
      → ((make_standing w work).recvs work).desc_heads j ≡ no_desc
  fresh_heads w work new valid j lt =
      let few : (w.recvs work).num_buffers ≤ max_buffers = ground (arith, valid) in
      let below : ltb j max_buffers ≡ true = ground arith in rw (new, ==_refl work, below) refl

  -- For a new standing request to receive that passes the checks, and twice as many free
  -- descriptors of the receive queue as it has buffers, every buffer in order gets the next two
  -- descriptors: the first one describes the 10 bytes of its header and is chained to the second
  -- one, which describes the buffer, both writable by the device; the first one leads back to the
  -- request and the buffer's index and is the next entry of the available ring. The request becomes
  -- the standing one and LIVE, and the counts of buffers that are out and of the available ring
  -- grow by theirs.
  pub submit_one-AllOffered :
      (w : World D) (work : Ptr) (rx tx : ℕ) (free : List ℕ)
      → IsNewStanding w work
      → RxQueue w.net free
      → 2 * (w.recvs work).num_buffers ≤ length free
      → (w' : World D) × (submit_one work (w, rx, tx) ≡ (w', rx + (w.recvs work).num_buffers, tx))
        × AllOffered w work free w'
  submit_one-AllOffered w work rx tx free new q enough =
      let n = (w.recvs work).num_buffers in
      let valid = new.valid in
      let (w', e, f) =
        submit_buffers-Filled n 0 rx work (w.arrays (w.recvs work).buffers) w.rx_headers_address
          (make_standing w work) free (rw (new.unallocated, ==_refl work) refl) refl
          (λ j lo hi. fresh_heads w work new.unallocated new.valid j (omega arith)) q.free_list
          q.small q.outstanding q.avail enough in
      (
        make_live w' work,
        submit_one_recv w (make_live w' work) work rx tx (rx + n) new.op
            (submit_recv_all w w' work rx (rx + n) new.valid e),
        record {
          free_list = f.free_list;
          each = length-heads_for n free enough;
          offered = f.offered;
          ring = f.ring;
          standing = f.standing;
          outstanding = f.outstanding;
          avail = f.avail;
          live = rw (work_at, ==_refl work) refl;
        },
      )
