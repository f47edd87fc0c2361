-- ===== src/Net/Offer.antt =====
-- The submission of one buffer by `submit_rx_buffer` (driver/virtio/virtio_net.c).
use picokernel.Prelude.{
  ℕ, ◌+◌, ◌*◌, ◌%◌, ◌^◌, ◌<◌, ◌≡◌, refl, subst, false, [], List, ◌∷◌, arith, ◌==◌, update, ==_refl,
}
use picokernel.State.{Ptr, Kerr}
use picokernel.Virtqueue.{Desc, Virtqueue, no_desc, flag_write, alloc_desc, add_desc, add_avail}
use picokernel.Virtqueue.FreeList.{IsFree}
use picokernel.Virtqueue.Chains.{Distinct-apart}
use picokernel.Virtqueue.Chains.Slots.{Queue, Queue-alloc, add_avail-keeps}
use picokernel.Net.{NetBuffer, World, net_header_address, build_packet, offer_rx, submit_rx_buffer}
use picokernel.Net.Send.{build_packet-Queue}

-- The chain of a buffer: a header of 10 bytes at `at`, and behind it the buffer; the device may write
-- both (flag 2), and flag 1 says that the header has a next descriptor.
pub record RxChain (desc : ℕ → Desc) (h b at : ℕ) (buf : NetBuffer) : Type 0 where
  pub header : desc h ≡ record { addr = at; len = 10; flags = 3; next = b }
  pub buffer :
      desc b
      ≡ record { addr = buf.buffer; len = buf.buffer_size % 2 ^ 32; flags = 2; next = 0xFFFF }

build_packet-RxChain :
    (vq : Virtqueue) (h b at : ℕ) (buf : NetBuffer)
    → (h == b) ≡ false
    → RxChain (add_avail (build_packet vq h b at buf flag_write) h).desc h b at buf
unfolding build_packet add_desc add_avail
build_packet-RxChain vq h b at buf ne = record {
  header = rw (ne, ==_refl h) refl;
  buffer = rw (==_refl b) refl;
}

-- What a chain that was built from two new descriptors and made available leaves alone.
pub record Built (vq v : Virtqueue) (h b : ℕ) : Type 0 where
  pub descs : (c : ℕ) → (c == h) ≡ false → (c == b) ≡ false → v.desc c ≡ vq.desc c
  pub ring : v.avail_ring ≡ update vq.avail_ring (vq.avail_idx % vq.queue_size) h

build_packet-Built :
    (vq : Virtqueue) (h b at : ℕ) (buf : NetBuffer)
    → Built vq
        (add_avail (build_packet (alloc_desc (alloc_desc vq).1).1 h b at buf flag_write) h)
        h
        b
unfolding build_packet add_desc add_avail alloc_desc
build_packet-Built vq h b at buf = record { descs = λ c e e'. ground arith; ring = ground arith }

module _ {D : Type 0} where
  submit_rx_buffer-built :
      (w : World D) (req : Ptr) (i h b : ℕ)
      → let v = (alloc_desc w.net.rx_vq).1 in
        let r = w.recvs req in
        let at = net_header_address w.rx_headers_address h in
        let built = build_packet ((alloc_desc v).1) h b at (w.arrays r.buffers i) flag_write in
        let w₃ = record w {
          recvs = update w.recvs req (record r { desc_heads = update r.desc_heads i h });
        } in
        r.desc_heads i ≡ no_desc
        → (alloc_desc w.net.rx_vq).0 ≡ h
        → (h == no_desc) ≡ false
        → (alloc_desc v).0 ≡ b
        → (b == no_desc) ≡ false
        → submit_rx_buffer req i w ≡ (Kerr.ok, offer_rx req i h built w₃)
  unfolding submit_rx_buffer
  submit_rx_buffer-built w req i h b fresh e there e' there' =
      rw (submit_rx_buffer, fresh, e, there, e', there') refl

  -- The buffer `i` is offered with the descriptors `h` and `b`, which leaves the free ones `free`.
  pub record OneOffered (w w₁ : World D) (req : Ptr) (bufs : ℕ → NetBuffer) (base i h b : ℕ)
      (free : List ℕ) : Type 0 where
    pub free_list : IsFree w₁.net.rx_vq free
    pub queue_size : w₁.net.rx_vq.queue_size ≡ w.net.rx_vq.queue_size
    pub avail : w₁.net.rx_vq.avail_idx ≡ (w.net.rx_vq.avail_idx + 1) % 2 ^ 16
    pub heads : (w₁.recvs req).desc_heads ≡ update (w.recvs req).desc_heads i h
    pub slots :
        w₁.net.active_rx_requests
        ≡ update w.net.active_rx_requests h (record { req = req; buffer_index = i })
    pub chain : RxChain w₁.net.rx_vq.desc h b ((base + 10 * h) % 2 ^ 64) (bufs i)
    pub built : Built w.net.rx_vq w₁.net.rx_vq h b
    pub kernel : w₁.kernel ≡ w.kernel
    pub standing : w₁.net.standing_recv_req ≡ w.net.standing_recv_req
    pub outstanding : w₁.net.outstanding_rx_requests ≡ (w.net.outstanding_rx_requests + 1) % 2 ^ 16
    pub bufs_kept : w₁.arrays (w₁.recvs req).buffers ≡ bufs
    pub base_kept : w₁.rx_headers_address ≡ base

  pub submit_rx_buffer-OneOffered :
      (req : Ptr) (bufs : ℕ → NetBuffer) (base : ℕ) (w : World D) (i h b : ℕ) (free : List ℕ)
      → w.arrays (w.recvs req).buffers ≡ bufs
      → w.rx_headers_address ≡ base
      → (w.recvs req).desc_heads i ≡ no_desc
      → IsFree w.net.rx_vq (h ∷ b ∷ free)
      → w.net.rx_vq.queue_size < 2 ^ 16
      → (w₁ : World D) × (submit_rx_buffer req i w ≡ (Kerr.ok, w₁))
        × OneOffered w w₁ req bufs base i h b free
  submit_rx_buffer-OneOffered req bufs base w i h b free here there fresh f size =
      let q₀ : Queue w.net.rx_vq w.net.rx_vq.queue_size w.net.rx_vq.avail_idx (h ∷ b ∷ free) [] =
        record { free_list = f; linked = tt; queue_size = refl; avail = refl } in
      let (e, q) = Queue-alloc w.net.rx_vq _ _ h (b ∷ free) [] q₀ in
      let v = (alloc_desc w.net.rx_vq).1 in
      let (e', q') = Queue-alloc v _ _ b free [] q in
      let v' = (alloc_desc v).1 in
      let r = w.recvs req in
      let at = net_header_address w.rx_headers_address h in
      let (_, h_lt, (_, b_lt, _)) = f.chain in
      let q'' =
        build_packet-Queue v' h b at (w.arrays r.buffers i) flag_write _ _ free []
          (λ c m. (Distinct-apart c (h ∷ b ∷ []) free f.distinct m, refl)) q' in
      let built = build_packet v' h b at (w.arrays r.buffers i) flag_write in
      let (f', _, size', avail', _) = add_avail-keeps built _ _ free [] h q'' in
      let desc = (add_avail built h).desc in
      (
        _,
        submit_rx_buffer-built w req i h b fresh e (ground arith) e' (ground arith),
        record {
          free_list = f';
          queue_size = size';
          avail = avail';
          heads = rw (==_refl req) refl;
          slots = refl;
          chain =
              subst (λ g. RxChain desc h b ((base + 10 * h) % 2 ^ 64) (g i)) here
                (subst (λ a. RxChain desc h b ((a + 10 * h) % 2 ^ 64) (w.arrays r.buffers i)) there
                  (build_packet-RxChain v' h b at (w.arrays r.buffers i)
                    (ground (arith, f.distinct.0))));
          built = build_packet-Built w.net.rx_vq h b at (w.arrays r.buffers i);
          kernel = refl;
          standing = refl;
          outstanding = refl;
          bufs_kept = rw (==_refl req) here;
          base_kept = there;
        },
      )
