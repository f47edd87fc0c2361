-- ===== src/Net/Release.antt =====
-- A received buffer and its return: `virtio_net_process_irq` and `virtio_net_buffer_release`
-- (driver/virtio/virtio_net.c).
use picokernel.Prelude.{
  ℕ, ◌-◌, ◌%◌, ◌^◌, ◌<◌, ◌≡◌, ◌≢◌, refl, sym, ap, ◌∙◌, false, leb, arith, ◌==◌, some, ==_refl,
  ne→==, Bool-cases, inl, inr, ==_iff,
}
use picokernel.State.{Ptr, null, Kerr}
use picokernel.Kernel.{complete_work}
use picokernel.Virtqueue.{no_desc, add16, get_used, add_avail}
use picokernel.Rng.{Notify}
use picokernel.Net.{World, vq_rx, offer_rx, notify_queue}
use picokernel.Net.Used.{settle_rx, complete_rx, buffer_release, packet_length_of}
use picokernel.Net.Drain.{complete_rx_standing}

-- The header has ten bytes.
packet_length_lem : (len : ℕ) → packet_length_of len ≡ len - 10
packet_length_lem len = ground arith

module _ {D : Type 0} where
  -- The next used entry is the descriptor `d` of the buffer `i` of the standing request, which is out.
  pub record Arrived (w : World D) (d i : ℕ) : Type 0 where
    pub used : (get_used w.net.rx_vq).0 ≡ d
    pub there : w.net.standing_recv_req ≢ null
    pub slot :
        w.net.active_rx_requests d ≡ record { req = w.net.standing_recv_req; buffer_index = i }
    pub own : (w.recvs w.net.standing_recv_req).desc_heads i ≡ d
    pub valid : d ≢ no_desc
    pub within : i < (w.recvs w.net.standing_recv_req).num_buffers
    pub positive : 0 < w.net.outstanding_rx_requests
    pub small : w.net.outstanding_rx_requests < 2 ^ 16

  -- The driver after a buffer was received and given back, as before the packet came.
  pub record Returned (w w' : World D) (d : ℕ) : Type 0 where
    pub slots : (c : ℕ) → w'.net.active_rx_requests c ≡ w.net.active_rx_requests c
    pub outstanding : w'.net.outstanding_rx_requests ≡ w.net.outstanding_rx_requests
    pub descs : w'.net.rx_vq.desc ≡ w.net.rx_vq.desc
    pub ring_at : w'.net.rx_vq.avail_ring (w.net.rx_vq.avail_idx % w.net.rx_vq.queue_size) ≡ d
    pub next_idx : w'.net.rx_vq.avail_idx ≡ add16 w.net.rx_vq.avail_idx 1

  notify_queue_net :
      (notify : Notify D) (index : ℕ) (w : World D) → (notify_queue notify index w).net ≡ w.net
  unfolding notify_queue
  notify_queue_net notify index w = refl

  buffer_release_offers :
      (notify : Notify D) (req : Ptr) (i d : ℕ) (w : World D)
      → req ≢ null
      → w.net.standing_recv_req ≡ req
      → i < (w.recvs req).num_buffers
      → (w.recvs req).desc_heads i ≡ d
      → d ≢ no_desc
      → buffer_release notify req i w ≡ notify_queue notify vq_rx (offer_rx req i d w.net.rx_vq w)
  unfolding buffer_release
  buffer_release_offers notify req i d w there standing lt own valid =
      let inside : leb (w.recvs req).num_buffers i ≡ false = ground arith in
      rw
        (
          buffer_release,
          standing,
          ne→== req null there,
          ==_refl req,
          inside,
          own,
          ne→== d no_desc valid,
        )
        refl

  -- For a used entry that is a buffer of the standing request, the interrupt handler records the
  -- packet's length without the ten bytes of the header, completes the request with KERR_OK and the
  -- buffer's index, empties the descriptor's slot and counts one buffer less; when the buffer is
  -- released after that, the driver's table and count are as before, the descriptors are unchanged,
  -- and the buffer's descriptor is made available again.
  pub buffer_release-complete_rx :
      (notify : Notify D) (chain d i : ℕ) (w : World D)
      → Arrived w d i
      → (w₁ : World D) × (complete_rx chain w ≡ some w₁)
        × (w₁.kernel ≡ complete_work w.kernel w.net.standing_recv_req Kerr.ok)
        × ((w₁.recvs w.net.standing_recv_req).buffer_index ≡ i)
        × ((w₁.arrays ((w.recvs w.net.standing_recv_req).buffers) i).packet_length
            ≡ (get_used w.net.rx_vq).1 - 10)
        × (w₁.net.active_rx_requests d ≡ record { req = 0; buffer_index = 0 })
        × (w₁.net.outstanding_rx_requests ≡ w.net.outstanding_rx_requests - 1)
        × Returned w (buffer_release notify w.net.standing_recv_req i w₁) d
  unfolding get_used add_avail
  buffer_release-complete_rx notify chain d i w a =
      let r = w.net.standing_recv_req in
      let w₁ = settle_rx w ((get_used w.net.rx_vq).2) d ((get_used w.net.rx_vq).1) in
      let req : (w.net.active_rx_requests d).req ≡ r = ap (λ t. t.req) a.slot in
      let index : (w.net.active_rx_requests d).buffer_index ≡ i = ap (λ t. t.buffer_index) a.slot in
      let num : (w₁.recvs r).num_buffers ≡ (w.recvs r).num_buffers = rw (req, ==_refl r) refl in
      let own : (w₁.recvs r).desc_heads i ≡ d = rw (req, ==_refl r) a.own in
      let release =
        buffer_release_offers notify r i d w₁ a.there refl (rw num a.within) own a.valid in
      let w₂ = offer_rx r i d w₁.net.rx_vq w₁ in
      (
        w₁,
        complete_rx_standing w chain d a.used a.there req,
        ap (λ p. complete_work w.kernel p Kerr.ok) req,
        rw (req, index, ==_refl r) refl,
        rw (req, index, ==_refl ((w.recvs r).buffers), ==_refl i)
            (packet_length_lem (get_used w.net.rx_vq).1),
        rw (==_refl d) refl,
        omega (arith, a.positive, a.small),
        rw (release, notify_queue_net notify vq_rx w₂)
            (record {
              slots = λ c. elim (Bool-cases (c == d)) [
                | inl same ↦
                    rw same (sym a.slot ∙ ap w.net.active_rx_requests (sym ((==_iff c d).0 same)))
                | inr other ↦ rw other refl
              ];
              outstanding = omega (arith, a.positive, a.small);
              descs = refl;
              ring_at = rw (==_refl (w.net.rx_vq.avail_idx % w.net.rx_vq.queue_size)) refl;
              next_idx = refl;
            }),
      )
