-- ===== src/Net/Used.antt =====
-- driver/virtio/virtio_net.c: completions, the return of a buffer, and cancellation.
use picokernel.Prelude.{
  ℕ, zero, suc, ◌+◌, ◌-◌, false, ◌||◌, not, Option, none, some, ◌==◌, ltb, leb, if◌then◌else◌,
  update,
}
use picokernel.State.{Ptr, null, Kerr, op_net_recv, work_at, ◌>>=◌}
use picokernel.Kernel.{complete_work, cancel_work}
use picokernel.Virtqueue.{Virtqueue, no_desc, sub16, has_used, get_used, free_desc}
use picokernel.Virtqueue.Chains.{free_chain}
use picokernel.Rng.{Notify}
use picokernel.Net.{
  NetBuffer, Net, World, net_header_size, untracked, max_requests, vq_rx, offer_rx, notify_queue,
}

-- The length of a packet without its header.
abbrev pub packet_length_of : ℕ → ℕ
packet_length_of len = if ltb net_header_size len then len - net_header_size else 0

-- `array[index].packet_length = len`
abbrev pub set_packet_length : (ℕ → ℕ → NetBuffer) → ℕ → ℕ → ℕ → ℕ → ℕ → NetBuffer
set_packet_length arrays array index len =
    update arrays array
      (update (arrays array) index (record (arrays array index) { packet_length = len }))

-- The loop of `virtio_net_cancel_work` over the slots, from `i` on.
unfoldable pub forget_slots : ℕ → ℕ → Ptr → Net → Net
forget_slots zero i req net = net
forget_slots (suc rounds) i req net =
    let net' = record net {
      active_rx_requests = update net.active_rx_requests i untracked;
      outstanding_rx_requests = sub16 net.outstanding_rx_requests 1;
    } in
    forget_slots rounds (i + 1) req (if (net.active_rx_requests i).req == req then net' else net)

-- The loop over the request's own descriptors, from `i` on.
unfoldable pub free_buffers : ℕ → ℕ → ℕ → Virtqueue × (ℕ → ℕ) → Option (Virtqueue × (ℕ → ℕ))
free_buffers chain zero i (vq, heads) = some (vq, heads)
free_buffers chain (suc rounds) i (vq, heads) =
    let keep = free_buffers chain rounds (i + 1) (vq, heads) in
    let more = free_chain chain (heads i) vq >>= λ vq'.
    free_buffers chain rounds (i + 1) (vq', update heads i no_desc) in
    if heads i == no_desc then keep else more

module _ {D : Type 0} where
  -- What the completion of a received packet changes, apart from the release of the chain.
  abbrev pub settle_rx : World D → Virtqueue → ℕ → ℕ → World D
  settle_rx w vq desc_idx len =
      let req = (w.net.active_rx_requests desc_idx).req in
      let index = (w.net.active_rx_requests desc_idx).buffer_index in
      record w {
        net = record w.net {
          rx_vq = vq;
          active_rx_requests = update w.net.active_rx_requests desc_idx untracked;
          outstanding_rx_requests = sub16 w.net.outstanding_rx_requests 1;
        };
        arrays = set_packet_length w.arrays (w.recvs req).buffers index (packet_length_of len);
        recvs = update w.recvs req (record (w.recvs req) { buffer_index = index });
        kernel = complete_work w.kernel req Kerr.ok;
      }

  -- The body of the loop of `virtio_net_process_irq` over the receive queue.
  unfoldable pub complete_rx : ℕ → World D → Option (World D)
  complete_rx fuel w =
      let (desc_idx, len, vq) = get_used w.net.rx_vq in
      let req = (w.net.active_rx_requests desc_idx).req in
      let freed = free_chain fuel desc_idx vq in
      if req == null
      then freed >>= (λ vq'. some (record w { net = record w.net { rx_vq = vq' } }))
      else if req == w.net.standing_recv_req
      then some (settle_rx w vq desc_idx len)
      else freed >>= (λ vq'. some (settle_rx w vq' desc_idx len))

  unfoldable pub rx_loop : ℕ → ℕ → World D → Option (World D)
  rx_loop zero chain w = none
  rx_loop (suc fuel) chain w =
      let more = complete_rx chain w >>= rx_loop fuel chain in
      if has_used w.net.rx_vq then more else some w

  -- The same for a packet that was sent.
  abbrev pub settle_tx : World D → Virtqueue → Ptr → ℕ → World D
  settle_tx w vq req desc_idx = record w {
    net = record w.net {
      tx_vq = vq;
      active_tx_requests = update w.net.active_tx_requests desc_idx null;
      outstanding_tx_requests = sub16 w.net.outstanding_tx_requests 1;
    };
    sends = update w.sends req (record (w.sends req) { packets_sent = 1 });
    kernel = complete_work w.kernel req Kerr.ok;
  }

  unfoldable pub complete_tx : ℕ → World D → Option (World D)
  complete_tx fuel w =
      let (desc_idx, len, vq) = get_used w.net.tx_vq in
      let req = w.net.active_tx_requests desc_idx in
      let chain = free_chain fuel desc_idx vq >>= λ vq'. some (settle_tx w vq' req desc_idx) in
      if req == null
      then some (record w { net = record w.net { tx_vq = free_desc vq desc_idx } })
      else chain

  unfoldable pub tx_loop : ℕ → ℕ → World D → Option (World D)
  tx_loop zero chain w = none
  tx_loop (suc fuel) chain w =
      let more = complete_tx chain w >>= tx_loop fuel chain in
      if has_used w.net.tx_vq then more else some w

  -- `virtio_net_process_irq`, with fuel for the used entries and for the descriptors of one chain.
  unfoldable pub process_irq : ℕ → ℕ → World D → Option (World D)
  process_irq fuel chain w = rx_loop fuel chain w >>= tx_loop fuel chain

  -- `virtio_net_buffer_release`, for a device.
  unfoldable pub buffer_release : Notify D → Ptr → ℕ → World D → World D
  buffer_release notify req buffer_index w =
      let r = w.recvs req in
      let desc_head = r.desc_heads buffer_index in
      if (req == null)
        || not (w.net.standing_recv_req == req)
        || leb r.num_buffers buffer_index
        || desc_head == no_desc
      then w
      else notify_queue notify vq_rx (offer_rx req buffer_index desc_head w.net.rx_vq w)

  -- `virtio_net_cancel_work`
  unfoldable pub cancel_net : ℕ → Ptr → World D → Option (World D)
  cancel_net chain work w =
      let r = w.recvs work in
      let standing = if w.net.standing_recv_req == work then null else w.net.standing_recv_req in
      let net = forget_slots max_requests 0 work (record w.net { standing_recv_req = standing }) in
      let cancelled = cancel_work w.kernel work in
      let freed = free_buffers chain r.num_buffers 0 (net.rx_vq, r.desc_heads) >>= λ (vq, heads).
      some (record w {
        net = record net { rx_vq = vq };
        recvs =
            update w.recvs work (record r { desc_heads = heads; descriptors_allocated = false });
        kernel = cancelled;
      }) in
      if not ((work_at w.kernel work).op == op_net_recv)
      then some w
      else if r.descriptors_allocated
      then freed
      else some (record w { net = net; kernel = cancelled })
