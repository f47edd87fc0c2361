-- ===== src/Net.antt =====
-- driver/virtio/virtio_net.c: the driver of the network device, with a queue for received packets and
-- one for packets to send. The buffers of one standing request wait in the receive queue, each with a
-- chain of two descriptors of its own; a packet to send takes such a chain until it is sent.
pub mod Used
pub mod Drain
pub mod Hang
pub mod Send
pub mod Offer
pub mod Receive
pub mod Release
pub mod Setup
mod Tests
use picokernel.Prelude.{
  ℕ, zero, suc, ◌+◌, ◌*◌, ◌%◌, ◌^◌, Bool, true, false, ◌&&◌, ◌||◌, not, Option, none, some, ◌==◌,
  ltb, leb, if◌then◌else◌, update,
}
use picokernel.State.{
  Ptr, null, Kerr, is_ok, WorkState, op_net_recv, op_net_send, is_standing, Work, Kernel, work_at,
  set_work,
}
use picokernel.Kernel.{complete_work}
use picokernel.Virtqueue.{
  Virtqueue, no_desc, flag_next, flag_write, add16, alloc_desc, add_desc, add_avail, free_desc,
}
use picokernel.Rng.{Notify, transport_mmio, transport_pci}
use picokernel.Blk.{set_next}

-- `knet_buffer_t`
pub record NetBuffer : Type 0 where
  pub buffer : ℕ
  pub buffer_size : ℕ
  pub packet_length : ℕ

-- The members of a `knet_recv_req_t` and a `knet_send_req_t` behind their work items. `buffers` and
-- `packets` are addresses, 0 for NULL.
pub record RecvReq : Type 0 where
  pub buffers : ℕ
  pub num_buffers : ℕ
  pub buffer_index : ℕ
  pub desc_heads : ℕ → ℕ
  pub descriptors_allocated : Bool

pub record SendReq : Type 0 where
  pub packets : ℕ
  pub num_packets : ℕ
  pub packets_sent : ℕ
  pub desc_idx : ℕ

-- KNET_MAX_BUFFERS
abbrev pub max_buffers : ℕ
max_buffers = 32

-- VIRTIO_NET_MAX_REQUESTS
abbrev pub max_requests : ℕ
max_requests = 256

-- `virtio_net_hdr_t`, its size, and one full of zeros.
pub record Header : Type 0 where
  pub flags : ℕ
  pub gso_type : ℕ
  pub hdr_len : ℕ
  pub gso_size : ℕ
  pub csum_start : ℕ
  pub csum_offset : ℕ

abbrev pub net_header_size : ℕ
net_header_size = 10

abbrev pub zero_header : Header
zero_header = record {
  flags = 0;
  gso_type = 0;
  hdr_len = 0;
  gso_size = 0;
  csum_start = 0;
  csum_offset = 0;
}

-- `rx_request_tracking_t`
pub record RxTracking : Type 0 where
  pub req : Ptr
  pub buffer_index : ℕ

abbrev pub untracked : RxTracking
untracked = record { req = null; buffer_index = 0 }

-- VIRTIO_NET_VQ_RX and VIRTIO_NET_VQ_TX
abbrev pub vq_rx : ℕ
vq_rx = 0

abbrev pub vq_tx : ℕ
vq_tx = 1

-- `virtio_net_dev_t`, without its links to the transport and the kernel.
pub record Net : Type 0 where
  pub transport_type : ℕ
  pub rx_vq : Virtqueue
  pub tx_vq : Virtqueue
  pub queue_size : ℕ
  pub mac_address : ℕ → ℕ
  pub active_rx_requests : ℕ → RxTracking
  pub active_tx_requests : ℕ → Ptr
  pub outstanding_rx_requests : ℕ
  pub outstanding_tx_requests : ℕ
  pub standing_recv_req : Ptr

-- What the driver's functions read and write: the device's structure, the requests' own members, the
-- buffers of an array by its address and their index, the headers with the addresses of their arrays,
-- the kernel, and the device behind the transport.
pub record World (D : Type 0) : Type 0 where
  pub net : Net
  pub recvs : Ptr → RecvReq
  pub sends : Ptr → SendReq
  pub arrays : ℕ → ℕ → NetBuffer
  pub tx_headers : ℕ → Header
  pub rx_headers_address : ℕ
  pub tx_headers_address : ℕ
  pub kernel : Kernel
  pub device : D

-- `&hdr_buffers[desc]`
abbrev pub net_header_address : ℕ → ℕ → ℕ
net_header_address base desc = (base + net_header_size * desc) % 2 ^ 64

-- Whether the `count` buffers from `i` on are aligned to 64 bytes.
abbrev pub all_aligned : ℕ → ℕ → (ℕ → NetBuffer) → Bool
all_aligned zero i bufs = true
all_aligned (suc count) i bufs = (bufs i).buffer % 64 == 0 && all_aligned count (i + 1) bufs

-- A chain of a header and a buffer; `flags` are those of the buffer.
unfoldable pub build_packet :
    Virtqueue → (header buffer at : ℕ) → NetBuffer → (flags : ℕ) → Virtqueue
build_packet vq header buffer at buf flags =
    let vq₁ = set_next (add_desc vq header at net_header_size (flags + flag_next)) header buffer in
    add_desc vq₁ buffer buf.buffer (buf.buffer_size % 2 ^ 32) flags

module _ {D : Type 0} where
  -- The end of `submit_rx_buffer`, for the chain that starts at `header` in the queue `vq`.
  abbrev pub offer_rx : Ptr → ℕ → ℕ → Virtqueue → World D → World D
  offer_rx req buffer_index header vq w = record w {
    net = record w.net {
      rx_vq = add_avail vq header;
      active_rx_requests =
          update w.net.active_rx_requests header
            (record { req = req; buffer_index = buffer_index });
      outstanding_rx_requests = add16 w.net.outstanding_rx_requests 1;
    };
  }

  unfoldable pub submit_rx_buffer : Ptr → ℕ → World D → Kerr × World D
  submit_rx_buffer req buffer_index w =
      let r = w.recvs req in
      let reused = r.desc_heads buffer_index in
      let (header, vq₁) = alloc_desc w.net.rx_vq in
      let (buffer, vq₂) = alloc_desc vq₁ in
      let at = net_header_address w.rx_headers_address header in
      let vq₃ = build_packet vq₂ header buffer at (w.arrays r.buffers buffer_index) flag_write in
      let w₃ = record w {
        recvs =
            update w.recvs req (record r { desc_heads = update r.desc_heads buffer_index header });
      } in
      if not (reused == no_desc)
      then (Kerr.ok, offer_rx req buffer_index reused w.net.rx_vq w)
      else if header == no_desc
      then (Kerr.no_space, record w { net = record w.net { rx_vq = vq₁ } })
      else if buffer == no_desc
      then (Kerr.no_space, record w { net = record w.net { rx_vq = free_desc vq₂ header } })
      else (Kerr.ok, offer_rx req buffer_index header vq₃ w₃)

  -- The loop over the buffers of a standing request, from `i` on: whether all were submitted.
  unfoldable pub submit_buffers : ℕ → ℕ → Ptr → World D × ℕ → Bool × World D × ℕ
  submit_buffers zero i req (w, submitted) = (true, w, submitted)
  submit_buffers (suc rounds) i req (w, submitted) =
      let (result, w') = submit_rx_buffer req i w in
      let rest = submit_buffers rounds (i + 1) req (w', submitted + 1) in
      if is_ok result then rest else (false, w', submitted)

  abbrev pub finish : World D → Ptr → Kerr → World D
  finish w work e = record w { kernel = complete_work w.kernel work e }

  abbrev pub make_live : World D → Ptr → World D
  make_live w work = record w {
    kernel = set_work w.kernel work (record (work_at w.kernel work) { state = WorkState.live });
  }

  -- `req` becomes the standing request, its table of descriptors set up once.
  abbrev pub make_standing : World D → Ptr → World D
  make_standing w req =
      let r = w.recvs req in
      let heads = λ (i : ℕ). if ltb i max_buffers then no_desc else r.desc_heads i in
      record w {
        net = record w.net { standing_recv_req = req };
        recvs =
            if r.descriptors_allocated
            then w.recvs
            else update w.recvs req (record r { desc_heads = heads; descriptors_allocated = true });
      }

  -- Whether a request to receive is refused.
  abbrev pub is_invalid_recv : World D → Ptr → Bool
  is_invalid_recv w work =
      let r = w.recvs work in
      (r.buffers == 0)
      || (r.num_buffers == 0)
      || not (all_aligned r.num_buffers 0 (w.arrays r.buffers))
      || not (is_standing (work_at w.kernel work))
      || ltb max_buffers r.num_buffers

  -- The loop's body in `virtio_net_submit_work` for a request to receive, with the count of buffers.
  unfoldable pub submit_recv : Ptr → World D × ℕ → World D × ℕ
  submit_recv work (w, submitted) =
      let (all, w', n) =
        submit_buffers (w.recvs work).num_buffers 0 work (make_standing w work, submitted) in
      if is_invalid_recv w work
      then (finish w work Kerr.invalid, submitted)
      else if all
      then (make_live w' work, n)
      else (finish w' work Kerr.no_space, n)

  abbrev pub is_invalid_send : World D → Ptr → Bool
  is_invalid_send w work =
      let s = w.sends work in
      (s.packets == 0)
      || (s.num_packets == 0)
      || not (all_aligned s.num_packets 0 (w.arrays s.packets))
      || ltb 1 s.num_packets

  -- A packet whose chain starts at `header` in the queue `vq`.
  abbrev pub accept_send : World D → Ptr → Virtqueue → ℕ → World D
  accept_send w work vq header =
      make_live
        (record w {
          net = record w.net {
            tx_vq = add_avail vq header;
            active_tx_requests = update w.net.active_tx_requests header work;
            outstanding_tx_requests = add16 w.net.outstanding_tx_requests 1;
          };
          sends = update w.sends work (record (w.sends work) { desc_idx = header });
          tx_headers = update w.tx_headers header zero_header;
        })
        work

  abbrev pub refuse_send : World D → Ptr → Virtqueue → World D
  refuse_send w work vq = finish (record w { net = record w.net { tx_vq = vq } }) work Kerr.no_space

  -- The loop's body for a packet to send, with the count of packets.
  unfoldable pub submit_send : Ptr → World D × ℕ → World D × ℕ
  submit_send work (w, submitted) =
      let (header, vq₁) = alloc_desc w.net.tx_vq in
      let (buffer, vq₂) = alloc_desc vq₁ in
      let at = net_header_address w.tx_headers_address header in
      let vq₃ = build_packet vq₂ header buffer at (w.arrays ((w.sends work).packets) 0) 0 in
      if is_invalid_send w work
      then (finish w work Kerr.invalid, submitted)
      else if header == no_desc
      then (refuse_send w work vq₁, submitted)
      else if buffer == no_desc
      then (refuse_send w work (free_desc vq₂ header), submitted)
      else (accept_send w work vq₃ header, submitted + 1)

  -- The loop's body: the counts are those of buffers and of packets.
  unfoldable pub submit_one : Ptr → World D × ℕ × ℕ → World D × ℕ × ℕ
  submit_one work (w, rx, tx) =
      let op = (work_at w.kernel work).op in
      let (w_rx, rx') = submit_recv work (w, rx) in
      let (w_tx, tx') = submit_send work (w, tx) in
      if op == op_net_recv
      then (w_rx, rx', tx)
      else if op == op_net_send
      then (w_tx, rx, tx')
      else (w, rx, tx)

  unfoldable pub submit_loop : ℕ → Ptr → World D × ℕ × ℕ → Option (World D × ℕ × ℕ)
  submit_loop zero work w = none
  submit_loop (suc fuel) work w =
      let next = (work_at w.0.kernel work).next in
      let more = submit_loop fuel next (submit_one work w) in if work == null then some w else more

  -- The notification of the queue `index`.
  unfoldable pub notify_queue : Notify D → ℕ → World D → World D
  notify_queue notify index w =
      let vq = if index == vq_rx then w.net.rx_vq else w.net.tx_vq in
      let device =
        if w.net.transport_type == transport_mmio
        then notify.mmio index w.device
        else if w.net.transport_type == transport_pci
        then notify.pci vq w.device
        else w.device in
      record w { device = device }

  -- `virtio_net_submit_work`
  unfoldable pub submit_work : Notify D → ℕ → Ptr → World D → Option (World D)
  submit_work notify fuel submissions w = elim (submit_loop fuel submissions (w, 0, 0)) [
    | none ↦ none
    | some (w₁, rx, tx) ↦
        let w₂ = if ltb 0 rx then notify_queue notify vq_rx w₁ else w₁ in
        some (if ltb 0 tx then notify_queue notify vq_tx w₂ else w₂)
  ]
