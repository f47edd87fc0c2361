-- ===== src/Net/Send.antt =====
-- A packet to send in `virtio_net_submit_work` (driver/virtio/virtio_net.c).
use picokernel.Prelude.{
  ℕ, ◌+◌, ◌%◌, ◌^◌, ◌≡◌, ◌≢◌, refl, true, false, List, [], ◌∷◌, arith, ◌==◌, has, ==_refl,
}
use picokernel.State.{Ptr, null, Kerr, WorkState, op_net_send, work_at}
use picokernel.Kernel.{complete_work}
use picokernel.Virtqueue.{
  Virtqueue, no_desc, flag_next, add16, alloc_desc, add_desc, add_avail, free_desc,
}
use picokernel.Virtqueue.FreeList.{alloc_desc-Allocated}
use picokernel.Virtqueue.Chains.{Taken, all_of, Linked}
use picokernel.Virtqueue.Chains.Slots.{
  Queue, Slots-Queue, Queue-update, Queue-alloc, Queue-free, taken_apart, add_avail-keeps,
  accept-Slots, refuse-Slots,
}
use picokernel.Net.{
  NetBuffer, World, net_header_address, net_header_size, zero_header, build_packet, is_invalid_send,
  accept_send, refuse_send, submit_send, submit_one,
}
use picokernel.Net.Drain.{TxSlots}

-- The two descriptors of a packet to send.
pub record Packet (v : Virtqueue) (h b at : ℕ) (buf : NetBuffer) : Type 0 where
  pub header : v.desc h ≡ record { addr = at; len = net_header_size; flags = flag_next; next = b }
  pub buffer :
      v.desc b
      ≡ record { addr = buf.buffer; len = buf.buffer_size % 2 ^ 32; flags = 0; next = no_desc }

build_packet-Packet :
    (vq : Virtqueue) (h b at : ℕ) (buf : NetBuffer)
    → (h == b) ≡ false
    → Packet (add_avail (build_packet vq h b at buf 0) h) h b at buf
unfolding build_packet add_desc add_avail
build_packet-Packet vq h b at buf ne = record {
  header = rw (ne, ==_refl h) refl;
  buffer = rw (==_refl b) refl;
}

build_packet-Linked :
    (vq : Virtqueue) (h b at : ℕ) (buf : NetBuffer)
    → (h == b) ≡ false
    → Linked (build_packet vq h b at buf 0).desc h (b ∷ [])
unfolding build_packet add_desc
build_packet-Linked vq h b at buf ne = rw (ne, ==_refl h, ==_refl b) (refl, refl, refl)

pub build_packet-Queue :
    (vq : Virtqueue) (h b at : ℕ) (buf : NetBuffer) (flags size i : ℕ) (free : List ℕ)
    (out : List Taken)
    → ((c : ℕ) → has c (h ∷ b ∷ []) ≡ true → (has c free ≡ false) × (has c (all_of out) ≡ false))
    → Queue vq size i free out
    → Queue (build_packet vq h b at buf flags) size i free out
unfolding build_packet add_desc
build_packet-Queue vq h b at buf flags size i free out apart q =
    let (h_free, h_out) = apart h (ground (arith, ==_refl h)) in
    let (b_free, b_out) = apart b (ground (arith, ==_refl b)) in
    Queue-update _ size i free out b _ b_free b_out (
      Queue-update _ size i free out h _ h_free h_out
        (Queue-update vq size i free out h _ h_free h_out q))

module _ {D : Type 0} where
  -- A packet that passes the driver's checks.
  abbrev pub IsPacket : World D → Ptr → Type 0
  IsPacket w work = ((work_at w.kernel work).op ≡ op_net_send) × (is_invalid_send w work ≡ false)

  -- A packet that finds too few descriptors is completed with KERR_NO_SPACE, and the driver keeps
  -- track of the same chains and free descriptors.
  pub record Unsent (w : World D) (work : Ptr) (tx : ℕ) (free : List ℕ) (out : List Taken)
      (w' : World D) (tx' : ℕ) : Type 0 where
    pub tracked : TxSlots w'.net free out
    pub completed : w'.kernel ≡ complete_work w.kernel work Kerr.no_space
    pub count : tx' ≡ tx

  -- What becomes of a packet, by the descriptors of the send queue that are free.
  abbrev pub Sent : World D → Ptr → ℕ → List ℕ → List Taken → World D × ℕ → Type 0
  Sent w work tx (h ∷ b ∷ free) out (w', tx') =
      TxSlots w'.net free (record { head = h; rest = b ∷ [] } ∷ out)
      × Packet w'.net.tx_vq h b (net_header_address w.tx_headers_address h)
          (w.arrays ((w.sends work).packets) 0)
      × (w'.tx_headers h ≡ zero_header)
      × (w'.net.active_tx_requests h ≡ work)
      × (w'.net.tx_vq.avail_ring (w.net.tx_vq.avail_idx % w.net.tx_vq.queue_size) ≡ h)
      × (w'.net.tx_vq.avail_idx ≡ add16 w.net.tx_vq.avail_idx 1)
      × ((work_at w'.kernel work).state ≡ WorkState.live)
      × (tx' ≡ tx + 1)
  Sent w work tx free out (w', tx') = Unsent w work tx free out w' tx'

  submit_send-full :
      (w : World D) (work : Ptr) (tx : ℕ)
      → is_invalid_send w work ≡ false
      → alloc_desc w.net.tx_vq ≡ (no_desc, w.net.tx_vq)
      → submit_send work (w, tx) ≡ (refuse_send w work w.net.tx_vq, tx)
  unfolding submit_send
  submit_send-full w work tx valid e = rw (submit_send, valid, e) refl

  submit_send-short :
      (w : World D) (work : Ptr) (tx h : ℕ)
      → let v = (alloc_desc w.net.tx_vq).1 in
        is_invalid_send w work ≡ false
        → (alloc_desc w.net.tx_vq).0 ≡ h
        → (h == no_desc) ≡ false
        → alloc_desc v ≡ (no_desc, v)
        → submit_send work (w, tx) ≡ (refuse_send w work (free_desc v h), tx)
  unfolding submit_send
  submit_send-short w work tx h valid e there e' = rw (submit_send, valid, e, there, e') refl

  submit_send-built :
      (w : World D) (work : Ptr) (tx h b : ℕ)
      → let v = (alloc_desc w.net.tx_vq).1 in
        let at = net_header_address w.tx_headers_address h in
        let buf = w.arrays ((w.sends work).packets) 0 in
        is_invalid_send w work ≡ false
        → (alloc_desc w.net.tx_vq).0 ≡ h
        → (h == no_desc) ≡ false
        → (alloc_desc v).0 ≡ b
        → (b == no_desc) ≡ false
        → submit_send work (w, tx)
          ≡ (accept_send w work (build_packet ((alloc_desc v).1) h b at buf 0) h, tx + 1)
  unfolding submit_send
  submit_send-built w work tx h b valid e there e' there' =
      rw (submit_send, valid, e, there, e', there') refl

  submit_one-send :
      (w : World D) (work : Ptr) (rx tx : ℕ)
      → (work_at w.kernel work).op ≡ op_net_send
      → let (w', tx') = submit_send work (w, tx) in submit_one work (w, rx, tx) ≡ (w', rx, tx')
  unfolding submit_one
  submit_one-send w work rx tx op = rw (submit_one, op) refl

  submit_send-Sent :
      (w : World D) (work : Ptr) (tx : ℕ) (free : List ℕ) (out : List Taken)
      → TxSlots w.net free out
      → work ≢ null
      → is_invalid_send w work ≡ false
      → Sent w work tx free out (submit_send work (w, tx))
  submit_send-Sent w work tx [] out t there valid =
      rw (submit_send-full w work tx valid (alloc_desc-Allocated w.net.tx_vq [] t.free_list))
        (record { tracked = t; completed = refl; count = refl })
  submit_send-Sent w work tx (h ∷ []) out t there valid =
      let vq = w.net.tx_vq in
      let (e, q) =
        Queue-alloc vq vq.queue_size vq.avail_idx h [] out (Slots-Queue vq _ _ _ out t) in
      let v = (alloc_desc vq).1 in
      let apart = taken_apart vq _ _ (h ∷ []) [] out t h (ground (arith, ==_refl h)) in
      let back =
        Queue-free v vq.queue_size vq.avail_idx h [] out q t.free_list.chain.1 refl apart.1
          (omega arith) in
      rw
        (submit_send-short w work tx h valid e (ground (arith, t.small))
          (alloc_desc-Allocated v [] q.free_list))
        (record {
          tracked = refuse-Slots vq _ _ _ (h ∷ []) (h ∷ []) out t back (λ a. refl) refl;
          completed = refl;
          count = refl;
        })
  submit_send-Sent w work tx (h ∷ b ∷ free) out t there valid =
      let vq = w.net.tx_vq in
      let size = vq.queue_size in
      let i = vq.avail_idx in
      let at = net_header_address w.tx_headers_address h in
      let buf = w.arrays ((w.sends work).packets) 0 in
      let (e, q) = Queue-alloc vq size i h (b ∷ free) out (Slots-Queue vq _ _ _ out t) in
      let v = (alloc_desc vq).1 in
      let (e', q') = Queue-alloc v size i b free out q in
      let v' = (alloc_desc v).1 in
      let (_, h_lt, (_, b_lt, _)) = t.free_list.chain in
      let ne : (h == b) ≡ false = ground (arith, t.free_list.distinct.0) in
      let q'' =
        build_packet-Queue v' h b at buf 0 size i free out
          (taken_apart vq _ _ (h ∷ b ∷ []) free out t) q' in
      let built = build_packet v' h b at buf 0 in
      let (_, _, _, next_idx, ring_at) = add_avail-keeps built size i free out h q'' in
      rw
        (submit_send-built w work tx h b valid e (ground (arith, t.small)) e'
          (ground (arith, t.small)))
        (
          accept-Slots vq _ _ work built (record { head = h; rest = b ∷ [] }) free out t there q''
              (build_packet-Linked v' h b at buf ne),
          build_packet-Packet v' h b at buf ne,
          rw (==_refl h) refl,
          rw (==_refl h) refl,
          ring_at,
          next_idx,
          rw (work_at, ==_refl work) refl,
          refl,
        )

  -- For a packet to send that passes the checks: with fewer than two free descriptors of the send queue
  -- it is completed with KERR_NO_SPACE and the driver tracks the same chains and free descriptors;
  -- otherwise the first two are linked as a zeroed header and the packet, the chain is made available
  -- and becomes the request's, which is LIVE, and the driver tracks it with the others. The count of
  -- buffers to receive stays.
  pub submit_one-Sent :
      (w : World D) (work : Ptr) (rx tx : ℕ) (free : List ℕ) (out : List Taken)
      → TxSlots w.net free out
      → work ≢ null
      → IsPacket w work
      → let (w', rx', tx') = submit_one work (w, rx, tx) in
        Sent w work tx free out (w', tx') × (rx' ≡ rx)
  submit_one-Sent w work rx tx free out t there (op, valid) =
      rw (submit_one-send w work rx tx op) (submit_send-Sent w work tx free out t there valid, refl)
