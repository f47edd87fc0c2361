-- ===== src/Net/Drain.antt =====
-- The two loops of `virtio_net_process_irq` (driver/virtio/virtio_net.c).
use picokernel.Prelude.{
  ℕ, zero, suc, ◌%◌, ◌^◌, ◌≤◌, ◌<◌, ◌≡◌, ◌≢◌, refl, ap, ap₂, ◌∙◌, false, List, [], ◌∷◌, arith, ◌==◌,
  update, length, has, Distinct, some, ne→==, ==_refl,
}
use picokernel.State.{Ptr, null, Kerr, Kernel}
use picokernel.Kernel.{complete_work}
use picokernel.Virtqueue.{UsedElem, Virtqueue, add16, get_used, has_used}
use picokernel.Virtqueue.Chains.{Taken, all_of, rest_at, without_head, free_chain}
use picokernel.Virtqueue.Chains.Removal.{length-all_of}
use picokernel.Virtqueue.Chains.Slots.{Slots, free_chain-GivenBack, release-Slots}
use picokernel.Virtqueue.Chains.Used.{UsedBy, free_after, out_after, UsedBy-absent, UsedBy-release}
use picokernel.Virtqueue.Rings.{get_used_id}
use picokernel.Virtqueue.Sets.{freed}
use picokernel.Net.{Net, World, RxTracking}
use picokernel.Net.Used.{
  settle_rx, complete_rx, rx_loop, settle_tx, complete_tx, tx_loop, process_irq,
}

-- The used ring holds the descriptors `ds`.
abbrev pub Holds : (ℕ → UsedElem) → (size used_idx last : ℕ) → List ℕ → Type 0
Holds ring size used_idx last [] = last ≡ used_idx
Holds ring size used_idx last (d ∷ ds) =
    ((last == used_idx) ≡ false)
    × ((ring (last % size)).id % 2 ^ 16 ≡ d)
    × Holds ring size used_idx (add16 last 1) ds

abbrev pub UsedIs : Virtqueue → List ℕ → Type 0
UsedIs vq ds = Holds vq.used_ring vq.queue_size vq.used_idx vq.last_used_idx ds

-- The descriptors `ds` carry buffers of the request `r`.
abbrev pub Carry : (ℕ → RxTracking) → Ptr → List ℕ → Type 0
Carry slots r [] = Unit
Carry slots r (d ∷ ds) = ((slots d).req ≡ r) × Carry slots r ds

Carry-update :
    (slots : ℕ → RxTracking) (r : Ptr) (d : ℕ) (t : RxTracking) (ds : List ℕ)
    → has d ds ≡ false
    → Carry slots r ds
    → Carry (update slots d t) r ds
Carry-update slots r d t [] absent c = tt
Carry-update slots r d t (x ∷ ds) absent (same, c) =
    let other : (x == d) ≡ false = ground arith in
    (rw other same, Carry-update slots r d t ds (ground arith) c)

-- The kernel once one request was completed `n` times over.
abbrev pub complete_times : ℕ → Ptr → Kernel → Kernel
complete_times zero r k = k
complete_times (suc n) r k = complete_times n r (complete_work k r Kerr.ok)

-- The kernel once the requests in the slots `ds` were completed in order.
abbrev pub complete_sent : (ℕ → Ptr) → List ℕ → Kernel → Kernel
complete_sent slots [] k = k
complete_sent slots (d ∷ ds) k = complete_sent slots ds (complete_work k (slots d) Kerr.ok)

complete_sent_slots :
    (slots : ℕ → Ptr) (c : ℕ) (p : Ptr) (ds : List ℕ) (k : Kernel)
    → has c ds ≡ false
    → complete_sent (update slots c p) ds k ≡ complete_sent slots ds k
complete_sent_slots slots c p [] k absent = refl
complete_sent_slots slots c p (d ∷ ds) k absent =
    let other : (d == c) ≡ false = ground arith in
    rw other (complete_sent_slots slots c p ds _ (ground arith))

abbrev pub TxSlots : Net → List ℕ → List Taken → Type 0
TxSlots net free out = Slots net.tx_vq net.active_tx_requests net.outstanding_tx_requests free out

module _ {D : Type 0} where
  pub complete_rx_standing :
      (w : World D) (chain d : ℕ)
      → (get_used w.net.rx_vq).0 ≡ d
      → w.net.standing_recv_req ≢ null
      → (w.net.active_rx_requests d).req ≡ w.net.standing_recv_req
      → complete_rx chain w
        ≡ some (settle_rx w ((get_used w.net.rx_vq).2) d ((get_used w.net.rx_vq).1))
  unfolding complete_rx
  complete_rx_standing w chain d id there same =
      rw (complete_rx, id, same, ne→== _ null there, ==_refl w.net.standing_recv_req) refl

  -- What the receive loop leaves for the other one.
  record Received (w w' : World D) (n : ℕ) : Type 0 where
    pub kernel : w'.kernel ≡ complete_times n w.net.standing_recv_req w.kernel
    pub tx_vq : w'.net.tx_vq ≡ w.net.tx_vq
    pub active_tx : w'.net.active_tx_requests ≡ w.net.active_tx_requests
    pub outstanding_tx : w'.net.outstanding_tx_requests ≡ w.net.outstanding_tx_requests

  rx_loop-Received :
      (ds : List ℕ) (fuel chain : ℕ) (w : World D)
      → w.net.standing_recv_req ≢ null
      → UsedIs w.net.rx_vq ds
      → Carry w.net.active_rx_requests w.net.standing_recv_req ds
      → Distinct ds
      → length ds < fuel
      → (w' : World D) × (rx_loop fuel chain w ≡ some w') × Received w w' (length ds)
  unfolding rx_loop has_used get_used
  rx_loop-Received ds zero chain w there u c d f = absurd (omega arith)
  rx_loop-Received [] (suc fuel) chain w there u c d f = (
    w,
    ground arith,
    record { kernel = refl; tx_vq = refl; active_tx = refl; outstanding_tx = refl },
  )
  rx_loop-Received (x ∷ ds) (suc fuel) chain w there (more, id, u) (same, c) d f =
      let w₁ = settle_rx w ((get_used w.net.rx_vq).2) x ((get_used w.net.rx_vq).1) in
      let (w', e, r) =
        rx_loop-Received ds fuel chain w₁ there u
          (Carry-update w.net.active_rx_requests _ x _ ds d.0 c) d.1 (omega arith) in
      let one = complete_rx_standing w chain x (get_used_id w.net.rx_vq ∙ id) there same in
      (
        w',
        rw (more, one) e,
        record {
          kernel =
              r.kernel
              ∙ ap
                  (λ p.
                    complete_times (length ds) w.net.standing_recv_req
                      (complete_work w.kernel p Kerr.ok))
                  same;
          tx_vq = r.tx_vq;
          active_tx = r.active_tx;
          outstanding_tx = r.outstanding_tx;
        },
      )

  complete_tx_found :
      (w : World D) (fuel d : ℕ) (v : Virtqueue)
      → (get_used w.net.tx_vq).0 ≡ d
      → w.net.active_tx_requests d ≢ null
      → free_chain fuel d ((get_used w.net.tx_vq).2) ≡ some v
      → complete_tx fuel w ≡ some (settle_tx w v (w.net.active_tx_requests d) d)
  unfolding complete_tx
  complete_tx_found w fuel d v id busy e = rw (complete_tx, id, ne→== _ null busy, e) refl

  tx_loop-Slots :
      (ds : List ℕ) (fuel chain : ℕ) (w : World D) (free : List ℕ) (out : List Taken)
      → TxSlots w.net free out
      → UsedBy w.net.tx_vq ds out
      → length ds < fuel
      → length (all_of out) ≤ chain
      → (w' : World D) × (tx_loop fuel chain w ≡ some w')
        × TxSlots w'.net (free_after ds out free) (out_after ds out)
        × (w'.kernel ≡ complete_sent w.net.active_tx_requests ds w.kernel)
  unfolding tx_loop has_used
  tx_loop-Slots ds zero chain w free out t p f c = absurd (omega arith)
  tx_loop-Slots [] (suc fuel) chain w free out t p f c = (w, ground arith, t, refl)
  tx_loop-Slots (d ∷ ds) (suc fuel) chain w free out t p f c =
      let (more, id, i, rest) = p in
      let (v, e, back) = free_chain-GivenBack w.net.tx_vq _ _ chain d free out t i c in
      let w₁ = settle_tx w v (w.net.active_tx_requests d) d in
      let (w', e', t', k') =
        tx_loop-Slots ds fuel chain w₁ (freed (d ∷ rest_at d out) free) (without_head d out)
          (release-Slots w.net.tx_vq _ _ d free out v t i back)
          (UsedBy-release w.net.tx_vq v d ds free out back p) (omega arith)
          (omega (arith, length-all_of d out i, c)) in
      let again = UsedBy-absent w.net.tx_vq _ _ d ds free out t p in
      let one = complete_tx_found w chain d v (get_used_id w.net.tx_vq ∙ id) (t.busy d i) e in
      (
        w',
        rw (more, one) e',
        t',
        k' ∙ complete_sent_slots w.net.active_tx_requests d null ds _ again,
      )

  -- Where the receive queue's used entries `rx` are buffers of the standing request, and those of the
  -- send queue, `tx`, are first descriptors of chains that are out, `virtio_net_process_irq` ends
  -- within any fuel above the numbers of entries and any fuel for a chain from the number of the send
  -- queue's descriptors in use on: the standing request is completed once for each of its entries, then
  -- the requests of the sent packets in order, whose descriptors are all free again.
  pub net_process_irq_lem :
      (rx tx : List ℕ) (fuel chain : ℕ) (w : World D) (free : List ℕ) (out : List Taken)
      → w.net.standing_recv_req ≢ null
      → UsedIs w.net.rx_vq rx
      → Carry w.net.active_rx_requests w.net.standing_recv_req rx
      → Distinct rx
      → length rx < fuel
      → TxSlots w.net free out
      → UsedBy w.net.tx_vq tx out
      → length tx < fuel
      → length (all_of out) ≤ chain
      → (w' : World D) × (process_irq fuel chain w ≡ some w')
        × TxSlots w'.net (free_after tx out free) (out_after tx out)
        × (w'.kernel
            ≡ complete_sent w.net.active_tx_requests tx
                (complete_times (length rx) w.net.standing_recv_req w.kernel))
  unfolding process_irq
  net_process_irq_lem rx tx fuel chain w free out there u c d f t p g h =
      let (w₁, e, r) = rx_loop-Received rx fuel chain w there u c d f in
      let t₁ : TxSlots w₁.net free out = rw (r.tx_vq, r.active_tx, r.outstanding_tx) t in
      let p₁ : UsedBy w₁.net.tx_vq tx out = rw r.tx_vq p in
      let (w', e', t', k') = tx_loop-Slots tx fuel chain w₁ free out t₁ p₁ g h in
      (
        w',
        rw (process_irq, e) e',
        t',
        k' ∙ ap₂ (λ slots k. complete_sent slots tx k) r.active_tx r.kernel,
      )
