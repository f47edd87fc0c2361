-- ===== src/Net/Hang.antt =====
-- Two packets in one interrupt: `virtio_net_process_irq` (driver/virtio/virtio_net.c) completes the
-- standing request twice, and the loop over the ready queue in `kmain_tick` (kernel/kernel.c) then
-- never ends.
use picokernel.Prelude.{
  ℕ, zero, suc, ◌<◌, ◌≡◌, ◌≢◌, refl, sym, ap, subst, ◌∙◌, List, [], ◌∷◌, arith, length, Distinct,
  some, none, ne→==,
}
use picokernel.State.{Ptr, null, Kerr, Kernel, work_at}
use picokernel.Kernel.{Platform, complete_work, make_ready, enqueue_ready, run_ready}
use picokernel.Kernel.Tick.Hang.{LeavesNext, run_ready-cycle}
use picokernel.Virtqueue.Chains.{Taken, all_of}
use picokernel.Net.{World}
use picokernel.Net.Used.{process_irq}
use picokernel.Net.Drain.{UsedIs, Carry, TxSlots, complete_times, net_process_irq_lem}

-- The ready queue starts with `r`, and with `r` again.
record Cycle (k : Kernel) (r : Ptr) : Type 0 where
  pub head : k.ready_queue_head ≡ r
  pub next : (work_at k r).next ≡ r

complete_work_head :
    (k : Kernel) (r : Ptr) (e : Kerr) → r ≢ null → (complete_work k r e).ready_queue_head ≡ r
unfolding complete_work make_ready enqueue_ready
complete_work_head k r e there = rw (ne→== r null there) refl

complete_work_again :
    (k : Kernel) (r : Ptr) (e : Kerr)
    → r ≢ null
    → k.ready_queue_head ≡ r
    → Cycle (complete_work k r e) r
unfolding complete_work make_ready enqueue_ready
complete_work_again k r e there head = record {
  head = complete_work_head k r e there;
  next = let other = ne→== r null there in ground (arith, head, other);
}

complete_times-Cycle :
    (n : ℕ) (r : Ptr) (k : Kernel) → r ≢ null → Cycle k r → Cycle (complete_times n r k) r
complete_times-Cycle zero r k there c = c
complete_times-Cycle (suc n) r k there c =
    complete_times-Cycle n r (complete_work k r Kerr.ok) there
      (complete_work_again k r Kerr.ok there c.head)

module _ {D P : Type 0} (platform : Platform P) where
  -- Where the used entries of one interrupt are two or more buffers of the standing request and no sent
  -- packet, `virtio_net_process_irq` returns a kernel on whose ready queue the loop of `kmain_tick`
  -- does not end, whatever the number of rounds, if callbacks leave the `next` pointer of the standing
  -- request alone.
  pub two_packets_hang :
      (d e : ℕ) (rx : List ℕ) (fuel : ℕ) (w : World D) (free : List ℕ) (out : List Taken)
      → LeavesNext platform w.net.standing_recv_req
      → w.net.standing_recv_req ≢ null
      → UsedIs w.net.rx_vq (d ∷ e ∷ rx)
      → Carry w.net.active_rx_requests w.net.standing_recv_req (d ∷ e ∷ rx)
      → Distinct (d ∷ e ∷ rx)
      → length (d ∷ e ∷ rx) < fuel
      → TxSlots w.net free out
      → w.net.tx_vq.last_used_idx ≡ w.net.tx_vq.used_idx
      → (w' : World D) × (process_irq fuel (length (all_of out)) w ≡ some w')
        × ((rounds : ℕ) (p : P)
            → run_ready platform rounds w'.kernel.ready_queue_head (p, w'.kernel) ≡ none)
  two_packets_hang d e rx fuel w free out leaves there u c dist f t quiet =
      let r = w.net.standing_recv_req in
      let (w', eq, _, k') =
        net_process_irq_lem (d ∷ e ∷ rx) [] fuel (length (all_of out)) w free out there u c dist f t
          quiet (omega arith) (omega arith) in
      let k₁ = complete_work w.kernel r Kerr.ok in
      let cycle : Cycle w'.kernel r =
        subst (λ k. Cycle k r) (sym k')
          (complete_times-Cycle (length rx) r (complete_work k₁ r Kerr.ok) there (
            complete_work_again k₁ r Kerr.ok there
              (complete_work_head w.kernel r Kerr.ok there))) in
      (
        w',
        eq,
        λ rounds p.
            ap (λ h. run_ready platform rounds h (p, w'.kernel)) cycle.head
            ∙ run_ready-cycle platform r leaves rounds (p, w'.kernel) there cycle.next,
      )
