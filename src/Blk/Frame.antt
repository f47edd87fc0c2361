-- ===== src/Blk/Frame.antt =====
-- What `virtio_blk_submit_work` (driver/virtio/virtio_blk.c) leaves alone when it handles a request.
use picokernel.Prelude.{
  ℕ, ◌≡◌, sym, subst, false, arith, ◌==◌, Bool-cases, inl, inr, ==_iff, ==_refl,
}
use picokernel.State.{Ptr, Kerr}
use picokernel.Kernel.Queues.{complete_work_other}
use picokernel.Virtqueue.{alloc_desc}
use picokernel.Blk.{World, submit_one, submit_valid, submit_flush, submit_transfer}
use picokernel.Blk.Outcome.{started}

module _ {D : Type 0} where
  submit_transfer_other :
      (w : World D) (n h : ℕ) (a b : Ptr)
      → (b == a) ≡ false
      → ((submit_transfer a h (w, n)).0).kernel.requests b ≡ w.kernel.requests b
  unfolding submit_transfer
  submit_transfer_other w n h a b ne =
      ground (arith, complete_work_other w.kernel a b Kerr.no_space ne)

  submit_flush_other :
      (w : World D) (n h : ℕ) (a b : Ptr)
      → (b == a) ≡ false
      → ((submit_flush a h (w, n)).0).kernel.requests b ≡ w.kernel.requests b
  unfolding submit_flush
  submit_flush_other w n h a b ne =
      ground (arith, complete_work_other w.kernel a b Kerr.no_space ne)

  submit_valid_other :
      (w : World D) (n : ℕ) (a b : Ptr)
      → (b == a) ≡ false
      → ((submit_valid a (w, n)).0).kernel.requests b ≡ w.kernel.requests b
  unfolding submit_valid
  submit_valid_other w n a b ne =
      let h = (alloc_desc w.blk.vq).0 in
      let w₁ = started w a h ((alloc_desc w.blk.vq).1) in
      ground (
        arith,
        complete_work_other w.kernel a b Kerr.no_space ne,
        submit_flush_other w₁ n h a b ne,
        submit_transfer_other w₁ n h a b ne,
      )

  pub submit_one_other :
      (w : World D) (n : ℕ) (a b : Ptr)
      → (b == a) ≡ false
      → ((submit_one a (w, n)).0).kernel.requests b ≡ w.kernel.requests b
  unfolding submit_one
  submit_one_other w n a b ne =
      ground
        (arith, complete_work_other w.kernel a b Kerr.invalid ne, submit_valid_other w n a b ne)

  -- The segments, the requests' own members but for the descriptor's index, and the device.
  pub record Intact (w w' : World D) : Type 0 where
    pub all_segments : w'.segments ≡ w.segments
    pub segments : (b : Ptr) → (w'.reqs b).segments ≡ (w.reqs b).segments
    pub num_segments : (b : Ptr) → (w'.reqs b).num_segments ≡ (w.reqs b).num_segments
    pub device : w'.device ≡ w.device
    pub transport : w'.blk.transport_type ≡ w.blk.transport_type

  submit_one_segments :
      (w : World D) (n : ℕ) (x b : Ptr)
      → ((submit_one x (w, n)).0.reqs b).segments ≡ (w.reqs b).segments
  unfolding submit_one submit_valid submit_flush submit_transfer
  submit_one_segments w n x b = elim (Bool-cases (b == x)) [
    | inl it ↦
        subst (λ c. ((submit_one x (w, n)).0.reqs c).segments ≡ (w.reqs c).segments)
          (sym ((==_iff b x).0 it)) (ground (arith, ==_refl x))
    | inr other ↦ ground (arith, other)
  ]

  submit_one_num_segments :
      (w : World D) (n : ℕ) (x b : Ptr)
      → ((submit_one x (w, n)).0.reqs b).num_segments ≡ (w.reqs b).num_segments
  unfolding submit_one submit_valid submit_flush submit_transfer
  submit_one_num_segments w n x b = elim (Bool-cases (b == x)) [
    | inl it ↦
        subst (λ c. ((submit_one x (w, n)).0.reqs c).num_segments ≡ (w.reqs c).num_segments)
          (sym ((==_iff b x).0 it)) (ground (arith, ==_refl x))
    | inr other ↦ ground (arith, other)
  ]

  pub submit_one-Intact : (w : World D) (n : ℕ) (x : Ptr) → Intact w (submit_one x (w, n)).0
  unfolding submit_one submit_valid submit_flush submit_transfer
  submit_one-Intact w n x = record {
    all_segments = ground arith;
    segments = λ b. submit_one_segments w n x b;
    num_segments = λ b. submit_one_num_segments w n x b;
    device = ground arith;
    transport = ground arith;
  }
