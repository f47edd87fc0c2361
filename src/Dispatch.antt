-- ===== src/Dispatch.antt =====
-- `platform_submit` of platform/shared/platform_virtio.c: it hands submissions and cancellations to
-- the drivers of their devices. The drivers are an interface, a record of their functions on a state
-- `S` of theirs and the kernel.
pub mod Partition
pub mod Complete
pub mod Kinds
pub mod Refusals
pub mod Absent
pub mod Machine
mod Tests
use picokernel.Prelude.{
  ℕ, zero, suc, Bool, true, false, ◌&&◌, ◌||◌, not, Option, none, some, ◌==◌, if◌then◌else◌,
}
use picokernel.State.{
  Ptr, null, Kerr, op_rng_read, op_block_read, op_block_write, op_block_flush, op_net_recv,
  op_net_send, Work, Kernel, work_at, set_work, ◌>>=◌,
}
use picokernel.Kernel.{complete_work}

-- A driver's `submit_work`, and `virtio_net_cancel_work`. Whether the device is there stands for the
-- test of its pointer against NULL.
pub record Drivers (S : Type 0) : Type 0 where
  pub rng_there : S → Bool
  pub blk_there : S → Bool
  pub net_there : S → Bool
  pub rng_submit : Ptr → S × Kernel → Option (S × Kernel)
  pub blk_submit : Ptr → S × Kernel → Option (S × Kernel)
  pub net_submit : Ptr → S × Kernel → Option (S × Kernel)
  pub net_cancel : Ptr → S × Kernel → Option (S × Kernel)

-- The lists of submissions by device.
pub record Lists : Type 0 where
  pub rng_work : Ptr
  pub blk_work : Ptr
  pub net_work : Ptr
  pub unknown_work : Ptr

abbrev pub is_blk : ℕ → Bool
is_blk op = (op == op_block_read) || (op == op_block_write) || (op == op_block_flush)

abbrev pub is_net : ℕ → Bool
is_net op = (op == op_net_recv) || (op == op_net_send)

-- The body of the loop over the submissions.
unfoldable pub link : Ptr → Lists × Kernel → Lists × Kernel
link work (ls, k) =
    let w = work_at k work in
    let push = λ (head : Ptr). set_work k work (record w { next = head }) in
    if w.op == op_rng_read
    then (record ls { rng_work = work }, push ls.rng_work)
    else if is_blk w.op
    then (record ls { blk_work = work }, push ls.blk_work)
    else if is_net w.op
    then (record ls { net_work = work }, push ls.net_work)
    else (record ls { unknown_work = work }, push ls.unknown_work)

unfoldable pub partition : ℕ → Ptr → Lists × Kernel → Option (Lists × Kernel)
partition zero work s = none
partition (suc fuel) work s =
    let next = (work_at s.1 work).next in
    let more = partition fuel next (link work s) in if work == null then some s else more

-- A loop that completes every item of a list with one result.
unfoldable pub complete_list : ℕ → Ptr → Kerr → Kernel → Option Kernel
complete_list zero work e k = none
complete_list (suc fuel) work e k =
    let next = (work_at k work).next in
    let more = complete_list fuel next e (complete_work k work e) in
    if work == null then some k else more

module _ {S : Type 0} (drivers : Drivers S) where
  open drivers use {rng_there, blk_there, net_there, rng_submit, blk_submit, net_submit, net_cancel}

  -- The loop over the cancellations.
  unfoldable pub cancel_list : ℕ → Ptr → S × Kernel → Option (S × Kernel)
  cancel_list zero work s = none
  cancel_list (suc fuel) work s =
      let next = (work_at s.1 work).next in
      let to_net = is_net (work_at s.1 work).op && net_there s.0 in
      let after = if to_net then net_cancel work s else some s in
      let more = after >>= cancel_list fuel next in if work == null then some s else more

  -- One device's submissions: none, all completed with KERR_NO_DEVICE, or handed to its driver.
  unfoldable pub hand_over :
      ℕ → Bool → (Ptr → S × Kernel → Option (S × Kernel)) → Ptr → S × Kernel → Option (S × Kernel)
  hand_over fuel there submit work (s, k) =
      let refused = complete_list fuel work Kerr.no_device k >>= λ k'. some (s, k') in
      if work == null then some (s, k) else if not there then refused else submit work (s, k)

  -- `platform_submit`, with fuel for each of its loops.
  unfoldable pub platform_submit : ℕ → Ptr → Ptr → S × Kernel → Option (S × Kernel)
  platform_submit fuel submissions cancellations s =
      cancel_list fuel cancellations s >>= λ (s₁, k₁).
      let empty : Lists = record { rng_work = 0; blk_work = 0; net_work = 0; unknown_work = 0 } in
      partition fuel submissions (empty, k₁) >>= λ (ls, k₂).
      hand_over fuel (rng_there s₁) rng_submit ls.rng_work (s₁, k₂) >>= λ s₃.
      hand_over fuel (blk_there s₃.0) blk_submit ls.blk_work s₃ >>= λ s₄.
      hand_over fuel (net_there s₄.0) net_submit ls.net_work s₄ >>= λ (s₅, k₅).
      complete_list fuel ls.unknown_work Kerr.invalid k₅ >>= λ k₆. some (s₅, k₆)
