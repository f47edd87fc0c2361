-- ===== src/Dispatch/Machine.antt =====
-- The drivers of this repository behind `platform_submit` (platform/shared/platform_virtio.c).
use picokernel.Prelude.{ℕ, Bool, some}
use picokernel.State.{◌>>=◌}
use picokernel.Rng
use picokernel.Rng.{Notify}
use picokernel.Blk
use picokernel.Net
use picokernel.Net.Used.{cancel_net}
use picokernel.Dispatch.{Drivers}

-- The members `virtio_rng`, `virtio_blk` and `virtio_net` of `platform_t`, and whether the pointer to
-- each of them is set.
pub record Machine (D : Type 0) : Type 0 where
  pub has_rng : Bool
  pub has_blk : Bool
  pub has_net : Bool
  pub rng : Rng.World D
  pub blk : Blk.World D
  pub net : Net.World D

-- Each driver works on the kernel that it is given.
abbrev pub machine_drivers : {D : Type 0} → Notify D → ℕ → Drivers (Machine D)
machine_drivers notify fuel = record {
  rng_there = λ m. m.has_rng;
  blk_there = λ m. m.has_blk;
  net_there = λ m. m.has_net;
  rng_submit = λ p (m, k). Rng.submit_work notify fuel p (record m.rng { kernel = k }) >>= λ w.
      some (record m { rng = w }, w.kernel);
  blk_submit = λ p (m, k). Blk.submit_work notify fuel p (record m.blk { kernel = k }) >>= λ w.
      some (record m { blk = w }, w.kernel);
  net_submit = λ p (m, k). Net.submit_work notify fuel p (record m.net { kernel = k }) >>= λ w.
      some (record m { net = w }, w.kernel);
  net_cancel = λ p (m, k). cancel_net fuel p (record m.net { kernel = k }) >>= λ w.
      some (record m { net = w }, w.kernel);
}
