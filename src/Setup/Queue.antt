-- ===== src/Setup/Queue.antt =====
-- The queue and the table of requests that the set-up functions of the drivers leave.
use picokernel.Prelude.{
  ℕ, ◌≤◌, ◌<◌, ◌≡◌, ◌≢◌, refl, subst, Bool, true, false, not, [], arith, if◌then◌else◌,
}
use picokernel.State.{Ptr, null}
use picokernel.Virtqueue.{Virtqueue, init}
use picokernel.Virtqueue.FreeList.{IsFree, init-IsFree, range, length-range}
use picokernel.Virtqueue.Chains.Slots.{Slots}
use picokernel.Mmio.{Mmio, Outcome, success, failure}
use picokernel.Mmio
use picokernel.Pci.{Pci, setup_queue}
use picokernel.Pci
use picokernel.Setup.{capped, cleared, max_queue, queue_mmio, queue_pci}

-- Slots beyond the driver's table, which nothing reads, count as empty.
abbrev pub EmptyBeyond : (ℕ → Ptr) → Type 0
EmptyBeyond slots = (i : ℕ) → max_queue ≤ i → slots i ≡ null

-- A queue of 1 to 256 descriptors, all of them free.
pub record Fresh (vq : Virtqueue) : Type 0 where
  pub free_list : IsFree vq (range vq.queue_size 0)
  pub most : vq.queue_size ≤ max_queue

init_size : (vq : Virtqueue) (n memory : ℕ) → (init vq n memory).queue_size ≡ n
unfolding init
init_size vq n memory = refl

init-Fresh : (vq : Virtqueue) (n memory : ℕ) → 0 < n → n ≤ max_queue → Fresh (init vq n memory)
unfolding init
init-Fresh vq n memory pos most = record {
  free_list = init-IsFree vq n memory pos (omega arith);
  most = most;
}

capped_most : (n : ℕ) → capped n ≤ max_queue
capped_most n = ground arith

pub queue_mmio-Fresh :
    {D : Type 0} (io : Mmio D) (t : Mmio.Transport) (queue_idx memory : ℕ) (vq : Virtqueue) (d : D)
    → let v = (queue_mmio io t queue_idx vq memory d).0 in 0 < v.queue_size → Fresh v
unfolding queue_mmio
queue_mmio-Fresh io t queue_idx memory vq d pos =
    let n = capped (Mmio.get_queue_size io t queue_idx d).1 in
    init-Fresh vq n memory (subst (λ a. 0 < a) (init_size vq n memory) pos)
      (capped_most (Mmio.get_queue_size io t queue_idx d).1)

pub queue_pci-Fresh :
    {D : Type 0} (io : Pci D) (t : Pci.Transport) (queue_idx memory : ℕ) (vq : Virtqueue) (d : D)
    → let v = (queue_pci io t queue_idx vq memory d).0 in 0 < v.queue_size → Fresh v
unfolding queue_pci setup_queue
queue_pci-Fresh io t queue_idx memory vq d pos =
    let n = capped (Pci.get_queue_size io t queue_idx d).1 in
    let f =
      init-Fresh vq n memory (subst (λ a. 0 < a) (init_size vq n memory) pos)
        (capped_most (Pci.get_queue_size io t queue_idx d).1) in
    let g = f.free_list in
    record {
      free_list = record { chain = g.chain; distinct = g.distinct; count = g.count; fits = g.fits };
      most = f.most;
    }

-- With an empty table, no chain is out.
pub Fresh-Slots :
    (vq : Virtqueue) (slots : ℕ → Ptr)
    → EmptyBeyond slots
    → Fresh vq
    → Slots vq (cleared slots) 0 (range vq.queue_size 0) []
Fresh-Slots vq slots beyond f =
    let most = f.most in
    record {
      free_list = f.free_list;
      linked = tt;
      distinct = tt;
      apart = λ d i. absurd (ground arith);
      within = λ d i. absurd (ground arith);
      busy = λ d i. absurd (ground arith);
      idle = λ d i. ground (arith, beyond d);
      count = refl;
      fits = omega (arith, most, length-range vq.queue_size 0);
      small = omega (arith, most);
    }

failure_ne : failure ≢ success
failure_ne e = absurd (ground (arith, e))

-- A set-up that returns success has passed both of its checks, or its only one.
pub both_passed :
    {R D : Type 0} (kept alive : Bool) (a b c : R) (x y z : D)
    → let r : Outcome × R × D =
        if not kept
        then (failure, a, x)
        else if not alive
        then (failure, b, y)
        else (success, c, z) in
      r.0 ≡ success → r.1 ≡ c
both_passed false alive a b c x y z e = absurd (failure_ne e)
both_passed true false a b c x y z e = absurd (failure_ne e)
both_passed true true a b c x y z e = refl

pub one_passed :
    {R D : Type 0} (kept : Bool) (a c : R) (x z : D)
    → let r : Outcome × R × D = if not kept then (failure, a, x) else (success, c, z) in
      r.0 ≡ success → r.1 ≡ c
one_passed false a c x z e = absurd (failure_ne e)
one_passed true a c x z e = refl
