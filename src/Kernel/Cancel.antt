-- ===== src/Kernel/Cancel.antt =====
-- The loop of `kmain_tick` over the cancel queue (kernel/kernel.c).
use mathlib.Core.List.{reverse, reverse_aux}
use picokernel.Prelude.{
  ℕ, zero, suc, ◌<◌, ◌≡◌, refl, ◌≢◌, ◌∙◌, false, true, some, List, [], ◌∷◌, arith, has, length,
  Distinct, All, ne→==, ==_refl,
}
use picokernel.State.{Ptr, null, op_timer, Request, Kernel, work_at, set_work}
use picokernel.Kernel.{cancel_loop}
use picokernel.Kernel.Queues.{Chain, Chain-frame}

abbrev pub IsOther : (Ptr → Request) → Ptr → Type 0
IsOther h a = (h a).work.op ≢ op_timer

abbrev pub Disjoint : List ℕ → List ℕ → Type 0
Disjoint xs ys = (a : ℕ) → has a xs ≡ true → has a ys ≡ false

-- `g` is `h` but for the `next` pointers of the items `xs`.
pub record Relinked (xs : List Ptr) (h g : Ptr → Request) : Type 0 where
  pub others : (a : Ptr) → has a xs ≡ false → g a ≡ h a
  pub contents :
      (a : Ptr) → record ((g a).work) { next = null } ≡ record ((h a).work) { next = null }

-- A list of work items that starts at `head`, and the kernel that it stands in.
pub record HandedOver (k : Kernel) (xs zs : List Ptr) (r : Ptr × Kernel) : Type 0 where
  pub chain : Chain r.1.requests zs r.0
  pub relinked : Relinked xs k.requests r.1.requests
  pub submit_head : r.1.submit_queue_head ≡ k.submit_queue_head
  pub ready_head : r.1.ready_queue_head ≡ k.ready_queue_head
  pub timers : r.1.timer_heap_root ≡ k.timer_heap_root

abbrev moved : Kernel → Ptr → Ptr → Kernel
moved k x platform_head = set_work k x (record (work_at k x) { next = platform_head })

cancel_loop-step :
    (fuel : ℕ) (x platform_head : Ptr) (k : Kernel)
    → x ≢ null
    → IsOther k.requests x
    → cancel_loop (suc fuel) x platform_head k
      ≡ cancel_loop fuel (work_at k x).next x (moved k x platform_head)
unfolding cancel_loop
cancel_loop-step fuel x platform_head k ne op =
    rw (ne→== x null ne, ne→== (work_at k x).op op_timer op)

moved-Chain :
    (k : Kernel) (x platform_head : Ptr) (ys : List Ptr)
    → x ≢ null
    → has x ys ≡ false
    → Chain k.requests ys platform_head
    → Chain (moved k x platform_head).requests (x ∷ ys) x
moved-Chain k x platform_head ys ne out c = (
  refl,
  ne,
  rw (==_refl x)
      (Chain-frame k.requests (moved k x platform_head).requests ys _ (λ a i. ground arith) c),
)

moved-HandedOver :
    (k : Kernel) (x platform_head : Ptr) (xs zs : List Ptr) (r : Ptr × Kernel)
    → HandedOver (moved k x platform_head) xs zs r
    → HandedOver k (x ∷ xs) zs r
moved-HandedOver k x platform_head xs zs r d = record {
  chain = d.chain;
  relinked = record {
    others = λ a out. ground (arith, d.relinked.others a);
    contents = λ a. d.relinked.contents a ∙ ground arith;
  };
  submit_head = d.submit_head;
  ready_head = d.ready_head;
  timers = d.timers;
}

All-moved :
    (k : Kernel) (x platform_head : Ptr) (xs : List Ptr)
    → All (IsOther k.requests) xs
    → All (IsOther (moved k x platform_head).requests) xs
All-moved k x platform_head [] o = tt
All-moved k x platform_head (y ∷ xs) o = (ground arith, All-moved k x platform_head xs o.1)

cancel_loop-end :
    (fuel : ℕ) (p platform_head : Ptr) (k : Kernel)
    → p ≡ null
    → cancel_loop (suc fuel) p platform_head k ≡ some (platform_head, k)
unfolding cancel_loop
cancel_loop-end fuel p platform_head k e = rw e refl

cancel_loop-HandedOver :
    (xs ys : List Ptr) (fuel : ℕ) (p platform_head : Ptr) (k : Kernel)
    → length xs < fuel
    → Chain k.requests xs p
    → Chain k.requests ys platform_head
    → Distinct xs
    → Disjoint xs ys
    → All (IsOther k.requests) xs
    → (r : Ptr × Kernel) × (cancel_loop fuel p platform_head k ≡ some r)
      × HandedOver k xs (reverse_aux xs ys) r
cancel_loop-HandedOver xs ys zero p platform_head k h c e d j o = absurd (omega arith)
cancel_loop-HandedOver [] ys (suc fuel) p platform_head k h c e d j o = (
  (platform_head, k),
  cancel_loop-end fuel p platform_head k c,
  record {
    chain = e;
    relinked = record { others = λ a out. refl; contents = λ a. refl };
    submit_head = refl;
    ready_head = refl;
    timers = refl;
  },
)
cancel_loop-HandedOver (x ∷ xs) ys (suc fuel) p platform_head k h c e d j o =
    let k₁ = moved k x platform_head in
    let c₁ = Chain-frame k.requests k₁.requests xs _ (λ a i. ground arith) c.2 in
    let apart = j x (ground arith) in
    let (r, run, done) =
      cancel_loop-HandedOver xs (x ∷ ys) fuel (work_at k x).next x k₁ (omega arith) c₁
        (moved-Chain k x platform_head ys c.1 apart e) d.1 (λ a i. ground (arith, j a))
        (All-moved k x platform_head xs o.1) in
    (
      r,
      rw (c.0, cancel_loop-step fuel x platform_head k c.1 o.0) run,
      moved-HandedOver k x platform_head xs _ r done,
    )

-- Where the cancel queue holds the items `xs`, none twice and none of them a timer, the loop of
-- `kmain_tick` ends within any fuel above their number: it hands the platform a list of exactly
-- these items in reverse order, changes nothing but their `next` pointers, and leaves the heads of
-- the submit, ready and timer structures alone.
pub cancel_loop_lem :
    (xs : List Ptr) (fuel : ℕ) (k : Kernel)
    → length xs < fuel
    → Chain k.requests xs k.cancel_queue_head
    → Distinct xs
    → All (IsOther k.requests) xs
    → (r : Ptr × Kernel) × (cancel_loop fuel k.cancel_queue_head null k ≡ some r)
      × HandedOver k xs (reverse xs) r
cancel_loop_lem xs fuel k h c d o =
    cancel_loop-HandedOver xs [] fuel k.cancel_queue_head null k h c refl d (λ a i. refl) o
