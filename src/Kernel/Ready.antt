-- ===== src/Kernel/Ready.antt =====
-- The loop of `kmain_tick` over the ready queue (kernel/kernel.c).
use picokernel.Prelude.{
  ℕ, zero, suc, ◌%◌, ◌<◌, ◌≡◌, refl, ap, subst, Bool, true, ◌&&◌, ◌==◌, if◌then◌else◌, update, ◌≢◌,
  ◌∙◌, false, some, List, [], ◌∷◌, arith, has, length, Distinct, All, ne→==,
}
use picokernel.State.{Ptr, null, Kerr, is_ok, WorkState, Request, Kernel, work_at}
use picokernel.Kernel.{Platform, settle, run_one, run_ready}
use picokernel.Kernel.Queues.{Chain}

abbrev pub IsReady : (Ptr → Request) → Ptr → Type 0
IsReady h a = (h a).work.state ≡ WorkState.ready

-- What the loop relies on: in the states `Inv`, which the loop's own steps and the callbacks keep,
-- a callback leaves the head of the ready queue and every READY item's state and link alone.
pub record Behaved {P : Type 0} (platform : Platform P) (Inv : P × Kernel → Type 0) : Type 0 where
  pub settles :
      (p : P) (k : Kernel) (work : Ptr)
      → Inv (p, k)
      → Inv (p, settle (record k { ready_queue_head = (work_at k work).next }) work)
  pub keeps :
      (fn : ℕ) (work : Ptr) (p : P) (k : Kernel) → Inv (p, k) → Inv (platform.invoke fn work (p, k))
  pub head_same :
      (fn : ℕ) (work : Ptr) (p : P) (k : Kernel)
      → Inv (p, k)
      → (platform.invoke fn work (p, k)).1.ready_queue_head ≡ k.ready_queue_head
  pub spares :
      (fn : ℕ) (work : Ptr) (p : P) (k : Kernel) (a : Ptr)
      → Inv (p, k)
      → IsReady k.requests a
      → let h = (platform.invoke fn work (p, k)).1.requests in
        IsReady h a × ((h a).work.next ≡ (k.requests a).work.next)

-- The state in which a callback finds its item: LIVE for standing work that succeeded, DEAD otherwise.
abbrev pub state_for : Bool → Kerr → WorkState
state_for true Kerr.ok = WorkState.live
state_for _ _ = WorkState.dead

abbrev pub settled : (flags : ℕ) → Kerr → WorkState
settled flags result = state_for (flags % 2 == 1) result

settled_lem :
    (standing : Bool) (e : Kerr)
    → (if standing && is_ok e then WorkState.live else WorkState.dead) ≡ state_for standing e
settled_lem true Kerr.ok = refl
settled_lem true Kerr.busy = refl
settled_lem true Kerr.invalid = refl
settled_lem true Kerr.cancelled = refl
settled_lem true Kerr.timeout = refl
settled_lem true Kerr.no_device = refl
settled_lem true Kerr.io_error = refl
settled_lem true Kerr.no_space = refl
settled_lem false e = refl

module _ {P : Type 0} (platform : Platform P) where
  -- One round for an item: it leaves the ready queue, is settled, and its callback is called.
  abbrev pub round : Ptr → P × Kernel → P × Kernel
  round x (p, k) =
      let r = k.requests x in
      platform.invoke r.work.callback x (
        p,
        record k {
          ready_queue_head = r.work.next;
          requests =
              update k.requests x (record r {
                work = record (r.work) { state = settled r.work.flags r.work.result };
              });
        },
      )

  -- One round for each item of the list, in order.
  unfoldable pub run_all : List Ptr → P × Kernel → P × Kernel
  run_all [] w = w
  run_all (x ∷ xs) w = run_all xs (round x w)

  run_one-round : (x : Ptr) (w : P × Kernel) → run_one platform x w ≡ round x w
  unfolding run_one settle
  run_one-round x (p, k) =
      let r = k.requests x in
      ap
        (λ s. platform.invoke r.work.callback x (
          p,
          record k {
            ready_queue_head = r.work.next;
            requests = update k.requests x (record r { work = record (r.work) { state = s } });
          },
        ))
        (settled_lem (r.work.flags % 2 == 1) r.work.result)

  settle_other :
      (k : Kernel) (head work a : Ptr)
      → a ≢ work
      → (settle (record k { ready_queue_head = head }) work).requests a ≡ k.requests a
  unfolding settle
  settle_other k head work a ne = ground arith

  settle-head :
      (k : Kernel) (head work : Ptr)
      → (settle (record k { ready_queue_head = head }) work).ready_queue_head ≡ head
  unfolding settle
  settle-head k head work = refl

  module _ (Inv : P × Kernel → Type 0) (behaved : Behaved platform Inv) where
    -- A round leaves the READY items after it as they are.
    run_one_spares :
        (w : P × Kernel) (x a : Ptr)
        → Inv w
        → a ≢ x
        → IsReady w.1.requests a
        → let h = (run_one platform x w).1.requests in
          IsReady h a × ((h a).work.next ≡ (w.1.requests a).work.next)
    unfolding run_one
    run_one_spares w x a inv ne ready =
        let head = (work_at w.1 x).next in
        let e = settle_other w.1 head x a ne in
        let k = settle (record (w.1) { ready_queue_head = head }) x in
        let (still, next) =
          behaved.spares (work_at w.1 x).callback x w.0 k a (behaved.settles w.0 w.1 x inv)
            (rw e ready) in
        (still, next ∙ rw e refl)

    run_one-Inv : (w : P × Kernel) (x : Ptr) → Inv w → Inv (run_one platform x w)
    unfolding run_one
    run_one-Inv w x inv = behaved.keeps _ x w.0 _ (behaved.settles w.0 w.1 x inv)

    run_one-head :
        (w : P × Kernel) (x : Ptr)
        → Inv w
        → (run_one platform x w).1.ready_queue_head ≡ (work_at w.1 x).next
    unfolding run_one
    run_one-head w x inv =
        behaved.head_same _ x w.0 _ (behaved.settles w.0 w.1 x inv) ∙ settle-head w.1 _ x

    Chain-run_one :
        (w : P × Kernel) (x : Ptr) (xs : List Ptr) (p : Ptr)
        → Inv w
        → has x xs ≡ false
        → All (IsReady w.1.requests) xs
        → Chain w.1.requests xs p
        → let h = (run_one platform x w).1.requests in Chain h xs p × All (IsReady h) xs
    Chain-run_one w x [] p inv out ready c = (c, tt)
    Chain-run_one w x (y ∷ xs) p inv out ready c =
        let (still, next) = run_one_spares w x y inv (ground arith) ready.0 in
        let (c', r') = Chain-run_one w x xs _ inv (ground arith) ready.1 c.2 in
        ((c.0, c.1, rw next c'), (still, r'))

    run_ready-run_all :
        (xs : List Ptr) (fuel : ℕ) (w : P × Kernel) (p : Ptr)
        → Inv w
        → length xs < fuel
        → Chain w.1.requests xs p
        → Distinct xs
        → All (IsReady w.1.requests) xs
        → w.1.ready_queue_head ≡ p
        → (run_ready platform fuel p w ≡ some (run_all xs w))
          × ((run_all xs w).1.ready_queue_head ≡ null)
    unfolding run_ready run_all
    run_ready-run_all xs zero w p inv h c d ready e = absurd (omega arith)
    run_ready-run_all [] (suc fuel) w p inv h c d ready e = (rw c refl, e ∙ c)
    run_ready-run_all (x ∷ xs) (suc fuel) w p inv h c d ready e =
        let (c', r') = Chain-run_one w x xs _ inv d.0 ready.1 c.2 in
        let rest =
          run_ready-run_all xs fuel (run_one platform x w) _ (run_one-Inv w x inv) (omega arith) c'
            d.1 r' (run_one-head w x inv) in
        rw (c.0, ne→== x null c.1)
          (subst
            (λ v.
              (run_ready platform fuel (work_at w.1 x).next (run_one platform x w)
                ≡ some (run_all xs v))
              × ((run_all xs v).1.ready_queue_head ≡ null))
            (run_one-round x w) rest)

    -- Where the ready queue holds the items `xs`, all READY and none twice, and the callbacks are
    -- behaved, the loop of `kmain_tick` ends within any fuel above the number of items: it has run
    -- one round for each item, in order: it is out of the queue, LIVE if it is standing (bit 0 of its
    -- flags) and its result KERR_OK and DEAD otherwise, and then its callback is called;
    -- and the ready queue is empty.
    pub run_ready_lem :
        (xs : List Ptr) (fuel : ℕ) (w : P × Kernel)
        → Inv w
        → length xs < fuel
        → Chain w.1.requests xs w.1.ready_queue_head
        → Distinct xs
        → All (IsReady w.1.requests) xs
        → (run_ready platform fuel w.1.ready_queue_head w ≡ some (run_all xs w))
          × ((run_all xs w).1.ready_queue_head ≡ null)
    run_ready_lem xs fuel w inv h c d ready =
        run_ready-run_all xs fuel w w.1.ready_queue_head inv h c d ready refl
