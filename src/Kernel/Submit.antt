-- ===== src/Kernel/Submit.antt =====
-- `ksubmit` and `kcancel` of kernel/kernel.c on every branch.
use picokernel.Prelude.{
  ◌≡◌, refl, ◌≢◌, sym, subst, false, some, List, [], ◌∷◌, ◌++◌, arith, has, ◌⊎◌,
}
use picokernel.State.{Ptr, null, Kerr, WorkState, op_timer, Work, Kernel, work_at, set_work}
use picokernel.Kernel.{submit, cancel, enqueue_submit, enqueue_cancel}
use picokernel.Kernel.Queues.{
  IsSubmitQueue, Chain, Chain-frame, enqueue_submit-append, set_work-IsSubmitQueue,
}

-- `ksubmit` refuses what it may not queue, and then changes nothing: NULL and a work item without
-- a callback with KERR_INVALID, and (given a callback) any item that is not DEAD with KERR_BUSY.
submit_refuses :
    (k : Kernel) (work : Ptr)
    → ((work ≡ null) ⊎ ((work_at k work).callback ≡ 0) → submit k work ≡ some (Kerr.invalid, k))
      × (work ≢ null
          → (work_at k work).callback ≢ 0
          → (work_at k work).state ≢ WorkState.dead
          → submit k work ≡ some (Kerr.busy, k))
unfolding submit
submit_refuses k work = (λ h. ground arith, λ h i j. ground arith)

-- What an accepted submission leaves in the work item, its links apart.
pub record Requested (before after : Work) : Type 0 where
  pub state : after.state ≡ WorkState.submit_requested
  pub result : after.result ≡ Kerr.ok
  pub op : after.op ≡ before.op
  pub callback : after.callback ≡ before.callback
  pub ctx : after.ctx ≡ before.ctx
  pub flags : after.flags ≡ before.flags

-- What an accepted submission leaves alone in the kernel.
pub record SameHeads (k k' : Kernel) : Type 0 where
  pub ready : k'.ready_queue_head ≡ k.ready_queue_head
  pub cancel : k'.cancel_queue_head ≡ k.cancel_queue_head
  pub timers : k'.timer_heap_root ≡ k.timer_heap_root
  pub time : k'.current_time_ns ≡ k.current_time_ns

enqueue_submit-heads :
    (k : Kernel) (w : Work) (work : Ptr) → SameHeads k (enqueue_submit (set_work k work w) work)
unfolding enqueue_submit
enqueue_submit-heads k w work = ground arith

enqueue_submit-Requested :
    (k : Kernel) (w : Work) (work : Ptr)
    → w.state ≡ WorkState.submit_requested
    → w.result ≡ Kerr.ok
    → Requested w (work_at (enqueue_submit (set_work k work w) work) work)
unfolding enqueue_submit
enqueue_submit-Requested k w work es er = ground arith

-- A DEAD work item with a callback that is no timer and not in the submit queue is accepted with
-- KERR_OK: the submit queue then holds what it held and, last, this item; the item is
-- SUBMIT_REQUESTED with result KERR_OK and keeps its operation, callback, context and flags; and
-- the ready, cancel and timer heads and the time are as before.
pub submit-append :
    (k : Kernel) (xs : List Ptr) (work : Ptr)
    → IsSubmitQueue k xs
    → work ≢ null
    → has work xs ≡ false
    → (work_at k work).callback ≢ 0
    → (work_at k work).state ≡ WorkState.dead
    → (work_at k work).op ≢ op_timer
    → (k' : Kernel) × (submit k work ≡ some (Kerr.ok, k'))
      × IsSubmitQueue k' (xs ++ (work ∷ []))
      × Requested (work_at k work) (work_at k' work)
      × SameHeads k k'
unfolding submit
submit-append k xs work q ne fresh cb st op =
    let w = record (work_at k work) { state = WorkState.submit_requested; result = Kerr.ok } in
    let k₁ = set_work k work w in
    (
      enqueue_submit k₁ work,
      ground arith,
      enqueue_submit-append {k = k₁} xs work (set_work-IsSubmitQueue k xs work w refl refl q) ne
          fresh,
      ground (arith, enqueue_submit-Requested k w work refl refl),
      enqueue_submit-heads k w work,
    )

-- What `kcancel` does to LIVE work, with the other items `xs` of the cancel queue.
abbrev pub CancelFirst : Kernel → List Ptr → Ptr → Kerr × Kernel → Type 0
CancelFirst k xs work (code, k') =
    (code ≡ Kerr.ok)
    × ((work_at k' work).state ≡ WorkState.cancel_requested)
    × Chain k'.requests (work ∷ xs) k'.cancel_queue_head
    × ((a : Ptr) → a ≢ work → k'.requests a ≡ k.requests a)

abbrev cancelled : Kernel → Ptr → Kernel
cancelled k work =
    enqueue_cancel
      (set_work k work (record (work_at k work) { state = WorkState.cancel_requested })) work

cancel-live :
    (k : Kernel) (work : Ptr)
    → work ≢ null
    → (work_at k work).state ≡ WorkState.live
    → cancel k work ≡ (Kerr.ok, cancelled k work)
unfolding cancel
cancel-live k work ne live = ground arith

cancelled-next :
    (k : Kernel) (work : Ptr) → ((cancelled k work).requests work).work.next ≡ k.cancel_queue_head
unfolding enqueue_cancel
cancelled-next k work = ground arith

cancelled-CancelFirst :
    (k : Kernel) (xs : List Ptr) (work : Ptr)
    → Chain k.requests xs k.cancel_queue_head
    → work ≢ null
    → has work xs ≡ false
    → CancelFirst k xs work (Kerr.ok, cancelled k work)
unfolding enqueue_cancel
cancelled-CancelFirst k xs work c ne fresh = (
  refl,
  ground arith,
  (
    refl,
    ne,
    rw (cancelled-next k work)
        (Chain-frame k.requests (cancelled k work).requests xs _ (λ a i. ground arith) c),
  ),
  λ a h. ground arith,
)

-- `kcancel` on every branch. NULL and work that is DEAD or READY are refused with KERR_INVALID, and
-- work that waits to be submitted or cancelled is accepted, both with no change. LIVE work is
-- accepted, becomes CANCEL_REQUESTED, goes to the front of the cancel queue `xs` (if it is not in
-- it), and no other request changes.
pub cancel_lem :
    (k : Kernel) (xs : List Ptr) (work : Ptr)
    → Chain k.requests xs k.cancel_queue_head
    → has work xs ≡ false
    → let s = (work_at k work).state in
      let (code, k') = cancel k work in
      ((work ≡ null) ⊎ ((s ≡ WorkState.dead) ⊎ (s ≡ WorkState.ready))
        → (code ≡ Kerr.invalid) × (k' ≡ k))
      × (work ≢ null
          → (s ≡ WorkState.submit_requested) ⊎ (s ≡ WorkState.cancel_requested)
          → (code ≡ Kerr.ok) × (k' ≡ k))
      × (work ≢ null → s ≡ WorkState.live → CancelFirst k xs work (cancel k work))
unfolding cancel
cancel_lem k xs work c fresh = (
  λ h. ground arith,
  λ h i. ground arith,
  λ h i.
      subst (CancelFirst k xs work) (sym (cancel-live k work h i))
        (cancelled-CancelFirst k xs work c h fresh),
)
