-- ===== src/Kernel.antt =====
-- kernel/kernel.c: the queues of work items and the kernel's tick, in a release build (KDEBUG, which
-- also records each change of state, is off). A `kernel_t *` argument is the kernel, passed and
-- returned; `none` is a loop that runs out of fuel.
pub mod Queues
pub mod Submit
pub mod Ready
pub mod Cancel
pub mod Earlier
pub mod Tick
mod Tests
use picokernel.Prelude.{
  ℕ, zero, suc, ◌-◌, ◌^◌, Bool, true, false, Option, none, some, ◌==◌, ltb, leb, if◌then◌else◌,
  update, not, ◌&&◌, ◌||◌,
}
use picokernel.State.{
  Ptr, null, Kerr, is_ok, WorkState, op_timer, Work, is_standing, Request, Kernel, work_at,
  put_work, set_work, ◌>>=◌,
}
use picokernel.TimerHeap

-- The tests `state == S` of the code.
abbrev pub is_dead : WorkState → Bool
is_dead WorkState.dead = true
is_dead _ = false

abbrev pub is_ready : WorkState → Bool
is_ready WorkState.ready = true
is_ready _ = false

abbrev pub is_live : WorkState → Bool
is_live WorkState.live = true
is_live _ = false

-- Queue helpers

unfoldable pub enqueue_submit : Kernel → Ptr → Kernel
enqueue_submit k work =
    let tail = k.submit_queue_tail in
    let h = put_work k.requests work (record (work_at k work) { next = null; prev = tail }) in
    if tail == null
    then record k { requests = h; submit_queue_head = work; submit_queue_tail = work }
    else record k {
      requests = put_work h tail (record ((h tail).work) { next = work });
      submit_queue_tail = work;
    }

unfoldable pub enqueue_cancel : Kernel → Ptr → Kernel
enqueue_cancel k work =
    record (set_work k work (record (work_at k work) { next = k.cancel_queue_head; prev = null })) {
      cancel_queue_head = work;
    }

unfoldable pub enqueue_ready : Kernel → Ptr → Kernel
enqueue_ready k work =
    record (set_work k work (record (work_at k work) { next = k.ready_queue_head; prev = null })) {
      ready_queue_head = work;
    }

-- The three assignments that make a work item ready with a result, and its enqueueing.
unfoldable pub make_ready : Kernel → Ptr → Kerr → Kernel
make_ready k work result =
    enqueue_ready
      (set_work k work (record (work_at k work) { result = result; state = WorkState.ready })) work

unfoldable pub complete_work : Kernel → Ptr → Kerr → Kernel
complete_work k work result = if work == null then k else make_ready k work result

unfoldable pub cancel_work : Kernel → Ptr → Kernel
cancel_work k work = if work == null then k else make_ready k work Kerr.cancelled

unfoldable pub work_init : Kernel → Ptr → (op ctx callback flags : ℕ) → Kernel
work_init k work op ctx callback flags = set_work k work (record {
  op = op;
  callback = callback;
  ctx = ctx;
  result = Kerr.ok;
  state = WorkState.dead;
  flags = flags;
  next = null;
  prev = null;
})

-- `ksubmit`: the code that it returns, and the kernel.
unfoldable pub submit : Kernel → Ptr → Option (Kerr × Kernel)
submit k work =
    let w = work_at k work in
    let k₁ = set_work k work (record w { state = WorkState.submit_requested; result = Kerr.ok }) in
    if work == null || w.callback == 0
    then some (Kerr.invalid, k)
    else if not (is_dead w.state)
    then some (Kerr.busy, k)
    else if w.op == op_timer
    then (TimerHeap.insert k₁ work >>= λ k₂.
        some (Kerr.ok, set_work k₂ work (record (work_at k₂ work) { state = WorkState.live })))
    else some (Kerr.ok, enqueue_submit k₁ work)

-- `kcancel`
unfoldable pub cancel : Kernel → Ptr → Kerr × Kernel
cancel k work =
    let w = work_at k work in
    if work == null
    then (Kerr.invalid, k)
    else if is_dead w.state || is_ready w.state
    then (Kerr.invalid, k)
    else if is_live w.state
    then (
      Kerr.ok,
      enqueue_cancel (set_work k work (record w { state = WorkState.cancel_requested })) work,
    )
    else (Kerr.ok, k)

-- `expire_timers`, with fuel for its `while (1)`
unfoldable pub expire_timers : ℕ → Kernel → Option Kernel
expire_timers zero k = none
expire_timers (suc fuel) k =
    let timer = TimerHeap.peek_min k in
    if timer == null || ltb k.current_time_ns (k.requests timer).deadline_ns
    then some k
    else elim (TimerHeap.extract_min k) [
      | none ↦ none
      | some (_, k') ↦ expire_timers fuel (make_ready k' timer Kerr.ok)
    ]

-- UINT64_MAX
abbrev pub forever : ℕ
forever = 2 ^ 64 - 1

-- `kmain_next_delay`
unfoldable pub next_delay : Kernel → ℕ
next_delay k =
    let timer = TimerHeap.peek_min k in
    let deadline = (k.requests timer).deadline_ns in
    if timer == null
    then forever
    else if leb deadline k.current_time_ns
    then 0
    else deadline - k.current_time_ns

-- Standing work that succeeded stays live; any other work is dead when its callback runs.
unfoldable pub settle : Kernel → Ptr → Kernel
settle k work =
    let w = work_at k work in
    set_work k work (record w {
      state = if is_standing w && is_ok w.result then WorkState.live else WorkState.dead;
    })

-- What the tick calls outside kernel.c. `P` is the state of the platform and of the callers'
-- programs. `invoke` runs the function at an address on a work item.
pub record Platform (P : Type 0) : Type 0 where
  pub platform_tick : P × Kernel → P × Kernel
  pub platform_submit : Ptr → Ptr → P × Kernel → P × Kernel
  pub platform_wfi : ℕ → P → P × ℕ
  pub invoke : ℕ → Ptr → P × Kernel → P × Kernel

module _ {P : Type 0} (platform : Platform P) where
  open platform use {platform_tick, platform_submit, platform_wfi, invoke}

  -- One round of the loop over the ready queue, at the work item `work`.
  pub run_one : Ptr → P × Kernel → P × Kernel
  run_one work (p, k) =
      invoke (work_at k work).callback work
        (p, settle (record k { ready_queue_head = (work_at k work).next }) work)

  unfoldable pub run_ready : ℕ → Ptr → P × Kernel → Option (P × Kernel)
  run_ready zero work w = none
  run_ready (suc fuel) work w =
      let next = (work_at w.1 work).next in
      let more = run_ready fuel next (run_one work w) in if work == null then some w else more

-- The loop over the cancel queue: the list left for the platform, and the kernel.
unfoldable pub cancel_loop : ℕ → Ptr → Ptr → Kernel → Option (Ptr × Kernel)
cancel_loop zero cancel platform_head k = none
cancel_loop (suc fuel) cancel platform_head k =
    let w = work_at k cancel in
    if cancel == null then some (platform_head, k) else elim (w.op == op_timer) [
      | true ↦ elim (TimerHeap.delete k cancel) [
        | none ↦ none
        | some k' ↦ cancel_loop fuel w.next platform_head (make_ready k' cancel Kerr.cancelled)
      ]
      | false ↦
          cancel_loop fuel w.next cancel (set_work k cancel (record w { next = platform_head }))
    ]

module _ {P : Type 0} (platform : Platform P) where
  open platform use {platform_tick, platform_submit, platform_wfi, invoke}

  -- The bulk submission, and the queues emptied behind it.
  unfoldable pub submit_bulk : Ptr → P × Kernel → P × Kernel
  submit_bulk platform_head (p, k) =
      if not (k.submit_queue_head == null) || not (platform_head == null)
      then (let (p', k') = platform_submit k.submit_queue_head platform_head (p, k) in
          (
            p',
            record k' {
              submit_queue_head = null;
              submit_queue_tail = null;
              cancel_queue_head = null;
            },
          ))
      else (p, record k { cancel_queue_head = null })

  -- `kmain_tick`; each of its loops gets `fuel` rounds.
  unfoldable pub tick : ℕ → ℕ → P × Kernel → Option (P × Kernel)
  tick fuel current_time (p, k) =
      expire_timers fuel (record k { current_time_ns = current_time }) >>= λ k₁.
      let w₂ = platform_tick (p, k₁) in
      run_ready platform fuel w₂.1.ready_queue_head w₂ >>= λ w₃.
      cancel_loop fuel w₃.1.cancel_queue_head null w₃.1 >>= λ r. some (submit_bulk r.0 (w₃.0, r.1))

  -- MAX_TICK_TIMEOUT_NS of kernel/kmain.c
  abbrev pub max_tick_timeout : ℕ
  max_tick_timeout = 2_000_000_000

  -- One round of the event loop of `kmain`.
  unfoldable pub loop_body : ℕ → P × Kernel → Option (P × Kernel)
  loop_body fuel (p, k) = tick fuel k.current_time_ns (p, k) >>= λ w.
      let timeout = next_delay w.1 in
      let capped = if ltb max_tick_timeout timeout then max_tick_timeout else timeout in
      let (p', now) = platform_wfi capped w.0 in some (p', record (w.1) { current_time_ns = now })
