-- ===== src/Kernel/Tests.antt =====
-- The theorems about the kernel at inputs that meet their hypotheses.
use picokernel.Prelude.{
  ℕ, ◌+◌, ◌≡◌, refl, ◌≢◌, some, [], ◌∷◌, arith, update, ◌⊎◌, inl, ◌==◌, if◌then◌else◌,
}
use picokernel.State.{
  Ptr, null, Kerr, WorkState, op_net_recv, op_timer, Work, Request, Kernel, work_at,
}
use picokernel.Kernel.{Platform, submit, cancel, run_one, settle, run_ready, cancel_loop, tick}
use picokernel.Kernel.Queues.{IsSubmitQueue}
use picokernel.Kernel.Submit.{Requested, SameHeads, CancelFirst, submit-append, cancel_lem}
use picokernel.Kernel.Earlier.{submit_earlier_wrong}
use picokernel.Kernel.Ready.{Behaved, run_all, run_ready_lem}
use picokernel.Kernel.Cancel.{HandedOver, cancel_loop_lem}
use picokernel.Kernel.Tick.{after_callbacks, BulkSubmitted, tick_lem}

abbrev work : ℕ → WorkState → Ptr → Ptr → Work
work op state next prev = record {
  op = op;
  callback = 77;
  ctx = 0;
  result = Kerr.ok;
  state = state;
  flags = 0;
  next = next;
  prev = prev;
}

abbrev request : Work → Request
request w = record { work = w; deadline_ns = 0; parent = 0; left = 0; right = 0 }

-- Every other address holds a dead work item that reads the network.
abbrev memory : Ptr → Request
memory a = request (work op_net_recv WorkState.dead 0 0)

-- The items 10 and 20 wait to be submitted, 30 and 40 are ready, 50 and 60 are to be cancelled.
abbrev requests : Ptr → Request
requests =
    update
      (update
        (update
          (update
            (update (update memory 10 (request (work op_net_recv WorkState.submit_requested 20 0)))
              20 (request (work op_net_recv WorkState.submit_requested 0 10)))
            30 (request (work op_net_recv WorkState.ready 40 0)))
          40 (request (work op_net_recv WorkState.ready 0 0)))
        50 (request (work op_net_recv WorkState.cancel_requested 60 0)))
      60 (request (work op_net_recv WorkState.cancel_requested 0 0))

abbrev kernel : Kernel
kernel = record {
  requests = requests;
  submit_queue_head = 10;
  submit_queue_tail = 20;
  cancel_queue_head = 50;
  ready_queue_head = 30;
  timer_heap_root = 0;
  timer_heap_size = 0;
  current_time_ns = 100;
}

kernel-IsSubmitQueue : IsSubmitQueue kernel (10 ∷ 20 ∷ [])
kernel-IsSubmitQueue = record { links = omega arith; ends = refl; distinct = (refl, (refl, tt)) }

submit-append_example :
    (k' : Kernel) × (submit kernel 70 ≡ some (Kerr.ok, k'))
    × IsSubmitQueue k' (10 ∷ 20 ∷ 70 ∷ [])
    × Requested (work_at kernel 70) (work_at k' 70)
    × SameHeads kernel k'
submit-append_example =
    submit-append kernel (10 ∷ 20 ∷ []) 70 kernel-IsSubmitQueue (omega arith) refl (omega arith)
      refl (omega arith)

cancel_lem_example :
    let s = (work_at kernel 70).state in
    let (code, k') = cancel kernel 70 in
    ((70 ≡ null) ⊎ ((s ≡ WorkState.dead) ⊎ (s ≡ WorkState.ready))
      → (code ≡ Kerr.invalid) × (k' ≡ kernel))
    × (70 ≢ null
        → (s ≡ WorkState.submit_requested) ⊎ (s ≡ WorkState.cancel_requested)
        → (code ≡ Kerr.ok) × (k' ≡ kernel))
    × (70 ≢ null → s ≡ WorkState.live → CancelFirst kernel (50 ∷ 60 ∷ []) 70 (cancel kernel 70))
cancel_lem_example = cancel_lem kernel (50 ∷ 60 ∷ []) 70 (omega arith) refl

-- A platform without devices, and callbacks that count their runs.
abbrev counting : Platform ℕ
counting = record {
  platform_tick = λ w. w;
  platform_submit = λ s c w. w;
  platform_wfi = λ t p. (p, 0);
  invoke = λ fn work w. (w.0 + 1, w.1);
}

abbrev AnyState : ℕ × Kernel → Type 0
AnyState w = Unit

counting-Behaved : Behaved counting AnyState
counting-Behaved = record {
  settles = λ p k work inv. tt;
  keeps = λ fn work p k inv. tt;
  head_same = λ fn work p k inv. refl;
  spares = λ fn work p k a inv ready. (ready, refl);
}

run_ready_lem_example :
    (run_ready counting 3 30 (0, kernel) ≡ some (run_all counting (30 ∷ 40 ∷ []) (0, kernel)))
    × ((run_all counting (30 ∷ 40 ∷ []) (0, kernel)).1.ready_queue_head ≡ null)
run_ready_lem_example =
    run_ready_lem counting AnyState counting-Behaved (30 ∷ 40 ∷ []) 3 (0, kernel) tt (omega arith)
      (omega arith) (refl, (refl, tt)) (refl, (refl, tt))

cancel_loop_lem_example :
    (r : Ptr × Kernel) × (cancel_loop 3 50 null kernel ≡ some r)
    × HandedOver kernel (50 ∷ 60 ∷ []) (60 ∷ 50 ∷ []) r
cancel_loop_lem_example =
    cancel_loop_lem (50 ∷ 60 ∷ []) 3 kernel (omega arith) (omega arith) (refl, (refl, tt))
      (omega arith)

tick_lem_example :
    let w' = after_callbacks counting (30 ∷ 40 ∷ []) 100 0 kernel in
    (r : Ptr × Kernel) × (end_ : ℕ × Kernel) × (tick counting 3 100 (0, kernel) ≡ some end_)
    × BulkSubmitted counting r.0 w'.0 r.1 end_
    × HandedOver w'.1 (50 ∷ 60 ∷ []) (60 ∷ 50 ∷ []) r
    × (r.1.ready_queue_head ≡ null)
unfolding run_all run_one settle
tick_lem_example =
    tick_lem counting AnyState counting-Behaved (30 ∷ 40 ∷ []) (50 ∷ 60 ∷ []) 3 100 0 kernel
      (inl refl) tt (omega arith) (refl, (refl, tt)) (refl, (refl, tt)) (omega arith) (omega arith)
      (refl, (refl, tt)) (omega arith) (omega arith)

-- The timer 10 is live and alone in the heap, the timer 20 is dead and due before it.
abbrev timer_request : ℕ → WorkState → ℕ → Request
timer_request callback state deadline = record {
  work = record (work op_timer state 0 0) { callback = callback };
  deadline_ns = deadline;
  parent = 0;
  left = 0;
  right = 0;
}

abbrev one_timer : Kernel
one_timer = record {
  requests =
      λ a. if a == 10 then timer_request 5 WorkState.live 7 else timer_request 6 WorkState.dead 3;
  submit_queue_head = 0;
  submit_queue_tail = 0;
  cancel_queue_head = 0;
  ready_queue_head = 0;
  timer_heap_root = 10;
  timer_heap_size = 1;
  current_time_ns = 0;
}

submit_earlier_wrong_example :
    (k' : Kernel) × (submit one_timer 20 ≡ some (Kerr.ok, k'))
    × ((work_at k' 10).callback ≡ 6)
    × ((work_at k' 10).state ≡ WorkState.submit_requested)
    × ((work_at k' 20).callback ≡ 5)
    × ((work_at k' 20).state ≡ WorkState.live)
submit_earlier_wrong_example =
    submit_earlier_wrong one_timer 10 20 refl refl (λ e. absurd (omega arith))
      (λ e. absurd (omega arith)) (λ e. absurd (omega arith)) refl (omega arith) refl refl
      (λ e. absurd (omega arith))
