-- ===== src/TimerHeap/Tests.antt =====
-- The theorems about the timer heap at inputs that meet their hypotheses.
use picokernel.Prelude.{
  ◌<◌, ◌≤◌, ◌≢◌, ◌^◌, some, ℕ, ◌+◌, ◌≡◌, refl, arith, update, ◌==◌, if◌then◌else◌,
}
use picokernel.State.{Ptr, null, Kerr, WorkState, Request, Kernel}
use picokernel.TimerHeap.{
  navigate, msb_loop, descend, bubble_up, bubble_down, insert, extract_min, delete,
}
use picokernel.TimerHeap.Layout.{Layout}
use picokernel.TimerHeap.Link.{Outside}
use picokernel.TimerHeap.Insert.{IsHeap, Inserted, insert-IsHeap}
use picokernel.TimerHeap.Remove.{root_position, Removed, extract_min-IsHeap}
use picokernel.TimerHeap.Delete.{delete-IsHeap}
use picokernel.TimerHeap.Order.{Rising, Sinking}
use picokernel.TimerHeap.Bubble.{Restored, bubble_up-Restored, bubble_down-Restored}

abbrev node : Ptr → Ptr → Request
node l r = record {
  work = record {
    op = 1;
    callback = 1;
    ctx = 0;
    result = Kerr.ok;
    state = WorkState.live;
    flags = 0;
    next = 0;
    prev = 0;
  };
  deadline_ns = 5;
  parent = 0;
  left = l;
  right = r;
}

-- Five nodes at the addresses 10, 20, 30, 40, 50, in the order of their positions.
abbrev five : Ptr → Request
five = update (update (λ a. node 0 0) 10 (node 20 30)) 20 (node 40 50)

navigate-five : navigate five 10 5 ≡ 50
unfolding navigate msb_loop descend
navigate-five = refl

-- Two nodes at the addresses 10 and 20; the child is due first.
abbrev pair_at : ℕ → Ptr
pair_at p = if p == 1 then 10 else if p == 2 then 20 else 0

abbrev pair : Ptr → Request
pair =
    update (update (λ a. node 0 0) 10 (record (node 20 0) { deadline_ns = 7 })) 20
      (record (node 0 0) { parent = 10 })

pair-Layout : Layout pair pair_at 2
pair-Layout = record {
  inside = λ p lo hi. ground arith;
  above = refl;
  outside = λ p out. ground arith;
  left = λ p lo hi. ground arith;
  right = λ p lo hi. ground arith;
  parent = λ p lo hi. ground arith;
  distinct = λ p q p0 p1 q0 q1 e. ground arith;
}

pair-Rising : Rising pair_at 2 pair 2
pair-Rising = record {
  others = λ q q0 q1 ne. absurd (omega arith);
  across = λ q lo q1 e. absurd (omega arith);
}

pair-Sinking : Sinking pair_at 2 pair 1
pair-Sinking = record {
  others = λ q q0 q1 ne. absurd (omega arith);
  across = λ q lo q1 e. absurd (omega arith);
}

bubble_up-Restored_example : Restored pair_at 2 pair (bubble_up 64 20 pair)
bubble_up-Restored_example =
    bubble_up-Restored 64 pair 2 pair-Layout (omega arith) (omega arith) (omega arith) pair-Rising

bubble_down-Restored_example : Restored pair_at 2 pair (bubble_down 64 10 pair)
bubble_down-Restored_example =
    bubble_down-Restored 64 pair 1 pair-Layout (omega arith) (omega arith) (omega arith)
      pair-Sinking

-- The same tree in order.
abbrev sorted : Ptr → Request
sorted =
    update (update (λ a. node 0 0) 10 (record (node 20 0) { deadline_ns = 3 })) 20
      (record (node 0 0) { parent = 10 })

abbrev two : Kernel
two = record {
  requests = sorted;
  submit_queue_head = 0;
  submit_queue_tail = 0;
  cancel_queue_head = 0;
  ready_queue_head = 0;
  timer_heap_root = 10;
  timer_heap_size = 2;
  current_time_ns = 0;
}

sorted-Layout : Layout sorted pair_at 2
sorted-Layout = record {
  inside = λ p lo hi. ground arith;
  above = refl;
  outside = λ p out. ground arith;
  left = λ p lo hi. ground arith;
  right = λ p lo hi. ground arith;
  parent = λ p lo hi. ground arith;
  distinct = λ p q p0 p1 q0 q1 e. ground arith;
}

two-IsHeap : IsHeap two pair_at
two-IsHeap = record { root = refl; layout = sorted-Layout; ordered = λ p lo hi. ground arith }

thirty_there : 30 ≢ null
thirty_there = λ e. absurd (omega arith)

thirty-Outside : Outside pair_at 2 30
thirty-Outside p lo hi e = ground arith

three_small : 2 + 1 < 2 ^ 63
three_small = omega arith

insert-IsHeap_example :
    (k' : Kernel) × (insert two 30 ≡ some k')
    × Inserted two-IsHeap 30 thirty_there thirty-Outside three_small k'
insert-IsHeap_example = insert-IsHeap two-IsHeap 30 thirty_there thirty-Outside three_small

one_positive : 0 < 1
one_positive = omega arith

one_within : 1 ≤ 1
one_within = omega arith

two_small : 1 + 1 < 2 ^ 63
two_small = omega arith

delete-IsHeap_example :
    (k' : Kernel) × (delete two 10 ≡ some k')
    × Removed two-IsHeap 1 refl one_positive two_small 1 one_positive one_within k'
delete-IsHeap_example =
    delete-IsHeap two-IsHeap 1 refl one_positive two_small 1 one_positive one_within

extract_min-IsHeap_example :
    (k' : Kernel) × (extract_min two ≡ some (10, k'))
    × Removed two-IsHeap 1 refl one_positive two_small 1 root_position one_positive k'
    × (k'.timer_heap_root ≡ 10)
extract_min-IsHeap_example = extract_min-IsHeap two-IsHeap 1 refl one_positive two_small
