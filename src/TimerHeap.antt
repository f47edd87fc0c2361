-- ===== src/TimerHeap.antt =====
-- kernel/timer_heap.c: the kernel's timers as a binary min-heap of requests that point to one
-- another. Positions count from 1 at the root; the bits of a position below its highest one are the
-- path from the root.
pub mod Navigate
pub mod Swap
pub mod Layout
pub mod Order
pub mod Bubble
pub mod Link
pub mod Grown
pub mod Insert
pub mod Unlink
pub mod Remove
pub mod Delete
pub mod Defects
mod Tests
use picokernel.Prelude.{
  ℕ, zero, suc, ◌+◌, ◌-◌, ◌/◌, ◌%◌, ◌^◌, Bool, true, false, Option, none, some, ◌==◌, ltb, leb,
  if◌then◌else◌, update, not, ◌&&◌, ◌||◌,
}
use picokernel.State.{Ptr, null, Request, Kernel, inc_size, dec_size, ◌>>=◌}

-- A position is below 2 ^ 64, so no path from the root has more than 63 steps.
abbrev pub max_depth : ℕ
max_depth = 64

-- `while (temp > 1) { temp >>= 1; msb++; }`
unfoldable pub msb_loop : ℕ → ℕ → ℕ → ℕ
msb_loop zero temp msb = msb
msb_loop (suc fuel) temp msb = elim (ltb 1 temp) [
  | true ↦ msb_loop fuel (temp / 2) (msb + 1)
  | false ↦ msb
]

-- `position & (1UL << i)`
abbrev pub bit : ℕ → ℕ → Bool
bit position i = position / 2 ^ i % 2 == 1

module _ (h : Ptr → Request) where
  -- The child that a bit of the path names.
  abbrev pub child : Bool → Ptr → Ptr
  child b current = if b then (h current).right else (h current).left

  -- The `for` loop, with `i` steps left.
  unfoldable pub descend : ℕ → ℕ → Ptr → Ptr
  descend zero position current = current
  descend (suc i) position current =
      if current == null then current else descend i position (child (bit position i) current)

  unfoldable pub navigate : Ptr → ℕ → Ptr
  navigate root position =
      if position == 0 || root == null
      then null
      else if position == 1
      then root
      else descend (msb_loop max_depth position 0) position root

  unfoldable pub find_parent : Ptr → ℕ → Ptr
  find_parent root position = if leb position 1 then null else navigate root (position / 2)

-- What `ktimer_req_t **` points to.
pub data Slot : Type 0 where
  root_slot : Slot
  left_slot : Ptr → Slot
  right_slot : Ptr → Slot

unfoldable pub find_insertion_slot : Kernel → Option Slot
find_insertion_slot k =
    let new_position = inc_size k.timer_heap_size in
    if new_position == 1
    then some root_slot
    else let parent = find_parent k.requests k.timer_heap_root new_position in
      if parent == null
      then none
      else if new_position % 2 == 0
      then some (left_slot parent)
      else some (right_slot parent)

-- `*slot = timer`
abbrev pub fill_slot : Slot → Ptr → Kernel → Kernel
fill_slot root_slot timer k = record k { timer_heap_root = timer }
fill_slot (left_slot p) timer k = record k {
  requests = update k.requests p (record (k.requests p) { left = timer });
}
fill_slot (right_slot p) timer k = record k {
  requests = update k.requests p (record (k.requests p) { right = timer });
}

unfoldable pub find_last : Kernel → Ptr
find_last k =
    if k.timer_heap_size == 0 then null else navigate k.requests k.timer_heap_root k.timer_heap_size

-- The deadlines are exchanged, and then the work items, their list pointers included.
unfoldable pub swap : (Ptr → Request) → Ptr → Ptr → Ptr → Request
swap h a b =
    let temp_deadline = (h a).deadline_ns in
    let h₁ = update h a (record (h a) { deadline_ns = (h b).deadline_ns }) in
    let h₂ = update h₁ b (record (h₁ b) { deadline_ns = temp_deadline }) in
    let temp_work = (h₂ a).work in
    let h₃ = update h₂ a (record (h₂ a) { work = (h₂ b).work }) in
    update h₃ b (record (h₃ b) { work = temp_work })

unfoldable pub bubble_up : ℕ → Ptr → (Ptr → Request) → Option (Ptr → Request)
bubble_up zero node h = none
bubble_up (suc fuel) node h =
    let parent = (h node).parent in
    let more = bubble_up fuel parent (swap h node parent) in
    if not (parent == null) && ltb (h node).deadline_ns (h parent).deadline_ns then more else some h

-- The smallest of a node and its children; of equal ones the first.
unfoldable pub smallest : (Ptr → Request) → Ptr → Ptr
smallest h node =
    let l = (h node).left in
    let r = (h node).right in
    let s = if not (l == null) && ltb (h l).deadline_ns (h node).deadline_ns then l else node in
    if not (r == null) && ltb (h r).deadline_ns (h s).deadline_ns then r else s

unfoldable pub bubble_down : ℕ → Ptr → (Ptr → Request) → Option (Ptr → Request)
bubble_down zero node h = none
bubble_down (suc fuel) node h =
    let s = smallest h node in
    let more = bubble_down fuel s (swap h node s) in if s == node then some h else more

-- The result of a loop over the requests, as the kernel's new requests.
abbrev pub with_requests : Kernel → Option (Ptr → Request) → Option Kernel
with_requests k none = none
with_requests k (some h) = some (record k { requests = h })

-- `timer_heap_insert`
unfoldable pub insert : Kernel → Ptr → Option Kernel
insert k timer =
    let k₁ = record k {
      requests =
          update k.requests timer
            (record (k.requests timer) { parent = null; left = null; right = null });
    } in
    elim (find_insertion_slot k₁) [
      | none ↦ some k₁
      | some slot ↦
          let k₂ = fill_slot slot timer k₁ in
          let k₃ =
            if ltb 0 k₂.timer_heap_size
            then record k₂ {
              requests = update k₂.requests timer (record (k₂.requests timer) {
                parent = find_parent k₂.requests k₂.timer_heap_root (inc_size k₂.timer_heap_size);
              });
            }
            else k₂ in
          let k₄ = record k₃ { timer_heap_size = inc_size k₃.timer_heap_size } in
          with_requests k₄ (bubble_up max_depth timer k₄.requests)
    ]

-- `if (last->parent != NULL) …`: the parent's pointer to `last` becomes NULL.
unfoldable pub unlink_last : (Ptr → Request) → Ptr → Ptr → Request
unlink_last h last =
    let p = (h last).parent in
    if p == null
    then h
    else if (h p).left == last
    then update h p (record (h p) { left = null })
    else update h p (record (h p) { right = null })

-- `timer_heap_extract_min`: the pointer that it returns, and the kernel.
unfoldable pub extract_min : Kernel → Option (Ptr × Kernel)
extract_min k =
    let min_timer = k.timer_heap_root in
    if min_timer == null
    then some (null, k)
    else if k.timer_heap_size == 1
    then some (min_timer, record k { timer_heap_root = null; timer_heap_size = 0 })
    else let last = find_last k in
      let h = unlink_last (swap k.requests min_timer last) last in
      let k' = record k { requests = h; timer_heap_size = dec_size k.timer_heap_size } in
      if last == null
      then some (null, k)
      else with_requests k' (bubble_down max_depth k.timer_heap_root h) >>= λ k''.
          some (min_timer, k'')

-- `timer_heap_delete`
unfoldable pub delete : Kernel → Ptr → Option Kernel
delete k timer =
    if timer == null || k.timer_heap_size == 0
    then some k
    else if k.timer_heap_size == 1
    then some (record k { timer_heap_root = null; timer_heap_size = 0 })
    else let last = find_last k in
      if last == null
      then some k
      else if timer == last
      then some (record k {
        requests = unlink_last k.requests last;
        timer_heap_size = dec_size k.timer_heap_size;
      })
      else let h = unlink_last (swap k.requests timer last) last in
        let k' = record k { requests = h; timer_heap_size = dec_size k.timer_heap_size } in
        let p = (h timer).parent in
        with_requests k' (
          if not (p == null) && ltb (h timer).deadline_ns (h p).deadline_ns
          then bubble_up max_depth timer h
          else bubble_down max_depth timer h)

-- `timer_heap_peek_min`
unfoldable pub peek_min : Kernel → Ptr
peek_min k = k.timer_heap_root
