-- ===== src/State.antt =====
-- The data that the kernel shares with its callers: work items and timer requests (kernel/kapi.h),
-- the kernel's own state (kernel/kernel.h), and reads and writes through pointers to requests.
use picokernel.Prelude.{ℕ, ◌+◌, ◌-◌, ◌%◌, ◌^◌, Bool, true, false, ◌==◌, update, Option, none, some}

-- The address of a request. The work item is the first member of every request type, so that
-- CONTAINER_OF(work, ktimer_req_t, work) is the same address.
abbrev pub Ptr : Type 0
Ptr = ℕ

abbrev pub null : Ptr
null = 0

-- kerr_t
pub data Kerr : Type 0 where
  ok busy invalid cancelled timeout no_device io_error no_space : Kerr

abbrev pub is_ok : Kerr → Bool
is_ok Kerr.ok = true
is_ok _ = false

-- kwork_state_t
pub data WorkState : Type 0 where
  dead submit_requested live ready cancel_requested : WorkState

-- kwork_op_t, kept as the uint32_t that the field holds
abbrev pub op_timer : ℕ
op_timer = 1

abbrev pub op_rng_read : ℕ
op_rng_read = 2

abbrev pub op_block_read : ℕ
op_block_read = 3

abbrev pub op_block_write : ℕ
op_block_write = 4

abbrev pub op_block_flush : ℕ
op_block_flush = 5

abbrev pub op_net_recv : ℕ
op_net_recv = 6

abbrev pub op_net_send : ℕ
op_net_send = 7

-- `struct kwork`. A callback is the address of a function, 0 for NULL.
pub record Work : Type 0 where
  pub op : ℕ
  pub callback : ℕ
  pub ctx : ℕ
  pub result : Kerr
  pub state : WorkState
  pub flags : ℕ
  pub next : Ptr
  pub prev : Ptr

-- `flags & KWORK_FLAG_STANDING`, the lowest bit
abbrev pub is_standing : Work → Bool
is_standing w = w.flags % 2 == 1

-- `struct ktimer_req`. A request of another type has a work item too, and never has its timer
-- members read or written.
pub record Request : Type 0 where
  pub work : Work
  pub deadline_ns : ℕ
  pub parent : Ptr
  pub left : Ptr
  pub right : Ptr

-- `struct kernel` without `platform`, and the requests that its pointers lead to.
pub record Kernel : Type 0 where
  pub requests : Ptr → Request
  pub submit_queue_head : Ptr
  pub submit_queue_tail : Ptr
  pub cancel_queue_head : Ptr
  pub ready_queue_head : Ptr
  pub timer_heap_root : Ptr
  pub timer_heap_size : ℕ
  pub current_time_ns : ℕ

-- `*p` of a work item, and `*p = w`
abbrev pub work_at : Kernel → Ptr → Work
work_at k p = (k.requests p).work

abbrev pub put_work : (Ptr → Request) → Ptr → Work → Ptr → Request
put_work h p w = update h p (record (h p) { work = w })

abbrev pub set_work : Kernel → Ptr → Work → Kernel
set_work k p w = record k { requests = put_work k.requests p w }

-- size_t n + 1 and n - 1, on a 64-bit target
abbrev pub inc_size : ℕ → ℕ
inc_size n = (n + 1) % 2 ^ 64

abbrev pub dec_size : ℕ → ℕ
dec_size n = (n + 2 ^ 64 - 1) % 2 ^ 64

-- A loop that runs out of fuel is `none`.
infixr 5 ◌>>=◌
abbrev pub ◌>>=◌ {ℓ κ} : {A : Type ℓ} {B : Type κ} → Option A → (A → Option B) → Option B
none >>= f = none
some a >>= f = f a
