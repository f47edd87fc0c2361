-- ===== src/IrqRing.antt =====
-- kernel/irq_ring.c: the ring through which interrupt handlers hand devices to the kernel's tick.
-- Each function is one atomic call; positions are free-running uint32_t counters that wrap.
pub mod Queue
pub mod Refine
pub mod Drain
mod Tests
use picokernel.Prelude.{
  ℕ, zero, suc, ◌+◌, ◌-◌, ◌%◌, ◌^◌, Bool, true, false, ◌==◌, leb, if◌then◌else◌, update,
}

-- KIRQ_RING_SIZE
abbrev pub ring_size : ℕ
ring_size = 256

-- `struct kirq_ring`. The array is a function of its index; a device pointer is a number, NULL is 0.
pub record Ring : Type 0 where
  pub items : ℕ → ℕ
  pub write_pos : ℕ
  pub read_pos : ℕ
  pub overflow_count : ℕ

-- uint32_t a + b and a - b
abbrev pub add32 : ℕ → ℕ → ℕ
add32 a b = (a + b) % 2 ^ 32

abbrev pub sub32 : ℕ → ℕ → ℕ
sub32 a b = (a + 2 ^ 32 - b) % 2 ^ 32

-- `kirq_ring_init` resets the three counters and leaves the array alone.
pub init : Ring → Ring
init ring = record ring { write_pos = 0; read_pos = 0; overflow_count = 0 }

pub enqueue : Ring → ℕ → Bool × Ring
enqueue ring device =
    let next_write = add32 ring.write_pos 1 in
    if leb ring_size (sub32 next_write ring.read_pos)
    then (false, record ring { overflow_count = add32 ring.overflow_count 1 })
    else (
      true,
      record ring {
        items = update ring.items (ring.write_pos % ring_size) device;
        write_pos = next_write;
      },
    )

pub dequeue : Ring → ℕ × Ring
dequeue ring =
    if ring.read_pos == ring.write_pos
    then (0, ring)
    else (ring.items (ring.read_pos % ring_size), record ring { read_pos = add32 ring.read_pos 1 })

pub is_empty : Ring → Bool
is_empty ring = ring.read_pos == ring.write_pos

pub snapshot : Ring → ℕ
snapshot ring = ring.write_pos

pub dequeue_bounded : Ring → ℕ → ℕ × Ring
dequeue_bounded ring end_pos =
    if ring.read_pos == end_pos
    then (0, ring)
    else if ring.read_pos == ring.write_pos
    then (0, ring)
    else (ring.items (ring.read_pos % ring_size), record ring { read_pos = add32 ring.read_pos 1 })
