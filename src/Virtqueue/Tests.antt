-- ===== src/Virtqueue/Tests.antt =====
-- The theorems about virtqueues at inputs that meet their hypotheses.
use picokernel.Prelude.{◌+◌, ◌*◌, ◌%◌, ◌≤◌, ◌≡◌, refl, [], ◌∷◌, arith}
use picokernel.Virtqueue.{Virtqueue, init, alloc_desc}
use picokernel.Virtqueue.FreeList.{IsFree, init-IsFree, alloc_desc-Allocated}
use picokernel.Virtqueue.Memory.{init_layout}

abbrev blank : Virtqueue
blank = record {
  queue_size = 0;
  num_free = 0;
  free_head = 0;
  last_used_idx = 0;
  notify_offset = 0;
  queue_index = 0;
  desc_address = 0;
  avail_address = 0;
  used_address = 0;
  desc = λ i. record { addr = 0; len = 0; flags = 0; next = 0 };
  avail_flags = 0;
  avail_idx = 0;
  avail_ring = λ i. 0;
  used_flags = 0;
  used_idx = 0;
  used_ring = λ i. record { id = 0; len = 0 };
}

-- Three descriptors in a memory at the address 4096.
abbrev three : Virtqueue
three = init blank 3 4096

three_starts : IsFree three (0 ∷ 1 ∷ 2 ∷ [])
three_starts = init-IsFree blank 3 4096 (omega arith) (omega arith)

two_left : IsFree ((alloc_desc three).1) (1 ∷ 2 ∷ [])
two_left = (alloc_desc-Allocated three (0 ∷ 1 ∷ 2 ∷ []) three_starts).2

init_layout_example :
    (three.desc_address ≡ 4096)
    × (three.desc_address + 16 * 3 ≤ three.avail_address)
    × (three.avail_address + (6 + 2 * 3) ≤ three.used_address)
    × (three.used_address + (6 + 8 * 3) ≤ 4096 + 10_246)
    × (three.used_address % 4096 ≡ 0)
init_layout_example = init_layout blank 3 4096 (omega arith) (omega arith) refl (omega arith)
