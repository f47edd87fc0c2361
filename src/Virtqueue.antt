-- ===== src/Virtqueue.antt =====
-- driver/virtio/virtio.c and virtio.h: a virtqueue, through which a driver hands descriptors of
-- buffers to a device and gets them back. The three tables that the driver shares with the device are
-- functions of their index, beside the addresses at which the queue's memory has them.
pub mod Chains
pub mod FreeList
pub mod Rings
pub mod Sets
pub mod Memory
mod Tests
use picokernel.Prelude.{
  ℕ, zero, suc, ◌+◌, ◌-◌, ◌*◌, ◌%◌, ◌^◌, Bool, ◌==◌, ltb, if◌then◌else◌, update, not,
}

-- VIRTQUEUE_NO_DESC
abbrev pub no_desc : ℕ
no_desc = 0xFFFF

-- VIRTQ_DESC_F_NEXT and VIRTQ_DESC_F_WRITE
abbrev pub flag_next : ℕ
flag_next = 1

abbrev pub flag_write : ℕ
flag_write = 2

-- `virtq_desc_t`
pub record Desc : Type 0 where
  pub addr : ℕ
  pub len : ℕ
  pub flags : ℕ
  pub next : ℕ

-- `virtq_used_elem_t`
pub record UsedElem : Type 0 where
  pub id : ℕ
  pub len : ℕ

-- `virtqueue_t`, with the descriptor table, the available ring and the used ring that it points to.
pub record Virtqueue : Type 0 where
  pub queue_size : ℕ
  pub num_free : ℕ
  pub free_head : ℕ
  pub last_used_idx : ℕ
  pub notify_offset : ℕ
  pub queue_index : ℕ
  pub desc_address : ℕ
  pub avail_address : ℕ
  pub used_address : ℕ
  pub desc : ℕ → Desc
  pub avail_flags : ℕ
  pub avail_idx : ℕ
  pub avail_ring : ℕ → ℕ
  pub used_flags : ℕ
  pub used_idx : ℕ
  pub used_ring : ℕ → UsedElem

-- uint16_t a + b and a - b
abbrev pub add16 : ℕ → ℕ → ℕ
add16 a b = (a + b) % 2 ^ 16

abbrev pub sub16 : ℕ → ℕ → ℕ
sub16 a b = (a + 2 ^ 16 - b) % 2 ^ 16

-- an address a + b
abbrev pub add_address : ℕ → ℕ → ℕ
add_address a b = (a + b) % 2 ^ 64

-- VIRTQ_ALIGN
abbrev pub align_4096 : ℕ → ℕ
align_4096 x = let y = add_address x 4095 in y - y % 4096

-- The loop that links the descriptors, from `i` on, with `rounds` left.
unfoldable pub link_descs : ℕ → ℕ → (ℕ → Desc) → ℕ → Desc
link_descs zero i desc = desc
link_descs (suc rounds) i desc =
    link_descs rounds (add16 i 1) (update desc i (record (desc i) { next = add16 i 1; flags = 0 }))

-- `virtqueue_init`. For `queue_size` 0 the last index is -1, as an offset of 64 bits.
unfoldable pub init : Virtqueue → ℕ → ℕ → Virtqueue
init vq queue_size base =
    let avail = add_address base (queue_size * 16) in
    let used = align_4096 (add_address avail (4 + queue_size * 2 + 2)) in
    let desc = link_descs (queue_size - 1) 0 vq.desc in
    let end = (queue_size + 2 ^ 64 - 1) % 2 ^ 64 in
    record {
      queue_size = queue_size;
      num_free = queue_size;
      free_head = 0;
      last_used_idx = 0;
      notify_offset = 0;
      queue_index = vq.queue_index;
      desc_address = base;
      avail_address = avail;
      used_address = used;
      desc = update desc end (record (desc end) { next = no_desc; flags = 0 });
      avail_flags = 0;
      avail_idx = 0;
      avail_ring = vq.avail_ring;
      used_flags = 0;
      used_idx = 0;
      used_ring = vq.used_ring;
    }

unfoldable pub alloc_desc : Virtqueue → ℕ × Virtqueue
alloc_desc vq = if vq.num_free == 0 then (no_desc, vq) else (
  vq.free_head,
  record vq { free_head = (vq.desc vq.free_head).next; num_free = sub16 vq.num_free 1 },
)

unfoldable pub add_desc : Virtqueue → (idx addr len flags : ℕ) → Virtqueue
add_desc vq idx addr len flags = record vq {
  desc = update vq.desc idx (record { addr = addr; len = len; flags = flags; next = no_desc });
}

unfoldable pub add_avail : Virtqueue → ℕ → Virtqueue
add_avail vq desc_idx = record vq {
  avail_ring = update vq.avail_ring (vq.avail_idx % vq.queue_size) desc_idx;
  avail_idx = add16 vq.avail_idx 1;
}

unfoldable pub has_used : Virtqueue → Bool
has_used vq = not (vq.last_used_idx == vq.used_idx)

-- `virtqueue_get_used`: `*desc_idx` (cut to 16 bits), `*len`, and the queue.
unfoldable pub get_used : Virtqueue → ℕ × ℕ × Virtqueue
get_used vq =
    let e = vq.used_ring (vq.last_used_idx % vq.queue_size) in
    (e.id % 2 ^ 16, e.len, record vq { last_used_idx = add16 vq.last_used_idx 1 })

unfoldable pub free_desc : Virtqueue → ℕ → Virtqueue
free_desc vq desc_idx = record vq {
  desc = update vq.desc desc_idx (record (vq.desc desc_idx) { next = vq.free_head });
  free_head = desc_idx;
  num_free = add16 vq.num_free 1;
}

-- `virtq_need_event`
pub need_event : ℕ → ℕ → ℕ → Bool
need_event event_idx new_idx old_idx =
    ltb (sub16 (sub16 new_idx event_idx) 1) (sub16 new_idx old_idx)
