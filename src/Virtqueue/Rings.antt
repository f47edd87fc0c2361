-- ===== src/Virtqueue/Rings.antt =====
-- The two rings of a virtqueue and the event index (driver/virtio/virtio.c and virtio.h).
use picokernel.Prelude.{ℕ, ◌%◌, ◌^◌, ◌<◌, ◌≡◌, refl, true, List, arith, ◌↔◌}
use picokernel.Virtqueue.{Virtqueue, add16, sub16, get_used, need_event}
use picokernel.Virtqueue.FreeList.{IsFree}

-- For 16-bit indices, `virtq_need_event` holds exactly where the event index is one of those that the
-- index passed when it went from the old one (included) to the new one (excluded), wrapping.
pub need_event_iff :
    (event_idx new_idx old_idx : ℕ)
    → event_idx < 2 ^ 16
    → new_idx < 2 ^ 16
    → old_idx < 2 ^ 16
    → (need_event event_idx new_idx old_idx ≡ true)
      ↔ ((i : ℕ) × (i < sub16 new_idx old_idx) × (add16 old_idx i ≡ event_idx))
unfolding need_event
need_event_iff event_idx new_idx old_idx e n o =
    (λ t. (sub16 event_idx old_idx, ground arith, ground arith), λ (i, lt, same). ground arith)

-- The descriptor of the next used entry.
pub get_used_id :
    (vq : Virtqueue)
    → (get_used vq).0 ≡ (vq.used_ring (vq.last_used_idx % vq.queue_size)).id % 2 ^ 16
unfolding get_used
get_used_id vq = refl

-- Taking a used entry leaves the free list.
pub get_used-IsFree :
    (vq : Virtqueue) (free : List ℕ) → IsFree vq free → IsFree ((get_used vq).2) free
unfolding get_used
get_used-IsFree vq free f = record {
  chain = f.chain;
  distinct = f.distinct;
  count = f.count;
  fits = f.fits;
}
