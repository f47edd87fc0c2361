-- ===== src/Blk/Bulk.antt =====
-- The loop of `virtio_blk_submit_work` (driver/virtio/virtio_blk.c) over a list of work items.
use picokernel.Prelude.{ℕ, ◌+◌, ◌<◌, ◌≡◌, true, false, List, [], ◌∷◌, length, has}
use picokernel.State.{Ptr, Request}
use picokernel.Rng.{Notify}
use picokernel.Rng.Bulk.{notified}
use picokernel.Virtqueue.Chains.{Taken}
use picokernel.Blk.{World}
use picokernel.Blk.Tracked.{Tracked}
use picokernel.Blk.Handled.{room, left, HandledOne, need_of}

-- What becomes of the requests `xs` in order, where request `x` needs `need x` descriptors and `free`
-- are free at first; how many of them get a chain, and how many descriptors are left.
abbrev pub Handled :
    (before after : Ptr → Request) → (need : Ptr → ℕ) → List Ptr → (free : ℕ) → Type 0
Handled before after need [] free = Unit
Handled before after need (x ∷ xs) free =
    HandledOne (before x) (after x) (need x) free
    × Handled before after need xs (left (need x) free)

abbrev pub all_left : (need : Ptr → ℕ) → List Ptr → ℕ → ℕ
all_left need [] free = free
all_left need (x ∷ xs) free = all_left need xs (left (need x) free)

abbrev pub taken : (need : Ptr → ℕ) → List Ptr → ℕ → ℕ
taken need [] free = 0
taken need (x ∷ xs) free = room (need x) free + taken need xs (left (need x) free)

module _ {D : Type 0} where
  -- What the loop over `xs` does with the world and the count.
  record Looped (before : Ptr → Request) (need : Ptr → ℕ) (w : World D) (n : ℕ) (xs : List Ptr)
      (free : List ℕ) (out : List Taken) (r : World D × ℕ) : Type 0 where
    pub free_after : List ℕ
    pub out_after : List Taken
    pub tracked : Tracked r.0.blk free_after out_after
    pub count : r.1 ≡ n + taken need xs (length free)
    pub chains : length out_after ≡ taken need xs (length free) + length out
    pub room_left : length free_after ≡ all_left need xs (length free)
    pub handled : Handled before r.0.kernel.requests need xs (length free)
    pub others : (b : Ptr) → has b xs ≡ false → r.0.kernel.requests b ≡ w.kernel.requests b
    pub device : r.0.device ≡ w.device
    pub transport : r.0.blk.transport_type ≡ w.blk.transport_type

  -- The requests `xs` are as they were, and need as many descriptors.
  record Untouched (before : Ptr → Request) (need : Ptr → ℕ) (w : World D) (xs : List Ptr)
      : Type 0 where
    pub same : (b : Ptr) → has b xs ≡ true → w.kernel.requests b ≡ before b
    pub needs : (b : Ptr) → has b xs ≡ true → need_of w b ≡ need b

  -- What the driver did: the requests in order, the chains that are out, and the notification of the
  -- device through its transport, where a request got a chain.
  pub record SubmittedAll (notify : Notify D) (w : World D) (xs : List Ptr) (free : List ℕ)
      (out : List Taken) (w' : World D) : Type 0 where
    pub free_after : List ℕ
    pub out_after : List Taken
    pub tracked : Tracked w'.blk free_after out_after
    pub chains : length out_after ≡ taken (need_of w) xs (length free) + length out
    pub room_left : length free_after ≡ all_left (need_of w) xs (length free)
    pub handled : Handled w.kernel.requests w'.kernel.requests (need_of w) xs (length free)
    pub others : (b : Ptr) → has b xs ≡ false → w'.kernel.requests b ≡ w.kernel.requests b
    pub none_taken : taken (need_of w) xs (length free) ≡ 0 → w'.device ≡ w.device
    pub device :
        0 < taken (need_of w) xs (length free)
        → w'.device ≡ notified notify w.blk.transport_type w'.blk.vq w.device
