-- ===== src/Blk/Build.antt =====
-- The chains that `virtio_blk_submit_work` (driver/virtio/virtio_blk.c) builds in the descriptor table.
use picokernel.Prelude.{
  ℕ, ◌+◌, ◌*◌, ◌%◌, ◌^◌, ◌≡◌, refl, true, false, List, [], ◌∷◌, arith, ◌==◌, if◌then◌else◌, has,
  Distinct, ==_refl,
}
use picokernel.Virtqueue.{Virtqueue, add_desc}
use picokernel.Virtqueue.Chains.{Taken, all_of, Linked}
use picokernel.Virtqueue.Chains.Slots.{Queue, Queue-update}
use picokernel.Blk.{Segment, build_transfer, build_flush}

-- The three descriptors of a read or write, and the two of a flush, in the terms of the device: the
-- header of 16 bytes and the status byte behind it stand in the request buffer of 24 bytes at the index
-- `h`; flag 1 is for a descriptor with a next one, flag 2 for one that the device writes.
pub record Transfer (v : Virtqueue) (h d s base op : ℕ) (seg : Segment) (sector_size : ℕ)
    : Type 0 where
  pub header : v.desc h ≡ record { addr = (base + 24 * h) % 2 ^ 64; len = 16; flags = 1; next = d }
  pub buffer : v.desc d ≡ record {
    addr = seg.buffer;
    len = seg.num_sectors * sector_size % 2 ^ 32;
    flags = if op == 3 then 3 else 1;
    next = s;
  }
  pub status :
      v.desc s ≡ record { addr = (base + 24 * h + 16) % 2 ^ 64; len = 1; flags = 2; next = 0xFFFF }

pub record Flush (v : Virtqueue) (h s base : ℕ) : Type 0 where
  pub header : v.desc h ≡ record { addr = (base + 24 * h) % 2 ^ 64; len = 16; flags = 1; next = s }
  pub status :
      v.desc s ≡ record { addr = (base + 24 * h + 16) % 2 ^ 64; len = 1; flags = 2; next = 0xFFFF }

pub Transfer-Linked :
    (v : Virtqueue) (h d s base op : ℕ) (seg : Segment) (sector_size : ℕ)
    → Transfer v h d s base op seg sector_size
    → Linked v.desc h (d ∷ s ∷ [])
Transfer-Linked v h d s base op seg sector_size b =
    rw (b.header, b.buffer, b.status) (refl, refl, (ground arith, refl, refl))

pub Flush-Linked : (v : Virtqueue) (h s base : ℕ) → Flush v h s base → Linked v.desc h (s ∷ [])
Flush-Linked v h s base b = rw (b.header, b.status) (refl, refl, refl)

pub build_transfer-Transfer :
    (vq : Virtqueue) (h d s base op : ℕ) (seg : Segment) (sector_size : ℕ)
    → Distinct (h ∷ d ∷ s ∷ [])
    → Transfer (build_transfer vq h d s base op seg sector_size) h d s base op seg sector_size
unfolding build_transfer add_desc
build_transfer-Transfer vq h d s base op seg sector_size u =
    let hd : (h == d) ≡ false = ground arith in
    let hs : (h == s) ≡ false = ground arith in
    let ds : (d == s) ≡ false = ground arith in
    record {
      header = rw (hd, hs, ==_refl h) refl;
      buffer = rw (ds, ==_refl d) refl;
      status = rw (==_refl s) refl;
    }

pub build_transfer-Queue :
    (vq : Virtqueue) (h d s base op : ℕ) (seg : Segment) (sector_size : ℕ) (size i : ℕ)
    (free : List ℕ) (out : List Taken)
    → ((c : ℕ)
        → has c (h ∷ d ∷ s ∷ []) ≡ true
        → (has c free ≡ false) × (has c (all_of out) ≡ false))
    → Queue vq size i free out
    → Queue (build_transfer vq h d s base op seg sector_size) size i free out
unfolding build_transfer add_desc
build_transfer-Queue vq h d s base op seg sector_size size i free out apart q =
    let (h_free, h_out) = apart h (ground (arith, ==_refl h)) in
    let (d_free, d_out) = apart d (ground (arith, ==_refl d)) in
    let (s_free, s_out) = apart s (ground (arith, ==_refl s)) in
    let header =
      Queue-update _ size i free out h _ h_free h_out
        (Queue-update vq size i free out h _ h_free h_out q) in
    let buffer =
      Queue-update _ size i free out d _ d_free d_out
        (Queue-update _ size i free out d _ d_free d_out header) in
    Queue-update _ size i free out s _ s_free s_out buffer

pub build_flush-Flush :
    (vq : Virtqueue) (h s base : ℕ) → (h == s) ≡ false → Flush (build_flush vq h s base) h s base
unfolding build_flush add_desc
build_flush-Flush vq h s base ne = record {
  header = rw (ne, ==_refl h) refl;
  status = rw (==_refl s) refl;
}

pub build_flush-Queue :
    (vq : Virtqueue) (h s base size i : ℕ) (free : List ℕ) (out : List Taken)
    → ((c : ℕ) → has c (h ∷ s ∷ []) ≡ true → (has c free ≡ false) × (has c (all_of out) ≡ false))
    → Queue vq size i free out
    → Queue (build_flush vq h s base) size i free out
unfolding build_flush add_desc
build_flush-Queue vq h s base size i free out apart q =
    let (h_free, h_out) = apart h (ground (arith, ==_refl h)) in
    let (s_free, s_out) = apart s (ground (arith, ==_refl s)) in
    Queue-update _ size i free out s _ s_free s_out (
      Queue-update _ size i free out h _ h_free h_out
        (Queue-update vq size i free out h _ h_free h_out q))
