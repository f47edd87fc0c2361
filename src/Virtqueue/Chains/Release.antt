-- ===== src/Virtqueue/Chains/Release.antt =====
-- The loop that gives back a chain (driver/virtio/virtio_blk.c, virtio_blk_process_irq, and
-- driver/virtio/virtio_net.c).
use picokernel.Prelude.{
  ℕ, zero, suc, ◌+◌, ◌^◌, ◌≤◌, ◌<◌, ◌≡◌, refl, ◌∙◌, true, false, List, [], ◌∷◌, arith, ◌==◌, length,
  has, Distinct, some, ==_refl,
}
use picokernel.Virtqueue.{Virtqueue, no_desc, free_desc}
use picokernel.Virtqueue.FreeList.{IsFree, free_desc-IsFree}
use picokernel.Virtqueue.Chains.{free_chain, has_next, Linked, Linked-update}
use picokernel.Virtqueue.Sets.{freed, has_other}

-- What giving back the descriptors `xs` leaves as it was.
pub record Kept (vq v : Virtqueue) (xs : List ℕ) : Type 0 where
  pub queue_size : v.queue_size ≡ vq.queue_size
  pub used_idx : v.used_idx ≡ vq.used_idx
  pub used_ring : v.used_ring ≡ vq.used_ring
  pub last_used_idx : v.last_used_idx ≡ vq.last_used_idx
  pub avail_idx : v.avail_idx ≡ vq.avail_idx
  pub others : (c : ℕ) → has c xs ≡ false → v.desc c ≡ vq.desc c

give_back-Kept : (vq : Virtqueue) (d : ℕ) → Kept vq (free_desc vq d) (d ∷ [])
unfolding free_desc
give_back-Kept vq d = record {
  queue_size = refl;
  used_idx = refl;
  used_ring = refl;
  last_used_idx = refl;
  avail_idx = refl;
  others = λ c out. ground arith;
}

Kept-trans :
    (u v w : Virtqueue) (d : ℕ) (xs : List ℕ) → Kept u v (d ∷ []) → Kept v w xs → Kept u w (d ∷ xs)
Kept-trans u v w d xs f g = record {
  queue_size = g.queue_size ∙ f.queue_size;
  used_idx = g.used_idx ∙ f.used_idx;
  used_ring = g.used_ring ∙ f.used_ring;
  last_used_idx = g.last_used_idx ∙ f.last_used_idx;
  avail_idx = g.avail_idx ∙ f.avail_idx;
  others = λ c out. g.others c (ground arith) ∙ f.others c (ground arith);
}

free_desc-Linked :
    (vq : Virtqueue) (d c : ℕ) (xs : List ℕ)
    → has d (c ∷ xs) ≡ false
    → Linked vq.desc c xs
    → Linked ((free_desc vq d).desc) c xs
unfolding free_desc
free_desc-Linked vq d c xs out l = Linked-update vq.desc d _ c xs out l

free_chain_last :
    (fuel d : ℕ) (vq : Virtqueue)
    → (d == no_desc) ≡ false
    → has_next (vq.desc d) ≡ false
    → free_chain (suc fuel) d vq ≡ some (free_desc vq d)
unfolding free_chain
free_chain_last fuel d vq there last = rw (free_chain, there, last) refl

free_chain_more :
    (fuel d e : ℕ) (vq : Virtqueue)
    → (d == no_desc) ≡ false
    → has_next (vq.desc d) ≡ true
    → (vq.desc d).next ≡ e
    → free_chain (suc fuel) d vq ≡ free_chain fuel e (free_desc vq d)
unfolding free_chain
free_chain_more fuel d e vq there more next = rw (free_chain, there, more, next) refl

-- For a linked chain of distinct descriptors of the table that are not free, the loop ends within any
-- fuel from the chain's length on: all of them are free, and no other descriptor is changed.
pub free_chain-IsFree :
    (d : ℕ) (xs : List ℕ) (fuel : ℕ) (vq : Virtqueue) (free : List ℕ)
    → IsFree vq free
    → Linked vq.desc d xs
    → Distinct (d ∷ xs)
    → ((c : ℕ) → has c (d ∷ xs) ≡ true → (has c free ≡ false) × (c < vq.queue_size))
    → length (d ∷ xs) + length free < 2 ^ 16
    → vq.queue_size < 2 ^ 16
    → length (d ∷ xs) ≤ fuel
    → (v : Virtqueue) × (free_chain fuel d vq ≡ some v)
      × IsFree v (freed (d ∷ xs) free)
      × Kept vq v (d ∷ xs)
free_chain-IsFree d xs zero vq free f l u apart small size enough = absurd (omega arith)
free_chain-IsFree d [] (suc fuel) vq free f l u apart small size enough =
    let (out, within) = apart d (ground (arith, ==_refl d)) in
    let there : (d == no_desc) ≡ false = ground arith in
    (
      free_desc vq d,
      free_chain_last fuel d vq there l,
      free_desc-IsFree vq free d f within out (omega arith),
      give_back-Kept vq d,
    )
free_chain-IsFree d (e ∷ xs) (suc fuel) vq free f (more, same, l) u apart small size enough =
    let (out, within) = apart d (ground (arith, ==_refl d)) in
    let there : (d == no_desc) ≡ false = ground arith in
    let one = give_back-Kept vq d in
    let (v, eq, f', kept) =
      free_chain-IsFree e xs fuel (free_desc vq d) (d ∷ free)
        (free_desc-IsFree vq free d f within out (omega arith)) (free_desc-Linked vq d e xs u.0 l)
        u.1
        (λ c i. (
          ground (arith, (apart c (ground arith)).0, has_other d c (e ∷ xs) u.0 i),
          rw one.queue_size (apart c (ground arith)).1,
        ))
        (omega arith) (rw one.queue_size size) (omega arith) in
    (
      v,
      free_chain_more fuel d e vq there more same ∙ eq,
      f',
      Kept-trans vq (free_desc vq d) v d (e ∷ xs) one kept,
    )
