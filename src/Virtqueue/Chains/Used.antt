-- ===== src/Virtqueue/Chains/Used.antt =====
-- The used ring of a queue whose requests have chains of descriptors, as the drivers' interrupt
-- handlers read it (driver/virtio/virtio_blk.c, driver/virtio/virtio_net.c).
use picokernel.Prelude.{
  ℕ, ◌%◌, ◌^◌, ◌≡◌, refl, true, false, List, [], ◌∷◌, arith, ◌==◌, has, Bool-cases, inl, inr,
}
use picokernel.State.{Ptr}
use picokernel.Virtqueue.{UsedElem, Virtqueue, add16, get_used}
use picokernel.Virtqueue.Sets.{freed, has_other}
use picokernel.Virtqueue.Chains.{Taken, heads, rest_at, without_head}
use picokernel.Virtqueue.Chains.Removal.{has-heads-without_head}
use picokernel.Virtqueue.Chains.Slots.{Slots, GivenBack}

-- The used ring holds the descriptors `ds`, each the first one of a chain that is out.
abbrev pub Pending : (ℕ → UsedElem) → (size used_idx last : ℕ) → List ℕ → List Taken → Type 0
Pending ring size used_idx last [] out = last ≡ used_idx
Pending ring size used_idx last (d ∷ ds) out =
    ((last == used_idx) ≡ false)
    × ((ring (last % size)).id % 2 ^ 16 ≡ d)
    × (has d (heads out) ≡ true)
    × Pending ring size used_idx (add16 last 1) ds (without_head d out)

abbrev pub UsedBy : Virtqueue → List ℕ → List Taken → Type 0
UsedBy vq ds out = Pending vq.used_ring vq.queue_size vq.used_idx vq.last_used_idx ds out

-- The descriptors that are free and the chains that are out once those of `ds` were given back.
abbrev pub free_after : List ℕ → List Taken → List ℕ → List ℕ
free_after [] out free = free
free_after (d ∷ ds) out free = free_after ds (without_head d out) (freed (d ∷ rest_at d out) free)

abbrev pub out_after : List ℕ → List Taken → List Taken
out_after [] out = out
out_after (d ∷ ds) out = out_after ds (without_head d out)

heads-without_head_absent :
    (c d : ℕ) (out : List Taken)
    → has c (heads out) ≡ false
    → has c (heads (without_head d out)) ≡ false
heads-without_head_absent c d [] absent = refl
heads-without_head_absent c d (x ∷ out) absent = elim (Bool-cases (x.head == d)) [
  | inl same ↦ rw same (ground arith)
  | inr other ↦ rw other (ground (arith, heads-without_head_absent c d out))
]

-- A chain that is not out is not given back.
Pending-absent :
    (ring : ℕ → UsedElem) (size used_idx last : ℕ) (c : ℕ) (ds : List ℕ) (out : List Taken)
    → has c (heads out) ≡ false
    → Pending ring size used_idx last ds out
    → has c ds ≡ false
Pending-absent ring size used_idx last c [] out absent p = refl
Pending-absent ring size used_idx last c (d ∷ ds) out absent (_, _, i, p) =
    let rest =
      Pending-absent ring size used_idx (add16 last 1) c ds (without_head d out)
        (heads-without_head_absent c d out absent) p in
    ground (arith, rest, has_other c d (heads out) absent i)

-- The chain that is given back first is given back once.
pub UsedBy-absent :
    (vq : Virtqueue) (active : ℕ → Ptr) (n d : ℕ) (ds free : List ℕ) (out : List Taken)
    → Slots vq active n free out
    → UsedBy vq (d ∷ ds) out
    → has d ds ≡ false
UsedBy-absent vq active n d ds free out t (_, _, i, rest) =
    let gone = has-heads-without_head d d out t.distinct i in
    Pending-absent vq.used_ring vq.queue_size vq.used_idx (add16 vq.last_used_idx 1) d ds
      (without_head d out) (ground (arith, gone)) rest

pub UsedBy-release :
    (vq v : Virtqueue) (d : ℕ) (ds free : List ℕ) (out : List Taken)
    → GivenBack vq free out d v
    → UsedBy vq (d ∷ ds) out
    → UsedBy v ds (without_head d out)
unfolding get_used
UsedBy-release vq v d ds free out (f, kept) p =
    rw (kept.queue_size, kept.used_idx, kept.used_ring, kept.last_used_idx) p.3
