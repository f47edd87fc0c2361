-- ===== src/Virtqueue/Chains/Slots.antt =====
-- The state that a driver (driver/virtio/virtio_blk.c, driver/virtio/virtio_net.c) keeps of a
-- virtqueue on which every request has a chain of descriptors: the queue, the table of requests by
-- the first descriptor of their chain, and their number.
use picokernel.Prelude.{
  ℕ, ◌+◌, ◌%◌, ◌^◌, ◌≤◌, ◌<◌, ◌≡◌, ◌≢◌, refl, sym, ap, subst, ◌∙◌, true, false, List, ◌∷◌, ◌++◌,
  arith, ◌==◌, update, length, length-append, has, has-append, Distinct, ==_refl, some,
}
use picokernel.State.{Ptr, null}
use picokernel.Virtqueue.{Desc, Virtqueue, add16, sub16, alloc_desc, add_avail, free_desc, get_used}
use picokernel.Virtqueue.FreeList.{
  IsFree, IsFree-update, Free-within, alloc_desc-Allocated, free_desc-IsFree,
}
use picokernel.Virtqueue.Chains.{
  Taken, members, heads, all_of, rest_at, without_head, free_chain, Linked, AllLinked,
  AllLinked-update, AllLinked-frame, Distinct-left, Distinct-apart, Distinct-append, length_le,
}
use picokernel.Virtqueue.Chains.Removal.{
  has-without_head, has-rest_at, apart-rest_at, without_head-Distinct, rest_at-Distinct,
  length-without_head, length-all_of, rest_at-Linked, without_head-AllLinked,
  has-heads-without_head,
}
use picokernel.Virtqueue.Chains.Release.{Kept, free_chain-IsFree}
use picokernel.Virtqueue.Rings.{get_used-IsFree}
use picokernel.Virtqueue.Sets.{freed, has-freed, length-freed}

-- The descriptors of the queue: `free` are free, the chains `out` carry a request each, in the slot
-- of their first descriptor.
pub record Slots (vq : Virtqueue) (active : ℕ → Ptr) (outstanding : ℕ) (free : List ℕ)
    (out : List Taken) : Type 0 where
  pub free_list : IsFree vq free
  pub linked : AllLinked vq.desc out
  pub distinct : Distinct (all_of out)
  pub apart : (d : ℕ) → has d (all_of out) ≡ true → has d free ≡ false
  pub within : (d : ℕ) → has d (all_of out) ≡ true → d < vq.queue_size
  pub busy : (d : ℕ) → has d (heads out) ≡ true → active d ≢ null
  pub idle : (d : ℕ) → has d (heads out) ≡ false → active d ≡ null
  pub count : outstanding ≡ length out
  pub fits : length free + length (all_of out) < 2 ^ 16
  pub small : vq.queue_size < 2 ^ 16

-- A queue with its free descriptors and the chains that are out, between the steps of a submission.
pub record Queue (vq : Virtqueue) (size avail_idx : ℕ) (free : List ℕ) (out : List Taken)
    : Type 0 where
  pub free_list : IsFree vq free
  pub linked : AllLinked vq.desc out
  pub queue_size : vq.queue_size ≡ size
  pub avail : vq.avail_idx ≡ avail_idx

pub Queue-update :
    (vq : Virtqueue) (size i : ℕ) (free : List ℕ) (out : List Taken) (d : ℕ) (e : Desc)
    → has d free ≡ false
    → has d (all_of out) ≡ false
    → Queue vq size i free out
    → Queue (record vq { desc = update vq.desc d e }) size i free out
Queue-update vq size i free out d e not_free not_out q = record {
  free_list = IsFree-update vq free d e not_free q.free_list;
  linked = AllLinked-update vq.desc d e out not_out q.linked;
  queue_size = q.queue_size;
  avail = q.avail;
}

alloc_desc-same :
    (vq : Virtqueue)
    → let v = (alloc_desc vq).1 in
      (v.desc ≡ vq.desc) × (v.queue_size ≡ vq.queue_size) × (v.avail_idx ≡ vq.avail_idx)
unfolding alloc_desc
alloc_desc-same vq = (ground arith, ground arith, ground arith)

-- The first free descriptor is taken.
pub Queue-alloc :
    (vq : Virtqueue) (size i d : ℕ) (free : List ℕ) (out : List Taken)
    → Queue vq size i (d ∷ free) out
    → ((alloc_desc vq).0 ≡ d) × Queue ((alloc_desc vq).1) size i free out
Queue-alloc vq size i d free out q =
    let (same, _, left) = alloc_desc-Allocated vq (d ∷ free) q.free_list in
    let (desc, queue_size, avail) = alloc_desc-same vq in
    (
      same,
      record {
        free_list = left;
        linked = subst (λ t. AllLinked t out) (sym desc) q.linked;
        queue_size = queue_size ∙ q.queue_size;
        avail = avail ∙ q.avail;
      },
    )

pub Slots-Queue :
    (vq : Virtqueue) (active : ℕ → Ptr) (n : ℕ) (free : List ℕ) (out : List Taken)
    → Slots vq active n free out
    → Queue vq vq.queue_size vq.avail_idx free out
Slots-Queue vq active n free out t = record {
  free_list = t.free_list;
  linked = t.linked;
  queue_size = refl;
  avail = refl;
}

-- A free descriptor is no other free one, and in no chain.
pub taken_apart :
    (vq : Virtqueue) (active : ℕ → Ptr) (n : ℕ) (xs free : List ℕ) (out : List Taken)
    → Slots vq active n (xs ++ free) out
    → (c : ℕ) → has c xs ≡ true
    → (has c free ≡ false) × (has c (all_of out) ≡ false)
taken_apart vq active n xs free out t c i = (
  Distinct-apart c xs free t.free_list.distinct i,
  ground (arith, t.apart c, has-append c xs free),
)

pub add_avail-keeps :
    (vq : Virtqueue) (size i : ℕ) (free : List ℕ) (out : List Taken) (d : ℕ)
    → Queue vq size i free out
    → let v = add_avail vq d in
      IsFree v free
      × (v.desc ≡ vq.desc)
      × (v.queue_size ≡ size)
      × (v.avail_idx ≡ add16 i 1)
      × (v.avail_ring (i % size) ≡ d)
unfolding add_avail
add_avail-keeps vq size i free out d q = (
  record {
    chain = q.free_list.chain;
    distinct = q.free_list.distinct;
    count = q.free_list.count;
    fits = q.free_list.fits;
  },
  refl,
  q.queue_size,
  ap (λ a. add16 a 1) q.avail,
  rw (sym q.queue_size, sym q.avail, ==_refl (vq.avail_idx % vq.queue_size)) refl,
)

-- A descriptor that is taken back before the request goes out.
pub Queue-free :
    (vq : Virtqueue) (size i d : ℕ) (free : List ℕ) (out : List Taken)
    → Queue vq size i free out
    → d < size
    → has d free ≡ false
    → has d (all_of out) ≡ false
    → length free + 1 < 2 ^ 16
    → Queue (free_desc vq d) size i (d ∷ free) out
unfolding free_desc
Queue-free vq size i d free out q lt not_free not_out few = record {
  free_list = free_desc-IsFree vq free d q.free_list (rw q.queue_size lt) not_free few;
  linked = AllLinked-update vq.desc d _ out not_out q.linked;
  queue_size = q.queue_size;
  avail = q.avail;
}

-- A chain of descriptors that were free joins those that are out.
pub accept-Slots :
    (vq : Virtqueue) (active : ℕ → Ptr) (n : ℕ) (work : Ptr) (v : Virtqueue) (c : Taken)
    (free : List ℕ) (out : List Taken)
    → Slots vq active n (members c ++ free) out
    → work ≢ null
    → Queue v vq.queue_size vq.avail_idx free out
    → Linked v.desc c.head c.rest
    → Slots (add_avail v c.head) (update active c.head work) (add16 n 1) free (c ∷ out)
unfolding add_avail
accept-Slots vq active n work v c free out t there q l =
    let (f, desc, size, _, _) = add_avail-keeps v vq.queue_size vq.avail_idx free out c.head q in
    let all = t.free_list.distinct in
    let sum = length-append (members c) free in
    let sum' = length-append (members c) (all_of out) in
    record {
      free_list = f;
      linked = rw desc (l, q.linked);
      distinct =
          Distinct-append (members c) (all_of out) (Distinct-left (members c) free all) t.distinct
            λ a i. (taken_apart vq active n (members c) free out t a i).1;
      apart = λ a i. ground (
        arith,
        i,
        has-append a (members c) (all_of out),
        has-append a (members c) free,
        t.apart a,
        Distinct-apart a (members c) free all,
      );
      within = λ a i. rw size (
          ground (
            arith,
            i,
            has-append a (members c) (all_of out),
            has-append a (members c) free,
            t.within a,
            Free-within vq.desc vq.queue_size a (members c ++ free) vq.free_head t.free_list.chain,
          ));
      busy = λ a i. ground (arith, t.busy a, there);
      idle = λ a i. ground (arith, t.idle a);
      count = omega (arith, t.count, t.fits, sum, length_le out);
      fits = omega (arith, t.fits, sum, sum');
      small = rw size t.small;
    }

-- Descriptors that were taken and given back leave every chain as it is.
pub refuse-Slots :
    (vq : Virtqueue) (active : ℕ → Ptr) (n : ℕ) (v : Virtqueue) (free free' : List ℕ)
    (out : List Taken)
    → Slots vq active n free out
    → Queue v vq.queue_size vq.avail_idx free' out
    → ((a : ℕ) → has a free' ≡ has a free)
    → length free' ≡ length free
    → Slots v active n free' out
refuse-Slots vq active n v free free' out t q same len = record {
  free_list = q.free_list;
  linked = q.linked;
  distinct = t.distinct;
  apart = λ a i. same a ∙ t.apart a i;
  within = λ a i. rw q.queue_size (t.within a i);
  busy = t.busy;
  idle = t.idle;
  count = t.count;
  fits = rw len t.fits;
  small = rw q.queue_size t.small;
}

-- What is left of the queue `vq` after the chain of `d` was given back to it.
abbrev pub GivenBack : Virtqueue → (free : List ℕ) → (out : List Taken) → ℕ → Virtqueue → Type 0
GivenBack vq free out d v =
    let chain = d ∷ rest_at d out in IsFree v (freed chain free) × Kept ((get_used vq).2) v chain

pub free_chain-GivenBack :
    (vq : Virtqueue) (active : ℕ → Ptr) (n fuel d : ℕ) (free : List ℕ) (out : List Taken)
    → Slots vq active n free out
    → has d (heads out) ≡ true
    → length (all_of out) ≤ fuel
    → (v : Virtqueue) × (free_chain fuel d ((get_used vq).2) ≡ some v) × GivenBack vq free out d v
unfolding get_used
free_chain-GivenBack vq active n fuel d free out t i enough =
    let sum = length-all_of d out i in
    let (v, e, f, kept) =
      free_chain-IsFree d (rest_at d out) fuel ((get_used vq).2) free
        (get_used-IsFree vq free t.free_list) (rest_at-Linked vq.desc d out t.linked i)
        (rest_at-Distinct d out t.distinct i)
        (λ c j. (t.apart c (has-rest_at c d out i j), t.within c (has-rest_at c d out i j)))
        (omega (arith, t.fits, sum)) t.small (omega (arith, sum)) in
    (v, e, (f, kept))

-- The slot of a chain that is given back is emptied.
pub release-Slots :
    (vq : Virtqueue) (active : ℕ → Ptr) (n d : ℕ) (free : List ℕ) (out : List Taken) (v : Virtqueue)
    → Slots vq active n free out
    → has d (heads out) ≡ true
    → GivenBack vq free out d v
    → Slots v
        (update active d null)
        (sub16 n 1)
        (freed (d ∷ rest_at d out) free)
        (without_head d out)
unfolding get_used
release-Slots vq active n d free out v t i (f, kept) =
    let chain = d ∷ rest_at d out in
    let sum = length-all_of d out i in
    let fewer = length-without_head d out i in
    let out_of : (e : ℕ) → has e (all_of (without_head d out)) ≡ true → has e chain ≡ false =
      λ e j. ground (arith, apart-rest_at e d out t.distinct i) in
    record {
      free_list = f;
      linked =
          AllLinked-frame vq.desc v.desc (without_head d out) (λ e j. kept.others e (out_of e j))
            (without_head-AllLinked vq.desc d out t.linked);
      distinct = without_head-Distinct d out t.distinct;
      apart = λ e j.
          has-freed e chain free
          ∙ ground (arith, out_of e j, t.apart e (has-without_head e d out j));
      within = λ e j. rw kept.queue_size (t.within e (has-without_head e d out j));
      busy = λ e j.
          let both = has-heads-without_head e d out t.distinct i in
          let ne : (e == d) ≡ false = ground arith in rw ne (t.busy e (ground arith));
      idle = λ e j.
          let both = has-heads-without_head e d out t.distinct i in ground (arith, t.idle e, both);
      count = omega (arith, t.count, fewer, t.fits, length_le out);
      fits = omega (arith, t.fits, sum, length-freed chain free);
      small = rw kept.queue_size t.small;
    }
