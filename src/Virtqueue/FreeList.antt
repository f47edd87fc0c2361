-- ===== src/Virtqueue/FreeList.antt =====
-- The free list of a virtqueue's descriptors (driver/virtio/virtio.c).
use picokernel.Prelude.{
  ℕ, zero, suc, ◌+◌, ◌-◌, ◌%◌, ◌^◌, ◌≤◌, ◌<◌, ◌≡◌, refl, sym, ap, ◌∙◌, true, false, ◌&&◌, List, [],
  ◌∷◌, arith, ◌==◌, ltb, leb, if◌then◌else◌, update, length, has, Distinct, ==_refl,
}
use picokernel.Virtqueue.{
  Desc, Virtqueue, no_desc, add16, sub16, link_descs, init, alloc_desc, add_desc, free_desc,
}

-- From `head` on, the descriptors `xs` of the table are linked, up to VIRTQUEUE_NO_DESC.
abbrev pub Free : (ℕ → Desc) → ℕ → List ℕ → ℕ → Type 0
Free desc size [] head = head ≡ no_desc
Free desc size (x ∷ xs) head = (head ≡ x) × (x < size) × Free desc size xs (desc x).next

-- The free descriptors of a queue are `xs`.
pub record IsFree (vq : Virtqueue) (xs : List ℕ) : Type 0 where
  pub chain : Free vq.desc vq.queue_size xs vq.free_head
  pub distinct : Distinct xs
  pub count : vq.num_free ≡ length xs
  pub fits : length xs < 2 ^ 16

-- A write to a descriptor that is not on the list keeps the list.
Free-update :
    (desc : ℕ → Desc) (size d : ℕ) (e : Desc) (xs : List ℕ) (head : ℕ)
    → has d xs ≡ false
    → Free desc size xs head
    → Free (update desc d e) size xs head
Free-update desc size d e [] head out f = f
Free-update desc size d e (x ∷ xs) head out (same, lt, f) =
    let other : (x == d) ≡ false = ground arith in
    (same, lt, rw other (Free-update desc size d e xs (desc x).next (ground arith) f))

pub IsFree-update :
    (vq : Virtqueue) (xs : List ℕ) (d : ℕ) (e : Desc)
    → has d xs ≡ false
    → IsFree vq xs
    → IsFree (record vq { desc = update vq.desc d e }) xs
IsFree-update vq xs d e out f = record {
  chain = Free-update vq.desc vq.queue_size d e xs vq.free_head out f.chain;
  distinct = f.distinct;
  count = f.count;
  fits = f.fits;
}

pub Free-within :
    (desc : ℕ → Desc) (size d : ℕ) (xs : List ℕ) (head : ℕ)
    → Free desc size xs head
    → has d xs ≡ true
    → d < size
Free-within desc size d [] head f i = absurd (ground arith)
Free-within desc size d (x ∷ xs) head (same, lt, f) i =
    ground (arith, Free-within desc size d xs (desc x).next f)

-- The numbers from `i` on.
abbrev pub range : ℕ → ℕ → List ℕ
range zero i = []
range (suc n) i = i ∷ range n (i + 1)

pub length-range : (n i : ℕ) → length (range n i) ≡ n
length-range zero i = refl
length-range (suc n) i = ap suc (length-range n (i + 1))

has-range : (n i j : ℕ) → j < i → has j (range n i) ≡ false
has-range zero i j lt = refl
has-range (suc n) i j lt = ground (arith, has-range n (i + 1) j (omega arith))

range-Distinct : (n i : ℕ) → Distinct (range n i)
range-Distinct zero i = tt
range-Distinct (suc n) i = (has-range n (i + 1) i (omega arith), range-Distinct n (i + 1))

range-Free :
    (desc : ℕ → Desc) (size n i : ℕ)
    → ((j : ℕ)
        → i ≤ j
        → j < i + suc n
        → (desc j).next ≡ (if j + 1 == i + suc n then no_desc else j + 1))
    → i + suc n ≤ size
    → Free desc size (range (suc n) i) i
range-Free desc size zero i next fits =
    (refl, omega arith, next i (omega arith) (omega arith) ∙ ground arith)
range-Free desc size (suc n) i next fits =
    let rest =
      range-Free desc size n (i + 1) (λ j lo hi. next j (omega arith) (omega arith) ∙ ground arith)
        (omega arith) in
    let link : (desc i).next ≡ i + 1 = next i (omega arith) (omega arith) ∙ ground arith in
    (refl, omega arith, rw link rest)

-- The loop links each of its descriptors to the next one.
link_descs-next :
    (rounds i : ℕ) (desc : ℕ → Desc) (j : ℕ)
    → i + rounds < 2 ^ 16
    → (link_descs rounds i desc j).next
      ≡ (if leb i j && ltb j (i + rounds) then j + 1 else (desc j).next)
unfolding link_descs
link_descs-next zero i desc j small = ground arith
link_descs-next (suc rounds) i desc j small =
    let one : add16 i 1 ≡ i + 1 = omega arith in
    rw (link_descs, one)
      (link_descs-next rounds (i + 1) (update desc i (record (desc i) { next = i + 1; flags = 0 }))
          j (omega arith)
        ∙ ground arith)

-- After `virtqueue_init` with 1 to 65535 entries all of them are free, in order, whatever the queue
-- and its memory held.
pub init-IsFree :
    (vq : Virtqueue) (n base : ℕ) → 0 < n → n < 2 ^ 16 → IsFree (init vq n base) (range n 0)
unfolding init
init-IsFree vq zero base pos small = absurd (omega arith)
init-IsFree vq (suc n) base pos small =
    let rounds : suc n - 1 ≡ n = omega arith in
    let end : (suc n + 2 ^ 64 - 1) % 2 ^ 64 ≡ n = omega arith in
    record {
      chain =
          range-Free (init vq (suc n) base).desc (suc n) n 0
            (λ j lo hi.
              rw (end, rounds) (ground (arith, link_descs-next n 0 vq.desc j (omega arith))))
            (omega arith);
      distinct = range-Distinct (suc n) 0;
      count = sym (length-range (suc n) 0);
      fits = rw (length-range (suc n) 0) small;
    }

-- What `virtqueue_alloc_desc` does to the free descriptors.
abbrev pub Allocated : Virtqueue → List ℕ → Type 0
Allocated vq [] = alloc_desc vq ≡ (no_desc, vq)
Allocated vq (d ∷ xs) =
    ((alloc_desc vq).0 ≡ d) × (d < vq.queue_size) × IsFree ((alloc_desc vq).1) xs

-- Of a queue with the free descriptors `xs`, `virtqueue_alloc_desc` returns the first, which is in the
-- table, and leaves the others free, or returns VIRTQUEUE_NO_DESC and the queue as it is where there
-- is none.
pub alloc_desc-Allocated : (vq : Virtqueue) (xs : List ℕ) → IsFree vq xs → Allocated vq xs
unfolding alloc_desc
alloc_desc-Allocated vq [] f = rw f.count refl
alloc_desc-Allocated vq (d ∷ xs) f =
    let (same, lt, rest) = f.chain in
    let some_free : (vq.num_free == 0) ≡ false = ground (arith, f.count) in
    let left : sub16 vq.num_free 1 ≡ length xs = omega (arith, f.count, f.fits) in
    rw some_free (
      same,
      lt,
      record {
        chain = rw same rest;
        distinct = f.distinct.1;
        count = left;
        fits = omega (arith, f.fits);
      },
    )

-- A descriptor of the table that is not free is the first free one after `virtqueue_free_desc`, before
-- those that were free (at most 65534).
pub free_desc-IsFree :
    (vq : Virtqueue) (xs : List ℕ) (d : ℕ)
    → IsFree vq xs
    → d < vq.queue_size
    → has d xs ≡ false
    → length xs + 1 < 2 ^ 16
    → IsFree (free_desc vq d) (d ∷ xs)
unfolding free_desc
free_desc-IsFree vq xs d f lt out small = record {
  chain = (
    refl,
    lt,
    rw (==_refl d) (Free-update vq.desc vq.queue_size d _ xs vq.free_head out f.chain),
  );
  distinct = (out, f.distinct);
  count = ground (arith, f.count);
  fits = omega arith;
}

-- `virtqueue_add_desc` on a descriptor that is not free leaves the free list as it is.
pub add_desc-IsFree :
    (vq : Virtqueue) (xs : List ℕ) (d addr len flags : ℕ)
    → IsFree vq xs
    → has d xs ≡ false
    → IsFree (add_desc vq d addr len flags) xs
unfolding add_desc
add_desc-IsFree vq xs d addr len flags f out = record {
  chain = Free-update vq.desc vq.queue_size d _ xs vq.free_head out f.chain;
  distinct = f.distinct;
  count = f.count;
  fits = f.fits;
}
