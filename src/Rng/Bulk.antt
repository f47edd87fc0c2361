-- ===== src/Rng/Bulk.antt =====
-- The loop of `virtio_rng_submit_work` (driver/virtio/virtio_rng.c) over a list of work items.
use picokernel.Prelude.{
  ℕ, zero, suc, ◌+◌, ◌≤◌, ◌<◌, ◌≡◌, ◌≢◌, refl, sym, ap, ap₂, subst, ◌∙◌, ◌%◌, ◌^◌, Bool-cases, inl,
  inr, ==_iff, ==_refl, true, false, List, [], ◌∷◌, arith, ◌==◌, ltb, if◌then◌else◌, length, has,
  Distinct, ne→==, some, All,
}
use picokernel.State.{Ptr, null, Kerr, WorkState, op_rng_read, Request, work_at}
use picokernel.Kernel.Queues.{Chain, Chain-frame, complete_work_other, complete_work_done}
use picokernel.Virtqueue.{Virtqueue, alloc_desc, add_desc, add_avail}
use picokernel.Virtqueue.FreeList.{alloc_desc-Allocated}
use picokernel.IrqRing
use picokernel.IrqRing.{Ring}
use picokernel.Virtqueue.Sets.{has_other}
use picokernel.Rng.{World, submit_one, submit_loop, submit_work, Notify, kick}
use picokernel.Rng.Submit.{Tracked, submit_one-Submitted}

-- A request for random bytes.
abbrev pub IsRngRead : (Ptr → Request) → Ptr → Type 0
IsRngRead h a = (h a).work.op ≡ op_rng_read

All-frame :
    (h g : Ptr → Request) (xs : List Ptr)
    → ((a : Ptr) → has a xs ≡ true → g a ≡ h a)
    → All (IsRngRead h) xs
    → All (IsRngRead g) xs
All-frame h g [] same u = tt
All-frame h g (x ∷ xs) same u =
    (rw (same x (ground arith)) u.0, All-frame h g xs (λ a i. same a (ground arith)) u.1)

-- The free descriptors and those that are out after as many requests as `xs` were submitted, and the
-- number of those that found a descriptor.
abbrev pub left_free : List Ptr → List ℕ → List ℕ
left_free [] free = free
left_free (x ∷ xs) [] = []
left_free (x ∷ xs) (d ∷ free) = left_free xs free

abbrev pub now_out : List Ptr → List ℕ → List ℕ → List ℕ
now_out [] free out = out
now_out (x ∷ xs) [] out = out
now_out (x ∷ xs) (d ∷ free) out = now_out xs free (d ∷ out)

abbrev pub accepted : List Ptr → List ℕ → ℕ
accepted [] free = 0
accepted (x ∷ xs) [] = 0
accepted (x ∷ xs) (d ∷ free) = suc (accepted xs free)

left_free_none : (xs : List Ptr) → left_free xs [] ≡ []
left_free_none [] = refl
left_free_none (x ∷ xs) = refl

now_out_none : (xs : List Ptr) (out : List ℕ) → now_out xs [] out ≡ out
now_out_none [] out = refl
now_out_none (x ∷ xs) out = refl

accepted_none : (xs : List Ptr) → accepted xs [] ≡ 0
accepted_none [] = refl
accepted_none (x ∷ xs) = refl

module _ {D : Type 0} where
  submit_one_other :
      (w : World D) (n : ℕ) (a b : Ptr)
      → (b == a) ≡ false
      → ((submit_one a (w, n)).0).kernel.requests b ≡ w.kernel.requests b
  unfolding submit_one
  submit_one_other w n a b ne = ground (arith, complete_work_other w.kernel a b Kerr.busy ne)

  submit_one_size :
      (w : World D) (n : ℕ) (a : Ptr)
      → ((submit_one a (w, n)).0).rng.vq.queue_size ≡ w.rng.vq.queue_size
  unfolding submit_one alloc_desc add_desc add_avail
  submit_one_size w n a = ground arith

  -- The requests that wait behind the one at hand.
  pub record Waiting (w : World D) (xs : List Ptr) (head : Ptr) : Type 0 where
    pub chain : Chain w.kernel.requests xs head
    pub reads : All (IsRngRead w.kernel.requests) xs

  submit_one-Waiting :
      (w : World D) (n : ℕ) (x : Ptr) (xs : List Ptr) (head : Ptr)
      → has x xs ≡ false
      → Waiting w xs head
      → Waiting ((submit_one x (w, n)).0) xs head
  submit_one-Waiting w n x xs head new u =
      let same =
        λ (a : Ptr) (i : has a xs ≡ true). submit_one_other w n x a (has_other x a xs new i) in
      record {
        chain =
            Chain-frame w.kernel.requests ((submit_one x (w, n)).0).kernel.requests xs head
              (λ a i. ap (λ r. r.work.next) (same a i)) u.chain;
        reads =
            All-frame w.kernel.requests ((submit_one x (w, n)).0).kernel.requests xs same u.reads;
      }

  -- What a step leaves alone: the requests but for the one at hand, the slots and descriptors but for
  -- the one that is taken, and everything outside of the driver's table.
  record Step (w : World D) (x : Ptr) (w' : World D) : Type 0 where
    pub requests : (b : Ptr) → (b == x) ≡ false → w'.kernel.requests b ≡ w.kernel.requests b
    pub indices : (b : Ptr) → (b == x) ≡ false → (w'.reqs b).desc_idx ≡ (w.reqs b).desc_idx
    pub buffers : (b : Ptr) → (w'.reqs b).buffer ≡ (w.reqs b).buffer
    pub lengths : (b : Ptr) → (w'.reqs b).length ≡ (w.reqs b).length
    pub slots :
        (c : ℕ)
        → (c == (alloc_desc w.rng.vq).0) ≡ false
        → w'.rng.active_requests c ≡ w.rng.active_requests c
    pub descs :
        (c : ℕ) → (c == (alloc_desc w.rng.vq).0) ≡ false → w'.rng.vq.desc c ≡ w.rng.vq.desc c
    pub device : w'.device ≡ w.device
    pub irq_ring : w'.irq_ring ≡ w.irq_ring
    pub self : w'.rng.self ≡ w.rng.self
    pub transport : w'.rng.transport_type ≡ w.rng.transport_type

  submit_one_buffer :
      (w : World D) (n : ℕ) (x b : Ptr)
      → ((submit_one x (w, n)).0.reqs b).buffer ≡ (w.reqs b).buffer
  unfolding submit_one
  submit_one_buffer w n x b = elim (Bool-cases (b == x)) [
    | inl it ↦
        subst (λ c. ((submit_one x (w, n)).0.reqs c).buffer ≡ (w.reqs c).buffer)
          (sym ((==_iff b x).0 it)) (ground (arith, ==_refl x))
    | inr other ↦ ground (arith, other)
  ]

  submit_one_length :
      (w : World D) (n : ℕ) (x b : Ptr)
      → ((submit_one x (w, n)).0.reqs b).length ≡ (w.reqs b).length
  unfolding submit_one
  submit_one_length w n x b = elim (Bool-cases (b == x)) [
    | inl it ↦
        subst (λ c. ((submit_one x (w, n)).0.reqs c).length ≡ (w.reqs c).length)
          (sym ((==_iff b x).0 it)) (ground (arith, ==_refl x))
    | inr other ↦ ground (arith, other)
  ]

  submit_one-Step : (w : World D) (n : ℕ) (x : Ptr) → Step w x (submit_one x (w, n)).0
  unfolding submit_one alloc_desc add_desc add_avail
  submit_one-Step w n x = record {
    requests = λ b ne. ground (arith, complete_work_other w.kernel x b Kerr.busy ne);
    indices = λ b ne. ground (arith, ne);
    buffers = λ b. submit_one_buffer w n x b;
    lengths = λ b. submit_one_length w n x b;
    slots = λ c ne. ground (arith, ne);
    descs = λ c ne. ground (arith, ne);
    device = ground arith;
    irq_ring = ground arith;
    self = ground arith;
    transport = ground arith;
  }

  -- What the loop over `xs` leaves alone.
  pub record Kept (w : World D) (xs : List Ptr) (free : List ℕ) (w' : World D) : Type 0 where
    pub requests : (b : Ptr) → has b xs ≡ false → w'.kernel.requests b ≡ w.kernel.requests b
    pub indices : (b : Ptr) → has b xs ≡ false → (w'.reqs b).desc_idx ≡ (w.reqs b).desc_idx
    pub buffers : (b : Ptr) → (w'.reqs b).buffer ≡ (w.reqs b).buffer
    pub lengths : (b : Ptr) → (w'.reqs b).length ≡ (w.reqs b).length
    pub slots : (c : ℕ) → has c free ≡ false → w'.rng.active_requests c ≡ w.rng.active_requests c
    pub descs : (c : ℕ) → has c free ≡ false → w'.rng.vq.desc c ≡ w.rng.vq.desc c
    pub device : w'.device ≡ w.device
    pub irq_ring : w'.irq_ring ≡ w.irq_ring
    pub self : w'.rng.self ≡ w.rng.self
    pub transport : w'.rng.transport_type ≡ w.rng.transport_type

  none-Kept : (w : World D) (free : List ℕ) → Kept w [] free w
  none-Kept w free = record {
    requests = λ b o. refl;
    indices = λ b o. refl;
    buffers = λ b. refl;
    lengths = λ b. refl;
    slots = λ c o. refl;
    descs = λ c o. refl;
    device = refl;
    irq_ring = refl;
    self = refl;
    transport = refl;
  }

  Kept-Step :
      (w w₁ w' : World D) (x : Ptr) (xs : List Ptr) (free left : List ℕ)
      → Step w x w₁
      → ((c : ℕ)
          → has c free ≡ false
          → (has c left ≡ false)
            × (w₁.rng.active_requests c ≡ w.rng.active_requests c)
            × (w₁.rng.vq.desc c ≡ w.rng.vq.desc c))
      → Kept w₁ xs left w'
      → Kept w (x ∷ xs) free w'
  Kept-Step w w₁ w' x xs free left s table k = record {
    requests = λ b o. k.requests b (ground arith) ∙ s.requests b (ground arith);
    indices = λ b o. k.indices b (ground arith) ∙ s.indices b (ground arith);
    buffers = λ b. k.buffers b ∙ s.buffers b;
    lengths = λ b. k.lengths b ∙ s.lengths b;
    slots = λ c o. k.slots c (table c o).0 ∙ (table c o).1;
    descs = λ c o. k.descs c (table c o).0 ∙ (table c o).2;
    device = k.device ∙ s.device;
    irq_ring = k.irq_ring ∙ s.irq_ring;
    self = k.self ∙ s.self;
    transport = k.transport ∙ s.transport;
  }

  -- The requests `xs` get the descriptors `free` in order: each is LIVE, its descriptor leads back
  -- to it and describes its buffer, which the device may write (flag 2); those that find none are
  -- completed with KERR_BUSY.
  abbrev pub Served : World D → List Ptr → List ℕ → Type 0
  Served w [] free = Unit
  Served w (x ∷ xs) [] =
      ((work_at w.kernel x).state ≡ WorkState.ready)
      × ((work_at w.kernel x).result ≡ Kerr.busy)
      × Served w xs []
  Served w (x ∷ xs) (d ∷ free) =
      ((work_at w.kernel x).state ≡ WorkState.live)
      × ((w.reqs x).desc_idx ≡ d)
      × (w.rng.active_requests d ≡ x)
      × (w.rng.vq.desc d ≡ record {
        addr = (w.reqs x).buffer;
        len = (w.reqs x).length % 2 ^ 32;
        flags = 2;
        next = 0xFFFF;
      })
      × Served w xs free

  submit_loop_end :
      (fuel : ℕ) (head : Ptr) (w : World D) (n : ℕ)
      → head ≡ null
      → submit_loop (suc fuel) head (w, n) ≡ some (w, n)
  unfolding submit_loop
  submit_loop_end fuel head w n e = rw e refl

  submit_loop_more :
      (fuel : ℕ) (head x : Ptr) (w : World D) (n : ℕ)
      → head ≡ x
      → x ≢ null
      → submit_loop (suc fuel) head (w, n)
        ≡ submit_loop fuel (work_at w.kernel x).next (submit_one x (w, n))
  unfolding submit_loop
  submit_loop_more fuel head x w n e ne = rw (e, ne→== x null ne) refl

  submit_loop-Tracked :
      (xs : List Ptr) (fuel : ℕ) (head : Ptr) (w : World D) (n : ℕ) (free out : List ℕ)
      → Tracked w.rng free out
      → w.rng.vq.queue_size ≤ 256
      → Waiting w xs head
      → Distinct xs
      → length xs < fuel
      → (w' : World D) × (submit_loop fuel head (w, n) ≡ some (w', n + accepted xs free))
        × Tracked w'.rng (left_free xs free) (now_out xs free out)
        × Kept w xs free w'
        × Served w' xs free
  submit_loop-Tracked xs zero head w n free out t small u d f = absurd (omega arith)
  submit_loop-Tracked [] (suc fuel) head w n free out t small u d f = (
    w,
    submit_loop_end fuel head w n u.chain ∙ ap (λ m. some (w, m)) (omega arith),
    t,
    none-Kept w free,
    tt,
  )
  submit_loop-Tracked (x ∷ xs) (suc fuel) head w n [] out t small u d f =
      let (same, count) = submit_one-Submitted w x n [] out t u.chain.1 small u.reads.0 in
      let step = submit_one x (w, n) in
      let (w', e, r, kept, served) =
        submit_loop-Tracked xs fuel (work_at w.kernel x).next step.0 step.1 [] out
          (subst (λ v. Tracked v.rng [] out) (sym same) t) (rw (submit_one_size w n x) small)
          (submit_one-Waiting w n x xs _ d.0 (record { chain = u.chain.2; reads = u.reads.1 })) d.1
          (omega arith) in
      (
        w',
        submit_loop_more fuel head x w n u.chain.0 u.chain.1
            ∙ e
            ∙ ap (λ m. some (w', m)) (omega (arith, count, accepted_none xs)),
        subst (λ o. Tracked w'.rng [] o) (now_out_none xs out)
            (subst (λ l. Tracked w'.rng l (now_out xs [] out)) (left_free_none xs) r),
        Kept-Step w step.0 w' x xs [] [] (submit_one-Step w n x)
            (λ c o. (refl, ap (λ v. v.rng.active_requests c) same, ap (λ v. v.rng.vq.desc c) same))
            kept,
        (let k = kept.requests x d.0 ∙ ap (λ v. v.kernel.requests x) same in
            let (state, result) = complete_work_done w.kernel x Kerr.busy u.chain.1 in
            (ap (λ q. q.work.state) k ∙ state, ap (λ q. q.work.result) k ∙ result, served)),
      )
  submit_loop-Tracked (x ∷ xs) (suc fuel) head w n (c ∷ free) out t small u d f =
      let (tracked, slot, desc, _, _, live, index, count) =
        submit_one-Submitted w x n (c ∷ free) out t u.chain.1 small u.reads.0 in
      let taken = (alloc_desc-Allocated w.rng.vq (c ∷ free) t.free_list).0 in
      let step = submit_one x (w, n) in
      let (w', e, r, kept, served) =
        submit_loop-Tracked xs fuel (work_at w.kernel x).next step.0 step.1 free (c ∷ out) tracked
          (rw (submit_one_size w n x) small)
          (submit_one-Waiting w n x xs _ d.0 (record { chain = u.chain.2; reads = u.reads.1 })) d.1
          (omega arith) in
      (
        w',
        submit_loop_more fuel head x w n u.chain.0 u.chain.1
            ∙ e
            ∙ ap (λ m. some (w', m)) (omega (arith, count)),
        r,
        Kept-Step w step.0 w' x xs (c ∷ free) free (submit_one-Step w n x)
            (λ b o.
              let other : (b == (alloc_desc w.rng.vq).0) ≡ false = rw taken (ground (arith, o)) in
              (
                ground (arith, o),
                (submit_one-Step w n x).slots b other,
                (submit_one-Step w n x).descs b other,
              ))
            kept,
        (
          ap (λ q. q.work.state) (kept.requests x d.0) ∙ live,
          kept.indices x d.0 ∙ index,
          kept.slots c t.free_list.distinct.0 ∙ slot,
          kept.descs c t.free_list.distinct.0
              ∙ desc
              ∙ ap₂ (λ a l. record { addr = a; len = l % 2 ^ 32; flags = 2; next = 0xFFFF })
                  (sym (kept.buffers x ∙ (submit_one-Step w n x).buffers x))
                  (sym (kept.lengths x ∙ (submit_one-Step w n x).lengths x)),
          served,
        ),
      )

  -- The device once the driver has notified it of the queue 0, by the transport.
  abbrev pub notified : Notify D → (transport : ℕ) → Virtqueue → D → D
  notified notify zero vq d = d
  notified notify (suc zero) vq d = notify.mmio 0 d
  notified notify (suc (suc zero)) vq d = notify.pci vq d
  notified notify (suc (suc (suc transport))) vq d = d

  -- What the driver did about the device, where `m` requests got a descriptor.
  pub record Told (notify : Notify D) (m : ℕ) (w w' : World D) : Type 0 where
    pub none_taken : m ≡ 0 → (w'.device ≡ w.device) × (w'.irq_ring ≡ w.irq_ring)
    pub device : 0 < m → w'.device ≡ notified notify w.rng.transport_type w'.rng.vq w.device
    pub irq_ring : 0 < m → w'.irq_ring ≡ (IrqRing.enqueue w.irq_ring w.rng.self).1

  -- What becomes of the requests `xs`, given the free descriptors `free`.
  pub record SubmittedAll (notify : Notify D) (w : World D) (xs : List Ptr) (free out : List ℕ)
      (w' : World D) : Type 0 where
    pub tracked : Tracked w'.rng (left_free xs free) (now_out xs free out)
    pub served : Served w' xs free
    pub buffers : (b : Ptr) → (w'.reqs b).buffer ≡ (w.reqs b).buffer
    pub lengths : (b : Ptr) → (w'.reqs b).length ≡ (w.reqs b).length
    pub others : (b : Ptr) → has b xs ≡ false → w'.kernel.requests b ≡ w.kernel.requests b
    pub told : Told notify (accepted xs free) w w'

  pub notified_by :
      (notify : Notify D) (transport : ℕ) (vq : Virtqueue) (d : D)
      → (if transport == 1 then notify.mmio 0 d else if transport == 2 then notify.pci vq d else d)
        ≡ notified notify transport vq d
  notified_by notify zero vq d = refl
  notified_by notify (suc zero) vq d = refl
  notified_by notify (suc (suc zero)) vq d = refl
  notified_by notify (suc (suc (suc transport))) vq d = ground arith

  kick-notified :
      (notify : Notify D) (w : World D)
      → kick notify w ≡ record w {
        device = notified notify w.rng.transport_type w.rng.vq w.device;
        irq_ring = (IrqRing.enqueue w.irq_ring w.rng.self).1;
      }
  unfolding kick
  kick-notified notify w =
      ap (λ d. record w { device = d; irq_ring = (IrqRing.enqueue w.irq_ring w.rng.self).1 })
        (notified_by notify w.rng.transport_type w.rng.vq w.device)

  Served-record :
      (w : World D) (d : D) (ring : Ring) (xs : List Ptr) (free : List ℕ)
      → Served w xs free
      → Served (record w { device = d; irq_ring = ring }) xs free
  Served-record w d ring [] free s = tt
  Served-record w d ring (x ∷ xs) [] (state, result, s) =
      (state, result, Served-record w d ring xs [] s)
  Served-record w d ring (x ∷ xs) (c ∷ free) (state, index, slot, desc, s) =
      (state, index, slot, desc, Served-record w d ring xs free s)

  submit_work_end :
      (notify : Notify D) (fuel : ℕ) (head : Ptr) (w w' : World D) (n : ℕ)
      → submit_loop fuel head (w, 0) ≡ some (w', n)
      → submit_work notify fuel head w ≡ some (if ltb 0 n then kick notify w' else w')
  unfolding submit_work
  submit_work_end notify fuel head w w' n e = rw (submit_work, e) refl

  loop-SubmittedAll :
      (notify : Notify D) (w w' : World D) (xs : List Ptr) (free out : List ℕ)
      → Tracked w'.rng (left_free xs free) (now_out xs free out)
      → Kept w xs free w'
      → Served w' xs free
      → SubmittedAll notify w xs free out (if ltb 0 (accepted xs free) then kick notify w' else w')
  loop-SubmittedAll notify w w' xs free out t k s = elim (Bool-cases (ltb 0 (accepted xs free))) [
    | inl some_taken ↦
        rw (some_taken, kick-notified notify w')
          (record {
            tracked = t;
            served =
                Served-record w' (notified notify w'.rng.transport_type w'.rng.vq w'.device)
                  ((IrqRing.enqueue w'.irq_ring w'.rng.self).1) xs free s;
            buffers = k.buffers;
            lengths = k.lengths;
            others = k.requests;
            told = record {
              none_taken = λ none. absurd (ground arith);
              device = λ m.
                  ap₂ (λ transport d. notified notify transport w'.rng.vq d) k.transport k.device;
              irq_ring = λ m. ap₂ (λ ring self. (IrqRing.enqueue ring self).1) k.irq_ring k.self;
            };
          })
    | inr none_taken ↦ rw none_taken (record {
      tracked = t;
      served = s;
      buffers = k.buffers;
      lengths = k.lengths;
      others = k.requests;
      told = record {
        none_taken = λ none. (k.device, k.irq_ring);
        device = λ m. absurd (ground arith);
        irq_ring = λ m. absurd (ground arith);
      };
    })
  ]

  -- For a list of distinct requests for random bytes and a queue of at most 256 entries that tracks
  -- its requests, `virtio_rng_submit_work` ends within any fuel above the list's length: the
  -- requests get the free descriptors in order, each is then LIVE, records its descriptor, is found
  -- in the descriptor's slot, and the descriptor describes its buffer, writable by the device;
  -- those that find none left are READY with KERR_BUSY; the queue still tracks its requests and the
  -- other requests are as they were. If one of them got a descriptor, the device is notified
  -- through the transport (MMIO of queue 0, PCI of the virtqueue) and put into the platform's ring;
  -- otherwise both are as before.
  pub submit_work-Tracked :
      (notify : Notify D) (xs : List Ptr) (fuel : ℕ) (head : Ptr) (w : World D) (free out : List ℕ)
      → Tracked w.rng free out
      → w.rng.vq.queue_size ≤ 256
      → Waiting w xs head
      → Distinct xs
      → length xs < fuel
      → (w' : World D) × (submit_work notify fuel head w ≡ some w')
        × SubmittedAll notify w xs free out w'
  submit_work-Tracked notify xs fuel head w free out t small u d f =
      let (w', e, r, k, s) = submit_loop-Tracked xs fuel head w 0 free out t small u d f in
      let zero_plus : 0 + accepted xs free ≡ accepted xs free = omega arith in
      (
        _,
        submit_work_end notify fuel head w w' (accepted xs free)
            (e ∙ ap (λ m. some (w', m)) zero_plus),
        loop-SubmittedAll notify w w' xs free out r k s,
      )
