-- ===== src/Rng/Complete.antt =====
-- What `virtio_rng_process_irq` (driver/virtio/virtio_rng.c) does with what the device gives back.
use picokernel.Prelude.{
  ℕ, zero, suc, ◌%◌, ◌^◌, ◌<◌, ◌≡◌, ◌≢◌, refl, ap₂, ◌∙◌, true, false, List, [], ◌∷◌, arith, ◌==◌,
  ltb, if◌then◌else◌, update, length, has, Bool-cases, inl, inr, ne→==, some,
}
use picokernel.State.{null, Kerr}
use picokernel.IrqRing
use picokernel.Kernel.{complete_work}
use picokernel.Virtqueue.{UsedElem, Virtqueue, sub16, add16, get_used, free_desc, has_used}
use picokernel.Virtqueue.FreeList.{free_desc-IsFree}
use picokernel.Virtqueue.Rings.{get_used_id, get_used-IsFree}
use picokernel.Virtqueue.Sets.{
  without, has-without, length-without, Distinct-without, freed, remaining,
}
use picokernel.Rng.{World, complete_one, complete_loop, process_irq}
use picokernel.Rng.Submit.{Tracked}

-- What giving back a descriptor leaves of the used ring: one entry less.
record Advanced (vq v : Virtqueue) : Type 0 where
  pub queue_size : v.queue_size ≡ vq.queue_size
  pub used_idx : v.used_idx ≡ vq.used_idx
  pub used_ring : v.used_ring ≡ vq.used_ring
  pub last_used_idx : v.last_used_idx ≡ add16 vq.last_used_idx 1

give_back-Advanced : (vq : Virtqueue) (d : ℕ) → Advanced vq (free_desc ((get_used vq).2) d)
unfolding get_used free_desc
give_back-Advanced vq d = record {
  queue_size = refl;
  used_idx = refl;
  used_ring = refl;
  last_used_idx = refl;
}

-- The used ring holds the descriptors `ds`, each that of a request which is out.
abbrev pub Pending : (ℕ → UsedElem) → (size used_idx last : ℕ) → (ds out : List ℕ) → Type 0
Pending ring size used_idx last [] out = last ≡ used_idx
Pending ring size used_idx last (d ∷ ds) out =
    ((last == used_idx) ≡ false)
    × ((ring (last % size)).id % 2 ^ 16 ≡ d)
    × (has d out ≡ true)
    × Pending ring size used_idx (add16 last 1) ds (without d out)

abbrev pub UsedBy : Virtqueue → List ℕ → List ℕ → Type 0
UsedBy vq ds out = Pending vq.used_ring vq.queue_size vq.used_idx vq.last_used_idx ds out

module _ {D : Type 0} where
  -- What the loop's body leaves, for the used entry `(d, len)` and the request `req` of its slot.
  abbrev completed : World D → ℕ → ℕ → World D
  completed w d len =
      let req = w.rng.active_requests d in
      record w {
        rng = record w.rng {
          vq = free_desc ((get_used w.rng.vq).2) d;
          active_requests = update w.rng.active_requests d null;
          outstanding_requests = sub16 w.rng.outstanding_requests 1;
        };
        reqs = update w.reqs req (record (w.reqs req) { completed = len });
        kernel = complete_work w.kernel req Kerr.ok;
      }

  complete_one-completed :
      (w : World D) (d : ℕ)
      → (get_used w.rng.vq).0 ≡ d
      → w.rng.active_requests d ≢ null
      → complete_one w ≡ completed w d ((get_used w.rng.vq).1)
  unfolding complete_one
  complete_one-completed w d e busy = rw (complete_one, e, ne→== _ null busy) refl

  completed-Tracked :
      (w : World D) (d len : ℕ) (free out : List ℕ)
      → Tracked w.rng free out
      → has d out ≡ true
      → Tracked ((completed w d len).rng) (d ∷ free) (without d out)
  unfolding get_used free_desc
  completed-Tracked w d len free out t e =
      let shorter = length-without d out t.distinct e in
      record {
        free_list =
            free_desc-IsFree ((get_used w.rng.vq).2) free d
              (get_used-IsFree w.rng.vq free t.free_list) (t.within d e) (t.apart d e)
              (omega (arith, t.fits, shorter));
        distinct = Distinct-without d out t.distinct;
        apart = λ c has_c. ground (arith, has-without c d out, t.apart c);
        within = λ c has_c. t.within c (ground (arith, has-without c d out));
        busy = λ c has_c.
            let apart : (c == d) ≡ false = ground (arith, has-without c d out) in
            rw apart (t.busy c (ground (arith, has-without c d out)));
        idle = λ c has_c. ground (arith, has-without c d out, t.idle c);
        count = omega (arith, t.count, shorter, t.fits);
        fits = omega (arith, t.fits, shorter);
      }

  -- The device, its queue emptied of used entries.
  record Drained (w w' : World D) (free out : List ℕ) : Type 0 where
    pub tracked : Tracked w'.rng free out
    pub all_used : has_used w'.rng.vq ≡ false
    pub same_ring : w'.irq_ring ≡ w.irq_ring
    pub same_self : w'.rng.self ≡ w.rng.self

  UsedBy-completed :
      (w : World D) (d len : ℕ) (ds out : List ℕ)
      → UsedBy w.rng.vq (d ∷ ds) out
      → UsedBy ((completed w d len).rng.vq) ds (without d out)
  unfolding get_used free_desc
  UsedBy-completed w d len ds out p = p.3

  complete_loop-Drained :
      (ds : List ℕ) (fuel : ℕ) (w : World D) (free out : List ℕ)
      → Tracked w.rng free out
      → UsedBy w.rng.vq ds out
      → length ds < fuel
      → (w' : World D) × (complete_loop fuel w ≡ some w')
        × Drained w w' (freed ds free) (remaining ds out)
  unfolding complete_loop has_used
  complete_loop-Drained ds zero w free out t p f = absurd (omega arith)
  complete_loop-Drained [] (suc fuel) w free out t p f = (
    w,
    ground arith,
    record { tracked = t; all_used = ground arith; same_ring = refl; same_self = refl },
  )
  complete_loop-Drained (d ∷ ds) (suc fuel) w free out t p f =
      let (more, id, out_d, rest) = p in
      let len = (get_used w.rng.vq).1 in
      let (w', e, r) =
        complete_loop-Drained ds fuel (completed w d len) (d ∷ free) (without d out)
          (completed-Tracked w d len free out t out_d) (UsedBy-completed w d len ds out p)
          (omega arith) in
      let one : complete_one w ≡ completed w d len =
        complete_one-completed w d (get_used_id w.rng.vq ∙ id) (t.busy d out_d) in
      (
        w',
        rw (more, one) e,
        record {
          tracked = r.tracked;
          all_used = r.all_used;
          same_ring = r.same_ring;
          same_self = r.same_self;
        },
      )

  -- Where the used ring holds the descriptors `ds`, each of a request that is out,
  -- `virtio_rng_process_irq` ends within any fuel above their number: all of them are free again, the
  -- others are out as before, the used ring is empty, and the device is put into the platform's ring
  -- exactly if requests are still out.
  pub process_irq_lem :
      (ds : List ℕ) (fuel : ℕ) (w : World D) (free out : List ℕ)
      → Tracked w.rng free out
      → UsedBy w.rng.vq ds out
      → length ds < fuel
      → (w' : World D) × (process_irq fuel w ≡ some w')
        × Tracked w'.rng (freed ds free) (remaining ds out)
        × (has_used w'.rng.vq ≡ false)
        × (w'.irq_ring ≡ (
            if length (remaining ds out) == 0
            then w.irq_ring
            else (IrqRing.enqueue w.irq_ring w.rng.self).1))
  unfolding process_irq
  process_irq_lem ds fuel w free out t p f =
      let (w', e, r) = complete_loop-Drained ds fuel w free out t p f in
      elim (Bool-cases (length (remaining ds out) == 0)) [
        | inl none_out ↦
            let idle : ltb 0 w'.rng.outstanding_requests ≡ false =
              ground (arith, r.tracked.count) in
            (w', rw (process_irq, e, idle) refl, r.tracked, r.all_used, rw none_out r.same_ring)
        | inr some_out ↦
            let active : ltb 0 w'.rng.outstanding_requests ≡ true =
              ground (arith, r.tracked.count) in
            (
              record w' { irq_ring = (IrqRing.enqueue w'.irq_ring w'.rng.self).1 },
              rw (process_irq, e, active) refl,
              r.tracked,
              r.all_used,
              rw some_out
                  (ap₂ (λ ring self. (IrqRing.enqueue ring self).1) r.same_ring r.same_self),
            )
      ]
