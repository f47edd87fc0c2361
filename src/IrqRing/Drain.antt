-- ===== src/IrqRing/Drain.antt =====
-- `platform_tick` of platform/shared/platform_virtio.c: the tick takes what the ring held when it
-- began, and runs the interrupt handler of each device.
use picokernel.Prelude.{
  ℕ, zero, suc, ◌%◌, ◌^◌, ◌≤◌, ◌<◌, ◌≡◌, refl, ◌≢◌, ap, ap₂, ◌∙◌, inl, inr, Option, none, some,
  List, [], ◌∷◌, arith, ◌==◌, ltb, leb, if◌then◌else◌, update, All, Bool-cases, ne→==, max,
}
use picokernel.IrqRing.{Ring, ring_size, add32, sub32, enqueue, snapshot, dequeue_bounded}
use picokernel.IrqRing.Queue.{capacity}
use picokernel.IrqRing.Refine.{IsValid, count, window, contents, index_ne}

-- `r'` holds at least what `r` holds, in the same place: what a handler may do to the ring.
pub record Grows (r r' : Ring) : Type 0 where
  pub valid : IsValid r'
  pub read_same : r'.read_pos ≡ r.read_pos
  pub longer : count r ≤ count r'
  pub prefix : (n : ℕ) → n ≤ count r → window r'.items r'.read_pos n ≡ window r.items r.read_pos n

-- A write at the position `c` entries on leaves the entries before it.
window-update_other :
    (items : ℕ → ℕ) (device n c pos w : ℕ)
    → n ≤ c
    → c ≤ capacity
    → w ≡ add32 pos c
    → window (update items (w % ring_size) device) pos n ≡ window items pos n
window-update_other items device zero c pos w h p e = refl
window-update_other items device (suc n) zero pos w h p e = absurd (omega arith)
window-update_other items device (suc n) (suc c) pos w h p e =
    ap₂ ◌∷◌ (rw (index_ne pos c w (omega arith) e)) (
      window-update_other items device n c (add32 pos 1) w (omega arith) (omega arith)
        (omega arith))

-- Enqueueing is one of the things that a handler may do.
pub enqueue-Grows : {r : Ring} (device : ℕ) → IsValid r → Grows r (enqueue r device).1
unfolding enqueue
enqueue-Grows {r} device v =
    elim (Bool-cases (leb ring_size (sub32 (add32 r.write_pos 1) r.read_pos))) [
      | inl full ↦ rw full (record {
        valid = omega arith;
        read_same = refl;
        longer = omega arith;
        prefix = λ n h. refl;
      })
      | inr room ↦ rw room (record {
        valid = ground arith;
        read_same = refl;
        longer = ground arith;
        prefix = λ n h.
            window-update_other r.items device n (count r) r.read_pos r.write_pos h (omega arith)
              (ground arith);
      })
    ]

-- The ring with its oldest entry taken.
abbrev pub skip : Ring → Ring
skip r = record r { read_pos = add32 r.read_pos 1 }

dequeue_bounded-end :
    (r : Ring) (end_pos : ℕ) → r.read_pos ≡ end_pos → dequeue_bounded r end_pos ≡ (0, r)
unfolding dequeue_bounded
dequeue_bounded-end r end_pos e = ground arith

dequeue_bounded-take :
    {r : Ring} (end_pos : ℕ)
    → IsValid r
    → r.read_pos ≢ end_pos
    → 0 < count r
    → dequeue_bounded r end_pos ≡ (r.items (r.read_pos % ring_size), skip r)
unfolding dequeue_bounded
dequeue_bounded-take end_pos v ne h = ground arith

-- The platform's fields that the tick uses; `S` is all else that handlers change.
pub record Platform (S : Type 0) : Type 0 where
  pub irq_ring : Ring
  pub last_overflow_count : ℕ
  pub rest : S

-- `process_irq` is the handler that a device's header points to, by the device's address.
module _ {S : Type 0} (process_irq : ℕ → Ring × S → Ring × S) where
  -- The `while` loop; `none` means that the fuel ran out. `i` rounds have to be left.
  pub drain : ℕ → ℕ → Ring × S → Option (Ring × S)
  drain zero end_pos (ring, s) = none
  drain (suc fuel) end_pos (ring, s) =
      let (dev, ring') = dequeue_bounded ring end_pos in
      let more = drain fuel end_pos (process_irq dev (ring', s)) in
      if dev == 0 then some (ring', s) else more

  -- The loop has 256 rounds, one more than a valid ring holds entries.
  pub tick : Platform S → Option (Platform S)
  unfolding drain
  tick p =
      let current_overflow = p.irq_ring.overflow_count in
      let last =
        if ltb p.last_overflow_count current_overflow
        then current_overflow
        else p.last_overflow_count in
      elim (drain ring_size (snapshot p.irq_ring) (p.irq_ring, p.rest)) [
        | none ↦ none
        | some (ring, s) ↦ some (record { irq_ring = ring; last_overflow_count = last; rest = s })
      ]

  -- Each device of the list is taken off the ring and handled, in order.
  unfoldable pub handle_all : List ℕ → Ring × S → Ring × S
  handle_all [] w = w
  handle_all (dev ∷ devs) (ring, s) = handle_all devs (process_irq dev (skip ring, s))

  module _
      (keeps : (dev : ℕ) (r : Ring) (s : S) → IsValid r → Grows r (process_irq dev (r, s)).0) where
    drain-handle_all :
        (n fuel end_pos : ℕ) (r : Ring) (s : S)
        → IsValid r
        → end_pos < 2 ^ 32
        → sub32 end_pos r.read_pos ≡ n
        → n ≤ count r
        → n < fuel
        → All (λ dev. dev ≢ 0) (window r.items r.read_pos n)
        → drain fuel end_pos (r, s) ≡ some (handle_all (window r.items r.read_pos n) (r, s))
    unfolding drain handle_all
    drain-handle_all n zero end_pos r s v b e le h nz = absurd (omega arith)
    drain-handle_all zero (suc fuel) end_pos r s v b e le h nz =
        rw (dequeue_bounded-end r end_pos (ground arith)) refl
    drain-handle_all (suc n) (suc fuel) end_pos r s v b e le h nz =
        let dev = r.items (r.read_pos % ring_size) in
        let grows = keeps dev (skip r) s (ground arith) in
        let w = process_irq dev (skip r, s) in
        let same : window w.0.items w.0.read_pos n ≡ window r.items (add32 r.read_pos 1) n =
          grows.prefix n (omega arith) in
        let left : sub32 end_pos w.0.read_pos ≡ n = rw grows.read_same (omega arith) in
        rw (dequeue_bounded-take end_pos v (ground arith) (ground arith), ne→== dev 0 nz.0)
          (drain-handle_all n fuel end_pos w.0 w.1 grows.valid b left (omega (arith, grows.longer))
              (omega arith) (rw same nz.1)
            ∙ ap (λ devs. some (handle_all devs w)) same)

    -- Where the ring is valid and holds no NULL, and handlers at most add to the ring, the tick's
    -- loop ends (within the 256 rounds of the model): it handles exactly the devices that the ring
    -- held when the tick began, each once and oldest first, whatever handlers enqueue meanwhile,
    -- and `last_overflow_count` becomes the larger of itself and the ring's count.
    pub platform_tick_lem :
        (p : Platform S)
        → IsValid p.irq_ring
        → All (λ dev. dev ≢ 0) (contents p.irq_ring).items
        → tick p
          ≡ some (
              let w = handle_all (contents p.irq_ring).items (p.irq_ring, p.rest) in
              record {
                irq_ring = w.0;
                last_overflow_count = max p.last_overflow_count p.irq_ring.overflow_count;
                rest = w.1;
              })
    unfolding tick snapshot
    platform_tick_lem p v nz =
        rw
          (
            drain-handle_all (count p.irq_ring) ring_size p.irq_ring.write_pos p.irq_ring p.rest v
                v.write_in refl (omega arith) (omega (arith, v.fits)) nz,
            tick,
          )
          (ground arith)
