-- ===== src/IrqRing/Refine.antt =====
-- A valid ring holds a queue, and the calls of irq_ring.c are the operations of that queue.
use picokernel.Prelude.{
  ℕ, zero, suc, ◌-◌, ◌%◌, ◌^◌, ◌≤◌, ◌<◌, ◌≡◌, refl, ap, ap₂, true, false, List, [], ◌∷◌, ◌++◌, inl,
  inr, arith, ◌==◌, leb, length, update, Bool-cases,
}
use picokernel.IrqRing.{Ring, ring_size, add32, sub32, init, enqueue, dequeue}
use picokernel.IrqRing.Queue
use picokernel.IrqRing.Queue.{Queue, capacity}

-- how many entries stand between the two positions
abbrev pub count : Ring → ℕ
count r = sub32 r.write_pos r.read_pos

pub record IsValid (r : Ring) : Type 0 where
  pub write_in : r.write_pos < 2 ^ 32
  pub read_in : r.read_pos < 2 ^ 32
  pub fits : count r ≤ capacity

-- the `n` entries from position `pos` on
abbrev pub window : (ℕ → ℕ) → ℕ → ℕ → List ℕ
window items pos zero = []
window items pos (suc n) = items (pos % ring_size) ∷ window items (add32 pos 1) n

abbrev pub contents : Ring → Queue
contents r = record { items = window r.items r.read_pos (count r); dropped = r.overflow_count }

length-window : (items : ℕ → ℕ) (pos n : ℕ) → length (window items pos n) ≡ n
length-window items pos zero = refl
length-window items pos (suc n) = ap suc (length-window items (add32 pos 1) n)

-- Fewer than 256 positions on, the array index is another one.
pub index_ne :
    (pos n w : ℕ) → n < 255 → w ≡ add32 pos (suc n) → (pos % ring_size == w % ring_size) ≡ false
index_ne pos n w h e = ground arith

window-update :
    (items : ℕ → ℕ) (device n pos w : ℕ)
    → n ≤ capacity
    → pos < 2 ^ 32
    → w ≡ add32 pos n
    → window (update items (w % ring_size) device) pos (suc n) ≡ window items pos n ++ (device ∷ [])
window-update items device zero pos w h p e = ground arith
window-update items device (suc n) pos w h p e =
    ap₂ ◌∷◌ (rw (index_ne pos n w (omega arith) e))
      (window-update items device n (add32 pos 1) w (omega arith) (omega arith) (omega arith))

-- `window` matches on `suc`, the code tests the positions.
window_of_pos :
    (items : ℕ → ℕ) (pos n : ℕ)
    → 0 < n
    → window items pos n ≡ items (pos % ring_size) ∷ window items (add32 pos 1) (n - 1)
window_of_pos items pos zero h = absurd (omega arith)
window_of_pos items pos (suc n) h = ap (λ k. window items pos (suc k)) (omega arith)

window_of_zero : (items : ℕ → ℕ) (pos n : ℕ) → n ≡ 0 → window items pos n ≡ []
window_of_zero items pos n e = rw e

-- Positions are equal exactly where nothing is held.
count_zero_iff : {r : Ring} → IsValid r → ((r.read_pos == r.write_pos) ≡ (count r == 0))
count_zero_iff {r} v = ground arith

-- `kirq_ring_init` makes a valid ring that holds nothing and has dropped nothing, whatever the
-- memory held.
init_lem : (r : Ring) → IsValid (init r) × (contents (init r) ≡ record { items = []; dropped = 0 })
unfolding init
init_lem r = (omega arith, refl)

full_count :
    {r : Ring}
    → IsValid r
    → leb ring_size (sub32 (add32 r.write_pos 1) r.read_pos) ≡ true
    → count r ≡ capacity
full_count v e = ground arith

room_count :
    {r : Ring}
    → IsValid r
    → leb ring_size (sub32 (add32 r.write_pos 1) r.read_pos) ≡ false
    → (count r < capacity) × (sub32 (add32 r.write_pos 1) r.read_pos ≡ suc (count r))
room_count v e = ground arith

-- On a valid ring, `kirq_ring_enqueue` answers and acts as `push` on the queue that the ring holds
-- (it appends the device below 255 entries, and otherwise refuses it and counts it as dropped), and
-- the ring stays valid.
pub enqueue_refines :
    {r : Ring} (device : ℕ)
    → IsValid r
    → let (done, r') = enqueue r device in
      IsValid r' × ((done, contents r') ≡ Queue.push (contents r) device)
unfolding enqueue Queue.push
enqueue_refines {r} device v =
    let next = add32 r.write_pos 1 in
    elim (Bool-cases (leb ring_size (sub32 next r.read_pos))) [
      | inl full ↦ rw full (omega arith, rw (length-window, full_count v full) refl)
      | inr room ↦ rw room (
        ground arith,
        ground (
          arith,
          length-window r.items r.read_pos (count r),
          room_count v room,
          window-update r.items device (count r) r.read_pos r.write_pos,
        ),
      )
    ]

-- On a valid ring, `kirq_ring_dequeue` returns the oldest entry and removes it, returns NULL and
-- changes nothing if the ring is empty, and leaves a valid ring that has dropped as many.
pub dequeue_refines :
    {r : Ring}
    → IsValid r
    → let (device, r') = dequeue r in
      IsValid r'
      × ((device, (contents r').items) ≡ Queue.pop (contents r).items)
      × (r'.overflow_count ≡ r.overflow_count)
unfolding dequeue Queue.pop
dequeue_refines {r} v = elim (Bool-cases (r.read_pos == r.write_pos)) [
  | inl empty ↦
      rw empty (v, rw (window_of_zero r.items r.read_pos (count r) (ground arith)) refl, refl)
  | inr more ↦
      rw more (ground arith, ground (arith, window_of_pos r.items r.read_pos (count r)), refl)
]
