-- ===== src/IrqRing/Tests.antt =====
-- Runs of the ring at concrete inputs, and the theorems at inputs that meet their hypotheses.
use picokernel.Prelude.{ℕ, ◌+◌, ◌-◌, ◌^◌, ◌≡◌, refl, some, List, [], ◌∷◌, ◌++◌, arith, max}
use picokernel.IrqRing.{Ring, enqueue, dequeue}
use picokernel.IrqRing.Queue
use picokernel.IrqRing.Refine.{IsValid, contents, enqueue_refines, dequeue_refines}
use picokernel.IrqRing.Drain.{Platform, enqueue-Grows, tick, handle_all, platform_tick_lem}

-- Two entries either side of the wrap of the 32-bit positions.
abbrev wrapping : Ring
wrapping = record { items = λ i. i + 1; write_pos = 1; read_pos = 2 ^ 32 - 1; overflow_count = 7 }

wrapping-IsValid : IsValid wrapping
wrapping-IsValid = omega arith

contents-wrapping : contents wrapping ≡ record { items = 256 ∷ 1 ∷ []; dropped = 7 }
contents-wrapping = refl

enqueue_refines_example :
    let (done, r') = enqueue wrapping 42 in
    IsValid r' × ((done, contents r') ≡ Queue.push (contents wrapping) 42)
enqueue_refines_example = enqueue_refines 42 wrapping-IsValid

dequeue_refines_example :
    let (device, r') = dequeue wrapping in
    IsValid r'
    × ((device, (contents r').items) ≡ Queue.pop (contents wrapping).items)
    × (r'.overflow_count ≡ 7)
dequeue_refines_example = dequeue_refines wrapping-IsValid

-- A device that asks to be polled again, and whose handler records its run.
abbrev poll : ℕ → Ring × List ℕ → Ring × List ℕ
poll dev (r, ran) = ((enqueue r dev).1, ran ++ (dev ∷ []))

abbrev platform : Platform (List ℕ)
platform = record { irq_ring = wrapping; last_overflow_count = 3; rest = [] }

tick_polls : (handle_all poll (256 ∷ 1 ∷ []) (wrapping, [])).1 ≡ 256 ∷ 1 ∷ []
unfolding handle_all enqueue
tick_polls = refl

platform_tick_lem_example :
    tick poll platform
    ≡ some (
        let w = handle_all poll (256 ∷ 1 ∷ []) (wrapping, []) in
        record { irq_ring = w.0; last_overflow_count = max 3 7; rest = w.1 })
platform_tick_lem_example =
    platform_tick_lem poll (λ dev r s v. enqueue-Grows dev v) platform wrapping-IsValid
      (omega arith)
