-- ===== src/IrqRing/Queue.antt =====
-- What the interrupt ring promises: a first-in first-out queue of at most 255 device pointers that
-- counts what it drops (modulo 2 ^ 32).
use picokernel.Prelude.{
  ℕ, ◌+◌, ◌%◌, ◌^◌, Bool, true, false, List, [], ◌∷◌, ◌++◌, ltb, if◌then◌else◌, length,
}

-- One slot of the array stays empty, so that full and empty differ.
abbrev pub capacity : ℕ
capacity = 255

pub record Queue : Type 0 where
  pub items : List ℕ
  pub dropped : ℕ

unfoldable pub push : Queue → ℕ → Bool × Queue
push q device =
    if ltb (length q.items) capacity
    then (true, record q { items = q.items ++ (device ∷ []) })
    else (false, record q { dropped = (q.dropped + 1) % 2 ^ 32 })

-- The pointer is NULL exactly where there is nothing to take.
unfoldable pub pop : List ℕ → ℕ × List ℕ
pop [] = (0, [])
pop (x ∷ xs) = (x, xs)
