-- ===== src/Crc32/Table.antt =====
-- The entries of `crc32_table` (kernel/crc32.c).
use picokernel.Prelude.{
  ℕ, zero, suc, ◌+◌, ◌<◌, ◌≡◌, refl, ◌∙◌, ap, Bool, true, ◌&&◌, ◌==◌, List, [], ◌∷◌, arith, length,
  ==_iff,
}
use picokernel.Crc32.{entry, crc32_table}
use picokernel.Crc32.Reference.{bit_step, bit_steps}

-- Every entry is the remainder of its index, from `i` on.
unfoldable are_remainders : ℕ → List ℕ → Bool
unfolding bit_step bit_steps
are_remainders i [] = true
are_remainders i (t ∷ table) = (t == bit_steps 8 i) && are_remainders (i + 1) table

entry_remainder :
    (table : List ℕ) (i index : ℕ)
    → are_remainders i table ≡ true
    → index < length table
    → entry table index ≡ bit_steps 8 (i + index)
unfolding are_remainders
entry_remainder [] i index e h = absurd (omega arith)
entry_remainder (t ∷ table) i zero e h =
    (==_iff t (bit_steps 8 i)).0 (ground arith) ∙ ap (bit_steps 8) (omega arith)
entry_remainder (t ∷ table) i (suc index) e h =
    entry_remainder table (i + 1) index (ground arith) (omega arith)
    ∙ ap (bit_steps 8) (omega arith)

table_are_remainders : are_remainders 0 crc32_table ≡ true
unfolding are_remainders bit_step bit_steps
table_are_remainders = refl

pub entry-bit_steps : (index : ℕ) → index < 256 → entry crc32_table index ≡ bit_steps 8 index
entry-bit_steps index h =
    entry_remainder crc32_table 0 index table_are_remainders h ∙ ap (bit_steps 8) (omega arith)
