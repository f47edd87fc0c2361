-- ===== src/FreeMemory/Safe.antt =====
-- Nothing that is in use is in the free regions (platform/x64/platform_mem.c).
use picokernel.Prelude.{
  ℕ, ◌+◌, ◌*◌, ◌%◌, ◌^◌, ◌≤◌, ◌≡◌, ◌≢◌, refl, sym, ap, subst, ◌∙◌, Bool, true, false, ◌&&◌, ◌||◌,
  not, List, [], ◌∷◌, ◌==◌, if◌then◌else◌, length, arith, All, Bool-cases, inl, inr, ==_iff,
}
use picokernel.FreeMemory.{
  Region, subtract_one, subtract_loop, subtract_reserved_region, Layout, pvh_end, memmap_end,
  build_free_regions,
}
use picokernel.FreeMemory.Cover.{within, covers, Fits, left_of, subtract_one-Subtracted}

or_carry : (x y z : Bool) → (x || z) ≡ true → (x ≡ true → y ≡ true) → (y || z) ≡ true
or_carry true y z h f = ground (arith, f refl)
or_carry false y z h f = ground (arith, h)

and_over_or : (x r i n : Bool) → ((x || (r && n)) || (i && n)) ≡ (x || ((r || i) && n))
and_over_or x true i n = ground arith
and_over_or x false i n = ground arith

or_left : (x y : Bool) → x ≡ true → (x || y) ≡ true
or_left x y e = ground (arith, e)

and_split : (x y : Bool) → (x && not y) ≡ true → (x ≡ true) × (y ≡ false)
and_split true true e = absurd (ground (arith, e))
and_split true false e = (refl, refl)
and_split false y e = absurd (ground (arith, e))

module _ (reserved_base reserved_end max_output : ℕ) where
  -- Whether an address is in the regions and not in the reserved range.
  abbrev pub free_of : List Region → ℕ → Bool
  free_of input a = covers input a && not (within reserved_base reserved_end a)

  free_of-cons :
      (r : Region) (input : List Region) (a : ℕ) (x : Bool)
      → ((x || left_of r reserved_base reserved_end a) || free_of input a)
        ≡ (x || free_of (r ∷ input) a)
  free_of-cons r input a x =
      and_over_or x (within r.base (r.base + r.size) a) (covers input a)
        (not (within reserved_base reserved_end a))

  loop_on :
      (r : Region) (input out : List Region)
      → (subtract_one reserved_base reserved_end max_output r out).0 ≡ true
      → subtract_loop reserved_base reserved_end max_output (r ∷ input) out
        ≡ subtract_loop reserved_base reserved_end max_output input
            (subtract_one reserved_base reserved_end max_output r out).1
  unfolding subtract_loop
  loop_on r input out e = rw e refl

  loop_off :
      (r : Region) (input out : List Region)
      → (subtract_one reserved_base reserved_end max_output r out).0 ≡ false
      → subtract_loop reserved_base reserved_end max_output (r ∷ input) out
        ≡ (subtract_one reserved_base reserved_end max_output r out).1
  unfolding subtract_loop
  loop_off r input out e = rw e refl

  subtract_loop_sound :
      (input out : List Region) (a : ℕ)
      → All Fits input
      → covers (subtract_loop reserved_base reserved_end max_output input out) a ≡ true
      → (covers out a || free_of input a) ≡ true
  unfolding subtract_loop
  subtract_loop_sound [] out a f e = ground (arith, e)
  subtract_loop_sound (r ∷ input) out a f e =
      let s = subtract_one reserved_base reserved_end max_output r out in
      let m = subtract_one-Subtracted reserved_base reserved_end max_output r out f.0 in
      sym (free_of-cons r input a (covers out a)) ∙ elim (Bool-cases s.0) [
        | inl on ↦
            or_carry (covers s.1 a) _ _
              (subtract_loop_sound input s.1 a f.1
                (ap (λ o. covers o a) (sym (loop_on r input out on)) ∙ e))
              (m.sound a)
        | inr off ↦
            or_left _ _ (m.sound a (ap (λ o. covers o a) (sym (loop_off r input out off)) ∙ e))
      ]

  subtract_loop-Fits :
      (input out : List Region)
      → All Fits input
      → All Fits out
      → All Fits (subtract_loop reserved_base reserved_end max_output input out)
  unfolding subtract_loop
  subtract_loop-Fits [] out f g = g
  subtract_loop-Fits (r ∷ input) out f g =
      let s = subtract_one reserved_base reserved_end max_output r out in
      let m = subtract_one-Subtracted reserved_base reserved_end max_output r out f.0 in
      elim (Bool-cases s.0) [
        | inl on ↦
            subst (All Fits) (sym (loop_on r input out on))
              (subtract_loop-Fits input s.1 f.1 (m.fits g))
        | inr off ↦ subst (All Fits) (sym (loop_off r input out off)) (m.fits g)
      ]

  subtract_loop_exact :
      (input out : List Region) (a : ℕ)
      → All Fits input
      → length out + 2 * length input ≤ max_output
      → covers (subtract_loop reserved_base reserved_end max_output input out) a
        ≡ (covers out a || free_of input a)
  unfolding subtract_loop
  subtract_loop_exact [] out a f h = ground arith
  subtract_loop_exact (r ∷ input) out a f h =
      let s = subtract_one reserved_base reserved_end max_output r out in
      let m = subtract_one-Subtracted reserved_base reserved_end max_output r out f.0 in
      let on = m.room (omega arith) in
      ap (λ o. covers o a) (loop_on r input out on)
      ∙ subtract_loop_exact input s.1 a f.1 (omega (arith, m.size))
      ∙ ap (λ b. b || free_of input a) (m.exact a on)
      ∙ free_of-cons r input a (covers out a)

  -- For regions that end within the address space, and an output with room for two regions for each of
  -- them, the subtraction leaves exactly the addresses of the regions that are not in the range.
  pub subtract_reserved_region_lem :
      (input : List Region) (a : ℕ)
      → All Fits input
      → 2 * length input ≤ max_output
      → covers (subtract_reserved_region input reserved_base reserved_end max_output) a
        ≡ (covers input a && not (within reserved_base reserved_end a))
  subtract_reserved_region_lem input a f h = subtract_loop_exact input [] a f (omega arith)

-- One subtraction, when the output may be full.
subtract_safe :
    (input : List Region) (start end_ max_output a : ℕ)
    → All Fits input
    → covers (subtract_reserved_region input start end_ max_output) a ≡ true
    → (covers input a ≡ true) × (within start end_ a ≡ false)
subtract_safe input start end_ max_output a f e =
    let h = subtract_loop_sound start end_ max_output input [] a f e in
    and_split (covers input a) (within start end_ a) h

-- For regions of RAM that end within the address space, however many the output has room for: an
-- address of the free regions is an address of the RAM, and is in none of the page tables, the kernel,
-- the stack, the 56 bytes of the start information and, where there is one, the memory map of 24 bytes
-- for each entry.
pub build_free_regions_safe :
    (ram : List Region) (max_free : ℕ) (l : Layout) (a : ℕ)
    → All Fits ram
    → covers (build_free_regions ram max_free l) a ≡ true
    → (covers ram a ≡ true)
      × (within l.pt_start l.pt_end a ≡ false)
      × (within l.kernel_start l.kernel_end a ≡ false)
      × (within l.stack_start l.stack_end a ≡ false)
      × (within l.pvh_start ((l.pvh_start + 56) % 2 ^ 64) a ≡ false)
      × (l.memmap_paddr ≢ 0
          → within l.memmap_paddr ((l.memmap_paddr + l.memmap_entries * 24) % 2 ^ 64) a ≡ false)
unfolding build_free_regions
build_free_regions_safe ram max_free l a f e =
    let r₁ = subtract_reserved_region ram l.pt_start l.pt_end max_free in
    let f₁ = subtract_loop-Fits l.pt_start l.pt_end max_free ram [] f tt in
    let r₂ = subtract_reserved_region r₁ l.kernel_start l.kernel_end max_free in
    let f₂ = subtract_loop-Fits l.kernel_start l.kernel_end max_free r₁ [] f₁ tt in
    let r₃ = subtract_reserved_region r₂ l.stack_start l.stack_end max_free in
    let f₃ = subtract_loop-Fits l.stack_start l.stack_end max_free r₂ [] f₂ tt in
    let r₄ = subtract_reserved_region r₃ l.pvh_start (pvh_end l) max_free in
    let f₄ = subtract_loop-Fits l.pvh_start (pvh_end l) max_free r₃ [] f₃ tt in
    let r₅ = subtract_reserved_region r₄ l.memmap_paddr (memmap_end l) max_free in
    let (in₄, map_free) : (covers r₄ a ≡ true)
        × (l.memmap_paddr ≢ 0
            → within l.memmap_paddr ((l.memmap_paddr + l.memmap_entries * 24) % 2 ^ 64) a ≡ false) =
      elim (Bool-cases (l.memmap_paddr == 0)) [
        | inl no_map ↦ (
          ap (λ b. covers (if b then r₄ else r₅) a) (sym no_map) ∙ e,
          λ ne. absurd (ne ((==_iff l.memmap_paddr 0).0 no_map)),
        )
        | inr map ↦
            let (i, o) =
              subtract_safe r₄ l.memmap_paddr (memmap_end l) max_free a f₄
                (ap (λ b. covers (if b then r₄ else r₅) a) (sym map) ∙ e) in
            (i, λ ne. o)
      ] in
    let (in₃, o₄) = subtract_safe r₃ l.pvh_start (pvh_end l) max_free a f₃ in₄ in
    let (in₂, o₃) = subtract_safe r₂ l.stack_start l.stack_end max_free a f₂ in₃ in
    let (in₁, o₂) = subtract_safe r₁ l.kernel_start l.kernel_end max_free a f₁ in₂ in
    let (in₀, o₁) = subtract_safe ram l.pt_start l.pt_end max_free a f in₁ in
    (in₀, o₁, o₂, o₃, o₄, map_free)
