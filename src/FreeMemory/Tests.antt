-- ===== src/FreeMemory/Tests.antt =====
-- The theorems about free memory at inputs that meet their hypotheses.
use picokernel.Prelude.{◌≡◌, ◌≢◌, refl, true, false, ◌&&◌, not, List, [], ◌∷◌, arith}
use picokernel.FreeMemory.{
  Region, subtract_one, subtract_loop, subtract_reserved_region, Layout, build_free_regions,
}
use picokernel.FreeMemory.Cover.{within, covers}
use picokernel.FreeMemory.Safe.{subtract_reserved_region_lem, build_free_regions_safe}

-- Two regions, of which the second one holds all that is in use.
abbrev ram : List Region
ram = record { base = 0; size = 640 } ∷ record { base = 1024; size = 8192 } ∷ []

abbrev layout : Layout
layout = record {
  pt_start = 3000;
  pt_end = 4000;
  kernel_start = 2000;
  kernel_end = 3000;
  stack_start = 4000;
  stack_end = 4100;
  pvh_start = 5000;
  memmap_paddr = 5056;
  memmap_entries = 3;
}

subtract_reserved_region_lem_example :
    covers (subtract_reserved_region ram 2000 3000 16) 2500
    ≡ (covers ram 2500 && not (within 2000 3000 2500))
subtract_reserved_region_lem_example =
    subtract_reserved_region_lem 2000 3000 16 ram 2500 (omega arith, (omega arith, tt))
      (omega arith)

still_free : covers (build_free_regions ram 16 layout) 1500 ≡ true
unfolding build_free_regions subtract_loop subtract_one
still_free = refl

build_free_regions_safe_example :
    (covers ram 1500 ≡ true)
    × (within 3000 4000 1500 ≡ false)
    × (within 2000 3000 1500 ≡ false)
    × (within 4000 4100 1500 ≡ false)
    × (within 5000 5056 1500 ≡ false)
    × (layout.memmap_paddr ≢ 0 → within 5056 5128 1500 ≡ false)
build_free_regions_safe_example =
    build_free_regions_safe ram 16 layout 1500 (omega arith, (omega arith, tt)) still_free
