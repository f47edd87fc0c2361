-- ===== src/FreeMemory.antt =====
-- The free memory of a PC: the regions of RAM of the map that the boot loader passes
-- (platform/x64/platform_boot_context.c), less what is in use (platform/x64/platform_mem.c).
pub mod Cover
pub mod Safe
mod Tests
use picokernel.Prelude.{
  ℕ, ◌+◌, ◌-◌, ◌*◌, ◌%◌, ◌^◌, Bool, true, false, ◌&&◌, ◌||◌, List, [], ◌∷◌, ◌++◌, ◌==◌, ltb, leb,
  if◌then◌else◌, length,
}

-- `kregion_t` without its links, which are set at the end
pub record Region : Type 0 where
  pub base : ℕ
  pub size : ℕ

-- KCONFIG_MAX_MEM_REGIONS
abbrev pub max_regions : ℕ
max_regions = 16

abbrev pub end_of : Region → ℕ
end_of r = (r.base + r.size) % 2 ^ 64

-- `output_regions[num_output++] = r` unless the output is full, and whether the loop goes on.
abbrev pub emit : ℕ → Region → List Region → Bool × List Region
emit max_output r out = if leb max_output (length out) then (false, out) else (true, out ++ r ∷ [])

-- The body of the loop of `subtract_reserved_region` for a region.
unfoldable pub subtract_one :
    (reserved_base reserved_end max_output : ℕ) → Region → List Region → Bool × List Region
subtract_one reserved_base reserved_end max_output r out =
    let before : Region = record { base = r.base; size = reserved_base - r.base } in
    let after : Region = record { base = reserved_end; size = end_of r - reserved_end } in
    let (on, out₁) = emit max_output before out in
    let split = if on then emit max_output after out₁ else (false, out₁) in
    if leb (end_of r) reserved_base || leb reserved_end r.base
    then emit max_output r out
    else if leb reserved_base r.base && leb (end_of r) reserved_end
    then (true, out)
    else if ltb r.base reserved_base && ltb reserved_end (end_of r)
    then split
    else if leb reserved_base r.base && ltb reserved_end (end_of r)
    then emit max_output after out
    else if ltb r.base reserved_base && leb (end_of r) reserved_end
    then emit max_output before out
    else (true, out)

unfoldable pub subtract_loop :
    (reserved_base reserved_end max_output : ℕ) → List Region → List Region → List Region
subtract_loop reserved_base reserved_end max_output [] out = out
subtract_loop reserved_base reserved_end max_output (r ∷ input) out =
    let (on, out') = subtract_one reserved_base reserved_end max_output r out in
    let rest = subtract_loop reserved_base reserved_end max_output input out' in
    if on then rest else out'

abbrev pub subtract_reserved_region :
    (input : List Region) (reserved_base reserved_end max_output : ℕ) → List Region
subtract_reserved_region input reserved_base reserved_end max_output =
    subtract_loop reserved_base reserved_end max_output input []

-- The addresses that the linker and the boot loader give: of the page tables, the kernel, the stack,
-- the start information and the memory map, 0 for no map.
pub record Layout : Type 0 where
  pub pt_start : ℕ
  pub pt_end : ℕ
  pub kernel_start : ℕ
  pub kernel_end : ℕ
  pub stack_start : ℕ
  pub stack_end : ℕ
  pub pvh_start : ℕ
  pub memmap_paddr : ℕ
  pub memmap_entries : ℕ

-- sizeof(struct hvm_start_info) and sizeof(struct hvm_memmap_table_entry)
abbrev pub start_info_size : ℕ
start_info_size = 56

abbrev pub memmap_entry_size : ℕ
memmap_entry_size = 24

abbrev pub pvh_end : Layout → ℕ
pvh_end l = (l.pvh_start + start_info_size) % 2 ^ 64

abbrev pub memmap_end : Layout → ℕ
memmap_end l = (l.memmap_paddr + l.memmap_entries * memmap_entry_size) % 2 ^ 64

unfoldable pub build_free_regions : (ram : List Region) (max_free : ℕ) → Layout → List Region
build_free_regions ram max_free l =
    let no_tables = subtract_reserved_region ram l.pt_start l.pt_end max_free in
    let no_kernel = subtract_reserved_region no_tables l.kernel_start l.kernel_end max_free in
    let no_stack = subtract_reserved_region no_kernel l.stack_start l.stack_end max_free in
    let no_info = subtract_reserved_region no_stack l.pvh_start (pvh_end l) max_free in
    let no_map = subtract_reserved_region no_info l.memmap_paddr (memmap_end l) max_free in
    if l.memmap_paddr == 0 then no_info else no_map

-- An entry of the map.
pub record MapEntry : Type 0 where
  pub addr : ℕ
  pub size : ℕ
  pub kind : ℕ

-- E820_RAM
abbrev pub e820_ram : ℕ
e820_ram = 1

-- The loop of `parse_e820_map`.
unfoldable pub parse_e820_map : List MapEntry → List Region → List Region
parse_e820_map [] regions = regions
parse_e820_map (m ∷ memmap) regions = parse_e820_map memmap (
    if (m.kind == e820_ram) && ltb (length regions) max_regions
    then regions ++ record { base = m.addr; size = m.size } ∷ []
    else regions)
