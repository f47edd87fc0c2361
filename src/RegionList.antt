-- ===== src/RegionList.antt =====
-- The list of free regions of platform/arm64/platform_core.c: subtract_reserved_region, and the walk at
-- the end of build_free_regions. The files of arm32 and rv64 have the same functions.
pub mod Cycle
pub mod Split
pub mod Cut
pub mod Subtract
mod Tests
use picokernel.Prelude.{
  ℕ, zero, suc, ◌+◌, ◌-◌, ◌%◌, ◌^◌, Bool, ◌&&◌, ◌||◌, not, Option, none, some, ◌==◌, ltb, leb,
  if◌then◌else◌, update,
}
use picokernel.State.{Ptr, null}
use picokernel.FreeMemory.{max_regions}

-- `kregion_t`
pub record Node : Type 0 where
  pub base : ℕ
  pub size : ℕ
  pub next : Ptr
  pub prev : Ptr

-- The array `regions` and the list in it; the pointer to regions[i] is i + 1.
pub record FreeList : Type 0 where
  pub regions : Ptr → Node
  pub head : Ptr
  pub tail : Ptr
  pub count : ℕ

-- `platform->mem_regions` before any region is found. The head and the tail are those that
-- `build_free_regions` starts from, which it computes from the links.
abbrev pub no_regions : FreeList
no_regions = record {
  regions = λ p. record { base = 0; size = 0; next = null; prev = null };
  head = null;
  tail = null;
  count = 0;
}

-- `*p = n`
abbrev pub store : Ptr → Node → FreeList → FreeList
store p n l = record l { regions = update l.regions p n }

-- A region of RAM that `platform_boot_context_parse` finds, linked behind the last one.
unfoldable pub add_region : (base size : ℕ) → FreeList → FreeList
add_region base size l =
    let region = l.count + 1 in
    let first = store region (record { base = base; size = size; next = null; prev = null }) l in
    let behind =
      store region (record { base = base; size = size; next = null; prev = l.count }) l in
    let linked = store l.count (record (behind.regions l.count) { next = region }) behind in
    let l' = if l.count == 0 then first else linked in
    if ltb l.count max_regions
    then record l' { head = 1; tail = region; count = l.count + 1 }
    else l

abbrev pub ranges_overlap : (base1 size1 base2 size2 : ℕ) → Bool
ranges_overlap base1 size1 base2 size2 =
    let end1 = (base1 + size1) % 2 ^ 64 in
    let end2 = (base2 + size2) % 2 ^ 64 in not (leb end1 base2 || leb end2 base1)

-- `next->prev = prev`, or `*tail = prev` where nothing follows
unfoldable pub link_back : (next prev : Ptr) → FreeList → FreeList
link_back next prev l =
    if next == null
    then record l { tail = prev }
    else store next (record (l.regions next) { prev = prev }) l

-- Case 1: the region leaves the list.
unfoldable pub unlink : Ptr → FreeList → FreeList
unlink region l =
    let n = l.regions region in
    let l₁ =
      if n.prev == null
      then record l { head = n.next }
      else store n.prev (record (l.regions n.prev) { next = n.next }) l in
    let l₂ = link_back (l₁.regions region).next (l₁.regions region).prev l₁ in
    record l₂ { count = l₂.count - 1 }

-- Case 4, after the region was cut: the part from `reserved_end` on gets the array's next element.
unfoldable pub link_second : (region : Ptr) (reserved_end region_end : ℕ) → FreeList → FreeList
link_second region reserved_end region_end l =
    let new_region = l.count + 1 in
    let l₁ =
      store new_region
        (record (l.regions new_region) {
          base = reserved_end;
          size = region_end - reserved_end;
          prev = region;
        })
        l in
    let l₂ =
      store new_region (record (l₁.regions new_region) { next = (l₁.regions region).next }) l₁ in
    let l₃ = link_back (l₂.regions region).next new_region l₂ in
    let l₄ = store region (record (l₃.regions region) { next = new_region }) l₃ in
    record l₄ { count = l₄.count + 1 }

-- The body of the loop for a region.
unfoldable pub subtract_node :
    (reserved_base reserved_size : ℕ) (region : Ptr) → FreeList → FreeList
subtract_node reserved_base reserved_size region l =
    let reserved_end = (reserved_base + reserved_size) % 2 ^ 64 in
    let n = l.regions region in
    let region_end = (n.base + n.size) % 2 ^ 64 in
    let cut = store region (record n { size = reserved_base - n.base }) l in
    if not (ranges_overlap n.base n.size reserved_base reserved_size)
    then l
    else if leb reserved_base n.base && leb region_end reserved_end
    then unlink region l
    else if leb reserved_base n.base && ltb reserved_end region_end
    then store region (record n { base = reserved_end; size = region_end - reserved_end }) l
    else if ltb n.base reserved_base && leb region_end reserved_end
    then cut
    else if ltb n.base reserved_base && ltb reserved_end region_end
    then (if ltb l.count max_regions then link_second region reserved_end region_end cut else cut)
    else l

-- The loop from a region on, of `subtract_reserved_region`.
unfoldable pub subtract_nodes :
    ℕ → (reserved_base reserved_size : ℕ) (region : Ptr) → FreeList → Option FreeList
subtract_nodes zero reserved_base reserved_size region l = none
subtract_nodes (suc fuel) reserved_base reserved_size region l =
    let next = (l.regions region).next in
    let rest =
      subtract_nodes fuel reserved_base reserved_size next
        (subtract_node reserved_base reserved_size region l) in
    if region == null then some l else rest

abbrev pub subtract : ℕ → (reserved_base reserved_size : ℕ) → FreeList → Option FreeList
subtract fuel reserved_base reserved_size l =
    subtract_nodes fuel reserved_base reserved_size l.head l

-- The walk of `build_free_regions` that adds up the sizes.
unfoldable pub total_free : ℕ → (region : Ptr) (total : ℕ) → FreeList → Option ℕ
total_free zero region total l = none
total_free (suc fuel) region total l =
    let n = l.regions region in
    let rest = total_free fuel n.next ((total + n.size) % 2 ^ 64) l in
    if region == null then some total else rest
