-- ===== src/RegionList/Cycle.antt =====
-- Two regions, of which one is removed and the other split (platform/arm64/platform_core.c).
use picokernel.Prelude.{
  ℕ, zero, suc, ◌+◌, ◌-◌, ◌≤◌, ◌<◌, ◌^◌, ◌%◌, ◌≡◌, refl, ap, ◌∙◌, none, some, true, false, arith,
  ◌&&◌, ltb, leb, ◌==◌, update,
}
use picokernel.State.{Ptr, null}
use picokernel.FreeMemory.{max_regions}
use picokernel.RegionList.{
  FreeList, ranges_overlap, unlink, link_back, link_second, subtract_node, subtract_nodes, subtract,
  total_free,
}

-- A region that follows itself is walked for ever.
total_free_cycle :
    (fuel : ℕ) (region : Ptr) (total : ℕ) (l : FreeList)
    → (l.regions region).next ≡ region
    → (region == null) ≡ false
    → total_free fuel region total l ≡ none
unfolding total_free
total_free_cycle zero region total l loop there = refl
total_free_cycle (suc fuel) region total l loop there =
    let n = l.regions region in
    rw (there, loop) (total_free_cycle fuel region ((total + n.size) % 2 ^ 64) l loop there)

-- The list of the regions at the places 0 and 1 of the array.
pub record IsPair (l : FreeList) (base1 size1 base2 size2 : ℕ) : Type 0 where
  pub base1_is : (l.regions 1).base ≡ base1
  pub size1_is : (l.regions 1).size ≡ size1
  pub next1 : (l.regions 1).next ≡ 2
  pub prev1 : (l.regions 1).prev ≡ null
  pub base2_is : (l.regions 2).base ≡ base2
  pub size2_is : (l.regions 2).size ≡ size2
  pub next2 : (l.regions 2).next ≡ null
  pub head : l.head ≡ 1
  pub count : l.count ≡ 2

node_covered :
    (base size : ℕ) (region : Ptr) (l : FreeList)
    → let n = l.regions region in
      ranges_overlap n.base n.size base size ≡ true
      → (leb base n.base && leb ((n.base + n.size) % 2 ^ 64) ((base + size) % 2 ^ 64)) ≡ true
      → subtract_node base size region l ≡ unlink region l
unfolding subtract_node
node_covered base size region l o c = rw (o, c) refl

node_apart :
    (base size : ℕ) (region : Ptr) (l : FreeList)
    → let n = l.regions region in
      ranges_overlap n.base n.size base size ≡ false → subtract_node base size region l ≡ l
unfolding subtract_node
node_apart base size region l o = rw o refl

node_middle :
    (base size : ℕ) (region : Ptr) (l : FreeList)
    → let n = l.regions region in
      let reserved_end = (base + size) % 2 ^ 64 in
      let region_end = (n.base + n.size) % 2 ^ 64 in
      ranges_overlap n.base n.size base size ≡ true
      → ltb n.base base ≡ true
      → ltb reserved_end region_end ≡ true
      → l.count < max_regions
      → subtract_node base size region l
        ≡ link_second region reserved_end region_end
            (record l { regions = update l.regions region (record n { size = base - n.base }) })
unfolding subtract_node
node_middle base size region l o a b c =
    let n = l.regions region in
    let a' : leb base n.base ≡ false = ground (arith, a) in
    let room : ltb l.count max_regions ≡ true = ground (arith, c) in
    let b' : leb ((n.base + n.size) % 2 ^ 64) ((base + size) % 2 ^ 64) ≡ false =
      ground (arith, b) in
    rw (o, a', a, b', b, room) refl

-- The list after the first region left it: the second one alone, at the place 1.
record Single (l : FreeList) (base2 size2 : ℕ) : Type 0 where
  pub base2_is : (l.regions 2).base ≡ base2
  pub size2_is : (l.regions 2).size ≡ size2
  pub next2 : (l.regions 2).next ≡ null
  pub head : l.head ≡ 2
  pub count : l.count ≡ 1

unlink-Single :
    (l : FreeList) (base1 size1 base2 size2 : ℕ)
    → IsPair l base1 size1 base2 size2
    → Single (unlink 1 l) base2 size2
unfolding unlink link_back
unlink-Single l base1 size1 base2 size2 p = record {
  base2_is = rw (p.prev1, p.next1) p.base2_is;
  size2_is = rw (p.prev1, p.next1) p.size2_is;
  next2 = rw (p.prev1, p.next1) p.next2;
  head = rw (p.prev1, p.next1) refl;
  count = rw (p.prev1, p.next1, p.count) refl;
}

-- The second part of the region at the place 1 takes the place of the region.
link_second_cycle :
    (reserved_end region_end : ℕ) (l : FreeList)
    → l.count ≡ 1
    → ((link_second 2 reserved_end region_end l).regions 2).next ≡ 2
unfolding link_second link_back
link_second_cycle reserved_end region_end l c = rw c refl

link_second_head :
    (reserved_end region_end : ℕ) (l : FreeList)
    → l.count ≡ 1
    → (l.regions 2).next ≡ null
    → (link_second 2 reserved_end region_end l).head ≡ l.head
unfolding link_second link_back
link_second_head reserved_end region_end l c e = rw (c, e) refl

subtract_nodes_more :
    (fuel base size : ℕ) (region next : Ptr) (l : FreeList)
    → (region == null) ≡ false
    → (l.regions region).next ≡ next
    → subtract_nodes (suc fuel) base size region l
      ≡ subtract_nodes fuel base size next (subtract_node base size region l)
unfolding subtract_nodes
subtract_nodes_more fuel base size region next l there e = rw (there, e) refl

subtract_nodes_end :
    (fuel base size : ℕ) (l : FreeList) → subtract_nodes (suc fuel) base size null l ≡ some l
unfolding subtract_nodes
subtract_nodes_end fuel base size l = refl

-- Two regions in the first two places of the array, of which the first one lies in a first reserved
-- range that ends before the second region, and a second reserved range inside the second region, with
-- memory of it on both sides: both subtractions end, and the list that they leave follows itself, so
-- that the walk which adds up the free memory never ends.
pub remove_split_hangs :
    (l : FreeList) (base1 size1 base2 size2 base size base' size' : ℕ)
    → IsPair l base1 size1 base2 size2
    → 0 < size1
    → base ≤ base1
    → base1 + size1 ≤ base + size
    → base + size ≤ base2
    → base2 < base'
    → base' + size' < base2 + size2
    → base2 + size2 < 2 ^ 64
    → (l₁ l₂ : FreeList) × (subtract 3 base size l ≡ some l₁)
      × (subtract 2 base' size' l₁ ≡ some l₂)
      × ((fuel : ℕ) → total_free fuel l₂.head 0 l₂ ≡ none)
remove_split_hangs l base1 size1 base2 size2 base size base' size' p h₁ h₂ h₃ h₄ h₅ h₆ h₇ =
    let m₁ : (base1 + size1) % 2 ^ 64 ≡ base1 + size1 = omega arith in
    let m₂ : (base2 + size2) % 2 ^ 64 ≡ base2 + size2 = omega arith in
    let m₃ : (base + size) % 2 ^ 64 ≡ base + size = omega arith in
    let m₄ : (base' + size') % 2 ^ 64 ≡ base' + size' = omega arith in
    let l₁ = unlink 1 l in
    let q = unlink-Single l base1 size1 base2 size2 p in
    let n = l₁.regions 2 in
    let cut = record l₁ { regions = update l₁.regions 2 (record n { size = base' - n.base }) } in
    let l₂ = link_second 2 ((base' + size') % 2 ^ 64) ((n.base + n.size) % 2 ^ 64) cut in
    let first : subtract_node base size 1 l ≡ l₁ =
      node_covered base size 1 l (rw (p.base1_is, p.size1_is, m₁, m₃) (ground arith))
        (rw (p.base1_is, p.size1_is, m₁, m₃) (ground arith)) in
    let second : subtract_node base size 2 l₁ ≡ l₁ =
      node_apart base size 2 l₁ (rw (q.base2_is, q.size2_is, m₂, m₃) (ground arith)) in
    let third : subtract_node base' size' 2 l₁ ≡ l₂ =
      node_middle base' size' 2 l₁ (rw (q.base2_is, q.size2_is, m₂, m₄) (ground arith))
        (rw q.base2_is (ground arith)) (rw (q.base2_is, q.size2_is, m₂, m₄) (ground arith))
        (rw q.count (omega arith)) in
    let cycle =
      link_second_cycle ((base' + size') % 2 ^ 64) ((n.base + n.size) % 2 ^ 64) cut q.count in
    let same_head =
      link_second_head ((base' + size') % 2 ^ 64) ((n.base + n.size) % 2 ^ 64) cut q.count
        q.next2 in
    (
      l₁,
      l₂,
      ap (λ h. subtract_nodes 3 base size h l) p.head
          ∙ (subtract_nodes_more 2 base size 1 2 l refl p.next1
              ∙ ap (subtract_nodes 2 base size 2) first
              ∙ subtract_nodes_more 1 base size 2 null l₁ refl q.next2
              ∙ ap (subtract_nodes 1 base size null) second
              ∙ subtract_nodes_end 0 base size l₁),
      ap (λ h. subtract_nodes 2 base' size' h l₁) q.head
          ∙ (subtract_nodes_more 1 base' size' 2 null l₁ refl q.next2
              ∙ ap (subtract_nodes 1 base' size' null) third
              ∙ subtract_nodes_end 0 base' size' l₂),
      λ fuel.
          ap (λ h. total_free fuel h 0 l₂) (same_head ∙ q.head)
          ∙ total_free_cycle fuel 2 0 l₂ cycle refl,
    )
