-- ===== src/RegionList/Tests.antt =====
-- The theorems about the list of free regions at inputs that meet their hypotheses.
use picokernel.Prelude.{ℕ, ◌≡◌, refl, none, some, List, [], ◌∷◌, arith}
use picokernel.RegionList.{FreeList, no_regions, add_region, subtract, subtract_nodes, total_free}
use picokernel.RegionList.Subtract.{Ready, Less, subtract_nodes-Less}
use picokernel.State.{Ptr}
use picokernel.RegionList.Cycle.{IsPair, remove_split_hangs}

-- Two regions of RAM: the first one is taken whole, and the second one has the kernel in it.
abbrev pair : FreeList
pair = add_region 65_536 65_536 (add_region 0 4096 no_regions)

pair-IsPair : IsPair pair 0 4096 65_536 65_536
unfolding add_region
pair-IsPair = record {
  base1_is = refl;
  size1_is = refl;
  next1 = refl;
  prev1 = refl;
  base2_is = refl;
  size2_is = refl;
  next2 = refl;
  head = refl;
  count = refl;
}

remove_split_hangs_example :
    (l₁ l₂ : FreeList) × (subtract 3 0 4096 pair ≡ some l₁)
    × (subtract 2 80_000 1000 l₁ ≡ some l₂)
    × ((fuel : ℕ) → total_free fuel l₂.head 0 l₂ ≡ none)
remove_split_hangs_example =
    remove_split_hangs pair 0 4096 65_536 65_536 0 4096 80_000 1000 pair-IsPair (omega arith)
      (omega arith) (omega arith) (omega arith) (omega arith) (omega arith) (omega arith)

abbrev both : List Ptr
both = 1 ∷ 2 ∷ []

pair-Ready : Ready 80_000 1000 0 both 1 pair
unfolding add_region
pair-Ready = record {
  nodes = (refl, omega arith, (refl, omega arith, refl));
  back = (refl, (refl, tt));
  distinct = ground arith;
  placed = λ c i. ground (arith, i);
  room = omega arith;
  range_fits = omega arith;
  fits = λ c i. ground (arith, i);
  partly = λ c i. ground (arith, i);
}

subtract_nodes-Less_example :
    (l' : FreeList) × (ys : List Ptr) × (subtract_nodes 3 80_000 1000 1 pair ≡ some l')
    × Less 80_000 1000 0 both ys 1 pair l'
subtract_nodes-Less_example =
    subtract_nodes-Less both 3 80_000 1000 0 1 pair pair-Ready (omega arith)
