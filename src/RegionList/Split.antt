-- ===== src/RegionList/Split.antt =====
-- One region less a reserved range, where the next place of the array is free
-- (platform/arm64/platform_core.c).
use picokernel.Prelude.{
  ℕ, ◌+◌, ◌-◌, ◌≤◌, ◌≡◌, not, ◌&&◌, refl, sym, ap, ◌∙◌, false, arith, ◌==◌, ==_iff, ==_refl,
  Bool-cases, inl, inr,
}
use picokernel.State.{Ptr, null}
use picokernel.RegionList.{Node, FreeList, store, link_back, link_second}

-- The nodes agree but for `prev`.
pub record Same (n m : Node) : Type 0 where
  pub base : n.base ≡ m.base
  pub size : n.size ≡ m.size
  pub next : n.next ≡ m.next

pub Same-refl : (n : Node) → Same n n
Same-refl n = record { base = refl; size = refl; next = refl }

Same-trans : (a b c : Node) → Same a b → Same b c → Same a c
Same-trans a b c p q = record {
  base = p.base ∙ q.base;
  size = p.size ∙ q.size;
  next = p.next ∙ q.next;
}

-- A change of a node's `prev`.
set_prev-Same :
    (p v c : Ptr) (l : FreeList)
    → Same ((store p (record (l.regions p) { prev = v }) l).regions c) (l.regions c)
set_prev-Same p v c l = elim (Bool-cases (c == p)) [
  | inl e ↦
      let at = (==_iff c p).0 e in
      rw e (record {
        base = ap (λ q. (l.regions q).base) (sym at);
        size = ap (λ q. (l.regions q).size) (sym at);
        next = ap (λ q. (l.regions q).next) (sym at);
      })
  | inr e ↦ rw e (Same-refl (l.regions c))
]

-- What `link_second` leaves.
pub record Linked (region reserved_end region_end : ℕ) (l l' : FreeList) : Type 0 where
  pub first_base : (l'.regions region).base ≡ (l.regions region).base
  pub first_size : (l'.regions region).size ≡ (l.regions region).size
  pub first_next : (l'.regions region).next ≡ l.count + 1
  pub second_base : (l'.regions (l.count + 1)).base ≡ reserved_end
  pub second_size : (l'.regions (l.count + 1)).size ≡ region_end - reserved_end
  pub second_next : (l'.regions (l.count + 1)).next ≡ (l.regions region).next
  pub others : (c : Ptr) → c ≤ l.count → (c == region) ≡ false → Same (l'.regions c) (l.regions c)
  pub untouched :
      (c : Ptr)
      → c ≤ l.count
      → (c == region) ≡ false
      → ((c == (l.regions region).next) && not ((l.regions region).next == null)) ≡ false
      → l'.regions c ≡ l.regions c
  pub first_prev :
      (region == (l.regions region).next) ≡ false
      → (l'.regions region).prev ≡ (l.regions region).prev
  pub second_prev : (l.regions region).next ≤ l.count → (l'.regions (l.count + 1)).prev ≡ region
  pub next_prev :
      (l.regions region).next ≤ l.count
      → ((l.regions region).next == null) ≡ false
      → ((l.regions region).next == region) ≡ false
      → (l'.regions ((l.regions region).next)).prev ≡ l.count + 1
  pub count : l'.count ≡ l.count + 1

link_back-Same :
    (next prev c : Ptr) (l : FreeList) → Same ((link_back next prev l).regions c) (l.regions c)
unfolding link_back
link_back-Same next prev c l = elim (Bool-cases (next == null)) [
  | inl e ↦ rw e (Same-refl (l.regions c))
  | inr e ↦ rw e (set_prev-Same next prev c l)
]

link_back-count : (next prev : Ptr) (l : FreeList) → (link_back next prev l).count ≡ l.count
unfolding link_back
link_back-count next prev l = elim (Bool-cases (next == null)) [
  | inl e ↦ rw e refl
  | inr e ↦ rw e refl
]

link_second_untouched :
    (region reserved_end region_end : ℕ) (l : FreeList)
    → region ≤ l.count
    → (c : Ptr) → c ≤ l.count
    → (c == region) ≡ false
    → ((c == (l.regions region).next) && not ((l.regions region).next == null)) ≡ false
    → ((link_second region reserved_end region_end l).regions c) ≡ l.regions c
unfolding link_second link_back
link_second_untouched region reserved_end region_end l h c i ne other = ground arith

link_second_first :
    (region reserved_end region_end : ℕ) (l : FreeList)
    → region ≤ l.count
    → (region == (l.regions region).next) ≡ false
    → ((link_second region reserved_end region_end l).regions region).prev ≡ (l.regions region).prev
unfolding link_second link_back
link_second_first region reserved_end region_end l h ne = ground arith

link_second_second :
    (region reserved_end region_end : ℕ) (l : FreeList)
    → region ≤ l.count
    → (l.regions region).next ≤ l.count
    → ((link_second region reserved_end region_end l).regions (l.count + 1)).prev ≡ region
unfolding link_second link_back
link_second_second region reserved_end region_end l h i = ground arith

link_second_next :
    (region reserved_end region_end : ℕ) (l : FreeList)
    → region ≤ l.count
    → (l.regions region).next ≤ l.count
    → ((l.regions region).next == null) ≡ false
    → ((l.regions region).next == region) ≡ false
    → ((link_second region reserved_end region_end l).regions ((l.regions region).next)).prev
      ≡ l.count + 1
unfolding link_second link_back
link_second_next region reserved_end region_end l h i there ne = ground arith

pub link_second-Linked :
    (region reserved_end region_end : ℕ) (l : FreeList)
    → region ≤ l.count
    → Linked region reserved_end region_end l (link_second region reserved_end region_end l)
unfolding link_second
link_second-Linked region reserved_end region_end l h =
    let new_region = l.count + 1 in
    let apart : (region == new_region) ≡ false = ground arith in
    let apart' : (new_region == region) ≡ false = ground arith in
    let back =
      λ (c : Ptr) (l₂ : FreeList). link_back-Same (l₂.regions region).next new_region c l₂ in
    record {
      first_base = rw (==_refl region) ((back region _).base ∙ rw apart refl);
      first_size = rw (==_refl region) ((back region _).size ∙ rw apart refl);
      first_next = rw (==_refl region) refl;
      second_base = rw apart' ((back new_region _).base ∙ rw (==_refl new_region) refl);
      second_size = rw apart' ((back new_region _).size ∙ rw (==_refl new_region) refl);
      second_next = rw apart' ((back new_region _).next ∙ rw (==_refl new_region, apart) refl);
      others = λ c i ne.
          let fresh : (c == new_region) ≡ false = ground arith in
          rw ne (Same-trans _ _ _ (back c _) (rw fresh (Same-refl (l.regions c))));
      untouched =
          λ c i ne other. link_second_untouched region reserved_end region_end l h c i ne other;
      first_prev = λ ne. link_second_first region reserved_end region_end l h ne;
      second_prev = λ i. link_second_second region reserved_end region_end l h i;
      next_prev = λ i there ne. link_second_next region reserved_end region_end l h i there ne;
      count = ap (λ n. n + 1) (link_back-count _ new_region _);
    }
