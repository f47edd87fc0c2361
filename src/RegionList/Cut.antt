-- ===== src/RegionList/Cut.antt =====
-- One region less a reserved range that does not hold all of it (platform/arm64/platform_core.c).
use picokernel.Prelude.{
  ℕ, ◌+◌, ◌-◌, ◌%◌, ◌^◌, ◌≤◌, ◌<◌, ◌≡◌, ◌≢◌, refl, sym, ap, ap₂, subst, ◌∙◌, Bool, true, false,
  arith, ◌&&◌, ◌||◌, not, ltb, leb, ◌==◌, List, [], ◌∷◌, ◌++◌, has, Distinct, ne→==, ==_refl,
  ==_iff, Bool-cases, inl, inr,
}
use picokernel.State.{Ptr, null}
use picokernel.FreeMemory.{max_regions}
use picokernel.FreeMemory.Cover.{within}
use picokernel.Virtqueue.Sets.{has_other}
use picokernel.Kernel.Queues.{last_or}
use picokernel.RegionList.{Node, FreeList, store, link_second, subtract_node}
use picokernel.RegionList.Split.{Same, Same-refl, link_second-Linked}

-- The nodes `xs` follow each other from `p` on.
abbrev pub Nodes : (Ptr → Node) → List Ptr → Ptr → Type 0
Nodes h [] p = p ≡ null
Nodes h (x ∷ xs) p = (p ≡ x) × (x ≢ null) × Nodes h xs (h x).next

-- The `prev` pointers of the nodes `xs` lead back, from the first one to `before`.
abbrev pub Back : (Ptr → Node) → Ptr → List Ptr → Type 0
Back h before [] = Unit
Back h before (x ∷ xs) = ((h x).prev ≡ before) × Back h x xs

pub Back-frame :
    (h g : Ptr → Node) (before : Ptr) (xs : List Ptr)
    → ((c : Ptr) → has c xs ≡ true → (h c).prev ≡ (g c).prev)
    → Back g before xs
    → Back h before xs
Back-frame h g before [] same b = tt
Back-frame h g before (x ∷ xs) same b = (
  same x (ground (arith, ==_refl x)) ∙ b.0,
  Back-frame h g x xs (λ c i. same c (ground arith)) b.1,
)

pub Back-append :
    (h : Ptr → Node) (before : Ptr) (xs ys : List Ptr)
    → Back h before xs
    → Back h (last_or before xs) ys
    → Back h before (xs ++ ys)
Back-append h before [] ys b c = c
Back-append h before (x ∷ xs) ys b c = (b.0, Back-append h x xs ys b.1 c)

pub Back-split :
    (h : Ptr → Node) (before : Ptr) (xs ys : List Ptr)
    → Back h before (xs ++ ys)
    → Back h before xs × Back h (last_or before xs) ys
Back-split h before [] ys b = (tt, b)
Back-split h before (x ∷ xs) ys b = let (c, d) = Back-split h x xs ys b.1 in ((b.0, c), d)

-- The nodes `xs` that follow a region in the used part of the array.
pub record Rest (l : FreeList) (region : Ptr) (xs : List Ptr) : Type 0 where
  pub nodes : Nodes l.regions xs (l.regions region).next
  pub placed : (c : Ptr) → has c xs ≡ true → c ≤ l.count
  pub apart : has region xs ≡ false
  pub distinct : Distinct xs
  pub back : Back l.regions region xs

abbrev pub holds : Node → ℕ → Bool
holds n a = within n.base (n.base + n.size) a

abbrev pub any_holds : (Ptr → Node) → List Ptr → ℕ → Bool
any_holds h [] a = false
any_holds h (x ∷ xs) a = holds (h x) a || any_holds h xs a

-- The list after the region lost the range, with the nodes `ys` new behind it; `nodes` is for an array
-- that may have changed elsewhere.
pub record Cut (start size : ℕ) (region : Ptr) (ys : List Ptr) (l l' : FreeList) : Type 0 where
  pub nodes :
      (xs : List Ptr) (h : Ptr → Node)
      → (h region).next ≡ (l'.regions region).next
      → ((c : Ptr) → has c ys ≡ true → (h c).next ≡ (l'.regions c).next)
      → Nodes h xs (l.regions region).next
      → Nodes h (ys ++ xs) (h region).next
  pub cover :
      (a : ℕ)
      → (holds (l'.regions region) a || any_holds l'.regions ys a)
        ≡ (holds (l.regions region) a && not (within start (start + size) a))
  pub fresh : (c : Ptr) → has c ys ≡ true → (l.count < c) × (c ≤ l'.count)
  pub others : (c : Ptr) → c ≤ l.count → (c == region) ≡ false → Same (l'.regions c) (l.regions c)
  pub untouched :
      (c : Ptr)
      → c ≤ l.count
      → (c == region) ≡ false
      → ((c == (l.regions region).next) && not ((l.regions region).next == null)) ≡ false
      → l'.regions c ≡ l.regions c
  pub prev :
      (region == (l.regions region).next) ≡ false
      → (l'.regions region).prev ≡ (l.regions region).prev
  pub back : (xs : List Ptr) → Rest l region xs → Back l'.regions region (ys ++ xs)
  pub grows : l.count ≤ l'.count
  pub by_one : l'.count ≤ l.count + 1

or_none : (x : Bool) → (x || false) ≡ x
or_none true = refl
or_none false = refl

module _ (start size : ℕ) (region : Ptr) (l : FreeList) where
  apart-Cut :
      ((a : ℕ)
        → holds (l.regions region) a
          ≡ (holds (l.regions region) a && not (within start (start + size) a)))
      → Cut start size region [] l l
  apart-Cut same = record {
    nodes = λ xs h e k c. subst (Nodes h xs) (sym e) c;
    cover = λ a. ground arith ∙ same a;
    fresh = λ c i. absurd (ground (arith, i));
    others = λ c i ne. Same-refl (l.regions c);
    untouched = λ c i ne other. refl;
    prev = λ ne. refl;
    back = λ xs r. r.back;
    grows = omega arith;
    by_one = omega arith;
  }

  store-Cut :
      (n : Node)
      → n.next ≡ (l.regions region).next
      → n.prev ≡ (l.regions region).prev
      → ((a : ℕ) → holds n a ≡ (holds (l.regions region) a && not (within start (start + size) a)))
      → Cut start size region [] l (store region n l)
  store-Cut n next prev same =
      let stored : (store region n l).regions region ≡ n = rw (==_refl region) refl in
      record {
        nodes = λ xs h e k c. subst (Nodes h xs) (sym (e ∙ ap (λ m. m.next) stored ∙ next)) c;
        cover = λ a. rw (==_refl region) (or_none (holds n a) ∙ same a);
        fresh = λ c i. absurd (ground (arith, i));
        others = λ c i ne. rw ne (Same-refl (l.regions c));
        untouched = λ c i ne other. rw ne refl;
        prev = λ ne. ap (λ m. m.prev) stored ∙ prev;
        back = λ xs r.
            Back-frame (store region n l).regions l.regions region xs
              (λ c i.
                let ne : (c == region) ≡ false = has_other region c xs r.apart i in rw ne refl)
              r.back;
        grows = omega arith;
        by_one = omega arith;
      }

  split-Back :
      (reserved_end region_end : ℕ)
      → let n = record (l.regions region) { size = start - (l.regions region).base } in
        region ≤ l.count
        → (xs : List Ptr) → Rest l region xs
        → Back
            (link_second region reserved_end region_end (store region n l)).regions
            region
            ((l.count + 1) ∷ xs)
  split-Back reserved_end region_end h [] r =
      let n = record (l.regions region) { size = start - (l.regions region).base } in
      let m = link_second-Linked region reserved_end region_end (store region n l) h in
      let next : (l.regions region).next ≡ null = r.nodes in
      (m.second_prev (rw (==_refl region, next) (omega arith)), tt)
  split-Back reserved_end region_end h (x ∷ xs) r =
      let n = record (l.regions region) { size = start - (l.regions region).base } in
      let l' = link_second region reserved_end region_end (store region n l) in
      let m = link_second-Linked region reserved_end region_end (store region n l) h in
      let stored : (store region n l).regions region ≡ n = rw (==_refl region) refl in
      let next : ((store region n l).regions region).next ≡ x =
        ap (λ q. q.next) stored ∙ r.nodes.0 in
      let x_in : has x (x ∷ xs) ≡ true = ground (arith, ==_refl x) in
      let x_at = r.placed x x_in in
      let x_ne : (x == region) ≡ false = has_other region x (x ∷ xs) r.apart x_in in
      (
        m.second_prev (rw next x_at),
        (
          subst (λ q. (l'.regions q).prev ≡ l.count + 1) next
              (m.next_prev (rw next x_at) (rw next (ne→== x null r.nodes.1)) (rw next x_ne)),
          Back-frame l'.regions l.regions x xs
              (λ c i.
                let ne : (c == region) ≡ false =
                  has_other region c (x ∷ xs) r.apart (ground (arith, i)) in
                let other : (c == x) ≡ false = has_other x c xs r.distinct.0 i in
                let kept : (store region n l).regions c ≡ l.regions c = rw ne refl in
                ap (λ q. q.prev)
                  (m.untouched c (r.placed c (ground (arith, i))) ne (rw (next, other) refl)
                    ∙ kept))
              r.back.1,
        ),
      )

  split-Cut :
      (reserved_end region_end : ℕ)
      → let n = record (l.regions region) { size = start - (l.regions region).base } in
        region ≤ l.count
        → ((a : ℕ)
            → (holds n a || within reserved_end (reserved_end + (region_end - reserved_end)) a)
              ≡ (holds (l.regions region) a && not (within start (start + size) a)))
        → Cut start size region
            ((l.count + 1) ∷ [])
            l
            (link_second region reserved_end region_end (store region n l))
  split-Cut reserved_end region_end h same =
      let n = record (l.regions region) { size = start - (l.regions region).base } in
      let m = link_second-Linked region reserved_end region_end (store region n l) h in
      let l' = link_second region reserved_end region_end (store region n l) in
      let stored : (store region n l).regions region ≡ n = rw (==_refl region) refl in
      record {
        nodes = λ xs h e k c.
            let new = k (l.count + 1) (ground (arith, ==_refl (l.count + 1))) in
            (
              e ∙ m.first_next,
              λ z. absurd (omega (arith, z)),
              subst (Nodes h xs) (sym (new ∙ m.second_next ∙ ap (λ q. q.next) stored)) c,
            );
        cover = λ a.
            ap₂ (λ x y. x || y)
              (ap₂ (λ b s. within b (b + s) a) (m.first_base ∙ ap (λ q. q.base) stored)
                (m.first_size ∙ ap (λ q. q.size) stored))
              (or_none (holds (l'.regions (l.count + 1)) a)
                ∙ ap₂ (λ b s. within b (b + s) a) m.second_base m.second_size)
            ∙ same a;
        fresh = λ c i.
            let it = (==_iff c (l.count + 1)).0 (ground (arith, i)) in
            (omega (arith, it), omega (arith, it, m.count));
        others = λ c i ne.
            let kept : (store region n l).regions c ≡ l.regions c = rw ne refl in
            subst (Same (l'.regions c)) kept (m.others c i ne);
        untouched = λ c i ne other. m.untouched c i ne (rw (==_refl region) other) ∙ rw ne refl;
        prev = λ ne. m.first_prev (rw (==_refl region) ne) ∙ ap (λ q. q.prev) stored;
        back = λ xs r. split-Back reserved_end region_end h xs r;
        grows = omega (arith, m.count);
        by_one = omega (arith, m.count);
      }

  -- A region that the range does not hold whole, where the array has room.
  pub subtract_node-Cut :
      region ≤ l.count
      → l.count < max_regions
      → start + size < 2 ^ 64
      → (l.regions region).base + (l.regions region).size < 2 ^ 64
      → (leb start (l.regions region).base
          && leb ((l.regions region).base + (l.regions region).size) (start + size))
        ≡ false
      → (ys : List Ptr) × Cut start size region ys l (subtract_node start size region l)
  unfolding subtract_node
  subtract_node-Cut h room f g partly =
      let n = l.regions region in
      let e₁ : (start + size) % 2 ^ 64 ≡ start + size = omega arith in
      let e₂ : (n.base + n.size) % 2 ^ 64 ≡ n.base + n.size = omega arith in
      let free : ltb l.count max_regions ≡ true = ground (arith, room) in
      let apart = leb (n.base + n.size) start || leb (start + size) n.base in
      let first = leb start n.base && ltb (start + size) (n.base + n.size) in
      let last = ltb n.base start && leb (n.base + n.size) (start + size) in
      let middle = ltb n.base start && ltb (start + size) (n.base + n.size) in
      rw (e₁, e₂, partly, free)
        (elim (Bool-cases apart) [
          | inl t ↦ rw t ([], apart-Cut λ a. ground (arith, t))
          | inr t ↦ rw t (elim (Bool-cases first) [
            | inl t₂ ↦ rw t₂ ([], store-Cut _ refl refl λ a. ground (arith, t, t₂))
            | inr t₂ ↦ rw t₂ (elim (Bool-cases last) [
              | inl t₃ ↦ rw t₃ ([], store-Cut _ refl refl λ a. ground (arith, t, t₃))
              | inr t₃ ↦
                  let t₄ : middle ≡ true = ground (arith, t, t₂, t₃, partly) in
                  rw (t₃, t₄)
                    (
                      (l.count + 1) ∷ [],
                      split-Cut (start + size) (n.base + n.size) h λ a. ground (arith, t, t₄),
                    )
            ])
          ])
        ])
