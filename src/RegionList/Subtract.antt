-- ===== src/RegionList/Subtract.antt =====
-- The subtraction of a range that holds no region whole (platform/arm64/platform_core.c).
use picokernel.Prelude.{
  ℕ, zero, suc, ◌+◌, ◌^◌, ◌≤◌, ◌<◌, ◌≡◌, ◌≢◌, refl, sym, ap, ap₂, subst, ◌∙◌, Bool, true, false,
  arith, ◌==◌, ◌&&◌, ◌||◌, not, leb, some, List, [], ◌∷◌, ◌++◌, has, length, Distinct, ne→==,
  ==_refl, Bool-cases, inl, inr,
}
use picokernel.State.{Ptr, null}
use picokernel.FreeMemory.{max_regions}
use picokernel.FreeMemory.Cover.{within}
use picokernel.Virtqueue.Sets.{has_other}
use picokernel.Kernel.Queues.{last_or}
use picokernel.RegionList.{Node, FreeList, subtract_node, subtract_nodes}
use picokernel.RegionList.Split.{Same, Same-refl}
use picokernel.RegionList.Cut.{
  Nodes, Back, Back-frame, Back-append, Back-split, Rest, holds, any_holds, Cut, subtract_node-Cut,
}

or_assoc : (x y z : Bool) → (x || (y || z)) ≡ ((x || y) || z)
or_assoc true y z = refl
or_assoc false y z = refl

and_over_or : (x y n : Bool) → ((x && n) || (y && n)) ≡ ((x || y) && n)
and_over_or true y n = ground arith
and_over_or false y n = refl

Nodes-frame :
    (h g : Ptr → Node) (xs : List Ptr) (p : Ptr)
    → ((c : Ptr) → has c xs ≡ true → Same (h c) (g c))
    → Nodes g xs p
    → Nodes h xs p
Nodes-frame h g [] p same c = c
Nodes-frame h g (x ∷ xs) p same c = (
  c.0,
  c.1,
  subst (Nodes h xs) (sym (same x (ground (arith, ==_refl x))).next)
      (Nodes-frame h g xs (g x).next (λ a i. same a (ground arith)) c.2),
)

holds-Same : (n m : Node) (a : ℕ) → Same n m → holds n a ≡ holds m a
holds-Same n m a s = ap₂ (λ b z. within b (b + z) a) s.base s.size

any_holds-frame :
    (h g : Ptr → Node) (xs : List Ptr) (a : ℕ)
    → ((c : Ptr) → has c xs ≡ true → Same (h c) (g c))
    → any_holds h xs a ≡ any_holds g xs a
any_holds-frame h g [] a same = refl
any_holds-frame h g (x ∷ xs) a same =
    ap₂ (λ y z. y || z) (holds-Same (h x) (g x) a (same x (ground (arith, ==_refl x))))
      (any_holds-frame h g xs a λ c i. same c (ground arith))

any_holds-append :
    (h : Ptr → Node) (xs ys : List Ptr) (a : ℕ)
    → any_holds h (xs ++ ys) a ≡ (any_holds h xs a || any_holds h ys a)
any_holds-append h [] ys a = refl
any_holds-append h (x ∷ xs) ys a =
    ap (λ b. holds (h x) a || b) (any_holds-append h xs ys a)
    ∙ or_assoc (holds (h x) a) (any_holds h xs a) (any_holds h ys a)

-- The nodes `xs` from `p` on, whose `prev` pointers lead back to `before`, all of them in the used
-- part of the array, each of which loses at most a part of itself, and room for a new one for each
-- of them.
pub record Ready (start size : ℕ) (before : Ptr) (xs : List Ptr) (p : Ptr) (l : FreeList)
    : Type 0 where
  pub nodes : Nodes l.regions xs p
  pub back : Back l.regions before xs
  pub distinct : Distinct xs
  pub placed : (c : Ptr) → has c xs ≡ true → c ≤ l.count
  pub room : l.count + length xs ≤ max_regions
  pub range_fits : start + size < 2 ^ 64
  pub fits : (c : Ptr) → has c xs ≡ true → (l.regions c).base + (l.regions c).size < 2 ^ 64
  pub partly :
      (c : Ptr)
      → has c xs ≡ true
      → (leb start (l.regions c).base
          && leb ((l.regions c).base + (l.regions c).size) (start + size))
        ≡ false

-- The nodes `ys` from `p` on, doubly linked, hold what `xs` did, less the range, and the other
-- nodes are as they were.
pub record Less (start size : ℕ) (before : Ptr) (xs ys : List Ptr) (p : Ptr) (l l' : FreeList)
    : Type 0 where
  pub nodes : Nodes l'.regions ys p
  pub back : Back l'.regions before ys
  pub cover :
      (a : ℕ)
      → any_holds l'.regions ys a
        ≡ (any_holds l.regions xs a && not (within start (start + size) a))
  pub others : (c : Ptr) → c ≤ l.count → has c xs ≡ false → l'.regions c ≡ l.regions c

more :
    (fuel start size : ℕ) (p x : Ptr) (l : FreeList)
    → p ≡ x
    → x ≢ null
    → subtract_nodes (suc fuel) start size p l
      ≡ subtract_nodes fuel start size (l.regions x).next (subtract_node start size x l)
unfolding subtract_nodes
more fuel start size p x l e ne = rw (e, ne→== x null ne) refl

done :
    (fuel start size : ℕ) (p : Ptr) (l : FreeList)
    → p ≡ null
    → subtract_nodes (suc fuel) start size p l ≡ some l
unfolding subtract_nodes
done fuel start size p l e = rw e refl

-- A node that is none of the list's is not the first one of it.
not_first :
    (h : Ptr → Node) (xs : List Ptr) (p c : Ptr)
    → Nodes h xs p
    → has c xs ≡ false
    → ((c == p) && not (p == null)) ≡ false
not_first h [] p c n o = rw n (ground arith)
not_first h (x ∷ xs) p c n o = rw n.0 (ground arith)

not_next :
    (h : Ptr → Node) (xs : List Ptr) (p c : Ptr)
    → Nodes h xs p
    → c ≢ null
    → has c xs ≡ false
    → (c == p) ≡ false
not_next h [] p c n there o = rw n (ne→== c null there)
not_next h (x ∷ xs) p c n there o = rw n.0 (ground arith)

module _ (start size : ℕ) (before x : Ptr) (xs ys : List Ptr) (p : Ptr) (l l₁ : FreeList) where
  Ready-Rest : Ready start size before (x ∷ xs) p l → Rest l x xs
  Ready-Rest r = record {
    nodes = r.nodes.2;
    placed = λ b i. r.placed b (ground arith);
    apart = r.distinct.0;
    distinct = r.distinct.1;
    back = r.back.1;
  }

  first_prev :
      Ready start size before (x ∷ xs) p l → Cut start size x ys l l₁ → (l₁.regions x).prev ≡ before
  first_prev r c =
      c.prev (not_next l.regions xs (l.regions x).next x r.nodes.2 r.nodes.1 r.distinct.0)
      ∙ r.back.0

  -- The rest of the list after the first node was cut.
  Ready-Cut :
      Ready start size before (x ∷ xs) p l
      → Cut start size x ys l l₁
      → Ready start size (last_or x ys) xs (l.regions x).next l₁
  Ready-Cut r c =
      let same = λ (b : Ptr) (i : has b xs ≡ true).
        c.others b (r.placed b (ground arith)) (has_other x b xs r.distinct.0 i) in
      record {
        nodes = Nodes-frame l₁.regions l.regions xs (l.regions x).next same r.nodes.2;
        back = (Back-split l₁.regions x ys xs (c.back xs (Ready-Rest r))).1;
        distinct = r.distinct.1;
        placed = λ b i. omega (arith, r.placed b (ground arith), c.grows);
        room = omega (arith, r.room, c.by_one);
        range_fits = r.range_fits;
        fits = λ b i. let s = same b i in rw (s.base, s.size) (r.fits b (ground arith));
        partly = λ b i. let s = same b i in rw (s.base, s.size) (r.partly b (ground arith));
      }

  Less-Cut :
      (zs : List Ptr) (l' : FreeList)
      → Ready start size before (x ∷ xs) p l
      → Cut start size x ys l l₁
      → Less start size (last_or x ys) xs zs (l.regions x).next l₁ l'
      → Less start size before (x ∷ xs) (x ∷ ys ++ zs) p l l'
  Less-Cut zs l' r c m =
      let kept_x =
        m.others x (omega (arith, r.placed x (ground (arith, ==_refl x)), c.grows)) r.distinct.0 in
      let kept_ys = λ (b : Ptr) (i : has b ys ≡ true).
        m.others b ((c.fresh b i).1) (elim (Bool-cases (has b xs)) [
          | inl old ↦ absurd (omega (arith, r.placed b (ground (arith, old)), (c.fresh b i).0))
          | inr none_of ↦ none_of
        ]) in
      record {
        nodes = (
          r.nodes.0,
          r.nodes.1,
          c.nodes zs l'.regions (ap (λ q. q.next) kept_x) (λ b i. ap (λ q. q.next) (kept_ys b i))
              m.nodes,
        );
        back = (
          ap (λ q. q.prev) kept_x ∙ first_prev r c,
          Back-append l'.regions x ys zs
              (Back-frame l'.regions l₁.regions x ys (λ b i. ap (λ q. q.prev) (kept_ys b i))
                (Back-split l₁.regions x ys xs (c.back xs (Ready-Rest r))).0)
              m.back,
        );
        cover = λ a.
            let same = λ (b : Ptr) (i : has b xs ≡ true).
              c.others b (r.placed b (ground arith)) (has_other x b xs r.distinct.0 i) in
            ap (λ b. holds (l'.regions x) a || b) (any_holds-append l'.regions ys zs a)
            ∙ or_assoc (holds (l'.regions x) a) (any_holds l'.regions ys a)
                (any_holds l'.regions zs a)
            ∙ ap₂ (λ y z. y || z)
                (ap₂ (λ y z. y || z) (ap (λ q. holds q a) kept_x)
                    (any_holds-frame l'.regions l₁.regions ys a
                      (λ b i. subst (Same (l'.regions b)) (kept_ys b i) (Same-refl (l'.regions b))))
                  ∙ c.cover a)
                (m.cover a
                  ∙ ap (λ b. b && not (within start (start + size) a))
                      (any_holds-frame l₁.regions l.regions xs a same))
            ∙ and_over_or (holds (l.regions x) a) (any_holds l.regions xs a)
                (not (within start (start + size) a));
        others = λ b i o.
            m.others b (omega (arith, i, c.grows)) (ground (arith, o))
            ∙ c.untouched b i (ground (arith, o))
                (not_first l.regions xs (l.regions x).next b r.nodes.2 (ground (arith, o)));
      }

-- For a doubly linked list of distinct nodes in the used part of the array, with room for a new one
-- for each of them, of which the range holds none whole: the loop ends within any fuel above their
-- number, and leaves a list from the same node on, doubly linked too, that holds exactly what the
-- first one did and the range does not; the nodes in use that are not of the list are as they were.
pub subtract_nodes-Less :
    (xs : List Ptr) (fuel start size : ℕ) (before p : Ptr) (l : FreeList)
    → Ready start size before xs p l
    → length xs < fuel
    → (l' : FreeList) × (ys : List Ptr) × (subtract_nodes fuel start size p l ≡ some l')
      × Less start size before xs ys p l l'
subtract_nodes-Less xs zero start size before p l r f = absurd (omega arith)
subtract_nodes-Less [] (suc fuel) start size before p l r f = (
  l,
  [],
  done fuel start size p l r.nodes,
  record { nodes = r.nodes; back = tt; cover = λ a. refl; others = λ c i o. refl },
)
subtract_nodes-Less (x ∷ xs) (suc fuel) start size before p l r f =
    let here : has x (x ∷ xs) ≡ true = ground (arith, ==_refl x) in
    let (ys, c) =
      subtract_node-Cut start size x l (r.placed x here) (omega (arith, r.room)) r.range_fits
        (r.fits x here) (r.partly x here) in
    let l₁ = subtract_node start size x l in
    let (l', zs, e, m) =
      subtract_nodes-Less xs fuel start size (last_or x ys) (l.regions x).next l₁
        (Ready-Cut start size before x xs ys p l l₁ r c) (omega arith) in
    (
      l',
      x ∷ ys ++ zs,
      more fuel start size p x l r.nodes.0 r.nodes.1 ∙ e,
      Less-Cut start size before x xs ys p l l₁ zs l' r c m,
    )
