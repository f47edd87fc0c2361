-- ===== src/FreeMemory/Cover.antt =====
-- The addresses that a list of regions covers, and the subtraction of a range
-- (platform/x64/platform_mem.c).
use picokernel.Prelude.{
  ℕ, suc, ◌+◌, ◌-◌, ◌^◌, ◌≤◌, ◌<◌, ◌≡◌, refl, sym, ap, ◌∙◌, Bool, true, false, ◌&&◌, ◌||◌, not,
  List, [], ◌∷◌, ◌++◌, ltb, leb, if◌then◌else◌, length, length-append, arith, All, Bool-cases, inl,
  inr,
}
use picokernel.FreeMemory.{Region, end_of, emit, subtract_one}

-- The address `a` lies in the range from `start` on, before `end_`.
abbrev pub within : (start end_ a : ℕ) → Bool
within start end_ a = leb start a && ltb a end_

abbrev pub covers : List Region → ℕ → Bool
covers [] a = false
covers (r ∷ rs) a = within r.base (r.base + r.size) a || covers rs a

-- The region ends within the address space.
abbrev pub Fits : Region → Type 0
Fits r = r.base + r.size < 2 ^ 64

covers-append : (rs qs : List Region) (a : ℕ) → covers (rs ++ qs) a ≡ (covers rs a || covers qs a)
covers-append [] qs a = refl
covers-append (r ∷ rs) qs a = ground (arith, covers-append rs qs a)

Fits-append : (rs qs : List Region) → All Fits rs → All Fits qs → All Fits (rs ++ qs)
Fits-append [] qs f g = g
Fits-append (r ∷ rs) qs f g = (f.0, Fits-append rs qs f.1 g)

-- What the output covers after an `emit`: the region too, unless the output is full.
record Emitted (max_output : ℕ) (r : Region) (out : List Region) (s : Bool × List Region)
    : Type 0 where
  pub room : length out < max_output → s.0 ≡ true
  pub size : length s.1 ≤ suc (length out)
  pub exact :
      (a : ℕ) → s.0 ≡ true → covers s.1 a ≡ (covers out a || within r.base (r.base + r.size) a)
  pub full : s.0 ≡ false → s.1 ≡ out
  pub fits : Fits r → All Fits out → All Fits s.1

emit-Emitted :
    (max_output : ℕ) (r : Region) (out : List Region)
    → Emitted max_output r out (emit max_output r out)
emit-Emitted max_output r out = elim (Bool-cases (leb max_output (length out))) [
  | inl full ↦ rw full (record {
    room = λ h. absurd (ground (arith, full));
    size = omega arith;
    exact = λ a e. absurd (ground (arith, e));
    full = λ e. refl;
    fits = λ f g. g;
  })
  | inr room ↦ rw room (record {
    room = λ h. refl;
    size = omega (arith, length-append out (r ∷ []));
    exact = λ a e. covers-append out (r ∷ []) a ∙ ground arith;
    full = λ e. absurd (ground (arith, e));
    fits = λ f g. Fits-append out (r ∷ []) g (f, tt);
  })
]

-- What the region `r` less the reserved range adds to the output.
abbrev pub left_of : Region → (reserved_base reserved_end a : ℕ) → Bool
left_of r reserved_base reserved_end a =
    within r.base (r.base + r.size) a && not (within reserved_base reserved_end a)

-- The output after a region: it covers what it did and what is left of the region, unless it is full.
pub record Subtracted (reserved_base reserved_end max_output : ℕ) (r : Region) (out : List Region)
    (s : Bool × List Region) : Type 0 where
  pub room : length out + 2 ≤ max_output → s.0 ≡ true
  pub size : length s.1 ≤ length out + 2
  pub exact :
      (a : ℕ) → s.0 ≡ true → covers s.1 a ≡ (covers out a || left_of r reserved_base reserved_end a)
  pub sound :
      (a : ℕ)
      → covers s.1 a ≡ true
      → (covers out a || left_of r reserved_base reserved_end a) ≡ true
  pub fits : All Fits out → All Fits s.1

or_assoc : (x y z : Bool) → ((x || y) || z) ≡ (x || (y || z))
or_assoc true y z = refl
or_assoc false y z = refl

or_more : (x y z w : Bool) → (y || z) ≡ w → (x || y) ≡ true → (x || w) ≡ true
or_more x y z w e h = ground (arith, e, h)

module _ (reserved_base reserved_end max_output : ℕ) (r : Region) (out : List Region) where
  none-Subtracted :
      ((a : ℕ) → left_of r reserved_base reserved_end a ≡ false)
      → Subtracted reserved_base reserved_end max_output r out (true, out)
  none-Subtracted none_left = record {
    room = λ h. refl;
    size = omega arith;
    exact = λ a e. rw (none_left a) (ground arith);
    sound = λ a e. ground (arith, e);
    fits = λ f. f;
  }

  piece-Subtracted :
      (p : Region)
      → Fits p
      → ((a : ℕ) → within p.base (p.base + p.size) a ≡ left_of r reserved_base reserved_end a)
      → Subtracted reserved_base reserved_end max_output r out (emit max_output p out)
  piece-Subtracted p f same =
      let m = emit-Emitted max_output p out in
      let s = emit max_output p out in
      record {
        room = λ h. m.room (omega arith);
        size = omega (arith, m.size);
        exact = λ a e. m.exact a e ∙ ap (λ b. covers out a || b) (same a);
        sound = λ a e. elim (Bool-cases s.0) [
          | inl on ↦ sym (m.exact a on ∙ ap (λ b. covers out a || b) (same a)) ∙ e
          | inr off ↦
              let old : covers out a ≡ true = ap (λ o. covers o a) (sym (m.full off)) ∙ e in
              rw old refl
        ];
        fits = m.fits f;
      }

  two-Subtracted :
      (p q : Region) (s : Bool × List Region)
      → Emitted max_output p out s
      → Fits p
      → Fits q
      → ((a : ℕ)
          → (within p.base (p.base + p.size) a || within q.base (q.base + q.size) a)
            ≡ left_of r reserved_base reserved_end a)
      → Subtracted reserved_base reserved_end max_output r out
          (if s.0 then emit max_output q s.1 else (false, s.1))
  two-Subtracted p q (false, out') m f g same = record {
    room = λ h. m.room (omega arith);
    size = omega (arith, m.size);
    exact = λ a e. absurd (ground (arith, e));
    sound = λ a e.
        let old : covers out a ≡ true = ap (λ o. covers o a) (sym (m.full refl)) ∙ e in rw old refl;
    fits = m.fits f;
  }
  two-Subtracted p q (true, out') m f g same =
      let m' = emit-Emitted max_output q out' in
      let u = emit max_output q out' in
      let old = λ (a : ℕ). m.exact a refl in
      record {
        room = λ h. m'.room (omega (arith, m.size));
        size = omega (arith, m.size, m'.size);
        exact = λ a e.
            m'.exact a e
            ∙ ap (λ b. b || within q.base (q.base + q.size) a) (old a)
            ∙ or_assoc (covers out a) (within p.base (p.base + p.size) a)
                (within q.base (q.base + q.size) a)
            ∙ ap (λ b. covers out a || b) (same a);
        sound = λ a e. elim (Bool-cases u.0) [
          | inl on ↦
              sym (
                m'.exact a on
                ∙ ap (λ b. b || within q.base (q.base + q.size) a) (old a)
                ∙ or_assoc (covers out a) (within p.base (p.base + p.size) a)
                    (within q.base (q.base + q.size) a)
                ∙ ap (λ b. covers out a || b) (same a))
              ∙ e
          | inr off ↦
              or_more (covers out a) (within p.base (p.base + p.size) a)
                (within q.base (q.base + q.size) a) _ (same a)
                (sym (ap (λ o. covers o a) (m'.full off) ∙ old a) ∙ e)
        ];
        fits = λ h. m'.fits g (m.fits f h);
      }

  pub subtract_one-Subtracted :
      Fits r
      → Subtracted reserved_base reserved_end max_output r out
          (subtract_one reserved_base reserved_end max_output r out)
  unfolding subtract_one
  subtract_one-Subtracted f =
      let e : end_of r ≡ r.base + r.size = omega arith in
      let before : Region = record { base = r.base; size = reserved_base - r.base } in
      let after : Region = record { base = reserved_end; size = end_of r - reserved_end } in
      let apart = leb (end_of r) reserved_base || leb reserved_end r.base in
      let inside = leb reserved_base r.base && leb (end_of r) reserved_end in
      let middle = ltb r.base reserved_base && ltb reserved_end (end_of r) in
      let start = leb reserved_base r.base && ltb reserved_end (end_of r) in
      let end_ = ltb r.base reserved_base && leb (end_of r) reserved_end in
      elim (Bool-cases apart) [
        | inl t ↦ rw t (piece-Subtracted r f λ a. ground (arith, e, t))
        | inr t ↦ rw t (elim (Bool-cases inside) [
          | inl t₂ ↦ rw t₂ (none-Subtracted λ a. ground (arith, e, t₂))
          | inr t₂ ↦ rw t₂ (elim (Bool-cases middle) [
            | inl t₃ ↦ rw t₃ (
                two-Subtracted before after _ (emit-Emitted max_output before out)
                  (ground (arith, e, f, t, t₃)) (ground (arith, e, f, t, t₃))
                  λ a. ground (arith, e, t, t₃))
            | inr t₃ ↦ rw t₃ (elim (Bool-cases start) [
              | inl t₄ ↦
                  rw t₄ (
                    piece-Subtracted after (ground (arith, e, f, t₄)) λ a. ground (arith, e, t, t₄))
              | inr t₄ ↦
                  let last : end_ ≡ true = ground (arith, t, t₂, t₃, t₄) in
                  rw (t₄, last)
                    (piece-Subtracted before (ground (arith, e, f, t, last))
                      λ a. ground (arith, e, t, last))
            ])
          ])
        ])
      ]
