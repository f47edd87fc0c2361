-- ===== src/Libc/Move.antt =====
-- What `memcpy`, `memmove` and `memset` (libc/string.c) leave in memory.
use native.Mathlib.Decide.{dec_lt}
use picokernel.Prelude.{
  ℕ, zero, suc, ◌+◌, ◌-◌, ◌%◌, ◌^◌, ◌≤◌, ◌<◌, ◌≡◌, refl, ◌∙◌, arith, ◌==◌, ltb, leb, if◌then◌else◌,
  update, ◌&&◌, inl, inr, ◌⊎◌, Bool-cases, ==_iff, lt→ltb, nlt→ltb, leb→le, sym, subst,
}
use picokernel.Libc.{Memory, copy_forward, copy_backward, memcpy, memmove, fill, memset}

-- What stands at `a` when the `n` bytes from `src` on were moved to `dest`.
abbrev pub moved : (dest src n : ℕ) → Memory → ℕ → ℕ
moved dest src n m a = if leb dest a && ltb a (dest + n) then m (src + (a - dest)) else m a

copy_forward-at :
    (rounds i dest src : ℕ) (m : Memory) (a : ℕ)
    → (dest ≤ src) ⊎ (src + (i + rounds) ≤ dest)
    → copy_forward rounds i dest src m a
      ≡ (if leb (dest + i) a && ltb a (dest + i + rounds) then m (src + (a - dest)) else m a)
unfolding copy_forward
copy_forward-at zero i dest src m a le = ground arith
copy_forward-at (suc rounds) i dest src m a le =
    let rest =
      copy_forward-at rounds (i + 1) dest src (update m (dest + i) (m (src + i))) a
        (ground (arith, le)) in
    elim (Bool-cases (a == dest + i)) [
      | inl e ↦
          let e' : a ≡ dest + i = (==_iff a (dest + i)).0 e in
          let back : src + (dest + i - dest) ≡ src + i = omega arith in
          rest ∙ rw (e', back) (ground arith)
      | inr ne ↦ rest ∙ ground (arith, le)
    ]

copy_backward-at :
    (i dest src : ℕ) (m : Memory) (a : ℕ)
    → src < dest
    → copy_backward i dest src m a ≡ moved dest src i m a
unfolding copy_backward
copy_backward-at zero dest src m a lt = ground arith
copy_backward-at (suc i) dest src m a lt =
    let rest = copy_backward-at i dest src (update m (dest + i) (m (src + i))) a lt in
    elim (Bool-cases (a == dest + i)) [
      | inl e ↦
          let e' : a ≡ dest + i = (==_iff a (dest + i)).0 e in
          let back : src + (dest + i - dest) ≡ src + i = omega arith in
          rest ∙ rw (e', back) (ground arith)
      | inr ne ↦ rest ∙ ground arith
    ]

forward-moved :
    (n dest src : ℕ) (m : Memory) (a : ℕ)
    → (dest ≤ src) ⊎ (src + n ≤ dest)
    → copy_forward n 0 dest src m a ≡ moved dest src n m a
forward-moved n dest src m a apart =
    let start : dest + 0 ≡ dest = omega arith in
    subst
      (λ d.
        copy_forward n 0 dest src m a
        ≡ (if leb d a && ltb a (d + n) then m (src + (a - dest)) else m a))
      start (copy_forward-at n 0 dest src m a (ground (arith, apart)))

moved_same : (dest src n : ℕ) (m : Memory) (a : ℕ) → dest ≡ src → m a ≡ moved dest src n m a
moved_same dest src n m a e = elim (Bool-cases (leb dest a)) [
  | inl le ↦
      let back : src + (a - dest) ≡ a = ground (arith, leb→le dest a le) in rw back (ground arith)
  | inr far ↦ rw far refl
]

-- For any two areas of `n` bytes, overlapping or not, `memmove` leaves at the destination the bytes
-- that stood at the source before, and every other byte as it was.
pub memmove_lem :
    (dest src n : ℕ) (m : Memory) (a : ℕ) → memmove dest src n m a ≡ moved dest src n m a
unfolding memmove
memmove_lem dest src n m a = elim (dec_lt dest src) [
  | yes below ↦
      rw (memmove, lt→ltb dest src below) (forward-moved n dest src m a (inl (omega arith)))
  | no not_below ↦ elim (dec_lt src dest) [
    | yes above ↦
        rw (memmove, nlt→ltb dest src not_below, lt→ltb src dest above)
          (copy_backward-at n dest src m a above)
    | no not_above ↦
        rw (memmove, nlt→ltb dest src not_below, nlt→ltb src dest not_above)
          (moved_same dest src n m a (omega arith))
  ]
]

-- For areas that do not overlap, or with the destination below the source, `memcpy` does what
-- `memmove` does.
pub memcpy-memmove :
    (dest src n : ℕ) (m : Memory) (a : ℕ)
    → (dest ≤ src) ⊎ ((src + n ≤ dest))
    → memcpy dest src n m a ≡ memmove dest src n m a
unfolding memcpy
memcpy-memmove dest src n m a apart =
    forward-moved n dest src m a apart ∙ sym (memmove_lem dest src n m a)

fill-at :
    (rounds i s c : ℕ) (m : Memory) (a : ℕ)
    → fill rounds i s c m a ≡ (if leb (s + i) a && ltb a (s + i + rounds) then c % 2 ^ 8 else m a)
unfolding fill
fill-at zero i s c m a = ground arith
fill-at (suc rounds) i s c m a =
    fill-at rounds (i + 1) s c (update m (s + i) (c % 2 ^ 8)) a ∙ ground arith

-- `memset` leaves the low byte of `c` in each of the `n` bytes and the others as they were.
memset_lem :
    (s c n : ℕ) (m : Memory) (a : ℕ)
    → memset s c n m a ≡ (if leb s a && ltb a (s + n) then c % 2 ^ 8 else m a)
unfolding memset
memset_lem s c n m a =
    let start : s + 0 ≡ s = omega arith in
    subst (λ d. fill n 0 s c m a ≡ (if leb d a && ltb a (d + n) then c % 2 ^ 8 else m a)) start
      (fill-at n 0 s c m a)
