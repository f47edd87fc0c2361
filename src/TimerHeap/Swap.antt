-- ===== src/TimerHeap/Swap.antt =====
-- `timer_heap_swap` of kernel/timer_heap.c, request by request.
use picokernel.Prelude.{◌≡◌, ◌≢◌, false, arith, ◌==◌, ne→==, ==_refl, inl, inr, Bool-cases, ==_iff}
use picokernel.State.{Ptr, Request}
use picokernel.TimerHeap.{swap}

-- A request with the payload of another: its deadline and its work item.
abbrev pub with_payload : Request → Request → Request
with_payload r from = record r { work = from.work; deadline_ns = from.deadline_ns }

pub swap_left : (h : Ptr → Request) (a b : Ptr) → swap h a b a ≡ with_payload (h a) (h b)
unfolding swap
swap_left h a b = elim (Bool-cases (a == b)) [
  | inl e ↦ let e' : a ≡ b = (==_iff a b).0 e in rw (e', ==_refl b)
  | inr ne ↦ let ne' : (b == a) ≡ false = ground arith in rw (ne, ne', ==_refl a, ==_refl b)
]

pub swap_right : (h : Ptr → Request) (a b : Ptr) → swap h a b b ≡ with_payload (h b) (h a)
unfolding swap
swap_right h a b = elim (Bool-cases (a == b)) [
  | inl e ↦ let e' : a ≡ b = (==_iff a b).0 e in rw (e', ==_refl b)
  | inr ne ↦ let ne' : (b == a) ≡ false = ground arith in rw (ne', ne, ==_refl a, ==_refl b)
]

pub swap_other : (h : Ptr → Request) (a b c : Ptr) → c ≢ a → c ≢ b → swap h a b c ≡ h c
unfolding swap
swap_other h a b c na nb = rw (ne→== c a na, ne→== c b nb)

-- The pointers of the tree stay.
pub record SameLinks (h g : Ptr → Request) : Type 0 where
  pub parent : (a : Ptr) → (g a).parent ≡ (h a).parent
  pub left : (a : Ptr) → (g a).left ≡ (h a).left
  pub right : (a : Ptr) → (g a).right ≡ (h a).right

pub swap-SameLinks : (h : Ptr → Request) (a b : Ptr) → SameLinks h (swap h a b)
unfolding swap
swap-SameLinks h a b = record {
  parent = λ c. ground arith;
  left = λ c. ground arith;
  right = λ c. ground arith;
}
