-- ===== src/Dispatch/Complete.antt =====
-- The loops of `platform_submit` (platform/shared/platform_virtio.c) that complete a whole list.
use picokernel.Prelude.{
  ℕ, zero, suc, ◌<◌, ◌≡◌, ◌≢◌, refl, ap, ◌∙◌, true, false, some, List, [], ◌∷◌, arith, ◌==◌, length,
  has, Distinct, ne→==, ==_refl, ==_iff, Bool-cases, inl, inr,
}
use picokernel.State.{Ptr, null, Kerr, WorkState, Kernel, work_at}
use picokernel.Kernel.{complete_work}
use picokernel.Kernel.Queues.{Chain, Chain-frame, complete_work-cons, complete_work_other}
use picokernel.Virtqueue.Sets.{has_other}
use picokernel.Dispatch.{complete_list}

-- The items `xs` in front of `ys`, the last one first.
abbrev pub reversed : List Ptr → List Ptr → List Ptr
reversed [] ys = ys
reversed (x ∷ xs) ys = reversed xs (x ∷ ys)

-- The kernel after the items `xs` were completed with the result `e`, where the ready queue held `ys`.
pub record Completed (k k' : Kernel) (xs ys : List Ptr) (e : Kerr) : Type 0 where
  pub queue : Chain k'.requests (reversed xs ys) k'.ready_queue_head
  pub result : (a : Ptr) → has a xs ≡ true → (work_at k' a).result ≡ e
  pub ready : (a : Ptr) → has a xs ≡ true → (work_at k' a).state ≡ WorkState.ready
  pub others : (a : Ptr) → has a xs ≡ false → k'.requests a ≡ k.requests a

pub none-Completed :
    (k : Kernel) (ys : List Ptr) (e : Kerr)
    → Chain k.requests ys k.ready_queue_head
    → Completed k k [] ys e
none-Completed k ys e q = record {
  queue = q;
  result = λ a i. absurd (ground arith);
  ready = λ a i. absurd (ground arith);
  others = λ a i. refl;
}

complete_list_more :
    (fuel : ℕ) (head x : Ptr) (e : Kerr) (k : Kernel)
    → head ≡ x
    → x ≢ null
    → complete_list (suc fuel) head e k
      ≡ complete_list fuel (work_at k x).next e (complete_work k x e)
unfolding complete_list
complete_list_more fuel head x e k same ne = rw (same, ne→== x null ne) refl

complete_list_end :
    (fuel : ℕ) (head : Ptr) (e : Kerr) (k : Kernel)
    → head ≡ null
    → complete_list (suc fuel) head e k ≡ some k
unfolding complete_list
complete_list_end fuel head e k same = rw same refl

-- For a list of distinct items none of which is in the ready queue, the loop ends within any fuel
-- above their number: all of them are READY with the given result, the ready queue holds them in
-- front of what it held, the last one first, and no other request is touched.
pub complete_list-Completed :
    (xs ys : List Ptr) (fuel : ℕ) (head : Ptr) (e : Kerr) (k : Kernel)
    → Chain k.requests xs head
    → Chain k.requests ys k.ready_queue_head
    → Distinct xs
    → ((a : Ptr) → has a xs ≡ true → has a ys ≡ false)
    → length xs < fuel
    → (k' : Kernel) × (complete_list fuel head e k ≡ some k') × Completed k k' xs ys e
complete_list-Completed xs ys zero head e k c q d apart f = absurd (omega arith)
complete_list-Completed [] ys (suc fuel) head e k c q d apart f =
    (k, complete_list_end fuel head e k c, none-Completed k ys e q)
complete_list-Completed (x ∷ xs) ys (suc fuel) head e k c q d apart f =
    let k₁ = complete_work k x e in
    let (queue, work, _) =
      complete_work-cons k ys x e q c.1 (apart x (ground (arith, ==_refl x))) in
    let kept = λ (a : Ptr) (ne : (a == x) ≡ false). complete_work_other k x a e ne in
    let (k', eq, r) =
      complete_list-Completed xs (x ∷ ys) fuel (work_at k x).next e k₁
        (Chain-frame k.requests k₁.requests xs _
          (λ a i. ap (λ p. p.work.next) (kept a (has_other x a xs d.0 i))) c.2)
        queue d.1 (λ a i. ground (arith, has_other x a xs d.0 i, apart a)) (omega arith) in
    let first = r.others x d.0 in
    (
      k',
      complete_list_more fuel head x e k c.0 c.1 ∙ eq,
      record {
        queue = r.queue;
        result = λ a i. elim (Bool-cases (a == x)) [
          | inl same ↦
              ap (λ b. (work_at k' b).result) ((==_iff a x).0 same)
              ∙ ap (λ p. p.work.result) first
              ∙ ap (λ w. w.result) work
          | inr other ↦ r.result a (ground (arith, other))
        ];
        ready = λ a i. elim (Bool-cases (a == x)) [
          | inl same ↦
              ap (λ b. (work_at k' b).state) ((==_iff a x).0 same)
              ∙ ap (λ p. p.work.state) first
              ∙ ap (λ w. w.state) work
          | inr other ↦ r.ready a (ground (arith, other))
        ];
        others = λ a i. r.others a (ground arith) ∙ kept a (ground arith);
      },
    )
