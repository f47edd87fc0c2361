-- ===== src/Dispatch/Absent.antt =====
-- `platform_submit` (platform/shared/platform_virtio.c) where no device is there.
use picokernel.Prelude.{
  ℕ, zero, suc, ◌<◌, ◌≡◌, ◌≢◌, refl, sym, ap, subst, ◌∙◌, true, false, some, List, [], ◌∷◌, arith,
  length, has, Distinct, ne→==, Option,
}
use picokernel.State.{Ptr, null, Kerr, Kernel, work_at}
use picokernel.Kernel.Queues.{Chain, Chain-frame}
use picokernel.Dispatch.{
  Drivers, Lists, partition, complete_list, cancel_list, hand_over, platform_submit,
}
use picokernel.Dispatch.Partition.{Kind, kind_of, same, list_of, partition-picked}
use picokernel.Dispatch.Complete.{Completed, reversed, none-Completed, complete_list-Completed}
use picokernel.Dispatch.Kinds.{
  same_refl, has-picked, Distinct-picked, has-reversed, of_kind, of_kind-apart, of_kind-within,
}
use picokernel.Dispatch.Refusals.{
  refusal, refusal-kind_of, empty-null, Completed-frame, IsRefused, of_kind-length, Refusals,
  Refusals-IsRefused, Refusals-others,
}

module _ {S : Type 0} (drivers : Drivers S) where
  hand_over_more :
      (fuel : ℕ) (submit : Ptr → S × Kernel → Option (S × Kernel)) (work : Ptr) (s : S)
      (k k' : Kernel)
      → work ≢ null
      → complete_list fuel work Kerr.no_device k ≡ some k'
      → hand_over drivers fuel false submit work (s, k) ≡ some (s, k')
  unfolding hand_over
  hand_over_more fuel submit work s k k' ne e = rw (hand_over, ne→== work null ne, e) refl

  hand_over_none :
      (fuel : ℕ) (submit : Ptr → S × Kernel → Option (S × Kernel)) (work : Ptr) (s : S) (k : Kernel)
      → work ≡ null
      → hand_over drivers fuel false submit work (s, k) ≡ some (s, k)
  unfolding hand_over
  hand_over_none fuel submit work s k e = rw (hand_over, e) refl

  hand_over-Completed :
      (xs ys : List Ptr) (fuel : ℕ) (submit : Ptr → S × Kernel → Option (S × Kernel)) (work : Ptr)
      (s : S) (k : Kernel)
      → Chain k.requests xs work
      → Chain k.requests ys k.ready_queue_head
      → Distinct xs
      → ((a : Ptr) → has a xs ≡ true → has a ys ≡ false)
      → length xs < fuel
      → (k' : Kernel) × (hand_over drivers fuel false submit work (s, k) ≡ some (s, k'))
        × Completed k k' xs ys Kerr.no_device
  hand_over-Completed [] ys zero submit work s k c q d apart f = absurd (omega arith)
  hand_over-Completed [] ys (suc fuel) submit work s k c q d apart f =
      (k, hand_over_none (suc fuel) submit work s k c, none-Completed k ys Kerr.no_device q)
  hand_over-Completed (x ∷ xs) ys fuel submit work s k c q d apart f =
      let (k', e, r) =
        complete_list-Completed (x ∷ xs) ys fuel work Kerr.no_device k c q d apart f in
      (k', hand_over_more fuel submit work s k k' (λ z. c.1 (sym c.0 ∙ z)) e, r)

  cancel_list_end : (fuel : ℕ) (s : S × Kernel) → cancel_list drivers (suc fuel) null s ≡ some s
  unfolding cancel_list
  cancel_list_end fuel s = refl

  pub record NoDevice (s : S) : Type 0 where
    pub rng : drivers.rng_there s ≡ false
    pub blk : drivers.blk_there s ≡ false
    pub net : drivers.net_there s ≡ false

  platform_submit_steps :
      (fuel : ℕ) (head : Ptr) (s : S) (k : Kernel) (r : Lists × Kernel) (k₁ k₂ k₃ k₄ : Kernel)
      → NoDevice s
      → let empty : Lists = record { rng_work = 0; blk_work = 0; net_work = 0; unknown_work = 0 } in
        partition (suc fuel) head (empty, k) ≡ some r
        → hand_over drivers (suc fuel) false drivers.rng_submit r.0.rng_work (s, r.1) ≡ some (s, k₁)
        → hand_over drivers (suc fuel) false drivers.blk_submit r.0.blk_work (s, k₁) ≡ some (s, k₂)
        → hand_over drivers (suc fuel) false drivers.net_submit r.0.net_work (s, k₂) ≡ some (s, k₃)
        → complete_list (suc fuel) r.0.unknown_work Kerr.invalid k₃ ≡ some k₄
        → platform_submit drivers (suc fuel) head null (s, k) ≡ some (s, k₄)
  unfolding platform_submit
  platform_submit_steps fuel head s k r k₁ k₂ k₃ k₄ absent p a b c e =
      rw
        (
          platform_submit,
          cancel_list_end fuel (s, k),
          p,
          absent.rng,
          a,
          absent.blk,
          b,
          absent.net,
          c,
          e,
        )
        refl

  -- The lists of the four kinds are completed one after the other.
  refuse_all :
      (xs ys : List Ptr) (fuel : ℕ) (s : S) (k : Kernel) (r : Lists × Kernel)
      → ((kind : Kind) → Chain r.1.requests (of_kind k xs kind) (list_of kind r.0))
      → Chain r.1.requests ys r.1.ready_queue_head
      → Distinct xs
      → ((a : Ptr) → has a xs ≡ true → has a ys ≡ false)
      → length xs < fuel
      → (k₁ k₂ k₃ k₄ : Kernel) × (hand_over drivers fuel false drivers.rng_submit r.0.rng_work
            (s, r.1)
          ≡ some (s, k₁))
        × (hand_over drivers fuel false drivers.blk_submit r.0.blk_work (s, k₁) ≡ some (s, k₂))
        × (hand_over drivers fuel false drivers.net_submit r.0.net_work (s, k₂) ≡ some (s, k₃))
        × (complete_list fuel r.0.unknown_work Kerr.invalid k₃ ≡ some k₄)
        × Refusals k r.1 k₁ k₂ k₃ k₄ xs ys
  refuse_all xs ys fuel s k r chains q d apart f =
      let one = λ (i : Kind). of_kind k xs i in
      let distinct = λ (i : Kind).
        Distinct-picked i (λ b. (work_at k b).op) xs [] d (ground arith) (λ a i. refl) in
      let off = λ (i j : Kind) (ne : same i j ≡ false) (a : Ptr). of_kind-apart k xs i j a ne in
      let out =
        λ (i : Kind) (a : Ptr) (e : has a (one i) ≡ true). apart a (of_kind-within k xs i a e) in
      let q₁ = reversed (one Kind.rng) ys in
      let q₂ = reversed (one Kind.blk) q₁ in
      let q₃ = reversed (one Kind.net) q₂ in
      let out₁ : (i : Kind)
          → same i Kind.rng ≡ false
          → (a : Ptr) → has a (one i) ≡ true
          → has a q₁ ≡ false =
        λ i ne a e.
          ground (arith, has-reversed a (one Kind.rng) ys, off i Kind.rng ne a e, out i a e) in
      let out₂ : (i : Kind)
          → same i Kind.rng ≡ false
          → same i Kind.blk ≡ false
          → (a : Ptr) → has a (one i) ≡ true
          → has a q₂ ≡ false =
        λ i ne ne' a e.
          ground (arith, has-reversed a (one Kind.blk) q₁, off i Kind.blk ne' a e, out₁ i ne a e) in
      let (k₁, e₁, c₁) =
        hand_over-Completed (one Kind.rng) ys fuel drivers.rng_submit r.0.rng_work s r.1
          (chains Kind.rng) q (distinct Kind.rng) (out Kind.rng)
          (of_kind-length k xs Kind.rng fuel f) in
      let at₁ = λ (i : Kind) (ne : same i Kind.rng ≡ false).
        Completed-frame r.1 k₁ (one Kind.rng) ys (one i) Kerr.no_device (list_of i r.0) c₁
          (off i Kind.rng ne) (chains i) in
      let (k₂, e₂, c₂) =
        hand_over-Completed (one Kind.blk) q₁ fuel drivers.blk_submit r.0.blk_work s k₁
          (at₁ Kind.blk refl) c₁.queue (distinct Kind.blk) (out₁ Kind.blk refl)
          (of_kind-length k xs Kind.blk fuel f) in
      let at₂ = λ (i : Kind) (ne : same i Kind.rng ≡ false) (ne' : same i Kind.blk ≡ false).
        Completed-frame k₁ k₂ (one Kind.blk) q₁ (one i) Kerr.no_device (list_of i r.0) c₂
          (off i Kind.blk ne') (at₁ i ne) in
      let (k₃, e₃, c₃) =
        hand_over-Completed (one Kind.net) q₂ fuel drivers.net_submit r.0.net_work s k₂
          (at₂ Kind.net refl refl) c₂.queue (distinct Kind.net) (out₂ Kind.net refl refl)
          (of_kind-length k xs Kind.net fuel f) in
      let (k₄, e₄, c₄) =
        complete_list-Completed (one Kind.unknown) q₃ fuel r.0.unknown_work Kerr.invalid k₃
          (Completed-frame k₂ k₃ (one Kind.net) q₂ (one Kind.unknown) Kerr.no_device
            r.0.unknown_work c₃ (off Kind.unknown Kind.net refl) (at₂ Kind.unknown refl refl))
          c₃.queue (distinct Kind.unknown)
          (λ a e. ground (
            arith,
            has-reversed a (one Kind.net) q₂,
            off Kind.unknown Kind.net refl a e,
            out₂ Kind.unknown refl refl a e,
          ))
          (of_kind-length k xs Kind.unknown fuel f) in
      (k₁, k₂, k₃, k₄, e₁, e₂, e₃, e₄, record { rng = c₁; blk = c₂; net = c₃; unknown = c₄ })

  -- Where no device is there, for a list of distinct submissions none of which is in the ready queue,
  -- `platform_submit` with no cancellations ends within any fuel above the number of submissions: every
  -- submission is READY, with KERR_NO_DEVICE if its operation is one of the devices' (2 to 7) and
  -- KERR_INVALID otherwise, and no other request is touched.
  pub platform_submit_absent :
      (xs ys : List Ptr) (fuel : ℕ) (head : Ptr) (s : S) (k : Kernel)
      → NoDevice s
      → Chain k.requests xs head
      → Chain k.requests ys k.ready_queue_head
      → Distinct xs
      → ((a : Ptr) → has a xs ≡ true → has a ys ≡ false)
      → length xs < suc fuel
      → (k' : Kernel) × (platform_submit drivers (suc fuel) head null (s, k) ≡ some (s, k'))
        × ((a : Ptr) → has a xs ≡ true → IsRefused k' a (refusal (work_at k a).op))
        × ((a : Ptr) → has a xs ≡ false → k'.requests a ≡ k.requests a)
  platform_submit_absent xs ys fuel head s k absent c q d apart f =
      let ops = λ (a : Ptr). (work_at k a).op in
      let empty : Lists = record { rng_work = 0; blk_work = 0; net_work = 0; unknown_work = 0 } in
      let (r, e, chains, ready, others) =
        partition-picked ops xs (suc fuel) head empty k (λ kind. []) c d (λ a i. refl)
          (λ kind a i. refl) empty-null f in
      let queue =
        Chain-frame k.requests r.1.requests ys k.ready_queue_head
          (λ a i. ap (λ p. p.work.next) (others a (ground (arith, i, apart a)))) q in
      let (k₁, k₂, k₃, k₄, e₁, e₂, e₃, e₄, done) =
        refuse_all xs ys (suc fuel) s k r chains
          (subst (λ p. Chain r.1.requests ys p) (sym ready) queue) d apart f in
      (
        k₄,
        platform_submit_steps fuel head s k r k₁ k₂ k₃ k₄ absent e e₁ e₂ e₃ e₄,
        λ a i. subst (IsRefused k₄ a) (refusal-kind_of (ops a)) (
            Refusals-IsRefused k r.1 k₁ k₂ k₃ k₄ xs ys a (kind_of (ops a)) done (
              has-picked a (kind_of (ops a)) ops xs []
              ∙ ground (arith, i, same_refl (kind_of (ops a))))),
        λ a i. Refusals-others k r.1 k₁ k₂ k₃ k₄ xs ys a done i ∙ others a i,
      )
