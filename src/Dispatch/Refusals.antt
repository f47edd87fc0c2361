-- ===== src/Dispatch/Refusals.antt =====
-- The completion of the lists of all kinds one after the other, in `platform_submit`
-- (platform/shared/platform_virtio.c).
use picokernel.Prelude.{
  ℕ, ◌<◌, ◌≡◌, refl, ap, ◌∙◌, true, false, List, [], arith, if◌then◌else◌, length, has, leb, ◌&&◌,
}
use picokernel.State.{Ptr, null, Kerr, WorkState, Kernel, work_at}
use picokernel.Kernel.Queues.{Chain, Chain-frame}
use picokernel.Dispatch.Partition.{Kind, kind_of, same, list_of}
use picokernel.Dispatch.Complete.{Completed, reversed}
use picokernel.Dispatch.Kinds.{has-picked, length-picked, of_kind, of_kind-apart}

-- The result for an item: KERR_NO_DEVICE for the operations KWORK_OP_RNG_READ to KWORK_OP_NET_SEND,
-- 2 to 7, and KERR_INVALID for any other one.
abbrev pub refusal : ℕ → Kerr
refusal op = if leb 2 op && leb op 7 then Kerr.no_device else Kerr.invalid

pub refusal-kind_of :
    (op : ℕ)
    → (if same (kind_of op) Kind.unknown then Kerr.invalid else Kerr.no_device) ≡ refusal op
refusal-kind_of op = ground arith

pub empty-null :
    (kind : Kind)
    → list_of kind (record { rng_work = 0; blk_work = 0; net_work = 0; unknown_work = 0 }) ≡ null
empty-null Kind.rng = refl
empty-null Kind.blk = refl
empty-null Kind.net = refl
empty-null Kind.unknown = refl

-- A list none of whose items was completed.
pub Completed-frame :
    (k k' : Kernel) (xs ys zs : List Ptr) (e : Kerr) (head : Ptr)
    → Completed k k' xs ys e
    → ((a : Ptr) → has a zs ≡ true → has a xs ≡ false)
    → Chain k.requests zs head
    → Chain k'.requests zs head
Completed-frame k k' xs ys zs e head r apart =
    Chain-frame k.requests k'.requests zs head λ a i. ap (λ p. p.work.next) (r.others a (apart a i))

-- The item is READY with the result `e`.
abbrev pub IsRefused : Kernel → Ptr → Kerr → Type 0
IsRefused k a e = ((work_at k a).state ≡ WorkState.ready) × ((work_at k a).result ≡ e)

IsRefused-Completed :
    (k k' : Kernel) (xs ys : List Ptr) (a : Ptr) (e e' : Kerr)
    → Completed k k' xs ys e'
    → has a xs ≡ false
    → IsRefused k a e
    → IsRefused k' a e
IsRefused-Completed k k' xs ys a e e' r i (u, v) =
    let same = r.others a i in (ap (λ p. p.work.state) same ∙ u, ap (λ p. p.work.result) same ∙ v)

pub of_kind-length :
    (k : Kernel) (xs : List Ptr) (i : Kind) (fuel : ℕ)
    → length xs < fuel
    → length (of_kind k xs i) < fuel
of_kind-length k xs i fuel f = omega (arith, f, length-picked i (λ b. (work_at k b).op) xs [])

-- What the four loops that complete the lists do, one after the other.
pub record Refusals (k k₀ k₁ k₂ k₃ k₄ : Kernel) (xs ys : List Ptr) : Type 0 where
  pub rng : Completed k₀ k₁ (of_kind k xs Kind.rng) ys Kerr.no_device
  pub blk :
      Completed k₁ k₂ (of_kind k xs Kind.blk) (reversed (of_kind k xs Kind.rng) ys) Kerr.no_device
  pub net :
      Completed k₂ k₃
        (of_kind k xs Kind.net)
        (reversed (of_kind k xs Kind.blk) (reversed (of_kind k xs Kind.rng) ys))
        Kerr.no_device
  pub unknown :
      Completed k₃ k₄
        (of_kind k xs Kind.unknown)
        (reversed
          (of_kind k xs Kind.net)
          (reversed (of_kind k xs Kind.blk) (reversed (of_kind k xs Kind.rng) ys)))
        Kerr.invalid

pub Refusals-IsRefused :
    (k k₀ k₁ k₂ k₃ k₄ : Kernel) (xs ys : List Ptr) (a : Ptr) (kind : Kind)
    → Refusals k k₀ k₁ k₂ k₃ k₄ xs ys
    → has a (of_kind k xs kind) ≡ true
    → IsRefused k₄ a (if same kind Kind.unknown then Kerr.invalid else Kerr.no_device)
Refusals-IsRefused k k₀ k₁ k₂ k₃ k₄ xs ys a Kind.rng r i =
    let out = λ (j : Kind) (ne : same Kind.rng j ≡ false). of_kind-apart k xs Kind.rng j a ne i in
    IsRefused-Completed k₃ k₄ _ _ a _ _ r.unknown (out Kind.unknown refl) (
      IsRefused-Completed k₂ k₃ _ _ a _ _ r.net (out Kind.net refl) (
        IsRefused-Completed k₁ k₂ _ _ a _ _ r.blk (out Kind.blk refl)
          (r.rng.ready a i, r.rng.result a i)))
Refusals-IsRefused k k₀ k₁ k₂ k₃ k₄ xs ys a Kind.blk r i =
    let out = λ (j : Kind) (ne : same Kind.blk j ≡ false). of_kind-apart k xs Kind.blk j a ne i in
    IsRefused-Completed k₃ k₄ _ _ a _ _ r.unknown (out Kind.unknown refl) (
      IsRefused-Completed k₂ k₃ _ _ a _ _ r.net (out Kind.net refl)
        (r.blk.ready a i, r.blk.result a i))
Refusals-IsRefused k k₀ k₁ k₂ k₃ k₄ xs ys a Kind.net r i =
    IsRefused-Completed k₃ k₄ _ _ a _ _ r.unknown
      (of_kind-apart k xs Kind.net Kind.unknown a refl i) (r.net.ready a i, r.net.result a i)
Refusals-IsRefused k k₀ k₁ k₂ k₃ k₄ xs ys a Kind.unknown r i =
    (r.unknown.ready a i, r.unknown.result a i)

pub Refusals-others :
    (k k₀ k₁ k₂ k₃ k₄ : Kernel) (xs ys : List Ptr) (a : Ptr)
    → Refusals k k₀ k₁ k₂ k₃ k₄ xs ys
    → has a xs ≡ false
    → k₄.requests a ≡ k₀.requests a
Refusals-others k k₀ k₁ k₂ k₃ k₄ xs ys a r i =
    let out : (j : Kind) → has a (of_kind k xs j) ≡ false =
      λ j. ground (arith, i, has-picked a j (λ b. (work_at k b).op) xs []) in
    r.unknown.others a (out Kind.unknown)
    ∙ r.net.others a (out Kind.net)
    ∙ r.blk.others a (out Kind.blk)
    ∙ r.rng.others a (out Kind.rng)
