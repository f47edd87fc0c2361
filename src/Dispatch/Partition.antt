-- ===== src/Dispatch/Partition.antt =====
-- The separation of submissions by device in `platform_submit` (platform/shared/platform_virtio.c).
use picokernel.Prelude.{
  ℕ, zero, suc, ◌<◌, ◌≡◌, ◌≢◌, refl, sym, ap, subst, ◌∙◌, Bool, true, false, some, List, [], ◌∷◌,
  arith, ◌==◌, if◌then◌else◌, length, has, Distinct, ne→==, ==_refl, Bool-cases, inl, inr,
}
use picokernel.State.{Ptr, null, op_rng_read, Kernel, work_at}
use picokernel.Kernel.Queues.{Chain, Chain-frame}
use picokernel.Virtqueue.Sets.{has_other}
use picokernel.Dispatch.{Lists, is_blk, is_net, link, partition}

-- The device of an operation.
pub data Kind : Type 0 where
  rng blk net unknown : Kind

abbrev pub kind_of : ℕ → Kind
kind_of op =
    if op == op_rng_read
    then Kind.rng
    else if is_blk op
    then Kind.blk
    else if is_net op
    then Kind.net
    else Kind.unknown

abbrev pub same : Kind → Kind → Bool
same Kind.rng Kind.rng = true
same Kind.blk Kind.blk = true
same Kind.net Kind.net = true
same Kind.unknown Kind.unknown = true
same _ _ = false

abbrev pub list_of : Kind → Lists → Ptr
list_of Kind.rng ls = ls.rng_work
list_of Kind.blk ls = ls.blk_work
list_of Kind.net ls = ls.net_work
list_of Kind.unknown ls = ls.unknown_work

-- The items of one kind in front of `acc`, the last one first.
abbrev pub picked : Kind → (ℕ → ℕ) → List Ptr → List Ptr → List Ptr
picked kind ops [] acc = acc
picked kind ops (x ∷ xs) acc =
    picked kind ops xs (if same (kind_of (ops x)) kind then x ∷ acc else acc)

-- What one round does to a list of one kind.
record Linked (kind : Kind) (x : Ptr) (ls : Lists) (k : Kernel) (r : Lists × Kernel) : Type 0 where
  pub head :
      list_of kind r.0 ≡ (if same (kind_of (work_at k x).op) kind then x else list_of kind ls)
  pub next : same (kind_of (work_at k x).op) kind ≡ true → (work_at r.1 x).next ≡ list_of kind ls
  pub others : (a : Ptr) → (a == x) ≡ false → r.1.requests a ≡ k.requests a
  pub queue : r.1.ready_queue_head ≡ k.ready_queue_head

link-Linked :
    (kind : Kind) (x : Ptr) (ls : Lists) (k : Kernel) → Linked kind x ls k (link x (ls, k))
unfolding link
link-Linked Kind.rng x ls k = record {
  head = ground arith;
  next = λ e. ground arith;
  others = λ a ne. ground arith;
  queue = ground arith;
}
link-Linked Kind.blk x ls k = record {
  head = ground arith;
  next = λ e. ground arith;
  others = λ a ne. ground arith;
  queue = ground arith;
}
link-Linked Kind.net x ls k = record {
  head = ground arith;
  next = λ e. ground arith;
  others = λ a ne. ground arith;
  queue = ground arith;
}
link-Linked Kind.unknown x ls k = record {
  head = ground arith;
  next = λ e. ground arith;
  others = λ a ne. ground arith;
  queue = ground arith;
}

partition_more :
    (fuel : ℕ) (head x : Ptr) (ls : Lists) (k : Kernel)
    → head ≡ x
    → x ≢ null
    → partition (suc fuel) head (ls, k) ≡ partition fuel (work_at k x).next (link x (ls, k))
unfolding partition
partition_more fuel head x ls k e ne = rw (e, ne→== x null ne) refl

partition_end :
    (fuel : ℕ) (head : Ptr) (ls : Lists) (k : Kernel)
    → head ≡ null
    → partition (suc fuel) head (ls, k) ≡ some (ls, k)
unfolding partition
partition_end fuel head ls k e = rw e refl

-- The lists after one round for an item `x` that is in none of them.
link-Chain :
    (kind : Kind) (x : Ptr) (ls : Lists) (k : Kernel) (acc : List Ptr)
    → x ≢ null
    → has x acc ≡ false
    → Chain k.requests acc (list_of kind ls)
    → let r = link x (ls, k) in
      Chain r.1.requests
        (if same (kind_of (work_at k x).op) kind then x ∷ acc else acc)
        (list_of kind r.0)
link-Chain kind x ls k acc ne fresh c =
    let l = link-Linked kind x ls k in
    let r = link x (ls, k) in
    let kept : Chain r.1.requests acc (list_of kind ls) =
      Chain-frame k.requests r.1.requests acc (list_of kind ls)
        (λ a i. ap (λ q. q.work.next) (l.others a (has_other x a acc fresh i))) c in
    elim (Bool-cases (same (kind_of (work_at k x).op) kind)) [
      | inl mine ↦
          let head = l.head in
          let next = l.next mine in
          let head' = head ∙ ap (λ b. if b then x else list_of kind ls) mine in
          rw mine (head', ne, rw next kept)
      | inr other ↦
          let head = l.head ∙ ap (λ b. if b then x else list_of kind ls) other in
          rw other (subst (λ p. Chain r.1.requests acc p) (sym head) kept)
    ]

has_kept :
    (b : Bool) (a x : Ptr) (acc : List Ptr)
    → (a == x) ≡ false
    → has a acc ≡ false
    → has a (if b then x ∷ acc else acc) ≡ false
has_kept true a x acc ne e = ground (arith, ne, e)
has_kept false a x acc ne e = e

-- For a list of distinct submissions `xs`, and lists of the devices that hold other items `acc`, the
-- separation ends within any fuel above the number of submissions, and the list of each device then
-- holds the submissions for it in front of what it held, the last one first; the ready queue and the
-- other requests are as they were.
pub partition-picked :
    (ops : ℕ → ℕ) (xs : List Ptr) (fuel : ℕ) (head : Ptr) (ls : Lists) (k : Kernel)
    (acc : Kind → List Ptr)
    → Chain k.requests xs head
    → Distinct xs
    → ((a : Ptr) → has a xs ≡ true → (k.requests a).work.op ≡ ops a)
    → ((kind : Kind) (a : Ptr) → has a xs ≡ true → has a (acc kind) ≡ false)
    → ((kind : Kind) → Chain k.requests (acc kind) (list_of kind ls))
    → length xs < fuel
    → (r : Lists × Kernel) × (partition fuel head (ls, k) ≡ some r)
      × ((kind : Kind) → Chain r.1.requests (picked kind ops xs (acc kind)) (list_of kind r.0))
      × (r.1.ready_queue_head ≡ k.ready_queue_head)
      × ((a : Ptr) → has a xs ≡ false → r.1.requests a ≡ k.requests a)
partition-picked ops xs zero head ls k acc c d same_op fresh a f = absurd (omega arith)
partition-picked ops [] (suc fuel) head ls k acc c d same_op fresh a f =
    ((ls, k), partition_end fuel head ls k c, a, refl, λ b i. refl)
partition-picked ops (x ∷ xs) (suc fuel) head ls k acc c d same_op fresh a f =
    let r = link x (ls, k) in
    let here : has x (x ∷ xs) ≡ true = ground (arith, ==_refl x) in
    let op = same_op x here in
    let apart = λ (b : Ptr) (i : has b xs ≡ true). has_other x b xs d.0 i in
    let kept =
      λ (b : Ptr) (i : has b xs ≡ true). (link-Linked Kind.rng x ls k).others b (apart b i) in
    let l = link-Linked Kind.rng x ls k in
    let (r', e, c', q, o) =
      partition-picked ops xs fuel (work_at k x).next r.0 r.1
        (λ kind. if same (kind_of (ops x)) kind then x ∷ acc kind else acc kind)
        (Chain-frame k.requests r.1.requests xs _ (λ b i. ap (λ q. q.work.next) (kept b i)) c.2) d.1
        (λ b i. ap (λ q. q.work.op) (kept b i) ∙ same_op b (ground arith))
        (λ kind b i.
          has_kept (same (kind_of (ops x)) kind) b x (acc kind) (apart b i)
            (fresh kind b (ground arith)))
        (λ kind.
          subst
            (λ o.
              Chain r.1.requests (if same (kind_of o) kind then x ∷ acc kind else acc kind)
                (list_of kind r.0))
            op (link-Chain kind x ls k (acc kind) c.1 (fresh kind x here) (a kind)))
        (omega arith) in
    (
      r',
      partition_more fuel head x ls k c.0 c.1 ∙ e,
      c',
      q ∙ l.queue,
      λ b i. o b (ground arith) ∙ l.others b (ground arith),
    )
