-- ===== src/Kernel/Queues.antt =====
-- The intrusive lists of kernel/kernel.c as lists of addresses: the doubly linked submit queue, and
-- the singly linked ready and cancel queues.
use picokernel.Prelude.{
  ◌≡◌, refl, ◌≢◌, ◌∙◌, sym, subst, false, List, [], ◌∷◌, ◌++◌, arith, has, has-append, Distinct,
  ne→==, true, false, ◌==◌, ==_refl,
}
use picokernel.State.{Ptr, null, Kerr, WorkState, Work, Request, Kernel, work_at, set_work}
use picokernel.Kernel.{enqueue_submit, enqueue_ready, make_ready, complete_work}

-- From `p` the `next` pointers lead through the items `xs` to NULL.
abbrev pub Chain : (Ptr → Request) → List Ptr → Ptr → Type 0
Chain h [] p = p ≡ null
Chain h (x ∷ xs) p = (p ≡ x) × (x ≢ null) × Chain h xs (h x).work.next

-- The same, and the `prev` pointers lead back to `before`.
abbrev pub Linked : (Ptr → Request) → Ptr → List Ptr → Ptr → Type 0
Linked h before [] p = p ≡ null
Linked h before (x ∷ xs) p =
    (p ≡ x) × (x ≢ null) × ((h x).work.prev ≡ before) × Linked h x xs (h x).work.next

abbrev pub last_or : Ptr → List Ptr → Ptr
last_or d [] = d
last_or d (x ∷ xs) = last_or x xs

-- The kernel's submit queue holds the items `xs`, the oldest first.
pub record IsSubmitQueue (k : Kernel) (xs : List Ptr) : Type 0 where
  pub links : Linked k.requests null xs k.submit_queue_head
  pub ends : k.submit_queue_tail ≡ last_or null xs
  pub distinct : Distinct xs

-- A chain survives any change that spares the `next` pointers of its items.
pub Chain-frame :
    (h g : Ptr → Request) (xs : List Ptr) (p : Ptr)
    → ((a : Ptr) → has a xs ≡ true → (g a).work.next ≡ (h a).work.next)
    → Chain h xs p
    → Chain g xs p
Chain-frame h g [] p same c = c
Chain-frame h g (x ∷ xs) p same c =
    (c.0, c.1, rw (same x (ground arith)) (Chain-frame h g xs _ (λ a i. same a (ground arith)) c.2))

has-last_or : (x : Ptr) (xs : List Ptr) → has (last_or x xs) (x ∷ xs) ≡ true
has-last_or x [] = ground arith
has-last_or x (y ∷ xs) = ground (arith, has-last_or y xs)

last_or-append : (d a : Ptr) (xs : List Ptr) → last_or d (xs ++ (a ∷ [])) ≡ a
last_or-append d a [] = refl
last_or-append d a (x ∷ xs) = last_or-append x a xs

-- What appending `work` behind the item `tail` does to the links of the requests `h`.
record Appended (h g : Ptr → Request) (tail work : Ptr) : Type 0 where
  prev_same : (a : Ptr) → a ≢ work → (g a).work.prev ≡ (h a).work.prev
  next_same : (a : Ptr) → a ≢ work → a ≢ tail → (g a).work.next ≡ (h a).work.next
  tail_next : (g tail).work.next ≡ work
  work_next : (g work).work.next ≡ null
  work_prev : (g work).work.prev ≡ tail

module _ (h g : Ptr → Request) (tail work : Ptr) (appended : Appended h g tail work)
    (ne : work ≢ null) where
  open appended use {prev_same, next_same, tail_next, work_next, work_prev}

  Linked-append :
      (before p x : Ptr) (xs : List Ptr)
      → Linked h before (x ∷ xs) p
      → last_or x xs ≡ tail
      → has work (x ∷ xs) ≡ false
      → Distinct (x ∷ xs)
      → Linked g before ((x ∷ xs) ++ (work ∷ [])) p
  Linked-append before p x [] l e fresh d =
      (l.0, l.1, prev_same x (ground arith) ∙ l.2, rw e (tail_next, ne, work_prev, work_next))
  Linked-append before p x (y ∷ xs) l e fresh d = (
    l.0,
    l.1,
    prev_same x (ground arith) ∙ l.2,
    rw (next_same x (ground arith) (ground (arith, has-last_or y xs)))
        (Linked-append x _ y xs l.3 e (ground arith) d.1),
  )

Distinct-append :
    (a : Ptr) (xs : List Ptr) → Distinct xs → has a xs ≡ false → Distinct (xs ++ (a ∷ []))
Distinct-append a [] d fresh = (refl, tt)
Distinct-append a (x ∷ xs) d fresh =
    (ground (arith, has-append x xs (a ∷ [])), Distinct-append a xs d.1 (ground arith))

enqueue_submit-Appended :
    (k : Kernel) (work : Ptr)
    → k.submit_queue_tail ≢ null
    → k.submit_queue_tail ≢ work
    → Appended k.requests (enqueue_submit k work).requests k.submit_queue_tail work
unfolding enqueue_submit
enqueue_submit-Appended k work ne other = record {
  prev_same = λ a h. ground arith;
  next_same = λ a h i. ground arith;
  tail_next = ground arith;
  work_next = ground arith;
  work_prev = ground arith;
}

last_or-ne_null :
    (h : Ptr → Request) (before p x : Ptr) (xs : List Ptr)
    → Linked h before (x ∷ xs) p
    → last_or x xs ≢ null
last_or-ne_null h before p x [] l = l.1
last_or-ne_null h before p x (y ∷ xs) l = last_or-ne_null h x _ y xs l.3

enqueue_submit-head :
    (k : Kernel) (work : Ptr)
    → k.submit_queue_tail ≢ null
    → ((enqueue_submit k work).submit_queue_head ≡ k.submit_queue_head)
      × ((enqueue_submit k work).submit_queue_tail ≡ work)
unfolding enqueue_submit
enqueue_submit-head k work ne = ground arith

-- Where the submit queue holds the items `xs` (oldest first, linked both ways, none twice), and
-- `work` is not NULL and not among them, `enqueue_submit` makes it hold `xs` and then `work`.
pub enqueue_submit-append :
    {k : Kernel} (xs : List Ptr) (work : Ptr)
    → IsSubmitQueue k xs
    → work ≢ null
    → has work xs ≡ false
    → IsSubmitQueue (enqueue_submit k work) (xs ++ (work ∷ []))
unfolding enqueue_submit
enqueue_submit-append {k} [] work q ne fresh = ground arith
enqueue_submit-append {k} (x ∷ xs) work q ne fresh =
    let tail_ne : k.submit_queue_tail ≢ null =
      rw q.ends (last_or-ne_null k.requests null _ x xs q.links) in
    let other : k.submit_queue_tail ≢ work = ground (arith, has-last_or x xs, q.ends) in
    let (head, tail) = enqueue_submit-head k work tail_ne in
    record {
      links = rw head (
          Linked-append k.requests _ k.submit_queue_tail work
            (enqueue_submit-Appended k work tail_ne other) ne null _ x xs q.links (sym q.ends) fresh
            q.distinct);
      ends = tail ∙ sym (last_or-append null work (x ∷ xs));
      distinct = Distinct-append work (x ∷ xs) q.distinct fresh;
    }

-- Changes elsewhere than in links leave the queue what it is.
Linked-frame :
    (h g : Ptr → Request) (before p : Ptr) (xs : List Ptr)
    → ((a : Ptr) → (g a).work.next ≡ (h a).work.next)
    → ((a : Ptr) → (g a).work.prev ≡ (h a).work.prev)
    → Linked h before xs p
    → Linked g before xs p
Linked-frame h g before p [] sn sp l = l
Linked-frame h g before p (x ∷ xs) sn sp l =
    (l.0, l.1, sp x ∙ l.2, rw (sn x) (Linked-frame h g x _ xs sn sp l.3))

pub set_work-IsSubmitQueue :
    (k : Kernel) (xs : List Ptr) (work : Ptr) (w : Work)
    → w.next ≡ (work_at k work).next
    → w.prev ≡ (work_at k work).prev
    → IsSubmitQueue k xs
    → IsSubmitQueue (set_work k work w) xs
set_work-IsSubmitQueue k xs work w en ep q = record {
  links =
      Linked-frame k.requests (set_work k work w).requests null _ xs (λ a. ground arith)
        (λ a. ground arith) q.links;
  ends = q.ends;
  distinct = q.distinct;
}

-- The links and contents after `work` has been put in front of the ready queue.
abbrev pub ReadyFirst : Kernel → List Ptr → Ptr → Kerr → Kernel → Type 0
ReadyFirst k xs work result k' =
    Chain k'.requests (work ∷ xs) k'.ready_queue_head
    × (work_at k' work ≡ record (work_at k work) {
      result = result;
      state = WorkState.ready;
      next = k.ready_queue_head;
      prev = null;
    })
    × ((a : Ptr) → a ≢ work → k'.requests a ≡ k.requests a)

make_ready-next :
    (k : Kernel) (work : Ptr) (result : Kerr)
    → ((make_ready k work result).requests work).work.next ≡ k.ready_queue_head
unfolding make_ready enqueue_ready
make_ready-next k work result = ground arith

make_ready-cons :
    (k : Kernel) (xs : List Ptr) (work : Ptr) (result : Kerr)
    → Chain k.requests xs k.ready_queue_head
    → work ≢ null
    → has work xs ≡ false
    → ReadyFirst k xs work result (make_ready k work result)
unfolding make_ready enqueue_ready
make_ready-cons k xs work result c ne fresh = (
  (
    refl,
    ne,
    rw (make_ready-next k work result)
        (Chain-frame k.requests (make_ready k work result).requests xs _ (λ a i. ground arith) c),
  ),
  ground arith,
  λ a h. ground arith,
)

complete_work-ne :
    (k : Kernel) (work : Ptr) (result : Kerr)
    → work ≢ null
    → complete_work k work result ≡ make_ready k work result
unfolding complete_work
complete_work-ne k work result ne = rw (ne→== work null ne)

-- Where the ready queue holds the items `xs`, and `work` is not NULL and not among them,
-- `kplatform_complete_work` puts `work` in front with its result and the state READY, keeps what
-- else the work item says, and touches no other request.
pub complete_work-cons :
    (k : Kernel) (xs : List Ptr) (work : Ptr) (result : Kerr)
    → Chain k.requests xs k.ready_queue_head
    → work ≢ null
    → has work xs ≡ false
    → ReadyFirst k xs work result (complete_work k work result)
complete_work-cons k xs work result c ne fresh =
    subst (ReadyFirst k xs work result) (sym (complete_work-ne k work result ne))
      (make_ready-cons k xs work result c ne fresh)

-- Completing an item leaves the others as they are.
pub complete_work_done :
    (k : Kernel) (a : Ptr) (e : Kerr)
    → a ≢ null
    → let w = work_at (complete_work k a e) a in (w.state ≡ WorkState.ready) × (w.result ≡ e)
unfolding complete_work make_ready enqueue_ready
complete_work_done k a e there =
    (ground (arith, ne→== a null there, ==_refl a), ground (arith, ne→== a null there, ==_refl a))

pub complete_work_other :
    (k : Kernel) (a b : Ptr) (e : Kerr)
    → (b == a) ≡ false
    → (complete_work k a e).requests b ≡ k.requests b
unfolding complete_work make_ready enqueue_ready
complete_work_other k a b e ne = ground arith
