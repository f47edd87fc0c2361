-- ===== src/Blk/Handled.antt =====
-- What becomes of each request of a list that `virtio_blk_submit_work` (driver/virtio/virtio_blk.c)
-- is given, by the number of free descriptors.
use picokernel.Prelude.{
  ℕ, ◌+◌, ◌-◌, ◌%◌, ◌<◌, ◌≤◌, ◌≡◌, ◌≢◌, refl, ap, ◌∙◌, true, false, not, ◌&&◌, ◌||◌, List, [], ◌∷◌,
  arith, ◌==◌, leb, ltb, if◌then◌else◌, length, Bool-cases, inl, inr, ==_iff, ◌⊎◌,
}
use picokernel.State.{
  Ptr, null, Kerr, WorkState, Request, op_block_read, op_block_write, op_block_flush, work_at,
}
use picokernel.Kernel.Queues.{complete_work_done}
use picokernel.Virtqueue.Chains.{Taken}
use picokernel.Blk.{World, submit_one, is_invalid, refuse}
use picokernel.Blk.Tracked.{Tracked}
use picokernel.Blk.Outcome.{Refused}
use picokernel.Blk.Transfer.{Transferred, submit_one-Transferred}
use picokernel.Blk.Flush.{Flushed, submit_one-Flushed}

-- The descriptors that a request needs, by its operation (3 reads, 4 writes, 5 flushes): 2 for a
-- flush, and 3 for a read or write of one segment, whose buffer is at a multiple of 512; none if it
-- is not valid.
abbrev pub wanted : (op segments num_segments buffer : ℕ) → ℕ
wanted op segments num_segments buffer =
    if op == 5
    then 2
    else if ((op == 3) || (op == 4))
        && (not (segments == 0) && ((num_segments == 1) && (buffer % 512 == 0)))
    then 3
    else 0

-- Whether there are enough, how many requests that is, and the descriptors that are left.
abbrev pub room : (wanted free : ℕ) → ℕ
room wanted free = if ltb 0 wanted && leb wanted free then 1 else 0

abbrev pub left : (wanted free : ℕ) → ℕ
left wanted free = if leb wanted free then free - wanted else free

-- What becomes of a request that needs `need` descriptors where `free` are free, by the requests
-- before and after.
pub record HandledOne (before after : Request) (need free : ℕ) : Type 0 where
  pub accepted : 0 < need → need ≤ free → after.work.state ≡ WorkState.live
  pub refused :
      free < need → (after.work.state ≡ WorkState.ready) × (after.work.result ≡ Kerr.no_space)
  pub invalid :
      need ≡ 0
      → ((before.work.op == 3) || (before.work.op == 4)) ≡ true
      → (after.work.state ≡ WorkState.ready) × (after.work.result ≡ Kerr.invalid)
  pub skipped :
      ((before.work.op == 3) || ((before.work.op == 4) || (before.work.op == 5))) ≡ false
      → after ≡ before

-- The kinds of a work item for the driver.
op_cases :
    (op : ℕ)
    → (op ≡ op_block_flush)
      ⊎ ((((op == op_block_read) || (op == op_block_write)) ≡ true)
          ⊎ (((op == op_block_read) || (op == op_block_write) || (op == op_block_flush)) ≡ false))
op_cases op = elim (Bool-cases (op == op_block_flush)) [
  | inl flush ↦ inl ((==_iff op op_block_flush).0 flush)
  | inr other ↦ elim (Bool-cases ((op == op_block_read) || (op == op_block_write))) [
    | inl transfer ↦ inr (inl transfer)
    | inr neither ↦ inr (inr (ground (arith, other, neither)))
  ]
]

-- A chain is out for a request that needs no more descriptors than there are.
accepted-HandledOne :
    (before after : Request) (need free : ℕ)
    → 0 < need
    → need ≤ free
    → ((before.work.op == 3) || ((before.work.op == 4) || (before.work.op == 5))) ≡ true
    → after.work.state ≡ WorkState.live
    → HandledOne before after need free
accepted-HandledOne before after need free positive enough block live = record {
  accepted = λ p e. live;
  refused = λ lt. absurd (omega arith);
  invalid = λ none op. absurd (omega arith);
  skipped = λ op. absurd (ground arith);
}

module _ {D : Type 0} where
  -- The descriptors that the request at an address needs.
  abbrev pub need_of : World D → Ptr → ℕ
  need_of w x =
      let req = w.reqs x in
      wanted (work_at w.kernel x).op req.segments req.num_segments (w.segments req.segments).buffer

  -- The driver tracks its chains after a step as before it, and one more if it took the request, which
  -- needs `need` descriptors.
  pub record Step (w : World D) (x : Ptr) (free : List ℕ) (out : List Taken) (n need : ℕ)
      (r : World D × ℕ) : Type 0 where
    pub free_after : List ℕ
    pub out_after : List Taken
    pub tracked : Tracked r.0.blk free_after out_after
    pub count : r.1 ≡ n + room need (length free)
    pub chains : length out_after ≡ room need (length free) + length out
    pub room_left : length free_after ≡ left need (length free)
    pub handled : HandledOne (w.kernel.requests x) (r.0.kernel.requests x) need (length free)

  Refused-Step :
      (w : World D) (work : Ptr) (n need : ℕ) (free : List ℕ) (out : List Taken) (r : World D × ℕ)
      → work ≢ null
      → length free < need
      → (((work_at w.kernel work).op == 3)
          || (((work_at w.kernel work).op == 4) || ((work_at w.kernel work).op == 5)))
        ≡ true
      → Refused w work n free out r
      → Step w work free out n need r
  Refused-Step w work n need free out r there few block f =
      let (state, result) = complete_work_done w.kernel work Kerr.no_space there in
      record {
        free_after = f.left;
        out_after = out;
        tracked = f.tracked;
        count = f.count ∙ ground arith;
        chains = ground arith;
        room_left = f.length_left ∙ ground arith;
        handled = record {
          accepted = λ some enough. absurd (omega arith);
          refused = λ lt. (
            ap (λ k. (k.requests work).work.state) f.completed ∙ state,
            ap (λ k. (k.requests work).work.result) f.completed ∙ result,
          );
          invalid = λ none op. absurd (omega arith);
          skipped = λ op. absurd (ground arith);
        };
      }

  Transferred-Step :
      (w : World D) (work : Ptr) (n : ℕ) (free : List ℕ) (out : List Taken) (r : World D × ℕ)
      → work ≢ null
      → (((work_at w.kernel work).op == 3)
          || (((work_at w.kernel work).op == 4) || ((work_at w.kernel work).op == 5)))
        ≡ true
      → Transferred w work n free out r
      → Step w work free out n 3 r
  Transferred-Step w work n [] out r there op f =
      Refused-Step w work n 3 [] out r there (omega arith) op f
  Transferred-Step w work n (h ∷ []) out r there op f =
      Refused-Step w work n 3 _ out r there (omega arith) op f
  Transferred-Step w work n (h ∷ d ∷ []) out r there op f =
      Refused-Step w work n 3 _ out r there (omega arith) op f
  Transferred-Step w work n (h ∷ d ∷ s ∷ free) out r there op (t, _, _, a) = record {
    free_after = free;
    out_after = _ ∷ out;
    tracked = t;
    count = a.count ∙ ground arith;
    chains = ground arith;
    room_left = ground arith;
    handled =
        accepted-HandledOne (w.kernel.requests work) (r.0.kernel.requests work) 3 _ (omega arith)
          (omega arith) op a.live;
  }

  Flushed-Step :
      (w : World D) (work : Ptr) (n : ℕ) (free : List ℕ) (out : List Taken) (r : World D × ℕ)
      → work ≢ null
      → (((work_at w.kernel work).op == 3)
          || (((work_at w.kernel work).op == 4) || ((work_at w.kernel work).op == 5)))
        ≡ true
      → Flushed w work n free out r
      → Step w work free out n 2 r
  Flushed-Step w work n [] out r there op f =
      Refused-Step w work n 2 [] out r there (omega arith) op f
  Flushed-Step w work n (h ∷ []) out r there op f =
      Refused-Step w work n 2 _ out r there (omega arith) op f
  Flushed-Step w work n (h ∷ s ∷ free) out r there op (t, _, a) = record {
    free_after = free;
    out_after = _ ∷ out;
    tracked = t;
    count = a.count ∙ ground arith;
    chains = ground arith;
    room_left = ground arith;
    handled =
        accepted-HandledOne (w.kernel.requests work) (r.0.kernel.requests work) 2 _ (omega arith)
          (omega arith) op a.live;
  }

  submit_one_invalid :
      (w : World D) (work : Ptr) (n : ℕ)
      → (((work_at w.kernel work).op == op_block_read)
          || ((work_at w.kernel work).op == op_block_write))
        ≡ true
      → is_invalid (w.reqs work) (w.segments ((w.reqs work).segments)) ≡ true
      → submit_one work (w, n) ≡ (refuse w work w.blk.vq Kerr.invalid, n)
  unfolding submit_one
  submit_one_invalid w work n op bad =
      let block : ((((work_at w.kernel work).op == op_block_read)
            || ((work_at w.kernel work).op == op_block_write)
            || ((work_at w.kernel work).op == op_block_flush))
          ≡ true) =
        ground arith in
      let not_flush : ((work_at w.kernel work).op == op_block_flush) ≡ false = ground arith in
      rw (submit_one, block, not_flush, bad) refl

  submit_one_skip :
      (w : World D) (work : Ptr) (n : ℕ)
      → (((work_at w.kernel work).op == op_block_read)
          || ((work_at w.kernel work).op == op_block_write)
          || ((work_at w.kernel work).op == op_block_flush))
        ≡ false
      → submit_one work (w, n) ≡ (w, n)
  unfolding submit_one
  submit_one_skip w work n e = rw (submit_one, e) refl

  need_of_flush :
      (w : World D) (x : Ptr) → (work_at w.kernel x).op ≡ op_block_flush → need_of w x ≡ 2
  need_of_flush w x op = rw op refl

  need_of_transfer :
      (w : World D) (x : Ptr)
      → (((work_at w.kernel x).op == op_block_read) || ((work_at w.kernel x).op == op_block_write))
        ≡ true
      → is_invalid (w.reqs x) (w.segments ((w.reqs x).segments)) ≡ false
      → need_of w x ≡ 3
  need_of_transfer w x op good = ground arith

  need_of_invalid :
      (w : World D) (x : Ptr)
      → (((work_at w.kernel x).op == op_block_read) || ((work_at w.kernel x).op == op_block_write))
        ≡ true
      → is_invalid (w.reqs x) (w.segments ((w.reqs x).segments)) ≡ true
      → need_of w x ≡ 0
  need_of_invalid w x op bad = ground arith

  need_of_skip :
      (w : World D) (x : Ptr)
      → (((work_at w.kernel x).op == op_block_read)
          || ((work_at w.kernel x).op == op_block_write)
          || ((work_at w.kernel x).op == op_block_flush))
        ≡ false
      → need_of w x ≡ 0
  need_of_skip w x op = ground arith

  invalid-Step :
      (w : World D) (work : Ptr) (n : ℕ) (free : List ℕ) (out : List Taken)
      → Tracked w.blk free out
      → work ≢ null
      → (((work_at w.kernel work).op == 3) || ((work_at w.kernel work).op == 4)) ≡ true
      → Step w work free out n 0 (refuse w work w.blk.vq Kerr.invalid, n)
  invalid-Step w work n free out t there op = record {
    free_after = free;
    out_after = out;
    tracked = t;
    count = ground arith;
    chains = omega arith;
    room_left = ground arith;
    handled = record {
      accepted = λ some enough. absurd (omega arith);
      refused = λ lt. absurd (omega arith);
      invalid = λ none op. complete_work_done w.kernel work Kerr.invalid there;
      skipped = λ neither. absurd (ground arith);
    };
  }

  skip-Step :
      (w : World D) (work : Ptr) (n : ℕ) (free : List ℕ) (out : List Taken)
      → Tracked w.blk free out
      → (((work_at w.kernel work).op == 3) || ((work_at w.kernel work).op == 4)) ≡ false
      → Step w work free out n 0 (w, n)
  skip-Step w work n free out t op = record {
    free_after = free;
    out_after = out;
    tracked = t;
    count = ground arith;
    chains = omega arith;
    room_left = ground arith;
    handled = record {
      accepted = λ some enough. absurd (omega arith);
      refused = λ lt. absurd (omega arith);
      invalid = λ none block. absurd (ground arith);
      skipped = λ neither. refl;
    };
  }

  pub submit_one-Step :
      (w : World D) (work : Ptr) (n : ℕ) (free : List ℕ) (out : List Taken)
      → Tracked w.blk free out
      → work ≢ null
      → Step w work free out n (need_of w work) (submit_one work (w, n))
  submit_one-Step w work n free out t there = elim (op_cases (work_at w.kernel work).op) [
    | inl flush ↦ rw (need_of_flush w work flush) (
        Flushed-Step w work n free out _ there (ground arith)
          (submit_one-Flushed w work n free out t there flush))
    | inr (inl transfer) ↦
        elim (Bool-cases (is_invalid (w.reqs work) (w.segments ((w.reqs work).segments)))) [
          | inl bad ↦
              rw (submit_one_invalid w work n transfer bad, need_of_invalid w work transfer bad)
                (invalid-Step w work n free out t there transfer)
          | inr good ↦ rw (need_of_transfer w work transfer good) (
              Transferred-Step w work n free out _ there (ground arith)
                (submit_one-Transferred w work n free out t there (transfer, good)))
        ]
    | inr (inr skip) ↦
        rw (submit_one_skip w work n skip, need_of_skip w work skip)
          (skip-Step w work n free out t (ground arith))
  ]
