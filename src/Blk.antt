-- ===== src/Blk.antt =====
-- driver/virtio/virtio_blk.c: the driver of the block device. A request takes a chain of two or three
-- descriptors (header, data, status) through the virtqueue, which is given back when the device is
-- done with it.
pub mod Build
pub mod Tracked
pub mod Outcome
pub mod Transfer
pub mod Flush
pub mod Frame
pub mod Handled
pub mod Bulk
pub mod Setup
mod Tests
pub mod Drain
use picokernel.Prelude.{
  ℕ, zero, suc, ◌+◌, ◌*◌, ◌%◌, ◌^◌, Bool, true, false, ◌&&◌, ◌||◌, not, Option, none, some, ◌==◌,
  ltb, if◌then◌else◌, update, length,
}
use picokernel.State.{
  Ptr, null, Kerr, is_ok, WorkState, op_block_read, op_block_write, op_block_flush, Work, Kernel,
  work_at, set_work, ◌>>=◌,
}
use picokernel.Kernel.{complete_work}
use picokernel.Virtqueue.{
  Desc, Virtqueue, no_desc, flag_next, flag_write, add16, sub16, alloc_desc, add_desc, add_avail,
  has_used, get_used, free_desc,
}
use picokernel.Virtqueue.Chains.{free_chain}
use picokernel.Rng.{Notify, transport_mmio, transport_pci}

-- `kblk_segment_t`
pub record Segment : Type 0 where
  pub sector : ℕ
  pub buffer : ℕ
  pub num_sectors : ℕ
  pub completed_sectors : ℕ

-- The members of a `kblk_req_t` behind its work item; `segments` is an address, 0 for NULL.
pub record BlkReq : Type 0 where
  pub segments : ℕ
  pub num_segments : ℕ
  pub desc_idx : ℕ

-- `virtio_blk_req_buf_t`, and its size, with that of the header in it.
pub record ReqBuf : Type 0 where
  pub kind : ℕ
  pub reserved : ℕ
  pub sector : ℕ
  pub status : ℕ

abbrev pub req_buf_size : ℕ
req_buf_size = 24

abbrev pub header_size : ℕ
header_size = 16

-- VIRTIO_BLK_T_IN, VIRTIO_BLK_T_OUT and VIRTIO_BLK_T_FLUSH
abbrev pub type_in : ℕ
type_in = 0

abbrev pub type_out : ℕ
type_out = 1

abbrev pub type_flush : ℕ
type_flush = 4

-- VIRTIO_BLK_S_OK, VIRTIO_BLK_S_IOERR and VIRTIO_BLK_S_UNSUPP
abbrev pub status_ok : ℕ
status_ok = 0

abbrev pub status_ioerr : ℕ
status_ioerr = 1

abbrev pub status_unsupp : ℕ
status_unsupp = 2

-- `virtio_blk_dev_t`, without its links to the transport and the kernel.
pub record Blk : Type 0 where
  pub transport_type : ℕ
  pub vq : Virtqueue
  pub queue_size : ℕ
  pub capacity : ℕ
  pub sector_size : ℕ
  pub seg_max : ℕ
  pub active_requests : ℕ → Ptr
  pub outstanding_requests : ℕ

-- What the driver's functions read and write: the device's structure, the requests' own members, the
-- first segment at an address, `req_buffers` with its address, the kernel, and the device behind the
-- transport.
pub record World (D : Type 0) : Type 0 where
  pub blk : Blk
  pub reqs : Ptr → BlkReq
  pub segments : ℕ → Segment
  pub req_buffers : ℕ → ReqBuf
  pub req_buffers_address : ℕ
  pub kernel : Kernel
  pub device : D

-- `vq.desc[idx].next = next`
abbrev pub set_next : Virtqueue → ℕ → ℕ → Virtqueue
set_next vq idx next = record vq {
  desc = update vq.desc idx (record (vq.desc idx) { next = next });
}

-- Whether a read or write is refused at once.
abbrev pub is_invalid : BlkReq → Segment → Bool
is_invalid req seg =
    (req.segments == 0)
    || (req.num_segments == 0)
    || ltb 1 req.num_segments
    || not (seg.buffer % 512 == 0)

-- `&req_buf->header` and `&req_buf->status`
abbrev pub header_address : ℕ → ℕ → ℕ
header_address base desc_idx = (base + req_buf_size * desc_idx) % 2 ^ 64

abbrev pub status_address : ℕ → ℕ → ℕ
status_address base desc_idx = (base + req_buf_size * desc_idx + header_size) % 2 ^ 64

-- The header that the device reads, by the operation.
abbrev pub request_buffer : ℕ → ℕ → ReqBuf
request_buffer op sector =
    let kind =
      if op == op_block_flush
      then type_flush
      else if op == op_block_read
      then type_in
      else type_out in
    record {
      kind = kind;
      reserved = 0;
      sector = if op == op_block_flush then 0 else sector;
      status = 0xFF;
    }

-- `num_sectors * sector_size`, cut to uint32_t
abbrev pub data_length : ℕ → ℕ → ℕ
data_length num_sectors sector_size = num_sectors * sector_size % 2 ^ 32

-- The chain of a read or write, in three descriptors, and that of a flush, in two.
unfoldable pub build_transfer :
    Virtqueue → (header data_desc status base op : ℕ) → Segment → (sector_size : ℕ) → Virtqueue
build_transfer vq header data_desc status base op seg sector_size =
    let vq₁ =
      set_next (add_desc vq header (header_address base header) header_size flag_next) header
        data_desc in
    let flags = if op == op_block_read then flag_next + flag_write else flag_next in
    let vq₂ =
      set_next (add_desc vq₁ data_desc seg.buffer (data_length seg.num_sectors sector_size) flags)
        data_desc status in
    add_desc vq₂ status (status_address base header) 1 flag_write

unfoldable pub build_flush : Virtqueue → (header status base : ℕ) → Virtqueue
build_flush vq header status base =
    let vq₁ =
      set_next (add_desc vq header (header_address base header) header_size flag_next) header
        status in
    add_desc vq₁ status (status_address base header) 1 flag_write

module _ {D : Type 0} where
  -- A refused request, with the queue `vq`.
  abbrev pub refuse : World D → Ptr → Virtqueue → Kerr → World D
  refuse w work vq e = record w {
    blk = record w.blk { vq = vq };
    kernel = complete_work w.kernel work e;
  }

  -- A request whose chain starts at `header` in the queue `vq`.
  abbrev pub accept : World D → Ptr → Virtqueue → ℕ → World D
  accept w work vq header = record w {
    blk = record w.blk {
      vq = add_avail vq header;
      active_requests = update w.blk.active_requests header work;
      outstanding_requests = add16 w.blk.outstanding_requests 1;
    };
    reqs = update w.reqs work (record (w.reqs work) { desc_idx = header });
    kernel = set_work w.kernel work (record (work_at w.kernel work) { state = WorkState.live });
  }

  -- What follows the allocation of the header's descriptor, for a flush and for a read or write.
  unfoldable pub submit_flush : Ptr → ℕ → World D × ℕ → World D × ℕ
  submit_flush work header (w, submitted) =
      let (status, vq) = alloc_desc w.blk.vq in
      if status == no_desc
      then (refuse w work (free_desc vq header) Kerr.no_space, submitted)
      else (
        accept w work (build_flush vq header status w.req_buffers_address) header,
        submitted + 1,
      )

  unfoldable pub submit_transfer : Ptr → ℕ → World D × ℕ → World D × ℕ
  submit_transfer work header (w, submitted) =
      let op = (work_at w.kernel work).op in
      let seg = w.segments ((w.reqs work).segments) in
      let (data_desc, vq₁) = alloc_desc w.blk.vq in
      let (status, vq₂) = alloc_desc vq₁ in
      let vq₃ =
        build_transfer vq₂ header data_desc status w.req_buffers_address op seg w.blk.sector_size in
      if data_desc == no_desc
      then (refuse w work (free_desc vq₁ header) Kerr.no_space, submitted)
      else if status == no_desc
      then (refuse w work (free_desc (free_desc vq₂ header) data_desc) Kerr.no_space, submitted)
      else (accept w work vq₃ header, submitted + 1)

  -- What follows the validation of a request.
  unfoldable pub submit_valid : Ptr → World D × ℕ → World D × ℕ
  submit_valid work (w, submitted) =
      let op = (work_at w.kernel work).op in
      let (header, vq) = alloc_desc w.blk.vq in
      let buf = request_buffer op ((w.segments ((w.reqs work).segments)).sector) in
      let w₁ = record w {
        blk = record w.blk { vq = vq };
        req_buffers = update w.req_buffers header buf;
      } in
      if header == no_desc
      then (refuse w work vq Kerr.no_space, submitted)
      else if op == op_block_flush
      then submit_flush work header (w₁, submitted)
      else submit_transfer work header (w₁, submitted)

  -- The body of the loop of `virtio_blk_submit_work`.
  unfoldable pub submit_one : Ptr → World D × ℕ → World D × ℕ
  submit_one work (w, submitted) =
      let op = (work_at w.kernel work).op in
      let req = w.reqs work in
      if (op == op_block_read) || (op == op_block_write) || (op == op_block_flush)
      then if not (op == op_block_flush) && is_invalid req (w.segments req.segments)
        then (refuse w work w.blk.vq Kerr.invalid, submitted)
        else submit_valid work (w, submitted)
      else (w, submitted)

  unfoldable pub submit_loop : ℕ → Ptr → World D × ℕ → Option (World D × ℕ)
  submit_loop zero work w = none
  submit_loop (suc fuel) work w =
      let next = (work_at w.0.kernel work).next in
      let more = submit_loop fuel next (submit_one work w) in if work == null then some w else more

  unfoldable pub kick : Notify D → World D → World D
  kick notify w =
      let device =
        if w.blk.transport_type == transport_mmio
        then notify.mmio 0 w.device
        else if w.blk.transport_type == transport_pci
        then notify.pci w.blk.vq w.device
        else w.device in
      record w { device = device }

  -- `virtio_blk_submit_work`
  unfoldable pub submit_work : Notify D → ℕ → Ptr → World D → Option (World D)
  submit_work notify fuel submissions w = elim (submit_loop fuel submissions (w, 0)) [
    | none ↦ none
    | some (w', submitted) ↦ some (if ltb 0 submitted then kick notify w' else w')
  ]

-- The result for the status byte that the device wrote.
abbrev pub result_of : ℕ → Kerr
result_of status =
    if status == status_ok
    then Kerr.ok
    else if status == status_ioerr
    then Kerr.io_error
    else if status == status_unsupp
    then Kerr.invalid
    else Kerr.io_error

module _ {D : Type 0} where
  -- The members that the completion of `req` with the status of the buffer `desc_idx` changes, apart
  -- from the queue's.
  abbrev pub settle : World D → Virtqueue → Ptr → ℕ → World D
  settle w vq req desc_idx =
      let result = result_of ((w.req_buffers desc_idx).status) in
      let at_segment = (w.reqs req).segments in
      let seg = w.segments at_segment in
      let done = record seg { completed_sectors = seg.num_sectors } in
      record w {
        blk = record w.blk {
          vq = vq;
          active_requests = update w.blk.active_requests desc_idx null;
          outstanding_requests = sub16 w.blk.outstanding_requests 1;
        };
        segments =
            if is_ok result && not ((work_at w.kernel req).op == op_block_flush)
            then update w.segments at_segment done
            else w.segments;
        kernel = complete_work w.kernel req result;
      }

  -- The body of the loop of `virtio_blk_process_irq`.
  unfoldable pub complete_one : ℕ → World D → Option (World D)
  complete_one fuel w =
      let (desc_idx, len, vq) = get_used w.blk.vq in
      let req = w.blk.active_requests desc_idx in
      let chain = free_chain fuel desc_idx vq >>= λ vq'. some (settle w vq' req desc_idx) in
      if req == null
      then some (record w { blk = record w.blk { vq = free_desc vq desc_idx } })
      else chain

  -- `virtio_blk_process_irq`, with fuel for the used entries and for the descriptors of one chain.
  unfoldable pub process_irq : ℕ → ℕ → World D → Option (World D)
  process_irq zero chain w = none
  process_irq (suc fuel) chain w =
      let more = complete_one chain w >>= process_irq fuel chain in
      if has_used w.blk.vq then more else some w
