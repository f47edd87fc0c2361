-- ===== src/Lib.antt =====
-- A model of picokernel, a small kernel that runs asynchronous work items in one event loop, with
-- proofs about its core.
--
-- A program hands the kernel work items (kernel/kapi.h) with ksubmit and takes them back with
-- kcancel. Both only record what is wanted, in queues or in the heap of timers. The event loop of
-- kmain (kernel/kmain.c) calls kmain_tick (kernel/kernel.c), which expires timers, lets the platform complete work, runs the callbacks of
-- the completed items, and passes the queued submissions and cancellations to the platform in one
-- call. Timers wait in a heap of their own (kernel/timer_heap.c). Interrupt handlers talk to the
-- tick through a ring (kernel/irq_ring.c), which platform_tick drains
-- (platform/shared/platform_virtio.c). The same file hands submissions to the drivers of the
-- devices (driver/virtio), which share virtqueues with them.
--
-- Files, with the code that they model:
--
--   Prelude     Boolean tests and list functions over the native numbers, names passed on.
--   IrqRing     `struct kirq_ring` as a record of an array and three counters; enqueue, dequeue,
--               dequeue_bounded, snapshot, is_empty and init are kirq_ring_<name>. IrqRing/Queue is
--               a bounded queue, IrqRing/Refine its refinement, IrqRing/Drain platform_tick.
--   State       struct kwork, struct ktimer_req and struct kernel as the records Work, Request and
--               Kernel. A pointer is a number; the requests that pointers lead to are a function of
--               the kernel record, so that items may be aliased and lists may be cyclic as in C.
--   TimerHeap   timer_heap_<name> as <name>. TimerHeap/Navigate is about paths to positions, Swap
--               about the exchange of payloads, Layout and Order say what an ordered heap is,
--               Bubble is about its two loops, Link and Insert about insertion, Unlink, Remove
--               and Delete about extraction and deletion, Defects about two timers.
--   Kernel      kernel.c: enqueue_submit, enqueue_cancel, enqueue_ready, expire_timers under their
--               names, ksubmit and kcancel as submit and cancel, kplatform_complete_work and
--               kplatform_cancel_work as complete_work and cancel_work, kmain_next_delay and
--               kmain_tick as next_delay and tick, the three loops of kmain_tick as run_ready,
--               cancel_loop and expire_timers, and the round of kmain as loop_body.
--               Kernel/Queues, Submit, Ready, Cancel and Tick are about the parts of these names,
--               Kernel/Earlier about the submission of a timer that moves up in the heap.
--   Virtqueue   virtqueue_<name> of driver/virtio/virtio.c as <name>, with virtq_need_event.
--               Virtqueue/FreeList is about the list of free descriptors, Memory about the
--               addresses of the tables, Rings about the event index.
--   Mmio        virtio_mmio_<name> of driver/virtio/virtio_mmio.c as <name>, Mmio/Offset the offsets
--               of the registers, Mmio/Queue what a device learns of a queue.
--   Rng         submit_work and process_irq are virtio_rng_<name> of driver/virtio/virtio_rng.c, with
--               their loops' bodies as submit_one and complete_one. Rng/Submit is about one request,
--               Rng/Bulk about a list of them, Rng/Complete about what comes back.
--   Blk         the same of driver/virtio/virtio_blk.c. Virtqueue/Chains is about chains of
--               descriptors: Removal about lists of them, Release about giving one back, Slots about
--               the requests that have one, Used about the used ring. Blk/Build is about the chains
--               that the driver builds, Transfer and Flush about one request, Handled about any one
--               and the descriptors it needs, Frame about what it leaves alone, Bulk about a list of
--               them, Drain about what comes back.
--   Net         the same of driver/virtio/virtio_net.c, with submit_rx_buffer; Net/Used has what follows
--               a used entry, virtio_net_buffer_release and virtio_net_cancel_work (cancel_net).
--               Net/Offer is about one buffer of a standing request, Receive about all, Release about a buffer's
--               return, Send about a packet to send, Drain about the interrupt, Hang about two packets
--               in one interrupt.
--   Pci         virtio_pci_<name> of driver/virtio/virtio_pci.c as <name>; Pci/Common has the offsets of
--               the registers, Pci/Walk is about the search for capabilities, Queue about a queue.
--   Setup       the steps that the drivers' set-up functions share. Those functions are init_mmio and
--               init_pci of Rng/Setup, Blk/Setup and Net/Setup; Setup/Queue is about what they leave.
--   Dispatch    platform_submit of platform/shared/platform_virtio.c over an interface of the drivers,
--               which Dispatch/Machine fills with the ones of this repository. Dispatch/Partition and
--               Kinds are about the lists by device, Complete about a list that is completed at once,
--               Refusals and Absent about a machine without devices.
--   Crc32       kernel/crc32.c: crc32_compute over a function from indices to bytes. Crc32/Reference
--               divides bit by bit, Bits is about exclusive or, Table about the entries, Linear about
--               a look-up.
--   FreeMemory  platform/x64: the regions of RAM of parse_e820_map (platform_boot_context.c), and
--               subtract_reserved_region and build_free_regions (platform_mem.c) over lists of regions.
--               FreeMemory/Cover is about the addresses that they hold, Safe about what is in use.
--   RegionList  platform/arm64/platform_core.c: subtract_reserved_region as subtract, over the array of
--               regions and the list in it, which add_region builds.
--               RegionList/Split and Cut are about one region, Subtract about the list, Cycle about a
--               split after a removal.
--   Libc        the functions of libc/string.c under their names, over a memory of bytes. Libc/Move is
--               about the ones that write, Compare about memcmp, Strings about strings and strtoul.
--
-- Numbers. Sizes and times are numbers with the wrap-around of a 64-bit target written out, ring
-- positions those of uint32_t.
--
-- Loops. A loop over linked requests has fuel and is `none` when the fuel ends. `max_depth` is 64:
-- a position is below 2 ^ 64, so a path in the heap has at most 63 steps. The loops of a tick get a
-- fuel of the caller's choice, which is enough above the lengths of the queues. The drain of the
-- ring gets 256 rounds, one more than a valid ring holds.
--
-- Parameters. What kmain_tick calls outside kernel.c (platform_tick, platform_submit, platform_wfi
-- and the functions that callbacks point to) is the record Kernel.Platform, functions of the
-- platform's state and the kernel. Accesses to registers are the records Mmio.Mmio, Pci.Pci and
-- Setup.Config, and the notification of a device is the record Rng.Notify. The device's interrupt
-- work is a parameter of the drain. The addresses of the linker and the boot loader are the record
-- FreeMemory.Layout.
--
-- Not modelled: the KDEBUG build with its history of states, logging and assertions, kmain_init,
-- knet_buffer_release, memory checks (kernel/mem_debug.c), the inline helpers of kernel/kbase.h,
-- random numbers and the demo application (app), the console, the code of each platform but for its
-- free memory (boot, traps, registers, page tables, the search for devices), and the vendored
-- libraries: these are left for later or are mostly device access and output.
pub mod Prelude
pub mod IrqRing
pub mod State
pub mod TimerHeap
pub mod Kernel
pub mod Virtqueue
pub mod Mmio
pub mod Rng
pub mod Blk
pub mod Net
pub mod Pci
pub mod Setup
pub mod Dispatch
pub mod Crc32
pub mod FreeMemory
pub mod RegionList
pub mod Libc
