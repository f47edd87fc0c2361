-- ===== src/Net/Tests.antt =====
-- The theorems about the network driver at inputs that meet their hypotheses.
use picokernel.Prelude.{
  ℕ, ◌-◌, ◌+◌, ◌*◌, ◌%◌, ◌^◌, ◌≡◌, refl, false, List, [], ◌∷◌, arith, update, some, none,
}
use picokernel.State.{Ptr, Kerr, WorkState, op_net_recv, op_net_send, Request, Kernel}
use picokernel.Kernel.{Platform, complete_work, run_ready}
use picokernel.Virtqueue.{Virtqueue, init, get_used}
use picokernel.Virtqueue.FreeList.{init-IsFree}
use picokernel.Virtqueue.Chains.Used.{free_after, out_after}
use picokernel.Pci.{
  Pci, Transport, reset, set_status, get_status, set_features, get_features, get_queue_size,
  setup_queue,
}
use picokernel.Pci.Common
use picokernel.Setup.{begin_pci, accept_pci, queue_pci}
use picokernel.Net.Setup.{SetUp, init_pci, read_mac, net_init_pci-SetUp}
use picokernel.Rng.{Notify}
use picokernel.Net.{Net, World, submit_one}
use picokernel.Net.Used.{process_irq, complete_rx, buffer_release}
use picokernel.Net.Drain.{TxSlots, complete_times, complete_sent, net_process_irq_lem}
use picokernel.Net.Hang.{two_packets_hang}
use picokernel.Net.Send.{Sent, submit_one-Sent}
use picokernel.Net.Receive.{RxQueue, AllOffered, submit_one-AllOffered}
use picokernel.Net.Release.{Returned, buffer_release-complete_rx}

abbrev request : ℕ → Ptr → ℕ → Request
request op next flags = record {
  work = record {
    op = op;
    callback = 77;
    ctx = 0;
    result = Kerr.ok;
    state = WorkState.live;
    flags = flags;
    next = next;
    prev = 0;
  };
  deadline_ns = 0;
  parent = 0;
  left = 0;
  right = 0;
}

-- A standing request to receive, at 10, and a packet to send, at 20.
abbrev kernel : Kernel
kernel = record {
  requests = update (λ a. request op_net_send 0 0) 10 (request op_net_recv 20 1);
  submit_queue_head = 10;
  submit_queue_tail = 20;
  cancel_queue_head = 0;
  ready_queue_head = 0;
  timer_heap_root = 0;
  timer_heap_size = 0;
  current_time_ns = 0;
}

abbrev unset : Virtqueue
unset = record {
  queue_size = 0;
  num_free = 0;
  free_head = 0;
  last_used_idx = 0;
  notify_offset = 0;
  queue_index = 0;
  desc_address = 0;
  avail_address = 0;
  used_address = 0;
  desc = λ i. record { addr = 0; len = 0; flags = 0; next = 0 };
  avail_flags = 0;
  avail_idx = 0;
  avail_ring = λ i. 0;
  used_flags = 0;
  used_idx = 0;
  used_ring = λ i. record { id = 0; len = 70 };
}

-- Six descriptors in each queue, and no request out.
abbrev net : Net
net = record {
  transport_type = 1;
  rx_vq = init unset 6 4096;
  tx_vq = init unset 6 8192;
  queue_size = 6;
  mac_address = λ i. 0;
  active_rx_requests = λ i. record { req = 0; buffer_index = 0 };
  active_tx_requests = λ i. 0;
  outstanding_rx_requests = 0;
  outstanding_tx_requests = 0;
  standing_recv_req = 0;
}

abbrev world : World ℕ
world = record {
  net = net;
  recvs = λ a. record {
    buffers = 600;
    num_buffers = 2;
    buffer_index = 0;
    desc_heads = λ i. 0;
    descriptors_allocated = false;
  };
  sends = λ a. record { packets = 700; num_packets = 1; packets_sent = 0; desc_idx = 0 };
  arrays = λ a i. record { buffer = 16384 + 64 * i; buffer_size = 1500; packet_length = 0 };
  tx_headers = λ i. record {
    flags = 1;
    gso_type = 0;
    hdr_len = 0;
    gso_size = 0;
    csum_start = 0;
    csum_offset = 0;
  };
  rx_headers_address = 20480;
  tx_headers_address = 24576;
  kernel = kernel;
  device = 0;
}

abbrev counting : Notify ℕ
counting = record { mmio = λ q d. d + 1; pci = λ vq d. d + 1 }

abbrev six : List ℕ
six = 0 ∷ 1 ∷ 2 ∷ 3 ∷ 4 ∷ 5 ∷ []

net-TxSlots : TxSlots net six []
unfolding init
net-TxSlots = record {
  free_list = init-IsFree unset 6 8192 (omega arith) (omega arith);
  linked = tt;
  distinct = tt;
  apart = λ d e. ground arith;
  within = λ d e. ground arith;
  busy = λ d e. ground arith;
  idle = λ d e. refl;
  count = refl;
  fits = omega arith;
  small = omega arith;
}

submit_one-Sent_example :
    let (w', rx', tx') = submit_one 20 (world, 0, 0) in Sent world 20 0 six [] (w', tx') × (rx' ≡ 0)
unfolding init
submit_one-Sent_example =
    submit_one-Sent world 20 0 0 six [] net-TxSlots (λ e. absurd (omega arith)) (refl, refl)

net-RxQueue : RxQueue net six
unfolding init
net-RxQueue = record {
  free_list = init-IsFree unset 6 4096 (omega arith) (omega arith);
  small = omega arith;
  outstanding = omega arith;
  avail = omega arith;
}

submit_one-AllOffered_example :
    (w' : World ℕ) × (submit_one 10 (world, 0, 0) ≡ (w', 0 + 2, 0)) × AllOffered world 10 six w'
unfolding init
submit_one-AllOffered_example =
    submit_one-AllOffered world 10 0 0 six (record { op = refl; valid = refl; unallocated = refl })
      net-RxQueue (omega arith)

-- Two buffers of the request 10, at the descriptors 0 and 2, have both been filled.
abbrev busy_world : World ℕ
busy_world = record world {
  net = record net {
    rx_vq = record unset {
      queue_size = 6;
      free_head = 0xFFFF;
      used_idx = 2;
      used_ring = λ i. record { id = 2 * i; len = 70 };
    };
    tx_vq = record unset { queue_size = 6; free_head = 0xFFFF };
    active_rx_requests =
        update
          (update (λ i. record { req = 0; buffer_index = 0 }) 2
            (record { req = 10; buffer_index = 1 }))
          0 (record { req = 10; buffer_index = 0 });
    outstanding_rx_requests = 2;
    standing_recv_req = 10;
  };
}

busy-TxSlots : TxSlots busy_world.net [] []
busy-TxSlots = record {
  free_list = record { chain = refl; distinct = tt; count = refl; fits = omega arith };
  linked = tt;
  distinct = tt;
  apart = λ d e. refl;
  within = λ d e. ground arith;
  busy = λ d e. ground arith;
  idle = λ d e. refl;
  count = refl;
  fits = omega arith;
  small = omega arith;
}

net_process_irq_lem_example :
    (w' : World ℕ) × (process_irq 3 0 busy_world ≡ some w')
    × TxSlots w'.net (free_after [] [] []) (out_after [] [])
    × (w'.kernel
        ≡ complete_sent busy_world.net.active_tx_requests []
            (complete_times 2 10 busy_world.kernel))
net_process_irq_lem_example =
    net_process_irq_lem (0 ∷ 2 ∷ []) [] 3 0 busy_world [] [] (λ e. absurd (omega arith))
      (refl, refl, (refl, refl, refl)) (refl, (refl, tt)) (refl, (refl, tt)) (omega arith)
      busy-TxSlots refl (omega arith) (omega arith)

-- A platform whose callbacks do nothing.
abbrev idle_platform : Platform ℕ
idle_platform = record {
  platform_tick = λ w. w;
  platform_submit = λ s c w. w;
  platform_wfi = λ t p. (p, 0);
  invoke = λ fn work w. w;
}

two_packets_hang_example :
    (w' : World ℕ) × (process_irq 3 0 busy_world ≡ some w')
    × ((rounds : ℕ) (p : ℕ)
        → run_ready idle_platform rounds w'.kernel.ready_queue_head (p, w'.kernel) ≡ none)
two_packets_hang_example =
    two_packets_hang idle_platform 0 2 [] 3 busy_world [] [] (λ fn work p k. refl)
      (λ e. absurd (omega arith)) (refl, refl, (refl, refl, refl)) (refl, (refl, tt))
      (refl, (refl, tt)) (omega arith) busy-TxSlots refl

buffer_release-complete_rx_example :
    (w₁ : World ℕ) × (complete_rx 0 busy_world ≡ some w₁)
    × (w₁.kernel ≡ complete_work busy_world.kernel 10 Kerr.ok)
    × ((w₁.recvs 10).buffer_index ≡ 0)
    × ((w₁.arrays 600 0).packet_length ≡ (get_used busy_world.net.rx_vq).1 - 10)
    × (w₁.net.active_rx_requests 0 ≡ record { req = 0; buffer_index = 0 })
    × (w₁.net.outstanding_rx_requests ≡ busy_world.net.outstanding_rx_requests - 1)
    × Returned busy_world (buffer_release counting 10 0 w₁) 0
unfolding get_used
buffer_release-complete_rx_example = buffer_release-complete_rx counting 0 0 0 busy_world (record {
  used = refl;
  there = λ e. absurd (omega arith);
  slot = refl;
  own = refl;
  valid = λ e. absurd (omega arith);
  within = omega arith;
  positive = omega arith;
  small = omega arith;
})

-- A device of plain registers on the PCI bus: it reads back what was written.
abbrev registers : Pci (ℕ → ℕ)
registers = record {
  config_read8 = λ d l a. (d, 0);
  config_read16 = λ d l a. (d, 0);
  config_read32 = λ d l a. (d, 0);
  config_write16 = λ d l a v. d;
  read_bar = λ d l b. (d, 0);
  read8 = λ d a. (d, d a % 2 ^ 8);
  read16 = λ d a. (d, d a % 2 ^ 16);
  read32 = λ d a. (d, d a % 2 ^ 32);
  read64 = λ d a. (d, d a);
  write8 = λ d a v. update d a (v % 2 ^ 8);
  write16 = λ d a v. update d a (v % 2 ^ 16);
  write32 = λ d a v. update d a (v % 2 ^ 32);
  write64 = λ d a v. update d a v;
}

-- A device on the PCI bus with queues of eight entries, whose other registers read as written.
abbrev pci_transport : Transport
pci_transport = record {
  location = record { bus = 0; slot = 3; func = 0 };
  common_cfg = 4096;
  isr_status = 0;
  device_cfg = 8192;
  notify_base = 12288;
  notify_off_multiplier = 4;
  msix_config_vector = 0xFFFF;
  msix_queue_vector = 0xFFFF;
}

abbrev eight : ℕ → ℕ
eight = update (λ a. 0) (4096 + Common.queue_size) 8

net_init_pci-SetUp_example : SetUp (init_pci registers pci_transport 65_536 131_072 (net, eight)).1
unfolding init_pci begin_pci accept_pci queue_pci reset set_status get_status set_features
    get_features get_queue_size setup_queue read_mac init
net_init_pci-SetUp_example =
    net_init_pci-SetUp registers pci_transport 65_536 131_072 net eight (λ i le. refl) refl
      (omega arith) (omega arith)
