-- ===== src/Init/Serving.antt =====
-- From the start of the manager to its first packets: an RX thread on the tables that the start leaves.
use d2sc.Prelude.{
  ℕ, zero, suc, ◌+◌, ◌≤◌, ◌<◌, ◌≡◌, refl, ap, true, Option, some, List, [], ◌∷◌, arith, ltb, length,
  All, done,
}
use d2sc.Common.{max_nts, Shared, Mbuf}
use d2sc.Parse.{Config}
use d2sc.NtMap.{nt_to_nf_map}
use d2sc.Buffers.{PktIo, null}
use d2sc.PktProcess.{Dp}
use d2sc.PktProcess.Serves.{Serves, Leads, Mapped}
use d2sc.NfMgr.Registry.{Registry}
use d2sc.Threads.{rx_turn}
use d2sc.Threads.Receive.{arrivals, rx_turn-returns}
use d2sc.PktProcess.Census.{held, weight}
use d2sc.Dpdk.{Dpdk}
use d2sc.Init.{Manager, start_main, nth}
use d2sc.Init.Loops.{Startable}
use d2sc.Init.Boot.{Provides, Started, start_main-Started, default_hop}

-- What `main` gives to RX thread `i`; the rings and the device are DPDK's.
abbrev pub rx_thread_of :
    (io : PktIo) → Manager → ℕ → (ℕ → io.Ring) → (ℕ → io.Ring) → io.Nic → Dp io
rx_thread_of io m i rx_q tx_q nic = record {
  shared = m.shared;
  rx_q = rx_q;
  tx_q = tx_q;
  nic = nic;
  ports = m.ports;
  bq = record { id = i; mgr_nf = 1; tx = null; rx_bufs = λ j. [] };
  default_sc = m.default_sc;
  freed = [];
  wire = [];
}

-- With no instance registered, every type is mapped to none.
empty-Mapped : (sh : Shared) → Registry sh (λ t. []) → Mapped sh
unfolding nt_to_nf_map
empty-Mapped sh r t rss l =
    let known : ltb t max_nts ≡ true = ground arith in (0, rw (known, r.nums t l) refl, omega arith)

nth-Startable :
    (d : Dpdk) (limit : ℕ) (ids : List ℕ) (i : ℕ)
    → All (Startable d limit) ids
    → i < length ids
    → nth ids i < limit
nth-Startable d limit [] i a l = absurd (omega arith)
nth-Startable d limit (p ∷ ids) zero ((small, l, started), rest) h = l
nth-Startable d limit (p ∷ ids) (suc i) ((small, l, started), rest) h =
    nth-Startable d limit ids i rest (omega arith)

module _ (io : PktIo) where
  -- A turn of the thread `s` returns, fit for another one, with all packets accounted for.
  pub Turned : (io.Nic → ℕ → ℕ → ℕ → List Mbuf × io.Nic) → Dp io → Type 0
  Turned rx_burst s =
      (s' : Dp io) × (rx_turn io rx_burst s ≡ done s')
      × Serves io s'
      × ((a : ℕ)
          → held io a s'
            ≡ held io a s
              + weight a (arrivals io rx_burst s.ports.n_ports 0 s.ports.id s.bq.id s.nic))

module _ (d : Dpdk) (opts : List (ℕ × Option (List ℕ))) (c c' : Config)
    (v : Provides d opts c c') where
  Started-PortsFit :
      (m : Manager)
      → Started d opts c c' v m
      → (m.ports.n_ports ≤ m.ports.limit)
        × ((i : ℕ) → i < m.ports.n_ports → m.ports.id i < m.ports.limit)
  Started-PortsFit m st = (
    omega (arith, v.ports_fit, st.limit, st.n_ports),
    λ i l.
        let at : m.ports.id i ≡ nth c'.ports.ids i = ap (λ (f : ℕ → ℕ). f i) st.id in
        let short : i < length c'.ports.ids = omega (arith, st.n_ports) in
        let small = nth-Startable d d.ports_found.limit c'.ports.ids i v.ports short in
        omega (arith, st.limit),
  )

  module _ (io : PktIo) (leads : (i : ℕ) → Leads (io.flow_sc i)) where
    first_turn :
        (m : Manager)
        → Started d opts c c' v m
        → (sh : Shared) → Mapped sh
        → (rx_burst : io.Nic → ℕ → ℕ → ℕ → List Mbuf × io.Nic) (i : ℕ) (rx_q tx_q : ℕ → io.Ring)
          (nic : io.Nic)
        → Turned io rx_burst (rx_thread_of io (record m { shared = sh }) i rx_q tx_q nic)
    unfolding Turned
    first_turn m st sh mapped rx_burst i rx_q tx_q nic =
        rx_turn-returns io rx_burst (rx_thread_of io (record m { shared = sh }) i rx_q tx_q nic)
          (record {
            room = λ j l. omega arith;
            default_leads = (default_hop ∷ [], st.chain, (omega arith, tt));
            flows_lead = leads;
            mapped = mapped;
          })
          (Started-PortsFit m st)

    -- If the arguments are accepted, DPDK gives what the start needs for the program's 16 types and the
    -- chosen ports, among it a zone of the rows with eight bytes for each type, which is more than the
    -- code asks for, the words of the two zones that the code does not clear are zero, and the chains of
    -- the flow table lead to known types, then the start succeeds, and maps every type to none. The first
    -- turn of any RX thread, on the tables that the start leaves, where no NF is, and as well on any
    -- tables `sh` in which every type is mapped to an instance or to none, returns without a fault or an
    -- endless loop, whatever packets the device hands out; the thread's buffers, chains and types are then
    -- in order for the next turn, and in the rings, the buffers, the freed packets and the wire together
    -- each address stands as often as before and in the packets that the device handed out.
    pub start_main-Serves :
        ((t : ℕ) → d.nums_found t ≡ 0)
        → ((t : ℕ) → d.available_found t ≡ 0)
        → (sh : Shared) → Mapped sh
        → (m : Manager) × (start_main d opts c ≡ done (some m))
          × Mapped m.shared
          × ((rx_burst : io.Nic → ℕ → ℕ → ℕ → List Mbuf × io.Nic) (i : ℕ) (rx_q tx_q : ℕ → io.Ring)
                (nic : io.Nic)
              → Turned io rx_burst (rx_thread_of io m i rx_q tx_q nic)
                × Turned io rx_burst (rx_thread_of io (record m { shared = sh }) i rx_q tx_q nic))
    start_main-Serves nums available sh mapped =
        let (m, e, st) = start_main-Started d opts c c' v nums available in
        let unmapped = empty-Mapped m.shared st.registry in
        (
          m,
          e,
          unmapped,
          λ rx_burst i rx_q tx_q nic. (
            first_turn m st m.shared unmapped rx_burst i rx_q tx_q nic,
            first_turn m st sh mapped rx_burst i rx_q tx_q nic,
          ),
        )
