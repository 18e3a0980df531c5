-- ===== src/Threads.antt =====
-- The packet loops: one turn of `rx_thread_main` and of `tx_thread_main` of src/d2sc_mgr/main.c and the NF numbers that `main`
-- gives each TX thread, and one turn of the packet loop of `d2sc_nfrt_run_callback` in
-- src/d2sc_nfrt/d2sc_nfrt.c, with `d2sc_nfrt_dequeue_pkts`.
pub mod Receive
pub mod Shares
pub mod Turns
use d2sc.Prelude.{
  ℕ, zero, suc, ◌+◌, ◌-◌, ◌*◌, ◌/◌, min, List, [], ◌∷◌, ltb, ◌&&◌, ◌==◌, if◌then◌else◌, add_u64,
  length, update, Outcome, done, fault, ◌>>=◌,
}
use d2sc.Common.{max_nfs, pkt_rd_size, nf_is_valid, Mbuf}
use d2sc.Buffers.{PktIo, TxPart, null, tx_thread, tx_buf, out_buf}
use d2sc.PktProcess.{
  Dp, flush_all_bqs, flush_all_ports, enqueue_tx_ring, process_tx_batch, process_rx_batch,
  drop_batch, with_stats,
}

-- ceil((float)MAX_NFS / tx_lcores), for at least one thread.
pub nfs_per_tx : ℕ → ℕ
nfs_per_tx tx_lcores = (max_nfs + (tx_lcores - 1)) / tx_lcores

-- RTE_MIN(i * nfs_per_tx + 1, MAX_NFS), where thread `i` starts and thread `i - 1` ends.
pub first_nf_id : ℕ → ℕ → ℕ
first_nf_id tx_lcores i = min (i * nfs_per_tx tx_lcores + 1) max_nfs

module _ (io : PktIo) where
  -- What a port's burst raises, `ports->rx_stats.rx[port_id] += nb_rx`.
  abbrev count_rx : Dp io → ℕ → ℕ → Dp io
  count_rx s port_id n = record s {
    ports = record s.ports { rx = update s.ports.rx port_id (add_u64 (s.ports.rx port_id) n) };
  }

  -- A burst of packets from a port: with no NF at all it is dropped.
  abbrev rx_got : Dp io → ℕ → List Mbuf × io.Nic → Outcome (Dp io)
  rx_got s port_id (rx_pkts, nic) =
      let s' = count_rx (record s { nic = nic }) port_id (length rx_pkts) in
      if length rx_pkts == 0
      then done s'
      else if s'.shared.num_nfs == 0
      then done (drop_batch io s' rx_pkts)
      else process_rx_batch io s' rx_pkts

  -- `rte_eth_rx_burst` is given the port, the queue and the most packets that it may hand out.
  module _ (rx_burst : io.Nic → ℕ → ℕ → ℕ → List Mbuf × io.Nic) where
    unfoldable pub rx_port : Dp io → ℕ → Outcome (Dp io)
    rx_port s i =
        let port_id = s.ports.id i in
        if ltb i s.ports.limit && ltb port_id s.ports.limit
        then rx_got s port_id (rx_burst s.nic port_id s.bq.id pkt_rd_size)
        else fault

    -- The loop over the ports with the rounds that are left; nothing in it changes `n_ports`.
    pub rx_from : ℕ → ℕ → Dp io → Outcome (Dp io)
    rx_from zero i s = done s
    rx_from (suc n) i s = rx_port s i >>= rx_from n (i + 1)

    -- One turn of an RX thread.
    pub rx_turn : Dp io → Outcome (Dp io)
    rx_turn s = rx_from s.ports.n_ports 0 s

  -- At most 32 packets from the TX ring of NF `i`, if it runs.
  unfoldable pub tx_nf : Dp io → ℕ → Outcome (Dp io)
  tx_nf s i =
      if ltb i max_nfs
      then (if nf_is_valid s.shared i
          then (let got = io.dequeue_burst (s.tx_q i) pkt_rd_size in
              let s' = record s { tx_q = update s.tx_q i got.1 } in
              if length got.0 == 0 then done s' else process_tx_batch io s' got.0 i)
          else done s)
      else fault

  pub tx_from : ℕ → ℕ → Dp io → Outcome (Dp io)
  tx_from zero i s = done s
  tx_from (suc n) i s = tx_nf s i >>= tx_from n (i + 1)

  abbrev tx_nfs : Dp io → TxPart → Outcome (Dp io)
  tx_nfs s null = fault
  tx_nfs s (tx_buf b) = fault
  tx_nfs s (tx_thread first last bufs) = tx_from (last - first) first s

  -- One turn of a TX thread.
  pub tx_turn : Dp io → Outcome (Dp io)
  tx_turn s = do s1 ← tx_nfs s s.bq.tx; s2 ← flush_all_ports io s1; done (flush_all_bqs io s2)

  -- What the NF's function makes of each packet; a result other than 0 is counted in `tx_buf`, and the
  -- packet is passed on all the same.
  unfoldable pub handle_pkts : (Mbuf → ℕ × Mbuf) → ℕ → Dp io → List Mbuf → List Mbuf × Dp io
  handle_pkts handler i s [] = ([], s)
  handle_pkts handler i s (p ∷ ps) =
      let (ret, p') = handler p in
      let s' =
        if ret == 0
        then s
        else with_stats io s i (λ st. record st { tx_buf = add_u64 st.tx_buf 1 }) in
      let (ps', s'') = handle_pkts handler i s' ps in (p' ∷ ps', s'')

  unfoldable pub dequeue_pkts : (Mbuf → ℕ × Mbuf) → ℕ → Dp io → List Mbuf × Dp io
  dequeue_pkts handler i s =
      let got = io.dequeue_burst (s.rx_q i) pkt_rd_size in
      handle_pkts handler i (record s { rx_q = update s.rx_q i got.1 }) got.0

  abbrev pub flush_own : ℕ → Dp io → Outcome (Dp io)
  flush_own i s = out_buf s.bq.tx >>= λ b. done (flush_all_bqs io (enqueue_tx_ring io s b i))

  -- The packet part of one turn of the NF in entry `i`.
  unfoldable pub nf_turn : (Mbuf → ℕ × Mbuf) → ℕ → Dp io → Outcome (Dp io)
  nf_turn handler i s =
      let got = dequeue_pkts handler i s in
      (if length got.0 == 0 then done got.1 else process_tx_batch io got.1 got.0 i) >>= flush_own i
