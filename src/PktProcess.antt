-- ===== src/PktProcess.antt =====
-- Packet processing: src/d2sc_nfrt/d2sc_pkt_process.c. One thread with its buffer queue works on the
-- shared tables; DPDK's rings, its network device and its flow hash are the interface `PktIo`.
pub mod Census
pub mod Frame
pub mod Ledger
pub mod Ports
pub mod Tx
pub mod TxBatch
pub mod Serves
pub mod Total
pub mod Sends
pub mod TxTotal
use d2sc.Buffers.{
  BufQueue, PktIo, TxPart, arrive, bump_index, count_drops, count_next, count_out, count_tonf,
  not_int, out_buf, port_bufs, put, route_by, set_port_buf, tx_buf,
}
use d2sc.Prelude.{
  ℕ, zero, suc, ◌+◌, ◌-◌, not, ◌||◌, Option, none, some, List, [], ◌∷◌, ◌++◌, ltb, leb, ◌==◌,
  if◌then◌else◌, add_u64, length, take, drop, update, Outcome, done, fault, ◌>>=◌,
}
use d2sc.Common.{
  max_nfs, pkt_rd_size, act_drop, act_next, act_tonf, act_out, Stats, Shared, nf_is_valid, set_nf,
  Mbuf, set_meta,
}
use d2sc.Sc.{Sc}
use d2sc.NtMap.{nt_to_nf_map}
use d2sc.PktHelper.{PortInfo}
use d2sc.FlowTable.{get_entry}

module _ (io : PktIo) where
  -- The state of one thread: the shared tables, each NF's RX and TX ring, the device, the ports, the
  -- thread's own buffers, and the packets that were freed and those that went out.
  pub record Dp : Type 0 where
    pub shared : Shared
    pub rx_q : ℕ → io.Ring
    pub tx_q : ℕ → io.Ring
    pub nic : io.Nic
    pub ports : PortInfo
    pub bq : BufQueue
    pub default_sc : Sc
    pub freed : List Mbuf
    pub wire : List Mbuf

  abbrev pub with_stats : Dp → ℕ → (Stats → Stats) → Dp
  with_stats s i f =
      let nf = s.shared.nfs i in
      record s { shared = set_nf s.shared i (record nf { stats = f nf.stats }) }

  abbrev pub set_rx_buf : Dp → ℕ → List Mbuf → Dp
  set_rx_buf s i b = record s { bq = record s.bq { rx_bufs = update s.bq.rx_bufs i b } }

  abbrev pub set_tx : Dp → TxPart → Dp
  set_tx s t = record s { bq = record s.bq { tx = t } }

  -- The packet is freed; as its pointer is not null, the result is 1.
  abbrev pub pkt_drop : Dp → Mbuf → ℕ × Dp
  pkt_drop s p = (1, record s { freed = s.freed ++ p ∷ [] })

  abbrev pub drop_batch : Dp → List Mbuf → Dp
  drop_batch s ps = record s { freed = s.freed ++ ps }

  abbrev flushed : Dp → ℕ → List Mbuf → Option io.Ring → Dp
  flushed s i buf none =
      with_stats (drop_batch (set_rx_buf s i []) buf) i
        (λ st. record st { rx_drop = add_u64 st.rx_drop (length buf) })
  flushed s i buf (some r) =
      let s' = set_rx_buf s i [] in
      with_stats (record s' { rx_q = update s'.rx_q i r }) i
        (λ st. record st { rx = add_u64 st.rx (length buf) })

  -- Every call passes the buffer of the NF that it names.
  unfoldable pub flush_nf_bq : Dp → ℕ → Dp
  flush_nf_bq s i =
      let buf = s.bq.rx_bufs i in
      if (length buf == 0) || not (nf_is_valid s.shared i)
      then s
      else flushed s i buf (io.enqueue_bulk (s.rx_q i) buf)

  -- `n` rounds from index `i` on.
  unfoldable pub flush_bqs_from : ℕ → ℕ → Dp → Dp
  flush_bqs_from zero i s = s
  flush_bqs_from (suc n) i s = flush_bqs_from n (i + 1) (flush_nf_bq s i)

  unfoldable pub flush_all_bqs : Dp → Dp
  flush_all_bqs s = flush_bqs_from max_nfs 0 s

  abbrev pub flush_if_full : Dp → ℕ → Dp
  flush_if_full s i = if length (s.bq.rx_bufs i) == pkt_rd_size then flush_nf_bq s i else s

  abbrev pub enqueue_to : Dp → Mbuf → ℕ → Outcome Dp
  enqueue_to s p nf_id =
      if nf_id == 0
      then done (pkt_drop s p).1
      else if ltb nf_id max_nfs
      then (if nf_is_valid s.shared nf_id
          then (put (s.bq.rx_bufs nf_id) p >>= λ b.
              done (flush_if_full (set_rx_buf s nf_id b) nf_id))
          else done (pkt_drop s p).1)
      else fault

  unfoldable pub enqueue_bq : Dp → ℕ → Mbuf → Outcome Dp
  enqueue_bq s dst_nt_id p = nt_to_nf_map s.shared dst_nt_id p.rss >>= enqueue_to s p

  abbrev port_flushed : Dp → ℕ → List Mbuf → ℕ × io.Nic → Dp
  port_flushed s portid buf (nb_tx, nic) =
      let ports = s.ports in
      let dropped =
        if ltb nb_tx (length buf)
        then update ports.tx_drop portid (add_u64 (ports.tx_drop portid) (length buf - nb_tx))
        else ports.tx_drop in
      record s {
        nic = nic;
        ports = record ports {
          tx_drop = dropped;
          tx = update ports.tx portid (add_u64 (ports.tx portid) nb_tx);
        };
        bq = record s.bq { tx = set_port_buf s.bq.tx portid [] };
        wire = s.wire ++ take nb_tx buf;
        freed = s.freed ++ drop nb_tx buf;
      }

  abbrev flush_port : Dp → ℕ → (ℕ → List Mbuf) → Outcome Dp
  flush_port s portid bufs =
      if ltb portid s.ports.limit
      then done (
          if length (bufs portid) == 0
          then s
          else port_flushed s portid (bufs portid) (io.tx_burst s.nic portid s.bq.id (bufs portid)))
      else fault

  unfoldable pub flush_port_bq : Dp → ℕ → Outcome Dp
  flush_port_bq s portid =
      if s.bq.mgr_nf == 1 then (port_bufs s.bq.tx >>= flush_port s portid) else done s

  unfoldable pub flush_ports_from : ℕ → ℕ → Dp → Outcome Dp
  flush_ports_from zero i s = done s
  flush_ports_from (suc n) i s = flush_port_bq s (s.ports.id i) >>= flush_ports_from n (i + 1)

  unfoldable pub flush_all_ports : Dp → Outcome Dp
  flush_all_ports s = flush_ports_from s.ports.n_ports 0 s

  abbrev port_put : Dp → ℕ → Mbuf → (ℕ → List Mbuf) → Outcome Dp
  port_put s portid p bufs =
      if ltb portid s.ports.limit
      then (put (bufs portid) p >>= λ b.
          let s' = set_tx s (set_port_buf s.bq.tx portid b) in
          if length b == pkt_rd_size then flush_port_bq s' portid else done s')
      else fault

  unfoldable pub enqueue_port : Dp → ℕ → Mbuf → Outcome Dp
  enqueue_port s portid p =
      if leb s.ports.n_ports portid then done s else (port_bufs s.bq.tx >>= port_put s portid p)

  abbrev tx_ring_done : Dp → ℕ → List Mbuf → Option io.Ring → Dp
  tx_ring_done s i buf none =
      drop_batch
        (with_stats (set_tx s (tx_buf [])) i
          (λ st. record st { tx_drop = add_u64 st.tx_drop (length buf) }))
        buf
  tx_ring_done s i buf (some r) =
      let s' = set_tx s (tx_buf []) in
      with_stats (record s' { tx_q = update s'.tx_q i r }) i
        (λ st. record st { tx = add_u64 st.tx (length buf) })

  -- The NF's own transmit buffer goes to its TX ring.
  unfoldable pub enqueue_tx_ring : Dp → List Mbuf → ℕ → Dp
  enqueue_tx_ring s buf i =
      if length buf == 0 then s else tx_ring_done s i buf (io.enqueue_bulk (s.tx_q i) buf)

  -- The chain of the packet's flow, or the default chain.
  abbrev pub chain_of : Dp → Option ℕ → Sc
  chain_of s none = s.default_sc
  chain_of s (some i) = io.flow_sc i

  -- The action and the destination that the packet's chain gives it.
  unfoldable pub route : Dp → Mbuf → Outcome Mbuf
  route s p = get_entry io.hash_lookup p >>= λ e. route_by (chain_of s e) p

  abbrev count_drop : Dp → ℕ → ℕ × Dp → Dp
  count_drop s i (r, s') = with_stats s' i (count_drops (not_int r))

  -- The switch on the action. The C code raises `sc_index` after the packet was handed on, through the
  -- same pointer: the packet is handed on here with the index raised.
  abbrev next_by_act : Dp → Mbuf → ℕ → Outcome Dp
  next_by_act s p i =
      if p.info.act == act_drop
      then done (count_drop s i (pkt_drop s (bump_index p)))
      else if p.info.act == act_tonf
      then enqueue_bq (with_stats s i count_tonf) p.info.dst (bump_index p)
      else if p.info.act == act_out
      then enqueue_port (with_stats s i count_out) p.info.dst (bump_index p)
      else done s

  unfoldable pub process_next_act : Dp → Mbuf → ℕ → Outcome Dp
  process_next_act s p i = route s p >>= λ p'. next_by_act s p' i

  -- What one turn of the TX loop comes to: the next packet, or an early return.
  pub data Turn : Type 0 where
    next : Dp → Turn
    stop : Dp → Turn

  -- A full buffer goes to the NF's TX ring.
  abbrev out_full : Dp → ℕ → TxPart → Dp
  out_full s i (tx_buf b) =
      if length b == pkt_rd_size then enqueue_tx_ring s b (s.shared.nfs i).inst_id else s
  out_full s i _ = s

  -- The action D2SC_NF_ACT_OUT: the manager sends to a port, an NF fills its own buffer.
  abbrev out_by_owner : Dp → Mbuf → ℕ → Outcome Dp
  out_by_owner s p i =
      if s.bq.mgr_nf == 1
      then enqueue_port (with_stats s i count_out) p.info.dst p
      else (out_buf s.bq.tx >>= λ b.
          put b p >>= λ b'. done (out_full (set_tx s (tx_buf b')) i (tx_buf b')))

  abbrev to_next : Outcome Dp → Outcome Turn
  to_next m = m >>= λ s. done (next s)

  abbrev tx_by_act : Dp → Mbuf → ℕ → Outcome Turn
  tx_by_act s p i =
      if p.info.act == act_drop
      then done (next (count_drop s i (pkt_drop s p)))
      else if p.info.act == act_next
      then to_next (process_next_act (with_stats s i count_next) p i)
      else if p.info.act == act_tonf
      then to_next (enqueue_bq (with_stats s i count_tonf) p.info.dst p)
      else if p.info.act == act_out
      then to_next (out_by_owner s p i)
      else done (stop (pkt_drop s p).1)

  abbrev pub stamp : Dp → ℕ → Mbuf → Mbuf
  stamp s i p = set_meta p (record p.info { src = (s.shared.nfs i).inst_id })

  -- One packet from NF `i`, stamped with the NF's number.
  unfoldable pub tx_one : Dp → Mbuf → ℕ → Outcome Turn
  tx_one s p i = tx_by_act s (stamp s i p) i

  unfoldable pub process_tx_batch : Dp → List Mbuf → ℕ → Outcome Dp
  process_tx_batch s [] i = done s
  process_tx_batch s (p ∷ ps) i =
      tx_one s p i >>= λ t. elim t [ next s' ↦ process_tx_batch s' ps i | stop s' ↦ done s' ]

  unfoldable pub rx_one : Dp → Mbuf → Outcome Dp
  rx_one s p = route s (arrive p) >>= λ p'. enqueue_bq s (bump_index p').info.dst (bump_index p')

  unfoldable pub rx_all : Dp → List Mbuf → Outcome Dp
  rx_all s [] = done s
  rx_all s (p ∷ ps) = rx_one s p >>= λ s'. rx_all s' ps

  unfoldable pub process_rx_batch : Dp → List Mbuf → Outcome Dp
  process_rx_batch s ps = rx_all s ps >>= λ s'. done (flush_all_bqs s')
