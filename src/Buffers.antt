-- ===== src/Buffers.antt =====
-- What packet processing works on: buffers of packets, the counters and the metadata, of
-- src/d2sc_nfrt/d2sc_common.h and d2sc_pkt_process.c, and what is used of DPDK for packets.
use d2sc.Prelude.{
  ℕ, ◌≤◌, ◌≡◌, Option, some, List, [], ◌∷◌, ◌++◌, ltb, ◌==◌, if◌then◌else◌, add_u8, add_u64, length,
  update, Outcome, done, fault, ◌>>=◌,
}
use d2sc.Common.{pkt_rd_size, Stats, Mbuf, set_meta}
use d2sc.Sc.{Sc, next_act, next_dst}
use d2sc.FlowTable.{FtKey}

-- What the code takes from DPDK. A bulk enqueue puts in all packets or none; a burst dequeue splits the
-- ring's contents in two; the device sends a prefix of the packets that it is given.
pub record PktIo : Type 1 where
  pub Ring : Type 0
  pub contents : Ring → List Mbuf
  pub enqueue_bulk : Ring → List Mbuf → Option Ring
  pub dequeue_burst : Ring → ℕ → List Mbuf × Ring
  pub Nic : Type 0
  pub tx_burst : Nic → ℕ → ℕ → List Mbuf → ℕ × Nic
  pub hash_lookup : FtKey → ℕ → Option ℕ
  pub flow_sc : ℕ → Sc
  pub enqueue-contents :
      (r : Ring) (ps : List Mbuf) {r' : Ring}
      → enqueue_bulk r ps ≡ some r'
      → contents r' ≡ contents r ++ ps
  pub dequeue-contents :
      (r : Ring) (n : ℕ) → contents r ≡ (dequeue_burst r n).0 ++ contents (dequeue_burst r n).1
  pub tx_burst-le :
      (nic : Nic) (port queue : ℕ) (ps : List Mbuf) → (tx_burst nic port queue ps).0 ≤ length ps

-- The union of struct buf_queue: the manager's TX threads use `tx_thread`, the NFs `tx_buf`; the
-- manager's RX threads leave it null. A struct pkt_buf is the list of its first `cnt` packets.
pub data TxPart : Type 0 where
  null : TxPart
  tx_thread : ℕ → ℕ → (ℕ → List Mbuf) → TxPart
  tx_buf : List Mbuf → TxPart

-- struct buf_queue
pub record BufQueue : Type 0 where
  pub id : ℕ
  pub mgr_nf : ℕ
  pub tx : TxPart
  pub rx_bufs : ℕ → List Mbuf

-- `p` is appended at `buf[cnt++]`; past the end of the array it faults.
abbrev pub put : List Mbuf → Mbuf → Outcome (List Mbuf)
put buf p = if ltb (length buf) pkt_rd_size then done (buf ++ p ∷ []) else fault

-- The port buffers behind `mgr_bq->tx_thread->tx_bufs`.
abbrev pub port_bufs : TxPart → Outcome (ℕ → List Mbuf)
port_bufs (tx_thread first last bufs) = done bufs
port_bufs _ = fault

abbrev pub set_port_buf : TxPart → ℕ → List Mbuf → TxPart
set_port_buf (tx_thread first last bufs) i b = tx_thread first last (update bufs i b)
set_port_buf null i b = null
set_port_buf (tx_buf x) i b = tx_buf x

abbrev pub out_buf : TxPart → Outcome (List Mbuf)
out_buf (tx_buf b) = done b
out_buf _ = fault

-- C's `!n`.
abbrev pub not_int : ℕ → ℕ
not_int n = if n == 0 then 1 else 0

abbrev pub route_by : Sc → Mbuf → Outcome Mbuf
route_by sc p = do
  a ← next_act sc p
  let p' = set_meta p (record p.info { act = a })
  d ← next_dst sc p'
  done (set_meta p' (record p'.info { dst = d }))

abbrev pub bump_index : Mbuf → Mbuf
bump_index p = set_meta p (record p.info { sc_index = add_u8 p.info.sc_index 1 })

-- The packet starts at the beginning of its chain; its first destination is an NF type.
abbrev pub arrive : Mbuf → Mbuf
arrive p = set_meta p (record p.info { src = 0; sc_index = 0 })

abbrev pub count_tonf : Stats → Stats
count_tonf st = record st { tonf_count = add_u64 st.tonf_count 1 }

abbrev pub count_out : Stats → Stats
count_out st = record st { out_count = add_u64 st.out_count 1 }

abbrev pub count_next : Stats → Stats
count_next st = record st { next_count = add_u64 st.next_count 1 }

abbrev pub count_drops : ℕ → Stats → Stats
count_drops n st = record st { drop_count = add_u64 st.drop_count n }
