-- ===== src/Tests/Data.antt =====
-- Tables with two NFs of one type, packets, and rings that are lists of at most four packets.
use d2sc.Prelude.{
  ℕ, zero, suc, ◌+◌, min, ◌≡◌, refl, ap, Option, none, some, List, [], ◌∷◌, ◌++◌, arith, leb, ◌==◌,
  if◌then◌else◌, length, take, drop, replicate, update,
}
use d2sc.Common.{
  act_tonf, act_out, Status, waiting_for_id, starting, running, BkFlag, normal, NfInfo, Stats, Nf,
  Shared, Mbuf,
}
use d2sc.Sc.{Sc, empty_entry}
use d2sc.Messages.{nf_no_id}
use d2sc.PktHelper.{PortInfo}
use d2sc.Buffers.{PktIo, TxPart, null, tx_thread, tx_buf}
use d2sc.PktProcess.{Dp}

abbrev pub no_stats : Stats
no_stats = record {
  rx = 0;
  rx_drop = 0;
  tx = 0;
  tx_drop = 0;
  tx_buf = 0;
  tx_ret = 0;
  out_count = 0;
  tonf_count = 0;
  drop_count = 0;
  next_count = 0;
  buf_count = 0;
}

abbrev pub nf_of : Option ℕ → ℕ → BkFlag → Nf
nf_of p i flag = record {
  nf_info = p;
  inst_id = i;
  ol_flag = 0;
  bk_flag = flag;
  pkt_rate = 0;
  scale_num = 0;
  parent_nf = 0;
  stats = no_stats;
}

abbrev pub info_of : ℕ → ℕ → Status → NfInfo
info_of i t st = record {
  inst_id = i;
  type_id = t;
  status = st;
  srv_time = 0;
  max_load = 100;
  name = "nf";
}

-- NFs 1 and 2 are described at addresses 1 and 2; NF 3 has a number and was started; the description
-- at 4 asks for a number, the one at 5 has chosen 9.
abbrev pub nfs_of : BkFlag → ℕ → Nf
nfs_of flag =
    update
      (update (update (λ i. nf_of none i normal) 1 (nf_of (some 1) 1 flag)) 2
        (nf_of (some 2) 2 normal))
      3 (nf_of (some 3) 3 normal)

abbrev pub infos_of : Status → ℕ → NfInfo
infos_of st =
    update
      (update
        (update (update (λ i. info_of nf_no_id 1 waiting_for_id) 1 (info_of 1 1 st)) 2
          (info_of 2 1 running))
        3 (info_of 3 1 starting))
      5 (info_of 9 1 waiting_for_id)

abbrev pub empty_of : BkFlag → Status → Shared
empty_of flag st = record {
  nfs = nfs_of flag;
  infos = infos_of st;
  nts = λ t. replicate 8 0;
  nfs_per_nt_num = λ t. 0;
  nfs_per_nt_available = λ t. 0;
  num_nfs = 2;
  next_inst_id = 1;
}

-- Type 1 has the instances 1 and 2.
abbrev pub shared_of : BkFlag → Status → ℕ → Shared
shared_of flag st available = record (empty_of flag st) {
  nts = update (empty_of flag st).nts 1 (1 ∷ 2 ∷ replicate 6 0);
  nfs_per_nt_num = update (empty_of flag st).nfs_per_nt_num 1 2;
  nfs_per_nt_available = update (empty_of flag st).nfs_per_nt_available 1 available;
}

abbrev pub two_ids : ℕ → List ℕ
two_ids = update (λ t. []) 1 (1 ∷ 2 ∷ [])

abbrev pub chain : Sc
chain = record {
  sc_entry =
      empty_entry
      ∷ record { dst = 1; act = act_tonf }
      ∷ record { dst = 0; act = act_out }
      ∷ replicate 3 empty_entry;
  sc_len = 2;
  ref_cnt = 0;
}

abbrev pub packet : ℕ → ℕ → ℕ → Mbuf
packet a act dst = record {
  addr = a;
  rss = 3;
  port = 0;
  info = record { act = act; dst = dst; src = 0; sc_index = 0; flags = 0 };
  ether = record { d_addr = 1 ∷ []; s_addr = 2 ∷ [] };
  ipv4 = record { version_ihl = 69; next_proto_id = 6; src_addr = 10; dst_addr = 20 };
  l4 = record { src_port = 1000; dst_port = 80 };
}

pub take-drop : (n : ℕ) (ps : List Mbuf) → ps ≡ take n ps ++ drop n ps
take-drop zero ps = refl
take-drop (suc n) [] = refl
take-drop (suc n) (p ∷ ps) = ap (λ r. p ∷ r) (take-drop n ps)

abbrev pub list_enqueue : List Mbuf → List Mbuf → Option (List Mbuf)
list_enqueue r ps = if leb (length r + length ps) 4 then some (r ++ ps) else none

pub list_enqueue-contents :
    (r ps : List Mbuf) {r' : List Mbuf} → list_enqueue r ps ≡ some r' → r' ≡ r ++ ps
list_enqueue-contents r ps h = ground arith

-- The device sends at most two packets at once; web flows are in the table.
abbrev pub list_io : PktIo
list_io = record {
  Ring = List Mbuf;
  contents = λ r. r;
  enqueue_bulk = list_enqueue;
  dequeue_burst = λ r n. (take n r, drop n r);
  Nic = ℕ;
  tx_burst = λ nic port queue ps. (min (length ps) 2, nic + min (length ps) 2);
  hash_lookup = λ k rss. if k.dst_port == 80 then some 0 else none;
  flow_sc = λ i. chain;
  enqueue-contents = list_enqueue-contents;
  dequeue-contents = λ r n. take-drop n r;
  tx_burst-le = λ nic port queue ps. omega arith;
}

abbrev pub two_ports : PortInfo
two_ports = record {
  limit = 4;
  n_ports = 2;
  id = λ i. i;
  mac = λ i. i ∷ [];
  rx = λ i. 0;
  tx = λ i. 0;
  tx_drop = λ i. 0;
}

abbrev pub thread_of : ℕ → TxPart → Dp list_io
thread_of mgr_nf tx = record {
  shared = shared_of normal running 2;
  rx_q = λ i. [];
  tx_q = λ i. [];
  nic = 0;
  ports = two_ports;
  bq = record { id = 0; mgr_nf = mgr_nf; tx = tx; rx_bufs = λ i. [] };
  default_sc = chain;
  freed = [];
  wire = [];
}

-- A receive thread of the manager, a transmit thread with three packets for port 0, and an NF.
abbrev pub rx_thread : Dp list_io
rx_thread = thread_of 1 null

abbrev pub port_thread : Dp list_io
port_thread =
    thread_of 1
      (tx_thread 1 8 (update (λ i. []) 0 (packet 7 3 0 ∷ packet 8 3 0 ∷ packet 9 3 0 ∷ [])))

abbrev pub nf_thread : Dp list_io
nf_thread = thread_of 0 (tx_buf (packet 7 3 0 ∷ packet 8 3 0 ∷ []))
