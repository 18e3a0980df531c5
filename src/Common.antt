-- ===== src/Common.antt =====
-- The data that the manager and the NFs share: src/d2sc_nfrt/d2sc_common.h, and the flow key of
-- src/d2sc_nfrt/d2sc_flow_table.h. Pointers to NF descriptions are addresses in a store of their own.
use d2sc.Prelude.{ℕ, Bool, true, false, Option, none, some, List, update}
use Prim.Native.String.{String}

abbrev pub max_sc_len : ℕ
max_sc_len = 6

abbrev pub nf_ring_size : ℕ
nf_ring_size = 16384

abbrev pub max_nfs : ℕ
max_nfs = 16

abbrev pub max_nts : ℕ
max_nts = 16

abbrev pub max_nfs_per_nt : ℕ
max_nfs_per_nt = 8

abbrev pub pkt_rd_size : ℕ
pkt_rd_size = 32

abbrev pub act_drop : ℕ
act_drop = 0

abbrev pub act_next : ℕ
act_next = 1

abbrev pub act_tonf : ℕ
act_tonf = 2

abbrev pub act_out : ℕ
act_out = 3

-- The NF states of d2sc_common.h, in the order of their numbers.
pub data Status : Type 0 where
  waiting_for_id starting running blocked stopped id_conflict no_ids : Status

-- `bk_flag`: 0 normal, 1 signalled to block, 2 blocked.
pub data BkFlag : Type 0 where
  normal signalled halted : BkFlag

-- struct d2sc_nf_info
pub record NfInfo : Type 0 where
  pub inst_id : ℕ
  pub type_id : ℕ
  pub status : Status
  pub srv_time : ℕ
  pub max_load : ℕ
  pub name : String

-- struct stats
pub record Stats : Type 0 where
  pub rx : ℕ
  pub rx_drop : ℕ
  pub tx : ℕ
  pub tx_drop : ℕ
  pub tx_buf : ℕ
  pub tx_ret : ℕ
  pub out_count : ℕ
  pub tonf_count : ℕ
  pub drop_count : ℕ
  pub next_count : ℕ
  pub buf_count : ℕ

-- struct d2sc_nf without its rings, its buffer queue and its two function pointers, which the modules
-- that use them carry beside it. `nf_info` is the address of the NF's description, or null.
pub record Nf : Type 0 where
  pub nf_info : Option ℕ
  pub inst_id : ℕ
  pub ol_flag : ℕ
  pub bk_flag : BkFlag
  pub pkt_rate : ℕ
  pub scale_num : ℕ
  pub parent_nf : ℕ
  pub stats : Stats

-- The memory that the manager's threads and the NFs share. `infos` is the store of NF descriptions;
-- `nts t` is the row of `max_nfs_per_nt` entries that `nts[t]` points to.
pub record Shared : Type 0 where
  pub nfs : ℕ → Nf
  pub infos : ℕ → NfInfo
  pub nts : ℕ → List ℕ
  pub nfs_per_nt_num : ℕ → ℕ
  pub nfs_per_nt_available : ℕ → ℕ
  pub num_nfs : ℕ
  pub next_inst_id : ℕ

abbrev pub is_running : Status → Bool
is_running running = true
is_running _ = false

abbrev pub is_halted : BkFlag → Bool
is_halted halted = true
is_halted _ = false

-- The status behind an NF's description pointer is NF_RUNNING; a null pointer is not.
abbrev pub running_at : (ℕ → NfInfo) → Option ℕ → Bool
running_at infos none = false
running_at infos (some p) = is_running (infos p).status

-- d2sc_nf_is_valid(&nfs[i])
abbrev pub nf_is_valid : Shared → ℕ → Bool
nf_is_valid sh i = running_at sh.infos (sh.nfs i).nf_info

abbrev pub set_nf : Shared → ℕ → Nf → Shared
set_nf sh i nf = record sh { nfs = update sh.nfs i nf }

abbrev pub set_info : Shared → ℕ → NfInfo → Shared
set_info sh p info = record sh { infos = update sh.infos p info }

-- struct d2sc_pkt_meta
pub record PktMeta : Type 0 where
  pub act : ℕ
  pub dst : ℕ
  pub src : ℕ
  pub sc_index : ℕ
  pub flags : ℕ

-- The two addresses of an Ethernet header, of six bytes each.
pub record EtherHdr : Type 0 where
  pub d_addr : List ℕ
  pub s_addr : List ℕ

-- The fields of the IPv4 header that the code reads, and the two port fields that a TCP and a UDP
-- header both begin with.
pub record Ipv4Hdr : Type 0 where
  pub version_ihl : ℕ
  pub next_proto_id : ℕ
  pub src_addr : ℕ
  pub dst_addr : ℕ

pub record L4Hdr : Type 0 where
  pub src_port : ℕ
  pub dst_port : ℕ

-- A packet: the address of its mbuf, which tells packets apart, its RSS hash, its port of entry, the
-- metadata in its `udata64`, and the headers in its data. A packet has one owner at a time.
pub record Mbuf : Type 0 where
  pub addr : ℕ
  pub rss : ℕ
  pub port : ℕ
  pub info : PktMeta
  pub ether : EtherHdr
  pub ipv4 : Ipv4Hdr
  pub l4 : L4Hdr

abbrev pub set_meta : Mbuf → PktMeta → Mbuf
set_meta p m = record p { info = m }
