-- ===== src/Dpdk.antt =====
-- What the start of the manager asks DPDK for, src/d2sc_mgr/d2sc_init.h and d2sc_init.c, and its answers.
use d2sc.Prelude.{ℕ, Bool, true, false, Option, none, some, List, Outcome, done, exit}
use d2sc.Common.{NfInfo}
use d2sc.PktHelper.{PortInfo}
use d2sc.EthPort.{PortCall}

-- The memory zones, the pools and the rings, by their names.
pub data Zone : Type 0 where
  nf_zone port_zone nts_zone nfs_per_nt_zone nt_available_zone scp_zone ftp_zone : Zone

pub data PoolName : Type 0 where
  pktmbuf_mp nf_info_mp nf_msg_mp : PoolName

pub data RingName : Type 0 where
  rx_ring : ℕ → RingName
  tx_ring : ℕ → RingName
  msg_ring : ℕ → RingName
  scale_ring : ℕ → RingName
  mgr_msg_ring : RingName
  mgr_scale_ring : RingName

abbrev pub nf_msg_ring_size : ℕ
nf_msg_ring_size = 128

abbrev pub nf_scale_ring_size : ℕ
nf_scale_ring_size = 128

-- MBUFS_PER_NF and MBUFS_PER_PORT
abbrev pub mbufs_per : ℕ
mbufs_per = 1536

-- What DPDK answers: whether the EAL starts, the number of devices, the bytes of a zone that is reserved
-- for a number of bytes, or null; the words that stand in the zones that the code does not clear; which
-- pools, rings and blocks it makes; and its answers about ports.
pub record Dpdk : Type 0 where
  pub eal : Bool
  pub dev_count : ℕ
  pub zone : Zone → ℕ → Option ℕ
  pub nf_bytes : ℕ
  pub port_bytes : ℕ
  pub nums_found : ℕ → ℕ
  pub available_found : ℕ → ℕ
  pub ports_found : PortInfo
  pub infos_found : ℕ → NfInfo
  pub row : ℕ → Bool
  pub pool : PoolName → ℕ → Bool
  pub ring : RingName → ℕ → Bool
  pub accepts : PortCall → Bool
  pub mac : ℕ → List ℕ
  pub link : ℕ → ℕ → Bool
  pub chain : Bool
  pub ft_hash : Bool
  pub ft_table : Bool
  pub ft_data : Bool

-- rte_exit
abbrev pub need : Bool → Outcome (Unit {0})
need true = done tt
need false = exit

abbrev pub reserved : Option ℕ → Outcome ℕ
reserved none = exit
reserved (some bytes) = done bytes
