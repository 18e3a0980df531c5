-- ===== src/Init.antt =====
-- The start of the manager: `init` of src/d2sc_mgr/d2sc_init.c, with `d2sc_fs_init` of
-- src/d2sc_nfrt/d2sc_flow_steer.c, and what `main` of src/d2sc_mgr/main.c sets before it starts its threads.
-- What DPDK answers, and what stands in the memory that it gives, is an argument.
pub mod Loops
pub mod Boot
pub mod Serving
use d2sc.Dpdk.{
  Dpdk, RingName, ftp_zone, mbufs_per, mgr_msg_ring, mgr_scale_ring, msg_ring, need, nf_info_mp,
  nf_msg_mp, nf_msg_ring_size, nf_scale_ring_size, nf_zone, nfs_per_nt_zone, nt_available_zone,
  nts_zone, pktmbuf_mp, port_zone, reserved, rx_ring, scale_ring, scp_zone, tx_ring,
}
use d2sc.Prelude.{
  ℕ, zero, suc, ◌+◌, ◌*◌, Bool, true, false, ◌&&◌, Option, none, some, List, [], ◌∷◌, ltb, leb,
  if◌then◌else◌, length, replicate, update, Outcome, done, fault, exit, ◌>>=◌, ◌>>◌,
}
use d2sc.Common.{
  nf_ring_size, max_nfs, max_nts, max_nfs_per_nt, act_tonf, normal, Stats, Nf, Shared,
}
use d2sc.Sc.{Sc, ok, no_space, bad_index, create, merge_entry}
use d2sc.Parse.{PortIds, Config, parse_mgr_args}
use d2sc.NfMgr.{clear_stats}
use d2sc.PktHelper.{PortInfo}
use d2sc.FlowTable.{Ft, ft_create}
use d2sc.EthPort.{init_port, LinkReport, check_all_ports_link_status}

-- What the manager has when it starts its threads.
pub record Manager : Type 0 where
  pub shared : Shared
  pub ports : PortInfo
  pub config : Config
  pub default_sc : Sc
  pub ft : Ft
  pub links : LinkReport

abbrev pub no_stats : Stats
no_stats = record {
  rx = 0;
  rx_drop = 0;
  tx = 0;
  tx_drop = 0;
  tx_buf = 0;
  tx_ret = 0;
  out_count = 0;
  tonf_count = 0;
  drop_count = 0;
  next_count = 0;
  buf_count = 0;
}

-- An entry of the zone of the NFs, which is cleared, with what `init_shm_rings` writes.
abbrev pub fresh_nf : ℕ → Nf
fresh_nf i = record {
  nf_info = none;
  inst_id = i;
  ol_flag = 0;
  bk_flag = normal;
  pkt_rate = 0;
  scale_num = 0;
  parent_nf = 0;
  stats = no_stats;
}

-- The row of a type, or none where rte_calloc fails, which the code does not look at.
abbrev pub row_of : Bool → List ℕ
row_of true = replicate max_nfs_per_nt 0
row_of false = []

-- The pointer to row `i` takes the eight bytes from byte 8 * i on; past the zone's end it faults.
unfoldable pub init_rows : (ℕ → Bool) → ℕ → ℕ → ℕ → (ℕ → List ℕ) → Outcome (ℕ → List ℕ)
init_rows row bytes zero i nts = done nts
init_rows row bytes (suc n) i nts =
    if leb (8 * i + 8) bytes
    then init_rows row bytes n (i + 1) (update nts i (row_of (row i)))
    else fault

-- The four rings of each NF from NF `i` on.
unfoldable pub init_shm_rings : (RingName → ℕ → Bool) → ℕ → ℕ → (ℕ → Nf) → Outcome (ℕ → Nf)
init_shm_rings ring zero i nfs = done nfs
init_shm_rings ring (suc n) i nfs = do
  need (
      ring (rx_ring i) nf_ring_size
      && ring (tx_ring i) nf_ring_size
      && ring (msg_ring i) nf_msg_ring_size
      && ring (scale_ring i) nf_scale_ring_size)
  init_shm_rings ring n (i + 1) (update nfs i (fresh_nf i))

-- Each port's address is read and the port initialised.
unfoldable pub init_ports : Dpdk → List ℕ → PortInfo → Outcome PortInfo
init_ports d [] ports = done ports
init_ports d (port_id ∷ ids) ports =
    if ltb port_id ports.limit
    then (need (init_port d.accepts port_id).0 >>= λ _.
        init_ports d ids (record ports { mac = update ports.mac port_id (d.mac port_id) }))
    else fault

-- FT_ENTRIES
abbrev pub ft_entries : ℕ
ft_entries = 1024

-- sizeof(struct d2sc_flow_entry)
abbrev pub flow_entry_size : ℕ
flow_entry_size = 56

-- d2sc_fs_init
unfoldable pub fs_init : Dpdk → Outcome Ft
fs_init d = elim (ft_create d.ft_hash d.ft_table d.ft_data ft_entries flow_entry_size).0 [
  | none ↦ exit
  | some ft ↦ reserved (d.zone ftp_zone 8) >>= λ _. done ft
]

-- The port numbers that `ports` holds.
unfoldable pub port_ids_from : ℕ → ℕ → (ℕ → ℕ) → List ℕ
port_ids_from zero i id = []
port_ids_from (suc n) i id = id i ∷ port_ids_from n (i + 1) id

-- `parse_port_mask` writes behind the numbers that are there.
abbrev pub port_list : PortInfo → PortIds
port_list ports = record { limit = ports.limit; ids = port_ids_from ports.n_ports 0 ports.id }

abbrev pub nth : List ℕ → ℕ → ℕ
nth [] i = 0
nth (x ∷ xs) zero = x
nth (x ∷ xs) (suc i) = nth xs i

abbrev pub with_ports : PortInfo → List ℕ → PortInfo
with_ports ports ids = record ports { n_ports = length ids; id = nth ids }

-- What parse_mgr_args works on before it sets anything.
abbrev config_at : Dpdk → Config → Config
config_at d c = record c { ports = port_list d.ports_found }

-- The default chain sends every packet to type 1.
unfoldable pub default_chain : Bool → Outcome Sc
default_chain chain = do
  need chain
  r ← merge_entry create act_tonf 1
  elim r.0 [ ok ↦ done r.1 | no_space ↦ exit | bad_index ↦ done r.1 ]

abbrev shared_at : Dpdk → (ℕ → List ℕ) → (ℕ → Nf) → Shared
shared_at d nts nfs = record {
  nfs = nfs;
  infos = d.infos_found;
  nts = nts;
  nfs_per_nt_num = d.nums_found;
  nfs_per_nt_available = d.available_found;
  num_nfs = 0;
  next_inst_id = 1;
}

-- The pools and the manager's own rings; the flag is whether DPDK makes them.
abbrev init_mbuf_mps : Dpdk → Config → Bool
init_mbuf_mps d c = d.pool pktmbuf_mp (max_nfs * mbufs_per + length c.ports.ids * mbufs_per)

abbrev init_nf_info_mp : Dpdk → Bool
init_nf_info_mp d = d.pool nf_info_mp max_nfs

abbrev init_nf_msg_mp : Dpdk → Bool
init_nf_msg_mp d = d.pool nf_msg_mp (max_nfs * nf_msg_ring_size)

abbrev init_new_msg_ring : Dpdk → Bool
init_new_msg_ring d = d.ring mgr_msg_ring max_nfs

abbrev init_scale_msg_ring : Dpdk → Bool
init_scale_msg_ring d = d.ring mgr_scale_ring max_nts

-- What `init` does once the arguments are parsed.
unfoldable pub init_after : Dpdk → (ℕ → List ℕ) → Config → Outcome Manager
init_after d nts c = do
  need (init_mbuf_mps d c)
  need (init_nf_info_mp d)
  need (init_nf_msg_mp d)
  ports ← init_ports d c.ports.ids (with_ports d.ports_found c.ports.ids)
  links ← check_all_ports_link_status d.link c.ports.ids
  nfs ← init_shm_rings d.ring max_nfs 0 (λ i. fresh_nf 0)
  need (init_new_msg_ring d)
  need (init_scale_msg_ring d)
  sc ← default_chain d.chain
  scp ← reserved (d.zone scp_zone 8)
  ft ← fs_init d
  done (record {
    shared = shared_at d nts nfs;
    ports = ports;
    config = c;
    default_sc = sc;
    ft = ft;
    links = links;
  })

-- `init` once the EAL has started. The number of types is still its default when the zones are reserved.
unfoldable pub init_zones : Dpdk → List (ℕ × Option (List ℕ)) → Config → Outcome (Option Manager)
init_zones d opts c = do
  nf ← reserved (d.zone nf_zone (d.nf_bytes * max_nfs))
  port ← reserved (d.zone port_zone d.port_bytes)
  bytes ← reserved (d.zone nts_zone (2 * c.num_nts))
  nts ← init_rows d.row bytes c.num_nts 0 (λ t. [])
  nums ← reserved (d.zone nfs_per_nt_zone (2 * c.num_nts))
  available ← reserved (d.zone nt_available_zone (2 * c.num_nts))
  r ← parse_mgr_args d.dev_count opts (config_at d c)
  if r.0 then (init_after d nts r.1 >>= λ m. done (some m)) else done none

-- `none` is a result below 0.
unfoldable pub init : Dpdk → List (ℕ × Option (List ℕ)) → Config → Outcome (Option Manager)
init d opts c = if d.eal then init_zones d opts c else done none

-- d2sc_stats_clear_all_nfs
unfoldable pub clear_all_nfs : ℕ → ℕ → (ℕ → Nf) → ℕ → Nf
clear_all_nfs zero i nfs = nfs
clear_all_nfs (suc n) i nfs =
    clear_all_nfs n (i + 1) (update nfs i (record (nfs i) { stats = clear_stats (nfs i).stats }))

-- `main` up to the start of its threads.
unfoldable pub start_main : Dpdk → List (ℕ × Option (List ℕ)) → Config → Outcome (Option Manager)
start_main d opts c = init d opts c >>= λ r. elim r [
  | none ↦ done none
  | some m ↦ done (
      some (record m {
        shared = record m.shared { nfs = clear_all_nfs max_nfs 0 m.shared.nfs; num_nfs = 0 };
      }))
]
