-- ===== src/Init/Boot.antt =====
-- What the manager has when its start succeeds: cleared tables, an empty registry, rings and rows for all,
-- and a default chain; and the overrun of the zone of the rows.
use d2sc.Prelude.{
  ℕ, ◌+◌, ◌*◌, ◌≤◌, ◌<◌, ◌≡◌, refl, ap, ◌∙◌, true, Option, none, some, List, [], ◌∷◌, arith,
  if◌then◌else◌, length, replicate, All, done, fault,
}
use d2sc.Common.{max_nfs, max_nts, max_nfs_per_nt, act_tonf, normal, Nf, Shared}
use d2sc.Sc.{Sc, ScEntry, create}
use d2sc.Sc.Build.{Holds, create-Holds, merge_entry-Holds}
use d2sc.Parse.{Config, parse_mgr_args}
use d2sc.NfMgr.Open.{open_count}
use d2sc.NfMgr.Registry.{Registry}
use d2sc.FlowTable.{Ft, ft_create}
use d2sc.EthPort.Link.{check_all_ports_link_status-prints}
use d2sc.Init.Loops.{
  init_rows-done, init_rows-overrun, init_shm_rings-done, Startable, init_ports-done,
  clear_all_nfs-keeps,
}
use d2sc.Dpdk.{
  nf_zone, port_zone, nts_zone, nfs_per_nt_zone, nt_available_zone, scp_zone, ftp_zone, Zone,
  PoolName, pktmbuf_mp, nf_info_mp, nf_msg_mp, RingName, mgr_msg_ring, mgr_scale_ring,
  nf_msg_ring_size, mbufs_per, Dpdk,
}
use d2sc.Init.{
  init_zones, init_after, init, clear_all_nfs, start_main, Manager, fresh_nf, fs_init,
  default_chain, shared_at, config_at, with_ports, ft_entries, flow_entry_size, nth,
}

-- The hop of the default chain: to NF type 1.
abbrev pub default_hop : ScEntry
default_hop = record { dst = 1; act = act_tonf }

default_chain-Holds : (sc : Sc) × (default_chain true ≡ done sc) × Holds sc (default_hop ∷ [])
unfolding default_chain
default_chain-Holds =
    let (sc, e, h) = merge_entry-Holds create [] default_hop create-Holds (omega arith) in
    (sc, rw e refl, h)

empty-Registry :
    (sh : Shared)
    → ((t : ℕ) → t < max_nts → sh.nts t ≡ replicate max_nfs_per_nt 0)
    → ((t : ℕ) → sh.nfs_per_nt_num t ≡ 0)
    → ((t : ℕ) → sh.nfs_per_nt_available t ≡ 0)
    → Registry sh (λ t. [])
unfolding open_count
empty-Registry sh rows nums available = record {
  rows = λ t l. record { shape = rows t l; fits = omega arith; nonzero = tt };
  nums = λ t l. nums t;
  available = λ t l. available t;
  distinct = λ t l. tt;
  apart = λ t u i lt lu ct cu. cc;
}

-- DPDK gives all that the start asks for: zones of at least the bytes asked for, of which the one of the
-- rows has room for a pointer to each, pools, rings and blocks; the arguments are accepted and leave the
-- settings `c'`, whose ports can be initialised.
pub record Provides (d : Dpdk) (opts : List (ℕ × Option (List ℕ))) (c c' : Config) : Type 0 where
  pub eal : d.eal ≡ true
  pub zones : (z : Zone) (n : ℕ) → (bytes : ℕ) × (d.zone z n ≡ some bytes) × (n ≤ bytes)
  pub types : c.num_nts ≡ max_nts
  pub rows_fit : 8 * c.num_nts ≤ (zones nts_zone (2 * c.num_nts)).0
  pub rows : (t : ℕ) → d.row t ≡ true
  pub pools : (p : PoolName) (n : ℕ) → d.pool p n ≡ true
  pub rings : (r : RingName) (n : ℕ) → d.ring r n ≡ true
  pub blocks : (d.chain ≡ true) × (d.ft_hash ≡ true) × (d.ft_table ≡ true) × (d.ft_data ≡ true)
  pub parsed : parse_mgr_args d.dev_count opts (config_at d c) ≡ done (true, c')
  pub ports_fit : length c'.ports.ids ≤ d.ports_found.limit
  pub ports : All (Startable d d.ports_found.limit) c'.ports.ids

module _ (d : Dpdk) (opts : List (ℕ × Option (List ℕ))) (c c' : Config)
    (v : Provides d opts c c') where
  fs_init-done : (ft : Ft) × (fs_init d ≡ done ft)
  unfolding fs_init ft_create
  fs_init-done =
      let (scp, h, t, e) = v.blocks in
      let (bytes, z, l) = v.zones ftp_zone 8 in
      (record { cnt = ft_entries; entry_size = flow_entry_size }, rw (h, t, e, z) refl)

  -- The manager that `init` makes, with rows `nts`.
  record Made (nts : ℕ → List ℕ) (m : Manager) : Type 0 where
    tables :
        (nfs : ℕ → Nf) × (m.shared ≡ shared_at d nts nfs)
        × ((j : ℕ) → j < max_nfs → nfs j ≡ fresh_nf j)
    chain : Holds m.default_sc (default_hop ∷ [])
    config : m.config ≡ c'
    limit : m.ports.limit ≡ d.ports_found.limit
    n_ports : m.ports.n_ports ≡ length c'.ports.ids
    id : m.ports.id ≡ nth c'.ports.ids

  shiftable : (ids : List ℕ) → All (Startable d d.ports_found.limit) ids → All (λ p. p < 32) ids
  shiftable [] a = tt
  shiftable (p ∷ ids) ((small, l, started), rest) = (small, shiftable ids rest)

  init_after-done : (nts : ℕ → List ℕ) → (m : Manager) × (init_after d nts c' ≡ done m) × Made nts m
  unfolding init_after
  init_after-done nts =
      let (ports, ep, lim, num, id) =
        init_ports-done d c'.ports.ids (with_ports d.ports_found c'.ports.ids) v.ports in
      let (links, n, el, in_time, printed, before, why) =
        check_all_ports_link_status-prints d.link c'.ports.ids (shiftable c'.ports.ids v.ports) in
      let (nfs, en, new, old) = init_shm_rings-done d.ring max_nfs 0 (λ i. fresh_nf 0) v.rings in
      let (sc, es, h) = default_chain-Holds in
      let (scp, ez, l) = v.zones scp_zone 8 in
      let (ft, ef) = fs_init-done in
      (
        record {
          shared = shared_at d nts nfs;
          ports = ports;
          config = c';
          default_sc = sc;
          ft = ft;
          links = links;
        },
        rw
            (
              v.pools pktmbuf_mp (max_nfs * mbufs_per + length c'.ports.ids * mbufs_per),
              v.pools nf_info_mp max_nfs,
              v.pools nf_msg_mp (max_nfs * nf_msg_ring_size),
              ep,
              el,
              en,
              v.rings mgr_msg_ring max_nfs,
              v.rings mgr_scale_ring max_nts,
              ap default_chain v.blocks.0 ∙ es,
              ez,
              ef,
            )
            refl,
        record {
          tables = (nfs, refl, λ j lo. new j (omega arith) lo);
          chain = h;
          config = refl;
          limit = lim;
          n_ports = num;
          id = id;
        },
      )

  init_zones-done :
      (nts : ℕ → List ℕ) × (m : Manager) × (init_zones d opts c ≡ done (some m))
      × Made nts m
      × ((t : ℕ) → t < max_nts → nts t ≡ replicate max_nfs_per_nt 0)
  unfolding init_zones
  init_zones-done =
      let (nf, e1, l1) = v.zones nf_zone (d.nf_bytes * max_nfs) in
      let (port, e2, l2) = v.zones port_zone d.port_bytes in
      let (nums, e4, l4) = v.zones nfs_per_nt_zone (2 * c.num_nts) in
      let (available, e5, l5) = v.zones nt_available_zone (2 * c.num_nts) in
      let e3 = (v.zones nts_zone (2 * c.num_nts)).1 in
      let (nts, e, rows, old) =
        init_rows-done d.row (v.zones nts_zone (2 * c.num_nts)).0 c.num_nts 0 (λ t. []) v.rows
          (omega (arith, v.rows_fit)) in
      let (m, em, made) = init_after-done nts in
      (
        nts,
        m,
        rw (e1, e2, e3, e, e4, e5, v.parsed, em) refl,
        made,
        λ t l. rows t (omega arith) (omega (arith, v.types)),
      )

  eal_started : init d opts c ≡ init_zones d opts c
  unfolding init
  eal_started = ap (λ b. if b then init_zones d opts c else done none) v.eal

  pub record Started (m : Manager) : Type 0 where
    pub registry : Registry m.shared (λ t. [])
    pub entries :
        (j : ℕ)
        → j < max_nfs
        → ((m.shared.nfs j).nf_info ≡ none)
          × ((m.shared.nfs j).inst_id ≡ j)
          × ((m.shared.nfs j).bk_flag ≡ normal)
    pub counters : (m.shared.num_nfs ≡ 0) × (m.shared.next_inst_id ≡ 1)
    pub chain : Holds m.default_sc (default_hop ∷ [])
    pub config : m.config ≡ c'
    pub limit : m.ports.limit ≡ d.ports_found.limit
    pub n_ports : m.ports.n_ports ≡ length c'.ports.ids
    pub id : m.ports.id ≡ nth c'.ports.ids

  -- What `main` makes of the tables of `init`.
  cleared : Manager → Manager
  cleared m = record m {
    shared = record m.shared { nfs = clear_all_nfs max_nfs 0 m.shared.nfs; num_nfs = 0 };
  }

  cleared-Started :
      (nts : ℕ → List ℕ) (m : Manager)
      → Made nts m
      → ((t : ℕ) → t < max_nts → nts t ≡ replicate max_nfs_per_nt 0)
      → ((t : ℕ) → d.nums_found t ≡ 0)
      → ((t : ℕ) → d.available_found t ≡ 0)
      → Started (cleared m)
  unfolding cleared
  cleared-Started nts m made rows nums available =
      let (nfs, same, fresh) = made.tables in
      record {
        registry =
            empty-Registry (cleared m).shared (λ t l. ap (λ (x : Shared). x.nts t) same ∙ rows t l)
              (λ t. ap (λ (x : Shared). x.nfs_per_nt_num t) same ∙ nums t)
              (λ t. ap (λ (x : Shared). x.nfs_per_nt_available t) same ∙ available t);
        entries = λ j l.
            let entry : m.shared.nfs j ≡ fresh_nf j =
              ap (λ (x : Shared). x.nfs j) same ∙ fresh j l in
            let (info, id, flag) = clear_all_nfs-keeps max_nfs 0 m.shared.nfs j in
            (
              info ∙ ap (λ (x : Nf). x.nf_info) entry,
              id ∙ ap (λ (x : Nf). x.inst_id) entry,
              flag ∙ ap (λ (x : Nf). x.bk_flag) entry,
            );
        counters = (refl, ap (λ (x : Shared). x.next_inst_id) same);
        chain = made.chain;
        config = made.config;
        limit = made.limit;
        n_ports = made.n_ports;
        id = made.id;
      }

  -- If DPDK gives all that the start asks for, the zone of the rows among it with room for their pointers,
  -- and the words of the two zones that the code does not clear are zero, then the start succeeds,
  -- with an empty registry, with every NF's entry empty, unblocked and carrying its own number, with
  -- no NF counted and the first number to give out being 1, with the chain of the one hop to type 1,
  -- and with the ports and settings of the arguments.
  pub start_main-Started :
      ((t : ℕ) → d.nums_found t ≡ 0)
      → ((t : ℕ) → d.available_found t ≡ 0)
      → (m : Manager) × (start_main d opts c ≡ done (some m)) × Started m
  unfolding start_main cleared
  start_main-Started nums available =
      let (nts, m, e, made, rows) = init_zones-done in
      (cleared m, rw (eal_started, e) refl, cleared-Started nts m made rows nums available)

-- If DPDK starts, gives the first zones, and the zone of the rows has less than eight bytes for each
-- type, as the 2 bytes per type that the code asks for are, then `init` writes past the zone's end.
pub init-overruns :
    (d : Dpdk) (opts : List (ℕ × Option (List ℕ))) (c : Config) (nf port bytes : ℕ)
    → d.eal ≡ true
    → d.zone nf_zone (d.nf_bytes * max_nfs) ≡ some nf
    → d.zone port_zone d.port_bytes ≡ some port
    → d.zone nts_zone (2 * c.num_nts) ≡ some bytes
    → bytes < 8 * c.num_nts
    → init d opts c ≡ fault
unfolding init init_zones
init-overruns d opts c nf port bytes eal e1 e2 e3 short =
    ap (λ b. if b then init_zones d opts c else done none) eal
    ∙ rw
        (
          e1,
          e2,
          e3,
          init_rows-overrun d.row bytes c.num_nts 0 (λ t. []) (omega arith) (omega arith),
        )
        refl
