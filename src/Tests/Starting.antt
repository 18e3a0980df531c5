-- ===== src/Tests/Starting.antt =====
-- A start of the manager with ports 0 and 1, a port whose first TX queue fails, and links that come up.
use d2sc.Prelude.{
  ℕ, ◌+◌, ◌*◌, ◌<◌, ◌≡◌, refl, ◌⊎◌, Bool, true, false, Option, some, List, [], ◌∷◌, map, arith, ltb,
  leb, All, done, fault,
}
use d2sc.Common.{stopped, running, normal, Mbuf}
use d2sc.Parse.{
  Config, no_output, parse_mgr_args, parse_option, parse_port_mask, strtoul, digits, skip_space,
  mark_ports,
}
use d2sc.PktHelper.{PortInfo}
use d2sc.EthPort.{
  PortCall, tx_queue, queues, init_port, LinkReport, check_all_ports_link_status, max_check_time,
}
use d2sc.EthPort.Calls.{port_calls, run_calls, init_port-eq-run_calls}
use d2sc.EthPort.Link.{every, check_all_ports_link_status-prints}
use d2sc.Dpdk.{Dpdk}
use d2sc.Init.{Manager, init, start_main, port_ids_from}
use d2sc.Init.Loops.{Startable}
use d2sc.Init.Boot.{Provides, Started, start_main-Started, init-overruns}
use d2sc.Init.Serving.{rx_thread_of, Turned, start_main-Serves}
use d2sc.PktProcess.Serves.{Mapped}
use d2sc.Tests.Data.{shared_of, info_of, two_ports, list_io}
use d2sc.Tests.Receive.{chain-Leads, all-Mapped}

abbrev no_ports : PortInfo
no_ports = record two_ports { n_ports = 0 }

-- A machine whose zones have eight times the bytes asked for.
abbrev machine : (PortCall → Bool) → Dpdk
machine accepts = record {
  eal = true;
  dev_count = 2;
  zone = λ z n. some (8 * n);
  nf_bytes = 256;
  port_bytes = 1024;
  nums_found = λ t. 0;
  available_found = λ t. 0;
  ports_found = no_ports;
  infos_found = λ p. info_of 0 0 stopped;
  row = λ t. true;
  pool = λ p n. true;
  ring = λ r n. true;
  accepts = accepts;
  mac = λ p. p ∷ [];
  link = λ n p. leb 3 n;
  chain = true;
  ft_hash = true;
  ft_table = true;
  ft_data = true;
}

abbrev willing : Dpdk
willing = machine (λ k. true)

abbrev settings : List ℕ → Config
settings ids = record {
  ports = record { limit = 4; ids = ids };
  num_nts = 16;
  default_nt = 1;
  num_rx_threads = 2;
  stats_dst = no_output;
  sleep_time = 1;
}

-- -p 3
abbrev both_ports : List (ℕ × Option (List ℕ))
both_ports = (112, some (51 ∷ [])) ∷ []

parsed_both :
    parse_mgr_args 2 both_ports
      (record (settings []) { ports = record { limit = 4; ids = port_ids_from 0 0 (λ i. i) } })
    ≡ done (true, settings (0 ∷ 1 ∷ []))
unfolding parse_mgr_args parse_option parse_port_mask strtoul digits skip_space mark_ports
    port_ids_from
parsed_both = refl

ports-Startable : All (Startable willing 4) (0 ∷ 1 ∷ [])
unfolding init_port queues
ports-Startable = ((omega arith, omega arith, refl), ((omega arith, omega arith, refl), tt))

willing-Provides : Provides willing both_ports (settings []) (settings (0 ∷ 1 ∷ []))
willing-Provides = record {
  eal = refl;
  zones = λ z n. (8 * n, refl, omega arith);
  types = refl;
  rows_fit = omega arith;
  rows = λ t. refl;
  pools = λ p n. refl;
  rings = λ r n. refl;
  blocks = (refl, refl, refl, refl);
  parsed = parsed_both;
  ports_fit = omega arith;
  ports = ports-Startable;
}

start_main-Started_example :
    (m : Manager) × (start_main willing both_ports (settings []) ≡ done (some m))
    × Started willing both_ports (settings []) (settings (0 ∷ 1 ∷ [])) willing-Provides m
start_main-Started_example =
    start_main-Started willing both_ports (settings []) (settings (0 ∷ 1 ∷ [])) willing-Provides
      (λ t. refl) (λ t. refl)

start_main-Serves_example :
    (m : Manager) × (start_main willing both_ports (settings []) ≡ done (some m))
    × Mapped m.shared
    × ((rx_burst : ℕ → ℕ → ℕ → ℕ → List Mbuf × ℕ) (i : ℕ) (rx_q tx_q : ℕ → List Mbuf) (nic : ℕ)
        → Turned list_io rx_burst (rx_thread_of list_io m i rx_q tx_q nic)
          × Turned list_io rx_burst (
              rx_thread_of list_io
                (record m { shared = shared_of normal running 2 })
                i
                rx_q
                tx_q
                nic))
start_main-Serves_example =
    start_main-Serves willing both_ports (settings []) (settings (0 ∷ 1 ∷ [])) willing-Provides
      list_io (λ i. chain-Leads) (λ t. refl) (λ t. refl) (shared_of normal running 2) all-Mapped

-- DPDK rounds the 32 bytes that are asked for up to 64.
init-overruns_example : init (record willing { zone = λ z n. some 64 }) [] (settings []) ≡ fault
init-overruns_example =
    init-overruns (record willing { zone = λ z n. some 64 }) [] (settings []) 64 64 64 refl refl
      refl refl (omega arith)

-- TX queue 0 of the port is refused.
abbrev no_tx : PortCall → Bool
no_tx (tx_queue p q n) = ltb 0 q
no_tx c = true

init_port-eq-run_calls_example : init_port no_tx 1 ≡ run_calls no_tx (port_calls 1)
init_port-eq-run_calls_example = init_port-eq-run_calls no_tx 1

check_all_ports_link_status-prints_example :
    (r : LinkReport) × (m : ℕ) × (check_all_ports_link_status (λ n p. leb 3 n) (0 ∷ 1 ∷ [])
      ≡ done r)
    × (m < max_check_time)
    × (r.printed ≡ map (λ id. (id, leb 3 (m + 1))) (0 ∷ 1 ∷ []))
    × ((j : ℕ) → j < m → every (λ p. leb 3 j) (0 ∷ 1 ∷ []) ≡ false)
    × (((every (λ p. leb 3 m) (0 ∷ 1 ∷ []) ≡ true) × (r.delays ≡ m))
        ⊎ ((every (λ p. leb 3 m) (0 ∷ 1 ∷ []) ≡ false)
            × (m + 1 ≡ max_check_time)
            × (r.delays ≡ max_check_time)))
check_all_ports_link_status-prints_example =
    check_all_ports_link_status-prints (λ n p. leb 3 n) (0 ∷ 1 ∷ [])
      (omega arith, (omega arith, tt))
