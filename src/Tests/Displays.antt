-- ===== src/Tests/Displays.antt =====
-- A display of two ports and two NFs, five seconds after the one before; and one after an NF's restart.
use d2sc.Prelude.{ℕ, ◌≤◌, ◌<◌, ◌≡◌, refl, sym, ◌∙◌, none, some, List, [], ◌∷◌, arith, done, fault}
use d2sc.Common.{max_nfs, Shared, set_nf}
use d2sc.PktHelper.{PortInfo}
use d2sc.Parse.{to_stdout}
use d2sc.NfMgr.{Mgr, check_status}
use d2sc.NfMgr.Open.{open_count-congr}
use d2sc.NfMgr.Registry.{Registry}
use d2sc.Stats.{Lasts, std_out, Screen, Display, display_nfs, master_turn}
use d2sc.Stats.Rates.{loaded, lasts_at, counted, Measured}
use d2sc.Stats.Ports.{PortsFit, lines_from}
use d2sc.Stats.Shows.{master_turn-Registry}
use d2sc.Stats.Restart.{display_nfs-fault}
use d2sc.Tests.Data.{two_ids, two_ports}
use d2sc.Tests.Registration.{all_open, open-Registry}
use d2sc.Tests.Runtime.{list_msgs, manager_of}

abbrev busy_ports : PortInfo
busy_ports = record two_ports { rx = λ i. 500; tx = λ i. 300 }

busy_ports-PortsFit : PortsFit busy_ports
busy_ports-PortsFit = record { fits = omega arith; known = λ i l. omega arith }

abbrev lasts_of : ℕ → Lasts
lasts_of n = record { rx = λ i. n; tx = λ i. 0; rx_drop = λ i. 0; tx_drop = λ i. 0 }

abbrev mac_of : ℕ → List ℕ
mac_of port = 0 ∷ 27 ∷ 33 ∷ 0 ∷ 0 ∷ port ∷ []

abbrev display_of : Lasts → Display
display_of l = record {
  stats_out = some std_out;
  kept = λ i. none;
  port_lasts = lasts_of 100;
  nf_lasts = l;
}

-- NF 1 has received 1000000 packets.
abbrev busy : Shared
busy =
    set_nf all_open 1
      (record (all_open.nfs 1) { stats = record (all_open.nfs 1).stats { rx = 1000000 } })

busy-rx : (j : ℕ) → (busy.nfs j).stats.rx ≤ 1000000
busy-rx j = ground arith

busy-flag : (j : ℕ) → (busy.nfs j).bk_flag ≡ (all_open.nfs j).bk_flag
busy-flag j = ground arith

busy-Registry : Registry busy two_ids
busy-Registry = record {
  rows = open-Registry.rows;
  nums = open-Registry.nums;
  available = λ t l.
      open-Registry.available t l
      ∙ sym (open_count-congr all_open.nfs busy.nfs (two_ids t) (λ j c. busy-flag j));
  distinct = open-Registry.distinct;
  apart = open-Registry.apart;
}

busy-Measured : (j : ℕ) → j < max_nfs → Measured 5 busy.infos (busy.nfs j) ((lasts_of 0).rx j)
busy-Measured j l = record {
  forward = λ r. omega arith;
  small = λ r. omega (arith, busy-rx j);
  fits = λ r. omega (arith, busy-rx j);
}

master_turn-Registry_example :
    (s : Screen) × (m2 : Mgr list_msgs) × (d2 : Display) × (master_turn list_msgs to_stdout mac_of 5
        busy_ports
        (manager_of busy)
        (display_of (lasts_of 0))
      ≡ done (some s, m2, d2))
    × Registry m2.shared two_ids
    × (s.ports ≡ lines_from busy_ports 5 (lasts_of 100) 2 0)
    × ((j : ℕ)
        → j < max_nfs
        → (m2.shared.nfs j ≡ loaded 5 busy.infos (busy.nfs j) 0)
          × (lasts_at d2.nf_lasts j ≡ counted busy.infos (busy.nfs j) (0, 0, 0, 0)))
    × ((j : ℕ) → j < 2 → (d2.port_lasts.rx j ≡ 500) × (d2.port_lasts.tx j ≡ 300))
unfolding check_status
master_turn-Registry_example =
    master_turn-Registry list_msgs mac_of 5 busy_ports busy_ports-PortsFit (omega arith) to_stdout
      (manager_of busy) (manager_of busy) (display_of (lasts_of 0)) std_out two_ids refl
      busy-Registry refl refl busy-Measured

display_nfs-fault_example : display_nfs 5 all_open (lasts_of 700) ≡ fault
display_nfs-fault_example =
    display_nfs-fault 5 (omega arith) 1 all_open (lasts_of 700) (omega arith)
      (record { runs = refl; below = omega arith; near = omega arith; small = omega arith })
