-- ===== src/EthPort.antt =====
-- Network ports: `init_port` and `check_all_ports_link_status` of src/d2sc_mgr/d2sc_init.c. What DPDK
-- answers to a call, and whether a link is up, are arguments.
pub mod Calls
pub mod Link
use d2sc.Prelude.{
  ℕ, zero, suc, ◌+◌, ◌-◌, Bool, true, false, ◌||◌, List, [], ◌∷◌, ◌++◌, ltb, ◌==◌, if◌then◌else◌,
  Outcome, done, fault, ◌>>=◌,
}
use d2sc.Common.{max_nfs}

-- D2SC_NUM_RX_THREADS
abbrev pub rx_rings : ℕ
rx_rings = 2

-- RTE_RX_DESC_DEFAULT and RTE_TX_DESC_DEFAULT
abbrev pub ring_desc : ℕ
ring_desc = 512

-- The calls of DPDK that `init_port` makes.
pub data PortCall : Type 0 where
  configure : ℕ → ℕ → ℕ → PortCall
  rx_queue : ℕ → ℕ → ℕ → PortCall
  tx_queue : ℕ → ℕ → ℕ → PortCall
  promiscuous : ℕ → PortCall
  start : ℕ → PortCall

-- A loop over queues with the rounds that are left: whether it gets through, and the calls that it makes.
unfoldable pub queues : (ℕ → PortCall) → (PortCall → Bool) → ℕ → ℕ → Bool × List PortCall
queues call accepts zero q = (true, [])
queues call accepts (suc n) q =
    let rest = queues call accepts n (q + 1) in
    if accepts (call q) then (rest.0, call q ∷ rest.1) else (false, call q ∷ [])

-- The flag is whether the result is 0, with the calls that were made.
unfoldable pub init_port : (PortCall → Bool) → ℕ → Bool × List PortCall
init_port accepts p =
    let setup = configure p rx_rings max_nfs in
    let rx = queues (λ q. rx_queue p q ring_desc) accepts rx_rings 0 in
    let tx = queues (λ q. tx_queue p q ring_desc) accepts max_nfs 0 in
    if accepts setup
    then if rx.0
      then if tx.0
        then (accepts (start p), (setup ∷ rx.1) ++ (tx.1 ++ (promiscuous p ∷ start p ∷ [])))
        else (false, (setup ∷ rx.1) ++ tx.1)
      else (false, setup ∷ rx.1)
    else (false, setup ∷ [])

-- MAX_CHECK_TIME
abbrev pub max_check_time : ℕ
max_check_time = 90

-- How often the check paused, and what it printed of the ports.
pub record LinkReport : Type 0 where
  pub delays : ℕ
  pub printed : List (ℕ × Bool)

-- A round that looks for a port that is down, up to the first one. A shift by more than 31 is undefined.
pub all_up : (ℕ → Bool) → List ℕ → Outcome Bool
all_up up [] = done true
all_up up (id ∷ ids) =
    let rest = all_up up ids in if ltb id 32 then (if up id then rest else done false) else fault

-- The round that prints.
pub print_links : (ℕ → Bool) → List ℕ → Outcome (List (ℕ × Bool))
print_links up [] = done []
print_links up (id ∷ ids) =
    if ltb id 32 then (print_links up ids >>= λ r. done ((id, up id) ∷ r)) else fault

-- Round `n` of the loop, with the rounds that are left; `link n` says which ports are up in it.
pub check_links : (ℕ → ℕ → Bool) → List ℕ → ℕ → ℕ → Bool → LinkReport → Outcome LinkReport
check_links link ids zero n print_flag r = done r
check_links link ids (suc left) n true r =
    print_links (link n) ids >>= λ p. done (record r { printed = p })
check_links link ids (suc left) n false r = all_up (link n) ids >>= λ up.
    check_links link ids left (n + 1) (up || (n == max_check_time - 1))
      (if up then r else record r { delays = r.delays + 1 })

pub check_all_ports_link_status : (ℕ → ℕ → Bool) → List ℕ → Outcome LinkReport
check_all_ports_link_status link ids =
    check_links link ids (max_check_time + 1) 0 false (record { delays = 0; printed = [] })
