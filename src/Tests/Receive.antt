-- ===== src/Tests/Receive.antt =====
-- A receive thread and a transmit thread whose tables and chains lead somewhere.
use d2sc.Prelude.{
  ℕ, ◌+◌, ◌%◌, ◌<◌, ◌≡◌, refl, ap, subst, inl, inr, true, List, [], ◌∷◌, arith, ltb, ◌==◌,
  Bool-cases, get_elem?, replicate, done, ◌>>=◌, access,
}
use d2sc.Common.{max_nfs, max_nts, running, normal, Mbuf}
use d2sc.NtMap.{nt_to_nf_map, pick}
use d2sc.PktProcess.{Dp, process_rx_batch, process_tx_batch}
use d2sc.PktProcess.Sends.{Sends, PortRoom}
use d2sc.PktProcess.TxTotal.{process_tx_batch-returns}
use d2sc.PktProcess.Serves.{Serves, Leads, Mapped}
use d2sc.PktProcess.Census.{weight, held}
use d2sc.Threads.{rx_turn}
use d2sc.Threads.Receive.{arrivals, rx_turn-returns}
use d2sc.PktProcess.Total.{process_rx_batch-returns}
use d2sc.Tests.Data.{shared_of, chain, packet, list_io, rx_thread, port_thread}
use d2sc.Tests.Chains.{two_hops, chain-Holds}

-- The hash selects instance 1 or 2 of type 1, and no instance of another type.
pub all-Mapped : Mapped (shared_of normal running 2)
unfolding nt_to_nf_map
all-Mapped t rss l = elim (Bool-cases (1 == t)) [
  | inl one ↦
      let q : 1 ≡ t = ground arith in
      subst
        (λ u. (i : ℕ) × (nt_to_nf_map (shared_of normal running 2) u rss ≡ done i) × (i < max_nfs))
        q
        (elim (Bool-cases (rss % 2 == 0)) [
          | inl even ↦
              let r : rss % 2 ≡ 0 = ground arith in
              (
                1,
                ap
                    (λ k.
                      access (get_elem? (1 ∷ 2 ∷ replicate 6 0) k)
                      >>= pick (shared_of normal running 2) 1)
                    r,
                omega arith,
              )
          | inr odd ↦
              let r : rss % 2 ≡ 1 = ground arith in
              (
                2,
                ap
                    (λ k.
                      access (get_elem? (1 ∷ 2 ∷ replicate 6 0) k)
                      >>= pick (shared_of normal running 2) 1)
                    r,
                omega arith,
              )
        ])
  | inr other ↦
      let known : ltb t max_nts ≡ true = ground arith in (0, rw (known, other) refl, omega arith)
]

pub chain-Leads : Leads chain
chain-Leads = (two_hops, chain-Holds, (omega arith, (omega arith, tt)))

rx-Serves : Serves list_io rx_thread
rx-Serves = record {
  room = λ i l. omega arith;
  default_leads = chain-Leads;
  flows_lead = λ i. chain-Leads;
  mapped = all-Mapped;
}

process_rx_batch-returns_example :
    (s' : Dp list_io) × (process_rx_batch list_io rx_thread (packet 7 0 0 ∷ packet 8 0 0 ∷ [])
      ≡ done s')
    × Serves list_io s'
process_rx_batch-returns_example =
    process_rx_batch-returns list_io rx_thread (packet 7 0 0 ∷ packet 8 0 0 ∷ []) rx-Serves

port-Sends : Sends list_io port_thread
port-Sends = record {
  serves = record {
    room = λ i l. omega arith;
    default_leads = chain-Leads;
    flows_lead = λ i. chain-Leads;
    mapped = all-Mapped;
  };
  owner = refl;
  known = omega arith;
  ports = room_0;
}
  where
    room_0 : PortRoom 4 port_thread.bq.tx
    room_0 i l = elim (Bool-cases (0 == i)) [
      | inl z ↦ rw z (omega arith)
      | inr nz ↦ rw nz (omega arith)
    ]

process_tx_batch-returns_example :
    (s' : Dp list_io) × (process_tx_batch list_io port_thread
        (packet 10 2 1 ∷ packet 11 3 0 ∷ packet 12 9 0 ∷ [])
        2
      ≡ done s')
    × Sends list_io s'
process_tx_batch-returns_example =
    process_tx_batch-returns list_io port_thread
      (packet 10 2 1 ∷ packet 11 3 0 ∷ packet 12 9 0 ∷ []) 2 port-Sends
      ((λ e. omega arith), ((λ e. cc), ((λ e. cc), tt)))

-- A device that hands out two packets at once.
abbrev two_at_once : ℕ → ℕ → ℕ → ℕ → List Mbuf × ℕ
two_at_once nic port queue n = (packet nic 0 0 ∷ packet (nic + 1) 0 0 ∷ [], nic + 2)

rx_turn-returns_example :
    (s' : Dp list_io) × (rx_turn list_io two_at_once rx_thread ≡ done s')
    × Serves list_io s'
    × ((a : ℕ)
        → held list_io a s'
          ≡ held list_io a rx_thread + weight a (arrivals list_io two_at_once 2 0 (λ i. i) 0 0))
rx_turn-returns_example =
    rx_turn-returns list_io two_at_once rx_thread rx-Serves (omega arith, λ i l. omega (arith, l))
