-- ===== src/Tests/Turns.antt =====
-- A turn of NF 1, which drops what it gets, a share of a TX thread's turn, and four TX threads.
use d2sc.Prelude.{ℕ, ◌+◌, ◌≤◌, ◌<◌, ◌≡◌, refl, true, [], ◌∷◌, arith, update, All, Outcome, done}
use d2sc.Common.{pkt_rd_size, act_drop, Mbuf, set_meta}
use d2sc.Sc.{next_act, next_dst}
use d2sc.PktHelper.{pkt_is_ipv4, ipv4_hdr, tcp_hdr, udp_hdr}
use d2sc.FlowTable.{fill_key, lookup_pkt, get_entry}
use d2sc.NtMap.{nt_to_nf_map, usable}
use d2sc.PktProcess.{
  Dp, enqueue_bq, flush_all_bqs, flush_bqs_from, flush_nf_bq, enqueue_tx_ring, process_next_act,
  route, tx_one, process_tx_batch,
}
use d2sc.PktProcess.Census.{held}
use d2sc.PktProcess.Ports.{handled}
use d2sc.PktProcess.Tx.{tx_kept}
use d2sc.Threads.{first_nf_id, tx_nf, handle_pkts, dequeue_pkts, nf_turn}
use d2sc.Threads.Shares.{first_nf_id-partition}
use d2sc.Threads.Turns.{nf_turn-held}
use d2sc.Tests.Data.{packet, list_io, rx_thread, port_thread, nf_thread}

first_nf_id-partition_example :
    (k : ℕ) × (k < 4)
    × (first_nf_id 4 k ≤ 15)
    × (15 < first_nf_id 4 (k + 1))
    × ((j : ℕ) → first_nf_id 4 j ≤ 15 → 15 < first_nf_id 4 (j + 1) → j ≡ k)
first_nf_id-partition_example = first_nf_id-partition 4 15 (omega arith) (omega arith) (omega arith)

abbrev pub state_of : Outcome (Dp list_io) → Dp list_io
state_of (done s) = s
state_of _ = rx_thread

abbrev pub drops : Mbuf → ℕ × Mbuf
drops p = (0, set_meta p (record p.info { act = act_drop }))

abbrev pub nf_1 : Dp list_io
nf_1 = record nf_thread { rx_q = update nf_thread.rx_q 1 (packet 20 1 0 ∷ packet 21 1 0 ∷ []) }

abbrev pub after_nf_turn : Dp list_io
after_nf_turn = state_of (nf_turn list_io drops 1 nf_1)

pub nf_turn_runs : nf_turn list_io drops 1 nf_1 ≡ done after_nf_turn
unfolding nf_turn dequeue_pkts handle_pkts process_tx_batch tx_one enqueue_tx_ring flush_all_bqs
    flush_bqs_from flush_nf_bq
nf_turn_runs = refl

drops-kept :
    All
      (λ p. tx_kept list_io (dequeue_pkts list_io drops 1 nf_1).1 1 p ≡ true)
      (dequeue_pkts list_io drops 1 nf_1).0
unfolding tx_kept dequeue_pkts handle_pkts
drops-kept = (refl, (refl, tt))

nf_turn-held_example : held list_io 20 after_nf_turn ≡ held list_io 20 nf_1
nf_turn-held_example =
    nf_turn-held list_io 20 drops 1 nf_1 after_nf_turn (omega arith) refl (λ p. refl) drops-kept
      nf_turn_runs

abbrev sender : Dp list_io
sender = record port_thread {
  tx_q = update port_thread.tx_q 2 (packet 30 0 0 ∷ packet 31 1 0 ∷ []);
}

abbrev after_tx_nf : Dp list_io
after_tx_nf = state_of (tx_nf list_io sender 2)

tx_nf_runs : tx_nf list_io sender 2 ≡ done after_tx_nf
unfolding tx_nf process_tx_batch tx_one process_next_act route enqueue_bq flush_nf_bq nt_to_nf_map
    usable next_act next_dst get_entry lookup_pkt fill_key pkt_is_ipv4 ipv4_hdr tcp_hdr udp_hdr
tx_nf_runs = refl

sender-kept :
    All
      (λ p.
        tx_kept list_io
          (record sender {
            tx_q = update sender.tx_q 2 (list_io.dequeue_burst (sender.tx_q 2) pkt_rd_size).1;
          })
          2
          p
        ≡ true)
      (list_io.dequeue_burst (sender.tx_q 2) pkt_rd_size).0
unfolding tx_kept handled route next_act next_dst get_entry lookup_pkt fill_key pkt_is_ipv4 ipv4_hdr
    tcp_hdr udp_hdr
sender-kept = (refl, (refl, tt))
