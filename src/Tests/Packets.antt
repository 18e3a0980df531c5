-- ===== src/Tests/Packets.antt =====
-- Batches and flushes of threads with few packets.
use d2sc.Prelude.{◌+◌, ◌≡◌, refl, true, List, [], ◌∷◌, arith, All, Outcome, done}
use d2sc.Common.{Mbuf}
use d2sc.NtMap.{nt_to_nf_map, usable}
use d2sc.Sc.{next_act, next_dst}
use d2sc.PktHelper.{pkt_is_ipv4, ipv4_hdr, tcp_hdr, udp_hdr}
use d2sc.FlowTable.{fill_key, lookup_pkt, get_entry}
use d2sc.PktProcess.{
  Dp, enqueue_bq, flush_all_bqs, flush_bqs_from, flush_nf_bq, flush_port_bq, flush_all_ports,
  flush_ports_from, enqueue_port, process_next_act, route, tx_one, process_tx_batch, rx_one, rx_all,
  process_rx_batch, set_rx_buf,
}
use d2sc.PktProcess.Census.{weight, held}
use d2sc.PktProcess.Ledger.{process_rx_batch-held}
use d2sc.PktProcess.Ports.{handled}
use d2sc.PktProcess.Tx.{tx_kept}
use d2sc.PktProcess.TxBatch.{process_tx_batch-held}
use d2sc.Tests.Data.{packet, list_io, rx_thread, port_thread}

-- The state of a run that returns.
abbrev state_of : Outcome (Dp list_io) → Dp list_io
state_of (done s) = s
state_of _ = rx_thread

abbrev two_packets : List Mbuf
two_packets = packet 7 0 0 ∷ packet 8 0 0 ∷ []

abbrev after_rx : Dp list_io
after_rx = state_of (process_rx_batch list_io rx_thread two_packets)

rx_runs : process_rx_batch list_io rx_thread two_packets ≡ done after_rx
unfolding process_rx_batch rx_all rx_one route enqueue_bq flush_all_bqs flush_bqs_from flush_nf_bq
    nt_to_nf_map usable next_act next_dst get_entry lookup_pkt fill_key pkt_is_ipv4 ipv4_hdr tcp_hdr
    udp_hdr
rx_runs = refl

process_rx_batch-held_example :
    held list_io 7 after_rx ≡ held list_io 7 rx_thread + weight 7 two_packets
process_rx_batch-held_example =
    process_rx_batch-held list_io 7 rx_thread after_rx two_packets rx_runs

-- A batch of NF 2: one packet to be dropped, one along its chain, one to type 1.
abbrev three_packets : List Mbuf
three_packets = packet 10 0 0 ∷ packet 11 1 0 ∷ packet 12 2 1 ∷ []

abbrev after_tx : Dp list_io
after_tx = state_of (process_tx_batch list_io port_thread three_packets 2)

tx_runs : process_tx_batch list_io port_thread three_packets 2 ≡ done after_tx
unfolding process_tx_batch tx_one process_next_act route enqueue_bq flush_nf_bq nt_to_nf_map usable
    next_act next_dst get_entry lookup_pkt fill_key pkt_is_ipv4 ipv4_hdr tcp_hdr udp_hdr
tx_runs = refl

All-kept_three : All (λ p. tx_kept list_io port_thread 2 p ≡ true) three_packets
unfolding tx_kept handled route next_act next_dst get_entry lookup_pkt fill_key pkt_is_ipv4 ipv4_hdr
    tcp_hdr udp_hdr
All-kept_three = (refl, (refl, (refl, tt)))

process_tx_batch-held_example :
    held list_io 11 after_tx ≡ held list_io 11 port_thread + weight 11 three_packets
process_tx_batch-held_example =
    process_tx_batch-held list_io 11 port_thread after_tx three_packets 2 (omega arith)
      All-kept_three tx_runs

abbrev after_next : Dp list_io
after_next = state_of (process_next_act list_io port_thread (packet 11 1 0) 2)

next_runs : process_next_act list_io port_thread (packet 11 1 0) 2 ≡ done after_next
unfolding process_next_act route enqueue_bq flush_nf_bq nt_to_nf_map usable next_act next_dst
    get_entry lookup_pkt fill_key pkt_is_ipv4 ipv4_hdr tcp_hdr udp_hdr
next_runs = refl

-- Port 2 is beyond the two ports: the packet is in no place afterwards.
lost : enqueue_port list_io port_thread 2 (packet 11 3 2) ≡ done port_thread
unfolding enqueue_port
lost = refl

-- The device takes two of the three packets, and the third is freed.
abbrev after_flush : Dp list_io
after_flush = state_of (flush_all_ports list_io port_thread)

flush_runs : flush_all_ports list_io port_thread ≡ done after_flush
unfolding flush_all_ports flush_ports_from flush_port_bq
flush_runs = refl

abbrev buffered : Dp list_io
buffered = set_rx_buf list_io rx_thread 1 two_packets
