-- ===== src/Tests/Nfs.antt =====
-- The example NFs: batches of three packets, a turn each, a short packet, and a table of flows that is a list.
use d2sc.Prelude.{◌≡◌, refl, true, List, [], ◌∷◌, map, arith, replicate, done, fault}
use d2sc.Common.{act_tonf, Mbuf}
use d2sc.PktHelper.{ipv4_hdr, udp_hdr}
use d2sc.PktProcess.{Dp}
use d2sc.PktProcess.Serves.{Serves}
use d2sc.Threads.{nf_turn}
use d2sc.Examples.Arrives.{turn-held}
use d2sc.Tests.Data.{packet, list_io}
use d2sc.Tests.Turns.{nf_1}
use d2sc.Tests.Receive.{chain-Leads, all-Mapped}
use d2sc.PktProcess.Census.{held}
use d2sc.Examples.{Progress, Divides}
use d2sc.Examples.Forward.{Forward, forwarded, handle_all, handle_all-Divides}
use d2sc.Examples.Encryptor.{Frame, packet_handler, packet_handler-overruns}
use d2sc.Examples.Tracker
use d2sc.Examples.Tracker.{StateInfo, callback_handler}
use d2sc.Examples.Tracker.Counts.{Counts, packet_handler-Counts}
use d2sc.Tests.Flows.{flow_list}

abbrev three : List Mbuf
three = packet 1 0 0 ∷ packet 2 0 0 ∷ packet 3 0 0 ∷ []

abbrev progress : Progress
progress = record { print_delay = 2; counter = 1; pkt_process = 0; reports = [] }

abbrev forward : Forward
forward = record { progress = progress; destination = 5 }

handle_all-Divides_example :
    (s' : Forward) × (handle_all forward three ≡ (map (forwarded 5) three, s'))
    × (s'.destination ≡ 5)
    × Divides progress 3 s'.progress
handle_all-Divides_example = handle_all-Divides forward three (omega arith) (omega arith)

nf-Serves : Serves list_io nf_1
nf-Serves = record {
  room = λ i l. omega arith;
  default_leads = chain-Leads;
  flows_lead = λ i. chain-Leads;
  mapped = all-Mapped;
}

turn-held_example :
    (s' : Dp list_io) × (nf_turn list_io (λ p. (0, forwarded 1 p)) 1 nf_1 ≡ done s')
    × (held list_io 20 s' ≡ held list_io 20 nf_1)
turn-held_example =
    turn-held list_io 1 (omega arith) 1 20 nf_1 (packet 7 3 0 ∷ packet 8 3 0 ∷ []) (omega arith)
      refl refl refl nf-Serves

abbrev short_udp : Frame
short_udp = record {
  pkt = record (packet 1 0 0) {
    ipv4 = record { version_ihl = 69; next_proto_id = 17; src_addr = 10; dst_addr = 20 };
  };
  pkt_len = 40;
  room = replicate 22 0;
}

packet_handler-overruns_example :
    packet_handler (λ xs. xs) (record { progress = progress; dest = 5 }) short_udp ≡ fault
unfolding udp_hdr ipv4_hdr
packet_handler-overruns_example =
    packet_handler-overruns (λ xs. xs) (record { progress = progress; dest = 5 }) short_udp refl
      (omega arith) (omega arith)

abbrev state : StateInfo flow_list 10
state = record {
  ft = (10, record { pkt_count = 1; last_pkt_cycles = 0; is_active = true }) ∷ [];
  destination = 2;
  print_delay = 5;
  num_stored = 1;
  elapsed_cycles = 100;
  last_cycles = 0;
}

packet_handler-Counts_example :
    Counts flow_list 10 (Tracker.packet_handler flow_list 10 (packet 1 0 0) state).1
    × ((Tracker.packet_handler flow_list 10 (packet 1 0 0) state).0.info.act ≡ act_tonf)
    × ((Tracker.packet_handler flow_list 10 (packet 1 0 0) state).0.info.dst ≡ 2)
    × Counts flow_list 10 (callback_handler flow_list 10 120 state).1
packet_handler-Counts_example =
    packet_handler-Counts flow_list 10 (packet 1 0 0) 120 state
      (record { number = refl; fits = omega arith })
