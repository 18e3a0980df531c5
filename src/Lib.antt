-- ===== src/Lib.antt =====
-- A model of D2SC, a platform that runs chains of network functions (NFs) over DPDK, and what is proved
-- of it. A manager process takes packets from the network card, looks up their chain and hands them to
-- NFs through rings; NFs hand packets on to each other or to a port; the manager keeps a registry of
-- the NFs, and blocks, runs and multiplies them with their load.
--
-- Which file models what:
-- - Common: the shared structures and constants, src/d2sc_nfrt/d2sc_common.h and d2sc_msg.h. Pointers to
--   NF descriptions are addresses in a store of their own, so an NF's own pointer and the one in the NF
--   table can be the same or not.
-- - Sc, with Sc/Build: service chains, d2sc_sc_create, d2sc_sc_merge_entry, d2sc_sc_set_entry,
--   d2sc_sc_next_act and d2sc_sc_next_dst of src/d2sc_nfrt/d2sc_sc.c.
-- - NtMap, with NtMap/Search, NtMap/Spec and NtMap/Frame: d2sc_sc_nt_to_nf_map of the same file.
-- - PktHelper: src/d2sc_nfrt/d2sc_pkt_helper.c without its printing.
-- - FlowTable: the flow key and lookup of src/d2sc_nfrt/d2sc_flow_table.h, d2sc_flow_table.c and
--   d2sc_flow_steer.c.
-- - Buffers, Messages, ScaleData, Dpdk: what packets, messages, scaling and the start of the manager work
--   on, with what each takes from DPDK, and the structures of src/d2sc_nfrt/d2sc_msg.h.
-- - PktProcess: all of src/d2sc_nfrt/d2sc_pkt_process.c, as functions on the state `Dp` of one thread.
--   PktProcess/Census counts where packets are; Ledger, Ports, Tx and TxBatch follow them through each
--   operation; Frame says what stays; Serves, Total, Sends and TxTotal are about runs that return.
-- - NfMgr: all of src/d2sc_mgr/d2sc_nf.c, with d2sc_stats_clear_nf of src/d2sc_mgr/d2sc_stats.c.
--   NfMgr/Row, Open and Registry describe the registry; Ids, Ready, Handlers, Stop and Unchanged are
--   about the handlers, History about sequences of messages. NfMgr/Shutdown is the end of the master
--   thread in src/d2sc_mgr/main.c, with the code's bound of ten checks for messages.
-- - Scale, with Scale/Blocked and Scale/Load: src/d2sc_mgr/d2sc_scale.c and the scale thread of
--   src/d2sc_mgr/main.c.
-- - Parse, with Parse/Number and Parse/Ports: src/d2sc_mgr/d2sc_parse.c, with C's strtoul.
-- - EthPort: init_port and check_all_ports_link_status of src/d2sc_mgr/d2sc_init.c; EthPort/Calls and
--   EthPort/Link are about one each.
-- - Init: the rest of that file, d2sc_fs_init, d2sc_stats_clear_all_nfs and main of src/d2sc_mgr/main.c
--   up to the start of its threads. Init/Loops and Init/Boot say what the tables then hold,
--   Init/Serving puts an RX thread on them.
-- - NfStart: d2sc_nfrt_init of src/d2sc_nfrt/d2sc_nfrt.c; NfStart/Registers follows it and the manager.
-- - NfLoop: d2sc_nfrt_run_callback of src/d2sc_nfrt/d2sc_nfrt.c with d2sc_nfrt_scale_nfs. NfLoop/Ends is
--   about the end of the loop, NfLoop/Signals about an end by a signal, NfLoop/Stops about what a stop
--   message does on the NF's and the manager's side, NfLoop/Children about the start of a child,
--   NfLoop/Returns about d2sc_nfrt_ret_pkt.
-- - Stats: src/d2sc_mgr/d2sc_stats.c, as the values that it prints, and the loop of the master thread of
--   src/d2sc_mgr/main.c. Stats/Rates, Ports and Shows follow a display, Restart one whose counters
--   have gone back.
-- - Nfrt, with Nfrt/Protocol and Nfrt/Signal: messages, arguments and signals of
--   src/d2sc_nfrt/d2sc_nfrt.c, the two sides of blocking an NF, and what a signal marks.
-- - Threads, with Threads/Receive, Threads/Shares and Threads/Turns: one turn of an RX thread of
--   src/d2sc_mgr/main.c, which NFs a TX thread serves, one turn of it, and the packet part of one turn
--   of an NF. What the device hands out to an RX thread is an argument.
-- - Examples: the NFs under examples/, with what they share; Examples/Forward, Monitor, Encryptor and
--   Tracker are one each, Examples/Tracker/Counts is about the flow tracker's count, Examples/Turns
--   and Examples/Arrives put two of them into the turn of an NF.
-- - Prelude: notation, arrays, lists, and the outcomes of C code; Tests: concrete runs.
--
-- Conventions. A run is a value, a fault (an access out of bounds, through a null or a wrong pointer,
-- or arithmetic that C leaves undefined), an endless loop, or the end of the process. Fixed-width
-- numbers are natural numbers with their wrap-around written out. Threads share memory: each operation
-- is modelled as one step that no other thread interrupts. Buffers of packets are lists; an array that
-- the code indexes by an NF or a type is a function with its bound tested where the code can exceed it.
-- Log messages are left out, and so are null tests on arguments that no caller passes as null.
--
-- Parameters. DPDK is not part of the repository: rings, pools, the network device, the flow hash and
-- the heap are the interfaces `PktIo`, `MsgIo` and `ScaleIo`. `PktIo` has three laws that DPDK documents:
-- a bulk enqueue puts in all packets in order, a dequeue splits a ring's contents, and a device sends at
-- most the packets that it is given. `ScaleIo` has one on floating point: the rounded-down quotient of
-- numbers that a float holds exactly is the exact one. What getopt_long finds is an argument of
-- `parse_mgr_args`. `FlowLib` is the flow table of the library that the flow tracker is written for.
-- The record `Dpdk` has the answers of DPDK at the start, with the words that stand in memory that the
-- code does not clear, and `NfDpdk` those at the start of an NF; the record `Turn` has what an NF meets
-- in a turn of its loop: what other processes and threads have done, signals, the next messages of its
-- rings, its callback's answer and its cores.
--
-- Fuel. The search in `nt_to_nf_map` goes once round the 16 instances, after which it would only see the
-- same entries again; `scan_ids` has 16 rounds, as each raises a counter that stops at 16; `mark_ports`
-- has 64, as many as the mask has bits. The loop of an NF is followed for as many turns as are given.
-- All other loops are bounded in the code.
--
-- Not modelled: the launch of threads on cores, calls for an NF's power management whose results the
-- code does not use, the cipher of examples/encryptor/aes.c, which is a copy of a public one, and the
-- main functions of the programs under examples/.
pub mod Prelude
pub mod Common
pub mod Sc
pub mod NtMap
pub mod PktHelper
pub mod FlowTable
pub mod PktProcess
pub mod NfMgr
pub mod NfStart
pub mod Parse
pub mod Nfrt
pub mod EthPort
pub mod Init
pub mod NfLoop
pub mod Threads
pub mod Scale
pub mod Tests
pub mod Stats
pub mod Examples
pub mod Messages
pub mod Buffers
pub mod Dpdk
pub mod ScaleData
