-- ===== src/Messages.antt =====
-- Messages between the manager and NFs: src/d2sc_nfrt/d2sc_msg.h, and what is used of DPDK for them.
use d2sc.Prelude.{ℕ, Option, List}

-- struct d2sc_nf_msg; the message data are the address of an NF's description, or null.
pub record NfMsg : Type 0 where
  pub msg_type : ℕ
  pub msg_data : Option ℕ

abbrev pub msg_noop : ℕ
msg_noop = 0

abbrev pub msg_stop : ℕ
msg_stop = 1

abbrev pub msg_nf_starting : ℕ
msg_nf_starting = 2

abbrev pub msg_nf_ready : ℕ
msg_nf_ready = 3

abbrev pub msg_nf_stopping : ℕ
msg_nf_stopping = 4

abbrev pub msg_nf_blocking : ℕ
msg_nf_blocking = 5

abbrev pub msg_nf_running : ℕ
msg_nf_running = 6

abbrev pub msg_nf_srv_time : ℕ
msg_nf_srv_time = 7

-- (uint16_t) NF_NO_ID
abbrev pub nf_no_id : ℕ
nf_no_id = 65535

-- What the manager takes from DPDK: rings of messages and pools of fixed-size objects.
pub record MsgIo : Type 1 where
  pub Ring : Type 0
  pub Pool : Type 0
  pub count : Ring → ℕ
  pub dequeue_bulk : Ring → ℕ → Option (List NfMsg × Ring)
  pub enqueue : Ring → NfMsg → Option Ring
  pub mempool_get : Pool → Option Pool
  pub mempool_put : Pool → Pool
