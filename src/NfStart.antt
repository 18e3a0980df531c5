-- ===== src/NfStart.antt =====
-- The start of an NF: `d2sc_nfrt_init` of src/d2sc_nfrt/d2sc_nfrt.c with `d2sc_nfrt_init_premises`,
-- `d2sc_nfrt_start_nf` and `d2sc_nfrt_nf_bq_init`. What DPDK and getopt answer is an argument.
pub mod Registers
use d2sc.Prelude.{
  ℕ, ◌+◌, ◌-◌, Bool, true, false, Option, none, some, List, [], ◌∷◌, if◌then◌else◌, Outcome, done,
  fault, exit, ◌>>=◌, ◌>>◌,
}
use d2sc.Common.{Shared}
use d2sc.Buffers.{BufQueue, tx_buf}
use d2sc.Messages.{MsgIo}
use d2sc.NfMgr.{is_waiting}
use d2sc.Dpdk.{
  Zone, nf_zone, port_zone, nts_zone, nfs_per_nt_zone, nt_available_zone, scp_zone, PoolName,
  pktmbuf_mp, nf_info_mp, nf_msg_mp, RingName, mgr_msg_ring, mgr_scale_ring, need,
}
use d2sc.Nfrt.{Nfrt, NfArgs, no_u16, parse_args, info_init, send_start, after_start}
use Prim.Native.String.{String}

-- What `rte_eal_init` returns, `none` for a failure; which pools, zones and rings the manager has made;
-- the options that getopt finds behind the EAL's, with the value of `optind` at their end.
pub record NfDpdk : Type 0 where
  pub eal : Option ℕ
  pub has_pool : PoolName → Bool
  pub has_zone : Zone → Bool
  pub has_ring : RingName → Bool
  pub opts : Option ℕ → List (ℕ × List ℕ)
  pub optind : ℕ

-- The look-ups in their order; a failure of the EAL is returned before them, any other one ends the
-- process.
unfoldable pub init_premises : NfDpdk → Outcome (Option ℕ)
init_premises d = elim d.eal [
  | none ↦ done none
  | some n ↦ do
    need (d.has_pool nf_info_mp)
    need (d.has_pool nf_msg_mp)
    need (d.has_pool pktmbuf_mp)
    need (d.has_zone nf_zone)
    need (d.has_zone nts_zone)
    need (d.has_zone nfs_per_nt_zone)
    need (d.has_zone nt_available_zone)
    need (d.has_zone port_zone)
    need (d.has_zone scp_zone)
    need (d.has_ring mgr_msg_ring)
    need (d.has_ring mgr_scale_ring)
    done (some n)
]

-- The buffers of an NF, all empty.
unfoldable pub nf_bq_init : NfArgs → BufQueue
nf_bq_init a = record { id = a.init_inst_id; mgr_nf = 0; tx = tx_buf []; rx_bufs = λ i. [] }

abbrev pub no_args : NfArgs
no_args = record { init_inst_id = no_u16; type_id = no_u16 }

-- The wait for the manager, which looks at the tables as they are one second after the other; `none`
-- means that it still waits.
pub wait_id : ℕ → List Shared → Option Shared
wait_id p [] = none
wait_id p (sh ∷ shs) =
    let rest = wait_id p shs in if is_waiting (sh.infos p).status then rest else some sh

-- What the caller gets: the number of arguments that the runtime has read, and the NF.
pub record Ready (io : MsgIo) : Type 0 where
  pub ret_final : ℕ
  pub args : NfArgs
  pub nfrt : Nfrt io
  pub bq : BufQueue

module _ (io : MsgIo) where
  -- The pools and the ring stay null when the EAL fails, and are used all the same.
  abbrev found_pools : Option ℕ → Outcome ℕ
  found_pools none = fault
  found_pools (some n) = done n

  abbrev pub ask_with :
      NfDpdk → String → ℕ → Nfrt io → ℕ → Option ℕ → Bool × NfArgs → Outcome (ℕ × NfArgs × Nfrt io)
  ask_with d name max_load s p eal (false, a) = exit
  ask_with d name max_load s p eal (true, a) = found_pools eal >>= λ n.
      info_init io a name max_load s p >>= λ s1. send_start io s1 p >>= λ s2. done (n, a, s2)

  -- Up to the wait, on the tables, the ring and the pools that the look-ups find. The description is at
  -- the address `p`.
  unfoldable pub ask_start : NfDpdk → String → ℕ → Nfrt io → ℕ → Outcome (ℕ × NfArgs × Nfrt io)
  ask_start d name max_load s p =
      init_premises d >>= λ eal. ask_with d name max_load s p eal (parse_args (d.opts eal) no_args)

  -- After the wait, on the tables that the manager has left.
  unfoldable pub go_on : NfDpdk → ℕ → ℕ × NfArgs × Nfrt io → Shared → Outcome (Ready io)
  go_on d p (n, a, s) sh = after_start io (record s { shared = sh }) p >>= λ s1.
      done (record { ret_final = n + d.optind - 1; args = a; nfrt = s1; bq = nf_bq_init a })

  abbrev pub resume :
      NfDpdk → ℕ → ℕ × NfArgs × Nfrt io → Option Shared → Outcome (Option (Ready io))
  resume d p asked none = done none
  resume d p asked (some sh) = go_on d p asked sh >>= λ r. done (some r)

  -- `d2sc_nfrt_init`; `none` means that it still waits.
  unfoldable pub nfrt_init :
      NfDpdk → String → ℕ → Nfrt io → ℕ → (Nfrt io → List Shared) → Outcome (Option (Ready io))
  nfrt_init d name max_load s p manager =
      ask_start d name max_load s p >>= λ asked. resume d p asked (wait_id p (manager asked.2))
