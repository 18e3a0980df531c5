-- ===== src/Nfrt.antt =====
-- The NF runtime: src/d2sc_nfrt/d2sc_nfrt.c. An NF works on the shared tables and posts messages to the
-- manager through DPDK's rings and pools, the interface `MsgIo`.
pub mod Protocol
pub mod Signal
use d2sc.Prelude.{
  ℕ, zero, suc, ◌+◌, ◌%◌, Bool, true, false, not, ◌&&◌, Option, none, some, List, [], ◌∷◌, ltb,
  ◌==◌, if◌then◌else◌, Outcome, done, fault, exit, ◌>>=◌, access,
}
use d2sc.Common.{
  max_nfs, Status, waiting_for_id, starting, running, blocked, stopped, id_conflict, no_ids, BkFlag,
  halted, NfInfo, Shared, is_halted, set_nf, set_info,
}
use Prim.Native.String.{String}
use d2sc.Messages.{
  MsgIo, NfMsg, msg_stop, msg_nf_starting, msg_nf_ready, msg_nf_stopping, msg_nf_blocking,
  msg_nf_running, msg_nf_srv_time,
}
use d2sc.ScaleData.{is_blocked, is_signalled, ScaleMsg, scale_up, scale_block, scale_run, is_null}
use d2sc.Parse.{strtoul}

-- What an NF finds when the manager has answered its start message.
pub data StartResult : Type 0 where
  started conflict no_number failed : StartResult

unfoldable pub start_result : Status → StartResult
start_result id_conflict = conflict
start_result no_ids = no_number
start_result starting = started
start_result _ = failed

-- The arguments -n and -t; `none` is 65535, which stands for no number and no type.
pub record NfArgs : Type 0 where
  pub init_inst_id : ℕ
  pub type_id : ℕ

abbrev pub no_u16 : ℕ
no_u16 = 65535

abbrev to_u16 : List ℕ → ℕ
to_u16 s = (strtoul 10 s).0 % 65536

-- The options in the order in which getopt gives them; the flag is whether the parse succeeds.
unfoldable pub parse_args : List (ℕ × List ℕ) → NfArgs → Bool × NfArgs
parse_args [] a = (not (a.type_id == no_u16), a)
parse_args ((c, arg) ∷ opts) a =
    let id_set = parse_args opts (record a { init_inst_id = to_u16 arg }) in
    let type_set =
      parse_args opts (record a { type_id = if to_u16 arg == 0 then no_u16 else to_u16 arg }) in
    if c == 110 then id_set else if c == 116 then type_set else (false, a)

module _ (io : MsgIo) where
  -- An NF: the shared tables, the manager's message ring, without which the start ends the process, the
  -- two pools, and whether the NF goes on.
  pub record Nfrt : Type 0 where
    pub shared : Shared
    pub new_msg_queue : io.Ring
    pub msg_pool : io.Pool
    pub info_pool : io.Pool
    pub keep_running : Bool

  abbrev pub with_info : Nfrt → ℕ → (NfInfo → NfInfo) → Nfrt
  with_info s p f = record s { shared = set_info s.shared p (f (s.shared.infos p)) }

  abbrev pub with_flag : Nfrt → ℕ → BkFlag → Nfrt
  with_flag s i flag = record s {
    shared = set_nf s.shared i (record (s.shared.nfs i) { bk_flag = flag });
  }

  abbrev pub message : ℕ → ℕ → NfMsg
  message t p = record { msg_type = t; msg_data = some p }

  abbrev posted : Nfrt → io.Pool → Option io.Ring → Outcome Nfrt
  posted s pool none = exit
  posted s pool (some r) = done (record s { msg_pool = pool; new_msg_queue = r })

  abbrev post_with : Nfrt → NfMsg → io.Ring → Option io.Pool → Outcome Nfrt
  post_with s m r none = exit
  post_with s m r (some pool) = posted s pool (io.enqueue r m)

  -- A message to the manager; without a free message or on a full ring the NF ends.
  unfoldable pub post : Nfrt → ℕ → ℕ → Outcome Nfrt
  post s t p = post_with s (message t p) s.new_msg_queue (io.mempool_get s.msg_pool)

  abbrev try_posted : Nfrt → io.Pool → Option io.Ring → Bool × Nfrt
  try_posted s pool none = (false, record s { msg_pool = io.mempool_put pool })
  try_posted s pool (some r) = (true, record s { msg_pool = pool; new_msg_queue = r })

  abbrev try_post_with : Nfrt → NfMsg → io.Ring → Option io.Pool → Bool × Nfrt
  try_post_with s m r none = (false, s)
  try_post_with s m r (some pool) = try_posted s pool (io.enqueue r m)

  -- A message whose failure is left to the caller.
  pub try_post : Nfrt → ℕ → ℕ → Bool × Nfrt
  try_post s t p = try_post_with s (message t p) s.new_msg_queue (io.mempool_get s.msg_pool)

  -- The description at the address that the pool gives.
  abbrev pub info_init_at : NfArgs → String → ℕ → Nfrt → ℕ → io.Pool → Nfrt
  info_init_at a name max_load s p pool =
      record (with_info s p (λ i. record i {
        inst_id = a.init_inst_id;
        type_id = a.type_id;
        status = waiting_for_id;
        max_load = max_load;
        name = name;
      })) { info_pool = pool }

  abbrev pub info_init_with : NfArgs → String → ℕ → Nfrt → ℕ → Option io.Pool → Outcome Nfrt
  info_init_with a name max_load s p none = exit
  info_init_with a name max_load s p (some pool) = done (info_init_at a name max_load s p pool)

  unfoldable pub info_init : NfArgs → String → ℕ → Nfrt → ℕ → Outcome Nfrt
  info_init a name max_load s p = info_init_with a name max_load s p (io.mempool_get s.info_pool)

  -- The start message, before the wait for the manager.
  unfoldable pub send_start : Nfrt → ℕ → Outcome Nfrt
  send_start s p = post s msg_nf_starting p

  -- What follows the wait: the NF ends unless it was started, and a started one has no parent.
  abbrev pub after_result : Nfrt → ℕ → StartResult → Outcome Nfrt
  after_result s p started =
      let i = (s.shared.infos p).inst_id in
      if ltb i max_nfs
      then done (record s {
        shared = set_nf s.shared i (record (s.shared.nfs i) { parent_nf = 0 });
        keep_running = true;
      })
      else fault
  after_result s p conflict = exit
  after_result s p no_number = exit
  after_result s p failed = exit

  unfoldable pub after_start : Nfrt → ℕ → Outcome Nfrt
  after_start s p = after_result s p (start_result (s.shared.infos p).status)

  pub nfrt_ready : Nfrt → ℕ → Bool × Nfrt
  nfrt_ready s p = try_post s msg_nf_ready p

  pub report_srv_time : Nfrt → ℕ → Bool × Nfrt
  report_srv_time s p = try_post s msg_nf_srv_time p

  unfoldable pub handle_new_msg : Nfrt → NfMsg → ℕ → Nfrt
  handle_new_msg s m i =
      if m.msg_type == msg_stop then record (with_flag s i halted) { keep_running = false } else s

  unfoldable pub stop_nf : Nfrt → ℕ → Outcome Nfrt
  stop_nf s p = post (with_info s p (λ i. record i { status = stopped })) msg_nf_stopping p

  pub block_nf : Nfrt → ℕ → Outcome Nfrt
  block_nf s p = post (with_info s p (λ i. record i { status = blocked })) msg_nf_blocking p

  pub run_nf : Nfrt → ℕ → Outcome Nfrt
  run_nf s p =
      if is_blocked (s.shared.infos p).status
      then post (with_info s p (λ i. record i { status = running })) msg_nf_running p
      else done s

  -- What a scale message makes the NF do: start children, or change its own state.
  pub data ScaleStep : Type 0 where
    launch : ℕ → ScaleStep
    step : Nfrt → ScaleStep

  abbrev stepped : Outcome Nfrt → Outcome ScaleStep
  stepped m = m >>= λ s. done (step s)

  -- The switch of `d2sc_nfrt_check_scale_msg`, for the NF in entry `i`.
  pub handle_scale_msg : Nfrt → ScaleMsg → ℕ → Outcome ScaleStep
  handle_scale_msg s m i =
      let nf = s.shared.nfs i in
      let own = m.inst_id == nf.inst_id in
      if m.scale_sig == scale_up
      then done (if own && not (nf.scale_num == 0) then launch m.scale_num else step s)
      else if m.scale_sig == scale_block
      then (if own && is_signalled nf.bk_flag
          then (access nf.nf_info >>= λ p. stepped (block_nf s p))
          else done (step s))
      else if m.scale_sig == scale_run
      then (if own && is_halted nf.bk_flag
          then (access nf.nf_info >>= λ p. stepped (run_nf s p))
          else done (step s))
      else done (step s)

  -- On a signal every NF with a description is marked as blocked, and this one stops.
  pub mark_all_from : ℕ → ℕ → Nfrt → Nfrt
  mark_all_from zero i s = s
  mark_all_from (suc n) i s =
      mark_all_from n (i + 1) (if is_null (s.shared.nfs i).nf_info then s else with_flag s i halted)

  pub handle_signal : Nfrt → Nfrt
  handle_signal s = record (mark_all_from max_nfs 0 s) { keep_running = false }
