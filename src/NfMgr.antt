-- ===== src/NfMgr.antt =====
-- NF management: src/d2sc_mgr/d2sc_nf.c, with `d2sc_stats_clear_nf` of src/d2sc_mgr/d2sc_stats.c. DPDK's
-- message rings and memory pools are the interface `MsgIo`.
pub mod Row
pub mod Ids
pub mod Open
pub mod Registry
pub mod Handlers
pub mod Unchanged
pub mod Ready
pub mod Stop
pub mod History
pub mod Shutdown
use d2sc.Messages.{
  MsgIo, NfMsg, msg_nf_blocking, msg_nf_ready, msg_nf_running, msg_nf_srv_time, msg_nf_starting,
  msg_nf_stopping, nf_no_id,
}
use d2sc.Prelude.{
  ℕ, zero, suc, ◌+◌, ◌%◌, Bool, true, false, ◌&&◌, Option, none, some, List, [], ◌∷◌, ltb, leb,
  ◌==◌, if◌then◌else◌, add_u16, length, set, update, Outcome, done, fault, ◌>>=◌,
}
use d2sc.Common.{
  max_nfs, max_nts, Status, waiting_for_id, starting, running, blocked, id_conflict, no_ids, BkFlag,
  normal, signalled, halted, NfInfo, Stats, Shared, is_running, is_halted, nf_is_valid, set_nf,
  set_info,
}

-- The results 0, 1 and -1 of the handlers.
pub data Code : Type 0 where
  success failure refused : Code

abbrev sub_one_u16 : ℕ → ℕ
sub_one_u16 n = (n + 65535) % 65536

-- The loop of `d2sc_nf_next_inst_id`, with the number found so far; it has at most `max_nfs` rounds.
pub scan_ids : ℕ → Shared → ℕ → ℕ × Shared
scan_ids zero sh inst_id = (inst_id, sh)
scan_ids (suc fuel) sh inst_id =
    let n = sh.next_inst_id in
    let sh' = record sh { next_inst_id = n + 1 } in
    let rest = scan_ids fuel sh' n in
    if ltb n max_nfs then (if nf_is_valid sh n then rest else (n, sh')) else (inst_id, sh)

pub next_inst_id : Shared → ℕ × Shared
next_inst_id sh = scan_ids max_nfs sh max_nfs

abbrev set_status : Shared → ℕ → Status → Shared
set_status sh p st = set_info sh p (record (sh.infos p) { status = st })

-- The manager keeps the NF's description and lets the NF go on.
abbrev pub register : Shared → ℕ → ℕ → Shared
register sh p nf_id =
    let sh1 = set_info sh p (record (sh.infos p) { inst_id = nf_id; status = starting }) in
    set_nf sh1 nf_id (record (sh.nfs nf_id) { nf_info = some p; inst_id = nf_id })

abbrev start_with : ℕ → ℕ × Shared → Code × Shared
start_with p (nf_id, sh) =
    if leb max_nfs nf_id
    then (failure, set_status sh p no_ids)
    else if nf_is_valid sh nf_id
    then (failure, set_status sh p id_conflict)
    else (success, register sh p nf_id)

abbrev pub is_waiting : Status → Bool
is_waiting waiting_for_id = true
is_waiting _ = false

pub nf_start : Shared → Option ℕ → Code × Shared
nf_start sh none = (failure, sh)
nf_start sh (some p) =
    if is_waiting (sh.infos p).status
    then start_with p
        (if (sh.infos p).inst_id == nf_no_id then next_inst_id sh else ((sh.infos p).inst_id, sh))
    else (failure, sh)

abbrev is_starting : Status → Bool
is_starting starting = true
is_starting _ = false

-- `nts[t][i] = v`; outside of the row it faults.
abbrev write_row : Shared → ℕ → ℕ → ℕ → Outcome Shared
write_row sh t i v =
    if ltb i (length (sh.nts t))
    then done (record sh { nts = update sh.nts t (set (sh.nts t) i v) })
    else fault

abbrev ready_at : Shared → ℕ → ℕ → Outcome (Code × Shared)
ready_at sh p t =
    if ltb t max_nts
    then (write_row
          (record (set_status sh p running) {
            nfs_per_nt_num = update sh.nfs_per_nt_num t (add_u16 (sh.nfs_per_nt_num t) 1);
            nfs_per_nt_available =
                update sh.nfs_per_nt_available t (add_u16 (sh.nfs_per_nt_available t) 1);
          })
          t (sh.nfs_per_nt_num t) (sh.infos p).inst_id
        >>= λ sh'. done (success, record sh' { num_nfs = add_u16 sh'.num_nfs 1 }))
    else fault

pub nf_ready : Shared → Option ℕ → Outcome (Code × Shared)
nf_ready sh none = fault
nf_ready sh (some p) =
    if is_starting (sh.infos p).status
    then ready_at sh p (sh.infos p).type_id
    else done (refused, sh)

-- What `d2sc_stats_clear_nf` resets.
pub clear_stats : Stats → Stats
clear_stats st = record st {
  rx = 0;
  rx_drop = 0;
  drop_count = 0;
  tonf_count = 0;
  next_count = 0;
  out_count = 0;
}

-- From the entry behind a cleared one on: entries move down until a zero or the end.
pub close_gap : List ℕ → List ℕ
close_gap [] = 0 ∷ []
close_gap (y ∷ r) = if y == 0 then 0 ∷ y ∷ r else y ∷ close_gap r

-- The first entry that is `id` is cleared and the gap closed; a row without `id` stays.
pub remove_id : List ℕ → ℕ → List ℕ
remove_id [] id = []
remove_id (x ∷ r) id = if x == id then close_gap r else x ∷ remove_id r id

unfoldable pub unregister : Shared → ℕ → ℕ → Shared
unfolding clear_stats
unregister sh nf_id t =
    let nf = sh.nfs nf_id in
    record (set_nf sh nf_id (record nf { nf_info = none; stats = clear_stats nf.stats })) {
      nfs_per_nt_num = update sh.nfs_per_nt_num t (sub_one_u16 (sh.nfs_per_nt_num t));
      nfs_per_nt_available =
          update sh.nfs_per_nt_available t (sub_one_u16 (sh.nfs_per_nt_available t));
      nts = update sh.nts t (remove_id (sh.nts t) nf_id);
    }

-- The test of the C code, a null pointer that has another status than NF_STOPPED, never holds. The
-- flag says whether DPDK finds the pool of descriptions.
unfoldable pub nf_stop : Bool → Shared → Option ℕ → Outcome (Code × Shared)
nf_stop pool_found sh none = fault
nf_stop pool_found sh (some p) =
    let info = sh.infos p in
    if ltb info.inst_id max_nfs && ltb info.type_id max_nts
    then done (if pool_found then success else failure, unregister sh info.inst_id info.type_id)
    else fault

abbrev is_blocked : Status → Bool
is_blocked blocked = true
is_blocked _ = false

abbrev is_signalled : BkFlag → Bool
is_signalled signalled = true
is_signalled _ = false

-- `nfs[i].nf_info->f`: a write through the description pointer of an NF; null faults.
abbrev on_info : Shared → Option ℕ → (NfInfo → NfInfo) → Outcome (Code × Shared)
on_info sh none f = fault
on_info sh (some q) f = done (success, set_info sh q (f (sh.infos q)))

-- The flag, the number of available NFs and the status that `d2sc_nf_block` and `d2sc_nf_run` write.
abbrev set_flag : Shared → NfInfo → BkFlag → ℕ → Outcome (Code × Shared)
set_flag sh info flag available =
    let nf = sh.nfs info.inst_id in
    if ltb info.type_id max_nts
    then on_info
        (record (set_nf sh info.inst_id (record nf { bk_flag = flag })) {
          nfs_per_nt_available = update sh.nfs_per_nt_available info.type_id available;
        })
        nf.nf_info (λ i. record i { status = info.status })
    else fault

pub nf_block : Shared → Option ℕ → Outcome (Code × Shared)
nf_block sh none = fault
nf_block sh (some p) =
    let info = sh.infos p in
    if is_blocked info.status
    then (if ltb info.inst_id max_nfs
        then (if is_signalled (sh.nfs info.inst_id).bk_flag
            then set_flag sh info halted (sub_one_u16 (sh.nfs_per_nt_available info.type_id))
            else done (refused, sh))
        else fault)
    else done (refused, sh)

pub nf_run : Shared → Option ℕ → Outcome (Code × Shared)
nf_run sh none = fault
nf_run sh (some p) =
    let info = sh.infos p in
    if is_running info.status
    then (if ltb info.inst_id max_nfs
        then (if is_halted (sh.nfs info.inst_id).bk_flag
            then set_flag sh info normal (add_u16 (sh.nfs_per_nt_available info.type_id) 1)
            else done (refused, sh))
        else fault)
    else done (refused, sh)

unfoldable pub nf_srv_time : Shared → Option ℕ → Outcome (Code × Shared)
nf_srv_time sh none = fault
nf_srv_time sh (some p) =
    let info = sh.infos p in
    if ltb info.inst_id max_nfs
    then on_info sh (sh.nfs info.inst_id).nf_info (λ i. record i { srv_time = info.srv_time })
    else fault

abbrev keep_state : Outcome (Code × Shared) → Outcome Shared
keep_state m = m >>= λ r. done r.1

-- The number of NFs falls when the stop handler reports success.
abbrev pub after_stop : Code × Shared → Outcome Shared
after_stop (success, sh) = done (record sh { num_nfs = sub_one_u16 sh.num_nfs })
after_stop (_, sh) = done sh

-- The switch of `d2sc_nf_check_status`.
unfoldable pub handle_msg : Bool → Shared → NfMsg → Outcome Shared
handle_msg pool_found sh m =
    if m.msg_type == msg_nf_starting
    then done (nf_start sh m.msg_data).1
    else if m.msg_type == msg_nf_ready
    then keep_state (nf_ready sh m.msg_data)
    else if m.msg_type == msg_nf_stopping
    then (nf_stop pool_found sh m.msg_data >>= after_stop)
    else if m.msg_type == msg_nf_blocking
    then keep_state (nf_block sh m.msg_data)
    else if m.msg_type == msg_nf_running
    then keep_state (nf_run sh m.msg_data)
    else if m.msg_type == msg_nf_srv_time
    then keep_state (nf_srv_time sh m.msg_data)
    else done sh

module _ (io : MsgIo) where
  -- The manager: the shared tables, its message ring, the pool of messages, the pool of descriptions
  -- where DPDK has it, and the message ring of each NF.
  pub record Mgr : Type 0 where
    pub shared : Shared
    pub new_msg_ring : io.Ring
    pub msg_pool : io.Pool
    pub info_pool : Option io.Pool
    pub msg_q : ℕ → io.Ring

  abbrev pool_found : Mgr → Bool
  pool_found m = elim m.info_pool [ none ↦ false | some _ ↦ true ]

  -- `d2sc_nf_stop` gives the description back to its pool, if the pool is found.
  abbrev info_pool_after : Mgr → NfMsg → Option io.Pool
  info_pool_after m x = elim m.info_pool [
    | none ↦ none
    | some pool ↦ if x.msg_type == msg_nf_stopping then some (io.mempool_put pool) else some pool
  ]

  -- Each message is handled and given back to its pool.
  pub handle_msgs : Mgr → List NfMsg → Outcome Mgr
  handle_msgs m [] = done m
  handle_msgs m (x ∷ xs) = handle_msg (pool_found m) m.shared x >>= λ sh.
      handle_msgs
        (record m {
          shared = sh;
          msg_pool = io.mempool_put m.msg_pool;
          info_pool = info_pool_after m x;
        })
        xs

  abbrev dequeued : Mgr → Option (List NfMsg × io.Ring) → Outcome Mgr
  dequeued m none = done m
  dequeued m (some (xs, r)) = handle_msgs (record m { new_msg_ring = r }) xs

  -- The array for the messages has `max_nfs` places; more would be written behind it.
  unfoldable pub check_status : Mgr → Outcome Mgr
  check_status m =
      let n = io.count m.new_msg_ring in
      if n == 0
      then done m
      else if leb n max_nfs
      then dequeued m (io.dequeue_bulk m.new_msg_ring n)
      else fault

  abbrev sent : Mgr → ℕ → io.Pool → Option io.Ring → Bool × Mgr
  sent m dst pool none = (false, record m { msg_pool = pool })
  sent m dst pool (some r) = (true, record m { msg_pool = pool; msg_q = update m.msg_q dst r })

  -- The flag is whether the message went out. A message that finds no room is not given back.
  pub send_msg : Mgr → ℕ → NfMsg → Bool × Mgr
  send_msg m dst msg = elim (io.mempool_get m.msg_pool) [
    | none ↦ (false, m)
    | some pool ↦ sent m dst pool (io.enqueue (m.msg_q dst) msg)
  ]
