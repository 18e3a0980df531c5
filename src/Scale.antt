-- ===== src/Scale.antt =====
-- Scaling of NFs: src/d2sc_mgr/d2sc_scale.c, and the body of the scale thread's loop in
-- src/d2sc_mgr/main.c. DPDK's heap, message pool and scale queues, and the machine's floating-point
-- quotient, are the interface `ScaleIo`.
pub mod Blocked
pub mod Load
use d2sc.ScaleData.{
  ScaleIo, ScaleMsg, blocked_at, check_interval, info_at, is_null, is_signalled, max_check_iters,
  mul_int, scale_block, scale_run, scale_up, sub_u16,
}
use d2sc.Prelude.{
  ℕ, zero, suc, ◌+◌, ◌-◌, ◌%◌, ◌^◌, Bool, false, not, ◌&&◌, ◌||◌, Option, none, some, List, ltb,
  leb, ◌==◌, if◌then◌else◌, add_u16, get_elem?, update, Outcome, done, fault, exit, ◌>>=◌, access,
}
use d2sc.Common.{
  nf_ring_size, max_nfs, max_nts, signalled, NfInfo, Nf, Shared, is_running, nf_is_valid, set_nf,
}

-- The load difference of `d2sc_scale_check_load`, and its test.
pub dif_load : ℕ → ℕ → ℕ
dif_load capacity load = sub_u16 capacity load

pub has_spare : ℕ → ℕ → ℕ → ℕ → Bool
unfolding dif_load
has_spare max_load num_available capacity load =
    leb max_load (dif_load capacity load) && ltb 1 num_available

-- From the `n`-th entry of a row down to the last one that runs.
pub find_running : Shared → List ℕ → ℕ → Outcome ℕ
find_running sh row zero = fault
find_running sh row (suc n) =
    let rest = find_running sh row n in
    access (get_elem? row n) >>= λ id.
    if ltb id max_nfs
    then (info_at sh id >>= λ info. if is_running info.status then done id else rest)
    else fault

module _ (io : ScaleIo) where
  -- The scale thread: the shared tables, each NF's scale queue, the message pool, the number of
  -- allocations, the fill of each NF's RX ring, and the static variables.
  pub record Scaler : Type 0 where
    pub shared : Shared
    pub scale_q : ℕ → io.Queue
    pub msg_pool : io.Pool
    pub allocs : ℕ
    pub rx_used : ℕ → ℕ
    pub up_signal : ℕ
    pub cnter : ℕ
    pub rx_idle_cnt : ℕ

  abbrev pub with_nf : Scaler → ℕ → (Nf → Nf) → Scaler
  with_nf s i f = record s { shared = set_nf s.shared i (f (s.shared.nfs i)) }

  abbrev queued : Scaler → ℕ → Option io.Queue → Outcome Scaler
  queued s i none = exit
  queued s i (some q) = done (record s { scale_q = update s.scale_q i q })

  abbrev with_msg : Scaler → ScaleMsg → Option io.Pool → Outcome Scaler
  with_msg s m none = done s
  with_msg s m (some pool) =
      queued (record s { msg_pool = pool }) m.inst_id (io.enqueue (s.scale_q m.inst_id) m)

  -- No message is sent when the pool is empty; a full queue ends the process.
  pub send_msg : Scaler → ScaleMsg → Outcome Scaler
  send_msg s m = if ltb m.inst_id max_nfs then with_msg s m (io.mempool_get s.msg_pool) else fault

  -- The allocation of the message's data, a null pointer's use when it fails, and the message.
  pub send_info : Scaler → ℕ → ℕ → ℕ → Outcome Scaler
  send_info s sig i num =
      if io.calloc s.allocs
      then send_msg (record s { allocs = s.allocs + 1 })
          (record { scale_sig = sig; inst_id = i; scale_num = num })
      else fault

  -- `n` rounds from index `i` on, with the number of messages sent so far.
  pub block_to_run_from : ℕ → ℕ → Scaler → ℕ → ℕ → ℕ → Outcome Scaler
  block_to_run_from zero i s t num counter = done s
  block_to_run_from (suc n) i s t num counter =
      if blocked_at s.shared.infos t (s.shared.nfs i).nf_info
      then (send_info s scale_run i 0 >>= λ s'.
          let rest = block_to_run_from n (i + 1) s' t num (counter + 1) in
          if counter + 1 == num then done s' else rest)
      else (let rest = block_to_run_from n (i + 1) s t num counter in
          if is_null (s.shared.nfs i).nf_info
          then rest
          else if counter == num
          then done s
          else rest)

  pub block_to_run : Scaler → ℕ → ℕ → Outcome Scaler
  block_to_run s t num = block_to_run_from max_nfs 0 s t num 0

  -- What an overloaded NF's load asks for: blocked NFs of its type run again, and the rest is its
  -- number of children to start.
  pub scale_by : Scaler → ℕ → ℕ → ℕ → ℕ → Outcome Scaler
  scale_by s i t scale_nfs block_nfs =
      if leb scale_nfs block_nfs
      then (block_to_run s t scale_nfs >>= λ s'.
          done (with_nf s' i (λ nf. record nf { scale_num = 0 })))
      else ((if ltb 0 block_nfs then block_to_run s t block_nfs else done s) >>= λ s'.
          done (with_nf s' i (λ nf. record nf { scale_num = sub_u16 scale_nfs block_nfs })))

  -- A quotient that 16 bits do not hold has no conversion.
  abbrev overload_info : Scaler → ℕ → NfInfo → Outcome Scaler
  overload_info s i info =
      if info.srv_time == 0
      then done s
      else (mul_int (s.shared.nfs i).pkt_rate info.srv_time >>= λ load.
          if leb info.max_load load
          then (if ltb info.type_id max_nts && ltb (io.floor_quotient load info.max_load) 65536
              then scale_by (with_nf s i (λ nf. record nf { ol_flag = 1 })) i info.type_id
                  (io.floor_quotient load info.max_load)
                  (sub_u16 (s.shared.nfs_per_nt_num info.type_id)
                    (s.shared.nfs_per_nt_available info.type_id))
              else fault)
          else done s)

  -- One round of the first loop of `d2sc_scale_check_overload`.
  pub overload_one : Scaler → ℕ → Outcome Scaler
  overload_one s i =
      if nf_is_valid s.shared i then (info_at s.shared i >>= overload_info s i) else done s

  abbrev full_info : Scaler → ℕ → NfInfo → Outcome Scaler
  full_info s i info =
      if (s.rx_used i == nf_ring_size - 1) && ((s.shared.nfs i).ol_flag == 0)
      then (let s' = with_nf s i (λ nf. record nf { ol_flag = 1 }) in
          if ltb info.type_id max_nts
          then done (
              if s.shared.nfs_per_nt_available info.type_id == 0
              then with_nf s' i (λ nf. record nf { scale_num = add_u16 nf.scale_num 1 })
              else s')
          else fault)
      else done s

  -- One round of its second loop.
  pub full_one : Scaler → ℕ → Outcome Scaler
  full_one s i = if nf_is_valid s.shared i then (info_at s.shared i >>= full_info s i) else done s

  -- `n` rounds of a step from index `i` on.
  pub rounds : (Scaler → ℕ → Outcome Scaler) → ℕ → ℕ → Scaler → Outcome Scaler
  rounds step zero i s = done s
  rounds step (suc n) i s = step s i >>= rounds step n (i + 1)

  pub check_overload : Scaler → Outcome Scaler
  check_overload s = rounds overload_one max_nfs 0 s >>= rounds full_one max_nfs 0

  abbrev idle_one : Scaler → ℕ → Scaler
  idle_one s i =
      if nf_is_valid s.shared i && ((s.shared.nfs i).pkt_rate == 0)
      then (let cnt = add_u16 s.rx_idle_cnt 1 in
          if ltb max_check_iters cnt && not ((s.shared.nfs i).parent_nf == 0)
          then record (with_nf s i (λ nf. record nf { bk_flag = signalled })) { rx_idle_cnt = 0 }
          else record s { rx_idle_cnt = cnt })
      else s

  pub check_block_from : ℕ → ℕ → Scaler → Scaler
  check_block_from zero i s = s
  check_block_from (suc n) i s = check_block_from n (i + 1) (idle_one s i)

  pub check_block : Scaler → Scaler
  check_block s = check_block_from max_nfs 0 s

  pub any_overloaded : ℕ → ℕ → Shared → Bool
  any_overloaded zero i sh = false
  any_overloaded (suc n) i sh =
      (nf_is_valid sh i && ((sh.nfs i).ol_flag == 1)) || any_overloaded n (i + 1) sh

  pub set_up_signal : Scaler → Scaler
  set_up_signal s = record s { up_signal = if any_overloaded max_nfs 0 s.shared then 1 else 0 }

  pub run_parent_from : ℕ → ℕ → Scaler → ℕ → Outcome Scaler
  run_parent_from zero i s t = done s
  run_parent_from (suc n) i s t =
      let rest = run_parent_from n (i + 1) s t in
      if blocked_at s.shared.infos t (s.shared.nfs i).nf_info
      then send_info s scale_run i 0
      else rest

  pub run_parent : Scaler → ℕ → Outcome Scaler
  run_parent s t = run_parent_from max_nfs 0 s t

  pub up_execute : Scaler → ℕ → Outcome Scaler
  up_execute s i = send_info s scale_up i (s.shared.nfs i).scale_num

  pub block_execute : Scaler → ℕ → ℕ → Outcome Scaler
  block_execute s i sig =
      if is_signalled (s.shared.nfs i).bk_flag then send_info s sig i 0 else done s

  abbrev add_load : ℕ → NfInfo → ℕ → ℕ × ℕ → Outcome (ℕ × ℕ)
  add_load t info rate (max_load, load) =
      if (info.srv_time == 0) || not (info.type_id == t)
      then done (max_load, load)
      else (mul_int rate info.srv_time >>= λ l.
          if ltb (load + l) 2147483648 then done (info.max_load, add_u16 load l) else fault)

  -- The maximal load of the last NF of type `t` that reports a service time, and the sum of the
  -- loads; `max_load` is not set before.
  pub sum_load : ℕ → ℕ → Shared → ℕ → ℕ × ℕ → Outcome (ℕ × ℕ)
  sum_load zero i sh t acc = done acc
  sum_load (suc n) i sh t acc =
      (if nf_is_valid sh i
        then (info_at sh i >>= λ info. add_load t info (sh.nfs i).pkt_rate acc)
        else done acc)
      >>= sum_load n (i + 1) sh t

  abbrev block_last : Scaler → ℕ → Outcome Scaler
  block_last s t = find_running s.shared (s.shared.nts t) (s.shared.nfs_per_nt_num t) >>= λ id.
      block_execute (with_nf s id (λ nf. record nf { bk_flag = signalled })) id scale_block
      >>= λ s'. done (record s' { cnter = 0 })

  abbrev check_spare : Scaler → ℕ → ℕ × ℕ → Outcome Scaler
  check_spare s t (max_load, load) =
      mul_int max_load (s.shared.nfs_per_nt_available t) >>= λ capacity.
      if has_spare max_load (s.shared.nfs_per_nt_available t) capacity load
      then (let cnt = (s.cnter + 1) % 2 ^ 32 in
          let s' = record s { cnter = cnt } in
          if cnt == check_interval then block_last s' t else done s')
      else done s

  -- `unset` is what the uninitialised `max_load` holds.
  pub check_load : ℕ → Scaler → ℕ → Outcome Scaler
  check_load unset s t =
      if ltb t max_nts
      then (sum_load max_nfs 0 s.shared t (unset, 0) >>= check_spare s t)
      else fault

  -- The steps of the scale thread's loop.
  abbrev up_one : Scaler → ℕ → Outcome Scaler
  up_one s i =
      if nf_is_valid s.shared i && not ((s.shared.nfs i).scale_num == 0)
      then up_execute s i
      else done s

  abbrev block_one : Scaler → ℕ → Outcome Scaler
  block_one s i =
      if nf_is_valid s.shared i && is_signalled (s.shared.nfs i).bk_flag
      then block_execute s i scale_block
      else done s

  abbrev rerun_one : ℕ → Scaler → ℕ → Outcome Scaler
  rerun_one unset s t =
      if ltb t max_nts
      then (if s.shared.nfs_per_nt_num t == 0
          then done s
          else if s.shared.nfs_per_nt_available t == 0
          then run_parent s t
          else check_load unset s t)
      else fault

  -- One turn of the loop of `scale_thread_main`, with the number of NF types.
  pub scale_round : ℕ → ℕ → Scaler → Outcome Scaler
  scale_round unset num_nts s = do
    s1 ← check_overload s
    let s2 = set_up_signal s1
    s3 ← if s2.up_signal == 1 then rounds up_one max_nfs 0 s2 else done s2
    s4 ← rounds block_one max_nfs 0 s3
    rounds (rerun_one unset) num_nts 0 s4
