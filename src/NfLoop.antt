-- ===== src/NfLoop.antt =====
-- The life of an NF: `d2sc_nfrt_run_callback` of src/d2sc_nfrt/d2sc_nfrt.c with the calls that it makes,
-- and the start of children. What an NF finds in its two message rings, what its callback and its timer
-- say, and what other processes do to the shared tables, is an argument of each turn.
pub mod Ends
pub mod Signals
pub mod Stops
pub mod Children
pub mod Returns
use d2sc.Prelude.{
  ℕ, zero, suc, ◌+◌, ◌%◌, Bool, true, false, not, ◌&&◌, ◌||◌, Option, none, some, List, [], ◌∷◌,
  ◌==◌, if◌then◌else◌, Outcome, done, exit, ◌>>=◌,
}
use d2sc.Common.{Shared, is_halted, set_info, Mbuf}
use d2sc.Messages.{MsgIo, NfMsg}
use d2sc.ScaleData.{ScaleMsg, is_null}
use d2sc.Buffers.{PktIo}
use d2sc.PktProcess.{Dp}
use d2sc.Threads.{nf_turn}
use d2sc.Nfrt.{
  Nfrt, nfrt_ready, report_srv_time, handle_new_msg, handle_signal, handle_scale_msg, ScaleStep,
  launch, step, stop_nf,
}

-- What rte_power_freq_min returns: 1, 0 or a negative number.
pub data Freq : Type 0 where
  changed unchanged failed : Freq

-- A core that `d2sc_nfrt_scale_nfs` comes to: whether it runs something, whether its power management
-- starts, and whether the launch finds it free.
pub record Core : Type 0 where
  pub runs : Bool
  pub power_init : Bool
  pub free : Bool

-- The static variables of the process, one for all NFs that run in it.
pub record Statics : Type 0 where
  pub keep_running : Bool
  pub srv_time_flag : Bool

-- What an NF meets in a turn: what others have done to the tables, what other threads of its process have
-- done to the static variables, whether SIGINT or SIGTERM has come, its two rings' next messages,
-- whether it has a callback and that returns something else than 0, its service time and the answer
-- about the frequency, and the cores that it would come to.
pub record Turn : Type 0 where
  pub others : Shared → Shared
  pub threads : Statics → Statics
  pub signal : Bool
  pub msg : Option NfMsg
  pub scale : Option ScaleMsg
  pub callback : Option Bool
  pub srv_time : ℕ
  pub freq_min : Freq
  pub cores : List Core

-- The loop of `d2sc_nfrt_scale_nfs` over the cores, with the rounds that are left: the children started.
unfoldable pub start_on : List Core → ℕ → Outcome ℕ
start_on cores zero = done 0
start_on [] (suc n) = done 0
start_on (k ∷ ks) (suc n) =
    let rest = start_on ks n in
    if k.runs
    then rest
    else if k.power_init
    then (rest >>= λ started. done (if k.free then started + 1 else started))
    else exit

-- The flag is whether the result is 0: all children were started.
unfoldable pub scale_nfs : List Core → ℕ → Outcome (Bool × ℕ)
scale_nfs cores num_nfs = start_on cores num_nfs >>= λ n. done (n == num_nfs, n)

module _ (pio : PktIo) (io : MsgIo) where
  -- An NF that runs: its packets with the shared tables, its ways to the manager, the static variables of
  -- its process, and the last answer about the frequency.
  pub record NfState : Type 0 where
    pub dp : Dp pio
    pub new_msg_queue : io.Ring
    pub msg_pool : io.Pool
    pub info_pool : io.Pool
    pub statics : Statics
    pub ret : Freq

  abbrev pub nfrt_of : NfState → Nfrt io
  nfrt_of s = record {
    shared = s.dp.shared;
    new_msg_queue = s.new_msg_queue;
    msg_pool = s.msg_pool;
    info_pool = s.info_pool;
    keep_running = s.statics.keep_running;
  }

  abbrev pub with_nfrt : NfState → Nfrt io → NfState
  with_nfrt s r = record s {
    dp = record s.dp { shared = r.shared };
    new_msg_queue = r.new_msg_queue;
    msg_pool = r.msg_pool;
    info_pool = r.info_pool;
    statics = record s.statics { keep_running = r.keep_running };
  }

  abbrev pub give_back : NfState → NfState
  give_back s = record s { msg_pool = io.mempool_put s.msg_pool }

  -- d2sc_nfrt_dequeue_new_msgs
  unfoldable pub dequeue_new_msg : ℕ → NfState → Option NfMsg → NfState
  dequeue_new_msg i s none = s
  dequeue_new_msg i s (some m) = give_back (with_nfrt s (handle_new_msg io (nfrt_of s) m i))

  abbrev pub after_callback : NfState → Option Bool → NfState
  after_callback s none = s
  after_callback s (some asks_to_stop) = record s {
    statics = record s.statics { keep_running = not asks_to_stop && s.statics.keep_running };
  }

  abbrev reported : NfState → Bool × Nfrt io → Outcome NfState
  reported s (true, r) =
      let s1 = with_nfrt s r in
      done (record s1 { statics = record s1.statics { srv_time_flag = true } })
  reported s (false, r) = exit

  -- The service time, a uint16_t, is reported once; `p` is the address of the NF's description.
  unfoldable pub report_once : ℕ → NfState → ℕ → Outcome NfState
  report_once p s srv_time =
      let info = s.dp.shared.infos p in
      let timed = record s {
        dp = record s.dp {
          shared = set_info s.dp.shared p (record info { srv_time = srv_time % 65536 });
        };
      } in
      if s.statics.srv_time_flag
      then done s
      else reported timed (report_srv_time io (nfrt_of timed) p)

  abbrev stepped : List Core → NfState → ScaleStep io → Outcome NfState
  stepped cores s (launch n) = scale_nfs cores n >>= λ r. done s
  stepped cores s (step r) = done (with_nfrt s r)

  -- d2sc_nfrt_check_scale_msg
  unfoldable pub check_scale_msg : List Core → ℕ → NfState → Option ScaleMsg → Outcome NfState
  check_scale_msg cores i s none = done s
  check_scale_msg cores i s (some m) =
      handle_scale_msg io (nfrt_of s) m i >>= λ r. stepped cores s r >>= λ s'. done (give_back s')

  -- The body of the inner loop, of an NF that is not blocked.
  unfoldable pub work : (Mbuf → ℕ × Mbuf) → ℕ → ℕ → Turn → NfState → Outcome NfState
  work handler i p t s = do
    dp ← nf_turn pio handler i s.dp
    let s1 = dequeue_new_msg i (record s { dp = dp }) t.msg
    s2 ← report_once p (after_callback s1 t.callback) t.srv_time
    check_scale_msg t.cores i s2 t.scale

  -- What the outer loop does when the NF is blocked. The flag is whether the loop ends.
  unfoldable pub idle : ℕ → Turn → NfState → Outcome (Bool × NfState)
  idle i t s = check_scale_msg t.cores i s t.scale >>= λ s1.
      done (not s1.statics.keep_running, record s1 { ret = t.freq_min })

  -- d2sc_nfrt_handle_signal, if a signal has come.
  abbrev pub interrupted : Bool → NfState → NfState
  interrupted false s = s
  interrupted true s = with_nfrt s (handle_signal io (nfrt_of s))

  -- The state in which a turn finds the NF.
  abbrev pub seen : Turn → NfState → NfState
  seen t s = interrupted t.signal (record s {
    dp = record s.dp { shared = t.others s.dp.shared };
    statics = t.threads s.statics;
  })

  -- One round of either loop, which the NF's own flag chooses.
  unfoldable pub turn : (Mbuf → ℕ × Mbuf) → ℕ → ℕ → Turn → NfState → Outcome (Bool × NfState)
  turn handler i p t s =
      let s1 = seen t s in
      if is_halted (s1.dp.shared.nfs i).bk_flag
      then idle i t s1
      else (work handler i p t s1 >>= λ s2. done (false, s2))

  -- The turns until the loop ends; the flag is whether it has.
  unfoldable pub run_turns :
      (Mbuf → ℕ × Mbuf) → ℕ → ℕ → List Turn → NfState → Outcome (Bool × NfState)
  run_turns handler i p [] s = done (false, s)
  run_turns handler i p (t ∷ ts) s = turn handler i p t s >>= λ r.
      let rest = run_turns handler i p ts r.1 in if r.0 then done (true, r.1) else rest

  -- `d2sc_nfrt_run_callback` up to the end of its loop.
  unfoldable pub run_callback :
      (Mbuf → ℕ × Mbuf) → ℕ → ℕ → List Turn → NfState → Outcome (Bool × NfState)
  run_callback handler i p ts s =
      let sent = nfrt_ready io (nfrt_of s) p in
      let turns = run_turns handler i p ts (with_nfrt s sent.1) in
      if sent.0
      then (if s.statics.keep_running then turns else done (true, with_nfrt s sent.1))
      else exit

  -- The two waits for the NF in entry `j` are over: it is gone, or neither a child nor unblocked.
  abbrev pub child_gone : ℕ → ℕ → Shared → Bool
  child_gone own j sh = is_null (sh.nfs j).nf_info || not ((sh.nfs j).parent_nf == own)

  abbrev pub settled : ℕ → Shared → Bool
  settled j sh = is_null (sh.nfs j).nf_info || is_halted (sh.nfs j).bk_flag

  -- Looking at the tables as they are one second after the other; `none` means that it still waits.
  unfoldable pub wait_until : (Shared → Bool) → List Shared → Option (List Shared)
  wait_until over [] = none
  wait_until over (sh ∷ shs) =
      let rest = wait_until over shs in if over sh then some (sh ∷ shs) else rest

  abbrev pub then_wait :
      (List Shared → Option (List Shared)) → Option (List Shared) → Option (List Shared)
  then_wait rest none = none
  then_wait rest (some shs) = rest shs

  -- Both waits for each entry in turn.
  unfoldable pub wait_all : ℕ → ℕ → ℕ → List Shared → Option (List Shared)
  wait_all own zero j shs = some shs
  wait_all own (suc n) j shs =
      then_wait (λ shs1. then_wait (wait_all own n (j + 1)) (wait_until (settled j) shs1))
        (wait_until (child_gone own j) shs)

  -- `if (ret)`, of the last answer about the frequency.
  abbrev pub is_nonzero : Freq → Bool
  is_nonzero unchanged = false
  is_nonzero _ = true

  -- What follows the waits.
  unfoldable pub finish : ℕ → ℕ → NfState → Outcome NfState
  finish i p s =
      let stops = stop_nf io (nfrt_of s) p >>= λ r. done (with_nfrt s r) in
      if (s.dp.shared.nfs i).parent_nf == 0
      then (if is_nonzero s.ret then exit else stops)
      else stops
