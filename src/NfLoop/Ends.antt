-- ===== src/NfLoop/Ends.antt =====
-- When an NF's loop ends, in `d2sc_nfrt_run_callback` of src/d2sc_nfrt/d2sc_nfrt.c.
use d2sc.Prelude.{
  ℕ, ◌≡◌, refl, ◌∙◌, ◌++◌, ap, inl, inr, Bool, true, false, not, Option, none, some, List, [], ◌∷◌,
  arith, ◌==◌, Bool-cases, All, done, >>=-eq-done,
}
use d2sc.Common.{Shared, is_halted, Mbuf}
use d2sc.Messages.{MsgIo, NfMsg, msg_stop}
use d2sc.Buffers.{PktIo}
use d2sc.PktProcess.{Dp}
use d2sc.Threads.{nf_turn}
use d2sc.Nfrt.{handle_new_msg}
use d2sc.NfLoop.{
  Turn, NfState, dequeue_new_msg, after_callback, report_once, check_scale_msg, work, idle, seen,
  turn, run_turns,
}

module _ (pio : PktIo) (io : MsgIo) (handler : Mbuf → ℕ × Mbuf) (i p : ℕ) where
  -- The NF's own entry is marked as blocked.
  abbrev pub Blocked : Shared → Type 0
  Blocked sh = is_halted (sh.nfs i).bk_flag ≡ true

  -- A turn ends the loop only if it finds the NF blocked, and then its process is not to go on: what a
  -- callback asks for takes effect no sooner.
  pub turn-ends :
      (t : Turn) (s s' : NfState pio io)
      → turn pio io handler i p t s ≡ done (true, s')
      → Blocked (seen pio io t s).dp.shared × (s'.statics.keep_running ≡ false)
  unfolding turn idle
  turn-ends t s s' h = elim (Bool-cases (is_halted ((seen pio io t s).dp.shared.nfs i).bk_flag)) [
    | inl on ↦
        let h1 = rw on at h in
        let (s1, e, h2) =
          >>=-eq-done (check_scale_msg pio io t.cores i (seen pio io t s) t.scale) _ h1 in
        (on, ground arith)
    | inr off ↦
        let h1 = rw off at h in
        let (s1, e, h2) = >>=-eq-done (work pio io handler i p t (seen pio io t s)) _ h1 in cc
  ]

  -- A turn that brings no scale message, and in which others leave the NF blocked.
  pub record Unmoved (t : Turn) : Type 0 where
    pub no_scale : t.scale ≡ none
    pub stays : (s : NfState pio io) → Blocked s.dp.shared → Blocked (seen pio io t s).dp.shared

  -- Such a turn before which neither a signal nor another thread of the process changes `keep_running`.
  pub record Quiet (t : Turn) : Type 0 where
    pub unmoved : Unmoved t
    pub untold :
        (s : NfState pio io) → (seen pio io t s).statics.keep_running ≡ s.statics.keep_running

  -- Such a turn before which a signal or another thread of the process clears it.
  pub record Cleared (t : Turn) : Type 0 where
    pub unmoved : Unmoved t
    pub clears : (s : NfState pio io) → (seen pio io t s).statics.keep_running ≡ false

  no-scale :
      (t : Turn) (s : NfState pio io)
      → t.scale ≡ none
      → check_scale_msg pio io t.cores i s t.scale ≡ done s
  unfolding check_scale_msg
  no-scale t s e = ap (check_scale_msg pio io t.cores i s) e

  pub idle-turn :
      (t : Turn) (s : NfState pio io)
      → Blocked (seen pio io t s).dp.shared
      → t.scale ≡ none
      → turn pio io handler i p t s
        ≡ done (
          not (seen pio io t s).statics.keep_running,
          record (seen pio io t s) { ret = t.freq_min },
        )
  unfolding turn idle
  idle-turn t s b e = rw (b, no-scale t (seen pio io t s) e) refl

  -- A blocked NF that gets no scale message, and whose entry others leave blocked, goes on for any number of
  -- turns before which neither a signal nor another thread of its process changes `keep_running`,
  -- whatever messages the manager has sent, among them the one to stop; and it ends its loop in the
  -- first turn before which a signal or another thread clears that.
  pub run_turns-Blocked :
      (ts us : List Turn) (u : Turn) (s : NfState pio io)
      → All Quiet ts
      → Cleared u
      → Blocked s.dp.shared
      → s.statics.keep_running ≡ true
      → (s' : NfState pio io) × (run_turns pio io handler i p ts s ≡ done (false, s'))
        × Blocked s'.dp.shared
        × (s'.statics.keep_running ≡ true)
        × (run_turns pio io handler i p (ts ++ u ∷ us) s
            ≡ done (true, record (seen pio io u s') { ret = u.freq_min }))
  unfolding run_turns
  run_turns-Blocked [] us u s q c b k = (
    s,
    refl,
    b,
    k,
    rw (idle-turn u s (c.unmoved.stays s b) c.unmoved.no_scale, ap not (c.clears s)) refl,
  )
  run_turns-Blocked (t ∷ ts) us u s (q, qs) c b k =
      let b1 = q.unmoved.stays s b in
      let k1 = q.untold s ∙ k in
      let s1 : NfState pio io = record (seen pio io t s) { ret = t.freq_min } in
      let (s', e, b', k', ends) = run_turns-Blocked ts us u s1 qs c b1 k1 in
      let goes = idle-turn t s b1 q.unmoved.no_scale in
      (s', rw (goes, ap not k1) e, b', k', rw (goes, ap not k1) ends)

  -- The NF was told to end, and has reported its service time.
  record Ending (s : NfState pio io) : Type 0 where
    flag : Blocked s.dp.shared
    told : s.statics.keep_running ≡ false
    reported : s.statics.srv_time_flag ≡ true

  stop-Ending :
      (s : NfState pio io) (m : NfMsg) (o : Option NfMsg)
      → m.msg_type ≡ msg_stop
      → s.statics.srv_time_flag ≡ true
      → o ≡ some m
      → Ending (dequeue_new_msg pio io i s o)
  unfolding dequeue_new_msg handle_new_msg
  stop-Ending s m none stops r e = cc
  stop-Ending s m (some m') stops r e =
      let same : m'.msg_type ≡ msg_stop = ground arith in
      let stop : (m'.msg_type == msg_stop) ≡ true = ground arith in
      record { flag = rw stop (ground arith); told = rw stop refl; reported = r }

  callback-Ending :
      (s : NfState pio io) (o : Option Bool) → Ending s → Ending (after_callback pio io s o)
  callback-Ending s none h = h
  callback-Ending s (some b) h = record {
    flag = h.flag;
    told = ground (arith, h.told);
    reported = h.reported;
  }

  report-skipped :
      (s : NfState pio io) (time : ℕ)
      → s.statics.srv_time_flag ≡ true
      → report_once pio io p s time ≡ done s
  unfolding report_once
  report-skipped s time r = ground arith

  -- The work of a turn that brings the stop message and no scale message, of an NF that has reported its
  -- service time.
  stop-work :
      (t : Turn) (s : NfState pio io) (m : NfMsg) (dp : Dp pio)
      → nf_turn pio handler i s.dp ≡ done dp
      → t.msg ≡ some m
      → m.msg_type ≡ msg_stop
      → t.scale ≡ none
      → s.statics.srv_time_flag ≡ true
      → (s' : NfState pio io) × (work pio io handler i p t s ≡ done s') × Ending s'
  unfolding work
  stop-work t s m dp e em stops quiet reported =
      let s1 =
        after_callback pio io (dequeue_new_msg pio io i (record s { dp = dp }) t.msg) t.callback in
      let h : Ending s1 =
        callback-Ending (dequeue_new_msg pio io i (record s { dp = dp }) t.msg) t.callback
          (stop-Ending (record s { dp = dp }) m t.msg stops reported em) in
      (s1, rw (e, report-skipped s1 t.srv_time h.reported, no-scale t s1 quiet) refl, h)

  -- An NF that is not blocked and whose process has reported the service time, handles its packets in this
  -- turn, and finds the stop message and no scale message, ends its loop by the next turn, if that
  -- finds it still blocked, without a scale message, and with `keep_running` as it was left: it is then
  -- marked as blocked and goes on no more.
  pub stop-ends :
      (t u : Turn) (ts : List Turn) (s : NfState pio io) (m : NfMsg) (dp : Dp pio)
      → is_halted ((seen pio io t s).dp.shared.nfs i).bk_flag ≡ false
      → nf_turn pio handler i (seen pio io t s).dp ≡ done dp
      → t.msg ≡ some m
      → m.msg_type ≡ msg_stop
      → t.scale ≡ none
      → (seen pio io t s).statics.srv_time_flag ≡ true
      → Quiet u
      → (s' : NfState pio io) × (run_turns pio io handler i p (t ∷ u ∷ ts) s ≡ done (true, s'))
        × Blocked s'.dp.shared
        × (s'.statics.keep_running ≡ false)
        × (s'.ret ≡ u.freq_min)
  unfolding run_turns turn
  stop-ends t u ts s m dp unblocked e em stops quiet reported q =
      let (s1, works, h) = stop-work t (seen pio io t s) m dp e em stops quiet reported in
      let b = q.unmoved.stays s1 h.flag in
      let told = q.untold s1 ∙ h.told in
      (
        record (seen pio io u s1) { ret = u.freq_min },
        rw (unblocked, works, idle-turn u s1 b q.unmoved.no_scale, ap not told) refl,
        b,
        told,
        refl,
      )
