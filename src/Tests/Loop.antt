-- ===== src/Tests/Loop.antt =====
-- NF 1 in its loop: told to stop while it runs, and while it is blocked; and the end of both sides.
use d2sc.Prelude.{◌≡◌, refl, List, ◌++◌, Bool, true, false, Option, none, some, [], ◌∷◌, done}
use d2sc.Common.{blocked, is_halted}
use d2sc.Messages.{NfMsg, msg_stop}
use d2sc.NfMgr.Registry.{Registry}
use d2sc.PktProcess.{Dp}
use d2sc.Nfrt.{Nfrt, NfArgs}
use d2sc.NfLoop.{changed, unchanged, NfState, Turn, seen, turn, run_turns, idle, check_scale_msg}
use d2sc.NfLoop.Ends.{Quiet, Cleared, run_turns-Blocked, stop-ends}
use d2sc.Tests.Data.{list_io, nf_thread}
use d2sc.Tests.Registration.{one_halted}
use d2sc.Tests.Runtime.{list_msgs}
use d2sc.Tests.Turns.{drops, nf_1, after_nf_turn, nf_turn_runs}

abbrev loop_of : Dp list_io → Bool → NfState list_io list_msgs
loop_of dp goes_on = record {
  dp = dp;
  new_msg_queue = [];
  msg_pool = 8;
  info_pool = 8;
  statics = record { keep_running = goes_on; srv_time_flag = true };
  ret = unchanged;
}

abbrev stop_order : NfMsg
stop_order = record { msg_type = msg_stop; msg_data = none }

-- A turn in which nothing arrives but that message.
abbrev turn_with : Option NfMsg → Turn
turn_with m = record {
  others = λ sh. sh;
  threads = λ v. v;
  signal = false;
  msg = m;
  scale = none;
  callback = none;
  srv_time = 5;
  freq_min = changed;
  cores = [];
}

turn_with-Quiet : (m : Option NfMsg) → Quiet list_io list_msgs drops 1 1 (turn_with m)
turn_with-Quiet m = record {
  unmoved = record { no_scale = refl; stays = λ s b. b };
  untold = λ s. refl;
}

-- Another thread of the process clears `keep_running`.
abbrev told_by_other : Turn
told_by_other = record (turn_with none) { threads = λ v. record v { keep_running = false } }

told_by_other-Cleared : Cleared list_io list_msgs drops 1 1 told_by_other
told_by_other-Cleared = record {
  unmoved = record { no_scale = refl; stays = λ s b. b };
  clears = λ s. refl;
}

-- SIGINT comes.
abbrev interrupt : Turn
interrupt = record (turn_with none) { signal = true }

abbrev halted_thread : Dp list_io
halted_thread = record nf_thread { shared = one_halted blocked }

abbrev ended : NfState list_io list_msgs
ended = record (loop_of halted_thread false) { ret = changed }

halted_ends :
    turn list_io list_msgs drops 1 1 (turn_with none) (loop_of halted_thread false)
    ≡ done (true, ended)
unfolding turn idle check_scale_msg
halted_ends = refl

abbrev two_turns : List Turn
two_turns = turn_with (some stop_order) ∷ turn_with none ∷ []

run_turns-Blocked_example :
    (s' : NfState list_io list_msgs) × (run_turns list_io list_msgs drops 1 1 two_turns
        (loop_of halted_thread true)
      ≡ done (false, s'))
    × (is_halted (s'.dp.shared.nfs 1).bk_flag ≡ true)
    × (s'.statics.keep_running ≡ true)
    × (run_turns list_io list_msgs drops 1 1
          (two_turns ++ told_by_other ∷ [])
          (loop_of halted_thread true)
        ≡ done (true, record (seen list_io list_msgs told_by_other s') { ret = changed }))
run_turns-Blocked_example =
    run_turns-Blocked list_io list_msgs drops 1 1 two_turns [] told_by_other
      (loop_of halted_thread true) (turn_with-Quiet (some stop_order), (turn_with-Quiet none, tt))
      told_by_other-Cleared refl refl

stop-ends_example :
    (s' : NfState list_io list_msgs) × (run_turns list_io list_msgs drops 1 1
        (turn_with (some stop_order) ∷ turn_with none ∷ [])
        (loop_of nf_1 true)
      ≡ done (true, s'))
    × (is_halted (s'.dp.shared.nfs 1).bk_flag ≡ true)
    × (s'.statics.keep_running ≡ false)
    × (s'.ret ≡ changed)
stop-ends_example =
    stop-ends list_io list_msgs drops 1 1 (turn_with (some stop_order)) (turn_with none) []
      (loop_of nf_1 true) stop_order after_nf_turn refl nf_turn_runs refl refl refl refl
      (turn_with-Quiet none)

abbrev numbered : NfArgs
numbered = record { init_inst_id = 1; type_id = 1 }
