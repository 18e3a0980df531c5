-- ===== src/Tests/Runtime.antt =====
-- NF 1 is told to block, and to run again; the manager handles its answer.
use d2sc.Prelude.{
  ℕ, ◌+◌, ◌-◌, ◌≤◌, ◌<◌, ◌≡◌, refl, ◌⊎◌, true, none, some, List, [], ◌∷◌, ◌++◌, ltb, ◌==◌,
  if◌then◌else◌, length, take, drop, update,
}
use d2sc.Common.{running, blocked, signalled, Shared}
use d2sc.Messages.{MsgIo, NfMsg, msg_nf_ready, msg_nf_starting}
use d2sc.NfMgr.{Mgr}
use d2sc.NfMgr.Registry.{Registry}
use d2sc.NfMgr.Shutdown.{stop_msg, tell_from, Told, any, one, tell_from-Told}
use d2sc.Nfrt.{Nfrt}
use d2sc.Tests.Data.{shared_of, two_ids}
use d2sc.Tests.Registration.{all_open, one_halted}

-- A ring of at most 16 messages and a pool that counts its objects.
abbrev pub list_msgs : MsgIo
list_msgs = record {
  Ring = List NfMsg;
  Pool = ℕ;
  count = length;
  dequeue_bulk = λ r n. some (take n r, drop n r);
  enqueue = λ r m. if ltb (length r) 16 then some (r ++ m ∷ []) else none;
  mempool_get = λ n. if n == 0 then none else some (n - 1);
  mempool_put = λ n. n + 1;
}

abbrev pub nf_of_1 : Shared → Nfrt list_msgs
nf_of_1 sh = record {
  shared = sh;
  new_msg_queue = [];
  msg_pool = 8;
  info_pool = 8;
  keep_running = true;
}

abbrev told_to_block : Nfrt list_msgs
told_to_block = nf_of_1 (shared_of signalled running 2)

abbrev told_to_run : Nfrt list_msgs
told_to_run = nf_of_1 (one_halted blocked)

abbrev pub manager_of : Shared → Mgr list_msgs
manager_of sh = record {
  shared = sh;
  new_msg_ring = [];
  msg_pool = 8;
  info_pool = some 8;
  msg_q = λ i. [];
}

abbrev two_msgs : List NfMsg
two_msgs =
    record { msg_type = msg_nf_ready; msg_data = some 3 }
    ∷ record { msg_type = msg_nf_starting; msg_data = some 4 }
    ∷ []

abbrev three_ids : ℕ → List ℕ
three_ids = update two_ids 1 (two_ids 1 ++ 3 ∷ [])

tell_from-Told_example :
    ((tell_from list_msgs 3 1 (manager_of all_open)).shared ≡ all_open)
    × ((j : ℕ)
        → 1 ≤ j
        → j < 4
        → Told list_msgs (manager_of all_open) (tell_from list_msgs 3 1 (manager_of all_open)) j)
    × ((j : ℕ) → j < 1 ⊎ 4 ≤ j → (tell_from list_msgs 3 1 (manager_of all_open)).msg_q j ≡ [])
tell_from-Told_example =
    tell_from-Told list_msgs 3 1 (manager_of all_open) (one refl (one refl (one refl any)))
      (λ j lo hi p e. (stop_msg ∷ [], refl))
