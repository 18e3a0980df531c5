-- ===== src/NfMgr/History.antt =====
-- Sequences of messages to the manager: which messages the NFs send in which state, and what holds after
-- any sequence of them.
use d2sc.Prelude.{ℕ, ◌≡◌, refl, ◌≢◌, Bool, Option, some, List, [], ◌∷◌, ◌++◌, update, erase, done}
use d2sc.Common.{running, blocked, signalled, halted, Shared}
use d2sc.Messages.{
  NfMsg, msg_noop, msg_nf_starting, msg_nf_ready, msg_nf_stopping, msg_nf_blocking, msg_nf_running,
  msg_nf_srv_time,
}
use d2sc.NfMgr.{handle_msg, Code, success, failure, after_stop}
use d2sc.NfMgr.Registry.{Registry}
use d2sc.NfMgr.Handlers.{Registered}
use d2sc.NfMgr.Ready.{MayReady}

abbrev msg_of : ℕ → Option ℕ → NfMsg
msg_of t d = record { msg_type = t; msg_data = d }

-- A message that fits the state, and the instances of each type after it.
pub data Lawful (sh : Shared) (ids : ℕ → List ℕ) : NfMsg → (ℕ → List ℕ) → Type 0 where
  starts : (d : Option ℕ) → Lawful sh ids (msg_of msg_nf_starting d) ids
  readies :
      (p id t : ℕ)
      → MayReady sh ids p id t
      → Lawful sh ids (msg_of msg_nf_ready (some p)) (update ids t (ids t ++ id ∷ []))
  stops :
      (p q : ℕ)
      → Registered sh ids p q
      → (sh.nfs (sh.infos p).inst_id).bk_flag ≢ halted
      → Lawful sh ids
          (msg_of msg_nf_stopping (some p))
          (update ids (sh.infos p).type_id (erase (sh.infos p).inst_id (ids (sh.infos p).type_id)))
  blocks :
      (p q : ℕ)
      → Registered sh ids p q
      → (sh.infos p).status ≡ blocked
      → (sh.nfs (sh.infos p).inst_id).bk_flag ≡ signalled
      → Lawful sh ids (msg_of msg_nf_blocking (some p)) ids
  runs :
      (p q : ℕ)
      → Registered sh ids p q
      → (sh.infos p).status ≡ running
      → (sh.nfs (sh.infos p).inst_id).bk_flag ≡ halted
      → Lawful sh ids (msg_of msg_nf_running (some p)) ids
  reports : (p q : ℕ) → Registered sh ids p q → Lawful sh ids (msg_of msg_nf_srv_time (some p)) ids
  ignores : (d : Option ℕ) → Lawful sh ids (msg_of msg_noop d) ids

num-Registry :
    (sh : Shared) (ids : ℕ → List ℕ) (n : ℕ)
    → Registry sh ids
    → Registry (record sh { num_nfs = n }) ids
num-Registry sh ids n r = record {
  rows = r.rows;
  nums = r.nums;
  available = r.available;
  distinct = r.distinct;
  apart = r.apart;
}

pub after_stop-Registry :
    (c : Code) (sh : Shared) (ids : ℕ → List ℕ)
    → Registry sh ids
    → (sh' : Shared) × (after_stop (c, sh) ≡ done sh') × Registry sh' ids
after_stop-Registry success sh ids r = (_, refl, num-Registry sh ids _ r)
after_stop-Registry failure sh ids r = (sh, refl, r)
after_stop-Registry _ sh ids r = (sh, refl, r)

-- Messages that fit one after the other, each in the state that the ones before it leave.
pub data LawfulRun (found : Bool) : Shared → (ℕ → List ℕ) → List NfMsg → (ℕ → List ℕ) → Type 0 where
  over : {sh : Shared} {ids : ℕ → List ℕ} → LawfulRun found sh ids [] ids
  first :
      {sh : Shared} {ids ids1 ids2 : ℕ → List ℕ} {m : NfMsg} {ms : List NfMsg}
      → Lawful sh ids m ids1
      → ((sh' : Shared) → handle_msg found sh m ≡ done sh' → LawfulRun found sh' ids1 ms ids2)
      → LawfulRun found sh ids (m ∷ ms) ids2
