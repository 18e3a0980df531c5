-- ===== src/Tests/Registration.antt =====
-- Two registered NFs of one type: starts, readiness, blocking, running and stops.
use d2sc.Prelude.{
  ℕ, ◌+◌, ◌≤◌, ◌<◌, ◌≡◌, refl, ◌⊎◌, inr, true, false, some, [], ◌∷◌, arith, replicate, update,
  contains, done,
}
use d2sc.Common.{
  max_nfs, max_nts, Status, running, blocked, BkFlag, normal, signalled, halted, Shared,
  nf_is_valid,
}
use d2sc.NfMgr.{nf_start, nf_stop, success, failure}
use d2sc.NfMgr.Ids.{Started, nf_start-assigned}
use d2sc.NfMgr.Open.{open_count}
use d2sc.NfMgr.Registry.{Registry}
use d2sc.NfMgr.Row.{Row}
use d2sc.NfMgr.Handlers.{Registered}
use d2sc.NfMgr.Ready.{row-Registry, MayReady}
use d2sc.NfMgr.Stop.{nf_stop-Registry, nf_stop-halted}
use d2sc.Tests.Data.{empty_of, shared_of, two_ids}

Row-two : Row (1 ∷ 2 ∷ []) (1 ∷ 2 ∷ replicate 6 0)
Row-two = record {
  shape = refl;
  fits = omega arith;
  nonzero = ((omega arith, omega arith), ((omega arith, omega arith), tt));
}

empty-Registry : (flag : BkFlag) (st : Status) → Registry (empty_of flag st) (λ t. [])
unfolding open_count
empty-Registry flag st = record {
  rows = λ t l. record { shape = refl; fits = omega arith; nonzero = tt };
  nums = λ t l. refl;
  available = λ t l. refl;
  distinct = λ t l. tt;
  apart = λ t u i lt lu ct cu. cc;
}

two-Registry :
    (flag : BkFlag) (st : Status) (available : ℕ)
    → available ≡ open_count (empty_of flag st).nfs (1 ∷ 2 ∷ [])
    → Registry (shared_of flag st available) two_ids
two-Registry flag st available e =
    row-Registry (empty_of flag st) (shared_of flag st available) (λ t. []) 1 (1 ∷ 2 ∷ [])
      (1 ∷ 2 ∷ replicate 6 0) 2 available (empty-Registry flag st)
      (record {
        known = omega arith;
        holds = Row-two;
        num_eq = refl;
        avail_eq = e;
        distinct = (refl, (refl, tt));
        members = λ i c. inr (λ u l. refl);
      })
      refl refl refl (λ i. refl)

abbrev pub all_open : Shared
all_open = shared_of normal running 2

abbrev pub one_halted : Status → Shared
one_halted st = shared_of halted st 1

pub open-Registry : Registry all_open two_ids
unfolding open_count
open-Registry = two-Registry normal running 2 refl

pub registered :
    (flag : BkFlag) (st : Status) (available : ℕ)
    → Registered (shared_of flag st available) two_ids 1 1
registered flag st available = record { type_known = omega arith; listed = refl; described = refl }

pub may_3 : MayReady all_open two_ids 3 3 1
may_3 = record {
  started = refl;
  has_id = refl;
  has_type = refl;
  known = omega arith;
  room = omega arith;
  usable_id = (omega arith, omega arith);
  fresh = fresh_3;
  not_blocked = refl;
}
  where
    fresh_3 : (u : ℕ) → u < max_nts → contains 3 (two_ids u) ≡ false
    fresh_3 u l = ground arith

pub signalled-Registry : Registry (shared_of signalled blocked 2) two_ids
unfolding open_count
signalled-Registry = two-Registry signalled blocked 2 refl

pub halted-Registry : (st : Status) → Registry (one_halted st) two_ids
unfolding open_count
halted-Registry st = two-Registry halted st 1 refl

nf_stop-Registry_example :
    (sh' : Shared) × (nf_stop true all_open (some 1) ≡ done (success, sh'))
    × Registry sh' (update two_ids 1 (2 ∷ []))
    × (nf_is_valid sh' 1 ≡ false)
nf_stop-Registry_example =
    nf_stop-Registry true all_open two_ids 1 1 open-Registry (registered normal running 2) (λ e. cc)

nf_stop-halted_example :
    (sh' : Shared) × (nf_stop true (one_halted blocked) (some 1) ≡ done (success, sh'))
    × (sh'.nfs_per_nt_available 1 + 1 ≡ open_count (one_halted blocked).nfs (2 ∷ []))
nf_stop-halted_example =
    nf_stop-halted true (one_halted blocked) two_ids 1 1 (halted-Registry blocked)
      (registered halted blocked 1) refl (omega arith)

nf_start-assigned_example :
    ((id : ℕ) × ((nf_start all_open (some 4)).0 ≡ success)
      × (1 ≤ id)
      × ((j : ℕ) → 1 ≤ j → j < id → nf_is_valid all_open j ≡ true)
      × ((nf_start all_open (some 4)).1.next_inst_id ≡ id + 1)
      × Started (record all_open { next_inst_id = id + 1 }) 4 id (nf_start all_open (some 4)).1)
    ⊎ (((nf_start all_open (some 4)).0 ≡ failure)
        × ((j : ℕ) → 1 ≤ j → j < max_nfs → nf_is_valid all_open j ≡ true))
nf_start-assigned_example = nf_start-assigned all_open 4 refl refl
