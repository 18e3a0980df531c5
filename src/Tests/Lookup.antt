-- ===== src/Tests/Lookup.antt =====
-- Type lookups, flow keys and header rewriting at concrete tables and packets.
use d2sc.Prelude.{ℕ, suc, ◌<◌, ◌≡◌, refl, ◌≢◌, ◌⊎◌, true, false, arith, done, hang}
use d2sc.Common.{max_nfs, running, BkFlag, halted}
use d2sc.NtMap.{nt_to_nf_map, skip_blocked, usable, next_id}
use d2sc.NtMap.Search.{First, steps}
use d2sc.NtMap.Spec.{Picked, nt_to_nf_map-blocked, nt_to_nf_map-returns}
use d2sc.Tests.Data.{shared_of}

-- Hash 2 selects instance 1 of type 1, hash 3 instance 2.
picks_1 : (flag : BkFlag) (available : ℕ) → Picked (shared_of flag running available) 1 2 1
picks_1 flag available = record {
  known = omega arith;
  some_nf = λ e. cc;
  entry = refl;
  in_range = omega arith;
}

nt_to_nf_map-blocked_example :
    ((k : ℕ) × (k < max_nfs)
      × First (shared_of halted running 1) 1 1 k
      × (nt_to_nf_map (shared_of halted running 1) 1 2 ≡ done (steps (suc k) 1)))
    ⊎ (((j : ℕ) → j < max_nfs → usable (shared_of halted running 1) 1 j ≡ false)
        × (nt_to_nf_map (shared_of halted running 1) 1 2 ≡ hang))
nt_to_nf_map-blocked_example =
    nt_to_nf_map-blocked (shared_of halted running 1) 1 2 1 (picks_1 halted 1) refl

-- Instance 2 takes the packet.
test_skips : nt_to_nf_map (shared_of halted running 1) 1 2 ≡ done 2
unfolding nt_to_nf_map skip_blocked usable next_id
test_skips = refl

uses_2 : usable (shared_of halted running 1) 1 2 ≡ true
unfolding usable
uses_2 = refl

nt_to_nf_map-returns_example :
    (r : ℕ) × (nt_to_nf_map (shared_of halted running 1) 1 2 ≡ done r)
    × (r < max_nfs)
    × (((shared_of halted running 1).nfs r).bk_flag ≢ halted)
nt_to_nf_map-returns_example =
    nt_to_nf_map-returns (shared_of halted running 1) 1 2 1 2 (picks_1 halted 1) (omega arith)
      uses_2

finds_2 : skip_blocked 40 (shared_of halted running 1) 1 1 ≡ done 2
unfolding skip_blocked usable next_id
finds_2 = refl
