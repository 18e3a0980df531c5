-- ===== src/Tests/Chains.antt =====
-- Service chains of two hops.
use d2sc.Prelude.{ℕ, zero, suc, ◌+◌, ◌<◌, ◌≡◌, refl, List, [], ◌∷◌, arith, get_elem?, done, fault}
use d2sc.Common.{act_tonf, act_out, Mbuf}
use d2sc.Sc.{Sc, ScEntry, create, merge_entry, next_act, next_dst}
use d2sc.Sc.Build.{Holds, build_from, hop_at, build-next, merge_entry_overruns}
use d2sc.Tests.Data.{chain}

abbrev pub two_hops : List ScEntry
two_hops = record { dst = 1; act = act_tonf } ∷ record { dst = 0; act = act_out } ∷ []

build-next_example :
    (sc : Sc) × (build_from create two_hops ≡ done sc)
    × ((pkt : Mbuf)
        → (next_act sc pkt ≡ done (hop_at two_hops pkt.info.sc_index).act)
          × (next_dst sc pkt ≡ done (hop_at two_hops pkt.info.sc_index).dst))
build-next_example = build-next two_hops (omega arith)

pub chain-Holds : Holds chain two_hops
chain-Holds = record { size = refl; len = refl; room = omega arith; entries = within }
  where
    within : (i : ℕ) → i < 2 → get_elem? chain.sc_entry (i + 1) ≡ get_elem? two_hops i
    within zero l = refl
    within (suc zero) l = refl
    within (suc (suc i)) l = absurd (omega arith)

merge_entry_overruns_example : merge_entry (record chain { sc_len = 5 }) act_tonf 2 ≡ fault
merge_entry_overruns_example =
    merge_entry_overruns (record chain { sc_len = 5 }) act_tonf 2 refl (omega arith) (omega arith)
