-- ===== src/Tests/NfStarts.antt =====
-- An NF of type 1 starts, with its description at address 4, while NFs 1 and 2 run.
use d2sc.Prelude.{ℕ, ◌≤◌, ◌<◌, ◌≡◌, refl, ◌⊎◌, true, some, [], ◌∷◌, done, exit}
use d2sc.Common.{max_nfs, nf_is_valid}
use d2sc.Messages.{msg_nf_starting}
use d2sc.Nfrt.{NfArgs, message, parse_args, info_init_at}
use d2sc.NfStart.{NfDpdk, Ready, no_args, nfrt_init}
use d2sc.NfStart.Registers.{Registers, manager_after, nfrt_init-Registers}
use d2sc.Tests.Registration.{all_open}
use d2sc.Tests.Runtime.{list_msgs, nf_of_1}
use d2sc.Parse.{strtoul}

-- The EAL reads four arguments; -t 1 follows.
abbrev nf_side : NfDpdk
nf_side = record {
  eal = some 4;
  has_pool = λ x. true;
  has_zone = λ z. true;
  has_ring = λ r. true;
  opts = λ n. (116, 49 ∷ []) ∷ [];
  optind = 3;
}

abbrev typed : NfArgs
typed = record { init_inst_id = 65535; type_id = 1 }

reads_type : parse_args (nf_side.opts (some 4)) no_args ≡ (true, typed)
unfolding parse_args strtoul
reads_type = refl

nfrt_init-Registers_example :
    ((id : ℕ) × (r : Ready list_msgs) × (nfrt_init list_msgs nf_side "nat" 10
          (nf_of_1 all_open)
          4
          (manager_after list_msgs 2 4)
        ≡ done (some r))
      × (r.ret_final ≡ 6)
      × Registers list_msgs
          (info_init_at list_msgs typed "nat" 10 (nf_of_1 all_open) 4 7).shared
          4
          id
          r.nfrt)
    ⊎ ((nfrt_init list_msgs nf_side "nat" 10 (nf_of_1 all_open) 4 (manager_after list_msgs 2 4)
          ≡ exit)
        × ((j : ℕ)
            → 1 ≤ j
            → j < max_nfs
            → nf_is_valid (info_init_at list_msgs typed "nat" 10 (nf_of_1 all_open) 4 7).shared j
              ≡ true))
nfrt_init-Registers_example =
    nfrt_init-Registers list_msgs nf_side 4 typed "nat" 10 (nf_of_1 all_open) 4 2 7
      (record {
        starts = refl;
        pools = λ x. refl;
        zones = λ z. refl;
        rings = λ r. refl;
        parses = reads_type;
      })
      refl refl
      (record {
        pool = 7;
        ring = message list_msgs msg_nf_starting 4 ∷ [];
        gets = refl;
        fits = refl;
      })
