-- ===== src/NtMap/Frame.antt =====
-- Which parts of the NF table the type lookup reads: descriptions and block flags.
use mathlib.Core.Path.{fun_ext}
use d2sc.Prelude.{
  ℕ, zero, suc, ◌%◌, ◌≡◌, refl, ap, ltb, ◌==◌, if◌then◌else◌, get_elem?, done, fault, ◌>>=◌, access,
}
use d2sc.Common.{max_nfs, max_nts, Nf, Shared}
use d2sc.NtMap.{usable, next_id, skip_blocked, pick, nt_to_nf_map}

module _ (sh : Shared) (nfs' : ℕ → Nf) (infos_eq : (j : ℕ) → (nfs' j).nf_info ≡ (sh.nfs j).nf_info)
    (flags_eq : (j : ℕ) → (nfs' j).bk_flag ≡ (sh.nfs j).bk_flag) where
  abbrev changed : Shared
  changed = record sh { nfs = nfs' }

  usable-congr : (t j : ℕ) → usable changed t j ≡ usable sh t j
  unfolding usable
  usable-congr t j = rw (infos_eq j, flags_eq j) refl

  skip_blocked-congr : (fuel t j : ℕ) → skip_blocked fuel changed t j ≡ skip_blocked fuel sh t j
  unfolding skip_blocked
  skip_blocked-congr zero t j = refl
  skip_blocked-congr (suc fuel) t j =
      rw (usable-congr t (next_id j), skip_blocked-congr fuel t (next_id j)) refl

  pick-congr : (t j : ℕ) → pick changed t j ≡ pick sh t j
  pick-congr t j = rw (flags_eq j, skip_blocked-congr max_nfs t j) refl

  pub nt_to_nf_map-congr : (t rss : ℕ) → nt_to_nf_map changed t rss ≡ nt_to_nf_map sh t rss
  unfolding nt_to_nf_map
  nt_to_nf_map-congr t rss =
      ap
        (λ f.
          if ltb t max_nts
          then (if sh.nfs_per_nt_num t == 0
              then done 0
              else (access (get_elem? (sh.nts t) (rss % sh.nfs_per_nt_num t)) >>= f))
          else fault)
        (fun_ext (pick-congr t))
