-- ===== src/NtMap.antt =====
-- `d2sc_sc_nt_to_nf_map` of src/d2sc_nfrt/d2sc_sc.c: from an NF type and a packet's RSS hash to an NF
-- instance. Its search loop has no bound in C; here it stops after one round over all instances, and
-- `Search` shows that this loses nothing.
pub mod Search
pub mod Spec
pub mod Frame
use d2sc.Prelude.{
  ℕ, zero, suc, ◌+◌, ◌%◌, ◌≡◌, Bool, true, false, not, ◌&&◌, Option, none, some, List, ltb, leb,
  ◌==◌, if◌then◌else◌, get_elem?, Outcome, done, fault, hang, access, ◌>>=◌,
}
use d2sc.Common.{max_nfs, max_nts, Shared, is_halted, nf_is_valid, NfInfo, Nf}

-- The type of the NF behind a description pointer, which the code reads after the validity test.
abbrev pub has_type : (ℕ → NfInfo) → Option ℕ → ℕ → Bool
has_type infos none t = false
has_type infos (some p) t = (infos p).type_id == t

-- The three tests of the search loop.
unfoldable pub usable : Shared → ℕ → ℕ → Bool
usable sh t id =
    nf_is_valid sh id
    && has_type sh.infos (sh.nfs id).nf_info t
    && not (is_halted (sh.nfs id).bk_flag)

unfoldable pub next_id : ℕ → ℕ
next_id id = if leb max_nfs (id + 1) then (id + 1) % max_nfs else id + 1

unfoldable pub skip_blocked : ℕ → Shared → ℕ → ℕ → Outcome ℕ
skip_blocked zero sh t id = hang
skip_blocked (suc fuel) sh t id =
    let rest = skip_blocked fuel sh t (next_id id) in
    if usable sh t (next_id id) then done (next_id id) else rest

abbrev pub pick : Shared → ℕ → ℕ → Outcome ℕ
pick sh t id =
    if ltb id max_nfs
    then (if is_halted (sh.nfs id).bk_flag then skip_blocked max_nfs sh t id else done id)
    else fault

-- A type outside of the tables, or a hash index outside of the type's row, is a read out of bounds.
unfoldable pub nt_to_nf_map : Shared → ℕ → ℕ → Outcome ℕ
nt_to_nf_map sh t rss =
    if ltb t max_nts
    then (if sh.nfs_per_nt_num t == 0
        then done 0
        else (access (get_elem? (sh.nts t) (rss % sh.nfs_per_nt_num t)) >>= pick sh t))
    else fault
