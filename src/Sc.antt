-- ===== src/Sc.antt =====
-- Service chains: src/d2sc_nfrt/d2sc_sc.c, with the structures of src/d2sc_nfrt/d2sc_common.h.
pub mod Build
use d2sc.Prelude.{
  ℕ, ◌+◌, ◌≤◌, ◌≡◌, Bool, true, false, Option, none, some, List, [], ◌∷◌, ltb, leb, ◌==◌,
  if◌then◌else◌, get_elem?, set, length, replicate, add_u8, Outcome, done, fault, access, ◌>>=◌,
}
use d2sc.Common.{max_sc_len, act_drop, Mbuf}

-- struct d2sc_sc_entry
pub record ScEntry : Type 0 where
  pub dst : ℕ
  pub act : ℕ

-- struct d2sc_sc; the array has `max_sc_len` entries.
pub record Sc : Type 0 where
  pub sc_entry : List ScEntry
  pub sc_len : ℕ
  pub ref_cnt : ℕ

-- What `merge_entry` and `set_entry` return.
pub data ScStatus : Type 0 where
  ok no_space bad_index : ScStatus

-- rte_calloc clears the whole structure; when it fails the process ends.
abbrev pub empty_entry : ScEntry
empty_entry = record { dst = 0; act = 0 }

pub create : Sc
create = record { sc_entry = replicate max_sc_len empty_entry; sc_len = 0; ref_cnt = 0 }

-- A write to `sc->sc_entry[i]`; outside of the array it faults.
abbrev pub write_entry : Sc → ℕ → ScEntry → Outcome Sc
write_entry sc i e =
    if ltb i (length sc.sc_entry)
    then done (record sc { sc_entry = set sc.sc_entry i e })
    else fault

abbrev pub and_status : ScStatus → Sc → Outcome (ScStatus × Sc)
and_status st sc = done (st, sc)

-- `sc_len` is raised before the entry is written, and the first entry is reserved.
pub merge_entry : Sc → ℕ → ℕ → Outcome (ScStatus × Sc)
merge_entry sc act dst =
    if ltb max_sc_len sc.sc_len
    then done (no_space, sc)
    else (write_entry (record sc { sc_len = add_u8 sc.sc_len 1 }) (sc.sc_len + 1)
          (record { dst = dst; act = act })
        >>= and_status ok)

pub set_entry : Sc → ℕ → ℕ → ℕ → Outcome (ScStatus × Sc)
set_entry sc index act dst =
    if ltb sc.sc_len index
    then done (bad_index, sc)
    else (write_entry sc index (record { dst = dst; act = act }) >>= and_status ok)

unfoldable pub next_act : Sc → Mbuf → Outcome ℕ
next_act sc pkt =
    if leb sc.sc_len pkt.info.sc_index
    then done act_drop
    else (access (get_elem? sc.sc_entry (pkt.info.sc_index + 1)) >>= λ e. done e.act)

unfoldable pub next_dst : Sc → Mbuf → Outcome ℕ
next_dst sc pkt =
    if leb sc.sc_len pkt.info.sc_index
    then done 0
    else (access (get_elem? sc.sc_entry (pkt.info.sc_index + 1)) >>= λ e. done e.dst)
