-- ===== src/NfMgr/Unchanged.antt =====
-- Starting and reporting: the handlers that leave the rows, the counts and the block flags alone.
use d2sc.Prelude.{
  ℕ, zero, suc, ◌+◌, ◌≡◌, refl, sym, ◌∙◌, subst, inl, inr, Option, none, some, List, arith, ltb,
  leb, ◌==◌, Bool-cases, done,
}
use d2sc.Common.{max_nfs, Shared, nf_is_valid, set_info}
use d2sc.Messages.{nf_no_id}
use d2sc.NfMgr.{
  nf_start, nf_srv_time, Code, on_info, start_with, next_inst_id, scan_ids, is_waiting,
}
use d2sc.NfMgr.Open.{open_count-congr}
use d2sc.NfMgr.Registry.{Registry}

pub record SameTables (sh sh' : Shared) : Type 0 where
  pub nts : sh'.nts ≡ sh.nts
  pub num : sh'.nfs_per_nt_num ≡ sh.nfs_per_nt_num
  pub available : sh'.nfs_per_nt_available ≡ sh.nfs_per_nt_available
  pub flags : (i : ℕ) → (sh'.nfs i).bk_flag ≡ (sh.nfs i).bk_flag

SameTables-refl : (sh : Shared) → SameTables sh sh
SameTables-refl sh = record { nts = refl; num = refl; available = refl; flags = λ i. refl }

SameTables-trans : {a b c : Shared} → SameTables a b → SameTables b c → SameTables a c
SameTables-trans p q = record {
  nts = q.nts ∙ p.nts;
  num = q.num ∙ p.num;
  available = q.available ∙ p.available;
  flags = λ i. q.flags i ∙ p.flags i;
}

pub SameTables-Registry :
    (sh sh' : Shared) (ids : ℕ → List ℕ) → SameTables sh sh' → Registry sh ids → Registry sh' ids
SameTables-Registry sh sh' ids s r = record {
  rows = λ t l. rw s.nts (r.rows t l);
  nums = λ t l. rw s.num (r.nums t l);
  available = λ t l.
      rw s.available (r.available t l)
      ∙ sym (open_count-congr sh.nfs sh'.nfs (ids t) (λ i c. s.flags i));
  distinct = r.distinct;
  apart = r.apart;
}

scan_ids-SameTables : (fuel : ℕ) (sh : Shared) (acc : ℕ) → SameTables sh (scan_ids fuel sh acc).1
unfolding scan_ids
scan_ids-SameTables zero sh acc = SameTables-refl sh
scan_ids-SameTables (suc fuel) sh acc = elim (Bool-cases (ltb sh.next_inst_id max_nfs)) [
  | inr beyond ↦ rw beyond (SameTables-refl sh)
  | inl within ↦
      let step : SameTables sh (record sh { next_inst_id = sh.next_inst_id + 1 }) = record {
        nts = refl;
        num = refl;
        available = refl;
        flags = λ i. refl;
      } in
      elim (Bool-cases (nf_is_valid sh sh.next_inst_id)) [
        | inr free ↦ rw (within, free) step
        | inl taken ↦
            rw (within, taken) (SameTables-trans step (scan_ids-SameTables fuel _ sh.next_inst_id))
      ]
]

start_with-SameTables : (sh : Shared) (p id : ℕ) → SameTables sh (start_with p (id, sh)).1
start_with-SameTables sh p id = elim (Bool-cases (leb max_nfs id)) [
  | inl beyond ↦ rw beyond (record { nts = refl; num = refl; available = refl; flags = λ i. refl })
  | inr within ↦ elim (Bool-cases (nf_is_valid sh id)) [
    | inl taken ↦
        rw (within, taken) (record { nts = refl; num = refl; available = refl; flags = λ i. refl })
    | inr free ↦
        rw (within, free)
          (record { nts = refl; num = refl; available = refl; flags = λ i. ground arith })
  ]
]

-- Whatever `d2sc_nf_start` answers, it changes no flag, no row and no count.
pub nf_start-SameTables : (sh : Shared) (d : Option ℕ) → SameTables sh (nf_start sh d).1
unfolding nf_start next_inst_id
nf_start-SameTables sh none = SameTables-refl sh
nf_start-SameTables sh (some p) = elim (Bool-cases (is_waiting (sh.infos p).status)) [
  | inr other ↦ rw other (SameTables-refl sh)
  | inl waits ↦ elim (Bool-cases ((sh.infos p).inst_id == nf_no_id)) [
    | inr own ↦ rw (waits, own) (start_with-SameTables sh p (sh.infos p).inst_id)
    | inl ask ↦ rw (waits, ask) (assigned (scan_ids max_nfs sh max_nfs) (scan_ids-SameTables _ _ _))
  ]
]
  where
    assigned : (r : ℕ × Shared) → SameTables sh r.1 → SameTables sh (start_with p r).1
    assigned (id, sh1) s = SameTables-trans s (start_with-SameTables sh1 p id)

-- A report of the service time changes no flag, no row and no count.
pub nf_srv_time-SameTables :
    (sh sh' : Shared) (d : Option ℕ) (c : Code)
    → nf_srv_time sh d ≡ done (c, sh')
    → SameTables sh sh'
unfolding nf_srv_time
nf_srv_time-SameTables sh sh' none c h = cc
nf_srv_time-SameTables sh sh' (some p) c h = elim (Bool-cases (ltb (sh.infos p).inst_id max_nfs)) [
  | inr out ↦ ground arith
  | inl within ↦ let h1 = rw within at h in reported (sh.nfs (sh.infos p).inst_id).nf_info h1
]
  where
    reported :
        (q : Option ℕ)
        → on_info sh q (λ i. record i { srv_time = (sh.infos p).srv_time }) ≡ done (c, sh')
        → SameTables sh sh'
    reported none e = cc
    reported (some q) e =
        let same : set_info sh q (record (sh.infos q) { srv_time = (sh.infos p).srv_time }) ≡ sh' =
          ground arith in
        subst (SameTables sh) same
          (record { nts = refl; num = refl; available = refl; flags = λ i. refl })
