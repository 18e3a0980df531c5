-- ===== src/NfMgr/Handlers.antt =====
-- Blocking, running and reporting: the handlers that change an entry's flag or description keep the
-- registry.
use d2sc.Prelude.{
  ℕ, ◌+◌, ◌≤◌, ◌<◌, ◌≡◌, ap, ◌∙◌, true, some, List, arith, ltb, add_u16, update, update_self,
  contains, done,
}
use d2sc.Common.{
  max_nfs, max_nts, max_nfs_per_nt, running, blocked, normal, signalled, halted, NfInfo, Nf, Shared,
  set_nf,
}
use d2sc.NfMgr.{nf_block, nf_run, success, sub_one_u16}
use d2sc.NfMgr.Open.{open_flag, open_count-erase, open_count-le}
use d2sc.NfMgr.Registry.{Registry, flag-Registry}
use d2sc.NfMgr.Row.{All-contains}

-- Descriptions do not matter to the registry.
pub infos-Registry :
    (sh : Shared) (ids : ℕ → List ℕ) (f : ℕ → NfInfo)
    → Registry sh ids
    → Registry (record sh { infos = f }) ids
infos-Registry sh ids f r = record {
  rows = r.rows;
  nums = r.nums;
  available = r.available;
  distinct = r.distinct;
  apart = r.apart;
}

-- A registered instance with its entry, its type and its description.
pub record Registered (sh : Shared) (ids : ℕ → List ℕ) (p q : ℕ) : Type 0 where
  pub type_known : (sh.infos p).type_id < max_nts
  pub listed : contains (sh.infos p).inst_id (ids (sh.infos p).type_id) ≡ true
  pub described : (sh.nfs (sh.infos p).inst_id).nf_info ≡ some q

pub inst-lt :
    (sh : Shared) (ids : ℕ → List ℕ) (p q : ℕ)
    → Registry sh ids
    → Registered sh ids p q
    → (sh.infos p).inst_id < max_nfs
inst-lt sh ids p q r g =
    let row = r.rows (sh.infos p).type_id g.type_known in
    (All-contains (ids (sh.infos p).type_id) (sh.infos p).inst_id row.nonzero g.listed).1

available_small :
    (sh : Shared) (ids : ℕ → List ℕ) (t : ℕ)
    → Registry sh ids
    → t < max_nts
    → sh.nfs_per_nt_available t ≤ max_nfs_per_nt
available_small sh ids t r l =
    let row = r.rows t l in
    let f = row.fits in omega (arith, r.available t l, open_count-le sh.nfs (ids t))

-- `d2sc_nf_block`, for a registered instance that was signalled to block and says that it is blocked:
-- it succeeds, its entry is marked as blocked, its type has one available instance less, and the
-- registry stays in step.
pub nf_block-Registry :
    (sh : Shared) (ids : ℕ → List ℕ) (p q : ℕ)
    → Registry sh ids
    → Registered sh ids p q
    → (sh.infos p).status ≡ blocked
    → (sh.nfs (sh.infos p).inst_id).bk_flag ≡ signalled
    → (sh' : Shared) × (nf_block sh (some p) ≡ done (success, sh'))
      × Registry sh' ids
      × ((sh'.nfs (sh.infos p).inst_id).bk_flag ≡ halted)
      × (sh'.nfs_per_nt_available (sh.infos p).type_id + 1
          ≡ sh.nfs_per_nt_available (sh.infos p).type_id)
unfolding nf_block
nf_block-Registry sh ids p q r g st fl = (
  record (record (set_nf sh id (record (sh.nfs id) { bk_flag = halted })) {
    nfs_per_nt_available = update sh.nfs_per_nt_available t n;
  }) { infos = update sh.infos q (record (sh.infos q) { status = (sh.infos p).status }) },
  rw (st, in_range, fl, known, g.described),
  infos-Registry _ ids _ (flag-Registry sh ids id t n halted r g.type_known g.listed less),
  ap (λ (nf : Nf). nf.bk_flag) (update_self sh.nfs id (record (sh.nfs id) { bk_flag = halted })),
  ap (λ k. k + 1) (update_self sh.nfs_per_nt_available t n) ∙ one_less,
)
  where
    id : ℕ
    id = (sh.infos p).inst_id

    t : ℕ
    t = (sh.infos p).type_id

    n : ℕ
    n = sub_one_u16 (sh.nfs_per_nt_available t)

    in_range : ltb id max_nfs ≡ true
    in_range = let l = inst-lt sh ids p q r g in ground arith

    known : ltb t max_nts ≡ true
    known = let l = g.type_known in ground arith

    one_less : n + 1 ≡ sh.nfs_per_nt_available t
    one_less =
        let small = available_small sh ids t r g.type_known in
        let was = open_count-erase sh.nfs (ids t) id g.listed in
        let open_now : open_flag (sh.nfs id).bk_flag ≡ 1 = ap open_flag fl in
        omega (arith, r.available t g.type_known)

    less : n + open_flag (sh.nfs id).bk_flag ≡ sh.nfs_per_nt_available t + open_flag halted
    less =
        let open_now : open_flag (sh.nfs id).bk_flag ≡ 1 = ap open_flag fl in
        omega (arith, one_less)

-- `d2sc_nf_run`, for a registered instance that is blocked and says that it runs: it succeeds, its
-- entry is marked as normal, its type has one available instance more, and the registry stays in step.
pub nf_run-Registry :
    (sh : Shared) (ids : ℕ → List ℕ) (p q : ℕ)
    → Registry sh ids
    → Registered sh ids p q
    → (sh.infos p).status ≡ running
    → (sh.nfs (sh.infos p).inst_id).bk_flag ≡ halted
    → (sh' : Shared) × (nf_run sh (some p) ≡ done (success, sh'))
      × Registry sh' ids
      × ((sh'.nfs (sh.infos p).inst_id).bk_flag ≡ normal)
      × (sh'.nfs_per_nt_available (sh.infos p).type_id
          ≡ sh.nfs_per_nt_available (sh.infos p).type_id + 1)
unfolding nf_run
nf_run-Registry sh ids p q r g st fl = (
  record (record (set_nf sh id (record (sh.nfs id) { bk_flag = normal })) {
    nfs_per_nt_available = update sh.nfs_per_nt_available t n;
  }) { infos = update sh.infos q (record (sh.infos q) { status = (sh.infos p).status }) },
  rw (st, in_range, fl, known, g.described),
  infos-Registry _ ids _ (flag-Registry sh ids id t n normal r g.type_known g.listed more),
  ap (λ (nf : Nf). nf.bk_flag) (update_self sh.nfs id (record (sh.nfs id) { bk_flag = normal })),
  update_self sh.nfs_per_nt_available t n ∙ one_more,
)
  where
    id : ℕ
    id = (sh.infos p).inst_id

    t : ℕ
    t = (sh.infos p).type_id

    n : ℕ
    n = add_u16 (sh.nfs_per_nt_available t) 1

    in_range : ltb id max_nfs ≡ true
    in_range = let l = inst-lt sh ids p q r g in ground arith

    known : ltb t max_nts ≡ true
    known = let l = g.type_known in ground arith

    one_more : n ≡ sh.nfs_per_nt_available t + 1
    one_more = let small = available_small sh ids t r g.type_known in omega arith

    more : n + open_flag (sh.nfs id).bk_flag ≡ sh.nfs_per_nt_available t + open_flag normal
    more =
        let closed : open_flag (sh.nfs id).bk_flag ≡ 0 = ap open_flag fl in omega (arith, one_more)
