-- ===== src/NfMgr/Stop.antt =====
-- Deregistration: `d2sc_nf_stop` of a registered instance, and of an instance that is not available.
use d2sc.Prelude.{
  ℕ, ◌+◌, ◌≤◌, ◌<◌, ◌≡◌, refl, ap, ◌∙◌, ◌≢◌, inl, Bool, true, false, ◌&&◌, some, List, arith, ltb,
  if◌then◌else◌, length, update, update_self, erase, done,
}
use d2sc.Common.{
  max_nfs, max_nts, max_nfs_per_nt, BkFlag, normal, signalled, halted, Shared, nf_is_valid,
}
use d2sc.NfMgr.{nf_stop, success, failure, unregister, remove_id, sub_one_u16}
use d2sc.NfMgr.Open.{
  open_flag, open_count, open_count-erase, open_count-le, contains-erase, IsDistinct-erase,
}
use d2sc.NfMgr.Registry.{Registry}
use d2sc.NfMgr.Handlers.{Registered, inst-lt}
use d2sc.NfMgr.Ready.{NewRow, row-Registry}
use d2sc.NfMgr.Row.{remove_id-Row, length-erase}

open_flag-open : (b : BkFlag) → b ≢ halted → open_flag b ≡ 1
open_flag-open normal ne = refl
open_flag-open signalled ne = refl
open_flag-open halted ne = absurd (ne refl)

module _ (sh : Shared) (ids : ℕ → List ℕ) (p q : ℕ) (r : Registry sh ids)
    (g : Registered sh ids p q) where
  abbrev id : ℕ
  id = (sh.infos p).inst_id

  abbrev t : ℕ
  t = (sh.infos p).type_id

  pub in_range : ltb id max_nfs && ltb t max_nts ≡ true
  in_range = let l = inst-lt sh ids p q r g in let k = g.type_known in ground arith

  pub stop_runs :
      (found : Bool)
      → nf_stop found sh (some p) ≡ done (if found then success else failure, unregister sh id t)
  unfolding nf_stop
  stop_runs found = rw in_range refl

  short : length (ids t) ≤ max_nfs_per_nt
  short = (r.rows t g.type_known).fits

  num_after : sub_one_u16 (sh.nfs_per_nt_num t) + 1 ≡ sh.nfs_per_nt_num t
  num_after = omega (arith, short, r.nums t g.type_known, length-erase (ids t) id g.listed)

  stop-NewRow :
      open_flag (sh.nfs id).bk_flag ≡ 1
      → NewRow sh ids t
          (erase id (ids t))
          (remove_id (sh.nts t) id)
          (sub_one_u16 (sh.nfs_per_nt_num t))
          (sub_one_u16 (sh.nfs_per_nt_available t))
  stop-NewRow is_open = record {
    known = g.type_known;
    holds = remove_id-Row (ids t) (sh.nts t) id (r.rows t g.type_known) g.listed;
    num_eq = omega (arith, num_after, r.nums t g.type_known, length-erase (ids t) id g.listed);
    avail_eq = omega (
      arith,
      is_open,
      short,
      r.available t g.type_known,
      open_count-erase sh.nfs (ids t) id g.listed,
      open_count-le sh.nfs (ids t),
    );
    distinct = IsDistinct-erase id (ids t) (r.distinct t g.type_known);
    members = λ i c. inl (contains-erase i id (ids t) c);
  }

-- `d2sc_nf_stop`, for a registered instance that is not blocked: it returns, the instance leaves its
-- type's row without a gap, both counts of the type follow, and the registry stays in step.
pub nf_stop-Registry :
    (found : Bool) (sh : Shared) (ids : ℕ → List ℕ) (p q : ℕ)
    → Registry sh ids
    → Registered sh ids p q
    → (sh.nfs (sh.infos p).inst_id).bk_flag ≢ halted
    → (sh' : Shared) × (nf_stop found sh (some p) ≡ done (if found then success else failure, sh'))
      × Registry sh'
          (update ids (sh.infos p).type_id (erase (sh.infos p).inst_id (ids (sh.infos p).type_id)))
      × (nf_is_valid sh' (sh.infos p).inst_id ≡ false)
unfolding unregister
nf_stop-Registry found sh ids p q r g ne = (
  unregister sh (sh.infos p).inst_id (sh.infos p).type_id,
  stop_runs sh ids p q r g found,
  row-Registry sh _ ids (sh.infos p).type_id _ _ _ _ r (stop-NewRow sh ids p q r g is_open) refl
      refl refl (λ i. ground arith),
  ground arith,
)
  where
    is_open : open_flag (sh.nfs (sh.infos p).inst_id).bk_flag ≡ 1
    is_open = open_flag-open (sh.nfs (sh.infos p).inst_id).bk_flag ne

-- Stopping a blocked instance counts it as unavailable a second time: afterwards its type has one
-- available instance less than instances that are not blocked (when there is such an instance).
pub nf_stop-halted :
    (found : Bool) (sh : Shared) (ids : ℕ → List ℕ) (p q : ℕ)
    → Registry sh ids
    → Registered sh ids p q
    → (sh.nfs (sh.infos p).inst_id).bk_flag ≡ halted
    → 0 < sh.nfs_per_nt_available (sh.infos p).type_id
    → (sh' : Shared) × (nf_stop found sh (some p) ≡ done (if found then success else failure, sh'))
      × (sh'.nfs_per_nt_available (sh.infos p).type_id + 1
          ≡ open_count sh.nfs (erase (sh.infos p).inst_id (ids (sh.infos p).type_id)))
unfolding unregister
nf_stop-halted found sh ids p q r g fl pos = (
  unregister sh (sh.infos p).inst_id (sh.infos p).type_id,
  stop_runs sh ids p q r g found,
  ap (λ k. k + 1) (update_self sh.nfs_per_nt_available (sh.infos p).type_id _)
      ∙ omega (
        arith,
        pos,
        ap open_flag fl,
        short sh ids p q r g,
        r.available (sh.infos p).type_id g.type_known,
        open_count-erase sh.nfs (ids (sh.infos p).type_id) (sh.infos p).inst_id g.listed,
        open_count-le sh.nfs (ids (sh.infos p).type_id),
      ),
)
