-- ===== src/NfMgr/Registry.antt =====
-- The registry of running NFs: for each type a row of instances, their number, and the number of those
-- that are not blocked. A start and a change of a block flag keep them in step.
use d2sc.Prelude.{
  ℕ, ◌+◌, ◌≤◌, ◌<◌, ◌≡◌, sym, ap, ◌∙◌, subst, ◌≢◌, inl, inr, true, List, arith, ◌==◌, Bool-cases,
  length, update, update_self, update_ne, contains, IsDistinct,
}
use d2sc.Common.{max_nts, BkFlag, Nf, Shared, set_nf}
use d2sc.NfMgr.Row.{Row}
use d2sc.NfMgr.Open.{open_flag, open_count, open_count-congr, open_count-change, open_count-le}

-- `ids t` are the instances of type `t` in the order of their registration.
pub record Registry (sh : Shared) (ids : ℕ → List ℕ) : Type 0 where
  pub rows : (t : ℕ) → t < max_nts → Row (ids t) (sh.nts t)
  pub nums : (t : ℕ) → t < max_nts → sh.nfs_per_nt_num t ≡ length (ids t)
  pub available : (t : ℕ) → t < max_nts → sh.nfs_per_nt_available t ≡ open_count sh.nfs (ids t)
  pub distinct : (t : ℕ) → t < max_nts → IsDistinct (ids t)
  pub apart :
      (t u i : ℕ)
      → t < max_nts
      → u < max_nts
      → contains i (ids t) ≡ true
      → contains i (ids u) ≡ true
      → t ≡ u

-- A type never has more available instances than instances.
pub available-le-num :
    (sh : Shared) (ids : ℕ → List ℕ) (t : ℕ)
    → Registry sh ids
    → t < max_nts
    → sh.nfs_per_nt_available t ≤ sh.nfs_per_nt_num t
available-le-num sh ids t r l =
    omega (arith, r.available t l, r.nums t l, open_count-le sh.nfs (ids t))

-- A write to an entry's flag, with the type's count moved by as much.
pub flag-Registry :
    (sh : Shared) (ids : ℕ → List ℕ) (id t n : ℕ) (flag : BkFlag)
    → Registry sh ids
    → t < max_nts
    → contains id (ids t) ≡ true
    → n + open_flag (sh.nfs id).bk_flag ≡ sh.nfs_per_nt_available t + open_flag flag
    → Registry
        (record (set_nf sh id (record (sh.nfs id) { bk_flag = flag })) {
          nfs_per_nt_available = update sh.nfs_per_nt_available t n;
        })
        ids
flag-Registry sh ids id t n flag r l c e = record {
  rows = r.rows;
  nums = r.nums;
  available = λ u lu. elim (Bool-cases (t == u)) [
    | inl same ↦
        let eq : t ≡ u = ground arith in
        subst (λ v. update sh.nfs_per_nt_available t n v ≡ open_count after (ids v)) eq
          (update_self sh.nfs_per_nt_available t n
            ∙ omega (
              arith,
              open_count-change sh.nfs after id (ids t) (r.distinct t l) c others,
              r.available t l,
              ap (λ (nf : Nf). open_flag nf.bk_flag) (update_self sh.nfs id new),
            ))
    | inr other ↦
        let ne : t ≢ u = λ q. ground arith in
        update_ne sh.nfs_per_nt_available t u n ne
        ∙ r.available u lu
        ∙ sym (
            open_count-congr sh.nfs after (ids u) (λ i ci.
              others i (λ q. ne (r.apart t u id l lu c (ap (λ k. contains k (ids u)) q ∙ ci)))))
  ];
  distinct = r.distinct;
  apart = r.apart;
}
  where
    new : Nf
    new = record (sh.nfs id) { bk_flag = flag }

    after : ℕ → Nf
    after = update sh.nfs id new

    others : (i : ℕ) → id ≢ i → (after i).bk_flag ≡ (sh.nfs i).bk_flag
    others i ne = ap (λ (nf : Nf). nf.bk_flag) (update_ne sh.nfs id i new ne)
