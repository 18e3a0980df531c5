-- ===== src/NfMgr/Row.antt =====
-- The rows of the NF type table: a list of instance numbers, and then zeros.
use d2sc.Prelude.{
  ℕ, zero, suc, ◌+◌, ◌-◌, ◌≤◌, ◌<◌, ◌≡◌, refl, sym, ap, ◌∙◌, true, false, List, [], ◌∷◌, ◌++◌,
  arith, length, set, replicate, length-append, All, contains, erase,
}
use d2sc.Common.{max_nfs, max_nfs_per_nt}
use d2sc.NfMgr.{close_gap, remove_id}

-- `ids` and then zeros fill a row of `max_nfs_per_nt` entries; instance numbers are not 0.
pub record Row (ids row : List ℕ) : Type 0 where
  pub shape : row ≡ ids ++ replicate (max_nfs_per_nt - length ids) 0
  pub fits : length ids ≤ max_nfs_per_nt
  pub nonzero : All (λ i. (0 < i) × (i < max_nfs)) ids

close_gap-shape :
    (ids : List ℕ) (k : ℕ)
    → All (λ i. (0 < i) × (i < max_nfs)) ids
    → close_gap (ids ++ replicate k 0) ≡ ids ++ replicate (suc k) 0
unfolding close_gap
close_gap-shape [] zero h = refl
close_gap-shape [] (suc k) h = refl
close_gap-shape (x ∷ ids) k h = ground (arith, close_gap-shape ids k h.1)

remove_id-shape :
    (ids : List ℕ) (k id : ℕ)
    → All (λ i. (0 < i) × (i < max_nfs)) ids
    → contains id ids ≡ true
    → remove_id (ids ++ replicate k 0) id ≡ erase id ids ++ replicate (suc k) 0
unfolding remove_id
remove_id-shape [] k id h c = cc
remove_id-shape (x ∷ ids) k id h c =
    ground (arith, close_gap-shape ids k h.1, remove_id-shape ids k id h.1)

pub length-erase :
    (ids : List ℕ) (id : ℕ) → contains id ids ≡ true → length (erase id ids) + 1 ≡ length ids
length-erase [] id c = cc
length-erase (x ∷ ids) id c = ground (arith, length-erase ids id)

All-erase :
    (ids : List ℕ) (id : ℕ)
    → All (λ i. (0 < i) × (i < max_nfs)) ids
    → All (λ i. (0 < i) × (i < max_nfs)) (erase id ids)
All-erase [] id h = tt
All-erase (x ∷ ids) id h = ground (arith, All-erase ids id h.1)

-- From a row that holds some instance numbers and then zeros, `d2sc_nf_stop` removes a number that
-- is in it: the row then holds the others in their order and then zeros, without a gap.
pub remove_id-Row :
    (ids row : List ℕ) (id : ℕ)
    → Row ids row
    → contains id ids ≡ true
    → Row (erase id ids) (remove_id row id)
remove_id-Row ids row id r c =
    let len = length-erase ids id c in
    let short : suc (max_nfs_per_nt - length ids) ≡ max_nfs_per_nt - length (erase id ids) =
      let f = r.fits in omega arith in
    record {
      shape =
          ap (λ x. remove_id x id) r.shape
          ∙ remove_id-shape ids (max_nfs_per_nt - length ids) id r.nonzero c
          ∙ ap (λ k. erase id ids ++ replicate k 0) short;
      fits = let f = r.fits in omega arith;
      nonzero = All-erase ids id r.nonzero;
    }

-- A row without the instance stays as it is.
pub remove_id-absent : (row : List ℕ) (id : ℕ) → contains id row ≡ false → remove_id row id ≡ row
unfolding remove_id
remove_id-absent [] id c = refl
remove_id-absent (x ∷ row) id c = ground (arith, remove_id-absent row id)

set-next-shape :
    (ids : List ℕ) (k id : ℕ)
    → set (ids ++ replicate (suc k) 0) (length ids) id ≡ (ids ++ id ∷ []) ++ replicate k 0
set-next-shape [] k id = refl
set-next-shape (x ∷ ids) k id = ap (λ r. x ∷ r) (set-next-shape ids k id)

All-snoc :
    (ids : List ℕ) (id : ℕ)
    → (0 < id) × (id < max_nfs)
    → All (λ i. (0 < i) × (i < max_nfs)) ids
    → All (λ i. (0 < i) × (i < max_nfs)) (ids ++ id ∷ [])
All-snoc [] id b h = (b, tt)
All-snoc (x ∷ ids) id b h = (h.0, All-snoc ids id b h.1)

-- `d2sc_nf_ready` writes the new instance behind the others of its type, while there is room.
pub set-Row :
    (ids row : List ℕ) (id : ℕ)
    → Row ids row
    → length ids < max_nfs_per_nt
    → (0 < id) × (id < max_nfs)
    → Row (ids ++ id ∷ []) (set row (length ids) id)
set-Row ids row id r lt b =
    let one : max_nfs_per_nt - length ids ≡ suc (max_nfs_per_nt - (length ids + 1)) = omega arith in
    let len = length-append ids (id ∷ []) in
    record {
      shape =
          ap (λ x. set x (length ids) id) (r.shape ∙ ap (λ k. ids ++ replicate k 0) one)
          ∙ set-next-shape ids (max_nfs_per_nt - (length ids + 1)) id
          ∙ ap (λ k. (ids ++ id ∷ []) ++ replicate (max_nfs_per_nt - k) 0) (sym len);
      fits = omega arith;
      nonzero = All-snoc ids id b r.nonzero;
    }

length-replicate : (n : ℕ) → length {A = ℕ} (replicate n 0) ≡ n
length-replicate zero = refl
length-replicate (suc n) = ap suc (length-replicate n)

pub length-Row : (ids row : List ℕ) → Row ids row → length row ≡ max_nfs_per_nt
length-Row ids row r =
    let f = r.fits in
    omega (
      arith,
      ap length r.shape,
      length-append ids (replicate (max_nfs_per_nt - length ids) 0),
      length-replicate (max_nfs_per_nt - length ids),
    )

pub All-contains :
    (ids : List ℕ) (id : ℕ)
    → All (λ i. (0 < i) × (i < max_nfs)) ids
    → contains id ids ≡ true
    → (0 < id) × (id < max_nfs)
All-contains [] id h c = cc
All-contains (x ∷ ids) id h c = ground (arith, All-contains ids id h.1)
