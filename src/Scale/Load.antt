-- ===== src/Scale/Load.antt =====
-- Blocking for lack of load: the difference that `d2sc_scale_check_load` computes, the instance that it
-- picks, and the idle counter of `d2sc_scale_check_block`.
use mathlib.Core.Bool.{false≢true}
use d2sc.Prelude.{
  ℕ, zero, suc, ◌+◌, ◌-◌, ◌≤◌, ◌<◌, ◌≡◌, refl, sym, ap, ◌∙◌, ◌↔◌, inl, inr, true, false, some, List,
  arith, ltb, ◌==◌, Bool-cases, get_elem?, done,
}
use d2sc.Common.{max_nfs, Shared, nf_is_valid}
use d2sc.ScaleData.{ScaleIo}
use d2sc.Scale.{Scaler, dif_load, has_spare, find_running, idle_one, check_block_from, check_block}

-- A type whose load is within its capacity counts as having spare capacity exactly if it has more than
-- one available instance and the difference is at least one instance's maximal load.
pub has_spare-within :
    (max_load num capacity load : ℕ)
    → load ≤ capacity
    → capacity < 65536
    → (has_spare max_load num capacity load ≡ true) ↔ ((max_load ≤ capacity - load) × (1 < num))
unfolding has_spare dif_load
has_spare-within max_load num capacity load le small = (λ h. ground arith, λ h. ground arith)

-- The entries of a row below `n` are instances with descriptions.
abbrev pub Described : Shared → List ℕ → ℕ → Type 0
Described sh row n =
    (j : ℕ)
    → j < n
    → (id : ℕ) × (p : ℕ) × (get_elem? row j ≡ some id)
      × (id < max_nfs)
      × ((sh.nfs id).nf_info ≡ some p)

pub record Last (sh : Shared) (row : List ℕ) (n k id : ℕ) : Type 0 where
  pub below : k < n
  pub at : get_elem? row k ≡ some id
  pub runs : nf_is_valid sh id ≡ true
  pub later : (j i : ℕ) → k < j → j < n → get_elem? row j ≡ some i → nf_is_valid sh i ≡ false

same_entry :
    (row : List ℕ) (u m a b : ℕ)
    → u ≡ m
    → get_elem? row u ≡ some a
    → get_elem? row m ≡ some b
    → a ≡ b
same_entry row u m a b q ea eb =
    let e : some a ≡ some b = sym ea ∙ ap (get_elem? row) q ∙ eb in ground arith

-- Among the first `n` entries of a row, all with descriptions, `d2sc_scale_check_load` picks the last
-- one that runs, if one of them runs.
pub find_running-Last :
    (sh : Shared) (row : List ℕ) (n j i : ℕ)
    → Described sh row n
    → j < n
    → get_elem? row j ≡ some i
    → nf_is_valid sh i ≡ true
    → (k : ℕ) × (id : ℕ) × (find_running sh row n ≡ done id) × Last sh row n k id
unfolding find_running
find_running-Last sh row zero j i d l e v = absurd (omega arith)
find_running-Last sh row (suc n) j i d l e v =
    let (id, p, at, range, desc) = d n (omega arith) in
    let in_range : ltb id max_nfs ≡ true = ground arith in
    elim (Bool-cases (nf_is_valid sh id)) [
      | inl runs ↦
          let st = rw desc at runs in
          let hit : find_running sh row (suc n) ≡ done id = rw (at, in_range, desc, st) refl in
          (
            n,
            id,
            hit,
            record {
              below = omega arith;
              at = at;
              runs = runs;
              later = λ k u lo hi eu. absurd (omega arith);
            },
          )
      | inr still ↦
          let st = rw desc at still in
          let earlier : j < n = before n j i id l e at v still in
          let (k, r, found, last) =
            find_running-Last sh row n j i (λ u lu. d u (omega arith)) earlier e v in
          let step : find_running sh row (suc n) ≡ find_running sh row n =
            rw (at, in_range, desc, st) refl in
          (k, r, step ∙ found, one_more n k r id at still last)
    ]
  where
    before :
        (m u a b : ℕ)
        → u < suc m
        → get_elem? row u ≡ some a
        → get_elem? row m ≡ some b
        → nf_is_valid sh a ≡ true
        → nf_is_valid sh b ≡ false
        → u < m
    before m u a b lu ea eb va vb = elim (Bool-cases (u == m)) [
      | inr ne ↦ ground arith
      | inl eq ↦ absurd (
          false≢true
            (sym vb ∙ sym (ap (nf_is_valid sh) (same_entry row u m a b (ground arith) ea eb)) ∙ va))
    ]

    one_more :
        (m k r b : ℕ)
        → get_elem? row m ≡ some b
        → nf_is_valid sh b ≡ false
        → Last sh row m k r
        → Last sh row (suc m) k r
    one_more m k r b eb vb last = record {
      below = let h = last.below in omega arith;
      at = last.at;
      runs = last.runs;
      later = λ u a lo hi ea. elim (Bool-cases (u == m)) [
        | inr ne ↦ last.later u a lo (ground arith) ea
        | inl eq ↦ ap (nf_is_valid sh) (same_entry row u m a b (ground arith) ea eb) ∙ vb
      ];
    }

module _ (io : ScaleIo) where
  idle_one-shared : (s : Scaler io) (i : ℕ) → (idle_one io s i).shared ≡ s.shared
  idle_one-shared s i = ground arith

  check_block_from-shared :
      (n i : ℕ) (s : Scaler io) → (check_block_from io n i s).shared ≡ s.shared
  unfolding check_block_from
  check_block_from-shared zero i s = refl
  check_block_from-shared (suc n) i s =
      check_block_from-shared n (i + 1) (idle_one io s i) ∙ idle_one-shared s i

  -- `d2sc_scale_check_block` never marks an NF: its 16-bit counter stays below the limit.
  pub check_block-shared : (s : Scaler io) → (check_block io s).shared ≡ s.shared
  unfolding check_block
  check_block-shared s = check_block_from-shared max_nfs 0 s
