-- ===== src/Threads/Shares.antt =====
-- How the NF numbers are shared out among the TX threads.
use native.Mathlib.Nat.{div-add-mod, mod-lt}
use d2sc.Prelude.{
  ℕ, zero, suc, ◌+◌, ◌-◌, ◌*◌, ◌≤◌, ◌<◌, ◌≡◌, subst, inl, inr, arith, ltb, Bool-cases,
}
use d2sc.Common.{max_nfs}
use d2sc.Threads.{nfs_per_tx, first_nf_id}

-- The shares reach the last number.
covers : (n : ℕ) → 0 < n → max_nfs ≤ n * nfs_per_tx n
unfolding nfs_per_tx
covers n pos = let a = max_nfs + (n - 1) in omega (arith, div-add-mod a n, mod-lt a pos)

first-zero : (n : ℕ) → first_nf_id n 0 ≡ 1
unfolding first_nf_id
first-zero n = ground arith

first-end : (n : ℕ) → 0 < n → first_nf_id n n ≡ max_nfs
unfolding first_nf_id
first-end n pos = ground (arith, covers n pos)

first-step : (n i : ℕ) → first_nf_id n i ≤ first_nf_id n (i + 1)
unfolding first_nf_id
first-step n i = ground arith

first_mono : (d n j : ℕ) → first_nf_id n j ≤ first_nf_id n (j + d)
first_mono zero n j =
    let e : j ≡ j + 0 = omega arith in
    subst (λ k. first_nf_id n j ≤ first_nf_id n k) e (omega arith)
first_mono (suc d) n j =
    let next = first-step n (j + d) in
    let e : j + d + 1 ≡ j + suc d = omega arith in
    subst (λ k. first_nf_id n j ≤ first_nf_id n k) e (omega (arith, first_mono d n j))

plus_one : (k : ℕ) → suc k ≡ k + 1
plus_one k = omega arith

found :
    (k n id : ℕ)
    → 1 ≤ id
    → id < first_nf_id n k
    → (j : ℕ) × (j < k) × (first_nf_id n j ≤ id) × (id < first_nf_id n (j + 1))
found zero n id lo hi = absurd (omega (arith, first-zero n))
found (suc k) n id lo hi = elim (Bool-cases (ltb id (first_nf_id n k))) [
  | inl below ↦ let (j, lt, from, to) = found k n id lo (ground arith) in (j, omega arith, from, to)
  | inr beyond ↦ (k, omega arith, ground arith, subst (λ m. id < first_nf_id n m) (plus_one k) hi)
]

-- An earlier share ends before a later one starts.
ordered : (n j l id : ℕ) → j < l → id < first_nf_id n (j + 1) → first_nf_id n l ≤ id → ⊥
ordered n j l id lt to from =
    let e : j + 1 + (l - (j + 1)) ≡ l = omega arith in
    let mono =
      subst (λ k. first_nf_id n (j + 1) ≤ first_nf_id n k) e (first_mono (l - (j + 1)) n (j + 1)) in
    absurd (omega arith)

-- With at least one TX thread, every NF number from 1 to 15 is in the share of exactly one thread: from
-- `first_nf_id` of the thread to below that of the next one.
pub first_nf_id-partition :
    (n id : ℕ)
    → 0 < n
    → 1 ≤ id
    → id < max_nfs
    → (k : ℕ) × (k < n)
      × (first_nf_id n k ≤ id)
      × (id < first_nf_id n (k + 1))
      × ((j : ℕ) → first_nf_id n j ≤ id → id < first_nf_id n (j + 1) → j ≡ k)
first_nf_id-partition n id pos lo hi =
    let (k, lt, from, to) = found n n id lo (omega (arith, first-end n pos)) in
    (
      k,
      lt,
      from,
      to,
      λ j from' to'. elim (Bool-cases (ltb j k)) [
        | inl before ↦ absurd (ordered n j k id (ground arith) to' from)
        | inr other ↦ elim (Bool-cases (ltb k j)) [
          | inl behind ↦ absurd (ordered n k j id (ground arith) to from')
          | inr same ↦ ground arith
        ]
      ],
    )
