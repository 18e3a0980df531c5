-- ===== src/Tests/Flows.antt =====
-- A table of at most 100 flows, by the source's address, that is a list.
use d2sc.Prelude.{
  ℕ, suc, ◌+◌, ◌≤◌, ◌<◌, ◌≡◌, refl, ap, inl, inr, true, false, Option, none, some, List, [], ◌∷◌,
  arith, ltb, ◌==◌, if◌then◌else◌, Bool-cases, length,
}
use d2sc.Examples.Tracker.{FlowStats, FlowLib, Found, found, missing}

abbrev Flows : Type 0
Flows = List (ℕ × FlowStats)

abbrev find : Flows → ℕ → Found
find [] k = missing
find ((j, d) ∷ fs) k = let rest = find fs k in if j == k then found d else rest

abbrev put : Flows → ℕ → FlowStats → Flows
put [] k d = []
put ((j, e) ∷ fs) k d = let rest = put fs k d in if j == k then (j, d) ∷ fs else (j, e) ∷ rest

abbrev insert : Flows → ℕ → Option Flows
insert fs k =
    if ltb (length fs) 100
    then some ((k, record { pkt_count = 0; last_pkt_cycles = 0; is_active = true }) ∷ fs)
    else none

abbrev under : ℕ × FlowStats → Option Flows → Option Flows
under e none = none
under e (some fs) = some (e ∷ fs)

abbrev delete : Flows → ℕ → Option Flows
delete [] k = none
delete ((j, e) ∷ fs) k = let rest = under (j, e) (delete fs k) in if j == k then some fs else rest

pub put-length : (fs : Flows) (k : ℕ) (d : FlowStats) → length (put fs k d) ≡ length fs
put-length [] k d = refl
put-length ((j, e) ∷ fs) k d = elim (Bool-cases (j == k)) [
  | inl same ↦ rw same refl
  | inr other ↦ rw other (ap suc (put-length fs k d))
]

find-tail :
    (i k : ℕ) (e : FlowStats) (fs : Flows)
    → find ((i, e) ∷ fs) k ≡ missing
    → (i == k ≡ false) × (find fs k ≡ missing)
find-tail i k e fs h = elim (Bool-cases (i == k)) [
  | inl same ↦ let h1 = rw same at h in cc
  | inr other ↦ (other, (rw other at h))
]

pub find-put :
    (fs : Flows) (k j : ℕ) (d : FlowStats) → find fs j ≡ missing → find (put fs k d) j ≡ missing
find-put [] k j d h = refl
find-put ((i, e) ∷ fs) k j d h =
    let (other, rest) = find-tail i j e fs h in
    elim (Bool-cases (i == k)) [
      | inl here ↦ rw (here, other) rest
      | inr there ↦ rw (there, other) (find-put fs k j d rest)
    ]

pub insert-length :
    (fs fs' : Flows) (k : ℕ)
    → find fs k ≡ missing
    → insert fs k ≡ some fs'
    → (length fs' ≡ length fs + 1) × (length fs' ≤ 100)
insert-length fs fs' k m h = elim (Bool-cases (ltb (length fs) 100)) [
  | inl room ↦
      let h1 = rw room at h in
      let q : fs' ≡ (k, record { pkt_count = 0; last_pkt_cycles = 0; is_active = true }) ∷ fs =
        ground arith in
      let small : length fs < 100 = ground arith in (rw q (omega arith), rw q (omega arith))
  | inr full ↦ let h1 = rw full at h in cc
]

-- A deletion takes the first flow of the key, wherever it stands.
pub delete-both :
    (fs fs' : Flows) (k : ℕ)
    → delete fs k ≡ some fs'
    → (length fs' + 1 ≡ length fs) × ((j : ℕ) → find fs j ≡ missing → find fs' j ≡ missing)
delete-both [] fs' k h = cc
delete-both ((i, e) ∷ fs) fs' k h = elim (Bool-cases (i == k)) [
  | inl here ↦
      let h1 = rw here at h in
      let q : fs' ≡ fs = ground arith in (rw q (omega arith), λ j m. rw q (find-tail i j e fs m).1)
  | inr there ↦
      let h1 = rw there at h in later (λ rest d. delete-both fs rest k d) (delete fs k) refl h1
]
  where
    later :
        ((rest : Flows)
          → delete fs k ≡ some rest
          → (length rest + 1 ≡ length fs) × ((j : ℕ) → find fs j ≡ missing → find rest j ≡ missing))
        → (o : Option Flows) → delete fs k ≡ o
        → under (i, e) o ≡ some fs'
        → (length fs' + 1 ≡ length ((i, e) ∷ fs))
          × ((j : ℕ) → find ((i, e) ∷ fs) j ≡ missing → find fs' j ≡ missing)
    later rec none d u = cc
    later rec (some rest) d u =
        let (shorter, kept) = rec rest d in
        let q : fs' ≡ (i, e) ∷ rest = ground arith in
        (
          rw q (omega (arith, shorter)),
          λ j m. rw q (let (other, tail) = find-tail i j e fs m in rw other (kept j tail)),
        )

abbrev pub flow_list : FlowLib
flow_list = record {
  Key = ℕ;
  Table = Flows;
  flows = λ t. t;
  fill_key = λ p. some p.ipv4.src_addr;
  lookup = find;
  write = put;
  add = insert;
  remove = delete;
  write-length = put-length;
  write-missing = find-put;
  add-length = insert-length;
  remove-length = λ t t' k h. (delete-both t t' k h).0;
  remove-missing = λ t t' k j h m. (delete-both t t' k h).1 j m;
}
