-- ===== src/NfMgr/Open.antt =====
-- Lists of instances: how many of them are not blocked, and how that number changes.
use mathlib.Core.Bool.{false≢true}
use d2sc.Prelude.{
  ℕ, ◌+◌, ◌≤◌, ◌≡◌, refl, sym, ap, ◌∙◌, ◌≢◌, ◌⊎◌, inl, inr, true, false, List, [], ◌∷◌, ◌++◌, arith,
  ◌==◌, Bool-cases, length, contains, erase, IsDistinct,
}
use d2sc.Common.{BkFlag, halted, Nf}

abbrev pub open_flag : BkFlag → ℕ
open_flag halted = 0
open_flag _ = 1

-- How many of the instances are not blocked.
unfoldable pub open_count : (ℕ → Nf) → List ℕ → ℕ
open_count nfs [] = 0
open_count nfs (i ∷ ids) = open_flag (nfs i).bk_flag + open_count nfs ids

pub open_count-congr :
    (f g : ℕ → Nf) (ids : List ℕ)
    → ((i : ℕ) → contains i ids ≡ true → (g i).bk_flag ≡ (f i).bk_flag)
    → open_count g ids ≡ open_count f ids
unfolding open_count
open_count-congr f g [] h = refl
open_count-congr f g (i ∷ ids) h =
    let here = ap open_flag (h i (ground arith)) in
    let later = open_count-congr f g ids (λ j c. h j (ground arith)) in omega (arith, here, later)

-- A change of one instance's flag.
pub open_count-change :
    (f g : ℕ → Nf) (id : ℕ) (ids : List ℕ)
    → IsDistinct ids
    → contains id ids ≡ true
    → ((i : ℕ) → id ≢ i → (g i).bk_flag ≡ (f i).bk_flag)
    → open_count g ids + open_flag (f id).bk_flag ≡ open_count f ids + open_flag (g id).bk_flag
unfolding open_count
open_count-change f g id [] d c h = cc
open_count-change f g id (i ∷ ids) d c h = elim (Bool-cases (i == id)) [
  | inl e ↦
      let e' : i ≡ id = ground arith in
      let rest = open_count-congr f g ids (λ j cj.
        h j (λ q. absurd (false≢true (sym d.0 ∙ ap (λ k. contains k ids) (e' ∙ q) ∙ cj)))) in
      rw e' (omega (arith, rest))
  | inr ne ↦
      let cid : contains id ids ≡ true = ground arith in
      let apart : id ≢ i = λ q. absurd (ground arith) in
      let here = ap open_flag (h i apart) in
      omega (arith, here, open_count-change f g id ids d.1 cid h)
]

pub open_count-snoc :
    (f : ℕ → Nf) (ids : List ℕ) (id : ℕ)
    → open_count f (ids ++ id ∷ []) ≡ open_count f ids + open_flag (f id).bk_flag
unfolding open_count
open_count-snoc f [] id = omega arith
open_count-snoc f (i ∷ ids) id = omega (arith, open_count-snoc f ids id)

pub open_count-erase :
    (f : ℕ → Nf) (ids : List ℕ) (id : ℕ)
    → contains id ids ≡ true
    → open_count f (erase id ids) + open_flag (f id).bk_flag ≡ open_count f ids
unfolding open_count
open_count-erase f [] id c = cc
open_count-erase f (i ∷ ids) id c = elim (Bool-cases (i == id)) [
  | inl e ↦ let e' : i ≡ id = ground arith in rw (e, e') (omega arith)
  | inr ne ↦
      rw ne (
        let h : contains id ids ≡ true = ground arith in omega (arith, open_count-erase f ids id h))
]

pub open_count-le : (f : ℕ → Nf) (ids : List ℕ) → open_count f ids ≤ length ids
unfolding open_count
open_count-le f [] = omega arith
open_count-le f (i ∷ ids) = ground (arith, open_count-le f ids)

pub contains-snoc :
    (i id : ℕ) (ids : List ℕ)
    → contains i (ids ++ id ∷ []) ≡ true
    → (contains i ids ≡ true) ⊎ (i ≡ id)
contains-snoc i id [] c = inr (ground arith)
contains-snoc i id (x ∷ ids) c = ground (arith, contains-snoc i id ids)

pub IsDistinct-snoc :
    (id : ℕ) (ids : List ℕ) → IsDistinct ids → contains id ids ≡ false → IsDistinct (ids ++ id ∷ [])
IsDistinct-snoc id [] d c = (refl, tt)
IsDistinct-snoc id (x ∷ ids) d c = (
  elim (Bool-cases (contains x (ids ++ id ∷ []))) [
    | inr out ↦ out
    | inl within ↦ elim (contains-snoc x id ids within) [
      | inl old ↦ absurd (false≢true (sym d.0 ∙ old))
      | inr e ↦ absurd (ground arith)
    ]
  ],
  IsDistinct-snoc id ids d.1 (ground arith),
)

pub contains-erase :
    (i id : ℕ) (ids : List ℕ) → contains i (erase id ids) ≡ true → contains i ids ≡ true
contains-erase i id [] c = c
contains-erase i id (x ∷ ids) c = ground (arith, contains-erase i id ids)

pub IsDistinct-erase : (id : ℕ) (ids : List ℕ) → IsDistinct ids → IsDistinct (erase id ids)
IsDistinct-erase id [] d = tt
IsDistinct-erase id (x ∷ ids) d = elim (Bool-cases (x == id)) [
  | inl e ↦ rw e d.1
  | inr ne ↦ rw ne (
    elim (Bool-cases (contains x (erase id ids))) [
      | inr out ↦ out
      | inl within ↦ absurd (false≢true (sym d.0 ∙ contains-erase x id ids within))
    ],
    IsDistinct-erase id ids d.1,
  )
]
