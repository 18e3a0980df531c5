-- ===== src/Prelude/Arrays.antt =====
-- C arrays as functions of the index, their updates, and sums over an index range.
use Prim.Native.Nat.{ℕ, zero, suc, ◌+◌, ◌<◌}
use mathlib.Core.Path.{◌≡◌, refl, ap, ◌∙◌}
use mathlib.Core.Logic.{◌≢◌, inl, inr}
use native.Mathlib.Omega.{arith}
use d2sc.Prelude.Tests.{◌==◌, if◌then◌else◌, Bool-cases}

module _ {ℓ} {A : Type ℓ} where
  abbrev pub update : (ℕ → A) → ℕ → A → ℕ → A
  update f i v j = if i == j then v else f j

  pub update_self : (f : ℕ → A) (i : ℕ) (v : A) → update f i v i ≡ v
  update_self f i v = ground arith

  pub update_ne : (f : ℕ → A) (i j : ℕ) (v : A) → i ≢ j → update f i v j ≡ f j
  update_ne f i j v h = ground arith

-- f 0 + … + f (n - 1)
pub sum_below : ℕ → (ℕ → ℕ) → ℕ
sum_below zero f = 0
sum_below (suc n) f = f n + sum_below n f

pub sum_below-congr :
    (n : ℕ) (f g : ℕ → ℕ) → ((i : ℕ) → i < n → f i ≡ g i) → sum_below n f ≡ sum_below n g
unfolding sum_below
sum_below-congr zero f g h = refl
sum_below-congr (suc n) f g h =
    omega (arith, h n (omega arith), sum_below-congr n f g (λ i l. h i (omega arith)))

-- Two families that differ at one index in range differ by that term.
pub sum_below-change :
    (n i : ℕ) (f g : ℕ → ℕ)
    → i < n
    → ((j : ℕ) → i ≢ j → g j ≡ f j)
    → sum_below n g + f i ≡ sum_below n f + g i
unfolding sum_below
sum_below-change zero i f g l h = elim l [ ]
sum_below-change (suc n) i f g l h = elim (Bool-cases (i == n)) [
  | inl e ↦
      let e' : i ≡ n = ground arith in
      let same = sum_below-congr n g f (λ j p. h j (λ q. absurd (omega arith))) in
      omega (arith, same, ap_at f i n e', ap_at g i n e')
  | inr ne ↦
      let apart : i ≢ n = λ q. ground arith in
      let lt : i < n = omega arith in omega (arith, h n apart, sum_below-change n i f g lt h)
]
  where
    ap_at : (k : ℕ → ℕ) (a b : ℕ) → a ≡ b → k a ≡ k b
    ap_at k a b e = rw e

-- The sum of a measure over an array after a write in range.
pub sum_below-update {ℓ} :
    {A : Type ℓ} (n i : ℕ) (k : A → ℕ) (f : ℕ → A) (v : A)
    → i < n
    → sum_below n (λ j. k (update f i v j)) + k (f i) ≡ sum_below n (λ j. k (f j)) + k v
sum_below-update n i k f v l =
    sum_below-change n i (λ j. k (f j)) (λ j. k (update f i v j)) l
      (λ j ne. ap k (update_ne f i j v ne))
    ∙ ap (λ x. sum_below n (λ j. k (f j)) + k x) (update_self f i v)
