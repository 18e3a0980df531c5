-- ===== src/NtMap/Search.antt =====
-- The search for an unblocked instance ends within one round over the instances, or never.
use d2sc.Prelude.{
  ℕ, zero, suc, ◌+◌, ◌-◌, ◌%◌, ◌<◌, ◌≡◌, refl, sym, ap, ◌∙◌, ◌≢◌, ◌⊎◌, inl, inr, true, false, arith,
  ◌==◌, Bool-cases, done, hang,
}
use native.Mathlib.Nat.{suc-add}
use mathlib.Core.Bool.{false≢true}
use d2sc.Common.{max_nfs, halted, Shared}
use d2sc.NtMap.{usable, next_id, skip_blocked}

-- `k` steps round the instances.
pub steps : ℕ → ℕ → ℕ
steps zero id = id
steps (suc k) id = steps k (next_id id)

pub steps-lt : (k id : ℕ) → id < max_nfs → steps k id < max_nfs
unfolding steps next_id
steps-lt zero id h = h
steps-lt (suc k) id h = steps-lt k (next_id id) (ground arith)

steps_closed : (k id : ℕ) → id < max_nfs → steps k id ≡ (id + k) % max_nfs
unfolding steps next_id
steps_closed zero id h = omega arith
steps_closed (suc k) id h = ground (arith, steps_closed k (next_id id))

-- The loop returns the first usable instance after `id`, going round, when one is met in its rounds.
pub record First (sh : Shared) (t id k : ℕ) : Type 0 where
  pub hit : usable sh t (steps (suc k) id) ≡ true
  pub earlier : (j : ℕ) → j < k → usable sh t (steps (suc j) id) ≡ false

pub skip_blocked-found :
    (fuel : ℕ) (sh : Shared) (t id k : ℕ)
    → k < fuel
    → First sh t id k
    → skip_blocked fuel sh t id ≡ done (steps (suc k) id)
unfolding skip_blocked steps
skip_blocked-found zero sh t id k h f = elim h [ ]
skip_blocked-found (suc fuel) sh t id zero h f = rw f.hit
skip_blocked-found (suc fuel) sh t id (suc k) h f = rw (f.earlier 0 (omega arith)) (
    skip_blocked-found fuel sh t (next_id id) k (omega arith)
      (record { hit = f.hit; earlier = λ j l. f.earlier (suc j) (omega arith) }))

-- With no usable instance the loop goes on for ever.
pub skip_blocked-none :
    (fuel : ℕ) (sh : Shared) (t id : ℕ)
    → id < max_nfs
    → ((j : ℕ) → j < max_nfs → usable sh t j ≡ false)
    → skip_blocked fuel sh t id ≡ hang
unfolding skip_blocked
skip_blocked-none zero sh t id h none_usable = refl
skip_blocked-none (suc fuel) sh t id h none_usable =
    let l : next_id id < max_nfs = unfold next_id in ground arith in
    rw (none_usable (next_id id) l) (skip_blocked-none fuel sh t (next_id id) l none_usable)

-- The least step at which a usable instance stands, if there is one within `n` steps.
pub First-within :
    (n : ℕ) (sh : Shared) (t id : ℕ)
    → ((j : ℕ) → j < n → usable sh t (steps (suc j) id) ≡ false)
      ⊎ ((k : ℕ) × (k < n) × First sh t id k)
First-within zero sh t id = inl (λ j l. elim l [ ])
First-within (suc n) sh t id = elim (First-within n sh t id) [
  | inr (k, l, f) ↦ inr (k, omega arith, f)
  | inl misses ↦ elim (Bool-cases (usable sh t (steps (suc n) id))) [
    | inl hit ↦ inr (n, omega arith, record { hit = hit; earlier = misses })
    | inr miss ↦ inl (λ j l. elim (Bool-cases (j == n)) [
      | inl e ↦ let e' : j ≡ n = ground arith in rw e' miss
      | inr ne ↦ misses j (ground arith)
    ])
  ]
]

-- Every instance is met within one round.
pub met_within_round :
    (id j : ℕ) → id < max_nfs → j < max_nfs → (k : ℕ) × (k < max_nfs) × (steps (suc k) id ≡ j)
met_within_round id j hi hj =
    ((j + 15 - id) % 16, omega arith, omega (arith, steps_closed (suc ((j + 15 - id) % 16)) id hi))

pub First-usable :
    (sh : Shared) (t id j : ℕ)
    → id < max_nfs
    → j < max_nfs
    → usable sh t j ≡ true
    → (k : ℕ) × (k < max_nfs) × First sh t id k
First-usable sh t id j hi hj u = elim (First-within max_nfs sh t id) [
  | inr found ↦ found
  | inl misses ↦
      let (k, l, e) = met_within_round id j hi hj in
      absurd (false≢true (sym (misses k l) ∙ ap (usable sh t) e ∙ u))
]

-- More rounds do not change what the loop returns.
pub skip_blocked_mono :
    (fuel more : ℕ) (sh : Shared) (t id r : ℕ)
    → skip_blocked fuel sh t id ≡ done r
    → skip_blocked (fuel + more) sh t id ≡ done r
unfolding skip_blocked
skip_blocked_mono zero more sh t id r h = cc
skip_blocked_mono (suc fuel) more sh t id r h =
    rw suc-add (ground (arith, skip_blocked_mono fuel more sh t (next_id id) r))

pub usable-open : (sh : Shared) (t i : ℕ) → usable sh t i ≡ true → (sh.nfs i).bk_flag ≢ halted
unfolding usable
usable-open sh t i h e = ground arith
