-- ===== src/NtMap/Spec.antt =====
-- What `d2sc_sc_nt_to_nf_map` returns, for every state of the tables.
use mathlib.Core.Bool.{false≢true}
use d2sc.Prelude.{
  ℕ, suc, ◌+◌, ◌%◌, ◌<◌, ◌≡◌, sym, ap, ◌∙◌, ◌≢◌, ◌⊎◌, inl, inr, true, false, some, arith, ltb, ◌==◌,
  Bool-cases, get_elem?, done, hang,
}
use d2sc.Common.{max_nfs, max_nts, halted, Shared, is_halted}
use d2sc.NtMap.{usable, skip_blocked, pick, nt_to_nf_map}
use d2sc.NtMap.Search.{
  steps, First, skip_blocked-found, skip_blocked-none, First-usable, First-within, met_within_round,
  skip_blocked_mono, steps-lt, usable-open,
}

-- The row entry that the hash selects in a type that has instances.
pub record Picked (sh : Shared) (t rss id : ℕ) : Type 0 where
  pub known : t < max_nts
  pub some_nf : sh.nfs_per_nt_num t ≢ 0
  pub entry : get_elem? (sh.nts t) (rss % sh.nfs_per_nt_num t) ≡ some id
  pub in_range : id < max_nfs

nt_to_nf_map-pick :
    (sh : Shared) (t rss id : ℕ) → Picked sh t rss id → nt_to_nf_map sh t rss ≡ pick sh t id
unfolding nt_to_nf_map
nt_to_nf_map-pick sh t rss id p = elim (Bool-cases (sh.nfs_per_nt_num t == 0)) [
  | inl z ↦ absurd (p.some_nf (ground arith))
  | inr nz ↦
      let known : ltb t max_nts ≡ true = let k = p.known in ground arith in rw (known, nz, p.entry)
]

pick-halted :
    (sh : Shared) (t id : ℕ)
    → id < max_nfs
    → (sh.nfs id).bk_flag ≡ halted
    → pick sh t id ≡ skip_blocked max_nfs sh t id
pick-halted sh t id h e = let l : ltb id max_nfs ≡ true = ground arith in rw (l, e)

pick-open :
    (sh : Shared) (t id : ℕ) → id < max_nfs → (sh.nfs id).bk_flag ≢ halted → pick sh t id ≡ done id
pick-open sh t id h ne = ground arith

-- When the hash selects, from the row of a type that has instances, an instance below 16 that is not
-- blocked, that instance is returned.
pub nt_to_nf_map-unblocked :
    (sh : Shared) (t rss id : ℕ)
    → Picked sh t rss id
    → (sh.nfs id).bk_flag ≢ halted
    → nt_to_nf_map sh t rss ≡ done id
nt_to_nf_map-unblocked sh t rss id p ne =
    nt_to_nf_map-pick sh t rss id p ∙ pick-open sh t id p.in_range ne

-- When the instance that the hash selects from the row of a type that has instances is below 16 and
-- blocked, either some instance of the type runs unblocked, and the first such instance after the
-- selected one, going round, is returned; or none does, and the search never ends.
pub nt_to_nf_map-blocked :
    (sh : Shared) (t rss id : ℕ)
    → Picked sh t rss id
    → (sh.nfs id).bk_flag ≡ halted
    → ((k : ℕ) × (k < max_nfs)
        × First sh t id k
        × (nt_to_nf_map sh t rss ≡ done (steps (suc k) id)))
      ⊎ (((j : ℕ) → j < max_nfs → usable sh t j ≡ false) × (nt_to_nf_map sh t rss ≡ hang))
nt_to_nf_map-blocked sh t rss id p e =
    let enter = nt_to_nf_map-pick sh t rss id p ∙ pick-halted sh t id p.in_range e in
    elim (First-within max_nfs sh t id) [
      | inr (k, l, f) ↦ inl (k, l, f, enter ∙ skip_blocked-found max_nfs sh t id k l f)
      | inl misses ↦
          let none_usable : (j : ℕ) → j < max_nfs → usable sh t j ≡ false = λ j l.
            let (k, lk, ek) = met_within_round id j p.in_range l in
            ap (usable sh t) (sym ek) ∙ misses k lk in
          inr (none_usable, enter ∙ skip_blocked-none max_nfs sh t id p.in_range none_usable)
    ]

-- When the hash selects an instance below 16 from the row of a type that has instances, and one
-- instance of the type runs unblocked, the lookup returns an instance below 16 that is not blocked.
pub nt_to_nf_map-returns :
    (sh : Shared) (t rss id j : ℕ)
    → Picked sh t rss id
    → j < max_nfs
    → usable sh t j ≡ true
    → (r : ℕ) × (nt_to_nf_map sh t rss ≡ done r) × (r < max_nfs) × ((sh.nfs r).bk_flag ≢ halted)
nt_to_nf_map-returns sh t rss id j p lj u = elim (Bool-cases (is_halted (sh.nfs id).bk_flag)) [
  | inr off ↦
      let open_id : (sh.nfs id).bk_flag ≢ halted = λ e. false≢true (sym off ∙ ap is_halted e) in
      (id, nt_to_nf_map-unblocked sh t rss id p open_id, p.in_range, open_id)
  | inl on ↦
      let e : (sh.nfs id).bk_flag ≡ halted = ground arith in
      let (k, l, f) = First-usable sh t id j p.in_range lj u in
      (
        steps (suc k) id,
        nt_to_nf_map-pick sh t rss id p
            ∙ pick-halted sh t id p.in_range e
            ∙ skip_blocked-found max_nfs sh t id k l f,
        steps-lt (suc k) id p.in_range,
        usable-open sh t (steps (suc k) id) f.hit,
      )
]

-- From an instance below 16, an instance that any number of rounds of the search finds is found in
-- 16 rounds too.
pub skip_blocked_bound :
    (fuel : ℕ) (sh : Shared) (t id r : ℕ)
    → id < max_nfs
    → skip_blocked fuel sh t id ≡ done r
    → skip_blocked max_nfs sh t id ≡ done r
skip_blocked_bound fuel sh t id r h found = elim (First-within max_nfs sh t id) [
  | inr (k, l, f) ↦
      let short = skip_blocked-found max_nfs sh t id k l f in
      let long = skip_blocked_mono max_nfs fuel sh t id (steps (suc k) id) short in
      let swap : max_nfs + fuel ≡ fuel + max_nfs = omega arith in
      short
      ∙ sym long
      ∙ ap (λ n. skip_blocked n sh t id) swap
      ∙ skip_blocked_mono fuel max_nfs sh t id r found
  | inl misses ↦
      let none_usable : (j : ℕ) → j < max_nfs → usable sh t j ≡ false = λ j l.
        let (k, lk, ek) = met_within_round id j h l in ap (usable sh t) (sym ek) ∙ misses k lk in
      absurd (hang-ne-done (sym (skip_blocked-none fuel sh t id h none_usable) ∙ found))
]
  where
    hang-ne-done : hang ≢ done r
    hang-ne-done e = cc
