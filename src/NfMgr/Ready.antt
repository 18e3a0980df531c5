-- ===== src/NfMgr/Ready.antt =====
-- Registration: `d2sc_nf_ready`, and the change of one type's row in the registry.
use mathlib.Core.Bool.{false≢true}
use d2sc.Prelude.{
  ℕ, ◌<◌, ◌≡◌, refl, sym, ap, ◌∙◌, ◌≢◌, ◌⊎◌, inl, inr, true, false, some, List, [], ◌∷◌, ◌++◌,
  arith, ltb, ◌==◌, Bool-cases, add_u16, length, set, length-append, update, contains, IsDistinct,
  done,
}
use d2sc.Common.{max_nfs, max_nts, max_nfs_per_nt, starting, running, Shared}
use d2sc.NfMgr.{nf_ready, success, set_status}
use d2sc.NfMgr.Open.{
  open_flag, open_count, open_count-congr, open_count-snoc, open_count-le, contains-snoc,
  IsDistinct-snoc,
}
use d2sc.NfMgr.Registry.{Registry}
use d2sc.NfMgr.Row.{Row, set-Row, length-Row}

-- What a new list of instances for type `t` has to meet.
pub record NewRow (sh : Shared) (ids : ℕ → List ℕ) (t : ℕ) (new row : List ℕ) (num avail : ℕ)
    : Type 0 where
  pub known : t < max_nts
  pub holds : Row new row
  pub num_eq : num ≡ length new
  pub avail_eq : avail ≡ open_count sh.nfs new
  pub distinct : IsDistinct new
  pub members :
      (i : ℕ)
      → contains i new ≡ true
      → (contains i (ids t) ≡ true) ⊎ ((u : ℕ) → u < max_nts → contains i (ids u) ≡ false)

module _ (sh sh' : Shared) (ids : ℕ → List ℕ) (t : ℕ) (new row : List ℕ) (num avail : ℕ)
    (r : Registry sh ids) (n : NewRow sh ids t new row num avail) where
  owners : (u i : ℕ) → u < max_nts → t ≢ u → contains i new ≡ true → contains i (ids u) ≡ true → ⊥
  owners u i lu ne ci cu = elim (n.members i ci) [
    | inl old ↦ ne (r.apart t u i n.known lu old cu)
    | inr fresh ↦ false≢true (sym (fresh u lu) ∙ cu)
  ]

  apart_after :
      (u v i : ℕ)
      → u < max_nts
      → v < max_nts
      → contains i (update ids t new u) ≡ true
      → contains i (update ids t new v) ≡ true
      → u ≡ v
  apart_after u v i lu lv cu cv = elim (Bool-cases (t == u)) [
    | inl eu ↦ elim (Bool-cases (t == v)) [
      | inl ev ↦ ground arith
      | inr nv ↦
          let cu' = rw eu at cu in
          let cv' = rw nv at cv in absurd (owners v i lv (λ q. absurd (ground arith)) cu' cv')
    ]
    | inr nu ↦ elim (Bool-cases (t == v)) [
      | inl ev ↦
          let cu' = rw nu at cu in
          let cv' = rw ev at cv in absurd (owners u i lu (λ q. absurd (ground arith)) cv' cu')
      | inr nv ↦ let cu' = rw nu at cu in let cv' = rw nv at cv in r.apart u v i lu lv cu' cv'
    ]
  ]

  -- Replacing one type's row, number and count of available instances keeps the registry.
  pub row-Registry :
      sh'.nts ≡ update sh.nts t row
      → sh'.nfs_per_nt_num ≡ update sh.nfs_per_nt_num t num
      → sh'.nfs_per_nt_available ≡ update sh.nfs_per_nt_available t avail
      → ((i : ℕ) → (sh'.nfs i).bk_flag ≡ (sh.nfs i).bk_flag)
      → Registry sh' (update ids t new)
  row-Registry en em ea ef = record {
    rows = λ u lu.
        rw en (elim (Bool-cases (t == u)) [ inl e ↦ rw e n.holds | inr ne ↦ rw ne (r.rows u lu) ]);
    nums = λ u lu.
        rw em (elim (Bool-cases (t == u)) [ inl e ↦ rw e n.num_eq | inr ne ↦ rw ne (r.nums u lu) ]);
    available = λ u lu. rw ea (elim (Bool-cases (t == u)) [
      | inl e ↦ rw e (n.avail_eq ∙ sym (open_count-congr sh.nfs sh'.nfs new (λ i c. ef i)))
      | inr ne ↦
          rw ne (r.available u lu ∙ sym (open_count-congr sh.nfs sh'.nfs (ids u) (λ i c. ef i)))
    ]);
    distinct = λ u lu. elim (Bool-cases (t == u)) [
      | inl e ↦ rw e n.distinct
      | inr ne ↦ rw ne (r.distinct u lu)
    ];
    apart = apart_after;
  }

-- An NF that was started, is registered nowhere, and whose type has room.
pub record MayReady (sh : Shared) (ids : ℕ → List ℕ) (p id t : ℕ) : Type 0 where
  pub started : (sh.infos p).status ≡ starting
  pub has_id : (sh.infos p).inst_id ≡ id
  pub has_type : (sh.infos p).type_id ≡ t
  pub known : t < max_nts
  pub room : length (ids t) < max_nfs_per_nt
  pub usable_id : (0 < id) × (id < max_nfs)
  pub fresh : (u : ℕ) → u < max_nts → contains id (ids u) ≡ false
  pub not_blocked : open_flag (sh.nfs id).bk_flag ≡ 1

ready-NewRow :
    (sh : Shared) (ids : ℕ → List ℕ) (p id t : ℕ)
    → Registry sh ids
    → MayReady sh ids p id t
    → NewRow sh ids t
        (ids t ++ id ∷ [])
        (set (sh.nts t) (sh.nfs_per_nt_num t) id)
        (add_u16 (sh.nfs_per_nt_num t) 1)
        (add_u16 (sh.nfs_per_nt_available t) 1)
ready-NewRow sh ids p id t r m = record {
  known = m.known;
  holds =
      rw (r.nums t m.known) (set-Row (ids t) (sh.nts t) id (r.rows t m.known) m.room m.usable_id);
  num_eq = let l = m.room in omega (arith, r.nums t m.known, length-append (ids t) (id ∷ []));
  avail_eq =
      let l = m.room in
      let f = m.not_blocked in
      omega (
        arith,
        r.available t m.known,
        open_count-snoc sh.nfs (ids t) id,
        open_count-le sh.nfs (ids t),
      );
  distinct = IsDistinct-snoc id (ids t) (r.distinct t m.known) (m.fresh t m.known);
  members = λ i c. elim (contains-snoc i id (ids t) c) [
    | inl old ↦ inl old
    | inr e ↦ inr (λ u lu. ap (λ k. contains k (ids u)) e ∙ m.fresh u lu)
  ];
}

-- `d2sc_nf_ready`, for a started NF that is registered nowhere and not blocked, of a type with room:
-- it succeeds, the NF runs and is the last instance of its type's row, and the registry stays in step.
pub nf_ready-Registry :
    (sh : Shared) (ids : ℕ → List ℕ) (p id t : ℕ)
    → Registry sh ids
    → MayReady sh ids p id t
    → (sh' : Shared) × (nf_ready sh (some p) ≡ done (success, sh'))
      × Registry sh' (update ids t (ids t ++ id ∷ []))
      × ((sh'.infos p).status ≡ running)
unfolding nf_ready
nf_ready-Registry sh ids p id t r m = (
  after,
  rw (m.started, m.has_type, known, m.has_id, room) refl,
  row-Registry sh after ids t _ _ _ _ r (ready-NewRow sh ids p id t r m) refl refl refl (λ i. refl),
  ground arith,
)
  where
    after : Shared
    after = record (set_status sh p running) {
      nfs_per_nt_num = update sh.nfs_per_nt_num t (add_u16 (sh.nfs_per_nt_num t) 1);
      nfs_per_nt_available =
          update sh.nfs_per_nt_available t (add_u16 (sh.nfs_per_nt_available t) 1);
      nts = update sh.nts t (set (sh.nts t) (sh.nfs_per_nt_num t) id);
      num_nfs = add_u16 sh.num_nfs 1;
    }

    known : ltb t max_nts ≡ true
    known = let l = m.known in ground arith

    room : ltb (sh.nfs_per_nt_num t) (length (sh.nts t)) ≡ true
    room =
        let l = m.room in
        let n = r.nums t m.known in
        let len = length-Row (ids t) (sh.nts t) (r.rows t m.known) in ground arith
