-- ===== src/NfMgr/Ids.antt =====
-- Instance numbers: what `d2sc_nf_next_inst_id` finds, and what `d2sc_nf_start` does with it.
use d2sc.Prelude.{
  ℕ, zero, suc, ◌+◌, ◌≤◌, ◌<◌, ◌≡◌, refl, sym, ap, ◌∙◌, subst, ◌≢◌, ◌⊎◌, inl, inr, true, false,
  some, arith, ltb, leb, ◌==◌, if◌then◌else◌, Bool-cases, update_ne,
}
use d2sc.Common.{
  max_nfs, waiting_for_id, starting, id_conflict, no_ids, Shared, running_at, nf_is_valid,
}
use d2sc.Messages.{nf_no_id}
use d2sc.NfMgr.{scan_ids, next_inst_id, nf_start, Code, success, failure, register, start_with}

-- The first number from `next_inst_id` on whose NF is not running, and the counter behind it.
pub record Found (sh : Shared) (r : ℕ × Shared) : Type 0 where
  pub in_range : r.0 < max_nfs
  pub from : sh.next_inst_id ≤ r.0
  pub unused : nf_is_valid sh r.0 ≡ false
  pub skipped : (j : ℕ) → sh.next_inst_id ≤ j → j < r.0 → nf_is_valid sh j ≡ true
  pub counter : r.1 ≡ record sh { next_inst_id = r.0 + 1 }

-- All numbers from `next_inst_id` on run; what is returned then is the last of them, if there is one.
pub record Exhausted (sh : Shared) (acc : ℕ) (r : ℕ × Shared) : Type 0 where
  pub all_run : (j : ℕ) → sh.next_inst_id ≤ j → j < max_nfs → nf_is_valid sh j ≡ true
  pub same_nfs : r.1.nfs ≡ sh.nfs
  pub same_infos : r.1.infos ≡ sh.infos
  pub last : r.0 ≡ (if ltb sh.next_inst_id max_nfs then 15 else acc)

abbrev advance : Shared → Shared
advance sh = record sh { next_inst_id = sh.next_inst_id + 1 }

Found-advance :
    (sh : Shared) (r : ℕ × Shared)
    → nf_is_valid sh sh.next_inst_id ≡ true
    → Found (advance sh) r
    → Found sh r
Found-advance sh r v f = record {
  in_range = f.in_range;
  from = let h = f.from in omega arith;
  unused = f.unused;
  skipped = λ j lo hi. elim (Bool-cases (sh.next_inst_id == j)) [
    | inl e ↦ let e' : sh.next_inst_id ≡ j = ground arith in ap (nf_is_valid sh) (sym e') ∙ v
    | inr ne ↦ f.skipped j (ground arith) hi
  ];
  counter = f.counter;
}

Exhausted-advance :
    (sh : Shared) (acc : ℕ) (r : ℕ × Shared)
    → sh.next_inst_id < max_nfs
    → nf_is_valid sh sh.next_inst_id ≡ true
    → Exhausted (advance sh) sh.next_inst_id r
    → Exhausted sh acc r
Exhausted-advance sh acc r l v x = record {
  all_run = λ j lo hi. elim (Bool-cases (sh.next_inst_id == j)) [
    | inl e ↦ let e' : sh.next_inst_id ≡ j = ground arith in ap (nf_is_valid sh) (sym e') ∙ v
    | inr ne ↦ x.all_run j (ground arith) hi
  ];
  same_nfs = x.same_nfs;
  same_infos = x.same_infos;
  last = let h = x.last in ground arith;
}

scan_ids-cases :
    (fuel : ℕ) (sh : Shared) (acc : ℕ)
    → max_nfs ≤ sh.next_inst_id + fuel
    → Found sh (scan_ids fuel sh acc) ⊎ Exhausted sh acc (scan_ids fuel sh acc)
unfolding scan_ids
scan_ids-cases zero sh acc h = inr (record {
  all_run = λ j lo hi. absurd (omega arith);
  same_nfs = refl;
  same_infos = refl;
  last = ground arith;
})
scan_ids-cases (suc fuel) sh acc h = elim (Bool-cases (ltb sh.next_inst_id max_nfs)) [
  | inr beyond ↦ rw beyond (
      inr (record {
        all_run = λ j lo hi. absurd (ground arith);
        same_nfs = refl;
        same_infos = refl;
        last = rw beyond;
      }))
  | inl within ↦ elim (Bool-cases (nf_is_valid sh sh.next_inst_id)) [
    | inr free ↦
        rw (within, free)
          (inl (record {
            in_range = ground arith;
            from = omega arith;
            unused = free;
            skipped = λ j lo hi. absurd (omega arith);
            counter = refl;
          }))
    | inl taken ↦
        rw (within, taken)
          (elim (scan_ids-cases fuel (advance sh) sh.next_inst_id (omega arith)) [
            | inl f ↦ inl (Found-advance sh _ taken f)
            | inr x ↦ inr (Exhausted-advance sh acc _ (ground arith) taken x)
          ])
  ]
]

-- `d2sc_nf_next_inst_id` returns the first number from the counter on whose NF does not run, with the
-- counter behind it; if all of them run it returns the last one, 15, and with the counter already at
-- the end 16.
pub next_inst_id-cases :
    (sh : Shared) → Found sh (next_inst_id sh) ⊎ Exhausted sh max_nfs (next_inst_id sh)
unfolding next_inst_id
next_inst_id-cases sh = scan_ids-cases max_nfs sh max_nfs (omega arith)

-- What a successful start has done: the description and the entry name each other, the entry was not
-- running, and no other entry is touched.
pub record Started (sh : Shared) (p id : ℕ) (sh' : Shared) : Type 0 where
  pub in_range : id < max_nfs
  pub unused : nf_is_valid sh id ≡ false
  pub status : (sh'.infos p).status ≡ starting
  pub info_id : (sh'.infos p).inst_id ≡ id
  pub entry : (sh'.nfs id).nf_info ≡ some p
  pub entry_id : (sh'.nfs id).inst_id ≡ id
  pub others : (j : ℕ) → id ≢ j → sh'.nfs j ≡ sh.nfs j
  pub infos : (q : ℕ) → p ≢ q → sh'.infos q ≡ sh.infos q

register-Started :
    (sh : Shared) (p id : ℕ)
    → id < max_nfs
    → nf_is_valid sh id ≡ false
    → Started sh p id (register sh p id)
register-Started sh p id l u = record {
  in_range = l;
  unused = u;
  status = ground arith;
  info_id = ground arith;
  entry = ground arith;
  entry_id = ground arith;
  others = λ j ne. update_ne sh.nfs id j _ ne;
  infos = λ q ne. update_ne sh.infos p q _ ne;
}

-- The three results of a start with a given number: started; refused as the number is in use; refused
-- as there is no such number. The NF reads the reason in its description's status.
abbrev pub StartOutcome : Shared → ℕ → ℕ → Code × Shared → Type 0
StartOutcome sh p id r =
    ((r.0 ≡ success) × Started sh p id r.1)
    ⊎ ((r.0 ≡ failure)
        × (id < max_nfs)
        × (nf_is_valid sh id ≡ true)
        × (r.1.nfs ≡ sh.nfs)
        × ((r.1.infos p).status ≡ id_conflict))
    ⊎ ((r.0 ≡ failure) × (max_nfs ≤ id) × (r.1.nfs ≡ sh.nfs) × ((r.1.infos p).status ≡ no_ids))

start_with-outcome : (sh : Shared) (p id : ℕ) → StartOutcome sh p id (start_with p (id, sh))
start_with-outcome sh p id = elim (Bool-cases (leb max_nfs id)) [
  | inl beyond ↦ rw beyond (inr (inr (refl, ground arith, refl, ground arith)))
  | inr within ↦ elim (Bool-cases (nf_is_valid sh id)) [
    | inl taken ↦ rw (within, taken) (inr (inl (refl, ground arith, refl, refl, ground arith)))
    | inr free ↦ rw (within, free) (inl (refl, register-Started sh p id (ground arith) free))
  ]
]

nf_start-own :
    (sh : Shared) (p id : ℕ)
    → (sh.infos p).status ≡ waiting_for_id
    → (sh.infos p).inst_id ≡ id
    → id ≢ nf_no_id
    → nf_start sh (some p) ≡ start_with p (id, sh)
unfolding nf_start
nf_start-own sh p id w e ne =
    let own : (sh.infos p).inst_id == nf_no_id ≡ false = ground arith in
    rw (w, own) (ap (λ k. start_with p (k, sh)) e)

-- An NF that asks for a number by itself is started under it if the number is below 16 and its NF is
-- not running; otherwise it is told of the conflict, or that there are no numbers, and no entry of the
-- NF table changes.
pub nf_start-chosen :
    (sh : Shared) (p id : ℕ)
    → (sh.infos p).status ≡ waiting_for_id
    → (sh.infos p).inst_id ≡ id
    → id ≢ nf_no_id
    → StartOutcome sh p id (nf_start sh (some p))
nf_start-chosen sh p id w e ne =
    subst (StartOutcome sh p id) (sym (nf_start-own sh p id w e ne)) (start_with-outcome sh p id)

-- A number that a running NF has is refused.
pub nf_start-taken :
    (sh : Shared) (p id : ℕ)
    → (sh.infos p).status ≡ waiting_for_id
    → (sh.infos p).inst_id ≡ id
    → id < max_nfs
    → nf_is_valid sh id ≡ true
    → ((nf_start sh (some p)).1.infos p).status ≡ id_conflict
nf_start-taken sh p id w e small taken =
    let within : leb max_nfs id ≡ false = ground arith in
    let started = nf_start-own sh p id w e (λ q. omega arith) in
    ap (λ (r : Code × Shared). (r.1.infos p).status) started ∙ rw (within, taken) (ground arith)

-- With all numbers in use the start is refused: the last one runs, or there is none.
refused_at :
    (sh : Shared) (p : ℕ) (r : ℕ × Shared) → Exhausted sh max_nfs r → (start_with p r).0 ≡ failure
refused_at sh p (id, sh') x =
    let same : running_at sh'.infos (sh'.nfs 15).nf_info ≡ running_at sh.infos (sh.nfs 15).nf_info =
      ap (λ n. running_at sh'.infos (n 15).nf_info) x.same_nfs
      ∙ ap (λ k. running_at k (sh.nfs 15).nf_info) x.same_infos in
    elim (Bool-cases (ltb sh.next_inst_id max_nfs)) [
      | inl within ↦
          let at : id ≡ 15 = x.last ∙ rw within refl in
          let runs : running_at sh'.infos (sh'.nfs 15).nf_info ≡ true =
            same ∙ x.all_run 15 (ground arith) (omega arith) in
          rw (at, runs)
      | inr beyond ↦ let at : id ≡ 16 = x.last ∙ rw beyond refl in rw at
    ]

-- An NF without a number of its own is started under the first number from the counter on whose NF is
-- not running, and the counter moves behind it. If all of them run it is refused.
pub nf_start-assigned :
    (sh : Shared) (p : ℕ)
    → (sh.infos p).status ≡ waiting_for_id
    → (sh.infos p).inst_id ≡ nf_no_id
    → ((id : ℕ) × ((nf_start sh (some p)).0 ≡ success)
        × (sh.next_inst_id ≤ id)
        × ((j : ℕ) → sh.next_inst_id ≤ j → j < id → nf_is_valid sh j ≡ true)
        × ((nf_start sh (some p)).1.next_inst_id ≡ id + 1)
        × Started (record sh { next_inst_id = id + 1 }) p id (nf_start sh (some p)).1)
      ⊎ (((nf_start sh (some p)).0 ≡ failure)
          × ((j : ℕ) → sh.next_inst_id ≤ j → j < max_nfs → nf_is_valid sh j ≡ true))
unfolding nf_start
nf_start-assigned sh p w e = rw (w, e) (assigned (next_inst_id sh) (next_inst_id-cases sh))
  where
    assigned :
        (r : ℕ × Shared)
        → Found sh r ⊎ Exhausted sh max_nfs r
        → ((id : ℕ) × ((start_with p r).0 ≡ success)
            × (sh.next_inst_id ≤ id)
            × ((j : ℕ) → sh.next_inst_id ≤ j → j < id → nf_is_valid sh j ≡ true)
            × ((start_with p r).1.next_inst_id ≡ id + 1)
            × Started (record sh { next_inst_id = id + 1 }) p id (start_with p r).1)
          ⊎ (((start_with p r).0 ≡ failure)
              × ((j : ℕ) → sh.next_inst_id ≤ j → j < max_nfs → nf_is_valid sh j ≡ true))
    assigned (id, sh') (inl f) =
        let within : leb max_nfs id ≡ false = let l = f.in_range in ground arith in
        let s1 : Shared = record sh { next_inst_id = id + 1 } in
        rw (f.counter, within, f.unused)
          (inl (id, refl, f.from, f.skipped, refl, register-Started s1 p id f.in_range f.unused))
    assigned (id, sh') (inr x) = inr (refused_at sh p (id, sh') x, x.all_run)

-- An NF that waits and is refused reads a reason in its description.
pub nf_start-refused :
    (sh : Shared) (p : ℕ)
    → (sh.infos p).status ≡ waiting_for_id
    → (nf_start sh (some p)).0 ≡ failure
    → (((nf_start sh (some p)).1.infos p).status ≡ id_conflict)
      ⊎ (((nf_start sh (some p)).1.infos p).status ≡ no_ids)
unfolding nf_start
nf_start-refused sh p w = rw w (
    refused_for
      (if (sh.infos p).inst_id == nf_no_id then next_inst_id sh else ((sh.infos p).inst_id, sh)))
  where
    refused_for :
        (r : ℕ × Shared)
        → (start_with p r).0 ≡ failure
        → (((start_with p r).1.infos p).status ≡ id_conflict)
          ⊎ (((start_with p r).1.infos p).status ≡ no_ids)
    refused_for (id, sh') fails = elim (start_with-outcome sh' p id) [
      | inl (wins, started) ↦ cc
      | inr (inl (f, l, v, n, told)) ↦ inl told
      | inr (inr (f, l, n, told)) ↦ inr told
    ]
