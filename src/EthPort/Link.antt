-- ===== src/EthPort/Link.antt =====
-- The wait for the links ends, and the status of every port is printed once.
use d2sc.Prelude.{
  ℕ, zero, suc, ◌+◌, ◌-◌, ◌≤◌, ◌<◌, ◌≡◌, refl, subst, ◌⊎◌, inl, inr, Bool, true, false, ◌&&◌, List,
  [], ◌∷◌, map, arith, ltb, ◌==◌, Bool-cases, All, done,
}
use d2sc.EthPort.{
  LinkReport, all_up, print_links, check_links, check_all_ports_link_status, max_check_time,
}

-- Every port is up.
pub every : (ℕ → Bool) → List ℕ → Bool
every up [] = true
every up (id ∷ ids) = up id && every up ids

-- The port numbers can be shifted by.
abbrev pub Shiftable : List ℕ → Type 0
Shiftable ids = All (λ id. id < 32) ids

all_up-every : (up : ℕ → Bool) (ids : List ℕ) → Shiftable ids → all_up up ids ≡ done (every up ids)
unfolding all_up every
all_up-every up [] s = refl
all_up-every up (id ∷ ids) (l, s) =
    let fits : ltb id 32 ≡ true = ground arith in
    elim (Bool-cases (up id)) [
      | inl on ↦ rw (fits, on) (all_up-every up ids s)
      | inr off ↦ rw (fits, off) refl
    ]

print_links-eq-map :
    (up : ℕ → Bool) (ids : List ℕ)
    → Shiftable ids
    → print_links up ids ≡ done (map (λ id. (id, up id)) ids)
unfolding print_links
print_links-eq-map up [] s = refl
print_links-eq-map up (id ∷ ids) (l, s) =
    let fits : ltb id 32 ≡ true = ground arith in rw (fits, print_links-eq-map up ids s) refl

module _ (link : ℕ → ℕ → Bool) (ids : List ℕ) (s : Shiftable ids) where
  -- The check from round `n` on, with `delays` pauses behind it, looks for ports that are down for the
  -- last time in round `m`, and prints in the round after it.
  record Ends (n delays : ℕ) (r : LinkReport) (m : ℕ) : Type 0 where
    pub from : n ≤ m
    pub last : m < max_check_time
    pub printed : r.printed ≡ map (λ id. (id, link (m + 1) id)) ids
    pub before : (j : ℕ) → n ≤ j → j < m → every (link j) ids ≡ false
    pub why :
        ((every (link m) ids ≡ true) × (r.delays + n ≡ delays + m))
        ⊎ ((every (link m) ids ≡ false)
            × (m + 1 ≡ max_check_time)
            × (r.delays + n ≡ delays + m + 1))

  -- One more round in front, in which a port is down.
  earlier :
      (n delays : ℕ) (r : LinkReport) (m : ℕ)
      → every (link n) ids ≡ false
      → Ends (n + 1) (delays + 1) r m
      → Ends n delays r m
  earlier n delays r m down h = record {
    from = omega (arith, h.from);
    last = h.last;
    printed = h.printed;
    before = λ j lo hi. elim (Bool-cases (n == j)) [
      | inl here ↦ let q : n ≡ j = ground arith in subst (λ i. every (link i) ids ≡ false) q down
      | inr later ↦ h.before j (ground arith) hi
    ];
    why = elim h.why [
      | inl (up, d) ↦ inl (up, omega arith)
      | inr (off, l, d) ↦ inr (off, l, omega arith)
    ];
  }

  -- The round that prints ends the loop.
  shows :
      (left n : ℕ) (r : LinkReport)
      → check_links link ids (suc left) n true r
        ≡ done (record r { printed = map (λ id. (id, link n id)) ids })
  unfolding check_links
  shows left n r = rw (print_links-eq-map (link n) ids s) refl

  check_links-Ends :
      (left n : ℕ) (r : LinkReport)
      → left + n ≡ max_check_time + 1
      → n < max_check_time
      → (r' : LinkReport) × (m : ℕ) × (check_links link ids left n false r ≡ done r')
        × Ends n r.delays r' m
  unfolding check_links
  check_links-Ends zero n r e l = absurd (omega arith)
  check_links-Ends (suc zero) n r e l = absurd (omega arith)
  check_links-Ends (suc (suc left)) n r e l = elim (Bool-cases (every (link n) ids)) [
    | inl up ↦ (
      record r { printed = map (λ id. (id, link (n + 1) id)) ids },
      n,
      rw (check_links, all_up-every (link n) ids s, up) (shows left (n + 1) r),
      record {
        from = omega arith;
        last = l;
        printed = refl;
        before = λ j lo hi. absurd (omega arith);
        why = inl (up, refl);
      },
    )
    | inr down ↦
        let r1 : LinkReport = record r { delays = r.delays + 1 } in
        elim (Bool-cases (n == max_check_time - 1)) [
          | inl out ↦ (
            record r1 { printed = map (λ id. (id, link (n + 1) id)) ids },
            n,
            rw (check_links, all_up-every (link n) ids s, down, out) (shows left (n + 1) r1),
            record {
              from = omega arith;
              last = l;
              printed = refl;
              before = λ j lo hi. absurd (omega arith);
              why = inr (down, ground arith, omega arith);
            },
          )
          | inr more ↦
              let (r', m, runs, h) =
                check_links-Ends (suc left) (n + 1) r1 (omega arith) (ground arith) in
              (
                r',
                m,
                rw (check_links, all_up-every (link n) ids s, down, more) runs,
                earlier n r.delays r' m down h,
              )
        ]
  ]

  -- If the port numbers are below 32, the check of the links returns: after the first of the rounds 0 to
  -- 89 in which all ports are up, or after round 89, it prints the status of every port once and in
  -- order, as it is in the next round; it has paused once after each round in which a port was down,
  -- so at most 90 times.
  pub check_all_ports_link_status-prints :
      (r : LinkReport) × (m : ℕ) × (check_all_ports_link_status link ids ≡ done r)
      × (m < max_check_time)
      × (r.printed ≡ map (λ id. (id, link (m + 1) id)) ids)
      × ((j : ℕ) → j < m → every (link j) ids ≡ false)
      × (((every (link m) ids ≡ true) × (r.delays ≡ m))
          ⊎ ((every (link m) ids ≡ false) × (m + 1 ≡ max_check_time) × (r.delays ≡ max_check_time)))
  unfolding check_all_ports_link_status
  check_all_ports_link_status-prints =
      let (r, m, e, h) =
        check_links-Ends (max_check_time + 1) 0 (record { delays = 0; printed = [] }) refl
          (omega arith) in
      (
        r,
        m,
        e,
        h.last,
        h.printed,
        λ j l. h.before j (omega arith) l,
        elim h.why [
          | inl (up, d) ↦ inl (up, omega arith)
          | inr (off, l, d) ↦ inr (off, l, omega arith)
        ],
      )
