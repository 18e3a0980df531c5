-- ===== src/Stats/Shows.antt =====
-- A whole display, and a round of the master thread: they return, and leave the registry in step.
use d2sc.Prelude.{
  ℕ, zero, suc, ◌+◌, ◌≤◌, ◌<◌, ◌≡◌, refl, sym, ap, ◌∙◌, subst, inl, inr, true, some, List, [], ◌++◌,
  arith, ltb, Bool-cases, done,
}
use d2sc.Common.{max_nfs, NfInfo, Nf, Shared, running_at}
use d2sc.PktHelper.{PortInfo}
use d2sc.Parse.{StatsOutput}
use d2sc.Messages.{MsgIo}
use d2sc.NfMgr.{Mgr, check_status}
use d2sc.NfMgr.Open.{open_count-congr}
use d2sc.NfMgr.Registry.{Registry}
use d2sc.Stats.{
  Lasts, NfLine, show_nfs, display_nfs, Stream, Screen, Display, clears, display_on, display_all,
  master_turn, displays,
}
use d2sc.Stats.Rates.{loaded, Counters, lasts_at, counted, Measured, Shown, show_entry-Shown}
use d2sc.Stats.Ports.{PortsFit, lines_from, port_heads-done, port_lines-prints}

rx_of : {x y : Counters} → x ≡ y → x.0 ≡ y.0
rx_of e = ap (λ (c : Counters). c.0) e

Shown-trans :
    (stime : ℕ) (sh sh1 sh' : Shared) (l l1 l' : Lasts) (lo mid hi : ℕ)
    → lo ≤ mid
    → mid ≤ hi
    → Shown stime sh l sh1 l1 lo mid
    → Shown stime sh1 l1 sh' l' mid hi
    → Shown stime sh l sh' l' lo hi
Shown-trans stime sh sh1 sh' l l1 l' lo mid hi le le' a b = record {
  within = λ j from to. elim (Bool-cases (ltb j mid)) [
    | inl first ↦
        let (nf, c) = a.within j from (ground arith) in
        let (nf', c') = b.outside j (inl (ground arith)) in (nf' ∙ nf, c' ∙ c)
    | inr later ↦
        let (nf, c) = a.outside j (inr (ground arith)) in
        let (nf', c') = b.within j (ground arith) to in
        let infos : sh1.infos ≡ sh.infos = ap (λ (x : Shared). x.infos) a.rest in
        (rw (sym infos, sym nf, sym (rx_of c)) nf', rw (sym infos, sym nf, sym c) c')
  ];
  outside = λ j o. elim o [
    | inl below ↦
        let (nf, c) = a.outside j (inl below) in
        let (nf', c') = b.outside j (inl (omega arith)) in (nf' ∙ nf, c' ∙ c)
    | inr above ↦
        let (nf, c) = a.outside j (inr (omega arith)) in
        let (nf', c') = b.outside j (inr above) in (nf' ∙ nf, c' ∙ c)
  ];
  rest = b.rest ∙ ap (λ (x : Shared). record x { nfs = sh'.nfs }) a.rest;
}

module _ (stime : ℕ) (pos : 1 ≤ stime) where
  -- All entries from `lo` to below `hi` can be measured.
  AllMeasured : Shared → Lasts → ℕ → ℕ → Type 0
  AllMeasured sh l lo hi = (j : ℕ) → lo ≤ j → j < hi → Measured stime sh.infos (sh.nfs j) (l.rx j)

  AllMeasured-kept :
      (sh sh1 : Shared) (l l1 : Lasts) (i hi : ℕ)
      → Shown stime sh l sh1 l1 i (i + 1)
      → AllMeasured sh l i hi
      → AllMeasured sh1 l1 (i + 1) hi
  unfolding AllMeasured
  AllMeasured-kept sh sh1 l l1 i hi a g j lo up =
      let (nf, c) = a.outside j (inr lo) in
      let infos : sh1.infos ≡ sh.infos = ap (λ (x : Shared). x.infos) a.rest in
      rw (infos, nf, rx_of c) (g j (omega arith) up)

  show_nfs-Shown :
      (n i : ℕ) (sh : Shared) (l : Lasts)
      → AllMeasured sh l i (i + n)
      → (ls : List NfLine) × (sh' : Shared) × (l' : Lasts) × (show_nfs stime n i sh l
          ≡ done (ls, sh', l'))
        × Shown stime sh l sh' l' i (i + n)
  unfolding show_nfs AllMeasured
  show_nfs-Shown zero i sh l g = (
    [],
    sh,
    l,
    refl,
    record { within = λ j lo hi. absurd (omega arith); outside = λ j o. (refl, refl); rest = refl },
  )
  show_nfs-Shown (suc n) i sh l g =
      let (ls, sh1, l1, e, a) =
        show_entry-Shown stime pos i sh l (g i (omega arith) (omega arith)) in
      let g1 =
        subst (AllMeasured sh1 l1 (i + 1)) (omega arith)
          (AllMeasured-kept sh sh1 l l1 i (i + suc n) a g) in
      let (ls', sh', l', e', b) = show_nfs-Shown n (i + 1) sh1 l1 g1 in
      (
        ls ++ ls',
        sh',
        l',
        rw (e, e') refl,
        subst (Shown stime sh l sh' l' i) (omega arith) (
            Shown-trans stime sh sh1 sh' l l1 l' i (i + 1) (i + 1 + n) (omega arith) (omega arith) a
              b),
      )

loaded-flag :
    (stime : ℕ) (infos : ℕ → NfInfo) (nf : Nf) (last : ℕ)
    → (loaded stime infos nf last).bk_flag ≡ nf.bk_flag
loaded-flag stime infos nf last = elim (Bool-cases (running_at infos nf.nf_info)) [
  | inl on ↦ rw on refl
  | inr off ↦ rw off refl
]

-- A display does not change what the registry speaks of.
Shown-Registry :
    (stime : ℕ) (sh sh' : Shared) (l l' : Lasts) (ids : ℕ → List ℕ)
    → Shown stime sh l sh' l' 0 max_nfs
    → Registry sh ids
    → Registry sh' ids
Shown-Registry stime sh sh' l l' ids a r =
    subst (λ x. Registry x ids) (sym a.rest)
      (record {
        rows = r.rows;
        nums = r.nums;
        available = λ t lt.
            r.available t lt ∙ sym (open_count-congr sh.nfs sh'.nfs (ids t) (λ j c. flag j));
        distinct = r.distinct;
        apart = r.apart;
      })
  where
    flag : (j : ℕ) → (sh'.nfs j).bk_flag ≡ (sh.nfs j).bk_flag
    flag j = elim (Bool-cases (ltb j max_nfs)) [
      | inl inside ↦
          let (nf, c) = a.within j (omega arith) (ground arith) in
          ap (λ (x : Nf). x.bk_flag) nf ∙ loaded-flag stime sh.infos (sh.nfs j) (l.rx j)
      | inr out ↦ let (nf, c) = a.outside j (inr (ground arith)) in ap (λ (x : Nf). x.bk_flag) nf
    ]

module _ (io : MsgIo) (mac : ℕ → List ℕ) (stime : ℕ) (ports : PortInfo) (fit : PortsFit ports)
    (pos : 1 ≤ stime) where
  -- If the messages leave the registry in step, output was asked for, ports and time are in order, and no
  -- running NF's counter has gone back or risen by too much for its load, then a round of the
  -- master thread returns: it prints each port's counters and rates, writes into each running NF's entry
  -- the packets received each second since the last display in units of 100000, rounded down,
  -- changes no other entry below 16, keeps for the next round the two counters of each port and the four
  -- of each running NF, and leaves the registry in step.
  pub master_turn-Registry :
      (dst : StatsOutput) (m m1 : Mgr io) (d : Display) (out : Stream) (ids : ℕ → List ℕ)
      → check_status io m ≡ done m1
      → Registry m1.shared ids
      → displays io dst ≡ true
      → d.stats_out ≡ some out
      → ((j : ℕ) → j < max_nfs → Measured stime m1.shared.infos (m1.shared.nfs j) (d.nf_lasts.rx j))
      → (s : Screen) × (m2 : Mgr io) × (d2 : Display) × (master_turn io dst mac stime ports m d
          ≡ done (some s, m2, d2))
        × Registry m2.shared ids
        × (s.ports ≡ lines_from ports stime d.port_lasts ports.n_ports 0)
        × ((j : ℕ)
            → j < max_nfs
            → (m2.shared.nfs j ≡ loaded stime m1.shared.infos (m1.shared.nfs j) (d.nf_lasts.rx j))
              × (lasts_at d2.nf_lasts j
                  ≡ counted m1.shared.infos (m1.shared.nfs j) (lasts_at d.nf_lasts j)))
        × ((j : ℕ)
            → j < ports.n_ports
            → (d2.port_lasts.rx j ≡ ports.rx (ports.id j))
              × (d2.port_lasts.tx j ≡ ports.tx (ports.id j)))
  unfolding master_turn display_all display_on display_nfs AllMeasured
  master_turn-Registry dst m m1 d out ids msgs r wanted stream g =
      let (heads, eh) =
        port_heads-done ports fit stime pos mac ports.n_ports 0 d.kept (omega arith) in
      let (pl, ep, kept) = port_lines-prints ports fit stime pos d.port_lasts in
      let (ls, sh', l', en, a) =
        show_nfs-Shown stime pos max_nfs 0 m1.shared d.nf_lasts (λ j lo hi. g j hi) in
      (
        record {
          cleared = clears out;
          heads = heads.0;
          ports = lines_from ports stime d.port_lasts ports.n_ports 0;
          nfs = ls;
        },
        record m1 { shared = sh' },
        record d { kept = heads.1; port_lasts = pl; nf_lasts = l' },
        rw (msgs, wanted, stream, eh, ep, en) refl,
        Shown-Registry stime m1.shared sh' d.nf_lasts l' ids a r,
        refl,
        λ j hi. a.within j (omega arith) hi,
        kept,
      )
