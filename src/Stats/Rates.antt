-- ===== src/Stats/Rates.antt =====
-- The display of the NFs' statistics: it returns when no counter has gone back and no rate is too large,
-- and leaves each running NF's load in its entry; after a counter has gone back it does not return.
use d2sc.Prelude.{
  ℕ, ◌+◌, ◌-◌, ◌/◌, ◌^◌, ◌≤◌, ◌<◌, ◌≡◌, refl, ap, ◌∙◌, subst, ◌≢◌, ◌⊎◌, inl, inr, true, false,
  Option, none, some, List, [], ◌∷◌, arith, ltb, ◌==◌, if◌then◌else◌, Bool-cases, update,
  update_self, update_ne, done,
}
use d2sc.Common.{NfInfo, Stats, Nf, Shared, running_at, nf_is_valid, set_nf}
use d2sc.Stats.{sub_u64, rate, Lasts, NfLine, nf_lasts, nf_line, show_nf, show_at, show_entry}

-- The packets received each second since the last display, in units of 100000.
abbrev pub load : ℕ → Nf → ℕ → ℕ
load stime nf last = ((nf.stats.rx - last) / stime) / 100000

-- An entry after a display, and the four counters that the display keeps of it.
abbrev pub loaded : ℕ → (ℕ → NfInfo) → Nf → ℕ → Nf
loaded stime infos nf last =
    if running_at infos nf.nf_info then record nf { pkt_rate = load stime nf last } else nf

abbrev pub Counters : Type 0
Counters = ℕ × ℕ × ℕ × ℕ

abbrev pub lasts_at : Lasts → ℕ → Counters
lasts_at l j = (l.rx j, l.tx j, l.rx_drop j, l.tx_drop j)

abbrev pub counters : Stats → Counters
counters st = (st.rx, st.tx, st.rx_drop, st.tx_drop)

abbrev pub counted : (ℕ → NfInfo) → Nf → Counters → Counters
counted infos nf last = if running_at infos nf.nf_info then counters nf.stats else last

-- If the NF runs, its counter has not gone back and its load fits into 16 bits.
pub record Measured (stime : ℕ) (infos : ℕ → NfInfo) (nf : Nf) (last : ℕ) : Type 0 where
  pub forward : running_at infos nf.nf_info ≡ true → last ≤ nf.stats.rx
  pub small : running_at infos nf.nf_info ≡ true → nf.stats.rx < 2 ^ 64
  pub fits : running_at infos nf.nf_info ≡ true → load stime nf last < 65536

-- What a display of the entries from `lo` to below `hi` does to the tables and the counters.
pub record Shown (stime : ℕ) (sh : Shared) (l : Lasts) (sh' : Shared) (l' : Lasts) (lo hi : ℕ)
    : Type 0 where
  pub within :
      (j : ℕ)
      → lo ≤ j
      → j < hi
      → (sh'.nfs j ≡ loaded stime sh.infos (sh.nfs j) (l.rx j))
        × (lasts_at l' j ≡ counted sh.infos (sh.nfs j) (lasts_at l j))
  pub outside : (j : ℕ) → j < lo ⊎ hi ≤ j → (sh'.nfs j ≡ sh.nfs j) × (lasts_at l' j ≡ lasts_at l j)
  pub rest : sh' ≡ record sh { nfs = sh'.nfs }

kept_at : (l : Lasts) (i : ℕ) (st : Stats) → lasts_at (nf_lasts l i st) i ≡ counters st
kept_at l i st =
    rw
      (
        update_self l.rx i st.rx,
        update_self l.tx i st.tx,
        update_self l.rx_drop i st.rx_drop,
        update_self l.tx_drop i st.tx_drop,
      )
      refl

kept_apart :
    (l : Lasts) (i j : ℕ) (st : Stats) → i ≢ j → lasts_at (nf_lasts l i st) j ≡ lasts_at l j
kept_apart l i j st ne =
    rw
      (
        update_ne l.rx i j st.rx ne,
        update_ne l.tx i j st.tx ne,
        update_ne l.rx_drop i j st.rx_drop ne,
        update_ne l.tx_drop i j st.tx_drop ne,
      )
      refl

rate-forward :
    (stime now last : ℕ)
    → 1 ≤ stime
    → last ≤ now
    → now < 2 ^ 64
    → rate stime now last ≡ done ((now - last) / stime)
unfolding rate
rate-forward stime now last pos le small =
    let nonzero : stime == 0 ≡ false = ground arith in
    let diff : sub_u64 now last ≡ now - last = omega arith in rw (nonzero, diff) refl

rate-done : (stime now last : ℕ) → 1 ≤ stime → rate stime now last ≡ done (sub_u64 now last / stime)
unfolding rate
rate-done stime now last pos = let nonzero : stime == 0 ≡ false = ground arith in rw nonzero refl

module _ (stime : ℕ) (pos : 1 ≤ stime) where
  running-described :
      (infos : ℕ → NfInfo) (o : Option ℕ) → running_at infos o ≡ true → (p : ℕ) × (o ≡ some p)
  running-described infos none h = cc
  running-described infos (some p) h = (p, refl)

  abbrev line_of : NfInfo → Stats → Lasts → ℕ → NfLine
  line_of info st l i =
      nf_line info st ((st.rx - l.rx i) / stime) (sub_u64 st.tx (l.tx i) / stime)
        (sub_u64 st.rx_drop (l.rx_drop i) / stime) (sub_u64 st.tx_drop (l.tx_drop i) / stime)

  abbrev marked : Shared → Lasts → ℕ → Nf
  marked sh l i = record (sh.nfs i) { pkt_rate = load stime (sh.nfs i) (l.rx i) }

  show_nf-done :
      (i : ℕ) (info : NfInfo) (sh : Shared) (l : Lasts)
      → l.rx i ≤ (sh.nfs i).stats.rx
      → (sh.nfs i).stats.rx < 2 ^ 64
      → load stime (sh.nfs i) (l.rx i) < 65536
      → show_nf stime i info sh l
        ≡ done (
          line_of info (sh.nfs i).stats l i ∷ [],
          set_nf sh i (marked sh l i),
          nf_lasts l i (sh.nfs i).stats,
        )
  unfolding show_nf
  show_nf-done i info sh l le small fits =
      let inside : ltb (load stime (sh.nfs i) (l.rx i)) 65536 ≡ true = ground arith in
      rw
        (
          rate-forward stime (sh.nfs i).stats.rx (l.rx i) pos le small,
          rate-done stime (sh.nfs i).stats.tx (l.tx i) pos,
          rate-done stime (sh.nfs i).stats.rx_drop (l.rx_drop i) pos,
          rate-done stime (sh.nfs i).stats.tx_drop (l.tx_drop i) pos,
          inside,
        )
        refl

  only : {i j : ℕ} → i ≤ j → j < i + 1 → i ≡ j
  only lo hi = omega arith

  apart : {i j : ℕ} → j < i ⊎ i + 1 ≤ j → i ≢ j
  apart (inl below) q = omega arith
  apart (inr above) q = omega arith

  marked-Shown :
      (i : ℕ) (sh : Shared) (l : Lasts)
      → nf_is_valid sh i ≡ true
      → Shown stime sh l (set_nf sh i (marked sh l i)) (nf_lasts l i (sh.nfs i).stats) i (i + 1)
  marked-Shown i sh l on = record {
    within = λ j lo hi.
        subst
          (λ k.
            (update sh.nfs i (marked sh l i) k ≡ loaded stime sh.infos (sh.nfs k) (l.rx k))
            × (lasts_at (nf_lasts l i (sh.nfs i).stats) k
                ≡ counted sh.infos (sh.nfs k) (lasts_at l k)))
          (only lo hi) (rw on (update_self sh.nfs i _), rw on (kept_at l i (sh.nfs i).stats));
    outside =
        λ j o. (update_ne sh.nfs i j _ (apart o), kept_apart l i j (sh.nfs i).stats (apart o));
    rest = refl;
  }

  skipped-Shown :
      (i : ℕ) (sh : Shared) (l : Lasts) → nf_is_valid sh i ≡ false → Shown stime sh l sh l i (i + 1)
  skipped-Shown i sh l off = record {
    within = λ j lo hi.
        subst
          (λ k.
            (sh.nfs k ≡ loaded stime sh.infos (sh.nfs k) (l.rx k))
            × (lasts_at l k ≡ counted sh.infos (sh.nfs k) (lasts_at l k)))
          (only lo hi) (rw off refl, rw off refl);
    outside = λ j o. (refl, refl);
    rest = refl;
  }

  pub show_entry-Shown :
      (i : ℕ) (sh : Shared) (l : Lasts)
      → Measured stime sh.infos (sh.nfs i) (l.rx i)
      → (ls : List NfLine) × (sh' : Shared) × (l' : Lasts) × (show_entry stime i sh l
          ≡ done (ls, sh', l'))
        × Shown stime sh l sh' l' i (i + 1)
  unfolding show_entry
  show_entry-Shown i sh l g = elim (Bool-cases (nf_is_valid sh i)) [
    | inl on ↦
        let (p, e) = running-described sh.infos (sh.nfs i).nf_info on in
        let runs = show_nf-done i (sh.infos p) sh l (g.forward on) (g.small on) (g.fits on) in
        (
          line_of (sh.infos p) (sh.nfs i).stats l i ∷ [],
          set_nf sh i (marked sh l i),
          nf_lasts l i (sh.nfs i).stats,
          rw on (ap (λ o. show_at o stime i sh l) e ∙ runs),
          marked-Shown i sh l on,
        )
    | inr off ↦ ([], sh, l, rw off refl, skipped-Shown i sh l off)
  ]
