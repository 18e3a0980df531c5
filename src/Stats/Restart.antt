-- ===== src/Stats/Restart.antt =====
-- An NF whose counter has gone back since the last display, as that of an NF that has taken the number of a
-- stopped one.
use native.Mathlib.Nat.{le-div_iff_mul-le}
use d2sc.Prelude.{
  ℕ, zero, suc, ◌+◌, ◌-◌, ◌/◌, ◌^◌, ◌≤◌, ◌<◌, ◌≡◌, refl, subst, ◌≢◌, inl, inr, Bool, true, false,
  Option, none, some, List, [], ◌∷◌, arith, ltb, ◌==◌, if◌then◌else◌, Bool-cases, update_ne,
  Outcome, done, fault,
}
use d2sc.Common.{max_nfs, NfInfo, Nf, Shared, nf_is_valid, set_nf}
use d2sc.Stats.{
  sub_u64, rate, Lasts, NfLine, nf_line, nf_lasts, show_nf, show_at, show_entry, show_nfs,
  display_nfs,
}

-- The NF in entry `i` runs, and has received fewer packets than at the last display, by at most 2^63.
pub record GoneBack (sh : Shared) (l : Lasts) (i : ℕ) : Type 0 where
  pub runs : nf_is_valid sh i ≡ true
  pub below : (sh.nfs i).stats.rx < l.rx i
  pub near : l.rx i ≤ (sh.nfs i).stats.rx + 2 ^ 63
  pub small : l.rx i < 2 ^ 64

module _ (stime : ℕ) (short : stime ≤ 1000000) where
  huge-rate :
      (now last : ℕ)
      → 1 ≤ stime
      → now < last
      → last ≤ now + 2 ^ 63
      → last < 2 ^ 64
      → 6553600000 ≤ sub_u64 now last / stime
  huge-rate now last pos below near small =
      let wrapped : sub_u64 now last ≡ (now + 2 ^ 64) - last = omega arith in
      (le-div_iff_mul-le pos).1 (omega arith)

  show_nf-fault :
      (i : ℕ) (info : NfInfo) (sh : Shared) (l : Lasts)
      → GoneBack sh l i
      → show_nf stime i info sh l ≡ fault
  unfolding show_nf rate
  show_nf-fault i info sh l g = elim (Bool-cases (stime == 0)) [
    | inl never ↦ rw never refl
    | inr some_time ↦
        let pos : 1 ≤ stime = ground arith in
        let huge = huge-rate (sh.nfs i).stats.rx (l.rx i) pos g.below g.near g.small in
        let out : ltb ((sub_u64 (sh.nfs i).stats.rx (l.rx i) / stime) / 100000) 65536 ≡ false =
          ground arith in
        rw (some_time, out) refl
  ]

  show_entry-fault :
      (i : ℕ) (sh : Shared) (l : Lasts) → GoneBack sh l i → show_entry stime i sh l ≡ fault
  unfolding show_entry
  show_entry-fault i sh l g = rw g.runs (at (sh.nfs i).nf_info)
    where
      at : (o : Option ℕ) → show_at o stime i sh l ≡ fault
      at none = refl
      at (some p) = show_nf-fault i (sh.infos p) sh l g

  -- What a display of another entry leaves of this one.
  GoneBack-kept :
      (j i : ℕ) (sh : Shared) (l : Lasts) (nf : Nf) (lasts : Lasts)
      → j ≢ i
      → GoneBack sh l i
      → lasts.rx i ≡ l.rx i
      → GoneBack (set_nf sh j nf) lasts i
  GoneBack-kept j i sh l nf lasts ne g e =
      let q = update_ne sh.nfs j i nf ne in
      record {
        runs = rw q g.runs;
        below = rw (q, e) g.below;
        near = rw (q, e) g.near;
        small = rw e g.small;
      }

  -- A display of another entry faults or leaves this one as it is.
  data Passed (o : Outcome (List NfLine × Shared × Lasts)) (i : ℕ) : Type 0 where
    faults : o ≡ fault → Passed o i
    passes :
        (ls : List NfLine) (sh : Shared) (l : Lasts)
        → o ≡ done (ls, sh, l)
        → GoneBack sh l i
        → Passed o i

  show_nf-Passed :
      (j i : ℕ) (info : NfInfo) (sh : Shared) (l : Lasts)
      → j ≢ i
      → GoneBack sh l i
      → Passed (show_nf stime j info sh l) i
  unfolding show_nf rate
  show_nf-Passed j i info sh l ne g = elim (Bool-cases (stime == 0)) [
    | inl never ↦ faults (rw never refl)
    | inr some_time ↦
        let q = (sub_u64 (sh.nfs j).stats.rx (l.rx j) / stime) / 100000 in
        elim (Bool-cases (ltb q 65536)) [
          | inl fits ↦
              let st = (sh.nfs j).stats in
              passes
                (nf_line info st (sub_u64 st.rx (l.rx j) / stime) (sub_u64 st.tx (l.tx j) / stime)
                    (sub_u64 st.rx_drop (l.rx_drop j) / stime)
                    (sub_u64 st.tx_drop (l.tx_drop j) / stime)
                  ∷ [])
                (set_nf sh j (record (sh.nfs j) { pkt_rate = q })) (nf_lasts l j st)
                (rw (some_time, fits) refl)
                (GoneBack-kept j i sh l (record (sh.nfs j) { pkt_rate = q }) (nf_lasts l j st) ne g
                  (update_ne l.rx j i st.rx ne))
          | inr out ↦ faults (rw (some_time, out) refl)
        ]
  ]

  show_entry-Passed :
      (j i : ℕ) (sh : Shared) (l : Lasts)
      → j ≢ i
      → GoneBack sh l i
      → Passed (show_entry stime j sh l) i
  unfolding show_entry
  show_entry-Passed j i sh l ne g = by (nf_is_valid sh j) (sh.nfs j).nf_info
    where
      by :
          (b : Bool) (o : Option ℕ)
          → Passed (if b then show_at o stime j sh l else done ([], sh, l)) i
      by false o = passes [] sh l refl g
      by true none = faults refl
      by true (some p) = show_nf-Passed j i (sh.infos p) sh l ne g

  show_nfs-fault :
      (i n j : ℕ) (sh : Shared) (l : Lasts)
      → j ≤ i
      → i < j + n
      → GoneBack sh l i
      → show_nfs stime n j sh l ≡ fault
  unfolding show_nfs
  show_nfs-fault i zero j sh l lo hi g = absurd (omega arith)
  show_nfs-fault i (suc n) j sh l lo hi g = elim (Bool-cases (j == i)) [
    | inl here ↦
        let q : i ≡ j = ground arith in
        rw (show_entry-fault j sh l (subst (GoneBack sh l) q g)) refl
    | inr later ↦ elim (show_entry-Passed j i sh l (λ q. ground arith) g) [
      | faults e ↦ rw e refl
      | passes ls sh' l' e g' ↦
          rw (e, show_nfs-fault i n (j + 1) sh' l' (ground arith) (omega arith) g') refl
    ]
  ]

  -- If a running NF has received fewer packets than at the last display, as one that has taken a stopped
  -- one's number has, by at most 2^63, and the displays are at most 1000000 seconds apart, then the
  -- difference wraps around to a rate that no uint16_t holds, and the display is undefined.
  pub display_nfs-fault :
      (i : ℕ) (sh : Shared) (l : Lasts)
      → i < max_nfs
      → GoneBack sh l i
      → display_nfs stime sh l ≡ fault
  unfolding display_nfs
  display_nfs-fault i sh l le g = show_nfs-fault i max_nfs 0 sh l (omega arith) (omega arith) g
