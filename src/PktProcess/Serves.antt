-- ===== src/PktProcess/Serves.antt =====
-- What lets a thread hand packets on without a fault: room in its buffers, well-formed chains, an open
-- instance for every type; flushes keep it.
use d2sc.Prelude.{
  ℕ, zero, suc, ◌+◌, ◌≤◌, ◌<◌, ◌≡◌, refl, ◌∙◌, subst, ◌≢◌, inl, inr, true, false, not, ◌||◌, Option,
  none, some, List, [], ◌∷◌, arith, ◌==◌, Bool-cases, length, update, All, done,
}
use d2sc.Common.{max_nfs, max_nts, pkt_rd_size, Stats, Shared, nf_is_valid, set_nf, Mbuf, set_meta}
use d2sc.Sc.{Sc, ScEntry}
use d2sc.Sc.Build.{Holds, hop_at, next-hop}
use d2sc.NtMap.Frame.{nt_to_nf_map-congr}
use d2sc.NtMap.{nt_to_nf_map}
use d2sc.FlowTable.{get_entry_lem}
use d2sc.Buffers.{PktIo, route_by}
use d2sc.PktProcess.{
  Dp, flushed, flush_nf_bq, flush_bqs_from, flush_if_full, pkt_drop, route, chain_of,
}

-- A chain whose hops all lead to known NF types.
abbrev pub Leads : Sc → Type 0
Leads sc = (hops : List ScEntry) × Holds sc hops × All (λ e. e.dst < max_nts) hops

-- Every type and hash is mapped to an instance, or to none.
abbrev pub Mapped : Shared → Type 0
Mapped sh = (t rss : ℕ) → t < max_nts → (i : ℕ) × (nt_to_nf_map sh t rss ≡ done i) × (i < max_nfs)

hop_at-dst :
    (hops : List ScEntry) (i : ℕ) → All (λ e. e.dst < max_nts) hops → (hop_at hops i).dst < max_nts
unfolding hop_at
hop_at-dst [] i h = omega arith
hop_at-dst (e ∷ es) zero h = h.0
hop_at-dst (e ∷ es) (suc i) h = hop_at-dst es i h.1

route_by-Leads :
    (sc : Sc) (p : Mbuf)
    → Leads sc
    → (p' : Mbuf) × (route_by sc p ≡ done p') × (p'.info.dst < max_nts)
route_by-Leads sc p (hops, h, known) =
    let (act, _) = next-hop sc hops p h in
    let hop = hop_at hops p.info.sc_index in
    let p1 = set_meta p (record p.info { act = hop.act }) in
    let (_, dst) = next-hop sc hops p1 h in
    (
      set_meta p1 (record p1.info { dst = hop.dst }),
      rw (act, dst) refl,
      hop_at-dst hops p.info.sc_index known,
    )

module _ (io : PktIo) where
  -- The thread's buffers have room for a packet each, and its chains and types lead somewhere.
  pub record Serves (s : Dp io) : Type 0 where
    pub room : (i : ℕ) → i < max_nfs → length (s.bq.rx_bufs i) < pkt_rd_size
    pub default_leads : Leads s.default_sc
    pub flows_lead : (i : ℕ) → Leads (io.flow_sc i)
    pub mapped : Mapped s.shared

  chain-Leads : (s : Dp io) (e : Option ℕ) → Serves s → Leads (chain_of io s e)
  chain-Leads s none v = v.default_leads
  chain-Leads s (some i) v = v.flows_lead i

  pub route-leads :
      (s : Dp io) (p : Mbuf)
      → Serves s
      → (p' : Mbuf) × (route io s p ≡ done p') × (p'.info.dst < max_nts)
  unfolding route
  route-leads s p v = rw (get_entry_lem io.hash_lookup p) (route_by-Leads _ p (chain-Leads s _ v))

  -- As `Serves`, but buffer `i` may be full.
  pub record Nearly (s : Dp io) (i : ℕ) : Type 0 where
    pub here : length (s.bq.rx_bufs i) ≤ pkt_rd_size
    pub others : (j : ℕ) → j < max_nfs → i ≢ j → length (s.bq.rx_bufs j) < pkt_rd_size
    pub default_leads : Leads s.default_sc
    pub flows_lead : (i : ℕ) → Leads (io.flow_sc i)
    pub mapped : Mapped s.shared

  pub Mapped-stats :
      (sh : Shared) (i : ℕ) (st : Stats)
      → Mapped sh
      → Mapped (set_nf sh i (record (sh.nfs i) { stats = st }))
  Mapped-stats sh i st m t rss l =
      let (r, e, lr) = m t rss l in
      (
        r,
        nt_to_nf_map-congr sh (update sh.nfs i (record (sh.nfs i) { stats = st }))
              (λ j. ground arith) (λ j. ground arith) t rss
            ∙ e,
        lr,
      )

  emptied :
      (s : Dp io) (i j : ℕ)
      → Nearly s i
      → j < max_nfs
      → length (update s.bq.rx_bufs i [] j) < pkt_rd_size
  emptied s i j n l = elim (Bool-cases (i == j)) [
    | inl same ↦ rw same (omega arith)
    | inr other ↦ rw other (n.others j l (λ q. absurd (ground arith)))
  ]

  flushed-Serves :
      (s : Dp io) (i : ℕ) (buf : List Mbuf) (o : Option io.Ring)
      → Nearly s i
      → Serves (flushed io s i buf o)
  flushed-Serves s i buf none n = record {
    room = λ j l. emptied s i j n l;
    default_leads = n.default_leads;
    flows_lead = n.flows_lead;
    mapped = Mapped-stats s.shared i _ n.mapped;
  }
  flushed-Serves s i buf (some r) n = record {
    room = λ j l. emptied s i j n l;
    default_leads = n.default_leads;
    flows_lead = n.flows_lead;
    mapped = Mapped-stats s.shared i _ n.mapped;
  }

  Serves-Nearly : (s : Dp io) (i : ℕ) → i < max_nfs → Serves s → Nearly s i
  Serves-Nearly s i l v = record {
    here = let r = v.room i l in omega arith;
    others = λ j lj ne. v.room j lj;
    default_leads = v.default_leads;
    flows_lead = v.flows_lead;
    mapped = v.mapped;
  }

  flush_nf_bq-Serves : (s : Dp io) (i : ℕ) → i < max_nfs → Serves s → Serves (flush_nf_bq io s i)
  unfolding flush_nf_bq
  flush_nf_bq-Serves s i l v =
      elim (Bool-cases ((length (s.bq.rx_bufs i) == 0) || not (nf_is_valid s.shared i))) [
        | inl skip ↦ rw skip v
        | inr go ↦ rw go (flushed-Serves s i _ _ (Serves-Nearly s i l v))
      ]

  pub flush_bqs_from-Serves :
      (n i : ℕ) (s : Dp io) → i + n ≤ max_nfs → Serves s → Serves (flush_bqs_from io n i s)
  unfolding flush_bqs_from
  flush_bqs_from-Serves zero i s l v = v
  flush_bqs_from-Serves (suc n) i s l v =
      flush_bqs_from-Serves n (i + 1) (flush_nf_bq io s i) (omega arith)
        (flush_nf_bq-Serves s i (omega arith) v)

  pub flush_if_full-Serves :
      (s : Dp io) (i : ℕ)
      → Nearly s i
      → nf_is_valid s.shared i ≡ true
      → Serves (flush_if_full io s i)
  unfolding flush_nf_bq
  flush_if_full-Serves s i n valid = elim (Bool-cases (length (s.bq.rx_bufs i) == pkt_rd_size)) [
    | inl full ↦
        let go : (length (s.bq.rx_bufs i) == 0) || not (nf_is_valid s.shared i) ≡ false =
          (let nz : length (s.bq.rx_bufs i) == 0 ≡ false = ground arith in rw (nz, valid) refl) in
        rw (full, go) (flushed-Serves s i _ _ n)
    | inr short ↦ rw short (record {
      room = λ j l. elim (Bool-cases (i == j)) [
        | inl same ↦
            let q : i ≡ j = ground arith in
            let lt : length (s.bq.rx_bufs i) < pkt_rd_size = (let h = n.here in ground arith) in
            subst (λ k. length (s.bq.rx_bufs k) < pkt_rd_size) q lt
        | inr other ↦ n.others j l (λ q. absurd (ground arith))
      ];
      default_leads = n.default_leads;
      flows_lead = n.flows_lead;
      mapped = n.mapped;
    })
  ]

  pub dropped-Serves : (s : Dp io) (p : Mbuf) → Serves s → Serves (pkt_drop io s p).1
  dropped-Serves s p v = record {
    room = v.room;
    default_leads = v.default_leads;
    flows_lead = v.flows_lead;
    mapped = v.mapped;
  }
