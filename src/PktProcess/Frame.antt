-- ===== src/PktProcess/Frame.antt =====
-- What no packet operation changes: the default chain, the number of ports and the kind of the queue.
use d2sc.Prelude.{
  ℕ, ◌≡◌, refl, ◌∙◌, subst, inl, inr, not, ◌||◌, Option, none, some, List, [], ◌∷◌, ◌++◌, arith,
  leb, ◌==◌, Bool-cases, length, done, >>=-eq-done,
}
use d2sc.Common.{pkt_rd_size, act_drop, act_tonf, act_out, Stats, nf_is_valid, Mbuf}
use d2sc.NtMap.{nt_to_nf_map}
use d2sc.Buffers.{
  PktIo, TxPart, null, tx_thread, tx_buf, set_port_buf, port_bufs, put, out_buf, bump_index,
  count_tonf, count_out, count_next, count_drops,
}
use d2sc.PktProcess.{
  Dp, flushed, flush_nf_bq, port_flushed, flush_port, flush_port_bq, port_put, enqueue_to,
  enqueue_bq, enqueue_port, flush_if_full, set_rx_buf, set_tx, enqueue_tx_ring, tx_ring_done,
  out_full, out_by_owner, next_by_act, process_next_act, tx_one, next, route, with_stats, pkt_drop,
  stamp,
}

module _ (io : PktIo) where
  pub record Same (s s' : Dp io) : Type 0 where
    pub chain : s'.default_sc ≡ s.default_sc
    pub n_ports : s'.ports.n_ports ≡ s.ports.n_ports
    pub owner : s'.bq.mgr_nf ≡ s.bq.mgr_nf
    pub ids : (j : ℕ) → (s'.shared.nfs j).inst_id ≡ (s.shared.nfs j).inst_id

  pub Same-refl : (s : Dp io) → Same s s
  Same-refl s = record { chain = refl; n_ports = refl; owner = refl; ids = λ j. refl }

  pub with_stats-Same : (s : Dp io) (i : ℕ) (f : Stats → Stats) → Same s (with_stats io s i f)
  with_stats-Same s i f = record {
    chain = refl;
    n_ports = refl;
    owner = refl;
    ids = λ j. ground arith;
  }

  pub Same-trans : {s t u : Dp io} → Same s t → Same t u → Same s u
  Same-trans p q = record {
    chain = q.chain ∙ p.chain;
    n_ports = q.n_ports ∙ p.n_ports;
    owner = q.owner ∙ p.owner;
    ids = λ j. q.ids j ∙ p.ids j;
  }

  flushed-Same :
      (s : Dp io) (i : ℕ) (buf : List Mbuf) (o : Option io.Ring) → Same s (flushed io s i buf o)
  flushed-Same s i buf none = record {
    chain = refl;
    n_ports = refl;
    owner = refl;
    ids = λ j. ground arith;
  }
  flushed-Same s i buf (some r) = record {
    chain = refl;
    n_ports = refl;
    owner = refl;
    ids = λ j. ground arith;
  }

  pub flush_nf_bq-Same : (s : Dp io) (i : ℕ) → Same s (flush_nf_bq io s i)
  unfolding flush_nf_bq
  flush_nf_bq-Same s i =
      elim (Bool-cases ((length (s.bq.rx_bufs i) == 0) || not (nf_is_valid s.shared i))) [
        | inl skip ↦ rw skip (Same-refl s)
        | inr go ↦ rw go (flushed-Same s i _ _)
      ]

  flush_if_full-Same : (s : Dp io) (i : ℕ) → Same s (flush_if_full io s i)
  flush_if_full-Same s i = elim (Bool-cases (length (s.bq.rx_bufs i) == pkt_rd_size)) [
    | inl full ↦ rw full (flush_nf_bq-Same s i)
    | inr room ↦ rw room (Same-refl s)
  ]

  enqueue_to-Same : (s s' : Dp io) (p : Mbuf) (i : ℕ) → enqueue_to io s p i ≡ done s' → Same s s'
  enqueue_to-Same s s' p i h =
      ground (arith, flush_if_full-Same (set_rx_buf io s i (s.bq.rx_bufs i ++ p ∷ [])) i)

  pub enqueue_bq-Same :
      (s s' : Dp io) (t : ℕ) (p : Mbuf) → enqueue_bq io s t p ≡ done s' → Same s s'
  unfolding enqueue_bq
  enqueue_bq-Same s s' t p h =
      let (i, e, h2) = >>=-eq-done (nt_to_nf_map s.shared t p.rss) (enqueue_to io s p) h in
      enqueue_to-Same s s' p i h2

  port_flushed-Same :
      (s : Dp io) (i : ℕ) (buf : List Mbuf) (r : ℕ × io.Nic) → Same s (port_flushed io s i buf r)
  port_flushed-Same s i buf (nb, nic) = record {
    chain = refl;
    n_ports = refl;
    owner = refl;
    ids = λ j. refl;
  }

  flush_port-Same :
      (s s' : Dp io) (i : ℕ) (bufs : ℕ → List Mbuf) → flush_port io s i bufs ≡ done s' → Same s s'
  flush_port-Same s s' i bufs h =
      ground (arith, port_flushed-Same s i (bufs i) (io.tx_burst s.nic i s.bq.id (bufs i)))

  pub flush_port_bq-Same : (s s' : Dp io) (i : ℕ) → flush_port_bq io s i ≡ done s' → Same s s'
  unfolding flush_port_bq
  flush_port_bq-Same s s' i h = elim (Bool-cases (s.bq.mgr_nf == 1)) [
    | inl mgr ↦
        let h' = rw mgr at h in
        let (bufs, e, h2) = >>=-eq-done (port_bufs s.bq.tx) (flush_port io s i) h' in
        flush_port-Same s s' i bufs h2
    | inr other ↦ ground arith
  ]

  port_put-Same :
      (s s' : Dp io) (i : ℕ) (p : Mbuf) (bufs : ℕ → List Mbuf)
      → port_put io s i p bufs ≡ done s'
      → Same s s'
  port_put-Same s s' i p bufs h =
      ground
        (arith, flush_port_bq-Same (set_tx io s (set_port_buf s.bq.tx i (bufs i ++ p ∷ []))) s' i)

  pub enqueue_port-Same :
      (s s' : Dp io) (i : ℕ) (p : Mbuf) → enqueue_port io s i p ≡ done s' → Same s s'
  unfolding enqueue_port
  enqueue_port-Same s s' i p h = elim (Bool-cases (leb s.ports.n_ports i)) [
    | inl none_such ↦ ground arith
    | inr within ↦
        let h' = rw within at h in
        let (bufs, e, h2) = >>=-eq-done (port_bufs s.bq.tx) (port_put io s i p) h' in
        port_put-Same s s' i p bufs h2
  ]

  pub enqueue_tx_ring-Same :
      (s : Dp io) (buf : List Mbuf) (i : ℕ) → Same s (enqueue_tx_ring io s buf i)
  unfolding enqueue_tx_ring
  enqueue_tx_ring-Same s buf i = elim (Bool-cases (length buf == 0)) [
    | inl empty ↦ rw empty (Same-refl s)
    | inr some_pkts ↦ rw some_pkts (tx_ring_done-Same s i buf _)
  ]
    where
      tx_ring_done-Same :
          (t : Dp io) (k : ℕ) (b : List Mbuf) (o : Option io.Ring)
          → Same t (tx_ring_done io t k b o)
      tx_ring_done-Same t k b none = record {
        chain = refl;
        n_ports = refl;
        owner = refl;
        ids = λ j. ground arith;
      }
      tx_ring_done-Same t k b (some r) = record {
        chain = refl;
        n_ports = refl;
        owner = refl;
        ids = λ j. ground arith;
      }

  drop_counted-Same :
      (s : Dp io) (i : ℕ) (p : Mbuf) → Same s (with_stats io (pkt_drop io s p).1 i (count_drops 0))
  drop_counted-Same s i p = record {
    chain = refl;
    n_ports = refl;
    owner = refl;
    ids = λ j. ground arith;
  }

  next_by_act-Same : (s s' : Dp io) (p : Mbuf) (i : ℕ) → next_by_act io s p i ≡ done s' → Same s s'
  next_by_act-Same s s' p i h = elim (Bool-cases (p.info.act == act_drop)) [
    | inl dropped ↦
        let h1 = rw dropped at h in
        let e : with_stats io (pkt_drop io s (bump_index p)).1 i (count_drops 0) ≡ s' =
          ground arith in
        subst (Same s) e (drop_counted-Same s i (bump_index p))
    | inr keep ↦
        let h1 = rw keep at h in
        elim (Bool-cases (p.info.act == act_tonf)) [
          | inl tonf ↦
              let h2 = rw tonf at h1 in
              Same-trans (with_stats-Same s i count_tonf)
                (enqueue_bq-Same _ s' p.info.dst (bump_index p) h2)
          | inr other ↦
              let h2 = rw other at h1 in
              elim (Bool-cases (p.info.act == act_out)) [
                | inl out ↦
                    let h3 = rw out at h2 in
                    Same-trans (with_stats-Same s i count_out)
                      (enqueue_port-Same _ s' p.info.dst (bump_index p) h3)
                | inr left ↦
                    let h3 = rw left at h2 in
                    let e : s ≡ s' = ground arith in subst (Same s) e (Same-refl s)
              ]
        ]
  ]

  pub process_next_act-Same :
      (s s' : Dp io) (p : Mbuf) (i : ℕ) → process_next_act io s p i ≡ done s' → Same s s'
  unfolding process_next_act
  process_next_act-Same s s' p i h =
      let (p', e, h2) = >>=-eq-done (route io s p) (λ q. next_by_act io s q i) h in
      next_by_act-Same s s' p' i h2

  out_full-Same : (s : Dp io) (i : ℕ) (t : TxPart) → Same s (out_full io s i t)
  out_full-Same s i null = Same-refl s
  out_full-Same s i (tx_thread f l b) = Same-refl s
  out_full-Same s i (tx_buf b) = elim (Bool-cases (length b == pkt_rd_size)) [
    | inl full ↦ rw full (enqueue_tx_ring-Same s b (s.shared.nfs i).inst_id)
    | inr room ↦ rw room (Same-refl s)
  ]

  out_by_owner-Same :
      (s s' : Dp io) (p : Mbuf) (i : ℕ) → out_by_owner io s p i ≡ done s' → Same s s'
  out_by_owner-Same s s' p i h = elim (Bool-cases (s.bq.mgr_nf == 1)) [
    | inl mgr ↦
        let h1 = rw mgr at h in
        Same-trans (with_stats-Same s i count_out) (enqueue_port-Same _ s' p.info.dst p h1)
    | inr nf ↦
        let h1 = rw nf at h in
        let (b, eb, h2) = >>=-eq-done (out_buf s.bq.tx) _ h1 in
        let (b', eb', h3) = >>=-eq-done (put b p) _ h2 in
        let e : out_full io (set_tx io s (tx_buf b')) i (tx_buf b') ≡ s' = ground arith in
        subst (Same s) e (
          Same-trans (set_tx-Same (tx_buf b'))
            (out_full-Same (set_tx io s (tx_buf b')) i (tx_buf b')))
  ]
    where
      set_tx-Same : (t : TxPart) → Same s (set_tx io s t)
      set_tx-Same t = record { chain = refl; n_ports = refl; owner = refl; ids = λ j. refl }

  pub tx_one-Same : (s s' : Dp io) (p : Mbuf) (i : ℕ) → tx_one io s p i ≡ done (next s') → Same s s'
  unfolding tx_one
  tx_one-Same s s' p i h = ground (
    arith,
    drop_counted-Same s i q,
    λ (e : process_next_act io (with_stats io s i count_next) q i ≡ done s').
        Same-trans (with_stats-Same s i count_next) (process_next_act-Same _ s' q i e),
    λ (e : enqueue_bq io (with_stats io s i count_tonf) q.info.dst q ≡ done s').
        Same-trans (with_stats-Same s i count_tonf) (enqueue_bq-Same _ s' q.info.dst q e),
    out_by_owner-Same s s' q i,
  )
    where
      q : Mbuf
      q = stamp io s i p
