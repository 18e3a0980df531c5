-- ===== src/PktProcess/TxTotal.antt =====
-- A transmit thread of the manager never faults and never hangs: each batch is processed to its end, and
-- each buffer has room again.
use d2sc.Prelude.{
  ℕ, ◌<◌, ◌≡◌, refl, inl, inr, true, List, [], ◌∷◌, arith, ◌==◌, Bool-cases, All, done,
}
use d2sc.Common.{max_nts, act_drop, act_next, act_tonf, act_out, Mbuf}
use d2sc.Buffers.{PktIo, bump_index, count_tonf, count_out, count_next, count_drops}
use d2sc.PktProcess.{
  Dp, enqueue_bq, next_by_act, process_next_act, tx_one, next, stop, Turn, with_stats, pkt_drop,
  stamp, process_tx_batch,
}
use d2sc.PktProcess.Serves.{route-leads}
use d2sc.PktProcess.Total.{enqueue_bq-returns}
use d2sc.PktProcess.Sends.{Sends, stats-Sends, drop-Sends, Keeps-Sends, enqueue_port-returns}

module _ (io : PktIo) where
  enqueue_bq-Sends :
      (s : Dp io) (t : ℕ) (p : Mbuf)
      → t < max_nts
      → Sends io s
      → (s' : Dp io) × (enqueue_bq io s t p ≡ done s') × Sends io s'
  enqueue_bq-Sends s t p l v =
      let (s', runs, v', k) = enqueue_bq-returns io s p t l v.serves in
      (s', runs, Keeps-Sends io s s' k v' v)

  next_by_act-returns :
      (s : Dp io) (p : Mbuf) (i : ℕ)
      → p.info.dst < max_nts
      → Sends io s
      → (s' : Dp io) × (next_by_act io s p i ≡ done s') × Sends io s'
  next_by_act-returns s p i l v = elim (Bool-cases (p.info.act == act_drop)) [
    | inl dropped ↦ (
      with_stats io (pkt_drop io s (bump_index p)).1 i (count_drops 0),
      rw dropped refl,
      stats-Sends io (pkt_drop io s (bump_index p)).1 i (count_drops 0)
          (drop-Sends io s (bump_index p) v),
    )
    | inr keep ↦ elim (Bool-cases (p.info.act == act_tonf)) [
      | inl tonf ↦
          let (s', runs, v') =
            enqueue_bq-Sends (with_stats io s i count_tonf) p.info.dst (bump_index p) l
              (stats-Sends io s i count_tonf v) in
          (s', rw (keep, tonf) runs, v')
      | inr other ↦ elim (Bool-cases (p.info.act == act_out)) [
        | inl out ↦
            let (s', runs, v') =
              enqueue_port-returns io (with_stats io s i count_out) p.info.dst (bump_index p)
                (stats-Sends io s i count_out v) in
            (s', rw (keep, other, out) runs, v')
        | inr none_of ↦ (s, rw (keep, other, none_of) refl, v)
      ]
    ]
  ]

  process_next_act-returns :
      (s : Dp io) (p : Mbuf) (i : ℕ)
      → Sends io s
      → (s' : Dp io) × (process_next_act io s p i ≡ done s') × Sends io s'
  unfolding process_next_act
  process_next_act-returns s p i v =
      let (p', e, l) = route-leads io s p v.serves in
      let (s', runs, v') = next_by_act-returns s p' i l v in (s', rw e runs, v')

  -- The state that a turn of the loop leaves.
  abbrev left : Turn io → Dp io
  left (next s) = s
  left (stop s) = s

  tx_one-returns :
      (s : Dp io) (p : Mbuf) (i : ℕ)
      → (p.info.act ≡ act_tonf → p.info.dst < max_nts)
      → Sends io s
      → (t : Turn io) × (tx_one io s p i ≡ done t) × Sends io (left t)
  unfolding tx_one
  tx_one-returns s p i known v =
      let q : Mbuf = stamp io s i p in
      elim (Bool-cases (p.info.act == act_drop)) [
        | inl dropped ↦ (
          next (with_stats io (pkt_drop io s q).1 i (count_drops 0)),
          rw dropped refl,
          stats-Sends io (pkt_drop io s q).1 i (count_drops 0) (drop-Sends io s q v),
        )
        | inr keep ↦ elim (Bool-cases (p.info.act == act_next)) [
          | inl chain ↦
              let (s', runs, v') =
                process_next_act-returns (with_stats io s i count_next) q i
                  (stats-Sends io s i count_next v) in
              (next s', rw (keep, chain, runs) refl, v')
          | inr plain ↦ elim (Bool-cases (p.info.act == act_tonf)) [
            | inl tonf ↦
                let (s', runs, v') =
                  enqueue_bq-Sends (with_stats io s i count_tonf) p.info.dst q
                    (known (ground arith)) (stats-Sends io s i count_tonf v) in
                (next s', rw (keep, plain, tonf, runs) refl, v')
            | inr other ↦ elim (Bool-cases (p.info.act == act_out)) [
              | inl out ↦
                  let own : s.bq.mgr_nf == 1 ≡ true = rw v.owner refl in
                  let (s', runs, v') =
                    enqueue_port-returns io (with_stats io s i count_out) p.info.dst q
                      (stats-Sends io s i count_out v) in
                  (next s', rw (keep, plain, other, out, own, runs) refl, v')
              | inr bad ↦
                  (stop (pkt_drop io s q).1, rw (keep, plain, other, bad) refl, drop-Sends io s q v)
            ]
          ]
        ]
      ]

  -- On a transmit thread of the manager whose buffers for NFs and for ports have room for a packet each,
  -- whose chains lead to known types, and whose types are all mapped to an instance or to none, with no
  -- more ports than its port arrays hold, `d2sc_pkt_process_tx_batch` returns on any batch whose
  -- packets for an NF name a known type, without a fault or an endless loop, and all this holds
  -- afterwards again.
  pub process_tx_batch-returns :
      (s : Dp io) (ps : List Mbuf) (i : ℕ)
      → Sends io s
      → All (λ p. p.info.act ≡ act_tonf → p.info.dst < max_nts) ps
      → (s' : Dp io) × (process_tx_batch io s ps i ≡ done s') × Sends io s'
  unfolding process_tx_batch
  process_tx_batch-returns s [] i v known = (s, refl, v)
  process_tx_batch-returns s (p ∷ ps) i v known =
      let (t, e, v1) = tx_one-returns s p i known.0 v in
      let (s', runs, v') = rest t v1 (λ s1 w. process_tx_batch-returns s1 ps i w known.1) in
      (s', rw e runs, v')
    where
      rest :
          (t : Turn io)
          → Sends io (left t)
          → ((s1 : Dp io)
              → Sends io s1
              → (s' : Dp io) × (process_tx_batch io s1 ps i ≡ done s') × Sends io s')
          → (s' : Dp io) × ((elim t [ next s1 ↦ process_tx_batch io s1 ps i | stop s1 ↦ done s1 ])
              ≡ done s')
            × Sends io s'
      rest (next s1) w later = later s1 w
      rest (stop s1) w later = (s1, refl, w)
