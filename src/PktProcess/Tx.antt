-- ===== src/PktProcess/Tx.antt =====
-- One packet of an NF's batch: whether it is accounted for afterwards.
use d2sc.Prelude.{
  ℕ, ◌+◌, ◌<◌, ◌≡◌, refl, ap, inl, inr, Bool, not, ◌&&◌, ◌||◌, Option, none, some, List, [], ◌∷◌,
  ◌++◌, arith, ltb, ◌==◌, if◌then◌else◌, Bool-cases, length, sum_below-update, Outcome, done, fault,
  hang, exit, >>=-eq-done,
}
use d2sc.Common.{max_nfs, pkt_rd_size, act_drop, act_next, act_tonf, act_out, Stats, Mbuf}
use d2sc.PktProcess.Census.{weight, weight-append, weight-nil, weight_tx, held}
use d2sc.PktProcess.Ledger.{drop-held, enqueue_bq-held}
use d2sc.PktProcess.Ports.{handled_route, enqueue_port-held, process_next_act-held, with_stats-held}
use d2sc.Buffers.{
  PktIo, TxPart, null, tx_thread, tx_buf, out_buf, count_tonf, count_out, count_next, count_drops,
}
use d2sc.PktProcess.{
  Dp, enqueue_bq, set_tx, enqueue_tx_ring, tx_ring_done, out_full, out_by_owner, process_next_act,
  tx_one, next, stop, route, with_stats, pkt_drop, stamp, to_next,
}

module _ (io : PktIo) where
  -- What the switch of `d2sc_pkt_process_tx_batch` does not lose.
  unfoldable pub tx_kept : Dp io → ℕ → Mbuf → Bool
  tx_kept s i p =
      (p.info.act == act_drop)
      || ((p.info.act == act_next) && handled_route s.ports.n_ports (route io s (stamp io s i p)))
      || (p.info.act == act_tonf)
      || ((p.info.act == act_out) && (not (s.bq.mgr_nf == 1) || ltb p.info.dst s.ports.n_ports))

module _ (io : PktIo) (a : ℕ) where
  tx_ring_done-held :
      (s : Dp io) (i : ℕ) (buf : List Mbuf) (o : Option io.Ring)
      → i < max_nfs
      → s.bq.tx ≡ tx_buf buf
      → io.enqueue_bulk (s.tx_q i) buf ≡ o
      → held io a (tx_ring_done io s i buf o) ≡ held io a s
  unfolding held weight_tx
  tx_ring_done-held s i buf none l e eo =
      rw (e, weight_tx) (omega (arith, weight-append a s.freed buf, weight-nil a))
  tx_ring_done-held s i buf (some r) l e eo =
      rw (e, weight_tx)
        (omega (
          arith,
          sum_below-update max_nfs i (λ x. weight a (io.contents x)) s.tx_q r l,
          ap (weight a) (io.enqueue-contents (s.tx_q i) buf eo),
          weight-append a (io.contents (s.tx_q i)) buf,
          weight-nil a,
        ))

  -- `d2sc_pkt_enqueue_tx_ring`, for the own transmit buffer of an NF and a ring number below 16,
  -- loses no packet and doubles none: each address stands as often in the rings, the buffers, the
  -- freed packets and the wire together as before.
  pub enqueue_tx_ring-held :
      (s : Dp io) (i : ℕ) (buf : List Mbuf)
      → i < max_nfs
      → s.bq.tx ≡ tx_buf buf
      → held io a (enqueue_tx_ring io s buf i) ≡ held io a s
  unfolding enqueue_tx_ring
  enqueue_tx_ring-held s i buf l e = elim (Bool-cases (length buf == 0)) [
    | inl empty ↦ rw empty
    | inr full ↦ rw full (tx_ring_done-held s i buf _ l e refl)
  ]

  out_full-held :
      (s : Dp io) (i : ℕ) (t : TxPart)
      → (s.shared.nfs i).inst_id < max_nfs
      → s.bq.tx ≡ t
      → held io a (out_full io s i t) ≡ held io a s
  out_full-held s i null l e = refl
  out_full-held s i (tx_thread f g b) l e = refl
  out_full-held s i (tx_buf b) l e = elim (Bool-cases (length b == pkt_rd_size)) [
    | inl full ↦ rw full (enqueue_tx_ring-held s (s.shared.nfs i).inst_id b l e)
    | inr room ↦ rw room
  ]

  own_buffered-held :
      (s : Dp io) (b : List Mbuf) (p : Mbuf)
      → out_buf s.bq.tx ≡ done b
      → held io a (set_tx io s (tx_buf (b ++ p ∷ []))) ≡ held io a s + weight a (p ∷ [])
  own_buffered-held s b p e = go s.bq.tx refl e
    where
      go :
          (t : TxPart)
          → s.bq.tx ≡ t
          → out_buf t ≡ done b
          → held io a (set_tx io s (tx_buf (b ++ p ∷ []))) ≡ held io a s + weight a (p ∷ [])
      go null e1 e2 = cc
      go (tx_thread f g x) e1 e2 = cc
      go (tx_buf x) e1 e2 =
          let same : x ≡ b = ground arith in
          let here : weight_tx a s.ports.limit s.bq.tx ≡ weight a b =
            rw (e1, same) (unfold weight_tx in refl) in
          unfold held weight_tx in omega (arith, here, weight-append a b (p ∷ []))

  out_by_owner-held :
      (s s' : Dp io) (p : Mbuf) (i : ℕ)
      → (s.shared.nfs i).inst_id < max_nfs
      → out_by_owner io s p i ≡ done s'
      → held io a s'
        ≡ held io a s
          + (if not (s.bq.mgr_nf == 1) || ltb p.info.dst s.ports.n_ports
              then weight a (p ∷ [])
              else 0)
  out_by_owner-held s s' p i l h = elim (Bool-cases (s.bq.mgr_nf == 1)) [
    | inl mgr ↦
        let h1 = rw mgr at h in
        ground (
          arith,
          enqueue_port-held io a (with_stats io s i count_out) s' p.info.dst p h1,
          with_stats-held io a s i count_out,
        )
    | inr nf ↦
        let h1 = rw nf at h in
        let (b, eb, h2) = >>=-eq-done (out_buf s.bq.tx) _ h1 in
        let s1 = set_tx io s (tx_buf (b ++ p ∷ [])) in
        ground (arith, own_buffered-held s b p eb, out_full-held s1 i (tx_buf (b ++ p ∷ [])) l refl)
  ]

  route-with_stats :
      (s : Dp io) (i : ℕ) (f : Stats → Stats) (p : Mbuf)
      → route io (with_stats io s i f) p ≡ route io s p
  unfolding route
  route-with_stats s i f p = refl

  to_next-done : (m : Outcome (Dp io)) (s' : Dp io) → to_next io m ≡ done (next s') → m ≡ done s'
  to_next-done (done s) s' h = ground arith
  to_next-done fault s' h = cc
  to_next-done hang s' h = cc
  to_next-done exit s' h = cc

  weight-stamp : (s : Dp io) (i : ℕ) (p : Mbuf) → weight a (stamp io s i p ∷ []) ≡ weight a (p ∷ [])
  unfolding weight
  weight-stamp s i p = refl

  -- The cases of an action that is neither drop nor next.
  tonf_or_out :
      (s s' : Dp io) (p : Mbuf) (i : ℕ)
      → (s.shared.nfs i).inst_id < max_nfs
      → (if p.info.act == act_tonf
          then to_next io (enqueue_bq io (with_stats io s i count_tonf) p.info.dst (stamp io s i p))
          else if p.info.act == act_out
          then to_next io (out_by_owner io s (stamp io s i p) i)
          else done (stop (pkt_drop io s (stamp io s i p)).1))
        ≡ done (next s')
      → held io a s'
        ≡ held io a s
          + (if (p.info.act == act_tonf)
                || ((p.info.act == act_out)
                    && (not (s.bq.mgr_nf == 1) || ltb p.info.dst s.ports.n_ports))
              then weight a (p ∷ [])
              else 0)
  tonf_or_out s s' p i l h =
      let q : Mbuf = stamp io s i p in
      elim (Bool-cases (p.info.act == act_tonf)) [
        | inl tonf ↦
            let h1 = rw tonf at h in
            let e =
              to_next-done (enqueue_bq io (with_stats io s i count_tonf) p.info.dst q) s' h1 in
            rw tonf (
              ground (
                arith,
                enqueue_bq-held io a (with_stats io s i count_tonf) s' p.info.dst q e,
                with_stats-held io a s i count_tonf,
                weight-stamp s i p,
              ))
        | inr other ↦
            let h1 = rw other at h in
            elim (Bool-cases (p.info.act == act_out)) [
              | inl out ↦
                  let h2 = rw out at h1 in
                  let e = to_next-done (out_by_owner io s q i) s' h2 in
                  rw (other, out)
                    (ground (arith, out_by_owner-held s s' q i l e, weight-stamp s i p))
              | inr bad ↦ let h2 = rw bad at h1 in ground arith
            ]
      ]

  pub tx_one-held :
      (s s' : Dp io) (p : Mbuf) (i : ℕ)
      → (s.shared.nfs i).inst_id < max_nfs
      → tx_one io s p i ≡ done (next s')
      → held io a s' ≡ held io a s + (if tx_kept io s i p then weight a (p ∷ []) else 0)
  unfolding tx_one tx_kept
  tx_one-held s s' p i l h =
      let q : Mbuf = stamp io s i p in
      elim (Bool-cases (p.info.act == act_drop)) [
        | inl dropped ↦
            let h1 = rw dropped at h in
            let e : with_stats io (pkt_drop io s q).1 i (count_drops 0) ≡ s' = ground arith in
            ground (
              arith,
              drop-held io a s q,
              with_stats-held io a (pkt_drop io s q).1 i (count_drops 0),
              weight-stamp s i p,
            )
        | inr keep ↦
            let h1 = rw keep at h in
            elim (Bool-cases (p.info.act == act_next)) [
              | inl chain ↦
                  let h2 = rw chain at h1 in
                  let e =
                    to_next-done (process_next_act io (with_stats io s i count_next) q i) s' h2 in
                  let moved = process_next_act-held io a (with_stats io s i count_next) s' q i e in
                  rw (keep, chain)
                    (ground (
                      arith,
                      rw (route-with_stats s i count_next q) at moved,
                      with_stats-held io a s i count_next,
                      weight-stamp s i p,
                    ))
              | inr plain ↦ let h2 = rw plain at h1 in rw (keep, plain) (tonf_or_out s s' p i l h2)
            ]
      ]
