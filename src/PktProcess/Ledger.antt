-- ===== src/PktProcess/Ledger.antt =====
-- No packet is lost or doubled: what goes into each operation is found again in the state after it.
use d2sc.Prelude.{
  ℕ, ◌+◌, ◌<◌, ◌≡◌, inl, inr, List, [], ◌∷◌, ◌++◌, arith, ◌==◌, Bool-cases, length,
  sum_below-update, done, >>=-eq-done,
}
use d2sc.Common.{max_nfs, pkt_rd_size, Mbuf, set_meta}
use d2sc.Sc.{Sc, next_act, next_dst}
use d2sc.FlowTable.{get_entry}
use d2sc.NtMap.{nt_to_nf_map}
use d2sc.PktProcess.Census.{weight, weight-append, held, flush_nf_bq-held, flush_all_bqs-held}
use d2sc.Buffers.{PktIo, arrive, bump_index, route_by}
use d2sc.PktProcess.{
  Dp, flush_all_bqs, enqueue_to, enqueue_bq, flush_if_full, set_rx_buf, route, pkt_drop,
  process_rx_batch, rx_all, rx_one, chain_of,
}

module _ (io : PktIo) (a : ℕ) where
  pub drop-held :
      (s : Dp io) (p : Mbuf) → held io a (pkt_drop io s p).1 ≡ held io a s + weight a (p ∷ [])
  unfolding held
  drop-held s p = omega (arith, weight-append a s.freed (p ∷ []))

  buffered-held :
      (s : Dp io) (i : ℕ) (p : Mbuf)
      → i < max_nfs
      → held io a (set_rx_buf io s i (s.bq.rx_bufs i ++ p ∷ [])) ≡ held io a s + weight a (p ∷ [])
  unfolding held
  buffered-held s i p l = omega (
    arith,
    sum_below-update max_nfs i (weight a) s.bq.rx_bufs (s.bq.rx_bufs i ++ p ∷ []) l,
    weight-append a (s.bq.rx_bufs i) (p ∷ []),
  )

  flush_if_full-held :
      (s : Dp io) (i : ℕ) → i < max_nfs → held io a (flush_if_full io s i) ≡ held io a s
  flush_if_full-held s i l = elim (Bool-cases (length (s.bq.rx_bufs i) == pkt_rd_size)) [
    | inl full ↦ rw full (flush_nf_bq-held io a i s l)
    | inr room ↦ rw room
  ]

  enqueue_to-held :
      (s s' : Dp io) (p : Mbuf) (i : ℕ)
      → enqueue_to io s p i ≡ done s'
      → held io a s' ≡ held io a s + weight a (p ∷ [])
  enqueue_to-held s s' p i h = ground (
    arith,
    drop-held s p,
    buffered-held s i p,
    flush_if_full-held (set_rx_buf io s i (s.bq.rx_bufs i ++ p ∷ [])) i,
  )

  -- A packet for an NF type ends in a buffer, in a ring, or freed, once.
  pub enqueue_bq-held :
      (s s' : Dp io) (t : ℕ) (p : Mbuf)
      → enqueue_bq io s t p ≡ done s'
      → held io a s' ≡ held io a s + weight a (p ∷ [])
  unfolding enqueue_bq
  enqueue_bq-held s s' t p h =
      let (i, e, h2) = >>=-eq-done (nt_to_nf_map s.shared t p.rss) (enqueue_to io s p) h in
      enqueue_to-held s s' p i h2

  route_by-weight :
      (sc : Sc) (p p' : Mbuf) → route_by sc p ≡ done p' → weight a (p' ∷ []) ≡ weight a (p ∷ [])
  unfolding weight
  route_by-weight sc p p' h =
      let (x, ex, h2) = >>=-eq-done (next_act sc p) _ h in
      let (d, ed, h3) = >>=-eq-done (next_dst sc (set_meta p (record p.info { act = x }))) _ h2 in
      ground arith

  pub route-weight :
      (s : Dp io) (p p' : Mbuf) → route io s p ≡ done p' → weight a (p' ∷ []) ≡ weight a (p ∷ [])
  unfolding route
  route-weight s p p' h =
      let (e, ee, h2) = >>=-eq-done (get_entry io.hash_lookup p) _ h in
      route_by-weight (chain_of io s e) p p' h2

  rx_one-held :
      (s s' : Dp io) (p : Mbuf)
      → rx_one io s p ≡ done s'
      → held io a s' ≡ held io a s + weight a (p ∷ [])
  unfolding rx_one weight
  rx_one-held s s' p h =
      let (p', e, h2) = >>=-eq-done (route io s (arrive p)) _ h in
      omega (
        arith,
        enqueue_bq-held s s' (bump_index p').info.dst (bump_index p') h2,
        route-weight s (arrive p) p' e,
      )

  rx_all-held :
      (s s' : Dp io) (ps : List Mbuf)
      → rx_all io s ps ≡ done s'
      → held io a s' ≡ held io a s + weight a ps
  unfolding rx_all weight
  rx_all-held s s' [] h = ground arith
  rx_all-held s s' (p ∷ ps) h =
      let (s1, e, h2) = >>=-eq-done (rx_one io s p) (λ t. rx_all io t ps) h in
      omega (arith, rx_one-held s s1 p e, rx_all-held s1 s' ps h2)

  -- `d2sc_pkt_process_rx_batch`, when it returns, loses no packet and doubles none: the places at
  -- which an address stands, in the rings, the buffers, the freed packets and the wire together,
  -- grow by as often as it stands in the batch.
  pub process_rx_batch-held :
      (s s' : Dp io) (ps : List Mbuf)
      → process_rx_batch io s ps ≡ done s'
      → held io a s' ≡ held io a s + weight a ps
  unfolding process_rx_batch
  process_rx_batch-held s s' ps h =
      let (s1, e, h2) = >>=-eq-done (rx_all io s ps) (λ t. done (flush_all_bqs io t)) h in
      ground (arith, rx_all-held s s1 ps e, flush_all_bqs-held io a s1)
