-- ===== src/Examples/Arrives.antt =====
-- A turn of simple_forward comes to its end, and all packets with it.
use d2sc.Prelude.{
  ℕ, suc, ◌%◌, ◌<◌, ◌≡◌, refl, ap, ◌∙◌, false, List, [], ◌∷◌, map, arith, ◌==◌, if◌then◌else◌,
  length, update, done, ◌>>=◌,
}
use d2sc.Common.{max_nfs, max_nts, pkt_rd_size, Mbuf}
use d2sc.Buffers.{PktIo, tx_buf, out_buf, count_tonf}
use d2sc.PktProcess.{
  Dp, tx_one, next, process_tx_batch, with_stats, stamp, enqueue_tx_ring, flush_all_bqs,
}
use d2sc.PktProcess.Serves.{Serves, Mapped-stats}
use d2sc.PktProcess.Total.{enqueue_bq-returns}
use d2sc.PktProcess.Census.{held}
use d2sc.Threads.{handle_pkts, dequeue_pkts, nf_turn}
use d2sc.Examples.Turns.{Passes-held, forwarded-Passes}
use d2sc.Examples.Forward.{forwarded}

module _ (io : PktIo) (dst : ℕ) (known : dst % 65536 < max_nts) (i : ℕ) where
  -- An NF that can serve, with its own transmit buffer.
  record Serving (s : Dp io) : Type 0 where
    serves : Serves io s
    buf : List Mbuf
    own : s.bq.tx ≡ tx_buf buf

  forward_one :
      (s : Dp io) (p : Mbuf)
      → Serving s
      → (s' : Dp io) × (tx_one io s (forwarded dst p) i ≡ done (next s')) × Serving s'
  unfolding tx_one
  forward_one s p v =
      let s1 = with_stats io s i count_tonf in
      let v1 : Serves io s1 = record {
        room = v.serves.room;
        default_leads = v.serves.default_leads;
        flows_lead = v.serves.flows_lead;
        mapped = Mapped-stats io s.shared i _ v.serves.mapped;
      } in
      let (s', runs, v', k) =
        enqueue_bq-returns io s1 (stamp io s i (forwarded dst p)) (dst % 65536) known v1 in
      (s', rw runs refl, record { serves = v'; buf = v.buf; own = k.tx ∙ v.own })

  forward_all :
      (s : Dp io) (ps : List Mbuf)
      → Serving s
      → (s' : Dp io) × (process_tx_batch io s (map (forwarded dst) ps) i ≡ done s') × Serving s'
  unfolding process_tx_batch
  forward_all s [] v = (s, refl, v)
  forward_all s (p ∷ ps) v =
      let (s1, e, v1) = forward_one s p v in
      let (s', runs, v') = forward_all s1 ps v1 in (s', rw e runs, v')

  handle_pkts-forwarded :
      (s : Dp io) (ps : List Mbuf)
      → handle_pkts io (λ p. (0, forwarded dst p)) i s ps ≡ (map (forwarded dst) ps, s)
  unfolding handle_pkts
  handle_pkts-forwarded s [] = refl
  handle_pkts-forwarded s (p ∷ ps) = rw (handle_pkts-forwarded s ps) refl

  batch-returns :
      (s : Dp io) (ps : List Mbuf)
      → Serving s
      → (s' : Dp io) × ((if length (map (forwarded dst) ps) == 0
            then done s
            else process_tx_batch io s (map (forwarded dst) ps) i)
          ≡ done s')
        × Serving s'
  batch-returns s [] v = (s, refl, v)
  batch-returns s (p ∷ ps) v =
      let (s', e, v') = forward_all s (p ∷ ps) v in
      let some_packets : (suc (length (map (forwarded dst) ps)) == 0) ≡ false = ground arith in
      (s', rw some_packets e, v')

  turn-returns :
      (s : Dp io)
      → Serving s
      → (s' : Dp io) × (nf_turn io (λ p. (0, forwarded dst p)) i s ≡ done s')
  unfolding nf_turn dequeue_pkts
  turn-returns s v =
      let got = io.dequeue_burst (s.rx_q i) pkt_rd_size in
      let s1 : Dp io = record s { rx_q = update s.rx_q i got.1 } in
      let (s2, e, v2) = batch-returns s1 got.0 (record {
        serves = record {
          room = v.serves.room;
          default_leads = v.serves.default_leads;
          flows_lead = v.serves.flows_lead;
          mapped = v.serves.mapped;
        };
        buf = v.buf;
        own = v.own;
      }) in
      (
        flush_all_bqs io (enqueue_tx_ring io s2 v2.buf i),
        rw (handle_pkts-forwarded s1 got.0, e)
            (ap (λ t. out_buf t >>= λ b. done (flush_all_bqs io (enqueue_tx_ring io s2 b i)))
              v2.own),
      )

  -- If every type is mapped to an instance or to none, the default chain and the chains of all flows lead to
  -- known types, the destination is a known type, and the NF stands under its own number below 16 and has a
  -- buffer queue marked as an NF's, with a transmit buffer, and with room for a packet in each buffer for
  -- other NFs, then a turn of simple_forward returns, without a fault or an endless loop, and has lost and
  -- doubled no packet.
  pub turn-held :
      (a : ℕ) (s : Dp io) (b : List Mbuf)
      → i < max_nfs
      → (s.shared.nfs i).inst_id ≡ i
      → s.bq.mgr_nf ≡ 0
      → s.bq.tx ≡ tx_buf b
      → Serves io s
      → (s' : Dp io) × (nf_turn io (λ p. (0, forwarded dst p)) i s ≡ done s')
        × (held io a s' ≡ held io a s)
  turn-held a s b l id own tx v =
      let (s', runs) = turn-returns s (record { serves = v; buf = b; own = tx }) in
      (
        s',
        runs,
        Passes-held io i a (λ p. (0, forwarded dst p)) s s' (forwarded-Passes dst) l id own runs,
      )
