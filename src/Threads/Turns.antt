-- ===== src/Threads/Turns.antt =====
-- No packet is lost or doubled in a turn.
use d2sc.Prelude.{
  ℕ, ◌+◌, ◌<◌, ◌≡◌, refl, sym, ap, ◌∙◌, inl, inr, true, List, [], ◌∷◌, arith, ltb, ◌==◌,
  if◌then◌else◌, Bool-cases, add_u64, length, update, sum_below-update, All, done, >>=-eq-done,
}
use d2sc.Common.{max_nfs, pkt_rd_size, Stats, nf_is_valid, Mbuf}
use d2sc.Buffers.{PktIo, TxPart, null, tx_thread, tx_buf, out_buf}
use d2sc.PktProcess.{Dp, flush_all_bqs, enqueue_tx_ring, process_tx_batch, with_stats}
use d2sc.PktProcess.Census.{weight, weight-append, weight-nil, held, flush_all_bqs-held}
use d2sc.PktProcess.Ports.{with_stats-held}
use d2sc.PktProcess.Tx.{tx_kept, enqueue_tx_ring-held}
use d2sc.PktProcess.TxBatch.{process_tx_batch-held}
use d2sc.Threads.{tx_nf, handle_pkts, dequeue_pkts, flush_own, nf_turn}
use d2sc.PktProcess.Ports.{with_stats-held}
use d2sc.PktProcess.Tx.{tx_kept, enqueue_tx_ring-held}
use d2sc.PktProcess.TxBatch.{process_tx_batch-held}

module _ (io : PktIo) (a : ℕ) where
  -- The packets that leave a TX ring.
  tx_dequeue-held :
      (s : Dp io) (i : ℕ)
      → i < max_nfs
      → held io a (record s { tx_q = update s.tx_q i (io.dequeue_burst (s.tx_q i) pkt_rd_size).1 })
          + weight a (io.dequeue_burst (s.tx_q i) pkt_rd_size).0
        ≡ held io a s
  unfolding held
  tx_dequeue-held s i l =
      let got = io.dequeue_burst (s.tx_q i) pkt_rd_size in
      omega (
        arith,
        sum_below-update max_nfs i (λ r. weight a (io.contents r)) s.tx_q got.1 l,
        ap (weight a) (io.dequeue-contents (s.tx_q i) pkt_rd_size),
        weight-append a got.0 (io.contents got.1),
      )

  rx_dequeue-held :
      (s : Dp io) (i : ℕ)
      → i < max_nfs
      → held io a (record s { rx_q = update s.rx_q i (io.dequeue_burst (s.rx_q i) pkt_rd_size).1 })
          + weight a (io.dequeue_burst (s.rx_q i) pkt_rd_size).0
        ≡ held io a s
  unfolding held
  rx_dequeue-held s i l =
      let got = io.dequeue_burst (s.rx_q i) pkt_rd_size in
      omega (
        arith,
        sum_below-update max_nfs i (λ r. weight a (io.contents r)) s.rx_q got.1 l,
        ap (weight a) (io.dequeue-contents (s.rx_q i) pkt_rd_size),
        weight-append a got.0 (io.contents got.1),
      )

  -- An NF's function that hands back the packets that it gets changes no place of a packet.
  handle_pkts-held :
      (handler : Mbuf → ℕ × Mbuf) (i : ℕ) (s : Dp io) (ps : List Mbuf)
      → ((p : Mbuf) → (handler p).1.addr ≡ p.addr)
      → (held io a (handle_pkts io handler i s ps).1 ≡ held io a s)
        × (weight a (handle_pkts io handler i s ps).0 ≡ weight a ps)
        × (((handle_pkts io handler i s ps).1.shared.nfs i).inst_id ≡ (s.shared.nfs i).inst_id)
  unfolding handle_pkts weight
  handle_pkts-held handler i s [] same = (refl, refl, refl)
  handle_pkts-held handler i s (p ∷ ps) same = elim (Bool-cases ((handler p).0 == 0)) [
    | inl zero_ret ↦
        let (h, w, n) = handle_pkts-held handler i s ps same in
        rw (zero_ret, same p) (h, omega (arith, w), n)
    | inr other ↦
        let f : Stats → Stats = λ st. record st { tx_buf = add_u64 st.tx_buf 1 } in
        let (h, w, n) = handle_pkts-held handler i (with_stats io s i f) ps same in
        rw (other, same p) (h ∙ with_stats-held io a s i f, omega (arith, w), n ∙ ground arith)
  ]

  out_buf-tx_buf : (t : TxPart) (b : List Mbuf) → out_buf t ≡ done b → t ≡ tx_buf b
  out_buf-tx_buf null b e = cc
  out_buf-tx_buf (tx_thread f g x) b e = cc
  out_buf-tx_buf (tx_buf x) b e = let same : x ≡ b = ground arith in ap tx_buf same

  flush_own-held :
      (i : ℕ) (s s' : Dp io) → i < max_nfs → flush_own io i s ≡ done s' → held io a s' ≡ held io a s
  flush_own-held i s s' l h =
      let (b, e, h2) = >>=-eq-done (out_buf s.bq.tx) _ h in
      let moved = enqueue_tx_ring-held io a s i b l (out_buf-tx_buf s.bq.tx b e) in
      let same : flush_all_bqs io (enqueue_tx_ring io s b i) ≡ s' = ground arith in
      ap (held io a) (sym same) ∙ flush_all_bqs-held io a (enqueue_tx_ring io s b i) ∙ moved

  -- A batch that may be empty.
  batch-held :
      (i : ℕ) (ps : List Mbuf) (t t' : Dp io)
      → (t.shared.nfs i).inst_id < max_nfs
      → All (λ p. tx_kept io t i p ≡ true) ps
      → (if length ps == 0 then done t else process_tx_batch io t ps i) ≡ done t'
      → held io a t' ≡ held io a t + weight a ps
  batch-held i [] t t' n k e =
      let eq : t ≡ t' = ground arith in omega (arith, ap (held io a) eq, weight-nil a)
  batch-held i (p ∷ ps) t t' n k e = process_tx_batch-held io a t t' (p ∷ ps) i n k (ground arith)

  -- One turn of an NF, when it returns, loses no packet and doubles none: each address stands as often in
  -- the rings, the buffers, the freed packets and the wire together as before, if the NF's function hands
  -- back the packets that it gets and leaves each with an action that
  -- `d2sc_pkt_process_tx_batch` accounts for.
  pub nf_turn-held :
      (handler : Mbuf → ℕ × Mbuf) (i : ℕ) (s s' : Dp io)
      → i < max_nfs
      → (s.shared.nfs i).inst_id ≡ i
      → ((p : Mbuf) → (handler p).1.addr ≡ p.addr)
      → All
          (λ p. tx_kept io (dequeue_pkts io handler i s).1 i p ≡ true)
          (dequeue_pkts io handler i s).0
      → nf_turn io handler i s ≡ done s'
      → held io a s' ≡ held io a s
  unfolding nf_turn dequeue_pkts
  nf_turn-held handler i s s' l id same kept h =
      let got = dequeue_pkts io handler i s in
      let (s1, e, h2) =
        >>=-eq-done (if length got.0 == 0 then done got.1 else process_tx_batch io got.1 got.0 i)
          (flush_own io i) h in
      let taken = rx_dequeue-held s i l in
      let (hh, ww, nn) =
        handle_pkts-held handler i
          (record s { rx_q = update s.rx_q i (io.dequeue_burst (s.rx_q i) pkt_rd_size).1 })
          (io.dequeue_burst (s.rx_q i) pkt_rd_size).0 same in
      let small : (got.1.shared.nfs i).inst_id < max_nfs = omega (arith, nn, id) in
      omega (
        arith,
        flush_own-held i s1 s' l h2,
        batch-held i got.0 got.1 s1 small kept e,
        taken,
        hh,
        ww,
      )

  -- The share of NF `i` in one turn of a TX thread, when it returns, loses no packet and doubles none: each
  -- address stands as often in the rings, the buffers, the freed packets and the wire together as before,
  -- if the packets that leave the NF's ring have actions that `d2sc_pkt_process_tx_batch` accounts for.
  pub tx_nf-held :
      (i : ℕ) (s s' : Dp io)
      → (s.shared.nfs i).inst_id ≡ i
      → All
          (λ p.
            tx_kept io
              (record s { tx_q = update s.tx_q i (io.dequeue_burst (s.tx_q i) pkt_rd_size).1 })
              i
              p
            ≡ true)
          (io.dequeue_burst (s.tx_q i) pkt_rd_size).0
      → tx_nf io s i ≡ done s'
      → held io a s' ≡ held io a s
  unfolding tx_nf
  tx_nf-held i s s' id kept h = elim (Bool-cases (ltb i max_nfs)) [
    | inr out ↦ let h1 = rw out at h in cc
    | inl l ↦
        let h1 = rw l at h in
        elim (Bool-cases (nf_is_valid s.shared i)) [
          | inr off ↦
              let h2 = rw off at h1 in let eq : s ≡ s' = ground arith in ap (held io a) (sym eq)
          | inl valid ↦
              let h2 = rw valid at h1 in
              let got = io.dequeue_burst (s.tx_q i) pkt_rd_size in
              omega (
                arith,
                batch-held i got.0 (record s { tx_q = update s.tx_q i got.1 }) s' (ground arith)
                    kept h2,
                tx_dequeue-held s i (ground arith),
              )
        ]
  ]
