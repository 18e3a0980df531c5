-- ===== src/PktProcess/Census.antt =====
-- Where each packet is: how often an address stands in a thread's state, and how the flushes move it.
use d2sc.Prelude.{
  ℕ, zero, suc, ◌+◌, ◌≤◌, ◌<◌, ◌≡◌, refl, ap, ◌∙◌, inl, inr, not, ◌||◌, Option, none, some, List,
  [], ◌∷◌, ◌++◌, arith, ◌==◌, if◌then◌else◌, Bool-cases, length, take, drop, sum_below,
  sum_below-update, done, >>=-eq-done,
}
use d2sc.Common.{max_nfs, nf_is_valid, PktMeta, Mbuf, set_meta}
use d2sc.Buffers.{PktIo, TxPart, null, tx_thread, tx_buf, set_port_buf, port_bufs}
use d2sc.PktProcess.{
  Dp, flushed, flush_nf_bq, flush_bqs_from, flush_all_bqs, port_flushed, flush_port, flush_port_bq,
  flush_ports_from, flush_all_ports,
}

-- How often address `a` stands in a list of packets.
unfoldable pub weight : ℕ → List Mbuf → ℕ
weight a [] = 0
weight a (p ∷ ps) = (if p.addr == a then 1 else 0) + weight a ps

pub weight-append : (a : ℕ) (ps qs : List Mbuf) → weight a (ps ++ qs) ≡ weight a ps + weight a qs
unfolding weight
weight-append a [] qs = ground arith
weight-append a (p ∷ ps) qs = let rest = weight-append a ps qs in omega (arith, rest)

pub weight-take-drop :
    (a n : ℕ) (ps : List Mbuf) → weight a (take n ps) + weight a (drop n ps) ≡ weight a ps
unfolding weight
weight-take-drop a zero ps = omega arith
weight-take-drop a (suc n) [] = omega arith
weight-take-drop a (suc n) (p ∷ ps) = omega (arith, weight-take-drop a n ps)

pub weight-nil : (a : ℕ) → weight a [] ≡ 0
unfolding weight
weight-nil a = refl

-- Metadata do not matter.
pub weight-set_meta :
    (a : ℕ) (p : Mbuf) (m : PktMeta) → weight a (set_meta p m ∷ []) ≡ weight a (p ∷ [])
unfolding weight
weight-set_meta a p m = refl

unfoldable pub weight_tx : ℕ → ℕ → TxPart → ℕ
weight_tx a limit null = 0
weight_tx a limit (tx_thread first last bufs) = sum_below limit (λ i. weight a (bufs i))
weight_tx a limit (tx_buf b) = weight a b

-- A write to a port buffer in range changes the weight by what it puts there.
pub weight_tx-set_port_buf :
    (a limit i : ℕ) (t : TxPart) (bufs : ℕ → List Mbuf) (b : List Mbuf)
    → i < limit
    → port_bufs t ≡ done bufs
    → weight_tx a limit (set_port_buf t i b) + weight a (bufs i) ≡ weight_tx a limit t + weight a b
unfolding weight_tx
weight_tx-set_port_buf a limit i null bufs b l e = cc
weight_tx-set_port_buf a limit i (tx_buf x) bufs b l e = cc
weight_tx-set_port_buf a limit i (tx_thread f g c) bufs b l e =
    let e' : c ≡ bufs = ground arith in rw (← e') (sum_below-update limit i (weight a) c b l)

module _ (io : PktIo) where
  -- All places in which the thread's state has address `a`: rings, buffers, freed packets, the wire.
  unfoldable pub held : ℕ → Dp io → ℕ
  held a s =
      sum_below max_nfs (λ i. weight a (io.contents (s.rx_q i)))
      + sum_below max_nfs (λ i. weight a (io.contents (s.tx_q i)))
      + sum_below max_nfs (λ i. weight a (s.bq.rx_bufs i))
      + weight_tx a s.ports.limit s.bq.tx
      + weight a s.freed
      + weight a s.wire

  flushed-held :
      (a i : ℕ) (s : Dp io) (o : Option io.Ring)
      → i < max_nfs
      → io.enqueue_bulk (s.rx_q i) (s.bq.rx_bufs i) ≡ o
      → held a (flushed io s i (s.bq.rx_bufs i) o) ≡ held a s
  unfolding held
  flushed-held a i s none l e = omega (
    arith,
    sum_below-update max_nfs i (weight a) s.bq.rx_bufs [] l,
    weight-append a s.freed (s.bq.rx_bufs i),
    weight-nil a,
  )
  flushed-held a i s (some r) l e = omega (
    arith,
    sum_below-update max_nfs i (weight a) s.bq.rx_bufs [] l,
    sum_below-update max_nfs i (λ x. weight a (io.contents x)) s.rx_q r l,
    ap (weight a) (io.enqueue-contents (s.rx_q i) (s.bq.rx_bufs i) e),
    weight-append a (io.contents (s.rx_q i)) (s.bq.rx_bufs i),
    weight-nil a,
  )

  -- Flushing an NF's buffer moves its packets into the NF's ring, or frees them.
  pub flush_nf_bq-held :
      (a i : ℕ) (s : Dp io) → i < max_nfs → held a (flush_nf_bq io s i) ≡ held a s
  unfolding flush_nf_bq
  flush_nf_bq-held a i s l =
      elim (Bool-cases ((length (s.bq.rx_bufs i) == 0) || not (nf_is_valid s.shared i))) [
        | inl skip ↦ rw skip
        | inr go ↦ rw go (flushed-held a i s _ l refl)
      ]

  pub flush_bqs_from-held :
      (a n i : ℕ) (s : Dp io) → i + n ≤ max_nfs → held a (flush_bqs_from io n i s) ≡ held a s
  unfolding flush_bqs_from
  flush_bqs_from-held a zero i s l = refl
  flush_bqs_from-held a (suc n) i s l =
      flush_bqs_from-held a n (i + 1) (flush_nf_bq io s i) (omega arith)
      ∙ flush_nf_bq-held a i s (omega arith)

  -- `d2sc_pkt_flush_all_bqs` loses no packet and doubles none: each address stands as often in the
  -- rings, the buffers, the freed packets and the wire together as before.
  pub flush_all_bqs-held : (a : ℕ) (s : Dp io) → held a (flush_all_bqs io s) ≡ held a s
  unfolding flush_all_bqs
  flush_all_bqs-held a s = flush_bqs_from-held a max_nfs 0 s (omega arith)

  port_flushed-held :
      (a i : ℕ) (s : Dp io) (bufs : ℕ → List Mbuf) (r : ℕ × io.Nic)
      → i < s.ports.limit
      → port_bufs s.bq.tx ≡ done bufs
      → held a (port_flushed io s i (bufs i) r) ≡ held a s
  unfolding held
  port_flushed-held a i s bufs (nb, nic) l e = omega (
    arith,
    weight_tx-set_port_buf a s.ports.limit i s.bq.tx bufs [] l e,
    weight-append a s.wire (take nb (bufs i)),
    weight-append a s.freed (drop nb (bufs i)),
    weight-take-drop a nb (bufs i),
    weight-nil a,
  )

  flush_port-held :
      (a i : ℕ) (s s' : Dp io) (bufs : ℕ → List Mbuf)
      → port_bufs s.bq.tx ≡ done bufs
      → flush_port io s i bufs ≡ done s'
      → held a s' ≡ held a s
  flush_port-held a i s s' bufs e h =
      ground (arith, port_flushed-held a i s bufs (io.tx_burst s.nic i s.bq.id (bufs i)))

  -- Flushing a port's buffer sends its packets out, or frees them.
  pub flush_port_bq-held :
      (a i : ℕ) (s s' : Dp io) → flush_port_bq io s i ≡ done s' → held a s' ≡ held a s
  unfolding flush_port_bq
  flush_port_bq-held a i s s' h = elim (Bool-cases (s.bq.mgr_nf == 1)) [
    | inl mgr ↦
        let h' = rw mgr at h in
        let (bufs, e, h2) = >>=-eq-done (port_bufs s.bq.tx) (flush_port io s i) h' in
        flush_port-held a i s s' bufs e h2
    | inr other ↦ ground arith
  ]

  flush_ports_from-held :
      (a n i : ℕ) (s s' : Dp io) → flush_ports_from io n i s ≡ done s' → held a s' ≡ held a s
  unfolding flush_ports_from
  flush_ports_from-held a zero i s s' h = ground arith
  flush_ports_from-held a (suc n) i s s' h =
      let (s1, e, h2) =
        >>=-eq-done (flush_port_bq io s (s.ports.id i)) (flush_ports_from io n (i + 1)) h in
      flush_ports_from-held a n (i + 1) s1 s' h2 ∙ flush_port_bq-held a (s.ports.id i) s s1 e

  -- `d2sc_pkt_flush_all_ports`, when it returns, loses no packet and doubles none: each address
  -- stands as often in the rings, the buffers, the freed packets and the wire together as before.
  pub flush_all_ports-held :
      (a : ℕ) (s s' : Dp io) → flush_all_ports io s ≡ done s' → held a s' ≡ held a s
  unfolding flush_all_ports
  flush_all_ports-held a s s' h = flush_ports_from-held a s.ports.n_ports 0 s s' h
