-- ===== src/PktProcess/Ports.antt =====
-- Packets for a port, and packets that follow their chain: which are accounted for afterwards.
use d2sc.Prelude.{
  ℕ, ◌+◌, ◌<◌, ◌≡◌, refl, inl, inr, Bool, false, ◌&&◌, ◌||◌, List, [], ◌∷◌, ◌++◌, arith, ltb, leb,
  ◌==◌, if◌then◌else◌, Bool-cases, Outcome, done, >>=-eq-done,
}
use d2sc.Common.{act_drop, act_tonf, act_out, Stats, Mbuf}
use d2sc.PktProcess.Census.{weight, weight-append, weight_tx-set_port_buf, held, flush_port_bq-held}
use d2sc.PktProcess.Ledger.{drop-held, enqueue_bq-held, route-weight}
use d2sc.Buffers.{PktIo, set_port_buf, port_bufs, bump_index, count_tonf, count_out, count_drops}
use d2sc.PktProcess.{
  Dp, port_put, enqueue_port, set_tx, next_by_act, process_next_act, route, with_stats, pkt_drop,
}

-- What the switch of `d2sc_pkt_process_next_act` has a case for, and a port within `n_ports`.
unfoldable pub handled : ℕ → Mbuf → Bool
handled n_ports p =
    (p.info.act == act_drop)
    || (p.info.act == act_tonf)
    || ((p.info.act == act_out) && ltb p.info.dst n_ports)

abbrev pub handled_route : ℕ → Outcome Mbuf → Bool
handled_route n_ports (done p) = handled n_ports p
handled_route n_ports _ = false

module _ (io : PktIo) (a : ℕ) where
  port_put-held :
      (s s' : Dp io) (i : ℕ) (p : Mbuf) (bufs : ℕ → List Mbuf)
      → port_bufs s.bq.tx ≡ done bufs
      → port_put io s i p bufs ≡ done s'
      → held io a s' ≡ held io a s + weight a (p ∷ [])
  port_put-held s s' i p bufs e h = ground (
    arith,
    buffered s i p bufs,
    flush_port_bq-held io a i (set_tx io s (set_port_buf s.bq.tx i (bufs i ++ p ∷ []))) s',
  )
    where
      buffered :
          (t : Dp io) (j : ℕ) (q : Mbuf) (b : ℕ → List Mbuf)
          → port_bufs t.bq.tx ≡ done b
          → j < t.ports.limit
          → held io a (set_tx io t (set_port_buf t.bq.tx j (b j ++ q ∷ [])))
            ≡ held io a t + weight a (q ∷ [])
      buffered t j q b eb l =
          unfold held in
          omega (
            arith,
            weight_tx-set_port_buf a t.ports.limit j t.bq.tx b (b j ++ q ∷ []) l eb,
            weight-append a (b j) (q ∷ []),
          )

  -- `d2sc_pkt_enqueue_port`, when it returns: the places at which an address stands, in the rings,
  -- the buffers, the freed packets and the wire together, grow by the packet if the port is below
  -- the number of ports, and otherwise stay as many.
  pub enqueue_port-held :
      (s s' : Dp io) (i : ℕ) (p : Mbuf)
      → enqueue_port io s i p ≡ done s'
      → held io a s' ≡ held io a s + (if ltb i s.ports.n_ports then weight a (p ∷ []) else 0)
  unfolding enqueue_port
  enqueue_port-held s s' i p h = elim (Bool-cases (leb s.ports.n_ports i)) [
    | inl beyond ↦ ground arith
    | inr within ↦
        let h' = rw within at h in
        let (bufs, e, h2) = >>=-eq-done (port_bufs s.bq.tx) (port_put io s i p) h' in
        ground (arith, port_put-held s s' i p bufs e h2)
  ]

  pub with_stats-held :
      (s : Dp io) (i : ℕ) (f : Stats → Stats) → held io a (with_stats io s i f) ≡ held io a s
  unfolding held
  with_stats-held s i f = refl

  weight-bump : (p : Mbuf) → weight a (bump_index p ∷ []) ≡ weight a (p ∷ [])
  unfolding weight
  weight-bump p = refl

  next_by_act-held :
      (s s' : Dp io) (p : Mbuf) (i : ℕ)
      → next_by_act io s p i ≡ done s'
      → held io a s' ≡ held io a s + (if handled s.ports.n_ports p then weight a (p ∷ []) else 0)
  unfolding handled
  next_by_act-held s s' p i h = ground (
    arith,
    drop-held io a s (bump_index p),
    with_stats-held (pkt_drop io s (bump_index p)).1 i (count_drops 0),
    with_stats-held s i count_tonf,
    with_stats-held s i count_out,
    enqueue_bq-held io a (with_stats io s i count_tonf) s' p.info.dst (bump_index p),
    enqueue_port-held (with_stats io s i count_out) s' p.info.dst (bump_index p),
    weight-bump p,
  )

  -- `d2sc_pkt_process_next_act`, when it returns: the places at which an address stands, in the
  -- rings, the buffers, the freed packets and the wire together, grow by the packet if its chain
  -- gives it the action drop, to an NF, or out to a port below the number of ports, and otherwise
  -- stay as many.
  pub process_next_act-held :
      (s s' : Dp io) (p : Mbuf) (i : ℕ)
      → process_next_act io s p i ≡ done s'
      → held io a s'
        ≡ held io a s
          + (if handled_route s.ports.n_ports (route io s p) then weight a (p ∷ []) else 0)
  unfolding process_next_act
  process_next_act-held s s' p i h =
      let (p', e, h2) = >>=-eq-done (route io s p) (λ q. next_by_act io s q i) h in
      ground (arith, next_by_act-held s s' p' i h2, route-weight io a s p p' e)
