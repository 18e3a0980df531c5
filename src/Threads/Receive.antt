-- ===== src/Threads/Receive.antt =====
-- A turn of `rx_thread_main` of src/d2sc_mgr/main.c is handled to its end.
use d2sc.Prelude.{
  ℕ, zero, suc, ◌+◌, ◌≤◌, ◌<◌, ◌≡◌, refl, sym, ap, ◌∙◌, subst, inl, inr, true, false, List, [], ◌∷◌,
  ◌++◌, arith, ltb, ◌==◌, Bool-cases, length, done,
}
use d2sc.Common.{pkt_rd_size, Mbuf}
use d2sc.Buffers.{PktIo}
use d2sc.PktProcess.{Dp, drop_batch}
use d2sc.PktHelper.{PortInfo}
use d2sc.PktProcess.Census.{weight, weight-append, weight-nil, held}
use d2sc.PktProcess.Ledger.{process_rx_batch-held}
use d2sc.PktProcess.Serves.{Serves}
use d2sc.PktProcess.Total.{process_rx_batch-Keeps}
use d2sc.Threads.{count_rx, rx_got, rx_port, rx_from, rx_turn}

module _ (io : PktIo) where
  count_rx-Serves :
      (s : Dp io) (nic : io.Nic) (port_id n : ℕ)
      → Serves io s
      → Serves io (count_rx io (record s { nic = nic }) port_id n)
  count_rx-Serves s nic port_id n v = record {
    room = v.room;
    default_leads = v.default_leads;
    flows_lead = v.flows_lead;
    mapped = v.mapped;
  }

  count_rx-held :
      (a : ℕ) (s : Dp io) (nic : io.Nic) (port_id n : ℕ)
      → held io a (count_rx io (record s { nic = nic }) port_id n) ≡ held io a s
  unfolding held
  count_rx-held a s nic port_id n = refl

  drop_batch-Serves : (s : Dp io) (ps : List Mbuf) → Serves io s → Serves io (drop_batch io s ps)
  drop_batch-Serves s ps v = record {
    room = v.room;
    default_leads = v.default_leads;
    flows_lead = v.flows_lead;
    mapped = v.mapped;
  }

  drop_batch-held :
      (a : ℕ) (s : Dp io) (ps : List Mbuf)
      → held io a (drop_batch io s ps) ≡ held io a s + weight a ps
  unfolding held
  drop_batch-held a s ps = omega (arith, weight-append a s.freed ps)

  -- The port numbers and the queue, which no burst changes.
  record KeepsPorts (s s' : Dp io) : Type 0 where
    limit : s'.ports.limit ≡ s.ports.limit
    id : s'.ports.id ≡ s.ports.id
    queue : s'.bq.id ≡ s.bq.id

  rx_got-returns :
      (s : Dp io) (port_id : ℕ) (ps : List Mbuf) (nic : io.Nic)
      → Serves io s
      → (s' : Dp io) × (rx_got io s port_id (ps, nic) ≡ done s')
        × Serves io s'
        × KeepsPorts s s'
        × (s'.nic ≡ nic)
        × ((a : ℕ) → held io a s' ≡ held io a s + weight a ps)
  rx_got-returns s port_id [] nic v = (
    count_rx io (record s { nic = nic }) port_id 0,
    refl,
    count_rx-Serves s nic port_id 0 v,
    record { limit = refl; id = refl; queue = refl },
    refl,
    λ a. omega (arith, count_rx-held a s nic port_id 0, weight-nil a),
  )
  rx_got-returns s port_id (p ∷ ps) nic v =
      let s1 = count_rx io (record s { nic = nic }) port_id (length (p ∷ ps)) in
      let v1 = count_rx-Serves s nic port_id (length (p ∷ ps)) v in
      let some_of : (length (p ∷ ps) == 0) ≡ false = ground arith in
      elim (Bool-cases (s.shared.num_nfs == 0)) [
        | inl no_nfs ↦ (
          drop_batch io s1 (p ∷ ps),
          rw (some_of, no_nfs) refl,
          drop_batch-Serves s1 (p ∷ ps) v1,
          record { limit = refl; id = refl; queue = refl },
          refl,
          λ a.
              drop_batch-held a s1 (p ∷ ps)
              ∙ ap (λ n. n + weight a (p ∷ ps)) (count_rx-held a s nic port_id (length (p ∷ ps))),
        )
        | inr nfs ↦
            let (s', e, v', k) = process_rx_batch-Keeps io s1 (p ∷ ps) v1 in
            (
              s',
              rw (some_of, nfs) e,
              v',
              record {
                limit = ap (λ (q : PortInfo). q.limit) k.ports;
                id = ap (λ (q : PortInfo). q.id) k.ports;
                queue = k.queue;
              },
              k.nic,
              λ a.
                  process_rx_batch-held io a s1 s' (p ∷ ps) e
                  ∙ ap (λ n. n + weight a (p ∷ ps))
                      (count_rx-held a s nic port_id (length (p ∷ ps))),
            )
      ]

  module _ (rx_burst : io.Nic → ℕ → ℕ → ℕ → List Mbuf × io.Nic) where
    -- What the device hands out when it is asked for `n` ports in order, from place `i` on.
    pub arrivals : ℕ → ℕ → (ℕ → ℕ) → ℕ → io.Nic → List Mbuf
    arrivals zero i ids queue nic = []
    arrivals (suc n) i ids queue nic =
        let got = rx_burst nic (ids i) queue pkt_rd_size in
        got.0 ++ arrivals n (i + 1) ids queue got.1

    -- The first `n` places and the numbers in them are within the arrays.
    abbrev pub PortsFit : ℕ → Dp io → Type 0
    PortsFit n s = (n ≤ s.ports.limit) × ((i : ℕ) → i < n → s.ports.id i < s.ports.limit)

    rx_port-returns :
        (s : Dp io) (i n : ℕ)
        → Serves io s
        → PortsFit n s
        → i < n
        → (s' : Dp io) × (rx_port io rx_burst s i ≡ done s')
          × Serves io s'
          × KeepsPorts s s'
          × (s'.nic ≡ (rx_burst s.nic (s.ports.id i) s.bq.id pkt_rd_size).1)
          × ((a : ℕ)
              → held io a s'
                ≡ held io a s + weight a (rx_burst s.nic (s.ports.id i) s.bq.id pkt_rd_size).0)
    unfolding rx_port
    rx_port-returns s i n v (within, numbers) l =
        let place : ltb i s.ports.limit ≡ true = ground arith in
        let number : ltb (s.ports.id i) s.ports.limit ≡ true =
          (let f = numbers i l in ground arith) in
        let got = rx_burst s.nic (s.ports.id i) s.bq.id pkt_rd_size in
        let (s', e, v', k, nic, h) = rx_got-returns s (s.ports.id i) got.0 got.1 v in
        (s', rw (place, number) e, v', k, nic, h)

    kept-PortsFit : (s s' : Dp io) (n : ℕ) → KeepsPorts s s' → PortsFit n s → PortsFit n s'
    kept-PortsFit s s' n k (within, numbers) = (
      subst (λ m. n ≤ m) (sym k.limit) within,
      λ i l.
          let at : s'.ports.id i ≡ s.ports.id i = ap (λ f. f i) k.id in
          omega (arith, numbers i l, at, k.limit),
    )

    rx_from-returns :
        (n i : ℕ) (s : Dp io)
        → Serves io s
        → PortsFit (i + n) s
        → (s' : Dp io) × (rx_from io rx_burst n i s ≡ done s')
          × Serves io s'
          × ((a : ℕ)
              → held io a s' ≡ held io a s + weight a (arrivals n i s.ports.id s.bq.id s.nic))
    unfolding rx_from arrivals
    rx_from-returns zero i s v f = (s, refl, v, λ a. omega (arith, weight-nil a))
    rx_from-returns (suc n) i s v f =
        let got = rx_burst s.nic (s.ports.id i) s.bq.id pkt_rd_size in
        let (s1, e, v1, k, nic, h) = rx_port-returns s i (i + suc n) v f (omega arith) in
        let shift : i + suc n ≡ i + 1 + n = omega arith in
        let f1 = subst (λ m. PortsFit m s1) shift (kept-PortsFit s s1 (i + suc n) k f) in
        let (s2, runs, v2, h2) = rx_from-returns n (i + 1) s1 v1 f1 in
        (
          s2,
          rw e runs,
          v2,
          λ a.
              let h2' = rw (k.id, k.queue, nic) at h2 a in
              let rest = arrivals n (i + 1) s.ports.id s.bq.id got.1 in
              omega (arith, h a, h2', weight-append a got.0 rest),
        )

    -- One turn of an RX thread, whatever the device hands out: if every buffer of the thread has room for
    -- a packet, every chain leads to known types, every type is mapped to an instance or to none, and the
    -- ports' places and numbers are within the arrays, it returns without a fault or an endless loop; all
    -- this holds of the buffers, chains and types afterwards; and in the rings, the buffers, the freed
    -- packets and the wire together each address stands as often as before and in the packets that the
    -- device handed out for the ports in order.
    pub rx_turn-returns :
        (s : Dp io)
        → Serves io s
        → PortsFit s.ports.n_ports s
        → (s' : Dp io) × (rx_turn io rx_burst s ≡ done s')
          × Serves io s'
          × ((a : ℕ)
              → held io a s'
                ≡ held io a s + weight a (arrivals s.ports.n_ports 0 s.ports.id s.bq.id s.nic))
    unfolding rx_turn
    rx_turn-returns s v f =
        let from_0 : s.ports.n_ports ≡ 0 + s.ports.n_ports = omega arith in
        rx_from-returns s.ports.n_ports 0 s v (subst (λ m. PortsFit m s) from_0 f)
