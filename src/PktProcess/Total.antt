-- ===== src/PktProcess/Total.antt =====
-- A receive thread never faults and never hangs: with every chain well formed and an open instance for
-- every type, each batch is processed to its end and each buffer has room again.
use d2sc.Prelude.{
  ℕ, zero, suc, ◌+◌, ◌<◌, ◌≡◌, refl, ap, ◌∙◌, inl, inr, true, not, ◌||◌, Option, none, some, List,
  [], ◌∷◌, ◌++◌, arith, ltb, ◌==◌, Bool-cases, length, length-append, update_self, update_ne, done,
}
use d2sc.Common.{max_nfs, max_nts, pkt_rd_size, nf_is_valid, Mbuf}
use d2sc.Buffers.{PktIo, arrive, bump_index}
use d2sc.PktProcess.{
  flush_bqs_from, Dp, flushed, flush_nf_bq, flush_all_bqs, flush_if_full, enqueue_to, enqueue_bq,
  set_rx_buf, pkt_drop, rx_one, rx_all, process_rx_batch,
}
use d2sc.PktProcess.Serves.{
  Serves, Nearly, route-leads, flush_bqs_from-Serves, flush_if_full-Serves, dropped-Serves,
}

module _ (io : PktIo) where
  buffered-Nearly :
      (s : Dp io) (i : ℕ) (p : Mbuf)
      → i < max_nfs
      → Serves io s
      → Nearly io (set_rx_buf io s i (s.bq.rx_bufs i ++ p ∷ [])) i
  buffered-Nearly s i p l v = record {
    here =
        let r = v.room i l in
        let self = ap length (update_self s.bq.rx_bufs i (s.bq.rx_bufs i ++ p ∷ [])) in
        omega (arith, self, length-append (s.bq.rx_bufs i) (p ∷ []));
    others = λ j lj ne.
        let same = ap length (update_ne s.bq.rx_bufs i j (s.bq.rx_bufs i ++ p ∷ []) ne) in
        omega (arith, same, v.room j lj);
    default_leads = v.default_leads;
    flows_lead = v.flows_lead;
    mapped = v.mapped;
  }

  -- What the hand-over to an NF leaves alone.
  pub record Keeps (s s' : Dp io) : Type 0 where
    pub tx : s'.bq.tx ≡ s.bq.tx
    pub owner : s'.bq.mgr_nf ≡ s.bq.mgr_nf
    pub ports : s'.ports ≡ s.ports
    pub queue : s'.bq.id ≡ s.bq.id
    pub nic : s'.nic ≡ s.nic

  flushed-Keeps :
      (s t : Dp io) (i : ℕ) (buf : List Mbuf) (o : Option io.Ring)
      → Keeps t s
      → Keeps t (flushed io s i buf o)
  flushed-Keeps s t i buf none k = record {
    tx = k.tx;
    owner = k.owner;
    ports = k.ports;
    queue = k.queue;
    nic = k.nic;
  }
  flushed-Keeps s t i buf (some r) k = record {
    tx = k.tx;
    owner = k.owner;
    ports = k.ports;
    queue = k.queue;
    nic = k.nic;
  }

  flush_nf_bq-Keeps : (s t : Dp io) (i : ℕ) → Keeps t s → Keeps t (flush_nf_bq io s i)
  unfolding flush_nf_bq
  flush_nf_bq-Keeps s t i k =
      elim (Bool-cases ((length (s.bq.rx_bufs i) == 0) || not (nf_is_valid s.shared i))) [
        | inl skip ↦ rw skip k
        | inr go ↦ rw go (flushed-Keeps s t i _ _ k)
      ]

  flush_if_full-Keeps : (s t : Dp io) (i : ℕ) → Keeps t s → Keeps t (flush_if_full io s i)
  flush_if_full-Keeps s t i k = elim (Bool-cases (length (s.bq.rx_bufs i) == pkt_rd_size)) [
    | inl full ↦ rw full (flush_nf_bq-Keeps s t i k)
    | inr short ↦ rw short k
  ]

  enqueue_to-returns :
      (s : Dp io) (p : Mbuf) (i : ℕ)
      → i < max_nfs
      → Serves io s
      → (s' : Dp io) × (enqueue_to io s p i ≡ done s') × Serves io s' × Keeps s s'
  enqueue_to-returns s p i l v = elim (Bool-cases (i == 0)) [
    | inl none_of ↦ (
      (pkt_drop io s p).1,
      rw none_of refl,
      dropped-Serves io s p v,
      record { tx = refl; owner = refl; ports = refl; queue = refl; nic = refl },
    )
    | inr some_of ↦
        let known : ltb i max_nfs ≡ true = ground arith in
        elim (Bool-cases (nf_is_valid s.shared i)) [
          | inr off ↦ (
            (pkt_drop io s p).1,
            rw (some_of, known, off) refl,
            dropped-Serves io s p v,
            record { tx = refl; owner = refl; ports = refl; queue = refl; nic = refl },
          )
          | inl valid ↦
              let space : ltb (length (s.bq.rx_bufs i)) pkt_rd_size ≡ true =
                (let r = v.room i l in ground arith) in
              (
                flush_if_full io (set_rx_buf io s i (s.bq.rx_bufs i ++ p ∷ [])) i,
                rw (some_of, known, valid, space) refl,
                flush_if_full-Serves io (set_rx_buf io s i (s.bq.rx_bufs i ++ p ∷ [])) i
                    (buffered-Nearly s i p l v) valid,
                flush_if_full-Keeps (set_rx_buf io s i (s.bq.rx_bufs i ++ p ∷ [])) s i
                    (record { tx = refl; owner = refl; ports = refl; queue = refl; nic = refl }),
              )
        ]
  ]

  pub enqueue_bq-returns :
      (s : Dp io) (p : Mbuf) (t : ℕ)
      → t < max_nts
      → Serves io s
      → (s' : Dp io) × (enqueue_bq io s t p ≡ done s') × Serves io s' × Keeps s s'
  unfolding enqueue_bq
  enqueue_bq-returns s p t l v =
      let (i, e, li) = v.mapped t p.rss l in
      let (s', runs, v', k) = enqueue_to-returns s p i li v in (s', rw e runs, v', k)

  flush_bqs_from-Keeps : (n i : ℕ) (s t : Dp io) → Keeps t s → Keeps t (flush_bqs_from io n i s)
  unfolding flush_bqs_from
  flush_bqs_from-Keeps zero i s t k = k
  flush_bqs_from-Keeps (suc n) i s t k =
      flush_bqs_from-Keeps n (i + 1) (flush_nf_bq io s i) t (flush_nf_bq-Keeps s t i k)

  Keeps-trans : (s t u : Dp io) → Keeps s t → Keeps t u → Keeps s u
  Keeps-trans s t u k l = record {
    tx = l.tx ∙ k.tx;
    owner = l.owner ∙ k.owner;
    ports = l.ports ∙ k.ports;
    queue = l.queue ∙ k.queue;
    nic = l.nic ∙ k.nic;
  }

  rx_one-returns :
      (s : Dp io) (p : Mbuf)
      → Serves io s
      → (s' : Dp io) × (rx_one io s p ≡ done s') × Serves io s' × Keeps s s'
  unfolding rx_one
  rx_one-returns s p v =
      let (p', e, l) = route-leads io s (arrive p) v in
      let (s', runs, v', k) = enqueue_bq-returns s (bump_index p') p'.info.dst l v in
      (s', rw e runs, v', k)

  rx_all-returns :
      (s : Dp io) (ps : List Mbuf)
      → Serves io s
      → (s' : Dp io) × (rx_all io s ps ≡ done s') × Serves io s' × Keeps s s'
  unfolding rx_all
  rx_all-returns s [] v =
      (s, refl, v, record { tx = refl; owner = refl; ports = refl; queue = refl; nic = refl })
  rx_all-returns s (p ∷ ps) v =
      let (s1, e, v1, k1) = rx_one-returns s p v in
      let (s2, runs, v2, k2) = rx_all-returns s1 ps v1 in
      (s2, rw e runs, v2, Keeps-trans s s1 s2 k1 k2)

  -- A batch leaves the ports, the device and the thread's own numbers alone.
  pub process_rx_batch-Keeps :
      (s : Dp io) (ps : List Mbuf)
      → Serves io s
      → (s' : Dp io) × (process_rx_batch io s ps ≡ done s') × Serves io s' × Keeps s s'
  unfolding process_rx_batch flush_all_bqs
  process_rx_batch-Keeps s ps v =
      let (s1, e, v1, k) = rx_all-returns s ps v in
      (
        flush_all_bqs io s1,
        rw e refl,
        flush_bqs_from-Serves io max_nfs 0 s1 (omega arith) v1,
        flush_bqs_from-Keeps max_nfs 0 s1 s k,
      )

  -- If every buffer of the thread has room for a packet, every chain leads to known types, and every
  -- type is mapped to an instance or to none, `d2sc_pkt_process_rx_batch` returns on any batch, without
  -- a fault or an endless loop, and all this holds afterwards again.
  pub process_rx_batch-returns :
      (s : Dp io) (ps : List Mbuf)
      → Serves io s
      → (s' : Dp io) × (process_rx_batch io s ps ≡ done s') × Serves io s'
  process_rx_batch-returns s ps v =
      let (s', e, v', k) = process_rx_batch-Keeps s ps v in (s', e, v')
