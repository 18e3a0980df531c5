-- ===== src/PktProcess/Sends.antt =====
-- What lets a transmit thread of the manager hand packets on without a fault, and the port buffers.
use d2sc.Prelude.{
  ℕ, ◌≤◌, ◌<◌, ◌≡◌, refl, ap, ◌∙◌, ◌≢◌, inl, inr, true, false, List, [], ◌∷◌, ◌++◌, arith, ltb, leb,
  ◌==◌, Bool-cases, length, length-append, update, update_self, update_ne, done,
}
use d2sc.Common.{pkt_rd_size, Stats, Mbuf}
use d2sc.Buffers.{PktIo, TxPart, null, tx_thread, tx_buf, set_port_buf, port_bufs}
use d2sc.PktProcess.{Dp, port_flushed, flush_port_bq, enqueue_port, set_tx, pkt_drop, with_stats}
use d2sc.PktProcess.Serves.{Serves, Mapped-stats, dropped-Serves}
use d2sc.PktProcess.Total.{Keeps}

-- Each port has a buffer with room for a packet.
abbrev pub PortRoom : ℕ → TxPart → Type 0
PortRoom limit (tx_thread first last bufs) = (i : ℕ) → i < limit → length (bufs i) < pkt_rd_size
PortRoom limit null = ⊥
PortRoom limit (tx_buf b) = ⊥

-- As `PortRoom`, but the buffer of port `i` may be full.
abbrev PortNearly : ℕ → ℕ → TxPart → Type 0
PortNearly limit i (tx_thread first last bufs) =
    (length (bufs i) ≤ pkt_rd_size) × ((j : ℕ) → j < limit → i ≢ j → length (bufs j) < pkt_rd_size)
PortNearly limit i null = ⊥
PortNearly limit i (tx_buf b) = ⊥

module _ (io : PktIo) where
  pub record Sends (s : Dp io) : Type 0 where
    pub serves : Serves io s
    pub owner : s.bq.mgr_nf ≡ 1
    pub known : s.ports.n_ports ≤ s.ports.limit
    pub ports : PortRoom s.ports.limit s.bq.tx

  pub stats-Sends : (s : Dp io) (i : ℕ) (f : Stats → Stats) → Sends s → Sends (with_stats io s i f)
  stats-Sends s i f v = record {
    serves = record {
      room = v.serves.room;
      default_leads = v.serves.default_leads;
      flows_lead = v.serves.flows_lead;
      mapped = Mapped-stats io s.shared i _ v.serves.mapped;
    };
    owner = v.owner;
    known = v.known;
    ports = v.ports;
  }

  pub drop-Sends : (s : Dp io) (p : Mbuf) → Sends s → Sends (pkt_drop io s p).1
  drop-Sends s p v = record {
    serves = dropped-Serves io s p v.serves;
    owner = v.owner;
    known = v.known;
    ports = v.ports;
  }

  pub Keeps-Sends : (s s' : Dp io) → Keeps io s s' → Serves io s' → Sends s → Sends s'
  Keeps-Sends s s' k v w = record {
    serves = v;
    owner = k.owner ∙ w.owner;
    known = rw k.ports w.known;
    ports = rw (k.ports, k.tx) w.ports;
  }

  -- A thread whose port buffers were changed, and nothing else that matters.
  with_ports :
      (s s' : Dp io)
      → s'.shared ≡ s.shared
      → s'.bq.rx_bufs ≡ s.bq.rx_bufs
      → s'.default_sc ≡ s.default_sc
      → s'.bq.mgr_nf ≡ s.bq.mgr_nf
      → s'.ports.n_ports ≡ s.ports.n_ports
      → s'.ports.limit ≡ s.ports.limit
      → PortRoom s.ports.limit s'.bq.tx
      → Sends s
      → Sends s'
  with_ports s s' es er ed eo en el room v = record {
    serves = record {
      room = rw er v.serves.room;
      default_leads = rw ed v.serves.default_leads;
      flows_lead = v.serves.flows_lead;
      mapped = rw es v.serves.mapped;
    };
    owner = eo ∙ v.owner;
    known = rw (en, el) v.known;
    ports = rw el room;
  }

  emptied-port :
      (limit i : ℕ) (t : TxPart) → PortNearly limit i t → PortRoom limit (set_port_buf t i [])
  emptied-port limit i null n = n
  emptied-port limit i (tx_buf b) n = n
  emptied-port limit i (tx_thread first last bufs) n = λ j l. elim (Bool-cases (i == j)) [
    | inl same ↦ rw same (omega arith)
    | inr other ↦ rw other (n.1 j l (λ q. absurd (ground arith)))
  ]

  put-port :
      (limit i : ℕ) (t : TxPart) (bufs : ℕ → List Mbuf) (p : Mbuf)
      → i < limit
      → port_bufs t ≡ done bufs
      → PortRoom limit t
      → PortNearly limit i (set_port_buf t i (bufs i ++ p ∷ []))
  put-port limit i null bufs p l e r = absurd r
  put-port limit i (tx_buf b) bufs p l e r = absurd r
  put-port limit i (tx_thread first last c) bufs p l e r =
      let same : c ≡ bufs = ground arith in
      let here = ap length (update_self c i (bufs i ++ p ∷ [])) in
      let len = length-append (bufs i) (p ∷ []) in
      let before = ap (λ b. length (b i)) same in
      (
        omega (arith, here, len, before, r i l),
        λ j lj ne. omega (arith, ap length (update_ne c i j (bufs i ++ p ∷ []) ne), r j lj),
      )

  filled-port :
      (limit i : ℕ) (t : TxPart) (bufs : ℕ → List Mbuf) (b : List Mbuf)
      → port_bufs t ≡ done bufs
      → length b < pkt_rd_size
      → PortRoom limit t
      → PortRoom limit (set_port_buf t i b)
  filled-port limit i null bufs b e l r = r
  filled-port limit i (tx_buf x) bufs b e l r = r
  filled-port limit i (tx_thread first last c) bufs b e l r =
      λ j lj. elim (Bool-cases (i == j)) [ inl same ↦ rw same l | inr other ↦ rw other (r j lj) ]

  bufs_of :
      (limit : ℕ) (t : TxPart)
      → PortRoom limit t
      → (bufs : ℕ → List Mbuf) × (port_bufs t ≡ done bufs)
        × ((i : ℕ) → i < limit → length (bufs i) < pkt_rd_size)
  bufs_of limit null r = absurd r
  bufs_of limit (tx_buf b) r = absurd r
  bufs_of limit (tx_thread first last c) r = (c, refl, r)

  port_bufs-set :
      (t : TxPart) (bufs : ℕ → List Mbuf) (i : ℕ) (b : List Mbuf)
      → port_bufs t ≡ done bufs
      → port_bufs (set_port_buf t i b) ≡ done (update bufs i b)
  port_bufs-set null bufs i b e = cc
  port_bufs-set (tx_buf x) bufs i b e = cc
  port_bufs-set (tx_thread first last c) bufs i b e =
      let same : c ≡ bufs = ground arith in ap (λ k. done (update k i b)) same

  -- A packet for any port: the call returns, and the thread can still send.
  pub enqueue_port-returns :
      (s : Dp io) (i : ℕ) (p : Mbuf)
      → Sends s
      → (s' : Dp io) × (enqueue_port io s i p ≡ done s') × Sends s'
  unfolding enqueue_port flush_port_bq
  enqueue_port-returns s i p v = elim (Bool-cases (leb s.ports.n_ports i)) [
    | inl beyond ↦ (s, rw beyond refl, v)
    | inr within ↦
        let k = v.known in
        let below : i < s.ports.limit = ground arith in
        let in_limit : ltb i s.ports.limit ≡ true = ground arith in
        let (bufs, eb, room) = bufs_of s.ports.limit s.bq.tx v.ports in
        let r = room i below in
        let space : ltb (length (bufs i)) pkt_rd_size ≡ true = ground arith in
        let b = bufs i ++ p ∷ [] in
        let s1 = set_tx io s (set_port_buf s.bq.tx i b) in
        elim (Bool-cases (length b == pkt_rd_size)) [
          | inr short ↦
              let enter : enqueue_port io s i p ≡ done s1 =
                rw (within, eb, in_limit, space, short) refl in
              let len = length-append (bufs i) (p ∷ []) in
              let fits : length b < pkt_rd_size = ground arith in
              (
                s1,
                enter,
                with_ports s s1 refl refl refl refl refl refl
                    (filled-port s.ports.limit i s.bq.tx bufs b eb fits v.ports) v,
              )
          | inl full ↦
              let eb' = port_bufs-set s.bq.tx bufs i b eb in
              let own : s.bq.mgr_nf == 1 ≡ true = rw v.owner refl in
              let at = update_self bufs i b in
              let some_pkt : length (update bufs i b i) == 0 ≡ false =
                (let l = ap length at in ground arith) in
              let s2 =
                port_flushed io s1 i (update bufs i b i)
                  (io.tx_burst s1.nic i s1.bq.id (update bufs i b i)) in
              let enter : enqueue_port io s i p ≡ flush_port_bq io s1 i =
                rw (within, eb, in_limit, space, full) refl in
              let flush : flush_port_bq io s1 i ≡ done s2 =
                rw (own, eb', in_limit, some_pkt) refl in
              (
                s2,
                enter ∙ flush,
                with_ports s s2 refl refl refl refl refl refl
                    (emptied-port s.ports.limit i s1.bq.tx
                      (put-port s.ports.limit i s.bq.tx bufs p below eb v.ports))
                    v,
              )
        ]
  ]
