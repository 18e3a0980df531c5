-- ===== src/Examples/Turns.antt =====
-- The handlers of the examples in an NF's turn: no packet is lost or doubled.
use d2sc.Prelude.{
  ℕ, ◌<◌, ◌≡◌, refl, ◌∙◌, ◌⊎◌, inl, inr, true, List, [], ◌∷◌, arith, ◌==◌, if◌then◌else◌, add_u64,
  All, done,
}
use d2sc.Common.{max_nfs, act_tonf, act_out, Mbuf}
use d2sc.PktHelper.{PortInfo}
use d2sc.Buffers.{PktIo}
use d2sc.PktProcess.{Dp, with_stats}
use d2sc.PktProcess.Census.{held}
use d2sc.PktProcess.Tx.{tx_kept}
use d2sc.Threads.{handle_pkts, dequeue_pkts, nf_turn}
use d2sc.Threads.Turns.{nf_turn-held}
use d2sc.Examples.Forward.{forwarded}
use d2sc.Examples.Monitor.{monitored}

-- What the examples make of a packet: the same packet, for an NF or for a port.
pub record Passes (handler : Mbuf → ℕ × Mbuf) : Type 0 where
  pub addr : (p : Mbuf) → (handler p).1.addr ≡ p.addr
  pub act : (p : Mbuf) → ((handler p).1.info.act ≡ act_tonf) ⊎ ((handler p).1.info.act ≡ act_out)

pub forwarded-Passes : (dst : ℕ) → Passes (λ p. (0, forwarded dst p))
forwarded-Passes dst = record { addr = λ p. refl; act = λ p. inl refl }

monitored-Passes : (ports : PortInfo) → Passes (λ p. (0, monitored ports p))
monitored-Passes ports = record { addr = λ p. refl; act = λ p. inr refl }

module _ (io : PktIo) (i : ℕ) where
  passed-kept :
      (s : Dp io) (p : Mbuf)
      → (p.info.act ≡ act_tonf) ⊎ (p.info.act ≡ act_out)
      → s.bq.mgr_nf ≡ 0
      → tx_kept io s i p ≡ true
  unfolding tx_kept
  passed-kept s p (inl nf) own = ground arith
  passed-kept s p (inr out) own = ground arith

  handle_pkts-kept :
      (handler : Mbuf → ℕ × Mbuf) (s0 : Dp io)
      → Passes handler
      → s0.bq.mgr_nf ≡ 0
      → (ps : List Mbuf) (s : Dp io)
      → All (λ p. tx_kept io s0 i p ≡ true) (handle_pkts io handler i s ps).0
  unfolding handle_pkts
  handle_pkts-kept handler s0 h own [] s = tt
  handle_pkts-kept handler s0 h own (p ∷ ps) s = (
    passed-kept s0 (handler p).1 (h.act p) own,
    handle_pkts-kept handler s0 h own ps (
        if (handler p).0 == 0
        then s
        else with_stats io s i (λ st. record st { tx_buf = add_u64 st.tx_buf 1 })),
  )

  handle_pkts-mgr_nf :
      (handler : Mbuf → ℕ × Mbuf) (ps : List Mbuf) (s : Dp io)
      → (handle_pkts io handler i s ps).1.bq.mgr_nf ≡ s.bq.mgr_nf
  unfolding handle_pkts
  handle_pkts-mgr_nf handler [] s = refl
  handle_pkts-mgr_nf handler (p ∷ ps) s =
      handle_pkts-mgr_nf handler ps (
        if (handler p).0 == 0
        then s
        else with_stats io s i (λ st. record st { tx_buf = add_u64 st.tx_buf 1 }))
      ∙ ground arith

  pub Passes-held :
      (a : ℕ) (handler : Mbuf → ℕ × Mbuf) (s s' : Dp io)
      → Passes handler
      → i < max_nfs
      → (s.shared.nfs i).inst_id ≡ i
      → s.bq.mgr_nf ≡ 0
      → nf_turn io handler i s ≡ done s'
      → held io a s' ≡ held io a s
  unfolding dequeue_pkts
  Passes-held a handler s s' h l id own runs =
      nf_turn-held io a handler i s s' l id h.addr
        (handle_pkts-kept handler (dequeue_pkts io handler i s).1 h
          (handle_pkts-mgr_nf handler _ _ ∙ own) _ _)
        runs

  -- A turn of simple_forward, and one of basic_monitor, in an NF's own entry, when they return, lose no
  -- packet and double none: each address stands as often in the rings, the buffers, the freed packets
  -- and the wire together as before.
  pub turns-held :
      (a dst : ℕ) (ports : PortInfo) (s s1 s2 : Dp io)
      → i < max_nfs
      → (s.shared.nfs i).inst_id ≡ i
      → s.bq.mgr_nf ≡ 0
      → nf_turn io (λ p. (0, forwarded dst p)) i s ≡ done s1
      → nf_turn io (λ p. (0, monitored ports p)) i s ≡ done s2
      → (held io a s1 ≡ held io a s) × (held io a s2 ≡ held io a s)
  turns-held a dst ports s s1 s2 l id own runs1 runs2 = (
    Passes-held a (λ p. (0, forwarded dst p)) s s1 (forwarded-Passes dst) l id own runs1,
    Passes-held a (λ p. (0, monitored ports p)) s s2 (monitored-Passes ports) l id own runs2,
  )
