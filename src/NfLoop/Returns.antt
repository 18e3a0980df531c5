-- ===== src/NfLoop/Returns.antt =====
-- `d2sc_nfrt_ret_pkt` of src/d2sc_nfrt/d2sc_nfrt.c, with which an NF gives back a packet that it has kept.
use d2sc.Prelude.{
  ℕ, ◌+◌, ◌<◌, ◌≡◌, refl, ap, Bool, true, false, Option, none, some, [], ◌∷◌, ◌++◌, arith, add_u64,
  update, sum_below-update,
}
use d2sc.Common.{max_nfs, Mbuf}
use d2sc.Buffers.{PktIo}
use d2sc.PktProcess.{Dp, with_stats}
use d2sc.PktProcess.Census.{held, weight, weight-append}

module _ (io : PktIo) where
  abbrev returned : ℕ → Dp io → Mbuf → Option io.Ring → Bool × Dp io
  returned i s pkt none = (
    false,
    with_stats io (record s { freed = s.freed ++ pkt ∷ [] }) i
        (λ st. record st { tx_drop = add_u64 st.tx_drop 1 }),
  )
  returned i s pkt (some r) = (
    true,
    with_stats io (record s { tx_q = update s.tx_q i r }) i
        (λ st. record st { tx_ret = add_u64 st.tx_ret 1 }),
  )

  -- For the NF in entry `i`; the flag is whether the result is 0.
  unfoldable pub ret_pkt : ℕ → Dp io → Mbuf → Bool × Dp io
  ret_pkt i s pkt = returned i s pkt (io.enqueue_bulk (s.tx_q i) (pkt ∷ []))

  module _ (a i : ℕ) (l : i < max_nfs) where
    returned-held :
        (s : Dp io) (pkt : Mbuf) (o : Option io.Ring)
        → io.enqueue_bulk (s.tx_q i) (pkt ∷ []) ≡ o
        → held io a (returned i s pkt o).1 ≡ held io a s + weight a (pkt ∷ [])
    unfolding held
    returned-held s pkt none e = omega (arith, weight-append a s.freed (pkt ∷ []))
    returned-held s pkt (some r) e = omega (
      arith,
      sum_below-update max_nfs i (λ x. weight a (io.contents x)) s.tx_q r l,
      ap (weight a) (io.enqueue-contents (s.tx_q i) (pkt ∷ []) e),
      weight-append a (io.contents (s.tx_q i)) (pkt ∷ []),
    )

    -- Whether the ring has room or not, the packet that an NF gives back is in its ring or freed, once,
    -- and no other packet is lost or doubled.
    pub ret_pkt-held :
        (s : Dp io) (pkt : Mbuf) → held io a (ret_pkt i s pkt).1 ≡ held io a s + weight a (pkt ∷ [])
    unfolding ret_pkt
    ret_pkt-held s pkt = returned-held s pkt (io.enqueue_bulk (s.tx_q i) (pkt ∷ [])) refl
