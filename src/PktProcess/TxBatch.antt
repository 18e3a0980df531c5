-- ===== src/PktProcess/TxBatch.antt =====
-- A whole batch from an NF: none of its packets is lost or doubled.
use mathlib.Core.Path.{fun_ext}
use mathlib.Core.Bool.{false≢true}
use d2sc.Prelude.{
  ℕ, ◌+◌, ◌<◌, ◌≡◌, refl, sym, ap, ◌∙◌, ◌≢◌, true, false, Option, none, some, List, [], ◌∷◌, arith,
  All, Outcome, done, fault, hang, exit, ◌>>=◌, >>=-eq-done,
}
use d2sc.Common.{max_nfs, Mbuf, set_meta}
use d2sc.FlowTable.{get_entry}
use d2sc.PktProcess.Frame.{Same, tx_one-Same}
use d2sc.PktProcess.Census.{weight, held}
use d2sc.PktProcess.Tx.{tx_kept, tx_one-held}
use d2sc.Buffers.{PktIo, route_by, count_tonf, count_next}
use d2sc.PktProcess.{
  Dp, enqueue_bq, out_by_owner, process_next_act, tx_one, next, stop, Turn, route, with_stats,
  process_tx_batch, chain_of, stamp, to_next,
}

module _ (io : PktIo) (a : ℕ) where
  chain_of-Same :
      (s s' : Dp io) (e : Option ℕ)
      → s'.default_sc ≡ s.default_sc
      → chain_of io s' e ≡ chain_of io s e
  chain_of-Same s s' none h = h
  chain_of-Same s s' (some i) h = refl

  route-Same : (s s' : Dp io) (p : Mbuf) → Same io s s' → route io s' p ≡ route io s p
  unfolding route
  route-Same s s' p f =
      ap (λ g. get_entry io.hash_lookup p >>= g)
        (fun_ext (λ e. ap (λ c. route_by c p) (chain_of-Same s s' e f.chain)))

  tx_kept-Same :
      (s s' : Dp io) (i : ℕ) (p : Mbuf) → Same io s s' → tx_kept io s' i p ≡ tx_kept io s i p
  unfolding tx_kept
  tx_kept-Same s s' i p f =
      let e : route io s' (stamp io s' i p) ≡ route io s (stamp io s i p) =
        route-Same s s' (stamp io s' i p) f
        ∙ ap (λ k. route io s (set_meta p (record p.info { src = k }))) (f.ids i) in
      rw (e, f.n_ports, f.owner)

  All-kept :
      (s s' : Dp io) (i : ℕ) (ps : List Mbuf)
      → Same io s s'
      → All (λ p. tx_kept io s i p ≡ true) ps
      → All (λ p. tx_kept io s' i p ≡ true) ps
  All-kept s s' i [] f k = tt
  All-kept s s' i (p ∷ ps) f k = (tx_kept-Same s s' i p f ∙ k.0, All-kept s s' i ps f k.1)

  to_next-ne-stop : (m : Outcome (Dp io)) (s' : Dp io) → to_next io m ≢ done (stop s')
  to_next-ne-stop (done s) s' h = cc
  to_next-ne-stop fault s' h = cc
  to_next-ne-stop hang s' h = cc
  to_next-ne-stop exit s' h = cc

  -- The loop returns early only at a packet with an unknown action.
  tx_one-stop :
      (s s' : Dp io) (p : Mbuf) (i : ℕ)
      → tx_one io s p i ≡ done (stop s')
      → tx_kept io s i p ≡ false
  unfolding tx_one tx_kept
  tx_one-stop s s' p i h = ground (
    arith,
    to_next-ne-stop (process_next_act io (with_stats io s i count_next) (stamp io s i p) i) s',
    to_next-ne-stop (enqueue_bq io (with_stats io s i count_tonf) p.info.dst (stamp io s i p)) s',
    to_next-ne-stop (out_by_owner io s (stamp io s i p) i) s',
  )

  -- `d2sc_pkt_process_tx_batch`, when it returns, loses no packet of an NF with a number below 16
  -- and doubles none: the places at which an address stands, in the rings, the buffers, the freed
  -- packets and the wire together, grow by as often as it stands in the batch, if each packet has a
  -- known action, those that leave through the manager name a port below the number of ports, and
  -- those that follow their chain get from it an action of drop, to an NF, or out to such a port.
  pub process_tx_batch-held :
      (s s' : Dp io) (ps : List Mbuf) (i : ℕ)
      → (s.shared.nfs i).inst_id < max_nfs
      → All (λ p. tx_kept io s i p ≡ true) ps
      → process_tx_batch io s ps i ≡ done s'
      → held io a s' ≡ held io a s + weight a ps
  unfolding process_tx_batch weight
  process_tx_batch-held s s' [] i l k h = ground arith
  process_tx_batch-held s s' (p ∷ ps) i l k h =
      let (t, e, h2) = >>=-eq-done (tx_one io s p i) _ h in
      turn t e h2 (λ s1. process_tx_batch-held s1 s' ps i)
    where
      turn :
          (t : Turn io)
          → tx_one io s p i ≡ done t
          → (elim t [ next s1 ↦ process_tx_batch io s1 ps i | stop s1 ↦ done s1 ]) ≡ done s'
          → ((s1 : Dp io)
              → (s1.shared.nfs i).inst_id < max_nfs
              → All (λ q. tx_kept io s1 i q ≡ true) ps
              → process_tx_batch io s1 ps i ≡ done s'
              → held io a s' ≡ held io a s1 + weight a ps)
          → held io a s' ≡ held io a s + weight a (p ∷ ps)
      turn (next s1) e h2 rest =
          let f = tx_one-Same io s s1 p i e in
          let later = rest s1 (rw (f.ids i) l) (All-kept s s1 i ps f k.1) h2 in
          let now = tx_one-held io a s s1 p i l e in omega (arith, later, rw k.0 at now)
      turn (stop s1) e h2 rest = absurd (false≢true (sym (tx_one-stop s s1 p i e) ∙ k.0))
