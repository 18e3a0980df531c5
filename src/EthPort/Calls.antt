-- ===== src/EthPort/Calls.antt =====
-- `init_port` against the plain list of its calls.
use d2sc.Prelude.{
  ℕ, zero, suc, ◌+◌, ◌≡◌, refl, inl, inr, Bool, true, false, List, [], ◌∷◌, ◌++◌, if◌then◌else◌,
  Bool-cases,
}
use d2sc.Common.{max_nfs}
use d2sc.EthPort.{
  PortCall, configure, rx_queue, tx_queue, promiscuous, start, queues, init_port, rx_rings,
  ring_desc,
}

-- The calls for the queues from `q` on.
queue_calls : (ℕ → PortCall) → ℕ → ℕ → List PortCall
queue_calls call zero q = []
queue_calls call (suc n) q = call q ∷ queue_calls call n (q + 1)

-- A port is configured, its RX queues and its TX queues are set up, and it is started.
pub port_calls : ℕ → List PortCall
port_calls p =
    (configure p rx_rings max_nfs ∷ queue_calls (λ q. rx_queue p q ring_desc) rx_rings 0)
    ++ (queue_calls (λ q. tx_queue p q ring_desc) max_nfs 0 ++ (promiscuous p ∷ start p ∷ []))

-- The result of promiscuous mode is not looked at.
abbrev may_go_on : (PortCall → Bool) → PortCall → Bool
may_go_on accepts (promiscuous p) = true
may_go_on accepts c = accepts c

-- Calls in order, up to the first one that fails.
pub run_calls : (PortCall → Bool) → List PortCall → Bool × List PortCall
run_calls accepts [] = (true, [])
run_calls accepts (c ∷ cs) =
    let rest = run_calls accepts cs in
    if may_go_on accepts c then (rest.0, c ∷ rest.1) else (false, c ∷ [])

module _ (accepts : PortCall → Bool) where
  -- What is left when the first part of the calls has been made.
  then_run : Bool × List PortCall → List PortCall → Bool × List PortCall
  then_run (true, made) cs = let rest = run_calls accepts cs in (rest.0, made ++ rest.1)
  then_run (false, made) cs = (false, made)

  then_run-cons :
      (c : PortCall) (r : Bool × List PortCall) (ds : List PortCall)
      → ((then_run r ds).0, c ∷ (then_run r ds).1) ≡ then_run (r.0, c ∷ r.1) ds
  unfolding then_run
  then_run-cons c (true, made) ds = refl
  then_run-cons c (false, made) ds = refl

  run_calls-append :
      (cs ds : List PortCall) → run_calls accepts (cs ++ ds) ≡ then_run (run_calls accepts cs) ds
  unfolding run_calls then_run
  run_calls-append [] ds = refl
  run_calls-append (c ∷ cs) ds = elim (Bool-cases (may_go_on accepts c)) [
    | inl on ↦ rw (on, run_calls-append cs ds) (then_run-cons c (run_calls accepts cs) ds)
    | inr off ↦ rw off refl
  ]

  queues-run :
      (call : ℕ → PortCall) (n q : ℕ)
      → ((i : ℕ) → may_go_on accepts (call i) ≡ accepts (call i))
      → queues call accepts n q ≡ run_calls accepts (queue_calls call n q)
  unfolding queues run_calls queue_calls
  queues-run call zero q checked = refl
  queues-run call (suc n) q checked = rw (checked q, queues-run call n (q + 1) checked) refl

  -- The ends of `init_port`, from what the loops over the queues came to.
  ends :
      (setup : PortCall) (rx tx : Bool × List PortCall) (f : Bool) (txs last : List PortCall)
      → run_calls accepts txs ≡ tx
      → run_calls accepts last ≡ (f, last)
      → ◌≡◌ {A = Bool × List PortCall}
          (if rx.0
            then if tx.0
              then (f, (setup ∷ rx.1) ++ (tx.1 ++ last))
              else (false, (setup ∷ rx.1) ++ tx.1)
            else (false, setup ∷ rx.1))
          ((then_run rx (txs ++ last)).0, setup ∷ (then_run rx (txs ++ last)).1)
  unfolding then_run
  ends setup (false, made) tx f txs last e e' = refl
  ends setup (true, made) (true, more) f txs last e e' =
      rw (run_calls-append txs last, e, then_run, e') refl
  ends setup (true, made) (false, more) f txs last e e' =
      rw (run_calls-append txs last, e, then_run) refl

  last-run :
      (p : ℕ)
      → run_calls accepts (promiscuous p ∷ start p ∷ [])
        ≡ (accepts (start p), promiscuous p ∷ start p ∷ [])
  unfolding run_calls
  last-run p = elim (Bool-cases (accepts (start p))) [ inl on ↦ rw on refl | inr off ↦ rw off refl ]

  configured :
      (setup : PortCall) (cs ds : List PortCall)
      → may_go_on accepts setup ≡ true
      → run_calls accepts (setup ∷ (cs ++ ds))
        ≡ ((then_run (run_calls accepts cs) ds).0, setup ∷ (then_run (run_calls accepts cs) ds).1)
  unfolding run_calls
  configured setup cs ds on = rw (on, run_calls-append cs ds) refl

  refused :
      (setup : PortCall) (cs : List PortCall)
      → may_go_on accepts setup ≡ false
      → run_calls accepts (setup ∷ cs) ≡ (false, setup ∷ [])
  unfolding run_calls
  refused setup cs off = rw off refl

  -- `init_port` makes the calls of `port_calls` in their order, up to the first one that fails, and
  -- succeeds exactly if none fails; whether promiscuous mode was set is not looked at.
  pub init_port-eq-run_calls : (p : ℕ) → init_port accepts p ≡ run_calls accepts (port_calls p)
  unfolding init_port port_calls
  init_port-eq-run_calls p =
      let rx = queue_calls (λ q. rx_queue p q ring_desc) rx_rings 0 in
      let tx = queue_calls (λ q. tx_queue p q ring_desc) max_nfs 0 in
      let setup : PortCall = configure p rx_rings max_nfs in
      let last : List PortCall = promiscuous p ∷ start p ∷ [] in
      elim (Bool-cases (accepts (configure p rx_rings max_nfs))) [
        | inr off ↦ rw (refused setup (rx ++ (tx ++ last)) off, init_port, off) refl
        | inl on ↦
            rw
              (
                configured setup rx (tx ++ last) on,
                init_port,
                on,
                queues-run (λ q. rx_queue p q ring_desc) rx_rings 0 (λ i. refl),
                queues-run (λ q. tx_queue p q ring_desc) max_nfs 0 (λ i. refl),
              )
              (ends setup (run_calls accepts rx) (run_calls accepts tx) (accepts (start p)) tx last
                refl (last-run p))
      ]
