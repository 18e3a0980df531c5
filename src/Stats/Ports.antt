-- ===== src/Stats/Ports.antt =====
-- The lines that a display prints of the ports.
use d2sc.Prelude.{
  ℕ, zero, suc, ◌+◌, ◌/◌, ◌≤◌, ◌<◌, ◌≡◌, refl, ap, ◌∙◌, subst, inl, inr, true, false, Option, List,
  [], ◌∷◌, arith, ltb, ◌==◌, Bool-cases, update, update_self, update_ne, done,
}
use d2sc.PktHelper.{PortInfo}
use d2sc.Stats.{sub_u64, rate, Lasts, PortLine, print_mac, port_heads, port_line, port_lines}

-- The line of port `i`, with the rises since the counters `l` were taken.
abbrev pub line_of : PortInfo → ℕ → Lasts → ℕ → PortLine
line_of ports stime l i = record {
  id = ports.id i;
  rx_pkts = ports.rx (ports.id i);
  rx_pps = sub_u64 (ports.rx (ports.id i)) (l.rx i) / stime;
  tx_pkts = ports.tx (ports.id i);
  tx_pps = sub_u64 (ports.tx (ports.id i)) (l.tx i) / stime;
}

pub lines_from : PortInfo → ℕ → Lasts → ℕ → ℕ → List PortLine
lines_from ports stime l zero i = []
lines_from ports stime l (suc n) i = line_of ports stime l i ∷ lines_from ports stime l n (i + 1)

-- The counters of later ports are all that the later lines need.
lines_from-congr :
    (ports : PortInfo) (stime : ℕ) (l l' : Lasts) (n i : ℕ)
    → ((j : ℕ) → i ≤ j → (l'.rx j ≡ l.rx j) × (l'.tx j ≡ l.tx j))
    → lines_from ports stime l' n i ≡ lines_from ports stime l n i
unfolding lines_from
lines_from-congr ports stime l l' zero i same = refl
lines_from-congr ports stime l l' (suc n) i same =
    let (rx, tx) = same i (omega arith) in
    rw (rx, tx)
      (ap (λ r. line_of ports stime l i ∷ r)
        (lines_from-congr ports stime l l' n (i + 1) (λ j le. same j (omega arith))))

-- The array of the counters has as many places as there can be ports.
pub record PortsFit (ports : PortInfo) : Type 0 where
  pub fits : ports.n_ports ≤ ports.limit
  pub known : (i : ℕ) → i < ports.n_ports → ports.id i < ports.limit

module _ (ports : PortInfo) (fit : PortsFit ports) (stime : ℕ) (pos : 1 ≤ stime) where
  port_lines-eq :
      (n i : ℕ) (l : Lasts)
      → i + n ≤ ports.n_ports
      → (l' : Lasts) × (port_lines ports stime n i l ≡ done (lines_from ports stime l n i, l'))
        × ((j : ℕ)
            → i ≤ j
            → j < i + n
            → (l'.rx j ≡ ports.rx (ports.id j)) × (l'.tx j ≡ ports.tx (ports.id j)))
        × ((j : ℕ) → j < i → (l'.rx j ≡ l.rx j) × (l'.tx j ≡ l.tx j))
  unfolding port_lines port_line rate lines_from
  port_lines-eq zero i l le = (l, refl, λ j lo hi. absurd (omega arith), λ j b. (refl, refl))
  port_lines-eq (suc n) i l le =
      let own : ltb i ports.limit ≡ true = ground (arith, fit.fits) in
      let known = fit.known i (omega arith) in
      let named : ltb (ports.id i) ports.limit ≡ true = ground (arith, known) in
      let nonzero : stime == 0 ≡ false = ground arith in
      let l1 : Lasts = record l {
        rx = update l.rx i (ports.rx (ports.id i));
        tx = update l.tx i (ports.tx (ports.id i));
      } in
      let (l', e, new, old) = port_lines-eq n (i + 1) l1 (omega arith) in
      let tail = lines_from-congr ports stime l l1 n (i + 1) (λ j le'.
        (update_ne l.rx i j _ (λ q. omega arith), update_ne l.tx i j _ (λ q. omega arith))) in
      (
        l',
        rw (own, named, nonzero, e, tail) refl,
        λ j lo hi. elim (Bool-cases (i == j)) [
          | inl here ↦
              let q : i ≡ j = ground arith in
              let (rx, tx) = old i (omega arith) in
              subst (λ k. (l'.rx k ≡ ports.rx (ports.id k)) × (l'.tx k ≡ ports.tx (ports.id k))) q
                (rx ∙ update_self l.rx i _, tx ∙ update_self l.tx i _)
          | inr later ↦ new j (ground arith) (omega arith)
        ],
        λ j b.
            let (rx, tx) = old j (omega arith) in
            (
              rx ∙ update_ne l.rx i j _ (λ q. omega arith),
              tx ∙ update_ne l.tx i j _ (λ q. omega arith),
            ),
      )

  pub port_heads-done :
      (mac : ℕ → List ℕ) (n i : ℕ) (kept : ℕ → Option (List ℕ))
      → i + n ≤ ports.n_ports
      → (r : List (ℕ × List ℕ) × (ℕ → Option (List ℕ))) × (port_heads mac ports n i kept ≡ done r)
  unfolding port_heads
  port_heads-done mac zero i kept le = (_, refl)
  port_heads-done mac (suc n) i kept le =
      let own : ltb i ports.limit ≡ true = ground (arith, fit.fits) in
      let r = print_mac ports.limit mac (ports.id i) kept in
      let (rest, e) = port_heads-done mac n (i + 1) r.1 (omega arith) in
      (((ports.id i, r.0) ∷ rest.0, rest.1), rw (own, e) refl)

  -- If the port numbers are in range and the time is not 0, a display prints each port once, in order,
  -- with its counters and their rises since the last display in each second, and keeps its two
  -- counters for the next one.
  pub port_lines-prints :
      (l : Lasts)
      → (l' : Lasts) × (port_lines ports stime ports.n_ports 0 l
          ≡ done (lines_from ports stime l ports.n_ports 0, l'))
        × ((j : ℕ)
            → j < ports.n_ports
            → (l'.rx j ≡ ports.rx (ports.id j)) × (l'.tx j ≡ ports.tx (ports.id j)))
  port_lines-prints l =
      let (l', e, new, old) = port_lines-eq ports.n_ports 0 l (omega arith) in
      (l', e, λ j b. new j (omega arith) (omega arith))
