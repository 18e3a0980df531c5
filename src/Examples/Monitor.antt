-- ===== src/Examples/Monitor.antt =====
-- src/examples/basic_monitor/monitor.c
use d2sc.Prelude.{
  ℕ, ◌+◌, ◌-◌, ◌/◌, ◌%◌, ◌^◌, ◌<◌, ◌≡◌, refl, Bool, true, false, List, [], ◌∷◌, map, arith, ltb,
  ◌==◌, if◌then◌else◌, length, All, Outcome, done, fault, ◌>>=◌,
}
use d2sc.Common.{act_out, Mbuf, set_meta}
use d2sc.PktHelper.{PortInfo, swap_src_mac_addr}
use d2sc.Examples.{Progress, count, to_u32}

-- The packets received, a uint32_t, the cycles at the last message, and the totals that the messages
-- said, the last first.
pub record Monitor : Type 0 where
  pub progress : Progress
  pub total_packets : ℕ
  pub last_cycle : ℕ
  pub messages : List ℕ

-- The option -p, which is all that it takes; the flag is whether the parse succeeds.
pub parse_app_args : List (ℕ × List ℕ) → ℕ → Bool × ℕ
parse_app_args [] delay = (true, delay)
parse_app_args ((c, arg) ∷ opts) delay =
    let rest = parse_app_args opts (to_u32 arg) in if c == 112 then rest else (false, delay)

-- Cycles that pass between messages: more than five seconds, counted in whole seconds. A timer of 0 Hz
-- would be divided by.
unfoldable pub callback_handler : ℕ → ℕ → Monitor → Outcome (Bool × Monitor)
callback_handler hz cur_cycles s =
    if hz == 0
    then fault
    else if ltb 5 ((((cur_cycles + 2 ^ 64) - s.last_cycle) % 2 ^ 64) / hz)
    then done (false, record s { last_cycle = cur_cycles; messages = s.total_packets ∷ s.messages })
    else done (false, s)

-- The packet that goes out of the port that it came from, from that port's address to its sender.
abbrev pub monitored : PortInfo → Mbuf → Mbuf
monitored ports pkt = record pkt {
  info = record pkt.info { act = act_out; dst = pkt.port };
  ether = record { d_addr = pkt.ether.s_addr; s_addr = ports.mac pkt.port };
}

unfoldable pub packet_handler : PortInfo → Monitor → Mbuf → Outcome (ℕ × Mbuf × Monitor)
packet_handler ports s pkt =
    let out = set_meta pkt (record pkt.info { act = act_out; dst = pkt.port }) in
    swap_src_mac_addr out out.info.dst ports >>= λ p. done (
      0,
      p,
      record s { progress = count pkt s.progress; total_packets = (s.total_packets + 1) % 2 ^ 32 },
    )

-- The calls for the packets of a batch.
unfoldable pub handle_all : PortInfo → Monitor → List Mbuf → Outcome (List Mbuf × Monitor)
handle_all ports s [] = done ([], s)
handle_all ports s (p ∷ ps) = do
  r ← packet_handler ports s p
  rest ← handle_all ports r.2 ps
  done (r.1 ∷ rest.0, rest.1)

-- If the ports that the packets come from are in range, a batch is turned round, in order, and counted.
pub handle_all-monitors :
    (ports : PortInfo) (ps : List Mbuf) (s : Monitor)
    → All (λ p. p.port < ports.limit) ps
    → (s' : Monitor) × (handle_all ports s ps ≡ done (map (monitored ports) ps, s'))
      × (s'.total_packets % 2 ^ 32 ≡ (s.total_packets + length ps) % 2 ^ 32)
      × (s'.messages ≡ s.messages)
unfolding handle_all packet_handler swap_src_mac_addr
handle_all-monitors ports [] s known = (s, refl, omega arith, refl)
handle_all-monitors ports (p ∷ ps) s (l, known) =
    let inside : ltb p.port ports.limit ≡ true = ground arith in
    let (s', e, total, messages) =
      handle_all-monitors ports ps
        (record s { progress = count p s.progress; total_packets = (s.total_packets + 1) % 2 ^ 32 })
        known in
    (s', rw (inside, e) refl, omega (arith, total), messages)
