-- ===== src/Examples/Forward.antt =====
-- src/examples/simple_forward/forward.c
use d2sc.Prelude.{ℕ, ◌%◌, ◌^◌, ◌<◌, ◌≡◌, refl, List, [], ◌∷◌, map, length}
use d2sc.Common.{act_tonf, Mbuf, set_meta}
use d2sc.Examples.{Progress, count, counts, counts-Divides, Divides}

pub record Forward : Type 0 where
  pub progress : Progress
  pub destination : ℕ

-- The packet that leaves, for the NFs of type `dst`; a type is a uint16_t.
abbrev pub forwarded : ℕ → Mbuf → Mbuf
forwarded dst pkt = set_meta pkt (record pkt.info { act = act_tonf; dst = dst % 65536 })

-- The result, the packet and the state.
unfoldable pub packet_handler : Forward → Mbuf → ℕ × Mbuf × Forward
packet_handler s pkt =
    (0, forwarded s.destination pkt, record s { progress = count pkt s.progress })

-- The calls for the packets of a batch, as `d2sc_nfrt_dequeue_pkts` makes them.
unfoldable pub handle_all : Forward → List Mbuf → List Mbuf × Forward
handle_all s [] = ([], s)
handle_all s (p ∷ ps) =
    let r = packet_handler s p in let rest = handle_all r.2 ps in (r.1 ∷ rest.0, rest.1)

handle_all-eq :
    (s : Forward) (ps : List Mbuf)
    → handle_all s ps
      ≡ (map (forwarded s.destination) ps, record s { progress = counts ps s.progress })
unfolding handle_all packet_handler counts
handle_all-eq s [] = refl
handle_all-eq s (p ∷ ps) = rw (handle_all-eq (record s { progress = count p s.progress }) ps) refl

-- If the counter is below the number of packets between two displays, then a batch leaves with each
-- packet marked for the NFs of the destination's type, in order, and nothing else of it changed; each
-- `print_delay` packets give one display, and the counter is the rest of that division.
pub handle_all-Divides :
    (s : Forward) (ps : List Mbuf)
    → s.progress.counter < s.progress.print_delay
    → s.progress.print_delay < 2 ^ 32
    → (s' : Forward) × (handle_all s ps ≡ (map (forwarded s.destination) ps, s'))
      × (s'.destination ≡ s.destination)
      × Divides s.progress (length ps) s'.progress
handle_all-Divides s ps l b = (
  record s { progress = counts ps s.progress },
  handle_all-eq s ps,
  refl,
  counts-Divides ps s.progress l b,
)
