-- ===== src/PktHelper.antt =====
-- Header access and MAC rewriting: src/d2sc_nfrt/d2sc_pkt_helper.c. A header pointer that the C code
-- leaves null is `none`; the packet pointers that the callers pass are never null.
use d2sc.Prelude.{
  ℕ, ◌/◌, ◌%◌, ◌<◌, ◌≡◌, Bool, true, false, Option, none, some, List, arith, ltb, ◌==◌,
  if◌then◌else◌, Outcome, done, fault, ◌>>=◌,
}
use d2sc.Common.{Ipv4Hdr, L4Hdr, Mbuf}

abbrev pub ip_protocol_tcp : ℕ
ip_protocol_tcp = 6

abbrev pub ip_protocol_udp : ℕ
ip_protocol_udp = 17

-- struct port_info; `limit` is the build's RTE_MAX_ETHPORTS, the size of its arrays.
pub record PortInfo : Type 0 where
  pub limit : ℕ
  pub n_ports : ℕ
  pub id : ℕ → ℕ
  pub mac : ℕ → List ℕ
  pub rx : ℕ → ℕ
  pub tx : ℕ → ℕ
  pub tx_drop : ℕ → ℕ

-- (version_ihl >> 4) & 0b1111
abbrev pub version : Mbuf → ℕ
version pkt = (pkt.ipv4.version_ihl / 16) % 16

unfoldable pub ipv4_hdr : Mbuf → Option Ipv4Hdr
ipv4_hdr pkt = if version pkt == 4 then some pkt.ipv4 else none

-- The header at the place of the transport header, if the packet is IPv4 of the given protocol.
abbrev transport_hdr : ℕ → Mbuf → Option Ipv4Hdr → Option L4Hdr
transport_hdr proto pkt none = none
transport_hdr proto pkt (some h) = if h.next_proto_id == proto then some pkt.l4 else none

unfoldable pub tcp_hdr : Mbuf → Option L4Hdr
unfolding ipv4_hdr
tcp_hdr pkt = transport_hdr ip_protocol_tcp pkt (ipv4_hdr pkt)

unfoldable pub udp_hdr : Mbuf → Option L4Hdr
unfolding ipv4_hdr
udp_hdr pkt = transport_hdr ip_protocol_udp pkt (ipv4_hdr pkt)

abbrev pub is_some {ℓ} : {A : Type ℓ} → Option A → Bool
is_some none = false
is_some (some a) = true

unfoldable pub pkt_is_ipv4 : Mbuf → Bool
unfolding ipv4_hdr
pkt_is_ipv4 pkt = is_some (ipv4_hdr pkt)

pub pkt_is_tcp : Mbuf → Bool
unfolding tcp_hdr
pkt_is_tcp pkt = is_some (tcp_hdr pkt)

pub pkt_is_udp : Mbuf → Bool
unfolding udp_hdr
pkt_is_udp pkt = is_some (udp_hdr pkt)

-- `ports->mac[i]`; outside of the array it faults.
abbrev pub port_mac : PortInfo → ℕ → Outcome (List ℕ)
port_mac ports i = if ltb i ports.limit then done (ports.mac i) else fault

pub set_mac_addr : Mbuf → ℕ → ℕ → PortInfo → Outcome Mbuf
set_mac_addr pkt src_port_id dst_port_id ports = do
  s ← port_mac ports src_port_id
  d ← port_mac ports dst_port_id
  done (record pkt { ether = record { d_addr = d; s_addr = s } })

unfoldable pub swap_src_mac_addr : Mbuf → ℕ → PortInfo → Outcome Mbuf
swap_src_mac_addr pkt dst_port_id ports = do
  m ← port_mac ports dst_port_id
  done (record pkt { ether = record { d_addr = pkt.ether.s_addr; s_addr = m } })

pub swap_dst_mac_addr : Mbuf → ℕ → PortInfo → Outcome Mbuf
swap_dst_mac_addr pkt src_port_id ports = do
  m ← port_mac ports src_port_id
  done (record pkt { ether = record { d_addr = m; s_addr = pkt.ether.d_addr } })

-- A packet is never both TCP and UDP, and either way it is IPv4.
pub tcp_or_udp :
    (pkt : Mbuf)
    → (pkt_is_tcp pkt ≡ true → (pkt_is_ipv4 pkt ≡ true) × (pkt_is_udp pkt ≡ false))
      × (pkt_is_udp pkt ≡ true → (pkt_is_ipv4 pkt ≡ true) × (pkt_is_tcp pkt ≡ false))
unfolding pkt_is_tcp pkt_is_udp pkt_is_ipv4
tcp_or_udp pkt = ground arith

-- Sending a packet back out of a port turns the frame round: swapping on the source side and then on
-- the destination side addresses it to the second port's MAC, from its first sender.
pub swap_src-swap_dst :
    (pkt : Mbuf) (i j : ℕ) (ports : PortInfo)
    → i < ports.limit
    → j < ports.limit
    → (swap_src_mac_addr pkt i ports >>= λ p. swap_dst_mac_addr p j ports)
      ≡ done (record pkt { ether = record { d_addr = ports.mac j; s_addr = pkt.ether.s_addr } })
unfolding swap_src_mac_addr swap_dst_mac_addr
swap_src-swap_dst pkt i j ports hi hj = ground arith
