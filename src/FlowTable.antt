-- ===== src/FlowTable.antt =====
-- The flow key and the table lookup: src/d2sc_nfrt/d2sc_flow_table.{h,c} and d2sc_flow_steer.c. The
-- hash table itself is DPDK's: here it is a function from a key and a hash to an index.
use d2sc.Prelude.{
  ℕ, ◌≡◌, Bool, true, false, ◌||◌, Option, none, some, List, [], ◌∷◌, arith, ◌==◌, if◌then◌else◌,
  Outcome, done, fault, ◌>>=◌,
}
use d2sc.Common.{Ipv4Hdr, L4Hdr, Mbuf}
use d2sc.PktHelper.{
  ipv4_hdr, tcp_hdr, udp_hdr, pkt_is_ipv4, ip_protocol_tcp, ip_protocol_udp, version,
}

-- struct d2sc_ft_ipv4_5tuple
pub record FtKey : Type 0 where
  pub src_addr : ℕ
  pub dst_addr : ℕ
  pub src_port : ℕ
  pub dst_port : ℕ
  pub proto : ℕ

abbrev key_of : Ipv4Hdr → ℕ → ℕ → FtKey
key_of h sp dp = record {
  src_addr = h.src_addr;
  dst_addr = h.dst_addr;
  src_port = sp;
  dst_port = dp;
  proto = h.next_proto_id;
}

-- A read through the header pointer; a null pointer faults.
abbrev key_ports : Ipv4Hdr → Option L4Hdr → Outcome (Option FtKey)
key_ports h none = fault
key_ports h (some l) = done (some (key_of h l.src_port l.dst_port))

abbrev fill_from : Mbuf → Option Ipv4Hdr → Outcome (Option FtKey)
fill_from pkt none = fault
fill_from pkt (some h) =
    if h.next_proto_id == ip_protocol_tcp
    then key_ports h (tcp_hdr pkt)
    else if h.next_proto_id == ip_protocol_udp
    then key_ports h (udp_hdr pkt)
    else done (some (key_of h 0 0))

-- `none` is -EPROTONOSUPPORT.
unfoldable pub fill_key : Mbuf → Outcome (Option FtKey)
fill_key pkt = if pkt_is_ipv4 pkt then fill_from pkt (ipv4_hdr pkt) else done none

-- The key of a packet without the pointer tests of the C code.
pub key_spec : Mbuf → Option FtKey
key_spec pkt =
    if version pkt == 4
    then some (
        if (pkt.ipv4.next_proto_id == 6) || (pkt.ipv4.next_proto_id == 17)
        then key_of pkt.ipv4 pkt.l4.src_port pkt.l4.dst_port
        else key_of pkt.ipv4 0 0)
    else none

-- `d2sc_ft_fill_key` never follows a null header pointer. It gives no key exactly for packets that are
-- not IPv4; the key of TCP and UDP packets has their ports, and that of other protocols has zeros.
pub fill_key-eq-key_spec : (pkt : Mbuf) → fill_key pkt ≡ done (key_spec pkt)
unfolding fill_key key_spec pkt_is_ipv4 ipv4_hdr tcp_hdr udp_hdr
fill_key-eq-key_spec pkt = ground arith

-- `d2sc_ft_lookup_pkt` and `d2sc_fs_get_entry`: the index of the packet's flow, if it is in the table;
-- `none` is a negative result.
abbrev pub look : (FtKey → ℕ → Option ℕ) → ℕ → Option FtKey → Option ℕ
look hash_lookup rss none = none
look hash_lookup rss (some k) = hash_lookup k rss

unfoldable pub lookup_pkt : (FtKey → ℕ → Option ℕ) → Mbuf → Outcome (Option ℕ)
lookup_pkt hash_lookup pkt = do k ← fill_key pkt; done (look hash_lookup pkt.rss k)

unfoldable pub get_entry : (FtKey → ℕ → Option ℕ) → Mbuf → Outcome (Option ℕ)
get_entry hash_lookup pkt = lookup_pkt hash_lookup pkt

-- `d2sc_fs_get_entry` returns on every packet: what the hash table has for the packet's key and RSS
-- hash, or nothing for a packet that has no key.
pub get_entry_lem :
    (hash_lookup : FtKey → ℕ → Option ℕ) (pkt : Mbuf)
    → get_entry hash_lookup pkt ≡ done (look hash_lookup pkt.rss (key_spec pkt))
unfolding get_entry lookup_pkt
get_entry_lem hash_lookup pkt = rw (fill_key-eq-key_spec pkt)

-- struct d2sc_ft without its hash table and its data.
pub record Ft : Type 0 where
  pub cnt : ℕ
  pub entry_size : ℕ

-- The blocks that belong to a table.
pub data FtBlock : Type 0 where
  ft_hash ft_table ft_data : FtBlock

abbrev same_block : FtBlock → FtBlock → Bool
same_block ft_hash ft_hash = true
same_block ft_table ft_table = true
same_block ft_data ft_data = true
same_block _ _ = false

-- rte_hash_free and rte_free
abbrev drop_block : FtBlock → List FtBlock → List FtBlock
drop_block b [] = []
drop_block b (c ∷ cs) = if same_block b c then cs else c ∷ drop_block b cs

-- `d2sc_ft_create`, from which of its three allocations succeed: the table, and the blocks that are
-- allocated when it returns. On a failure it frees what it has.
unfoldable pub ft_create : Bool → Bool → Bool → ℕ → ℕ → Option Ft × List FtBlock
ft_create hash table entries cnt entry_size =
    if hash
    then if table
      then if entries
        then (
          some (record { cnt = cnt; entry_size = entry_size }),
          ft_hash ∷ ft_table ∷ ft_data ∷ [],
        )
        else (none, drop_block ft_table (drop_block ft_hash (ft_hash ∷ ft_table ∷ [])))
      else (none, drop_block ft_hash (ft_hash ∷ []))
    else (none, [])
