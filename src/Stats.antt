-- ===== src/Stats.antt =====
-- The statistics of src/d2sc_mgr/d2sc_stats.c: where they go, the rates of ports and NFs between two
-- displays, and the load that the display leaves in each NF's entry; and the loop of the master thread
-- of src/d2sc_mgr/main.c, which displays them.
pub mod Rates
pub mod Ports
pub mod Shows
pub mod Restart
use d2sc.Prelude.{
  ℕ, zero, suc, ◌+◌, ◌-◌, ◌/◌, ◌%◌, ◌^◌, Bool, true, false, ◌&&◌, Option, none, some, List, [], ◌∷◌,
  ◌++◌, ltb, leb, ◌==◌, if◌then◌else◌, take, update, Outcome, done, fault, ◌>>=◌,
}
use d2sc.Common.{
  max_nfs, act_drop, act_next, act_tonf, act_out, NfInfo, Stats, Shared, nf_is_valid, set_nf,
}
use d2sc.Parse.{StatsOutput, no_output, to_stdout, to_stderr}
use d2sc.PktHelper.{PortInfo}
use d2sc.Messages.{MsgIo}
use d2sc.NfMgr.{Mgr, check_status}

pub data Stream : Type 0 where
  std_out std_err : Stream

-- d2sc_stats_set_output, on the variable stats_out, which is null at first.
pub set_output : StatsOutput → Option Stream → Option Stream
set_output no_output out = out
set_output to_stdout out = some std_out
set_output to_stderr out = some std_err

abbrev pub sub_u64 : ℕ → ℕ → ℕ
sub_u64 a b = ((a + 2 ^ 64) - b) % 2 ^ 64

-- A counter's rise since the last display in each second; a division by zero is undefined.
unfoldable pub rate : ℕ → ℕ → ℕ → Outcome ℕ
rate stime now last = if stime == 0 then fault else done (sub_u64 now last / stime)

abbrev hex_digit : ℕ → ℕ
hex_digit n = if ltb n 10 then 48 + n else 87 + n

mac_chars : List ℕ → List ℕ
mac_chars [] = 10 ∷ []
mac_chars (b ∷ []) = hex_digit ((b / 16) % 16) ∷ hex_digit (b % 16) ∷ 10 ∷ []
mac_chars (b ∷ c ∷ bs) = hex_digit ((b / 16) % 16) ∷ hex_digit (b % 16) ∷ 58 ∷ mac_chars (c ∷ bs)

-- An address as it is kept: snprintf cuts the line's end off, as it does not fit.
abbrev mac_text : List ℕ → List ℕ
mac_text bytes = take 17 (mac_chars bytes)

abbrev err_address : List ℕ
err_address = mac_text (0 ∷ 0 ∷ 0 ∷ 0 ∷ 0 ∷ 0 ∷ [])

-- d2sc_stats_print_MAC: the text, and the addresses that are kept.
pub print_mac : ℕ → (ℕ → List ℕ) → ℕ → (ℕ → Option (List ℕ)) → List ℕ × (ℕ → Option (List ℕ))
print_mac limit mac port kept = if leb limit port then (err_address, kept) else elim (kept port) [
  | none ↦ (mac_text (mac port), update kept port (some (mac_text (mac port))))
  | some text ↦ (text, kept)
]

-- The counters at the last display.
pub record Lasts : Type 0 where
  pub rx : ℕ → ℕ
  pub tx : ℕ → ℕ
  pub rx_drop : ℕ → ℕ
  pub tx_drop : ℕ → ℕ

-- What is printed of a port and of an NF. Verbosity 1 has the shorter form.
pub record PortLine : Type 0 where
  pub id : ℕ
  pub rx_pkts : ℕ
  pub rx_pps : ℕ
  pub tx_pkts : ℕ
  pub tx_pps : ℕ

pub data NfLine : Type 0 where
  brief : (inst_id type_id rx_pps tx_pps rx_drop tx_drop act_out act_tonf act_drop : ℕ) → NfLine
  full :
      (inst_id type_id rx_pps tx_pps rx tx act_out act_tonf act_drop : ℕ)
      → (rx_drop_rate tx_drop_rate rx_drop tx_drop act_next tx_buf tx_ret : ℕ) → NfLine

abbrev verbosity_level : ℕ
verbosity_level = 2

-- The first loop of d2sc_stats_display_ports, with the rounds that are left; `mac` is what DPDK says of a
-- port's address.
unfoldable pub port_heads :
    (ℕ → List ℕ)
    → PortInfo
    → ℕ
    → ℕ
    → (ℕ → Option (List ℕ))
    → Outcome (List (ℕ × List ℕ) × (ℕ → Option (List ℕ)))
port_heads mac ports zero i kept = done ([], kept)
port_heads mac ports (suc n) i kept =
    if ltb i ports.limit
    then (let r = print_mac ports.limit mac (ports.id i) kept in
        port_heads mac ports n (i + 1) r.1 >>= λ rest. done ((ports.id i, r.0) ∷ rest.0, rest.1))
    else fault

-- Port `i`, whose number is in range, in the second loop.
unfoldable pub port_line : PortInfo → ℕ → ℕ → Lasts → Outcome (PortLine × Lasts)
port_line ports stime i l = do
  rx_pps ← rate stime (ports.rx (ports.id i)) (l.rx i)
  tx_pps ← rate stime (ports.tx (ports.id i)) (l.tx i)
  done (
    record {
      id = ports.id i;
      rx_pkts = ports.rx (ports.id i);
      rx_pps = rx_pps;
      tx_pkts = ports.tx (ports.id i);
      tx_pps = tx_pps;
    },
    record l {
      rx = update l.rx i (ports.rx (ports.id i));
      tx = update l.tx i (ports.tx (ports.id i));
    },
  )

-- The second loop.
unfoldable pub port_lines : PortInfo → ℕ → ℕ → ℕ → Lasts → Outcome (List PortLine × Lasts)
port_lines ports stime zero i l = done ([], l)
port_lines ports stime (suc n) i l =
    if ltb i ports.limit && ltb (ports.id i) ports.limit
    then (port_line ports stime i l >>= λ r.
        port_lines ports stime n (i + 1) r.1 >>= λ rest. done (r.0 ∷ rest.0, rest.1))
    else fault

-- A double as a uint16_t; out of range this is undefined. The quotient is a whole number, so that `ceil`
-- has no effect on it, and a double holds it exactly.
abbrev u16_of_double : ℕ → Outcome ℕ
u16_of_double q = if ltb q 65536 then done q else fault

abbrev pub nf_lasts : Lasts → ℕ → Stats → Lasts
nf_lasts l i st = record {
  rx = update l.rx i st.rx;
  tx = update l.tx i st.tx;
  rx_drop = update l.rx_drop i st.rx_drop;
  tx_drop = update l.tx_drop i st.tx_drop;
}

abbrev pub nf_line : NfInfo → Stats → ℕ → ℕ → ℕ → ℕ → NfLine
nf_line info st rx_pps tx_pps rx_drop_rate tx_drop_rate =
    if verbosity_level == 1
    then brief info.inst_id info.type_id rx_pps tx_pps st.rx_drop st.tx_drop st.out_count
        st.tonf_count st.drop_count
    else full info.inst_id info.type_id rx_pps tx_pps st.rx st.tx st.out_count st.tonf_count
        st.drop_count rx_drop_rate tx_drop_rate st.rx_drop st.tx_drop st.next_count st.tx_buf
        st.tx_ret

-- The NF in entry `i`, which runs and is described by `info`.
unfoldable pub show_nf : ℕ → ℕ → NfInfo → Shared → Lasts → Outcome (List NfLine × Shared × Lasts)
show_nf stime i info sh l = do
  let nf = sh.nfs i
  rx_pps ← rate stime nf.stats.rx (l.rx i)
  tx_pps ← rate stime nf.stats.tx (l.tx i)
  rx_drop_rate ← rate stime nf.stats.rx_drop (l.rx_drop i)
  tx_drop_rate ← rate stime nf.stats.tx_drop (l.tx_drop i)
  pkt_rate ← u16_of_double (rx_pps / 100000)
  done (
    nf_line info nf.stats rx_pps tx_pps rx_drop_rate tx_drop_rate ∷ [],
    set_nf sh i (record nf { pkt_rate = pkt_rate }),
    nf_lasts l i nf.stats,
  )

abbrev pub show_at : Option ℕ → ℕ → ℕ → Shared → Lasts → Outcome (List NfLine × Shared × Lasts)
show_at none stime i sh l = fault
show_at (some p) stime i sh l = show_nf stime i (sh.infos p) sh l

-- A round of the loop over the NFs.
unfoldable pub show_entry : ℕ → ℕ → Shared → Lasts → Outcome (List NfLine × Shared × Lasts)
show_entry stime i sh l =
    if nf_is_valid sh i then show_at (sh.nfs i).nf_info stime i sh l else done ([], sh, l)

unfoldable pub show_nfs : ℕ → ℕ → ℕ → Shared → Lasts → Outcome (List NfLine × Shared × Lasts)
show_nfs stime zero i sh l = done ([], sh, l)
show_nfs stime (suc n) i sh l = do
  r ← show_entry stime i sh l
  rest ← show_nfs stime n (i + 1) r.1 r.2
  done (r.0 ++ rest.0, rest.1, rest.2)

unfoldable pub display_nfs : ℕ → Shared → Lasts → Outcome (List NfLine × Shared × Lasts)
display_nfs stime sh l = show_nfs stime max_nfs 0 sh l

-- What is printed: whether the terminal is cleared first, the ports and their addresses, and the NFs.
pub record Screen : Type 0 where
  pub cleared : Bool
  pub heads : List (ℕ × List ℕ)
  pub ports : List PortLine
  pub nfs : List NfLine

-- The static variables of the file.
pub record Display : Type 0 where
  pub stats_out : Option Stream
  pub kept : ℕ → Option (List ℕ)
  pub port_lasts : Lasts
  pub nf_lasts : Lasts

-- Only the standard output is a terminal to clear; what goes to the other one is neither cut nor flushed.
abbrev pub clears : Stream → Bool
clears std_out = true
clears std_err = false

unfoldable pub display_on :
    (ℕ → List ℕ) → ℕ → PortInfo → Shared → Display → Stream → Outcome (Screen × Shared × Display)
display_on mac stime ports sh d out = do
  heads ← port_heads mac ports ports.n_ports 0 d.kept
  lines ← port_lines ports stime ports.n_ports 0 d.port_lasts
  nfs ← display_nfs stime sh d.nf_lasts
  done (
    record { cleared = clears out; heads = heads.0; ports = lines.0; nfs = nfs.0 },
    nfs.1,
    record d { kept = heads.1; port_lasts = lines.1; nf_lasts = nfs.2 },
  )

-- A null stream is written to.
unfoldable pub display_all :
    (ℕ → List ℕ) → ℕ → PortInfo → Shared → Display → Outcome (Screen × Shared × Display)
display_all mac stime ports sh d = elim d.stats_out [
  | none ↦ fault
  | some out ↦ display_on mac stime ports sh d out
]

module _ (io : MsgIo) where
  abbrev shown : Mgr io → Screen × Shared × Display → Outcome (Option Screen × Mgr io × Display)
  shown m r = done (some r.0, record m { shared = r.1 }, r.2)

  abbrev pub displays : StatsOutput → Bool
  displays no_output = false
  displays _ = true

  -- A round of the loop of the master thread, after its sleep.
  unfoldable pub master_turn :
      StatsOutput
      → (ℕ → List ℕ)
      → ℕ
      → PortInfo
      → Mgr io
      → Display
      → Outcome (Option Screen × Mgr io × Display)
  master_turn dst mac stime ports m d = check_status io m >>= λ m1.
      if displays dst
      then (display_all mac stime ports m1.shared d >>= shown m1)
      else done (none, m1, d)
