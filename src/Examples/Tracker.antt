-- ===== src/Examples/Tracker.antt =====
-- src/examples/flow_tracker/flow_tracker.c, which is written for the library OpenNetVM: its flow table is a
-- parameter, with what the code relies on. A packet is marked with the action TONF of that library.
pub mod Counts
use d2sc.Prelude.{
  ℕ, ◌+◌, ◌/◌, ◌%◌, ◌^◌, ◌≤◌, ◌≡◌, Bool, true, false, not, Option, none, some, List, [], ◌∷◌, ltb,
  leb, ◌==◌, if◌then◌else◌, length,
}
use d2sc.Common.{act_tonf, Mbuf, set_meta}
use d2sc.PktHelper.{pkt_is_ipv4}
use d2sc.Parse.{strtoul}
use d2sc.Stats.{sub_u64}

abbrev pub tbl_size : ℕ
tbl_size = 100

abbrev pub expire_time : ℕ
expire_time = 5

-- The count is an int, kept as its 32 bits.
pub record FlowStats : Type 0 where
  pub pkt_count : ℕ
  pub last_pkt_cycles : ℕ
  pub is_active : Bool

-- What onvm_ft_lookup_key answers: the flow's data, -ENOENT, or another error.
pub data Found : Type 0 where
  found : FlowStats → Found
  missing failed : Found

-- The library's table, made for `tbl_size` flows. `flows` is what onvm_ft_iterate goes through, and `write`
-- a write through the pointer that the library gives to a flow's data.
pub record FlowLib : Type 1 where
  pub Key : Type 0
  pub Table : Type 0
  pub flows : Table → List (Key × FlowStats)
  pub fill_key : Mbuf → Option Key
  pub lookup : Table → Key → Found
  pub write : Table → Key → FlowStats → Table
  pub add : Table → Key → Option Table
  pub remove : Table → Key → Option Table
  pub write-length :
      (t : Table) (k : Key) (d : FlowStats) → length (flows (write t k d)) ≡ length (flows t)
  pub write-missing :
      (t : Table) (k j : Key) (d : FlowStats)
      → lookup t j ≡ missing
      → lookup (write t k d) j ≡ missing
  pub add-length :
      (t t' : Table) (k : Key)
      → lookup t k ≡ missing
      → add t k ≡ some t'
      → (length (flows t') ≡ length (flows t) + 1) × (length (flows t') ≤ tbl_size)
  pub remove-length :
      (t t' : Table) (k : Key) → remove t k ≡ some t' → length (flows t') + 1 ≡ length (flows t)
  pub remove-missing :
      (t t' : Table) (k j : Key)
      → remove t k ≡ some t'
      → lookup t j ≡ missing
      → lookup t' j ≡ missing

-- The options -d and -p, which set 16-bit numbers; the flags are whether -d was there, and whether the
-- parse succeeds.
pub parse_app_args : List (ℕ × List ℕ) → Bool → ℕ × ℕ → Bool × ℕ × ℕ
parse_app_args [] dst_flag a = (dst_flag, a.0, a.1)
parse_app_args ((c, arg) ∷ opts) dst_flag a =
    let n = (strtoul 10 arg).0 % 65536 in
    let with_dst = parse_app_args opts true (n, a.1) in
    let with_delay = parse_app_args opts dst_flag (a.0, n) in
    if c == 100 then with_dst else if c == 112 then with_delay else (false, a.0, a.1)

-- `(elapsed_cycles - last_pkt_cycles) / rte_get_timer_hz() >= EXPIRE_TIME`, with a timer that runs.
unfoldable pub update_status : ℕ → ℕ → FlowStats → FlowStats
update_status hz elapsed d = record d {
  is_active = not (leb expire_time (sub_u64 elapsed d.last_pkt_cycles / hz));
}

module _ (lib : FlowLib) (hz : ℕ) where
  pub record StateInfo : Type 0 where
    pub ft : lib.Table
    pub destination : ℕ
    pub print_delay : ℕ
    pub num_stored : ℕ
    pub elapsed_cycles : ℕ
    pub last_cycles : ℕ

  -- The result of the removal of a flow that has expired.
  abbrev pub removed : StateInfo → Option lib.Table → StateInfo
  removed s none = record s { num_stored = (((s.num_stored + 65535) % 65536) + 1) % 65536 }
  removed s (some t) = record s { ft = t; num_stored = (s.num_stored + 65535) % 65536 }

  -- A round of the loop of `clear_entries`.
  unfoldable pub clear_entry : StateInfo → lib.Key × FlowStats → StateInfo
  clear_entry s (k, d) =
      let d' = update_status hz s.elapsed_cycles d in
      let s' = record s { ft = lib.write s.ft k d' } in
      if d'.is_active then s' else removed s' (lib.remove s'.ft k)

  unfoldable pub clear_from : List (lib.Key × FlowStats) → StateInfo → StateInfo
  clear_from [] s = s
  clear_from (e ∷ es) s = clear_from es (clear_entry s e)

  unfoldable pub clear_entries : StateInfo → StateInfo
  clear_entries s = clear_from (lib.flows s.ft) s

  abbrev new_flow : StateInfo → FlowStats
  new_flow s = record { pkt_count = 0; last_pkt_cycles = s.elapsed_cycles; is_active = true }

  abbrev pub added : StateInfo → lib.Key → Option lib.Table → Bool × StateInfo
  added s k none = (false, s)
  added s k (some t) =
      (true, record s { ft = lib.write t k (new_flow s); num_stored = (s.num_stored + 1) % 65536 })

  -- The flag is whether the result is 0.
  unfoldable pub table_add_entry : lib.Key → StateInfo → Bool × StateInfo
  table_add_entry k s =
      let s' = if s.num_stored == tbl_size then clear_entries s else s in
      added s' k (lib.add s'.ft k)

  abbrev pub looked : StateInfo → lib.Key → Found → Bool × StateInfo
  looked s k missing = table_add_entry k s
  looked s k failed = (false, s)
  looked s k (found d) = (
    true,
    record s {
      ft =
          lib.write s.ft k (record d {
            pkt_count = (d.pkt_count + 1) % 2 ^ 32;
            last_pkt_cycles = s.elapsed_cycles;
          });
    },
  )

  abbrev pub with_key : StateInfo → Option lib.Key → Bool × StateInfo
  with_key s none = (false, s)
  with_key s (some k) = looked s k (lib.lookup s.ft k)

  unfoldable pub table_lookup_entry : Mbuf → StateInfo → Bool × StateInfo
  table_lookup_entry pkt s = with_key s (lib.fill_key pkt)

  -- The result is 0; the flag is whether the packet was found or added.
  unfoldable pub packet_handler : Mbuf → StateInfo → Mbuf × StateInfo
  packet_handler pkt s =
      let out = set_meta pkt (record pkt.info { act = act_tonf; dst = s.destination }) in
      if pkt_is_ipv4 pkt then (out, (table_lookup_entry pkt s).1) else (out, s)

  -- `do_stats_display`: each flow is brought up to date and printed.
  unfoldable pub display_from :
      List (lib.Key × FlowStats) → StateInfo → List (lib.Key × FlowStats) × StateInfo
  display_from [] s = ([], s)
  display_from ((k, d) ∷ es) s =
      let d' = update_status hz s.elapsed_cycles d in
      let rest = display_from es (record s { ft = lib.write s.ft k d' }) in
      ((k, d') ∷ rest.0, rest.1)

  -- What it prints, if the time for it has come.
  unfoldable pub callback_handler : ℕ → StateInfo → Option (List (lib.Key × FlowStats)) × StateInfo
  callback_handler now s =
      let s1 = record s { elapsed_cycles = now } in
      if ltb s.print_delay (sub_u64 now s.last_cycles / hz)
      then (let r = display_from (lib.flows s1.ft) (record s1 { last_cycles = now }) in
          (some r.0, r.1))
      else (none, s1)
