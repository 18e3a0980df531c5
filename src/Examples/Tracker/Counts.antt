-- ===== src/Examples/Tracker/Counts.antt =====
-- The flow tracker's own count of its flows agrees with the table, whatever the library answers.
use d2sc.Prelude.{
  ℕ, ◌+◌, ◌/◌, ◌%◌, ◌≤◌, ◌≡◌, refl, sym, ap, ◌∙◌, subst, inl, inr, Bool, true, false, Option, none,
  some, List, [], ◌∷◌, arith, ltb, ◌==◌, if◌then◌else◌, Bool-cases, length,
}
use d2sc.Common.{act_tonf, Mbuf, set_meta}
use d2sc.PktHelper.{pkt_is_ipv4}
use d2sc.Stats.{sub_u64}
use d2sc.Examples.Tracker.{
  tbl_size, FlowStats, Found, found, missing, failed, FlowLib, StateInfo, update_status, removed,
  clear_entry, clear_from, clear_entries, added, table_add_entry, looked, with_key,
  table_lookup_entry, packet_handler, display_from, callback_handler,
}

module _ (lib : FlowLib) (hz : ℕ) where
  -- The number of flows is the table's, and there are not more than it is made for.
  pub record Counts (s : StateInfo lib hz) : Type 0 where
    pub number : s.num_stored ≡ length (lib.flows s.ft)
    pub fits : s.num_stored ≤ tbl_size

  write-Counts :
      (s : StateInfo lib hz) (k : lib.Key) (d : FlowStats)
      → Counts s
      → Counts (record s { ft = lib.write s.ft k d })
  write-Counts s k d c = record {
    number = c.number ∙ sym (lib.write-length s.ft k d);
    fits = c.fits;
  }

  -- A table in which a flow is missing, with a right count.
  record Clear (j : lib.Key) (s : StateInfo lib hz) : Type 0 where
    counts : Counts s
    absent : lib.lookup s.ft j ≡ missing

  removed-Clear :
      (j k : lib.Key) (s : StateInfo lib hz) (o : Option lib.Table)
      → lib.remove s.ft k ≡ o
      → Clear j s
      → Clear j (removed lib hz s o)
  removed-Clear j k s none e c = record {
    counts = record {
      number = omega (arith, c.counts.number, c.counts.fits);
      fits = omega (arith, c.counts.fits);
    };
    absent = c.absent;
  }
  removed-Clear j k s (some t) e c =
      let shorter = lib.remove-length s.ft t k e in
      record {
        counts = record {
          number = omega (arith, c.counts.number, c.counts.fits, shorter);
          fits = omega (arith, c.counts.number, c.counts.fits, shorter);
        };
        absent = lib.remove-missing s.ft t k j e c.absent;
      }

  clear_entry-Clear :
      (j : lib.Key) (s : StateInfo lib hz) (e : lib.Key × FlowStats)
      → Clear j s
      → Clear j (clear_entry lib hz s e)
  unfolding clear_entry
  clear_entry-Clear j s (k, d) c =
      let d' = update_status hz s.elapsed_cycles d in
      let s' : StateInfo lib hz = record s { ft = lib.write s.ft k d' } in
      let c' : Clear j s' = record {
        counts = write-Counts s k d' c.counts;
        absent = lib.write-missing s.ft k j d' c.absent;
      } in
      elim (Bool-cases d'.is_active) [
        | inl active ↦
            subst (Clear j)
              (sym (ap (λ b. if b then s' else removed lib hz s' (lib.remove s'.ft k)) active)) c'
        | inr expired ↦
            subst (Clear j)
              (sym (ap (λ b. if b then s' else removed lib hz s' (lib.remove s'.ft k)) expired))
              (removed-Clear j k s' (lib.remove s'.ft k) refl c')
      ]

  clear_from-Clear :
      (j : lib.Key) (es : List (lib.Key × FlowStats)) (s : StateInfo lib hz)
      → Clear j s
      → Clear j (clear_from lib hz es s)
  unfolding clear_from
  clear_from-Clear j [] s c = c
  clear_from-Clear j (e ∷ es) s c =
      clear_from-Clear j es (clear_entry lib hz s e) (clear_entry-Clear j s e c)

  added-Counts :
      (s : StateInfo lib hz) (k : lib.Key) (o : Option lib.Table)
      → lib.add s.ft k ≡ o
      → Clear k s
      → Counts (added lib hz s k o).1
  added-Counts s k none e c = c.counts
  added-Counts s k (some t) e c =
      let (longer, bound) = lib.add-length s.ft t k c.absent e in
      write-Counts (record s { ft = t; num_stored = (s.num_stored + 1) % 65536 }) k _
        (record {
          number = omega (arith, longer, bound, c.counts.number);
          fits = omega (arith, longer, bound, c.counts.number);
        })

  table_add_entry-Counts :
      (k : lib.Key) (s : StateInfo lib hz) → Clear k s → Counts (table_add_entry lib hz k s).1
  unfolding table_add_entry clear_entries
  table_add_entry-Counts k s c = elim (Bool-cases (s.num_stored == tbl_size)) [
    | inl full ↦
        let s1 = clear_from lib hz (lib.flows s.ft) s in
        subst (λ b. let s2 = if b then s1 else s in Counts (added lib hz s2 k (lib.add s2.ft k)).1)
          (sym full)
          (added-Counts s1 k (lib.add s1.ft k) refl (clear_from-Clear k (lib.flows s.ft) s c))
    | inr room ↦
        subst
          (λ b.
            let s2 = if b then clear_from lib hz (lib.flows s.ft) s else s in
            Counts (added lib hz s2 k (lib.add s2.ft k)).1)
          (sym room) (added-Counts s k (lib.add s.ft k) refl c)
  ]

  looked-Counts :
      (s : StateInfo lib hz) (k : lib.Key) (r : Found)
      → lib.lookup s.ft k ≡ r
      → Counts s
      → Counts (looked lib hz s k r).1
  looked-Counts s k missing e c = table_add_entry-Counts k s (record { counts = c; absent = e })
  looked-Counts s k failed e c = c
  looked-Counts s k (found d) e c = write-Counts s k _ c

  with_key-Counts :
      (s : StateInfo lib hz) (o : Option lib.Key) → Counts s → Counts (with_key lib hz s o).1
  with_key-Counts s none c = c
  with_key-Counts s (some k) c = looked-Counts s k (lib.lookup s.ft k) refl c

  display_from-Counts :
      (es : List (lib.Key × FlowStats)) (s : StateInfo lib hz)
      → Counts s
      → Counts (display_from lib hz es s).1
  unfolding display_from
  display_from-Counts [] s c = c
  display_from-Counts ((k, d) ∷ es) s c = display_from-Counts es _ (write-Counts s k _ c)

  either-Counts :
      {A : Type 0} (b : Bool) (x y : A × StateInfo lib hz)
      → Counts x.1
      → Counts y.1
      → Counts (if b then x else y).1
  either-Counts true x y l r = l
  either-Counts false x y l r = r

  either-first :
      (b : Bool) (x : Mbuf) (u v : StateInfo lib hz)
      → (if◌then◌else◌ {A = Mbuf × StateInfo lib hz} b (x, u) (x, v)).0 ≡ x
  either-first true x u v = refl
  either-first false x u v = refl

  -- If the flow tracker's count is the number of flows in the table and not above 100, then it is so after
  -- any packet, which leaves for the NFs of the destination, and after any call of the callback: in
  -- each case of the look-up, when flows that have expired are cleared to make room, and when the
  -- library fails to add or to remove.
  pub packet_handler-Counts :
      (pkt : Mbuf) (now : ℕ) (s : StateInfo lib hz)
      → Counts s
      → Counts (packet_handler lib hz pkt s).1
        × ((packet_handler lib hz pkt s).0.info.act ≡ act_tonf)
        × ((packet_handler lib hz pkt s).0.info.dst ≡ s.destination)
        × Counts (callback_handler lib hz now s).1
  unfolding packet_handler table_lookup_entry callback_handler
  packet_handler-Counts pkt now s c =
      let own : Counts (record s { elapsed_cycles = now }) = record {
        number = c.number;
        fits = c.fits;
      } in
      let shown : Counts (record s { elapsed_cycles = now; last_cycles = now }) = record {
        number = c.number;
        fits = c.fits;
      } in
      (
        either-Counts (pkt_is_ipv4 pkt) (_, (table_lookup_entry lib hz pkt s).1) (_, s)
            (with_key-Counts s (lib.fill_key pkt) c) c,
        ap (λ (m : Mbuf). m.info.act) leaves,
        ap (λ (m : Mbuf). m.info.dst) leaves,
        either-Counts (ltb s.print_delay (sub_u64 now s.last_cycles / hz))
            (
              _,
              (display_from lib hz (lib.flows s.ft)
                  (record s { elapsed_cycles = now; last_cycles = now })).1,
            )
            (_, record s { elapsed_cycles = now }) (display_from-Counts (lib.flows s.ft) _ shown)
            own,
      )
    where
      out : Mbuf
      out = set_meta pkt (record pkt.info { act = act_tonf; dst = s.destination })

      leaves : (packet_handler lib hz pkt s).0 ≡ out
      leaves = either-first (pkt_is_ipv4 pkt) out (table_lookup_entry lib hz pkt s).1 s
