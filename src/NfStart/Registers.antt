-- ===== src/NfStart/Registers.antt =====
-- An NF that starts, and the manager that gives it its number.
use d2sc.Prelude.{
  ℕ, zero, suc, ◌+◌, ◌-◌, ◌≤◌, ◌<◌, ◌≡◌, refl, ap, ◌∙◌, ◌≢◌, ◌⊎◌, inl, inr, true, false, none, some,
  List, [], ◌∷◌, ◌++◌, arith, replicate, update_self, update_ne, done, fault, exit, ◌>>=◌, ltb,
}
use d2sc.Common.{
  max_nfs, waiting_for_id, starting, id_conflict, no_ids, Nf, Shared, nf_is_valid, set_nf,
}
use d2sc.Dpdk.{
  Zone, nf_zone, port_zone, nts_zone, nfs_per_nt_zone, nt_available_zone, scp_zone, PoolName,
  pktmbuf_mp, nf_info_mp, nf_msg_mp, RingName, mgr_msg_ring, mgr_scale_ring,
}
use d2sc.Messages.{MsgIo, msg_nf_starting, nf_no_id}
use d2sc.NfMgr.{is_waiting, nf_start}
use d2sc.NfMgr.Ids.{Started, nf_start-assigned, nf_start-refused}
use d2sc.Nfrt.{
  Nfrt, NfArgs, parse_args, info_init, info_init_at, send_start, after_start, start_result,
}
use d2sc.Nfrt.Protocol.{CanPost, post-shared}
use d2sc.NfStart.{
  NfDpdk, Ready, no_args, init_premises, ask_start, nf_bq_init, wait_id, go_on, resume, nfrt_init,
}
use Prim.Native.String.{String}

-- DPDK starts and finds what the manager has made, and the arguments are in order.
pub record Finds (d : NfDpdk) (n : ℕ) (a : NfArgs) : Type 0 where
  pub starts : d.eal ≡ some n
  pub pools : (x : PoolName) → d.has_pool x ≡ true
  pub zones : (z : Zone) → d.has_zone z ≡ true
  pub rings : (r : RingName) → d.has_ring r ≡ true
  pub parses : parse_args (d.opts (some n)) no_args ≡ (true, a)

premises-found : (d : NfDpdk) (n : ℕ) (a : NfArgs) → Finds d n a → init_premises d ≡ done (some n)
unfolding init_premises
premises-found d n a f =
    rw
      (
        f.starts,
        f.pools nf_info_mp,
        f.pools nf_msg_mp,
        f.pools pktmbuf_mp,
        f.zones nf_zone,
        f.zones nts_zone,
        f.zones nfs_per_nt_zone,
        f.zones nt_available_zone,
        f.zones port_zone,
        f.zones scp_zone,
        f.rings mgr_msg_ring,
        f.rings mgr_scale_ring,
      )
      refl

module _ (io : MsgIo) where
  -- The NF's state with its message sent.
  abbrev pub sent : (s : Nfrt io) (p : ℕ) → CanPost io s msg_nf_starting p → Nfrt io
  sent s p c = record s { msg_pool = c.pool; new_msg_queue = c.ring }

  ask_start-sends :
      (d : NfDpdk) (n : ℕ) (a : NfArgs) (name : String) (max_load : ℕ) (s : Nfrt io) (p : ℕ)
      (pool : io.Pool)
      → Finds d n a
      → io.mempool_get s.info_pool ≡ some pool
      → (c : CanPost io (info_init_at io a name max_load s p pool) msg_nf_starting p)
      → ask_start io d name max_load s p
        ≡ done (n, a, sent (info_init_at io a name max_load s p pool) p c)
  unfolding ask_start info_init send_start
  ask_start-sends d n a name max_load s p pool f gets c =
      rw
        (
          premises-found d n a f,
          f.parses,
          gets,
          post-shared io (info_init_at io a name max_load s p pool) msg_nf_starting p c,
        )
        refl

  -- The tables that the NF sees while it waits: its own for `k` seconds, then what `d2sc_nf_start` of
  -- the manager leaves.
  abbrev pub manager_after : ℕ → ℕ → Nfrt io → List Shared
  manager_after k p s = replicate k s.shared ++ (nf_start s.shared (some p)).1 ∷ []

  wait_id-ends :
      (k p : ℕ) (sh sh' : Shared)
      → (sh.infos p).status ≡ waiting_for_id
      → is_waiting (sh'.infos p).status ≡ false
      → wait_id p (replicate k sh ++ sh' ∷ []) ≡ some sh'
  unfolding wait_id
  wait_id-ends zero p sh sh' w over = rw over refl
  wait_id-ends (suc k) p sh sh' w over = rw w (wait_id-ends k p sh sh' w over)

  -- The NF in entry `id` with its description at `p`, in the tables `sh` as they were before.
  pub record Registers (sh : Shared) (p id : ℕ) (s' : Nfrt io) : Type 0 where
    pub in_range : id < max_nfs
    pub free : nf_is_valid sh id ≡ false
    pub from : sh.next_inst_id ≤ id
    pub status : (s'.shared.infos p).status ≡ starting
    pub info_id : (s'.shared.infos p).inst_id ≡ id
    pub entry : (s'.shared.nfs id).nf_info ≡ some p
    pub entry_id : (s'.shared.nfs id).inst_id ≡ id
    pub no_parent : (s'.shared.nfs id).parent_nf ≡ 0
    pub others : (j : ℕ) → id ≢ j → s'.shared.nfs j ≡ sh.nfs j
    pub goes_on : s'.keep_running ≡ true

  -- The NF's state when it has read its number.
  abbrev numbered : Nfrt io → ℕ → Nfrt io
  numbered s id = record s {
    shared = set_nf s.shared id (record (s.shared.nfs id) { parent_nf = 0 });
    keep_running = true;
  }

  after_start-numbered :
      (s : Nfrt io) (p id : ℕ)
      → (s.shared.infos p).status ≡ starting
      → (s.shared.infos p).inst_id ≡ id
      → id < max_nfs
      → after_start io s p ≡ done (numbered s id)
  unfolding after_start start_result
  after_start-numbered s p id st at l =
      let within : ltb id max_nfs ≡ true = ground arith in rw (st, at, within) refl

  after_start-refused :
      (s : Nfrt io) (p : ℕ)
      → ((s.shared.infos p).status ≡ id_conflict) ⊎ ((s.shared.infos p).status ≡ no_ids)
      → after_start io s p ≡ exit
  unfolding after_start start_result
  after_start-refused s p (inl e) = rw e refl
  after_start-refused s p (inr e) = rw e refl

  numbered-Registers :
      (sh : Shared) (p id : ℕ) (s : Nfrt io)
      → sh.next_inst_id ≤ id
      → Started (record sh { next_inst_id = id + 1 }) p id s.shared
      → Registers sh p id (numbered s id)
  numbered-Registers sh p id s low st =
      let own = update_self s.shared.nfs id (record (s.shared.nfs id) { parent_nf = 0 }) in
      record {
        in_range = st.in_range;
        free = st.unused;
        from = low;
        status = st.status;
        info_id = st.info_id;
        entry = ap (λ (x : Nf). x.nf_info) own ∙ st.entry;
        entry_id = ap (λ (x : Nf). x.inst_id) own ∙ st.entry_id;
        no_parent = ap (λ (x : Nf). x.parent_nf) own;
        others = λ j ne. update_ne s.shared.nfs id j _ ne ∙ st.others j ne;
        goes_on = refl;
      }

  -- The start once the message is sent and the manager has answered.
  nfrt_init-answered :
      (d : NfDpdk) (n : ℕ) (a : NfArgs) (name : String) (max_load : ℕ) (s : Nfrt io) (p k : ℕ)
      (pool : io.Pool)
      → Finds d n a
      → io.mempool_get s.info_pool ≡ some pool
      → (c : CanPost io (info_init_at io a name max_load s p pool) msg_nf_starting p)
      → (let sh' = (nf_start (info_init_at io a name max_load s p pool).shared (some p)).1 in
          is_waiting (sh'.infos p).status ≡ false)
      → nfrt_init io d name max_load s p (manager_after k p) ≡ (
          go_on io d p
            (n, a, sent (info_init_at io a name max_load s p pool) p c)
            (nf_start (info_init_at io a name max_load s p pool).shared (some p)).1
          >>= λ r. done (some r))
  unfolding nfrt_init
  nfrt_init-answered d n a name max_load s p k pool f gets c over =
      let s1 = info_init_at io a name max_load s p pool in
      let waits : (s1.shared.infos p).status ≡ waiting_for_id = ground arith in
      let ends = wait_id-ends k p s1.shared (nf_start s1.shared (some p)).1 waits over in
      ap (λ o. o >>= λ asked. resume io d p asked (wait_id p (manager_after k p asked.2)))
        (ask_start-sends d n a name max_load s p pool f gets c)
      ∙ ap (resume io d p (n, a, sent s1 p c)) ends

  -- If DPDK starts and finds what the manager has made, the arguments are in order and ask for no
  -- number, and the description and the message find room, then the start of the NF, in which the
  -- manager handles the start message after any number of seconds, comes to one of two ends. It returns
  -- the number of arguments read, and the NF, which has no parent and is to run, stands in a free entry
  -- of the table at or above the counter, under the number that its description names, while the other
  -- entries are as they were; or every entry from the counter on has a running NF, and the process ends.
  pub nfrt_init-Registers :
      (d : NfDpdk) (n : ℕ) (a : NfArgs) (name : String) (max_load : ℕ) (s : Nfrt io) (p k : ℕ)
      (pool : io.Pool)
      → Finds d n a
      → a.init_inst_id ≡ nf_no_id
      → io.mempool_get s.info_pool ≡ some pool
      → CanPost io (info_init_at io a name max_load s p pool) msg_nf_starting p
      → ((id : ℕ) × (r : Ready io) × (nfrt_init io d name max_load s p (manager_after k p)
            ≡ done (some r))
          × (r.ret_final ≡ n + d.optind - 1)
          × Registers (info_init_at io a name max_load s p pool).shared p id r.nfrt)
        ⊎ ((nfrt_init io d name max_load s p (manager_after k p) ≡ exit)
            × ((j : ℕ)
                → s.shared.next_inst_id ≤ j
                → j < max_nfs
                → nf_is_valid (info_init_at io a name max_load s p pool).shared j ≡ true))
  unfolding go_on
  nfrt_init-Registers d n a name max_load s p k pool f asks gets c =
      let s1 = info_init_at io a name max_load s p pool in
      let sh' = (nf_start s1.shared (some p)).1 in
      let s2 = record (sent s1 p c) { shared = sh' } in
      let waits : (s1.shared.infos p).status ≡ waiting_for_id = ground arith in
      let no_number : (s1.shared.infos p).inst_id ≡ nf_no_id = ground arith in
      elim (nf_start-assigned s1.shared p waits no_number) [
        | inl (id, wins, low, skipped, counter, st) ↦
            let answered =
              nfrt_init-answered d n a name max_load s p k pool f gets c
                (ap is_waiting st.status) in
            let goes = after_start-numbered s2 p id st.status st.info_id st.in_range in
            inl (
              id,
              record {
                ret_final = n + d.optind - 1;
                args = a;
                nfrt = numbered s2 id;
                bq = nf_bq_init a;
              },
              answered ∙ rw goes refl,
              refl,
              numbered-Registers s1.shared p id s2 low st,
            )
        | inr (fails, all_run) ↦
            let told = nf_start-refused s1.shared p waits fails in
            let over : is_waiting (sh'.infos p).status ≡ false = elim told [
              | inl e ↦ ap is_waiting e
              | inr e ↦ ap is_waiting e
            ] in
            let answered = nfrt_init-answered d n a name max_load s p k pool f gets c over in
            let ends = after_start-refused s2 p told in inr (answered ∙ rw ends refl, all_run)
      ]

  -- A failure of the EAL is not noticed: with arguments in order the pool is used that was never looked
  -- up.
  nfrt_init-unstarted :
      (d : NfDpdk) (a : NfArgs) (name : String) (max_load : ℕ) (s : Nfrt io) (p : ℕ)
      (manager : Nfrt io → List Shared)
      → d.eal ≡ none
      → parse_args (d.opts none) no_args ≡ (true, a)
      → nfrt_init io d name max_load s p manager ≡ fault
  unfolding nfrt_init ask_start init_premises
  nfrt_init-unstarted d a name max_load s p manager off parses = rw (off, parses) refl
