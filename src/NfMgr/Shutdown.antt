-- ===== src/NfMgr/Shutdown.antt =====
-- The end of `master_thread_main` in src/d2sc_mgr/main.c: every NF is told to stop, and the manager
-- waits for their messages.
use d2sc.Prelude.{
  ℕ, zero, suc, ◌+◌, ◌≤◌, ◌<◌, ◌≡◌, refl, sym, ap, ◌∙◌, subst, ◌≢◌, ◌⊎◌, inl, inr, none, some,
  arith, ◌==◌, if◌then◌else◌, Bool-cases, Option-cases, update, update_self, update_ne, Outcome,
  done, ◌>>=◌,
}
use d2sc.Common.{max_nfs, Shared}
use d2sc.Messages.{MsgIo, NfMsg, msg_stop}
use d2sc.NfMgr.{Mgr, send_msg, check_status}

-- MAX_SHUTDOWN_ITERS
abbrev max_shutdown_iters : ℕ
max_shutdown_iters = 10

abbrev pub stop_msg : NfMsg
stop_msg = record { msg_type = msg_stop; msg_data = none }

module _ (io : MsgIo) where
  unfoldable pub tell_stop : Mgr io → ℕ → Mgr io
  tell_stop m i = elim (m.shared.nfs i).nf_info [ none ↦ m | some p ↦ (send_msg io m i stop_msg).1 ]

  unfoldable pub tell_from : ℕ → ℕ → Mgr io → Mgr io
  tell_from zero i m = m
  tell_from (suc n) i m = tell_from n (i + 1) (tell_stop m i)

  -- With the checks that are left.
  pub wait_exits : ℕ → Mgr io → Outcome (Mgr io)
  wait_exits zero m = done m
  wait_exits (suc n) m =
      let rest = check_status io m >>= wait_exits n in
      if m.shared.num_nfs == 0 then done m else rest

  pub shutdown : Mgr io → Outcome (Mgr io)
  shutdown m = wait_exits max_shutdown_iters (tell_from max_nfs 0 m)

  -- A pool that has `n` objects to give.
  pub data Reserve : ℕ → io.Pool → Type 0 where
    any : {p : io.Pool} → Reserve zero p
    one : {n : ℕ} {p p' : io.Pool} → io.mempool_get p ≡ some p' → Reserve n p' → Reserve (suc n) p

  less : (n : ℕ) (p : io.Pool) → Reserve (suc n) p → Reserve n p
  less zero p r = any
  less (suc n) p (one {p' = p'} e r) = one e (less n p' r)

  -- Every described NF's ring has room for the message.
  abbrev pub Room : Mgr io → ℕ → Type 0
  Room m i =
      (p : ℕ)
      → (m.shared.nfs i).nf_info ≡ some p
      → (r : io.Ring) × (io.enqueue (m.msg_q i) stop_msg ≡ some r)

  -- Entry `i` is told to stop if it is described, and otherwise its ring stays.
  pub record Told (m m' : Mgr io) (i : ℕ) : Type 0 where
    pub absent : (m.shared.nfs i).nf_info ≡ none → m'.msg_q i ≡ m.msg_q i
    pub present :
        (p : ℕ)
        → (m.shared.nfs i).nf_info ≡ some p
        → io.enqueue (m.msg_q i) stop_msg ≡ some (m'.msg_q i)

  -- What one message changes, with `n` objects left in the pool.
  record Step (m : Mgr io) (i n : ℕ) (m' : Mgr io) : Type 0 where
    shared : m'.shared ≡ m.shared
    reserve : Reserve n m'.msg_pool
    others : (j : ℕ) → i ≢ j → m'.msg_q j ≡ m.msg_q j
    told : Told m m' i

  stays-Step :
      (m : Mgr io) (i n : ℕ)
      → Reserve (suc n) m.msg_pool
      → (m.shared.nfs i).nf_info ≡ none
      → Step m i n m
  stays-Step m i n r no_info = record {
    shared = refl;
    reserve = less n m.msg_pool r;
    others = λ j ne. refl;
    told = record { absent = λ e. refl; present = λ p e. cc };
  }

  sent-Step :
      (m : Mgr io) (i n p : ℕ) (pool : io.Pool) (ring : io.Ring)
      → Reserve n pool
      → (m.shared.nfs i).nf_info ≡ some p
      → io.enqueue (m.msg_q i) stop_msg ≡ some ring
      → Step m i n (record m { msg_pool = pool; msg_q = update m.msg_q i ring })
  sent-Step m i n p pool ring r described room = record {
    shared = refl;
    reserve = r;
    others = λ j ne. update_ne m.msg_q i j ring ne;
    told = record {
      absent = λ e. cc;
      present = λ q e. room ∙ ap some (sym (update_self m.msg_q i ring));
    };
  }

  tell_stop-Step :
      (m : Mgr io) (i n : ℕ) → Reserve (suc n) m.msg_pool → Room m i → Step m i n (tell_stop m i)
  unfolding tell_stop send_msg
  tell_stop-Step m i n (one {p' = pool} e r) room = elim (Option-cases (m.shared.nfs i).nf_info) [
    | inl no_info ↦
        let same : tell_stop m i ≡ m = rw (tell_stop, no_info) refl in
        subst (Step m i n) (sym same) (stays-Step m i n (one e r) no_info)
    | inr (p, described) ↦
        let (ring, fits) = room p described in
        let same : tell_stop m i ≡ record m { msg_pool = pool; msg_q = update m.msg_q i ring } =
          rw (tell_stop, send_msg, described, e, fits) refl in
        subst (Step m i n) (sym same) (sent-Step m i n p pool ring r described fits)
  ]

  -- Entries of `m1` that are as in `m` are told alike.
  Told-from :
      (m m1 m' : Mgr io) (j : ℕ)
      → m1.shared ≡ m.shared
      → m1.msg_q j ≡ m.msg_q j
      → Told m1 m' j
      → Told m m' j
  Told-from m m1 m' j sh q t =
      let info : (m1.shared.nfs j).nf_info ≡ (m.shared.nfs j).nf_info =
        ap (λ (x : Shared). (x.nfs j).nf_info) sh in
      record {
        absent = λ e. t.absent (info ∙ e) ∙ q;
        present = λ p e. ap (λ r. io.enqueue r stop_msg) (sym q) ∙ t.present p (info ∙ e);
      }

  Room-from :
      (m m1 : Mgr io) (j : ℕ) → m1.shared ≡ m.shared → m1.msg_q j ≡ m.msg_q j → Room m j → Room m1 j
  Room-from m m1 j sh q room p e =
      let info : (m1.shared.nfs j).nf_info ≡ (m.shared.nfs j).nf_info =
        ap (λ (x : Shared). (x.nfs j).nf_info) sh in
      let (r, fits) = room p (sym info ∙ e) in (r, ap (λ x. io.enqueue x stop_msg) q ∙ fits)

  -- If the pool has an object for each of `n` entries and the rings have room, then of the entries from
  -- `i` to before `i + n` the ring of each described one becomes what DPDK makes of it when the stop
  -- message is put in once, the ring of each other one stays, no ring outside of this range changes, and
  -- the shared tables stay.
  pub tell_from-Told :
      (n i : ℕ) (m : Mgr io)
      → Reserve n m.msg_pool
      → ((j : ℕ) → i ≤ j → j < i + n → Room m j)
      → ((tell_from n i m).shared ≡ m.shared)
        × ((j : ℕ) → i ≤ j → j < i + n → Told m (tell_from n i m) j)
        × ((j : ℕ) → j < i ⊎ i + n ≤ j → (tell_from n i m).msg_q j ≡ m.msg_q j)
  unfolding tell_from
  tell_from-Told zero i m r room = (refl, λ j lo hi. absurd (omega arith), λ j out. refl)
  tell_from-Told (suc n) i m r room =
      let m1 = tell_stop m i in
      let st = tell_stop-Step m i n r (room i (omega arith) (omega arith)) in
      let apart : (j : ℕ) → i + 1 ≤ j → m1.msg_q j ≡ m.msg_q j =
        (λ j lo. st.others j (λ e. omega arith)) in
      let (sh, told, out) =
        tell_from-Told n (i + 1) m1 st.reserve (λ j lo hi.
          Room-from m m1 j st.shared (apart j lo) (room j (omega arith) (omega arith))) in
      (
        sh ∙ st.shared,
        λ j lo hi. elim (Bool-cases (i == j)) [
          | inl here ↦
              let e : i ≡ j = ground arith in
              subst (λ k. Told m (tell_from n (i + 1) m1) k) e
                (last m m1 (tell_from n (i + 1) m1) i (out i (inl (omega arith))) st.told)
          | inr later ↦
              let lo' : i + 1 ≤ j = ground arith in
              Told-from m m1 (tell_from n (i + 1) m1) j st.shared (apart j lo')
                (told j lo' (omega arith))
        ],
        λ j o. elim o [
          | inl before ↦ out j (inl (omega arith)) ∙ st.others j (λ e. omega arith)
          | inr behind ↦ out j (inr (omega arith)) ∙ st.others j (λ e. omega arith)
        ],
      )
    where
      last : (m m1 m' : Mgr io) (i : ℕ) → m'.msg_q i ≡ m1.msg_q i → Told m m1 i → Told m m' i
      last m m1 m' i q t = record {
        absent = λ e. q ∙ t.absent e;
        present = λ p e. t.present p e ∙ ap some (sym q);
      }
