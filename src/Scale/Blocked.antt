-- ===== src/Scale/Blocked.antt =====
-- Which NFs are told to run again: `d2sc_scale_block_to_run` against the list of blocked NFs, and what
-- `d2sc_scale_check_overload` does with an overloaded NF.
use d2sc.Prelude.{
  ℕ, zero, suc, ◌+◌, ◌-◌, ◌*◌, ◌/◌, ◌^◌, ◌≤◌, ◌<◌, min, ◌≡◌, refl, ap, ◌∙◌, inl, inr, true, false,
  Option, none, some, List, [], ◌∷◌, arith, ltb, leb, ◌==◌, if◌then◌else◌, Bool-cases, take,
  Outcome, done, ◌>>=◌, >>=-congr,
}
use d2sc.Common.{nf_is_valid, max_nfs, max_nts, running, NfInfo, Shared}
use d2sc.ScaleData.{info_at, ScaleIo, ScaleMsg, scale_run, blocked_at, is_null, sub_u16}
use d2sc.Scale.{
  Scaler, send_msg, with_msg, queued, send_info, block_to_run_from, block_to_run, scale_by,
  overload_one, with_nf, overload_info,
}

-- The blocked NFs of type `t` among `n` NFs from index `i` on.
pub blocked_from : ℕ → ℕ → Shared → ℕ → List ℕ
blocked_from zero i sh t = []
blocked_from (suc n) i sh t =
    let rest = blocked_from n (i + 1) sh t in
    if blocked_at sh.infos t (sh.nfs i).nf_info then i ∷ rest else rest

not-null-blocked :
    (f : ℕ → NfInfo) (t : ℕ) (o : Option ℕ) → is_null o ≡ true → blocked_at f t o ≡ false
not-null-blocked f t none h = refl
not-null-blocked f t (some p) h = cc

module _ (io : ScaleIo) where
  -- A run message for each NF of a list.
  pub run_all : Scaler io → List ℕ → Outcome (Scaler io)
  run_all s [] = done s
  run_all s (i ∷ is) = send_info io s scale_run i 0 >>= λ s'. run_all s' is

  queued-shared :
      (s s' : Scaler io) (i : ℕ) (o : Option io.Queue)
      → queued io s i o ≡ done s'
      → s'.shared ≡ s.shared
  queued-shared s s' i none h = cc
  queued-shared s s' i (some q) h = ground arith

  with_msg-shared :
      (s s' : Scaler io) (m : ScaleMsg) (o : Option io.Pool)
      → with_msg io s m o ≡ done s'
      → s'.shared ≡ s.shared
  with_msg-shared s s' m none h = ground arith
  with_msg-shared s s' m (some pool) h =
      queued-shared (record s { msg_pool = pool }) s' m.inst_id _ h

  pub send_info-shared :
      (s s' : Scaler io) (sig i num : ℕ) → send_info io s sig i num ≡ done s' → s'.shared ≡ s.shared
  unfolding send_info send_msg
  send_info-shared s s' sig i num h = elim (Bool-cases (io.calloc s.allocs)) [
    | inr out ↦ let h1 = rw out at h in cc
    | inl ok ↦
        let h1 = rw ok at h in
        elim (Bool-cases (ltb i max_nfs)) [
          | inr out ↦ let h2 = rw out at h1 in cc
          | inl l ↦ let h2 = rw l at h1 in with_msg-shared _ s' _ _ h2
        ]
  ]

  run_all-nil : (k : ℕ) (s : Scaler io) → done s ≡ run_all s (take k [])
  unfolding run_all
  run_all-nil zero s = refl
  run_all-nil (suc k) s = refl

  block_to_run_from-eq :
      (n i : ℕ) (s : Scaler io) (t num counter : ℕ)
      → counter < num
      → block_to_run_from io n i s t num counter
        ≡ run_all s (take (num - counter) (blocked_from n i s.shared t))
  unfolding block_to_run_from run_all blocked_from
  block_to_run_from-eq zero i s t num counter l = run_all-nil (num - counter) s
  block_to_run_from-eq (suc n) i s t num counter l =
      elim (Bool-cases (blocked_at s.shared.infos t (s.shared.nfs i).nf_info)) [
        | inl blk ↦
            let more : num - counter ≡ suc (num - (counter + 1)) = omega arith in
            rw (blk, more)
              (>>=-congr (send_info io s scale_run i 0) _ _ (λ s' e.
                elim (Bool-cases (counter + 1 == num)) [
                  | inl last ↦ let z : num - (counter + 1) ≡ 0 = ground arith in rw (last, z)
                  | inr go ↦ rw go (
                      block_to_run_from-eq n (i + 1) s' t num (counter + 1) (ground arith)
                      ∙ ap
                          (λ sh.
                            run_all s' (take (num - (counter + 1)) (blocked_from n (i + 1) sh t)))
                          (send_info-shared s s' scale_run i 0 e))
                ]))
        | inr free ↦
            let more : counter == num ≡ false = ground arith in
            let rest = block_to_run_from-eq n (i + 1) s t num counter l in
            elim (Bool-cases (is_null (s.shared.nfs i).nf_info)) [
              | inl null ↦ rw (free, null) rest
              | inr known ↦ rw (free, known, more) rest
            ]
      ]

  -- Asked to run at least one NF again, `d2sc_scale_block_to_run` sends one message each to the first
  -- blocked NFs of the type, at most as many as asked for, in the order of their numbers.
  pub block_to_run-eq :
      (s : Scaler io) (t num : ℕ)
      → 0 < num
      → block_to_run io s t num ≡ run_all s (take num (blocked_from max_nfs 0 s.shared t))
  unfolding block_to_run
  block_to_run-eq s t num l =
      let whole : num - 0 ≡ num = omega arith in
      block_to_run_from-eq max_nfs 0 s t num 0 l
      ∙ ap (λ k. run_all s (take k (blocked_from max_nfs 0 s.shared t))) whole

  scale_by-eq :
      (s : Scaler io) (i t q b : ℕ)
      → 0 < q
      → q < 65536
      → scale_by io s i t q b ≡ (
          run_all s (take (min q b) (blocked_from max_nfs 0 s.shared t)) >>= λ s'.
          done (with_nf io s' i (λ nf. record nf { scale_num = q - b })))
  unfolding scale_by
  scale_by-eq s i t q b pos small = elim (Bool-cases (leb q b)) [
    | inl fits ↦
        let none_left : q - b ≡ 0 = ground arith in
        let all : min q b ≡ q = ground arith in
        rw (fits, none_left, all, block_to_run-eq s t q pos) refl
    | inr beyond ↦ elim (Bool-cases (ltb 0 b)) [
      | inl p ↦
          let all : min q b ≡ b = ground arith in
          let left : sub_u16 q b ≡ q - b = ground arith in
          rw (beyond, p, all, left, block_to_run-eq s t b (ground arith)) refl
      | inr z ↦
          let zero_b : b ≡ 0 = ground arith in
          let left : sub_u16 q b ≡ q - b = ground arith in
          let no : min q b ≡ 0 = ground arith in rw (beyond, z, left, no) (unfold run_all in refl)
    ]
  ]

  -- A running NF described at `p` whose load has the quotient `q` by its maximum, with `b` instances of
  -- its type not available.
  pub record Overloaded (s : Scaler io) (i p q b : ℕ) : Type 0 where
    pub described : (s.shared.nfs i).nf_info ≡ some p
    pub runs : (s.shared.infos p).status ≡ running
    pub has_time : 0 < (s.shared.infos p).srv_time
    pub has_max : 0 < (s.shared.infos p).max_load
    pub over : (s.shared.infos p).max_load ≤ (s.shared.nfs i).pkt_rate * (s.shared.infos p).srv_time
    pub exact : (s.shared.nfs i).pkt_rate * (s.shared.infos p).srv_time < 2 ^ 24
    pub quotient :
        ((s.shared.nfs i).pkt_rate * (s.shared.infos p).srv_time) / (s.shared.infos p).max_load ≡ q
    pub positive : 0 < q
    pub small : q < 65536
    pub known : (s.shared.infos p).type_id < max_nts
    pub num_small : s.shared.nfs_per_nt_num (s.shared.infos p).type_id < 65536
    pub counts :
        s.shared.nfs_per_nt_available (s.shared.infos p).type_id + b
        ≡ s.shared.nfs_per_nt_num (s.shared.infos p).type_id

  abbrev pub marked : Scaler io → ℕ → Scaler io
  marked s i = with_nf io s i (λ nf. record nf { ol_flag = 1 })

  overload_info-scale_by :
      (s : Scaler io) (i p q b : ℕ)
      → Overloaded s i p q b
      → overload_info io s i (s.shared.infos p)
        ≡ scale_by io (marked s i) i (s.shared.infos p).type_id q b
  overload_info-scale_by s i p q b o =
      let timed : (s.shared.infos p).srv_time == 0 ≡ false = let h = o.has_time in ground arith in
      let int_size : ltb ((s.shared.nfs i).pkt_rate * (s.shared.infos p).srv_time) 2147483648
          ≡ true =
        let h = o.exact in ground arith in
      let beyond : leb (s.shared.infos p).max_load
            ((s.shared.nfs i).pkt_rate * (s.shared.infos p).srv_time)
          ≡ true =
        let h = o.over in ground arith in
      let type_ok : ltb (s.shared.infos p).type_id max_nts ≡ true =
        let h = o.known in ground arith in
      let quot : io.floor_quotient ((s.shared.nfs i).pkt_rate * (s.shared.infos p).srv_time)
            (s.shared.infos p).max_load
          ≡ q =
        io.floor_quotient-exact _ _ o.exact o.has_max ∙ o.quotient in
      let q16 : ltb q 65536 ≡ true = let h = o.small in ground arith in
      let diff : sub_u16 (s.shared.nfs_per_nt_num (s.shared.infos p).type_id)
            (s.shared.nfs_per_nt_available (s.shared.infos p).type_id)
          ≡ b =
        let h = o.num_small in let c = o.counts in omega arith in
      rw (timed, int_size, beyond, type_ok, quot, q16, diff) refl

  -- A running NF of a known type with a service time and a maximal load above 0, whose load is at least that
  -- maximum and below 2^24, so that a float holds it, with a quotient `q` of the two above 0 and below
  -- 2^16, and with `b` instances of its type not available, of a number of instances below 2^16: it is
  -- marked as overloaded, the first blocked NFs of its type are told to run again, at most `q` and at
  -- most `b` of them, and its number of children to start becomes what `q` has beyond `b`.
  pub overload_one-eq :
      (s : Scaler io) (i p q b : ℕ)
      → Overloaded s i p q b
      → overload_one io s i ≡ (
          run_all
            (marked s i)
            (take (min q b) (blocked_from max_nfs 0 (marked s i).shared (s.shared.infos p).type_id))
          >>= λ s'. done (with_nf io s' i (λ nf. record nf { scale_num = q - b })))
  unfolding overload_one
  overload_one-eq s i p q b o =
      let valid : nf_is_valid s.shared i ≡ true = rw (o.described, o.runs) refl in
      let read : info_at s.shared i ≡ done (s.shared.infos p) = rw o.described refl in
      let enter : overload_one io s i ≡ overload_info io s i (s.shared.infos p) =
        rw (valid, read) refl in
      enter
      ∙ overload_info-scale_by s i p q b o
      ∙ scale_by-eq (marked s i) i (s.shared.infos p).type_id q b o.positive o.small
