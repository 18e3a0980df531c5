-- ===== src/Nfrt/Signal.antt =====
-- What `d2sc_nfrt_handle_signal` of src/d2sc_nfrt/d2sc_nfrt.c does to the NFs' entries.
use d2sc.Prelude.{
  ℕ, zero, suc, ◌+◌, ◌≤◌, ◌<◌, ◌≡◌, refl, ap, ◌∙◌, subst, ◌≢◌, inl, inr, false, arith, ◌==◌,
  if◌then◌else◌, Bool-cases, update_self, update_ne,
}
use d2sc.Common.{max_nfs, halted, Nf}
use d2sc.Messages.{MsgIo}
use d2sc.ScaleData.{is_null}
use d2sc.Nfrt.{Nfrt, with_flag, mark_all_from, handle_signal}

-- An entry with a description is marked as blocked.
abbrev pub marked : Nf → Nf
marked nf = if is_null nf.nf_info then nf else record nf { bk_flag = halted }

module _ (io : MsgIo) where
  abbrev mark_one : ℕ → Nfrt io → Nfrt io
  mark_one i s = if is_null (s.shared.nfs i).nf_info then s else with_flag io s i halted

  mark_one-at : (i : ℕ) (s : Nfrt io) → (mark_one i s).shared.nfs i ≡ marked (s.shared.nfs i)
  mark_one-at i s = elim (Bool-cases (is_null (s.shared.nfs i).nf_info)) [
    | inl on ↦ rw on refl
    | inr off ↦ rw off (update_self s.shared.nfs i _)
  ]

  mark_one-apart : (i j : ℕ) (s : Nfrt io) → i ≢ j → (mark_one i s).shared.nfs j ≡ s.shared.nfs j
  mark_one-apart i j s ne = elim (Bool-cases (is_null (s.shared.nfs i).nf_info)) [
    | inl on ↦ rw on refl
    | inr off ↦ rw off (update_ne s.shared.nfs i j _ ne)
  ]

  mark_all_from-marks :
      (n i : ℕ) (s : Nfrt io)
      → ((j : ℕ)
          → i ≤ j
          → j < i + n
          → (mark_all_from io n i s).shared.nfs j ≡ marked (s.shared.nfs j))
        × ((j : ℕ) → j < i → (mark_all_from io n i s).shared.nfs j ≡ s.shared.nfs j)
  unfolding mark_all_from
  mark_all_from-marks zero i s = (λ j lo hi. absurd (omega arith), λ j b. refl)
  mark_all_from-marks (suc n) i s =
      let (new, old) = mark_all_from-marks n (i + 1) (mark_one i s) in
      (
        λ j lo hi. elim (Bool-cases (i == j)) [
          | inl here ↦
              let q : i ≡ j = ground arith in
              subst
                (λ k.
                  (mark_all_from io n (i + 1) (mark_one i s)).shared.nfs k
                  ≡ marked (s.shared.nfs k))
                q (old i (omega arith) ∙ mark_one-at i s)
          | inr later ↦
              new j (ground arith) (omega arith)
              ∙ ap marked (mark_one-apart i j s (λ q. ground arith))
        ],
        λ j b. old j (omega arith) ∙ mark_one-apart i j s (λ q. omega arith),
      )

  -- A signal marks every entry below 16 that has a description as blocked.
  pub handle_signal-marks :
      (s : Nfrt io) (j : ℕ)
      → j < max_nfs
      → (handle_signal io s).shared.nfs j ≡ marked (s.shared.nfs j)
  unfolding handle_signal
  handle_signal-marks s j l =
      let (new, old) = mark_all_from-marks max_nfs 0 s in new j (omega arith) (omega arith)

  pub handle_signal-stops : (s : Nfrt io) → (handle_signal io s).keep_running ≡ false
  unfolding handle_signal
  handle_signal-stops s = refl
