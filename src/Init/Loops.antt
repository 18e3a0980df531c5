-- ===== src/Init/Loops.antt =====
-- The loops of the start get through when DPDK makes what they ask for, and write what they should.
use d2sc.Prelude.{
  ℕ, zero, suc, ◌+◌, ◌*◌, ◌≤◌, ◌<◌, ◌≡◌, refl, ap, ◌∙◌, subst, inl, inr, Bool, true, List, [], ◌∷◌,
  arith, ltb, leb, ◌==◌, Bool-cases, replicate, update, update_self, update_ne, All, done, fault,
}
use d2sc.Common.{nf_ring_size, max_nfs_per_nt, Nf}
use d2sc.NfMgr.{clear_stats}
use d2sc.PktHelper.{PortInfo}
use d2sc.EthPort.{init_port}
use d2sc.Dpdk.{
  RingName, rx_ring, tx_ring, msg_ring, scale_ring, nf_msg_ring_size, nf_scale_ring_size, Dpdk,
}
use d2sc.Init.{clear_all_nfs, fresh_nf, row_of, init_rows, init_shm_rings, init_ports}

pub init_rows-done :
    (row : ℕ → Bool) (bytes n i : ℕ) (nts : ℕ → List ℕ)
    → ((j : ℕ) → row j ≡ true)
    → 8 * (i + n) ≤ bytes
    → (nts' : ℕ → List ℕ) × (init_rows row bytes n i nts ≡ done nts')
      × ((t : ℕ) → i ≤ t → t < i + n → nts' t ≡ replicate max_nfs_per_nt 0)
      × ((t : ℕ) → t < i → nts' t ≡ nts t)
unfolding init_rows
init_rows-done row bytes zero i nts made fits =
    (nts, refl, λ t lo hi. absurd (omega arith), λ t l. refl)
init_rows-done row bytes (suc n) i nts made fits =
    let inside : leb (8 * i + 8) bytes ≡ true = ground arith in
    let (nts', e, new, old) =
      init_rows-done row bytes n (i + 1) (update nts i (row_of (row i))) made (omega arith) in
    (
      nts',
      rw inside e,
      λ t lo hi. elim (Bool-cases (i == t)) [
        | inl here ↦
            let q : i ≡ t = ground arith in
            subst (λ u. nts' u ≡ replicate max_nfs_per_nt 0) q
              (old i (omega arith) ∙ update_self nts i (row_of (row i)) ∙ ap row_of (made i))
        | inr later ↦ new t (ground arith) (omega arith)
      ],
      λ t l. old t (omega arith) ∙ update_ne nts i t (row_of (row i)) (λ q. omega arith),
    )

pub init_rows-overrun :
    (row : ℕ → Bool) (bytes n i : ℕ) (nts : ℕ → List ℕ)
    → bytes < 8 * (i + n)
    → 8 * i ≤ bytes
    → init_rows row bytes n i nts ≡ fault
unfolding init_rows
init_rows-overrun row bytes zero i nts over before = absurd (omega arith)
init_rows-overrun row bytes (suc n) i nts over before = elim (Bool-cases (leb (8 * i + 8) bytes)) [
  | inl inside ↦ rw inside (
      init_rows-overrun row bytes n (i + 1) (update nts i (row_of (row i))) (omega arith)
        (ground arith))
  | inr out ↦ rw out refl
]

pub init_shm_rings-done :
    (ring : RingName → ℕ → Bool) (n i : ℕ) (nfs : ℕ → Nf)
    → ((r : RingName) (size : ℕ) → ring r size ≡ true)
    → (nfs' : ℕ → Nf) × (init_shm_rings ring n i nfs ≡ done nfs')
      × ((j : ℕ) → i ≤ j → j < i + n → nfs' j ≡ fresh_nf j)
      × ((j : ℕ) → j < i → nfs' j ≡ nfs j)
unfolding init_shm_rings
init_shm_rings-done ring zero i nfs made = (nfs, refl, λ j lo hi. absurd (omega arith), λ j l. refl)
init_shm_rings-done ring (suc n) i nfs made =
    let (nfs', e, new, old) = init_shm_rings-done ring n (i + 1) (update nfs i (fresh_nf i)) made in
    (
      nfs',
      rw
          (
            made (rx_ring i) nf_ring_size,
            made (tx_ring i) nf_ring_size,
            made (msg_ring i) nf_msg_ring_size,
            made (scale_ring i) nf_scale_ring_size,
          )
          e,
      λ j lo hi. elim (Bool-cases (i == j)) [
        | inl here ↦
            let q : i ≡ j = ground arith in
            subst (λ u. nfs' u ≡ fresh_nf u) q
              (old i (omega arith) ∙ update_self nfs i (fresh_nf i))
        | inr later ↦ new j (ground arith) (omega arith)
      ],
      λ j l. old j (omega arith) ∙ update_ne nfs i j (fresh_nf i) (λ q. omega arith),
    )

-- A port that can be initialised.
abbrev pub Startable : Dpdk → ℕ → ℕ → Type 0
Startable d limit p = (p < 32) × (p < limit) × ((init_port d.accepts p).0 ≡ true)

pub init_ports-done :
    (d : Dpdk) (ids : List ℕ) (ports : PortInfo)
    → All (Startable d ports.limit) ids
    → (ports' : PortInfo) × (init_ports d ids ports ≡ done ports')
      × (ports'.limit ≡ ports.limit)
      × (ports'.n_ports ≡ ports.n_ports)
      × (ports'.id ≡ ports.id)
unfolding init_ports
init_ports-done d [] ports all_ok = (ports, refl, refl, refl, refl)
init_ports-done d (p ∷ ids) ports ((small, l, started), rest) =
    let inside : ltb p ports.limit ≡ true = ground arith in
    let (ports', e, lim, num, id) =
      init_ports-done d ids (record ports { mac = update ports.mac p (d.mac p) }) rest in
    (ports', rw (inside, started) e, lim, num, id)

-- Clearing the statistics keeps the rest of an entry.
pub clear_all_nfs-keeps :
    (n i : ℕ) (nfs : ℕ → Nf) (j : ℕ)
    → ((clear_all_nfs n i nfs j).nf_info ≡ (nfs j).nf_info)
      × ((clear_all_nfs n i nfs j).inst_id ≡ (nfs j).inst_id)
      × ((clear_all_nfs n i nfs j).bk_flag ≡ (nfs j).bk_flag)
unfolding clear_all_nfs
clear_all_nfs-keeps zero i nfs j = (refl, refl, refl)
clear_all_nfs-keeps (suc n) i nfs j =
    let cleared : Nf = record (nfs i) { stats = clear_stats (nfs i).stats } in
    let (p, d, b) = clear_all_nfs-keeps n (i + 1) (update nfs i cleared) j in
    (p ∙ ground arith, d ∙ ground arith, b ∙ ground arith)
