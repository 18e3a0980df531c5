-- ===== src/NfLoop/Stops.antt =====
-- The end of an NF, on both sides: it handles the stop message, posts that it stops, and the manager
-- deregisters it.
use d2sc.Prelude.{ℕ, ◌≡◌, List}
use d2sc.Common.{stopped, halted, Shared, set_nf, set_info}
use d2sc.Messages.{MsgIo}
use d2sc.NfMgr.Registry.{Registry}
use d2sc.NfMgr.Handlers.{Registered}
use d2sc.Nfrt.{Nfrt, with_info}

-- What the manager finds of an NF that was told to stop: its flag and its status have changed.
abbrev stopping : Shared → ℕ → ℕ → Shared
stopping sh i p =
    let flagged = set_nf sh i (record (sh.nfs i) { bk_flag = halted }) in
    set_info flagged p (record (sh.infos p) { status = stopped })

module _ (sh : Shared) (ids : ℕ → List ℕ) (p i : ℕ) (r : Registry sh ids)
    (g : Registered sh ids p p) (own : (sh.infos p).inst_id ≡ i) where
  abbrev t : ℕ
  t = (sh.infos p).type_id

module _ (io : MsgIo) where
  abbrev pub stopped_info : Nfrt io → ℕ → Nfrt io
  stopped_info s p = with_info io s p (λ x. record x { status = stopped })
