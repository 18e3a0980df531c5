-- ===== src/NfLoop/Children.antt =====
-- The start of a child NF on its core: `d2sc_nfrt_start_child` of src/d2sc_nfrt/d2sc_nfrt.c, up to the message
-- to the manager and from its answer on; `d2sc_nfrt_ret_pkt`; and how many children are launched.
use d2sc.Prelude.{ℕ, ◌+◌, ◌%◌, Outcome, done, ◌>>=◌}
use d2sc.Common.{set_nf}
use Prim.Native.String.{String}
use d2sc.Messages.{MsgIo}
use d2sc.Nfrt.{Nfrt, NfArgs, with_info, info_init, info_init_at, send_start, after_start}

module _ (io : MsgIo) where
  -- What the parent in entry `i` counts down when a child starts, and what the child takes from it: `pp` is
  -- the parent's description and `p` the new one.
  abbrev with_srv_time : ℕ → ℕ → Nfrt io → Nfrt io
  with_srv_time pp p s =
      with_info io s p (λ x. record x { srv_time = (s.shared.infos pp).srv_time })

  abbrev less_one_child : ℕ → Nfrt io → Nfrt io
  less_one_child i s =
      let nf = s.shared.nfs i in
      record s {
        shared = set_nf s.shared i (record nf { scale_num = (nf.scale_num + 65535) % 65536 });
      }

  -- Up to the wait for the manager.
  unfoldable pub start_child : NfArgs → ℕ → ℕ → ℕ → Nfrt io → Outcome (Nfrt io)
  start_child a i pp p s = do
    let parent = s.shared.infos pp
    s1 ← info_init io a parent.name parent.max_load (less_one_child i s) p
    send_start io (with_srv_time pp p s1) p

  -- After the wait: the child's entry has its parent's number.
  abbrev with_parent : ℕ → ℕ → Nfrt io → Nfrt io
  with_parent i p s =
      let j = (s.shared.infos p).inst_id in
      record s {
        shared =
            set_nf s.shared j (record (s.shared.nfs j) { parent_nf = (s.shared.nfs i).inst_id });
      }

  unfoldable pub child_started : ℕ → ℕ → Nfrt io → Outcome (Nfrt io)
  child_started i p s = after_start io s p >>= λ s1. done (with_parent i p s1)

  -- What the child has when it tells the manager.
  abbrev asking : NfArgs → ℕ → ℕ → ℕ → io.Pool → Nfrt io → Nfrt io
  asking a i pp p pool s =
      let parent = s.shared.infos pp in
      with_srv_time pp p (info_init_at io a parent.name parent.max_load (less_one_child i s) p pool)
