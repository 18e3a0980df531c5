-- ===== src/Nfrt/Protocol.antt =====
-- The two sides of blocking: the NF's step on a scale message, and the manager's on the NF's answer.
use d2sc.Prelude.{ℕ, ◌≡◌, refl, some, done}
use d2sc.Messages.{MsgIo}
use d2sc.NfMgr.Registry.{Registry}
use d2sc.Nfrt.{Nfrt, message, post}

module _ (io : MsgIo) where
  -- A message for the manager finds a free object and room in the ring.
  pub record CanPost (s : Nfrt io) (t p : ℕ) : Type 0 where
    pub pool : io.Pool
    pub ring : io.Ring
    pub gets : io.mempool_get s.msg_pool ≡ some pool
    pub fits : io.enqueue s.new_msg_queue (message io t p) ≡ some ring

  pub post-shared :
      (s : Nfrt io) (t p : ℕ)
      → (c : CanPost s t p)
      → post io s t p ≡ done (record s { msg_pool = c.pool; new_msg_queue = c.ring })
  unfolding post
  post-shared s t p c = rw (c.gets, c.fits) refl
