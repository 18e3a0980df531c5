-- ===== src/ScaleData.antt =====
-- What scaling works on: the messages and bounds of src/d2sc_mgr/d2sc_scale.h, 16-bit arithmetic, and
-- DPDK's heap, message pool and scale queues with the machine's floating-point quotient, `ScaleIo`.
use d2sc.Prelude.{
  ℕ, ◌+◌, ◌-◌, ◌*◌, ◌/◌, ◌%◌, ◌^◌, ◌<◌, ◌≡◌, Bool, true, false, ◌&&◌, Option, none, some, ltb, ◌==◌,
  if◌then◌else◌, Outcome, done, fault, ◌>>=◌, access,
}
use d2sc.Common.{Status, blocked, BkFlag, signalled, NfInfo, Shared}

abbrev pub scale_up : ℕ
scale_up = 3

abbrev pub scale_block : ℕ
scale_block = 2

abbrev pub scale_run : ℕ
scale_run = 1

abbrev pub max_check_iters : ℕ
max_check_iters = 105000000

abbrev pub check_interval : ℕ
check_interval = 5

-- struct d2sc_scale_msg with the struct d2sc_scale_info that it points to.
pub record ScaleMsg : Type 0 where
  pub scale_sig : ℕ
  pub inst_id : ℕ
  pub scale_num : ℕ

-- `calloc` is rte_calloc after that many calls; `floor_quotient` is floor((float)a / b), which is exact
-- while a float holds `a` exactly.
pub record ScaleIo : Type 1 where
  pub Queue : Type 0
  pub Pool : Type 0
  pub calloc : ℕ → Bool
  pub mempool_get : Pool → Option Pool
  pub enqueue : Queue → ScaleMsg → Option Queue
  pub floor_quotient : ℕ → ℕ → ℕ
  pub floor_quotient-exact : (a b : ℕ) → a < 2 ^ 24 → 0 < b → floor_quotient a b ≡ a / b

-- A product of two uint16_t is an int; beyond its range it is undefined.
abbrev pub mul_int : ℕ → ℕ → Outcome ℕ
mul_int a b = if ltb (a * b) 2147483648 then done (a * b) else fault

-- (uint16_t)(a - b) for a 16-bit `b`
abbrev pub sub_u16 : ℕ → ℕ → ℕ
sub_u16 a b = ((a + 65536) - b) % 65536

abbrev pub is_blocked : Status → Bool
is_blocked blocked = true
is_blocked _ = false

abbrev pub is_signalled : BkFlag → Bool
is_signalled signalled = true
is_signalled _ = false

-- The NF behind a description pointer has type `t` and is blocked.
abbrev pub blocked_at : (ℕ → NfInfo) → ℕ → Option ℕ → Bool
blocked_at infos t none = false
blocked_at infos t (some p) = ((infos p).type_id == t) && is_blocked (infos p).status

abbrev pub is_null : Option ℕ → Bool
is_null none = true
is_null (some p) = false

-- A read through an NF's description pointer.
abbrev pub info_at : Shared → ℕ → Outcome NfInfo
info_at sh i = access (sh.nfs i).nf_info >>= λ p. done (sh.infos p)
