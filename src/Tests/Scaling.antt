-- ===== src/Tests/Scaling.antt =====
-- An overloaded NF, a halted one, and loads of one type.
use d2sc.Prelude.{
  ℕ, zero, suc, ◌-◌, ◌/◌, min, ◌≡◌, refl, true, some, List, [], ◌∷◌, ◌++◌, arith, take, replicate,
  update, done, ◌>>=◌,
}
use d2sc.Common.{max_nfs, running, blocked, normal, halted, Shared}
use d2sc.ScaleData.{ScaleIo, ScaleMsg}
use d2sc.Scale.{Scaler, block_to_run, overload_one, with_nf}
use d2sc.Scale.Blocked.{blocked_from, run_all, block_to_run-eq, Overloaded, marked, overload_one-eq}
use d2sc.Scale.Load.{Described}
use d2sc.Tests.Data.{shared_of}

-- Queues of any length, and a heap and a pool that are never empty.
abbrev plenty : ScaleIo
plenty = record {
  Queue = List ScaleMsg;
  Pool = ℕ;
  calloc = λ n. true;
  mempool_get = λ n. some n;
  enqueue = λ q m. some (q ++ m ∷ []);
  floor_quotient = λ a b. a / b;
  floor_quotient-exact = λ a b l p. refl;
}

-- NF 1 is blocked; NF 2 has 50 packets at 6 microseconds each, three times its maximum of 100.
abbrev loaded : Shared
loaded =
    let sh = shared_of halted blocked 1 in
    record sh {
      nfs = update sh.nfs 2 (record (sh.nfs 2) { pkt_rate = 50 });
      infos = update sh.infos 2 (record (sh.infos 2) { srv_time = 6 });
    }

abbrev scaler : Scaler plenty
scaler = record {
  shared = loaded;
  scale_q = λ i. [];
  msg_pool = 0;
  allocs = 0;
  rx_used = λ i. 0;
  up_signal = 0;
  cnter = 0;
  rx_idle_cnt = 0;
}

block_to_run-eq_example :
    block_to_run plenty scaler 1 1
    ≡ run_all plenty scaler (take 1 (blocked_from max_nfs 0 loaded 1))
block_to_run-eq_example = block_to_run-eq plenty scaler 1 1 (omega arith)

Overloaded-two : Overloaded plenty scaler 2 2 3 1
Overloaded-two = record {
  described = refl;
  runs = refl;
  has_time = omega arith;
  has_max = omega arith;
  over = omega arith;
  exact = omega arith;
  quotient = refl;
  positive = omega arith;
  small = omega arith;
  known = omega arith;
  num_small = omega arith;
  counts = refl;
}

overload_one-eq_example : overload_one plenty scaler 2 ≡ (
    run_all plenty
      (marked plenty scaler 2)
      (take (min 3 1) (blocked_from max_nfs 0 (marked plenty scaler 2).shared 1))
    >>= λ s'. done (with_nf plenty s' 2 (λ nf. record nf { scale_num = 3 - 1 })))
overload_one-eq_example = overload_one-eq plenty scaler 2 2 3 1 Overloaded-two

two-Described : Described (shared_of normal running 2) (1 ∷ 2 ∷ replicate 6 0) 2
two-Described zero l = (1, 1, refl, omega arith, refl)
two-Described (suc zero) l = (2, 2, refl, omega arith, refl)
two-Described (suc (suc j)) l = absurd (omega arith)
