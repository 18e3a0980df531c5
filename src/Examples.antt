-- ===== src/Examples.antt =====
-- The NFs under src/examples that use this runtime, and what they share: the options -d and -p, and the
-- display of every so many packets.
pub mod Forward
pub mod Monitor
pub mod Encryptor
pub mod Turns
pub mod Tracker
pub mod Arrives
use d2sc.Prelude.{
  ℕ, ◌+◌, ◌*◌, ◌%◌, ◌^◌, ◌<◌, ◌≡◌, refl, sym, subst, inl, inr, Bool, true, false, Option, List, [],
  ◌∷◌, arith, ◌==◌, if◌then◌else◌, Bool-cases, add_u64, length,
}
use d2sc.Common.{Ipv4Hdr, Mbuf}
use d2sc.Parse.{strtoul}
use d2sc.PktHelper.{ipv4_hdr}

-- What `do_stats_display` prints of a packet, without its size.
pub record Report : Type 0 where
  pub port : ℕ
  pub pkt_process : ℕ
  pub header : Option Ipv4Hdr

-- The counter of a packet handler, the packets between two displays, the number that the display has
-- reached, and what was printed, the last first.
pub record Progress : Type 0 where
  pub print_delay : ℕ
  pub counter : ℕ
  pub pkt_process : ℕ
  pub reports : List Report

unfoldable pub do_stats_display : Mbuf → Progress → Progress
unfolding ipv4_hdr
do_stats_display pkt s =
    let n = add_u64 s.pkt_process s.print_delay in
    record s {
      pkt_process = n;
      reports = record { port = pkt.port; pkt_process = n; header = ipv4_hdr pkt } ∷ s.reports;
    }

-- `if (++counter == print_delay)`, on a uint32_t.
unfoldable pub count : Mbuf → Progress → Progress
count pkt s =
    let n = (s.counter + 1) % 2 ^ 32 in
    if n == s.print_delay
    then record (do_stats_display pkt s) { counter = 0 }
    else record s { counter = n }

-- The variables that the options set.
pub record AppArgs : Type 0 where
  pub destination : ℕ
  pub print_delay : ℕ
  pub dst_flag : Bool

abbrev pub to_u32 : List ℕ → ℕ
to_u32 s = (strtoul 10 s).0 % 2 ^ 32

-- The options -d and -p in the order in which getopt gives them; the flag is whether the parse succeeds.
pub parse_app_args : List (ℕ × List ℕ) → AppArgs → Bool × AppArgs
parse_app_args [] a = (a.dst_flag, a)
parse_app_args ((c, arg) ∷ opts) a =
    let with_dst = parse_app_args opts (record a { destination = to_u32 arg; dst_flag = true }) in
    let with_delay = parse_app_args opts (record a { print_delay = to_u32 arg }) in
    if c == 100 then with_dst else if c == 112 then with_delay else (false, a)

-- What a counter comes to after `n` packets.
unfoldable pub counts : List Mbuf → Progress → Progress
counts [] s = s
counts (p ∷ ps) s = counts ps (count p s)

-- After `n` packets the counter is the rest of the division of what was counted by `print_delay`, and each
-- `print_delay` packets gave one display.
abbrev pub Divides : Progress → ℕ → Progress → Type 0
Divides s n s' =
    (k : ℕ) × (length s'.reports ≡ k + length s.reports)
    × (s.counter + n ≡ k * s.print_delay + s'.counter)
    × (s'.counter < s.print_delay)

pub counts-Divides :
    (ps : List Mbuf) (s : Progress)
    → s.counter < s.print_delay
    → s.print_delay < 2 ^ 32
    → Divides s (length ps) (counts ps s)
unfolding counts count do_stats_display
counts-Divides [] s l b = (0, omega arith, omega arith, l)
counts-Divides (p ∷ ps) s l b =
    let next : (s.counter + 1) % 2 ^ 32 ≡ s.counter + 1 = omega arith in
    elim (Bool-cases ((s.counter + 1) % 2 ^ 32 == s.print_delay)) [
      | inl shows ↦
          let full : s.counter + 1 ≡ s.print_delay = ground arith in
          let s1 : Progress = record (do_stats_display p s) { counter = 0 } in
          let e : count p s ≡ s1 = rw shows refl in
          let (k, reports, total, rest) = counts-Divides ps s1 (omega arith) b in
          subst (λ x. Divides s (length (p ∷ ps)) (counts ps x)) (sym e)
            (k + 1, omega (arith, reports), omega (arith, total, full), rest)
      | inr counts_on ↦
          let below : s.counter + 1 < s.print_delay = ground arith in
          let s1 : Progress = record s { counter = (s.counter + 1) % 2 ^ 32 } in
          let e : count p s ≡ s1 = rw counts_on refl in
          let (k, reports, total, rest) = counts-Divides ps s1 (omega arith) b in
          subst (λ x. Divides s (length (p ∷ ps)) (counts ps x)) (sym e)
            (k, reports, omega (arith, total, next), rest)
    ]
