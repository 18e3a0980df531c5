-- ===== src/Parse.antt =====
-- The manager's arguments: src/d2sc_mgr/d2sc_parse.c. Strings are lists of character codes without the
-- final zero. What getopt_long finds is an argument: the options in order, each with its argument or a
-- null pointer.
pub mod Number
pub mod Ports
use d2sc.Prelude.{
  ℕ, zero, suc, ◌+◌, ◌-◌, ◌*◌, ◌/◌, ◌%◌, ◌^◌, Bool, true, false, not, ◌&&◌, ◌||◌, Option, none,
  some, List, [], ◌∷◌, ◌++◌, ltb, leb, ◌==◌, if◌then◌else◌, add_u8, length, Outcome, done, fault,
  ◌>>=◌,
}

abbrev ulong_max : ℕ
ulong_max = 18446744073709551615

abbrev is_space : ℕ → Bool
is_space c = (c == 32) || (leb 9 c && leb c 13)

-- The value of a digit or a letter, if it is one below the base.
abbrev pub digit_val : ℕ → ℕ → Option ℕ
digit_val base c =
    let v =
      if leb 48 c && leb c 57
      then c - 48
      else if leb 97 c && leb c 122
      then c - 87
      else if leb 65 c && leb c 90
      then c - 55
      else 99 in
    if ltb v base then some v else none

abbrev pub is_digit : ℕ → List ℕ → Bool
is_digit base [] = false
is_digit base (c ∷ cs) = elim (digit_val base c) [ none ↦ false | some d ↦ true ]

unfoldable pub skip_space : List ℕ → List ℕ
skip_space [] = []
skip_space (c ∷ cs) = if is_space c then skip_space cs else c ∷ cs

-- The sign and what follows it.
abbrev pub sign : List ℕ → Bool × List ℕ
sign [] = (false, [])
sign (c ∷ cs) = if c == 45 then (true, cs) else if c == 43 then (false, cs) else (false, c ∷ cs)

-- "0x" before a hexadecimal digit.
abbrev pub skip_prefix : ℕ → List ℕ → List ℕ
skip_prefix base [] = []
skip_prefix base (z ∷ []) = z ∷ []
skip_prefix base (z ∷ x ∷ cs) =
    if (base == 16) && (z == 48) && ((x == 120) || (x == 88)) && is_digit 16 cs
    then cs
    else z ∷ x ∷ cs

-- The value of the leading digits, and what follows them.
unfoldable pub digits : ℕ → ℕ → List ℕ → ℕ × List ℕ
digits base acc [] = (acc, [])
digits base acc (c ∷ cs) = elim (digit_val base c) [
  | none ↦ (acc, c ∷ cs)
  | some d ↦ digits base (acc * base + d) cs
]

abbrev pub signed : Bool × List ℕ → ℕ × List ℕ → ℕ × List ℕ
signed (neg, x) (v, rest) =
    (if ltb ulong_max v then ulong_max else if neg then (2 ^ 64 - v) % 2 ^ 64 else v, rest)

-- C's strtoul: the value, and the text at `end`.
unfoldable pub strtoul : ℕ → List ℕ → ℕ × List ℕ
unfolding skip_space digits
strtoul base s =
    let sg = sign (skip_space s) in
    let ds = skip_prefix base sg.1 in
    if is_digit base ds then signed sg (digits base 0 ds) else (0, s)

abbrev pub is_end : List ℕ → Bool
is_end [] = true
is_end (c ∷ cs) = false

abbrev checked : ℕ × List ℕ → Option ℕ
checked (temp, rest) = if not (is_end rest) || (temp == 0) then none else some (temp % 65536)

-- What the parsers of the number of NF types, of the default type, of the number of RX threads and of
-- the pause all do with their text; `none` is -1.
unfoldable pub parse_u16 : List ℕ → Option ℕ
unfolding strtoul
parse_u16 s = checked (strtoul 10 s)

-- The port numbers `id[0]` to `id[n_ports - 1]`, in an array of `limit` entries.
pub record PortIds : Type 0 where
  pub limit : ℕ
  pub ids : List ℕ

abbrev add_port : PortIds → ℕ → Outcome PortIds
add_port ports num =
    if ltb (length ports.ids) ports.limit
    then done (record ports { ids = ports.ids ++ num ∷ [] })
    else fault

-- The loop over the bits of the mask; a mask of `unsigned long` has 64.
unfoldable pub mark_ports : ℕ → ℕ → ℕ → ℕ → PortIds → Outcome PortIds
mark_ports zero n_ports pm num ports = done ports
mark_ports (suc fuel) n_ports pm num ports =
    if pm == 0
    then done ports
    else ((if (pm % 2 == 1) && ltb num n_ports then add_port ports num else done ports)
        >>= mark_ports fuel n_ports (pm / 2) (add_u8 num 1))

abbrev masked : ℕ → PortIds → ℕ × List ℕ → Outcome (Bool × PortIds)
masked n_ports ports (pm, rest) =
    if pm == 0
    then done (true, ports)
    else if not (is_end rest)
    then done (false, ports)
    else (mark_ports 64 n_ports pm 0 ports >>= λ p. done (true, p))

-- The flag is whether the result is 0.
unfoldable pub parse_port_mask : ℕ → Option (List ℕ) → PortIds → Outcome (Bool × PortIds)
parse_port_mask n_ports none ports = done (false, ports)
parse_port_mask n_ports (some s) ports = masked n_ports ports (strtoul 16 s)

pub data StatsOutput : Type 0 where
  no_output to_stdout to_stderr : StatsOutput

-- The global variables that the options set.
pub record Config : Type 0 where
  pub ports : PortIds
  pub num_nts : ℕ
  pub default_nt : ℕ
  pub num_rx_threads : ℕ
  pub stats_dst : StatsOutput
  pub sleep_time : ℕ

-- A null argument is followed by strtoul and strcmp.
abbrev number_option : Option (List ℕ) → Config → (ℕ → Config) → Outcome (Bool × Config)
number_option none c f = fault
number_option (some s) c f = elim (parse_u16 s) [
  | none ↦ done (false, c)
  | some n ↦ done (true, f n)
]

pub str_eq : List ℕ → List ℕ → Bool
str_eq [] [] = true
str_eq [] (y ∷ ys) = false
str_eq (x ∷ xs) [] = false
str_eq (x ∷ xs) (y ∷ ys) = (x == y) && str_eq xs ys

abbrev std_out : List ℕ
std_out = 115 ∷ 116 ∷ 100 ∷ 111 ∷ 117 ∷ 116 ∷ []

abbrev std_err : List ℕ
std_err = 115 ∷ 116 ∷ 100 ∷ 101 ∷ 114 ∷ 114 ∷ []

pub parse_stats_output : List ℕ → Option StatsOutput
parse_stats_output s =
    if str_eq s std_out then some to_stdout else if str_eq s std_err then some to_stderr else none

abbrev output_option : Option (List ℕ) → Config → Outcome (Bool × Config)
output_option none c = fault
output_option (some s) c = elim (parse_stats_output s) [
  | none ↦ done (false, c)
  | some d ↦ done (true, record c { stats_dst = d })
]

-- The switch of `parse_mgr_args`, on the option's letter.
unfoldable pub parse_option : ℕ → ℕ → Option (List ℕ) → Config → Outcome (Bool × Config)
parse_option n_ports opt arg c =
    if opt == 112
    then (parse_port_mask n_ports arg c.ports >>= λ r. done (r.0, record c { ports = r.1 }))
    else if opt == 116
    then number_option arg c (λ n. record c { num_nts = n })
    else if opt == 100
    then number_option arg c (λ n. record c { default_nt = n })
    else if opt == 114
    then number_option arg c (λ n. record c { num_rx_threads = n })
    else if opt == 115
    then output_option arg c
    else if opt == 122
    then number_option arg c (λ n. record c { sleep_time = n })
    else done (false, c)

-- The first option that is refused ends the loop.
unfoldable pub parse_mgr_args : ℕ → List (ℕ × Option (List ℕ)) → Config → Outcome (Bool × Config)
parse_mgr_args n_ports [] c = done (true, c)
parse_mgr_args n_ports ((opt, arg) ∷ opts) c = parse_option n_ports opt arg c >>= λ r.
    let rest = parse_mgr_args n_ports opts r.1 in if r.0 then rest else done (false, r.1)
