-- ===== src/Tests/Arguments.antt =====
-- The arguments "65536" and "-p 5".
use d2sc.Prelude.{
  ℕ, ◌%◌, ◌^◌, ◌<◌, ◌≡◌, refl, true, ◌&&◌, none, some, [], ◌∷◌, arith, ltb, ◌==◌, if◌then◌else◌,
  All, contains, done,
}
use d2sc.Parse.{PortIds, digits, skip_space, strtoul, parse_u16, parse_port_mask}
use d2sc.Parse.Number.{text, value, parse_u16-text}
use d2sc.Parse.Ports.{bit, parse_port_mask-bits}

small_digits : All (λ x. x < 10) (6 ∷ 5 ∷ 5 ∷ 3 ∷ 6 ∷ [])
small_digits = (omega arith, (omega arith, (omega arith, (omega arith, (omega arith, tt)))))

small_number : value 0 (6 ∷ 5 ∷ 5 ∷ 3 ∷ 6 ∷ []) < 2 ^ 64
unfolding value
small_number = omega arith

-- The text "65536" is accepted, as 0.
parse_u16-text_example : parse_u16 (text (6 ∷ 5 ∷ 5 ∷ 3 ∷ 6 ∷ [])) ≡ (
    if value 0 (6 ∷ 5 ∷ 5 ∷ 3 ∷ 6 ∷ []) == 0
    then none
    else some (value 0 (6 ∷ 5 ∷ 5 ∷ 3 ∷ 6 ∷ []) % 65536))
parse_u16-text_example = parse_u16-text 6 (5 ∷ 5 ∷ 3 ∷ 6 ∷ []) small_digits small_number

reads_5 : strtoul 16 (53 ∷ []) ≡ (5, [])
unfolding strtoul digits skip_space
reads_5 = refl

parse_port_mask-bits_example :
    (ports : PortIds) × (parse_port_mask 2 (some (53 ∷ [])) (record { limit = 32; ids = [] })
      ≡ done (true, ports))
    × ((i : ℕ) → contains i ports.ids ≡ ltb i 2 && bit i 5)
parse_port_mask-bits_example =
    parse_port_mask-bits 2 32 5 (53 ∷ []) (omega arith) reads_5 (omega arith) (omega arith)
