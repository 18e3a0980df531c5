-- ===== src/Parse/Number.antt =====
-- Decimal arguments: the number that a text of digits stands for.
use d2sc.Prelude.{
  ℕ, ◌+◌, ◌*◌, ◌%◌, ◌^◌, ◌<◌, ◌≡◌, refl, ap, ◌∙◌, true, false, none, some, List, [], ◌∷◌, arith,
  ltb, ◌==◌, if◌then◌else◌, All,
}
use d2sc.Parse.{
  digit_val, is_digit, skip_space, sign, skip_prefix, digits, strtoul, checked, parse_u16,
}

-- The text of a list of decimal digits, and the number that they write.
pub text : List ℕ → List ℕ
text [] = []
text (d ∷ ds) = (48 + d) ∷ text ds

unfoldable pub value : ℕ → List ℕ → ℕ
value acc [] = acc
value acc (d ∷ ds) = value (acc * 10 + d) ds

digit_val-text : (d : ℕ) → d < 10 → digit_val 10 (48 + d) ≡ some d
digit_val-text d l = ground arith

digits-cons :
    (acc d : ℕ) (cs : List ℕ) → d < 10 → digits 10 acc ((48 + d) ∷ cs) ≡ digits 10 (acc * 10 + d) cs
unfolding digits
digits-cons acc d cs l = rw (digits, digit_val-text d l) refl

digits-text :
    (ds : List ℕ) (acc : ℕ) → All (λ d. d < 10) ds → digits 10 acc (text ds) ≡ (value acc ds, [])
unfolding digits text value
digits-text [] acc h = refl
digits-text (d ∷ ds) acc h = digits-cons acc d (text ds) h.0 ∙ digits-text ds (acc * 10 + d) h.1

skip_prefix-decimal : (cs : List ℕ) → skip_prefix 10 cs ≡ cs
skip_prefix-decimal [] = refl
skip_prefix-decimal (c ∷ []) = refl
skip_prefix-decimal (c ∷ x ∷ cs) = refl

skip_space-digit : (d : ℕ) (cs : List ℕ) → d < 10 → skip_space ((48 + d) ∷ cs) ≡ (48 + d) ∷ cs
unfolding skip_space
skip_space-digit d cs l = ground arith

sign-digit : (d : ℕ) (cs : List ℕ) → d < 10 → sign ((48 + d) ∷ cs) ≡ (false, (48 + d) ∷ cs)
sign-digit d cs l = ground arith

is_digit-digit : (d : ℕ) (cs : List ℕ) → d < 10 → is_digit 10 ((48 + d) ∷ cs) ≡ true
is_digit-digit d cs l = rw (is_digit, digit_val-text d l) refl

strtoul-text :
    (d : ℕ) (ds : List ℕ)
    → All (λ x. x < 10) (d ∷ ds)
    → value 0 (d ∷ ds) < 2 ^ 64
    → strtoul 10 (text (d ∷ ds)) ≡ (value 0 (d ∷ ds), [])
unfolding strtoul text
strtoul-text d ds h small =
    let fits : ltb 18446744073709551615 (value 0 (d ∷ ds)) ≡ false = ground arith in
    let number = digits-text (d ∷ ds) 0 h in
    rw
      (
        skip_space-digit d (text ds) h.0,
        sign-digit d (text ds) h.0,
        skip_prefix-decimal ((48 + d) ∷ text ds),
        is_digit-digit d (text ds) h.0,
        number,
        fits,
      )
      refl

-- A text of decimal digits, at least one, of a number below 2^64: it is refused exactly if the number
-- is 0, and otherwise the argument is the number modulo 2^16.
pub parse_u16-text :
    (d : ℕ) (ds : List ℕ)
    → All (λ x. x < 10) (d ∷ ds)
    → value 0 (d ∷ ds) < 2 ^ 64
    → parse_u16 (text (d ∷ ds))
      ≡ (if value 0 (d ∷ ds) == 0 then none else some (value 0 (d ∷ ds) % 65536))
unfolding parse_u16
parse_u16-text d ds h small = ap checked (strtoul-text d ds h small)
