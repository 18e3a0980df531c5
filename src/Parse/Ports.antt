-- ===== src/Parse/Ports.antt =====
-- The port mask: which ports its loop marks.
use native.Mathlib.Nat.{two-pow-succ}
use d2sc.Prelude.{
  ℕ, zero, suc, ◌+◌, ◌-◌, ◌/◌, ◌%◌, ◌^◌, ◌≤◌, ◌<◌, ◌≡◌, refl, sym, ap, ◌∙◌, subst, ◌≢◌, inl, inr,
  Bool, true, false, ◌&&◌, ◌||◌, some, List, [], ◌∷◌, ◌++◌, arith, ltb, leb, ◌==◌, Bool-cases,
  add_u8, length, length-append, contains, done,
}
use d2sc.Parse.{PortIds, mark_ports, parse_port_mask, strtoul}

-- Bit `k` of a number.
pub bit : ℕ → ℕ → Bool
bit zero pm = pm % 2 == 1
bit (suc k) pm = bit k (pm / 2)

bit-zero : (k : ℕ) → bit k 0 ≡ false
unfolding bit
bit-zero zero = refl
bit-zero (suc k) = bit-zero k

contains-append-one :
    (i x : ℕ) (xs : List ℕ) → contains i (xs ++ x ∷ []) ≡ contains i xs || (x == i)
contains-append-one i x [] = ground arith
contains-append-one i x (y ∷ xs) = ground (arith, contains-append-one i x xs)

-- Port `i` is among the ports from `num` on, is below `n_ports`, and its bit is set.
abbrev pub wanted : ℕ → ℕ → ℕ → ℕ → Bool
wanted n_ports pm num i = leb num i && ltb i n_ports && bit (i - num) pm

wanted-later :
    (n_ports pm num i : ℕ) → num ≢ i → wanted n_ports pm num i ≡ wanted n_ports (pm / 2) (num + 1) i
wanted-later n_ports pm num i ne = elim (Bool-cases (leb num i)) [
  | inr below ↦ ground arith
  | inl above ↦
      let d : i - num ≡ suc (i - (num + 1)) = ground arith in
      let here : leb (num + 1) i ≡ true = ground arith in rw (d, above, here) (unfold bit in refl)
]

wanted_self : (n_ports pm num : ℕ) → wanted n_ports pm num num ≡ (pm % 2 == 1) && ltb num n_ports
wanted_self n_ports pm num =
    let d : num - num ≡ 0 = omega arith in
    let here : leb num num ≡ true = ground arith in rw (d, here) (unfold bit in ground arith)

wanted-zero : (n_ports num i : ℕ) → wanted n_ports 0 num i ≡ false
wanted-zero n_ports num i = ground (arith, bit-zero (i - num))

wanted-step_self :
    (n_ports pm num : ℕ) (c : Bool)
    → (c || (((pm % 2 == 1) && ltb num n_ports) && (num == num)))
        || wanted n_ports (pm / 2) (num + 1) num
      ≡ c || wanted n_ports pm num num
wanted-step_self n_ports pm num c =
    let past : wanted n_ports (pm / 2) (num + 1) num ≡ false = ground arith in
    let same : num == num ≡ true = ground arith in
    rw (past, wanted_self n_ports pm num, same) (bools c ((pm % 2 == 1) && ltb num n_ports))
  where
    bools : (x y : Bool) → (x || (y && true)) || false ≡ x || y
    bools true y = refl
    bools false true = refl
    bools false false = refl

-- One more bit.
wanted-step :
    (n_ports pm num i : ℕ) (c : Bool)
    → (c || (((pm % 2 == 1) && ltb num n_ports) && (num == i)))
        || wanted n_ports (pm / 2) (num + 1) i
      ≡ c || wanted n_ports pm num i
wanted-step n_ports pm num i c = elim (Bool-cases (num == i)) [
  | inr ne ↦ ground (arith, wanted-later n_ports pm num i)
  | inl eq ↦
      let q : num ≡ i = ground arith in
      subst
        (λ k.
          (c || (((pm % 2 == 1) && ltb num n_ports) && (num == k)))
            || wanted n_ports (pm / 2) (num + 1) k
          ≡ c || wanted n_ports pm num k)
        q (wanted-step_self n_ports pm num c)
]

or-false : (x w : Bool) → w ≡ false → x ≡ x || w
or-false true w h = refl
or-false false w h = sym h

halves : (pm fuel : ℕ) → pm < 2 ^ suc fuel → pm / 2 < 2 ^ fuel
halves pm fuel l = omega (arith, two-pow-succ fuel)

-- The loop returns, and adds exactly the ports below `n_ports` whose bits are set.
mark_ports-eq :
    (fuel n_ports pm num : ℕ) (ports : PortIds)
    → pm < 2 ^ fuel
    → num + fuel ≤ 255
    → length ports.ids + (n_ports - num) ≤ ports.limit
    → (ports' : PortIds) × (mark_ports fuel n_ports pm num ports ≡ done ports')
      × ((i : ℕ) → contains i ports'.ids ≡ contains i ports.ids || wanted n_ports pm num i)
unfolding mark_ports
mark_ports-eq zero n_ports pm num ports small fits room =
    let z : pm ≡ 0 = ground arith in
    (
      ports,
      refl,
      λ i.
          or-false (contains i ports.ids) _
            (ap (λ m. wanted n_ports m num i) z ∙ wanted-zero n_ports num i),
    )
mark_ports-eq (suc fuel) n_ports pm num ports small fits room = elim (Bool-cases (pm == 0)) [
  | inl none_left ↦
      let z : pm ≡ 0 = ground arith in
      (
        ports,
        rw none_left refl,
        λ i.
            or-false (contains i ports.ids) _
              (ap (λ m. wanted n_ports m num i) z ∙ wanted-zero n_ports num i),
      )
  | inr some_left ↦
      let next : add_u8 num 1 ≡ num + 1 = omega arith in
      elim (Bool-cases ((pm % 2 == 1) && ltb num n_ports)) [
        | inl marks ↦
            let below : num < n_ports = ground arith in
            let space : ltb (length ports.ids) ports.limit ≡ true = ground arith in
            let len = length-append ports.ids (num ∷ []) in
            let enter : mark_ports (suc fuel) n_ports pm num ports
                ≡ mark_ports fuel n_ports (pm / 2) (add_u8 num 1)
                    (record ports { ids = ports.ids ++ num ∷ [] }) =
              rw (some_left, marks, space) refl in
            let (ports', runs, holds) =
              mark_ports-eq fuel n_ports (pm / 2) (num + 1)
                (record ports { ids = ports.ids ++ num ∷ [] }) (halves pm fuel small) (omega arith)
                (omega arith) in
            (
              ports',
              enter
                  ∙ ap
                      (λ k.
                        mark_ports fuel n_ports (pm / 2) k
                          (record ports { ids = ports.ids ++ num ∷ [] }))
                      next
                  ∙ runs,
              λ i.
                  holds i
                  ∙ ap (λ x. x || wanted n_ports (pm / 2) (num + 1) i)
                      (contains-append-one i num ports.ids
                        ∙ ap (λ y. contains i ports.ids || (y && (num == i))) (sym marks))
                  ∙ wanted-step n_ports pm num i (contains i ports.ids),
            )
        | inr skips ↦
            let enter : mark_ports (suc fuel) n_ports pm num ports
                ≡ mark_ports fuel n_ports (pm / 2) (add_u8 num 1) ports =
              rw (some_left, skips) refl in
            let (ports', runs, holds) =
              mark_ports-eq fuel n_ports (pm / 2) (num + 1) ports (halves pm fuel small)
                (omega arith) (omega arith) in
            (
              ports',
              enter ∙ ap (λ k. mark_ports fuel n_ports (pm / 2) k ports) next ∙ runs,
              λ i.
                  holds i
                  ∙ ap (λ x. x || wanted n_ports (pm / 2) (num + 1) i)
                      (or-false (contains i ports.ids) _ (ap (λ y. y && (num == i)) skips))
                  ∙ wanted-step n_ports pm num i (contains i ports.ids),
            )
      ]
]

-- A mask text that is read to its end as a number, not 0 and of 64 bits, with room in the array for
-- `n_ports` ports: the result is success, and the ports marked are exactly those below `n_ports` whose
-- bit in the number is set.
pub parse_port_mask-bits :
    (n_ports limit pm : ℕ) (s : List ℕ)
    → n_ports ≤ limit
    → strtoul 16 s ≡ (pm, [])
    → 0 < pm
    → pm < 2 ^ 64
    → (ports : PortIds) × (parse_port_mask n_ports (some s) (record { limit = limit; ids = [] })
        ≡ done (true, ports))
      × ((i : ℕ) → contains i ports.ids ≡ ltb i n_ports && bit i pm)
unfolding parse_port_mask
parse_port_mask-bits n_ports limit pm s room reads pos small =
    let (ports, runs, holds) =
      mark_ports-eq 64 n_ports pm 0 (record { limit = limit; ids = [] }) small (omega arith)
        (omega arith) in
    let some_port : pm == 0 ≡ false = ground arith in
    (
      ports,
      rw (reads, some_port, runs) refl,
      λ i.
          holds i
          ∙ ap (λ b. (b && ltb i n_ports) && bit (i - 0) pm) (from_zero i)
          ∙ ap (λ k. ltb i n_ports && bit k pm) (minus_zero i),
    )
  where
    minus_zero : (i : ℕ) → i - 0 ≡ i
    minus_zero i = omega arith

    from_zero : (i : ℕ) → leb 0 i ≡ true
    from_zero i = ground arith
