-- ===== src/Cli/Rounding.antt =====
-- On the rounding of the seconds that are printed (cli/db.go, interval).
use native.Mathlib.Nat.{
  div-add-mod', mod-lt, mul-le-mul_right, pow-le-pow_right, mul_comm, mul-add, mul_right_comm,
}
use pgvolvra.Base.{
  ℕ, zero, suc, ◌+◌, ◌*◌, ◌/◌, ◌%◌, ◌^◌, ◌≤◌, ◌<◌, ◌≡◌, ◌∙◌, subst, ◌==◌, ltb, leb, false, inl, inr,
  Bool-cases, arith,
}
use pgvolvra.Cli.Float.{
  round_up, round_div, shift_from, shift_of, significand, hundredths_at, hundredths,
}

-- A number of `b`s differs from `a` by half of `b` at most.
abbrev Near : ℕ → ℕ → ℕ → Type 0
Near n a b = (2 * (n * b) ≤ 2 * a + b) × (2 * a ≤ 2 * (n * b) + b)

more : (q b : ℕ) → (q + 1) * b ≡ q * b + b
more q b = mul_comm (q + 1) b ∙ mul-add b q 1 ∙ omega (arith, mul_comm b q)

Near-same : (q r b : ℕ) → 2 * r ≤ b → Near q (q * b + r) b
Near-same q r b le = (omega (arith, le), omega (arith, le))

Near-more : (q r b : ℕ) → r ≤ b → b ≤ 2 * r → Near (q + 1) (q * b + r) b
Near-more q r b lt le = (omega (arith, more q b, lt, le), omega (arith, more q b, lt, le))

round_up-Near : (q r b : ℕ) → r < b → Near (round_up q r b) (q * b + r) b
round_up-Near q r b lt = elim (Bool-cases (ltb b (2 * r))) [
  | inl e ↦ rw e (Near-more q r b (omega (arith, lt)) (ground (arith, e)))
  | inr e ↦ elim (Bool-cases (ltb (2 * r) b)) [
    | inl f ↦ rw (e, f) (Near-same q r b (ground (arith, f)))
    | inr f ↦ elim (Bool-cases (q % 2 == 0)) [
      | inl g ↦ rw (e, f, g) (Near-same q r b (ground (arith, e)))
      | inr g ↦ rw (e, f, g) (Near-more q r b (omega (arith, lt)) (ground (arith, f)))
    ]
  ]
]

round_div-Near : (a b : ℕ) → 0 < b → Near (round_div a b) a b
round_div-Near a b lt =
    subst (λ x. Near (round_div a b) x b) (div-add-mod' a b)
      (round_up-Near (a / b) (a % b) b (mod-lt a lt))

shift_from-le : (steps s us : ℕ) → s ≤ shift_from steps s us
unfolding shift_from
shift_from-le zero s us = omega arith
shift_from-le (suc steps) s us = ground (arith, shift_from-le steps (suc s) us)

-- Half a hundredth, where the power of two is large enough.
module _ (us S M H : ℕ) (large : 1000000 ≤ S) (first : Near M (us * S) 1000000)
    (second : Near H (M * 100) S) where
  not_above : H * 10000 ≤ us + 5000
  not_above = elim (Bool-cases (leb (H * 10000) (us + 5000))) [
    | inl e ↦ ground (arith, e)
    | inr e ↦ absurd (
        omega (
          arith,
          first.0,
          second.0,
          large,
          mul-le-mul_right S (above e),
          mul_comm (us + 5001) S,
          mul-add S us 5001,
          mul_comm S us,
          mul_right_comm H 10000 S,
        ))
  ]
    where
      above : leb (H * 10000) (us + 5000) ≡ false → us + 5001 ≤ H * 10000
      above e = ground (arith, e)

  not_below : us ≤ H * 10000 + 5000
  not_below = elim (Bool-cases (leb us (H * 10000 + 5000))) [
    | inl e ↦ ground (arith, e)
    | inr e ↦ absurd (
        omega (
          arith,
          first.1,
          second.1,
          large,
          mul-le-mul_right S (below e),
          mul_comm (H * 10000 + 5001) S,
          mul-add S (H * 10000) 5001,
          mul_comm S (H * 10000),
          mul_right_comm H 10000 S,
        ))
  ]
    where
      below : leb us (H * 10000 + 5000) ≡ false → H * 10000 + 5001 ≤ us
      below e = ground (arith, e)

-- The hundredths of a second that are printed of a number of microseconds are within half a hundredth of
-- it: the two roundings, to a float64 and to two places, do not add up to more.
pub hundredths-near :
    (us : ℕ) → (hundredths us * 10000 ≤ us + 5000) × (us ≤ hundredths us * 10000 + 5000)
unfolding hundredths shift_of
hundredths-near us =
    let s = shift_of us in
    let large = pow-le-pow_right {n = 2} (omega arith) (shift_from-le 26 46 us) in
    let first = round_div-Near (us * 2 ^ s) 1000000 (omega arith) in
    let second = round_div-Near (significand s us * 100) (2 ^ s) (omega (arith, large)) in
    (
      not_above us (2 ^ s) (significand s us) (hundredths_at s us) (omega (arith, large)) first
          second,
      not_below us (2 ^ s) (significand s us) (hundredths_at s us) (omega (arith, large)) first
          second,
    )
