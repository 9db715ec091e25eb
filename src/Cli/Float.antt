-- ===== src/Cli/Float.antt =====
-- The seconds that the command line prints (cli/db.go, interval): Go's float64 of a number of
-- microseconds over a million, and its printing with two places.
use pgvolvra.Base.{ℕ, zero, suc, ◌+◌, ◌*◌, ◌/◌, ◌%◌, ◌^◌, ◌==◌, ltb, if◌then◌else◌}

-- A quotient rounded to the nearest number, and to the even one where two are near.
abbrev pub round_up : ℕ → ℕ → ℕ → ℕ
round_up q r b =
    if ltb b (2 * r) then q + 1 else if ltb (2 * r) b then q else if q % 2 == 0 then q else q + 1

abbrev pub round_div : ℕ → ℕ → ℕ
round_div a b = round_up (a / b) (a % b) b

-- The exponent for which the quotient has 53 binary digits: from one that is enough for a minute on, and
-- no further than a microsecond needs.
unfoldable pub shift_from : ℕ → ℕ → ℕ → ℕ
shift_from zero s us = s
shift_from (suc more) s us =
    let further = shift_from more (suc s) us in
    if ltb (us * 2 ^ s) (2 ^ 52 * 1000000) then further else s

unfoldable pub shift_of : ℕ → ℕ
unfolding shift_from
shift_of us = shift_from 26 46 us

-- `float64(us) / 1e6` is this over two to the `shift_of us`.
abbrev pub significand : ℕ → ℕ → ℕ
significand s us = round_div (us * 2 ^ s) 1000000

-- The hundredths that `%.2f` prints of it.
abbrev pub hundredths_at : ℕ → ℕ → ℕ
hundredths_at s us = round_div (significand s us * 100) (2 ^ s)

unfoldable pub hundredths : ℕ → ℕ
unfolding shift_of
hundredths us = hundredths_at (shift_of us) us
