-- ===== src/Tests/Values.antt =====
-- The values that are printed.
use pgvolvra.Base.{ℕ, ◌+◌, ◌*◌, ◌≤◌, ◌≡◌, refl, true, codes}
use pgvolvra.Format.Names.{decimal, two_digits}
use pgvolvra.Cli.Float.{shift_from, shift_of, hundredths}
use pgvolvra.Cli.Rounding.{hundredths-near}
use pgvolvra.Cli.Value.{pos, negsuc, Interval, joined, plural, interval}

abbrev just_below : ℕ
just_below = 59996000

-- A tie in the decimal digits goes the way the float64 lies, and a tie of the float64 to the even digit.
ties : (hundredths 15000 ≡ 1) × (hundredths 2675000 ≡ 267) × (hundredths 125000 ≡ 12)
unfolding hundredths shift_of shift_from
ties = (refl, refl, refl)

hundredths-near_example :
    (hundredths just_below * 10000 ≤ just_below + 5000)
    × (just_below ≤ hundredths just_below * 10000 + 5000)
hundredths-near_example = hundredths-near just_below

abbrev some_time : ℕ → Interval
some_time us = record { months = pos 1; days = negsuc 0; microseconds = pos us; valid = true }

printed : interval (some_time just_below) ≡ codes "1 mons -1 day 00:00:60.00"
unfolding interval joined plural decimal two_digits hundredths shift_of shift_from
printed = refl
