-- ===== src/Cli/Value.antt =====
-- The values that the command line prints, and the words of the database's errors (cli/db.go). What Go's
-- libraries print of a value is a part of it.
use pgvolvra.Base.{
  ℕ, zero, suc, ◌/◌, ◌%◌, ◌^◌, Bool, true, false, not, ◌&&◌, ◌||◌, Option, none, some, List, [],
  ◌∷◌, ◌++◌, Bytes, codes, beq, is_empty, ◌==◌, if◌then◌else◌,
}
use pgvolvra.Format.Names.{decimal, two_digits}
use pgvolvra.Remote.Making.{has_prefix, contains}
use pgvolvra.Cli.Float.{hundredths}

-- Go's signed integers: n, and -(n + 1).
pub data ℤ : Type 0 where
  pos negsuc : ℕ → ℤ

abbrev pub negated : ℕ → ℤ
negated zero = pos 0
negated (suc n) = negsuc n

-- `-n` on 64 bits, which leaves the least number as it is.
abbrev pub opposite : ℤ → ℤ
opposite (pos n) = negated n
opposite (negsuc n) = if suc n == 2 ^ 63 then negsuc n else pos (suc n)

abbrev pub is_negative : ℤ → Bool
is_negative (pos n) = false
is_negative (negsuc n) = true

abbrev pub is_zero : ℤ → Bool
is_zero (pos n) = n == 0
is_zero (negsuc n) = false

-- `/` and `%`, which round to zero.
abbrev pub quot : ℤ → ℕ → ℤ
quot (pos n) d = pos (n / d)
quot (negsuc n) d = negated (suc n / d)

abbrev pub rem : ℤ → ℕ → ℤ
rem (pos n) d = pos (n % d)
rem (negsuc n) d = negated (suc n % d)

-- `%d` and `%02d`
abbrev pub print_int : ℤ → Bytes
print_int (pos n) = decimal n
print_int (negsuc n) = b'-' ∷ decimal (suc n)

abbrev pub print_two : ℤ → Bytes
print_two (pos n) = two_digits n
print_two (negsuc n) = b'-' ∷ decimal (suc n)

-- `%05.2f` of a number of microseconds as seconds
abbrev pub print_seconds : ℤ → Bytes
print_seconds (pos us) =
    two_digits (hundredths us / 100) ++ (b'.' ∷ two_digits (hundredths us % 100))
print_seconds (negsuc n) =
    b'-' ∷ (decimal (hundredths (suc n) / 100) ++ (b'.' ∷ two_digits (hundredths (suc n) % 100)))

-- `plural`
unfoldable pub plural : ℤ → Bytes → Bytes
plural (pos n) unit = decimal n ++ (b' ' ∷ (if n == 1 then unit else unit ++ codes "s"))
plural (negsuc n) unit =
    print_int (negsuc n) ++ (b' ' ∷ (if n == 0 then unit else unit ++ codes "s"))

pub record Interval : Type 0 where
  pub months : ℤ
  pub days : ℤ
  pub microseconds : ℤ
  pub valid : Bool

-- `nullMark`
abbrev pub null_mark : Bytes
null_mark = 226 ∷ 136 ∷ 133 ∷ []

abbrev pub unless_zero : ℤ → Bytes → List Bytes
unless_zero n part = if is_zero n then [] else part ∷ []

-- The parts before the time of day.
abbrev pub dates : Interval → List Bytes
dates iv =
    unless_zero (quot iv.months 12) (plural (quot iv.months 12) (codes "year"))
    ++ (unless_zero (rem iv.months 12) (print_int (rem iv.months 12) ++ codes " mons")
        ++ unless_zero iv.days (plural iv.days (codes "day")))

abbrev pub clock_text : Bytes → ℤ → Bytes
clock_text sign us =
    sign
    ++ (print_two (quot us 3600000000)
        ++ (b':'
            ∷ (print_two (rem (quot us 60000000) 60) ++ (b':' ∷ print_seconds (rem us 60000000)))))

abbrev pub is_midnight : ℤ → Bool
is_midnight us =
    is_zero (quot us 3600000000)
    && (is_zero (rem (quot us 60000000) 60) && is_zero (rem us 60000000))

abbrev pub has_none : List Bytes → Bool
has_none [] = true
has_none (x ∷ xs) = false

abbrev pub with_clock : List Bytes → Bytes → ℤ → List Bytes
with_clock parts sign us =
    if not (is_midnight us) || has_none parts then parts ++ clock_text sign us ∷ [] else parts

-- `strings.Join` with a blank
unfoldable pub joined : List Bytes → Bytes
joined [] = []
joined (x ∷ []) = x
joined (x ∷ y ∷ xs) = x ++ (b' ' ∷ joined (y ∷ xs))

-- `interval`
unfoldable pub interval : Interval → Bytes
unfolding plural joined
interval iv =
    if not iv.valid
    then null_mark
    else if is_negative iv.microseconds
    then joined (with_clock (dates iv) (b'-' ∷ []) (opposite iv.microseconds))
    else joined (with_clock (dates iv) [] iv.microseconds)

-- A value of the driver: a time with its text in the layout, an integer or another value with what `%v`
-- prints, a decoded JSON with its text, if it has one, and what `%v` prints.
pub data Value : Type 0 where
  null : Value
  moment bytes string stringer other : Bytes → Value
  span : Interval → Value
  truth : Bool → Value
  json : Option Bytes → Bytes → Value

-- `render`
unfoldable pub render : Value → Bytes
unfolding interval
render null = null_mark
render (moment text) = text
render (bytes b) = b
render (string b) = b
render (stringer text) = text
render (other text) = text
render (span iv) = interval iv
render (truth true) = codes "t"
render (truth false) = codes "f"
render (json (some text) printed) = text
render (json none printed) = printed

-- An error of the server, or another one with its text.
pub data Failure : Type 0 where
  of_server : Bytes → Bytes → Bytes → Failure
  elsewhere : Bytes → Failure

-- `strings.TrimPrefix`
unfoldable pub without : Bytes → Bytes → Bytes
without [] text = text
without (p ∷ ps) [] = []
without (p ∷ ps) (b ∷ bs) = without ps bs

abbrev pub trim_prefix : Bytes → Bytes → Bytes
trim_prefix prefix text = if has_prefix text prefix then without prefix text else text

abbrev pub own_prefix : Bytes
own_prefix = codes "volvra: "

abbrev pub hinted : Bytes → Bytes → Bytes
hinted message hint = if is_empty hint then message else message ++ (codes "\nhint: " ++ hint)

-- `friendly`
unfoldable pub friendly : Failure → Bytes
unfolding has_prefix contains without
friendly (elsewhere text) = text
friendly (of_server code message hint) =
    if beq code (codes "42P01") && contains message (codes "volvra.")
    then codes "volvra is not installed in this database: "
      ++ (message ++ codes "\nInstall it with:  psql -f sql/volvra.sql")
    else if beq code (codes "3F000") && contains message (codes "volvra")
    then codes "no volvra schema in this database -- "
      ++ (codes "is the connection pointing where you think?\n  " ++ message)
    else hinted (trim_prefix own_prefix message) hint
