-- ===== src/Format/Names.antt =====
-- Texts that the program formats itself: hexadecimal digests and the names of segment files.
use mathlib.Core.List.{reverse, reverse-append, reverse-reverse}
use pgvolvra.Base.{
  ℕ, zero, suc, ◌+◌, ◌-◌, ◌*◌, ◌/◌, ◌%◌, ◌≤◌, [], ◌∷◌, ◌++◌, Bytes, codes, ltb, if◌then◌else◌, ◌==◌,
  ◌≡◌, ◌≢◌, ap, sym, ◌∙◌, arith,
}

abbrev skip : ℕ → Bytes → Bytes
skip zero bs = bs
skip (suc n) [] = []
skip (suc n) (b ∷ bs) = skip n bs

abbrev hex_digit : ℕ → ℕ
hex_digit d = if ltb d 10 then b'0' + d else b'a' + (d - 10)

-- `hex.EncodeToString`
unfoldable pub hex : Bytes → Bytes
hex [] = []
hex (b ∷ bs) = hex_digit (b / 16) ∷ hex_digit (b % 16) ∷ hex bs

-- The decimal digits of a number, the last one first, padded with zeros to a width. The second
-- argument bounds the digits past the width.
digits : ℕ → ℕ → ℕ → Bytes
digits (suc w) f n = (b'0' + n % 10) ∷ digits w f (n / 10)
digits zero zero n = []
digits zero (suc f) n =
    let more = (b'0' + n % 10) ∷ digits zero f (n / 10) in if n == 0 then [] else more

-- `%010d.ndjson`
unfoldable pub segment_name : ℕ → Bytes
unfolding digits
segment_name n = reverse (digits 10 n n) ++ codes ".ndjson"

-- `fmt.Sprint` of a number
unfoldable pub decimal : ℕ → Bytes
unfolding digits
decimal n = if n == 0 then codes "0" else reverse (digits 0 n n)

-- `%02d`
unfoldable pub two_digits : ℕ → Bytes
unfolding digits
two_digits n = reverse (digits 2 n n)

abbrev pub manifest_name : Bytes
manifest_name = codes "manifest.json"

abbrev pub manifest_tmp : Bytes
manifest_tmp = codes ".manifest.json.tmp"

value : Bytes → ℕ
value [] = 0
value (d ∷ ds) = (d - b'0') + 10 * value ds

value-digits : (w f n : ℕ) → n ≤ f → value (digits w f n) ≡ n
unfolding value digits
value-digits (suc w) f n h = omega (arith, value-digits w f (n / 10) (omega arith))
value-digits zero zero n h = omega arith
value-digits zero (suc f) n h = ground (arith, value-digits zero f (n / 10))

-- The number behind a segment's name: the suffix has seven bytes.
abbrev seq_of : Bytes → ℕ
seq_of name = value (skip 7 (reverse name))

reverse-segment_name : (n : ℕ) → reverse (segment_name n) ≡ codes "nosjdn." ++ digits 10 n n
unfolding segment_name
reverse-segment_name n =
    reverse-append (reverse (digits 10 n n)) (codes ".ndjson")
    ∙ ap (λ ds. reverse (codes ".ndjson") ++ ds) (reverse-reverse (digits 10 n n))

seq_of-segment_name : (n : ℕ) → seq_of (segment_name n) ≡ n
seq_of-segment_name n = rw reverse-segment_name (value-digits 10 n n (omega arith))

-- Segments whose files have the same name have the same number.
pub segment_name-injective : (m n : ℕ) → segment_name m ≡ segment_name n → m ≡ n
segment_name-injective m n e = sym (seq_of-segment_name m) ∙ ap seq_of e ∙ seq_of-segment_name n

-- The manifest and its temporary file are no segment's file.
pub segment_name-ne-manifest_name : (n : ℕ) → segment_name n ≢ manifest_name
segment_name-ne-manifest_name n e = ground (arith, sym (reverse-segment_name n) ∙ ap reverse e)

pub segment_name-ne-manifest_tmp : (n : ℕ) → segment_name n ≢ manifest_tmp
segment_name-ne-manifest_tmp n e = ground (arith, sym (reverse-segment_name n) ∙ ap reverse e)
