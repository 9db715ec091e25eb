-- ===== src/Lines.antt =====
-- bufio.Scanner over a stream, as verify.go and restore.go set it up: split at newlines, drop a
-- trailing carriage return, refuse a line that does not fit the 64 MiB buffer.
pub mod Laws
use pgvolvra.Base.{ℕ, ◌*◌, Bool, List, [], ◌∷◌, ◌++◌, ◌==◌, ltb, if◌then◌else◌, Bytes, length}

-- What a reader delivers before its end, and whether the end is an error.
pub record Stream : Type 0 where
  pub content : Bytes
  pub broken : Bool

-- The buffer's limit: `64<<20`.
abbrev pub max_token : ℕ
max_token = 64 * 1048576

-- `dropCR`
unfoldable pub drop_cr : Bytes → Bytes
drop_cr [] = []
drop_cr (b ∷ []) = if b == b'\r' then [] else b ∷ []
drop_cr (b ∷ c ∷ bs) = b ∷ drop_cr (c ∷ bs)

-- The text of lines, each with its newline.
abbrev pub join_lines : List Bytes → Bytes
join_lines [] = []
join_lines (l ∷ ls) = (l ++ b'\n' ∷ []) ++ join_lines ls

pub data Ending : Type 0 where
  clean oversize io_error : Ending

pub record Scanned : Type 0 where
  pub lines : List Bytes
  pub ending : Ending

abbrev pub found : Bytes → Scanned → Scanned
found line rest = record { lines = drop_cr line ∷ rest.lines; ending = rest.ending }

-- At the end of the stream, `line` stands after the last newline; it is delivered on an error too.
unfoldable pub scan_end : Bytes → Ending → Scanned
scan_end [] e = record { lines = []; ending = e }
scan_end (b ∷ bs) e = record { lines = drop_cr (b ∷ bs) ∷ []; ending = e }

-- The scan with `line` read since the last newline. A line of `limit` bytes fills the buffer.
unfoldable pub scan_from : ℕ → Bytes → Bytes → Bool → Scanned
scan_from limit line [] broken =
    if ltb (length line) limit
    then scan_end line (if broken then io_error else clean)
    else record { lines = []; ending = oversize }
scan_from limit line (b ∷ bs) broken =
    let ends = found line (scan_from limit [] bs broken) in
    let goes_on = scan_from limit (line ++ b ∷ []) bs broken in
    if ltb (length line) limit
    then (if b == b'\n' then ends else goes_on)
    else record { lines = []; ending = oversize }

unfoldable pub scan : Stream → Scanned
scan s = scan_from max_token [] s.content s.broken
