-- ===== src/Format.antt =====
-- The archive's data (companion/archive.go): change records, segments, the manifest; and what the
-- program takes from its libraries to write them: encoding/json, crypto/sha256, encoding/base64,
-- the formatting of times, and the log positions of pglogrepl.
pub mod Names
use pgvolvra.Base.{
  Assoc, ℕ, Bool, true, false, Option, none, some, List, Bytes, not, is_empty, ◌≡◌, [], ◌∷◌, ◌++◌,
  any, ◌==◌, last?,
}

pub record Change : Type 0 where
  pub lsn : Bytes
  pub xid : ℕ
  pub commit_ts : ℕ
  pub table : Bytes
  pub op : Bytes
  pub pk : Bytes
  pub old : Bytes
  pub new : Bytes
  pub gap : Bool
  pub from_lsn : Bytes
  pub to_lsn : Bytes
  pub reason : Bytes

pub record Segment : Type 0 where
  pub seq : ℕ
  pub file : Bytes
  pub start_lsn : Bytes
  pub end_lsn : Bytes
  pub changes : ℕ
  pub bytes : ℕ
  pub sha256 : Bytes
  pub prev : Bytes
  pub chain : Bytes
  pub sealed_at : Bytes
  pub uploaded_at : Bytes
  pub remote_key : Bytes
  pub remote_etag : Bytes

-- `Segment.Uploaded`
abbrev pub uploaded : Segment → Bool
uploaded s = not (is_empty s.uploaded_at)

pub record Manifest : Type 0 where
  pub archive : Bytes
  pub format : ℕ
  pub slot : Bytes
  pub publication : Bytes
  pub created_at : Bytes
  pub segments : List Segment

abbrev pub archive_format : ℕ
archive_format = 1

-- What the libraries compute. `sha256` is the raw digest; `encode_row` is of a map of columns,
-- `stamp` is RFC3339Nano, `stamp_micro` the layout of restore.
pub record Platform : Type 0 where
  pub encode_change : Change → Bytes
  pub encode_row : Assoc (Option Bytes) → Bytes
  pub decode_change : Bytes → Option Change
  pub encode_manifest : Manifest → Bytes
  pub decode_manifest : Bytes → Option Manifest
  pub sha256 : Bytes → Bytes
  pub base64_decode : Bytes → Option Bytes
  pub stamp : ℕ → Bytes
  pub stamp_micro : ℕ → Bytes
  pub lsn_text : ℕ → Bytes
  pub parse_lsn : Bytes → Option ℕ

abbrev newline : ℕ → Bool
newline b = b == b'\n'

-- What the program relies on. JSON texts of a value hold no raw newline, end in a brace, and are
-- read back as the value.
pub record IsFaithful (p : Platform) : Type 0 where
  pub decode-encode : (c : Change) → p.decode_change (p.encode_change c) ≡ some c
  pub encode-one_line : (c : Change) → any newline (p.encode_change c) ≡ false
  pub encode-last : (c : Change) → last? (p.encode_change c) ≡ some b'}'
  pub decode-encode_manifest :
      (m : Manifest) → p.decode_manifest (p.encode_manifest m ++ b'\n' ∷ []) ≡ some m
  pub stamp-ne-empty : (t : ℕ) → is_empty (p.stamp t) ≡ false
  pub parse-text : (l : ℕ) → p.parse_lsn (p.lsn_text l) ≡ some l
  pub text-ne-empty : (l : ℕ) → is_empty (p.lsn_text l) ≡ false
