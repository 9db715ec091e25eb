-- ===== src/Source.antt =====
-- Where verify and restore read the archive from (companion/source.go), and the manifest that they
-- read there.
use pgvolvra.Base.{
  true, false, Bool, Option, none, some, List, [], ◌∷◌, Bytes, Assoc, lookup, leb, if◌then◌else◌,
}
use pgvolvra.Exec.{Outcome, ok, err, not_exist, bad_json, failed, read_file}
use pgvolvra.Format.{Segment, Manifest, Platform}
use pgvolvra.Format.Names.{manifest_name}
use pgvolvra.Lines.{Stream}

-- The local directory and the bucket, each with the members that can be opened in it and what is read
-- of them: a source at the time of one reading, in which it does not change.
pub record Source : Type 0 where
  pub dir : Option (Assoc Stream)
  pub remote : Option (Assoc Stream)

abbrev or_missing : Bytes → Option Stream → Outcome Stream
or_missing name none = err (not_exist name)
or_missing name (some f) = ok f

get_remote : Option (Assoc Stream) → Bytes → Outcome Stream
get_remote none name = err (not_exist name)
get_remote (some r) name = or_missing name (lookup name r)

-- The local file if it is there.
open_local : Option Stream → Option (Assoc Stream) → Bytes → Outcome Stream
open_local (some f) remote name = ok f
open_local none remote name = get_remote remote name

open_in : Option (Assoc Stream) → Option (Assoc Stream) → Bytes → Outcome Stream
open_in none remote name = get_remote remote name
open_in (some d) remote name = open_local (lookup name d) remote name

-- `Source.Open`
unfoldable pub open_source : Source → Bytes → Outcome Stream
unfolding open_in open_local get_remote
open_source s name = open_in s.dir s.remote name

is_there : Option Stream → Bool
is_there none = false
is_there (some _) = true

-- `Source.Local`
unfoldable pub is_local : Source → Bytes → Bool
unfolding is_there
is_local s name = elim s.dir [ none ↦ false | some d ↦ is_there (lookup name d) ]

insert_segment : Segment → List Segment → List Segment
insert_segment s [] = s ∷ []
insert_segment s (t ∷ segs) = if leb s.seq t.seq then s ∷ t ∷ segs else t ∷ insert_segment s segs

-- `sort.Slice` by sequence number
unfoldable pub sort_segments : List Segment → List Segment
unfolding insert_segment
sort_segments [] = []
sort_segments (s ∷ segs) = insert_segment s (sort_segments segs)

module _ (p : Platform) where
  abbrev parsed : Option Manifest → Outcome Manifest
  parsed none = err bad_json
  parsed (some m) = ok (record m { segments = sort_segments m.segments })

  abbrev parse_stream : Outcome Stream → Outcome Manifest
  parse_stream (err e) = err e
  parse_stream (ok f) =
      if f.broken then err (failed read_file) else parsed (p.decode_manifest f.content)

  -- `ReadManifestFrom`, and `ReadManifest` where the source is a directory alone
  unfoldable pub read_manifest : Source → Outcome Manifest
  unfolding sort_segments
  read_manifest src = parse_stream (open_source src manifest_name)
