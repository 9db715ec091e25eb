-- ===== src/Archive.antt =====
-- The archive writer (companion/archive.go): its state, what it says of itself, the manifest's file
-- and the opening of a segment's. A method is an action that changes the state and the world outside.
-- Archive/Upload has the uploads, Archive/Writer the rest of the methods.
pub mod Upload
pub mod Writer
pub mod Segments
pub mod State
pub mod Positions
pub mod History
pub mod Durable
pub mod Backed
pub mod Uploading
pub mod Push
pub mod Rotation
pub mod Appending
pub mod Resume
pub mod Opening
pub mod Opened
pub mod Frame
pub mod Pending
pub mod Sealed
pub mod Reopened
pub mod Session
pub mod Succeeding
use pgvolvra.Base.{
  ◌||◌, ℕ, ◌+◌, ◌-◌, ◌*◌, Bool, true, false, not, ◌&&◌, Option, none, some, List, [], ◌∷◌, ◌++◌,
  Bytes, is_empty, ◌==◌, leb, ltb, if◌then◌else◌, length, last?,
}
use pgvolvra.Exec.{
  Exec, Outcome, ok, err, Error, panic, open_file, sync_file, close_file, ◌>>=◌, ◌>>◌, pure, throw,
  gets, modify, attempted,
}
use pgvolvra.Format.{Change, Segment, uploaded, Manifest, Platform}
use pgvolvra.Format.Names.{segment_name, manifest_name, manifest_tmp}
use pgvolvra.World.{World, touch, now, read_disk, write_disk, rename, create, write_end, upload}
use pgvolvra.Remote.{Remote, digest, put_segment}

-- `hashed` is what was written to the hasher since it was made. The zero time is `none`.
pub record Archive : Type 0 where
  pub man : Manifest
  pub cur : Option Bytes
  pub cur_seq : ℕ
  pub cur_start : Bytes
  pub cur_end : Bytes
  pub cur_count : ℕ
  pub cur_bytes : ℕ
  pub hashed : Bytes
  pub max_bytes : ℕ
  pub last_push_err : Option Error
  pub last_manifest_at : Option ℕ
  pub manifest_seq : ℕ
  pub remote : Option Remote

pub record Sys : Type 0 where
  pub arch : Archive
  pub world : World

-- `manifestInterval`, in nanoseconds
abbrev pub manifest_interval : ℕ
manifest_interval = 30 * 1000000000

abbrev pub in_world : {A : Type 0} → Exec World A → Exec Sys A
in_world m s = let (r, w) = m s.world in (r, record s { world = w })

abbrev pub set_arch : (Archive → Archive) → Exec Sys (Unit {0})
set_arch f = modify (λ s. record s { arch = f s.arch })

abbrev pub set_segments : List Segment → Archive → Archive
set_segments segs a = record a { man = record a.man { segments = segs } }

-- `ResumeLSN` with a bucket: the end of the longest run of segments from the first that are
-- uploaded and named by the manifest in the bucket.
unfoldable pub resume_from : ℕ → Bytes → List Segment → Bytes
resume_from covered last [] = last
resume_from covered last (s ∷ segs) =
    let further = resume_from covered s.end_lsn segs in
    if not (uploaded s) || ltb covered s.seq then last else further

abbrev pub end_of : Option Segment → Bytes
end_of none = []
end_of (some s) = s.end_lsn

unfoldable pub resume_lsn : Archive → Bytes
unfolding resume_from
resume_lsn a = elim a.remote [
  | some _ ↦ resume_from a.manifest_seq [] a.man.segments
  | none ↦ end_of (last? a.man.segments)
]

unfoldable pub pending : List Segment → ℕ
pending [] = 0
pending (s ∷ segs) = (if uploaded s then 0 else 1) + pending segs

unfoldable pub pending_uploads : Archive → ℕ
unfolding pending
pending_uploads a = elim a.remote [ none ↦ 0 | some _ ↦ pending a.man.segments ]

abbrev pub total_changes : List Segment → ℕ
total_changes [] = 0
total_changes (s ∷ segs) = s.changes + total_changes segs

-- `Stats`
unfoldable pub stats : Archive → ℕ × ℕ
stats a = (length a.man.segments, total_changes a.man.segments)

abbrev pub chain_of : Option Segment → Bytes
chain_of none = []
chain_of (some s) = s.chain

-- `UseRemote`
unfoldable pub use_remote : Remote → Exec Sys (Unit {0})
use_remote r = set_arch (λ a. record a { remote = some r })

-- `time.Now().UTC().Format(…)` comes out of a call of the clock.
module _ (p : Platform) where
  -- The directory's own fsync is best effort: its errors are dropped, and it is left out.
  unfoldable pub save_manifest : Manifest → Exec Sys (Unit {0})
  save_manifest man = do
    in_world (write_disk manifest_tmp (p.encode_manifest man ++ b'\n' ∷ []))
    in_world (rename manifest_tmp manifest_name)

  unfoldable pub write_manifest : Exec Sys (Unit {0})
  write_manifest = do man ← gets (λ s. s.arch.man); save_manifest man

  -- `open`, with the sequence number at hand
  unfoldable pub create_segment : ℕ → Exec Sys (Unit {0})
  create_segment seq = do
    in_world (create (segment_name seq))
    set_arch (λ a. record a {
      cur = some (segment_name seq);
      cur_count = 0;
      cur_bytes = 0;
      cur_start = [];
      cur_end = [];
      hashed = [];
    })

  -- `open`
  unfoldable pub open_segment : Exec Sys (Unit {0})
  unfolding create_segment
  open_segment = do
    set_arch (λ a. record a { cur_seq = length a.man.segments + 1 })
    seq ← gets (λ s. s.arch.cur_seq)
    create_segment seq
