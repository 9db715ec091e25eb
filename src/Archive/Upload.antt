-- ===== src/Archive/Upload.antt =====
-- The uploads of the archive writer (companion/archive.go, pushRemote; companion/remote.go, PutManifest).
use pgvolvra.Base.{
  ℕ, ◌-◌, Bool, true, false, not, ◌&&◌, Option, none, some, List, [], ◌∷◌, ◌++◌, Bytes, ◌==◌, ltb,
  if◌then◌else◌,
}
use pgvolvra.Exec.{
  Exec, Outcome, ok, err, Error, open_file, ◌>>=◌, ◌>>◌, pure, throw, gets, attempted,
}
use pgvolvra.Format.{Segment, uploaded, Platform}
use pgvolvra.Format.Names.{manifest_name}
use pgvolvra.World.{touch, now, read_disk, upload}
use pgvolvra.Remote.{Remote, put_segment}
use pgvolvra.Archive.{
  Archive, Sys, manifest_interval, in_world, set_arch, set_segments, write_manifest,
}

-- The highest sequence that the manifest would cover if it were uploaded now.
unfoldable pub ready : ℕ → List Segment → ℕ
ready last [] = last
ready last (s ∷ segs) = let further = ready s.seq segs in if uploaded s then further else last

-- Whether `time.Since(last) < manifestInterval`.
abbrev too_soon : Option ℕ → ℕ → Bool
too_soon none t = false
too_soon (some last) t = ltb (t - last) manifest_interval

module _ (p : Platform) where
  abbrev pub marked : Segment → ℕ → Bytes → Segment
  marked seg t etag = record seg {
    uploaded_at = p.stamp t;
    remote_key = seg.file;
    remote_etag = etag;
  }

  -- What follows the upload of the segment between `done` and `rest`: on an error the marks made so
  -- far are saved, whose own error is dropped.
  unfoldable pub uploaded_one :
      List Segment → Segment → List Segment → Bool → Outcome Bytes → Exec Sys Segment
  uploaded_one done seg rest changed (err e) = do
    attempted (if changed then write_manifest p else pure tt)
    throw e
  uploaded_one done seg rest changed (ok etag) = do
    t ← in_world now
    set_arch (set_segments (done ++ marked seg t etag ∷ rest))
    pure (marked seg t etag)

  unfoldable pub upload_one :
      Remote → List Segment → Segment → List Segment → Bool → Exec Sys Segment
  unfolding uploaded_one
  upload_one r done seg rest changed = do
    answer ← attempted (in_world (put_segment p r.checksum seg.file seg.file seg.sha256))
    uploaded_one done seg rest changed answer

  -- Uploads what the bucket lacks, in order, up to the first failure. The answer is whether any
  -- segment changed.
  unfoldable pub upload_from : Remote → List Segment → List Segment → Bool → Exec Sys Bool
  upload_from r done [] changed = pure changed
  upload_from r done (seg ∷ rest) changed = elim (uploaded seg) [
    | true ↦ upload_from r (done ++ seg ∷ []) rest changed
    | false ↦ do
      seg' ← upload_one r done seg rest changed
      upload_from r (done ++ seg' ∷ []) rest true
  ]

  -- `Remote.PutManifest` on the local file
  unfoldable pub put_manifest : Exec Sys (Unit {0})
  put_manifest = do
    in_world (touch open_file)
    body ← in_world (read_disk manifest_name)
    in_world (upload true manifest_name body)
    pure tt

  -- The upload of the manifest, and what is remembered of it.
  unfoldable pub publish : ℕ → Exec Sys (Unit {0})
  unfolding put_manifest
  publish covered = do
    put_manifest
    t ← in_world now
    set_arch (λ a. record a { manifest_seq = covered; last_manifest_at = some t })

  unfoldable pub publish_unless : Bool → ℕ → Option ℕ → Exec Sys (Unit {0})
  publish_unless force covered last = do
    t ← in_world now
    if not force && too_soon last t then pure tt else publish covered

  -- The end of `pushRemote`: the bucket's manifest, when it is behind.
  unfoldable pub refresh_manifest : Bool → Archive → Exec Sys (Unit {0})
  unfolding ready
  refresh_manifest force a =
      let covered = ready 0 a.man.segments in
      if covered == a.manifest_seq then pure tt else publish_unless force covered a.last_manifest_at

  unfoldable pub push_segments : Bool → Remote → List Segment → Exec Sys (Unit {0})
  unfolding upload_one upload_from refresh_manifest publish_unless publish
  push_segments force r segs = do
    changed ← upload_from r [] segs false
    if changed then write_manifest p else pure tt
    a ← gets (λ s. s.arch)
    refresh_manifest force a

  unfoldable pub push_to : Bool → Remote → Exec Sys (Unit {0})
  unfolding push_segments
  push_to force r = do segs ← gets (λ s. s.arch.man.segments); push_segments force r segs

  unfoldable pub push_if : Bool → Option Remote → Exec Sys (Unit {0})
  unfolding push_to
  push_if force none = pure tt
  push_if force (some r) = push_to force r

  -- `pushRemote`
  unfoldable pub push_remote : Bool → Exec Sys (Unit {0})
  unfolding push_if
  push_remote force = do r ← gets (λ s. s.arch.remote); push_if force r

  abbrev pub failure : Outcome (Unit {0}) → Option Error
  failure (ok _) = none
  failure (err e) = some e

  unfoldable pub push_noting : Option Remote → Exec Sys (Unit {0})
  unfolding push_to
  push_noting none = pure tt
  push_noting (some r) = do
    answer ← attempted (push_to false r)
    set_arch (λ a. record a { last_push_err = failure answer })

  -- The upload at the end of `Rotate`: its error is kept and not returned.
  unfoldable pub push_quietly : Exec Sys (Unit {0})
  unfolding push_noting
  push_quietly = do r ← gets (λ s. s.arch.remote); push_noting r
