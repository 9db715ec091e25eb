-- ===== src/Archive/Opening.antt =====
-- The opening of an archive (companion/archive.go, OpenArchive).
use pgvolvra.Base.{
  Bool, true, false, ℕ, not, Option, none, some, [], Bytes, codes, beq, ◌==◌, if◌then◌else◌,
}
use pgvolvra.Exec.{
  Error, Exec, Outcome, ok, err, not_exist, bad_json, wrong_format, wrong_slot, open_file, ◌>>=◌,
  ◌>>◌, pure, throw, attempted,
}
use pgvolvra.Format.{Manifest, archive_format, Platform}
use pgvolvra.Format.Names.{manifest_name}
use pgvolvra.World.{World, touch, now, read_disk}
use pgvolvra.Archive.{Archive, Sys, write_manifest}

-- An archive of a manifest, with nothing open.
abbrev pub opened : ℕ → Manifest → Archive
opened max_bytes man = record {
  man = man;
  cur = none;
  cur_seq = 0;
  cur_start = [];
  cur_end = [];
  cur_count = 0;
  cur_bytes = 0;
  hashed = [];
  max_bytes = max_bytes;
  last_push_err = none;
  last_manifest_at = none;
  manifest_seq = 0;
  remote = none;
}

-- An action of the archive's own on an archive that was just made.
abbrev pub with_arch : Archive → Exec Sys (Unit {0}) → Exec World Archive
with_arch a m w = let (r, s) = m (record { arch = a; world = w }) in answer r s
  where
    answer : Outcome (Unit {0}) → Sys → Outcome Archive × World
    answer (ok _) s = (ok s.arch, s.world)
    answer (err e) s = (err e, s.world)

-- `os.IsNotExist`
abbrev pub is_not_exist : Error → Bool
is_not_exist (not_exist _) = true
is_not_exist _ = false

module _ (p : Platform) (slot publication : Bytes) (max_bytes : ℕ) where
  abbrev pub new_manifest : ℕ → Manifest
  new_manifest t = record {
    archive = codes "volvra";
    format = archive_format;
    slot = slot;
    publication = publication;
    created_at = p.stamp t;
    segments = [];
  }

  abbrev pub accept : Option Manifest → Exec World Archive
  accept none = throw bad_json
  accept (some m) =
      if not (m.format == archive_format)
      then throw (wrong_format m.format)
      else if not (beq m.slot slot)
      then throw (wrong_slot m.slot)
      else pure (opened max_bytes m)

  -- A first manifest is written where there is none.
  unfoldable pub start_archive : Exec World Archive
  start_archive = do t ← now; with_arch (opened max_bytes (new_manifest t)) (write_manifest p)

  abbrev pub open_read : Outcome Bytes → Exec World Archive
  open_read (ok b) = accept (p.decode_manifest b)
  open_read (err e) = if is_not_exist e then start_archive else throw e

  -- `OpenArchive`
  unfoldable pub open_archive : Exec World Archive
  unfolding start_archive
  open_archive = do touch open_file; b ← attempted (read_disk manifest_name); open_read b
