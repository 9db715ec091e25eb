-- ===== src/Archive/Writer.antt =====
-- The archive writer's methods Append, Rotate and Close (companion/archive.go).
use pgvolvra.Base.{
  ℕ, ◌+◌, true, Option, none, some, [], ◌∷◌, ◌++◌, Bytes, is_empty, ◌==◌, leb, if◌then◌else◌,
  length, last?,
}
use pgvolvra.Exec.{Exec, panic, sync_file, close_file, ◌>>=◌, ◌>>◌, pure, throw, gets}
use pgvolvra.Format.{Change, Segment, Platform}
use pgvolvra.World.{touch, now, write_end}
use pgvolvra.Remote.{digest}
use pgvolvra.Archive.{
  Archive, Sys, in_world, set_arch, set_segments, chain_of, write_manifest, open_segment,
}
use pgvolvra.Archive.Upload.{push_remote, push_quietly}

module _ (p : Platform) where
  -- The segment that `Rotate` records.
  unfoldable pub sealed : Archive → Bytes → ℕ → Segment
  sealed a name t =
      let sum = digest p a.hashed in
      let prev = chain_of (last? a.man.segments) in
      record {
        seq = a.cur_seq;
        file = name;
        start_lsn = a.cur_start;
        end_lsn = a.cur_end;
        changes = a.cur_count;
        bytes = a.cur_bytes;
        sha256 = sum;
        prev = prev;
        chain = digest p (prev ++ (b'|' ∷ sum));
        sealed_at = p.stamp t;
        uploaded_at = [];
        remote_key = [];
        remote_etag = [];
      }

  unfoldable pub record_segment : Bytes → Exec Sys (Unit {0})
  unfolding sealed push_quietly
  record_segment name = do
    t ← in_world now
    set_arch (λ a. set_segments (a.man.segments ++ sealed a name t ∷ []) a)
    write_manifest p
    push_quietly p

  unfoldable pub seal : Bytes → Exec Sys (Unit {0})
  unfolding record_segment
  seal name = do
    in_world (touch sync_file)
    in_world (touch close_file)
    set_arch (λ a. record a { cur = none })
    record_segment name

  unfoldable pub rotate_from : Option Bytes → ℕ → Exec Sys (Unit {0})
  unfolding seal
  rotate_from none count = pure tt
  rotate_from (some name) count = if count == 0 then pure tt else seal name

  unfoldable pub rotate : Exec Sys (Unit {0})
  unfolding rotate_from
  rotate = do a ← gets (λ s. s.arch); rotate_from a.cur a.cur_count

  -- The write of one record to the open file. With no open file Go would dereference nil.
  unfoldable pub write_record : Option Bytes → Bytes → Exec Sys (Unit {0})
  write_record none b = throw panic
  write_record (some name) b = in_world (write_end name b)

  -- The bookkeeping of one record that was written.
  abbrev pub counted : Change → Bytes → Archive → Archive
  counted c b a = record a {
    hashed = a.hashed ++ b;
    cur_bytes = a.cur_bytes + length b;
    cur_count = a.cur_count + 1;
    cur_start = if is_empty a.cur_start then c.lsn else a.cur_start;
    cur_end = c.lsn;
  }

  unfoldable pub open_if : Option Bytes → Exec Sys (Unit {0})
  unfolding open_segment
  open_if none = open_segment p
  open_if (some _) = pure tt

  unfoldable pub ensure_open : Exec Sys (Unit {0})
  unfolding open_if
  ensure_open = do cur ← gets (λ s. s.arch.cur); open_if cur

  unfoldable pub rotate_full : Archive → Exec Sys (Unit {0})
  rotate_full a = if leb a.max_bytes a.cur_bytes then rotate else pure tt

  unfoldable pub append_to : Change → Bytes → Option Bytes → Exec Sys (Unit {0})
  unfolding write_record rotate_full
  append_to c b cur = do
    write_record cur b
    set_arch (counted c b)
    a ← gets (λ s. s.arch)
    rotate_full a

  unfoldable pub append : Change → Exec Sys (Unit {0})
  unfolding ensure_open append_to
  append c = do
    ensure_open
    cur ← gets (λ s. s.arch.cur)
    append_to c (p.encode_change c ++ b'\n' ∷ []) cur

  unfoldable pub close : Exec Sys (Unit {0})
  unfolding push_remote
  close = do rotate; push_remote p true
