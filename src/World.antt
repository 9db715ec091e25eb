-- ===== src/World.antt =====
-- The outside of the program: the archive directory, the bucket, the clock. Each call out can
-- fail; which ones do is a function of how many were made before, over which theorems range.
pub mod Laws
use pgvolvra.Base.{
  Option, ℕ, suc, Bool, none, some, [], ◌++◌, Bytes, take, ◌==◌, if◌then◌else◌, get_text, Assoc,
  lookup, insert, remove,
}
use pgvolvra.Exec.{
  Action, read_file, write_file, rename_file, put_object, get_object, write_data, open_file, Exec,
  Outcome, ok, err, failed, not_exist,
}

pub record World : Type 0 where
  pub disk : Assoc Bytes
  pub bucket : Assoc Bytes
  pub calls : ℕ
  -- whether the n-th call fails, and how much of a failing write is left behind
  pub fails : ℕ → Bool
  pub torn : ℕ → ℕ
  pub clock : ℕ → ℕ
  -- what the provider keeps of an upload, the checksum and the entity tag that it answers
  pub carried : ℕ → Bytes → Bytes
  pub reported : ℕ → Bytes → Bytes
  pub etag : ℕ → Bytes

abbrev pub tick : World → World
tick w = record w { calls = suc w.calls }

-- A call that can fail: what it leaves on failure and on success.
unfoldable pub attempt : Action → (World → World) → (World → World) → Exec World (Unit {0})
attempt a broken done w =
    if w.fails w.calls then (err (failed a), tick (broken w)) else (ok tt, tick (done w))

-- A call that changes nothing here: fsync, close, stat.
unfoldable pub touch : Action → Exec World (Unit {0})
unfolding attempt
touch a = attempt a (λ w. w) (λ w. w)

unfoldable pub now : Exec World ℕ
now w = (ok (w.clock w.calls), tick w)

abbrev pub put_file : Bytes → Bytes → World → World
put_file name b w = record w { disk = insert name b w.disk }

abbrev pub found_or : Bytes → Option Bytes → World → Outcome Bytes × World
found_or name none w = (err (not_exist name), w)
found_or name (some b) w = (ok b, w)

-- `os.ReadFile`
unfoldable pub read_disk : Bytes → Exec World Bytes
read_disk name w =
    if w.fails w.calls
    then (err (failed read_file), tick w)
    else found_or name (lookup name w.disk) (tick w)

-- `os.WriteFile`
unfoldable pub write_disk : Bytes → Bytes → Exec World (Unit {0})
unfolding attempt
write_disk name b =
    attempt write_file (λ w. put_file name (take (w.torn w.calls) b) w) (put_file name b)

-- `os.Rename`
unfoldable pub rename : Bytes → Bytes → Exec World (Unit {0})
unfolding attempt
rename from to =
    attempt rename_file (λ w. w)
      (λ w. put_file to (get_text from w.disk) (record w { disk = remove from w.disk }))

-- `os.OpenFile` with `O_CREATE` and `O_TRUNC`
unfoldable pub create : Bytes → Exec World (Unit {0})
unfolding attempt
create name = attempt open_file (λ w. w) (put_file name [])

-- `File.Write`: a failing write may leave a part of its bytes in the file.
unfoldable pub write_end : Bytes → Bytes → Exec World (Unit {0})
unfolding attempt
write_end name b =
    attempt write_data (λ w. put_file name (get_text name w.disk ++ take (w.torn w.calls) b) w)
      (λ w. put_file name (get_text name w.disk ++ b) w)

-- What the provider keeps of an upload. With Content-MD5 it refuses any other bytes than those sent.
abbrev pub kept : Bool → Bytes → World → Bytes
kept md5 b w = if md5 then b else w.carried w.calls b

abbrev pub store : Bool → Bytes → Bytes → World → World
store md5 name b w = record w { bucket = insert name (kept md5 b w) w.bucket }

pub record UploadInfo : Type 0 where
  pub checksum_sha256 : Bytes
  pub e_tag : Bytes

-- `minio.PutObject`; the flag is `SendContentMd5`. An upload whose answer was lost may have been
-- stored.
unfoldable pub upload : Bool → Bytes → Bytes → Exec World UploadInfo
upload md5 name b w =
    if w.fails w.calls
    then (err (failed put_object), tick (if w.torn w.calls == 0 then w else store md5 name b w))
    else (
      ok (record { checksum_sha256 = w.reported w.calls (kept md5 b w); e_tag = w.etag w.calls }),
      tick (store md5 name b w),
    )

-- `minio.GetObject`, read to its end
unfoldable pub download : Bytes → Exec World Bytes
download name w =
    if w.fails w.calls
    then (err (failed get_object), tick w)
    else found_or name (lookup name w.bucket) (tick w)
