-- ===== src/Remote.antt =====
-- Object storage (companion/remote.go). Objects are named by their member name here; the key in the
-- bucket stands in Remote/Keys.
pub mod Laws
pub mod Making
pub mod Hosts
pub mod Keys
pub mod Injective
use pgvolvra.Base.{
  true, false, ℕ, Bool, not, ◌&&◌, none, some, Bytes, is_empty, any, beq, ◌==◌, if◌then◌else◌,
}
use pgvolvra.Exec.{
  Exec, stored_mismatch, read_back_mismatch, ◌>>=◌, ◌>>◌, pure, throw, open_file, read_object,
}
use pgvolvra.Format.{Platform, Names.hex}
use pgvolvra.World.{World, touch, read_disk, upload, download}

pub data Checksum : Type 0 where
  server readback : Checksum

pub record LockState : Type 0 where
  pub enabled : Bool
  pub mode : Bytes
  pub days : ℕ
  pub source : Bytes

pub record Remote : Type 0 where
  pub bucket_name : Bytes
  pub prefix : Bytes
  pub lock : LockState
  pub checksum : Checksum

abbrev pub sends_md5 : Checksum → Bool
sends_md5 server = false
sends_md5 readback = true

module _ (p : Platform) where
  unfoldable pub digest : Bytes → Bytes
  unfolding hex
  digest b = hex (p.sha256 b)

  -- The object is read back and hashed here.
  unfoldable pub read_back : Bytes → Bytes → Exec World (Unit {0})
  read_back name want = do
    stored ← download name
    touch read_object
    if beq (digest stored) want then pure tt else throw (read_back_mismatch name)

  unfoldable pub confirm : Bytes → Bytes → Bytes → Exec World (Unit {0})
  confirm name want got =
      if not (is_empty got) && not (any (λ b. b == b'-') got)
      then elim (p.base64_decode got) [
        | some raw ↦ if beq (hex raw) want then pure tt else throw (stored_mismatch name)
        | none ↦ read_back name want
      ]
      else read_back name want

  -- The answer is the entity tag. Without a server checksum, Content-MD5 is sent.
  unfoldable pub put_segment : Checksum → Bytes → Bytes → Bytes → Exec World Bytes
  put_segment mode local name want = do
    touch open_file
    body ← read_disk local
    info ← upload (sends_md5 mode) name body
    confirm name want info.checksum_sha256
    pure info.e_tag
