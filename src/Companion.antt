-- ===== src/Companion.antt =====
-- The companion's program (companion/main.go): the commands verify and restore, from the source on;
-- the command run stands in Companion/Running.
pub mod Restoring
pub mod Running
pub mod Prepared
pub mod Acknowledged
use pgvolvra.Base.{Bool, not, ◌&&◌, List, Bytes, is_empty, any, if◌then◌else◌}
use pgvolvra.Exec.{Exec, Outcome, ok, err, not_verified, missing_dsn, and_then, throw}
use pgvolvra.Format.{Manifest, Platform}
use pgvolvra.Source.{Source}
use pgvolvra.Verify.{Finding, fatal, verify_archive}
use pgvolvra.Restore.{Loading, restore_archive}

abbrev verdict : List Finding × Manifest → Outcome (Unit {0})
verdict (fs, m) = if any fatal fs then err not_verified else ok tt

module _ (p : Platform) where
  -- `cmdVerify`
  unfoldable pub cmd_verify : Source → Outcome (Unit {0})
  cmd_verify src = and_then (verify_archive p src) verdict

  abbrev pub restore_found : Source → Bool → List Finding → Exec Loading (Unit {0})
  restore_found later dry fs =
      if any fatal fs then throw not_verified else restore_archive p later dry

  abbrev pub restore_verified :
      Source → Bool → Outcome (List Finding × Manifest) → Exec Loading (Unit {0})
  restore_verified later dry (err e) = throw e
  restore_verified later dry (ok (fs, m)) = restore_found later dry fs

  -- `cmdRestore`: nothing is loaded of an archive that does not verify. The members are opened once for
  -- the verification and once more for the load: `later` is the source as it is then.
  unfoldable pub cmd_restore : Source → Source → Bytes → Bool → Exec Loading (Unit {0})
  cmd_restore src later dsn dry =
      if not dry && is_empty dsn
      then throw missing_dsn
      else restore_verified later dry (verify_archive p src)
