-- ===== src/Companion/Restoring.antt =====
-- On what the commands verify and restore accept (companion/main.go).
use pgvolvra.Base.{
  ◌≡◌, refl, ◌⊎◌, inl, inr, Bool, false, not, ◌&&◌, List, [], Bytes, is_empty, any, arith,
  Bool-cases,
}
use pgvolvra.Exec.{Outcome, ok, err}
use pgvolvra.Exec.Laws.{and_then-ok}
use pgvolvra.Format.{Manifest, Platform}
use pgvolvra.Source.{Source}
use pgvolvra.Verify.{Finding, fatal, verify_archive}
use pgvolvra.Verify.Sound.{IntactFrom, verify_archive-IntactFrom}
use pgvolvra.Restore.{Loading, restore_archive}
use pgvolvra.Companion.{cmd_verify, verdict, restore_verified, cmd_restore}

module _ (p : Platform) (src : Source) where
  -- The manifest can be read, and its segments are intact, linked to one another and `Ordered`.
  abbrev pub Verified : Type 0
  Verified =
      (fs : List Finding) × (m : Manifest) × (verify_archive p src ≡ ok (fs, m))
      × IntactFrom p src m.segments [] [] m.segments

  Verified-calm :
      (fs : List Finding) (m : Manifest)
      → verify_archive p src ≡ ok (fs, m)
      → any fatal fs ≡ false
      → Verified
  Verified-calm fs m e calm = (fs, m, e, (verify_archive-IntactFrom p src fs m e).0 calm)

  -- The command verify succeeds only on an archive whose manifest can be read and each of whose segments
  -- is intact, linked to the one before it and does not start, in the order of texts, before that one
  -- ends, unless a position is missing or a gap is recorded in the one or the other.
  pub cmd_verify-Verified : cmd_verify p src ≡ ok tt → Verified
  unfolding cmd_verify
  cmd_verify-Verified e =
      let ((fs, m), found, rest) = and_then-ok (verify_archive p src) verdict tt e in
      elim (Bool-cases (any fatal fs)) [
        | inl bad ↦ absurd (ground (arith, rest, bad))
        | inr calm ↦ Verified-calm fs m found calm
      ]

  -- The command restore has loaded nothing, or the archive verified when it was read for that, and the
  -- command did what the restore does of the archive as it is when it is read again.
  pub cmd_restore-Verified :
      (later : Source) (dsn : Bytes) (dry : Bool) (st : Loading)
      → ((cmd_restore p src later dsn dry st).1 ≡ st)
        ⊎ (Verified × (cmd_restore p src later dsn dry st ≡ restore_archive p later dry st))
  unfolding cmd_restore
  cmd_restore-Verified later dsn dry st = elim (Bool-cases (not dry && is_empty dsn)) [
    | inl e ↦ rw e (inl refl)
    | inr e ↦ rw e (by_verification (verify_archive p src) refl)
  ]
    where
      by_verification :
          (r : Outcome (List Finding × Manifest))
          → verify_archive p src ≡ r
          → ((restore_verified p later dry r st).1 ≡ st)
            ⊎ (Verified × (restore_verified p later dry r st ≡ restore_archive p later dry st))
      by_verification (err x) e = inl refl
      by_verification (ok (fs, m)) e = elim (Bool-cases (any fatal fs)) [
        | inl bad ↦ rw bad (inl refl)
        | inr calm ↦ rw calm (inr (Verified-calm fs m e calm, refl))
      ]
