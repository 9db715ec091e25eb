-- ===== src/Recovery/Whole.antt =====
-- From the opening of a new directory, over calls of the archive's methods, to a restore
-- (companion/archive.go, companion/restore.go).
use pgvolvra.Base.{
  subst, false, ℕ, ◌≡◌, inl, inr, Bool, Option, none, List, [], Bytes, Assoc, lookup, All, arith,
}
use pgvolvra.Exec.{ok}
use pgvolvra.Exec.Laws.{After}
use pgvolvra.Format.{Platform, IsFaithful}
use pgvolvra.Format.Names.{manifest_name}
use pgvolvra.Lines.{Stream}
use pgvolvra.World.{World}
use pgvolvra.World.Laws.{At}
use pgvolvra.Archive.{Archive, Sys}
use pgvolvra.Archive.Durable.{Durable}
use pgvolvra.Archive.Opening.{open_archive}
use pgvolvra.Archive.Opened.{open_archive-Opened, Opened, Unopened}
use pgvolvra.Archive.Session.{Call, appended, run, run-Durable}
use pgvolvra.Restore.{Loading, restore_archive}
use pgvolvra.Recovery.Served.{Fits, directory}
use pgvolvra.Recovery.Restored.{Loaded, restore_archive-Durable}

module _ (p : Platform) (faithful : IsFaithful p) (slot publication : Bytes) (max_bytes : ℕ)
    (B D : Assoc Bytes) (new : lookup manifest_name D ≡ none) where
  pub opened-Durable :
      (w w' : World) (a : Archive)
      → At p B D w
      → open_archive p slot publication max_bytes w ≡ (ok a, w')
      → Durable p [] (record { arch = a; world = w' })
  opened-Durable w w' a h e = from_new (
      subst (After (Opened p faithful B D slot publication max_bytes) (Unopened p faithful B D)) e
        (open_archive-Opened p faithful B D slot publication max_bytes w h))
    where
      from_new :
          Opened p faithful B D slot publication max_bytes a w'
          → Durable p [] (record { arch = a; world = w' })
      from_new (inl (_, d)) = d
      from_new (inr (b, m, found, _, _, _, _, _)) = absurd (ground (arith, new, found))

  run_after :
      (calls : List Call) (s s' : Sys)
      → Durable p [] s
      → run p calls s ≡ (ok tt, s')
      → Durable p (appended calls) s'
  run_after calls s s' d e =
      subst (After (λ _. Durable p (appended calls)) _) e ((run-Durable p faithful calls []).at s d)

  -- A new directory was opened, and any calls of the archive's methods were made without an error, the
  -- last of which left no segment open. Then a restore from the directory, into a database that
  -- answers every call, succeeds and loads the row changes that were appended, in order. The conditions
  -- are that the readers' buffer takes each record, and what the libraries are relied on for.
  pub restore-appended :
      (w w' : World) (a : Archive) (calls : List Call) (s : Sys) (r : Option (Assoc Stream))
      (dry : Bool) (st : Loading)
      → At p B D w
      → open_archive p slot publication max_bytes w ≡ (ok a, w')
      → run p calls (record { arch = a; world = w' }) ≡ (ok tt, s)
      → s.arch.cur ≡ none
      → All (Fits p) (appended calls)
      → ((n : ℕ) → st.fails n ≡ false)
      → (st' : Loading) × (restore_archive p (directory s.world.disk r) dry st ≡ (ok tt, st'))
        × Loaded p dry (appended calls) st st'
  restore-appended w w' a calls s r dry st h opened ran closed fits works =
      restore_archive-Durable p faithful (appended calls) s r fits
        (run_after calls _ s (opened-Durable w w' a h opened) ran) closed dry st works
