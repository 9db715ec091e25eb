-- ===== src/Archive/Opened.antt =====
-- On the opening of a new directory and of a used one (companion/archive.go, OpenArchive).
use pgvolvra.Base.{
  ℕ, ◌≡◌, refl, sym, ◌∙◌, ap, ◌⊎◌, inl, inr, true, Option, none, some, [], Bytes, Assoc, lookup,
  beq, beq_iff, ==_iff, ◌==◌, arith, Bool-cases, Option-cases,
}
use pgvolvra.Exec.{Exec, Outcome, ok, err, open_file, attempted}
use pgvolvra.Exec.Laws.{After, Triple, Triple-bind, Triple-weaken}
use pgvolvra.Format.{Manifest, archive_format, Platform, IsFaithful}
use pgvolvra.Format.Names.{manifest_name}
use pgvolvra.World.{World, read_disk}
use pgvolvra.World.Laws.{At, touch-At, now-At, tick-At}
use pgvolvra.Archive.{Archive, Sys, write_manifest}
use pgvolvra.Archive.State.{Written, write_manifest-At}
use pgvolvra.Archive.Durable.{Backed, Durable, Durable-intro}
use pgvolvra.Archive.Uploading.{written-Listed}
use pgvolvra.Archive.Opening.{
  is_not_exist, opened, with_arch, new_manifest, accept, start_archive, open_read, open_archive,
}

module _ (p : Platform) (faithful : IsFaithful p) (B D : Assoc Bytes) where
  -- What an attempted reading says of the disk.
  abbrev Read : Outcome Bytes → Type 0
  Read (ok b) = lookup manifest_name D ≡ some b
  Read (err e) = is_not_exist e ≡ true → lookup manifest_name D ≡ none

  -- After an error the bucket is as it was.
  abbrev pub Unopened : World → Type 0
  Unopened w = (D' : Assoc Bytes) × At p B D' w

  Read-cases :
      Triple (At p B D) (attempted (read_disk manifest_name)) (λ r w. Read r × At p B D w) Unopened
  unfolding read_disk
  Read-cases = record {
    at = λ w h. elim (Bool-cases (w.fails w.calls)) [
      | inl e ↦ rw e ((λ never. absurd (ground (arith, never))), tick-At p B D w h)
      | inr e ↦ elim (Option-cases (lookup manifest_name w.disk)) [
        | inl n ↦
            rw (e, n) ((λ _. ap (lookup manifest_name) (sym h.disk_is) ∙ n), tick-At p B D w h)
        | inr (b, n) ↦ rw (e, n) (ap (lookup manifest_name) (sym h.disk_is) ∙ n, tick-At p B D w h)
      ]
    ];
  }

  abbrev sys : Archive → World → Sys
  sys a w = record { arch = a; world = w }

  pub After-with_arch :
      (Q E : Sys → Type 0) (a : Archive) (m : Exec Sys (Unit {0})) (w : World)
      (r : Outcome (Unit {0})) (s : Sys)
      → m (sys a w) ≡ (r, s)
      → After (λ _. Q) E (r, s)
      → After (λ a' w'. Q (sys a' w')) (λ w'. (a' : Archive) × E (sys a' w')) (with_arch a m w)
  After-with_arch Q E a m w (ok _) s e h = rw e h
  After-with_arch Q E a m w (err x) s e h = rw e (s.arch, h)

  module _ (slot publication : Bytes) (max_bytes : ℕ) where
    -- A new directory got a manifest; the history is empty.
    abbrev pub New : Archive → World → Type 0
    New a w = (lookup manifest_name D ≡ none) × Durable p [] (sys a w)

    -- The archive goes on with the manifest that was there, of this slot and of this format.
    abbrev pub Old : Archive → World → Type 0
    Old a w =
        (b : Bytes) × (m : Manifest) × (lookup manifest_name D ≡ some b)
        × (p.decode_manifest b ≡ some m)
        × (m.format ≡ archive_format)
        × (m.slot ≡ slot)
        × (a ≡ opened max_bytes m)
        × At p B D w

    abbrev pub Opened : Archive → World → Type 0
    Opened a w = New a w ⊎ Old a w

    Backed-opened :
        (t : ℕ) → Backed p (opened max_bytes (new_manifest p slot publication max_bytes t)) B
    Backed-opened t = record {
      numbered = tt;
      held = tt;
      covered = inl refl;
      opened = λ name e. absurd (ground (arith, e));
    }

    started :
        (t : ℕ) (s : Sys)
        → lookup manifest_name D ≡ none
        → Written p (opened max_bytes (new_manifest p slot publication max_bytes t)) B D s
        → Opened s.arch s.world
    started t s absent (D', h, e, same) = inl (
      absent,
      Durable-intro p [] (opened max_bytes (new_manifest p slot publication max_bytes t)) B D'
          (Backed-opened t)
          (written-Listed p faithful []
            (opened max_bytes (new_manifest p slot publication max_bytes t)) D' e
            (record { sealed = []; unsealed = []; whole = refl; filed = refl; open_file = refl }))
          s h,
    )

    start_archive-Opened :
        lookup manifest_name D ≡ none
        → Triple (At p B D) (start_archive p slot publication max_bytes) Opened Unopened
    unfolding start_archive
    start_archive-Opened absent =
        Triple-bind _ _ (Triple-weaken _ (now-At p B D) (λ w h. h) (λ _ w h. h) (λ w h. absurd h))
          λ t.
            let a = opened max_bytes (new_manifest p slot publication max_bytes t) in
            Triple-weaken _
              (record {
                at = λ w h.
                    After-with_arch _ _ a (write_manifest p) w _ _ refl
                      ((write_manifest-At p a B D).at (sys a w) (refl, h));
              })
              (λ w h. h) (λ a' w h. started t (sys a' w) absent h)
              (λ w (_, (D', h, _, _)). (D', h.1))

    accept-Opened :
        (b : Bytes) (o : Option Manifest)
        → lookup manifest_name D ≡ some b
        → p.decode_manifest b ≡ o
        → Triple (At p B D) (accept p slot publication max_bytes o) Opened Unopened
    accept-Opened b none found decoded = record { at = λ w h. (D, h) }
    accept-Opened b (some m) found decoded = record {
      at = λ w h. elim (Bool-cases (m.format == archive_format)) [
        | inr e ↦ rw e (D, h)
        | inl e ↦ elim (Bool-cases (beq m.slot slot)) [
          | inr f ↦ rw (e, f) (D, h)
          | inl f ↦
              rw (e, f)
                (inr (
                  b,
                  m,
                  found,
                  decoded,
                  (==_iff m.format archive_format).0 e,
                  (beq_iff m.slot slot).0 f,
                  refl,
                  h,
                ))
        ]
      ];
    }

    open_read-Opened :
        (r : Outcome Bytes)
        → Triple
            (λ w. Read r × At p B D w)
            (open_read p slot publication max_bytes r)
            Opened
            Unopened
    open_read-Opened (ok b) = record { at = λ w h. (accept-Opened b _ h.0 refl).at w h.1 }
    open_read-Opened (err e) = record {
      at = λ w h. elim (Bool-cases (is_not_exist e)) [
        | inl t ↦ rw t ((start_archive-Opened (h.0 t)).at w h.1)
        | inr f ↦ rw f (D, h.1)
      ];
    }

    open_archive-At : Triple (At p B D) (open_archive p slot publication max_bytes) Opened Unopened
    unfolding open_archive
    open_archive-At =
        Triple-bind _ _
          (Triple-weaken _ (touch-At p B D open_file) (λ w h. h) (λ _ w h. h) (λ w h. (D, h)))
          λ _. Triple-bind _ _ Read-cases open_read-Opened

    -- The opening of a directory without a manifest gives an archive that has the empty history, with
    -- its manifest written. With a manifest, it gives an archive of that manifest, only if it is of
    -- this format and of this slot, and changes nothing. After an error the bucket is as it was.
    pub open_archive-Opened :
        (w : World)
        → At p B D w
        → After Opened Unopened (open_archive p slot publication max_bytes w)
    open_archive-Opened w h = open_archive-At.at w h
